-- ===== src/Builder/Query/Signed/Extremes.antt =====
-- src/execution/reference_interpreter.cpp: what the accumulator holds after rows of MinI64 and of MaxI64.
use vector_tick.Common.{
  All, ℕ, suc, ◌<◌, ◌^◌, ◌+◌, ◌%◌, false, if◌then◌else◌, List, [], ◌∷◌, ◌==◌, ◌≡◌, refl, ◌∙◌, ap,
  arith, length,
}
use vector_tick.Common.Int.{ℤ, pos, negsuc, i64_min, i64_max, to_i64, to_u64, IsI64, to_i64-IsI64}
use vector_tick.Ir.Ops.{Opcode}
use vector_tick.Interpreter.Aggregate.{min_ℤ, max_ℤ, Accumulator, initial, aggregate_value}
use vector_tick.Builder.Query.Reference.{add_all}
use vector_tick.Builder.Query.Signed.{lesser, greater, best, best_of}

-- `add_row` of the two extremes.
abbrev pub add_min : ℕ → Accumulator → Accumulator
add_min v a = record a { count = (a.count + 1) % 2 ^ 64; min_i64 = min_ℤ a.min_i64 (to_i64 v) }

abbrev pub add_max : ℕ → Accumulator → Accumulator
add_max v a = record a { count = (a.count + 1) % 2 ^ 64; max_i64 = max_ℤ a.max_i64 (to_i64 v) }

min_ℤ-lesser : (x y : ℤ) → min_ℤ x y ≡ lesser x y
min_ℤ-lesser (pos m) (pos n) = ground arith
min_ℤ-lesser (pos m) (negsuc n) = ground arith
min_ℤ-lesser (negsuc m) (pos n) = ground arith
min_ℤ-lesser (negsuc m) (negsuc n) = ground arith

max_ℤ-greater : (x y : ℤ) → max_ℤ x y ≡ greater x y
max_ℤ-greater (pos m) (pos n) = ground arith
max_ℤ-greater (pos m) (negsuc n) = ground arith
max_ℤ-greater (negsuc m) (pos n) = ground arith
max_ℤ-greater (negsuc m) (negsuc n) = ground arith

min-best :
    (vs : List ℕ) (a : Accumulator) → (add_all add_min vs a).min_i64 ≡ best lesser a.min_i64 vs
unfolding add_all best
min-best [] a = refl
min-best (v ∷ vs) a =
    min-best vs (add_min v a) ∙ ap (λ z. best lesser z vs) (min_ℤ-lesser a.min_i64 (to_i64 v))

max-best :
    (vs : List ℕ) (a : Accumulator) → (add_all add_max vs a).max_i64 ≡ best greater a.max_i64 vs
unfolding add_all best
max-best [] a = refl
max-best (v ∷ vs) a =
    max-best vs (add_max v a) ∙ ap (λ z. best greater z vs) (max_ℤ-greater a.max_i64 (to_i64 v))

-- The start of each extreme gives way to the first value.
lesser_start : (z : ℤ) → IsI64 z → lesser i64_max z ≡ z
lesser_start (pos n) h = ground arith
lesser_start (negsuc n) h = ground arith

greater_start : (z : ℤ) → IsI64 z → greater i64_min z ≡ z
greater_start (pos n) h = ground arith
greater_start (negsuc n) h = ground arith

count-add_all :
    (add : ℕ → Accumulator → Accumulator)
    → ((v : ℕ) (a : Accumulator) → (add v a).count ≡ (a.count + 1) % 2 ^ 64)
    → (vs : List ℕ) (a : Accumulator) → a.count < 2 ^ 64
    → (add_all add vs a).count ≡ (a.count + length vs) % 2 ^ 64
unfolding add_all
count-add_all add one [] a h = omega arith
count-add_all add one (v ∷ vs) a h =
    let next = one v a in
    omega (arith, next, count-add_all add one vs (add v a) (omega (arith, next)))

some_rows :
    (add : ℕ → Accumulator → Accumulator)
    → ((v : ℕ) (a : Accumulator) → (add v a).count ≡ (a.count + 1) % 2 ^ 64)
    → (v : ℕ) (vs : List ℕ) → suc (length vs) < 2 ^ 64
    → (add_all add (v ∷ vs) initial).count == 0 ≡ false
some_rows add one v vs h =
    let counted = count-add_all add one (v ∷ vs) initial (omega arith) in ground (arith, counted)

pub min-extreme :
    (vs : List ℕ)
    → All (λ v. v < 2 ^ 64) vs
    → length vs < 2 ^ 64
    → aggregate_value Opcode.min_i64 (add_all add_min vs initial) ≡ best_of lesser vs
unfolding best add_all
min-extreme [] h k = refl
min-extreme (v ∷ vs) (h, hs) k =
    ap (λ b. if b then 0 else to_u64 (add_all add_min (v ∷ vs) initial).min_i64)
      (some_rows add_min (λ v a. refl) v vs k)
    ∙ ap to_u64 (
        min-best (v ∷ vs) initial
        ∙ ap (λ z. best lesser z vs) (lesser_start (to_i64 v) (to_i64-IsI64 v h)))

pub max-extreme :
    (vs : List ℕ)
    → All (λ v. v < 2 ^ 64) vs
    → length vs < 2 ^ 64
    → aggregate_value Opcode.max_i64 (add_all add_max vs initial) ≡ best_of greater vs
unfolding best add_all
max-extreme [] h k = refl
max-extreme (v ∷ vs) (h, hs) k =
    ap (λ b. if b then 0 else to_u64 (add_all add_max (v ∷ vs) initial).max_i64)
      (some_rows add_max (λ v a. refl) v vs k)
    ∙ ap to_u64 (
        max-best (v ∷ vs) initial
        ∙ ap (λ z. best greater z vs) (greater_start (to_i64 v) (to_i64-IsI64 v h)))
