-- ===== src/Builder/Correct/Blocks.antt =====
-- Code without control flow at the start of a list of instructions, for the loops that execute one.
use vector_tick.Common.{ℕ, ◌≤◌, ◌<◌, List, [], ◌∷◌, ◌++◌, some, ◌≡◌, refl, ◌∙◌, ap, arith}
use mathlib.Core.List.{append_assoc}
use vector_tick.Status.{StatusCode}
use vector_tick.Event.{CanonicalEvent}
use vector_tick.Ir.{Instruction}
use vector_tick.Interpreter.{Values, set, execute_instruction}
use vector_tick.Interpreter.Arithmetic.{Run, done, failed, undefined, ◌>>=◌}
use vector_tick.Builder.Emit.{Builder}
use vector_tick.Builder.Operators.{Emits, IsPlain}

-- A loop over instructions that executes the plain ones: it goes on with the values that
-- `execute_instruction` leaves, and stops at its errors.
pub record Loop (event : CanonicalEvent) : Type 1 where
  pub State : Type 0
  pub Ended : Type 0
  pub values : State → Values
  pub update : State → Values → State
  pub values-update : (s : State) (v : Values) → values (update s v) ≡ v
  pub loop : List Instruction → State → Ended
  pub error : StatusCode → Ended
  pub lost : Ended
  pub goes :
      (i : Instruction) (rest : List Instruction) (s : State) (v : Values)
      → IsPlain i
      → execute_instruction i event (values s) ≡ done v
      → loop (i ∷ rest) s ≡ loop rest (update s v)
  pub fails :
      (i : Instruction) (rest : List Instruction) (s : State) (e : StatusCode)
      → IsPlain i
      → execute_instruction i event (values s) ≡ failed e
      → loop (i ∷ rest) s ≡ error e
  pub loses :
      (i : Instruction) (rest : List Instruction) (s : State)
      → IsPlain i
      → execute_instruction i event (values s) ≡ undefined
      → loop (i ∷ rest) s ≡ lost

set-same : (values : Values) (r v : ℕ) → set values r v r ≡ some v
set-same values r v = ground arith

set-other : (values : Values) (r v i : ℕ) → i < r → set values r v i ≡ values i
set-other values r v i h = ground arith

module _ {event : CanonicalEvent} (K : Loop event) where
  -- `code` computes `m`: with a value, it leaves it in value `id`, changes no value below `low` and
  -- goes on to the rest of the instructions; without, the loop ends there.
  abbrev pub Runs : Run ℕ → List Instruction → ℕ → ℕ → K.State → Type 0
  Runs (done v) code id low s =
      (s' : K.State) × ((rest : List Instruction) → K.loop (code ++ rest) s ≡ K.loop rest s')
      × (K.values s' id ≡ some v)
      × ((i : ℕ) → i < low → K.values s' i ≡ K.values s i)
  Runs (failed e) code id low s = (rest : List Instruction) → K.loop (code ++ rest) s ≡ K.error e
  Runs undefined code id low s = (rest : List Instruction) → K.loop (code ++ rest) s ≡ K.lost

  module _ (i : Instruction) (flat : IsPlain i) (r : ℕ) (s : K.State) where
    one :
        (m : Run ℕ)
        → execute_instruction i event (K.values s) ≡ (m >>= λ v. done (set (K.values s) r v))
        → Runs m (i ∷ []) r r s
    one (done v) e =
        let left = set (K.values s) r v in
        (
          K.update s left,
          (λ rest. K.goes i rest s left flat e),
          ap (λ values. values r) (K.values-update s left) ∙ set-same (K.values s) r v,
          λ k h. ap (λ values. values k) (K.values-update s left) ∙ set-other (K.values s) r v k h,
        )
    one (failed c) e = λ rest. K.fails i rest s c flat e
    one undefined e = λ rest. K.loses i rest s flat e

  -- The instruction of an emission, at value `r`.
  pub Runs-one :
      {A : Type 0} {lowered : Builder → ℕ × Builder} {m : A → Run ℕ} {known : A → Values → Type 0}
      (E : Emits event lowered m known) (x : A) (r : ℕ) (s : K.State)
      → known x (K.values s)
      → Runs (m x) (E.instr r ∷ []) r r s
  Runs-one {m = m} E x r s k =
      one (E.instr r) (E.is_plain r) r s (m x) (E.computes x r (K.values s) k)

  module _ (f : ℕ → Run ℕ) (c c' : List Instruction) (id id' low low' : ℕ) (s : K.State)
      (up : low ≤ low') where
    joined : (rest : List Instruction) → K.loop ((c ++ c') ++ rest) s ≡ K.loop (c ++ (c' ++ rest)) s
    joined rest = ap (λ block. K.loop block s) (append_assoc c c' rest)

    goes_on :
        (v : ℕ) (R : Runs (done v) c id low s) (n : Run ℕ)
        → Runs n c' id' low' (R.0)
        → Runs n (c ++ c') id' low s
    goes_on v (s₁, to, has, keeps) (done w) (s₂, to', has', keeps') = (
      s₂,
      (λ rest. joined rest ∙ to (c' ++ rest) ∙ to' rest),
      has',
      λ i h. keeps' i (omega arith) ∙ keeps i h,
    )
    goes_on v (s₁, to, has, keeps) (failed e) ends =
        λ rest. joined rest ∙ to (c' ++ rest) ∙ ends rest
    goes_on v (s₁, to, has, keeps) undefined ends =
        λ rest. joined rest ∙ to (c' ++ rest) ∙ ends rest

    -- Code for `m`, then code that goes on with its value.
    pub Runs-then :
        (m : Run ℕ)
        → Runs m c id low s
        → ((v : ℕ) (s' : K.State)
            → m ≡ done v
            → K.values s' id ≡ some v
            → ((i : ℕ) → i < low → K.values s' i ≡ K.values s i)
            → Runs (f v) c' id' low' s')
        → Runs (m >>= f) (c ++ c') id' low s
    Runs-then (done v) R k = goes_on v R (f v) (k v R.0 refl R.2 R.3)
    Runs-then (failed e) R k = λ rest. joined rest ∙ R (c' ++ rest)
    Runs-then undefined R k = λ rest. joined rest ∙ R (c' ++ rest)
