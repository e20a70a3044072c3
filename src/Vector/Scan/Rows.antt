-- ===== src/Vector/Scan/Rows.antt =====
-- src/execution/vector_executor.cpp: the rows of events by their indices, and how many of them pass a test.
use vector_tick.Common.{
  ℕ, zero, suc, ◌+◌, ◌%◌, ◌^◌, ◌<◌, ◌≤◌, Bool, true, false, List, [], ◌∷◌, All, Option, none, some,
  get_elem?, length, ltb, if◌then◌else◌, ◌≡◌, refl, sym, ◌∙◌, ap, fun_ext, arith,
}
use mathlib.Core.Path.{subst}
use vector_tick.Common.Int.{IsI64}
use vector_tick.Event.{CanonicalEvent}
use vector_tick.Builder.Query.Aggregate.{zero_event}
use vector_tick.Vector.{Selection, ColumnBatch, indices_from, load_batch_from_events}
use vector_tick.Vector.Filter.Agree.{passing_rows, passing_rows-cons}

-- How many of `n` indices from `i` on pass.
unfoldable pub count : (ℕ → Bool) → ℕ → ℕ → ℕ
count f i zero = 0
count f i (suc n) = (if f i then 1 else 0) + count f (i + 1) n

pub passing_rows-count :
    (f : ℕ → Bool) (i n : ℕ)
    → i + n ≤ 2 ^ 16
    → length (passing_rows f (indices_from i n)) ≡ count f i n
unfolding indices_from count
passing_rows-count f i zero h = refl
passing_rows-count f i (suc n) h = rw (small i (omega arith)) (
    ap length (passing_rows-cons f i (indices_from (i + 1) n))
    ∙ longer (f i) i (passing_rows f (indices_from (i + 1) n))
    ∙ ap (λ (k : ℕ). (if f i then 1 else 0) + k) (passing_rows-count f (i + 1) n (omega arith)))
  where
    small : (i : ℕ) → i < 2 ^ 16 → i % 2 ^ 16 ≡ i
    small i l = omega arith

    longer :
        (b : Bool) (x : ℕ) (xs : Selection)
        → length (if b then x ∷ xs else xs) ≡ (if b then 1 else 0) + length xs
    longer true x xs = omega arith
    longer false x xs = omega arith

pub count-shift :
    (f : ℕ → Bool) (start i n : ℕ) → count (λ j. f (start + j)) i n ≡ count f (start + i) n
unfolding count
count-shift f start i zero = refl
count-shift f start i (suc n) =
    ap (λ (k : ℕ). (if f (start + i) then 1 else 0) + k)
      (count-shift f start (i + 1) n ∙ ap (λ (j : ℕ). count f j n) (omega arith))

pub count-add : (f : ℕ → Bool) (i a b : ℕ) → count f i (a + b) ≡ count f i a + count f (i + a) b
unfolding count
count-add f i zero b =
    let all : count f i (0 + b) ≡ count f i b = ap (λ (n : ℕ). count f i n) (omega arith) in
    let from : count f (i + 0) b ≡ count f i b = ap (λ (n : ℕ). count f n b) (omega arith) in
    omega (arith, all, from)
count-add f i (suc a) b =
    let apart : count f (i + 1 + a) b ≡ count f (i + suc a) b =
      ap (λ (n : ℕ). count f n b) (omega arith) in
    let whole : suc a + b ≡ suc (a + b) = omega arith in
    let shape : count f i (suc a + b) ≡ count f i (suc (a + b)) =
      ap (λ (n : ℕ). count f i n) whole in
    shape ∙ omega (arith, count-add f (i + 1) a b, apart)

-- An event by its index.
abbrev pub row_or : Option CanonicalEvent → CanonicalEvent
row_or none = zero_event
row_or (some ev) = ev

abbrev pub row_at : List CanonicalEvent → ℕ → CanonicalEvent
row_at events i = row_or (get_elem? events i)

pub row-IsI64 :
    (events : List CanonicalEvent) (i : ℕ)
    → All (λ ev. IsI64 ev.price_ticks) events
    → IsI64 (row_at events i).price_ticks
row-IsI64 [] i h = omega arith
row-IsI64 (ev ∷ events) zero (h, hs) = h
row-IsI64 (ev ∷ events) (suc i) (h, hs) = row-IsI64 events i hs

pub get-row :
    (events : List CanonicalEvent) (i : ℕ)
    → i < length events
    → get_elem? events i ≡ some (row_at events i)
get-row [] i h = absurd (omega arith)
get-row (ev ∷ events) zero h = refl
get-row (ev ∷ events) (suc i) h = get-row events i (omega arith)

pub loaded_price :
    (events : List CanonicalEvent) (start n : ℕ) (batch : ColumnBatch) (i : ℕ)
    → i < n
    → start + n ≤ length events
    → (load_batch_from_events events start n batch).price_ticks i
      ≡ (row_at events (start + i)).price_ticks
unfolding load_batch_from_events
loaded_price events start n batch i h l =
    rw (ltb_true i n h, get-row events (start + i) (omega arith)) refl
  where
    ltb_true : (i n : ℕ) → i < n → ltb i n ≡ true
    ltb_true i n h = ground arith

pub All-indices :
    {P : ℕ → Type 0} (i n : ℕ)
    → i + n ≤ 2 ^ 16
    → ((j : ℕ) → j < i + n → P j)
    → All P (indices_from i n)
unfolding indices_from
All-indices i zero h p = tt
All-indices {P = P} i (suc n) h p = (
  subst P (omega arith) (p i (omega arith)),
  All-indices (i + 1) n (omega arith) (λ j l. p j (omega arith)),
)

-- How many events of a list pass.
unfoldable pub passing : (CanonicalEvent → Bool) → List CanonicalEvent → ℕ
passing test [] = 0
passing test (ev ∷ events) = (if test ev then 1 else 0) + passing test events

pub count-passing :
    (test : CanonicalEvent → Bool) (events : List CanonicalEvent)
    → count (λ i. test (row_at events i)) 0 (length events) ≡ passing test events
unfolding count passing
count-passing test [] = refl
count-passing test (ev ∷ events) =
    let later : count (λ j. test (row_at (ev ∷ events) (1 + j))) 0 (length events)
        ≡ count (λ i. test (row_at (ev ∷ events) i)) (0 + 1) (length events) =
      count-shift (λ i. test (row_at (ev ∷ events) i)) 1 0 (length events) in
    let next : count (λ j. test (row_at (ev ∷ events) (1 + j))) 0 (length events)
        ≡ count (λ j. test (row_at events j)) 0 (length events) =
      ap (λ f. count f 0 (length events))
        (fun_ext (λ j. ap (λ (i : ℕ). test (row_at (ev ∷ events) i)) (one_more j))) in
    ap (λ (k : ℕ). (if test ev then 1 else 0) + k) (sym later ∙ next ∙ count-passing test events)
  where
    one_more : (j : ℕ) → 1 + j ≡ suc j
    one_more j = omega arith
