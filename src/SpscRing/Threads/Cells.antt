-- ===== src/SpscRing/Threads/Cells.antt =====
-- include/vectortick/concurrency/spsc_ring.hpp: the cells of the ring between its indices.
use vector_tick.Common.{
  ℕ, ◌+◌, ◌-◌, ◌%◌, ◌^◌, ◌<◌, ◌≤◌, false, List, [], ◌∷◌, ◌++◌, ◌==◌, if◌then◌else◌, ◌≡◌, sym, ◌∙◌,
  ap, arith, bit_and, length, Bool-cases, ltb, ◌⊎◌, inl, inr,
}
use vector_tick.Bits.Field.{bit_and-mask}
use mathlib.Core.Path.{subst}
use native.Mathlib.Nat.{
  one-le-pow, mod-lt, mod-add-mod, mod-eq_of_lt, mod-eq-sub-mod, add-mod_right,
}

-- Two indices less than a capacity apart fall on different cells.
below : (c r d : ℕ) → 0 < d → r + d < c → (r + d) % c ≡ r → ⊥
below c r d p l e = let low : (r + d) % c ≡ r + d = mod-eq_of_lt l in omega (arith, low, e)

above : (c r d : ℕ) → r < c → d < c → c ≤ r + d → (r + d) % c ≡ r → ⊥
above c r d h q l e =
    let back : (r + d) % c ≡ (r + d - c) % c = mod-eq-sub-mod l in
    let low : (r + d - c) % c ≡ r + d - c = mod-eq_of_lt (omega arith) in
    omega (arith, low, back, e)

pub dichotomy : (a c : ℕ) → (a < c) ⊎ (c ≤ a)
dichotomy a c = elim (Bool-cases (ltb a c)) [
  | inl e ↦ inl (ground arith)
  | inr e ↦ inr (ground arith)
]

pub different : (c m p : ℕ) → 0 < c → m < p → p < m + c → m % c ≡ p % c → ⊥
different c m p pos l u e =
    let shift : (m % c + (p - m)) % c ≡ (m + (p - m)) % c = mod-add-mod m c (p - m) in
    let whole : (m + (p - m)) % c ≡ p % c = ap (λ (n : ℕ). n % c) (omega arith) in
    let back : (m % c + (p - m)) % c ≡ m % c = shift ∙ whole ∙ sym e in
    elim (dichotomy (m % c + (p - m)) c) [
      | inl h ↦ below c (m % c) (p - m) (omega arith) h back
      | inr h ↦ above c (m % c) (p - m) (mod-lt m pos) (omega arith) h back
    ]

-- A buffer after a store.
abbrev pub put {ℓ} : {A : Type ℓ} → (ℕ → A) → ℕ → A → ℕ → A
put buffer p value i = if i == p then value else buffer i

module _ {ℓ} {A : Type ℓ} (cells : ℕ) where
  -- The cells from the index of the `m`-th value on hold a queue of values.
  unfoldable pub Holds : (ℕ → A) → ℕ → List A → Type ℓ
  Holds buffer m [] = Unit
  Holds buffer m (x ∷ queue) = (buffer (m % cells) ≡ x) × Holds buffer (m + 1) queue

  -- A cell outside the queue can be written.
  pub put-Holds :
      (buffer : ℕ → A) (value : A) (p m : ℕ) (queue : List A)
      → 0 < cells
      → m + length queue ≤ p
      → p < m + cells
      → Holds buffer m queue
      → Holds (put buffer (p % cells) value) m queue
  unfolding Holds
  put-Holds buffer value p m [] pos l u h = tt
  put-Holds buffer value p m (x ∷ queue) pos l u (e, h) = (
    ap (λ t. if t then value else buffer (m % cells))
          (false_of (m % cells) (p % cells) (different cells m p pos (omega arith) u))
        ∙ e,
    put-Holds buffer value p (m + 1) queue pos (omega arith) (omega arith) h,
  )
    where
      false_of : (a b : ℕ) → (a ≡ b → ⊥) → a == b ≡ false
      false_of a b n = elim (Bool-cases (a == b)) [ inl e ↦ absurd (n (ground arith)) | inr e ↦ e ]

  pub Holds-append :
      (buffer : ℕ → A) (value : A) (m : ℕ) (queue : List A)
      → buffer ((m + length queue) % cells) ≡ value
      → Holds buffer m queue
      → Holds buffer m (queue ++ value ∷ [])
  unfolding Holds
  Holds-append buffer value m [] e h =
      (subst (λ (n : ℕ). buffer (n % cells) ≡ value) (omega arith) e, tt)
  Holds-append buffer value m (x ∷ queue) e (here, h) = (
    here,
    Holds-append buffer value (m + 1) queue
        (subst (λ (n : ℕ). buffer (n % cells) ≡ value) (omega arith) e) h,
  )

module _ (k : ℕ) where
  pub cells-pos : 0 < 2 ^ k
  cells-pos = one-le-pow k 2 (omega arith)

  -- The next index of the ring is the next number, modulo the cells.
  pub next_lem :
      (mask i n : ℕ) → mask ≡ 2 ^ k - 1 → i ≡ n % 2 ^ k → bit_and (i + 1) mask ≡ (n + 1) % 2 ^ k
  next_lem mask i n e f = rw (e, f) (bit_and-mask k (n % 2 ^ k + 1) ∙ mod-add-mod n (2 ^ k) 1)

  -- The producer's test finds room.
  pub room :
      (count n next head : ℕ)
      → next ≡ (count + n + 1) % 2 ^ k
      → head ≡ count % 2 ^ k
      → n < 2 ^ k
      → next == head ≡ false
      → n + 1 < 2 ^ k
  room count n next head e f l t = elim (dichotomy (n + 1) (2 ^ k)) [
    | inl h ↦ h
    | inr h ↦
        let whole : (count + n + 1) % 2 ^ k ≡ (count + 2 ^ k) % 2 ^ k =
          ap (λ (i : ℕ). i % 2 ^ k) (omega arith) in
        absurd (ground (arith, e, f, whole, add-mod_right count (2 ^ k)))
  ]
