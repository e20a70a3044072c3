-- ===== src/SpscRing/Queue/Indices.antt =====
-- include/vectortick/concurrency/spsc_ring.hpp: what the indices of the ring say of how far they are apart.
use vector_tick.Common.{
  ℕ, zero, suc, ◌+◌, ◌-◌, ◌%◌, ◌^◌, ◌*◌, ◌≤◌, ◌<◌, true, false, ◌==◌, ◌≡◌, sym, ◌∙◌, ap, arith,
  Bool-cases, inl, inr, ==_refl,
}
use mathlib.Core.Path.{subst}
use Prim.Native.Nat.{◌∣◌}
use native.Mathlib.Nat.{
  mod-add-mod, add-mod_right, pow-succ', pow-le-pow_right, mul_assoc, one-mul, dvd-mul_right,
  mul-suc, mod-lt, mod-mod_of_dvd, add-mul-mod_self_left, mod-eq_of_lt, mod-eq-sub-mod,
}
use vector_tick.SpscRing.Threads.Cells.{cells-pos, different, dichotomy}

pub flip : (i j : ℕ) → i == j ≡ j == i
flip i j = ground arith

pub pow_split : (k m : ℕ) → 2 ^ (k + m) ≡ 2 ^ k * 2 ^ m
pow_split zero m = ap (λ (n : ℕ). 2 ^ n) (omega arith) ∙ sym (one-mul (2 ^ m))
pow_split (suc k) m =
    let whole : 2 ^ (suc k + m) ≡ 2 ^ suc (k + m) = ap (λ (n : ℕ). 2 ^ n) (omega arith) in
    whole
    ∙ pow-succ' 2 (k + m)
    ∙ ap (λ (n : ℕ). 2 * n) (pow_split k m)
    ∙ sym (mul_assoc 2 (2 ^ k) (2 ^ m))
    ∙ ap (λ (n : ℕ). n * 2 ^ m) (sym (pow-succ' 2 k))

module _ (k : ℕ) where
  -- Indices of the ring are equal exactly if they are no cell apart, or a whole round.
  pub apart :
      (count d i j : ℕ)
      → i ≡ (count + d) % 2 ^ k
      → j ≡ count % 2 ^ k
      → 0 < d
      → d < 2 ^ k
      → i == j ≡ false
  apart count d i j e f p l = elim (Bool-cases (i == j)) [
    | inl same ↦ absurd (
        different (2 ^ k) count (count + d) (cells-pos k) (omega arith) (omega arith)
          (ground (arith, e, f)))
    | inr other ↦ other
  ]

  pub together :
      (count d i j : ℕ) → i ≡ (count + d) % 2 ^ k → j ≡ count % 2 ^ k → d ≡ 2 ^ k → i == j ≡ true
  together count d i j e f l =
      let round : (count + d) % 2 ^ k ≡ (count + 2 ^ k) % 2 ^ k =
        ap (λ (n : ℕ). (count + n) % 2 ^ k) l in
      rw (e ∙ round ∙ add-mod_right count (2 ^ k) ∙ sym f) (==_refl j)

  pub none_apart :
      (count d i j : ℕ) → i ≡ (count + d) % 2 ^ k → j ≡ count % 2 ^ k → d ≡ 0 → j == i ≡ true
  none_apart count d i j e f z =
      let zero_on : (count + d) % 2 ^ k ≡ count % 2 ^ k =
        ap (λ (n : ℕ). n % 2 ^ k) (omega (arith, z)) in
      rw (e ∙ zero_on ∙ sym f) (==_refl j)

  -- The distance of two indices, with the wrap-around of usize.
  pub distance :
      (count d i j : ℕ)
      → i ≡ (count + d) % 2 ^ k
      → j ≡ count % 2 ^ k
      → d < 2 ^ k
      → k < 64
      → (2 ^ 64 + i - j + 2 ^ k) % 2 ^ 64 % 2 ^ k ≡ d
  distance count d i j e f l small =
      let split : 64 ≡ k + (64 - k) = omega arith in
      let rounds : 2 ^ 64 ≡ 2 ^ k * 2 ^ (64 - k) =
        ap (λ (n : ℕ). 2 ^ n) split ∙ pow_split k (64 - k) in
      let low : j < 2 ^ k = subst (λ (n : ℕ). n < 2 ^ k) (sym f) (mod-lt count (cells-pos k)) in
      let ahead : (j + d) % 2 ^ k ≡ i =
        ap (λ (n : ℕ). (n + d) % 2 ^ k) f ∙ mod-add-mod count (2 ^ k) d ∙ sym e in
      let below_word : k ≤ 64 = omega arith in
      let most : 2 ^ k ≤ 2 ^ 64 = pow-le-pow_right (omega arith) below_word in
      mod-mod_of_dvd (2 ^ k) (2 ^ 64 + i - j + 2 ^ k)
        (subst (λ (n : ℕ). 2 ^ k ∣ n) (sym rounds) (dvd-mul_right (2 ^ k) (2 ^ (64 - k))))
      ∙ elim (dichotomy (j + d) (2 ^ k)) [
        | inl h ↦
            let same : i ≡ j + d = sym ahead ∙ mod-eq_of_lt h in
            ap (λ (n : ℕ). n % 2 ^ k)
              (omega (arith, most, same, rounds, mul-suc (2 ^ k) (2 ^ (64 - k)), low))
            ∙ add-mul-mod_self_left d (2 ^ k) (suc (2 ^ (64 - k)))
            ∙ mod-eq_of_lt l
        | inr h ↦
            let back : (j + d) % 2 ^ k ≡ (j + d - 2 ^ k) % 2 ^ k = mod-eq-sub-mod h in
            let same : i ≡ j + d - 2 ^ k = sym ahead ∙ back ∙ mod-eq_of_lt (omega arith) in
            ap (λ (n : ℕ). n % 2 ^ k) (omega (arith, most, same, rounds, low))
            ∙ add-mul-mod_self_left d (2 ^ k) (2 ^ (64 - k))
            ∙ mod-eq_of_lt l
      ]
