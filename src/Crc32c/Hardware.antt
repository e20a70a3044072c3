-- ===== src/Crc32c/Hardware.antt =====
-- The CRC instructions compute the same checksum as the bitwise reference.
use vector_tick.Common.{
  ℕ, zero, suc, ◌+◌, ◌-◌, ◌%◌, ◌^◌, ◌≤◌, ◌<◌, true, leb, List, [], ◌∷◌, ◌++◌, ◌≡◌, refl, sym, ◌∙◌,
  ap, ap₂, fun_ext, arith, inl, inr, Bool-cases, leb→le,
}
use native.Mathlib.Nat.{mod-eq_of_lt}
use vector_tick.Bits.Xor.{bit_xor-lt-pow}
use vector_tick.Memory.{Mem, IsBytes, shift, byte_of, load_le, bytes}
use vector_tick.Crc32c.{CrcUnit, unit_blocks, unit_four, unit_two, unit_one, compute_unit}
use vector_tick.Crc32c.Reference.{crc_step, crc_bytes, crc_bytes-append, rounds-lt}

-- The `n` bytes of an operand, lowest first.
abbrev pub operand_bytes : ℕ → ℕ → ℕ → List ℕ
operand_bytes zero v j = []
operand_bytes (suc n) v j = byte_of v j ∷ operand_bytes n v (suc j)

-- What the manuals of the instructions say: each absorbs the bytes of its operand, lowest first.
pub record IsCrc32c (u : CrcUnit) : Type 0 where
  pub absorbs_8 : (acc v : ℕ) → acc < 2 ^ 32 → v < 2 ^ 8 → u.crc_u8 acc v ≡ crc_step acc v
  pub absorbs_16 :
      (acc v : ℕ)
      → acc < 2 ^ 32
      → v < 2 ^ 16
      → u.crc_u16 acc v ≡ crc_bytes acc (operand_bytes 2 v 0)
  pub absorbs_32 :
      (acc v : ℕ)
      → acc < 2 ^ 32
      → v < 2 ^ 32
      → u.crc_u32 acc v ≡ crc_bytes acc (operand_bytes 4 v 0)
  pub absorbs_64 :
      (acc v : ℕ)
      → acc < 2 ^ 32
      → v < 2 ^ 64
      → u.crc_u64 acc v ≡ crc_bytes acc (operand_bytes 8 v 0)

crc_step-lt : (acc b : ℕ) → acc < 2 ^ 32 → b < 256 → crc_step acc b < 2 ^ 32
unfolding crc_step
crc_step-lt acc b ha hb = rounds-lt 8 _ (bit_xor-lt-pow 32 acc b ha (omega arith))

pub crc_bytes-lt :
    (m : Mem) (n acc : ℕ) → IsBytes m → acc < 2 ^ 32 → crc_bytes acc (bytes m n) < 2 ^ 32
unfolding crc_bytes bytes
crc_bytes-lt m zero acc b h = h
crc_bytes-lt m (suc n) acc b h =
    crc_bytes-lt (shift m 1) n (crc_step acc (m 0)) (λ i. b (1 + i)) (crc_step-lt acc (m 0) h (b 0))

bytes-append : (m : Mem) (k n : ℕ) → bytes m (k + n) ≡ bytes m k ++ bytes (shift m k) n
unfolding bytes
bytes-append m zero n = ap₂ bytes (fun_ext λ i. ap m (omega arith)) (omega arith)
bytes-append m (suc k) n =
    ap (bytes m) (let e : suc k + n ≡ suc (k + n) = omega arith in e)
    ∙ ap (λ bs. m 0 ∷ bs)
        (bytes-append (shift m 1) k n
          ∙ ap (λ f. bytes (shift m 1) k ++ bytes f n) (fun_ext λ i. ap m (omega arith)))

operand_8 : (m : Mem) → IsBytes m → operand_bytes 8 (load_le 8 m 0) 0 ≡ bytes m 8
unfolding bytes
operand_8 m b = ground (arith, b 0, b 1, b 2, b 3, b 4, b 5, b 6, b 7)

operand_4 : (m : Mem) → IsBytes m → operand_bytes 4 (load_le 4 m 0) 0 ≡ bytes m 4
unfolding bytes
operand_4 m b = ground (arith, b 0, b 1, b 2, b 3)

operand_2 : (m : Mem) → IsBytes m → operand_bytes 2 (load_le 2 m 0) 0 ≡ bytes m 2
unfolding bytes
operand_2 m b = ground (arith, b 0, b 1)

-- What is left to do at a state of the routine: from `crc` over the `n` bytes at `m` to `t`.
abbrev Ahead : ℕ → Mem × ℕ × ℕ → Type 0
Ahead t (m, crc, n) = IsBytes m × (crc < 2 ^ 32) × (crc_bytes crc (bytes m n) ≡ t)

absorb :
    (t : ℕ) (m : Mem) (crc n k crc' : ℕ)
    → k ≤ n
    → crc' ≡ crc_bytes crc (bytes m k)
    → Ahead t (m, crc, n)
    → Ahead t (shift m k, crc', n - k)
absorb t m crc n k crc' h e (b, small, ahead) =
    (λ i. b (k + i), rw e (crc_bytes-lt m k crc b small), rw e joined)
  where
    joined : crc_bytes (crc_bytes crc (bytes m k)) (bytes (shift m k) (n - k)) ≡ t
    joined =
        sym (crc_bytes-append crc (bytes m k) (bytes (shift m k) (n - k)))
        ∙ ap (crc_bytes crc) (sym (bytes-append m k (n - k)))
        ∙ ap (λ x. crc_bytes crc (bytes m x)) (let d : k + (n - k) ≡ n = omega arith in d)
        ∙ ahead

module _ (u : CrcUnit) (law : IsCrc32c u) (t : ℕ) where
  block-Ahead :
      (m : Mem) (crc n : ℕ)
      → 8 ≤ n
      → Ahead t (m, crc, n)
      → Ahead t (shift m 8, u.crc_u64 crc (load_le 8 m 0) % 2 ^ 32, n - 8)
  block-Ahead m crc n h a = absorb t m crc n 8 _ h (mod-eq_of_lt fits ∙ whole) a
    where
      word : load_le 8 m 0 < 2 ^ 64
      word = omega (arith, a.0 0, a.0 1, a.0 2, a.0 3, a.0 4, a.0 5, a.0 6, a.0 7)

      whole : u.crc_u64 crc (load_le 8 m 0) ≡ crc_bytes crc (bytes m 8)
      whole = law.absorbs_64 crc _ a.1 word ∙ ap (crc_bytes crc) (operand_8 m a.0)

      fits : u.crc_u64 crc (load_le 8 m 0) < 2 ^ 32
      fits = rw whole (crc_bytes-lt m 8 crc a.0 a.1)

  blocks-Ahead :
      (fuel : ℕ) (m : Mem) (crc n : ℕ)
      → n ≤ fuel
      → Ahead t (m, crc, n)
      → Ahead t (unit_blocks true u fuel m crc n) × ((unit_blocks true u fuel m crc n).2 < 8)
  unfolding unit_blocks
  blocks-Ahead zero m crc n h a = (a, omega arith)
  blocks-Ahead (suc fuel) m crc n h a = elim (Bool-cases (leb 8 n)) [
    | inl more ↦ rw more (
        blocks-Ahead fuel (shift m 8) (u.crc_u64 crc (load_le 8 m 0) % 2 ^ 32) (n - 8)
          (omega (arith, leb→le 8 n more)) (block-Ahead m crc n (leb→le 8 n more) a))
    | inr done ↦ rw done (a, ground arith)
  ]

  four-Ahead :
      (s : Mem × ℕ × ℕ)
      → Ahead t s
      → s.2 < 8
      → Ahead t (unit_four true u s) × ((unit_four true u s).2 < 4)
  unfolding unit_four
  four-Ahead (m, crc, n) a h = elim (Bool-cases (leb 4 n)) [
    | inl more ↦ rw more (absorb t m crc n 4 _ (leb→le 4 n more) whole a, omega arith)
    | inr done ↦ rw done (a, ground arith)
  ]
    where
      whole : u.crc_u32 crc (load_le 4 m 0) ≡ crc_bytes crc (bytes m 4)
      whole =
          law.absorbs_32 crc _ a.1 (omega (arith, a.0 0, a.0 1, a.0 2, a.0 3))
          ∙ ap (crc_bytes crc) (operand_4 m a.0)

  two-Ahead :
      (s : Mem × ℕ × ℕ)
      → Ahead t s
      → s.2 < 4
      → Ahead t (unit_two true u s) × ((unit_two true u s).2 < 2)
  unfolding unit_two
  two-Ahead (m, crc, n) a h = elim (Bool-cases (leb 2 n)) [
    | inl more ↦ rw more (absorb t m crc n 2 _ (leb→le 2 n more) whole a, omega arith)
    | inr done ↦ rw done (a, ground arith)
  ]
    where
      whole : u.crc_u16 crc (load_le 2 m 0) ≡ crc_bytes crc (bytes m 2)
      whole =
          law.absorbs_16 crc _ a.1 (omega (arith, a.0 0, a.0 1))
          ∙ ap (crc_bytes crc) (operand_2 m a.0)

  one-Ahead : (s : Mem × ℕ × ℕ) → Ahead t s → s.2 < 2 → unit_one u s ≡ t
  unfolding unit_one crc_bytes bytes
  one-Ahead (m, crc, zero) a h = a.2
  one-Ahead (m, crc, suc zero) a h = law.absorbs_8 crc (m 0) a.1 (a.0 0) ∙ a.2
  one-Ahead (m, crc, suc (suc n)) a h = absurd (omega arith)

-- On a little-endian host the routine built on the CRC instructions is the bitwise CRC of every number
-- of bytes from a 32-bit start, given that the instructions do what their manuals say.
pub compute_unit-crc_bytes :
    (u : CrcUnit) (crc : ℕ) (m : Mem) (n : ℕ)
    → IsCrc32c u
    → IsBytes m
    → crc < 2 ^ 32
    → compute_unit true u crc m n ≡ crc_bytes crc (bytes m n)
unfolding compute_unit
compute_unit-crc_bytes u crc m n law b h =
    let t = crc_bytes crc (bytes m n) in
    let (eight, below8) = blocks-Ahead u law t n m crc n (omega arith) (b, h, refl) in
    let (four, below4) = four-Ahead u law t _ eight below8 in
    let (two, below2) = two-Ahead u law t _ four below4 in one-Ahead u law t _ two below2
