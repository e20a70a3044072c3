-- ===== src/Crc32c/Table.antt =====
-- The table computes eight rounds at once.
use vector_tick.Common.{
  ℕ, zero, suc, ◌+◌, ◌*◌, ◌/◌, ◌%◌, ◌^◌, ◌<◌, true, if◌then◌else◌, List, [], ◌∷◌, bit_and, bit_xor,
  ◌≡◌, refl, sym, ◌∙◌, ap, ap₂, arith, All, Bool-cases, inl, inr, lt→ltb,
}
use mathlib.Core.Path.{subst}
use vector_tick.Bits.Field.{bit_and-mask}
use vector_tick.Bits.Xor.{bit_xor-zero, bit_xor-add, bit_xor-div-pow}
use vector_tick.Memory.{Mem, IsBytes, shift, bytes}
use vector_tick.Crc32c.{Crc, start, rounds, filled, init, table_step, table_loop, compute_sw}
use vector_tick.Crc32c.Reference.{crc_step, crc_bytes, rounds-bit_xor, rounds-zeros}

-- The statics before or after `init`: once `initialized_` is set, the table is right.
pub IsSound : Crc → Type 0
IsSound c = c.initialized ≡ true → (i : ℕ) → i < 256 → c.table i ≡ rounds 8 i

-- The table is filled.
pub record IsReady (c : Crc) : Type 0 where
  pub ready : c.initialized ≡ true
  pub entries : (i : ℕ) → i < 256 → c.table i ≡ rounds 8 i

pub IsReady-IsSound : {c : Crc} → IsReady c → IsSound c
unfolding IsSound
IsReady-IsSound r e = r.entries

pub start-IsSound : IsSound start
unfolding IsSound
start-IsSound e = cc

pub init-IsReady : (c : Crc) → IsSound c → IsReady (init c)
unfolding init IsSound
init-IsReady c s = elim (Bool-cases c.initialized) [
  | inl e ↦
      subst (λ b. IsReady (if b then c else filled c)) (sym e) (record { ready = e; entries = s e })
  | inr e ↦
      subst (λ b. IsReady (if b then c else filled c)) (sym e)
        (record { ready = refl; entries = λ i h. rw (lt→ltb i 256 h) })
]

-- The lowest byte and the rest go through the rounds apart.
rounds-byte : (x : ℕ) → rounds 8 x ≡ bit_xor (rounds 8 (x % 256)) (x / 256)
rounds-byte x =
    ap (rounds 8) parts
    ∙ rounds-bit_xor 8 (x % 256) (x / 256 * 2 ^ 8)
    ∙ ap (bit_xor (rounds 8 (x % 256))) (rounds-zeros 8 (x / 256))
  where
    parts : x ≡ bit_xor (x % 256) (x / 256 * 2 ^ 8)
    parts = omega (arith, bit_xor-add 8 (x / 256) (x % 256) (omega arith))

-- One table lookup is eight rounds of the polynomial.
pub table_step-crc_step :
    (c : Crc) (crc b : ℕ) → IsReady c → b < 256 → table_step c crc b ≡ crc_step crc b
unfolding table_step crc_step
table_step-crc_step c crc b r h =
    ap₂ bit_xor (r.entries _ small ∙ ap (rounds 8) low) high ∙ sym (rounds-byte (bit_xor crc b))
  where
    low : bit_and (bit_xor crc b) 0xFF ≡ bit_xor crc b % 256
    low = bit_and-mask 8 (bit_xor crc b)

    small : bit_and (bit_xor crc b) 0xFF < 256
    small = omega (arith, low)

    high : crc / 2 ^ 8 ≡ bit_xor crc b / 256
    high = sym (
        bit_xor-div-pow 8 crc b
        ∙ ap (bit_xor (crc / 256)) (let e : b / 256 ≡ 0 = omega arith in e)
        ∙ bit_xor-zero (crc / 256))

pub table_loop-crc_bytes :
    (c : Crc) (crc : ℕ) (bs : List ℕ)
    → IsReady c
    → All (λ b. b < 256) bs
    → table_loop c crc bs ≡ crc_bytes crc bs
unfolding table_loop crc_bytes
table_loop-crc_bytes c crc [] r h = refl
table_loop-crc_bytes c crc (b ∷ bs) r (hb, hbs) =
    table_loop-crc_bytes c (table_step c crc b) bs r hbs
    ∙ ap (λ x. crc_bytes x bs) (table_step-crc_step c crc b r hb)

pub bytes-All : (m : Mem) (n : ℕ) → IsBytes m → All (λ b. b < 256) (bytes m n)
unfolding bytes
bytes-All m zero b = tt
bytes-All m (suc n) b = (b 0, bytes-All (shift m 1) n (λ i. b (1 + i)))

-- From statics that `init` filled or nobody touched, the software routine over any number of bytes is
-- the bitwise CRC, and it leaves the table filled.
pub compute_sw-crc_bytes :
    (c : Crc) (crc : ℕ) (m : Mem) (n : ℕ)
    → IsSound c
    → IsBytes m
    → (IsReady (compute_sw c crc m n).0) × ((compute_sw c crc m n).1 ≡ crc_bytes crc (bytes m n))
unfolding compute_sw
compute_sw-crc_bytes c crc m n s b =
    let r = init-IsReady c s in
    (r, table_loop-crc_bytes (init c) crc (bytes m n) r (bytes-All m n b))
