-- ===== src/Crc32c/Combine.antt =====
-- `combine` joins the checksums of two parts, provided that the table was filled before.
use vector_tick.Common.{
  ℕ, zero, suc, ◌/◌, ◌^◌, ◌≤◌, ◌<◌, List, [], ◌∷◌, ◌++◌, length, bit_and, bit_xor, ◌≡◌, refl, sym,
  ◌∙◌, ap, arith, if◌then◌else◌, ne→==,
}
use mathlib.Core.List.{append-nil}
use vector_tick.Bits.Digit.{zero-bit_xor}
use vector_tick.Bits.Xor.{bit_xor-zero, bit_xor_self, bit_xor_assoc, bit_xor_comm}
use vector_tick.Crc32c.{Crc, start, rounds, table_step, combine_loop, combine}
use vector_tick.Crc32c.Reference.{crc_step, crc_bytes, crc32c, crc_bytes-append, rounds-bit_xor}
use vector_tick.Crc32c.Table.{IsReady, table_step-crc_step}

-- `n` zero bytes.
abbrev zero_bytes : ℕ → ℕ → ℕ
zero_bytes acc zero = acc
zero_bytes acc (suc n) = zero_bytes (crc_step acc 0) n

-- Absorbing a byte from `x` is absorbing a zero byte from `x ^ y`, and the byte from `y`.
crc_step_split : (x y b : ℕ) → crc_step x b ≡ bit_xor (crc_step (bit_xor x y) 0) (crc_step y b)
unfolding crc_step
crc_step_split x y b =
    ap (rounds 8) (sym shared) ∙ rounds-bit_xor 8 (bit_xor (bit_xor x y) 0) (bit_xor y b)
  where
    shared : bit_xor (bit_xor (bit_xor x y) 0) (bit_xor y b) ≡ bit_xor x b
    shared =
        ap (λ z. bit_xor z (bit_xor y b)) (bit_xor-zero (bit_xor x y))
        ∙ bit_xor_assoc x y (bit_xor y b)
        ∙ ap (bit_xor x)
            (sym (bit_xor_assoc y y b) ∙ ap (λ z. bit_xor z b) (bit_xor_self y) ∙ zero-bit_xor b)

bit_xor_cancel : (x y : ℕ) → bit_xor (bit_xor x y) y ≡ x
bit_xor_cancel x y = bit_xor_assoc x y y ∙ ap (bit_xor x) (bit_xor_self y) ∙ bit_xor-zero x

crc_bytes_split :
    (x y : ℕ) (bs : List ℕ)
    → crc_bytes x bs ≡ bit_xor (zero_bytes (bit_xor x y) (length bs)) (crc_bytes y bs)
unfolding crc_bytes
crc_bytes_split x y [] = sym (bit_xor_cancel x y)
crc_bytes_split x y (b ∷ bs) =
    crc_bytes_split (crc_step x b) (crc_step y b) bs
    ∙ ap (λ z. bit_xor (zero_bytes z (length bs)) (crc_bytes (crc_step y b) bs)) shifted
  where
    shifted : bit_xor (crc_step x b) (crc_step y b) ≡ crc_step (bit_xor x y) 0
    shifted =
        ap (λ z. bit_xor z (crc_step y b)) (crc_step_split x y b)
        ∙ bit_xor_cancel (crc_step (bit_xor x y) 0) (crc_step y b)

combine_loop-zero_bytes :
    (c : Crc) (result n : ℕ) → IsReady c → combine_loop c result n ≡ zero_bytes result n
unfolding combine_loop
combine_loop-zero_bytes c result zero r = refl
combine_loop-zero_bytes c result (suc n) r =
    ap (λ z. combine_loop c z n) one ∙ combine_loop-zero_bytes c (crc_step result 0) n r
  where
    one : bit_xor (result / 2 ^ 8) (c.table (bit_and result 0xFF)) ≡ crc_step result 0
    one =
        bit_xor_comm (result / 2 ^ 8) (c.table (bit_and result 0xFF))
        ∙ ap (λ z. bit_xor (c.table (bit_and z 0xFF)) (result / 2 ^ 8)) (sym (bit_xor-zero result))
        ∙ unfold table_step in table_step-crc_step c result 0 r (omega arith)

-- With the table filled, `combine` of the checksums of A and B and the length of B is the checksum
-- of A followed by B.
pub combine-crc32c :
    (c : Crc) (xs ys : List ℕ)
    → IsReady c
    → combine c (crc32c xs) (crc32c ys) (length ys) ≡ crc32c (xs ++ ys)
unfolding combine crc32c
combine-crc32c c xs [] r = ap crc32c (sym (append-nil xs))
combine-crc32c c xs (y ∷ ys) r =
    ap (λ t. if t then crc32c xs else bit_xor loop (crc32c (y ∷ ys)))
      (ne→== (length (y ∷ ys)) 0 (omega arith))
    ∙ ap (λ z. bit_xor z (crc32c (y ∷ ys)))
        (combine_loop-zero_bytes c (crc32c xs) (length (y ∷ ys)) r)
    ∙ sym (bit_xor_assoc zeros (crc_bytes 0xFFFFFFFF (y ∷ ys)) 0xFFFFFFFF)
    ∙ ap (λ z. bit_xor z 0xFFFFFFFF)
        (sym (crc_bytes_split (crc_bytes 0xFFFFFFFF xs) 0xFFFFFFFF (y ∷ ys))
          ∙ sym (crc_bytes-append 0xFFFFFFFF xs (y ∷ ys)))
  where
    loop : ℕ
    loop = combine_loop c (crc32c xs) (length (y ∷ ys))

    zeros : ℕ
    zeros = zero_bytes (crc32c xs) (length (y ∷ ys))

start_step : (r n : ℕ) → combine_loop start r (suc n) ≡ combine_loop start (r / 256) n
unfolding combine_loop
start_step r n = ap (λ z. combine_loop start z n) (bit_xor-zero (r / 256))

start-zero : (n : ℕ) → combine_loop start 0 n ≡ 0
start-zero zero = unfold combine_loop in refl
start-zero (suc n) = start_step 0 n ∙ start-zero n

-- With the table as it is when the program starts, `combine` gives the checksum of B alone, whatever
-- 32-bit checksum A has, as soon as B has four bytes.
pub combine-start :
    (crc_a crc_b len : ℕ) → crc_a < 2 ^ 32 → 4 ≤ len → combine start crc_a crc_b len ≡ crc_b
unfolding combine
combine-start crc_a crc_b zero h l = absurd (omega arith)
combine-start crc_a crc_b (suc zero) h l = absurd (omega arith)
combine-start crc_a crc_b (suc (suc zero)) h l = absurd (omega arith)
combine-start crc_a crc_b (suc (suc (suc zero))) h l = absurd (omega arith)
combine-start crc_a crc_b (suc (suc (suc (suc n)))) h l =
    ap
      (λ t. if t then crc_a else bit_xor (combine_loop start crc_a (suc (suc (suc (suc n))))) crc_b)
      (ne→== (suc (suc (suc (suc n)))) 0 (omega arith))
    ∙ ap (λ z. bit_xor z crc_b) dropped
    ∙ zero-bit_xor crc_b
  where
    dropped : combine_loop start crc_a (suc (suc (suc (suc n)))) ≡ 0
    dropped =
        start_step crc_a (suc (suc (suc n)))
        ∙ start_step (crc_a / 256) (suc (suc n))
        ∙ start_step (crc_a / 256 / 256) (suc n)
        ∙ start_step (crc_a / 256 / 256 / 256) n
        ∙ ap (λ z. combine_loop start z n) (omega arith)
        ∙ start-zero n
