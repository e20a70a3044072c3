-- ===== src/Crc32c/Checksum.antt =====
-- What a client may rely on: the interface `Checksum`, and `compute` as an implementation of it on
-- every platform.
use vector_tick.Common.{
  ℕ, zero, suc, ◌<◌, ◌^◌, Bool, true, false, Option, none, some, List, [], ◌++◌, bit_xor, ◌≡◌, refl,
  sym, ◌∙◌, ap, arith, ne→==,
}
use vector_tick.Bits.Xor.{bit_xor-zero, bit_xor_self, bit_xor_assoc, bit_xor-lt-pow}
use vector_tick.Memory.{Mem, IsBytes, bytes}
use vector_tick.Crc32c.{Crc, CrcUnit, Platform, dispatch, compute}
use vector_tick.Crc32c.Reference.{crc_bytes, crc32c, crc_bytes-append}
use vector_tick.Crc32c.Table.{IsSound, IsReady-IsSound, compute_sw-crc_bytes}
use vector_tick.Crc32c.Hardware.{IsCrc32c, crc_bytes-lt, compute_unit-crc_bytes}

-- The CRC32C of `bs` continued from the checksum `init`.
unfoldable pub crc_from : ℕ → List ℕ → ℕ
crc_from init bs = bit_xor (crc_bytes (bit_xor init 0xFFFFFFFF) bs) 0xFFFFFFFF

-- `Crc32C::compute(init, data, length)` as its callers see it.
pub record Checksum : Type 0 where
  pub compute : ℕ → Option Mem → ℕ → ℕ
  pub null : (init n : ℕ) → compute init none n ≡ init
  pub spec :
      (init : ℕ) (m : Mem) (n : ℕ)
      → init < 2 ^ 32
      → IsBytes m
      → compute init (some m) n ≡ crc_from init (bytes m n)

pub crc_from-lt :
    (init : ℕ) (m : Mem) (n : ℕ) → init < 2 ^ 32 → IsBytes m → crc_from init (bytes m n) < 2 ^ 32
unfolding crc_from
crc_from-lt init m n h b =
    bit_xor-lt-pow 32 _ _ (crc_bytes-lt m n _ b (bit_xor-lt-pow 32 init _ h (omega arith)))
      (omega arith)

-- CRC instructions, where the platform has them, do what their manuals say, on a little-endian host.
unfoldable pub IsGenuine : Platform → Type 0
IsGenuine p = (u : CrcUnit) → p.unit ≡ some u → IsCrc32c u × (p.little ≡ true)

pub crc_from-nil : (init : ℕ) → crc_from init [] ≡ init
unfolding crc_from crc_bytes
crc_from-nil init =
    bit_xor_assoc init _ _ ∙ ap (bit_xor init) (bit_xor_self 0xFFFFFFFF) ∙ bit_xor-zero init

dispatch-crc_bytes :
    (o : Option CrcUnit) (little : Bool) (c : Crc) (acc : ℕ) (m : Mem) (n : ℕ)
    → ((u : CrcUnit) → o ≡ some u → IsCrc32c u × (little ≡ true))
    → IsSound c
    → acc < 2 ^ 32
    → IsBytes m
    → IsSound (dispatch o little c acc m n).0
      × ((dispatch o little c acc m n).1 ≡ crc_bytes acc (bytes m n))
unfolding dispatch
dispatch-crc_bytes (some u) true c acc m n g s h b =
    (s, compute_unit-crc_bytes u acc m n (g u refl).0 b h)
dispatch-crc_bytes (some u) false c acc m n g s h b = absurd (let e = (g u refl).1 in cc)
dispatch-crc_bytes none little c acc m n g s h b =
    let (r, e) = compute_sw-crc_bytes c acc m n s b in (IsReady-IsSound r, e)

-- On a host whose CRC instructions, if it has any, do what their manuals say and which then is
-- little-endian, from statics that `init` filled or nobody touched, `compute` continues the bitwise
-- CRC32C from any 32-bit start over any number of bytes, and keeps the statics sound.
pub compute-crc_from :
    (p : Platform) (c : Crc) (init : ℕ) (m : Mem) (n : ℕ)
    → IsGenuine p
    → IsSound c
    → init < 2 ^ 32
    → IsBytes m
    → IsSound (compute p c init (some m) n).0
      × ((compute p c init (some m) n).1 ≡ crc_from init (bytes m n))
unfolding compute crc_from IsGenuine
compute-crc_from p c init m zero g s h b = (s, unfold bytes in sym (crc_from-nil init))
compute-crc_from p c init m (suc n) g s h b =
    let (s', e) =
      dispatch-crc_bytes p.unit p.little c (bit_xor init 0xFFFFFFFF) m (suc n) g s
        (bit_xor-lt-pow 32 init _ h (omega arith)) b in
    rw (ne→== (suc n) 0 (omega arith)) (s', ap (λ z. bit_xor z 0xFFFFFFFF) e)

-- The interface that frames are built on, from any platform.
pub checksum : (p : Platform) (c : Crc) → IsGenuine p → IsSound c → Checksum
checksum p c g s = record {
  compute = λ init d n. (compute p c init d n).1;
  null = λ init n. unfold compute in refl;
  spec = λ init m n h b. (compute-crc_from p c init m n g s h b).1;
}

-- Continuing over a second part is continuing over the whole.
pub crc_from-append :
    (init : ℕ) (xs ys : List ℕ) → crc_from (crc_from init xs) ys ≡ crc_from init (xs ++ ys)
unfolding crc_from
crc_from-append init xs ys =
    ap (λ z. bit_xor (crc_bytes z ys) 0xFFFFFFFF)
      (bit_xor_assoc (crc_bytes (bit_xor init 0xFFFFFFFF) xs) _ _
        ∙ ap (bit_xor (crc_bytes (bit_xor init 0xFFFFFFFF) xs)) (bit_xor_self 0xFFFFFFFF)
        ∙ bit_xor-zero _)
    ∙ ap (λ z. bit_xor z 0xFFFFFFFF) (sym (crc_bytes-append (bit_xor init 0xFFFFFFFF) xs ys))

pub crc_from-crc32c : (bs : List ℕ) → crc_from 0 bs ≡ crc32c bs
unfolding crc_from crc32c
crc_from-crc32c bs = refl
