-- ===== src/Endian/Network.antt =====
-- The wire order does not depend on the host: a reader is a big-endian load and a
-- writer a big-endian store.
use vector_tick.Common.{
  ℕ, zero, suc, ◌+◌, ◌-◌, ◌*◌, ◌/◌, ◌%◌, ◌^◌, ◌<◌, ◌≡◌, ◌∙◌, ap, fun_ext, Bool, true, false, refl,
  arith,
}
use vector_tick.Memory.{Mem, IsBytes, byte_of, store, load_be}
use vector_tick.Endian.{swap_u16, swap_u32, swap_u64, read_be_u16, read_be_u32, read_be_u64}
use vector_tick.Endian.{write_be_u16, write_be_u32, write_be_u64}
use vector_tick.Endian.Swap.{swap_u16_bytes, swap_u32_bytes, swap_u64_bytes}

-- A big-endian load, whatever the host.
pub read_be_u16-load_be :
    (little : Bool) (m : Mem) (a : ℕ) → IsBytes m → read_be_u16 little m a ≡ load_be 2 m a
unfolding read_be_u16
read_be_u16-load_be true m a b =
    ap swap_u16 (omega arith) ∙ swap_u16_bytes (m a) (m (a + 1)) (b a) (b (a + 1)) ∙ omega arith
read_be_u16-load_be false m a b = refl

swap_u16-word : (v : ℕ) → v < 2 ^ 16 → swap_u16 v ≡ v / 256 ^ 1 % 256 + 256 * (v / 256 ^ 0 % 256)
swap_u16-word v h =
    ap swap_u16 (let e : v ≡ v / 256 ^ 0 % 256 + 256 * (v / 256 ^ 1 % 256) = omega arith in e)
    ∙ swap_u16_bytes (v / 256 ^ 0 % 256) (v / 256 ^ 1 % 256) (omega arith) (omega arith)

pub byte_of-swap_u16 : (v j : ℕ) → v < 2 ^ 16 → j < 2 → byte_of (swap_u16 v) j ≡ byte_of v (1 - j)
byte_of-swap_u16 v zero h lt = omega (arith, swap_u16-word v h)
byte_of-swap_u16 v (suc zero) h lt = omega (arith, swap_u16-word v h)
byte_of-swap_u16 v (suc (suc j)) h lt = absurd (omega arith)

-- A big-endian store, whatever the host.
pub write_be_u16-store :
    (little : Bool) (m : Mem) (a v : ℕ)
    → v < 2 ^ 16
    → write_be_u16 little m a v ≡ store false 2 m a v
unfolding write_be_u16
write_be_u16-store true m a v h = fun_ext λ i. ground (arith, byte_of-swap_u16 v (i - a) h)
write_be_u16-store false m a v h = refl

-- A big-endian load, whatever the host.
pub read_be_u32-load_be :
    (little : Bool) (m : Mem) (a : ℕ) → IsBytes m → read_be_u32 little m a ≡ load_be 4 m a
unfolding read_be_u32
read_be_u32-load_be true m a b =
    ap swap_u32 (omega arith)
    ∙ swap_u32_bytes (m a) (m (a + 1)) (m (a + 1 + 1)) (m (a + 1 + 1 + 1)) (b a) (b (a + 1))
        (b (a + 1 + 1)) (b (a + 1 + 1 + 1))
    ∙ omega arith
read_be_u32-load_be false m a b = refl

swap_u32-word :
    (v : ℕ)
    → v < 2 ^ 32
    → swap_u32 v
      ≡ v / 256 ^ 3 % 256
        + 256 * (v / 256 ^ 2 % 256 + 256 * (v / 256 ^ 1 % 256 + 256 * (v / 256 ^ 0 % 256)))
swap_u32-word v h =
    ap swap_u32 (
      let e : v
          ≡ v / 256 ^ 0 % 256
            + 256 * (v / 256 ^ 1 % 256 + 256 * (v / 256 ^ 2 % 256 + 256 * (v / 256 ^ 3 % 256))) =
        omega arith in
      e)
    ∙ swap_u32_bytes (v / 256 ^ 0 % 256) (v / 256 ^ 1 % 256) (v / 256 ^ 2 % 256) (v / 256 ^ 3 % 256)
        (omega arith) (omega arith) (omega arith) (omega arith)

pub byte_of-swap_u32 : (v j : ℕ) → v < 2 ^ 32 → j < 4 → byte_of (swap_u32 v) j ≡ byte_of v (3 - j)
byte_of-swap_u32 v zero h lt = omega (arith, swap_u32-word v h)
byte_of-swap_u32 v (suc zero) h lt = omega (arith, swap_u32-word v h)
byte_of-swap_u32 v (suc (suc zero)) h lt = omega (arith, swap_u32-word v h)
byte_of-swap_u32 v (suc (suc (suc zero))) h lt = omega (arith, swap_u32-word v h)
byte_of-swap_u32 v (suc (suc (suc (suc j)))) h lt = absurd (omega arith)

-- A big-endian store, whatever the host.
pub write_be_u32-store :
    (little : Bool) (m : Mem) (a v : ℕ)
    → v < 2 ^ 32
    → write_be_u32 little m a v ≡ store false 4 m a v
unfolding write_be_u32
write_be_u32-store true m a v h = fun_ext λ i. ground (arith, byte_of-swap_u32 v (i - a) h)
write_be_u32-store false m a v h = refl

-- On a host of either byte order `read_be_u64` gives the number whose eight bytes at the pointer stand
-- with the highest first.
pub read_be_u64-load_be :
    (little : Bool) (m : Mem) (a : ℕ) → IsBytes m → read_be_u64 little m a ≡ load_be 8 m a
unfolding read_be_u64
read_be_u64-load_be true m a b =
    ap swap_u64 (omega arith)
    ∙ swap_u64_bytes (m a) (m (a + 1)) (m (a + 1 + 1)) (m (a + 1 + 1 + 1)) (m (a + 1 + 1 + 1 + 1))
        (m (a + 1 + 1 + 1 + 1 + 1)) (m (a + 1 + 1 + 1 + 1 + 1 + 1))
        (m (a + 1 + 1 + 1 + 1 + 1 + 1 + 1))
        ((b a), (b (a + 1)), (b (a + 1 + 1)), (b (a + 1 + 1 + 1)))
        (
          (b (a + 1 + 1 + 1 + 1)),
          (b (a + 1 + 1 + 1 + 1 + 1)),
          (b (a + 1 + 1 + 1 + 1 + 1 + 1)),
          (b (a + 1 + 1 + 1 + 1 + 1 + 1 + 1)),
        )
    ∙ omega arith
read_be_u64-load_be false m a b = refl

swap_u64-word :
    (v : ℕ)
    → v < 2 ^ 64
    → swap_u64 v
      ≡ v / 256 ^ 7 % 256
        + 256
          * (v / 256 ^ 6 % 256
              + 256
                * (v / 256 ^ 5 % 256
                    + 256
                      * (v / 256 ^ 4 % 256
                          + 256
                            * (v / 256 ^ 3 % 256
                                + 256
                                  * (v / 256 ^ 2 % 256
                                      + 256 * (v / 256 ^ 1 % 256 + 256 * (v / 256 ^ 0 % 256)))))))
swap_u64-word v h =
    ap swap_u64 (
      let e : v
          ≡ v / 256 ^ 0 % 256
            + 256
              * (v / 256 ^ 1 % 256
                  + 256
                    * (v / 256 ^ 2 % 256
                        + 256
                          * (v / 256 ^ 3 % 256
                              + 256
                                * (v / 256 ^ 4 % 256
                                    + 256
                                      * (v / 256 ^ 5 % 256
                                          + 256
                                            * (v / 256 ^ 6 % 256 + 256 * (v / 256 ^ 7 % 256))))))) =
        omega arith in
      e)
    ∙ swap_u64_bytes (v / 256 ^ 0 % 256) (v / 256 ^ 1 % 256) (v / 256 ^ 2 % 256) (v / 256 ^ 3 % 256)
        (v / 256 ^ 4 % 256) (v / 256 ^ 5 % 256) (v / 256 ^ 6 % 256) (v / 256 ^ 7 % 256)
        (omega arith) (omega arith)

pub byte_of-swap_u64 : (v j : ℕ) → v < 2 ^ 64 → j < 8 → byte_of (swap_u64 v) j ≡ byte_of v (7 - j)
byte_of-swap_u64 v zero h lt = omega (arith, swap_u64-word v h)
byte_of-swap_u64 v (suc zero) h lt = omega (arith, swap_u64-word v h)
byte_of-swap_u64 v (suc (suc zero)) h lt = omega (arith, swap_u64-word v h)
byte_of-swap_u64 v (suc (suc (suc zero))) h lt = omega (arith, swap_u64-word v h)
byte_of-swap_u64 v (suc (suc (suc (suc zero)))) h lt = omega (arith, swap_u64-word v h)
byte_of-swap_u64 v (suc (suc (suc (suc (suc zero))))) h lt = omega (arith, swap_u64-word v h)
byte_of-swap_u64 v (suc (suc (suc (suc (suc (suc zero)))))) h lt = omega (arith, swap_u64-word v h)
byte_of-swap_u64 v (suc (suc (suc (suc (suc (suc (suc zero))))))) h lt =
    omega (arith, swap_u64-word v h)
byte_of-swap_u64 v (suc (suc (suc (suc (suc (suc (suc (suc j)))))))) h lt = absurd (omega arith)

-- On a host of either byte order `write_be_u64` of a u64 leaves its eight bytes with the highest first
-- at the pointer, and all else as it was.
pub write_be_u64-store :
    (little : Bool) (m : Mem) (a v : ℕ)
    → v < 2 ^ 64
    → write_be_u64 little m a v ≡ store false 8 m a v
unfolding write_be_u64
write_be_u64-store true m a v h = fun_ext λ i. ground (arith, byte_of-swap_u64 v (i - a) h)
write_be_u64-store false m a v h = refl
