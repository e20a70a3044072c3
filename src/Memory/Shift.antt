-- ===== src/Memory/Shift.antt =====
-- A store through `ptr + a` is a store in the memory behind `ptr + a`.
use vector_tick.Common.{ℕ, ◌+◌, ◌-◌, Bool, ◌≡◌, ap, fun_ext, arith}
use vector_tick.Memory.{Mem, shift, object_byte, store, store_byte}

module _ (a : ℕ) (m : Mem) {m' : Mem} (e : shift m a ≡ m') where
  pub shift-store :
      (little : Bool) (n o v : ℕ) → shift (store little n m (a + o) v) a ≡ store little n m' o v
  shift-store little n o v = fun_ext λ i. ground (
    arith,
    ap (λ (f : Mem). f i) e,
    ap (λ (j : ℕ). object_byte little n v j) (let d : a + i - (a + o) ≡ i - o = omega arith in d),
  )

  pub shift-store_start :
      (little : Bool) (n v : ℕ) → shift (store little n m a v) a ≡ store little n m' 0 v
  shift-store_start little n v = fun_ext λ i. ground (
    arith,
    ap (λ (f : Mem). f i) e,
    ap (λ (j : ℕ). object_byte little n v j) (let d : a + i - a ≡ i - 0 = omega arith in d),
  )

  pub shift-store_byte : (o b : ℕ) → shift (store_byte m (a + o) b) a ≡ store_byte m' o b
  shift-store_byte o b = fun_ext λ i. ground (arith, ap (λ (f : Mem). f i) e)
