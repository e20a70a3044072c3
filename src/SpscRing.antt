-- ===== src/SpscRing.antt =====
-- include/vectortick/concurrency/spsc_ring.hpp: SpscRing, with each call of the producer or of the
-- consumer as one step.
use vector_tick.Common.{
  ℕ, ◌+◌, ◌-◌, ◌%◌, ◌^◌, ◌<◌, Bool, true, false, Option, none, some, ◌==◌, if◌then◌else◌, bit_and,
  ◌≡◌, ◌⊎◌, inl, inr, refl, ap, arith, Bool-cases, ==_refl,
}
use vector_tick.Bits.Field.{bit_and-mask}
use native.Mathlib.Nat.{one-le-pow, mod-lt}
pub mod Threads
pub mod Queue

pub record Ring {ℓ} (A : Type ℓ) : Type ℓ where
  pub capacity : ℕ
  pub mask : ℕ
  pub buffer : ℕ → A
  pub head : ℕ
  pub tail : ℕ

module _ {ℓ} {A : Type ℓ} where
  -- The ring after `try_push`, and whether it pushed.
  unfoldable pub try_push : Ring A → A → Ring A × Bool
  try_push r value =
      let next_tail = bit_and (r.tail + 1) r.mask in
      let stored = λ (i : ℕ). if i == r.tail then value else r.buffer i in
      if next_tail == r.head
      then (r, false)
      else (record r { buffer = stored; tail = next_tail }, true)

  -- The element, where there is one.
  unfoldable pub try_pop : Ring A → Ring A × Option A
  try_pop r =
      if r.head == r.tail
      then (r, none)
      else (record r { head = bit_and (r.head + 1) r.mask }, some (r.buffer r.head))

  unfoldable pub empty : Ring A → Bool
  empty r = r.head == r.tail

  unfoldable pub full : Ring A → Bool
  full r = bit_and (r.tail + 1) r.mask == r.head

  unfoldable pub capacity_of : Ring A → ℕ
  capacity_of r = r.capacity - 1

  -- The subtraction of usize wraps around.
  unfoldable pub size : Ring A → ℕ
  size r = bit_and ((2 ^ 64 + r.tail - r.head + r.capacity) % 2 ^ 64) r.mask

  unfoldable pub reset : Ring A → Ring A
  reset r = record r { head = 0; tail = 0 }
