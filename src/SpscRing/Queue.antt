-- ===== src/SpscRing/Queue.antt =====
-- include/vectortick/concurrency/spsc_ring.hpp: the ring, with each call as one step, as a bounded queue.
pub mod Indices
use vector_tick.Common.{
  ℕ, zero, suc, ◌+◌, ◌-◌, ◌%◌, ◌^◌, ◌*◌, ◌≤◌, ◌<◌, Bool, true, false, Option, none, some, List, [],
  ◌∷◌, ◌++◌, ◌==◌, if◌then◌else◌, bit_and, ltb, ◌≡◌, refl, sym, ◌∙◌, ap, arith, length,
  length-append, Bool-cases, inl, inr, ==_refl,
}
use mathlib.Core.Path.{subst}
use Prim.Native.Nat.{◌∣◌}
use native.Mathlib.Nat.{
  mod-add-mod, add-mod_right, pow-succ', pow-le-pow_right, mul_assoc, one-mul, dvd-mul_right,
  mul-suc, mod-lt, mod-mod_of_dvd, add-mul-mod_self_left, mod-eq_of_lt, mod-eq-sub-mod,
}
use vector_tick.Bits.Field.{bit_and-mask}
use vector_tick.SpscRing.{Ring, try_push, try_pop, empty, full, size, capacity_of}
use vector_tick.SpscRing.Threads.Cells.{
  Holds, put, put-Holds, Holds-append, cells-pos, next_lem, different, dichotomy,
}
use vector_tick.SpscRing.Queue.Indices.{flip, apart, together, none_apart, distance}

-- Taking the first value of a queue.
abbrev pub pop_queue {ℓ} : {A : Type ℓ} → List A → List A × Option A
pop_queue [] = ([], none)
pop_queue (value ∷ queue) = (queue, some value)

module _ {ℓ} {A : Type ℓ} (k : ℕ) where
  -- A ring of 2 ^ k cells that holds a queue of values: `count` values were popped before.
  pub record Represents (r : Ring A) (queue : List A) : Type ℓ where
    pub count : ℕ
    pub capacity : r.capacity ≡ 2 ^ k
    pub mask : r.mask ≡ 2 ^ k - 1
    pub head : r.head ≡ count % 2 ^ k
    pub tail : r.tail ≡ (count + length queue) % 2 ^ k
    pub bounded : length queue < 2 ^ k
    pub holds : Holds (2 ^ k) r.buffer count queue

  -- Adding a value at the end of a queue that is full at 2 ^ k - 1 values.
  abbrev pub push_queue : List A → A → List A × Bool
  push_queue queue value =
      if ltb (length queue + 1) (2 ^ k) then (queue ++ value ∷ [], true) else (queue, false)

  module _ (r : Ring A) where
    next_tail :
        (queue : List A) (R : Represents r queue)
        → bit_and (r.tail + 1) r.mask ≡ (R.count + (length queue + 1)) % 2 ^ k
    next_tail queue R =
        next_lem k r.mask r.tail (R.count + length queue) R.mask R.tail
        ∙ ap (λ (n : ℕ). n % 2 ^ k) (omega arith)

    pushed :
        (queue : List A) (value : A) (R : Represents r queue)
        → length queue + 1 < 2 ^ k
        → Represents
            (record r {
              buffer = λ i. if i == r.tail then value else r.buffer i;
              tail = bit_and (r.tail + 1) r.mask;
            })
            (queue ++ value ∷ [])
    pushed queue value R l =
        let more = length-append queue (value ∷ []) in
        let place = put r.buffer r.tail value in
        record {
          count = R.count;
          capacity = R.capacity;
          mask = R.mask;
          head = R.head;
          tail = next_tail queue R ∙ ap (λ (n : ℕ). (R.count + n) % 2 ^ k) (omega (arith, more));
          bounded = omega (arith, more, l);
          holds =
              Holds-append (2 ^ k) place value R.count queue
                (subst (λ (i : ℕ). place i ≡ value) R.tail
                  (ap (λ b. if b then value else r.buffer r.tail) (==_refl r.tail)))
                (subst (λ (i : ℕ). Holds (2 ^ k) (put r.buffer i value) R.count queue) (sym R.tail)
                  (put-Holds (2 ^ k) r.buffer value (R.count + length queue) R.count queue
                    (cells-pos k) (omega arith) (omega (arith, R.bounded)) R.holds));
        }

    -- A ring of 2 ^ k cells that holds a queue of fewer than 2 ^ k values holds after try_push the queue
    -- with the value at its end and gives true, or, where the queue has 2 ^ k - 1 values, the same queue
    -- and gives false.
    pub try_push-Represents :
        (queue : List A) (value : A)
        → Represents r queue
        → Represents (try_push r value).0 (push_queue queue value).0
          × ((try_push r value).1 ≡ (push_queue queue value).1)
    unfolding try_push
    try_push-Represents queue value R = elim (Bool-cases (ltb (length queue + 1) (2 ^ k))) [
      | inl room ↦
          let l : length queue + 1 < 2 ^ k = ground arith in
          rw
            (
              apart k R.count (length queue + 1) (bit_and (r.tail + 1) r.mask) r.head
                  (next_tail queue R) R.head (omega arith) l,
              room,
            )
            (pushed queue value R l, refl)
      | inr stuck ↦
          let l : length queue + 1 ≡ 2 ^ k = ground (arith, R.bounded) in
          rw
            (
              together k R.count (length queue + 1) (bit_and (r.tail + 1) r.mask) r.head
                  (next_tail queue R) R.head l,
              stuck,
            )
            (R, refl)
    ]

    -- A ring that holds a queue gives with try_pop the first value of the queue and holds the rest, or,
    -- where the queue is empty, gives nothing and holds the empty queue.
    pub try_pop-Represents :
        (queue : List A)
        → Represents r queue
        → Represents (try_pop r).0 (pop_queue queue).0 × ((try_pop r).1 ≡ (pop_queue queue).1)
    unfolding try_pop Holds
    try_pop-Represents [] R =
        let here : r.head == r.tail ≡ true =
          none_apart k R.count 0 r.tail r.head R.tail R.head refl in
        rw here (R, refl)
    try_pop-Represents (value ∷ queue) R =
        let there : r.head == r.tail ≡ false =
          flip r.head r.tail
          ∙ apart k R.count (suc (length queue)) r.tail r.head R.tail R.head (omega arith)
              R.bounded in
        rw there (
          record {
            count = R.count + 1;
            capacity = R.capacity;
            mask = R.mask;
            head = next_lem k r.mask r.head R.count R.mask R.head;
            tail = R.tail ∙ ap (λ (n : ℕ). n % 2 ^ k) (omega arith);
            bounded = omega (arith, R.bounded);
            holds = R.holds.1;
          },
          ap some (ap r.buffer R.head ∙ R.holds.0),
        )

    empty_lem : (queue : List A) → Represents r queue → empty r ≡ (length queue == 0)
    unfolding empty
    empty_lem [] R = none_apart k R.count 0 r.tail r.head R.tail R.head refl
    empty_lem (value ∷ queue) R =
        flip r.head r.tail
        ∙ apart k R.count (suc (length queue)) r.tail r.head R.tail R.head (omega arith) R.bounded
        ∙ ground arith

    full_lem : (queue : List A) → Represents r queue → full r ≡ (length queue == 2 ^ k - 1)
    unfolding full
    full_lem queue R = elim (Bool-cases (ltb (length queue + 1) (2 ^ k))) [
      | inl room ↦
          apart k R.count (length queue + 1) (bit_and (r.tail + 1) r.mask) r.head
            (next_tail queue R) R.head (omega arith) (ground arith)
          ∙ ground arith
      | inr stuck ↦
          together k R.count (length queue + 1) (bit_and (r.tail + 1) r.mask) r.head
            (next_tail queue R) R.head (ground (arith, R.bounded))
          ∙ ground (arith, R.bounded)
    ]

    -- Of a ring of 2 ^ k cells, k < 64, that holds a queue, size is the length of the queue, capacity
    -- is 2 ^ k - 1, empty says whether the queue has no value and full whether it has 2 ^ k - 1.
    pub size-Represents :
        (queue : List A)
        → Represents r queue
        → k < 64
        → (size r ≡ length queue)
          × (capacity_of r ≡ 2 ^ k - 1)
          × (empty r ≡ (length queue == 0))
          × (full r ≡ (length queue == capacity_of r))
    unfolding size empty full capacity_of
    size-Represents queue R small = (
      rw (R.mask, R.capacity)
          (bit_and-mask k ((2 ^ 64 + r.tail - r.head + 2 ^ k) % 2 ^ 64)
            ∙ distance k R.count (length queue) r.tail r.head R.tail R.head R.bounded small),
      rw R.capacity refl,
      empty_lem queue R,
      full_lem queue R ∙ ap (λ (n : ℕ). length queue == n - 1) (sym R.capacity),
    )
