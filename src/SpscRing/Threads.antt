-- ===== src/SpscRing/Threads.antt =====
-- include/vectortick/concurrency/spsc_ring.hpp: the atomic loads and stores of one producer and one
-- consumer, in any interleaving. A load with acquire sees the last store with release before it, which
-- is what the interleaving says; the relaxed accesses are a thread's own index, and cells that the other
-- index separates.
pub mod Cells
pub mod Order
use vector_tick.Common.{
  ℕ, ◌+◌, Bool, true, false, List, [], ◌∷◌, ◌++◌, ◌==◌, if◌then◌else◌, bit_and, ◌≡◌,
}
use vector_tick.SpscRing.{Ring}

-- Where the producer stands in `try_push`, with what it holds.
pub data Producer {ℓ} (A : Type ℓ) : Type ℓ where
  idle : Producer A
  loaded : (value : A) (current_tail : ℕ) → Producer A
  has_room : (value : A) (current_tail : ℕ) → Producer A
  stored : (value : A) (current_tail : ℕ) → Producer A

-- Where the consumer stands in `try_pop`.
pub data Consumer {ℓ} (A : Type ℓ) : Type ℓ where
  idle : Consumer A
  loaded : (current_head : ℕ) → Consumer A
  has_value : (current_head : ℕ) → Consumer A
  taken : (value : A) (current_head : ℕ) → Consumer A

-- The ring, both threads, and the values of the calls that returned true, in their order.
pub record System {ℓ} (A : Type ℓ) : Type ℓ where
  pub ring : Ring A
  pub producer : Producer A
  pub consumer : Consumer A
  pub pushed : List A
  pub popped : List A

module _ {ℓ} {A : Type ℓ} where
  -- `(index + 1) & mask_`
  abbrev pub next_index : Ring A → ℕ → ℕ
  next_index r index = bit_and (index + 1) r.mask

  -- `buffer_[index].store(value)`
  abbrev pub store_cell : Ring A → ℕ → A → Ring A
  store_cell r index value = record r { buffer = λ i. if i == index then value else r.buffer i }

  abbrev pub full_at : System A → ℕ → Bool
  full_at s current_tail = next_index s.ring current_tail == s.ring.head

  abbrev pub empty_at : System A → ℕ → Bool
  empty_at s current_head = current_head == s.ring.tail

  -- One atomic access of one of the threads.
  pub data Step : System A → System A → Type ℓ where
    push_load :
        (s : System A) (value : A)
        → s.producer ≡ Producer.idle
        → Step s (record s { producer = Producer.loaded value s.ring.tail })
    push_full :
        (s : System A) (value : A) (current_tail : ℕ)
        → s.producer ≡ Producer.loaded value current_tail
        → full_at s current_tail ≡ true
        → Step s (record s { producer = Producer.idle })
    push_room :
        (s : System A) (value : A) (current_tail : ℕ)
        → s.producer ≡ Producer.loaded value current_tail
        → full_at s current_tail ≡ false
        → Step s (record s { producer = Producer.has_room value current_tail })
    push_store :
        (s : System A) (value : A) (current_tail : ℕ)
        → s.producer ≡ Producer.has_room value current_tail
        → Step s (record s {
          ring = store_cell s.ring current_tail value;
          producer = Producer.stored value current_tail;
        })
    push_publish :
        (s : System A) (value : A) (current_tail : ℕ)
        → s.producer ≡ Producer.stored value current_tail
        → Step s (record s {
          ring = record s.ring { tail = next_index s.ring current_tail };
          producer = Producer.idle;
          pushed = s.pushed ++ value ∷ [];
        })
    pop_load :
        (s : System A)
        → s.consumer ≡ Consumer.idle
        → Step s (record s { consumer = Consumer.loaded s.ring.head })
    pop_empty :
        (s : System A) (current_head : ℕ)
        → s.consumer ≡ Consumer.loaded current_head
        → empty_at s current_head ≡ true
        → Step s (record s { consumer = Consumer.idle })
    pop_value :
        (s : System A) (current_head : ℕ)
        → s.consumer ≡ Consumer.loaded current_head
        → empty_at s current_head ≡ false
        → Step s (record s { consumer = Consumer.has_value current_head })
    pop_read :
        (s : System A) (current_head : ℕ)
        → s.consumer ≡ Consumer.has_value current_head
        → Step s (record s { consumer = Consumer.taken (s.ring.buffer current_head) current_head })
    pop_publish :
        (s : System A) (value : A) (current_head : ℕ)
        → s.consumer ≡ Consumer.taken value current_head
        → Step s (record s {
          ring = record s.ring { head = next_index s.ring current_head };
          consumer = Consumer.idle;
          popped = s.popped ++ value ∷ [];
        })

  -- Any number of steps.
  pub data Steps : System A → System A → Type ℓ where
    here : (s : System A) → Steps s s
    after : {s t u : System A} → Steps s t → Step t u → Steps s u

  -- A new ring, nobody in a call.
  abbrev pub new_system : Ring A → System A
  new_system ring = record {
    ring = ring;
    producer = Producer.idle;
    consumer = Consumer.idle;
    pushed = [];
    popped = [];
  }
