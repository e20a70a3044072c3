-- ===== src/Tests/Rings.antt =====
-- The theorems of the ring at a ring of four cells.
use vector_tick.Common.{ℕ, ◌*◌, ◌-◌, ◌==◌, false, ◌≡◌, refl, arith}
use vector_tick.Common.{List, [], ◌∷◌, ◌++◌, length, ◌<◌, ◌^◌}
use vector_tick.SpscRing.Threads.{Producer, Consumer, System, Step, Steps, new_system, store_cell}
use vector_tick.SpscRing.Threads.Order.{Steps-Stands}
use vector_tick.SpscRing.Threads.Cells.{Holds}
use vector_tick.SpscRing.Queue.{
  Represents, push_queue, pop_queue, try_push-Represents, try_pop-Represents, size-Represents,
}
use vector_tick.SpscRing.{Ring, try_push, try_pop, size, empty, full, capacity_of}

abbrev ring : Ring ℕ
ring = record { capacity = 4; mask = 3; buffer = λ i. i * 10; head = 3; tail = 1 }

-- It holds two values; one more fits.
abbrev two_values : List ℕ
two_values = 30 ∷ 0 ∷ []

ring-Represents : Represents 2 ring two_values
ring-Represents = record {
  count = 3;
  capacity = refl;
  mask = refl;
  head = refl;
  tail = refl;
  bounded = omega arith;
  holds = unfold Holds in (refl, (refl, tt));
}

try_push-Represents_example :
    Represents 2 (try_push ring 7).0 (push_queue 2 two_values 7).0
    × ((try_push ring 7).1 ≡ (push_queue 2 two_values 7).1)
try_push-Represents_example = try_push-Represents 2 ring two_values 7 ring-Represents

try_pop-Represents_example :
    Represents 2 (try_pop ring).0 (pop_queue two_values).0
    × ((try_pop ring).1 ≡ (pop_queue two_values).1)
try_pop-Represents_example = try_pop-Represents 2 ring two_values ring-Represents

size-Represents_example :
    (size ring ≡ 2)
    × (capacity_of ring ≡ 2 ^ 2 - 1)
    × (empty ring ≡ false)
    × (full ring ≡ (2 == capacity_of ring))
size-Represents_example = size-Represents 2 ring two_values ring-Represents (omega arith)

abbrev unused : Ring ℕ
unused = record { capacity = 4; mask = 3; buffer = λ i. 0; head = 0; tail = 0 }

-- A push of 7, with the load of a pop in between.
abbrev loaded : System ℕ
loaded = record (new_system unused) { producer = Producer.loaded 7 0 }

abbrev with_room : System ℕ
with_room = record loaded { producer = Producer.has_room 7 0 }

abbrev popping : System ℕ
popping = record with_room { consumer = Consumer.loaded 0 }

abbrev written : System ℕ
written = record popping { ring = store_cell unused 0 7; producer = Producer.stored 7 0 }

abbrev published : System ℕ
published = record written {
  ring = record (store_cell unused 0 7) { tail = 1 };
  producer = Producer.idle;
  pushed = 7 ∷ [];
}

one_push : Steps (new_system unused) published
one_push =
    Steps.after
      (Steps.after
        (Steps.after
          (Steps.after
            (Steps.after (Steps.here (new_system unused))
              (Step.push_load (new_system unused) 7 refl))
            (Step.push_room loaded 7 0 refl refl))
          (Step.pop_load with_room refl))
        (Step.push_store popping 7 0 refl))
      (Step.push_publish written 7 0 refl)

Steps-Stands_example :
    (queue : List ℕ) × (published.pushed ≡ published.popped ++ queue) × (length queue < 2 ^ 2)
Steps-Stands_example = Steps-Stands 2 unused refl refl refl published one_push
