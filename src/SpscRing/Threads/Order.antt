-- ===== src/SpscRing/Threads/Order.antt =====
-- The values leave the ring in the order in which they came, whatever the interleaving.
use vector_tick.Common.{
  ℕ, suc, ◌+◌, ◌-◌, ◌%◌, ◌^◌, ◌<◌, ◌≤◌, false, List, [], ◌∷◌, ◌++◌, ◌==◌, if◌then◌else◌, ◌≡◌, refl,
  sym, ◌∙◌, ap, arith, length, length-append, ==_refl,
}
use mathlib.Core.Path.{subst}
use mathlib.Core.List.{append_assoc}
use native.Mathlib.Nat.{mod-eq_of_lt}
use vector_tick.SpscRing.{Ring}
use vector_tick.SpscRing.Threads.{Producer, Consumer, System, Step, Steps, new_system, next_index}
use vector_tick.SpscRing.Threads.Cells.{
  Holds, put, put-Holds, Holds-append, cells-pos, room, next_lem,
}

module _ {A : Type 0} (k : ℕ) where
  -- What the producer knows of the ring: its index is the tail, and it writes with room to spare.
  abbrev Producing : Producer A → ℕ → (ℕ → A) → ℕ → Type 0
  Producing Producer.idle tail buffer n = Unit
  Producing (Producer.loaded value t) tail buffer n = t ≡ tail
  Producing (Producer.has_room value t) tail buffer n = (t ≡ tail) × (n + 1 < 2 ^ k)
  Producing (Producer.stored value t) tail buffer n =
      (t ≡ tail) × (n + 1 < 2 ^ k) × (buffer t ≡ value)

  -- What the consumer knows: its index is the head, and it takes the first value of the queue.
  abbrev Consuming : Consumer A → ℕ → List A → Type 0
  Consuming Consumer.idle head queue = Unit
  Consuming (Consumer.loaded h) head queue = h ≡ head
  Consuming (Consumer.has_value h) head queue = (h ≡ head) × (0 < length queue)
  Consuming (Consumer.taken value h) head queue =
      (h ≡ head) × ((rest : List A) × (queue ≡ value ∷ rest))

  -- The system stands for a queue of fewer values than the ring has cells.
  pub record Stands (s : System A) : Type 0 where
    pub queue : List A
    pub count : ℕ
    pub mask : s.ring.mask ≡ 2 ^ k - 1
    pub history : s.pushed ≡ s.popped ++ queue
    pub head : s.ring.head ≡ count % 2 ^ k
    pub tail : s.ring.tail ≡ (count + length queue) % 2 ^ k
    pub bounded : length queue < 2 ^ k
    pub holds : Holds (2 ^ k) s.ring.buffer count queue
    pub producing : Producing s.producer s.ring.tail s.ring.buffer (length queue)
    pub consuming : Consuming s.consumer s.ring.head queue

  -- The consumer's knowledge survives a push, the producer's a pop.
  Consuming-push :
      (c : Consumer A) (head : ℕ) (queue : List A) (value : A)
      → Consuming c head queue
      → Consuming c head (queue ++ value ∷ [])
  Consuming-push Consumer.idle head queue value h = tt
  Consuming-push (Consumer.loaded i) head queue value h = h
  Consuming-push (Consumer.has_value i) head queue value (e, l) =
      (e, omega (arith, length-append queue (value ∷ [])))
  Consuming-push (Consumer.taken x i) head queue value (e, (rest, f)) =
      (e, (rest ++ value ∷ [], ap (λ q. q ++ value ∷ []) f))

  Producing-pop :
      (p : Producer A) (tail : ℕ) (buffer : ℕ → A) (n m : ℕ)
      → m ≤ n
      → Producing p tail buffer n
      → Producing p tail buffer m
  Producing-pop Producer.idle tail buffer n m l h = tt
  Producing-pop (Producer.loaded v t) tail buffer n m l h = h
  Producing-pop (Producer.has_room v t) tail buffer n m l (e, h) = (e, omega arith)
  Producing-pop (Producer.stored v t) tail buffer n m l (e, h, f) = (e, omega arith, f)

  -- The consumer's test finds a value.
  waiting :
      (count : ℕ) (queue : List A) (index head tail : ℕ)
      → head ≡ count % 2 ^ k
      → tail ≡ (count + length queue) % 2 ^ k
      → index ≡ head
      → index == tail ≡ false
      → 0 < length queue
  waiting count [] index head tail e f g t =
      let same : (count + 0) % 2 ^ k ≡ count % 2 ^ k = ap (λ (i : ℕ). i % 2 ^ k) (omega arith) in
      absurd (ground (arith, e, f, g, same))
  waiting count (x ∷ queue) index head tail e f g t = omega arith

  first :
      (buffer : ℕ → A) (count : ℕ) (queue : List A)
      → 0 < length queue
      → Holds (2 ^ k) buffer count queue
      → (rest : List A) × (queue ≡ buffer (count % 2 ^ k) ∷ rest)
  unfolding Holds
  first buffer count [] l h = absurd (omega arith)
  first buffer count (x ∷ queue) l (e, h) = (queue, ap (λ v. v ∷ queue) (sym e))

  rest-Holds :
      (buffer : ℕ → A) (count : ℕ) (value : A) (rest : List A)
      → Holds (2 ^ k) buffer count (value ∷ rest)
      → Holds (2 ^ k) buffer (count + 1) rest
  unfolding Holds
  rest-Holds buffer count value rest (e, h) = h

  -- Every access keeps the queue: a store behind the tail or a load changes nothing of it, publishing the
  -- tail adds a value at its end, publishing the head takes its first.
  pub Step-Stands : {s t : System A} → Step s t → Stands s → Stands t
  Step-Stands (Step.push_load s value e) I = record {
    queue = I.queue;
    count = I.count;
    mask = I.mask;
    history = I.history;
    head = I.head;
    tail = I.tail;
    bounded = I.bounded;
    holds = I.holds;
    consuming = I.consuming;
    producing = refl;
  }
  Step-Stands (Step.push_full s value t e f) I = record {
    queue = I.queue;
    count = I.count;
    mask = I.mask;
    history = I.history;
    head = I.head;
    tail = I.tail;
    bounded = I.bounded;
    holds = I.holds;
    consuming = I.consuming;
    producing = tt;
  }
  Step-Stands (Step.push_room s value t e f) I =
      let here : t ≡ s.ring.tail =
        subst (λ p. Producing p s.ring.tail s.ring.buffer (length I.queue)) e I.producing in
      record {
        queue = I.queue;
        count = I.count;
        mask = I.mask;
        history = I.history;
        head = I.head;
        tail = I.tail;
        bounded = I.bounded;
        holds = I.holds;
        consuming = I.consuming;
        producing = (
          here,
          room k I.count (length I.queue) (next_index s.ring t) s.ring.head
              (next_lem k s.ring.mask t (I.count + length I.queue) I.mask (here ∙ I.tail)) I.head
              I.bounded f,
        );
      }
  Step-Stands (Step.push_store s value t e) I =
      let (here, space) =
        subst (λ p. Producing p s.ring.tail s.ring.buffer (length I.queue)) e I.producing in
      record {
        queue = I.queue;
        count = I.count;
        mask = I.mask;
        history = I.history;
        head = I.head;
        tail = I.tail;
        bounded = I.bounded;
        consuming = I.consuming;
        holds =
            subst (λ (i : ℕ). Holds (2 ^ k) (put s.ring.buffer i value) I.count I.queue)
              (sym (here ∙ I.tail))
              (put-Holds (2 ^ k) s.ring.buffer value (I.count + length I.queue) I.count I.queue
                (cells-pos k) (omega arith) (omega (arith, I.bounded)) I.holds);
        producing = (here, space, ap (λ b. if b then value else s.ring.buffer t) (==_refl t));
      }
  Step-Stands (Step.push_publish s value t e) I =
      let (here, space, kept) =
        subst (λ p. Producing p s.ring.tail s.ring.buffer (length I.queue)) e I.producing in
      let more = length-append I.queue (value ∷ []) in
      record {
        queue = I.queue ++ value ∷ [];
        count = I.count;
        mask = I.mask;
        head = I.head;
        history = ap (λ q. q ++ value ∷ []) I.history ∙ append_assoc s.popped I.queue (value ∷ []);
        tail =
            next_lem k s.ring.mask t (I.count + length I.queue) I.mask (here ∙ I.tail)
            ∙ ap (λ (i : ℕ). i % 2 ^ k) (omega (arith, more));
        bounded = omega (arith, more);
        holds =
            Holds-append (2 ^ k) s.ring.buffer value I.count I.queue
              (subst (λ (i : ℕ). s.ring.buffer i ≡ value) (here ∙ I.tail) kept) I.holds;
        producing = tt;
        consuming = Consuming-push s.consumer s.ring.head I.queue value I.consuming;
      }
  Step-Stands (Step.pop_load s e) I = record {
    queue = I.queue;
    count = I.count;
    mask = I.mask;
    history = I.history;
    head = I.head;
    tail = I.tail;
    bounded = I.bounded;
    holds = I.holds;
    producing = I.producing;
    consuming = refl;
  }
  Step-Stands (Step.pop_empty s h e f) I = record {
    queue = I.queue;
    count = I.count;
    mask = I.mask;
    history = I.history;
    head = I.head;
    tail = I.tail;
    bounded = I.bounded;
    holds = I.holds;
    producing = I.producing;
    consuming = tt;
  }
  Step-Stands (Step.pop_value s h e f) I =
      let here : h ≡ s.ring.head = subst (λ c. Consuming c s.ring.head I.queue) e I.consuming in
      record {
        queue = I.queue;
        count = I.count;
        mask = I.mask;
        history = I.history;
        head = I.head;
        tail = I.tail;
        bounded = I.bounded;
        holds = I.holds;
        producing = I.producing;
        consuming = (here, waiting I.count I.queue h s.ring.head s.ring.tail I.head I.tail here f);
      }
  Step-Stands (Step.pop_read s h e) I =
      let (here, some_left) = subst (λ c. Consuming c s.ring.head I.queue) e I.consuming in
      record {
        queue = I.queue;
        count = I.count;
        mask = I.mask;
        history = I.history;
        head = I.head;
        tail = I.tail;
        bounded = I.bounded;
        holds = I.holds;
        producing = I.producing;
        consuming = (
          here,
          subst (λ (i : ℕ). (rest : List A) × (I.queue ≡ s.ring.buffer i ∷ rest))
              (sym (here ∙ I.head)) (first s.ring.buffer I.count I.queue some_left I.holds),
        );
      }
  Step-Stands (Step.pop_publish s value h e) I =
      let (here, (rest, front)) = subst (λ c. Consuming c s.ring.head I.queue) e I.consuming in
      let fewer : length I.queue ≡ suc (length rest) = ap length front in
      record {
        queue = rest;
        count = I.count + 1;
        mask = I.mask;
        history =
            I.history
            ∙ ap (λ q. s.popped ++ q) front
            ∙ sym (append_assoc s.popped (value ∷ []) rest);
        head = next_lem k s.ring.mask h I.count I.mask (here ∙ I.head);
        tail = I.tail ∙ ap (λ (i : ℕ). i % 2 ^ k) (omega (arith, fewer));
        bounded = omega (arith, fewer, I.bounded);
        holds =
            rest-Holds s.ring.buffer I.count value rest
              (subst (Holds (2 ^ k) s.ring.buffer I.count) front I.holds);
        producing =
            Producing-pop s.producer s.ring.tail s.ring.buffer (length I.queue) (length rest)
              (omega (arith, fewer)) I.producing;
        consuming = tt;
      }

  -- From a new ring of 2 ^ k cells, after any interleaving of the atomic accesses of one producer
  -- and one consumer, the values that were popped, followed by a queue of fewer than 2 ^ k values,
  -- are the values that were pushed, in their order.
  pub Steps-Stands :
      (ring : Ring A)
      → ring.mask ≡ 2 ^ k - 1
      → ring.head ≡ 0
      → ring.tail ≡ 0
      → (s : System A) → Steps (new_system ring) s
      → (queue : List A) × (s.pushed ≡ s.popped ++ queue) × (length queue < 2 ^ k)
  Steps-Stands ring mask head tail s steps =
      let I = all_steps steps in (I.queue, I.history, I.bounded)
    where
      begin : Stands (new_system ring)
      begin = record {
        queue = [];
        count = 0;
        mask = mask;
        history = refl;
        head = head ∙ sym (mod-eq_of_lt (cells-pos k));
        tail = tail ∙ sym (mod-eq_of_lt (cells-pos k));
        bounded = cells-pos k;
        holds = unfold Holds in tt;
        producing = tt;
        consuming = tt;
      }

      all_steps : {s : System A} → Steps (new_system ring) s → Stands s
      all_steps (Steps.here s) = begin
      all_steps (Steps.after steps step) = Step-Stands step (all_steps steps)
