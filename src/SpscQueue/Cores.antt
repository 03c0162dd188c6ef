-- ===== src/SpscQueue/Cores.antt =====
-- The queue as its two cores see it: `has_space` and `put` on one core, `has_bytes` and `get` on
-- the other, cut into the single loads and stores of the source and interleaved at will. The
-- acquire and release orders of the atomics make every core see the other's stores in the order in
-- which they are made, so that one sequence of steps describes a run.
use pico_thing_main.Base.{
  ℕ, ◌≤◌, ◌≡◌, refl, subst, sym, ap, ◌∙◌, true, List, [], ◌∷◌, ◌++◌, append_assoc, arith,
  if◌then◌else◌, update, length,
}
use pico_thing_main.SpscQueue.{SpscQueue, empty, next_index, has_bytes, has_space, get}
use pico_thing_main.SpscQueue.Fifo.{
  IsValid, contents, level_tests, empty-IsValid, contents-empty, contents-store, contents-advance,
  contents-get, length-contents,
}

-- Where the storing core stands in `if (q.has_space()) q.put(ch)`.
pub data Producer : Type 0 where
  resting : Producer
  admitted : ℕ → Producer
  written : ℕ → Producer

-- Where the loading core stands in `if (q.has_bytes()) ch = q.get()`.
pub data Consumer : Type 0 where
  waiting : Consumer
  informed : Consumer
  loaded : ℕ → Consumer

pub record Run : Type 0 where
  pub queue : SpscQueue
  pub producer : Producer
  pub consumer : Consumer
  pub sent : List ℕ
  pub received : List ℕ

-- One load or store of one core.
pub data Action : Type 0 where
  test_space : ℕ → Action
  store_byte : Action
  store_head : Action
  test_bytes : Action
  load_byte : Action
  store_tail : Action

produce : Producer → Action → Run → Run
produce resting (test_space ch) s =
    if has_space s.queue then record s { producer = admitted ch } else s
produce (admitted ch) store_byte s = record s {
  queue = record (s.queue) { buf = update s.queue.buf s.queue.head ch };
  producer = written ch;
}
produce (written ch) store_head s = record s {
  queue = record (s.queue) { head = next_index s.queue.head };
  producer = resting;
  sent = s.sent ++ ch ∷ [];
}
produce _ _ s = s

consume : Consumer → Action → Run → Run
consume waiting test_bytes s = if has_bytes s.queue then record s { consumer = informed } else s
consume informed load_byte s = record s { consumer = loaded (s.queue.buf s.queue.tail) }
consume (loaded ch) store_tail s = record s {
  queue = record (s.queue) { tail = next_index s.queue.tail };
  consumer = waiting;
  received = s.received ++ ch ∷ [];
}
consume _ _ s = s

-- An action that is not the core's next one does nothing.
pub step : Run → Action → Run
unfolding produce consume
step s (test_space ch) = produce s.producer (test_space ch) s
step s store_byte = produce s.producer store_byte s
step s store_head = produce s.producer store_head s
step s test_bytes = consume s.consumer test_bytes s
step s load_byte = consume s.consumer load_byte s
step s store_tail = consume s.consumer store_tail s

pub run : Run → List Action → Run
run s [] = s
run s (a ∷ as') = run (step s a) as'

pub start : Run
start = record { queue = empty; producer = resting; consumer = waiting; sent = []; received = [] }

abbrev ProducerKnows : Producer → SpscQueue → Type 0
ProducerKnows resting q = Unit {0}
ProducerKnows (admitted ch) q = has_space q ≡ true
ProducerKnows (written ch) q = (has_space q ≡ true) × (q.buf q.head ≡ ch)

abbrev ConsumerKnows : Consumer → SpscQueue → Type 0
ConsumerKnows waiting q = Unit {0}
ConsumerKnows informed q = has_bytes q ≡ true
ConsumerKnows (loaded ch) q = (has_bytes q ≡ true) × (q.buf q.tail ≡ ch)

pub record Inv (s : Run) : Type 0 where
  pub valid : IsValid s.queue
  pub producer_knows : ProducerKnows s.producer s.queue
  pub consumer_knows : ConsumerKnows s.consumer s.queue
  pub accounted : s.received ++ contents s.queue ≡ s.sent

-- What one core's store leaves the other core with.
abbrev storing : SpscQueue → ℕ → SpscQueue
storing q ch = record q { buf = update q.buf q.head ch }

abbrev advanced : SpscQueue → SpscQueue
advanced q = record q { head = next_index q.head }

abbrev released : SpscQueue → SpscQueue
released q = record q { tail = next_index q.tail }

storing-ConsumerKnows :
    (c : Consumer) (q : SpscQueue) (ch : ℕ)
    → IsValid q
    → has_space q ≡ true
    → ConsumerKnows c q
    → ConsumerKnows c (storing q ch)
unfolding has_space has_bytes
storing-ConsumerKnows waiting q ch v h k = tt
storing-ConsumerKnows informed q ch v h k = k
storing-ConsumerKnows (loaded x) q ch v h k = ground arith

advanced-ConsumerKnows :
    (c : Consumer) (q : SpscQueue)
    → IsValid q
    → has_space q ≡ true
    → ConsumerKnows c q
    → ConsumerKnows c (advanced q)
unfolding has_space has_bytes
advanced-ConsumerKnows waiting q v h k = tt
advanced-ConsumerKnows informed q v h k = ground arith
advanced-ConsumerKnows (loaded x) q v h k = ground arith

released-ProducerKnows :
    (p : Producer) (q : SpscQueue)
    → IsValid q
    → has_bytes q ≡ true
    → ProducerKnows p q
    → ProducerKnows p (released q)
unfolding has_space has_bytes
released-ProducerKnows resting q v h k = tt
released-ProducerKnows (admitted ch) q v h k = ground arith
released-ProducerKnows (written ch) q v h k = ground arith

same_producer : {p : Producer} (s : Run) → s.producer ≡ p → Inv s → ProducerKnows p s.queue
same_producer s e v = subst (λ p. ProducerKnows p s.queue) e v.producer_knows

same_consumer : {c : Consumer} (s : Run) → s.consumer ≡ c → Inv s → ConsumerKnows c s.queue
same_consumer s e v = subst (λ c. ConsumerKnows c s.queue) e v.consumer_knows

append_end :
    (xs ys : List ℕ) {zs : List ℕ} (x : ℕ) → xs ++ ys ≡ zs → xs ++ (ys ++ x ∷ []) ≡ zs ++ x ∷ []
append_end xs ys x e = sym (append_assoc xs ys (x ∷ [])) ∙ ap (λ l. l ++ x ∷ []) e

received_next :
    (s : Run) (ch : ℕ)
    → Inv s
    → has_bytes s.queue ≡ true
    → s.queue.buf s.queue.tail ≡ ch
    → (s.received ++ ch ∷ []) ++ contents (released s.queue) ≡ s.sent
unfolding get
received_next s ch v h b =
    append_assoc s.received (ch ∷ []) (contents (released s.queue))
    ∙ ap (λ x. s.received ++ x ∷ contents (released s.queue)) (sym b)
    ∙ ap (◌++◌ s.received) (sym (contents-get s.queue v.valid h).1)
    ∙ v.accounted

produce-Inv : (p : Producer) (a : Action) (s : Run) → s.producer ≡ p → Inv s → Inv (produce p a s)
unfolding produce has_space
produce-Inv resting (test_space ch) s e v = ground arith
produce-Inv (admitted ch) store_byte s e v =
    let h = same_producer s e v in
    record {
      valid = ground arith;
      producer_knows = (h, ground arith);
      consumer_knows = storing-ConsumerKnows s.consumer s.queue ch v.valid h v.consumer_knows;
      accounted = ap (◌++◌ s.received) (contents-store s.queue ch v.valid h) ∙ v.accounted;
    }
produce-Inv (written ch) store_head s e v =
    let (h, b) = same_producer s e v in
    record {
      valid = ground arith;
      producer_knows = tt;
      consumer_knows = advanced-ConsumerKnows s.consumer s.queue v.valid h v.consumer_knows;
      accounted =
          ap (◌++◌ s.received) (contents-advance s.queue v.valid h)
          ∙ ap (λ x. s.received ++ (contents s.queue ++ x ∷ [])) b
          ∙ append_end s.received (contents s.queue) ch v.accounted;
    }
produce-Inv _ _ s e v = v

consume-Inv : (c : Consumer) (a : Action) (s : Run) → s.consumer ≡ c → Inv s → Inv (consume c a s)
unfolding consume
consume-Inv waiting test_bytes s e v = ground arith
consume-Inv informed load_byte s e v = record {
  valid = v.valid;
  producer_knows = v.producer_knows;
  consumer_knows = (same_consumer s e v, refl);
  accounted = v.accounted;
}
consume-Inv (loaded ch) store_tail s e v =
    let (h, b) = same_consumer s e v in
    record {
      valid = ground arith;
      producer_knows = released-ProducerKnows s.producer s.queue v.valid h v.producer_knows;
      consumer_knows = tt;
      accounted = received_next s ch v h b;
    }
consume-Inv _ _ s e v = v

step-Inv : (s : Run) (a : Action) → Inv s → Inv (step s a)
unfolding step
step-Inv s (test_space ch) v = produce-Inv s.producer (test_space ch) s refl v
step-Inv s store_byte v = produce-Inv s.producer store_byte s refl v
step-Inv s store_head v = produce-Inv s.producer store_head s refl v
step-Inv s test_bytes v = consume-Inv s.consumer test_bytes s refl v
step-Inv s load_byte v = consume-Inv s.consumer load_byte s refl v
step-Inv s store_tail v = consume-Inv s.consumer store_tail s refl v

run-Inv : (s : Run) (as' : List Action) → Inv s → Inv (run s as')
unfolding run
run-Inv s [] v = v
run-Inv s (a ∷ as') v = run-Inv (step s a) as' (step-Inv s a v)

start-Inv : Inv start
unfolding start
start-Inv = record {
  valid = empty-IsValid;
  producer_knows = tt;
  consumer_knows = tt;
  accounted = contents-empty;
}

-- However the two cores' loads and stores interleave, what the loading core has received, followed
-- by what the ring still holds, is exactly what the storing core has sent, in order; no byte is
-- lost, doubled or moved, and at most 1023 of them are in the ring.
pub run_fifo :
    (as' : List Action)
    → let s = run start as' in
      (s.received ++ contents s.queue ≡ s.sent) × (length (contents s.queue) ≤ 1023)
run_fifo as' =
    let v = run-Inv start as' start-Inv in
    (
      v.accounted,
      omega (
        arith,
        length-contents (run start as').queue,
        (level_tests (run start as').queue v.valid).0,
      ),
    )
