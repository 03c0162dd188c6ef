-- ===== src/SpscQueue/Fifo.antt =====
-- The ring refines a bounded first-in first-out list of bytes.
use pico_thing_main.Base.{
  ℕ, suc, ◌+◌, ◌-◌, ◌%◌, ◌≤◌, ◌<◌, ◌≡◌, ◌≢◌, ◌↔◌, refl, ap, ap₂, sym, ◌∙◌, true, List, [], ◌∷◌,
  ◌++◌, arith, ltb, ◌==◌, update, length, items, items_cong, items-snoc, length-items,
}
use pico_thing_main.SpscQueue.{
  SpscQueue, capacity, empty, next_index, is_empty, has_bytes, is_full, has_space, get_level, get,
  put, reset,
}

-- Both positions lie in the ring.
pub record IsValid (q : SpscQueue) : Type 0 where
  pub head_in : q.head < capacity
  pub tail_in : q.tail < capacity

-- The byte at a position that runs past the end of the ring.
abbrev cell : SpscQueue → ℕ → ℕ
cell q k = q.buf (k % 1024)

-- The bytes in the ring, oldest first.
unfoldable pub contents : SpscQueue → List ℕ
unfolding get_level
contents q = items (λ k. q.buf (k % 1024)) q.tail (get_level q)

pub length-contents : (q : SpscQueue) → length (contents q) ≡ get_level q
unfolding contents
length-contents q = length-items (cell q) q.tail (get_level q)

pub empty-IsValid : IsValid empty
unfolding empty
empty-IsValid = ground arith

pub contents-empty : contents empty ≡ []
unfolding contents empty
contents-empty = refl

-- Every operation keeps the positions in range, also where the caller has made no test.
pub put-IsValid : (q : SpscQueue) (ch : ℕ) → IsValid q → IsValid (put q ch)
unfolding put
put-IsValid q ch v = ground arith

pub get-IsValid : (q : SpscQueue) → IsValid q → IsValid (get q).1
unfolding get
get-IsValid q v = ground arith

pub reset_lem : (q : SpscQueue) → IsValid (reset q) × (contents (reset q) ≡ [])
unfolding reset contents
reset_lem q = (ground arith, refl)

-- The tests, by the number of bytes.
pub level_tests :
    (q : SpscQueue)
    → IsValid q
    → (get_level q ≤ 1023)
      × (is_full q ≡ (get_level q == 1023))
      × (has_space q ≡ ltb (get_level q) 1023)
      × (is_empty q ≡ (get_level q == 0))
      × (has_bytes q ≡ ltb 0 (get_level q))
unfolding get_level is_full has_space is_empty has_bytes
level_tests q v = (ground arith, ground arith, ground arith, ground arith, ground arith)

length-zero_iff : (xs : List ℕ) → (length xs ≡ 0) ↔ (xs ≡ [])
length-zero_iff [] = ground arith
length-zero_iff (x ∷ xs) = ground arith

-- The four tests say of a ring in range exactly what their names say of the list of its bytes: it
-- never holds more than 1023, `is_full` means 1023, `is_empty` means none, and `get_level` is their
-- number.
pub tests_lem :
    (q : SpscQueue)
    → IsValid q
    → (get_level q ≡ length (contents q))
      × (length (contents q) ≤ 1023)
      × ((is_full q ≡ true) ↔ (length (contents q) ≡ 1023))
      × ((has_space q ≡ true) ↔ (length (contents q) < 1023))
      × ((is_empty q ≡ true) ↔ (contents q ≡ []))
      × ((has_bytes q ≡ true) ↔ (contents q ≢ []))
tests_lem q v =
    let l = length-contents q in
    let t = level_tests q v in
    let z = length-zero_iff (contents q) in
    (sym l, ground arith, ground arith, ground arith, ground arith, ground arith)

advance-level :
    (q : SpscQueue)
    → IsValid q
    → has_space q ≡ true
    → (next_index q.head + 65536 - q.tail) % 1024 ≡ suc (get_level q)
unfolding has_space get_level
advance-level q v h = ground arith

store-cell :
    (q : SpscQueue) (ch : ℕ)
    → IsValid q
    → has_space q ≡ true
    → (j : ℕ) → j < get_level q
    → update q.buf q.head ch ((q.tail + j) % 1024) ≡ cell q (q.tail + j)
unfolding has_space get_level
store-cell q ch v h j l = ground arith

last-cell : (q : SpscQueue) → IsValid q → cell q (q.tail + get_level q) ≡ q.buf q.head
unfolding get_level
last-cell q v = ap q.buf (ground arith)

-- The first store of `put`: a byte at `head` is not yet in the queue.
pub contents-store :
    (q : SpscQueue) (ch : ℕ)
    → IsValid q
    → has_space q ≡ true
    → contents (record q { buf = update q.buf q.head ch }) ≡ contents q
unfolding contents get_level
contents-store q ch v h =
    items_cong (λ k. update q.buf q.head ch (k % 1024)) (cell q) q.tail q.tail (get_level q)
      (store-cell q ch v h)

-- The second store of `put` brings it in.
pub contents-advance :
    (q : SpscQueue)
    → IsValid q
    → has_space q ≡ true
    → contents (record q { head = next_index q.head }) ≡ contents q ++ q.buf q.head ∷ []
unfolding contents
contents-advance q v h = rw (advance-level q v h) (
    items-snoc (cell q) q.tail (get_level q)
    ∙ ap (λ x. items (cell q) q.tail (get_level q) ++ x ∷ []) (last-cell q v))

-- `put` into a ring in range that has space appends one byte and keeps the positions in range.
pub contents-put :
    (q : SpscQueue) (ch : ℕ)
    → IsValid q
    → has_space q ≡ true
    → IsValid (put q ch) × (contents (put q ch) ≡ contents q ++ ch ∷ [])
unfolding put has_space
contents-put q ch v h = (
  ground arith,
  contents-advance (record q { buf = update q.buf q.head ch }) (ground arith) h
      ∙ ap₂ (λ xs x. xs ++ x ∷ []) (contents-store q ch v h) (ground arith),
)

get-level :
    (q : SpscQueue)
    → IsValid q
    → has_bytes q ≡ true
    → get_level q ≡ suc ((q.head + 65536 - next_index q.tail) % 1024)
unfolding has_bytes get_level
get-level q v h = ground arith

get-first : (q : SpscQueue) → IsValid q → q.tail % 1024 ≡ q.tail
get-first q v = omega arith

get-cell : (q : SpscQueue) (j : ℕ) → cell q (q.tail + 1 + j) ≡ cell q (next_index q.tail + j)
get-cell q j = ap q.buf (omega arith)

-- `get` from a ring in range that has bytes returns the oldest one, leaves the others, and keeps
-- the positions in range.
pub contents-get :
    (q : SpscQueue)
    → IsValid q
    → has_bytes q ≡ true
    → IsValid (get q).1 × (contents q ≡ (get q).0 ∷ contents (get q).1)
unfolding get has_bytes contents
contents-get q v h = (
  ground arith,
  ap (items (cell q) q.tail) (get-level q v h)
      ∙ ap₂ ◌∷◌ (ap q.buf (get-first q v))
          (items_cong (cell q) (cell q) (q.tail + 1) (next_index q.tail) _ λ j _. get-cell q j),
)
