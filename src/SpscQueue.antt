-- ===== src/SpscQueue.antt =====
-- include/mc6850.h, class SpscQueue: a ring of 1024 bytes between the two cores, one of which
-- stores bytes at `head` while the other loads them at `tail`.
pub mod Fifo
pub mod Cores
use pico_thing_main.Base.{
  ℕ, zero, suc, ◌+◌, ◌-◌, ◌*◌, ◌%◌, ◌/◌, ◌<◌, ◌≡◌, Bool, not, List, [], ◌∷◌, ◌==◌, if◌then◌else◌,
  Cells, update, items,
}

pub record SpscQueue : Type 0 where
  pub buf : Cells
  pub head : ℕ  -- uint16_t
  pub tail : ℕ  -- uint16_t

abbrev pub capacity : ℕ
capacity = 1024

-- `head{0}`, `tail{0}` and `buf{}`.
unfoldable pub empty : SpscQueue
empty = record { buf = λ i. 0; head = 0; tail = 0 }

-- `(i + 1) & MASK`
abbrev pub next_index : ℕ → ℕ
next_index i = (i + 1) % 1024

unfoldable pub is_empty : SpscQueue → Bool
is_empty q = q.head == q.tail

unfoldable pub has_bytes : SpscQueue → Bool
unfolding is_empty
has_bytes q = not (is_empty q)

unfoldable pub is_full : SpscQueue → Bool
is_full q = next_index q.head == q.tail

unfoldable pub has_space : SpscQueue → Bool
unfolding is_full
has_space q = not (is_full q)

-- The difference is an `int`; the mask takes it modulo the capacity.
unfoldable pub get_level : SpscQueue → ℕ
get_level q = (q.head + 65536 - q.tail) % 1024

-- The byte that `get` returns, and the queue that it leaves. Nothing tests for an empty queue.
unfoldable pub get : SpscQueue → ℕ × SpscQueue
get q = (q.buf q.tail, record q { tail = next_index q.tail })

unfoldable pub put : SpscQueue → ℕ → SpscQueue
put q ch = record q { buf = update q.buf q.head ch; head = next_index q.head }

unfoldable pub reset : SpscQueue → SpscQueue
reset q = record q { head = 0; tail = 0 }
