-- ===== src/Base/Words.antt =====
-- Bytes, 16-bit words and memory cells. A `uintN_t` is a number, and its wrap-around is written
-- out; a block of memory is a function from its index.
use Prim.Native.Nat.{ℕ, ◌+◌, ◌*◌, ◌/◌, ◌%◌}
use mathlib.Core.Bool.{Bool, true, false}
use pico_thing_main.Base.Tests.{◌==◌, if◌then◌else◌}

abbrev pub u8 : ℕ → ℕ
u8 n = n % 256

abbrev pub u16 : ℕ → ℕ
u16 n = n % 65536

abbrev pub u32 : ℕ → ℕ
u32 n = n % 4294967296

-- A one-bit field.
abbrev pub bit : Bool → ℕ
bit true = 1
bit false = 0

abbrev pub hi_byte : ℕ → ℕ
hi_byte n = n / 256 % 256

abbrev pub lo_byte : ℕ → ℕ
lo_byte n = n % 256

abbrev pub word_of : ℕ → ℕ → ℕ
word_of hi lo = hi * 256 + lo

abbrev pub Cells : Type 0
Cells = ℕ → ℕ

-- `cells[i] = v`
abbrev pub update : Cells → ℕ → ℕ → Cells
update c i v = λ j. if i == j then v else c j
