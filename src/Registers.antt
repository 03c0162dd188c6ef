-- ===== src/Registers.antt =====
-- include/registers.h and src/registers.cpp: the two 64-byte register blocks that the guest reads
-- and writes. A block is a function from an index; cell 64 and above stand for the memory behind
-- the array. `reg[i]` and `registers::write(i)` mask the index, `copy_in` and `copy_out` do not.
pub mod Laws
use mathlib.Core.Option
use pico_thing_main.Base.{
  ℕ, zero, suc, ◌+◌, ◌*◌, ◌%◌, ◌/◌, ◌≡◌, Bool, List, [], ◌∷◌, Option, none, some, ltb, ◌==◌,
  if◌then◌else◌, Cells, update, u8, hi_byte, lo_byte, word_of,
}

pub record Registers : Type 0 where
  pub read_registers : Cells
  pub write_registers : Cells

abbrev pub register_length : ℕ
register_length = 64

-- `i & (register_length - 1)`
abbrev pub index : ℕ → ℕ
index i = i % 64

-- `static_cast<uint8_t>(reg[i])`
abbrev pub read_byte : Registers → ℕ → ℕ
read_byte r i = r.read_registers (index i)

-- `static_cast<uint16_t>(reg[i])`: the guest is big-endian.
abbrev pub read_word : Registers → ℕ → ℕ
read_word r i = word_of (r.read_registers (index i)) (r.read_registers (index i + 1))

-- `reg[i] = v` for a `uint8_t` v.
abbrev pub put_byte : Registers → ℕ → ℕ → Registers
put_byte r i v = record r { read_registers = update r.read_registers (index i) v }

-- `reg[i] = v` for a `uint16_t` v.
abbrev pub put_word : Registers → ℕ → ℕ → Registers
put_word r i v = record r {
  read_registers = update (update r.read_registers (index i) (hi_byte v)) (index i + 1) (lo_byte v);
}

-- `registers::write(i)`, read.
abbrev pub written_byte : Registers → ℕ → ℕ
written_byte r i = r.write_registers (index i)

-- `registers::write(i) = v`
abbrev pub write_byte : Registers → ℕ → ℕ → Registers
write_byte r i v = record r { write_registers = update r.write_registers (index i) v }

unfoldable pub clear_from : ℕ → Registers → Registers
clear_from zero r = r
clear_from (suc n) r =
    let r' = record r {
      read_registers = update r.read_registers n 0;
      write_registers = update r.write_registers n 0;
    } in
    clear_from n r'

-- The order in which the loop of `registers::clear` visits the cells does not matter.
unfoldable pub clear : Registers → Registers
clear r = clear_from register_length r

-- `copy_in(addr, src, len)`, with `len` the length of `src`. `none` is a store outside the array.
unfoldable pub copy_in : Registers → ℕ → List ℕ → Option Registers
copy_in r addr [] = some r
copy_in r addr (x ∷ xs) =
    if ltb addr register_length
    then copy_in (record r { read_registers = update r.read_registers addr x }) (addr + 1) xs
    else none

copy_cells : Cells → ℕ → ℕ → Option (List ℕ)
copy_cells c addr zero = some []
copy_cells c addr (suc n) =
    if ltb addr register_length then Option.map (◌∷◌ (c addr)) (copy_cells c (addr + 1) n) else none

-- `copy_out(dst, addr, len)`: what lands in `dst`. `none` is a load outside the array.
unfoldable pub copy_out : Registers → ℕ → ℕ → Option (List ℕ)
unfolding copy_cells
copy_out r addr len = copy_cells r.read_registers addr len

unfoldable pub copy_out_write : Registers → ℕ → ℕ → Option (List ℕ)
unfolding copy_cells
copy_out_write r addr len = copy_cells r.write_registers addr len
