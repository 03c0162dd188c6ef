-- ===== src/Console/Memory.antt =====
-- src/pico_thing.cpp: the commands that show and change the guest's memory and the registers:
-- EXAMINE, MODIFY, MODIFY_READ, SNIPPET, LOOP, VECTOR and FILL.
pub mod Writes
pub mod Shown
use mathlib.Core.Option
use pico_thing_main.Base.{
  true, false, ℕ, zero, suc, ◌+◌, ◌-◌, ◌*◌, ◌%◌, ◌/◌, Bool, not, ◌&&◌, List, [], ◌∷◌, ◌++◌, Option,
  none, some, leb, ltb, if◌then◌else◌, length, items, byte_at, u8, u16, u32,
}
use pico_thing_main.Registers.{put_byte, put_word, write_byte}
use pico_thing_main.WriteRing.{WriteEntry, push_write}
use pico_thing_main.Core1.{snippet_offset, vectors_offset, reset_vector_offset, register_snippet}
use pico_thing_main.Console.{
  Board, Env, is_powered, is_held, on_registers, start, start_with_timeout, run_snippet, copy_out,
  copy_in, load_snippet,
}

-- REGISTER_BASE
abbrev pub register_base : ℕ
register_base = 0xFFC0

-- display_start and display_end
abbrev pub display_start : ℕ → ℕ
display_start start = start / 16 * 16

unfoldable pub display_end : ℕ → ℕ
display_end finish = u16 (u32 (finish + 4294967295) / 16 * 16 + 16)

-- A row: where it starts, and its bytes, of which those outside the range stay blank.
abbrev pub Row : Type 0
Row = ℕ × List (Option ℕ)

abbrev pub row : ℕ → ℕ → ℕ → List ℕ → Row
row first finish loc bytes = (
  loc,
  items (λ i. if leb first (loc + i) && ltb (loc + i) finish then some (byte_at bytes i) else none)
      0 16,
)

-- The loop of CMD_EXAMINE and CMD_EXAMINE_DAT: the rounds left, the range, the next row, and the
-- rows shown so far.
unfoldable pub examine_rows : Env → ℕ → ℕ → ℕ → ℕ → List Row → Board → Option (List Row × Board)
examine_rows env zero first finish loc rows b = none
examine_rows env (suc n) first finish loc rows b =
    if not (ltb loc (display_end finish))
    then some (rows, b)
    else Option.bind (copy_in env 16 loc b) λ x. elim x.0 [
      | false ↦ some (rows, x.1.1)
      | true ↦
          examine_rows env n first finish (u16 (loc + 16)) (rows ++ row first finish loc x.1.0 ∷ [])
            x.1.1
    ]

unfoldable pub examine : Env → ℕ → ℕ → Board → Option (List Row × Board)
unfolding examine_rows
examine env first finish b =
    if not (is_held b)
    then some ([], b)
    else examine_rows env 4097 first finish (display_start first) [] b

-- CMD_EXAMINE_DAT
unfoldable pub examine_dat : Env → Board → Option (List Row × Board)
unfolding examine
examine_dat env b = examine env 0xFD00 0xFFC0 b

-- One round of the loop of CMD_MODIFY on the registers.
unfoldable pub modify_register : ℕ → ℕ → Board → Board
modify_register address v b =
    let loc = u8 (address % 64) in
    let b₁ = on_registers (λ r. write_byte r loc v) b in
    record b₁ {
      core1 = record b₁.core1 {
        ring = push_write (record { location = loc; value = v }) b₁.core1.ring;
      };
    }

unfoldable pub modify_registers : ℕ → List ℕ → Board → Board
unfolding modify_register
modify_registers address [] b = b
modify_registers address (v ∷ vs) b =
    modify_registers (address + 1) vs (modify_register address v b)

-- CMD_MODIFY
unfoldable pub modify : Env → ℕ → List ℕ → Board → Option Board
unfolding modify_registers
modify env first data_bytes b =
    let count = length data_bytes in
    if ltb first register_base
    then (if not (is_held b)
        then some b
        else Option.map (λ (x : Bool × Board). x.1)
            (if ltb register_base (first + count)
              then copy_out env (register_base - first) first data_bytes b
              else copy_out env count first data_bytes b))
    else some (modify_registers first data_bytes b)

-- The loops that store bytes or words in the read block.
abbrev pub put_bytes : ℕ → List ℕ → Board → Board
put_bytes i [] b = b
put_bytes i (v ∷ vs) b = put_bytes (i + 1) vs (on_registers (λ r. put_byte r i v) b)

abbrev pub put_words : ℕ → List ℕ → Board → Board
put_words i [] b = b
put_words i (v ∷ vs) b = put_words (i + 2) vs (on_registers (λ r. put_word r i v) b)

-- CMD_MODIFY_READ
unfoldable pub modify_read : ℕ → List ℕ → Board → Board
modify_read first data_bytes b = if ltb first register_base then b else put_bytes first data_bytes b

-- CMD_SNIPPET
unfoldable pub snippet_command : List ℕ → Board → Board
snippet_command data_bytes b =
    if not (is_powered b)
    then b
    else start (
        on_registers (λ r. put_word r reset_vector_offset register_snippet)
          (put_bytes snippet_offset data_bytes b))

-- CMD_LOOP
unfoldable pub loop_command : Env → ℕ → ℕ → Board → Option Board
loop_command env opcode address b =
    if not (is_powered b)
    then some b
    else Option.map
        (λ (b₁ : Board). start (
          on_registers
            (λ r. put_word (put_byte r snippet_offset opcode) (snippet_offset + 1) address) b₁))
        (load_snippet env.loop_rw_code b)

-- CMD_VECTOR
unfoldable pub vector_command : List ℕ → Board → Board
vector_command vec b = if not (is_powered b) then b else put_words vectors_offset vec b

-- CMD_FILL and its variants.
unfoldable pub fill : Env → ℕ → ℕ → ℕ → Board → Option Board
fill env first last v b =
    if not (is_held b)
    then some b
    else Option.map
        (λ (b₁ : Board).
          (run_snippet env 10000 (
            on_registers
              (λ r.
                put_word (put_word (put_byte r (snippet_offset + 1) v) (snippet_offset + 3) first)
                  (snippet_offset + 8) last)
              b₁)).1)
        (load_snippet env.block_fill_code b)
