-- ===== src/Console/Break.antt =====
-- src/pico_thing.cpp: the commands BREAK and BREAK_RETURN, and console_set_interrupt.
pub mod Caught
use mathlib.Core.Option
use pico_thing_main.Base.{
  ℕ, zero, suc, ◌+◌, Bool, true, false, not, ◌&&◌, Option, some, ◌==◌, if◌then◌else◌,
}
use pico_thing_main.Interrupt.{Interrupt}
use pico_thing_main.Interrupt
use pico_thing_main.Registers.{Registers, read_byte, put_byte, put_word, write_byte}
use pico_thing_main.Core1.{
  registers_of, buffer_offset, snippet_offset, nmi_vector_offset, register_snippet,
}
use pico_thing_main.Console.{Board, Env, is_powered, on_registers, load_snippet}

unfoldable pub console_set_interrupt : Interrupt → Board → Board
console_set_interrupt eirq b = record b { core1 = record b.core1 { console_interrupt = eirq } }

-- The loop that clears the buffer in both blocks: the number of bytes left.
unfoldable pub clear_buffer : ℕ → Registers → Registers
clear_buffer zero r = r
clear_buffer (suc n) r =
    clear_buffer n (write_byte (put_byte r (buffer_offset + n) 0) (buffer_offset + n) 0)

-- The program counter that the snippet has stored in the buffer is not zero.
abbrev pub has_stacked : Board → Bool
has_stacked b = not (
    read_byte (registers_of b.core1) (buffer_offset + 10) == 0
    && (read_byte (registers_of b.core1) (buffer_offset + 11) == 0))

-- The loop that waits for it: the rounds left, what the guest does in a round, whether it came in
-- time, and the state.
unfoldable pub await_stacked : ℕ → (ℕ → Board → Board) → ℕ → Board → Bool × Board
await_stacked zero observe i b = (false, b)
await_stacked (suc n) observe i b = elim (has_stacked b) [
  | true ↦ (true, b)
  | false ↦ await_stacked n observe (i + 1) (observe i b)
]

-- The test for a break.
abbrev pub is_none : Interrupt → Bool
is_none Interrupt.none = true
is_none _ = false

-- CMD_BREAK, up to the wait.
unfoldable pub raise_break : Board → Board
unfolding clear_buffer console_set_interrupt
raise_break b =
    console_set_interrupt Interrupt.nmi
      (on_registers (λ r. put_word (clear_buffer 16 r) nmi_vector_offset register_snippet) b)

-- The wait, and what follows.
unfoldable pub catch_break : Env → Board → Board
unfolding await_stacked console_set_interrupt
catch_break env b =
    let (ok, b₁) = await_stacked 1000001 env.observe 0 b in
    let b₂ = console_set_interrupt Interrupt.none b₁ in
    if ok then record b₂ { break_active = Interrupt.nmi } else b₂

unfoldable pub break_command : Env → Board → Option Board
unfolding raise_break catch_break
break_command env b =
    if not (is_powered b)
    then some b
    else if not (is_none b.break_active)
    then some b
    else Option.map (λ (b₁ : Board). catch_break env (raise_break b₁))
        (load_snippet env.break_code b)

-- CMD_BREAK_RETURN
unfoldable pub break_return : Board → Board
break_return b =
    if not (is_powered b)
    then b
    else if is_none b.break_active
    then b
    else record (on_registers (λ r. put_byte r (snippet_offset + 14) 0) b) {
      break_active = Interrupt.none;
    }
