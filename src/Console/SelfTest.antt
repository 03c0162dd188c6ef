-- ===== src/Console/SelfTest.antt =====
-- src/pico_thing.cpp: the command IRQ, the self-tests of the interrupts. The messages and the counts
-- of the debugging variant are left out.
pub mod Steps
pub mod Left
use mathlib.Core.Option
use pico_thing_main.Base.{
  ℕ, zero, suc, ◌+◌, ◌-◌, Bool, true, false, not, ◌&&◌, List, [], ◌∷◌, Option, none, some, ◌==◌,
  if◌then◌else◌, Cells, length,
}
use pico_thing_main.Interrupt.{Interrupt}
use pico_thing_main.Interrupt
use pico_thing_main.Registers.{Registers, read_byte, put_byte, put_word}
use pico_thing_main.Power
use pico_thing_main.Power.{is_synced}
use pico_thing_main.Core1.{
  registers_of, buffer_offset, vectors_offset, nmi_vector_offset, register_snippet,
}
use pico_thing_main.Console.{
  Board, Env, is_held, on_registers, on_supervisor, start, run_snippet, copy_out, load_snippet,
}
use pico_thing_main.Console.Break.{clear_buffer, console_set_interrupt}
use pico_thing_main.Console.Run.{chunk_address, set_reset_vector}

-- The generated programs of the tests, and what the guest and the handlers do while core 0 sleeps
-- for a number of microseconds.
pub record TestCode : Type 0 where
  pub zero_code : Cells
  pub test_swi : Cells
  pub test_nmi : Cells
  pub test_irq : Cells
  pub test_firq : Cells
  pub test_rti : Cells
  pub irq_test : List ℕ
  pub elapse : ℕ → Board → Board

abbrev pub firq_vector_offset : ℕ
firq_vector_offset = 54

abbrev pub irq_vector_offset : ℕ
irq_vector_offset = 56

abbrev pub swi_vector_offset : ℕ
swi_vector_offset = 58

-- The registers that a test leaves in the buffer, as the 6809 stacks them.
abbrev pub swi_stack : List ℕ
swi_stack = 0xD0 ∷ 0x55 ∷ 0xAA ∷ 0x00 ∷ 0x66 ∷ 0x77 ∷ 0x00 ∷ 0x00 ∷ 0x33 ∷ 0xCC ∷ 0xFF ∷ 0xEE ∷ []

abbrev pub nmi_stack : List ℕ
nmi_stack = 0xD8 ∷ 0x00 ∷ 0x00 ∷ 0x00 ∷ 0xAA ∷ 0xBB ∷ 0x00 ∷ 0x00 ∷ 0xCC ∷ 0xDD ∷ 0xFF ∷ 0xED ∷ []

abbrev pub irq_stack : List ℕ
irq_stack = 0xC8 ∷ 0x00 ∷ 0x00 ∷ 0x00 ∷ 0xAB ∷ 0xAB ∷ 0x00 ∷ 0x00 ∷ 0xCD ∷ 0xCD ∷ 0xFF ∷ 0xED ∷ []

abbrev pub firq_stack : List ℕ
firq_stack = 0x1F ∷ 0xFF ∷ 0xED ∷ []

abbrev pub rti_stack : List ℕ
rti_stack = 0x80 ∷ 0x12 ∷ 0x23 ∷ 0x34 ∷ 0x45 ∷ 0x56 ∷ 0x67 ∷ 0x78 ∷ 0x89 ∷ 0x90 ∷ 0xFF ∷ 0xE7 ∷ []

-- A loop that waits for a condition, a microsecond a round: the rounds left. None is left if the wait
-- has timed out.
unfoldable pub await : (Board → Bool) → ℕ → (ℕ → Board → Board) → ℕ → Board → ℕ × Board
await test zero observe i b = (0, b)
await test (suc n) observe i b = elim (test b) [
  | true ↦ (suc n, b)
  | false ↦ await test n observe (i + 1) (observe i b)
]

-- The rounds after which `timeout` is above its limit.
abbrev pub max_polls : ℕ
max_polls = 1000001

abbrev pub synced : Board → Bool
synced b = is_synced b.core1.mc6809.run_state

abbrev pub shared : ℕ → Board → ℕ
shared i b = read_byte (registers_of b.core1) (buffer_offset + i)

abbrev pub put_shared : ℕ → ℕ → Board → Board
put_shared i v b = on_registers (λ r. put_byte r (buffer_offset + i) v) b

-- `MC6809.stop()`, and what the handlers see of it.
unfoldable pub stop_6809 : Env → Board → Board
stop_6809 env b = env.settle (on_supervisor Power.stop b)

-- An interrupt for a time, and a time without.
unfoldable pub pulse : TestCode → ℕ → ℕ → Interrupt → Board → Board
unfolding console_set_interrupt
pulse t width gap eirq b =
    t.elapse gap
      (console_set_interrupt Interrupt.none (t.elapse width (console_set_interrupt eirq b)))

-- The strobe test, which ends with a key after a number of rounds.
unfoldable pub strobe : TestCode → ℕ → Board → Board
unfolding pulse
strobe t zero b = b
strobe t (suc n) b = strobe t n (
    pulse t 5000 5000 Interrupt.irq
      (pulse t 5000 5000 Interrupt.firq (pulse t 5000 5000 Interrupt.nmi b)))

-- A run until the guest has synced: the rounds left.
unfoldable pub software_test : Env → Board → ℕ × Board
unfolding await stop_6809
software_test env b =
    let (left, b₁) = await synced max_polls env.observe 0 (start b) in (left, stop_6809 env b₁)

-- The same with an interrupt, a tenth of a millisecond after the start.
unfoldable pub hardware_run : Env → TestCode → Interrupt → Board → ℕ × Board
unfolding await stop_6809 console_set_interrupt
hardware_run env t eirq b =
    let (left, b₁) =
      await synced max_polls env.observe 0 (console_set_interrupt eirq (t.elapse 100 (start b))) in
    (left, console_set_interrupt Interrupt.none (stop_6809 env b₁))

unfoldable pub hardware_test : Env → TestCode → Cells → ℕ → Interrupt → Board → Option (ℕ × Board)
unfolding hardware_run
hardware_test env t code vector eirq b =
    Option.map
      (λ (b₁ : Board).
        hardware_run env t eirq (on_registers (λ r. put_word r vector (register_snippet + 15)) b₁))
      (load_snippet code b)

unfoldable pub swi_test : Env → TestCode → Board → Option (ℕ × Board)
unfolding software_test
swi_test env t b =
    Option.map
      (λ (b₁ : Board).
        software_test env
          (on_registers (λ r. put_word r swi_vector_offset (register_snippet + 14)) b₁))
      (load_snippet t.test_swi b)

-- The loop that stores the stack in the buffer.
unfoldable pub put_stack : ℕ → List ℕ → Registers → Registers
put_stack i [] r = r
put_stack i (x ∷ xs) r = put_stack (i + 1) xs (put_byte r (buffer_offset + i) x)

unfoldable pub rti_test : Env → TestCode → Board → Option (ℕ × Board)
unfolding software_test put_stack
rti_test env t b = Option.map (software_test env) (
    load_snippet t.test_rti (
      put_shared 15 0xE6 (
        on_registers
          (λ r. put_stack 4 rti_stack (put_word r swi_vector_offset (register_snippet + 9))) b)))

-- The loop that compares the buffer's end with a stack.
unfoldable pub compare_stack : Registers → ℕ → List ℕ → Bool → Bool
compare_stack r i [] success = success
compare_stack r i (x ∷ xs) success =
    compare_stack r (i + 1) xs (if read_byte r (buffer_offset + i) == x then success else false)

-- Whether a test has passed.
unfoldable pub judge : List ℕ → ℕ × Board → Option Bool × Board
unfolding compare_stack
judge stack (left, b) =
    let success = compare_stack (registers_of b.core1) (16 - length stack) stack true in
    (some (if left == 0 then false else success), b)

-- What the chunk has left in the buffer.
abbrev pub chunk_checks : Board → Bool
chunk_checks b =
    shared 1 b == 0x11
    && (shared 2 b == 0x22)
    && (shared 3 b == 0x33)
    && (shared 4 b == 0xAA)
    && (shared 5 b == 0xBB)
    && (shared 6 b == 0xCC)

-- The second part of the chunk's test: the watchpoint.
unfoldable pub watchpoint_test : Env → TestCode → Bool → Board → Option Bool × Board
unfolding await stop_6809
watchpoint_test env t success b =
    let (left, b₁) =
      await (λ c. shared 9 c == 2) max_polls env.observe 0 (start (put_shared 8 1 b)) in
    if left == 0
    then (none, stop_6809 env b₁)
    else let b₂ = stop_6809 env (t.elapse 5000 b₁) in
      (some (if shared 10 b₂ == 0 && (shared 11 b₂ == 0) then false else success), b₂)

-- The chunk's test, once its program is in memory. The two waits share `timeout`.
unfoldable pub chunk_run : Env → TestCode → Board → Option Bool × Board
unfolding await stop_6809 pulse watchpoint_test
chunk_run env t b =
    let (left, b₁) = await (λ c. not (shared 0 c == 0)) max_polls env.observe 0 (start b) in
    if left == 0
    then (none, stop_6809 env b₁)
    else let (left', b₂) = await (λ c. not (shared 7 c == 0)) left env.observe 0 b₁ in
      if left' == 0
      then (none, stop_6809 env b₂)
      else let b₃ = stop_6809 env (
          pulse t 5 2000 Interrupt.irq
            (pulse t 5 2000 Interrupt.firq (pulse t 5 2000 Interrupt.nmi b₂))) in
        watchpoint_test env t (chunk_checks b₃) b₃

unfoldable pub chunk_test : Env → TestCode → Board → Option (Option Bool × Board)
unfolding chunk_run
chunk_test env t b =
    Option.map
      (λ (x : Bool × Board).
        if not x.0 then (none, x.1) else chunk_run env t (set_reset_vector chunk_address x.1))
      (copy_out env (length t.irq_test) chunk_address t.irq_test b)

-- The tests by their numbers.
unfoldable pub numbered_test : Env → TestCode → ℕ → ℕ → Board → Option (Option Bool × Board)
unfolding strobe swi_test hardware_test rti_test judge chunk_test
numbered_test env t keys testnum b =
    if testnum == 0
    then some (none, strobe t keys b)
    else if testnum == 1
    then Option.map (judge swi_stack) (swi_test env t b)
    else if testnum == 2
    then Option.map (judge nmi_stack)
        (hardware_test env t t.test_nmi nmi_vector_offset Interrupt.nmi b)
    else if testnum == 3
    then Option.map (judge irq_stack)
        (hardware_test env t t.test_irq irq_vector_offset Interrupt.irq b)
    else if testnum == 4
    then Option.map (judge firq_stack)
        (hardware_test env t t.test_firq firq_vector_offset Interrupt.firq b)
    else if testnum == 5
    then Option.map (judge rti_stack) (rti_test env t b)
    else chunk_test env t b

-- The loop that clears the vectors: the number of words left.
unfoldable pub clear_vectors : ℕ → Registers → Registers
clear_vectors zero r = r
clear_vectors (suc n) r = clear_vectors n (put_word r (vectors_offset + n + n) 0)

-- The snippet ZERO, and then a test.
unfoldable pub prepared_test : Env → TestCode → ℕ → ℕ → Board → Option (Option Bool × Board)
unfolding numbered_test clear_vectors clear_buffer
prepared_test env t keys testnum b =
    Option.bind
      (load_snippet t.zero_code (on_registers (λ r. clear_vectors 8 (clear_buffer 16 r)) b))
      λ (b₁ : Board).
        let (ok, b₂) = run_snippet env 10000 b₁ in
        if not ok then some (none, b₂) else numbered_test env t keys testnum b₂

-- CMD_IRQ: whether the test has passed, if it has come to a result.
unfoldable pub irq_command : Env → TestCode → ℕ → ℕ → Board → Option (Option Bool × Board)
unfolding prepared_test
irq_command env t keys testnum b =
    if not (is_held b)
    then some (none, b)
    else if testnum == 6
    then chunk_test env t b
    else prepared_test env t keys testnum b
