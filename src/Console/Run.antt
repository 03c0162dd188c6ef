-- ===== src/Console/Run.antt =====
-- src/pico_thing.cpp: the commands that run the 6809: GO, TASK_SET, RUN, STOP, TRACE and NITROS9.
use mathlib.Core.Option
use pico_thing_main.Base.{
  ℕ, zero, suc, ◌-◌, Bool, not, List, [], ◌∷◌, Option, none, some, if◌then◌else◌, length,
}
use pico_thing_main.Registers.{put_word}
use pico_thing_main.Mc6850
use pico_thing_main.TickTimer
use pico_thing_main.Mc6809.{
  Mc6809, task_change, task_pins_update, trace_arm, trace_clear, trace_set_irq_trigger,
}
use pico_thing_main.Power
use pico_thing_main.Core1.{on_fast, on_aux, on_tick, reset_vector_offset, vectors_offset}
use pico_thing_main.Console.{
  Board, Env, is_powered, is_held, on_registers, on_mc6809, on_supervisor, start, run_snippet,
  copy_out, load_snippet,
}

-- CHUNK_ADDRESS
abbrev pub chunk_address : ℕ
chunk_address = 0x0130

-- The three resets of CMD_GO and CMD_GO_ADDR.
unfoldable pub reset_devices : Board → Board
reset_devices b = record b {
  core1 = on_tick TickTimer.reset (on_aux Mc6850.reset (on_fast Mc6850.reset b.core1));
}

abbrev pub set_reset_vector : ℕ → Board → Board
set_reset_vector address b = on_registers (λ r. put_word r reset_vector_offset address) b

-- CMD_GO
unfoldable pub go : Board → Board
unfolding reset_devices
go b = if not (is_powered b) then b else start (reset_devices b)

-- CMD_GO_ADDR
unfoldable pub go_address : ℕ → Board → Board
unfolding reset_devices
go_address address b =
    if not (is_powered b) then b else start (set_reset_vector address (reset_devices b))

-- CMD_TASK_SET
unfoldable pub task_set : ℕ → Board → Board
task_set tasknum b =
    if not (is_powered b)
    then b
    else on_mc6809 (λ (m : Mc6809). let m₁ = task_change tasknum m in task_pins_update m₁.task m₁) b

-- The program at an index.
abbrev pub at_index {ℓ} : {A : Type ℓ} → List A → ℕ → Option A
at_index [] i = none
at_index (x ∷ xs) zero = some x
at_index (x ∷ xs) (suc i) = at_index xs i

-- The end of CMD_RUN, if it is told to stop the 6809, and of CMD_RUN_NOWAIT.
unfoldable pub launch : Env → Bool → Board → Board
launch env stop b = if stop then (run_snippet env 1000 b).1 else start b

-- A chunk goes to memory, and RESET points to it.
unfoldable pub load_chunk : Env → ℕ → List ℕ → Board → Option (Bool × Board)
load_chunk env address code b = copy_out env (length code) address code b

unfoldable pub run_chunk : Env → Bool → List ℕ → Board → Option Board
unfolding launch load_chunk
run_chunk env stop code b =
    Option.map
      (λ (x : Bool × Board).
        if not x.0 then x.1 else launch env stop (set_reset_vector chunk_address x.1))
      (load_chunk env chunk_address code b)

-- CMD_RUN and CMD_RUN_NOWAIT: an index of a snippet, or behind these of a chunk.
unfoldable pub run : Env → Bool → ℕ → Board → Option Board
unfolding run_chunk launch
run env stop idx b = elim (at_index env.snippet_code idx) [
  | some code ↦
      if not (is_held b) then some b else Option.map (launch env stop) (load_snippet code b)
  | none ↦ elim (at_index env.chunk_code (idx - length env.snippet_code)) [
    | none ↦ some b
    | some code ↦ if not (is_held b) then some b else run_chunk env stop code b
  ]
]

-- CMD_STOP and CMD_STOP_STOP, CMD_STOP_HALT, CMD_STOP_RESTART
unfoldable pub stop : Board → Board
stop b = if not (is_powered b) then b else on_supervisor Power.stop b

unfoldable pub halt : Board → Board
halt b = if not (is_powered b) then b else on_supervisor Power.halt b

unfoldable pub restart : Board → Board
restart b = if not (is_powered b) then b else on_supervisor Power.release b

-- CMD_TRACE_ARM, CMD_TRACE_OFF, CMD_TRACE_IRQ
unfoldable pub trace_on : Board → Board
trace_on b = on_mc6809 trace_arm b

unfoldable pub trace_off : Board → Board
trace_off b = on_mc6809 trace_clear b

unfoldable pub trace_irq : ℕ → Board → Board
trace_irq intr b = on_mc6809 (trace_set_irq_trigger intr) b

-- A copy that ends the command if it fails, and what comes then.
abbrev pub then_copy : Env → ℕ → List ℕ → (Board → Option Board) → Board → Option Board
then_copy env address code rest b =
    Option.bind (load_chunk env address code b)
      λ (x : Bool × Board). if x.0 then rest x.1 else some x.1

-- CMD_NITROS9, from the copy of the monitor on.
unfoldable pub boot_nitros9 : Env → ℕ → Board → Option Board
unfolding load_chunk
boot_nitros9 env boot_device = then_copy env 0xFC00 env.dbgmon_chunk λ b.
    then_copy env chunk_address env.nitros9_chunk
      (then_copy env 0x0132 (boot_device ∷ [])
        λ b₁. some (start (set_reset_vector chunk_address b₁)))
      (on_registers (λ r. put_word r vectors_offset 0xFC12) b)

-- CMD_NITROS9
unfoldable pub nitros9 : Env → ℕ → Board → Option Board
unfolding boot_nitros9
nitros9 env boot_device b =
    if not (is_held b)
    then some b
    else Option.bind (load_snippet env.dat_init_code b) λ b₁.
      let (ok, b₂) = run_snippet env 4 b₁ in
      if not ok then some b₂ else boot_nitros9 env boot_device b₂
