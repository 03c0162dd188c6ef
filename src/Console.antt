-- ===== src/Console.antt =====
-- src/pico_thing.cpp and src/mc6809.cpp: what the console's commands act on, and the supervisor's
-- calls with all that they change. `none` is an access outside an array.
pub mod Supply
pub mod Setup
pub mod Memory
pub mod Run
pub mod Load
pub mod Break
pub mod Commands
pub mod LineEditor
pub mod Poll
pub mod SelfTest
use mathlib.Core.Option
use pico_thing_main.Base.{
  ℕ, zero, suc, ◌+◌, ◌*◌, Bool, true, false, not, ◌&&◌, ◌||◌, List, Option, none, some, ltb,
  if◌then◌else◌, Cells,
}
use pico_thing_main.Interrupt.{Interrupt}
use pico_thing_main.Registers.{Registers}
use pico_thing_main.Mc6809.{Mc6809, assert_powered, assert_stopped}
use pico_thing_main.Mc6850
use pico_thing_main.TickTimer
use pico_thing_main.Core1.{Core1, on_fast, on_aux, on_tick, registers_of, with_registers}
use pico_thing_main.Core1.Requests.{snippet_copy}
use pico_thing_main.Power.{Supervisor, is_synced}
use pico_thing_main.Power
use pico_thing_main.Copy.{Guest, copy_outwards, copy_inwards}

-- The pins to the 6809, as in `Supervisor`.
pub record Lines : Type 0 where
  pub power : Bool
  pub reset_line : Bool
  pub halt_line : Bool
  pub lines_driven : Bool
  pub nmi_line : Bool
  pub firq_line : Bool
  pub irq_line : Bool

-- All that core 1 has, the pins, whether `set_setup_callback` has been called, the guest's memory,
-- and the static variables of core 0.
pub record Board : Type 0 where
  pub core1 : Core1
  pub lines : Lines
  pub setup_callback : Bool
  pub memory : Cells
  pub core1_initialised : Bool
  pub verbose : Bool
  pub break_active : Interrupt
  pub srecord_ignore : Bool

-- The generated programs, the rounds of the interrupt handlers and of the guest while core 0 waits,
-- and those that come between two commands or two chunks.
pub record Env : Type 0 where
  pub copy_out_code : Cells
  pub copy_in_code : Cells
  pub block_fill_code : Cells
  pub loop_rw_code : Cells
  pub break_code : Cells
  pub sync_code : Cells
  pub dat_init_code : Cells
  pub snippet_code : List Cells
  pub chunk_code : List (List ℕ)
  pub dbgmon_chunk : List ℕ
  pub nitros9_chunk : List ℕ
  pub observe : ℕ → Board → Board
  pub settle : Board → Board

abbrev pub is_powered : Board → Bool
is_powered b = assert_powered b.core1.mc6809

abbrev pub is_held : Board → Bool
is_held b = assert_stopped b.core1.mc6809

abbrev pub on_registers : (Registers → Registers) → Board → Board
on_registers f b = record b { core1 = with_registers (f (registers_of b.core1)) b.core1 }

abbrev pub on_mc6809 : (Mc6809 → Mc6809) → Board → Board
on_mc6809 f b = record b { core1 = record b.core1 { mc6809 = f b.core1.mc6809 } }

abbrev pub supervisor_of : Board → Supervisor
supervisor_of b = record {
  mc6809 = b.core1.mc6809;
  power = b.lines.power;
  reset_line = b.lines.reset_line;
  halt_line = b.lines.halt_line;
  lines_driven = b.lines.lines_driven;
  nmi_line = b.lines.nmi_line;
  firq_line = b.lines.firq_line;
  irq_line = b.lines.irq_line;
}

abbrev pub with_supervisor : Supervisor → Board → Board
with_supervisor s b = record b {
  core1 = record b.core1 { mc6809 = s.mc6809 };
  lines = record {
    power = s.power;
    reset_line = s.reset_line;
    halt_line = s.halt_line;
    lines_driven = s.lines_driven;
    nmi_line = s.nmi_line;
    firq_line = s.firq_line;
    irq_line = s.irq_line;
  };
}

-- A method of the supervisor.
abbrev pub on_supervisor : (Supervisor → Supervisor) → Board → Board
on_supervisor f b = with_supervisor (f (supervisor_of b)) b

-- The callback that set_power sets.
unfoldable pub setup_devices : Core1 → Core1
setup_devices g = record (on_aux Mc6850.reset (on_fast Mc6850.reset (on_tick TickTimer.reset g))) {
  watchpoint_armed = false;
}

-- `if (setup_callback) setup_callback()`, with which `setup` begins.
unfoldable pub call_setup : Board → Board
unfolding setup_devices
call_setup b = if b.setup_callback then record b { core1 = setup_devices b.core1 } else b

-- mc6809::start
unfoldable pub start : Board → Board
unfolding call_setup
start b = if not (is_held b) then b else on_supervisor Power.start (call_setup b)

-- The loop of mc6809::start_with_timeout, on the whole state.
unfoldable pub await_sync : ℕ → (ℕ → Board → Board) → ℕ → Board → Board
await_sync zero observe i b = b
await_sync (suc n) observe i b = elim (is_synced (observe i b).core1.mc6809.run_state) [
  | true ↦ observe i b
  | false ↦ await_sync n observe (i + 1) (observe i b)
]

-- mc6809::start_with_timeout
unfoldable pub start_with_timeout : Env → ℕ → Bool → Board → Bool × Board
unfolding call_setup await_sync
start_with_timeout env timeout_ms sync_means_stop b =
    if not (is_held b)
    then (false, b)
    else let b₁ =
        await_sync (1000 * timeout_ms) env.observe 0 (on_supervisor Power.start (call_setup b)) in
      let ok = is_synced b₁.core1.mc6809.run_state in
      (ok, if sync_means_stop || not ok then on_supervisor Power.stop b₁ else b₁)

-- A run of a snippet, and what the handlers see before core 0 goes on.
unfoldable pub run_snippet : Env → ℕ → Board → Bool × Board
unfolding start_with_timeout
run_snippet env timeout_ms b =
    let (ok, b₁) = start_with_timeout env timeout_ms true b in (ok, env.settle b₁)

-- The state as a copy takes it.
abbrev pub guest_of : Board → Guest Board
guest_of b = (registers_of b.core1, b)

abbrev pub board_of : Guest Board → Board
board_of (r, b) = record b { core1 = with_registers r b.core1 }

-- The call of start_with_timeout in `copy`.
unfoldable pub run_copy : Env → Guest Board → Bool × Guest Board
unfolding run_snippet
run_copy env g = let (ok, b) = run_snippet env 4 (board_of g) in (ok, guest_of b)

-- copy(OUTWARDS, …)
unfoldable pub copy_out : Env → ℕ → ℕ → List ℕ → Board → Option (Bool × Board)
unfolding run_copy
copy_out env count address bytes b =
    Option.map (λ (x : Bool × Guest Board). (x.0, board_of x.1))
      (copy_outwards env.copy_out_code (run_copy env) count address bytes (guest_of b))

-- copy(INWARDS, …), with the bytes.
unfoldable pub copy_in : Env → ℕ → ℕ → Board → Option (Bool × (List ℕ × Board))
unfolding run_copy
copy_in env count address b =
    Option.map (λ (x : Bool × (List ℕ × Guest Board)). (x.0, (x.1.0, board_of x.1.1)))
      (copy_inwards env.copy_in_code (run_copy env) count address (guest_of b))

-- snippet_copy
unfoldable pub load_snippet : Cells → Board → Option Board
load_snippet code b =
    Option.map (λ (r : Registers). on_registers (λ _. r) b)
      (snippet_copy code (registers_of b.core1))
