-- ===== src/Examples/Runs.antt =====
-- Runs of the 6809 for core 0, at concrete inputs.
use pico_thing_main.Base.{
  ℕ, ◌+◌, ◌-◌, ◌≡◌, refl, Bool, true, false, ◌&&◌, leb, ltb, if◌then◌else◌, List, [], ◌∷◌, arith,
  Cells,
}
use pico_thing_main.Registers.{Registers, read_word, read_byte}
use pico_thing_main.Mc6809.{
  Mc6809, bus_running, rs_reset, rs_synced, rs_running, assert_stopped, assert_powered,
}
use pico_thing_main.Power.{Supervisor}
use pico_thing_main.TickTimer.{TickTimer}
use pico_thing_main.Copy.{Guest, copy_outwards}
use pico_thing_main.Copy.Outwards.{CopiesOut, Copied, copy_outwards_lem}

abbrev blank : Registers
blank = record { read_registers = λ i. 0; write_registers = λ i. 0 }

abbrev held : Supervisor
held = record {
  mc6809 = record {
    old_bus_state = bus_running;
    bus_state = bus_running;
    run_state = rs_reset;
    task = 0;
    nesting_depth = 0;
    rti_task_countdown = 0;
    rti_pending_task = 0;
    task_stack = λ i. 0;
    task_stack_ptr = 0;
    busy = false;
    lic = false;
    vma = false;
    trace = λ i. 0;
    trace_pos = 0;
    trace_enabled = false;
    trace_full = false;
    trace_irq_trigger = λ i. false;
    regs = blank;
    task_word = 32;
  };
  power = true;
  reset_line = true;
  halt_line = false;
  lines_driven = true;
  nmi_line = false;
  firq_line = false;
  irq_line = false;
}

-- The 6809 syncs in the third microsecond.
abbrev syncs : ℕ → Mc6809 → Mc6809
syncs i m = record m { run_state = if leb 2 i then rs_synced else rs_running }

held-assert_stopped : assert_stopped held.mc6809 ≡ true
unfolding assert_stopped assert_powered
held-assert_stopped = refl

-- A snippet that does its work.
abbrev snippet_run : Guest Cells → Bool × Guest Cells
snippet_run (r, memory) = (
  true,
  (
    r,
    λ j.
        if leb (read_word r 36) j && ltb j (read_word r 36 + read_byte r 39)
        then r.read_registers (16 + (j - read_word r 36))
        else memory j,
  ),
)

abbrev own_memory : Cells → Cells
own_memory memory = memory

abbrev AlwaysReady : Cells → Type 0
AlwaysReady memory = Unit {0}

snippet_run-CopiesOut : CopiesOut own_memory AlwaysReady (λ i. 0x12) snippet_run
snippet_run-CopiesOut = λ r memory _ t. (refl, t.loaded, tt, λ j. refl)

abbrev many_bytes : List ℕ
many_bytes = 1 ∷ 2 ∷ 3 ∷ 4 ∷ 5 ∷ 6 ∷ 7 ∷ 8 ∷ 9 ∷ 10 ∷ 11 ∷ 12 ∷ 13 ∷ 14 ∷ 15 ∷ 16 ∷ 17 ∷ 18 ∷ []

copy_outwards_lem_example :
    Copied own_memory AlwaysReady
      (λ j. 0)
      0x1000
      many_bytes
      (copy_outwards (λ i. 0x12) snippet_run 18 0x1000 many_bytes (blank, λ j. 0))
copy_outwards_lem_example =
    copy_outwards_lem own_memory AlwaysReady (λ i. 0x12) snippet_run 0x1000 many_bytes blank
      (λ j. 0) snippet_run-CopiesOut tt (omega arith)

abbrev timer : TickTimer
timer = record {
  control_offset = 8;
  status_offset = 9;
  irq_pending = true;
  enabled = true;
  nmi_countdown = 3;
}
