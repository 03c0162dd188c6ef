-- ===== src/Examples/Machines.antt =====
-- A board, and a guest whose copying snippet does its work in the first round.
use pico_thing_main.Base.{
  List, byte_at, ◌∷◌, ℕ, ◌+◌, ◌-◌, ◌≡◌, refl, sym, subst, ap, ◌∙◌, Bool, true, false, not, ◌&&◌,
  leb, ltb, [], arith, Cells, if◌then◌else◌,
}
use pico_thing_main.Interrupt.{Interrupt}
use pico_thing_main.Registers.{Registers, read_byte, read_word}
use pico_thing_main.SpscQueue.{SpscQueue}
use pico_thing_main.Mc6809.{
  Mc6809, RunState, bus_running, rs_reset, rs_synced, assert_stopped, assert_powered,
}
use pico_thing_main.Mc6850.{Mc6850}
use pico_thing_main.WriteRing.{WriteRing}
use pico_thing_main.Core1.{Core1, registers_of}
use pico_thing_main.Power
use pico_thing_main.Copy.Loaded.{IsLoaded, IsLoaded-kept}
use pico_thing_main.Copy.Outwards.{CopiesOut}
use pico_thing_main.Console.{
  Board, Env, is_held, run_copy, run_snippet, start_with_timeout, call_setup, supervisor_of,
  on_supervisor, board_of, await_sync,
}
use pico_thing_main.Console.Setup.{
  Placement, SameAbove, mc6809-Placement, call_setup-Settled, call_setup_keeps, start-registers,
}
use pico_thing_main.Console.Load.Record.{Ready, memory_of}

abbrev pub blank : Registers
blank = record { read_registers = λ i. 0; write_registers = λ i. 0 }

abbrev pub cpu_in : RunState → Mc6809
cpu_in s = record {
  old_bus_state = bus_running;
  bus_state = bus_running;
  run_state = s;
  task = 0;
  nesting_depth = 0;
  rti_task_countdown = 0;
  rti_pending_task = 0;
  task_stack = λ i. 0;
  task_stack_ptr = 0;
  busy = false;
  lic = false;
  vma = true;
  trace = λ i. 0;
  trace_pos = 0;
  trace_enabled = false;
  trace_full = false;
  trace_irq_trigger = λ i. false;
  regs = blank;
  task_word = 32;
}

-- A queue with the bytes 10, 11, 12.
abbrev pub three_bytes : SpscQueue
three_bytes = record { buf = λ i. i + 10; head = 3; tail = 0 }

abbrev pub port_at : ℕ → ℕ → Mc6850
port_at ctl data_register = record {
  ctl_offset = ctl;
  data_offset = data_register;
  tx = three_bytes;
  rx = three_bytes;
  cached_status_byte = 2;
  cached_irq_result = Interrupt.none;
  transmit_buffer_empty = true;
  receive_buffer_full = false;
  transmit_irq = false;
  receive_irq = false;
  assert_transmit_irq = false;
  assert_receive_irq = false;
  cts_deasserted = false;
  rts_deasserted = false;
  loopback_close = false;
  loopback_queue = false;
  tx_write_pending = false;
  irq_dirty = true;
  host_cts_deasserted = false;
}

abbrev pub empty_ring : WriteRing
empty_ring = record {
  write_ring = λ i. record { location = 0; value = 0 };
  write_ring_head = 0;
  write_ring_tail = 0;
}

abbrev pub machine_in : RunState → Core1
machine_in s = record {
  mc6809 = cpu_in s;
  fast_serial = port_at 4 5;
  aux_serial = port_at 6 7;
  system_tick = record {
    control_offset = 8;
    status_offset = 9;
    irq_pending = false;
    enabled = false;
    nmi_countdown = 0;
  };
  ring = empty_ring;
  console_interrupt = Interrupt.none;
  q_rising_edge = true;
  pend_nmi = false;
  pend_firq = false;
  pend_irq = false;
  nmi_pin = false;
  firq_pin = false;
  irq_pin = false;
  trace_e_irq_on = false;
  watchpoint_armed = false;
  watchpoint_saved_nmi_vector = 0;
  read_irq_received = false;
  read_location = 0;
  rx_read_count = 0;
  rx_processed_count = 0;
  aux_rx_read_count = 0;
  aux_rx_processed_count = 0;
}

abbrev pub board_in : RunState → Board
board_in s = record {
  core1 = machine_in s;
  lines = record {
    power = true;
    reset_line = true;
    halt_line = false;
    lines_driven = true;
    nmi_line = false;
    firq_line = false;
    irq_line = false;
  };
  setup_callback = true;
  memory = λ j. 0;
  core1_initialised = true;
  verbose = false;
  break_active = Interrupt.none;
  srecord_ignore = true;
}

-- The copy that the buffer and the snippet ask for.
abbrev pub copied : Registers → Cells → Cells
copied r memory = λ j.
    if leb (read_word r 36) j && ltb j (read_word r 36 + read_byte r 39)
    then r.read_registers (16 + (j - read_word r 36))
    else memory j

abbrev pub in_state : RunState → Board → Board
in_state s b = record b {
  core1 = record b.core1 { mc6809 = record b.core1.mc6809 { run_state = s } };
}

-- COPY_OUT of extra/api.asm.
abbrev copy_out_bytes : List ℕ
copy_out_bytes =
    0x8E ∷ 0xFF ∷ 0xD0 ∷ 0xCE ∷ 0xAA ∷ 0xAA ∷ 0xC6 ∷ 0xBB ∷ 0xA6 ∷ 0x80 ∷ 0xA7 ∷ 0xC0 ∷ 0x5A ∷ 0x26
    ∷ 0xF9 ∷ 0x13 ∷ []

abbrev pub env : Env
env = record {
  copy_out_code = byte_at copy_out_bytes;
  copy_in_code = λ i. 0x13;
  block_fill_code = λ i. 0x12;
  loop_rw_code = λ i. 0x12;
  break_code = λ i. 0x12;
  sync_code = λ i. 0x13;
  dat_init_code = λ i. 0x12;
  snippet_code = [];
  chunk_code = [];
  dbgmon_chunk = [];
  nitros9_chunk = [];
  observe =
      λ i b. in_state rs_synced (record b { memory = copied (registers_of b.core1) b.memory });
  settle = in_state rs_reset;
}

-- The run of the snippet on a board that is held.
abbrev started : Board → Board
started b = on_supervisor Power.start (call_setup b)

abbrev finished : Board → Board
finished b = in_state rs_reset (on_supervisor Power.stop (env.observe 0 (started b)))

is_held_lem : (b : Board) → b.core1.mc6809.run_state ≡ rs_reset → is_held b ≡ true
unfolding assert_stopped assert_powered
is_held_lem b e = ground (arith, e)

run_snippet_lem :
    (b : Board) → b.core1.mc6809.run_state ≡ rs_reset → run_snippet env 4 b ≡ (true, finished b)
unfolding run_snippet start_with_timeout await_sync
run_snippet_lem b e =
    ap
      (λ (q : Bool).
        let x : Bool × Board =
          if not q
          then (false, b)
          else (true, on_supervisor Power.stop (env.observe 0 (started b))) in
        (x.0, in_state rs_reset x.1))
      (is_held_lem b e)

copied_same :
    (r s : Registers) (m n : Cells)
    → SameAbove r s
    → ((j : ℕ) → n j ≡ m j)
    → (j : ℕ) → copied s n j ≡ copied r m j
copied_same r s m n a e j = ground (
  arith,
  e j,
  a 36 (omega arith),
  a 37 (omega arith),
  a 39 (omega arith),
  a (16 + (j - read_word r 36)) (omega arith),
)

same_registers : (r s : Registers) → s ≡ r → SameAbove r s
same_registers r s e = λ j _ i. (e i).read_registers j

-- What it leaves.
finished-Ready : (b : Board) → Ready b → Ready (finished b)
finished-Ready b y =
    let k = call_setup-Settled b y.placed in
    record {
      held = refl;
      heeded = (call_setup_keeps b).1 ∙ y.heeded;
      placed = mc6809-Placement (call_setup b).core1 _ k.placed;
    }

finished_memory :
    (b : Board)
    → Placement b.core1
    → (j : ℕ) → (finished b).memory j ≡ copied (registers_of b.core1) b.memory j
finished_memory b p j =
    let k = call_setup-Settled b p in
    let c = call_setup b in
    let r = start-registers (supervisor_of c) in
    copied_same (registers_of c.core1) (registers_of (started b).core1) c.memory c.memory
      (same_registers (registers_of c.core1) (registers_of (started b).core1) r) (λ _. refl) j
    ∙ copied_same (registers_of b.core1) (registers_of c.core1) b.memory c.memory k.above
        (λ i. ap (λ (m : Cells). m i) (call_setup_keeps b).0) j

finished_registers :
    (b : Board)
    → Placement b.core1
    → SameAbove (registers_of b.core1) (registers_of (finished b).core1)
unfolding Power.stop
finished_registers b p j l =
    let k = call_setup-Settled b p in
    let c = call_setup b in
    same_registers (registers_of c.core1) (registers_of (started b).core1)
      (start-registers (supervisor_of c)) j l
    ∙ k.above j l

pub run_copy-CopiesOut : CopiesOut memory_of Ready env.copy_out_code (run_copy env)
unfolding run_copy
run_copy-CopiesOut r w y t =
    let b = board_of (r, w) in
    let z : Ready b = record {
      held = y.held;
      heeded = y.heeded;
      placed = mc6809-Placement w.core1 _ y.placed;
    } in
    let e = run_snippet_lem b z.held in
    (
      ap (λ (x : Bool × Board). x.0) e,
      subst (λ (x : Bool × Board). IsLoaded env.copy_out_code (registers_of x.1.core1)) (sym e)
          (IsLoaded-kept env.copy_out_code r (registers_of (finished b).core1)
            (λ j l _ _ _. finished_registers b z.placed j (omega (arith, l))) t.loaded),
      subst (λ (x : Bool × Board). Ready x.1) (sym e) (finished-Ready b z),
      λ j. ap (λ (x : Bool × Board). x.1.memory j) e ∙ finished_memory b z.placed j,
    )

pub machine-Placement : (s : RunState) → Placement (machine_in s)
machine-Placement s = record {
  fast_ctl = omega arith;
  fast_data = omega arith;
  aux_ctl = omega arith;
  aux_data = omega arith;
  tick_status = omega arith;
}
