-- ===== src/Mc6809.antt =====
-- src/mc6809.cpp and include/mc6809.h: the supervisor's view of the 6809, and the part of the bus
-- observer (gpio_clock_eq_irq_handler of src/pico_thing.cpp) that moves it. The state holds the
-- shared register blocks and the word that was last put on the task pins. The clock frequency, the
-- debug counters and the printing are left out.
pub mod Trace
pub mod Nesting
use pico_thing_main.Base.{
  ℕ, ◌+◌, ◌-◌, ◌*◌, ◌%◌, ◌/◌, ◌^◌, ◌≡◌, Bool, true, false, not, ◌&&◌, ◌||◌, ltb, leb, ◌==◌,
  if◌then◌else◌, Cells, update, u8, u16, bit,
}
use pico_thing_main.Registers.{Registers, put_byte}

pub data BusState : Type 0 where
  bus_running bus_irq bus_sync bus_halt : BusState

pub data RunState : Type 0 where
  rs_unpowered rs_reset rs_running rs_in_irq rs_synced rs_halted : RunState

-- `run_state >= RS_RUNNING`
abbrev pub at_least_running : RunState → Bool
at_least_running rs_unpowered = false
at_least_running rs_reset = false
at_least_running _ = true

abbrev pub is_reset : RunState → Bool
is_reset rs_reset = true
is_reset _ = false

abbrev pub is_unpowered : RunState → Bool
is_unpowered rs_unpowered = true
is_unpowered _ = false

abbrev pub is_in_irq : RunState → Bool
is_in_irq rs_in_irq = true
is_in_irq _ = false

-- The two bits of BA and BS.
abbrev pub bus_code : BusState → ℕ
bus_code bus_running = 0
bus_code bus_irq = 1
bus_code bus_sync = 2
bus_code bus_halt = 3

pub record Mc6809 : Type 0 where
  pub old_bus_state : BusState
  pub bus_state : BusState
  pub run_state : RunState
  pub task : ℕ  -- uint8_t
  pub nesting_depth : ℕ  -- uint8_t
  pub rti_task_countdown : ℕ  -- uint8_t
  pub rti_pending_task : ℕ  -- uint8_t
  pub task_stack : Cells
  pub task_stack_ptr : ℕ  -- uint16_t
  pub busy : Bool
  pub lic : Bool
  pub vma : Bool
  pub trace : Cells
  pub trace_pos : ℕ  -- uint32_t
  pub trace_enabled : Bool
  pub trace_full : Bool
  pub trace_irq_trigger : ℕ → Bool
  pub regs : Registers
  pub task_word : ℕ

abbrev pub max_int_nest_depth : ℕ
max_int_nest_depth = 16

abbrev pub trace_size : ℕ
trace_size = 4096

-- INTERRUPT_RESET
abbrev pub interrupt_reset : ℕ
interrupt_reset = 7

abbrev pub system_task : ℕ
system_task = 0

-- task_pins_update: the five task bits, and above them a bit for task zero.
unfoldable pub task_pins_update : ℕ → Mc6809 → Mc6809
task_pins_update task m = record m { task_word = if task == 0 then 32 else task }

unfoldable pub task_initialise : Mc6809 → Mc6809
task_initialise m = record m { regs = put_byte m.regs system_task 0; task_stack_ptr = 0; task = 0 }

-- The result is the new `task`.
unfoldable pub task_change : ℕ → Mc6809 → Mc6809
task_change new_task m = record m { task = new_task % 32 }

unfoldable pub assert_powered : Mc6809 → Bool
assert_powered m = not (is_unpowered m.run_state)

unfoldable pub assert_stopped : Mc6809 → Bool
assert_stopped m = assert_powered m && is_reset m.run_state

-- `setup(RS_RESET)`; the callback, which resets the devices, is the caller's part.
unfoldable pub setup : Mc6809 → Mc6809
setup m = record m {
  run_state = rs_reset;
  old_bus_state = bus_running;
  bus_state = bus_running;
  task_stack_ptr = 0;
  nesting_depth = 0;
  rti_task_countdown = 0;
  rti_pending_task = 0;
  vma = false;
  trace_pos = if m.trace_enabled then 0 else m.trace_pos;
  trace_full = if m.trace_enabled then false else m.trace_full;
}

-- set_busy_lic_avma on the three status bits.
unfoldable pub set_busy_lic_avma : ℕ → Mc6809 → Mc6809
set_busy_lic_avma value m = record m {
  busy = value % 2 == 1;
  lic = value / 2 % 2 == 1;
  vma = value / 4 % 2 == 1;
}

unfoldable pub trace_arm : Mc6809 → Mc6809
trace_arm m = record m { trace_pos = 0; trace_full = false; trace_enabled = true }

unfoldable pub trace_stop : Mc6809 → Mc6809
trace_stop m = record m { trace_enabled = false }

unfoldable pub trace_clear : Mc6809 → Mc6809
trace_clear m = record m {
  trace_enabled = false;
  trace_full = false;
  trace_pos = 0;
  trace_irq_trigger = λ i. false;
}

-- The trigger mask as a test of its bits: bit `i` of the `uint8_t`, so that an `i` of 8 is lost.
unfoldable pub trace_set_irq_trigger : ℕ → Mc6809 → Mc6809
trace_set_irq_trigger i m = record m {
  trace_irq_trigger = λ j. if i == j && ltb i 8 then true else m.trace_irq_trigger j;
}

unfoldable pub trace_capture : ℕ → Mc6809 → Mc6809
trace_capture gpio_word m =
    if not m.trace_enabled || not (at_least_running m.run_state)
    then m
    else let pos = m.trace_pos + 1 in
      let full = leb trace_size pos in
      record m {
        trace = update m.trace m.trace_pos gpio_word;
        trace_pos = pos;
        trace_enabled = not full;
        trace_full = m.trace_full || full;
      }

unfoldable pub trace_irq_event : ℕ → Mc6809 → Mc6809
trace_irq_event i m =
    if m.trace_irq_trigger i && (not m.trace_enabled && not m.trace_full) then trace_arm m else m

-- `(address_lsb - 0x30u) >> 1` in `unsigned`.
abbrev pub vector_number : ℕ → ℕ
vector_number address_lsb = (address_lsb + 4294967296 - 0x30) % 4294967296 / 2

-- `task_stack[task_stack_ptr++] = task; nesting_depth++`, where there is room.
unfoldable pub push_task : ℕ → Mc6809 → Mc6809
push_task eirq m =
    if ltb eirq interrupt_reset && ltb m.task_stack_ptr max_int_nest_depth
    then record m {
      task_stack = update m.task_stack m.task_stack_ptr m.task;
      task_stack_ptr = u16 (m.task_stack_ptr + 1);
      nesting_depth = u8 (m.nesting_depth + 1);
    }
    else m

-- The `switch` over the new bus state.
unfoldable pub enter_bus_state : BusState → ℕ → Mc6809 → Mc6809
enter_bus_state bus_irq address_lsb m =
    let eirq = vector_number address_lsb in
    let m₁ = if leb eirq interrupt_reset then trace_irq_event eirq m else m in
    let m₂ = push_task eirq m₁ in record m₂ { run_state = rs_in_irq }
enter_bus_state bus_sync address_lsb m = record m { run_state = rs_synced }
enter_bus_state bus_halt address_lsb m = record m { run_state = rs_halted }
enter_bus_state bus_running address_lsb m =
    if is_in_irq m.run_state then m else record m { run_state = rs_running }

-- The bus observer at a Q-rising edge: the new bus state, the low address bits and the RESET pin.
unfoldable pub observe_bus : BusState → ℕ → Bool → Mc6809 → Mc6809
observe_bus new_bs address_lsb reset_now m =
    if reset_now
    then (if is_reset m.run_state then m else record m { run_state = rs_reset; task_stack_ptr = 0 })
    else if is_reset m.run_state
    then record m { run_state = rs_running }
    else if bus_code new_bs == bus_code m.bus_state
    then m
    else enter_bus_state new_bs address_lsb
        (record m { old_bus_state = m.bus_state; bus_state = new_bs })

-- The pop of `apply_rti`, where there is something to pop.
unfoldable pub pop_task : Mc6809 → Mc6809
pop_task m =
    if ltb 0 m.task_stack_ptr
    then record m {
      rti_pending_task = m.task_stack (m.task_stack_ptr - 1);
      task_stack_ptr = m.task_stack_ptr - 1;
      rti_task_countdown = 15;
    }
    else m

unfoldable pub apply_rti : Mc6809 → Mc6809
apply_rti m =
    if ltb 0 m.nesting_depth
    then (let m₁ = pop_task (record m { nesting_depth = m.nesting_depth - 1 }) in
        if m₁.nesting_depth == 0 && m₁.rti_task_countdown == 0
        then record m₁ { run_state = rs_running }
        else m₁)
    else m

-- What `tick_rti_countdown` does as the countdown expires.
unfoldable pub restore_task : Mc6809 → Mc6809
restore_task m =
    let m₁ = task_pins_update m.rti_pending_task (record m {
      task = m.rti_pending_task;
      regs = put_byte m.regs system_task m.rti_pending_task;
    }) in
    if m₁.nesting_depth == 0 then record m₁ { run_state = rs_running } else m₁

unfoldable pub tick_rti_countdown : Mc6809 → Mc6809
tick_rti_countdown m =
    if ltb 0 m.rti_task_countdown
    then (let m₁ = record m { rti_task_countdown = m.rti_task_countdown - 1 } in
        if m₁.rti_task_countdown == 0 then restore_task m₁ else m₁)
    else m
