-- ===== src/Mc6809/Nesting.antt =====
-- Handlers that nest, and the states between them.
pub mod Taken
pub mod Returned
pub mod Handlers
use pico_thing_main.Base.{
  ℕ, zero, suc, ◌+◌, ◌-◌, ◌*◌, ◌%◌, ◌/◌, ◌≡◌, ◌≢◌, ◌≤◌, ◌<◌, refl, sym, ap, subst, ◌∙◌, Bool, true,
  false, not, ◌&&◌, ◌||◌, ltb, leb, ◌==◌, if◌then◌else◌, if_elim, eq→==, ne→==, Cells, update, u8,
  u16, arith, ◌⊎◌, inl, inr,
}
use pico_thing_main.Registers.{read_byte, put_byte}
use pico_thing_main.Mc6809.{
  Mc6809, BusState, bus_running, bus_irq, RunState, rs_running, rs_in_irq, max_int_nest_depth,
  system_task, vector_number, interrupt_reset, task_change, trace_irq_event, trace_arm, push_task,
  enter_bus_state, observe_bus, pop_task, apply_rti, restore_task, task_pins_update,
  tick_rti_countdown, is_reset, is_in_irq, bus_code,
}

-- What the 6809 does between two points of its program: it selects tasks, spends cycles, and is
-- interrupted through the vector at some address by a handler that does the like and ends with RTI.
pub data Work : Type 0 where
  done : Work
  select : ℕ → Work → Work
  cycle : Work → Work
  interrupted : ℕ → Work → Work → Work

-- An interrupt is taken: BA and BS show the vector fetch, and then the running state again.
abbrev pub take_interrupt : ℕ → Mc6809 → Mc6809
take_interrupt a m = observe_bus bus_running 0 false (observe_bus bus_irq a false m)

abbrev pub cycles : ℕ → Mc6809 → Mc6809
cycles zero m = m
cycles (suc n) m = cycles n (tick_rti_countdown m)

-- A handler ends: RTI is detected, and the 15 cycles of the countdown pass, in which nothing else
-- happens. RTI takes 15 cycles after NMI and IRQ; after FIRQ it takes 6, and what the interrupted
-- program does in the other 9 is left out.
abbrev pub return_from_interrupt : Mc6809 → Mc6809
return_from_interrupt m = cycles 15 (apply_rti m)

abbrev pub perform : Work → Mc6809 → Mc6809
perform done m = m
perform (select n w) m = perform w (task_change n m)
perform (cycle w) m = perform w (tick_rti_countdown m)
perform (interrupted a h w) m = perform w (return_from_interrupt (perform h (take_interrupt a m)))

-- The vectors below RESET, and how deep the handlers nest.
abbrev pub FitsIn : ℕ → Work → Type 0
FitsIn room done = Unit {0}
FitsIn room (select n w) = FitsIn room w
FitsIn room (cycle w) = FitsIn room w
FitsIn zero (interrupted a h w) = ⊥
FitsIn (suc room) (interrupted a h w) =
    (0x30 ≤ a) × (a < 0x3E) × FitsIn room h × FitsIn (suc room) w

-- Between two instructions, with no return under way, and as many tasks saved as handlers nest.
pub record Settled (m : Mc6809) : Type 0 where
  pub bus : m.bus_state ≡ bus_running
  pub quiet : m.rti_task_countdown ≡ 0
  pub balanced : m.nesting_depth ≡ m.task_stack_ptr
  pub room : m.task_stack_ptr ≤ max_int_nest_depth
  pub runs : m.run_state ≡ (if m.task_stack_ptr == 0 then rs_running else rs_in_irq)
