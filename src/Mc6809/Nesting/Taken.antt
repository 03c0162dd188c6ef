-- ===== src/Mc6809/Nesting/Taken.antt =====
-- An interrupt is taken: the bus observer saves the task.
use pico_thing_main.Base.{
  ℕ, ◌+◌, ◌≡◌, ◌≤◌, ◌<◌, refl, sym, ap, subst, ◌∙◌, false, not, ◌&&◌, ltb, leb, ◌==◌, if◌then◌else◌,
  if_elim, update, arith,
}
use pico_thing_main.Mc6809.{
  Mc6809, BusState, bus_running, bus_irq, RunState, rs_running, rs_in_irq, max_int_nest_depth,
  vector_number, interrupt_reset, trace_irq_event, trace_arm, push_task, enter_bus_state,
  observe_bus, is_reset, is_in_irq, bus_code,
}
use pico_thing_main.Mc6809.Nesting.{take_interrupt, Settled}

-- The fields that the tasks depend on.
record SameTasks (m n : Mc6809) : Type 0 where
  task_same : n.task ≡ m.task
  stack_same : n.task_stack ≡ m.task_stack
  ptr_same : n.task_stack_ptr ≡ m.task_stack_ptr
  depth_same : n.nesting_depth ≡ m.nesting_depth
  countdown_same : n.rti_task_countdown ≡ m.rti_task_countdown
  bus_same : n.bus_state ≡ m.bus_state

trace_irq_event-SameTasks : (i : ℕ) (m : Mc6809) → SameTasks m (trace_irq_event i m)
unfolding trace_irq_event trace_arm
trace_irq_event-SameTasks i m =
    if_elim (SameTasks m) (m.trace_irq_trigger i && (not m.trace_enabled && not m.trace_full))
      (λ _. ground arith) (λ _. ground arith)

SameTasks-refl : (m : Mc6809) → SameTasks m m
SameTasks-refl m = ground arith

-- An interrupt with room saves the task.
pub record Saved (m n : Mc6809) : Type 0 where
  pub stack : n.task_stack ≡ update m.task_stack m.task_stack_ptr m.task
  pub ptr : n.task_stack_ptr ≡ m.task_stack_ptr + 1
  pub depth : n.nesting_depth ≡ m.nesting_depth + 1
  pub countdown : n.rti_task_countdown ≡ m.rti_task_countdown

push_task-Saved :
    (i : ℕ) (m : Mc6809)
    → i < interrupt_reset
    → m.task_stack_ptr < max_int_nest_depth
    → m.nesting_depth < 255
    → Saved m (push_task i m)
unfolding push_task
push_task-Saved i m hi hp hd =
    if_elim (Saved m) (ltb i interrupt_reset && ltb m.task_stack_ptr max_int_nest_depth)
      (λ _. ground arith) (λ e. absurd (ground arith))

Saved-after :
    {m n l : Mc6809} → SameTasks m n → Saved n l → Saved m (record l { run_state = rs_in_irq })
Saved-after {m} {n} {l} e s = record {
  stack = s.stack ∙ λ i. update (e.stack_same i) (e.ptr_same i) (e.task_same i);
  ptr = omega (arith, s.ptr, e.ptr_same);
  depth = omega (arith, s.depth, e.depth_same);
  countdown = s.countdown ∙ e.countdown_same;
}

enter_irq-Saved :
    (a : ℕ) (m : Mc6809)
    → 0x30 ≤ a
    → a < 0x3E
    → m.task_stack_ptr < max_int_nest_depth
    → m.nesting_depth < 255
    → Saved m (enter_bus_state bus_irq a m) × ((enter_bus_state bus_irq a m).run_state ≡ rs_in_irq)
unfolding enter_bus_state
enter_irq-Saved a m la ha hp hd =
    let e = trace_irq_event-SameTasks (vector_number a) m in
    if_elim
      (λ n.
        Saved m (record (push_task (vector_number a) n) { run_state = rs_in_irq })
        × ◌≡◌ {A = RunState} rs_in_irq rs_in_irq)
      (leb (vector_number a) interrupt_reset)
      (λ _. (
        Saved-after e (
            push_task-Saved (vector_number a) (trace_irq_event (vector_number a) m) (omega arith)
              (omega (arith, e.ptr_same)) (omega (arith, e.depth_same))),
        refl,
      ))
      (λ _. (
        Saved-after (SameTasks-refl m) (push_task-Saved (vector_number a) m (omega arith) hp hd),
        refl,
      ))

observe_change :
    (b : BusState) (a : ℕ) (m : Mc6809)
    → is_reset m.run_state ≡ false
    → (bus_code b == bus_code m.bus_state) ≡ false
    → observe_bus b a false m
      ≡ enter_bus_state b a (record m { old_bus_state = m.bus_state; bus_state = b })
unfolding observe_bus
observe_change b a m r c =
    let target = enter_bus_state b a (record m { old_bus_state = m.bus_state; bus_state = b }) in
    if_elim (λ (n : Mc6809). n ≡ target) (is_reset m.run_state) (λ e. cc)
      λ _.
        if_elim (λ (n : Mc6809). n ≡ target) (bus_code b == bus_code m.bus_state) (λ e. cc)
          (λ _. refl)

-- Back from the vector fetch, in the handler.
enter_running : (a : ℕ) (m : Mc6809) → m.run_state ≡ rs_in_irq → enter_bus_state bus_running a m ≡ m
unfolding enter_bus_state
enter_running a m e =
    ap (λ (t : RunState). if is_in_irq t then m else record m { run_state = rs_running }) e

bus-enter_irq : (a : ℕ) (m : Mc6809) → (enter_bus_state bus_irq a m).bus_state ≡ m.bus_state
unfolding enter_bus_state push_task trace_irq_event trace_arm
bus-enter_irq a m = ground arith

-- The state as the vector is fetched.
abbrev fetching : ℕ → Mc6809 → Mc6809
fetching a m =
    enter_bus_state bus_irq a (record m { old_bus_state = m.bus_state; bus_state = bus_irq })

take_interrupt_lem :
    (a : ℕ) (m : Mc6809)
    → is_reset m.run_state ≡ false
    → m.bus_state ≡ bus_running
    → (fetching a m).run_state ≡ rs_in_irq
    → take_interrupt a m
      ≡ record (fetching a m) { old_bus_state = (fetching a m).bus_state; bus_state = bus_running }
take_interrupt_lem a m r b e =
    let f = fetching a m in
    let g = record f { old_bus_state = f.bus_state; bus_state = bus_running } in
    ap (observe_bus bus_running 0 false)
      (observe_change bus_irq a m r (ap (λ (t : BusState). bus_code bus_irq == bus_code t) b))
    ∙ observe_change bus_running 0 f (ap is_reset e) (
        ap (λ (t : BusState). bus_code bus_running == bus_code t)
          (bus-enter_irq a (record m { old_bus_state = m.bus_state; bus_state = bus_irq })))
    ∙ enter_running 0 g e

not_reset : (m : Mc6809) → Settled m → is_reset m.run_state ≡ false
not_reset m s =
    ap is_reset s.runs
    ∙ if_elim (λ (r : RunState). is_reset r ≡ false) (m.task_stack_ptr == 0) (λ _. refl) (λ _. refl)

pub take_interrupt-Taken :
    (a : ℕ) (m : Mc6809)
    → 0x30 ≤ a
    → a < 0x3E
    → m.task_stack_ptr < max_int_nest_depth
    → Settled m
    → Settled (take_interrupt a m) × Saved m (take_interrupt a m)
take_interrupt-Taken a m la ha h s =
    let (v, e) =
      enter_irq-Saved a (record m { old_bus_state = m.bus_state; bus_state = bus_irq }) la ha h
        (omega arith) in
    subst (λ (n : Mc6809). Settled n × Saved m n)
      (sym (take_interrupt_lem a m (not_reset m s) s.bus e))
      (
        record {
          bus = refl;
          quiet = v.countdown ∙ s.quiet;
          balanced = omega arith;
          room = omega arith;
          runs = e ∙ ground arith;
        },
        record { stack = v.stack; ptr = v.ptr; depth = v.depth; countdown = v.countdown },
      )
