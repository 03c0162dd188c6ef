-- ===== src/Mc6809/Nesting/Returned.antt =====
-- A handler returns: RTI pops a task, which the pins get fifteen cycles later.
use pico_thing_main.Base.{
  ℕ, zero, suc, ◌+◌, ◌-◌, ◌≡◌, ◌<◌, refl, sym, ap, subst, ◌∙◌, Bool, ltb, ◌==◌, if◌then◌else◌,
  if_elim, eq→==, ne→==, arith,
}
use pico_thing_main.Registers.{read_byte}
use pico_thing_main.Mc6809.{
  Mc6809, RunState, rs_running, rs_in_irq, system_task, task_change, pop_task, apply_rti,
  restore_task, task_pins_update, tick_rti_countdown,
}
use pico_thing_main.Mc6809.Nesting.{cycles, return_from_interrupt, Settled}

-- One cycle of a countdown.
tick_counts :
    (n : ℕ) (m : Mc6809)
    → m.rti_task_countdown ≡ suc n
    → tick_rti_countdown m ≡ (
        if n == 0
        then restore_task (record m { rti_task_countdown = n })
        else record m { rti_task_countdown = n })
unfolding tick_rti_countdown
tick_counts n m e =
    let p : m.rti_task_countdown - 1 ≡ n = omega arith in
    let after = λ (k : ℕ).
      if k == 0
      then restore_task (record m { rti_task_countdown = k })
      else record m { rti_task_countdown = k } in
    if_elim (λ (l : Mc6809). l ≡ after n) (ltb 0 m.rti_task_countdown) (λ _. ap after p)
      λ f. absurd (ground arith)

cycles_lem :
    (n : ℕ) (m : Mc6809)
    → m.rti_task_countdown ≡ suc n
    → cycles (suc n) m ≡ restore_task (record m { rti_task_countdown = 0 })
cycles_lem zero m e = tick_counts zero m e
cycles_lem (suc n) m e =
    ap (cycles (suc n)) (
      tick_counts (suc n) m e
      ∙ ap
          (λ (b : Bool).
            if b
            then restore_task (record m { rti_task_countdown = suc n })
            else record m { rti_task_countdown = suc n })
          (ne→== (suc n) 0 (omega arith)))
    ∙ cycles_lem n (record m { rti_task_countdown = suc n }) refl

apply_rti_lem :
    (m : Mc6809)
    → Settled m
    → 0 < m.task_stack_ptr
    → apply_rti m ≡ record m {
      nesting_depth = m.nesting_depth - 1;
      rti_pending_task = m.task_stack (m.task_stack_ptr - 1);
      task_stack_ptr = m.task_stack_ptr - 1;
      rti_task_countdown = 15;
    }
unfolding apply_rti pop_task
apply_rti_lem m s h = ground arith

-- The cycles of RTI bring the saved task back.
pub record Returned (m n : Mc6809) : Type 0 where
  pub settled : Settled n
  pub shallower : n.task_stack_ptr + 1 ≡ m.task_stack_ptr
  pub task_back : n.task ≡ m.task_stack n.task_stack_ptr
  pub register_back : read_byte n.regs system_task ≡ n.task
  pub below : (j : ℕ) → n.task_stack j ≡ m.task_stack j

-- The run state that goes with a depth.
abbrev state_at : ℕ → RunState
state_at k = if k == 0 then rs_running else rs_in_irq

state_at-zero : (k : ℕ) → k ≡ 0 → state_at k ≡ rs_running
state_at-zero k h = ap (λ (b : Bool). if b then rs_running else rs_in_irq) (eq→== k 0 h)

state_at-positive : (k : ℕ) → ¬ (k ≡ 0) → state_at k ≡ rs_in_irq
state_at-positive k h = ap (λ (b : Bool). if b then rs_running else rs_in_irq) (ne→== k 0 h)

restore-Returned :
    (m : Mc6809)
    → Settled m
    → 0 < m.task_stack_ptr
    → Returned m (
        restore_task (record m {
          nesting_depth = m.nesting_depth - 1;
          rti_pending_task = m.task_stack (m.task_stack_ptr - 1);
          task_stack_ptr = m.task_stack_ptr - 1;
          rti_task_countdown = 0;
        }))
unfolding restore_task task_pins_update
restore-Returned m s h =
    if_elim (Returned m) (m.nesting_depth - 1 == 0)
      (λ e.
        let runs = sym (state_at-zero (m.task_stack_ptr - 1) (ground (arith, e, s.balanced))) in
        record {
          settled = record {
            bus = s.bus;
            quiet = refl;
            balanced = omega (arith, s.balanced);
            room = omega (arith, s.room);
            runs = runs;
          };
          shallower = omega arith;
          task_back = refl;
          register_back = refl;
          below = λ j. refl;
        })
      λ e.
        let runs =
          s.runs
          ∙ state_at-positive m.task_stack_ptr (omega arith)
          ∙ sym (state_at-positive (m.task_stack_ptr - 1) (ground (arith, e, s.balanced))) in
        record {
          settled = record {
            bus = s.bus;
            quiet = refl;
            balanced = omega (arith, s.balanced);
            room = omega (arith, s.room);
            runs = runs;
          };
          shallower = omega arith;
          task_back = refl;
          register_back = refl;
          below = λ j. refl;
        }

pub return-Returned :
    (m : Mc6809) → Settled m → 0 < m.task_stack_ptr → Returned m (return_from_interrupt m)
return-Returned m s h =
    subst (Returned m) (sym (ap (cycles 15) (apply_rti_lem m s h) ∙ cycles_lem 14 _ refl))
      (restore-Returned m s h)

pub idle_tick : (m : Mc6809) → m.rti_task_countdown ≡ 0 → tick_rti_countdown m ≡ m
unfolding tick_rti_countdown
idle_tick m e =
    if_elim (λ (n : Mc6809). n ≡ m) (ltb 0 m.rti_task_countdown) (λ f. absurd (ground arith))
      (λ _. refl)

pub select_Settled : (n : ℕ) (m : Mc6809) → Settled m → Settled (task_change n m)
unfolding task_change
select_Settled n m s = record {
  bus = s.bus;
  quiet = s.quiet;
  balanced = s.balanced;
  room = s.room;
  runs = s.runs;
}
