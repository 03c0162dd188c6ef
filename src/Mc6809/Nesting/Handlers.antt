-- ===== src/Mc6809/Nesting/Handlers.antt =====
-- Every handler that returns gives back the task that it interrupted.
use pico_thing_main.Base.{
  ℕ, zero, suc, ◌+◌, ◌≡◌, ◌≤◌, ◌<◌, refl, sym, ap, subst, ◌∙◌, Bool, if◌then◌else◌, eq→==, ne→==,
  Cells, arith,
}
use pico_thing_main.Registers.{read_byte}
use pico_thing_main.Mc6809.{Mc6809, max_int_nest_depth, system_task, task_change}
use pico_thing_main.Mc6809.Nesting.{
  Work, done, select, cycle, interrupted, take_interrupt, return_from_interrupt, perform, FitsIn,
  Settled,
}
use pico_thing_main.Mc6809.Nesting.Taken.{Saved, take_interrupt-Taken}
use pico_thing_main.Mc6809.Nesting.Returned.{Returned, return-Returned, idle_tick, select_Settled}

-- The tasks that outer handlers saved are where they were.
pub record Kept (m n : Mc6809) : Type 0 where
  pub settled : Settled n
  pub ptr : n.task_stack_ptr ≡ m.task_stack_ptr
  pub below : (j : ℕ) → j < m.task_stack_ptr → n.task_stack j ≡ m.task_stack j

Kept-trans : {m n l : Mc6809} → Kept m n → Kept n l → Kept m l
Kept-trans p q = record {
  settled = q.settled;
  ptr = q.ptr ∙ p.ptr;
  below = λ j h. q.below j (omega (arith, p.ptr)) ∙ p.below j h;
}

Kept-select : (n : ℕ) (m : Mc6809) → Settled m → Kept m (task_change n m)
unfolding task_change
Kept-select n m s = record { settled = select_Settled n m s; ptr = refl; below = λ j h. refl }

-- The state after a handler, from the state before its interrupt.
pub record HandlerDone (m n : Mc6809) : Type 0 where
  pub kept : Kept m n
  pub task_back : n.task ≡ m.task
  pub register_back : read_byte n.regs system_task ≡ m.task

handler_done : {m m₁ m₂ m₃ : Mc6809} → Saved m m₁ → Kept m₁ m₂ → Returned m₂ m₃ → HandlerDone m m₃
handler_done {m} {m₁} {m₂} {m₃} s k r =
    let same_ptr : m₃.task_stack_ptr ≡ m.task_stack_ptr =
      omega (arith, r.shallower, k.ptr, s.ptr) in
    let saved : m₁.task_stack m.task_stack_ptr ≡ m.task =
      ap (λ (c : Cells). c m.task_stack_ptr) s.stack
      ∙ ap (λ (b : Bool). if b then m.task else m.task_stack m.task_stack_ptr)
          (eq→== m.task_stack_ptr m.task_stack_ptr refl) in
    let task : m₃.task ≡ m.task =
      r.task_back
      ∙ ap m₂.task_stack same_ptr
      ∙ k.below m.task_stack_ptr (omega (arith, s.ptr))
      ∙ saved in
    record {
      kept = record {
        settled = r.settled;
        ptr = same_ptr;
        below = λ j h.
            r.below j
            ∙ k.below j (omega (arith, s.ptr))
            ∙ ap (λ (c : Cells). c j) s.stack
            ∙ ap (λ (b : Bool). if b then m.task else m.task_stack j)
                (ne→== m.task_stack_ptr j (omega arith));
      };
      task_back = task;
      register_back = r.register_back ∙ task;
    }

-- A handler whose work keeps the saved tasks.
interrupted_step :
    (a : ℕ) (h : Work) (m : Mc6809)
    → Settled m
    → m.task_stack_ptr < max_int_nest_depth
    → 0x30 ≤ a
    → a < 0x3E
    → ((n : Mc6809) → Settled n → n.task_stack_ptr ≡ m.task_stack_ptr + 1 → Kept n (perform h n))
    → HandlerDone m (return_from_interrupt (perform h (take_interrupt a m)))
interrupted_step a h m s r la ha inner =
    let (t, v) = take_interrupt-Taken a m la ha r s in
    let k = inner (take_interrupt a m) t v.ptr in
    handler_done v k
      (return-Returned (perform h (take_interrupt a m)) k.settled (omega (arith, k.ptr, v.ptr)))

perform-Kept :
    (w : Work) (room : ℕ) (m : Mc6809)
    → Settled m
    → m.task_stack_ptr + room ≤ max_int_nest_depth
    → FitsIn room w
    → Kept m (perform w m)
unfolding task_change
perform-Kept done room m s r f = record { settled = s; ptr = refl; below = λ j h. refl }
perform-Kept (select n w) room m s r f =
    Kept-trans (Kept-select n m s)
      (perform-Kept w room (task_change n m) (select_Settled n m s) r f)
perform-Kept (cycle w) room m s r f =
    subst (λ (n : Mc6809). Kept m (perform w n)) (sym (idle_tick m s.quiet))
      (perform-Kept w room m s r f)
perform-Kept (interrupted a h w) zero m s r f = absurd f
perform-Kept (interrupted a h w) (suc room) m s r (la, ha, fh, fw) =
    let d =
      interrupted_step a h m s (omega (arith, r)) la ha
        λ n t e. perform-Kept h room n t (omega (arith, e, r)) fh in
    Kept-trans d.kept (perform-Kept w (suc room) _ d.kept.settled (omega (arith, d.kept.ptr, r)) fw)

-- A 6809 runs, with no return under way, with as many tasks saved as handlers nest, and with the run
-- state that goes with that number. It is interrupted through a vector below RESET. The handler
-- selects tasks and is itself interrupted by handlers that do, nested no deeper than the room that
-- the stack of tasks has left, and returns with RTI; behind this RTI and that of each handler within
-- it, no task is selected and no interrupt is taken until the 15 cycles of the countdown have passed.
-- Then the task is the one that was interrupted, the task register shows it, as many tasks are saved
-- as before and the same ones, and the 6809 runs as it did.
pub nested_interrupts :
    (a : ℕ) (h : Work) (room : ℕ) (m : Mc6809)
    → Settled m
    → m.task_stack_ptr + suc room ≤ max_int_nest_depth
    → 0x30 ≤ a
    → a < 0x3E
    → FitsIn room h
    → HandlerDone m (return_from_interrupt (perform h (take_interrupt a m)))
nested_interrupts a h room m s r la ha f =
    interrupted_step a h m s (omega arith) la ha
      λ n t e. perform-Kept h room n t (omega (arith, e, r)) f
