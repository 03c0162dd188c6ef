-- ===== src/Core1/Watchpoint.antt =====
-- The watchpoint, which protects the snippet and the vectors from the guest.
use pico_thing_main.Base.{
  ℕ, ◌≤◌, ◌<◌, ◌≡◌, refl, ap, ◌∙◌, true, false, ◌&&◌, leb, ltb, ◌==◌, if◌then◌else◌, if_elim, arith,
}
use pico_thing_main.Registers.{Registers, put_byte, write_byte, written_byte}
use pico_thing_main.Mc6809.{
  Mc6809, at_least_running, task_change, task_pins_update, apply_rti, pop_task, trace_arm,
  trace_stop,
}
use pico_thing_main.Mc6850.{Mc6850, Port, refresh_transmit, sync_status, sync_transmit}
use pico_thing_main.Mc6850
use pico_thing_main.TickTimer.{TickTimer}
use pico_thing_main.TickTimer
use pico_thing_main.Core1.{
  Core1, registers_of, with_registers, on_fast, on_aux, on_tick, write_effect, select_task,
  dma_bus_write, guest_write, snippet_offset,
}

-- The devices answer at the addresses that the source constructs them with.
pub record IsWired (g : Core1) : Type 0 where
  pub fast : g.fast_serial.ctl_offset ≡ 4
  pub aux : g.aux_serial.ctl_offset ≡ 6
  pub tick : g.system_tick.status_offset ≡ 9

-- What a write of the guest leaves alone while the watchpoint is armed.
pub record Guarded (g n : Core1) : Type 0 where
  pub wired : IsWired n
  pub armed : n.watchpoint_armed ≡ g.watchpoint_armed
  pub saved : n.watchpoint_saved_nmi_vector ≡ g.watchpoint_saved_nmi_vector
  pub cells :
      (j : ℕ)
      → snippet_offset ≤ j
      → (registers_of n).read_registers j ≡ (registers_of g).read_registers j

-- The cells that a device writes lie below the snippet.
abbrev pub Below : Registers → Registers → Type 0
Below r s = (j : ℕ) → snippet_offset ≤ j → s.read_registers j ≡ r.read_registers j

select_task-cells : (v : ℕ) (m : Mc6809) → Below m.regs (select_task v m).regs
unfolding select_task task_change task_pins_update
select_task-cells v m = λ j h. ground arith

apply_rti-regs : (m : Mc6809) → (apply_rti m).regs ≡ m.regs
unfolding apply_rti pop_task
apply_rti-regs m = ground arith

trace-regs : (v : ℕ) (m : Mc6809) → (if v == 0 then trace_stop m else trace_arm m).regs ≡ m.regs
unfolding trace_stop trace_arm
trace-regs v m = ground arith

control_written_isr-offset :
    (v : ℕ) (u : Mc6850) → (Mc6850.control_written_isr v u).ctl_offset ≡ u.ctl_offset
unfolding Mc6850.control_written_isr
control_written_isr-offset v u = ground arith

write_received-cells :
    (u : Mc6850) (r : Registers)
    → u.ctl_offset < 16
    → ((Mc6850.write_received (u, r)).0.ctl_offset ≡ u.ctl_offset)
      × Below r (Mc6850.write_received (u, r)).1
unfolding Mc6850.write_received sync_transmit sync_status refresh_transmit
write_received-cells u r h = (ground arith, λ j l. ground arith)

control-cells :
    (v : ℕ) (t : TickTimer) (r : Registers)
    → t.status_offset ≡ 9
    → ((TickTimer.control v (t, r)).0.status_offset ≡ 9) × Below r (TickTimer.control v (t, r)).1
unfolding TickTimer.control
control-cells v t r h = (ground arith, λ j l. ground arith)

pub Guarded-refl : (g : Core1) → IsWired g → Guarded g g
Guarded-refl g w = record { wired = w; armed = refl; saved = refl; cells = λ j h. refl }

-- A handler that changes the 6809 alone.
pub cpu-Guarded :
    (m : Mc6809) (g : Core1)
    → IsWired g
    → Below (registers_of g) m.regs
    → Guarded g (record g { mc6809 = m })
cpu-Guarded m g w b = record {
  wired = record { fast = w.fast; aux = w.aux; tick = w.tick };
  armed = refl;
  saved = refl;
  cells = b;
}

same_regs-Below : (r s : Registers) → s ≡ r → Below r s
same_regs-Below r s e j h = ap (λ (t : Registers). t.read_registers j) e

fast-Guarded : (g : Core1) → IsWired g → Guarded g (on_fast Mc6850.write_received g)
fast-Guarded g w =
    let (o, b) = write_received-cells g.fast_serial (registers_of g) (omega (arith, w.fast)) in
    record {
      wired = record { fast = o ∙ w.fast; aux = w.aux; tick = w.tick };
      armed = refl;
      saved = refl;
      cells = b;
    }

aux-Guarded : (g : Core1) → IsWired g → Guarded g (on_aux Mc6850.write_received g)
aux-Guarded g w =
    let (o, b) = write_received-cells g.aux_serial (registers_of g) (omega (arith, w.aux)) in
    record {
      wired = record { fast = w.fast; aux = o ∙ w.aux; tick = w.tick };
      armed = refl;
      saved = refl;
      cells = b;
    }

tick-Guarded : (v : ℕ) (g : Core1) → IsWired g → Guarded g (on_tick (TickTimer.control v) g)
tick-Guarded v g w =
    let (o, b) = control-cells v g.system_tick (registers_of g) w.tick in
    record {
      wired = record { fast = w.fast; aux = w.aux; tick = o };
      armed = refl;
      saved = refl;
      cells = b;
    }

put-Below : (l v : ℕ) (r : Registers) → l < 32 → Below r (put_byte r l v)
put-Below l v r h j k = ground arith

-- A write of RAM below the snippet.
buffer-Guarded :
    (l v : ℕ) (g : Core1)
    → IsWired g
    → (g.watchpoint_armed && leb snippet_offset l) ≡ false
    → g.watchpoint_armed ≡ true
    → Guarded g (with_registers (put_byte (registers_of g) l v) g)
buffer-Guarded l v g w e a =
    cpu-Guarded (record g.mc6809 { regs = put_byte (registers_of g) l v }) g w
      (put-Below l v (registers_of g) (ground (arith, e, a)))

write_effect-Guarded :
    (l v : ℕ) (g : Core1) → IsWired g → g.watchpoint_armed ≡ true → Guarded g (write_effect l v g)
unfolding write_effect
write_effect-Guarded l v g w a =
    if_elim (Guarded g) (l == 0) (λ _. cpu-Guarded _ g w (select_task-cells v g.mc6809))
      λ _.
        if_elim (Guarded g) (l == 1)
          (λ _. cpu-Guarded _ g w (same_regs-Below _ _ (apply_rti-regs g.mc6809)))
          λ _.
            if_elim (Guarded g) (l == 4)
              (λ _. record {
                wired = record {
                  fast = control_written_isr-offset v g.fast_serial ∙ w.fast;
                  aux = w.aux;
                  tick = w.tick;
                };
                armed = refl;
                saved = refl;
                cells = λ j h. refl;
              })
              λ _.
                if_elim (Guarded g) (l == 6)
                  (λ _. record {
                    wired = record {
                      fast = w.fast;
                      aux = control_written_isr-offset v g.aux_serial ∙ w.aux;
                      tick = w.tick;
                    };
                    armed = refl;
                    saved = refl;
                    cells = λ j h. refl;
                  })
                  λ _.
                    if_elim (Guarded g) (l == 5) (λ _. fast-Guarded g w)
                      λ _.
                        if_elim (Guarded g) (l == 7) (λ _. aux-Guarded g w)
                          λ _.
                            if_elim (Guarded g) (l == 8) (λ _. tick-Guarded v g w)
                              λ _.
                                if_elim (Guarded g) (l == 10) (λ _. Guarded-refl g w)
                                  λ _.
                                    if_elim (Guarded g) (l == 11)
                                      (λ _.
                                        cpu-Guarded _ g w
                                          (same_regs-Below _ _ (trace-regs v g.mc6809)))
                                      λ _.
                                        if_elim (Guarded g)
                                          (g.watchpoint_armed && leb snippet_offset l)
                                          (λ _. record {
                                            wired = record {
                                              fast = w.fast;
                                              aux = w.aux;
                                              tick = w.tick;
                                            };
                                            armed = refl;
                                            saved = refl;
                                            cells = λ j h. refl;
                                          })
                                          λ e.
                                            if_elim (Guarded g) (leb 16 l && ltb l 64)
                                              (λ _. buffer-Guarded l v g w e a)
                                              (λ _. Guarded-refl g w)

pub guest_write-Guarded :
    (l v : ℕ) (g : Core1) → IsWired g → g.watchpoint_armed ≡ true → Guarded g (guest_write l v g)
unfolding guest_write dma_bus_write
guest_write-Guarded l v g w a =
    let h = with_registers (write_byte (registers_of g) l v) g in
    let u : IsWired h = record { fast = w.fast; aux = w.aux; tick = w.tick } in
    if_elim (Guarded g) (at_least_running g.mc6809.run_state)
      (λ _.
        let e = write_effect-Guarded l (written_byte (registers_of h) l) h u a in
        record {
          wired = record { fast = e.wired.fast; aux = e.wired.aux; tick = e.wired.tick };
          armed = e.armed;
          saved = e.saved;
          cells = e.cells;
        })
      (λ _. record { wired = u; armed = refl; saved = refl; cells = λ j k. refl })
