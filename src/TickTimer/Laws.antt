-- ===== src/TickTimer/Laws.antt =====
-- What the timer promises to the guest and to the interrupt handlers.
use pico_thing_main.Base.{
  ℕ, zero, suc, ◌+◌, ◌≡◌, ◌≢◌, ◌<◌, Bool, true, false, ◌==◌, if◌then◌else◌, List, [], ◌∷◌, arith,
}
use pico_thing_main.Interrupt.{Interrupt}
use pico_thing_main.Registers.{read_byte}
use pico_thing_main.TickTimer.{TickTimer, Timer, enable_bit, countdown_field}
use pico_thing_main.TickTimer

-- What can happen to a timer.
pub data Event : Type 0 where
  alarm acknowledge reset tick : Event
  control : ℕ → Event

unfoldable pub step : Event → Timer → Timer
step alarm p = TickTimer.callback p
step acknowledge p = TickTimer.acknowledge p
step reset p = TickTimer.reset p
step tick (t, r) = ((TickTimer.tick t).0, r)
step (control val) p = TickTimer.control val p

unfoldable pub steps : List Event → Timer → Timer
steps [] p = p
steps (e ∷ es) p = steps es (step e p)

-- The status register shows the pending interrupt, which only an enabled timer has.
pub record Inv (p : Timer) : Type 0 where
  pub shown : read_byte p.1 p.0.status_offset ≡ (if p.0.irq_pending then 0x80 else 0)
  pub pending_enabled : p.0.irq_pending ≡ true → p.0.enabled ≡ true
  pub countdown_fits : p.0.nmi_countdown < 32

step-Inv : (e : Event) (p : Timer) → Inv p → Inv (step e p)
unfolding step TickTimer.callback TickTimer.acknowledge TickTimer.reset TickTimer.tick
    TickTimer.control
step-Inv alarm (t, r) v = ground arith
step-Inv acknowledge (t, r) v = ground arith
step-Inv reset (t, r) v = ground arith
step-Inv tick (t, r) v = ground arith
step-Inv (control val) (t, r) v = ground arith

steps-Inv : (es : List Event) (p : Timer) → Inv p → Inv (steps es p)
unfolding steps
steps-Inv [] p v = v
steps-Inv (e ∷ es) p v = steps-Inv es (step e p) (step-Inv e p v)

reset-Inv : (p : Timer) → Inv (TickTimer.reset p)
unfolding TickTimer.reset
reset-Inv (t, r) = ground arith

-- Once the timer has been reset, after any alarms, control writes, acknowledgements and ticks, the
-- guest reads $80 in the status register exactly when `has_interrupt` requests an IRQ and zero
-- otherwise, a disabled timer requests none, and the countdown fits its five bits.
pub timer_shows :
    (es : List Event) (p : Timer)
    → let (t, r) = steps es (TickTimer.reset p) in
      (read_byte r t.status_offset
        ≡ elim (TickTimer.has_interrupt t) as (λ _. ℕ) [ Interrupt.irq ↦ 0x80 | _ ↦ 0 ])
      × (t.enabled ≡ false → TickTimer.has_interrupt t ≡ Interrupt.none)
      × (t.nmi_countdown < 32)
unfolding TickTimer.has_interrupt
timer_shows es p = let v = steps-Inv es (TickTimer.reset p) (reset-Inv p) in ground arith

-- The result of the last of `k + 1` ticks.
abbrev pub fires_at : ℕ → TickTimer → Bool
fires_at zero t = (TickTimer.tick t).1
fires_at (suc k) t = fires_at k (TickTimer.tick t).0

fires_at_lem : (k : ℕ) (t : TickTimer) → fires_at k t ≡ (t.nmi_countdown == k + 1)
unfolding TickTimer.tick
fires_at_lem zero t = ground arith
fires_at_lem (suc k) t = ground (arith, fires_at_lem k (TickTimer.tick t).0)

-- A control byte whose five countdown bits hold `n` fires the NMI at the `n`th tick from then on and
-- at no other tick; where they hold zero the countdown that was under way goes on. The enable bit of
-- the byte has no part in it.
pub countdown_fires :
    (val : ℕ) (p : Timer) (k : ℕ)
    → let t = (TickTimer.control val p).0 in
      (countdown_field val ≢ 0 → fires_at k t ≡ (countdown_field val == k + 1))
      × (countdown_field val ≡ 0 → fires_at k t ≡ fires_at k p.0)
unfolding TickTimer.control
countdown_fires val (t, r) k =
    let a = fires_at_lem k (TickTimer.control val (t, r)).0 in
    let b = fires_at_lem k t in (λ h. ground arith, λ h. ground arith)
