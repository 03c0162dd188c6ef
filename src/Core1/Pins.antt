-- ===== src/Core1/Pins.antt =====
-- The interrupt pins follow the sources.
use pico_thing_main.Base.{◌≡◌, ◌↔◌, refl, Bool, true, false, ◌||◌, ◌⊎◌, inl, inr, if_elim, arith}
use pico_thing_main.Interrupt.{Interrupt, is_irq, is_nmi, is_firq}
use pico_thing_main.TickTimer
use pico_thing_main.Mc6850
use pico_thing_main.Core1.{Core1, BusPins, on_fast, on_aux, apply_pending, gpio_q_rising}
use pico_thing_main.Core1.Loop.{any_source, poll_interrupts}

-- A source of the four asks for an interrupt.
abbrev pub Asks : Interrupt → Core1 → Type 0
Asks i g =
    (g.console_interrupt ≡ i)
    ⊎ ((TickTimer.has_interrupt g.system_tick ≡ i)
        ⊎ ((g.fast_serial.cached_irq_result ≡ i) ⊎ (g.aux_serial.cached_irq_result ≡ i)))

is_irq_iff : (i : Interrupt) → (is_irq i ≡ true) ↔ (i ≡ Interrupt.irq)
is_irq_iff i = ground arith

is_firq_iff : (i : Interrupt) → (is_firq i ≡ true) ↔ (i ≡ Interrupt.firq)
is_firq_iff i = ground arith

is_nmi_iff : (i : Interrupt) → (is_nmi i ≡ true) ↔ (i ≡ Interrupt.nmi)
is_nmi_iff i = ground arith

or_iff : {P Q : Type 0} (a b : Bool) → (a ≡ true) ↔ P → (b ≡ true) ↔ Q → ((a || b) ≡ true) ↔ (P ⊎ Q)
or_iff true b p q = (λ _. inl (p.0 refl), λ _. refl)
or_iff false b p q =
    (λ e. inr (q.0 e), λ s. elim s [ inl x ↦ absurd (ground (arith, p.1 x)) | inr y ↦ q.1 y ])

any_source_iff :
    (is : Interrupt → Bool) (k : Interrupt) (g : Core1)
    → ((i : Interrupt) → (is i ≡ true) ↔ (i ≡ k))
    → (any_source is g ≡ true) ↔ Asks k g
any_source_iff is k g h = or_iff (is g.console_interrupt) _ (h g.console_interrupt) (
    or_iff (is (TickTimer.has_interrupt g.system_tick)) _
      (h (TickTimer.has_interrupt g.system_tick))
      (or_iff (is g.fast_serial.cached_irq_result) (is g.aux_serial.cached_irq_result)
        (h g.fast_serial.cached_irq_result) (h g.aux_serial.cached_irq_result)))

polled_pending :
    (g : Core1)
    → g.q_rising_edge ≡ true
    → let polled = poll_interrupts g in
      ((polled.pend_irq ≡ true) ↔ Asks Interrupt.irq polled)
      × ((polled.pend_firq ≡ true) ↔ Asks Interrupt.firq polled)
      × ((polled.pend_nmi ≡ true) ↔ Asks Interrupt.nmi polled)
unfolding poll_interrupts
polled_pending g e =
    let g₁ =
      on_aux Mc6850.has_interrupt
        (on_fast Mc6850.has_interrupt (record g { q_rising_edge = false })) in
    if_elim
      (λ (n : Core1).
        ((n.pend_irq ≡ true) ↔ Asks Interrupt.irq n)
        × ((n.pend_firq ≡ true) ↔ Asks Interrupt.firq n)
        × ((n.pend_nmi ≡ true) ↔ Asks Interrupt.nmi n))
      g.q_rising_edge
      (λ _. (
        any_source_iff is_irq Interrupt.irq g₁ is_irq_iff,
        any_source_iff is_firq Interrupt.firq g₁ is_firq_iff,
        any_source_iff is_nmi Interrupt.nmi g₁ is_nmi_iff,
      ))
      λ f. absurd (ground (arith, e, f))

-- A rising Q has been seen, and the loop makes a round. The next rising Q drives each interrupt pin
-- exactly if a source then asks for that interrupt. One edge later, with no round in between, NMI
-- is released and the other two are as before.
pub pins_follow_sources :
    (p q : BusPins) (g : Core1)
    → g.q_rising_edge ≡ true
    → let polled = poll_interrupts g in
      let n = gpio_q_rising p polled in
      let l = gpio_q_rising q n in
      ((n.irq_pin ≡ true) ↔ Asks Interrupt.irq polled)
      × ((n.firq_pin ≡ true) ↔ Asks Interrupt.firq polled)
      × ((n.nmi_pin ≡ true) ↔ Asks Interrupt.nmi polled)
      × (l.nmi_pin ≡ false)
      × (l.irq_pin ≡ n.irq_pin)
      × (l.firq_pin ≡ n.firq_pin)
unfolding gpio_q_rising apply_pending
pins_follow_sources p q g e =
    let (irq, firq, nmi) = polled_pending g e in (irq, firq, nmi, refl, refl, refl)
