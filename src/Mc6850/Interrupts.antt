-- ===== src/Mc6850/Interrupts.antt =====
-- The interrupt request: `has_interrupt`, its cache, and the status bit.
use pico_thing_main.Base.{
  ℕ, ◌/◌, ◌≡◌, ◌≢◌, ◌↔◌, refl, sym, ap, ◌∙◌, Bool, true, false, if_elim, not, ◌||◌, List, [], ◌∷◌,
  arith, if◌then◌else◌, ◌==◌,
}
use pico_thing_main.Interrupt.{Interrupt}
use pico_thing_main.Registers.{Registers, index, read_byte}
use pico_thing_main.Mc6850.{
  Mc6850, Port, derived_status, status_byte, sync_status, refresh_transmit, divide_select, stage,
  stage_if, construct,
}
use pico_thing_main.Mc6850
use pico_thing_main.Mc6850.Calls.{Call, call, calls}
use pico_thing_main.Mc6850.Calls
use pico_thing_main.Mc6850.Status.{calls-Inv, construct-Inv, has_interrupt-Inv}

-- The result that `has_interrupt` computes from the two requests.
abbrev pub request : Mc6850 → Interrupt
request u = if u.assert_transmit_irq || u.assert_receive_irq then Interrupt.irq else Interrupt.none

-- The cache is right while it is not marked stale.
abbrev pub IsCached : Port → Type 0
IsCached p = p.0.irq_dirty ≡ false → p.0.cached_irq_result ≡ request p.0

sync-dirty : (p : Port) → (sync_status p).0.irq_dirty ≡ p.0.irq_dirty
unfolding sync_status
sync-dirty (u, r) = ground arith

dirty-IsCached : (p : Port) → p.0.irq_dirty ≡ true → IsCached p
dirty-IsCached p e f = absurd (ground arith)

IsCached-sync : (p : Port) → p.0.irq_dirty ≡ true → IsCached (sync_status p)
IsCached-sync p e = dirty-IsCached (sync_status p) (sync-dirty p ∙ e)

polled-IsCached : (p : Port) → IsCached (record (p.0) { cached_irq_result = request p.0 }, p.1)
polled-IsCached p e = refl

call-IsCached : (c : Call) (p : Port) → IsCached p → IsCached (call c p)
unfolding call
call-IsCached Calls.reset (u, r) h = unfold Mc6850.reset in (λ e. cc)
call-IsCached Calls.write_received (u, r) h = unfold Mc6850.write_received in IsCached-sync _ refl
call-IsCached Calls.rx_read_fast_path (u, r) h =
    unfold Mc6850.rx_read_fast_path in IsCached-sync _ refl
call-IsCached Calls.guest_receive (u, r) h =
    unfold Mc6850.guest_receive in
    if_elim IsCached u.rts_deasserted (λ _. IsCached-sync _ refl) (λ _. IsCached-sync _ refl)
call-IsCached Calls.has_interrupt (u, r) h =
    unfold Mc6850.has_interrupt in
    if_elim IsCached (not u.irq_dirty) (λ _. h)
      (λ _. polled-IsCached (sync_status (Mc6850.poll (u, r))))
call-IsCached Calls.host_receive (u, r) h = unfold Mc6850.host_receive in h
call-IsCached (Calls.set_host_cts d) (u, r) h =
    unfold Mc6850.set_host_cts in
    if_elim (λ (w : Mc6850). IsCached (w, r)) (Mc6850.same u.host_cts_deasserted d) (λ _. h)
      (λ _ e. cc)
call-IsCached (Calls.control_written_isr val) (u, r) h =
    unfold Mc6850.control_written_isr in (λ e. cc)
call-IsCached (Calls.guest_control val) (u, r) h =
    unfold Mc6850.guest_control Mc6850.reset Mc6850.sync_transmit refresh_transmit in
    if_elim IsCached (divide_select val == 3) (λ _. (λ e. cc)) (λ _. IsCached-sync _ refl)
call-IsCached (Calls.guest_transmit val) (u, r) h =
    unfold Mc6850.guest_transmit Mc6850.sync_transmit refresh_transmit in IsCached-sync _ refl
call-IsCached (Calls.host_transmit ch) (u, r) h = unfold Mc6850.host_transmit in (λ e. cc)

has_interrupt-IsCached : (p : Port) → IsCached p → IsCached (Mc6850.has_interrupt p)
unfolding call
has_interrupt-IsCached p h = call-IsCached Calls.has_interrupt p h

calls-IsCached : (cs : List Call) (p : Port) → IsCached p → IsCached (calls cs p)
unfolding calls
calls-IsCached [] p h = h
calls-IsCached (c ∷ cs) p h = calls-IsCached cs (call c p) (call-IsCached c p h)

request_bit : (u : Mc6850) → (request u ≡ Interrupt.irq) ↔ (derived_status u / 128 ≡ 1)
request_bit u = ground arith

clean-stage_if : (b : Bool) (p : Port) → (stage_if b p).0.irq_dirty ≡ p.0.irq_dirty
unfolding stage_if stage
clean-stage_if true (u, r) = refl
clean-stage_if false (u, r) = refl

clean-poll : (p : Port) → (Mc6850.poll p).0.irq_dirty ≡ false
unfolding Mc6850.poll Mc6850.assert_irqs refresh_transmit
clean-poll (u, r) = clean-stage_if _ _

has_interrupt_clean : (p : Port) → (Mc6850.has_interrupt p).0.irq_dirty ≡ false
unfolding Mc6850.has_interrupt
has_interrupt_clean (u, r) =
    if_elim (λ (q : Port). q.0.irq_dirty ≡ false) (not u.irq_dirty) (λ e. ground arith)
      λ _. sync-dirty (Mc6850.poll (u, r)) ∙ clean-poll (u, r)

has_interrupt_of_clean : (p : Port) → p.0.irq_dirty ≡ false → Mc6850.has_interrupt p ≡ p
unfolding Mc6850.has_interrupt
has_interrupt_of_clean (u, r) e =
    if_elim (λ (q : Port). q ≡ (u, r)) (not u.irq_dirty) (λ _. refl) (λ d. absurd (ground arith))

construct-IsCached :
    (ctl_off data_off : ℕ) (r : Registers) → IsCached (construct ctl_off data_off r)
unfolding construct
construct-IsCached ctl_off data_off r = (λ e. cc)

agrees :
    {i j : Interrupt} {n m : ℕ}
    → i ≡ j
    → n ≡ m
    → (j ≡ Interrupt.irq) ↔ (m / 128 ≡ 1)
    → (i ≡ Interrupt.irq) ↔ (n / 128 ≡ 1)
agrees e f g =
    (λ h. ap (λ k. k / 128) f ∙ g.0 (sym e ∙ h), λ h. e ∙ g.1 (ap (λ k. k / 128) (sym f) ∙ h))

-- After any history of calls from the constructor on, with the status and data registers at two
-- different bytes, a further `has_interrupt` requests an interrupt exactly when the status register
-- that the guest then reads has its interrupt bit set, and it does so again, with nothing changed,
-- until some other method marks the port.
pub interrupt_agrees :
    (ctl_off data_off : ℕ) (r : Registers) (cs : List Call)
    → index ctl_off ≢ index data_off
    → let p = Mc6850.has_interrupt (calls cs (construct ctl_off data_off r)) in
      ((p.0.cached_irq_result ≡ Interrupt.irq) ↔ (read_byte p.1 p.0.ctl_offset / 128 ≡ 1))
      × (Mc6850.has_interrupt p ≡ p)
interrupt_agrees ctl_off data_off r cs h =
    let p = calls cs (construct ctl_off data_off r) in
    let v = has_interrupt-Inv p (calls-Inv cs _ (construct-Inv ctl_off data_off r h)) in
    let k =
      has_interrupt-IsCached p (
        calls-IsCached cs (construct ctl_off data_off r) (construct-IsCached ctl_off data_off r)) in
    let d = has_interrupt_clean p in
    (
      agrees (k d) (v.shown ∙ v.current) (request_bit (Mc6850.has_interrupt p).0),
      has_interrupt_of_clean (Mc6850.has_interrupt p) d,
    )
