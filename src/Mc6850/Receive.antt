-- ===== src/Mc6850/Receive.antt =====
-- The way of the bytes from the host to the guest: `rx`, then the data register.
use pico_thing_main.Base.{
  ℕ, ◌≡◌, ◌≢◌, refl, sym, ap, ◌∙◌, Bool, true, false, if_elim, not, ◌&&◌, List, [], ◌∷◌, ◌++◌,
  append_assoc, append-nil, arith, if◌then◌else◌, ◌==◌,
}
use pico_thing_main.Registers.{index, read_byte}
use pico_thing_main.SpscQueue
use pico_thing_main.SpscQueue.Fifo.{IsValid, contents, contents-put, contents-get}
use pico_thing_main.Mc6850.{
  Mc6850, Port, derived_status, sync_status, refresh_transmit, divide_select, can_stage, stage,
  stage_if,
}
use pico_thing_main.Mc6850
use pico_thing_main.Mc6850.Calls.{Call, call, calls}
use pico_thing_main.Mc6850.Calls
use pico_thing_main.Mc6850.Status.{Inv, call-Inv}

-- The byte in the data register, if the guest has not read it.
abbrev pub staged : Port → List ℕ
staged p = if p.0.receive_buffer_full then read_byte p.1 p.0.data_offset ∷ [] else []

-- What the guest has still to read, in order.
abbrev pub undelivered : Port → List ℕ
undelivered p = staged p ++ contents p.0.rx

-- The byte that the guest gets with the read that `rx_read_fast_path` reports.
abbrev pub delivered : Call → Port → List ℕ
delivered Calls.rx_read_fast_path p = staged p
delivered _ p = []

-- The byte that the host hands over.
abbrev pub accepted : Call → Port → List ℕ
accepted (Calls.host_transmit ch) p = ch ∷ []
accepted _ p = []

-- No reset, no loopback; the host sends only while the queue has space; and no `guest_receive`
-- finds RTS deasserted with a byte already staged.
abbrev pub Careful : Call → Port → Type 0
Careful Calls.reset p = ⊥
Careful (Calls.guest_control val) p = divide_select val ≢ 3
Careful (Calls.guest_transmit val) p = (p.0.loopback_close ≡ false) × (p.0.loopback_queue ≡ false)
Careful (Calls.host_transmit ch) p = SpscQueue.has_space p.0.rx ≡ true
Careful Calls.guest_receive p = (p.0.rts_deasserted && p.0.receive_buffer_full) ≡ false
Careful _ p = Unit {0}

abbrev pub delivered_all : List Call → Port → List ℕ
delivered_all [] p = []
delivered_all (c ∷ cs) p = delivered c p ++ delivered_all cs (call c p)

abbrev pub accepted_all : List Call → Port → List ℕ
accepted_all [] p = []
accepted_all (c ∷ cs) p = accepted c p ++ accepted_all cs (call c p)

abbrev pub AllCareful : List Call → Port → Type 0
AllCareful [] p = Unit {0}
AllCareful (c ∷ cs) p = Careful c p × AllCareful cs (call c p)

abbrev Apart : Port → Type 0
Apart p = index p.0.ctl_offset ≢ index p.0.data_offset

undelivered-sync : (p : Port) → Apart p → undelivered (sync_status p) ≡ undelivered p
unfolding sync_status
undelivered-sync (u, r) h = ground arith

undelivered-stage_if :
    (b : Bool) (p : Port)
    → IsValid p.0.rx
    → (b ≡ true → (p.0.receive_buffer_full ≡ false) × (SpscQueue.has_bytes p.0.rx ≡ true))
    → undelivered (stage_if b p) ≡ undelivered p
unfolding stage_if stage
undelivered-stage_if true (u, r) v h = ground (arith, h refl, contents-get u.rx v (h refl).1)
undelivered-stage_if false (u, r) v h = refl

Apart-stage_if : (b : Bool) (p : Port) → Apart p → Apart (stage_if b p)
unfolding stage_if stage
Apart-stage_if true p h = h
Apart-stage_if false p h = h

guest_receive_keeps :
    (p : Port)
    → Inv p
    → Careful Calls.guest_receive p
    → undelivered (Mc6850.guest_receive p) ≡ undelivered p
unfolding Mc6850.guest_receive
guest_receive_keeps (u, r) v k =
    if_elim (λ (q : Port). undelivered q ≡ undelivered (u, r)) u.rts_deasserted
      (λ e. undelivered-sync _ v.apart ∙ ground arith)
      λ e.
        undelivered-sync _ (Apart-stage_if _ (u, r) v.apart)
        ∙ undelivered-stage_if (not u.receive_buffer_full && SpscQueue.has_bytes u.rx) (u, r)
            v.rx_valid (λ h. ground arith)

poll_keeps : (p : Port) → Inv p → undelivered (Mc6850.poll p) ≡ undelivered p
unfolding Mc6850.poll refresh_transmit can_stage Mc6850.assert_irqs
poll_keeps (u, r) v = undelivered-stage_if _ _ v.rx_valid (λ h. ground arith)

Apart-poll : (p : Port) → Apart p → Apart (Mc6850.poll p)
unfolding Mc6850.poll refresh_transmit Mc6850.assert_irqs
Apart-poll (u, r) h = Apart-stage_if _ _ h

has_interrupt_keeps : (p : Port) → Inv p → undelivered (Mc6850.has_interrupt p) ≡ undelivered p
unfolding Mc6850.has_interrupt
has_interrupt_keeps (u, r) v =
    if_elim (λ (q : Port). undelivered q ≡ undelivered (u, r)) (not u.irq_dirty) (λ _. refl)
      λ _. undelivered-sync _ (Apart-poll (u, r) v.apart) ∙ poll_keeps (u, r) v

-- The rest of `guest_transmit`, once the byte has been passed on.
abbrev finish_transmit : Port → Port
finish_transmit p = Mc6850.sync_transmit (record (p.0) { irq_dirty = true }, p.1)

-- Without loopback a byte goes to `tx`.
pub transmit_byte_normal :
    (val : ℕ) (p : Port)
    → p.0.loopback_close ≡ false
    → p.0.loopback_queue ≡ false
    → Mc6850.transmit_byte val p ≡ (record (p.0) { tx = Mc6850.put_if_space p.0.tx val }, p.1)
unfolding Mc6850.transmit_byte
transmit_byte_normal val (u, r) h k = ground arith

guest_transmit_keeps :
    (val : ℕ) (p : Port)
    → Inv p
    → Careful (Calls.guest_transmit val) p
    → undelivered (Mc6850.guest_transmit val p) ≡ undelivered p
unfolding Mc6850.guest_transmit Mc6850.sync_transmit refresh_transmit
guest_transmit_keeps val (u, r) v k =
    ap (λ q. undelivered (finish_transmit q))
      (transmit_byte_normal val (record u { tx_write_pending = false }, r) k.0 k.1)
    ∙ undelivered-sync _ v.apart

guest_control_keeps :
    (val : ℕ) (p : Port)
    → Inv p
    → Careful (Calls.guest_control val) p
    → undelivered (Mc6850.guest_control val p) ≡ undelivered p
unfolding Mc6850.guest_control Mc6850.sync_transmit refresh_transmit
guest_control_keeps val (u, r) v k =
    if_elim (λ (q : Port). undelivered q ≡ undelivered (u, r)) (divide_select val == 3)
      (λ e. absurd (ground arith)) λ _. undelivered-sync _ v.apart

-- One careful call.
call_delivers :
    (c : Call) (p : Port)
    → Inv p
    → Careful c p
    → delivered c p ++ undelivered (call c p) ≡ undelivered p ++ accepted c p
unfolding call
call_delivers Calls.reset p v k = absurd k
call_delivers Calls.write_received (u, r) v k =
    unfold Mc6850.write_received in (undelivered-sync _ v.apart ∙ sym (append-nil _))
call_delivers Calls.rx_read_fast_path (u, r) v k =
    unfold Mc6850.rx_read_fast_path in
    (ap (◌++◌ (staged (u, r))) (undelivered-sync _ v.apart) ∙ sym (append-nil _))
call_delivers Calls.guest_receive p v k = guest_receive_keeps p v k ∙ sym (append-nil _)
call_delivers Calls.has_interrupt p v k = has_interrupt_keeps p v ∙ sym (append-nil _)
call_delivers Calls.host_receive (u, r) v k = unfold Mc6850.host_receive in sym (append-nil _)
call_delivers (Calls.set_host_cts d) (u, r) v k =
    unfold Mc6850.set_host_cts in
    (if_elim (λ (w : Mc6850). undelivered (w, r) ≡ undelivered (u, r))
        (Mc6850.same u.host_cts_deasserted d) (λ _. refl) (λ _. refl)
      ∙ sym (append-nil _))
call_delivers (Calls.control_written_isr val) (u, r) v k =
    unfold Mc6850.control_written_isr in sym (append-nil _)
call_delivers (Calls.guest_control val) p v k = guest_control_keeps val p v k ∙ sym (append-nil _)
call_delivers (Calls.guest_transmit val) p v k = guest_transmit_keeps val p v k ∙ sym (append-nil _)
call_delivers (Calls.host_transmit ch) (u, r) v k =
    unfold Mc6850.host_transmit in
    (ap (◌++◌ (staged (u, r))) (contents-put u.rx ch v.rx_valid k).1
      ∙ sym (append_assoc (staged (u, r)) (contents u.rx) (ch ∷ [])))

-- The port is a queue from the host to the guest: from a port whose invariant holds, along any
-- careful sequence of calls, in whatever order the cores and the interrupt handlers make them, the
-- bytes that the guest reads, followed by those that it has still to read, are those that were
-- waiting at first followed by those that the host has sent since. Nothing is lost, doubled or
-- reordered. Careful: no reset, no write in a loopback mode, the host sends only where there is
-- space, and guest_receive does not come while a byte is staged and RTS is deasserted.
pub delivery :
    (cs : List Call) (p : Port)
    → Inv p
    → AllCareful cs p
    → delivered_all cs p ++ undelivered (calls cs p) ≡ undelivered p ++ accepted_all cs p
unfolding calls
delivery [] p v k = sym (append-nil _)
delivery (c ∷ cs) p v k =
    append_assoc (delivered c p) (delivered_all cs (call c p)) _
    ∙ ap (◌++◌ (delivered c p)) (delivery cs (call c p) (call-Inv c p v) k.1)
    ∙ sym (append_assoc (delivered c p) (undelivered (call c p)) _)
    ∙ ap (λ xs. xs ++ accepted_all cs (call c p)) (call_delivers c p v k.0)
    ∙ append_assoc (undelivered p) (accepted c p) _

-- Where the port's invariant holds, a byte is staged and RTS is deasserted, `guest_receive` forgets
-- the byte, which is no longer in `rx` either: it is never delivered.
pub guest_receive_drops :
    (p : Port)
    → Inv p
    → p.0.rts_deasserted ≡ true
    → p.0.receive_buffer_full ≡ true
    → undelivered p ≡ read_byte p.1 p.0.data_offset ∷ undelivered (Mc6850.guest_receive p)
unfolding Mc6850.guest_receive
guest_receive_drops (u, r) v rts full =
    if_elim (λ (q : Port). undelivered (u, r) ≡ read_byte r u.data_offset ∷ undelivered q)
      u.rts_deasserted
      (λ _. ground (
        arith,
        undelivered-sync (record u { receive_buffer_full = false; irq_dirty = true }, r) v.apart,
      ))
      (λ e. absurd (ground arith))
