-- ===== src/Mc6850/Status.antt =====
-- The status register, as the guest reads it.
use pico_thing_main.Base.{
  ℕ, ◌+◌, ◌*◌, ◌≡◌, ◌≢◌, ◌∙◌, Bool, true, false, Bool-cases, if_elim, inl, inr, not, ◌&&◌, ◌||◌,
  List, [], ◌∷◌, arith, bit, ◌==◌,
}
use pico_thing_main.Registers.{Registers, index, read_byte}
use pico_thing_main.SpscQueue
use pico_thing_main.SpscQueue.Fifo.{IsValid, empty-IsValid, reset_lem, put-IsValid, get-IsValid}
use pico_thing_main.Mc6850.{
  Mc6850, Port, derived_status, reset_status, status_byte, sync_status, construct, refresh_transmit,
  divide_select,
}
use pico_thing_main.Mc6850
use pico_thing_main.Mc6850.Calls.{Call, call, calls}
use pico_thing_main.Mc6850.Calls

-- Status and data registers are two bytes; the guest reads the byte that the members define; the
-- queues are in range.
pub record Inv (p : Port) : Type 0 where
  pub apart : index p.0.ctl_offset ≢ index p.0.data_offset
  pub shown : read_byte p.1 p.0.ctl_offset ≡ p.0.cached_status_byte
  pub current : p.0.cached_status_byte ≡ derived_status p.0
  pub tx_valid : IsValid p.0.tx
  pub rx_valid : IsValid p.0.rx

-- What holds before a `sync_status`: all but that the status is current.
record Unsynced (p : Port) : Type 0 where
  apart : index p.0.ctl_offset ≢ index p.0.data_offset
  shown : read_byte p.1 p.0.ctl_offset ≡ p.0.cached_status_byte
  tx_valid : IsValid p.0.tx
  rx_valid : IsValid p.0.rx

sync_status-Inv : (p : Port) → Unsynced p → Inv (sync_status p)
unfolding sync_status
sync_status-Inv (u, r) v = ground arith

reset-Inv : (p : Port) → Inv p → Inv (Mc6850.reset p)
unfolding Mc6850.reset
reset-Inv (u, r) v = ground (arith, reset_lem u.tx, reset_lem u.rx)

guest_control-Inv : (val : ℕ) (p : Port) → Inv p → Inv (Mc6850.guest_control val p)
unfolding Mc6850.guest_control Mc6850.sync_transmit refresh_transmit
guest_control-Inv val (u, r) v = elim (Bool-cases (divide_select val == 3)) [
  | inl e ↦ rw e (reset-Inv (u, r) v)
  | inr e ↦ rw e (sync_status-Inv _ (ground arith))
]

transmit_byte-Unsynced : (val : ℕ) (p : Port) → Unsynced p → Unsynced (Mc6850.transmit_byte val p)
unfolding Mc6850.transmit_byte Mc6850.put_if_space
transmit_byte-Unsynced val (u, r) v = ground (arith, put-IsValid u.tx val, put-IsValid u.rx val)

guest_transmit-Inv : (val : ℕ) (p : Port) → Inv p → Inv (Mc6850.guest_transmit val p)
unfolding Mc6850.guest_transmit Mc6850.sync_transmit refresh_transmit
guest_transmit-Inv val (u, r) v =
    let w = transmit_byte-Unsynced val (record u { tx_write_pending = false }, r) (ground arith) in
    sync_status-Inv _ (ground arith)

stage_if-Unsynced : (b : Bool) (p : Port) → Unsynced p → Unsynced (Mc6850.stage_if b p)
unfolding Mc6850.stage_if Mc6850.stage SpscQueue.get
stage_if-Unsynced b (u, r) v = ground arith

dirty-Unsynced : (p : Port) → Unsynced p → Unsynced (record (p.0) { irq_dirty = true }, p.1)
dirty-Unsynced p v = ground arith

asserts-Unsynced : (p : Port) → Unsynced p → Unsynced (Mc6850.assert_irqs p.0, p.1)
unfolding Mc6850.assert_irqs
asserts-Unsynced p v = ground arith

refresh-Unsynced :
    (p : Port) → Unsynced p → Unsynced (refresh_transmit (record (p.0) { irq_dirty = false }), p.1)
unfolding refresh_transmit
refresh-Unsynced p v = ground arith

guest_receive-Inv : (p : Port) → Inv p → Inv (Mc6850.guest_receive p)
unfolding Mc6850.guest_receive
guest_receive-Inv (u, r) v =
    if_elim Inv u.rts_deasserted (λ _. sync_status-Inv _ (ground arith))
      λ _. sync_status-Inv _ (dirty-Unsynced _ (stage_if-Unsynced _ (u, r) (ground arith)))

poll-Unsynced : (p : Port) → Unsynced p → Unsynced (Mc6850.poll p)
unfolding Mc6850.poll
poll-Unsynced (u, r) v = asserts-Unsynced _ (stage_if-Unsynced _ _ (refresh-Unsynced (u, r) v))

pub has_interrupt-Inv : (p : Port) → Inv p → Inv (Mc6850.has_interrupt p)
unfolding Mc6850.has_interrupt
has_interrupt-Inv (u, r) v =
    let w = sync_status-Inv (Mc6850.poll (u, r)) (poll-Unsynced (u, r) (ground arith)) in
    ground arith

pub call-Inv : (c : Call) (p : Port) → Inv p → Inv (call c p)
unfolding call
call-Inv Calls.reset p v = reset-Inv p v
call-Inv Calls.write_received (u, r) v =
    unfold Mc6850.write_received in sync_status-Inv _ (ground arith)
call-Inv Calls.rx_read_fast_path (u, r) v =
    unfold Mc6850.rx_read_fast_path in sync_status-Inv _ (ground arith)
call-Inv Calls.guest_receive p v = guest_receive-Inv p v
call-Inv Calls.has_interrupt p v = has_interrupt-Inv p v
call-Inv Calls.host_receive (u, r) v =
    unfold Mc6850.host_receive in ground (arith, get-IsValid u.tx)
call-Inv (Calls.set_host_cts d) (u, r) v = unfold Mc6850.set_host_cts in ground arith
call-Inv (Calls.control_written_isr val) (u, r) v =
    unfold Mc6850.control_written_isr in ground arith
call-Inv (Calls.guest_control val) p v = guest_control-Inv val p v
call-Inv (Calls.guest_transmit val) p v = guest_transmit-Inv val p v
call-Inv (Calls.host_transmit ch) (u, r) v =
    unfold Mc6850.host_transmit in ground (arith, put-IsValid u.rx ch)

pub calls-Inv : (cs : List Call) (p : Port) → Inv p → Inv (calls cs p)
unfolding calls
calls-Inv [] p v = v
calls-Inv (c ∷ cs) p v = calls-Inv cs (call c p) (call-Inv c p v)

pub construct-Inv :
    (ctl_off data_off : ℕ) (r : Registers)
    → index ctl_off ≢ index data_off
    → Inv (construct ctl_off data_off r)
unfolding construct
construct-Inv ctl_off data_off r h = ground (arith, empty-IsValid)

-- From the constructor on, with the status and data registers at two different bytes, after any
-- sequence of calls of the port's methods by the two cores and the interrupt handlers, of which each
-- has ended before the next begins, so that no handler interrupts a method, the byte that the guest
-- finds in the status register has RDRF exactly when a byte is staged, TDRE exactly when
-- the port has room, CTS is asserted and no write is under way, bit 3 exactly when CTS is
-- deasserted, bit 7 exactly when an interrupt is asserted, and no other bit.
pub status_current :
    (ctl_off data_off : ℕ) (r : Registers) (cs : List Call)
    → index ctl_off ≢ index data_off
    → let (u, s) = calls cs (construct ctl_off data_off r) in
      read_byte s u.ctl_offset
      ≡ bit u.receive_buffer_full
        + bit (u.transmit_buffer_empty && (not u.cts_deasserted && not u.tx_write_pending)) * 2
        + bit u.cts_deasserted * 8
        + bit (u.assert_receive_irq || u.assert_transmit_irq) * 128
status_current ctl_off data_off r cs h =
    let v = calls-Inv cs (construct ctl_off data_off r) (construct-Inv ctl_off data_off r h) in
    v.shown ∙ v.current
