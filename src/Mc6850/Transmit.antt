-- ===== src/Mc6850/Transmit.antt =====
-- The way of the bytes from the guest to the host: the TDRE bit, then `tx`.
use pico_thing_main.Base.{
  ℕ, ◌≡◌, ◌≢◌, sym, ap, ◌∙◌, Bool, true, false, if_elim, not, ◌||◌, List, [], ◌∷◌, ◌++◌,
  append_assoc, append-nil, arith, if◌then◌else◌, ◌==◌,
}
use pico_thing_main.SpscQueue
use pico_thing_main.SpscQueue.{SpscQueue}
use pico_thing_main.SpscQueue.Fifo.{IsValid, contents, contents-put, contents-get}
use pico_thing_main.Mc6850.{
  Mc6850, Port, derived_status, sync_status, refresh_transmit, divide_select, can_stage, stage,
  stage_if, cts_threshold,
}
use pico_thing_main.Mc6850
use pico_thing_main.Mc6850.Calls.{Call, call, calls}
use pico_thing_main.Mc6850.Calls
use pico_thing_main.Mc6850.Status.{Inv, call-Inv}

-- The byte that the guest adds to `tx`, and the byte that the host takes.
abbrev pub sent : Call → Port → List ℕ
sent (Calls.guest_transmit val) p =
    if p.0.loopback_close || p.0.loopback_queue then [] else val ∷ []
sent _ p = []

abbrev pub collected : Call → Port → List ℕ
collected Calls.host_receive p = (Mc6850.host_receive p.0).0 ∷ []
collected _ p = []

-- No reset; the guest obeys TDRE, and the host asks `host_receive_avail`.
abbrev pub Polite : Call → Port → Type 0
Polite Calls.reset p = ⊥
Polite (Calls.guest_control val) p = divide_select val ≢ 3
Polite (Calls.guest_transmit val) p = p.0.transmit_buffer_empty ≡ true
Polite Calls.host_receive p = Mc6850.host_receive_avail p.0 ≡ true
Polite _ p = Unit {0}

abbrev pub sent_all : List Call → Port → List ℕ
sent_all [] p = []
sent_all (c ∷ cs) p = sent c p ++ sent_all cs (call c p)

abbrev pub collected_all : List Call → Port → List ℕ
collected_all [] p = []
collected_all (c ∷ cs) p = collected c p ++ collected_all cs (call c p)

abbrev pub AllPolite : List Call → Port → Type 0
AllPolite [] p = Unit {0}
AllPolite (c ∷ cs) p = Polite c p × AllPolite cs (call c p)

-- A property of `tx` and of the member behind TDRE survives what leaves both alone.
module _ (P : SpscQueue → Bool → Type 0) where
  abbrev Keeps : Port → Type 0
  Keeps p = P p.0.tx p.0.transmit_buffer_empty

  Keeps-sync : (p : Port) → Keeps p → Keeps (sync_status p)
  unfolding sync_status
  Keeps-sync (u, r) h = if_elim Keeps (derived_status u == u.cached_status_byte) (λ _. h) (λ _. h)

  Keeps-stage_if : (b : Bool) (p : Port) → Keeps p → Keeps (stage_if b p)
  unfolding stage_if stage
  Keeps-stage_if true (u, r) h = h
  Keeps-stage_if false (u, r) h = h

  Keeps-guest_receive : (p : Port) → Keeps p → Keeps (Mc6850.guest_receive p)
  unfolding Mc6850.guest_receive
  Keeps-guest_receive (u, r) h =
      if_elim Keeps u.rts_deasserted (λ _. Keeps-sync _ h)
        λ _. Keeps-sync _ (Keeps-stage_if _ (u, r) h)

  Keeps-has_interrupt :
      (p : Port) → Keeps p → P p.0.tx (SpscQueue.has_space p.0.tx) → Keeps (Mc6850.has_interrupt p)
  unfolding Mc6850.has_interrupt Mc6850.poll refresh_transmit Mc6850.assert_irqs
  Keeps-has_interrupt (u, r) h k =
      if_elim Keeps (not u.irq_dirty) (λ _. h) λ _. Keeps-sync _ (Keeps-stage_if _ _ k)

  Keeps-sync_transmit :
      (p : Port) → P p.0.tx (SpscQueue.has_space p.0.tx) → Keeps (Mc6850.sync_transmit p)
  unfolding Mc6850.sync_transmit refresh_transmit
  Keeps-sync_transmit (u, r) h = Keeps-sync _ h

  Keeps-guest_control :
      (val : ℕ) (p : Port)
      → divide_select val ≢ 3
      → P p.0.tx (SpscQueue.has_space p.0.tx)
      → Keeps (Mc6850.guest_control val p)
  unfolding Mc6850.guest_control
  Keeps-guest_control val (u, r) n h =
      if_elim Keeps (divide_select val == 3) (λ e. absurd (ground arith))
        λ _. Keeps-sync_transmit _ h

-- What the member behind TDRE promises.
abbrev Promise : SpscQueue → Bool → Type 0
Promise q b = b ≡ true → SpscQueue.has_space q ≡ true

abbrev pub HasRoom : Port → Type 0
HasRoom p = Promise p.0.tx p.0.transmit_buffer_empty

get-has_space :
    (q : SpscQueue)
    → IsValid q
    → SpscQueue.has_space q ≡ true
    → SpscQueue.is_empty q ≡ false
    → SpscQueue.has_space (SpscQueue.get q).1 ≡ true
unfolding SpscQueue.has_space SpscQueue.get SpscQueue.is_empty
get-has_space q v h e = ground arith

guest_transmit-HasRoom : (val : ℕ) (p : Port) → HasRoom (Mc6850.guest_transmit val p)
unfolding Mc6850.guest_transmit
guest_transmit-HasRoom val (u, r) = Keeps-sync_transmit Promise _ (λ e. e)

call-HasRoom : (c : Call) (p : Port) → Inv p → Polite c p → HasRoom p → HasRoom (call c p)
unfolding call
call-HasRoom Calls.reset p v k h = absurd k
call-HasRoom Calls.write_received (u, r) v k h =
    unfold Mc6850.write_received in Keeps-sync Promise _ h
call-HasRoom Calls.rx_read_fast_path (u, r) v k h =
    unfold Mc6850.rx_read_fast_path in Keeps-sync Promise _ h
call-HasRoom Calls.guest_receive p v k h = Keeps-guest_receive Promise p h
call-HasRoom Calls.has_interrupt p v k h = Keeps-has_interrupt Promise p h (λ e. e)
call-HasRoom Calls.host_receive (u, r) v k h =
    unfold Mc6850.host_receive Mc6850.host_receive_avail in
    ground (arith, get-has_space u.tx v.tx_valid)
call-HasRoom (Calls.set_host_cts d) (u, r) v k h =
    unfold Mc6850.set_host_cts in
    if_elim (λ (w : Mc6850). Promise w.tx w.transmit_buffer_empty) _ (λ _. h) (λ _. h)
call-HasRoom (Calls.control_written_isr val) (u, r) v k h = unfold Mc6850.control_written_isr in h
call-HasRoom (Calls.guest_control val) p v k h = Keeps-guest_control Promise val p k (λ e. e)
call-HasRoom (Calls.guest_transmit val) p v k h = guest_transmit-HasRoom val p
call-HasRoom (Calls.host_transmit ch) (u, r) v k h = unfold Mc6850.host_transmit in h

abbrev Holds : List ℕ → SpscQueue → Bool → Type 0
Holds xs q b = contents q ≡ xs

transmit_byte-Holds :
    (val : ℕ) (p : Port)
    → IsValid p.0.tx
    → SpscQueue.has_space p.0.tx ≡ true
    → contents (Mc6850.transmit_byte val p).0.tx
      ≡ contents p.0.tx ++ (if p.0.loopback_close || p.0.loopback_queue then [] else val ∷ [])
unfolding Mc6850.transmit_byte Mc6850.put_if_space
transmit_byte-Holds val (u, r) v h =
    ground (arith, contents-put u.tx val v h, append-nil (contents u.tx))

guest_transmit-Holds :
    (val : ℕ) (p : Port)
    → IsValid p.0.tx
    → SpscQueue.has_space p.0.tx ≡ true
    → contents (Mc6850.guest_transmit val p).0.tx
      ≡ contents p.0.tx ++ sent (Calls.guest_transmit val) p
unfolding Mc6850.guest_transmit
guest_transmit-Holds val (u, r) v h =
    Keeps-sync_transmit (Holds _) _
      (transmit_byte-Holds val (record u { tx_write_pending = false }, r) v h)

call_sends :
    (c : Call) (p : Port)
    → Inv p
    → HasRoom p
    → Polite c p
    → collected c p ++ contents (call c p).0.tx ≡ contents p.0.tx ++ sent c p
unfolding call
call_sends Calls.reset p v h k = absurd k
call_sends Calls.write_received (u, r) v h k =
    unfold Mc6850.write_received in Keeps-sync (Holds _) _ (sym (append-nil _))
call_sends Calls.rx_read_fast_path (u, r) v h k =
    unfold Mc6850.rx_read_fast_path in Keeps-sync (Holds _) _ (sym (append-nil _))
call_sends Calls.guest_receive p v h k = Keeps-guest_receive (Holds _) p (sym (append-nil _))
call_sends Calls.has_interrupt p v h k =
    Keeps-has_interrupt (Holds _) p (sym (append-nil _)) (sym (append-nil _))
call_sends Calls.host_receive (u, r) v h k =
    unfold Mc6850.host_receive Mc6850.host_receive_avail SpscQueue.has_bytes in
    (sym (contents-get u.tx v.tx_valid k).1 ∙ sym (append-nil _))
call_sends (Calls.set_host_cts d) (u, r) v h k =
    unfold Mc6850.set_host_cts in
    if_elim (λ (w : Mc6850). contents w.tx ≡ contents u.tx ++ []) _ (λ _. sym (append-nil _))
      (λ _. sym (append-nil _))
call_sends (Calls.control_written_isr val) (u, r) v h k =
    unfold Mc6850.control_written_isr in sym (append-nil _)
call_sends (Calls.guest_control val) p v h k =
    Keeps-guest_control (Holds _) val p k (sym (append-nil _))
call_sends (Calls.guest_transmit val) p v h k = guest_transmit-Holds val p v.tx_valid (h k)
call_sends (Calls.host_transmit ch) (u, r) v h k = unfold Mc6850.host_transmit in sym (append-nil _)

-- A guest that writes only while `transmit_buffer_empty` is shown loses nothing: from a port whose
-- invariant holds and which shows `transmit_buffer_empty` only with space in `tx`, along any polite
-- sequence of calls the bytes that the host has taken, followed by those still in `tx`, are those
-- that were in `tx` at first followed by those that the guest has sent outside the loopback modes,
-- in order. Polite: no reset, the guest writes only as said, and the host takes a byte only where
-- there is one.
pub transmission :
    (cs : List Call) (p : Port)
    → Inv p
    → HasRoom p
    → AllPolite cs p
    → collected_all cs p ++ contents (calls cs p).0.tx ≡ contents p.0.tx ++ sent_all cs p
unfolding calls
transmission [] p v h k = sym (append-nil _)
transmission (c ∷ cs) p v h k =
    append_assoc (collected c p) (collected_all cs (call c p)) _
    ∙ ap (◌++◌ (collected c p))
        (transmission cs (call c p) (call-Inv c p v) (call-HasRoom c p v k.0 h) k.1)
    ∙ sym (append_assoc (collected c p) (contents (call c p).0.tx) _)
    ∙ ap (λ xs. xs ++ sent_all cs (call c p)) (call_sends c p v h k.0)
    ∙ append_assoc (contents p.0.tx) (sent c p) _
