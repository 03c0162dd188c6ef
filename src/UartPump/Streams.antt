-- ===== src/UartPump/Streams.antt =====
-- The pump as two streams: from the host through the first buffer to the guest, and from the guest
-- through the second to the host.
pub mod Task
use Prim.Native.Nat.{min}
use pico_thing_main.Base.{
  ℕ, zero, suc, ◌+◌, ◌-◌, ◌≤◌, ◌<◌, ◌≡◌, refl, sym, subst, ap, ap₂, ◌∙◌, Bool, true, false, if_elim,
  not, ◌&&◌, List, [], ◌∷◌, ◌++◌, append_assoc, append-nil, ltb, leb, ◌==◌, ==→eq, arith,
  if◌then◌else◌, Cells, length, take, items, length-items, u16,
}
use pico_thing_main.SpscQueue
use pico_thing_main.SpscQueue.{SpscQueue}
use pico_thing_main.SpscQueue.Fifo.{IsValid, contents}
use pico_thing_main.Mc6850.{Mc6850}
use pico_thing_main.Mc6850
use pico_thing_main.Usb.{Cdc, IsCdc, usb_cdc_read_n, usb_cdc_write_n, usb_cdc_flush_n}
use pico_thing_main.UartPump.{
  UartPort, stored, refill, transmit_from, transmit_amount, advance_rx, pump_read, receive_into,
  collect, to_write, advance_tx, pump_write, uart_port_pump, unsent,
}
use pico_thing_main.Usb.Laws.{ReadKept, WriteKept, read_n-ReadKept, write_n-WriteKept, flush_n_kept}
use pico_thing_main.UartPump.Advance.{passed, Advanced, advance}
use pico_thing_main.UartPump.Buffers.{
  take-items, items-stored, transmit_from_lem, receive_into_lem, Collected,
}

-- The bytes from the host that are still to be sent to the guest.
abbrev pub to_send : UartPort → List ℕ
to_send st = items st.rx_buf st.rx_index (st.rx_count - st.rx_index)

-- Both queues are in range, a buffer holds at most 512 bytes, and a position is before the end of
-- its buffer unless that is empty.
pub record Sound (u : Mc6850) (st : UartPort) : Type 0 where
  pub rx_valid : IsValid u.rx
  pub tx_valid : IsValid u.tx
  pub rx_fits : st.rx_count ≤ 512
  pub tx_fits : st.tx_count ≤ 512
  pub rx_ahead : 0 < st.rx_count → st.rx_index < st.rx_count
  pub tx_ahead : 0 < st.tx_count → st.tx_index < st.tx_count

module _ (c : Cdc) (h : IsCdc c) where
  abbrev pub Place : Type 0
  Place = c.State × (Mc6850 × UartPort)

  -- All bytes that are under way to the guest, the next one first.
  abbrev pub incoming : Place → List ℕ
  incoming (s, (u, st)) = contents u.rx ++ (to_send st ++ h.waiting s)

  -- All bytes that the host has been given, and those that are under way to it.
  abbrev pub outgoing : Place → List ℕ
  outgoing (s, (u, st)) = h.sent s ++ (to_write st ++ contents u.tx)

  -- Between two places no byte is lost, doubled or moved.
  pub record Kept (x y : Place) : Type 0 where
    pub sound : Sound y.1.0 y.1.1
    pub incoming_kept : incoming y ≡ incoming x
    pub outgoing_kept : outgoing y ≡ outgoing x

  record Refilled (s : c.State) (st : UartPort) (r : c.State × UartPort) : Type 0 where
    fits : r.1.rx_count ≤ 512
    ahead : r.1.rx_index ≤ r.1.rx_count
    in_order : to_send r.1 ++ h.waiting r.0 ≡ to_send st ++ h.waiting s
    sent_kept : h.sent r.0 ≡ h.sent s
    to_write_kept : to_write r.1 ≡ to_write st
    tx_count_kept : r.1.tx_count ≡ st.tx_count
    tx_index_kept : r.1.tx_index ≡ st.tx_index

  all_stored :
      (bytes : List ℕ) (buf : Cells) → items (stored bytes buf) 0 (length bytes - 0) ≡ bytes
  all_stored bytes buf =
      let z : length bytes - 0 ≡ length bytes = omega arith in
      ap (items (stored bytes buf) 0) z ∙ items-stored bytes buf

  nothing_to_send : (st : UartPort) → st.rx_count ≡ 0 → to_send st ≡ []
  nothing_to_send st e =
      let z : st.rx_count - st.rx_index ≡ 0 = omega arith in ap (items st.rx_buf st.rx_index) z

  refill-Refilled :
      (s : c.State) (u : Mc6850) (st : UartPort) → Sound u st → Refilled s st (refill c s st)
  unfolding refill
  refill-Refilled s u st v =
      if_elim (Refilled s st) (st.rx_count == 0)
        (λ e.
          let k = read_n-ReadKept c h 512 s in
          let (bytes, s₁) = usb_cdc_read_n c 512 s in
          record {
            fits = k.at_most;
            ahead = omega arith;
            in_order =
                ap (λ xs. xs ++ h.waiting s₁) (all_stored bytes st.rx_buf)
                ∙ k.waiting_kept
                ∙ ap (λ xs. xs ++ h.waiting s) (sym (nothing_to_send st (==→eq st.rx_count 0 e)));
            sent_kept = k.sent_kept;
            to_write_kept = refl;
            tx_count_kept = refl;
            tx_index_kept = refl;
          })
        λ e. record {
          fits = v.rx_fits;
          ahead = ground (arith, v.rx_ahead);
          in_order = refl;
          sent_kept = refl;
          to_write_kept = refl;
          tx_count_kept = refl;
          tx_index_kept = refl;
        }

  send-Kept :
      (s : c.State) (u : Mc6850) (st : UartPort) (s₁ : c.State) (st₁ : UartPort)
      → Sound u st
      → Refilled s st (s₁, st₁)
      → let n = transmit_amount u st₁ in
        Kept (s, (u, st)) (s₁, (transmit_from st₁.rx_buf st₁.rx_index n u, advance_rx n st₁))
  unfolding advance_rx
  send-Kept s u st s₁ st₁ v r =
      let n = transmit_amount u st₁ in
      let (w, q, t) = transmit_from_lem st₁.rx_buf st₁.rx_index n u v.rx_valid (omega arith) in
      let a = advance n st₁.rx_buf st₁.rx_index st₁.rx_count r.fits r.ahead (omega arith) in
      record {
        sound = record {
          rx_valid = w;
          tx_valid = subst IsValid (sym t) v.tx_valid;
          rx_fits = a.fits;
          tx_fits = ground (arith, r.tx_count_kept, v.tx_fits);
          rx_ahead = a.ahead;
          tx_ahead = ground (arith, r.tx_count_kept, r.tx_index_kept, v.tx_ahead);
        };
        incoming_kept =
            passed (contents u.rx) (items st₁.rx_buf st₁.rx_index n) (to_send (advance_rx n st₁))
              (h.waiting s₁) q a.split r.in_order;
        outgoing_kept = ap₂ ◌++◌ r.sent_kept (ap₂ ◌++◌ r.to_write_kept (ap contents t));
      }

  pump_read-Kept :
      (suppress : Bool) (s : c.State) (u : Mc6850) (st : UartPort)
      → Sound u st
      → Kept (s, (u, st)) (pump_read c suppress s u st)
  unfolding pump_read
  pump_read-Kept suppress s u st v =
      if_elim (Kept (s, (u, st))) (not u.rts_deasserted && not suppress)
        (λ _.
          let r = refill-Refilled s u st v in
          let (s₁, st₁) = refill c s st in send-Kept s u st s₁ st₁ v r)
        λ _. record { sound = v; incoming_kept = refl; outgoing_kept = refl }

  record Gathered (u : Mc6850) (st : UartPort) (r : Mc6850 × UartPort) : Type 0 where
    fits : r.1.tx_count ≤ 512
    ahead : r.1.tx_index ≤ r.1.tx_count
    tx_in_order : to_write r.1 ++ contents r.0.tx ≡ to_write st ++ contents u.tx
    tx_valid : IsValid r.0.tx
    rx_kept : r.0.rx ≡ u.rx
    to_send_kept : to_send r.1 ≡ to_send st
    rx_count_kept : r.1.rx_count ≡ st.rx_count
    rx_index_kept : r.1.rx_index ≡ st.rx_index

  nothing_to_write : (st : UartPort) → st.tx_count ≡ 0 → to_write st ≡ []
  nothing_to_write st e =
      let z : st.tx_count - st.tx_index ≡ 0 = omega arith in ap (items st.tx_buf st.tx_index) z

  received-Gathered :
      (u : Mc6850) (st : UartPort) (r : Cells × (ℕ × Mc6850))
      → st.tx_count ≡ 0
      → Collected r st.tx_buf 0 u 512
      → Gathered u st (r.1.1, record st { tx_buf = r.0; tx_count = r.1.0; tx_index = 0 })
  received-Gathered u st (buf, (count, u₁)) e k =
      let z : count - 0 ≡ count = omega arith in
      record {
        fits = k.at_most;
        ahead = omega arith;
        tx_in_order =
            ap (λ n. items buf 0 n ++ contents u₁.tx) z
            ∙ k.in_order
            ∙ ap (λ xs. xs ++ contents u.tx) (sym (nothing_to_write st e));
        tx_valid = k.tx_valid;
        rx_kept = k.rx_kept;
        to_send_kept = refl;
        rx_count_kept = refl;
        rx_index_kept = refl;
      }

  collect-Gathered : (u : Mc6850) (st : UartPort) → Sound u st → Gathered u st (collect u st)
  unfolding collect
  collect-Gathered u st v =
      if_elim (Gathered u st) (st.tx_count == 0)
        (λ e.
          received-Gathered u st (receive_into 512 st.tx_buf 0 u) (==→eq st.tx_count 0 e)
            (receive_into_lem 512 st.tx_buf 0 u v.tx_valid))
        λ e. record {
          fits = v.tx_fits;
          ahead = ground (arith, v.tx_ahead);
          tx_in_order = refl;
          tx_valid = v.tx_valid;
          rx_kept = refl;
          to_send_kept = refl;
          rx_count_kept = refl;
          rx_index_kept = refl;
        }

  set_host_cts_queues :
      (b : Bool) (u : Mc6850)
      → ((Mc6850.set_host_cts b u).rx ≡ u.rx)
        × ((Mc6850.set_host_cts b u).tx ≡ u.tx)
        × ((Mc6850.set_host_cts b u).host_cts_deasserted ≡ b)
  unfolding Mc6850.set_host_cts
  set_host_cts_queues b u =
      if_elim (λ (w : Mc6850). (w.rx ≡ u.rx) × (w.tx ≡ u.tx) × (w.host_cts_deasserted ≡ b))
        (Mc6850.same u.host_cts_deasserted b) (λ e. (refl, refl, ground arith))
        (λ _. (refl, refl, refl))

  write-Kept :
      (s : c.State) (u : Mc6850) (st : UartPort) (u₁ : Mc6850) (st₁ : UartPort)
      → Sound u st
      → Gathered u st (u₁, st₁)
      → let (written, s₁) = usb_cdc_write_n c (to_write st₁) s in
        let st₂ = advance_tx written st₁ in
        Kept (s, (u, st)) (s₁, (Mc6850.set_host_cts (unsent st₂) u₁, st₂))
  unfolding advance_tx
  write-Kept s u st u₁ st₁ v r =
      let k = write_n-WriteKept c h (to_write st₁) s in
      let (written, s₁) = usb_cdc_write_n c (to_write st₁) s in
      let l : written ≤ st₁.tx_count - st₁.tx_index =
        omega
          (arith, k.at_most, length-items st₁.tx_buf st₁.tx_index (st₁.tx_count - st₁.tx_index)) in
      let a = advance written st₁.tx_buf st₁.tx_index st₁.tx_count r.fits r.ahead l in
      let (rx, tx, _) = set_host_cts_queues (unsent (advance_tx written st₁)) u₁ in
      record {
        sound = record {
          rx_valid = subst IsValid (sym (rx ∙ r.rx_kept)) v.rx_valid;
          tx_valid = subst IsValid (sym tx) r.tx_valid;
          rx_fits = ground (arith, r.rx_count_kept, v.rx_fits);
          tx_fits = a.fits;
          rx_ahead = ground (arith, r.rx_count_kept, r.rx_index_kept, v.rx_ahead);
          tx_ahead = a.ahead;
        };
        incoming_kept =
            ap₂ ◌++◌ (ap contents (rx ∙ r.rx_kept)) (ap₂ ◌++◌ r.to_send_kept k.waiting_kept);
        outgoing_kept =
            passed (h.sent s) (items st₁.tx_buf st₁.tx_index written)
              (to_write (advance_tx written st₁))
              (contents (Mc6850.set_host_cts (unsent (advance_tx written st₁)) u₁).tx)
              (k.sent_more ∙ ap (◌++◌ (h.sent s)) (take-items st₁.tx_buf st₁.tx_index written _ l))
              a.split (ap (◌++◌ (to_write st₁)) (ap contents tx) ∙ r.tx_in_order);
      }

  pump_write-Kept :
      (s : c.State) (u : Mc6850) (st : UartPort)
      → Sound u st
      → Kept (s, (u, st)) (pump_write c s u st)
  unfolding pump_write
  pump_write-Kept s u st v =
      write-Kept s u st (collect u st).0 (collect u st).1 v (collect-Gathered u st v)

  unsent_lem : (st : UartPort) → unsent st ≡ ltb 0 (length (to_write st))
  unsent_lem st = rw (length-items st.tx_buf st.tx_index (st.tx_count - st.tx_index)) (ground arith)

  pump_write_cts :
      (s : c.State) (u : Mc6850) (st : UartPort)
      → let r = pump_write c s u st in r.1.0.host_cts_deasserted ≡ ltb 0 (length (to_write r.1.1))
  unfolding pump_write
  pump_write_cts s u st =
      let (u₁, st₁) = collect u st in
      let st₂ = advance_tx (usb_cdc_write_n c (to_write st₁) s).0 st₁ in
      (set_host_cts_queues (unsent st₂) u₁).2 ∙ unsent_lem st₂

  Kept-trans : (x y z : Place) → Kept x y → Kept y z → Kept x z
  Kept-trans x y z k l = record {
    sound = l.sound;
    incoming_kept = l.incoming_kept ∙ k.incoming_kept;
    outgoing_kept = l.outgoing_kept ∙ k.outgoing_kept;
  }

  -- One call of the pump on a sound port, whatever USB takes and gives: no byte on the way from the
  -- host to the guest or from the guest to the host is lost, doubled or moved, the port and the
  -- buffers stay sound, and CTS is then deasserted from the side of the host exactly when bytes are
  -- left that USB has not taken.
  pub uart_port_pump_lem :
      (suppress : Bool) (s : c.State) (u : Mc6850) (st : UartPort)
      → Sound u st
      → let r = uart_port_pump c suppress s u st in
        Kept (s, (u, st)) r × (r.1.0.host_cts_deasserted ≡ ltb 0 (length (to_write r.1.1)))
  unfolding uart_port_pump
  uart_port_pump_lem suppress s u st v =
      let (s₁, (u₁, st₁)) = pump_read c suppress s u st in
      let k = pump_read-Kept suppress s u st v in
      let l = pump_write-Kept s₁ u₁ st₁ k.sound in
      (
        Kept-trans (s, (u, st)) (s₁, (u₁, st₁)) (pump_write c s₁ u₁ st₁) k l,
        pump_write_cts s₁ u₁ st₁,
      )

  pub flush-Kept : (x y : Place) → Kept x y → Kept x (usb_cdc_flush_n c y.0, y.1)
  flush-Kept x (s, p) k =
      let (w, e) = flush_n_kept c h s in
      record {
        sound = k.sound;
        incoming_kept = ap (λ xs. contents p.0.rx ++ (to_send p.1 ++ xs)) w ∙ k.incoming_kept;
        outgoing_kept = ap (λ xs. xs ++ (to_write p.1 ++ contents p.0.tx)) e ∙ k.outgoing_kept;
      }
