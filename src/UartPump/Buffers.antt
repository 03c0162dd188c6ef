-- ===== src/UartPump/Buffers.antt =====
-- The two buffers of a port state as lists of bytes.
use pico_thing_main.Base.{
  ℕ, zero, suc, ◌+◌, ◌-◌, ◌≤◌, ◌<◌, ◌≡◌, refl, sym, ap, ap₂, ◌∙◌, true, elim_elim, List, [], ◌∷◌,
  ◌++◌, append_assoc, append-nil, arith, Cells, update, length, take, items, items_cong, items-snoc,
  byte_at,
}
use pico_thing_main.SpscQueue.{SpscQueue}
use pico_thing_main.SpscQueue
use pico_thing_main.SpscQueue.Fifo.{IsValid, contents, contents-put, contents-get}
use pico_thing_main.Mc6850.{Mc6850, host_transmit, host_receive, host_receive_avail}
use pico_thing_main.Mc6850
use pico_thing_main.UartPump.{stored, transmit_from, receive_into}

pub take-items : (f : ℕ → ℕ) (k n m : ℕ) → n ≤ m → take n (items f k m) ≡ items f k n
take-items f k zero m l = refl
take-items f k (suc n) zero l = absurd (omega arith)
take-items f k (suc n) (suc m) l = ap (◌∷◌ (f k)) (take-items f (k + 1) n m (omega arith))

byte_at-items :
    (xs : List ℕ) (f : ℕ → ℕ) (k : ℕ)
    → ((i : ℕ) → i < length xs → f (k + i) ≡ byte_at xs i)
    → items f k (length xs) ≡ xs
byte_at-items [] f k h = refl
byte_at-items (x ∷ xs) f k h =
    ap₂ ◌∷◌ (ground (arith, h 0)) (byte_at-items xs f (k + 1) λ i l. ground (arith, h (suc i)))

pub items-stored :
    (bytes : List ℕ) (buf : Cells) → items (stored bytes buf) 0 (length bytes) ≡ bytes
items-stored bytes buf = byte_at-items bytes (stored bytes buf) 0 λ i l. ground arith

pub items-update :
    (buf : Cells) (n ch : ℕ) → items (update buf n ch) 0 (n + 1) ≡ items buf 0 n ++ ch ∷ []
items-update buf n ch =
    let e : n + 1 ≡ suc n = omega arith in
    ap (items (update buf n ch) 0) e
    ∙ items-snoc (update buf n ch) 0 n
    ∙ ap₂ (λ xs x. xs ++ x ∷ []) (items_cong (update buf n ch) buf 0 0 n λ j l. ground arith)
        (ground arith)

put-room :
    (q : SpscQueue) (n ch : ℕ)
    → IsValid q
    → suc n ≤ 1023 - SpscQueue.get_level q
    → (SpscQueue.has_space q ≡ true) × (n ≤ 1023 - SpscQueue.get_level (SpscQueue.put q ch))
unfolding SpscQueue.get_level SpscQueue.has_space SpscQueue.is_full SpscQueue.put
put-room q n ch v l = (ground arith, ground arith)

-- The loop that sends.
pub transmit_from_lem :
    (buf : Cells) (k n : ℕ) (u : Mc6850)
    → IsValid u.rx
    → n ≤ Mc6850.host_transmit_level_avail u
    → IsValid (transmit_from buf k n u).rx
      × (contents (transmit_from buf k n u).rx ≡ contents u.rx ++ items buf k n)
      × ((transmit_from buf k n u).tx ≡ u.tx)
unfolding transmit_from host_transmit Mc6850.host_transmit_level_avail
transmit_from_lem buf k zero u v l = (v, sym (append-nil _), refl)
transmit_from_lem buf k (suc n) u v l =
    let (space, room) = put-room u.rx n (buf k) v l in
    let (v₁, e) = contents-put u.rx (buf k) v space in
    let (w, a, t) = transmit_from_lem buf (k + 1) n (host_transmit (buf k) u) v₁ room in
    (
      w,
      a
          ∙ ap (λ xs. xs ++ items buf (k + 1) n) e
          ∙ append_assoc (contents u.rx) (buf k ∷ []) (items buf (k + 1) n),
      t,
    )

-- What the loop that collects leaves.
pub record Collected (r : Cells × (ℕ × Mc6850)) (buf : Cells) (count : ℕ) (u : Mc6850) (n : ℕ)
    : Type 0 where
  pub in_order : items r.0 0 r.1.0 ++ contents r.1.1.tx ≡ items buf 0 count ++ contents u.tx
  pub tx_valid : IsValid r.1.1.tx
  pub rx_kept : r.1.1.rx ≡ u.rx
  pub at_most : r.1.0 ≤ count + n

one_more :
    (buf : Cells) (n ch : ℕ) (rest : List ℕ)
    → items (update buf n ch) 0 (n + 1) ++ rest ≡ items buf 0 n ++ ch ∷ rest
one_more buf n ch rest =
    ap (λ xs. xs ++ rest) (items-update buf n ch) ∙ append_assoc (items buf 0 n) (ch ∷ []) rest

pub receive_into_lem :
    (n : ℕ) (buf : Cells) (count : ℕ) (u : Mc6850)
    → IsValid u.tx
    → Collected (receive_into n buf count u) buf count u n
unfolding receive_into host_receive host_receive_avail SpscQueue.has_bytes
receive_into_lem zero buf count u v = record {
  in_order = refl;
  tx_valid = v;
  rx_kept = refl;
  at_most = omega arith;
}
receive_into_lem (suc n) buf count u v =
    elim_elim (λ (r : Cells × (ℕ × Mc6850)). Collected r buf count u (suc n)) (host_receive_avail u)
      (λ e.
        let (v₁, g) = contents-get u.tx v e in
        let ch = (host_receive u).0 in
        let w : Collected (receive_into n (update buf count ch) (count + 1) (host_receive u).1)
            (update buf count ch) (count + 1) (host_receive u).1 n =
          receive_into_lem n (update buf count ch) (count + 1) (host_receive u).1 v₁ in
        record {
          in_order =
              w.in_order
              ∙ one_more buf count ch (contents (host_receive u).1.tx)
              ∙ ap (◌++◌ (items buf 0 count)) (sym g);
          tx_valid = w.tx_valid;
          rx_kept = w.rx_kept;
          at_most = omega (arith, w.at_most);
        })
      λ e. record { in_order = refl; tx_valid = v; rx_kept = refl; at_most = omega arith }
