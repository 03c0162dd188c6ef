-- ===== src/Usb/Laws.antt =====
-- What the reads and writes of a USB interface keep, over any TinyUSB that does what it documents.
use pico_thing_main.Base.{
  ℕ, ◌≤◌, ◌≡◌, refl, sym, not, if_elim, List, [], ◌++◌, append-nil, ltb, arith, length, take,
}
use pico_thing_main.Usb.{Cdc, IsCdc, usb_cdc_read_n, usb_cdc_write_n, usb_cdc_flush_n}

module _ (c : Cdc) (h : IsCdc c) where
  pub record ReadKept (n : ℕ) (s : c.State) (r : List ℕ × c.State) : Type 0 where
    pub at_most : length r.0 ≤ n
    pub waiting_kept : r.0 ++ h.waiting r.1 ≡ h.waiting s
    pub sent_kept : h.sent r.1 ≡ h.sent s

  pub read_n-ReadKept : (n : ℕ) (s : c.State) → ReadKept n s (usb_cdc_read_n c n s)
  unfolding usb_cdc_read_n
  read_n-ReadKept n s =
      if_elim (ReadKept n s) (not (c.connected s)) (λ _. nothing)
        λ _.
          if_elim (ReadKept n s) (ltb 0 (c.available s))
            (λ _. record {
              at_most = h.read_at_most n s;
              waiting_kept = h.read_waiting n s;
              sent_kept = h.read_sent n s;
            })
            (λ _. nothing)
    where
      nothing : ReadKept n s ([], s)
      nothing = record { at_most = omega arith; waiting_kept = refl; sent_kept = refl }

  pub record WriteKept (xs : List ℕ) (s : c.State) (r : ℕ × c.State) : Type 0 where
    pub at_most : r.0 ≤ length xs
    pub sent_more : h.sent r.1 ≡ h.sent s ++ take r.0 xs
    pub waiting_kept : h.waiting r.1 ≡ h.waiting s

  pub write_n-WriteKept : (xs : List ℕ) (s : c.State) → WriteKept xs s (usb_cdc_write_n c xs s)
  unfolding usb_cdc_write_n
  write_n-WriteKept xs s =
      if_elim (WriteKept xs s) (not (c.connected s)) (λ _. nothing)
        λ _.
          if_elim (WriteKept xs s) (ltb 0 (length xs))
            (λ _. record {
              at_most = h.write_at_most xs s;
              sent_more = h.write_sent xs s;
              waiting_kept = h.write_waiting xs s;
            })
            (λ _. nothing)
    where
      nothing : WriteKept xs s (0, s)
      nothing = record {
        at_most = omega arith;
        sent_more = sym (append-nil (h.sent s));
        waiting_kept = refl;
      }

  pub flush_n_kept :
      (s : c.State)
      → (h.waiting (usb_cdc_flush_n c s) ≡ h.waiting s) × (h.sent (usb_cdc_flush_n c s) ≡ h.sent s)
  unfolding usb_cdc_flush_n
  flush_n_kept s =
      if_elim (λ t. (h.waiting t ≡ h.waiting s) × (h.sent t ≡ h.sent s)) (c.connected s)
        (λ _. (h.flush_waiting s, h.flush_sent s)) (λ _. (refl, refl))
