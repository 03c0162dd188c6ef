-- ===== src/Torture/Moved.antt =====
-- What keeps the sentinels while slot 6 shows another page.
use pico_thing_main.Base.{ℕ, ◌+◌, ◌<◌, ◌≡◌, ◌≢◌, refl, ◌∙◌, arith, update, u16, Cells}
use pico_thing_main.Torture.Bus.{GuestBus}
use pico_thing_main.Torture.{M, ◌>>=◌, ◌>>◌, pure, each, outb, load_word, transfer}
use pico_thing_main.Torture.Steps.{Runs, Runs-bind, Runs-each, View, IsSound, At, remap-At}
use pico_thing_main.Torture.Blocks.{slot_Clear, Answers}
use pico_thing_main.Torture.Transfers.{load_word-At, transfer-At}
use pico_thing_main.Torture.Sound.{identity, IsClean}

module _ {S : Type 0} (bus : GuestBus S) (v : View S) (sound : IsSound bus v) where
  -- The same pages, written otherwise.
  repaged :
      (p q : Cells) (lo hi : ℕ) (s : S)
      → ((i : ℕ) → i < 8 → p i ≡ q i)
      → At v p lo hi s
      → At v q lo hi s
  repaged p q lo hi s e h = record {
    maps = λ i l. h.maps i l ∙ e i l;
    in_task = h.in_task;
    guarded = h.guarded;
  }

  -- A store that gives a slot its page back.
  pub restore-At :
      (pages back : Cells) (lo hi i x : ℕ)
      → i < 8
      → x < 256
      → ((j : ℕ) → j < 8 → update pages i x j ≡ back j)
      → Runs (At v pages lo hi) (outb bus (0xFE00 + i) x) (λ _. At v back lo hi)
  restore-At pages back lo hi i x l m e s h =
      let (r, q, y) = remap-At bus v sound pages lo hi i x l m s h in
      (r, q, repaged (update pages i x) back lo hi r.1 e y)

  -- The loads through slot 3.
  pub window_read :
      (pages : Cells)
      → Runs
          (At v pages 0x800 0x900)
          (each 128 0 (λ j. load_word bus (u16 (0x6800 + (j + j))) >>= λ w. pure tt))
          (λ _. At v pages 0x800 0x900)
  window_read pages =
      let P = At v pages 0x800 0x900 in
      Runs-each P 128 0 _ (λ j m n.
        Runs-bind P (λ _. P) (λ _. P) (load_word bus (u16 (0x6800 + (j + j)))) (λ w. pure tt)
          (load_word-At bus v sound pages 0x800 0x900 (omega arith) (u16 (0x6800 + (j + j))))
          (λ w t h. ((tt, t), refl, h)))

  module _ (patience : ℕ) (answers : Answers bus patience) where
    -- A transfer to slot 6 and the store that gives the slot its page back.
    pub transfer_moved :
        (page : ℕ) (k : M S ℕ)
        → page ≢ 7
        → Runs (At v identity 0x800 0x900) k (IsClean v)
        → Runs
            (At v (update identity 6 page) 0x800 0x900)
            (transfer bus patience 0xC800 >> (outb bus 0xFE06 6 >> k))
            (IsClean v)
    transfer_moved page k d h =
        let P = At v identity 0x800 0x900 in
        let moved = update identity 6 page in
        let Q = At v moved 0x800 0x900 in
        let slot_six =
          slot_Clear moved 6 0xC800 0xC900 (omega arith) d (omega arith) (omega arith) in
        Runs-bind Q (λ _. Q) (IsClean v) (transfer bus patience 0xC800) _
          (transfer-At bus v sound moved 0x800 0x900 (omega arith) patience answers 0xC800 slot_six)
          λ _.
            Runs-bind Q (λ _. P) (IsClean v) (outb bus 0xFE06 6) (λ _. k)
              (restore-At moved identity 0x800 0x900 6 6 (omega arith) (omega arith)
                (λ j l. ground arith))
              (λ _. h)

    -- The same with the store that moves the slot.
    pub moved-At :
        (page : ℕ) (k : M S ℕ)
        → page < 256
        → page ≢ 7
        → Runs (At v identity 0x800 0x900) k (IsClean v)
        → Runs
            (At v identity 0x800 0x900)
            (outb bus 0xFE06 page >> (transfer bus patience 0xC800 >> (outb bus 0xFE06 6 >> k)))
            (IsClean v)
    moved-At page k l d h =
        Runs-bind (At v identity 0x800 0x900) (λ _. At v (update identity 6 page) 0x800 0x900)
          (IsClean v) (outb bus 0xFE06 page) _
          (remap-At bus v sound identity 0x800 0x900 6 page (omega arith) l)
          (λ _. transfer_moved page k d h)
