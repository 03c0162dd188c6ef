-- ===== src/Torture/Sound.antt =====
-- The tests find nothing on a bus with a sound translation.
use pico_thing_main.Base.{
  ℕ, ◌+◌, ◌*◌, ◌≤◌, ◌<◌, ◌≡◌, refl, sym, subst, Bool, true, false, ◌&&◌, some, ltb, leb, arith,
  if_elim, u16, Cells,
}
use pico_thing_main.Torture.Bus.{GuestBus}
use pico_thing_main.Torture.{
  M, ◌>>=◌, ◌>>◌, each, load_word, store_word, ide_start_identify, ide_drain, fill_sentinel,
  check_sentinel, asm_rd256_from_ram, transfer, test1_pure_write, test5_ram_source,
}
use pico_thing_main.Torture.Tests.{
  test2_ide_c_loop, base, test3_asm_rd256, test4_all_slots, test9_offset_sweep,
}
use pico_thing_main.Torture.Steps.{Runs, Runs-bind, Runs-each, Runs-tally, View, IsSound, At}
use pico_thing_main.Torture.Blocks.{Clear, slot_Clear, Answers, fill_sentinel-At, check_sentinel-At}
use pico_thing_main.Torture.Transfers.{
  load_word-At, store_word-At, store_words-At, ide_drain-At, ide_start_identify-At,
  asm_rd256_from_ram-At, transfer-At,
}

-- Each slot shows the page of its number, and nothing is known of the memory.
abbrev pub identity : Cells
identity i = i

abbrev pub IsHome : {S : Type 0} → View S → S → Type 0
IsHome v = At v identity 0 0

-- No errors, and a translation as before.
abbrev pub IsClean : {S : Type 0} → View S → ℕ → S → Type 0
IsClean v errors s = (errors ≡ 0) × IsHome v s

module _ {S : Type 0} (v : View S) where
  pub forget : (pages : Cells) (lo hi : ℕ) (s : S) → At v pages lo hi s → At v pages 0 0 s
  forget pages lo hi s h = record {
    maps = h.maps;
    in_task = h.in_task;
    guarded = λ a l m. absurd (omega (arith, m));
  }

  -- A step whose argument is known.
  pub Runs-known :
      {B : Type 0} (P : S → Type 0) (R : B → S → Type 0) (f : ℕ → M S B) (k a : ℕ)
      → Runs P (f k) R
      → Runs (λ s. (a ≡ k) × P s) (f a) R
  Runs-known {B} P R f k a h s (e, p) =
      subst (λ n. (r : B × S) × (f n s ≡ some r) × R r.0 r.1) (sym e) (h s p)

module _ {S : Type 0} (bus : GuestBus S) (v : View S) (sound : IsSound bus v) where
  -- The sentinels are written, and what follows keeps them and checks them.
  marked_round :
      (off n : ℕ) (m : M S ℕ)
      → off + n ≤ 0x1E00
      → Runs (At v identity off (off + n)) m (IsClean v)
      → Runs (IsHome v) (fill_sentinel bus (0xE000 + off) n >> m) (IsClean v)
  marked_round off n m l h =
      Runs-bind (IsHome v) (λ _. At v identity off (off + n)) (IsClean v)
        (fill_sentinel bus (0xE000 + off) n) _
        (fill_sentinel-At bus v sound identity 0 0 off n refl l) (λ _. h)

  -- What keeps the sentinels is followed by their check.
  checked :
      (off n : ℕ) (m : M S (Unit {0})) (verbose : Bool)
      → off + n ≤ 0x1E00
      → Runs (At v identity off (off + n)) m (λ _. At v identity off (off + n))
      → Runs
          (At v identity off (off + n))
          (m >> check_sentinel bus (0xE000 + off) n verbose)
          (IsClean v)
  checked off n m verbose l h =
      let P = At v identity off (off + n) in
      Runs-bind P (λ _. P) (IsClean v) m _ h
        (λ _ s q.
          let (r, e, x) =
            check_sentinel-At bus v sound identity off (off + n) off n verbose refl (omega arith)
              (omega arith) l s q in
          (r, e, (x.0, forget v identity off (off + n) r.1 x.1)))

  -- What is stored between the sentinels and their check does not reach page 7.
  sentinel_round :
      (off n : ℕ) (m : M S (Unit {0})) (verbose : Bool)
      → off + n ≤ 0x1E00
      → Runs (At v identity off (off + n)) m (λ _. At v identity off (off + n))
      → Runs
          (IsHome v)
          (fill_sentinel bus (0xE000 + off) n >> (m >> check_sentinel bus (0xE000 + off) n verbose))
          (IsClean v)
  sentinel_round off n m verbose l h = marked_round off n _ l (checked off n m verbose l h)

  pub slot_six : Clear identity 0xC800 0xC900
  slot_six =
      slot_Clear identity 6 0xC800 0xC900 (omega arith) (λ e. absurd (omega (arith, e)))
        (omega arith) (omega arith)

  pub test1-IsClean : Runs (IsHome v) (test1_pure_write bus) (IsClean v)
  unfolding test1_pure_write
  test1-IsClean = Runs-tally (IsHome v) 20 0 _ (λ pass l u.
      sentinel_round 0x800 256
        (each 128 0 (λ i. store_word bus (u16 (0xC800 + (i + i))) (u16 (i + pass * 128))))
        (ltb pass 3) (omega arith)
        (Runs-each (At v identity 0x800 0x900) 128 0 _ (λ i m n.
          store_word-At bus v sound identity 0x800 0x900 (omega arith) 0xC800 0xC900
            (u16 (0xC800 + (i + i))) (u16 (i + pass * 128)) slot_six (omega (arith, n))
            (omega (arith, n)))))

  pub test5-IsClean : Runs (IsHome v) (test5_ram_source bus) (IsClean v)
  unfolding test5_ram_source
  test5-IsClean =
      Runs-bind (IsHome v) (λ _. IsHome v) (IsClean v) (fill_sentinel bus 0xE000 256) _
        (λ s h.
          let (r, e, x) = fill_sentinel-At bus v sound identity 0 0 0 256 refl (omega arith) s h in
          (r, e, forget v identity 0 256 r.1 x))
        (λ _. Runs-tally (IsHome v) 20 0 _ (λ pass l u.
          sentinel_round 0x800 256 (asm_rd256_from_ram bus 0xE000 0xC800) (ltb pass 3) (omega arith)
            (asm_rd256_from_ram-At bus v sound identity 0x800 0x900 (omega arith) 0xE000 0xC800
              slot_six)))

  module _ (patience : ℕ) (answers : Answers bus patience) where
    transfer_round :
        (off target : ℕ) (verbose : Bool)
        → off + 256 ≤ 0x1E00
        → Clear identity target (target + 256)
        → Runs
            (IsHome v)
            (fill_sentinel bus (0xE000 + off) 256
              >> (transfer bus patience target >> check_sentinel bus (0xE000 + off) 256 verbose))
            (IsClean v)
    transfer_round off target verbose l c =
        sentinel_round off 256 (transfer bus patience target) verbose l (
          transfer-At bus v sound identity off (off + 256) (omega (arith, l)) patience answers
            target c)

    pub test3-IsClean : Runs (IsHome v) (test3_asm_rd256 bus patience) (IsClean v)
    unfolding test3_asm_rd256
    test3-IsClean =
        Runs-tally (IsHome v) 20 0 _
          (λ pass l u. transfer_round 0x800 0xC800 (ltb pass 3) (omega arith) slot_six)

    pub test2-IsClean : Runs (IsHome v) (test2_ide_c_loop bus patience) (IsClean v)
    unfolding test2_ide_c_loop
    test2-IsClean =
        let P = At v identity 0x800 0x900 in
        let word = λ (i : ℕ). load_word bus 0xFF00 in
        Runs-tally (IsHome v) 20 0 _ (λ pass l u. marked_round 0x800 256 _ (omega arith) (
          Runs-bind P (λ _. P) (IsClean v) (ide_start_identify bus patience) _
            (ide_start_identify-At bus v sound identity 0x800 0x900 (omega arith) patience answers)
            (λ _.
              Runs-bind P (λ _. P) (IsClean v)
                (each 128 0 (λ i. word i >>= store_word bus (u16 (0xC800 + (i + i))))) _
                (store_words-At bus v sound identity 0x800 0x900 (omega arith) 0xC800 word slot_six
                  (λ i. load_word-At bus v sound identity 0x800 0x900 (omega arith) 0xFF00))
                (λ _.
                  checked 0x800 256 (ide_drain bus 128) (ltb pass 3) (omega arith)
                    (ide_drain-At bus v sound identity 0x800 0x900 (omega arith) 128)))))

    pub test4-IsClean : Runs (IsHome v) (test4_all_slots bus patience) (IsClean v)
    unfolding test4_all_slots
    test4-IsClean = Runs-tally (IsHome v) 7 0 _ (λ slot l u.
        if_elim (λ m. Runs (IsHome v) m (IsClean v))
          (leb 0x0130 (base slot) && ltb (base slot) 0x4000) (λ _ s h. ((0, s), refl, (refl, h)))
          (λ _. transfer_round 0x800 (base slot) true (omega arith) (
            slot_Clear identity slot (base slot) (base slot + 256) (omega (arith, u))
              (λ e. absurd (omega (arith, e, u))) (omega arith) (omega arith))))

    pub test9-IsClean : Runs (IsHome v) (test9_offset_sweep bus patience) (IsClean v)
    unfolding test9_offset_sweep
    test9-IsClean = Runs-tally (IsHome v) 32 0 _ (λ k l u.
        if_elim (λ m. Runs (IsHome v) m (IsClean v)) (leb 0xEF00 (0xE000 + k * 0x0100))
          (λ _ s h. ((0, s), refl, (refl, h)))
          (λ q.
            let low : k * 0x0100 < 0x0F00 = ground (arith, q) in
            transfer_round (k * 0x0100) (0xC000 + k * 0x0100) false (omega (arith, low)) (
              slot_Clear identity 6 (0xC000 + k * 0x0100) (0xC000 + k * 0x0100 + 256) (omega arith)
                (λ e. absurd (omega (arith, e))) (omega arith) (omega (arith, low)))))
