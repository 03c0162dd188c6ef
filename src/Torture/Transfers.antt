-- ===== src/Torture/Transfers.antt =====
-- The transfers of sectors, on a bus with a sound translation.
use pico_thing_main.Base.{
  ℕ, zero, suc, ◌+◌, ◌≤◌, ◌<◌, ◌≡◌, refl, ap, ◌∙◌, Bool, Option, none, some, arith, elim_elim, u16,
  Cells, hi_byte, lo_byte, word_of, subst,
}
use pico_thing_main.Torture.Bus.{GuestBus}
use pico_thing_main.Torture.{
  M, ◌>>=◌, ◌>>◌, pure, each, inb, outb, wait_while, ide_status, is_busy, has_no_data, load_word,
  store_word, ide_start_identify, ide_drain, asm_rd256, asm_rd256_from_ram, transfer,
}
use pico_thing_main.Torture.Steps.{
  Runs, Runs-bind, Runs-each, View, Same, IsSound, At, Same-At, inb-At, outb-At,
}
use pico_thing_main.Torture.Blocks.{Clear, Answers}

module _ {S : Type 0} (bus : GuestBus S) (v : View S) (sound : IsSound bus v) where
  wait_while-Same :
      (n : ℕ) (test : ℕ → Bool) (s : S) (r : Unit {0} × S)
      → wait_while bus n test s ≡ some r
      → Same v s r.1
  unfolding wait_while
  wait_while-Same zero test s r e = cc
  wait_while-Same (suc n) test s r e =
      let t = (bus.load ide_status s).1 in
      let (c, f, k) = sound.load_same ide_status s in
      let after : Option (Unit {0} × S) → S = λ o. elim o [ none ↦ t | some x ↦ x.1 ] in
      elim_elim (λ (o : Option (Unit {0} × S)). o ≡ some r → Same v s r.1)
        (test (bus.load ide_status s).0)
        (λ _ q.
          let (c', f', k') = wait_while-Same n test t r q in
          (λ j. c' j ∙ c j, λ j. f' j ∙ f j, k' ∙ k))
        (λ _ q. subst (Same v s) (ap after q) (c, f, k)) e

  module _ (pages : Cells) (lo hi : ℕ) (top : hi ≤ 8192) where
    abbrev Here : S → Type 0
    Here = At v pages lo hi

    pub load_word-At : (a : ℕ) → Runs Here (load_word bus a) (λ _. Here)
    unfolding load_word
    load_word-At a =
        Runs-bind Here (λ _. Here) (λ _. Here) (inb bus a) _ (inb-At bus v sound pages lo hi a)
          (λ x.
            Runs-bind Here (λ _. Here) (λ _. Here) (inb bus (u16 (a + 1))) (λ y. pure (word_of x y))
              (inb-At bus v sound pages lo hi (u16 (a + 1))) (λ y s h. ((word_of x y, s), refl, h)))

    pub store_word-At :
        (from to a w : ℕ)
        → Clear pages from to
        → from ≤ a
        → a + 1 < to
        → Runs Here (store_word bus a w) (λ _. Here)
    unfolding store_word
    store_word-At from to a w c l m =
        let (p, d) = c a l (omega (arith, m)) in
        let same : u16 (a + 1) ≡ a + 1 = omega (arith, (c (a + 1) (omega (arith, l)) m).0) in
        let (q, e) = c (u16 (a + 1)) (omega (arith, l, same)) (omega (arith, m, same)) in
        Runs-bind Here (λ _. Here) (λ _. Here) (outb bus a (hi_byte w)) _
          (outb-At bus v sound pages lo hi a (hi_byte w) top p d)
          (λ _. outb-At bus v sound pages lo hi (u16 (a + 1)) (lo_byte w) top q e)

    -- A loop that stores words, wherever they come from.
    pub store_words-At :
        (target : ℕ) (word : ℕ → M S ℕ)
        → Clear pages target (target + 256)
        → ((i : ℕ) → Runs Here (word i) (λ _. Here))
        → Runs Here
            (each 128 0 (λ i. word i >>= store_word bus (u16 (target + (i + i)))))
            (λ _. Here)
    store_words-At target word c h = Runs-each Here 128 0 _ (λ i l m.
        let low : target + (i + i) < 0xFE00 =
          (c (target + (i + i)) (omega arith) (omega (arith, m))).0 in
        Runs-bind Here (λ _. Here) (λ _. Here) (word i) _ (h i)
          (λ w.
            store_word-At target (target + 256) (u16 (target + (i + i))) w c (omega (arith, low))
              (omega (arith, low, m))))

    pub asm_rd256-At :
        (target : ℕ)
        → Clear pages target (target + 256)
        → Runs Here (asm_rd256 bus target) (λ _. Here)
    unfolding asm_rd256
    asm_rd256-At target c =
        store_words-At target (λ i. load_word bus 0xFF00) c (λ i. load_word-At 0xFF00)

    pub asm_rd256_from_ram-At :
        (source target : ℕ)
        → Clear pages target (target + 256)
        → Runs Here (asm_rd256_from_ram bus source target) (λ _. Here)
    unfolding asm_rd256_from_ram
    asm_rd256_from_ram-At source target c =
        store_words-At target (λ i. load_word bus (u16 (source + (i + i)))) c (λ i. load_word-At _)

    pub ide_drain-At : (n : ℕ) → Runs Here (ide_drain bus n) (λ _. Here)
    unfolding ide_drain
    ide_drain-At n = Runs-each Here n 0 _ (λ i l m.
        Runs-bind Here (λ _. Here) (λ _. Here) (load_word bus 0xFF00) _ (load_word-At 0xFF00)
          (λ w s h. ((tt, s), refl, h)))

    module _ (patience : ℕ) (answers : Answers bus patience) where
      -- A store to the drive and the wait behind it.
      ask-At :
          (a x : ℕ) (test : ℕ → Bool)
          → 0xFF00 ≤ a
          → a < 0xFF10
          → ((s : S)
              → (r : Unit {0} × S) × (wait_while bus patience test (bus.store a x s) ≡ some r))
          → Runs Here (outb bus a x >> wait_while bus patience test) (λ _. Here)
      unfolding outb
      ask-At a x test l m f s h =
          let t = bus.store a x s in
          let (r, e) = f s in
          let stored = Same-At bus v sound pages lo hi s t (sound.store_drive a x s l m) h in
          (r, e, Same-At bus v sound pages lo hi t r.1 (wait_while-Same patience test t r e) stored)

      pub ide_start_identify-At : Runs Here (ide_start_identify bus patience) (λ _. Here)
      unfolding ide_start_identify outb
      ide_start_identify-At =
          Runs-bind Here (λ _. Here) (λ _. Here)
            (outb bus 0xFF07 0xA0 >> wait_while bus patience is_busy)
            (λ _. outb bus 0xFF08 0xEC >> wait_while bus patience has_no_data)
            (ask-At 0xFF07 0xA0 is_busy (omega arith) (omega arith) answers.gets_ready)
            (λ _. ask-At 0xFF08 0xEC has_no_data (omega arith) (omega arith) answers.gets_data)

      pub transfer-At :
          (target : ℕ)
          → Clear pages target (target + 256)
          → Runs Here (transfer bus patience target) (λ _. Here)
      unfolding transfer
      transfer-At target c =
          let P : Unit {0} → S → Type 0 = λ _. Here in
          Runs-bind Here P P (ide_start_identify bus patience) _ ide_start_identify-At (λ _.
            Runs-bind Here P P (asm_rd256 bus target) _ (asm_rd256-At target c)
              (λ _. ide_drain-At 128))
