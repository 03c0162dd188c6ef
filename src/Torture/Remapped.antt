-- ===== src/Torture/Remapped.antt =====
-- The tests that change the translation, and all tests together.
use pico_thing_main.Base.{
  ℕ, ◌+◌, ◌*◌, ◌/◌, ◌≤◌, ◌<◌, ◌≡◌, refl, true, some, ltb, arith, update, u16, Cells,
}
use pico_thing_main.Torture.Bus.{GuestBus}
use pico_thing_main.Torture.{
  M, ◌>>=◌, ◌>>◌, pure, each, tally, inb, outb, load_word, store_word, fill_sentinel,
  check_sentinel, transfer, test1_pure_write, test5_ram_source,
}
use pico_thing_main.Torture.Tests.{
  test2_ide_c_loop, test3_asm_rd256, test4_all_slots, remapped_pass, test6_nonidentity,
  test7_boot_sim, test8_dat_integrity, test9_offset_sweep, test14_page_restructure, test16_stress,
}
use pico_thing_main.Torture.Steps.{
  Runs, Runs-bind, Runs-each, Runs-tally, View, IsSound, At, remap-At,
}
use pico_thing_main.Torture.Blocks.{slot_Clear, Answers, fill_sentinel-At, check_sentinel-At}
use pico_thing_main.Torture.Transfers.{store_word-At, transfer-At}
use pico_thing_main.Torture.Integrity.{read_entry, test8-IsClean}
use pico_thing_main.Torture.Churned.{test14-IsClean, test16-IsClean}
use pico_thing_main.Torture.Moved.{restore-At, window_read, moved-At}
use pico_thing_main.Torture.Sound.{
  identity, IsHome, IsClean, forget, Runs-known, test1-IsClean, test2-IsClean, test3-IsClean,
  test4-IsClean, test5-IsClean, test9-IsClean,
}

-- A test ends, finds no errors and leaves the translation as it was.
abbrev pub Passes : {S : Type 0} → View S → M S ℕ → S → Type 0
Passes {S} v m s = (r : ℕ × S) × (m s ≡ some r) × IsClean v r.0 r.1

module _ {S : Type 0} (bus : GuestBus S) (v : View S) (sound : IsSound bus v) where
  module _ (patience : ℕ) (answers : Answers bus patience) where
    remapped_pass-IsClean :
        (pass : ℕ) → Runs (IsHome v) (remapped_pass bus patience 6 pass) (IsClean v)
    unfolding remapped_pass
    remapped_pass-IsClean pass =
        let P = At v identity 0x800 0x900 in
        let slot_three =
          slot_Clear identity 3 0x6800 0x6900 (omega arith) (λ e. absurd (omega (arith, e)))
            (omega arith) (omega arith) in
        Runs-bind (IsHome v) (λ _. P) (IsClean v) (fill_sentinel bus 0xE800 256) _
          (fill_sentinel-At bus v sound identity 0 0 0x800 256 refl (omega arith))
          λ _.
            Runs-bind P (λ _. P) (IsClean v)
              (each 128 0 (λ i. store_word bus (u16 (0x6800 + (i + i))) 0)) _
              (Runs-each P 128 0 _ (λ i m n.
                store_word-At bus v sound identity 0x800 0x900 (omega arith) 0x6800 0x6900
                  (u16 (0x6800 + (i + i))) 0 slot_three (omega (arith, n)) (omega (arith, n))))
              λ _. moved-At bus v sound patience answers 3 _ (omega arith) (omega arith) (
                Runs-bind P (λ e s. (e ≡ 0) × P s) (IsClean v)
                  (check_sentinel bus 0xE800 256 (ltb pass 3)) _
                  (check_sentinel-At bus v sound identity 0x800 0x900 0x800 256 (ltb pass 3) refl
                    (omega arith) (omega arith) (omega arith))
                  λ e s x.
                    Runs-bind P (λ _. P) (IsClean v)
                      (each 128 0 (λ i. load_word bus (u16 (0x6800 + (i + i))) >>= λ w. pure tt))
                      (λ _. pure e) (window_read bus v sound identity)
                      (λ _ t h. ((e, t), refl, (x.0, forget v identity 0x800 0x900 t h))) s x.1)

    test6-IsClean : Runs (IsHome v) (test6_nonidentity bus patience) (IsClean v)
    unfolding test6_nonidentity
    test6-IsClean =
        Runs-bind (IsHome v) (λ x s. (x ≡ 6) × IsHome v s) (IsClean v) (inb bus 0xFE06) _
          (read_entry bus v sound identity 0 0 6 (omega arith))
          (λ x.
            Runs-known v (IsHome v) (IsClean v) (λ k. tally 20 0 (remapped_pass bus patience k) 0) 6
              x (Runs-tally (IsHome v) 20 0 _ (λ pass l u. remapped_pass-IsClean pass)))

    abbrev boot_pages : Cells
    boot_pages = update (update (update identity 4 8) 5 9) 6 10

    -- The part of test 7 from the sentinels on, with what the slots held.
    boot_sectors :
        Runs
          (At v boot_pages 0 0xE00)
          (each 88 0 (λ sector. transfer bus patience (u16 (0x8000 + sector * 0x100))))
          (λ _. At v boot_pages 0 0xE00)
    boot_sectors = Runs-each (At v boot_pages 0 0xE00) 88 0 _ (λ sector l u.
        let a = u16 (0x8000 + sector * 0x100) in
        transfer-At bus v sound boot_pages 0 0xE00 (omega arith) patience answers a (λ c m n.
          let low : 4 ≤ c / 8192 = omega (arith, m, u) in
          let high : c / 8192 ≤ 6 = omega (arith, n, u) in
          (omega (arith, n, u), λ e. absurd (ground (arith, low, high, e)))))

    boot_checks :
        Runs
          (At v identity 0 0xE00)
          (check_sentinel bus 0xE000 0x800 true >>= λ e₀.
            check_sentinel bus 0xE800 0x200 true >>= λ e₁.
            check_sentinel bus 0xEA00 0x400 true >>= λ e₂. pure (u16 (u16 (e₀ + e₁) + e₂)))
          (IsClean v)
    boot_checks =
        let P = At v identity 0 0xE00 in
        let Q : ℕ → S → Type 0 = λ e s. (e ≡ 0) × P s in
        let check = λ (off n : ℕ) (l : off + n ≤ 0xE00).
          check_sentinel-At bus v sound identity 0 0xE00 off n true refl (omega arith) l
            (omega arith) in
        Runs-bind P Q (IsClean v) (check_sentinel bus 0xE000 0x800 true) _
          (check 0 0x800 (omega arith))
          λ e₀ s x.
            Runs-bind P Q (IsClean v) (check_sentinel bus 0xE800 0x200 true) _
              (check 0x800 0x200 (omega arith))
              (λ e₁ t y.
                Runs-bind P Q (IsClean v) (check_sentinel bus 0xEA00 0x400 true) _
                  (check 0xA00 0x400 (omega arith))
                  (λ e₂ w z. (
                    (u16 (u16 (e₀ + e₁) + e₂), w),
                    refl,
                    (omega (arith, x.0, y.0, z.0), forget v identity 0 0xE00 w z.1),
                  ))
                  t y.1)
              s x.1

    -- Test 7 behind the loads of what the slots held.
    abbrev boot_rest : ℕ → ℕ → ℕ → M S ℕ
    boot_rest a b c = do
      fill_sentinel bus 0xE000 0x0E00
      outb bus 0xFE04 0x08
      outb bus 0xFE05 0x09
      outb bus 0xFE06 0x0A
      each 88 0 (λ sector. transfer bus patience (u16 (0x8000 + sector * 0x100)))
      outb bus 0xFE04 a
      outb bus 0xFE05 b
      outb bus 0xFE06 c
      e₀ ← check_sentinel bus 0xE000 0x0800 true
      e₁ ← check_sentinel bus 0xE800 0x0200 true
      e₂ ← check_sentinel bus 0xEA00 0x0400 true
      pure (u16 (u16 (e₀ + e₁) + e₂))

    boot_rest-IsClean : Runs (IsHome v) (boot_rest 4 5 6) (IsClean v)
    boot_rest-IsClean =
        let at : Cells → Unit {0} → S → Type 0 = λ pages _. At v pages 0 0xE00 in
        let p₁ = update identity 4 8 in
        let p₂ = update p₁ 5 9 in
        let q₁ = update boot_pages 4 4 in
        let q₂ = update q₁ 5 5 in
        let remap = λ (pages : Cells) (i x : ℕ) (l : i < 8) (m : x < 256).
          remap-At bus v sound pages 0 0xE00 i x l m in
        Runs-bind (IsHome v) (at identity) (IsClean v) (fill_sentinel bus 0xE000 0xE00) _
          (fill_sentinel-At bus v sound identity 0 0 0 0xE00 refl (omega arith))
          λ _.
            Runs-bind (at identity tt) (at p₁) (IsClean v) (outb bus 0xFE04 8) _
              (remap identity 4 8 (omega arith) (omega arith))
              λ _.
                Runs-bind (at p₁ tt) (at p₂) (IsClean v) (outb bus 0xFE05 9) _
                  (remap p₁ 5 9 (omega arith) (omega arith))
                  λ _.
                    Runs-bind (at p₂ tt) (at boot_pages) (IsClean v) (outb bus 0xFE06 10) _
                      (remap p₂ 6 10 (omega arith) (omega arith))
                      λ _.
                        Runs-bind (at boot_pages tt) (at boot_pages) (IsClean v)
                          (each 88 0
                            (λ sector. transfer bus patience (u16 (0x8000 + sector * 0x100))))
                          _ boot_sectors
                          λ _.
                            Runs-bind (at boot_pages tt) (at q₁) (IsClean v) (outb bus 0xFE04 4) _
                              (remap boot_pages 4 4 (omega arith) (omega arith))
                              λ _.
                                Runs-bind (at q₁ tt) (at q₂) (IsClean v) (outb bus 0xFE05 5) _
                                  (remap q₁ 5 5 (omega arith) (omega arith))
                                  λ _.
                                    Runs-bind (at q₂ tt) (at identity) (IsClean v)
                                      (outb bus 0xFE06 6) _
                                      (restore-At bus v sound q₂ identity 0 0xE00 6 6 (omega arith)
                                        (omega arith) (λ j l. ground arith))
                                      λ _. boot_checks

    test7-IsClean : Runs (IsHome v) (test7_boot_sim bus patience) (IsClean v)
    unfolding test7_boot_sim
    test7-IsClean =
        let P = IsHome v in
        let read = λ (i : ℕ) (l : i < 8). read_entry bus v sound identity 0 0 i l in
        Runs-bind P (λ x s. (x ≡ 4) × P s) (IsClean v) (inb bus 0xFE04) _ (read 4 (omega arith))
          λ a.
            Runs-known v P (IsClean v)
              (λ k. inb bus 0xFE05 >>= λ b. inb bus 0xFE06 >>= λ c. boot_rest k b c) 4 a
              (Runs-bind P (λ x s. (x ≡ 5) × P s) (IsClean v) (inb bus 0xFE05) _
                (read 5 (omega arith))
                λ b.
                  Runs-known v P (IsClean v) (λ k. inb bus 0xFE06 >>= λ c. boot_rest 4 k c) 5 b
                    (Runs-bind P (λ x s. (x ≡ 6) × P s) (IsClean v) (inb bus 0xFE06) _
                      (read 6 (omega arith))
                      λ c. Runs-known v P (IsClean v) (boot_rest 4 5) 6 c boot_rest-IsClean))

    -- On a bus whose translation is sound, where the drive always answers within its polls: from a state
    -- in which task 0 is selected and its slots show the pages of their numbers, whatever the memory
    -- holds and whatever the drive delivers, each of the tests 1 to 9, 14 and 16 ends, finds no errors, and
    -- leaves task 0 selected and its slots as they were.
    pub tests-IsClean :
        (s : S)
        → IsHome v s
        → Passes v (test1_pure_write bus) s
          × Passes v (test2_ide_c_loop bus patience) s
          × Passes v (test3_asm_rd256 bus patience) s
          × Passes v (test4_all_slots bus patience) s
          × Passes v (test5_ram_source bus) s
          × Passes v (test6_nonidentity bus patience) s
          × Passes v (test7_boot_sim bus patience) s
          × Passes v (test8_dat_integrity bus patience) s
          × Passes v (test9_offset_sweep bus patience) s
          × Passes v (test14_page_restructure bus patience) s
          × Passes v (test16_stress bus patience) s
    tests-IsClean s h = (
      test1-IsClean bus v sound s h,
      test2-IsClean bus v sound patience answers s h,
      test3-IsClean bus v sound patience answers s h,
      test4-IsClean bus v sound patience answers s h,
      test5-IsClean bus v sound s h,
      test6-IsClean s h,
      test7-IsClean s h,
      test8-IsClean bus v sound patience answers s h,
      test9-IsClean bus v sound patience answers s h,
      test14-IsClean bus v sound patience answers s h,
      test16-IsClean bus v sound patience answers s h,
    )
