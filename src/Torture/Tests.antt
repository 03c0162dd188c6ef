-- ===== src/Torture/Tests.antt =====
-- chunk/dat_torture.c: the tests with transfers from the drive.
use pico_thing_main.Base.{ℕ, ◌+◌, ◌*◌, ◌%◌, ◌&&◌, true, false, ltb, leb, ◌==◌, if◌then◌else◌, u16}
use pico_thing_main.Torture.Bus.{GuestBus}
use pico_thing_main.Torture.{
  M, ◌>>=◌, ◌>>◌, pure, each, tally, dat_regs, ide_data, inb, outb, load_word, store_word,
  fill_sentinel, check_sentinel, ide_drain, read_slots, count_changed, ide_start_identify, transfer,
}

-- The register that selects the task.
abbrev pub dat_task : ℕ
dat_task = 0xFFC0

-- `pages[pass]` of test 14, and `safe_pages[k]` of test 16.
unfoldable pub page_of : ℕ → ℕ
page_of pass =
    if pass == 0
    then 0x03
    else if pass == 1
    then 0x04
    else if pass == 2
    then 0x05
    else if pass == 3
    then 0x08
    else if pass == 4
    then 0x10
    else 0x20

unfoldable pub safe_page : ℕ → ℕ
safe_page k =
    if k == 0
    then 0x03
    else if k == 1
    then 0x08
    else if k == 2
    then 0x09
    else if k == 3
    then 0x0A
    else if k == 4
    then 0x0B
    else if k == 5
    then 0x0C
    else if k == 6
    then 0x10
    else 0x20

-- `bases[slot]`
abbrev pub base : ℕ → ℕ
base slot = slot * 0x2000 + 0x0800

module _ {S : Type 0} (bus : GuestBus S) where
  -- The pages of a task in test 16.
  unfoldable pub set_task : ℕ → M S (Unit {0})
  unfolding outb each
  set_task task = do
    each 6 0 (λ j. outb bus (dat_regs + task * 8 + j) j)
    outb bus (dat_regs + task * 8 + 6) (8 + task)
    outb bus (dat_regs + task * 8 + 7) 7

module _ {S : Type 0} (bus : GuestBus S) (patience : ℕ) where
  unfoldable pub test2_ide_c_loop : M S ℕ
  unfolding tally each fill_sentinel check_sentinel ide_start_identify ide_drain load_word
      store_word
  test2_ide_c_loop =
      tally 20 0
        (λ pass. do
          fill_sentinel bus 0xE800 256
          ide_start_identify bus patience
          each 128 0 (λ i. load_word bus ide_data >>= store_word bus (u16 (0xC800 + (i + i))))
          ide_drain bus 128
          check_sentinel bus 0xE800 256 (ltb pass 3))
        0

  unfoldable pub test3_asm_rd256 : M S ℕ
  unfolding tally fill_sentinel check_sentinel transfer
  test3_asm_rd256 =
      tally 20 0
        (λ pass. do
          fill_sentinel bus 0xE800 256
          transfer bus patience 0xC800
          check_sentinel bus 0xE800 256 (ltb pass 3))
        0

  unfoldable pub test4_all_slots : M S ℕ
  unfolding tally fill_sentinel check_sentinel transfer
  test4_all_slots =
      tally 7 0
        (λ slot. if leb 0x0130 (base slot) && ltb (base slot) 0x4000 then pure 0 else do
          fill_sentinel bus 0xE800 256
          transfer bus patience (base slot)
          check_sentinel bus 0xE800 256 true)
        0

  -- A round of test 6, with what slot 6 held.
  unfoldable pub remapped_pass : ℕ → ℕ → M S ℕ
  unfolding fill_sentinel check_sentinel transfer store_word load_word outb
  remapped_pass saved pass = do
    fill_sentinel bus 0xE800 256
    each 128 0 (λ i. store_word bus (u16 (0x6800 + (i + i))) 0)
    outb bus (dat_regs + 6) 0x03
    transfer bus patience 0xC800
    outb bus (dat_regs + 6) saved
    errors ← check_sentinel bus 0xE800 256 (ltb pass 3)
    each 128 0 (λ i. load_word bus (u16 (0x6800 + (i + i))) >>= λ w. pure tt)
    pure errors

  unfoldable pub test6_nonidentity : M S ℕ
  unfolding tally remapped_pass inb
  test6_nonidentity = do saved ← inb bus (dat_regs + 6); tally 20 0 (remapped_pass saved) 0

  unfoldable pub test7_boot_sim : M S ℕ
  unfolding each fill_sentinel check_sentinel transfer inb outb
  test7_boot_sim = do
    saved4 ← inb bus (dat_regs + 4)
    saved5 ← inb bus (dat_regs + 5)
    saved6 ← inb bus (dat_regs + 6)
    fill_sentinel bus 0xE000 0x0E00
    outb bus (dat_regs + 4) 0x08
    outb bus (dat_regs + 5) 0x09
    outb bus (dat_regs + 6) 0x0A
    each 88 0 (λ sector. transfer bus patience (u16 (0x8000 + sector * 0x100)))
    outb bus (dat_regs + 4) saved4
    outb bus (dat_regs + 5) saved5
    outb bus (dat_regs + 6) saved6
    errors₀ ← check_sentinel bus 0xE000 0x0800 true
    errors₁ ← check_sentinel bus 0xE800 0x0200 true
    errors₂ ← check_sentinel bus 0xEA00 0x0400 true
    pure (u16 (u16 (errors₀ + errors₁) + errors₂))

  unfoldable pub test8_dat_integrity : M S ℕ
  unfolding tally transfer read_slots count_changed
  test8_dat_integrity =
      tally 100 0
        (λ pass. do
          before ← read_slots bus 8 0
          transfer bus patience 0xC800
          count_changed bus before 0 0)
        0

  unfoldable pub test9_offset_sweep : M S ℕ
  unfolding tally fill_sentinel check_sentinel transfer
  test9_offset_sweep =
      tally 32 0
        (λ k. if leb 0xEF00 (0xE000 + k * 0x0100) then pure 0 else do
          fill_sentinel bus (0xE000 + k * 0x0100) 256
          transfer bus patience (0xC000 + k * 0x0100)
          check_sentinel bus (0xE000 + k * 0x0100) 256 false)
        0

  -- A round of test 14, with what slot 6 held. The window on the page is slot 3.
  unfoldable pub restructured_pass : ℕ → ℕ → M S ℕ
  unfolding each inb outb load_word fill_sentinel check_sentinel transfer page_of
  restructured_pass saved pass = do
    fill_sentinel bus 0xE800 256
    outb bus (dat_regs + 6) (page_of pass)
    transfer bus patience 0xC800
    outb bus (dat_regs + 6) saved
    errors ← check_sentinel bus 0xE800 256 true
    saved3 ← inb bus (dat_regs + 3)
    outb bus (dat_regs + 3) (page_of pass)
    each 128 0 (λ j. load_word bus (u16 (0x6800 + (j + j))) >>= λ w. pure tt)
    outb bus (dat_regs + 3) saved3
    pure errors

  unfoldable pub test14_page_restructure : M S ℕ
  unfolding tally inb restructured_pass
  test14_page_restructure = do saved ← inb bus (dat_regs + 6); tally 6 0 (restructured_pass saved) 0

  unfoldable pub churned_pass : ℕ → ℕ → M S ℕ
  unfolding outb fill_sentinel check_sentinel transfer safe_page
  churned_pass saved pass = do
    fill_sentinel bus 0xE800 256
    outb bus (dat_regs + 6) (safe_page (pass % 8))
    outb bus dat_task (pass % 7 + 1)
    outb bus dat_task (pass % 3 + 1)
    outb bus dat_task 0
    transfer bus patience 0xC800
    outb bus (dat_regs + 6) saved
    check_sentinel bus 0xE800 256 false

  unfoldable pub test16_stress : M S ℕ
  unfolding tally each inb set_task churned_pass
  test16_stress = do
    saved ← inb bus (dat_regs + 6)
    each 7 1 (set_task bus)
    tally 1000 0 (churned_pass saved) 0
