-- ===== src/Examples/Pages.antt =====
-- The DAT tests on a bus that does as it should.
use pico_thing_main.Base.{
  ℕ, ◌+◌, ◌-◌, ◌*◌, ◌/◌, ◌%◌, ◌≤◌, ◌<◌, ◌≡◌, refl, ap, sym, subst, ◌∙◌, Bool, true, false, some,
  arith, ltb, ◌==◌, if◌then◌else◌, update, Cells,
}
use pico_thing_main.Torture.Bus.{GuestBus}
use pico_thing_main.Torture.{test1_pure_write, test5_ram_source, wait_while, is_busy, has_no_data}
use pico_thing_main.Torture.Tests.{
  test2_ide_c_loop, test3_asm_rd256, test4_all_slots, test6_nonidentity, test7_boot_sim,
  test8_dat_integrity, test9_offset_sweep, test14_page_restructure, test16_stress,
}
use pico_thing_main.Torture.Steps.{View, place, Same, IsSound}
use pico_thing_main.Torture.Blocks.{Answers}
use pico_thing_main.Torture.Sound.{IsHome}
use pico_thing_main.Torture.Counted.{reaches, Leaks}
use pico_thing_main.Torture.Leak.{leak_found}
use pico_thing_main.Torture.Remapped.{Passes, tests-IsClean}

record Pages : Type 0 where
  bytes : Cells
  slots : Cells
  selected : ℕ

abbrev view : View Pages
view = record { cells = λ s. s.bytes; entry = λ s. s.slots; task = λ s. s.selected }

-- A drive that always has data, all zeroes.
abbrev read : ℕ → Pages → ℕ
read a s =
    if ltb a 0xFE00
    then s.bytes (s.slots (s.selected * 8 + a / 8192) * 8192 + a % 8192)
    else if ltb a 0xFE40
    then s.slots (a - 0xFE00)
    else if a == 0xFF08
    then 8
    else 0

abbrev written : ℕ → ℕ → Pages → Pages
written a x s =
    if ltb a 0xFE00
    then record s {
      bytes = update s.bytes (s.slots (s.selected * 8 + a / 8192) * 8192 + a % 8192) x;
    }
    else if ltb a 0xFE40
    then record s { slots = update s.slots (a - 0xFE00) x }
    else if a == 0xFFC0
    then record s { selected = x }
    else s

abbrev bus : GuestBus Pages
bus = record { load = λ a s. (read a s, s); store = written }

below : (a b : ℕ) → a < b → ltb a b ≡ true
below a b l = ground (arith, l)

above : (a b : ℕ) → b ≤ a → ltb a b ≡ false
above a b l = ground (arith, l)

abbrev in_memory : ℕ → ℕ → Pages → Pages
in_memory a x s = record s {
  bytes = update s.bytes (s.slots (s.selected * 8 + a / 8192) * 8192 + a % 8192) x;
}

abbrev in_slot : ℕ → ℕ → Pages → Pages
in_slot i x s = record s { slots = update s.slots i x }

abbrev beyond : ℕ → ℕ → Pages → Pages
beyond a x s = if a == 0xFFC0 then record s { selected = x } else s

written_memory : (a x : ℕ) (s : Pages) → a < 0xFE00 → in_memory a x s ≡ written a x s
written_memory a x s l =
    ap
      (λ (b : Bool).
        if b
        then in_memory a x s
        else if ltb a 0xFE40
        then in_slot (a - 0xFE00) x s
        else beyond a x s)
      (sym (below a 0xFE00 l))

written_slot : (i x : ℕ) (s : Pages) → i < 64 → in_slot i x s ≡ written (0xFE00 + i) x s
written_slot i x s l =
    let a = 0xFE00 + i in
    let back : i ≡ a - 0xFE00 = omega arith in
    ap (λ k. in_slot k x s) back
    ∙ ap (λ (b : Bool). if b then in_slot (a - 0xFE00) x s else beyond a x s)
        (sym (below a 0xFE40 (omega (arith, l))))
    ∙ ap
        (λ (b : Bool).
          if b
          then in_memory a x s
          else if ltb a 0xFE40
          then in_slot (a - 0xFE00) x s
          else beyond a x s)
        (sym (above a 0xFE00 (omega arith)))

written_drive : (a x : ℕ) (s : Pages) → 0xFF00 ≤ a → a < 0xFF10 → s ≡ written a x s
written_drive a x s l m =
    let other : a == 0xFFC0 ≡ false = ground (arith, m) in
    ap (λ (b : Bool). if b then record s { selected = x } else s) (sym other)
    ∙ ap (λ (b : Bool). if b then in_slot (a - 0xFE00) x s else beyond a x s)
        (sym (above a 0xFE40 (omega (arith, l))))
    ∙ ap
        (λ (b : Bool).
          if b
          then in_memory a x s
          else if ltb a 0xFE40
          then in_slot (a - 0xFE00) x s
          else beyond a x s)
        (sym (above a 0xFE00 (omega (arith, l))))

read_slot : (i : ℕ) (s : Pages) → i < 64 → read (0xFE00 + i) s ≡ s.slots i
read_slot i s l =
    let a = 0xFE00 + i in
    let back : a - 0xFE00 ≡ i = omega arith in
    let rest : ℕ = if a == 0xFF08 then 8 else 0 in
    let there = s.bytes (s.slots (s.selected * 8 + a / 8192) * 8192 + a % 8192) in
    ap {B = ℕ}
      (λ (b : Bool). if b then there else if ltb a 0xFE40 then s.slots (a - 0xFE00) else rest)
      (above a 0xFE00 (omega arith))
    ∙ ap {B = ℕ} (λ (b : Bool). if b then s.slots (a - 0xFE00) else rest)
        (below a 0xFE40 (omega (arith, l)))
    ∙ ap s.slots back

bus-IsSound : IsSound bus view
bus-IsSound = record {
  load_same = λ a s. (λ j. refl, λ j. refl, refl);
  load_ram = λ a s l.
      ap {B = ℕ}
        (λ (b : Bool).
          if b
          then s.bytes (s.slots (s.selected * 8 + a / 8192) * 8192 + a % 8192)
          else if ltb a 0xFE40
          then s.slots (a - 0xFE00)
          else if a == 0xFF08
          then 8
          else 0)
        (below a 0xFE00 l);
  load_entry = λ i s l. read_slot i s l;
  store_ram = λ a x s l.
      subst
        (λ t.
          ((j : ℕ) → t.bytes j ≡ update s.bytes (place view s a) x j)
          × ((j : ℕ) → t.slots j ≡ s.slots j)
          × (t.selected ≡ s.selected))
        (written_memory a x s l) (λ j. refl, λ j. refl, refl);
  store_entry = λ i x s l m.
      subst
        (λ t.
          ((j : ℕ) → t.bytes j ≡ s.bytes j)
          × ((j : ℕ) → t.slots j ≡ update s.slots i x j)
          × (t.selected ≡ s.selected))
        (written_slot i x s l) (λ j. refl, λ j. refl, refl);
  store_task = λ x s l. (λ j. refl, λ j. refl, refl);
  store_drive =
      λ a x s l u. subst (Same view s) (written_drive a x s l u) (λ j. refl, λ j. refl, refl);
}

bus-Answers : Answers bus 2
unfolding wait_while
bus-Answers = record {
  gets_ready = λ s. ((tt, s), ready s);
  gets_data = λ s. ((tt, s), has_data s);
}
  where
    ready : (s : Pages) → wait_while bus 2 is_busy (written 0xFF07 0xA0 s) ≡ some (tt, s)
    ready s = refl

    has_data : (s : Pages) → wait_while bus 2 has_no_data (written 0xFF08 0xEC s) ≡ some (tt, s)
    has_data s = refl

-- Each slot shows its page, and the bytes are what they are.
abbrev started : Pages
started = record { bytes = λ j. j % 256; slots = λ i. i; selected = 0 }

started-IsHome : IsHome view started
started-IsHome = record {
  maps = λ i l. refl;
  in_task = refl;
  guarded = λ a l m. absurd (omega (arith, m));
}

tests-IsClean_example :
    Passes view (test1_pure_write bus) started
    × Passes view (test2_ide_c_loop bus 2) started
    × Passes view (test3_asm_rd256 bus 2) started
    × Passes view (test4_all_slots bus 2) started
    × Passes view (test5_ram_source bus) started
    × Passes view (test6_nonidentity bus 2) started
    × Passes view (test7_boot_sim bus 2) started
    × Passes view (test8_dat_integrity bus 2) started
    × Passes view (test9_offset_sweep bus 2) started
    × Passes view (test14_page_restructure bus 2) started
    × Passes view (test16_stress bus 2) started
tests-IsClean_example = tests-IsClean bus view bus-IsSound 2 bus-Answers started started-IsHome

-- A memory that leaks.
abbrev leaky : GuestBus Cells
leaky = record { load = λ a s. (s a, s); store = λ a x s j. if reaches a j then x else s j }

leaky-Leaks : Leaks leaky (λ s. s)
leaky-Leaks = record {
  load_seen = λ a s l. refl;
  load_same = λ a s j. refl;
  store_seen = λ a x s j l m. refl;
}

leak_found_example : (r : ℕ × Cells) × (test1_pure_write leaky (λ j. 0) ≡ some r) × (2560 ≤ r.0)
leak_found_example = leak_found leaky (λ s. s) leaky-Leaks (λ j. 0)
