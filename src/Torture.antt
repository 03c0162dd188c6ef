-- ===== src/Torture.antt =====
-- chunk/dat_torture.c: the guest's test of the dynamic address translation (DAT). What the bus does
-- with a load and a store is a parameter. Tests has the tests with transfers from the drive. The tests
-- that run machine code at $E000 or use task 1 (10 to 13 and 15) are left out, and so are the program's
-- own code, variables and stack, and the messages.
pub mod Bus
pub mod Steps
pub mod Blocks
pub mod Transfers
pub mod Tests
pub mod Sound
pub mod Integrity
pub mod Moved
pub mod Churned
pub mod Remapped
pub mod Counted
pub mod Leak
use pico_thing_main.Base.{
  ℕ, zero, suc, ◌+◌, ◌*◌, ◌/◌, ◌%◌, Bool, true, false, not, ◌&&◌, List, [], ◌∷◌, Option, none, some,
  ltb, leb, ◌==◌, if◌then◌else◌, u8, u16, hi_byte, lo_byte, word_of,
}
use pico_thing_main.Torture.Bus.{GuestBus}

-- A step of the guest, on the state of what is behind the bus. `none` is a wait for the drive that has
-- not ended within its rounds.
abbrev pub M : Type 0 → Type 0 → Type 0
M S A = S → Option (A × S)

infixl 5 ◌>>=◌ ◌>>◌
abbrev pub ◌>>=◌ : {S A B : Type 0} → M S A → (A → M S B) → M S B
◌>>=◌ m f s = elim (m s) [ none ↦ none | some (a, s') ↦ f a s' ]

abbrev pub ◌>>◌ : {S B : Type 0} → M S (Unit {0}) → M S B → M S B
m >> k = m >>= λ _. k

abbrev pub pure : {S A : Type 0} → A → M S A
pure a s = some (a, s)

-- `for (i = …; …; i++)`: the rounds left.
unfoldable pub each : {S : Type 0} → ℕ → ℕ → (ℕ → M S (Unit {0})) → M S (Unit {0})
each zero i body = pure tt
each (suc n) i body = do body i; each n (i + 1) body

-- A loop that adds up the errors of its rounds.
unfoldable pub tally : {S : Type 0} → ℕ → ℕ → (ℕ → M S ℕ) → ℕ → M S ℕ
tally zero i body total = pure total
tally (suc n) i body total = do errors ← body i; tally n (i + 1) body (u16 (total + errors))

abbrev pub dat_regs : ℕ
dat_regs = 0xFE00

abbrev pub sentinel : ℕ
sentinel = 0xA5

-- The bits of the drive's status that the program waits for.
abbrev pub is_busy : ℕ → Bool
is_busy x = x / 128 % 2 == 1

abbrev pub has_no_data : ℕ → Bool
has_no_data x = not (x / 8 % 2 == 1)

-- The registers of the drive.
abbrev pub ide_data : ℕ
ide_data = 0xFF00

abbrev pub ide_devhead : ℕ
ide_devhead = 0xFF07

abbrev pub ide_status : ℕ
ide_status = 0xFF08

module _ {S : Type 0} (bus : GuestBus S) where
  unfoldable pub inb : ℕ → M S ℕ
  inb addr s = some (bus.load addr s)

  unfoldable pub outb : ℕ → ℕ → M S (Unit {0})
  outb addr v s = some (tt, bus.store addr v s)

  -- A word of the 6809, the high byte first.
  unfoldable pub load_word : ℕ → M S ℕ
  unfolding inb
  load_word addr = do hi ← inb addr; lo ← inb (u16 (addr + 1)); pure (word_of hi lo)

  unfoldable pub store_word : ℕ → ℕ → M S (Unit {0})
  unfolding outb
  store_word addr w = do outb addr (hi_byte w); outb (u16 (addr + 1)) (lo_byte w)

  unfoldable pub fill_sentinel : ℕ → ℕ → M S (Unit {0})
  unfolding each outb
  fill_sentinel addr len = each len 0 (λ i. outb (u16 (addr + i)) sentinel)

  -- The loop of check_sentinel. The message loads the byte once more.
  unfoldable pub check_bytes : ℕ → ℕ → ℕ → Bool → ℕ → M S ℕ
  unfolding inb
  check_bytes zero i addr verbose errors = pure errors
  check_bytes (suc n) i addr verbose errors = do
    x ← inb (u16 (addr + i))
    shown ←
        if not (x == sentinel) && (verbose && ltb errors 8) then inb (u16 (addr + i)) else pure x
    check_bytes n (i + 1) addr verbose (if x == sentinel then errors else u16 (errors + 1))

  unfoldable pub check_sentinel : ℕ → ℕ → Bool → M S ℕ
  unfolding check_bytes
  check_sentinel addr len verbose = check_bytes len 0 addr verbose 0

  -- `while (test(status)) ;`, the rounds left.
  unfoldable pub wait_while : ℕ → (ℕ → Bool) → M S (Unit {0})
  wait_while zero test s = none
  wait_while (suc n) test s = elim (test (bus.load ide_status s).0) [
    | true ↦ wait_while n test (bus.load ide_status s).1
    | false ↦ some (tt, (bus.load ide_status s).1)
  ]

  unfoldable pub ide_drain : ℕ → M S (Unit {0})
  unfolding each load_word
  ide_drain n = each n 0 (λ i. load_word ide_data >>= λ w. pure tt)

  unfoldable pub asm_rd256 : ℕ → M S (Unit {0})
  unfolding each load_word store_word
  asm_rd256 target = each 128 0 (λ i. load_word ide_data >>= store_word (u16 (target + (i + i))))

  unfoldable pub asm_rd256_from_ram : ℕ → ℕ → M S (Unit {0})
  unfolding each load_word store_word
  asm_rd256_from_ram source target =
      each 128 0 (λ i. load_word (u16 (source + (i + i))) >>= store_word (u16 (target + (i + i))))

  -- `before[i] = *(DAT_REGS + i)`, the registers left.
  unfoldable pub read_slots : ℕ → ℕ → M S (List ℕ)
  unfolding inb
  read_slots zero i = pure []
  read_slots (suc n) i = do x ← inb (dat_regs + i); xs ← read_slots n (i + 1); pure (x ∷ xs)

  -- The second loop of test 8: the registers that differ.
  unfoldable pub count_changed : List ℕ → ℕ → ℕ → M S ℕ
  unfolding inb
  count_changed [] i errors = pure errors
  count_changed (b ∷ before) i errors = do
    after ← inb (dat_regs + i)
    count_changed before (i + 1) (if after == b then errors else u16 (errors + 1))

  unfoldable pub test1_pure_write : M S ℕ
  unfolding tally fill_sentinel check_sentinel store_word
  test1_pure_write =
      tally 20 0
        (λ pass. do
          fill_sentinel 0xE800 256
          each 128 0 (λ i. store_word (u16 (0xC800 + (i + i))) (u16 (i + pass * 128)))
          check_sentinel 0xE800 256 (ltb pass 3))
        0

  unfoldable pub test5_ram_source : M S ℕ
  unfolding tally fill_sentinel check_sentinel asm_rd256_from_ram
  test5_ram_source = do
    fill_sentinel 0xE000 256
    tally 20 0
        (λ pass. do
          fill_sentinel 0xE800 256
          asm_rd256_from_ram 0xE000 0xC800
          check_sentinel 0xE800 256 (ltb pass 3))
        0

-- With the polls after which a wait for the drive is given up.
module _ {S : Type 0} (bus : GuestBus S) (patience : ℕ) where
  unfoldable pub ide_start_identify : M S (Unit {0})
  unfolding outb wait_while
  ide_start_identify = do
    outb bus ide_devhead 0xA0
    wait_while bus patience is_busy
    outb bus ide_status 0xEC
    wait_while bus patience has_no_data

  -- A transfer of a sector, of which half is stored.
  unfoldable pub transfer : ℕ → M S (Unit {0})
  unfolding ide_start_identify asm_rd256 ide_drain
  transfer target = do ide_start_identify; asm_rd256 bus target; ide_drain bus 128
