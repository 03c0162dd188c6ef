-- ===== src/Torture/Counted.antt =====
-- What a check counts on a bus that leaks from slot 6 into slot 7.
use pico_thing_main.Base.{
  ℕ, zero, suc, ◌+◌, ◌≤◌, ◌<◌, ◌≡◌, refl, ap, ◌∙◌, Bool, true, false, not, ◌&&◌, ◌||◌, some, ltb,
  leb, ◌==◌, arith, if_elim, u16, Cells, if◌then◌else◌,
}
use pico_thing_main.Torture.Bus.{GuestBus}
use pico_thing_main.Torture.{M, ◌>>=◌, pure, inb, check_bytes}

-- An access goes to the byte at its address, except that what is stored in the sector at $C800 lands in
-- the sector at $E800 too.
abbrev pub reaches : ℕ → ℕ → Bool
reaches a j = a == j || (leb 0xC800 a && ltb a 0xC900 && (a + 0x2000 == j))

pub record Leaks {S : Type 0} (bus : GuestBus S) (seen : S → Cells) : Type 0 where
  pub load_seen : (a : ℕ) (s : S) → a < 0xFE00 → (bus.load a s).0 ≡ seen s a
  pub load_same : (a : ℕ) (s : S) (j : ℕ) → seen (bus.load a s).1 j ≡ seen s j
  pub store_seen :
      (a x : ℕ) (s : S) (j : ℕ)
      → a < 0xFE00
      → j < 0xFE00
      → seen (bus.store a x s) j ≡ (if reaches a j then x else seen s j)

add_error :
    (errors x : ℕ)
    → errors + 1 < 65536
    → (if x == 0xA5 then errors else u16 (errors + 1)) ≡ errors + (if x == 0xA5 then 0 else 1)
add_error errors x l = ground (arith, l)

-- How many bytes are no sentinels.
abbrev pub wrong : Cells → ℕ → ℕ → ℕ
wrong bytes zero a = 0
wrong bytes (suc n) a = (if bytes a == 0xA5 then 0 else 1) + wrong bytes n (a + 1)

wrong_same : (f g : Cells) (n a : ℕ) → ((j : ℕ) → f j ≡ g j) → wrong f n a ≡ wrong g n a
wrong_same f g zero a h = refl
wrong_same f g (suc n) a h =
    omega
      (arith, ap {B = ℕ} (λ (x : ℕ). if x == 0xA5 then 0 else 1) (h a), wrong_same f g n (a + 1) h)

pub wrong-le : (f : Cells) (n a : ℕ) → wrong f n a ≤ n
wrong-le f zero a = omega arith
wrong-le f (suc n) a = ground (arith, wrong-le f n (a + 1))

module _ {S : Type 0} (bus : GuestBus S) (seen : S → Cells) (leaks : Leaks bus seen) where
  -- The check counts the bytes that are no sentinels, and changes nothing.
  pub check_bytes-wrong :
      (n i addr : ℕ) (verbose : Bool) (errors : ℕ) (s : S)
      → addr + i + n ≤ 0xFE00
      → errors + n < 65536
      → (r : ℕ × S) × (check_bytes bus n i addr verbose errors s ≡ some r)
        × (r.0 ≡ errors + wrong (seen s) n (addr + i))
        × ((j : ℕ) → seen r.1 j ≡ seen s j)
  unfolding check_bytes inb
  check_bytes-wrong zero i addr verbose errors s l m = ((errors, s), refl, omega arith, λ j. refl)
  check_bytes-wrong (suc n) i addr verbose errors s l m =
      let a = u16 (addr + i) in
      let here : a ≡ addr + i = omega (arith, l) in
      let x = (bus.load a s).0 in
      let t = (bus.load a s).1 in
      let found : x ≡ seen s (addr + i) =
        leaks.load_seen a s (omega (arith, l)) ∙ ap (seen s) here in
      let errors' = if x == 0xA5 then errors else u16 (errors + 1) in
      let shown : Bool = not (x == 0xA5) && (verbose && ltb errors 8) in
      let w = if shown then (bus.load a t).1 else t in
      let w_same : (j : ℕ) → seen w j ≡ seen s j =
        if_elim (λ (u : S). (j : ℕ) → seen u j ≡ seen s j) shown
          (λ _ j. leaks.load_same a t j ∙ leaks.load_same a s j) (λ _ j. leaks.load_same a s j) in
      let next : M S ℕ = check_bytes bus n (i + 1) addr verbose errors' in
      let counted : errors' ≡ errors + (if seen s (addr + i) == 0xA5 then 0 else 1) =
        add_error errors x (omega (arith, m))
        ∙ ap (λ (y : ℕ). errors + (if y == 0xA5 then 0 else 1)) found in
      let next_place : addr + (i + 1) ≡ addr + i + 1 = omega arith in
      let (r, e, c, q) =
        check_bytes-wrong n (i + 1) addr verbose errors' w (omega (arith, l)) (ground (arith, m)) in
      let step : ((if shown then inb bus a else pure x) >>= λ y. next) t ≡ next w =
        if_branch shown next a x t in
      (
        r,
        step ∙ e,
        omega (
          arith,
          c,
          wrong_same (seen w) (seen s) n (addr + (i + 1)) w_same,
          ap (wrong (seen s) n) next_place,
          counted,
        ),
        λ j. q j ∙ w_same j,
      )
    where
      if_branch :
          (b : Bool) (next : M S ℕ) (a x : ℕ) (t : S)
          → ((if b then inb bus a else pure x) >>= λ y. next) t
            ≡ next (if b then (bus.load a t).1 else t)
      if_branch true next a x t = refl
      if_branch false next a x t = refl
