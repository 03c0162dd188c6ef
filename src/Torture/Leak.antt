-- ===== src/Torture/Leak.antt =====
-- What the first test reports on a bus that leaks from slot 6 into slot 7.
use pico_thing_main.Base.{
  ℕ, zero, suc, ◌+◌, ◌*◌, ◌≤◌, ◌<◌, ◌≡◌, ◌≢◌, refl, ap, ◌∙◌, Bool, true, false, Option, none, some,
  ltb, ◌==◌, arith, u16, Cells, if◌then◌else◌, Bool-cases, inl, inr, hi_byte, lo_byte, ne→==,
}
use pico_thing_main.Torture.Bus.{GuestBus}
use pico_thing_main.Torture.{
  M, ◌>>◌, each, tally, outb, store_word, fill_sentinel, check_sentinel, test1_pure_write,
}
use pico_thing_main.Torture.Steps.{Runs, Runs-bind}
use pico_thing_main.Torture.Counted.{reaches, Leaks, wrong, wrong-le, check_bytes-wrong}

module _ {S : Type 0} (bus : GuestBus S) (seen : S → Cells) (leaks : Leaks bus seen) where
  -- The high bytes of the first words behind $E800 are small.
  abbrev Dirty : ℕ → S → Type 0
  Dirty i s = (j : ℕ) → j < i → seen s (0xE800 + (j + j)) < 10

  store_word-Dirty :
      (pass i : ℕ)
      → pass < 20
      → i < 128
      → Runs
          (Dirty i)
          (store_word bus (u16 (0xC800 + (i + i))) (u16 (i + pass * 128)))
          (λ _. Dirty (i + 1))
  unfolding store_word outb
  store_word-Dirty pass i l m s h =
      let w = u16 (i + pass * 128) in
      let a = u16 (0xC800 + (i + i)) in
      let a' = u16 (a + 1) in
      let s₁ = bus.store a (hi_byte w) s in
      let s₂ = bus.store a' (lo_byte w) s₁ in
      let at : a ≡ 0xC800 + (i + i) = omega (arith, m) in
      let at' : a' ≡ 0xC801 + (i + i) = omega (arith, m) in
      let small : hi_byte w < 10 = omega (arith, l, m) in
      let dirty : Dirty (i + 1) s₂ = λ j n.
        let b = 0xE800 + (j + j) in
        let first : seen s₁ b ≡ (if reaches a b then hi_byte w else seen s b) =
          leaks.store_seen a (hi_byte w) s b (omega (arith, at, m)) (omega (arith, n, m)) in
        let second : seen s₂ b ≡ (if reaches a' b then lo_byte w else seen s₁ b) =
          leaks.store_seen a' (lo_byte w) s₁ b (omega (arith, at', m)) (omega (arith, n, m)) in
        let missed : reaches a' b ≡ false = ground (arith, at') in
        let kept : seen s₂ b ≡ seen s₁ b =
          second ∙ ap (λ (q : Bool). if q then lo_byte w else seen s₁ b) missed in
        elim (Bool-cases (j == i)) [
          | inl e ↦
              let same : j ≡ i = ground (arith, e) in
              let hit : reaches a b ≡ true = ground (arith, at, same, m) in
              let got : seen s₂ b ≡ hi_byte w =
                kept ∙ first ∙ ap (λ (q : Bool). if q then hi_byte w else seen s b) hit in
              omega (arith, got, small)
          | inr e ↦
              let other : j ≢ i = ground (arith, e) in
              let before : j < i = omega (arith, n, other) in
              let clear : reaches a b ≡ false = ground (arith, at, before) in
              let got : seen s₂ b ≡ seen s b =
                kept ∙ first ∙ ap (λ (q : Bool). if q then hi_byte w else seen s b) clear in
              omega (arith, got, h j before)
        ] in
      ((tt, s₂), refl, dirty)

  words-Dirty :
      (n i pass : ℕ)
      → pass < 20
      → i + n ≤ 128
      → Runs
          (Dirty i)
          (each n i (λ k. store_word bus (u16 (0xC800 + (k + k))) (u16 (k + pass * 128))))
          (λ _. Dirty (i + n))
  unfolding each
  words-Dirty zero i pass l m s h = ((tt, s), refl, λ j q. h j (omega (arith, q)))
  words-Dirty (suc n) i pass l m s h =
      Runs-bind (Dirty i) (λ _. Dirty (i + 1)) (λ _. Dirty (i + suc n))
        (store_word bus (u16 (0xC800 + (i + i))) (u16 (i + pass * 128))) _
        (store_word-Dirty pass i l (omega (arith, m)))
        (λ _ t d.
          let (r, e, x) = words-Dirty n (i + 1) pass l (omega (arith, m)) t d in
          (r, e, λ j q. x j (omega (arith, q))))
        s h

  wrong_pairs :
      (f : Cells) (k i : ℕ)
      → ((j : ℕ) → i ≤ j → j < i + k → f (0xE800 + (j + j)) < 10)
      → k ≤ wrong f (k + k) (0xE800 + (i + i))
  wrong_pairs f zero i h = omega arith
  wrong_pairs f (suc k) i h =
      let a = 0xE800 + (i + i) in
      let twice : suc k + suc k ≡ suc (suc (k + k)) = omega arith in
      let next : a + 1 + 1 ≡ 0xE800 + (i + 1 + (i + 1)) = omega arith in
      omega (
        arith,
        ap (λ n. wrong f n a) twice,
        ap {B = ℕ} (λ (q : Bool). if q then 0 else 1)
            (ne→== (f a) 0xA5 (λ e. absurd (omega (arith, e, h i (omega arith) (omega arith))))),
        ap (wrong f (k + k)) next,
        wrong_pairs f k (i + 1) (λ j l m. h j (omega (arith, l)) (omega (arith, m))),
      )

  fill_ends :
      (n i addr : ℕ)
      → Runs (λ _. Unit {0}) (each n i (λ j. outb bus (u16 (addr + j)) 0xA5)) (λ _ _. Unit {0})
  unfolding each outb
  fill_ends zero i addr s h = ((tt, s), refl, tt)
  fill_ends (suc n) i addr s h =
      Runs-bind (λ _. Unit {0}) (λ _ _. Unit {0}) (λ _ _. Unit {0}) (outb bus (u16 (addr + i)) 0xA5)
        _ (λ t _. ((tt, bus.store (u16 (addr + i)) 0xA5 t), refl, tt))
        (λ _. fill_ends n (i + 1) addr) s h

  -- At least 128 errors in each round, and at most 256.
  Found : ℕ → S → Type 0
  Found e s = (128 ≤ e) × (e ≤ 256)

  round-Found :
      (pass : ℕ)
      → pass < 20
      → Runs
          (λ _. Unit {0})
          (fill_sentinel bus 0xE800 256
            >> (each 128 0 (λ k. store_word bus (u16 (0xC800 + (k + k))) (u16 (k + pass * 128)))
                >> check_sentinel bus 0xE800 256 (ltb pass 3)))
          Found
  unfolding fill_sentinel check_sentinel Found
  round-Found pass l =
      Runs-bind (λ _. Unit {0}) (λ _ _. Unit {0}) Found (fill_sentinel bus 0xE800 256) _
        (fill_ends 256 0 0xE800)
        λ _ s _.
          Runs-bind (Dirty 0) (λ _. Dirty 128) Found
            (each 128 0 (λ k. store_word bus (u16 (0xC800 + (k + k))) (u16 (k + pass * 128)))) _
            (words-Dirty 128 0 pass l (omega arith))
            (λ _ t d.
              let (r, e, c, _) =
                check_bytes-wrong bus seen leaks 256 0 0xE800 (ltb pass 3) 0 t (omega arith)
                  (omega arith) in
              (
                r,
                e,
                (
                  omega (arith, c, wrong_pairs (seen t) 128 0 (λ j p q. d j q)),
                  omega (arith, c, wrong-le (seen t) 256 0xE800),
                ),
              ))
            s (λ j n. absurd (omega (arith, n)))

  tally-Found :
      (n i total : ℕ) (body : ℕ → M S ℕ) (s : S)
      → ((j : ℕ) → j < i + n → Runs (λ _. Unit {0}) (body j) Found)
      → total + n * 256 < 65536
      → (r : ℕ × S) × (tally n i body total s ≡ some r) × (total + n * 128 ≤ r.0)
  unfolding tally Found
  tally-Found zero i total body s h l = ((total, s), refl, omega arith)
  tally-Found (suc n) i total body s h l =
      let (r, e, (low, high)) = h i (omega arith) s tt in
      let total' = u16 (total + r.0) in
      let (r', e', x) =
        tally-Found n (i + 1) total' body r.1 (λ j m. h j (omega (arith, m)))
          (omega (arith, high, l)) in
      let after : Option (ℕ × S) → Option (ℕ × S) =
        λ o. elim o [ none ↦ none | some y ↦ tally n (i + 1) body (u16 (total + y.0)) y.1 ] in
      (r', ap after e ∙ e', omega (arith, x, low, high, l))

  -- On a bus that, below $FE00, works like a memory, except that what is stored in the sector at $C800
  -- lands in the sector at $E800 too: whatever the memory holds, test 1 ends and reports at least 2560
  -- errors.
  pub leak_found : (s : S) → (r : ℕ × S) × (test1_pure_write bus s ≡ some r) × (2560 ≤ r.0)
  unfolding test1_pure_write
  leak_found s =
      tally-Found 20 0 0 _ s (λ pass l. round-Found pass (omega (arith, l))) (omega arith)
