-- ===== src/Torture/Integrity.antt =====
-- Test 8: the registers of the translation before and after a transfer.
use pico_thing_main.Base.{
  ℕ, zero, suc, ◌+◌, ◌≤◌, ◌<◌, ◌≡◌, refl, ap, sym, subst, ◌∙◌, Bool, true, List, [], ◌∷◌, some,
  ◌==◌, arith, if◌then◌else◌, u16, Cells,
}
use pico_thing_main.Torture.Bus.{GuestBus}
use pico_thing_main.Torture.{pure, inb, read_slots, count_changed, transfer}
use pico_thing_main.Torture.Tests.{test8_dat_integrity}
use pico_thing_main.Torture.Steps.{Runs, Runs-bind, Runs-tally, View, IsSound, At, Same-At}
use pico_thing_main.Torture.Blocks.{Answers}
use pico_thing_main.Torture.Transfers.{transfer-At}
use pico_thing_main.Torture.Sound.{identity, IsHome, IsClean, slot_six}

-- The pages of the slots from `i` on.
abbrev shown_pages : Cells → ℕ → ℕ → List ℕ
shown_pages pages zero i = []
shown_pages pages (suc n) i = pages i ∷ shown_pages pages n (i + 1)

module _ {S : Type 0} (bus : GuestBus S) (v : View S) (sound : IsSound bus v) where
  -- The page of a slot, read from its register.
  pub read_entry :
      (pages : Cells) (lo hi i : ℕ)
      → i < 8
      → Runs (At v pages lo hi) (inb bus (0xFE00 + i)) (λ x s. (x ≡ pages i) × At v pages lo hi s)
  unfolding inb
  read_entry pages lo hi i l s h = (
    bus.load (0xFE00 + i) s,
    refl,
    (
      sound.load_entry i s (omega (arith, l)) ∙ h.maps i l,
      Same-At bus v sound pages lo hi s _ (sound.load_same (0xFE00 + i) s) h,
    ),
  )

  module _ (pages : Cells) (lo hi : ℕ) where
    read_slots-At :
        (n i : ℕ)
        → i + n ≤ 8
        → Runs
            (At v pages lo hi)
            (read_slots bus n i)
            (λ xs s. (xs ≡ shown_pages pages n i) × At v pages lo hi s)
    unfolding read_slots
    read_slots-At zero i l s h = (([], s), refl, (refl, h))
    read_slots-At (suc n) i l s h =
        let R : List ℕ → S → Type 0 =
          λ xs s. (xs ≡ shown_pages pages (suc n) i) × At v pages lo hi s in
        Runs-bind (At v pages lo hi) (λ x s. (x ≡ pages i) × At v pages lo hi s) R
          (inb bus (0xFE00 + i)) _ (read_entry pages lo hi i (omega (arith, l)))
          (λ x s p.
            Runs-bind (At v pages lo hi)
              (λ xs t. (xs ≡ shown_pages pages n (i + 1)) × At v pages lo hi t) R
              (read_slots bus n (i + 1)) (λ xs. pure (x ∷ xs))
              (read_slots-At n (i + 1) (omega (arith, l)))
              (λ xs t q.
                ((x ∷ xs, t), refl, (ap (λ y. y ∷ xs) p.0 ∙ ap (λ ys. pages i ∷ ys) q.0, q.1)))
              s p.1)
          s h

    count_changed-At :
        (n i : ℕ)
        → i + n ≤ 8
        → Runs
            (At v pages lo hi)
            (count_changed bus (shown_pages pages n i) i 0)
            (λ e s. (e ≡ 0) × At v pages lo hi s)
    unfolding count_changed
    count_changed-At zero i l s h = ((0, s), refl, (refl, h))
    count_changed-At (suc n) i l s h =
        Runs-bind (At v pages lo hi) (λ x s. (x ≡ pages i) × At v pages lo hi s)
          (λ e s. (e ≡ 0) × At v pages lo hi s) (inb bus (0xFE00 + i)) _
          (read_entry pages lo hi i (omega (arith, l)))
          (λ x s p.
            let ih = count_changed-At n (i + 1) (omega (arith, l)) s p.1 in
            let same : x == pages i ≡ true = ground (arith, p.0) in
            (
              ih.0,
              ap
                    (λ (b : Bool).
                      count_changed bus (shown_pages pages n (i + 1)) (i + 1)
                        (if b then 0 else u16 (0 + 1)) s)
                    same
                  ∙ ih.1,
              ih.2,
            ))
          s h

  module _ (patience : ℕ) (answers : Answers bus patience) where
    pub test8-IsClean : Runs (IsHome v) (test8_dat_integrity bus patience) (IsClean v)
    unfolding test8_dat_integrity
    test8-IsClean = Runs-tally (IsHome v) 100 0 _ (λ pass l u.
        let P : Unit {0} → S → Type 0 = λ _. IsHome v in
        Runs-bind (IsHome v) (λ xs s. (xs ≡ shown_pages identity 8 0) × IsHome v s) (IsClean v)
          (read_slots bus 8 0) _ (read_slots-At identity 0 0 8 0 (omega arith))
          (λ xs s p.
            Runs-bind (IsHome v) P (IsClean v) (transfer bus patience 0xC800)
              (λ _. count_changed bus xs 0 0)
              (transfer-At bus v sound identity 0 0 (omega arith) patience answers 0xC800
                (slot_six bus v sound))
              (λ _ t h.
                subst
                  (λ ys. (r : ℕ × S) × (count_changed bus ys 0 0 t ≡ some r) × IsClean v r.0 r.1)
                  (sym p.0) (count_changed-At identity 0 0 8 0 (omega arith) t h))
              s p.1))
