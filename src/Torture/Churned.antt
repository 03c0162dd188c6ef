-- ===== src/Torture/Churned.antt =====
-- Tests 14 and 16, which move slot 6 to one page after another.
use pico_thing_main.Base.{
  ℕ, ◌+◌, ◌*◌, ◌%◌, ◌≤◌, ◌<◌, ◌≡◌, ◌≢◌, refl, ap, ◌∙◌, Bool, false, true, arith, update, u16, Cells,
}
use pico_thing_main.Torture.Bus.{GuestBus}
use pico_thing_main.Torture.{
  M, ◌>>=◌, ◌>>◌, pure, each, tally, inb, outb, load_word, fill_sentinel, check_sentinel,
}
use pico_thing_main.Torture.Tests.{
  page_of, safe_page, restructured_pass, test14_page_restructure, set_task, churned_pass,
  test16_stress,
}
use pico_thing_main.Torture.Steps.{
  Runs, Runs-bind, Runs-each, Runs-tally, View, IsSound, At, remap-At,
}
use pico_thing_main.Torture.Blocks.{Answers, fill_sentinel-At, check_sentinel-At}
use pico_thing_main.Torture.Integrity.{read_entry}
use pico_thing_main.Torture.Moved.{restore-At, window_read, transfer_moved, moved-At}
use pico_thing_main.Torture.Sound.{identity, IsHome, IsClean, forget, Runs-known}

page_of-le : (pass : ℕ) → (page_of pass < 256) × (page_of pass ≢ 7)
unfolding page_of
page_of-le pass = (ground arith, λ e. absurd (ground (arith, e)))

safe_page-le : (k : ℕ) → (safe_page k < 256) × (safe_page k ≢ 7)
unfolding safe_page
safe_page-le k = (ground arith, λ e. absurd (ground (arith, e)))

module _ {S : Type 0} (bus : GuestBus S) (v : View S) (sound : IsSound bus v) where
  abbrev Marked : S → Type 0
  Marked = At v identity 0x800 0x900

  checked :
      (verbose : Bool)
      → Runs Marked (check_sentinel bus 0xE800 256 verbose) (λ e s. (e ≡ 0) × Marked s)
  checked verbose =
      check_sentinel-At bus v sound identity 0x800 0x900 0x800 256 verbose refl (omega arith)
        (omega arith) (omega arith)

  -- Slot 3 shows a page, is read through, and gets its page back.
  window :
      (page saved errors : ℕ)
      → page < 256
      → (saved ≡ 3)
      → errors ≡ 0
      → Runs Marked
          (outb bus 0xFE03 page
            >> (each 128 0 (λ j. load_word bus (u16 (0x6800 + (j + j))) >>= λ w. pure tt)
                >> (outb bus 0xFE03 saved >> pure errors)))
          (IsClean v)
  window page saved errors l e z =
      let shown = update identity 3 page in
      let Q = At v shown 0x800 0x900 in
      Runs-bind Marked (λ _. Q) (IsClean v) (outb bus 0xFE03 page) _
        (remap-At bus v sound identity 0x800 0x900 3 page (omega arith) l)
        λ _.
          Runs-bind Q (λ _. Q) (IsClean v)
            (each 128 0 (λ j. load_word bus (u16 (0x6800 + (j + j))) >>= λ w. pure tt)) _
            (window_read bus v sound shown)
            λ _.
              Runs-bind Q (λ _. Marked) (IsClean v) (outb bus 0xFE03 saved) (λ _. pure errors)
                (restore-At bus v sound shown identity 0x800 0x900 3 saved (omega arith)
                  (omega (arith, e)) (λ j m. ground (arith, e)))
                (λ _ t h. ((errors, t), refl, (z, forget v identity 0x800 0x900 t h)))

  module _ (patience : ℕ) (answers : Answers bus patience) where
    restructured_pass-IsClean :
        (pass : ℕ) → Runs (IsHome v) (restructured_pass bus patience 6 pass) (IsClean v)
    unfolding restructured_pass
    restructured_pass-IsClean pass =
        let (l, d) = page_of-le pass in
        Runs-bind (IsHome v) (λ _. Marked) (IsClean v) (fill_sentinel bus 0xE800 256) _
          (fill_sentinel-At bus v sound identity 0 0 0x800 256 refl (omega arith))
          λ _. moved-At bus v sound patience answers (page_of pass) _ l d (
            Runs-bind Marked (λ e s. (e ≡ 0) × Marked s) (IsClean v)
              (check_sentinel bus 0xE800 256 true) _ (checked true)
              λ e s x.
                Runs-bind Marked (λ b t. (b ≡ 3) × Marked t) (IsClean v) (inb bus 0xFE03) _
                  (read_entry bus v sound identity 0x800 0x900 3 (omega arith))
                  (λ b t y. window (page_of pass) b e l y.0 x.0 t y.1) s x.1)

    pub test14-IsClean : Runs (IsHome v) (test14_page_restructure bus patience) (IsClean v)
    unfolding test14_page_restructure
    test14-IsClean =
        Runs-bind (IsHome v) (λ x s. (x ≡ 6) × IsHome v s) (IsClean v) (inb bus 0xFE06) _
          (read_entry bus v sound identity 0 0 6 (omega arith))
          (λ x.
            Runs-known v (IsHome v) (IsClean v)
              (λ k. tally 6 0 (restructured_pass bus patience k) 0) 6 x
              (Runs-tally (IsHome v) 6 0 _ (λ pass l u. restructured_pass-IsClean pass)))

  -- A store to a slot of another task.
  other_task-At :
      (a i x : ℕ)
      → a ≡ 0xFE00 + i
      → 8 ≤ i
      → i < 64
      → x < 256
      → Runs (IsHome v) (outb bus a x) (λ _. IsHome v)
  unfolding outb
  other_task-At a i x e l m n s h =
      let (c, f, k) = sound.store_entry i x s m n in
      let kept : (j : ℕ) → j < 8 → update (v.entry s) i x j ≡ v.entry s j =
        λ j u. ground (arith, l, u) in
      (
        (tt, bus.store a x s),
        refl,
        record {
          maps = λ j u. ap (λ b. v.entry (bus.store b x s) j) e ∙ f j ∙ kept j u ∙ h.maps j u;
          in_task = ap (λ b. v.task (bus.store b x s)) e ∙ k ∙ h.in_task;
          guarded = λ b u w. absurd (omega (arith, w));
        },
      )

  set_task-IsHome :
      (task : ℕ) → 1 ≤ task → task < 8 → Runs (IsHome v) (set_task bus task) (λ _. IsHome v)
  unfolding set_task
  set_task-IsHome task l u =
      let P : Unit {0} → S → Type 0 = λ _. IsHome v in
      let store = λ (j x : ℕ) (m : j < 8) (n : x < 256).
        other_task-At (0xFE00 + task * 8 + j) (task * 8 + j) x (omega arith) (omega (arith, l))
          (omega (arith, u, m)) n in
      Runs-bind (IsHome v) P P (each 6 0 (λ j. outb bus (0xFE00 + task * 8 + j) j)) _
        (Runs-each (IsHome v) 6 0 _ (λ j m n. store j j (omega (arith, n)) (omega (arith, n))))
        (λ _.
          Runs-bind (IsHome v) P P (outb bus (0xFE00 + task * 8 + 6) (8 + task)) _
            (store 6 (8 + task) (omega arith) (omega (arith, u)))
            (λ _. store 7 7 (omega arith) (omega arith)))

  -- Two other tasks are selected, and task 0 again.
  switched-At :
      (pages : Cells) (lo hi a b : ℕ) (k : M S ℕ)
      → a < 8
      → b < 8
      → Runs (At v pages lo hi) k (IsClean v)
      → Runs
          (At v pages lo hi)
          (outb bus 0xFFC0 a >> (outb bus 0xFFC0 b >> (outb bus 0xFFC0 0 >> k)))
          (IsClean v)
  unfolding outb
  switched-At pages lo hi a b k l m f s h =
      let s₁ = bus.store 0xFFC0 a s in
      let s₂ = bus.store 0xFFC0 b s₁ in
      let (c₁, e₁, t₁) = sound.store_task a s l in
      let (c₂, e₂, t₂) = sound.store_task b s₁ m in
      let (c₃, e₃, t₃) = sound.store_task 0 s₂ (omega arith) in
      f (bus.store 0xFFC0 0 s₂) (record {
        maps = λ j u. e₃ j ∙ e₂ j ∙ e₁ j ∙ h.maps j u;
        in_task = t₃;
        guarded = λ j u w. c₃ (57344 + j) ∙ c₂ (57344 + j) ∙ c₁ (57344 + j) ∙ h.guarded j u w;
      })

  module _ (patience : ℕ) (answers : Answers bus patience) where
    churned_pass-IsClean :
        (pass : ℕ) → Runs (IsHome v) (churned_pass bus patience 6 pass) (IsClean v)
    unfolding churned_pass
    churned_pass-IsClean pass =
        let page = safe_page (pass % 8) in
        let (l, d) = safe_page-le (pass % 8) in
        Runs-bind (IsHome v) (λ _. Marked) (IsClean v) (fill_sentinel bus 0xE800 256) _
          (fill_sentinel-At bus v sound identity 0 0 0x800 256 refl (omega arith))
          λ _.
            Runs-bind Marked (λ _. At v (update identity 6 page) 0x800 0x900) (IsClean v)
              (outb bus 0xFE06 page) _
              (remap-At bus v sound identity 0x800 0x900 6 page (omega arith) l)
              λ _.
                switched-At (update identity 6 page) 0x800 0x900 (pass % 7 + 1) (pass % 3 + 1) _
                  (omega arith) (omega arith)
                  (transfer_moved bus v sound patience answers page _ d (λ s h.
                    let (r, e, x) = checked false s h in
                    (r, e, (x.0, forget v identity 0x800 0x900 r.1 x.1))))

    pub test16-IsClean : Runs (IsHome v) (test16_stress bus patience) (IsClean v)
    unfolding test16_stress
    test16-IsClean =
        Runs-bind (IsHome v) (λ x s. (x ≡ 6) × IsHome v s) (IsClean v) (inb bus 0xFE06) _
          (read_entry bus v sound identity 0 0 6 (omega arith))
          (λ x.
            Runs-known v (IsHome v) (IsClean v)
              (λ k. each 7 1 (set_task bus) >> tally 1000 0 (churned_pass bus patience k) 0) 6 x
              (Runs-bind (IsHome v) (λ _. IsHome v) (IsClean v) (each 7 1 (set_task bus)) _
                (Runs-each (IsHome v) 7 1 _ (λ task l u. set_task-IsHome task l (omega (arith, u))))
                (λ _. Runs-tally (IsHome v) 1000 0 _ (λ pass l u. churned_pass-IsClean pass))))
