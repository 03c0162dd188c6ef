-- ===== src/Torture/Blocks.antt =====
-- Sentinels, words and sectors, on a bus with a sound translation.
use pico_thing_main.Base.{
  ℕ, zero, suc, ◌+◌, ◌*◌, ◌/◌, ◌≤◌, ◌<◌, ◌≡◌, ◌≢◌, refl, ap, subst, ◌∙◌, Bool, not, ◌&&◌, Option,
  some, ltb, ◌==◌, arith, if◌then◌else◌, Bool-cases, inl, inr, u16, Cells,
}
use pico_thing_main.Torture.Bus.{GuestBus}
use pico_thing_main.Torture.{
  ◌>>=◌, pure, each, inb, outb, wait_while, is_busy, has_no_data, ide_devhead, ide_status, sentinel,
  fill_sentinel, check_bytes, check_sentinel,
}
use pico_thing_main.Torture.Steps.{Runs, Runs-bind, View, place, IsSound, At, Same-At, place-At}

-- Below $FE00, and not in a slot that shows page 7.
abbrev pub Clear : Cells → ℕ → ℕ → Type 0
Clear pages a b = (c : ℕ) → a ≤ c → c < b → (c < 0xFE00) × (pages (c / 8192) ≢ 7)

-- A part of a slot.
pub slot_Clear :
    (pages : Cells) (slot a b : ℕ)
    → slot < 7
    → pages slot ≢ 7
    → slot * 8192 ≤ a
    → b ≤ slot * 8192 + 8192
    → Clear pages a b
slot_Clear pages slot a b l d p q c m n =
    let here : slot ≡ c / 8192 = omega (arith, p, q, m, n) in
    (omega (arith, l, q, n), λ e. d (ap pages here ∙ e))

-- The drive answers both waits, whatever it was doing: it gets ready once it is selected, and has data
-- once it is told to identify itself.
pub record Answers {S : Type 0} (bus : GuestBus S) (patience : ℕ) : Type 0 where
  pub gets_ready :
      (s : S)
      → (r : Unit {0} × S) × (wait_while bus patience is_busy (bus.store ide_devhead 0xA0 s)
          ≡ some r)
  pub gets_data :
      (s : S)
      → (r : Unit {0} × S) × (wait_while bus patience has_no_data (bus.store ide_status 0xEC s)
          ≡ some r)

module _ {S : Type 0} (bus : GuestBus S) (v : View S) (sound : IsSound bus v) where
  -- A sentinel.
  mark-At :
      (pages : Cells) (lo i : ℕ)
      → pages 7 ≡ 7
      → lo + i < 0x1E00
      → Runs
          (At v pages lo (lo + i))
          (outb bus (u16 (0xE000 + lo + i)) sentinel)
          (λ _. At v pages lo (lo + (i + 1)))
  unfolding outb
  mark-At pages lo i seven l s h =
      let a = u16 (0xE000 + lo + i) in
      let (c, e, k) = sound.store_ram a sentinel s (omega (arith, l)) in
      let slot : a / 8192 ≡ 7 = omega (arith, l) in
      let there : place v s a ≡ 57344 + (lo + i) = omega (
        arith,
        place-At bus v sound pages lo (lo + i) a s (omega (arith, l)) h,
        ap pages slot,
        seven,
        l,
      ) in
      let mark : (b : ℕ)
          → lo ≤ b
          → b < lo + (i + 1)
          → (if place v s a == 57344 + b then 0xA5 else v.cells s (57344 + b)) ≡ 0xA5 =
        λ b m u. elim (Bool-cases (place v s a == 57344 + b)) [
          | inl x ↦ ap (λ (q : Bool). if q then 0xA5 else v.cells s (57344 + b)) x
          | inr x ↦
              let d : place v s a ≢ 57344 + b = λ y. absurd (ground (arith, x, y)) in
              ap (λ (q : Bool). if q then 0xA5 else v.cells s (57344 + b)) x
              ∙ h.guarded b m (omega (arith, there, d, u))
        ] in
      (
        (tt, bus.store a sentinel s),
        refl,
        record {
          maps = λ j m. e j ∙ h.maps j m;
          in_task = k ∙ h.in_task;
          guarded = λ b m u. c (57344 + b) ∙ mark b m u;
        },
      )

  fill_rounds-At :
      (n i : ℕ) (pages : Cells) (lo : ℕ)
      → pages 7 ≡ 7
      → lo + i + n ≤ 0x1E00
      → Runs
          (At v pages lo (lo + i))
          (each n i (λ j. outb bus (u16 (0xE000 + lo + j)) sentinel))
          (λ _. At v pages lo (lo + (i + n)))
  unfolding each
  fill_rounds-At zero i pages lo seven l s h =
      ((tt, s), refl, subst (λ k. At v pages lo (lo + k) s) (omega arith) h)
  fill_rounds-At (suc n) i pages lo seven l s h =
      Runs-bind (At v pages lo (lo + i)) (λ _. At v pages lo (lo + (i + 1)))
        (λ _. At v pages lo (lo + (i + suc n))) (outb bus (u16 (0xE000 + lo + i)) sentinel) _
        (mark-At pages lo i seven (omega (arith, l)))
        (λ _ t h'.
          let (r, e, x) = fill_rounds-At n (i + 1) pages lo seven (omega (arith, l)) t h' in
          (r, e, subst (λ k. At v pages lo (lo + k) r.1) (omega arith) x))
        s h

  -- The sentinels that fill_sentinel writes.
  pub fill_sentinel-At :
      (pages : Cells) (lo₀ hi₀ lo n : ℕ)
      → pages 7 ≡ 7
      → lo + n ≤ 0x1E00
      → Runs (At v pages lo₀ hi₀) (fill_sentinel bus (0xE000 + lo) n) (λ _. At v pages lo (lo + n))
  unfolding fill_sentinel
  fill_sentinel-At pages lo₀ hi₀ lo n seven l s h =
      let (r, e, x) = fill_rounds-At n 0 pages lo seven (omega (arith, l)) s (record {
        maps = h.maps;
        in_task = h.in_task;
        guarded = λ b m u. absurd (omega (arith, m, u));
      }) in
      (r, e, subst (λ k. At v pages lo (lo + k) r.1) (omega arith) x)

  check_bytes-At :
      (n i : ℕ) (pages : Cells) (lo hi from : ℕ) (verbose : Bool)
      → pages 7 ≡ 7
      → lo ≤ from
      → from + i + n ≤ hi
      → hi ≤ 0x1E00
      → Runs
          (At v pages lo hi)
          (check_bytes bus n i (0xE000 + from) verbose 0)
          (λ e s. (e ≡ 0) × At v pages lo hi s)
  unfolding check_bytes inb
  check_bytes-At zero i pages lo hi from verbose seven l m u s h = ((0, s), refl, (refl, h))
  check_bytes-At (suc n) i pages lo hi from verbose seven l m u s h =
      let a = u16 (0xE000 + from + i) in
      let t = (bus.load a s).1 in
      let h' = Same-At bus v sound pages lo hi s t (sound.load_same a s) h in
      let slot : a / 8192 ≡ 7 = omega (arith, m, u) in
      let there : place v s a ≡ 57344 + (from + i) = omega (
        arith,
        place-At bus v sound pages lo hi a s (omega (arith, m, u)) h,
        ap pages slot,
        seven,
        m,
        u,
      ) in
      let found : (bus.load a s).0 ≡ 0xA5 =
        sound.load_ram a s (omega (arith, m, u))
        ∙ ap (v.cells s) there
        ∙ h.guarded (from + i) (omega (arith, l)) (omega (arith, m)) in
      let ih =
        check_bytes-At n (i + 1) pages lo hi from verbose seven l (omega (arith, m)) u t h' in
      let next : ℕ → Option (ℕ × S) = λ x.
        ((if not (x == 0xA5) && (verbose && ltb 0 8) then inb bus a else pure x) >>= λ shown.
        check_bytes bus n (i + 1) (0xE000 + from) verbose (if x == 0xA5 then 0 else u16 (0 + 1)))
          t in
      (ih.0, ap next found ∙ ih.1, ih.2)

  -- The check finds nothing where the sentinels are.
  pub check_sentinel-At :
      (pages : Cells) (lo hi from n : ℕ) (verbose : Bool)
      → pages 7 ≡ 7
      → lo ≤ from
      → from + n ≤ hi
      → hi ≤ 0x1E00
      → Runs
          (At v pages lo hi)
          (check_sentinel bus (0xE000 + from) n verbose)
          (λ e s. (e ≡ 0) × At v pages lo hi s)
  unfolding check_sentinel
  check_sentinel-At pages lo hi from n verbose seven l m u =
      check_bytes-At n 0 pages lo hi from verbose seven l (omega (arith, m)) u
