-- ===== src/Torture/Steps.antt =====
-- What a step keeps, on a bus with a sound translation.
use pico_thing_main.Base.{
  ℕ, zero, suc, ◌+◌, ◌*◌, ◌/◌, ◌%◌, ◌≤◌, ◌<◌, ◌≡◌, ◌≢◌, refl, ap, ◌∙◌, Bool, Option, none, some,
  ◌==◌, arith, if◌then◌else◌, update, u16, ne→==, Cells,
}
use pico_thing_main.Torture.Bus.{GuestBus}
use pico_thing_main.Torture.{M, ◌>>=◌, each, tally, inb, outb}

-- From a state with the first property, the step ends, with the second.
abbrev pub Runs : {S A : Type 0} → (S → Type 0) → M S A → (A → S → Type 0) → Type 0
Runs {S} {A} P m Q = (s : S) → P s → (r : A × S) × (m s ≡ some r) × Q r.0 r.1

module _ {S A B : Type 0} where
  pub Runs-bind :
      (P : S → Type 0) (Q : A → S → Type 0) (R : B → S → Type 0) (m : M S A) (f : A → M S B)
      → Runs P m Q
      → ((a : A) → Runs (Q a) (f a) R)
      → Runs P (m >>= f) R
  Runs-bind P Q R m f h k s p =
      let (r, e, q) = h s p in
      let (r', e', q') = k r.0 r.1 q in
      (
        r',
        ap
              (λ (o : Option (A × S)). elim o as (λ _. Option (B × S)) [
                | none ↦ none
                | some x ↦ f x.0 x.1
              ])
              e
            ∙ e',
        q',
      )

module _ {S : Type 0} (P : S → Type 0) where
  pub Runs-each :
      (n i : ℕ) (body : ℕ → M S (Unit {0}))
      → ((j : ℕ) → i ≤ j → j < i + n → Runs P (body j) (λ _. P))
      → Runs P (each n i body) (λ _. P)
  unfolding each
  Runs-each zero i body h s p = ((tt, s), refl, p)
  Runs-each (suc n) i body h s p =
      Runs-bind P (λ _. P) (λ _. P) (body i) _ (h i (omega arith) (omega arith))
        (λ _. Runs-each n (i + 1) body (λ j l u. h j (omega (arith, l)) (omega (arith, u)))) s p

  -- Rounds without errors.
  pub Runs-tally :
      (n i : ℕ) (body : ℕ → M S ℕ)
      → ((j : ℕ) → i ≤ j → j < i + n → Runs P (body j) (λ e s. (e ≡ 0) × P s))
      → Runs P (tally n i body 0) (λ e s. (e ≡ 0) × P s)
  unfolding tally
  Runs-tally zero i body h s p = ((0, s), refl, (refl, p))
  Runs-tally (suc n) i body h s p =
      Runs-bind P (λ e s. (e ≡ 0) × P s) (λ e s. (e ≡ 0) × P s) (body i) _
        (h i (omega arith) (omega arith))
        (λ e s x.
          let ih =
            Runs-tally n (i + 1) body (λ j l u. h j (omega (arith, l)) (omega (arith, u))) s x.1 in
          (ih.0, ap (λ (k : ℕ). tally n (i + 1) body (u16 (0 + k)) s) x.0 ∙ ih.1, ih.2))
        s p

-- What is behind the bus: memory by pages of 8 KiB, the page of each slot of each task, and the task.
pub record View (S : Type 0) : Type 0 where
  pub cells : S → Cells
  pub entry : S → Cells
  pub task : S → ℕ

abbrev pub place : {S : Type 0} → View S → S → ℕ → ℕ
place v s a = v.entry s (v.task s * 8 + a / 8192) * 8192 + a % 8192

abbrev pub Same : {S : Type 0} → View S → S → S → Type 0
Same v s t =
    ((j : ℕ) → v.cells t j ≡ v.cells s j)
    × ((j : ℕ) → v.entry t j ≡ v.entry s j)
    × (v.task t ≡ v.task s)

-- A sound translation: below $FE00 an access goes to the cell that the registers give and to no other,
-- the registers keep what is stored in them, the task is the one that is stored, and the drive's registers touch neither.
pub record IsSound {S : Type 0} (bus : GuestBus S) (v : View S) : Type 0 where
  pub load_same : (a : ℕ) (s : S) → Same v s (bus.load a s).1
  pub load_ram : (a : ℕ) (s : S) → a < 0xFE00 → (bus.load a s).0 ≡ v.cells s (place v s a)
  pub load_entry : (i : ℕ) (s : S) → i < 64 → (bus.load (0xFE00 + i) s).0 ≡ v.entry s i
  pub store_ram :
      (a x : ℕ) (s : S)
      → a < 0xFE00
      → ((j : ℕ) → v.cells (bus.store a x s) j ≡ update (v.cells s) (place v s a) x j)
        × ((j : ℕ) → v.entry (bus.store a x s) j ≡ v.entry s j)
        × (v.task (bus.store a x s) ≡ v.task s)
  pub store_entry :
      (i x : ℕ) (s : S)
      → i < 64
      → x < 256
      → ((j : ℕ) → v.cells (bus.store (0xFE00 + i) x s) j ≡ v.cells s j)
        × ((j : ℕ) → v.entry (bus.store (0xFE00 + i) x s) j ≡ update (v.entry s) i x j)
        × (v.task (bus.store (0xFE00 + i) x s) ≡ v.task s)
  pub store_task :
      (x : ℕ) (s : S)
      → x < 8
      → ((j : ℕ) → v.cells (bus.store 0xFFC0 x s) j ≡ v.cells s j)
        × ((j : ℕ) → v.entry (bus.store 0xFFC0 x s) j ≡ v.entry s j)
        × (v.task (bus.store 0xFFC0 x s) ≡ x)
  pub store_drive : (a x : ℕ) (s : S) → 0xFF00 ≤ a → a < 0xFF10 → Same v s (bus.store a x s)

-- Task 0 has these pages, and the bytes of page 7 between two offsets are the sentinel.
pub record At {S : Type 0} (v : View S) (pages : Cells) (lo hi : ℕ) (s : S) : Type 0 where
  pub maps : (i : ℕ) → i < 8 → v.entry s i ≡ pages i
  pub in_task : v.task s ≡ 0
  pub guarded : (a : ℕ) → lo ≤ a → a < hi → v.cells s (57344 + a) ≡ 0xA5

module _ {S : Type 0} (bus : GuestBus S) (v : View S) (sound : IsSound bus v) where
  pub Same-At :
      (pages : Cells) (lo hi : ℕ) (s t : S) → Same v s t → At v pages lo hi s → At v pages lo hi t
  Same-At pages lo hi s t (c, e, k) h = record {
    maps = λ i l. e i ∙ h.maps i l;
    in_task = k ∙ h.in_task;
    guarded = λ a l u. c (57344 + a) ∙ h.guarded a l u;
  }

  pub place-At :
      (pages : Cells) (lo hi a : ℕ) (s : S)
      → a < 0xFE00
      → At v pages lo hi s
      → place v s a ≡ pages (a / 8192) * 8192 + a % 8192
  place-At pages lo hi a s l h =
      let slot : v.task s * 8 + a / 8192 ≡ a / 8192 = omega (arith, h.in_task) in
      ap (λ (p : ℕ). p * 8192 + a % 8192)
        (ap (v.entry s) slot ∙ h.maps (a / 8192) (omega (arith, l)))

  pub inb-At :
      (pages : Cells) (lo hi a : ℕ) → Runs (At v pages lo hi) (inb bus a) (λ _. At v pages lo hi)
  unfolding inb
  inb-At pages lo hi a s h = (bus.load a s, refl, Same-At pages lo hi s _ (sound.load_same a s) h)

  -- A store through a slot that does not show page 7.
  pub outb-At :
      (pages : Cells) (lo hi a x : ℕ)
      → hi ≤ 8192
      → a < 0xFE00
      → pages (a / 8192) ≢ 7
      → Runs (At v pages lo hi) (outb bus a x) (λ _. At v pages lo hi)
  unfolding outb
  outb-At pages lo hi a x top l d s h =
      let (c, e, k) = sound.store_ram a x s l in
      let there = place-At pages lo hi a s l h in
      let other : (b : ℕ) → b < 8192 → place v s a ≢ 57344 + b =
        λ b m q. d (omega (arith, there, q, m)) in
      (
        (tt, bus.store a x s),
        refl,
        record {
          maps = λ i m. e i ∙ h.maps i m;
          in_task = k ∙ h.in_task;
          guarded = λ b m u.
              c (57344 + b)
              ∙ ap (λ (q : Bool). if q then x else v.cells s (57344 + b))
                  (ne→== (place v s a) (57344 + b) (other b (omega (arith, u, top))))
              ∙ h.guarded b m u;
        },
      )

  -- A slot of task 0 shows another page.
  pub remap-At :
      (pages : Cells) (lo hi i x : ℕ)
      → i < 8
      → x < 256
      → Runs (At v pages lo hi) (outb bus (0xFE00 + i) x) (λ _. At v (update pages i x) lo hi)
  unfolding outb
  remap-At pages lo hi i x l m s h =
      let (c, e, k) = sound.store_entry i x s (omega (arith, l)) m in
      (
        (tt, bus.store (0xFE00 + i) x s),
        refl,
        record {
          maps = λ j n. e j ∙ ap (λ (y : ℕ). if i == j then x else y) (h.maps j n);
          in_task = k ∙ h.in_task;
          guarded = λ b n u. c (57344 + b) ∙ h.guarded b n u;
        },
      )
