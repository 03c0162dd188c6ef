-- ===== src/Base/Lists.antt =====
-- Lists measured by native numbers, and the items that a function enumerates.
use Prim.Native.Nat.{ℕ, zero, suc, ◌+◌, ◌-◌, ◌<◌, min}
use mathlib.Core.Path.{◌≡◌, refl, ap, ap₂, ◌∙◌}
use mathlib.Core.List.{List, [], ◌∷◌, ◌++◌}
use native.Mathlib.Omega.{arith}

module _ {ℓ} {A : Type ℓ} where
  abbrev pub length : List A → ℕ
  length [] = 0
  length (x ∷ xs) = suc (length xs)

  abbrev pub take : ℕ → List A → List A
  take zero xs = []
  take (suc n) [] = []
  take (suc n) (x ∷ xs) = x ∷ take n xs

  abbrev pub drop : ℕ → List A → List A
  drop zero xs = xs
  drop (suc n) [] = []
  drop (suc n) (x ∷ xs) = drop n xs

  -- f k, f (k + 1), …, n items.
  abbrev pub items : (ℕ → A) → ℕ → ℕ → List A
  items f k zero = []
  items f k (suc n) = f k ∷ items f (k + 1) n

-- The item at a position, zero past the end.
abbrev pub byte_at : List ℕ → ℕ → ℕ
byte_at [] i = 0
byte_at (x ∷ xs) zero = x
byte_at (x ∷ xs) (suc i) = byte_at xs i

module _ {ℓ} {A : Type ℓ} where
  pub length-append : (xs ys : List A) → length (xs ++ ys) ≡ length xs + length ys
  length-append [] ys = omega arith
  length-append (x ∷ xs) ys = omega (arith, length-append xs ys)

  pub take-append-drop : (n : ℕ) (xs : List A) → take n xs ++ drop n xs ≡ xs
  take-append-drop zero xs = refl
  take-append-drop (suc n) [] = refl
  take-append-drop (suc n) (x ∷ xs) = ap (◌∷◌ x) (take-append-drop n xs)

  pub length-take : (n : ℕ) (xs : List A) → length (take n xs) ≡ min n (length xs)
  length-take zero xs = omega arith
  length-take (suc n) [] = omega arith
  length-take (suc n) (x ∷ xs) = omega (arith, length-take n xs)

  pub length-drop : (n : ℕ) (xs : List A) → length (drop n xs) ≡ length xs - n
  length-drop zero xs = omega arith
  length-drop (suc n) [] = omega arith
  length-drop (suc n) (x ∷ xs) = omega (arith, length-drop n xs)

  pub length-items : (f : ℕ → A) (k n : ℕ) → length (items f k n) ≡ n
  length-items f k zero = refl
  length-items f k (suc n) = ap suc (length-items f (k + 1) n)

  pub items_cong :
      (f g : ℕ → A) (k m n : ℕ)
      → ((j : ℕ) → j < n → f (k + j) ≡ g (m + j))
      → items f k n ≡ items g m n
  items_cong f g k m zero h = refl
  items_cong f g k m (suc n) h =
      ap₂ ◌∷◌ (ap f e₀ ∙ h 0 (omega arith) ∙ ap g e₁)
        (items_cong f g (k + 1) (m + 1) n λ j l. shift j l)
    where
      e₀ : k ≡ k + 0
      e₀ = omega arith

      e₁ : m + 0 ≡ m
      e₁ = omega arith

      shift : (j : ℕ) → j < n → f (k + 1 + j) ≡ g (m + 1 + j)
      shift j l = ground (arith, h (suc j))

  pub items-snoc : (f : ℕ → A) (k n : ℕ) → items f k (suc n) ≡ items f k n ++ f (k + n) ∷ []
  items-snoc f k zero = ground arith
  items-snoc f k (suc n) = ground (arith, items-snoc f (k + 1) n)

  pub items-split : (f : ℕ → A) (k n m : ℕ) → items f k (n + m) ≡ items f k n ++ items f (k + n) m
  items-split f k zero m = ground arith
  items-split f k (suc n) m =
      let e : k + 1 + n ≡ k + suc n = omega arith in
      let s : suc n + m ≡ suc (n + m) = omega arith in
      ap (items f k) s
      ∙ ap (◌∷◌ (f k)) (items-split f (k + 1) n m ∙ ap (λ j. items f (k + 1) n ++ items f j m) e)
