-- ===== src/UartPump/Advance.antt =====
-- A buffer of which some bytes have been passed on.
use pico_thing_main.Base.{
  ℕ, ◌+◌, ◌-◌, ◌≤◌, ◌<◌, ◌≡◌, sym, ap, ap₂, ◌∙◌, true, if_elim, List, ◌++◌, append_assoc, leb,
  arith, if◌then◌else◌, Cells, items, items-split, u16,
}

-- What has left one part of a stream has come to the next.
pub passed :
    (a b t' w' : List ℕ) {a' t rest : List ℕ}
    → a' ≡ a ++ b
    → t ≡ b ++ t'
    → t ++ w' ≡ rest
    → a' ++ (t' ++ w') ≡ a ++ rest
passed a b t' w' e f g =
    ap (λ xs. xs ++ (t' ++ w')) e
    ∙ append_assoc a b (t' ++ w')
    ∙ ap (◌++◌ a) (sym (append_assoc b t' w') ∙ ap (λ xs. xs ++ w') (sym f) ∙ g)

pub record Advanced (n : ℕ) (buf : Cells) (index count : ℕ) (index' count' : ℕ) : Type 0 where
  pub split :
      items buf index (count - index) ≡ items buf index n ++ items buf index' (count' - index')
  pub fits : count' ≤ 512
  pub ahead : 0 < count' → index' < count'

items-rest :
    (buf : Cells) (index count n : ℕ)
    → n ≤ count - index
    → items buf index (count - index)
      ≡ items buf index n ++ items buf (index + n) (count - (index + n))
items-rest buf index count n l =
    let e : count - index ≡ n + (count - (index + n)) = omega arith in
    ap (items buf index) e ∙ items-split buf index n (count - (index + n))

ended : (count : ℕ) {i j : ℕ} → leb count i ≡ true → i ≡ j → count - j ≡ 0 - i
ended count t e = ground arith

-- The step of both buffers, in its two cases.
pub advance :
    (n : ℕ) (buf : Cells) (index count : ℕ)
    → count ≤ 512
    → index ≤ count
    → n ≤ count - index
    → Advanced n buf index count
        (u16 (index + n))
        (if leb count (u16 (index + n)) then 0 else count)
advance n buf index count f a l =
    let e : u16 (index + n) ≡ index + n = omega arith in
    let r = items-rest buf index count n l in
    if_elim (λ (k : ℕ). Advanced n buf index count (u16 (index + n)) k)
      (leb count (u16 (index + n)))
      (λ t. record {
        split = r ∙ ap₂ (λ i k. items buf index n ++ items buf i k) (sym e) (ended count t e);
        fits = omega arith;
        ahead = λ z. absurd (omega arith);
      })
      (λ t. record {
        split = r ∙ ap (λ i. items buf index n ++ items buf i (count - i)) (sym e);
        fits = f;
        ahead = λ z. ground arith;
      })
