-- ===== src/Console/LineEditor/Reference.antt =====
-- The line editor on its array does what an editor on a list does.
use pico_thing_main.Base.{
  ℕ, zero, suc, ◌+◌, ◌-◌, ◌<◌, ◌≤◌, ◌≡◌, ◌≢◌, refl, sym, subst, ap, ap₂, ◌∙◌, Bool, true, false,
  if_elim, List, [], ◌∷◌, ◌++◌, Option, none, some, ltb, arith, if◌then◌else◌, Cells, update,
  length, items, length-items, items_cong, items-snoc,
}
use pico_thing_main.Console.LineEditor.{
  Line, is_newline, is_backspace, is_plain, c_string, key, keys, and_line,
}

-- The list without its last item.
abbrev pub drop_last : List ℕ → List ℕ
drop_last [] = []
drop_last (x ∷ []) = []
drop_last (x ∷ y ∷ xs) = x ∷ drop_last (y ∷ xs)

-- The editor on the text that has been typed.
unfoldable pub edit : ℕ → List ℕ → Option (List ℕ) × List ℕ
edit ch typed =
    if is_newline ch
    then (some typed, [])
    else if is_backspace ch
    then (none, drop_last typed)
    else if ltb (length typed) 255
    then (if is_plain ch then (none, typed ++ ch ∷ []) else (none, typed))
    else (none, typed)

unfoldable pub edits : List ℕ → List ℕ → List (List ℕ) × List ℕ
unfolding edit
edits [] typed = ([], typed)
edits (ch ∷ chs) typed =
    let (text, t₁) = edit ch typed in let (texts, t₂) = edits chs t₁ in (and_line text texts, t₂)

-- The array holds the text, and no NUL in it.
pub record Shows (l : Line) (typed : List ℕ) : Type 0 where
  pub text : items l.buf 0 l.idx ≡ typed
  pub inside : l.idx ≤ 255
  pub no_nul : (j : ℕ) → j < l.idx → l.buf j ≢ 0

c_string-items :
    (buf : Cells) (k m n : ℕ)
    → ((j : ℕ) → j < m → buf (k + j) ≢ 0)
    → buf (k + m) ≡ 0
    → m < n
    → c_string buf k n ≡ items buf k m
unfolding c_string
c_string-items buf k m zero h e l = absurd (omega arith)
c_string-items buf k zero (suc n) h e l = ground (arith, e)
c_string-items buf k (suc m) (suc n) h e l =
    let next : k + 1 + m ≡ k + suc m = omega arith in
    let rest =
      c_string-items buf (k + 1) m n (λ j p. ground (arith, h (suc j))) (ground (arith, e))
        (omega arith) in
    ground (arith, h 0, rest)

record Agrees (a : Option (List ℕ) × Line) (b : Option (List ℕ) × List ℕ) : Type 0 where
  same_line : a.0 ≡ b.0
  shows : Shows a.1 b.1

drop_last-items : (f : Cells) (k n : ℕ) → drop_last (items f k (suc n)) ≡ items f k n
drop_last-items f k zero = refl
drop_last-items f k (suc n) = ap (◌∷◌ (f k)) (drop_last-items f (k + 1) n)

items-update_end : (f : Cells) (n v : ℕ) → items (update f n v) 0 n ≡ items f 0 n
items-update_end f n v = items_cong (update f n v) f 0 0 n λ j l. ground arith

erased_items :
    (buf : Cells) (n : ℕ) (typed : List ℕ)
    → 0 < n
    → items buf 0 n ≡ typed
    → items (update buf n 0) 0 (n - 1) ≡ drop_last typed
erased_items buf zero typed p e = absurd (omega arith)
erased_items buf (suc n) typed p e =
    let z : suc n - 1 ≡ n = omega arith in
    ap (items (update buf (suc n) 0) 0) z
    ∙ items_cong (update buf (suc n) 0) buf 0 0 n (λ j l. ground arith)
    ∙ sym (drop_last-items buf 0 n)
    ∙ ap drop_last e

items-snoc_update :
    (buf : Cells) (n v : ℕ) → items (update buf n v) 0 (n + 1) ≡ items buf 0 n ++ v ∷ []
items-snoc_update buf n v =
    let e : n + 1 ≡ suc n = omega arith in
    ap (items (update buf n v) 0) e
    ∙ items-snoc (update buf n v) 0 n
    ∙ ap₂ (λ xs x. xs ++ x ∷ []) (items-update_end buf n v) (ground arith)

-- The last branch of `key`.
abbrev key_plain : ℕ → Line → Option (List ℕ) × Line
key_plain ch l =
    if ltb l.idx 255
    then (if is_plain ch
        then (none, record { buf = update l.buf l.idx ch; idx = l.idx + 1 })
        else (none, l))
    else (none, l)

if_both :
    (b : Bool) {x y : Option (List ℕ) × Line} {x' y' : Option (List ℕ) × List ℕ}
    → (b ≡ true → Agrees x x')
    → (b ≡ false → Agrees y y')
    → Agrees (if b then x else y) (if b then x' else y')
if_both true f g = f refl
if_both false f g = g refl

module _ (ch : ℕ) (l : Line) (typed : List ℕ) (s : Shows l typed) where
  length-typed : length typed ≡ l.idx
  length-typed = sym (ap length s.text) ∙ length-items l.buf 0 l.idx

  submitted : c_string (update l.buf l.idx 0) 0 256 ≡ typed
  submitted =
      c_string-items (update l.buf l.idx 0) 0 l.idx 256 (λ j p. ground (arith, s.no_nul j))
        (ground arith) (omega (arith, s.inside))
      ∙ items-update_end l.buf l.idx 0
      ∙ s.text

  cleared : Shows (record { buf = update l.buf l.idx 0; idx = 0 }) []
  cleared = record { text = refl; inside = omega arith; no_nul = λ j p. absurd (omega arith) }

  erased :
      0 < l.idx → Shows (record { buf = update l.buf l.idx 0; idx = l.idx - 1 }) (drop_last typed)
  erased p = record {
    text = erased_items l.buf l.idx typed p s.text;
    inside = omega (arith, s.inside);
    no_nul = λ j q. ground (arith, s.no_nul j);
  }

  untouched : l.idx ≡ 0 → Shows l (drop_last typed)
  untouched p = record {
    text = ap (items l.buf 0) p ∙ ap drop_last (sym (ap (items l.buf 0) p) ∙ s.text);
    inside = s.inside;
    no_nul = s.no_nul;
  }

  appended :
      l.idx < 255
      → is_plain ch ≡ true
      → Shows (record { buf = update l.buf l.idx ch; idx = l.idx + 1 }) (typed ++ ch ∷ [])
  appended p q = record {
    text = items-snoc_update l.buf l.idx ch ∙ ap (λ xs. xs ++ ch ∷ []) s.text;
    inside = omega (arith, p);
    no_nul = λ j r. ground (arith, s.no_nul j);
  }

  key-Agrees : Agrees (key ch l) (edit ch typed)
  unfolding key edit
  key-Agrees =
      if_both (is_newline ch) (λ _. record { same_line = ap some submitted; shows = cleared })
        λ _.
          if_both (is_backspace ch)
            (λ _.
              if_elim (λ (x : Option (List ℕ) × Line). Agrees x (none, drop_last typed))
                (ltb 0 l.idx) (λ e. record { same_line = refl; shows = erased (ground arith) })
                (λ e. record { same_line = refl; shows = untouched (ground arith) }))
            λ _.
              subst
                (λ (n : ℕ). Agrees (key_plain ch l) (
                  if ltb n 255
                  then (if is_plain ch then (none, typed ++ ch ∷ []) else (none, typed))
                  else (none, typed)))
                (sym length-typed)
                (if_both (ltb l.idx 255)
                  (λ e.
                    if_both (is_plain ch)
                      (λ f. record { same_line = refl; shows = appended (ground arith) f })
                      λ _. record { same_line = refl; shows = s })
                  λ _. record { same_line = refl; shows = s })

-- From an array that shows a text, process_command gets for any characters exactly the lines that an
-- editor on a list of characters makes of them: a newline submits and empties the text, a backspace
-- takes its last character, and a printable character is appended unless there are 255. The array
-- then shows the text of that editor, with no NUL in it, and the position is at most 255.
pub keys_agree :
    (chs : List ℕ) (l : Line) (typed : List ℕ)
    → Shows l typed
    → ((keys chs l).0 ≡ (edits chs typed).0) × Shows (keys chs l).1 (edits chs typed).1
unfolding keys edits
keys_agree [] l typed s = (refl, s)
keys_agree (ch ∷ chs) l typed s =
    let a = key-Agrees ch l typed s in
    let (e, f) = keys_agree chs (key ch l).1 (edit ch typed).1 a.shows in
    (ap₂ and_line a.same_line e, f)
