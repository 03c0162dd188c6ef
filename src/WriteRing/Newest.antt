-- ===== src/WriteRing/Newest.antt =====
-- The ring keeps the newest 31 writes, in order.
use pico_thing_main.Base.{
  ℕ, zero, suc, ◌+◌, ◌-◌, ◌%◌, ◌≤◌, ◌<◌, ◌≡◌, refl, sym, ap, ap₂, ◌∙◌, List, [], ◌∷◌, ◌++◌, ltb,
  Bool-cases, inl, inr, arith, length, drop, length-drop, items, items_cong, items-snoc,
  length-items, length-append, append_assoc, append-nil,
}
use pico_thing_main.WriteRing.{WriteEntry, WriteRing, next_entry, push_write, push_writes}

pub record InRing (r : WriteRing) : Type 0 where
  pub head_in : r.write_ring_head < 32
  pub tail_in : r.write_ring_tail < 32

abbrev pub pending : WriteRing → ℕ
pending r = (r.write_ring_head + 32 - r.write_ring_tail) % 32

abbrev pub entry_at : WriteRing → ℕ → WriteEntry
entry_at r k = r.write_ring (k % 32)

-- The writes that wait, oldest first.
abbrev pub writes : WriteRing → List WriteEntry
writes r = items (entry_at r) r.write_ring_tail (pending r)

-- The last `n` items.
abbrev pub newest {ℓ} : {A : Type ℓ} → ℕ → List A → List A
newest n xs = drop (length xs - n) xs

pub length-writes : (r : WriteRing) → length (writes r) ≡ pending r
length-writes r = length-items (entry_at r) r.write_ring_tail (pending r)

pub push_write-InRing : (e : WriteEntry) (r : WriteRing) → InRing r → InRing (push_write e r)
unfolding push_write
push_write-InRing e r v = ground arith

kept_cells :
    (e : WriteEntry) (r : WriteRing)
    → InRing r
    → (j : ℕ) → j < pending r
    → entry_at (push_write e r) (r.write_ring_tail + j) ≡ entry_at r (r.write_ring_tail + j)
unfolding push_write
kept_cells e r v j l = ground arith

new_cell :
    (e : WriteEntry) (r : WriteRing)
    → InRing r
    → entry_at (push_write e r) (r.write_ring_tail + pending r) ≡ e
unfolding push_write
new_cell e r v = ground arith

-- All the cells from the old tail on, the new one included.
pushed_cells :
    (e : WriteEntry) (r : WriteRing)
    → InRing r
    → items (entry_at (push_write e r)) r.write_ring_tail (suc (pending r)) ≡ writes r ++ e ∷ []
pushed_cells e r v =
    items-snoc (entry_at (push_write e r)) r.write_ring_tail (pending r)
    ∙ ap₂ (λ (xs : List WriteEntry) (x : WriteEntry). xs ++ x ∷ [])
        (items_cong (entry_at (push_write e r)) (entry_at r) r.write_ring_tail r.write_ring_tail
          (pending r) (kept_cells e r v))
        (new_cell e r v)

push_tail :
    (e : WriteEntry) (r : WriteRing)
    → InRing r
    → pending r < 31
    → (push_write e r).write_ring_tail ≡ r.write_ring_tail
unfolding push_write
push_tail e r v l = ground arith

push_pending :
    (e : WriteEntry) (r : WriteRing)
    → InRing r
    → pending r < 31
    → pending (push_write e r) ≡ suc (pending r)
unfolding push_write
push_pending e r v l = ground arith

-- The handler adds an entry to a ring that is not full, and leaves the tail alone.
pub push_write-room :
    (e : WriteEntry) (r : WriteRing)
    → InRing r
    → pending r < 31
    → (writes (push_write e r) ≡ writes r ++ e ∷ [])
      × (pending (push_write e r) ≡ suc (pending r))
      × ((push_write e r).write_ring_tail ≡ r.write_ring_tail)
push_write-room e r v l = (
  ap₂ (items (entry_at (push_write e r))) (push_tail e r v l) (push_pending e r v l)
      ∙ pushed_cells e r v,
  push_pending e r v l,
  push_tail e r v l,
)

full_tail :
    (e : WriteEntry) (r : WriteRing)
    → InRing r
    → pending r ≡ 31
    → ((push_write e r).write_ring_tail ≡ next_entry r.write_ring_tail)
      × (pending (push_write e r) ≡ 31)
unfolding push_write
full_tail e r v l = (ground arith, ground arith)

-- A full ring gives up its oldest entry.
push_write-full :
    (e : WriteEntry) (r : WriteRing)
    → InRing r
    → pending r ≡ 31
    → (writes (push_write e r) ≡ drop 1 (writes r ++ e ∷ [])) × (pending (push_write e r) ≡ 31)
push_write-full e r v l =
    let (tail, level) = full_tail e r v l in
    let n = push_write e r in
    let moved : writes n ≡ items (entry_at n) (r.write_ring_tail + 1) 31 =
      ap₂ (items (entry_at n)) tail level
      ∙ items_cong (entry_at n) (entry_at n) (next_entry r.write_ring_tail) (r.write_ring_tail + 1)
          31 λ j _. ap n.write_ring (omega arith) in
    let suc_level : 32 ≡ suc (pending r) = omega (arith, l) in
    (
      moved
          ∙ ap (λ (k : ℕ). drop 1 (items (entry_at n) r.write_ring_tail k)) suc_level
          ∙ ap (drop 1) (pushed_cells e r v),
      level,
    )

module _ {ℓ} {A : Type ℓ} where
  drop_left : (k : ℕ) (xs zs : List A) → k ≤ length xs → drop k xs ++ zs ≡ drop k (xs ++ zs)
  drop_left zero xs zs h = refl
  drop_left (suc k) [] zs h = absurd (omega arith)
  drop_left (suc k) (x ∷ xs) zs h = drop_left k xs zs (omega arith)

  drop_nil : (k : ℕ) → drop {A = A} k [] ≡ []
  drop_nil zero = refl
  drop_nil (suc k) = refl

  drop-drop : (k a : ℕ) (xs : List A) → drop a (drop k xs) ≡ drop (k + a) xs
  drop-drop zero a xs = ap (λ n. drop n xs) (omega arith)
  drop-drop (suc k) a [] = drop_nil a ∙ sym (drop_nil (suc k + a))
  drop-drop (suc k) a (x ∷ xs) = drop-drop k a xs ∙ ap (λ n. drop n (x ∷ xs)) next
    where
      next : suc (k + a) ≡ suc k + a
      next = omega arith

  newest-newest : (n : ℕ) (xs zs : List A) → newest n (newest n xs ++ zs) ≡ newest n (xs ++ zs)
  newest-newest n xs zs =
      let k = length xs - n in
      let whole : k + (length (newest n xs ++ zs) - n) ≡ length (xs ++ zs) - n =
        omega (arith, length-append (newest n xs) zs, length-append xs zs, length-drop k xs) in
      ap (drop (length (newest n xs ++ zs) - n)) (drop_left k xs zs (omega arith))
      ∙ drop-drop k (length (newest n xs ++ zs) - n) (xs ++ zs)
      ∙ ap (λ j. drop j (xs ++ zs)) whole

  newest_all : (n : ℕ) (xs : List A) → length xs ≤ n → newest n xs ≡ xs
  newest_all n xs h = ap (λ j. drop j xs) none_dropped
    where
      none_dropped : length xs - n ≡ 0
      none_dropped = omega arith

  newest_one : (n k : ℕ) (xs : List A) → length xs ≡ n + k → newest n xs ≡ drop k xs
  newest_one n k xs h = ap (λ j. drop j xs) dropped
    where
      dropped : length xs - n ≡ k
      dropped = omega arith

pub push_write-newest :
    (e : WriteEntry) (r : WriteRing)
    → InRing r
    → writes (push_write e r) ≡ newest 31 (writes r ++ e ∷ [])
push_write-newest e r v =
    let all = writes r ++ e ∷ [] in
    let count : length all ≡ pending r + 1 =
      length-append (writes r) (e ∷ []) ∙ ap (λ k. k + 1) (length-writes r) in
    elim (Bool-cases (ltb (pending r) 31)) [
      | inl l ↦
          (push_write-room e r v (ground (arith, l))).0
          ∙ sym (newest_all 31 all (ground (arith, l, count)))
      | inr l ↦
          let full : pending r ≡ 31 = ground (arith, l, v.head_in, v.tail_in) in
          (push_write-full e r v full).0 ∙ sym (newest_one 31 1 all (omega (arith, count, full)))
    ]

-- However many writes the handler pushes, and however full the ring was, a ring whose positions are
-- in range then holds the newest 31 of the writes that waited and the new ones, in order.
pub push_writes-newest :
    (es : List WriteEntry) (r : WriteRing)
    → InRing r
    → writes (push_writes es r) ≡ newest 31 (writes r ++ es)
push_writes-newest [] r v = sym (
    ap (newest 31) (append-nil (writes r))
    ∙ newest_all 31 (writes r) (omega (arith, length-writes r)))
push_writes-newest (e ∷ es) r v =
    push_writes-newest es (push_write e r) (push_write-InRing e r v)
    ∙ ap (λ xs. newest 31 (xs ++ es)) (push_write-newest e r v)
    ∙ newest-newest 31 (writes r ++ e ∷ []) es
    ∙ ap (newest 31) (append_assoc (writes r) (e ∷ []) es)
