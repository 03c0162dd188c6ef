-- ===== src/WriteRing/Window.antt =====
-- What the handler may do to the loop while the loop takes an entry from the ring.
use pico_thing_main.Base.{
  ℕ, zero, suc, ◌+◌, ◌-◌, ◌≤◌, ◌<◌, ◌≡◌, refl, sym, ap, ◌∙◌, false, List, [], ◌∷◌, ◌++◌, arith,
  length, items, items_cong, append_assoc, append-nil,
}
use pico_thing_main.WriteRing.{
  WriteEntry, WriteRing, next_entry, push_write, push_writes, has_writes, take_write,
}
use pico_thing_main.WriteRing.Newest.{
  InRing, pending, entry_at, writes, push_write-room, push_write-InRing, length-writes,
}

-- The handler appends to a ring with room for all that it pushes.
record Extended (es : List WriteEntry) (r n : WriteRing) : Type 0 where
  valid : InRing n
  tail : n.write_ring_tail ≡ r.write_ring_tail
  level : pending n ≡ pending r + length es
  added : writes n ≡ writes r ++ es

push_writes-Extended :
    (es : List WriteEntry) (r : WriteRing)
    → InRing r
    → pending r + length es ≤ 31
    → Extended es r (push_writes es r)
push_writes-Extended [] r v l = record {
  valid = v;
  tail = refl;
  level = omega arith;
  added = sym (append-nil (writes r));
}
push_writes-Extended (e ∷ es) r v l =
    let (added, level, tail) = push_write-room e r v (omega arith) in
    let x = push_writes-Extended es (push_write e r) (push_write-InRing e r v) (omega arith) in
    record {
      valid = x.valid;
      tail = x.tail ∙ tail;
      level = omega (arith, x.level, level);
      added = x.added ∙ ap (λ xs. xs ++ es) added ∙ append_assoc (writes r) (e ∷ []) es;
    }

-- The head and the tail of an enumeration that is not empty.
uncons {ℓ} :
    {A : Type ℓ} (f : ℕ → A) (a n : ℕ) (x : A) (xs : List A)
    → items f a n ≡ x ∷ xs
    → (f a ≡ x) × (0 < n) × (items f (a + 1) (n - 1) ≡ xs)
uncons f a zero x xs h = absurd cc
uncons f a (suc n) x xs h =
    let one_less : suc n - 1 ≡ n = omega arith in
    (cc, omega arith, ap (items f (a + 1)) one_less ∙ cc)

-- The first waiting entry is the one at the tail.
oldest :
    (r : WriteRing) (e : WriteEntry) (es : List WriteEntry)
    → InRing r
    → writes r ≡ e ∷ es
    → r.write_ring r.write_ring_tail ≡ e
oldest r e es v h =
    ap r.write_ring (omega (arith, v.tail_in))
    ∙ (uncons (entry_at r) r.write_ring_tail (pending r) e es h).0

advanced :
    (r : WriteRing) (e : WriteEntry) (es : List WriteEntry)
    → InRing r
    → writes r ≡ e ∷ es
    → writes (record r { write_ring_tail = next_entry r.write_ring_tail }) ≡ es
advanced r e es v h =
    let (_, more, rest) = uncons (entry_at r) r.write_ring_tail (pending r) e es h in
    let n = record r { write_ring_tail = next_entry r.write_ring_tail } in
    let fewer : pending n ≡ pending r - 1 = ground (arith, more, v.head_in, v.tail_in) in
    ap (items (entry_at n) n.write_ring_tail) fewer
    ∙ items_cong (entry_at n) (entry_at r) n.write_ring_tail (r.write_ring_tail + 1) (pending r - 1)
        (λ j _. ap r.write_ring (omega arith))
    ∙ rest

-- The loop takes an entry from a ring in range that has some, and the handler may push writes after
-- each of the loop's loads. As long as the ring has room for all of these, the entry taken is the
-- oldest one, and what then waits is the other ones and the writes pushed, in order: none is lost,
-- and none comes twice.
pub take_write_lem :
    (es₀ es₁ es₂ : List WriteEntry) (r : WriteRing) (e : WriteEntry) (rest : List WriteEntry)
    → InRing r
    → writes r ≡ e ∷ rest
    → pending r + length es₀ + length es₁ + length es₂ ≤ 31
    → ((take_write es₀ es₁ es₂ r).0 ≡ e)
      × (writes (take_write es₀ es₁ es₂ r).1 ≡ rest ++ es₀ ++ es₁ ++ es₂)
unfolding take_write
take_write_lem es₀ es₁ es₂ r e rest v h l =
    let x₀ = push_writes-Extended es₀ r v (omega arith) in
    let r₀ = push_writes es₀ r in
    let x₁ = push_writes-Extended es₁ r₀ x₀.valid (omega (arith, x₀.level)) in
    let r₁ = push_writes es₁ r₀ in
    let x₂ = push_writes-Extended es₂ r₁ x₁.valid (omega (arith, x₁.level, x₀.level)) in
    let r₂ = push_writes es₂ r₁ in
    let h₀ : writes r₀ ≡ e ∷ (rest ++ es₀) = x₀.added ∙ ap (λ xs. xs ++ es₀) h in
    let h₁ : writes r₁ ≡ e ∷ ((rest ++ es₀) ++ es₁) = x₁.added ∙ ap (λ xs. xs ++ es₁) h₀ in
    let h₂ : writes r₂ ≡ e ∷ (((rest ++ es₀) ++ es₁) ++ es₂) = x₂.added ∙ ap (λ xs. xs ++ es₂) h₁ in
    let at₀ : r₀.write_ring r.write_ring_tail ≡ e =
      ap r₀.write_ring (sym x₀.tail) ∙ oldest r₀ e (rest ++ es₀) x₀.valid h₀ in
    let at₁ : r₁.write_ring r.write_ring_tail ≡ e =
      ap r₁.write_ring (sym (x₁.tail ∙ x₀.tail)) ∙ oldest r₁ e ((rest ++ es₀) ++ es₁) x₁.valid h₁ in
    (
      (λ i. record { location = (at₀ i).location; value = (at₁ i).value }),
      ap (λ t. writes (record r₂ { write_ring_tail = next_entry t }))
            (sym (x₂.tail ∙ x₁.tail ∙ x₀.tail))
          ∙ advanced r₂ e (((rest ++ es₀) ++ es₁) ++ es₂) x₂.valid h₂,
    )

-- If a ring in range is full and the handler pushes two writes between the loads of the loop and
-- its store of the tail, then the ring is empty after the store, although it held 31 writes just
-- before: all of them are lost, the two new ones included.
pub take_write_loses :
    (e₀ e₁ : WriteEntry) (r : WriteRing)
    → InRing r
    → pending r ≡ 31
    → (length (writes (push_writes (e₀ ∷ e₁ ∷ []) r)) ≡ 31)
      × (has_writes (take_write [] [] (e₀ ∷ e₁ ∷ []) r).1 ≡ false)
unfolding take_write has_writes push_write
take_write_loses e₀ e₁ r v l =
    (length-writes (push_writes (e₀ ∷ e₁ ∷ []) r) ∙ ground arith, ground arith)
