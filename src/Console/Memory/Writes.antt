-- ===== src/Console/Memory/Writes.antt =====
-- MODIFY on a register, while the guest writes.
use pico_thing_main.Base.{
  ℕ, ◌≡◌, ◌≢◌, refl, ap, Bool, true, false, List, [], ◌∷◌, ◌==◌, ne→==, if◌then◌else◌,
}
use pico_thing_main.WriteRing.{WriteEntry, WriteRing, next_entry, push_write, push_writes}

-- The lines of CMD_MODIFY that push a write, on core 0, and what the handler on core 1 pushes after
-- the load of the head.
unfoldable pub push_from_core0 : WriteEntry → List WriteEntry → WriteRing → WriteRing
push_from_core0 e es r =
    let h = r.write_ring_head in
    let r₁ = push_writes es r in
    let next_h = next_entry h in
    record {
      write_ring = λ j. if h == j then e else r₁.write_ring j;
      write_ring_head = next_h;
      write_ring_tail =
          if next_h == r₁.write_ring_tail
          then next_entry r₁.write_ring_tail
          else r₁.write_ring_tail;
    }

-- With no write of the guest in between, the command pushes as the handler does.
pub push_from_core0_alone :
    (e : WriteEntry) (r : WriteRing) → push_from_core0 e [] r ≡ push_write e r
unfolding push_from_core0 push_write
push_from_core0_alone e r = refl

one_cell :
    (h : ℕ) (e f : WriteEntry) (c : ℕ → WriteEntry) (j : ℕ)
    → (if h == j then e else if h == j then f else c j) ≡ (if h == j then e else c j)
one_cell h e f c j = by_test (h == j)
  where
    by_test : (b : Bool) → (if b then e else if b then f else c j) ≡ (if b then e else c j)
    by_test true = refl
    by_test false = refl

-- If the handler pushes a write of the guest after the command has loaded the head of a ring that is
-- not full, the guest's write is lost: the ring is as if the command alone had pushed. So core 1
-- never serves it.
pub push_from_core0_loses :
    (e f : WriteEntry) (r : WriteRing)
    → next_entry r.write_ring_head ≢ r.write_ring_tail
    → push_from_core0 e (f ∷ []) r ≡ push_write e r
unfolding push_from_core0 push_write
push_from_core0_loses e f r h =
    let t = r.write_ring_tail in
    let n = next_entry r.write_ring_head in
    let same_tail : (if n == t then next_entry t else t) ≡ t =
      ap (λ (q : Bool). if q then next_entry t else t) (ne→== n t h) in
    let tail = ap (λ (u : ℕ). if n == u then next_entry u else u) same_tail in
    λ i. record {
      write_ring = λ j. one_cell r.write_ring_head e f r.write_ring j i;
      write_ring_head = n;
      write_ring_tail = tail i;
    }
