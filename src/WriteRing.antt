-- ===== src/WriteRing.antt =====
-- src/pico_thing.cpp, write_ring: the ring of 32 entries in which dma_bus_write_irq_handler leaves
-- the guest's writes for the loop of main_core1. Both run on core 1; the handler may come between
-- any two steps of the loop.
pub mod Newest
pub mod Window
use pico_thing_main.Base.{ℕ, ◌+◌, ◌-◌, ◌%◌, ◌≡◌, Bool, not, List, [], ◌∷◌, ◌==◌, if◌then◌else◌, u8}

-- write_entry
pub record WriteEntry : Type 0 where
  pub location : ℕ  -- uint8_t
  pub value : ℕ  -- uint8_t

pub record WriteRing : Type 0 where
  pub write_ring : ℕ → WriteEntry
  pub write_ring_head : ℕ  -- uint8_t
  pub write_ring_tail : ℕ  -- uint8_t

-- `(i + 1u) & WRITE_RING_MASK`
abbrev pub next_entry : ℕ → ℕ
next_entry i = (i + 1) % 32

-- The end of dma_bus_write_irq_handler: a full ring loses its oldest entry.
unfoldable pub push_write : WriteEntry → WriteRing → WriteRing
push_write e r =
    let h = r.write_ring_head in
    let next_h = next_entry h in
    record {
      write_ring = λ j. if h == j then e else r.write_ring j;
      write_ring_head = next_h;
      write_ring_tail =
          if next_h == r.write_ring_tail then next_entry r.write_ring_tail else r.write_ring_tail;
    }

-- The handler, run for several writes of the guest.
abbrev pub push_writes : List WriteEntry → WriteRing → WriteRing
push_writes [] r = r
push_writes (e ∷ es) r = push_writes es (push_write e r)

-- The test of the loop.
unfoldable pub has_writes : WriteRing → Bool
has_writes r = not (r.write_ring_tail == r.write_ring_head)

-- The head of the loop: it loads the tail, the location and the value, and stores the next tail.
-- The three lists are what the handler pushes after each load.
unfoldable pub take_write :
    List WriteEntry → List WriteEntry → List WriteEntry → WriteRing → WriteEntry × WriteRing
take_write es₀ es₁ es₂ r =
    let t = r.write_ring_tail in
    let r₀ = push_writes es₀ r in
    let written_location = (r₀.write_ring t).location in
    let r₁ = push_writes es₁ r₀ in
    let written_byte = (r₁.write_ring t).value in
    let r₂ = push_writes es₂ r₁ in
    (
      record { location = written_location; value = written_byte },
      record r₂ { write_ring_tail = next_entry t },
    )
