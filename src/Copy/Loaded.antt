-- ===== src/Copy/Loaded.antt =====
-- src/pico_thing.cpp: copy(). The snippet in its place, and what a run of it is told.
use mathlib.Core.Option
use pico_thing_main.Base.{
  ℕ, zero, suc, ◌+◌, ◌≤◌, ◌<◌, ◌≡◌, ◌≢◌, ap, ◌∙◌, some, Cells, items, length-items, byte_at, arith,
}
use pico_thing_main.Registers.{Registers, read_byte, read_word, put_word}
use pico_thing_main.Registers.Laws.{copy_in-byte_at}
use pico_thing_main.Core1.{register_snippet, reset_vector_offset}
use pico_thing_main.Core1.Requests.{snippet_copy}
use pico_thing_main.Copy.{set_chunk}

-- The snippet stands in its place, but for the three bytes in which it is told what to copy, and
-- RESET points to it.
pub record IsLoaded (code : Cells) (r : Registers) : Type 0 where
  pub bytes : (j : ℕ) → j < 16 → j ≢ 4 → j ≢ 5 → j ≢ 7 → r.read_registers (32 + j) ≡ code j
  pub vector : read_word r reset_vector_offset ≡ register_snippet

-- It is told to copy one to sixteen bytes of the memory below the devices.
pub record IsTold (code : Cells) (r : Registers) : Type 0 where
  pub loaded : IsLoaded code r
  pub some_bytes : 0 < read_byte r 39
  pub one_chunk : read_byte r 39 ≤ 16
  pub below_devices : read_word r 36 + read_byte r 39 ≤ 0xFE00

-- Blocks that agree from the snippet on, but for those three bytes.
pub IsLoaded-kept :
    (code : Cells) (r s : Registers)
    → ((j : ℕ) → 32 ≤ j → j ≢ 36 → j ≢ 37 → j ≢ 39 → s.read_registers j ≡ r.read_registers j)
    → IsLoaded code r
    → IsLoaded code s
IsLoaded-kept code r s k h = record {
  bytes = λ j l a b c.
      k (32 + j) (omega arith) (λ e. a (omega (arith, e))) (λ e. b (omega (arith, e)))
        (λ e. c (omega (arith, e)))
      ∙ h.bytes j l a b c;
  vector =
      let high =
        k 62 (omega arith) (λ e. absurd (omega (arith, e))) (λ e. absurd (omega (arith, e)))
          (λ e. absurd (omega (arith, e))) in
      let low =
        k 63 (omega arith) (λ e. absurd (omega (arith, e))) (λ e. absurd (omega (arith, e)))
          (λ e. absurd (omega (arith, e))) in
      ground (arith, high, low, h.vector);
}

pub set_chunk-IsLoaded :
    (code : Cells) (start len : ℕ) (r : Registers)
    → IsLoaded code r
    → IsLoaded code (set_chunk start len r)
set_chunk-IsLoaded code start len r =
    IsLoaded-kept code r (set_chunk start len r) (λ j l a b c. ground (arith, a, b, c))

pub byte_at-items : (f : Cells) (k n i : ℕ) → i < n → byte_at (items f k n) i ≡ f (k + i)
byte_at-items f k zero i h = absurd (omega (arith, h))
byte_at-items f k (suc n) zero h = ap f (omega arith)
byte_at-items f k (suc n) (suc i) h =
    let e : k + 1 + i ≡ k + suc i = omega arith in
    byte_at-items f (k + 1) n i (omega (arith, h)) ∙ ap f e

-- snippet_copy puts a snippet there.
pub snippet_copy-IsLoaded :
    (code : Cells) (r : Registers)
    → (s : Registers) × (snippet_copy code r ≡ some s) × IsLoaded code s
unfolding snippet_copy
snippet_copy-IsLoaded code r =
    let count = length-items code 0 16 in
    let (s, e, inside, _) = copy_in-byte_at r 32 (items code 0 16) (ground (arith, count)) in
    let t = put_word s 62 0xFFE0 in
    let kept : (j : ℕ) → j < 16 → t.read_registers (32 + j) ≡ s.read_registers (32 + j) =
      λ j l. ground arith in
    (
      t,
      ap (Option.map (λ (q : Registers). put_word q 62 0xFFE0)) e,
      record {
        bytes = λ j l a b c.
            kept j l
            ∙ inside j (omega (arith, count, l))
            ∙ byte_at-items code 0 16 j l
            ∙ ap code (omega arith);
        vector = ground arith;
      },
    )
