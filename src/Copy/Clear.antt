-- ===== src/Copy/Clear.antt =====
-- What peripheral_clear leaves to the guest.
use mathlib.Core.Option
use pico_thing_main.Base.{
  ℕ, zero, suc, ◌+◌, ◌*◌, ◌%◌, ◌≤◌, ◌<◌, ◌≡◌, ap, ◌∙◌, true, some, ltb, leb, ◌&&◌, ◌==◌,
  if◌then◌else◌, Cells, arith,
}
use pico_thing_main.Registers.{Registers, read_byte, read_word, put_byte, put_word, clear}
use pico_thing_main.TickTimer.{TickTimer, Timer}
use pico_thing_main.TickTimer
use pico_thing_main.Core1.{register_snippet}
use pico_thing_main.Core1.Rearm.{snippet_copy_lem}
use pico_thing_main.Copy.{fill_devices, fill_vectors, peripheral_clear}

fill_devices_lem :
    (n : ℕ) (r : Registers) (j : ℕ)
    → n ≤ 16
    → j < 16
    → (fill_devices n r).read_registers j ≡ (if ltb j n then 0xFF else r.read_registers j)
unfolding fill_devices
fill_devices_lem zero r j h l = ground arith
fill_devices_lem (suc n) r j h l = ground (arith, fill_devices_lem n (put_byte r n 0xFF) j)

fill_vectors_lem :
    (n : ℕ) (r : Registers) (j : ℕ)
    → n ≤ 8
    → j < 64
    → (fill_vectors n r).read_registers j ≡ (
        if leb 48 j && ltb j (48 + n + n)
        then (if j % 2 == 0 then 0xFF else 0xE0)
        else r.read_registers j)
unfolding fill_vectors
fill_vectors_lem zero r j h l = ground arith
fill_vectors_lem (suc n) r j h l =
    ground (arith, fill_vectors_lem n (put_word r (48 + n + n) register_snippet) j)

-- The vectors, and the devices that they leave alone.
filled :
    (s : Registers) (i k : ℕ)
    → i < 16
    → k < 8
    → let q = fill_vectors 8 (put_word s 62 register_snippet) in
      (q.read_registers i ≡ s.read_registers i)
      × (q.read_registers (48 + 2 * k) ≡ 0xFF)
      × (q.read_registers (48 + 2 * k + 1) ≡ 0xE0)
filled s i k l m =
    let s₁ = put_word s 62 register_snippet in
    let other = fill_vectors_lem 8 s₁ i (omega arith) (omega arith) in
    let high = fill_vectors_lem 8 s₁ (48 + 2 * k) (omega arith) (omega arith) in
    let low = fill_vectors_lem 8 s₁ (48 + 2 * k + 1) (omega arith) (omega arith) in
    (ground (arith, other), ground (arith, high), ground (arith, low))

device_after :
    (t : TickTimer) (q : Registers) (i : ℕ)
    → t.status_offset ≡ 9
    → i < 16
    → q.read_registers i ≡ 0xFF
    → read_byte (TickTimer.reset (t, q)).1 i ≡ (if i == 9 then 0 else 0xFF)
unfolding TickTimer.reset
device_after t q i h l e = ground arith

vector_after :
    (t : TickTimer) (q : Registers) (k : ℕ)
    → t.status_offset ≡ 9
    → k < 8
    → q.read_registers (48 + 2 * k) ≡ 0xFF
    → q.read_registers (48 + 2 * k + 1) ≡ 0xE0
    → read_word (TickTimer.reset (t, q)).1 (48 + 2 * k) ≡ register_snippet
unfolding TickTimer.reset
vector_after t q k h l e f =
    let even : (48 + 2 * k) % 64 ≡ 48 + 2 * k = omega arith in
    let odd : (48 + 2 * k) % 64 + 1 ≡ 48 + 2 * k + 1 = omega arith in
    ground (arith, ap q.read_registers even ∙ e, ap q.read_registers odd ∙ f)

-- peripheral_clear with the system vectors, for a timer whose status register is the one that the
-- source gives it, never fails. The guest then reads zero as the timer's status, $FF from every
-- other device, and the address of the snippet in each of the eight vectors.
pub peripheral_clear_lem :
    (code : Cells) (t : TickTimer) (r : Registers) (i k : ℕ)
    → t.status_offset ≡ 9
    → i < 16
    → k < 8
    → (p : Timer) × (peripheral_clear code true (t, r) ≡ some p)
      × (read_byte p.1 i ≡ (if i == 9 then 0 else 0xFF))
      × (read_word p.1 (48 + 2 * k) ≡ register_snippet)
unfolding peripheral_clear
peripheral_clear_lem code t r i k h l m =
    let r₁ = fill_devices 16 (clear r) in
    let (s, e, kept) = snippet_copy_lem code r₁ in
    let s₁ = put_word s 62 register_snippet in
    let q = fill_vectors 8 s₁ in
    let device : s.read_registers i ≡ 0xFF =
      kept i (omega arith) ∙ fill_devices_lem 16 (clear r) i (omega arith) l ∙ ground arith in
    let (other, high, low) = filled s i k l m in
    let q = fill_vectors 8 (put_word s 62 register_snippet) in
    (
      TickTimer.reset (t, q),
      ap
          (λ o.
            Option.map (λ (x : Registers). TickTimer.reset (t, x)) (Option.map (fill_vectors 8) o))
          e,
      device_after t q i h l (other ∙ device),
      vector_after t q k h m high low,
    )
