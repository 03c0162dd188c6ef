-- ===== src/TickTimer.antt =====
-- src/tick_timer.cpp and include/tick_timer.h: the 50 Hz tick interrupt and the countdown to an NMI.
-- A method takes the timer and the shared register blocks. The alarm that calls `callback` every
-- 20 ms belongs to the SDK: a tick of it is a call, at any moment.
pub mod Laws
use pico_thing_main.Base.{
  ℕ, ◌+◌, ◌-◌, ◌%◌, ◌/◌, ◌≡◌, Bool, true, false, not, ◌==◌, if◌then◌else◌, List, [], ◌∷◌,
}
use pico_thing_main.Interrupt.{Interrupt}
use pico_thing_main.Interrupt
use pico_thing_main.Registers.{Registers, put_byte}

pub record TickTimer : Type 0 where
  pub control_offset : ℕ
  pub status_offset : ℕ
  pub irq_pending : Bool
  pub enabled : Bool
  pub nmi_countdown : ℕ  -- uint8_t

abbrev pub Timer : Type 0
Timer = TickTimer × Registers

-- The constructor: it writes no register.
unfoldable pub construct : ℕ → ℕ → TickTimer
construct ctrl_off stat_off = record {
  control_offset = ctrl_off;
  status_offset = stat_off;
  irq_pending = false;
  enabled = false;
  nmi_countdown = 0;
}

unfoldable pub callback : Timer → Timer
callback (t, r) =
    if t.enabled then (record t { irq_pending = true }, put_byte r t.status_offset 0x80) else (t, r)

-- The low bit of a control byte, and the five above it.
abbrev pub enable_bit : ℕ → Bool
enable_bit val = val % 2 == 1

abbrev pub countdown_field : ℕ → ℕ
countdown_field val = val / 2 % 32

unfoldable pub control : ℕ → Timer → Timer
control val (t, r) =
    let t₁ = record t { enabled = enable_bit val } in
    let t₂ = if not t₁.enabled then record t₁ { irq_pending = false } else t₁ in
    let r₂ = if not t₁.enabled then put_byte r t.status_offset 0 else r in
    let countdown = countdown_field val in
    (if countdown == 0 then t₂ else record t₂ { nmi_countdown = countdown }, r₂)

-- The result comes with the new state.
unfoldable pub tick : TickTimer → TickTimer × Bool
tick t =
    if t.nmi_countdown == 0
    then (t, false)
    else (record t { nmi_countdown = t.nmi_countdown - 1 }, t.nmi_countdown - 1 == 0)

unfoldable pub acknowledge : Timer → Timer
acknowledge (t, r) = (record t { irq_pending = false }, put_byte r t.status_offset 0)

unfoldable pub reset : Timer → Timer
reset (t, r) = (
  record t { enabled = false; irq_pending = false; nmi_countdown = 0 },
  put_byte r t.status_offset 0,
)

unfoldable pub has_interrupt : TickTimer → Interrupt
has_interrupt t = if t.irq_pending then Interrupt.irq else Interrupt.none
