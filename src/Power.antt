-- ===== src/Power.antt =====
-- src/mc6809.cpp: powering, starting and stopping the 6809. The pins are told by whether they are
-- asserted; the waits for voltages to settle and the messages are left out.
pub mod Timeout
use pico_thing_main.Base.{ℕ, zero, suc, ◌+◌, ◌*◌, Bool, true, false, not, ◌&&◌, ltb, if◌then◌else◌}
use pico_thing_main.Mc6809.{
  Mc6809, bus_running, RunState, rs_unpowered, rs_synced, setup, task_initialise, assert_stopped,
}

-- The outputs to the 6809. RESET and HALT are driven, or left to float.
pub record Supervisor : Type 0 where
  pub mc6809 : Mc6809
  pub power : Bool
  pub reset_line : Bool
  pub halt_line : Bool
  pub lines_driven : Bool
  pub nmi_line : Bool
  pub firq_line : Bool
  pub irq_line : Bool

-- is_synced
abbrev pub is_synced : RunState → Bool
is_synced rs_synced = true
is_synced _ = false

unfoldable pub init : Supervisor → Supervisor
init s = record {
  mc6809 = task_initialise (setup s.mc6809);
  power = true;
  reset_line = true;
  halt_line = false;
  lines_driven = true;
  nmi_line = false;
  firq_line = false;
  irq_line = false;
}

unfoldable pub deinit : Supervisor → Supervisor
deinit s = record {
  mc6809 = record s.mc6809 {
    old_bus_state = bus_running;
    bus_state = bus_running;
    run_state = rs_unpowered;
  };
  power = false;
  reset_line = true;
  halt_line = true;
  lines_driven = false;
  nmi_line = false;
  firq_line = false;
  irq_line = false;
}

unfoldable pub start : Supervisor → Supervisor
start s =
    if not (assert_stopped s.mc6809)
    then s
    else record s { mc6809 = setup s.mc6809; reset_line = false }

unfoldable pub stop : Supervisor → Supervisor
stop s = record s { reset_line = true }

unfoldable pub halt : Supervisor → Supervisor
halt s = record s { halt_line = true }

unfoldable pub release : Supervisor → Supervisor
release s = record s { halt_line = false }

-- interrupt_refcount, as far as it is read.
pub record Refcount : Type 0 where
  pub nmi : ℕ
  pub firq : ℕ
  pub irq : ℕ

unfoldable pub apply_interrupts : Refcount → Supervisor → Refcount × Supervisor
apply_interrupts c s = (
  record { nmi = 0; firq = 0; irq = 0 },
  record s { nmi_line = ltb 0 c.nmi; firq_line = ltb 0 c.firq; irq_line = ltb 0 c.irq },
)

-- The loop of start_with_timeout: `observe i` is what the interrupt handlers do to the 6809's state
-- during the wait of the round `i`. The first parameter is the number of rounds left.
unfoldable pub await_sync : ℕ → (ℕ → Mc6809 → Mc6809) → ℕ → Mc6809 → Mc6809
await_sync zero observe i m = m
await_sync (suc n) observe i m =
    let m₁ = observe i m in
    let rest = await_sync n observe (i + 1) m₁ in if is_synced m₁.run_state then m₁ else rest

-- The result comes with the new state. The limits that the source puts on `timeout_us` are not used
-- by it.
unfoldable pub start_with_timeout :
    (ℕ → Mc6809 → Mc6809) → ℕ → Bool → Supervisor → Bool × Supervisor
start_with_timeout observe timeout_ms sync_means_stop s =
    if not (assert_stopped s.mc6809)
    then (false, s)
    else let m = await_sync (1000 * timeout_ms) observe 0 (setup s.mc6809) in
      let ok = is_synced m.run_state in
      let s₁ = record s { mc6809 = m; reset_line = false } in
      let s₂ = if sync_means_stop && ok then record s₁ { reset_line = true } else s₁ in
      (ok, if not ok then record s₂ { reset_line = true } else s₂)
