-- ===== src/Console/Setup.antt =====
-- The set-up of the devices, which every start of the 6809 begins with, leaves the registers above
-- the devices alone.
use pico_thing_main.Base.{ℕ, ◌≤◌, ◌<◌, ◌≡◌, refl, ◌∙◌, not, if_elim, arith}
use pico_thing_main.Registers.{Registers}
use pico_thing_main.Mc6809.{Mc6809, setup, assert_stopped}
use pico_thing_main.Mc6850.{Mc6850, Port}
use pico_thing_main.Mc6850
use pico_thing_main.TickTimer.{TickTimer, Timer}
use pico_thing_main.TickTimer
use pico_thing_main.Core1.{Core1, registers_of, on_fast, on_tick}
use pico_thing_main.Power
use pico_thing_main.Power.{Supervisor}
use pico_thing_main.Console.{Board, setup_devices, call_setup}

-- The devices answer at registers of the devices' part of the blocks.
pub record Placement (g : Core1) : Type 0 where
  pub fast_ctl : g.fast_serial.ctl_offset < 16
  pub fast_data : g.fast_serial.data_offset < 16
  pub aux_ctl : g.aux_serial.ctl_offset < 16
  pub aux_data : g.aux_serial.data_offset < 16
  pub tick_status : g.system_tick.status_offset < 16

-- The registers above it are the same.
abbrev pub SameAbove : Registers → Registers → Type 0
SameAbove r s = (j : ℕ) → 16 ≤ j → s.read_registers j ≡ r.read_registers j

port-reset :
    (u : Mc6850) (r : Registers)
    → u.ctl_offset < 16
    → u.data_offset < 16
    → ((Mc6850.reset (u, r)).0.ctl_offset ≡ u.ctl_offset)
      × ((Mc6850.reset (u, r)).0.data_offset ≡ u.data_offset)
      × SameAbove r (Mc6850.reset (u, r)).1
unfolding Mc6850.reset
port-reset u r h l = (refl, refl, λ j m. ground arith)

timer-reset :
    (t : TickTimer) (r : Registers)
    → t.status_offset < 16
    → ((TickTimer.reset (t, r)).0.status_offset ≡ t.status_offset)
      × SameAbove r (TickTimer.reset (t, r)).1
unfolding TickTimer.reset
timer-reset t r h = (refl, λ j m. ground arith)

pub record Settled (g n : Core1) : Type 0 where
  pub placed : Placement n
  pub above : SameAbove (registers_of g) (registers_of n)
  pub run_state : n.mc6809.run_state ≡ g.mc6809.run_state

setup_devices-Settled : (g : Core1) → Placement g → Settled g (setup_devices g)
unfolding setup_devices
setup_devices-Settled g p =
    let t = timer-reset g.system_tick (registers_of g) p.tick_status in
    let g₁ = on_tick TickTimer.reset g in
    let f = port-reset g.fast_serial (registers_of g₁) p.fast_ctl p.fast_data in
    let g₂ = on_fast Mc6850.reset g₁ in
    let a = port-reset g.aux_serial (registers_of g₂) p.aux_ctl p.aux_data in
    record {
      placed = record {
        fast_ctl = omega (arith, f.0, p.fast_ctl);
        fast_data = omega (arith, f.1, p.fast_data);
        aux_ctl = omega (arith, a.0, p.aux_ctl);
        aux_data = omega (arith, a.1, p.aux_data);
        tick_status = omega (arith, t.0, p.tick_status);
      };
      above = λ j m. a.2 j m ∙ f.2 j m ∙ t.1 j m;
      run_state = refl;
    }

pub call_setup-Settled : (b : Board) → Placement b.core1 → Settled b.core1 (call_setup b).core1
unfolding call_setup
call_setup-Settled b p =
    if_elim (λ (n : Board). Settled b.core1 n.core1) b.setup_callback
      (λ _. setup_devices-Settled b.core1 p)
      (λ _. record { placed = p; above = λ j m. refl; run_state = refl })

-- A change of the 6809 alone.
pub mc6809-Placement : (g : Core1) (m : Mc6809) → Placement g → Placement (record g { mc6809 = m })
mc6809-Placement g m p = record {
  fast_ctl = p.fast_ctl;
  fast_data = p.fast_data;
  aux_ctl = p.aux_ctl;
  aux_data = p.aux_data;
  tick_status = p.tick_status;
}

pub start-registers : (s : Supervisor) → (Power.start s).mc6809.regs ≡ s.mc6809.regs
unfolding Power.start setup
start-registers s =
    if_elim (λ (t : Supervisor). t.mc6809.regs ≡ s.mc6809.regs) (not (assert_stopped s.mc6809))
      (λ _. refl) (λ _. refl)

pub call_setup_keeps :
    (b : Board)
    → ((call_setup b).memory ≡ b.memory) × ((call_setup b).srecord_ignore ≡ b.srecord_ignore)
unfolding call_setup
call_setup_keeps b =
    if_elim (λ (n : Board). (n.memory ≡ b.memory) × (n.srecord_ignore ≡ b.srecord_ignore))
      b.setup_callback (λ _. (refl, refl)) (λ _. (refl, refl))
