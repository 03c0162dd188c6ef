-- ===== src/Console/Supply.antt =====
-- src/pico_thing.cpp: set_power, reset_power, and the commands POWER_ON, POWER_OFF and RESET. The
-- set-up of the PIO and the DMA, and what core 1 does once it is launched, are left out.
use mathlib.Core.Option
use pico_thing_main.Base.{Bool, true, false, Option, some, if◌then◌else◌, not}
use pico_thing_main.TickTimer.{Timer}
use pico_thing_main.TickTimer
use pico_thing_main.Core1.{registers_of, with_registers, on_tick}
use pico_thing_main.Power
use pico_thing_main.Copy.{peripheral_clear}
use pico_thing_main.Console.{Board, Env, on_supervisor, call_setup, is_powered}

-- peripheral_clear, on the whole state.
unfoldable pub clear_peripherals : Env → Bool → Board → Option Board
clear_peripherals env sysvectors b =
    Option.map
      (λ (x : Timer). record b {
        core1 = with_registers x.1 (record b.core1 { system_tick = x.0 });
      })
      (peripheral_clear env.sync_code sysvectors (b.core1.system_tick, registers_of b.core1))

unfoldable pub set_power : Env → Board → Option Board
unfolding clear_peripherals
set_power env b =
    clear_peripherals env true
      (record (on_supervisor Power.init (call_setup b)) { setup_callback = true })

unfoldable pub reset_power : Board → Board
reset_power b =
    let b₁ = record b { core1 = on_tick TickTimer.reset b.core1; core1_initialised = false } in
    on_supervisor Power.deinit (on_supervisor Power.stop b₁)

-- CMD_POWER_ON
unfoldable pub power_on : Env → Board → Option Board
unfolding set_power
power_on env b = if b.lines.power then some b else set_power env b

-- CMD_POWER_OFF
unfoldable pub power_off : Board → Board
unfolding reset_power
power_off b = if not b.lines.power then b else reset_power b

-- CMD_RESET
unfoldable pub reset_command : Env → Board → Option Board
unfolding clear_peripherals
reset_command env b = if not (is_powered b) then some b else clear_peripherals env false b
