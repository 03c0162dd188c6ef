-- ===== src/Console/Poll.antt =====
-- src/pico_thing.cpp: the loop of poll_console.
pub mod Alarm
use mathlib.Core.Option
use pico_thing_main.Base.{
  ℕ, ◌+◌, ◌*◌, Bool, true, false, not, ◌&&◌, ◌||◌, List, [], ◌∷◌, Option, none, some, leb, ltb,
  ◌==◌, if◌then◌else◌, u32,
}
use pico_thing_main.Registers.{read_byte}
use pico_thing_main.Power
use pico_thing_main.Core1.{Core1, registers_of, buffer_offset}
use pico_thing_main.Usb.{Cdc}
use pico_thing_main.UartPump.{Links, uart_task}
use pico_thing_main.Console.{Board, Env, on_supervisor}
use pico_thing_main.Console.Commands.{Command, process_command}
use pico_thing_main.Console.LineEditor.{Line, key}

-- The counters of core 1, as core 0 finds them.
pub record Counters : Type 0 where
  pub loop_count : ℕ  -- uint32_t
  pub isr_count : ℕ  -- uint32_t

pub record Watchdog : Type 0 where
  pub last : Counters
  pub miss_count : ℕ  -- uint32_t
  pub stalled : Bool

-- What the watchdog prints: that the loop is stalled, and whether the handlers still run, or that it
-- has resumed.
pub data Report : Type 0 where
  quiet resumed : Report
  stall : Bool → Report

abbrev pub watchdog_threshold : ℕ
watchdog_threshold = 10

-- A sample of the counters, with `core1_initialised`.
unfoldable pub sample : Counters → Bool → Watchdog → Report × Watchdog
sample cur initialised w =
    if cur.loop_count == w.last.loop_count && initialised
    then (let misses = u32 (w.miss_count + 1) in
        if not w.stalled && leb watchdog_threshold misses
        then (
          stall (not (cur.isr_count == w.last.isr_count)),
          record { last = cur; miss_count = misses; stalled = true },
        )
        else (quiet, record w { last = cur; miss_count = misses }))
    else (
      if w.stalled then resumed else quiet,
      record { last = cur; miss_count = 0; stalled = false },
    )

-- The check for a watchpoint hit.
unfoldable pub check_watchpoint : Board → Board
check_watchpoint b =
    let pc_hi = read_byte (registers_of b.core1) (buffer_offset + 10) in
    let pc_lo = read_byte (registers_of b.core1) (buffer_offset + 11) in
    if b.core1.watchpoint_armed && not (pc_hi == 0 && (pc_lo == 0))
    then on_supervisor Power.stop (record b { core1 = record b.core1 { watchpoint_armed = false } })
    else b

-- All that the loop keeps.
pub record Console (c : Cdc) : Type 0 where
  pub board : Board
  pub links : Links c
  pub line : Line
  pub watchdog : Watchdog

-- What a round finds: the counters, if it is time for a sample; the character, if there is one; and
-- the counters after a command.
pub record Inputs : Type 0 where
  pub due : Option Counters
  pub character : Option ℕ
  pub after_command : Counters

unfoldable pub poll_watchdog : {c : Cdc} → Option Counters → Console c → Console c
unfolding sample
poll_watchdog none s = s
poll_watchdog (some cur) s = record s {
  watchdog = (sample cur s.board.core1_initialised s.watchdog).1;
}

-- The character, and the command that it may submit.
unfoldable pub poll_character :
    {c : Cdc} → (List ℕ → Option Command) → Env → Inputs → Option ℕ → Console c → Option (Console c)
poll_character cmd_parse env i none s = some s
poll_character cmd_parse env i (some ch) s =
    let (submitted, l) = key ch s.line in
    elim submitted [
      | none ↦ some (record s { line = l })
      | some text ↦
          Option.map
            (λ b. record s {
              board = b;
              line = l;
              watchdog = record s.watchdog { last = i.after_command };
            })
            (process_command cmd_parse env text s.board)
    ]

-- The round, behind the character.
unfoldable pub poll_devices : {c : Cdc} → Console c → Console c
unfolding check_watchpoint
poll_devices {c} s =
    let (links, g) = uart_task c (ltb 0 s.line.idx) s.links s.board.core1 in
    record s { board = check_watchpoint (record s.board { core1 = g }); links = links }

unfoldable pub poll_console :
    {c : Cdc} → (List ℕ → Option Command) → Env → Inputs → Console c → Option (Console c)
unfolding poll_watchdog poll_character poll_devices
poll_console cmd_parse env i s =
    Option.map poll_devices (poll_character cmd_parse env i i.character (poll_watchdog i.due s))
