-- ===== src/Console/Commands.antt =====
-- include/command_parser.h and src/pico_thing.cpp: the commands, and process_command. The generated
-- parser is a parameter. Not among the commands: STATUS, TIME_SET, IRQ, which stands in SelfTest, FREQ
-- and USB.
use mathlib.Core.Option
use pico_thing_main.Base.{
  ℕ, Bool, true, false, not, ◌&&◌, ◌||◌, List, [], ◌∷◌, Option, none, some, leb, ◌==◌,
  if◌then◌else◌,
}
use pico_thing_main.Console.{Board, Env}
use pico_thing_main.Console.Supply
use pico_thing_main.Console.Memory.{Row}
use pico_thing_main.Console.Memory
use pico_thing_main.Console.Run
use pico_thing_main.Console.Load
use pico_thing_main.Console.Break

-- cmd_tag_t, with the fields of parsed_cmd_t that belong to the tag.
pub data Command : Type 0 where
  power power_on power_off verbose reset : Command
  examine_dat : Command
  examine : ℕ → ℕ → Command
  modify modify_read : ℕ → List ℕ → Command
  snippet : List ℕ → Command
  loop : ℕ → ℕ → Command
  vector : List ℕ → Command
  fill : ℕ → ℕ → ℕ → Command
  time_query : Command
  go : Command
  go_addr : ℕ → Command
  task_query : Command
  task_set : ℕ → Command
  trace trace_arm trace_off : Command
  trace_len : ℕ → Command
  trace_irq : ℕ → Command
  run_list : Command
  run run_nowait : ℕ → Command
  stop stop_halt stop_restart stop_stop : Command
  break_ break_return : Command
  break_addr : ℕ → Command
  srecord : List ℕ → Command
  nitros9 : ℕ → Command

-- The switch of process_command.
unfoldable pub execute : Env → Command → Board → Option Board
execute env power b = some b
execute env power_on b = Supply.power_on env b
execute env power_off b = some (Supply.power_off b)
execute env verbose b = some (record b { verbose = not b.verbose })
execute env reset b = Supply.reset_command env b
execute env examine_dat b = Option.map (λ (x : List Row × Board). x.1) (Memory.examine_dat env b)
execute env (examine first last) b =
    Option.map (λ (x : List Row × Board). x.1) (Memory.examine env first last b)
execute env (modify first data_bytes) b = Memory.modify env first data_bytes b
execute env (modify_read first data_bytes) b = some (Memory.modify_read first data_bytes b)
execute env (snippet data_bytes) b = some (Memory.snippet_command data_bytes b)
execute env (loop opcode address) b = Memory.loop_command env opcode address b
execute env (vector vec) b = some (Memory.vector_command vec b)
execute env (fill first last v) b = Memory.fill env first last v b
execute env time_query b = some b
execute env go b = some (Run.go b)
execute env (go_addr address) b = some (Run.go_address address b)
execute env task_query b = some b
execute env (task_set tasknum) b = some (Run.task_set tasknum b)
execute env trace b = some b
execute env (trace_len n) b = some b
execute env trace_arm b = some (Run.trace_on b)
execute env trace_off b = some (Run.trace_off b)
execute env (trace_irq intr) b = some (Run.trace_irq intr b)
execute env run_list b = some b
execute env (run idx) b = Run.run env true idx b
execute env (run_nowait idx) b = Run.run env false idx b
execute env stop b = some (Run.stop b)
execute env stop_halt b = some (Run.halt b)
execute env stop_restart b = some (Run.restart b)
execute env stop_stop b = some (Run.stop b)
execute env break_ b = Break.break_command env b
execute env break_return b = some (Break.break_return b)
execute env (break_addr address) b = some b
execute env (srecord line) b = Load.srecord env line b
execute env (nitros9 boot_device) b = Run.nitros9 env boot_device b

-- isspace
abbrev pub isspace : ℕ → Bool
isspace c = c == 32 || leb 9 c && leb c 13

abbrev pub skip_blanks : List ℕ → List ℕ
skip_blanks [] = []
skip_blanks (c ∷ cs) = if isspace c then skip_blanks cs else c ∷ cs

-- process_command, with what cmd_parse finds in a line.
unfoldable pub process_command : (List ℕ → Option Command) → Env → List ℕ → Board → Option Board
unfolding execute
process_command cmd_parse env buf b = elim (skip_blanks buf) [
  | [] ↦ some b
  | c ∷ cs ↦ elim (cmd_parse (c ∷ cs)) [ none ↦ some b | some cmd ↦ execute env cmd b ]
]
