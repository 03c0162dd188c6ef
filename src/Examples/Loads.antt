-- ===== src/Examples/Loads.antt =====
-- Programs that are sent as S-records, at concrete inputs.
use pico_thing_main.Base.{◌≡◌, refl, true, false, List, [], ◌∷◌, some, arith}
use pico_thing_main.Mc6809.{rs_reset, rs_running, assert_powered}
use pico_thing_main.Console.Run.{set_reset_vector}
use pico_thing_main.Console.Load.Stream.{
  Segment, AllLoadable, Loaded, program, load_lines, load_program,
}
use pico_thing_main.Console.Load.Ignored.{ignored_program}
use pico_thing_main.Examples.Machines.{board_in, env, run_copy-CopiesOut, machine-Placement}

abbrev segments : List Segment
segments = (0x1000, 1 ∷ 2 ∷ 3 ∷ []) ∷ (0x1002, 9 ∷ []) ∷ []

segments-AllLoadable : AllLoadable segments
segments-AllLoadable = ground arith

load_program_example :
    Loaded
      (board_in rs_reset)
      segments
      0x1000
      (load_lines env (program segments 0x1000) (board_in rs_reset))
load_program_example =
    load_program env segments 0x1000 (board_in rs_reset) run_copy-CopiesOut refl
      (machine-Placement rs_reset) segments-AllLoadable (omega arith)

running-powered : assert_powered (board_in rs_running).core1.mc6809 ≡ true
unfolding assert_powered
running-powered = refl

ignored_program_example :
    load_lines env (program segments 0x1000) (board_in rs_running)
    ≡ some (set_reset_vector 0x1000 (record (board_in rs_running) { srecord_ignore = false }))
ignored_program_example =
    ignored_program env segments 0x1000 (board_in rs_running) running-powered refl
      segments-AllLoadable (omega arith)
