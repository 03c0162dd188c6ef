-- ===== src/Examples/SelfTests.antt =====
-- The self-tests at a board whose guest copies, and answers nothing else.
use pico_thing_main.Base.{◌≡◌, refl, Bool, Option, some, [], ◌∷◌, arith}
use pico_thing_main.Mc6809.{rs_reset}
use pico_thing_main.Console.{Board}
use pico_thing_main.Console.SelfTest.{TestCode, irq_command}
use pico_thing_main.Console.SelfTest.Steps.{Keeps, IsLeft}
use pico_thing_main.Console.SelfTest.Left.{irq_command-EndsLeft}
use pico_thing_main.Examples.Machines.{board_in, env}

abbrev code : TestCode
code = record {
  zero_code = λ i. 0;
  test_swi = λ i. i;
  test_nmi = λ i. i;
  test_irq = λ i. i;
  test_firq = λ i. i;
  test_rti = λ i. i;
  irq_test = 1 ∷ 2 ∷ 3 ∷ [];
  elapse = λ n b. b;
}

keeps : Keeps env code
keeps = record {
  keeps_observe = λ i b. (refl, refl);
  keeps_settle = λ b. (refl, refl);
  keeps_elapse = λ n b. (refl, refl);
}

irq_command-EndsLeft_example :
    (x : Option Bool × Board) × (irq_command env code 0 3 (board_in rs_reset) ≡ some x) × IsLeft x.1
irq_command-EndsLeft_example =
    irq_command-EndsLeft env code keeps 0 3 (board_in rs_reset)
      (record { idle = refl; in_reset = refl }) (omega arith)
