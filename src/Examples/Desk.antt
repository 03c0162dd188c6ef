-- ===== src/Examples/Desk.antt =====
-- The console's other theorems, and the pump, at concrete inputs.
use pico_thing_main.Base.{
  ℕ, ◌≡◌, refl, true, false, List, [], ◌∷◌, ◌++◌, arith, leb, length, take, drop, ap, sym,
  length-take, take-append-drop,
}
use pico_thing_main.Mc6809.{rs_running, assert_powered}
use pico_thing_main.SpscQueue.Fifo.{IsValid}
use pico_thing_main.WriteRing.{WriteEntry, push_write}
use pico_thing_main.Usb.{Cdc, IsCdc}
use pico_thing_main.UartPump.{Links, cleared, uart_task}
use pico_thing_main.UartPump.Streams.{Sound}
use pico_thing_main.UartPump.Streams.Task.{Pumped, uart_task-Pumped}
use pico_thing_main.Console.Memory.Writes.{push_from_core0, push_from_core0_loses}
use pico_thing_main.Console.Break.{break_command}
use pico_thing_main.Console.Break.Caught.{Broken, break_command-Broken}
use pico_thing_main.Console.LineEditor.{Line, keys}
use pico_thing_main.Console.LineEditor.Reference.{Shows, edits, keys_agree}
use pico_thing_main.Console.Poll.{Counters, Watchdog}
use pico_thing_main.Console.Poll.Alarm.{Sample, watch, expected_all, still_all, watch-expected}
use pico_thing_main.Examples.Machines.{board_in, env, machine_in, empty_ring, three_bytes}

-- A USB interface as two lists, of which a write takes all.
abbrev two_lists : Cdc
two_lists = record {
  State = List ℕ × List ℕ;
  connected = λ s. true;
  available = λ s. length s.0;
  read = λ n s. (take n s.0, (drop n s.0, s.1));
  write = λ xs s. (length xs, (s.0, s.1 ++ xs));
  write_flush = λ s. s;
}

take_all : (xs : List ℕ) → take (length xs) xs ≡ xs
take_all [] = refl
take_all (x ∷ xs) = ap (◌∷◌ x) (take_all xs)

two_lists-IsCdc : IsCdc two_lists
two_lists-IsCdc = record {
  waiting = λ s. s.0;
  sent = λ s. s.1;
  read_at_most = λ n s. omega (arith, length-take n s.0);
  read_waiting = λ n s. take-append-drop n s.0;
  read_sent = λ n s. refl;
  write_at_most = λ xs s. omega arith;
  write_sent = λ xs s. ap (◌++◌ s.1) (sym (take_all xs));
  write_waiting = λ xs s. refl;
  flush_waiting = λ s. refl;
  flush_sent = λ s. refl;
}

abbrev links : Links two_lists
links = record {
  usb_console = (104 ∷ 105 ∷ [], []);
  usb_aux = (7 ∷ [], 8 ∷ []);
  port_console = cleared;
  port_aux = cleared;
}

three_bytes-IsValid : IsValid three_bytes
three_bytes-IsValid = record { head_in = omega arith; tail_in = omega arith }

console-Sound : Sound (machine_in rs_running).fast_serial links.port_console
console-Sound = record {
  rx_valid = three_bytes-IsValid;
  tx_valid = three_bytes-IsValid;
  rx_fits = omega arith;
  tx_fits = omega arith;
  rx_ahead = λ l. absurd (omega arith);
  tx_ahead = λ l. absurd (omega arith);
}

aux-Sound : Sound (machine_in rs_running).aux_serial links.port_aux
aux-Sound = record {
  rx_valid = three_bytes-IsValid;
  tx_valid = three_bytes-IsValid;
  rx_fits = omega arith;
  tx_fits = omega arith;
  rx_ahead = λ l. absurd (omega arith);
  tx_ahead = λ l. absurd (omega arith);
}

uart_task-Pumped_example :
    Pumped two_lists two_lists-IsCdc
      (links, machine_in rs_running)
      (uart_task two_lists false links (machine_in rs_running))
uart_task-Pumped_example =
    uart_task-Pumped two_lists two_lists-IsCdc false links (machine_in rs_running) refl
      console-Sound aux-Sound

abbrev entry : ℕ → WriteEntry
entry i = record { location = i; value = 1 }

push_from_core0_loses_example :
    push_from_core0 (entry 8) (entry 5 ∷ []) empty_ring ≡ push_write (entry 8) empty_ring
push_from_core0_loses_example =
    push_from_core0_loses (entry 8) (entry 5) empty_ring (λ e. absurd (omega (arith, e)))

powered : assert_powered (board_in rs_running).core1.mc6809 ≡ true
unfolding assert_powered
powered = refl

break_command-Broken_example :
    Broken env (board_in rs_running) (break_command env (board_in rs_running))
break_command-Broken_example =
    break_command-Broken env (board_in rs_running) (λ i b. refl) powered refl

abbrev line : Line
line = record { buf = λ i. 63; idx = 0 }

line-Shows : Shows line []
line-Shows = record { text = refl; inside = omega arith; no_nul = λ j l. absurd (omega arith) }

-- "go", corrected.
abbrev typed : List ℕ
typed = b'g' ∷ b'p' ∷ 8 ∷ b'o' ∷ 13 ∷ []

keys_agree_example :
    ((keys typed line).0 ≡ (edits typed []).0) × Shows (keys typed line).1 (edits typed []).1
keys_agree_example = keys_agree typed line [] line-Shows

abbrev counters : Counters
counters = record { loop_count = 5; isr_count = 9 }

abbrev watchdog : Watchdog
watchdog = record { last = counters; miss_count = 9; stalled = false }

abbrev samples : List Sample
samples = (counters, true) ∷ (record { loop_count = 6; isr_count = 9 }, true) ∷ []

watch-expected_example :
    ((watch samples watchdog).0 ≡ expected_all samples counters 9)
    × ((watch samples watchdog).1.stalled ≡ leb 10 (still_all samples counters 9))
watch-expected_example = watch-expected samples 9 watchdog refl refl
