-- ===== src/Examples/Bus.antt =====
-- The 6809, the ring of writes and core 1 at concrete inputs.
use pico_thing_main.Base.{
  ℕ, ◌+◌, ◌-◌, ◌*◌, ◌/◌, ◌≡◌, ◌↔◌, refl, Bool, true, false, not, ◌==◌, leb, List, [], ◌∷◌, ◌++◌,
  none, some, length, take, arith, Cells, if◌then◌else◌,
}
use pico_thing_main.Interrupt.{Interrupt}
use pico_thing_main.Registers.{Registers, read_byte, read_word, copy_out}
use pico_thing_main.Mc6809.{Mc6809, bus_running, rs_running, trace_arm, trace_size}
use pico_thing_main.Mc6809.Trace.{captured, capture_all, trace_one_shot}
use pico_thing_main.Mc6809.Nesting.{
  Work, done, select, cycle, interrupted, take_interrupt, return_from_interrupt, perform, Settled,
}
use pico_thing_main.Mc6809.Nesting.Handlers.{HandlerDone, nested_interrupts}
use pico_thing_main.Mc6850.{Mc6850}
use pico_thing_main.WriteRing.{WriteEntry, WriteRing, push_writes, take_write, has_writes}
use pico_thing_main.WriteRing.Newest.{InRing, writes, newest, push_writes-newest}
use pico_thing_main.WriteRing.Window.{take_write_lem, take_write_loses}
use pico_thing_main.Core1.{
  Core1, BusPins, registers_of, gpio_q_rising, nmi_vector_offset, register_snippet,
}
use pico_thing_main.Core1.Requests.{
  FloatUnit, Calendar, system_response, request_time, request_set_time, response_busy,
  response_done, take_request, sysreq_process,
}
use pico_thing_main.Core1.Loop.{poll_interrupts, watchpoint_control, drain_fast_reads}
use pico_thing_main.Core1.Watchpoint.{IsWired}
use pico_thing_main.Core1.Armed.{Step, written, served, Calm, NoneDisarms, run, Holds, run-Holds}
use pico_thing_main.Core1.Rearm.{watchpoint_round_trip}
use pico_thing_main.Core1.Reads.{data_reads, receives, each_read_served}
use pico_thing_main.Core1.Pins.{Asks, pins_follow_sources}
use pico_thing_main.Core1.Served.{time_request, set_time_faults}

abbrev blank : Registers
blank = record { read_registers = λ i. 0; write_registers = λ i. 0 }

-- A guest that runs task 3.
abbrev cpu : Mc6809
cpu = record {
  old_bus_state = bus_running;
  bus_state = bus_running;
  run_state = rs_running;
  task = 3;
  nesting_depth = 0;
  rti_task_countdown = 0;
  rti_pending_task = 0;
  task_stack = λ i. 0;
  task_stack_ptr = 0;
  busy = false;
  lic = false;
  vma = true;
  trace = λ i. 0;
  trace_pos = 0;
  trace_enabled = false;
  trace_full = false;
  trace_irq_trigger = λ i. false;
  regs = blank;
  task_word = 3;
}

cpu-Settled : Settled cpu
cpu-Settled = record { bus = refl; quiet = refl; balanced = refl; room = omega arith; runs = refl }

-- An IRQ handler that selects task 0, is interrupted by NMI, and selects task 5.
abbrev handler : Work
handler = select 0 (cycle (interrupted 0x3C (select 1 done) (select 5 done)))

nested_interrupts_example :
    HandlerDone cpu (return_from_interrupt (perform handler (take_interrupt 0x38 cpu)))
nested_interrupts_example =
    nested_interrupts 0x38 handler 15 cpu cpu-Settled (omega arith) (omega arith) (omega arith)
      (omega arith, omega arith, _, _)

abbrev two_words : List ℕ
two_words = 5 ∷ 6 ∷ []

trace_one_shot_example :
    (captured (capture_all two_words (trace_arm cpu)) ≡ take trace_size two_words)
    × ((capture_all two_words (trace_arm cpu)).trace_full ≡ leb trace_size (length two_words))
    × ((capture_all two_words (trace_arm cpu)).trace_enabled
        ≡ not (leb trace_size (length two_words)))
trace_one_shot_example = trace_one_shot two_words cpu refl

abbrev entry : ℕ → WriteEntry
entry v = record { location = 5; value = v }

-- A ring with one entry, and one with 31.
abbrev one_entry : WriteRing
one_entry = record { write_ring = λ i. entry i; write_ring_head = 0; write_ring_tail = 31 }

abbrev full_ring : WriteRing
full_ring = record { write_ring = λ i. entry i; write_ring_head = 31; write_ring_tail = 0 }

one_entry-InRing : InRing one_entry
one_entry-InRing = record { head_in = omega arith; tail_in = omega arith }

full_ring-InRing : InRing full_ring
full_ring-InRing = record { head_in = omega arith; tail_in = omega arith }

push_writes-newest_example :
    writes (push_writes (entry 100 ∷ entry 101 ∷ []) full_ring)
    ≡ newest 31 (writes full_ring ++ entry 100 ∷ entry 101 ∷ [])
push_writes-newest_example =
    push_writes-newest (entry 100 ∷ entry 101 ∷ []) full_ring full_ring-InRing

take_write_lem_example :
    ((take_write (entry 1 ∷ []) [] (entry 2 ∷ []) one_entry).0 ≡ entry 31)
    × (writes (take_write (entry 1 ∷ []) [] (entry 2 ∷ []) one_entry).1
        ≡ [] ++ (entry 1 ∷ []) ++ [] ++ (entry 2 ∷ []))
take_write_lem_example =
    take_write_lem (entry 1 ∷ []) [] (entry 2 ∷ []) one_entry (entry 31) [] one_entry-InRing refl
      (omega arith)

take_write_loses_example :
    (length (writes (push_writes (entry 100 ∷ entry 101 ∷ []) full_ring)) ≡ 31)
    × (has_writes (take_write [] [] (entry 100 ∷ entry 101 ∷ []) full_ring).1 ≡ false)
take_write_loses_example = take_write_loses (entry 100) (entry 101) full_ring full_ring-InRing refl

abbrev port : ℕ → ℕ → Mc6850
port ctl dat = record {
  ctl_offset = ctl;
  data_offset = dat;
  tx = record { buf = λ i. 0; head = 0; tail = 0 };
  rx = record { buf = λ i. 65; head = 2; tail = 0 };
  cached_status_byte = 2;
  cached_irq_result = Interrupt.none;
  transmit_buffer_empty = true;
  receive_buffer_full = false;
  transmit_irq = false;
  receive_irq = true;
  assert_transmit_irq = false;
  assert_receive_irq = false;
  cts_deasserted = false;
  rts_deasserted = false;
  loopback_close = false;
  loopback_queue = false;
  tx_write_pending = false;
  irq_dirty = true;
  host_cts_deasserted = false;
}

abbrev machine : Bool → Core1
machine armed = record {
  mc6809 = cpu;
  fast_serial = port 4 5;
  aux_serial = port 6 7;
  system_tick = record {
    control_offset = 8;
    status_offset = 9;
    irq_pending = false;
    enabled = false;
    nmi_countdown = 0;
  };
  ring = one_entry;
  console_interrupt = Interrupt.none;
  q_rising_edge = true;
  pend_nmi = false;
  pend_firq = false;
  pend_irq = false;
  nmi_pin = false;
  firq_pin = false;
  irq_pin = false;
  trace_e_irq_on = false;
  watchpoint_armed = armed;
  watchpoint_saved_nmi_vector = 0;
  read_irq_received = false;
  read_location = 0;
  rx_read_count = 254;
  rx_processed_count = 254;
  aux_rx_read_count = 0;
  aux_rx_processed_count = 0;
}

machine-IsWired : (armed : Bool) → IsWired (machine armed)
machine-IsWired armed = record { fast = refl; aux = refl; tick = refl }

-- Numbers in the place of floats.
abbrev numbers : FloatUnit
numbers = record {
  Float = ℕ;
  of_byte = λ n. n;
  add = λ a b. a + b;
  subtract = λ a b. a - b;
  multiply = λ a b. a * b;
  divide = λ a b. a / b;
  negative = λ a. false;
  is_zero = λ a. a == 0;
  word = λ a. a;
}

machine-Calm : (armed : Bool) → Calm (machine armed)
machine-Calm armed = record {
  ring = λ j e. absurd (omega (arith, e.0));
  fast_data = omega arith;
  aux_data = omega arith;
}

-- The guest sends a byte, writes to the NMI vector and to the snippet, and arms the watchpoint again;
-- the loop serves the byte in between, and the rest later.
abbrev guest_attack : List Step
guest_attack =
    written 5 65
    ∷ served
    ∷ written 60 1
    ∷ written 61 2
    ∷ written 32 0
    ∷ written 10 1
    ∷ served
    ∷ served
    ∷ served
    ∷ served
    ∷ []

attack-NoneDisarms : NoneDisarms guest_attack
attack-NoneDisarms = (
  λ e. absurd (omega (arith, e.0)),
  (
    λ e. absurd (omega (arith, e.0)),
    (
      λ e. absurd (omega (arith, e.0)),
      (λ e. absurd (omega (arith, e.0)), (λ e. absurd (omega (arith, e.1)), tt)),
    ),
  ),
)

abbrev break_code : Cells
break_code = λ i. 0x12

run-Holds_example :
    (n : Core1) × (run numbers break_code guest_attack (machine true) ≡ some n)
    × Holds (machine true) n
run-Holds_example =
    run-Holds numbers break_code guest_attack (machine true) (machine-IsWired true)
      (machine-Calm true) refl attack-NoneDisarms

watchpoint_round_trip_example :
    (n : Core1) × (watchpoint_control break_code 1 (machine false) ≡ some n)
    × (m : Core1) × (run numbers break_code guest_attack n ≡ some m)
    × (read_word (registers_of m) nmi_vector_offset ≡ register_snippet)
    × (l : Core1) × (watchpoint_control break_code 0 m ≡ some l)
    × (l.watchpoint_armed ≡ false)
    × (read_word (registers_of l) nmi_vector_offset
        ≡ read_word (registers_of (machine false)) nmi_vector_offset)
watchpoint_round_trip_example =
    watchpoint_round_trip numbers break_code 1 guest_attack (machine false) (omega arith)
      (machine-IsWired false) (machine-Calm false) refl (omega arith) attack-NoneDisarms

-- The counter wraps on the way.
each_read_served_example :
    let read = data_reads 5 (machine false) in
    drain_fast_reads 255 read ≡ record (receives 5 read) { rx_processed_count = read.rx_read_count }
each_read_served_example =
    each_read_served 5 (machine false) refl refl (omega arith) refl (omega arith)

abbrev pins : BusPins
pins = record { address_lsb = 0; busy_lic_avma = 4; bs_ba = bus_running; reset_now = false }

pins_follow_sources_example :
    let polled = poll_interrupts (machine false) in
    let n = gpio_q_rising pins polled in
    let l = gpio_q_rising pins n in
    ((n.irq_pin ≡ true) ↔ Asks Interrupt.irq polled)
    × ((n.firq_pin ≡ true) ↔ Asks Interrupt.firq polled)
    × ((n.nmi_pin ≡ true) ↔ Asks Interrupt.nmi polled)
    × (l.nmi_pin ≡ false)
    × (l.irq_pin ≡ n.irq_pin)
    × (l.firq_pin ≡ n.firq_pin)
pins_follow_sources_example = pins_follow_sources pins pins (machine false) refl

abbrev noon : Calendar
noon = record {
  tm_year = 126;
  tm_mon = 0;
  tm_mday = 31;
  tm_hour = 12;
  tm_min = 0;
  tm_sec = 0;
  tm_wday = 6;
}

-- The guest has written a request.
abbrev requesting : ℕ → Registers
requesting b = record { read_registers = λ i. 0; write_registers = λ i. if i == 2 then b else 0 }

time_request_example :
    let busy = take_request numbers request_time (requesting request_time) in
    (read_byte busy system_response ≡ response_busy)
    × ((take_request numbers 77 busy).read_registers ≡ busy.read_registers)
    × (s : Registers) × (sysreq_process (some noon) (λ t. true) busy ≡ some s)
    × (copy_out s 16 7 ≡ some (126 ∷ 1 ∷ 31 ∷ 12 ∷ 0 ∷ 0 ∷ 6 ∷ []))
    × (read_byte s system_response ≡ response_done)
time_request_example =
    time_request numbers 77 noon (λ t. true) (requesting request_time) (omega arith) refl

-- A request to set the time is under way.
abbrev setting : Registers
setting = record {
  read_registers = λ i. if i == 2 then request_set_time else if i == 3 then response_busy else 0;
  write_registers = λ i. 0;
}

set_time_faults_example : sysreq_process none (λ t. true) setting ≡ none
set_time_faults_example = set_time_faults none (λ t. true) setting refl refl
