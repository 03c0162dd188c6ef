-- ===== src/Examples/Ports.antt =====
-- The serial port and its queues at concrete inputs.
use pico_thing_main.Base.{
  if◌then◌else◌, ℕ, ◌+◌, ◌*◌, ◌%◌, ◌/◌, ◌≡◌, ◌≤◌, ◌<◌, ◌↔◌, refl, Bool, true, false, not, ◌&&◌,
  ◌||◌, ◌==◌, List, [], ◌∷◌, ◌++◌, length, arith, bit,
}
use pico_thing_main.Interrupt.{Interrupt}
use pico_thing_main.Registers.{Registers, read_byte}
use pico_thing_main.SpscQueue.{
  SpscQueue, empty, is_full, has_space, is_empty, has_bytes, get_level, put, get,
}
use pico_thing_main.SpscQueue
use pico_thing_main.SpscQueue.Fifo.{IsValid, contents}
use pico_thing_main.SpscQueue.Cores.{
  Action, test_space, store_byte, store_head, test_bytes, load_byte, run, start, run_fifo,
}
use pico_thing_main.Mc6850.{Mc6850, Port, construct}
use pico_thing_main.Mc6850
use pico_thing_main.Mc6850.Preempted.{sync_status_around, sync_status_preempted}
use pico_thing_main.Mc6850.Calls.{Call, call, calls}
use pico_thing_main.Mc6850.Calls
use pico_thing_main.Mc6850.Status.{Inv, construct-Inv, calls-Inv, status_current}
use pico_thing_main.Mc6850.Interrupts.{interrupt_agrees}
use pico_thing_main.Mc6850.Receive.{
  undelivered, delivered_all, accepted_all, AllCareful, delivery, guest_receive_drops,
}
use pico_thing_main.Mc6850.Transmit.{collected_all, sent_all, HasRoom, AllPolite, transmission}
use pico_thing_main.Mc6850.Stall.{host_receive_stalls}

abbrev blank : Registers
blank = record { read_registers = λ i. 0; write_registers = λ i. 0 }

-- A ring that holds one byte.
abbrev one : SpscQueue
one = record { buf = λ i. 7; head = 1023; tail = 1022 }

one-IsValid : IsValid one
one-IsValid = record { head_in = omega arith; tail_in = omega arith }

one_space : has_space one ≡ true
unfolding has_space is_full
one_space = refl

one_bytes : has_bytes one ≡ true
unfolding has_bytes is_empty
one_bytes = refl

-- The storing core is overtaken between its two stores.
abbrev interleaved : List Action
interleaved =
    test_space 65
    ∷ store_byte
    ∷ test_bytes
    ∷ store_head
    ∷ test_bytes
    ∷ load_byte
    ∷ test_space 66
    ∷ []

run_fifo_example :
    ((run start interleaved).received ++ contents (run start interleaved).queue
      ≡ (run start interleaved).sent)
    × (length (contents (run start interleaved).queue) ≤ 1023)
run_fifo_example = run_fifo interleaved

abbrev console : Port
console = construct 4 5 blank

console-Inv : Inv console
console-Inv = construct-Inv 4 5 blank (omega arith)

-- The guest enables the receive interrupt, the host sends a byte, and the guest reads it.
abbrev receives_one : List Call
receives_one =
    Calls.guest_control 0x95
    ∷ Calls.host_transmit 65
    ∷ Calls.has_interrupt
    ∷ Calls.rx_read_fast_path
    ∷ Calls.guest_receive
    ∷ []

status_current_example :
    let (u, s) = calls receives_one (construct 4 5 blank) in
    read_byte s u.ctl_offset
    ≡ bit u.receive_buffer_full
      + bit (u.transmit_buffer_empty && (not u.cts_deasserted && not u.tx_write_pending)) * 2
      + bit u.cts_deasserted * 8
      + bit (u.assert_receive_irq || u.assert_transmit_irq) * 128
status_current_example = status_current 4 5 blank receives_one (omega arith)

abbrev polled : Port
polled = Mc6850.has_interrupt (calls receives_one (construct 4 5 blank))

interrupt_agrees_example :
    ((polled.0.cached_irq_result ≡ Interrupt.irq)
      ↔ (read_byte polled.1 polled.0.ctl_offset / 128 ≡ 1))
    × (Mc6850.has_interrupt polled ≡ polled)
interrupt_agrees_example = interrupt_agrees 4 5 blank receives_one (omega arith)

receives_one-Careful : AllCareful receives_one console
unfolding construct calls call Mc6850.reset Mc6850.write_received Mc6850.rx_read_fast_path
    Mc6850.guest_receive Mc6850.has_interrupt Mc6850.poll Mc6850.can_stage Mc6850.stage_if
    Mc6850.stage Mc6850.assert_irqs Mc6850.refresh_transmit Mc6850.sync_status Mc6850.sync_transmit
    Mc6850.host_receive Mc6850.host_receive_avail Mc6850.set_host_cts Mc6850.control_written_isr
    Mc6850.guest_control Mc6850.guest_transmit Mc6850.transmit_byte Mc6850.put_if_space
    Mc6850.host_transmit empty is_full has_space is_empty has_bytes get_level put get
    SpscQueue.reset
receives_one-Careful = (λ e. absurd (omega arith), (refl, (_, (_, (refl, _)))))

delivery_example :
    delivered_all receives_one console ++ undelivered (calls receives_one console)
    ≡ undelivered console ++ accepted_all receives_one console
delivery_example = delivery receives_one console console-Inv receives_one-Careful

abbrev transmits_one : List Call
transmits_one = Calls.write_received ∷ Calls.guest_transmit 66 ∷ Calls.host_receive ∷ []

console-HasRoom : HasRoom console
unfolding construct calls call Mc6850.reset Mc6850.write_received Mc6850.rx_read_fast_path
    Mc6850.guest_receive Mc6850.has_interrupt Mc6850.poll Mc6850.can_stage Mc6850.stage_if
    Mc6850.stage Mc6850.assert_irqs Mc6850.refresh_transmit Mc6850.sync_status Mc6850.sync_transmit
    Mc6850.host_receive Mc6850.host_receive_avail Mc6850.set_host_cts Mc6850.control_written_isr
    Mc6850.guest_control Mc6850.guest_transmit Mc6850.transmit_byte Mc6850.put_if_space
    Mc6850.host_transmit empty is_full has_space is_empty has_bytes get_level put get
    SpscQueue.reset
console-HasRoom = λ e. refl

transmits_one-Polite : AllPolite transmits_one console
unfolding construct calls call Mc6850.reset Mc6850.write_received Mc6850.rx_read_fast_path
    Mc6850.guest_receive Mc6850.has_interrupt Mc6850.poll Mc6850.can_stage Mc6850.stage_if
    Mc6850.stage Mc6850.assert_irqs Mc6850.refresh_transmit Mc6850.sync_status Mc6850.sync_transmit
    Mc6850.host_receive Mc6850.host_receive_avail Mc6850.set_host_cts Mc6850.control_written_isr
    Mc6850.guest_control Mc6850.guest_transmit Mc6850.transmit_byte Mc6850.put_if_space
    Mc6850.host_transmit empty is_full has_space is_empty has_bytes get_level put get
    SpscQueue.reset
transmits_one-Polite = (_, (refl, (refl, _)))

transmission_example :
    collected_all transmits_one console ++ contents (calls transmits_one console).0.tx
    ≡ contents console.0.tx ++ sent_all transmits_one console
transmission_example =
    transmission transmits_one console console-Inv console-HasRoom transmits_one-Polite

-- A byte is staged, and the guest deasserts RTS.
abbrev staged_stop : Port
staged_stop =
    calls (Calls.host_transmit 65 ∷ Calls.has_interrupt ∷ Calls.control_written_isr 0x55 ∷ [])
      console

staged_stop-Inv : Inv staged_stop
staged_stop-Inv =
    calls-Inv (Calls.host_transmit 65 ∷ Calls.has_interrupt ∷ Calls.control_written_isr 0x55 ∷ [])
      console console-Inv

staged_stop_lem : (staged_stop.0.rts_deasserted ≡ true) × (staged_stop.0.receive_buffer_full ≡ true)
unfolding construct calls call Mc6850.reset Mc6850.write_received Mc6850.rx_read_fast_path
    Mc6850.guest_receive Mc6850.has_interrupt Mc6850.poll Mc6850.can_stage Mc6850.stage_if
    Mc6850.stage Mc6850.assert_irqs Mc6850.refresh_transmit Mc6850.sync_status Mc6850.sync_transmit
    Mc6850.host_receive Mc6850.host_receive_avail Mc6850.set_host_cts Mc6850.control_written_isr
    Mc6850.guest_control Mc6850.guest_transmit Mc6850.transmit_byte Mc6850.put_if_space
    Mc6850.host_transmit empty is_full has_space is_empty has_bytes get_level put get
    SpscQueue.reset
staged_stop_lem = (refl, refl)

guest_receive_drops_example :
    undelivered staged_stop
    ≡ read_byte staged_stop.1 staged_stop.0.data_offset
      ∷ undelivered (Mc6850.guest_receive staged_stop)
guest_receive_drops_example =
    guest_receive_drops staged_stop staged_stop-Inv staged_stop_lem.0 staged_stop_lem.1

-- The port found 900 bytes in `tx` when it was last polled, and shows that CTS is deasserted. Since
-- then `tx` has been drained up to `tail`.
abbrev congested : ℕ → Bool → Mc6850
congested tail dirty = record {
  ctl_offset = 4;
  data_offset = 5;
  tx = record { buf = λ i. 0; head = 900; tail = tail };
  rx = record { buf = λ i. 0; head = 0; tail = 0 };
  cached_status_byte = 8;
  cached_irq_result = Interrupt.none;
  transmit_buffer_empty = true;
  receive_buffer_full = false;
  transmit_irq = false;
  receive_irq = false;
  assert_transmit_irq = false;
  assert_receive_irq = false;
  cts_deasserted = true;
  rts_deasserted = false;
  loopback_close = false;
  loopback_queue = false;
  tx_write_pending = false;
  irq_dirty = dirty;
  host_cts_deasserted = false;
}

abbrev congested_registers : Registers
congested_registers = record {
  read_registers = λ i. if i == 4 then 8 else 0;
  write_registers = λ i. 0;
}

congested-Inv :
    (tail : ℕ) (dirty : Bool) → tail < 1024 → Inv (congested tail dirty, congested_registers)
congested-Inv tail dirty h = record {
  apart = omega arith;
  shown = refl;
  current = refl;
  tx_valid = record { head_in = omega arith; tail_in = h };
  rx_valid = record { head_in = omega arith; tail_in = omega arith };
}

abbrev drains_two : List Call
drains_two =
    Calls.host_receive ∷ Calls.has_interrupt ∷ Calls.host_receive ∷ Calls.has_interrupt ∷ []

host_receive_stalls_example :
    let (u, r) = calls drains_two (congested 898 false, congested_registers) in
    read_byte r u.ctl_offset / 2 % 2 ≡ 0
host_receive_stalls_example =
    host_receive_stalls drains_two (congested 898 false, congested_registers)
      (congested-Inv 898 false (omega arith)) refl refl (_, (_, (_, (_, _))))

drained_level : get_level (congested 900 true).tx ≤ 800
unfolding get_level
drained_level = omega arith

abbrev holding : Mc6850
holding = record (congested 0 false) { receive_buffer_full = true }

sync_status_preempted_example :
    (sync_status_around (λ p. p) (holding, blank) ≡ Mc6850.sync_status (holding, blank))
    × let (v, s) = sync_status_around Mc6850.rx_read_fast_path (holding, blank) in
      (v.receive_buffer_full ≡ false)
      × (read_byte s v.ctl_offset % 2 ≡ 1)
      × (v.cached_status_byte % 2 ≡ 1)
sync_status_preempted_example = sync_status_preempted holding blank refl
