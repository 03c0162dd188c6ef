-- ===== src/Examples/Records.antt =====
-- S-records, registers and the timer at concrete inputs.
use pico_thing_main.Base.{
  ℕ, ◌+◌, ◌*◌, ◌≡◌, ◌≤◌, ◌<◌, refl, true, false, ◌==◌, List, [], ◌∷◌, some, length, arith,
}
use pico_thing_main.Interrupt.{Interrupt}
use pico_thing_main.Registers.{Registers, read_byte}
use pico_thing_main.TickTimer.{TickTimer, Timer, countdown_field}
use pico_thing_main.TickTimer
use pico_thing_main.TickTimer.Laws.{Event, steps, fires_at, timer_shows, countdown_fires}
use pico_thing_main.TickTimer.Laws
use pico_thing_main.Srec.{Fields, process_srecord, data_count}
use pico_thing_main.Srec.Record.{
  AllBytes, record_text, expected_checksum, replace_at, process_srecord-record_text,
  one_byte_refused, process_srecord_bounds,
}

abbrev blank : Registers
blank = record { read_registers = λ i. 0; write_registers = λ i. 0 }

abbrev timer : Timer
timer = (
  record {
    control_offset = 8;
    status_offset = 9;
    irq_pending = false;
    enabled = false;
    nmi_countdown = 0;
  },
  blank,
)

abbrev timer_events : List Event
timer_events = Laws.control 7 ∷ Laws.alarm ∷ Laws.tick ∷ []

timer_shows_example :
    let (t, r) = steps timer_events (TickTimer.reset timer) in
    (read_byte r t.status_offset
      ≡ elim (TickTimer.has_interrupt t) as (λ _. ℕ) [ Interrupt.irq ↦ 0x80 | _ ↦ 0 ])
    × (t.enabled ≡ false → TickTimer.has_interrupt t ≡ Interrupt.none)
    × (t.nmi_countdown < 32)
timer_shows_example = timer_shows timer_events timer

timer_asks : TickTimer.has_interrupt (steps timer_events (TickTimer.reset timer)).0 ≡ Interrupt.irq
unfolding steps Laws.step TickTimer.control TickTimer.callback TickTimer.tick TickTimer.reset
    TickTimer.has_interrupt
timer_asks = refl

abbrev three_bytes : List ℕ
three_bytes = 10 ∷ 11 ∷ 255 ∷ []

process_srecord-record_text_example :
    process_srecord (record_text 49 0x1000 three_bytes 0xD5)
    ≡ some (
      record { count = 6; address = 0x1000; bytes = three_bytes; checksum = 0xD5 },
      0xD5 == expected_checksum 0x1000 three_bytes,
    )
process_srecord-record_text_example =
    process_srecord-record_text 49 0x1000 three_bytes 0xD5 (omega arith) (omega arith)
      (omega arith, (omega arith, (omega arith, _))) (omega arith)

accepted : (0xD5 == expected_checksum 0x1000 three_bytes) ≡ true
accepted = refl

one_byte_refused_example :
    process_srecord
      (record_text 49 0x1000 (replace_at three_bytes 1 12) (expected_checksum 0x1000 three_bytes))
    ≡ some (
      record {
        count = 6;
        address = 0x1000;
        bytes = replace_at three_bytes 1 12;
        checksum = expected_checksum 0x1000 three_bytes;
      },
      false,
    )
one_byte_refused_example =
    one_byte_refused 49 0x1000 three_bytes 1 12 (omega arith) (omega arith)
      (omega arith, (omega arith, (omega arith, _))) (omega arith) (omega arith) (omega arith)

abbrev small_fields : Fields
small_fields = record { count = 4; address = 0x20; bytes = 7 ∷ []; checksum = 0xD4 }

abbrev small_record : List ℕ
small_record = record_text 49 0x20 (7 ∷ []) 0xD4

small_record_read : process_srecord small_record ≡ some (small_fields, true)
small_record_read =
    process_srecord-record_text 49 0x20 (7 ∷ []) 0xD4 (omega arith) (omega arith) (omega arith, _)
      (omega arith)

process_srecord_bounds_example :
    (small_fields.count < 256)
    × (small_fields.address < 65536)
    × (small_fields.checksum < 256)
    × AllBytes small_fields.bytes
    × (length small_fields.bytes ≡ data_count small_fields.count)
    × (10 + 2 * data_count small_fields.count ≤ length small_record)
process_srecord_bounds_example =
    process_srecord_bounds small_record small_fields true small_record_read
