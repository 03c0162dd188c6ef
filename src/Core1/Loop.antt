-- ===== src/Core1/Loop.antt =====
-- src/pico_thing.cpp: the loop of main_core1.
use mathlib.Core.Option
use pico_thing_main.Base.{
  ℕ, zero, suc, ◌+◌, Bool, true, false, not, ◌&&◌, ◌||◌, Option, some, ◌==◌, if◌then◌else◌, Cells,
  u8, [],
}
use pico_thing_main.Interrupt.{Interrupt, is_irq, is_nmi, is_firq}
use pico_thing_main.Registers.{Registers, read_byte, read_word, put_word}
use pico_thing_main.Mc6809.{apply_rti}
use pico_thing_main.Mc6850
use pico_thing_main.TickTimer
use pico_thing_main.WriteRing.{WriteEntry, has_writes, take_write}
use pico_thing_main.Core1.{
  Core1, registers_of, with_registers, on_fast, on_aux, console_control, console_data, aux_control,
  aux_data, system_watchpoint, nmi_vector_offset, register_snippet,
}
use pico_thing_main.Core1.Requests.{FloatUnit, system_request, take_request, snippet_copy}

-- Whether a source of the four asks for an interrupt of a kind: `interrupt_refcount[…] > 0u`.
abbrev pub any_source : (Interrupt → Bool) → Core1 → Bool
any_source is g =
    is g.console_interrupt
    || (is (TickTimer.has_interrupt g.system_tick)
        || (is g.fast_serial.cached_irq_result || is g.aux_serial.cached_irq_result))

-- The block under `if (q_rising_edge)`.
unfoldable pub poll_interrupts : Core1 → Core1
poll_interrupts g =
    if g.q_rising_edge
    then (let g₁ =
          on_aux Mc6850.has_interrupt
            (on_fast Mc6850.has_interrupt (record g { q_rising_edge = false })) in
        record g₁ {
          pend_nmi = any_source is_nmi g₁;
          pend_firq = any_source is_firq g₁;
          pend_irq = any_source is_irq g₁;
        })
    else g

-- The case SYSTEM_WATCHPOINT, with the bytes of the BREAK snippet.
unfoldable pub watchpoint_control : Cells → ℕ → Core1 → Option Core1
watchpoint_control break_code written_byte g =
    let r = registers_of g in
    if not (written_byte == 0) && not g.watchpoint_armed
    then Option.map
        (λ (s : Registers).
          with_registers (put_word s nmi_vector_offset register_snippet) (record g {
            watchpoint_saved_nmi_vector = read_word r nmi_vector_offset;
            watchpoint_armed = true;
          }))
        (snippet_copy break_code r)
    else if written_byte == 0 && g.watchpoint_armed
    then some (
        with_registers (put_word r nmi_vector_offset g.watchpoint_saved_nmi_vector)
          (record g { watchpoint_armed = false }))
    else some g

-- The `switch` on the location of a write.
unfoldable pub dispatch_write : FloatUnit → Cells → WriteEntry → Core1 → Option Core1
unfolding watchpoint_control
dispatch_write f break_code e g =
    if e.location == system_request
    then some (with_registers (take_request f e.value (registers_of g)) g)
    else if e.location == system_watchpoint
    then watchpoint_control break_code e.value g
    else if e.location == console_control
    then some (on_fast (Mc6850.guest_control e.value) g)
    else if e.location == console_data
    then some (on_fast (Mc6850.guest_transmit e.value) g)
    else if e.location == aux_control
    then some (on_aux (Mc6850.guest_control e.value) g)
    else if e.location == aux_data
    then some (on_aux (Mc6850.guest_transmit e.value) g)
    else some g

-- One round of the loop over the ring, with no handler in between.
unfoldable pub drain_write : FloatUnit → Cells → Core1 → Option Core1
unfolding dispatch_write
drain_write f break_code g =
    let (e, ring) = take_write [] [] [] g.ring in
    dispatch_write f break_code e (record g { ring = ring })

-- The loop, of which no more than 31 rounds are possible.
unfoldable pub drain_writes : ℕ → FloatUnit → Cells → Core1 → Option Core1
unfolding drain_write
drain_writes zero f break_code g = some g
drain_writes (suc n) f break_code g =
    if has_writes g.ring
    then Option.bind (drain_write f break_code g) (drain_writes n f break_code)
    else some g

-- One round for each read of a data register that the handler counted; the counters wrap.
unfoldable pub drain_fast_reads : ℕ → Core1 → Core1
drain_fast_reads zero g = g
drain_fast_reads (suc n) g =
    if g.rx_processed_count == g.rx_read_count
    then g
    else let g₁ = on_fast Mc6850.guest_receive g in
      drain_fast_reads n (record g₁ { rx_processed_count = u8 (g₁.rx_processed_count + 1) })

unfoldable pub drain_aux_reads : ℕ → Core1 → Core1
drain_aux_reads zero g = g
drain_aux_reads (suc n) g =
    if g.aux_rx_processed_count == g.aux_rx_read_count
    then g
    else let g₁ = on_aux Mc6850.guest_receive g in
      drain_aux_reads n (record g₁ { aux_rx_processed_count = u8 (g₁.aux_rx_processed_count + 1) })

-- The block under `if (read_irq_received)`: a fetch of RTI from the end of the snippet.
unfoldable pub serve_read : Core1 → Core1
serve_read g =
    if g.read_irq_received
    then (let g₁ = record g { read_irq_received = false } in
        if g.read_location == 47
          && (g.mc6809.lic && read_byte (registers_of g) g.read_location == 0x3B)
        then record g₁ { mc6809 = apply_rti g.mc6809 }
        else g₁)
    else g
