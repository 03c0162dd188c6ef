-- ===== src/Core1.antt =====
-- src/pico_thing.cpp: what core 1 keeps of the guest, and the interrupt handlers of the bus. The
-- register blocks stand in the 6809's state, since all devices share them. GPIO pins that the
-- handlers set are members; clocks, DMA channels and debug counters are left out.
pub mod Requests
pub mod Loop
pub mod Watchpoint
pub mod Armed
pub mod Rearm
pub mod Served
pub mod Pins
pub mod Reads
use pico_thing_main.Base.{
  ℕ, ◌+◌, ◌%◌, ◌≡◌, Bool, true, false, not, ◌&&◌, ◌||◌, leb, ltb, ◌==◌, if◌then◌else◌, u8, Cells,
}
use pico_thing_main.Interrupt.{Interrupt}
use pico_thing_main.Registers.{Registers, put_byte, written_byte, write_byte}
use pico_thing_main.Mc6809.{
  Mc6809, BusState, at_least_running, set_busy_lic_avma, observe_bus, tick_rti_countdown,
  task_change, task_pins_update, apply_rti, trace_arm, trace_stop, trace_capture, system_task,
}
use pico_thing_main.Mc6850.{Mc6850, Port}
use pico_thing_main.Mc6850
use pico_thing_main.TickTimer.{TickTimer, Timer}
use pico_thing_main.TickTimer
use pico_thing_main.WriteRing.{WriteRing, WriteEntry, push_write}

pub record Core1 : Type 0 where
  pub mc6809 : Mc6809
  pub fast_serial : Mc6850
  pub aux_serial : Mc6850
  pub system_tick : TickTimer
  pub ring : WriteRing
  pub console_interrupt : Interrupt
  pub q_rising_edge : Bool
  -- pending_interrupts, by its three bits
  pub pend_nmi : Bool
  pub pend_firq : Bool
  pub pend_irq : Bool
  pub nmi_pin : Bool
  pub firq_pin : Bool
  pub irq_pin : Bool
  pub trace_e_irq_on : Bool
  pub watchpoint_armed : Bool
  pub watchpoint_saved_nmi_vector : ℕ  -- uint16_t
  pub read_irq_received : Bool
  pub read_location : ℕ  -- uint8_t
  pub rx_read_count : ℕ  -- uint8_t
  pub rx_processed_count : ℕ  -- uint8_t
  pub aux_rx_read_count : ℕ  -- uint8_t
  pub aux_rx_processed_count : ℕ  -- uint8_t

-- Offsets of the registers, and the blocks of RAM above the sixteen devices.
abbrev pub system_rti_signal : ℕ
system_rti_signal = 1

abbrev pub console_control : ℕ
console_control = 4

abbrev pub console_data : ℕ
console_data = 5

abbrev pub aux_control : ℕ
aux_control = 6

abbrev pub aux_data : ℕ
aux_data = 7

abbrev pub system_timer_control : ℕ
system_timer_control = 8

abbrev pub system_timer_status : ℕ
system_timer_status = 9

abbrev pub system_watchpoint : ℕ
system_watchpoint = 10

abbrev pub system_trace : ℕ
system_trace = 11

abbrev pub buffer_offset : ℕ
buffer_offset = 16

abbrev pub snippet_offset : ℕ
snippet_offset = 32

abbrev pub vectors_offset : ℕ
vectors_offset = 48

abbrev pub nmi_vector_offset : ℕ
nmi_vector_offset = 60

abbrev pub reset_vector_offset : ℕ
reset_vector_offset = 62

-- REGISTER_SNIPPET, as the guest addresses it.
abbrev pub register_snippet : ℕ
register_snippet = 0xFFE0

abbrev pub registers_of : Core1 → Registers
registers_of g = g.mc6809.regs

-- A change of the register blocks alone.
abbrev pub with_registers : Registers → Core1 → Core1
with_registers r g = record g { mc6809 = record g.mc6809 { regs = r } }

-- A method of a device, called on the device and the shared blocks.
abbrev pub on_fast : (Port → Port) → Core1 → Core1
on_fast f g =
    let (u, r) = f (g.fast_serial, registers_of g) in
    with_registers r (record g { fast_serial = u })

abbrev pub on_aux : (Port → Port) → Core1 → Core1
on_aux f g =
    let (u, r) = f (g.aux_serial, registers_of g) in with_registers r (record g { aux_serial = u })

abbrev pub on_tick : (Timer → Timer) → Core1 → Core1
on_tick f g =
    let (t, r) = f (g.system_tick, registers_of g) in
    with_registers r (record g { system_tick = t })

-- What the handler at Q-rising samples from the pins.
pub record BusPins : Type 0 where
  pub address_lsb : ℕ
  pub busy_lic_avma : ℕ
  pub bs_ba : BusState
  pub reset_now : Bool

-- NMI is asserted for one cycle; the others follow the pending bits.
unfoldable pub apply_pending : Core1 → Core1
apply_pending g = record g {
  nmi_pin = g.pend_nmi;
  pend_nmi = false;
  firq_pin = g.pend_firq;
  irq_pin = g.pend_irq;
}

-- gpio_clock_eq_irq_handler at a rising Q.
unfoldable pub gpio_q_rising : BusPins → Core1 → Core1
unfolding apply_pending
gpio_q_rising pins g =
    let cpu = tick_rti_countdown (
      observe_bus pins.bs_ba pins.address_lsb pins.reset_now
        (set_busy_lic_avma pins.busy_lic_avma g.mc6809)) in
    let g₁ = apply_pending (record g { q_rising_edge = true; mc6809 = cpu }) in
    record g₁ { trace_e_irq_on = cpu.trace_enabled }

-- The same handler at a falling E.
unfoldable pub gpio_e_falling : ℕ → Core1 → Core1
gpio_e_falling word g =
    if g.trace_e_irq_on then record g { mc6809 = trace_capture word g.mc6809 } else g

-- pio_rti_irq_handler
unfoldable pub pio_rti : Core1 → Core1
pio_rti g = record g { mc6809 = apply_rti g.mc6809 }

-- dma_bus_read_irq_handler, after the guest has read the register `loc`.
unfoldable pub dma_bus_read : ℕ → Core1 → Core1
dma_bus_read loc g =
    if at_least_running g.mc6809.run_state && g.mc6809.vma
    then (if loc == console_data
        then on_fast Mc6850.rx_read_fast_path
            (record g { rx_read_count = u8 (g.rx_read_count + 1) })
        else if loc == aux_data
        then on_aux Mc6850.rx_read_fast_path
            (record g { aux_rx_read_count = u8 (g.aux_rx_read_count + 1) })
        else if loc == system_timer_status
        then on_tick TickTimer.acknowledge g
        else record g { read_location = loc; read_irq_received = true })
    else g

-- A write of SYSTEM_TASK.
unfoldable pub select_task : ℕ → Mc6809 → Mc6809
select_task wval m =
    let m₁ = task_change wval m in
    task_pins_update m₁.task (record m₁ { regs = put_byte m₁.regs system_task m₁.task })

-- The cases of the write handler, before the write is queued.
unfoldable pub write_effect : ℕ → ℕ → Core1 → Core1
write_effect wloc wval g =
    if wloc == system_task
    then record g { mc6809 = select_task wval g.mc6809 }
    else if wloc == system_rti_signal
    then record g { mc6809 = apply_rti g.mc6809 }
    else if wloc == console_control
    then record g { fast_serial = Mc6850.control_written_isr wval g.fast_serial }
    else if wloc == aux_control
    then record g { aux_serial = Mc6850.control_written_isr wval g.aux_serial }
    else if wloc == console_data
    then on_fast Mc6850.write_received g
    else if wloc == aux_data
    then on_aux Mc6850.write_received g
    else if wloc == system_timer_control
    then on_tick (TickTimer.control wval) g
    else if wloc == system_watchpoint
    then g
    else if wloc == system_trace
    then record g { mc6809 = if wval == 0 then trace_stop g.mc6809 else trace_arm g.mc6809 }
    else if g.watchpoint_armed && leb snippet_offset wloc
    then record g { nmi_pin = true }
    else if leb buffer_offset wloc && ltb wloc 64
    then with_registers (put_byte (registers_of g) wloc wval) g
    else g

-- dma_bus_write_irq_handler, after the DMA has stored a byte in the write block at `wloc`.
unfoldable pub dma_bus_write : ℕ → Core1 → Core1
unfolding write_effect
dma_bus_write wloc g =
    if at_least_running g.mc6809.run_state
    then (let wval = written_byte (registers_of g) wloc in
        let g₁ = write_effect wloc wval g in
        record g₁ { ring = push_write (record { location = wloc; value = wval }) g₁.ring })
    else g

-- The guest writes a register: the DMA stores the byte, and its handler runs.
unfoldable pub guest_write : ℕ → ℕ → Core1 → Core1
unfolding dma_bus_write
guest_write wloc v g = dma_bus_write wloc (with_registers (write_byte (registers_of g) wloc v) g)
