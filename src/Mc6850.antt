-- ===== src/Mc6850.antt =====
-- src/mc6850.cpp and include/mc6850.h: the emulated serial port. A method takes the port and the
-- shared register blocks, and returns both.
pub mod Calls
pub mod Status
pub mod Preempted
pub mod Receive
pub mod Transmit
pub mod Interrupts
pub mod Stall
use pico_thing_main.Base.{
  ℕ, ◌+◌, ◌-◌, ◌*◌, ◌%◌, ◌/◌, ◌≡◌, Bool, true, false, not, ◌&&◌, ◌||◌, ltb, ◌==◌, if◌then◌else◌,
  bit,
}
use pico_thing_main.Interrupt.{Interrupt}
use pico_thing_main.Interrupt
use pico_thing_main.Registers.{Registers, put_byte, write_byte}
use pico_thing_main.SpscQueue.{SpscQueue}
use pico_thing_main.SpscQueue

pub record Mc6850 : Type 0 where
  pub ctl_offset : ℕ
  pub data_offset : ℕ
  pub tx : SpscQueue
  pub rx : SpscQueue
  pub cached_status_byte : ℕ
  pub cached_irq_result : Interrupt
  pub transmit_buffer_empty : Bool
  pub receive_buffer_full : Bool
  pub transmit_irq : Bool
  pub receive_irq : Bool
  pub assert_transmit_irq : Bool
  pub assert_receive_irq : Bool
  pub cts_deasserted : Bool
  pub rts_deasserted : Bool
  pub loopback_close : Bool
  pub loopback_queue : Bool
  pub tx_write_pending : Bool
  pub irq_dirty : Bool
  pub host_cts_deasserted : Bool

abbrev pub Port : Type 0
Port = Mc6850 × Registers

abbrev pub cts_threshold : ℕ
cts_threshold = 800

-- union mc6850_status, from its bit fields: rdrf is bit 0, tdre bit 1, cts bit 3, irq bit 7.
abbrev pub status_byte : Bool → Bool → Bool → Bool → ℕ
status_byte rdrf tdre cts irq = bit rdrf + bit tdre * 2 + bit cts * 8 + bit irq * 128

-- `reset_status.byte`
abbrev pub reset_status : ℕ
reset_status = status_byte false true false false

-- union mc6850_control
abbrev pub divide_select : ℕ → ℕ
divide_select val = val % 4

abbrev pub tx_irq : ℕ → ℕ
tx_irq val = val / 32 % 4

abbrev pub rx_irq : ℕ → Bool
rx_irq val = val / 128 % 2 == 1

-- The constructor, with the members' initialisers.
unfoldable pub construct : ℕ → ℕ → Registers → Port
construct ctl_off data_off r =
    let r₁ = put_byte (write_byte r ctl_off 0) ctl_off reset_status in
    let r₂ = put_byte (write_byte r₁ data_off 0) data_off 0 in
    (
      record {
        ctl_offset = ctl_off;
        data_offset = data_off;
        tx = SpscQueue.empty;
        rx = SpscQueue.empty;
        cached_status_byte = reset_status;
        cached_irq_result = Interrupt.none;
        transmit_buffer_empty = true;
        receive_buffer_full = false;
        transmit_irq = false;
        receive_irq = false;
        assert_transmit_irq = false;
        assert_receive_irq = false;
        cts_deasserted = false;
        rts_deasserted = false;
        loopback_close = false;
        loopback_queue = false;
        tx_write_pending = false;
        irq_dirty = true;
        host_cts_deasserted = false;
      },
      r₂,
    )

unfoldable pub reset : Port → Port
reset (u, r) =
    let r₁ = put_byte (write_byte r u.ctl_offset 0) u.ctl_offset 0 in
    let r₂ = put_byte (write_byte r₁ u.data_offset 0) u.data_offset 0 in
    (
      record u {
        transmit_buffer_empty = true;
        receive_buffer_full = false;
        transmit_irq = false;
        receive_irq = false;
        assert_transmit_irq = false;
        assert_receive_irq = false;
        cts_deasserted = false;
        rts_deasserted = false;
        loopback_close = false;
        loopback_queue = false;
        host_cts_deasserted = false;
        tx_write_pending = false;
        irq_dirty = true;
        tx = SpscQueue.reset u.tx;
        rx = SpscQueue.reset u.rx;
        cached_status_byte = reset_status;
      },
      put_byte r₂ u.ctl_offset reset_status,
    )

-- The byte that `sync_status` derives from the other members.
abbrev pub derived_status : Mc6850 → ℕ
derived_status u =
    status_byte u.receive_buffer_full
      (u.transmit_buffer_empty && (not u.cts_deasserted && not u.tx_write_pending)) u.cts_deasserted
      (u.assert_receive_irq || u.assert_transmit_irq)

unfoldable pub sync_status : Port → Port
sync_status (u, r) =
    let sr = derived_status u in
    if sr == u.cached_status_byte
    then (u, r)
    else (record u { cached_status_byte = sr }, put_byte r u.ctl_offset sr)

-- The lines that `sync_transmit` and `has_interrupt` share.
unfoldable pub refresh_transmit : Mc6850 → Mc6850
refresh_transmit u = record u {
  transmit_buffer_empty = SpscQueue.has_space u.tx;
  cts_deasserted = ltb cts_threshold (SpscQueue.get_level u.tx) || u.host_cts_deasserted;
}

unfoldable pub sync_transmit : Port → Port
sync_transmit (u, r) = sync_status (refresh_transmit u, r)

unfoldable pub write_received : Port → Port
write_received (u, r) = sync_status (record u { tx_write_pending = true; irq_dirty = true }, r)

abbrev pub same : Bool → Bool → Bool
same true b = b
same false b = not b

unfoldable pub set_host_cts : Bool → Mc6850 → Mc6850
set_host_cts deasserted u =
    if same u.host_cts_deasserted deasserted
    then u
    else record u { host_cts_deasserted = deasserted; irq_dirty = true }

unfoldable pub control_written_isr : ℕ → Mc6850 → Mc6850
control_written_isr val u = record u {
  rts_deasserted = if divide_select val == 3 then u.rts_deasserted else (tx_irq val == 2);
  irq_dirty = true;
}

unfoldable pub guest_control : ℕ → Port → Port
guest_control val (u, r) =
    if divide_select val == 3
    then reset (u, r)
    else sync_transmit (
      record u {
        loopback_close = tx_irq val == 3;
        loopback_queue = not (tx_irq val == 3) && (divide_select val == 2);
        transmit_irq = tx_irq val == 1;
        receive_irq = rx_irq val;
        irq_dirty = true;
      },
      r,
    )

-- `if (q.has_space()) q.put(ch)`
unfoldable pub put_if_space : SpscQueue → ℕ → SpscQueue
put_if_space q ch = if SpscQueue.has_space q then SpscQueue.put q ch else q

-- The three ways of `guest_transmit` to pass a byte on.
unfoldable pub transmit_byte : ℕ → Port → Port
transmit_byte val (u, r) =
    if u.loopback_close
    then (
      record u { receive_buffer_full = true; assert_receive_irq = u.receive_irq },
      put_byte r u.data_offset val,
    )
    else if u.loopback_queue
    then (record u { rx = put_if_space u.rx val }, r)
    else (record u { tx = put_if_space u.tx val }, r)

unfoldable pub guest_transmit : ℕ → Port → Port
guest_transmit val (u, r) =
    let (u', r') = transmit_byte val (record u { tx_write_pending = false }, r) in
    sync_transmit (record u' { irq_dirty = true }, r')

unfoldable pub rx_read_fast_path : Port → Port
rx_read_fast_path (u, r) =
    sync_status
      (record u { receive_buffer_full = false; assert_receive_irq = false; irq_dirty = true }, r)

-- `reg[data_offset] = rx.get()`, with RDRF set.
unfoldable pub stage : Port → Port
stage (u, r) =
    let (ch, q) = SpscQueue.get u.rx in
    (record u { rx = q; receive_buffer_full = true }, put_byte r u.data_offset ch)

-- `stage` under the test of the two places that stage a byte.
unfoldable pub stage_if : Bool → Port → Port
stage_if b p = if b then stage p else p

unfoldable pub guest_receive : Port → Port
guest_receive (u, r) =
    if u.rts_deasserted
    then sync_status (record u { receive_buffer_full = false; irq_dirty = true }, r)
    else let (u', r') = stage_if (not u.receive_buffer_full && SpscQueue.has_bytes u.rx) (u, r) in
      sync_status (record u' { irq_dirty = true }, r')

-- The two interrupt requests, recomputed.
unfoldable pub assert_irqs : Mc6850 → Mc6850
assert_irqs u = record u {
  assert_receive_irq = u.receive_irq && u.receive_buffer_full;
  assert_transmit_irq =
      u.transmit_irq
      && (u.transmit_buffer_empty && (not u.tx_write_pending && not u.cts_deasserted));
}

-- The test under which `has_interrupt` stages a byte.
unfoldable pub can_stage : Mc6850 → Bool
can_stage u = not u.receive_buffer_full && (SpscQueue.has_bytes u.rx && not u.rts_deasserted)

-- The part of `has_interrupt` behind its fast path, up to `sync_status`.
unfoldable pub poll : Port → Port
poll (u, r) =
    let u₁ = refresh_transmit (record u { irq_dirty = false }) in
    let (u₂, r₂) = stage_if (can_stage u₁) (u₁, r) in (assert_irqs u₂, r₂)

-- The result is the member `cached_irq_result` of the port that is returned.
unfoldable pub has_interrupt : Port → Port
has_interrupt (u, r) =
    if not u.irq_dirty
    then (u, r)
    else let (u', r') = sync_status (poll (u, r)) in
      (
        record u' {
          cached_irq_result =
              if u'.assert_transmit_irq || u'.assert_receive_irq
              then Interrupt.irq
              else Interrupt.none;
        },
        r',
      )

unfoldable pub host_transmit_level_avail : Mc6850 → ℕ
host_transmit_level_avail u = 1023 - SpscQueue.get_level u.rx

unfoldable pub host_receive_avail : Mc6850 → Bool
host_receive_avail u = not (SpscQueue.is_empty u.tx)

unfoldable pub host_receive : Mc6850 → ℕ × Mc6850
host_receive u = let (ch, q) = SpscQueue.get u.tx in (ch, record u { tx = q })

unfoldable pub host_transmit : ℕ → Mc6850 → Mc6850
host_transmit ch u = record u { rx = SpscQueue.put u.rx ch; irq_dirty = true }

unfoldable pub interrupt_status : Mc6850 → ℕ
interrupt_status u =
    bit u.transmit_buffer_empty
    + bit u.transmit_irq * 2
    + bit u.assert_transmit_irq * 4
    + bit u.receive_buffer_full * 16
    + bit u.receive_irq * 32
    + bit u.assert_receive_irq * 64
