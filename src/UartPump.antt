-- ===== src/UartPump.antt =====
-- src/mc6809.cpp: uart_port_pump and uart_task, which move bytes between the serial ports and USB. A
-- port state has two buffers, each with the number of bytes in it and the position of the first that
-- has not been passed on.
pub mod Buffers
pub mod Advance
pub mod Streams
use Prim.Native.Nat.{min}
use pico_thing_main.Base.{
  ℕ, zero, suc, ◌+◌, ◌-◌, Bool, true, false, not, ◌&&◌, List, [], ◌∷◌, ltb, leb, ◌==◌,
  if◌then◌else◌, Cells, update, items, length, byte_at, u16,
}
use pico_thing_main.Mc6809.{RunState, at_least_running, is_reset}
use pico_thing_main.Mc6850.{Mc6850}
use pico_thing_main.Mc6850
use pico_thing_main.Core1.{Core1}
use pico_thing_main.Usb.{Cdc, usb_cdc_read_n, usb_cdc_write_n, usb_cdc_flush_n}

-- struct uart_port_state
pub record UartPort : Type 0 where
  pub rx_buf : Cells
  pub tx_buf : Cells
  pub rx_count : ℕ  -- uint16_t
  pub rx_index : ℕ  -- uint16_t
  pub tx_count : ℕ  -- uint16_t
  pub tx_index : ℕ  -- uint16_t

abbrev pub usb_buffer_size : ℕ
usb_buffer_size = 512

-- `port_state[i] = {}`
abbrev pub cleared : UartPort
cleared = record {
  rx_buf = λ i. 0;
  tx_buf = λ i. 0;
  rx_count = 0;
  rx_index = 0;
  tx_count = 0;
  tx_index = 0;
}

-- The bytes are stored from the start of the buffer.
abbrev pub stored : List ℕ → Cells → Cells
stored bytes buf = λ i. if ltb i (length bytes) then byte_at bytes i else buf i

-- `if (st.rx_count == 0u)`: more bytes from USB.
unfoldable pub refill : (c : Cdc) → c.State → UartPort → c.State × UartPort
refill c s st =
    if st.rx_count == 0
    then (let (bytes, s₁) = usb_cdc_read_n c usb_buffer_size s in
        (s₁, record st { rx_buf = stored bytes st.rx_buf; rx_count = length bytes; rx_index = 0 }))
    else (s, st)

-- The loop that sends: the position and the number of bytes left.
unfoldable pub transmit_from : Cells → ℕ → ℕ → Mc6850 → Mc6850
transmit_from buf k zero u = u
transmit_from buf k (suc n) u = transmit_from buf (k + 1) n (Mc6850.host_transmit (buf k) u)

-- `st.rx_index += n`, and the buffer is done with when all of it has been sent.
unfoldable pub advance_rx : ℕ → UartPort → UartPort
advance_rx n st = record st {
  rx_index = u16 (st.rx_index + n);
  rx_count = if leb st.rx_count (u16 (st.rx_index + n)) then 0 else st.rx_count;
}

-- `transmit_amount`
abbrev pub transmit_amount : Mc6850 → UartPort → ℕ
transmit_amount u st = min (Mc6850.host_transmit_level_avail u) (st.rx_count - st.rx_index)

-- READ, under its test.
unfoldable pub pump_read :
    (c : Cdc) → Bool → c.State → Mc6850 → UartPort → c.State × (Mc6850 × UartPort)
unfolding refill transmit_from advance_rx
pump_read c suppress_read s u st =
    if not u.rts_deasserted && not suppress_read
    then (let (s₁, st₁) = refill c s st in
        let n = transmit_amount u st₁ in
        (s₁, (transmit_from st₁.rx_buf st₁.rx_index n u, advance_rx n st₁)))
    else (s, (u, st))

-- The loop that collects: the rounds left, which are those until the buffer is full, the buffer and
-- the count.
unfoldable pub receive_into : ℕ → Cells → ℕ → Mc6850 → Cells × (ℕ × Mc6850)
receive_into zero buf count u = (buf, (count, u))
receive_into (suc n) buf count u = elim (Mc6850.host_receive_avail u) [
  | true ↦
      let (ch, u₁) = Mc6850.host_receive u in receive_into n (update buf count ch) (count + 1) u₁
  | false ↦ (buf, (count, u))
]

-- `if (st.tx_count == 0u)`: more bytes from the guest.
unfoldable pub collect : Mc6850 → UartPort → Mc6850 × UartPort
unfolding receive_into
collect u st =
    if st.tx_count == 0
    then (let (buf, (count, u₁)) = receive_into usb_buffer_size st.tx_buf 0 u in
        (u₁, record st { tx_buf = buf; tx_count = count; tx_index = 0 }))
    else (u, st)

-- The bytes that are still to be written.
abbrev pub to_write : UartPort → List ℕ
to_write st = items st.tx_buf st.tx_index (st.tx_count - st.tx_index)

unfoldable pub advance_tx : ℕ → UartPort → UartPort
advance_tx n st = record st {
  tx_index = u16 (st.tx_index + n);
  tx_count = if leb st.tx_count (u16 (st.tx_index + n)) then 0 else st.tx_count;
}

-- `cts`
abbrev pub unsent : UartPort → Bool
unsent st = ltb 0 st.tx_count && ltb st.tx_index st.tx_count

-- WRITE
unfoldable pub pump_write : (c : Cdc) → c.State → Mc6850 → UartPort → c.State × (Mc6850 × UartPort)
unfolding collect advance_tx
pump_write c s u st =
    let (u₁, st₁) = collect u st in
    let (written, s₁) = usb_cdc_write_n c (to_write st₁) s in
    let st₂ = advance_tx written st₁ in (s₁, (Mc6850.set_host_cts (unsent st₂) u₁, st₂))

unfoldable pub uart_port_pump :
    (c : Cdc) → Bool → c.State → Mc6850 → UartPort → c.State × (Mc6850 × UartPort)
unfolding pump_read pump_write
uart_port_pump c suppress_read s u st =
    let (s₁, (u₁, st₁)) = pump_read c suppress_read s u st in pump_write c s₁ u₁ st₁

-- An interface and its port state: of the console, and of the other port.
pub record Links (c : Cdc) : Type 0 where
  pub usb_console : c.State
  pub usb_aux : c.State
  pub port_console : UartPort
  pub port_aux : UartPort

unfoldable pub uart_task : (c : Cdc) → Bool → Links c → Core1 → Links c × Core1
unfolding uart_port_pump
uart_task c suppress_cdc_read l g =
    if at_least_running g.mc6809.run_state
    then (let (s₀, (u₀, p₀)) =
          uart_port_pump c suppress_cdc_read l.usb_console g.fast_serial l.port_console in
        let (s₁, (u₁, p₁)) = uart_port_pump c false l.usb_aux g.aux_serial l.port_aux in
        (
          record {
            usb_console = usb_cdc_flush_n c s₀;
            usb_aux = usb_cdc_flush_n c s₁;
            port_console = p₀;
            port_aux = p₁;
          },
          record g { fast_serial = u₀; aux_serial = u₁ },
        ))
    else if is_reset g.mc6809.run_state
    then (record l { port_console = cleared; port_aux = cleared }, g)
    else (l, g)
