-- ===== src/UartPump/Streams/Task.antt =====
-- uart_task moves the bytes of both ports.
use pico_thing_main.Base.{◌≡◌, Bool, true, false, if_elim, arith, ltb, length}
use pico_thing_main.Mc6809.{at_least_running}
use pico_thing_main.Core1.{Core1}
use pico_thing_main.Usb.{Cdc, IsCdc}
use pico_thing_main.UartPump.{Links, uart_task, to_write}
use pico_thing_main.UartPump.Streams.{Sound, Place, Kept, uart_port_pump_lem, flush-Kept}

module _ (c : Cdc) (h : IsCdc c) where
  -- Where the console's bytes are, and those of the other port.
  abbrev pub console_place : Links c → Core1 → Place c h
  console_place l g = (l.usb_console, (g.fast_serial, l.port_console))

  abbrev pub aux_place : Links c → Core1 → Place c h
  aux_place l g = (l.usb_aux, (g.aux_serial, l.port_aux))

  pub record Pumped (x y : Links c × Core1) : Type 0 where
    pub console : Kept c h (console_place x.0 x.1) (console_place y.0 y.1)
    pub aux : Kept c h (aux_place x.0 x.1) (aux_place y.0 y.1)
    pub console_cts :
        y.1.fast_serial.host_cts_deasserted ≡ ltb 0 (length (to_write y.0.port_console))
    pub aux_cts : y.1.aux_serial.host_cts_deasserted ≡ ltb 0 (length (to_write y.0.port_aux))

  -- One call of uart_task while the 6809 runs, on two sound ports, with a TinyUSB that does what it
  -- documents, whatever it takes and gives. On each port the bytes in the guest's receive queue, in
  -- the buffer from USB and still in USB are together the same as before and in the same order, and
  -- so are those that USB has taken, in the buffer to USB and in the guest's transmit queue. Both
  -- ports stay sound, and CTS is deasserted by the host's side exactly when bytes are left that USB
  -- has not taken.
  pub uart_task-Pumped :
      (suppress : Bool) (l : Links c) (g : Core1)
      → at_least_running g.mc6809.run_state ≡ true
      → Sound g.fast_serial l.port_console
      → Sound g.aux_serial l.port_aux
      → Pumped (l, g) (uart_task c suppress l g)
  unfolding uart_task
  uart_task-Pumped suppress l g e v w =
      let (k, i) = uart_port_pump_lem c h suppress l.usb_console g.fast_serial l.port_console v in
      let (m, j) = uart_port_pump_lem c h false l.usb_aux g.aux_serial l.port_aux w in
      if_elim (Pumped (l, g)) (at_least_running g.mc6809.run_state)
        (λ _. record {
          console = flush-Kept c h (console_place l g) _ k;
          aux = flush-Kept c h (aux_place l g) _ m;
          console_cts = i;
          aux_cts = j;
        })
        λ f. absurd (ground arith)
