-- ===== src/Mc6850/Calls.antt =====
-- The public methods of the port that change it, as one type of calls, and sequences of them. Two
-- cores and two interrupt handlers make these calls; a sequence is one order in which they happen.
use pico_thing_main.Base.{ℕ, Bool, List, [], ◌∷◌}
use pico_thing_main.Mc6850
use pico_thing_main.Mc6850.{Mc6850, Port}

pub data Call : Type 0 where
  reset write_received rx_read_fast_path guest_receive has_interrupt host_receive : Call
  set_host_cts : Bool → Call
  control_written_isr guest_control guest_transmit host_transmit : ℕ → Call

unfoldable pub call : Call → Port → Port
call reset p = Mc6850.reset p
call write_received p = Mc6850.write_received p
call rx_read_fast_path p = Mc6850.rx_read_fast_path p
call guest_receive p = Mc6850.guest_receive p
call has_interrupt p = Mc6850.has_interrupt p
call host_receive (u, r) = ((Mc6850.host_receive u).1, r)
call (set_host_cts d) (u, r) = (Mc6850.set_host_cts d u, r)
call (control_written_isr val) (u, r) = (Mc6850.control_written_isr val u, r)
call (guest_control val) p = Mc6850.guest_control val p
call (guest_transmit val) p = Mc6850.guest_transmit val p
call (host_transmit ch) (u, r) = (Mc6850.host_transmit ch u, r)

unfoldable pub calls : List Call → Port → Port
calls [] p = p
calls (c ∷ cs) p = calls cs (call c p)
