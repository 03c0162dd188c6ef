-- ===== src/Mc6850/Stall.antt =====
-- When a guest that waits for TDRE is let go on, and when it is not.
use pico_thing_main.Base.{
  ◌%◌, ◌/◌, ◌≡◌, ◌≤◌, Bool, true, false, if_elim, not, List, [], ◌∷◌, arith, ◌==◌,
}
use pico_thing_main.Registers.{read_byte}
use pico_thing_main.SpscQueue
use pico_thing_main.SpscQueue.Fifo.{level_tests}
use pico_thing_main.Mc6850.{
  Mc6850, Port, derived_status, status_byte, sync_status, refresh_transmit, cts_threshold, stage,
  stage_if,
}
use pico_thing_main.Mc6850
use pico_thing_main.Mc6850.Calls.{Call, call, calls}
use pico_thing_main.Mc6850.Calls
use pico_thing_main.Mc6850.Status.{Inv, call-Inv, has_interrupt-Inv}

-- Calls that do not mark the port: the host takes a byte, reports that it is as ready as before, and
-- the main loop polls.
abbrev pub IsQuiet : Call → Port → Type 0
IsQuiet Calls.host_receive p = Unit {0}
IsQuiet Calls.has_interrupt p = Unit {0}
IsQuiet (Calls.set_host_cts d) p = p.0.host_cts_deasserted ≡ d
IsQuiet _ p = ⊥

abbrev pub AllQuiet : List Call → Port → Type 0
AllQuiet [] p = Unit {0}
AllQuiet (c ∷ cs) p = IsQuiet c p × AllQuiet cs (call c p)

abbrev IsStalled : Port → Type 0
IsStalled p = (p.0.irq_dirty ≡ false) × (p.0.cts_deasserted ≡ true)

call-IsStalled : (c : Call) (p : Port) → IsQuiet c p → IsStalled p → IsStalled (call c p)
unfolding call
call-IsStalled Calls.reset p k s = absurd k
call-IsStalled Calls.has_interrupt (u, r) k s =
    unfold Mc6850.has_interrupt in
    if_elim IsStalled (not u.irq_dirty) (λ _. s) (λ e. absurd (ground arith))
call-IsStalled Calls.host_receive (u, r) k s = unfold Mc6850.host_receive in s
call-IsStalled (Calls.set_host_cts true) (u, r) k s = unfold Mc6850.set_host_cts in ground arith
call-IsStalled (Calls.set_host_cts false) (u, r) k s = unfold Mc6850.set_host_cts in ground arith
call-IsStalled _ p k s = absurd k

calls-IsStalled :
    (cs : List Call) (p : Port)
    → Inv p
    → AllQuiet cs p
    → IsStalled p
    → Inv (calls cs p) × IsStalled (calls cs p)
unfolding calls
calls-IsStalled [] p v k s = (v, s)
calls-IsStalled (c ∷ cs) p v k s =
    calls-IsStalled cs (call c p) (call-Inv c p v) k.1 (call-IsStalled c p k.0 s)

-- Once CTS is deasserted and the port is clean, with its invariant, no number of bytes that the
-- host takes out of `tx`, of polls, and of reports that the host is as ready as before brings TDRE
-- back: a guest that waits for it waits on, be `tx` empty.
pub host_receive_stalls :
    (cs : List Call) (p : Port)
    → Inv p
    → p.0.irq_dirty ≡ false
    → p.0.cts_deasserted ≡ true
    → AllQuiet cs p
    → let (u, r) = calls cs p in read_byte r u.ctl_offset / 2 % 2 ≡ 0
host_receive_stalls cs p v d c k = let (w, s) = calls-IsStalled cs p v k (d, c) in ground arith

derived_tdre :
    (u : Mc6850)
    → u.transmit_buffer_empty ≡ true
    → u.cts_deasserted ≡ false
    → u.tx_write_pending ≡ false
    → derived_status u / 2 % 2 ≡ 1
derived_tdre u a b c = ground arith

-- TDRE's three members.
abbrev Ready : Mc6850 → Type 0
Ready u =
    (u.transmit_buffer_empty ≡ true) × (u.cts_deasserted ≡ false) × (u.tx_write_pending ≡ false)

Ready-sync : (p : Port) → Ready p.0 → Ready (sync_status p).0
unfolding sync_status
Ready-sync (u, r) h =
    if_elim (λ (q : Port). Ready q.0) (derived_status u == u.cached_status_byte) (λ _. h) (λ _. h)

Ready-stage_if : (b : Bool) (p : Port) → Ready p.0 → Ready (stage_if b p).0
unfolding stage_if stage
Ready-stage_if true (u, r) h = h
Ready-stage_if false (u, r) h = h

Ready-refresh :
    (u : Mc6850)
    → SpscQueue.has_space u.tx ≡ true
    → SpscQueue.get_level u.tx ≤ cts_threshold
    → u.host_cts_deasserted ≡ false
    → u.tx_write_pending ≡ false
    → Ready (refresh_transmit (record u { irq_dirty = false }))
unfolding refresh_transmit
Ready-refresh u s l h w = ground arith

has_interrupt_tdre :
    (p : Port)
    → Inv p
    → p.0.irq_dirty ≡ true
    → SpscQueue.get_level p.0.tx ≤ cts_threshold
    → p.0.host_cts_deasserted ≡ false
    → p.0.tx_write_pending ≡ false
    → Ready (Mc6850.has_interrupt p).0
unfolding Mc6850.has_interrupt Mc6850.poll Mc6850.assert_irqs
has_interrupt_tdre (u, r) v d l h w =
    if_elim (λ (q : Port). Ready q.0) (not u.irq_dirty) (λ e. absurd (ground arith))
      λ _. Ready-sync _ (
        Ready-stage_if _ (refresh_transmit (record u { irq_dirty = false }), r)
          (Ready-refresh u (ground (arith, level_tests u.tx v.tx_valid)) l h w))

-- On a marked port with its invariant a poll shows TDRE if `tx` is at or below the threshold, the
-- host is ready and no write is under way.
pub transmit_recovers :
    (p : Port)
    → Inv p
    → p.0.irq_dirty ≡ true
    → SpscQueue.get_level p.0.tx ≤ cts_threshold
    → p.0.host_cts_deasserted ≡ false
    → p.0.tx_write_pending ≡ false
    → let (u, r) = Mc6850.has_interrupt p in read_byte r u.ctl_offset / 2 % 2 ≡ 1
transmit_recovers (u, r) v d l h w =
    let s = has_interrupt-Inv (u, r) v in
    let t = has_interrupt_tdre (u, r) v d l h w in
    ground (arith, derived_tdre (Mc6850.has_interrupt (u, r)).0)
