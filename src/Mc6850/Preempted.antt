-- ===== src/Mc6850/Preempted.antt =====
-- src/mc6850.cpp: sync_status, interrupted by the handler of a read of the data register.
use pico_thing_main.Base.{
  ◌%◌, ◌≡◌, refl, ap, ◌∙◌, true, false, ◌==◌, if◌then◌else◌, if_elim, arith, bit,
}
use pico_thing_main.Registers.{Registers, read_byte, put_byte}
use pico_thing_main.Mc6850.{Mc6850, Port, derived_status, sync_status, rx_read_fast_path}

-- sync_status, with what a handler does between the lines that derive the byte and those that
-- compare and store it.
unfoldable pub sync_status_around : (Port → Port) → Port → Port
sync_status_around handler (u, r) =
    let sr = derived_status u in
    let (v, s) = handler (u, r) in
    if sr == v.cached_status_byte
    then (v, s)
    else (record v { cached_status_byte = sr }, put_byte s v.ctl_offset sr)

derived-rdrf : (u : Mc6850) → derived_status u % 2 ≡ bit u.receive_buffer_full
derived-rdrf u = ground arith

-- After rx_read_fast_path nothing is staged, and the cached byte says so.
fast_path_lem :
    (p : Port)
    → ((rx_read_fast_path p).0.receive_buffer_full ≡ false)
      × ((rx_read_fast_path p).0.cached_status_byte % 2 ≡ 0)
unfolding rx_read_fast_path sync_status
fast_path_lem (u, r) = (ground arith, ground arith)

-- Without an interruption it is sync_status. Where a byte is staged and rx_read_fast_path comes in
-- between, whatever else the port's state is, then nothing is staged any more, but the status register
-- that the guest reads has RDRF, and the cached byte has it too.
pub sync_status_preempted :
    (u : Mc6850) (r : Registers)
    → u.receive_buffer_full ≡ true
    → (sync_status_around (λ p. p) (u, r) ≡ sync_status (u, r))
      × let (v, s) = sync_status_around rx_read_fast_path (u, r) in
        (v.receive_buffer_full ≡ false)
        × (read_byte s v.ctl_offset % 2 ≡ 1)
        × (v.cached_status_byte % 2 ≡ 1)
unfolding sync_status_around sync_status
sync_status_preempted u r h =
    let sr = derived_status u in
    let odd : sr % 2 ≡ 1 = derived-rdrf u ∙ ap bit h in
    let (v, s) = rx_read_fast_path (u, r) in
    let (empty, even) = fast_path_lem (u, r) in
    (
      refl,
      if_elim
          (λ (p : Port).
            (p.0.receive_buffer_full ≡ false)
            × (read_byte p.1 p.0.ctl_offset % 2 ≡ 1)
            × (p.0.cached_status_byte % 2 ≡ 1))
          (sr == v.cached_status_byte) (λ e. absurd (ground (arith, e, odd, even)))
          (λ _. (empty, ground (arith, odd), odd)),
    )
