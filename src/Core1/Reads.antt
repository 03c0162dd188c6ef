-- ===== src/Core1/Reads.antt =====
-- Reads of the console's data register: each is followed by one `guest_receive`.
use pico_thing_main.Base.{
  ℕ, zero, suc, ◌+◌, ◌-◌, ◌%◌, ◌≤◌, ◌<◌, ◌≡◌, refl, ap, ◌∙◌, true, ◌==◌, if_elim, ==→eq, arith, u8,
  ◌&&◌,
}
use pico_thing_main.Mc6809.{at_least_running}
use pico_thing_main.Mc6850
use pico_thing_main.Core1.{Core1, on_fast, console_data, dma_bus_read}
use pico_thing_main.Core1.Loop.{drain_fast_reads}

-- The guest reads the data register `n` times, and core 1's loop does not run meanwhile.
abbrev pub data_reads : ℕ → Core1 → Core1
data_reads zero g = g
data_reads (suc n) g = data_reads n (dma_bus_read console_data g)

-- `guest_receive`, `n` times.
abbrev pub receives : ℕ → Core1 → Core1
receives zero g = g
receives (suc n) g = receives n (on_fast Mc6850.guest_receive g)

-- The reads that the loop has not served.
abbrev pub unserved : Core1 → ℕ
unserved g = (g.rx_read_count + 256 - g.rx_processed_count) % 256

pub record CountsInRange (g : Core1) : Type 0 where
  pub read_in : g.rx_read_count < 256
  pub processed_in : g.rx_processed_count < 256

-- One round.
served : Core1 → Core1
served g =
    let g₁ = on_fast Mc6850.guest_receive g in
    record g₁ { rx_processed_count = u8 (g₁.rx_processed_count + 1) }

served_counts :
    (n : ℕ) (g : Core1)
    → CountsInRange g
    → unserved g ≡ suc n
    → (unserved (served g) ≡ n) × CountsInRange (served g)
unfolding served
served_counts n g v h = (ground arith, ground arith)

set_processed : ℕ → Core1 → Core1
set_processed c g = record g { rx_processed_count = c }

receives-set :
    (n c : ℕ) (g : Core1) → receives n (set_processed c g) ≡ set_processed c (receives n g)
unfolding set_processed
receives-set zero c g = refl
receives-set (suc n) c g = receives-set n c (on_fast Mc6850.guest_receive g)

already_served :
    (g : Core1) → g.rx_processed_count ≡ g.rx_read_count → g ≡ set_processed g.rx_read_count g
unfolding set_processed
already_served g e = ap (λ (c : ℕ). set_processed c g) e

drain_none :
    (fuel : ℕ) (g : Core1)
    → g.rx_processed_count ≡ g.rx_read_count
    → drain_fast_reads fuel g ≡ set_processed g.rx_read_count g
unfolding drain_fast_reads
drain_none zero g e = already_served g e
drain_none (suc fuel) g e =
    if_elim (λ (n : Core1). n ≡ set_processed g.rx_read_count g)
      (g.rx_processed_count == g.rx_read_count) (λ _. already_served g e)
      (λ f. absurd (ground (arith, e, f)))

drain_one :
    (fuel : ℕ) (g : Core1)
    → ¬ (g.rx_processed_count ≡ g.rx_read_count)
    → drain_fast_reads (suc fuel) g ≡ drain_fast_reads fuel (served g)
unfolding drain_fast_reads served
drain_one fuel g h =
    if_elim (λ (n : Core1). n ≡ drain_fast_reads fuel (served g))
      (g.rx_processed_count == g.rx_read_count) (λ e. absurd (h (==→eq _ _ e))) (λ _. refl)

-- The loop ends, given as many rounds as there are reads to serve, and it calls `guest_receive`
-- as often.
pub drain_fast_reads_lem :
    (n fuel : ℕ) (g : Core1)
    → CountsInRange g
    → unserved g ≡ n
    → n ≤ fuel
    → drain_fast_reads fuel g ≡ record (receives n g) { rx_processed_count = g.rx_read_count }
unfolding set_processed served
drain_fast_reads_lem zero fuel g v h l =
    drain_none fuel g (ground (arith, v.read_in, v.processed_in, h))
drain_fast_reads_lem (suc n) zero g v h l = absurd (omega arith)
drain_fast_reads_lem (suc n) (suc fuel) g v h l =
    let (e, w) = served_counts n g v h in
    drain_one fuel g (ground arith)
    ∙ drain_fast_reads_lem n fuel (served g) w e (omega arith)
    ∙ ap (set_processed g.rx_read_count)
        (receives-set n (u8 (g.rx_processed_count + 1)) (on_fast Mc6850.guest_receive g))

-- What the handler does to the counters, for one read.
record Counted (g n : Core1) : Type 0 where
  count : n.rx_read_count ≡ u8 (g.rx_read_count + 1)
  processed : n.rx_processed_count ≡ g.rx_processed_count
  runs : n.mc6809.run_state ≡ g.mc6809.run_state
  valid : n.mc6809.vma ≡ g.mc6809.vma

one_read :
    (g : Core1)
    → at_least_running g.mc6809.run_state ≡ true
    → g.mc6809.vma ≡ true
    → Counted g (dma_bus_read console_data g)
unfolding dma_bus_read
one_read g r a =
    if_elim (Counted g) (at_least_running g.mc6809.run_state && g.mc6809.vma)
      (λ _. record { count = refl; processed = refl; runs = refl; valid = refl })
      (λ e. absurd (ground (arith, e, r, a)))

read_counts :
    (n : ℕ) (g : Core1)
    → at_least_running g.mc6809.run_state ≡ true
    → g.mc6809.vma ≡ true
    → g.rx_read_count < 256
    → ((data_reads n g).rx_read_count ≡ (g.rx_read_count + n) % 256)
      × ((data_reads n g).rx_processed_count ≡ g.rx_processed_count)
read_counts zero g r a v = (omega arith, refl)
read_counts (suc n) g r a v =
    let c = one_read g r a in
    let (e, f) =
      read_counts n (dma_bus_read console_data g) (ap at_least_running c.runs ∙ r) (c.valid ∙ a)
        (omega (arith, c.count)) in
    (omega (arith, e, c.count), f ∙ c.processed)

-- The guest of a running 6809 reads the console's data register any number of times below 256, from
-- a state in which all earlier reads were served, and core 1 then drains the counter: it calls
-- `guest_receive` exactly once for each of the reads, and 255 rounds are enough.
pub each_read_served :
    (n : ℕ) (g : Core1)
    → at_least_running g.mc6809.run_state ≡ true
    → g.mc6809.vma ≡ true
    → g.rx_read_count < 256
    → g.rx_processed_count ≡ g.rx_read_count
    → n < 256
    → let read = data_reads n g in
      drain_fast_reads 255 read
      ≡ record (receives n read) { rx_processed_count = read.rx_read_count }
each_read_served n g r a v e l =
    let (c, p) = read_counts n g r a v in
    drain_fast_reads_lem n 255 (data_reads n g)
      (record { read_in = omega (arith, c); processed_in = omega (arith, p, e) })
      (omega (arith, c, p, e)) (omega arith)
