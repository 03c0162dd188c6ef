-- ===== src/Console/Poll/Alarm.antt =====
-- The watchdog of core 1 against a count of the samples in a row that found core 1 standing still.
use pico_thing_main.Base.{
  ℕ, suc, ◌+◌, ◌≡◌, refl, ap, ap₂, ◌∙◌, Bool, true, false, not, ◌&&◌, List, [], ◌∷◌, leb, ◌==◌,
  arith, if_elim, if◌then◌else◌, u32,
}
use pico_thing_main.Console.Poll.{Counters, Watchdog, Report, sample}

-- A sample: the counters, and whether core 1 has been initialised.
abbrev pub Sample : Type 0
Sample = Counters × Bool

-- The samples in sequence: what is printed, and the watchdog behind them.
unfoldable pub watch : List Sample → Watchdog → List Report × Watchdog
watch [] w = ([], w)
watch ((cur, initialised) ∷ samples) w =
    let (r, w₁) = sample cur initialised w in let (rs, w₂) = watch samples w₁ in (r ∷ rs, w₂)

-- Core 1 has not moved since the last sample.
abbrev pub standing : Sample → Counters → Bool
standing (cur, initialised) last = cur.loop_count == last.loop_count && initialised

-- The samples in a row that found it so, up to and with this one.
abbrev pub still : Sample → Counters → ℕ → ℕ
still s last t = if standing s last then suc t else 0

-- The report after a sample, with `t` such samples in a row before it: the tenth gives the alarm,
-- and the first that finds core 1 moving ends it.
abbrev pub expected : Sample → Counters → ℕ → Report
expected (cur, initialised) last t =
    if standing (cur, initialised) last
    then (if suc t == 10
        then Report.stall (not (cur.isr_count == last.isr_count))
        else Report.quiet)
    else if leb 10 t
    then Report.resumed
    else Report.quiet

abbrev pub expected_all : List Sample → Counters → ℕ → List Report
expected_all [] last t = []
expected_all (s ∷ ss) last t = expected s last t ∷ expected_all ss s.0 (still s last t)

abbrev pub still_all : List Sample → Counters → ℕ → ℕ
still_all [] last t = t
still_all (s ∷ ss) last t = still_all ss s.0 (still s last t)

-- What a sample should give, where `b` says that it found core 1 standing still.
record Right (b alive : Bool) (cur : Counters) (t : ℕ) (r : Report × Watchdog) : Type 0 where
  reported : r.0 ≡ (
      if b
      then (if suc t == 10 then Report.stall alive else Report.quiet)
      else if leb 10 t
      then Report.resumed
      else Report.quiet)
  counted : r.1.miss_count ≡ u32 (if b then suc t else 0)
  alarmed : r.1.stalled ≡ leb 10 (if b then suc t else 0)
  sampled : r.1.last ≡ cur

-- The three cases of a sample that found core 1 standing still, and the other.
alarm :
    (alive : Bool) (t : ℕ) (w : Watchdog)
    → w.miss_count ≡ u32 t
    → w.stalled ≡ leb 10 t
    → not w.stalled && leb 10 (u32 (w.miss_count + 1)) ≡ true
    → (Report.stall alive ≡ (if suc t == 10 then Report.stall alive else Report.quiet))
      × (u32 (w.miss_count + 1) ≡ u32 (suc t))
      × (true ≡ leb 10 (suc t))
alarm alive t w c a e = (ground (arith, e, c, a), ground (arith, c), ground (arith, e, c, a))

no_alarm :
    (alive : Bool) (t : ℕ) (w : Watchdog)
    → w.miss_count ≡ u32 t
    → w.stalled ≡ leb 10 t
    → not w.stalled && leb 10 (u32 (w.miss_count + 1)) ≡ false
    → (Report.quiet ≡ (if suc t == 10 then Report.stall alive else Report.quiet))
      × (u32 (w.miss_count + 1) ≡ u32 (suc t))
      × (w.stalled ≡ leb 10 (suc t))
no_alarm alive t w c a e = (ground (arith, e, c, a), ground (arith, c), ground (arith, e, c, a))

-- `sample`, by what it found.
abbrev sampled_as : Bool → Bool → Counters → Watchdog → Report × Watchdog
sampled_as b alive cur w =
    if b
    then (let misses = u32 (w.miss_count + 1) in
        if not w.stalled && leb 10 misses
        then (Report.stall alive, record { last = cur; miss_count = misses; stalled = true })
        else (Report.quiet, record w { last = cur; miss_count = misses }))
    else (
      if w.stalled then Report.resumed else Report.quiet,
      record { last = cur; miss_count = 0; stalled = false },
    )

sampled_as-Right :
    (b alive : Bool) (cur : Counters) (t : ℕ) (w : Watchdog)
    → w.miss_count ≡ u32 t
    → w.stalled ≡ leb 10 t
    → Right b alive cur t (sampled_as b alive cur w)
sampled_as-Right true alive cur t w c a =
    if_elim (Right true alive cur t) (not w.stalled && leb 10 (u32 (w.miss_count + 1)))
      (λ e.
        let (r, n, l) = alarm alive t w c a e in
        record { reported = r; counted = n; alarmed = l; sampled = refl })
      λ e.
        let (r, n, l) = no_alarm alive t w c a e in
        record { reported = r; counted = n; alarmed = l; sampled = refl }
sampled_as-Right false alive cur t w c a = record {
  reported = ap (λ (q : Bool). if q then Report.resumed else Report.quiet) a;
  counted = refl;
  alarmed = refl;
  sampled = refl;
}

-- From a watchdog that has found core 1 standing still in the last `t` samples, and has given the
-- alarm exactly if these are ten or more: whatever the samples, what the watchdog prints is what
-- follows from counting, without a limit, the samples in a row that find core 1 standing still. It
-- prints the alarm at the tenth of them and not again before it has printed, at the next sample that
-- finds core 1 moving, that core 1 has resumed.
pub watch-expected :
    (samples : List Sample) (t : ℕ) (w : Watchdog)
    → w.miss_count ≡ u32 t
    → w.stalled ≡ leb 10 t
    → ((watch samples w).0 ≡ expected_all samples w.last t)
      × ((watch samples w).1.stalled ≡ leb 10 (still_all samples w.last t))
unfolding watch sample
watch-expected [] t w c a = (refl, a)
watch-expected ((cur, initialised) ∷ samples) t w c a =
    let s : Sample = (cur, initialised) in
    let k =
      sampled_as-Right (standing s w.last) (not (cur.isr_count == w.last.isr_count)) cur t w c a in
    let w₁ = (sample cur initialised w).1 in
    let n = still s w.last t in
    let (e, f) = watch-expected samples n w₁ k.counted k.alarmed in
    (
      ap₂ ◌∷◌ k.reported (e ∙ ap (λ l. expected_all samples l n) k.sampled),
      f ∙ ap (λ l. leb 10 (still_all samples l n)) k.sampled,
    )
