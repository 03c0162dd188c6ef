-- ===== src/Core1/Armed.antt =====
-- The guest's writes, and the loop of main_core1 that serves them, while the watchpoint is armed.
use mathlib.Core.Option
use pico_thing_main.Base.{
  ℕ, ◌<◌, ◌≡◌, ◌≢◌, refl, ap, sym, subst, ◌∙◌, true, not, ◌&&◌, ◌==◌, ==→eq, if◌then◌else◌, if_elim,
  arith, List, [], ◌∷◌, Option, some, Cells,
}
use pico_thing_main.Registers.{Registers, write_byte, written_byte}
use pico_thing_main.Mc6809.{at_least_running}
use pico_thing_main.Mc6850.{Mc6850, refresh_transmit, sync_status, sync_transmit}
use pico_thing_main.Mc6850
use pico_thing_main.WriteRing.{WriteRing, WriteEntry, push_write, take_write, has_writes}
use pico_thing_main.Core1.{
  Core1, registers_of, with_registers, on_fast, on_aux, write_effect, dma_bus_write, guest_write,
  system_watchpoint,
}
use pico_thing_main.Core1.Requests.{FloatUnit, take_request, float_request}
use pico_thing_main.Core1.Loop.{watchpoint_control, dispatch_write, drain_write}
use pico_thing_main.Core1.Watchpoint.{
  IsWired, Guarded, Below, Guarded-refl, cpu-Guarded, guest_write-Guarded,
}

-- The guest writes a register, or the loop serves an entry of the ring if there is one.
pub data Step : Type 0 where
  written : ℕ → ℕ → Step
  served : Step

abbrev pub serve : FloatUnit → Cells → Core1 → Option Core1
serve f code g = if has_writes g.ring then drain_write f code g else some g

abbrev pub run : FloatUnit → Cells → List Step → Core1 → Option Core1
run f code [] g = some g
run f code (written l v ∷ ss) g = run f code ss (guest_write l v g)
run f code (served ∷ ss) g = Option.bind (serve f code g) (run f code ss)

-- A write that disarms the watchpoint once it is served.
abbrev pub Disarms : ℕ → ℕ → Type 0
Disarms l v = (l ≡ system_watchpoint) × (v ≡ 0)

abbrev pub NoneDisarms : List Step → Type 0
NoneDisarms [] = Unit {0}
NoneDisarms (written l v ∷ ss) = ¬ (Disarms l v) × NoneDisarms ss
NoneDisarms (served ∷ ss) = NoneDisarms ss

-- Nor does an entry of the ring; and the data registers lie where the devices do.
pub record Calm (g : Core1) : Type 0 where
  pub ring : (j : ℕ) → ¬ (Disarms (g.ring.write_ring j).location (g.ring.write_ring j).value)
  pub fast_data : g.fast_serial.data_offset < 16
  pub aux_data : g.aux_serial.data_offset < 16

Guarded-trans : {g n m : Core1} → Guarded g n → Guarded n m → Guarded g m
Guarded-trans p q = record {
  wired = q.wired;
  armed = q.armed ∙ p.armed;
  saved = q.saved ∙ p.saved;
  cells = λ j h. q.cells j h ∙ p.cells j h;
}

-- A port's method, for which the registers stay the same from the snippet on.
abbrev PortKept : (Mc6850.Port → Mc6850.Port) → Type 0
PortKept f =
    (u : Mc6850) (r : Registers)
    → u.ctl_offset < 16
    → u.data_offset < 16
    → ((f (u, r)).0.ctl_offset ≡ u.ctl_offset)
      × ((f (u, r)).0.data_offset ≡ u.data_offset)
      × Below r (f (u, r)).1

guest_control-PortKept : (v : ℕ) → PortKept (Mc6850.guest_control v)
unfolding Mc6850.guest_control Mc6850.reset sync_transmit sync_status refresh_transmit
guest_control-PortKept v u r h l = (ground arith, ground arith, λ j k. ground arith)

guest_transmit-PortKept : (v : ℕ) → PortKept (Mc6850.guest_transmit v)
unfolding Mc6850.guest_transmit Mc6850.transmit_byte sync_transmit sync_status refresh_transmit
guest_transmit-PortKept v u r h l = (ground arith, ground arith, λ j k. ground arith)

take_request-Below : (f : FloatUnit) (v : ℕ) (r : Registers) → Below r (take_request f v r)
unfolding take_request float_request
take_request-Below f v r j k = ground arith

-- What serving an entry leaves.
record Served (g : Core1) (o : Option Core1) : Type 0 where
  core1 : Core1
  returns : o ≡ some core1
  guarded : Guarded g core1
  fast_data : core1.fast_serial.data_offset ≡ g.fast_serial.data_offset
  aux_data : core1.aux_serial.data_offset ≡ g.aux_serial.data_offset
  ring : core1.ring ≡ g.ring

on_fast-Served :
    (f : Mc6850.Port → Mc6850.Port) (g : Core1)
    → PortKept f
    → IsWired g
    → g.fast_serial.data_offset < 16
    → Served g (some (on_fast f g))
on_fast-Served f g p w l =
    let (c, d, b) = p g.fast_serial (registers_of g) (omega (arith, w.fast)) l in
    record {
      core1 = on_fast f g;
      returns = refl;
      guarded = record {
        wired = record { fast = c ∙ w.fast; aux = w.aux; tick = w.tick };
        armed = refl;
        saved = refl;
        cells = b;
      };
      fast_data = d;
      aux_data = refl;
      ring = refl;
    }

on_aux-Served :
    (f : Mc6850.Port → Mc6850.Port) (g : Core1)
    → PortKept f
    → IsWired g
    → g.aux_serial.data_offset < 16
    → Served g (some (on_aux f g))
on_aux-Served f g p w l =
    let (c, d, b) = p g.aux_serial (registers_of g) (omega (arith, w.aux)) l in
    record {
      core1 = on_aux f g;
      returns = refl;
      guarded = record {
        wired = record { fast = w.fast; aux = c ∙ w.aux; tick = w.tick };
        armed = refl;
        saved = refl;
        cells = b;
      };
      fast_data = refl;
      aux_data = d;
      ring = refl;
    }

still-Served : (g : Core1) → IsWired g → Served g (some g)
still-Served g w = record {
  core1 = g;
  returns = refl;
  guarded = Guarded-refl g w;
  fast_data = refl;
  aux_data = refl;
  ring = refl;
}

watchpoint-Served :
    (code : Cells) (v : ℕ) (g : Core1)
    → IsWired g
    → g.watchpoint_armed ≡ true
    → v ≢ 0
    → Served g (watchpoint_control code v g)
unfolding watchpoint_control
watchpoint-Served code v g w a d =
    if_elim (Served g) (not (v == 0) && not g.watchpoint_armed) (λ e. absurd (ground (arith, e, a)))
      λ _.
        if_elim (Served g) (v == 0 && g.watchpoint_armed) (λ e. absurd (d (ground (arith, e))))
          (λ _. still-Served g w)

dispatch_write-Served :
    (f : FloatUnit) (code : Cells) (e : WriteEntry) (g : Core1)
    → IsWired g
    → g.fast_serial.data_offset < 16
    → g.aux_serial.data_offset < 16
    → g.watchpoint_armed ≡ true
    → ¬ (Disarms e.location e.value)
    → Served g (dispatch_write f code e g)
unfolding dispatch_write
dispatch_write-Served f code e g w l m a d =
    if_elim (Served g) (e.location == 2)
      (λ _. record {
        core1 = with_registers (take_request f e.value (registers_of g)) g;
        returns = refl;
        guarded = cpu-Guarded _ g w (take_request-Below f e.value (registers_of g));
        fast_data = refl;
        aux_data = refl;
        ring = refl;
      })
      λ _.
        if_elim (Served g) (e.location == 10)
          (λ q. watchpoint-Served code e.value g w a (λ z. d (==→eq _ _ q, z)))
          λ _.
            if_elim (Served g) (e.location == 4)
              (λ _.
                on_fast-Served (Mc6850.guest_control e.value) g (guest_control-PortKept e.value) w
                  l)
              λ _.
                if_elim (Served g) (e.location == 5)
                  (λ _.
                    on_fast-Served (Mc6850.guest_transmit e.value) g
                      (guest_transmit-PortKept e.value) w l)
                  λ _.
                    if_elim (Served g) (e.location == 6)
                      (λ _.
                        on_aux-Served (Mc6850.guest_control e.value) g
                          (guest_control-PortKept e.value) w m)
                      λ _.
                        if_elim (Served g) (e.location == 7)
                          (λ _.
                            on_aux-Served (Mc6850.guest_transmit e.value) g
                              (guest_transmit-PortKept e.value) w m)
                          (λ _. still-Served g w)

-- What holds while the watchpoint stays armed.
pub record Holds (g n : Core1) : Type 0 where
  pub guarded : Guarded g n
  pub calm : Calm n

Holds-trans : {g n m : Core1} → Guarded g n → Holds n m → Holds g m
Holds-trans p h = record { guarded = Guarded-trans p h.guarded; calm = h.calm }

serve-Holds :
    (f : FloatUnit) (code : Cells) (g : Core1)
    → IsWired g
    → Calm g
    → g.watchpoint_armed ≡ true
    → (n : Core1) × (serve f code g ≡ some n) × Holds g n
unfolding drain_write take_write
serve-Holds f code g w c a =
    let t = g.ring.write_ring_tail in
    let (e, ring) = take_write [] [] [] g.ring in
    let g₁ = record g { ring = ring } in
    let x =
      dispatch_write-Served f code e g₁ (record { fast = w.fast; aux = w.aux; tick = w.tick })
        c.fast_data c.aux_data a (c.ring t) in
    if_elim (λ (o : Option Core1). (n : Core1) × (o ≡ some n) × Holds g n) (has_writes g.ring)
      (λ _. (
        x.core1,
        x.returns,
        record {
          guarded = record {
            wired = x.guarded.wired;
            armed = x.guarded.armed;
            saved = x.guarded.saved;
            cells = x.guarded.cells;
          };
          calm = record {
            ring = λ j.
                subst
                  (λ (r : WriteRing). ¬ (Disarms (r.write_ring j).location (r.write_ring j).value))
                  (sym x.ring) (c.ring j);
            fast_data = omega (arith, x.fast_data, c.fast_data);
            aux_data = omega (arith, x.aux_data, c.aux_data);
          };
        },
      ))
      (λ _. (g, refl, record { guarded = Guarded-refl g w; calm = c }))

-- The data registers stay where they are.
SameData : Core1 → Core1 → Type 0
SameData g n =
    (n.fast_serial.data_offset ≡ g.fast_serial.data_offset)
    × (n.aux_serial.data_offset ≡ g.aux_serial.data_offset)
    × (n.ring ≡ g.ring)

write_effect-SameData : (l v : ℕ) (g : Core1) → SameData g (write_effect l v g)
unfolding write_effect SameData Mc6850.write_received sync_status Mc6850.control_written_isr
write_effect-SameData l v g = (ground arith, ground arith, ground arith)

guest_write-Calm : (l v : ℕ) (g : Core1) → ¬ (Disarms l v) → Calm g → Calm (guest_write l v g)
unfolding guest_write dma_bus_write push_write SameData
guest_write-Calm l v g d c =
    let h = with_registers (write_byte (registers_of g) l v) g in
    let x = written_byte (registers_of h) l in
    let same : x ≡ v = ground arith in
    let n = write_effect l x h in
    let (p, q, s) = write_effect-SameData l x h in
    if_elim Calm (at_least_running g.mc6809.run_state)
      (λ _. record {
        ring = λ j.
            if_elim (λ (e : WriteEntry). ¬ (Disarms e.location e.value))
              (n.ring.write_ring_head == j) (λ _ y. d (y.0, omega (arith, y.1, same)))
              (λ _.
                subst
                  (λ (r : WriteRing). ¬ (Disarms (r.write_ring j).location (r.write_ring j).value))
                  (sym s) (c.ring j));
        fast_data = omega (arith, p, c.fast_data);
        aux_data = omega (arith, q, c.aux_data);
      })
      (λ _. record { ring = c.ring; fast_data = c.fast_data; aux_data = c.aux_data })

-- The watchpoint is armed, the devices answer at the registers that the source gives them, and no
-- entry of the ring is a zero for the watchpoint's register. The guest writes whatever bytes to
-- whatever registers, but no zero to that one, and between two writes the loop of core 1 serves
-- entries of the ring, each served whole. Then every entry is served without a fault, and no byte of
-- the snippet or of the vectors that the guest reads has changed, the watchpoint is still armed, the
-- saved vector and the places of the devices are as before, and no entry of the ring is such a zero.
pub run-Holds :
    (f : FloatUnit) (code : Cells) (ss : List Step) (g : Core1)
    → IsWired g
    → Calm g
    → g.watchpoint_armed ≡ true
    → NoneDisarms ss
    → (n : Core1) × (run f code ss g ≡ some n) × Holds g n
unfolding Option.bind
run-Holds f code [] g w c a d = (g, refl, record { guarded = Guarded-refl g w; calm = c })
run-Holds f code (written l v ∷ ss) g w c a (d, ds) =
    let k = guest_write-Guarded l v g w a in
    let (n, e, h) =
      run-Holds f code ss (guest_write l v g) k.wired (guest_write-Calm l v g d c) (k.armed ∙ a)
        ds in
    (n, e, Holds-trans k h)
run-Holds f code (served ∷ ss) g w c a d =
    let (m, e, k) = serve-Holds f code g w c a in
    let (n, e', h) = run-Holds f code ss m k.guarded.wired k.calm (k.guarded.armed ∙ a) d in
    (n, ap (λ (o : Option Core1). Option.bind o (run f code ss)) e ∙ e', Holds-trans k.guarded h)
