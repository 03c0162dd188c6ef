-- ===== src/Core1/Rearm.antt =====
-- Arming the watchpoint and disarming it again.
use mathlib.Core.Option
use pico_thing_main.Base.{
  inl, ◌<◌, ℕ, ◌<◌, ◌≡◌, ◌≢◌, refl, ap, ap₂, ◌∙◌, true, false, not, ◌&&◌, ◌==◌, if_elim, arith,
  Cells, Option, some, List, items, length-items, word_of,
}
use pico_thing_main.Registers.{Registers, read_word, put_word}
use pico_thing_main.Registers.Laws.{copy_out-copy_in}
use pico_thing_main.Core1.{
  snippet_offset, Core1, registers_of, with_registers, nmi_vector_offset, reset_vector_offset,
  register_snippet,
}
use pico_thing_main.Core1.Requests.{FloatUnit, snippet_copy}
use pico_thing_main.Core1.Loop.{watchpoint_control}
use pico_thing_main.Core1.Watchpoint.{IsWired}
use pico_thing_main.Core1.Armed.{Step, Calm, NoneDisarms, run, run-Holds}

-- A snippet always fits.
pub snippet_copy_lem :
    (code : Cells) (r : Registers)
    → (s : Registers) × (snippet_copy code r
        ≡ some (put_word s reset_vector_offset register_snippet))
      × ((j : ℕ) → j < snippet_offset → s.read_registers j ≡ r.read_registers j)
unfolding snippet_copy
snippet_copy_lem code r =
    let (s, e, _, kept, _) =
      copy_out-copy_in r 32 (items code 0 16) (ground (arith, length-items code 0 16)) in
    (
      s,
      ap (Option.map (λ (t : Registers). put_word t reset_vector_offset register_snippet)) e,
      λ j h. kept j (inl h),
    )

-- The state once the watchpoint is armed.
abbrev armed_state : Registers → Core1 → Core1
armed_state s g = with_registers (put_word s nmi_vector_offset register_snippet) (record g {
  watchpoint_saved_nmi_vector = read_word (registers_of g) nmi_vector_offset;
  watchpoint_armed = true;
})

arm_lem :
    (code : Cells) (v : ℕ) (g : Core1)
    → v ≢ 0
    → g.watchpoint_armed ≡ false
    → (s : Registers) × (watchpoint_control code v g ≡ some (armed_state s g))
unfolding watchpoint_control
arm_lem code v g h a =
    let (s, e, _) = snippet_copy_lem code (registers_of g) in
    (
      put_word s reset_vector_offset register_snippet,
      if_elim
          (λ (o : Option Core1).
            o ≡ some (armed_state (put_word s reset_vector_offset register_snippet) g))
          (not (v == 0) && not g.watchpoint_armed)
          (λ _. ap (Option.map (λ (t : Registers). armed_state t g)) e)
          (λ f. absurd (ground (arith, f, a, h))),
    )

disarm_lem :
    (code : Cells) (g : Core1)
    → g.watchpoint_armed ≡ true
    → watchpoint_control code 0 g
      ≡ some (
          with_registers
            (put_word (registers_of g) nmi_vector_offset g.watchpoint_saved_nmi_vector)
            (record g { watchpoint_armed = false }))
unfolding watchpoint_control
disarm_lem code g a =
    if_elim
      (λ (o : Option Core1).
        o
        ≡ some (
            with_registers
              (put_word (registers_of g) nmi_vector_offset g.watchpoint_saved_nmi_vector)
              (record g { watchpoint_armed = false })))
      g.watchpoint_armed (λ _. refl) (λ f. absurd (ground (arith, f, a)))

word_back : (r : Registers) (v : ℕ) → v < 65536 → read_word (put_word r 60 v) 60 ≡ v
word_back r v h = ground arith

-- The watchpoint is not armed, the NMI vector is two bytes, the devices answer at the registers that
-- the source gives them, and no entry of the ring is a zero for the watchpoint's register. Then
-- arming with a byte that is not zero never fails, and it points the NMI vector to the snippet. The
-- guest then writes whatever bytes to whatever registers, but no zero to that one, and between two
-- writes the loop of core 1 serves entries of the ring, each served whole: none of this fails, and the
-- vector stays so. A zero that the loop then finds for the watchpoint disarms it, and gives back the
-- vector that was there before.
pub watchpoint_round_trip :
    (f : FloatUnit) (code : Cells) (v : ℕ) (ss : List Step) (g : Core1)
    → v ≢ 0
    → IsWired g
    → Calm g
    → g.watchpoint_armed ≡ false
    → read_word (registers_of g) nmi_vector_offset < 65536
    → NoneDisarms ss
    → (n : Core1) × (watchpoint_control code v g ≡ some n)
      × (m : Core1) × (run f code ss n ≡ some m)
      × (read_word (registers_of m) nmi_vector_offset ≡ register_snippet)
      × (l : Core1) × (watchpoint_control code 0 m ≡ some l)
      × (l.watchpoint_armed ≡ false)
      × (read_word (registers_of l) nmi_vector_offset
          ≡ read_word (registers_of g) nmi_vector_offset)
watchpoint_round_trip f code v ss g h w c a b d =
    let (s, e) = arm_lem code v g h a in
    let n : Core1 = armed_state s g in
    let (m, e', k) =
      run-Holds f code ss n (record { fast = w.fast; aux = w.aux; tick = w.tick })
        (record { ring = c.ring; fast_data = c.fast_data; aux_data = c.aux_data }) refl d in
    let old = read_word (registers_of g) nmi_vector_offset in
    (
      n,
      e,
      m,
      e',
      ap₂ word_of (k.guarded.cells 60 (omega arith)) (k.guarded.cells 61 (omega arith)),
      with_registers (put_word (registers_of m) nmi_vector_offset m.watchpoint_saved_nmi_vector)
          (record m { watchpoint_armed = false }),
      disarm_lem code m k.guarded.armed,
      refl,
      ap (λ (x : ℕ). read_word (put_word (registers_of m) 60 x) 60) k.guarded.saved
          ∙ word_back (registers_of m) old b,
    )
