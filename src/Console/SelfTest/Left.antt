-- ===== src/Console/SelfTest/Left.antt =====
-- The state that the self-tests leave: the 6809 in reset, and no interrupt asked for.
use mathlib.Core.Option
use pico_thing_main.Base.{
  Cells, ℕ, ◌+◌, ◌<◌, ◌≡◌, refl, ap, ◌∙◌, Bool, not, List, Option, none, some, ◌==◌, if◌then◌else◌,
  if_elim, length,
}
use pico_thing_main.Interrupt.{Interrupt}
use pico_thing_main.Registers.{Registers, put_word}
use pico_thing_main.Core1.{register_snippet, nmi_vector_offset}
use pico_thing_main.Console.{
  Board, Env, is_held, on_registers, run_snippet, run_copy, copy_out, load_snippet, guest_of,
  board_of,
}
use pico_thing_main.Core1.Rearm.{snippet_copy_lem}
use pico_thing_main.Copy.{Guest}
use pico_thing_main.Copy.Kept.{copy_outwards-Ends}
use pico_thing_main.Console.Run.{chunk_address, set_reset_vector}
use pico_thing_main.Console.Break.{clear_buffer}
use pico_thing_main.Console.SelfTest.{
  TestCode, strobe, software_test, hardware_run, swi_vector_offset, irq_vector_offset,
  firq_vector_offset, swi_stack, nmi_stack, irq_stack, firq_stack, rti_stack, chunk_run, judge,
  swi_test, rti_test, hardware_test, chunk_test, numbered_test, prepared_test, irq_command,
  clear_vectors,
}
use pico_thing_main.Console.SelfTest.Steps.{
  IsIdle, IsLeft, Same, Keeps, run_snippet-IsLeft, strobe-IsLeft, software_test-IsLeft,
  hardware_run-IsLeft, chunk_run-IsLeft,
}

-- A snippet is always loaded, and only the registers change.
load_snippet_lem :
    (code : Cells) (b : Board) → (c : Board) × (load_snippet code b ≡ some c) × Same b c
unfolding load_snippet
load_snippet_lem code b =
    let x = snippet_copy_lem code b.core1.mc6809.regs in
    (_, ap (Option.map (λ (r : Registers). on_registers (λ _. r) b)) x.1, (refl, refl))

-- A result that leaves the 6809 in reset.
abbrev pub EndsLeft {ℓ} : {A : Type ℓ} → Option (A × Board) → Type ℓ
EndsLeft {A} o = (x : A × Board) × (o ≡ some x) × IsLeft x.1

module _ (env : Env) (t : TestCode) (keeps : Keeps env t) where
  run_copy-IsLeft : (r : Registers) (b : Board) → IsLeft b → IsLeft (run_copy env (r, b)).1.1
  unfolding run_copy
  run_copy-IsLeft r b h =
      run_snippet-IsLeft env t keeps 4 (board_of (r, b))
        (record { idle = h.idle; in_reset = h.in_reset })

  chunk_test-EndsLeft :
      (b : Board)
      → IsLeft b
      → chunk_address + length t.irq_test < 65536
      → EndsLeft (chunk_test env t b)
  unfolding chunk_test copy_out
  chunk_test-EndsLeft b h l =
      let x =
        copy_outwards-Ends IsLeft (run_copy env) run_copy-IsLeft env.copy_out_code chunk_address
          t.irq_test (guest_of b).0 (guest_of b).1 h l in
      let c = board_of x.0.1 in
      let i : IsLeft c = record { idle = x.2.idle; in_reset = x.2.in_reset } in
      let after : Bool × Board → Option Bool × Board = λ y.
        if not y.0 then (none, y.1) else chunk_run env t (set_reset_vector chunk_address y.1) in
      (
        after (x.0.0, c),
        ap
            (λ (o : Option (Bool × Guest Board)).
              Option.map after (Option.map (λ (y : Bool × Guest Board). (y.0, board_of y.1)) o))
            x.1,
        if_elim (λ (y : Option Bool × Board). IsLeft y.1) (not x.0.0) (λ _. i)
            (λ _. chunk_run-IsLeft env t keeps (set_reset_vector chunk_address c) i.idle),
      )

  judge-EndsLeft :
      (stack : List ℕ) (o : Option (ℕ × Board)) → EndsLeft o → EndsLeft (Option.map (judge stack) o)
  unfolding judge
  judge-EndsLeft stack o (x, e, h) = (judge stack x, ap (Option.map (judge stack)) e, h)

  hardware_test-EndsLeft :
      (code : Cells) (vector : ℕ) (eirq : Interrupt) (b : Board)
      → EndsLeft (hardware_test env t code vector eirq b)
  unfolding hardware_test
  hardware_test-EndsLeft code vector eirq b =
      let (c, e, _) = load_snippet_lem code b in
      let test : Board → ℕ × Board = λ d.
        hardware_run env t eirq (on_registers (λ r. put_word r vector (register_snippet + 15)) d) in
      (test c, ap (Option.map test) e, hardware_run-IsLeft env t keeps eirq _)

  swi_test-EndsLeft : (b : Board) → IsIdle b → EndsLeft (swi_test env t b)
  unfolding swi_test
  swi_test-EndsLeft b h =
      let (c, e, s) = load_snippet_lem t.test_swi b in
      let test : Board → ℕ × Board = λ d.
        software_test env
          (on_registers (λ r. put_word r swi_vector_offset (register_snippet + 14)) d) in
      (test c, ap (Option.map test) e, software_test-IsLeft env t keeps _ (s.0 ∙ h))

  rti_test-EndsLeft : (b : Board) → IsIdle b → EndsLeft (rti_test env t b)
  unfolding rti_test
  rti_test-EndsLeft b h =
      let (c, e, s) = load_snippet_lem t.test_rti _ in
      (
        software_test env c,
        ap (Option.map (software_test env)) e,
        software_test-IsLeft env t keeps c (s.0 ∙ h),
      )

  numbered_test-EndsLeft :
      (keys testnum : ℕ) (b : Board)
      → IsLeft b
      → chunk_address + length t.irq_test < 65536
      → EndsLeft (numbered_test env t keys testnum b)
  unfolding numbered_test
  numbered_test-EndsLeft keys testnum b h l =
      let p = λ (o : Option (Option Bool × Board)). EndsLeft o in
      if_elim p (testnum == 0)
        (λ _. ((none, strobe t keys b), refl, strobe-IsLeft env t keeps keys b h))
        λ _.
          if_elim p (testnum == 1)
            (λ _. judge-EndsLeft swi_stack (swi_test env t b) (swi_test-EndsLeft b h.idle))
            λ _.
              if_elim p (testnum == 2)
                (λ _.
                  judge-EndsLeft nmi_stack
                    (hardware_test env t t.test_nmi nmi_vector_offset Interrupt.nmi b)
                    (hardware_test-EndsLeft t.test_nmi nmi_vector_offset Interrupt.nmi b))
                λ _.
                  if_elim p (testnum == 3)
                    (λ _.
                      judge-EndsLeft irq_stack
                        (hardware_test env t t.test_irq irq_vector_offset Interrupt.irq b)
                        (hardware_test-EndsLeft t.test_irq irq_vector_offset Interrupt.irq b))
                    λ _.
                      if_elim p (testnum == 4)
                        (λ _.
                          judge-EndsLeft firq_stack
                            (hardware_test env t t.test_firq firq_vector_offset Interrupt.firq b)
                            (hardware_test-EndsLeft t.test_firq firq_vector_offset Interrupt.firq
                              b))
                        λ _.
                          if_elim p (testnum == 5)
                            (λ _.
                              judge-EndsLeft rti_stack (rti_test env t b)
                                (rti_test-EndsLeft b h.idle))
                            λ _. chunk_test-EndsLeft b h l

  prepared_test-EndsLeft :
      (keys testnum : ℕ) (b : Board)
      → IsLeft b
      → chunk_address + length t.irq_test < 65536
      → EndsLeft (prepared_test env t keys testnum b)
  unfolding prepared_test Option.bind
  prepared_test-EndsLeft keys testnum b h l =
      let cleared = on_registers (λ r. clear_vectors 8 (clear_buffer 16 r)) b in
      let (c, e, s) = load_snippet_lem t.zero_code cleared in
      let after : Board → Option (Option Bool × Board) = λ b₁.
        let y = run_snippet env 10000 b₁ in
        if not y.0 then some (none, y.1) else numbered_test env t keys testnum y.1 in
      let i =
        run_snippet-IsLeft env t keeps 10000 c
          (record { idle = s.0 ∙ h.idle; in_reset = s.1 ∙ h.in_reset }) in
      let x : EndsLeft (after c) =
        if_elim (λ (o : Option (Option Bool × Board)). EndsLeft o) (not (run_snippet env 10000 c).0)
          (λ _. ((none, (run_snippet env 10000 c).1), refl, i))
          (λ _. numbered_test-EndsLeft keys testnum _ i l) in
      (x.0, ap (λ (o : Option Board). Option.bind o after) e ∙ x.1, x.2)

  -- The interrupt handlers and the guest change neither RESET nor core 0's wish for an interrupt, and
  -- the chunk for the tests fits below the top of memory. Then IRQ, from a state in which no interrupt
  -- is asked for and the 6809 is in reset, whatever the number of the test, whatever the guest does,
  -- and after however many rounds a key ends the strobe test, comes to an end without a fault, and
  -- leaves no interrupt asked for and the 6809 in reset, whether the test passes, fails or times out.
  pub irq_command-EndsLeft :
      (keys testnum : ℕ) (b : Board)
      → IsLeft b
      → chunk_address + length t.irq_test < 65536
      → (x : Option Bool × Board) × (irq_command env t keys testnum b ≡ some x) × IsLeft x.1
  unfolding irq_command
  irq_command-EndsLeft keys testnum b h l =
      let p = λ (o : Option (Option Bool × Board)). EndsLeft o in
      if_elim p (not (is_held b)) (λ _. ((none, b), refl, h))
        λ _.
          if_elim p (testnum == 6) (λ _. chunk_test-EndsLeft b h l)
            λ _. prepared_test-EndsLeft keys testnum b h l
