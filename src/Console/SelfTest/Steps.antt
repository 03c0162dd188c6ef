-- ===== src/Console/SelfTest/Steps.antt =====
-- What the steps of the self-tests leave: the 6809 in reset, and no interrupt asked for.
use pico_thing_main.Base.{
  ℕ, zero, suc, ◌+◌, ◌*◌, ◌≡◌, refl, ◌∙◌, Bool, true, not, Option, ◌==◌, if_elim, elim_elim,
}
use pico_thing_main.Interrupt.{Interrupt}
use pico_thing_main.Power
use pico_thing_main.Power.{is_synced}
use pico_thing_main.Console.{
  Board, Env, is_held, on_supervisor, start, setup_devices, call_setup, await_sync,
  start_with_timeout, run_snippet,
}
use pico_thing_main.Console.Break.{console_set_interrupt}
use pico_thing_main.Console.SelfTest.{
  TestCode, await, stop_6809, pulse, strobe, software_test, hardware_run, synced, max_polls, shared,
  put_shared, watchpoint_test, chunk_run, chunk_checks,
}

-- No interrupt is asked for.
abbrev pub IsIdle : Board → Type 0
IsIdle b = b.core1.console_interrupt ≡ Interrupt.none

-- The 6809 is in reset too.
pub record IsLeft (b : Board) : Type 0 where
  pub idle : IsIdle b
  pub in_reset : b.lines.reset_line ≡ true

-- The interrupt handlers and the guest change neither RESET nor core 0's wish for an interrupt.
abbrev pub Same : Board → Board → Type 0
Same b c =
    (c.core1.console_interrupt ≡ b.core1.console_interrupt)
    × (c.lines.reset_line ≡ b.lines.reset_line)

pub record Keeps (env : Env) (t : TestCode) : Type 0 where
  pub keeps_observe : (i : ℕ) (b : Board) → Same b (env.observe i b)
  pub keeps_settle : (b : Board) → Same b (env.settle b)
  pub keeps_elapse : (n : ℕ) (b : Board) → Same b (t.elapse n b)

await-Same :
    (test : Board → Bool) (n : ℕ) (observe : ℕ → Board → Board) (i : ℕ) (b : Board)
    → ((j : ℕ) (c : Board) → Same c (observe j c))
    → Same b (await test n observe i b).1
unfolding await
await-Same test zero observe i b h = (refl, refl)
await-Same test (suc n) observe i b h =
    elim_elim (λ (x : ℕ × Board). Same b x.1) (test b) (λ _. (refl, refl))
      λ _.
        let x = h i b in
        let y = await-Same test n observe (i + 1) (observe i b) h in (y.0 ∙ x.0, y.1 ∙ x.1)

call_setup-Same : (b : Board) → Same b (call_setup b)
unfolding call_setup setup_devices
call_setup-Same b = if_elim (Same b) b.setup_callback (λ _. (refl, refl)) (λ _. (refl, refl))

start_idle : (b : Board) → (start b).core1.console_interrupt ≡ b.core1.console_interrupt
unfolding start
start_idle b =
    if_elim (λ (c : Board). c.core1.console_interrupt ≡ b.core1.console_interrupt) (not (is_held b))
      (λ _. refl) (λ _. (call_setup-Same b).0)

module _ (env : Env) (t : TestCode) (keeps : Keeps env t) where
  pub stop-IsLeft : (b : Board) → IsIdle b → IsLeft (stop_6809 env b)
  unfolding stop_6809 Power.stop
  stop-IsLeft b h =
      let x = keeps.keeps_settle (on_supervisor Power.stop b) in
      record { idle = x.0 ∙ h; in_reset = x.1 }

  pub pulse-IsIdle :
      (width gap : ℕ) (eirq : Interrupt) (b : Board) → IsIdle (pulse t width gap eirq b)
  unfolding pulse console_set_interrupt
  pulse-IsIdle width gap eirq b =
      let c = t.elapse width (console_set_interrupt eirq b) in
      (keeps.keeps_elapse gap (console_set_interrupt Interrupt.none c)).0

  pulse-IsLeft :
      (width gap : ℕ) (eirq : Interrupt) (b : Board) → IsLeft b → IsLeft (pulse t width gap eirq b)
  unfolding pulse console_set_interrupt
  pulse-IsLeft width gap eirq b h =
      let c = t.elapse width (console_set_interrupt eirq b) in
      record {
        idle = pulse-IsIdle width gap eirq b;
        in_reset =
            (keeps.keeps_elapse gap (console_set_interrupt Interrupt.none c)).1
            ∙ (keeps.keeps_elapse width (console_set_interrupt eirq b)).1
            ∙ h.in_reset;
      }

  pub strobe-IsLeft : (n : ℕ) (b : Board) → IsLeft b → IsLeft (strobe t n b)
  unfolding strobe
  strobe-IsLeft zero b h = h
  strobe-IsLeft (suc n) b h = strobe-IsLeft n _ (
      pulse-IsLeft 5000 5000 Interrupt.irq _
        (pulse-IsLeft 5000 5000 Interrupt.firq _ (pulse-IsLeft 5000 5000 Interrupt.nmi b h)))

  pub software_test-IsLeft : (b : Board) → IsIdle b → IsLeft (software_test env b).1
  unfolding software_test
  software_test-IsLeft b h = stop-IsLeft _ (
      (await-Same synced max_polls env.observe 0 (start b) keeps.keeps_observe).0
      ∙ start_idle b
      ∙ h)

  pub hardware_run-IsLeft : (eirq : Interrupt) (b : Board) → IsLeft (hardware_run env t eirq b).1
  unfolding hardware_run console_set_interrupt stop_6809 Power.stop
  hardware_run-IsLeft eirq b = record { idle = refl; in_reset = (keeps.keeps_settle _).1 }

  -- A run of a snippet that stops the 6809, whether it ends in time or not.
  await_sync-Same : (n i : ℕ) (b : Board) → Same b (await_sync n env.observe i b)
  unfolding await_sync
  await_sync-Same zero i b = (refl, refl)
  await_sync-Same (suc n) i b =
      elim_elim (Same b) (is_synced (env.observe i b).core1.mc6809.run_state)
        (λ _. keeps.keeps_observe i b)
        λ _.
          let x = keeps.keeps_observe i b in
          let y = await_sync-Same n (i + 1) (env.observe i b) in (y.0 ∙ x.0, y.1 ∙ x.1)

  pub run_snippet-IsLeft :
      (timeout_ms : ℕ) (b : Board) → IsLeft b → IsLeft (run_snippet env timeout_ms b).1
  unfolding run_snippet start_with_timeout Power.stop Power.start
  run_snippet-IsLeft timeout_ms b h =
      if_elim (λ (x : Bool × Board). IsLeft (env.settle x.1)) (not (is_held b))
        (λ _.
          let x = keeps.keeps_settle b in
          record { idle = x.0 ∙ h.idle; in_reset = x.1 ∙ h.in_reset })
        (λ _.
          let b₀ = on_supervisor Power.start (call_setup b) in
          let b₁ = await_sync (1000 * timeout_ms) env.observe 0 b₀ in
          let x = keeps.keeps_settle (on_supervisor Power.stop b₁) in
          record {
            idle =
                x.0 ∙ (await_sync-Same (1000 * timeout_ms) 0 b₀).0 ∙ (call_setup-Same b).0 ∙ h.idle;
            in_reset = x.1;
          })

  watchpoint_test-IsLeft :
      (success : Bool) (b : Board) → IsIdle b → IsLeft (watchpoint_test env t success b).1
  unfolding watchpoint_test
  watchpoint_test-IsLeft success b h =
      let test : Board → Bool = λ c. shared 9 c == 2 in
      let b₀ = start (put_shared 8 1 b) in
      let b₁ = (await test max_polls env.observe 0 b₀).1 in
      let i : IsIdle b₁ =
        (await-Same test max_polls env.observe 0 b₀ keeps.keeps_observe).0
        ∙ start_idle (put_shared 8 1 b)
        ∙ h in
      if_elim (λ (x : Option Bool × Board). IsLeft x.1) _ (λ _. stop-IsLeft b₁ i)
        (λ _. stop-IsLeft (t.elapse 5000 b₁) ((keeps.keeps_elapse 5000 b₁).0 ∙ i))

  pub chunk_run-IsLeft : (b : Board) → IsIdle b → IsLeft (chunk_run env t b).1
  unfolding chunk_run
  chunk_run-IsLeft b h =
      let ready : Board → Bool = λ c. not (shared 0 c == 0) in
      let finished : Board → Bool = λ c. not (shared 7 c == 0) in
      let x = await ready max_polls env.observe 0 (start b) in
      let i : IsIdle x.1 =
        (await-Same ready max_polls env.observe 0 (start b) keeps.keeps_observe).0
        ∙ start_idle b
        ∙ h in
      let y = await finished x.0 env.observe 0 x.1 in
      let j : IsIdle y.1 = (await-Same finished x.0 env.observe 0 x.1 keeps.keeps_observe).0 ∙ i in
      let b₂ = pulse t 5 2000 Interrupt.firq (pulse t 5 2000 Interrupt.nmi y.1) in
      let b₃ = stop_6809 env (pulse t 5 2000 Interrupt.irq b₂) in
      let k : IsIdle b₃ = (stop-IsLeft _ (pulse-IsIdle 5 2000 Interrupt.irq b₂)).idle in
      let left = λ (z : Option Bool × Board). IsLeft z.1 in
      if_elim left (x.0 == 0) (λ _. stop-IsLeft x.1 i)
        (λ _.
          if_elim left (y.0 == 0) (λ _. stop-IsLeft y.1 j)
            (λ _. watchpoint_test-IsLeft (chunk_checks b₃) b₃ k))
