-- ===== src/Power/Timeout.antt =====
-- What a run with a time limit answers, and how it leaves the 6809.
use pico_thing_main.Base.{
  ℕ, zero, suc, ◌+◌, ◌*◌, ◌<◌, ◌≡◌, ◌↔◌, refl, Bool, true, false, not, ◌&&◌, if◌then◌else◌, if_elim,
  arith,
}
use pico_thing_main.Mc6809.{Mc6809, setup, assert_stopped}
use pico_thing_main.Power.{Supervisor, is_synced, await_sync, start_with_timeout}

-- The 6809's state after `k` rounds of the handlers, from the round `i` on.
abbrev pub observed : (ℕ → Mc6809 → Mc6809) → ℕ → ℕ → Mc6809 → Mc6809
observed observe i zero m = m
observed observe i (suc k) m = observed observe (i + 1) k (observe i m)

-- The 6809 was synced at the end of one of the first `n` rounds.
pub record Synced (observe : ℕ → Mc6809 → Mc6809) (i n : ℕ) (m : Mc6809) : Type 0 where
  pub round : ℕ
  pub in_time : round < n
  pub synced : is_synced (observed observe i (suc round) m).run_state ≡ true

later :
    (observe : ℕ → Mc6809 → Mc6809) (i n : ℕ) (m : Mc6809)
    → Synced observe (i + 1) n (observe i m)
    → Synced observe i (suc n) m
later observe i n m s = record {
  round = suc s.round;
  in_time = omega (arith, s.in_time);
  synced = s.synced;
}

earlier :
    (observe : ℕ → Mc6809 → Mc6809) (i n k : ℕ) (m : Mc6809)
    → k < suc n
    → is_synced (observed observe i (suc k) m).run_state ≡ true
    → is_synced (observe i m).run_state ≡ false
    → Synced observe (i + 1) n (observe i m)
earlier observe i n zero m l s e = absurd (ground (arith, s, e))
earlier observe i n (suc k) m l s e = record { round = k; in_time = omega (arith, l); synced = s }

await_sync-Synced :
    (n : ℕ) (observe : ℕ → Mc6809 → Mc6809) (i : ℕ) (m : Mc6809)
    → is_synced m.run_state ≡ false
    → (is_synced (await_sync n observe i m).run_state ≡ true) ↔ Synced observe i n m
unfolding await_sync
await_sync-Synced zero observe i m e =
    (λ s. absurd (ground (arith, s, e)), λ s. absurd (omega (arith, s.in_time)))
await_sync-Synced (suc n) observe i m e =
    let m₁ = observe i m in
    if_elim (λ (l : Mc6809). (is_synced l.run_state ≡ true) ↔ Synced observe i (suc n) m)
      (is_synced m₁.run_state)
      (λ f. (λ _. record { round = 0; in_time = omega arith; synced = f }, λ _. f))
      λ f.
        let (to, from) = await_sync-Synced n observe (i + 1) m₁ f in
        (
          λ s. later observe i n m (to s),
          λ s. from (earlier observe i n s.round m s.in_time s.synced f),
        )

setup_quiet : (m : Mc6809) → is_synced (setup m).run_state ≡ false
unfolding setup
setup_quiet m = refl

-- The two stores to RESET after the loop.
reset_after :
    (ok means : Bool) (s : Supervisor)
    → s.reset_line ≡ false
    → let s₂ = if means && ok then record s { reset_line = true } else s in
      (if not ok then record s₂ { reset_line = true } else s₂).reset_line ≡ not (ok && not means)
reset_after true true s e = refl
reset_after true false s e = e
reset_after false true s e = refl
reset_after false false s e = refl

-- A run with a time limit, on a powered 6809 that is held in reset, answers true exactly when the
-- 6809 was seen synced at the end of one of the rounds of a microsecond, of which there are a
-- thousand for each millisecond of the limit. Afterwards the 6809 is held in reset again, but for a
-- run that was synced and whose caller did not want it to be stopped.
pub start_with_timeout_lem :
    (observe : ℕ → Mc6809 → Mc6809) (timeout_ms : ℕ) (sync_means_stop : Bool) (s : Supervisor)
    → assert_stopped s.mc6809 ≡ true
    → let (ok, t) = start_with_timeout observe timeout_ms sync_means_stop s in
      ((ok ≡ true) ↔ Synced observe 0 (1000 * timeout_ms) (setup s.mc6809))
      × (t.reset_line ≡ not (ok && not sync_means_stop))
unfolding start_with_timeout
start_with_timeout_lem observe timeout_ms means s h =
    let m = await_sync (1000 * timeout_ms) observe 0 (setup s.mc6809) in
    if_elim
      (λ (p : Bool × Supervisor).
        ((p.0 ≡ true) ↔ Synced observe 0 (1000 * timeout_ms) (setup s.mc6809))
        × (p.1.reset_line ≡ not (p.0 && not means)))
      (not (assert_stopped s.mc6809)) (λ e. absurd (ground (arith, e, h)))
      λ _. (
        await_sync-Synced (1000 * timeout_ms) observe 0 (setup s.mc6809) (setup_quiet s.mc6809),
        reset_after (is_synced m.run_state) means (record s { mc6809 = m; reset_line = false })
            refl,
      )
