-- ===== src/Console/Break/Caught.antt =====
-- What a break leaves, and its return.
use mathlib.Core.Option
use pico_thing_main.Base.{
  ℕ, zero, suc, ◌+◌, ◌<◌, ◌≡◌, ◌↔◌, refl, sym, ap, ◌∙◌, Bool, true, false, not, Option, some,
  elim_elim, arith, if◌then◌else◌, Cells, true≢false,
}
use pico_thing_main.Interrupt.{Interrupt}
use pico_thing_main.Registers.{Registers, put_word}
use pico_thing_main.Core1.{registers_of, reset_vector_offset, register_snippet}
use pico_thing_main.Core1.Rearm.{snippet_copy_lem}
use pico_thing_main.Console.{Board, Env, is_powered, on_registers, load_snippet}
use pico_thing_main.Console.Break.{
  console_set_interrupt, has_stacked, await_stacked, is_none, raise_break, catch_break,
  break_command,
}

-- The board after `k` rounds, from the round `i` on.
abbrev pub after_rounds : (ℕ → Board → Board) → ℕ → ℕ → Board → Board
after_rounds observe i zero b = b
after_rounds observe i (suc k) b = after_rounds observe (i + 1) k (observe i b)

-- The guest has stacked its registers before the last of `n` rounds.
pub record Stacked (observe : ℕ → Board → Board) (i n : ℕ) (b : Board) : Type 0 where
  pub round : ℕ
  pub in_time : round < n
  pub stacked : has_stacked (after_rounds observe i round b) ≡ true

await_stacked-Stacked :
    (n : ℕ) (observe : ℕ → Board → Board) (i : ℕ) (b : Board)
    → ((await_stacked n observe i b).0 ≡ true) ↔ Stacked observe i n b
unfolding await_stacked
await_stacked-Stacked zero observe i b =
    (λ e. absurd (true≢false (sym e)), λ s. absurd (omega (arith, s.in_time)))
await_stacked-Stacked (suc n) observe i b =
    elim_elim (λ (r : Bool × Board). (r.0 ≡ true) ↔ Stacked observe i (suc n) b) (has_stacked b)
      (λ e. (λ _. record { round = 0; in_time = omega arith; stacked = e }, λ _. refl))
      λ e.
        let (to, from) = await_stacked-Stacked n observe (i + 1) (observe i b) in
        (λ f. later (to f), λ s. from (earlier s.round s.in_time s.stacked e))
  where
    later : Stacked observe (i + 1) n (observe i b) → Stacked observe i (suc n) b
    later s = record {
      round = suc s.round;
      in_time = omega (arith, s.in_time);
      stacked = s.stacked;
    }

    earlier :
        (k : ℕ)
        → k < suc n
        → has_stacked (after_rounds observe i k b) ≡ true
        → has_stacked b ≡ false
        → Stacked observe (i + 1) n (observe i b)
    earlier zero l s e = absurd (true≢false (sym s ∙ e))
    earlier (suc k) l s e = record { round = k; in_time = omega (arith, l); stacked = s }

-- The rounds of the wait leave the break flag alone.
await_stacked_keeps :
    (n : ℕ) (observe : ℕ → Board → Board) (i : ℕ) (b : Board)
    → ((i : ℕ) (b : Board) → (observe i b).break_active ≡ b.break_active)
    → (await_stacked n observe i b).1.break_active ≡ b.break_active
unfolding await_stacked
await_stacked_keeps zero observe i b h = refl
await_stacked_keeps (suc n) observe i b h =
    elim_elim (λ (r : Bool × Board). r.1.break_active ≡ b.break_active) (has_stacked b) (λ _. refl)
      λ _. await_stacked_keeps n observe (i + 1) (observe i b) h ∙ h i b

-- What the command leaves.
pub record Broken (env : Env) (b : Board) (result : Option Board) : Type 0 where
  pub raised : Board
  pub board : Board
  pub returns : result ≡ some board
  pub loads : Option.map raise_break (load_snippet env.break_code b) ≡ some raised
  pub released : board.core1.console_interrupt ≡ Interrupt.none
  pub caught : (is_none board.break_active ≡ false) ↔ Stacked env.observe 0 1000001 raised

is_none_eq : (x : Interrupt) → is_none x ≡ true → x ≡ Interrupt.none
is_none_eq Interrupt.none e = refl
is_none_eq _ e = absurd (true≢false (sym e))

-- The end of the command, by what the wait gave.
abbrev caught_as : Bool × Board → Board
caught_as x =
    let b = console_set_interrupt Interrupt.none x.1 in
    if x.0 then record b { break_active = Interrupt.nmi } else b

caught_as_lem :
    (x : Bool × Board) (S : Type 0)
    → (x.0 ≡ true) ↔ S
    → is_none x.1.break_active ≡ true
    → ((caught_as x).core1.console_interrupt ≡ Interrupt.none)
      × ((is_none (caught_as x).break_active ≡ false) ↔ S)
unfolding console_set_interrupt
caught_as_lem (true, b) S (to, from) e = (refl, (λ _. to refl, λ _. refl))
caught_as_lem (false, b) S (to, from) e =
    (refl, (λ f. absurd (true≢false (sym e ∙ f)), λ s. absurd (true≢false (sym (from s)))))

catch_break-caught :
    (env : Env) (b : Board)
    → ((i : ℕ) (b : Board) → (env.observe i b).break_active ≡ b.break_active)
    → is_none b.break_active ≡ true
    → ((catch_break env b).core1.console_interrupt ≡ Interrupt.none)
      × ((is_none (catch_break env b).break_active ≡ false) ↔ Stacked env.observe 0 1000001 b)
unfolding catch_break
catch_break-caught env b h e =
    caught_as_lem (await_stacked 1000001 env.observe 0 b) (Stacked env.observe 0 1000001 b)
      (await_stacked-Stacked 1000001 env.observe 0 b)
      (ap is_none (await_stacked_keeps 1000001 env.observe 0 b h) ∙ e)

load_snippet_lem :
    (code : Cells) (b : Board)
    → (r : Registers) × (load_snippet code b ≡ some (on_registers (λ _. r) b))
unfolding load_snippet
load_snippet_lem code b =
    let (r, f, _) = snippet_copy_lem code (registers_of b.core1) in
    (
      put_word r reset_vector_offset register_snippet,
      ap (Option.map (λ (q : Registers). on_registers (λ _. q) b)) f,
    )

raise_break_keeps : (b : Board) → (raise_break b).break_active ≡ b.break_active
unfolding raise_break console_set_interrupt
raise_break_keeps b = refl

-- A BREAK with the power on and no break active, where nothing that happens during the wait changes
-- the flag of the break, comes to an end without a fault. The console then requests no interrupt,
-- whether or not the break has come, and a break is active exactly if the guest has stacked a
-- program counter that is not zero by the end of one of the first 1000000 rounds of the wait, from
-- the state in which the NMI has been raised.
pub break_command-Broken :
    (env : Env) (b : Board)
    → ((i : ℕ) (b : Board) → (env.observe i b).break_active ≡ b.break_active)
    → is_powered b ≡ true
    → is_none b.break_active ≡ true
    → Broken env b (break_command env b)
unfolding break_command
break_command-Broken env b h p e =
    let (r, f) = load_snippet_lem env.break_code b in
    let raised = raise_break (on_registers (λ _. r) b) in
    let (released, caught) =
      catch_break-caught env raised h
        (ap is_none (raise_break_keeps (on_registers (λ _. r) b)) ∙ e) in
    let go = Option.map (λ (b₁ : Board). catch_break env (raise_break b₁)) in
    record {
      raised = raised;
      board = catch_break env raised;
      returns =
          ap
            (λ (q : Bool).
              if not q
              then some b
              else if not (is_none b.break_active)
              then some b
              else go (load_snippet env.break_code b))
            p
          ∙ ap (λ (q : Bool). if not q then some b else go (load_snippet env.break_code b)) e
          ∙ ap go f;
      loads = ap (Option.map raise_break) f;
      released = released;
      caught = caught;
    }
