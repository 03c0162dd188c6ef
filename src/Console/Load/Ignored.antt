-- ===== src/Console/Load/Ignored.antt =====
-- A program that is sent as S-records while the 6809 runs is not loaded.
use mathlib.Core.Option
use pico_thing_main.Base.{
  ℕ, ◌+◌, ◌-◌, ◌<◌, ◌≡◌, ap, ◌∙◌, Bool, true, false, not, inl, inr, Bool-cases, List, [], ◌∷◌,
  Option, some, ltb, leb, arith, if◌then◌else◌, length, u16,
}
use pico_thing_main.Mc6809.{is_reset}
use pico_thing_main.Console.{Board, Env, is_powered, copy_out}
use pico_thing_main.Console.Memory.{put_bytes}
use pico_thing_main.Console.Run.{set_reset_vector}
use pico_thing_main.Console.Load.{load_s1, load_record, srecord}
use pico_thing_main.Console.Load.Record.{
  line_of, fields_of, srecord-line_of, give_up, first_line, last_line,
}
use pico_thing_main.Console.Load.Stream.{Segment, Loadable, AllLoadable, load_lines, body, program}

abbrev ignoring : Bool → Board → Board
ignoring i b = record b { srecord_ignore = i }

load_s1-refused :
    (env : Env) (addr : ℕ) (xs : List ℕ) (b : Board)
    → is_reset b.core1.mc6809.run_state ≡ false
    → addr + (length xs + 3) < 0xFE00
    → load_s1 env (fields_of addr xs) b ≡ some (ignoring true b)
unfolding load_s1
load_s1-refused env addr xs b e l =
    let inside : ltb (addr + (length xs + 3)) 0xFE00 ≡ true = ground (arith, l) in
    let copied = Option.map give_up (copy_out env (u16 (length xs + 3 + 65536 - 3)) addr xs b) in
    ap
      (λ (p : Bool).
        if p
        then (if not (is_reset b.core1.mc6809.run_state) then some (ignoring true b) else copied)
        else if leb 0xFFF0 addr
        then some (put_bytes addr xs b)
        else some b)
      inside
    ∙ ap (λ (p : Bool). if not p then some (ignoring true b) else copied) e

s1_line :
    (env : Env) (addr : ℕ) (xs : List ℕ) (b : Board)
    → is_powered b ≡ true
    → is_reset b.core1.mc6809.run_state ≡ false
    → Loadable (addr, xs)
    → srecord env (line_of b'1' addr xs) b ≡ some (ignoring true b)
unfolding load_record
s1_line env addr xs b p e (h, hx, l) =
    let s1 = load_s1 env (fields_of addr xs) b in
    srecord-line_of env b'1' addr xs b p (omega (arith, l)) h hx
    ∙ elim (Bool-cases b.srecord_ignore) [
      | inl i ↦
          ap (λ (q : Bool). if q then some b else s1) i ∙ ap (λ (q : Bool). some (ignoring q b)) i
      | inr i ↦ ap (λ (q : Bool). if q then some b else s1) i ∙ load_s1-refused env addr xs b e l
    ]

ignored_body :
    (env : Env) (ss : List Segment) (entry : ℕ) (b : Board)
    → is_powered b ≡ true
    → is_reset b.core1.mc6809.run_state ≡ false
    → AllLoadable ss
    → entry < 65536
    → load_lines env (body ss entry) b ≡ some (set_reset_vector entry (ignoring false b))
unfolding Option.bind
ignored_body env [] entry b p e a h =
    ap (λ (o : Option Board). Option.bind o some) (last_line env entry b p h)
ignored_body env ((addr, xs) ∷ ss) entry b p e (a, as') h =
    ap (λ (o : Option Board). Option.bind o (load_lines env (body ss entry)))
      (s1_line env addr xs b p e a)
    ∙ ignored_body env ss entry (ignoring true b) p e as' h

-- On a board with the power on and the 6809 not held in reset, the same lines change nothing but
-- two things: no memory is written, and records are not ignored afterwards; but RESET points to the
-- address of the S9 record, of a program that has not been loaded. The test of `srecord_ignore` at
-- the S9 record does not prevent it, since the record has just cleared the flag.
pub ignored_program :
    (env : Env) (ss : List Segment) (entry : ℕ) (b : Board)
    → is_powered b ≡ true
    → is_reset b.core1.mc6809.run_state ≡ false
    → AllLoadable ss
    → entry < 65536
    → load_lines env (program ss entry) b
      ≡ some (set_reset_vector entry (record b { srecord_ignore = false }))
unfolding Option.bind
ignored_program env ss entry b p e a h =
    ap (λ (o : Option Board). Option.bind o (load_lines env (body ss entry))) (first_line env b p)
    ∙ ignored_body env ss entry (ignoring false b) p e a h
