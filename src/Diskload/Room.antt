-- ===== src/Diskload/Room.antt =====
-- The decoder never stores behind the end of its destination.
use mathlib.Core.Option
use pico_thing_main.Base.{
  ℕ, zero, suc, ◌+◌, ◌-◌, ◌≤◌, ◌≡◌, subst, List, [], ◌∷◌, Option, none, some, ltb, ◌==◌, elim_elim,
  arith, length, length-append, u8,
}
use pico_thing_main.Diskload.{before, literal_run, repeat_run, decode_runs, packbits_decode}

-- What is stored, if anything is, fits into the room.
abbrev pub Fits : ℕ → Option (List ℕ × List ℕ) → Type 0
Fits room none = Unit {0}
Fits room (some x) = length x.0 ≤ room

before-Fits :
    (xs : List ℕ) (room : ℕ) (o : Option (List ℕ × List ℕ))
    → length xs ≤ room
    → Fits (room - length xs) o
    → Fits room (Option.map (before xs) o)
before-Fits xs room none h f = tt
before-Fits xs room (some x) h f = omega (arith, h, f, length-append xs x.0)

literal_run-Fits : (count room : ℕ) (cs : List ℕ) → Fits room (literal_run count room cs)
unfolding literal_run
literal_run-Fits zero room cs = omega arith
literal_run-Fits (suc count) zero cs = omega arith
literal_run-Fits (suc count) (suc room) [] = tt
literal_run-Fits (suc count) (suc room) (c ∷ cs) =
    before-Fits (c ∷ []) (suc room) (literal_run count room cs) (omega arith)
      (subst (λ n. Fits n (literal_run count room cs)) less (literal_run-Fits count room cs))
  where
    less : room ≡ suc room - 1
    less = omega arith

repeat_run-Fits : (count room val : ℕ) → length (repeat_run count room val) ≤ room
unfolding repeat_run
repeat_run-Fits zero room val = omega arith
repeat_run-Fits (suc count) zero val = omega arith
repeat_run-Fits (suc count) (suc room) val = omega (arith, repeat_run-Fits count room val)

decode_runs-Fits : (fuel room : ℕ) (cs : List ℕ) → Fits room (decode_runs fuel room cs)
unfolding decode_runs Option.bind
decode_runs-Fits zero room cs = tt
decode_runs-Fits (suc fuel) room [] = tt
decode_runs-Fits (suc fuel) room (n ∷ cs) =
    elim_elim (Fits room) (n == 128) (λ _. omega arith)
      λ _.
        elim_elim (Fits room) (ltb n 128)
          (λ _.
            then_rest (decode_runs-Fits fuel) (literal_run (u8 (n + 1)) room cs)
              (literal_run-Fits (u8 (n + 1)) room cs))
          (λ _. repeated (decode_runs-Fits fuel) cs)
  where
    Rest : Type 0
    Rest = (r : ℕ) (cs : List ℕ) → Fits r (decode_runs fuel r cs)

    then_rest :
        Rest
        → (o : Option (List ℕ × List ℕ)) → Fits room o
        → Fits room
            (Option.bind o λ x. Option.map (before x.0) (decode_runs fuel (room - length x.0) x.1))
    then_rest k none f = tt
    then_rest k (some x) f = before-Fits x.0 room _ f (k (room - length x.0) x.1)

    repeated :
        Rest
        → (cs : List ℕ)
        → Fits room (elim cs as (λ _. Option (List ℕ × List ℕ)) [
          | [] ↦ none
          | val ∷ rest ↦
              let xs = repeat_run (u8 (257 - n)) room val in
              Option.map (before xs) (decode_runs fuel (room - length xs) rest)
        ])
    repeated k [] = tt
    repeated k (val ∷ rest) =
        before-Fits (repeat_run (u8 (257 - n)) room val) room _
          (repeat_run-Fits (u8 (257 - n)) room val) (k _ rest)

-- Whatever bytes arrive, well-formed packets or not, and whatever the length of a run: if the decoder
-- comes to the end mark, it has stored no more bytes than the destination holds.
pub packbits_decode-Fits :
    (cap : ℕ) (cs : List ℕ) (x : List ℕ × List ℕ)
    → packbits_decode cap cs ≡ some x
    → length x.0 ≤ cap
unfolding packbits_decode
packbits_decode-Fits cap cs x e = subst (Fits cap) e (decode_runs-Fits (suc (length cs)) cap cs)
