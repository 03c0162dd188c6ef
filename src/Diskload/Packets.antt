-- ===== src/Diskload/Packets.antt =====
-- The decoder against packets of literal and repeated bytes.
use mathlib.Core.Option
use pico_thing_main.Base.{
  ℕ, zero, suc, ◌+◌, ◌-◌, ◌≤◌, ◌<◌, ◌≡◌, refl, ap, ◌∙◌, List, [], ◌∷◌, ◌++◌, append_assoc, Option,
  some, ltb, ◌==◌, arith, length, length-append, u8, elim_elim,
}
use pico_thing_main.Diskload.{before, literal_run, repeat_run, decode_runs, packbits_decode}

pub data Packet : Type 0 where
  literal : List ℕ → Packet
  repeat : ℕ → ℕ → Packet

abbrev pub copies : ℕ → ℕ → List ℕ
copies zero v = []
copies (suc n) v = v ∷ copies n v

-- The bytes that a packet stands for, and its code.
abbrev pub expand : List Packet → List ℕ
expand [] = []
expand (literal xs ∷ ps) = xs ++ expand ps
expand (repeat n v ∷ ps) = copies n v ++ expand ps

abbrev pub encode : List Packet → List ℕ
encode [] = 128 ∷ []
encode (literal xs ∷ ps) = (length xs - 1) ∷ (xs ++ encode ps)
encode (repeat n v ∷ ps) = (257 - n) ∷ v ∷ encode ps

-- A packet has 1 to 128 bytes of its own, or 2 to 128 copies of one.
abbrev pub AllPackets : List Packet → Type 0
AllPackets [] = Unit {0}
AllPackets (literal xs ∷ ps) = (1 ≤ length xs) × (length xs ≤ 128) × AllPackets ps
AllPackets (repeat n v ∷ ps) = (2 ≤ n) × (n ≤ 128) × AllPackets ps

length-copies : (n v : ℕ) → length (copies n v) ≡ n
length-copies zero v = refl
length-copies (suc n) v = ap suc (length-copies n v)

literal_run_lem :
    (xs rest : List ℕ) (room : ℕ)
    → length xs ≤ room
    → literal_run (length xs) room (xs ++ rest) ≡ some (xs, rest)
unfolding literal_run
literal_run_lem [] rest room h = refl
literal_run_lem (x ∷ xs) rest zero h = absurd (omega arith)
literal_run_lem (x ∷ xs) rest (suc room) h =
    ap (Option.map (before (x ∷ []))) (literal_run_lem xs rest room (omega arith))

repeat_run_lem : (n room v : ℕ) → n ≤ room → repeat_run n room v ≡ copies n v
unfolding repeat_run
repeat_run_lem zero room v h = refl
repeat_run_lem (suc n) zero v h = absurd (omega arith)
repeat_run_lem (suc n) (suc room) v h = ap (◌∷◌ v) (repeat_run_lem n room v (omega arith))

-- One round of the decoder, for each kind of packet.
literal_round :
    (fuel room : ℕ) (xs cs : List ℕ)
    → 1 ≤ length xs
    → length xs ≤ 128
    → length xs ≤ room
    → decode_runs (suc fuel) room ((length xs - 1) ∷ (xs ++ cs))
      ≡ Option.map (before xs) (decode_runs fuel (room - length xs) cs)
unfolding decode_runs Option.bind
literal_round fuel room xs cs a b h =
    let n = length xs - 1 in
    let count : u8 (n + 1) ≡ length xs = omega (arith, a, b) in
    let after = λ (o : Option (List ℕ × List ℕ)).
      Option.bind o λ x. Option.map (before x.0) (decode_runs fuel (room - length x.0) x.1) in
    let goal = Option.map (before xs) (decode_runs fuel (room - length xs) cs) in
    elim_elim (λ (r : Option (List ℕ × List ℕ)). r ≡ goal) (n == 128)
      (λ e. absurd (ground (arith, e, b)))
      λ _.
        elim_elim (λ (r : Option (List ℕ × List ℕ)). r ≡ goal) (ltb n 128)
          (λ _.
            ap (λ (k : ℕ). after (literal_run k room (xs ++ cs))) count
            ∙ ap after (literal_run_lem xs cs room h))
          (λ f. absurd (ground (arith, f, b)))

repeat_round :
    (fuel room n v : ℕ) (cs : List ℕ)
    → 2 ≤ n
    → n ≤ 128
    → n ≤ room
    → decode_runs (suc fuel) room ((257 - n) ∷ v ∷ cs)
      ≡ Option.map (before (copies n v)) (decode_runs fuel (room - n) cs)
unfolding decode_runs
repeat_round fuel room n v cs a b h =
    let count : u8 (257 - (257 - n)) ≡ n = omega (arith, a, b) in
    let after = λ (xs : List ℕ). Option.map (before xs) (decode_runs fuel (room - length xs) cs) in
    let goal = Option.map (before (copies n v)) (decode_runs fuel (room - n) cs) in
    elim_elim (λ (r : Option (List ℕ × List ℕ)). r ≡ goal) (257 - n == 128)
      (λ e. absurd (ground (arith, e, b)))
      λ _.
        elim_elim (λ (r : Option (List ℕ × List ℕ)). r ≡ goal) (ltb (257 - n) 128)
          (λ f. absurd (ground (arith, f, b)))
          (λ _.
            ap (λ (k : ℕ). after (repeat_run k room v)) count
            ∙ ap after (repeat_run_lem n room v h)
            ∙ ap (λ (k : ℕ). Option.map (before (copies n v)) (decode_runs fuel (room - k) cs))
                (length-copies n v))

before-some :
    (xs ys rest : List ℕ) {o : Option (List ℕ × List ℕ)}
    → o ≡ some (ys, rest)
    → Option.map (before xs) o ≡ some (xs ++ ys, rest)
before-some xs ys rest e = ap (Option.map (before xs)) e

decode_runs-encode :
    (fuel room : ℕ) (ps : List Packet) (rest : List ℕ)
    → AllPackets ps
    → length (expand ps) ≤ room
    → length ps < fuel
    → decode_runs fuel room (encode ps ++ rest) ≡ some (expand ps, rest)
unfolding decode_runs
decode_runs-encode zero room ps rest v h l = absurd (omega (arith, l))
decode_runs-encode (suc fuel) room [] rest v h l = refl
decode_runs-encode (suc fuel) room (literal xs ∷ ps) rest (a, b, v) h l =
    let len = length-append xs (expand ps) in
    ap (λ cs. decode_runs (suc fuel) room ((length xs - 1) ∷ cs)) (append_assoc xs (encode ps) rest)
    ∙ literal_round fuel room xs (encode ps ++ rest) a b (omega (arith, len, h))
    ∙ before-some xs (expand ps) rest (
        decode_runs-encode fuel (room - length xs) ps rest v (omega (arith, len, h))
          (omega (arith, l)))
decode_runs-encode (suc fuel) room (repeat n v ∷ ps) rest (a, b, w) h l =
    let len = length-append (copies n v) (expand ps) in
    let size = length-copies n v in
    repeat_round fuel room n v (encode ps ++ rest) a b (omega (arith, len, size, h))
    ∙ before-some (copies n v) (expand ps) rest (
        decode_runs-encode fuel (room - n) ps rest w (omega (arith, len, size, h))
          (omega (arith, l)))

length-encode : (ps : List Packet) → length ps < length (encode ps)
length-encode [] = omega arith
length-encode (literal xs ∷ ps) = omega (arith, length-encode ps, length-append xs (encode ps))
length-encode (repeat n v ∷ ps) = omega (arith, length-encode ps)

-- The decoder gives back what any packets stand for, in their order, and takes no byte behind their
-- end mark, provided that the packets keep to the format, of 1 to 128 literal bytes or of 2 to 128
-- copies, and that together they fit into the destination. The rounds that the model allows, one
-- more than the bytes that arrive, are enough for them.
pub packbits_decode-encode :
    (cap : ℕ) (ps : List Packet) (rest : List ℕ)
    → AllPackets ps
    → length (expand ps) ≤ cap
    → packbits_decode cap (encode ps ++ rest) ≡ some (expand ps, rest)
unfolding packbits_decode
packbits_decode-encode cap ps rest v h =
    decode_runs-encode (suc (length (encode ps ++ rest))) cap ps rest v h
      (omega (arith, length-encode ps, length-append (encode ps) rest))
