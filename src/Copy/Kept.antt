-- ===== src/Copy/Kept.antt =====
-- A copy outwards comes to an end, with what each run of the snippet keeps.
use mathlib.Core.Option
use Prim.Native.Nat.{min}
use pico_thing_main.Base.{
  ℕ, zero, suc, ◌+◌, ◌-◌, ◌<◌, ◌≡◌, ◌≢◌, ap, ◌∙◌, Bool, true, false, List, Option, some, ◌==◌,
  if◌then◌else◌, Cells, drop, length, length-drop, u16, arith, Bool-cases, inl, inr,
}
use pico_thing_main.Core1.Rearm.{snippet_copy_lem}
use pico_thing_main.Registers.{Registers, put_word}
use pico_thing_main.Copy.{Guest, chunk_length, load_chunk, copy_out_chunks, copy_outwards}
use pico_thing_main.Copy.Outwards.{load_chunk_lem, chunk_length_lem}

module _ {W : Type 0} (Ready : W → Type 0) (execute : Guest W → Bool × Guest W)
    (keeps : (r : Registers) (w : W) → Ready w → Ready (execute (r, w)).1.1) where
  abbrev Ends : Option (Bool × Guest W) → Type 0
  Ends o = (x : Bool × Guest W) × (o ≡ some x) × Ready x.1.1

  copy_out_chunks-Ends :
      (n start finish : ℕ) (bytes : List ℕ) (r : Registers) (w : W)
      → Ready w
      → start + length bytes ≡ finish
      → finish < 65536
      → length bytes < n
      → Ends (copy_out_chunks execute n start finish bytes (r, w))
  unfolding copy_out_chunks Option.bind
  copy_out_chunks-Ends zero start finish bytes r w y e h l = absurd (omega arith)
  copy_out_chunks-Ends (suc n) start finish bytes r w y e h l =
      let len = chunk_length start finish in
      let go = λ (q : Registers).
        let x = execute (q, w) in
        if x.0
        then copy_out_chunks execute n (u16 (start + len)) finish (drop len bytes) x.1
        else some (false, x.1) in
      let round = λ (b : Bool).
        if b then some (true, (r, w)) else Option.bind (load_chunk start len bytes r) go in
      elim (Bool-cases (start == finish)) [
        | inl d ↦ ((true, (r, w)), ap round d, y)
        | inr d ↦
            let size : len ≡ min 16 (finish - start) =
              chunk_length_lem start finish (omega (arith, e)) h in
            let more : start ≢ finish = ground (arith, d) in
            let (s, loads, _, _, _, _) =
              load_chunk_lem start len bytes r (omega (arith, e, h)) (omega (arith, size))
                (omega (arith, size, e)) in
            let x = execute (s, w) in
            let loaded = ap round d ∙ ap (λ (o : Option Registers). Option.bind o go) loads in
            let after = λ (b : Bool).
              if b
              then copy_out_chunks execute n (u16 (start + len)) finish (drop len bytes) x.1
              else some (false, x.1) in
            elim (Bool-cases x.0) [
              | inl ok ↦
                  let next : u16 (start + len) ≡ start + len = omega (arith, size, e, h) in
                  let ih =
                    copy_out_chunks-Ends n (start + len) finish (drop len bytes) x.1.0 x.1.1
                      (keeps s w y) (omega (arith, size, e, length-drop len bytes)) h
                      (omega (arith, size, e, l, more, length-drop len bytes)) in
                  (
                    ih.0,
                    loaded
                        ∙ ap after ok
                        ∙ ap (λ k. copy_out_chunks execute n k finish (drop len bytes) x.1) next
                        ∙ ih.1,
                    ih.2,
                  )
              | inr bad ↦ ((false, x.1), loaded ∙ ap after bad, keeps s w y)
            ]
      ]

  -- If each run of the snippet keeps a state ready, whether it ends in time or not, then a copy of a list
  -- of bytes to an address from which it ends below the top of memory comes to an end without a
  -- fault, and leaves the state ready.
  pub copy_outwards-Ends :
      (code : Cells) (address : ℕ) (bytes : List ℕ) (r : Registers) (w : W)
      → Ready w
      → address + length bytes < 65536
      → (x : Bool × Guest W) × (copy_outwards code execute (length bytes) address bytes (r, w)
          ≡ some x)
        × Ready x.1.1
  unfolding copy_outwards Option.bind
  copy_outwards-Ends code address bytes r w y h =
      let (s, e, _) = snippet_copy_lem code r in
      let r₁ = put_word s 62 0xFFE0 in
      let finish : address + length bytes ≡ u16 (address + length bytes) = omega (arith, h) in
      let x =
        copy_out_chunks-Ends (suc (length bytes)) address (u16 (address + length bytes)) bytes r₁ w
          y finish (omega (arith, h)) (omega arith) in
      (
        x.0,
        ap
              (λ (o : Option Registers). Option.bind o λ q.
                copy_out_chunks execute (suc (length bytes)) address (u16 (address + length bytes))
                  bytes (q, w))
              e
            ∙ x.1,
        x.2,
      )
