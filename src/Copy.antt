-- ===== src/Copy.antt =====
-- src/pico_thing.cpp: copy() and peripheral_clear. A copy is made of chunks, each by a snippet that
-- the guest runs. What such a run does is a parameter: it takes the register blocks and the rest of
-- the state, with the guest's memory in it, and returns whether it ended in time, and both. `none` is an
-- access outside an array.
pub mod Loaded
pub mod Outwards
pub mod Kept
pub mod Inwards
pub mod Clear
use mathlib.Core.Option
use Prim.Native.Nat.{min}
use pico_thing_main.Base.{
  ℕ, zero, suc, ◌+◌, ◌-◌, ◌%◌, Bool, true, false, List, [], ◌∷◌, ◌++◌, Option, none, some, ltb,
  ◌==◌, if◌then◌else◌, Cells, take, drop, length, u16,
}
use pico_thing_main.Registers.{Registers, put_byte, put_word, copy_in, copy_out, clear}
use pico_thing_main.TickTimer.{Timer}
use pico_thing_main.TickTimer
use pico_thing_main.Core1.{buffer_offset, vectors_offset, register_snippet}
use pico_thing_main.Core1.Requests.{snippet_copy}

-- The register blocks, and the rest.
abbrev pub Guest : Type 0 → Type 0
Guest W = Registers × W

-- `MIN(16u, end - start)`: the difference of the two `uint16_t` is made unsigned.
abbrev pub chunk_length : ℕ → ℕ → ℕ
chunk_length start finish = min 16 ((finish + 4294967296 - start) % 4294967296)

-- The address and the length, for the snippet.
abbrev pub set_chunk : ℕ → ℕ → Registers → Registers
set_chunk start len r = put_byte (put_word r 36 start) 39 len

-- A chunk of the data goes into the buffer, if there is as much of it.
unfoldable pub load_chunk : ℕ → ℕ → List ℕ → Registers → Option Registers
load_chunk start len bytes r =
    if ltb (length bytes) len
    then none
    else copy_in (set_chunk start len r) buffer_offset (take len bytes)

-- The loop, outwards; the number of rounds left comes first, and `none` if there are too few.
unfoldable pub copy_out_chunks :
    {W : Type 0}
    → (Guest W → Bool × Guest W)
    → ℕ
    → ℕ
    → ℕ
    → List ℕ
    → Guest W
    → Option (Bool × Guest W)
unfolding load_chunk
copy_out_chunks execute zero start finish bytes g = none
copy_out_chunks execute (suc n) start finish bytes (r, w) =
    if start == finish
    then some (true, (r, w))
    else let len = chunk_length start finish in
      Option.bind (load_chunk start len bytes r) λ r₁.
        let (ok, g) = execute (r₁, w) in
        if ok
        then copy_out_chunks execute n (u16 (start + len)) finish (drop len bytes) g
        else some (false, g)

-- The loop, inwards, with the bytes that it has stored.
unfoldable pub copy_in_chunks :
    {W : Type 0}
    → (Guest W → Bool × Guest W)
    → ℕ
    → ℕ
    → ℕ
    → List ℕ
    → Guest W
    → Option (Bool × (List ℕ × Guest W))
copy_in_chunks execute zero start finish bytes g = none
copy_in_chunks execute (suc n) start finish bytes (r, w) =
    if start == finish
    then some (true, (bytes, (r, w)))
    else let len = chunk_length start finish in
      let (ok, g) = execute (set_chunk start len r, w) in
      if ok
      then Option.bind (copy_out g.0 buffer_offset len)
          (λ chunk. copy_in_chunks execute n (u16 (start + len)) finish (bytes ++ chunk) g)
      else some (false, (bytes, g))

-- copy(OUTWARDS, …), with the bytes of the snippet.
unfoldable pub copy_outwards :
    {W : Type 0}
    → Cells
    → (Guest W → Bool × Guest W)
    → ℕ
    → ℕ
    → List ℕ
    → Guest W
    → Option (Bool × Guest W)
copy_outwards code execute count address bytes (r, w) =
    Option.bind (snippet_copy code r)
      λ r₁. copy_out_chunks execute (suc count) address (u16 (address + count)) bytes (r₁, w)

-- copy(INWARDS, …)
unfoldable pub copy_inwards :
    {W : Type 0}
    → Cells
    → (Guest W → Bool × Guest W)
    → ℕ
    → ℕ
    → Guest W
    → Option (Bool × (List ℕ × Guest W))
copy_inwards code execute count address (r, w) =
    Option.bind (snippet_copy code r)
      λ r₁. copy_in_chunks execute (suc count) address (u16 (address + count)) [] (r₁, w)

-- The devices read as $FF.
pub fill_devices : ℕ → Registers → Registers
fill_devices zero r = r
fill_devices (suc n) r = fill_devices n (put_byte r n 0xFF)

-- All eight vectors point to the snippet.
pub fill_vectors : ℕ → Registers → Registers
fill_vectors zero r = r
fill_vectors (suc n) r = fill_vectors n (put_word r (vectors_offset + n + n) register_snippet)

-- peripheral_clear, with the bytes of the SYNC snippet.
unfoldable pub peripheral_clear : Cells → Bool → Timer → Option Timer
unfolding fill_devices fill_vectors
peripheral_clear code sysvectors (t, r) =
    let r₁ = fill_devices 16 (clear r) in
    Option.map (λ (s : Registers). TickTimer.reset (t, s))
      (if sysvectors then Option.map (fill_vectors 8) (snippet_copy code r₁) else some r₁)
