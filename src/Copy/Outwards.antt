-- ===== src/Copy/Outwards.antt =====
-- A copy outwards moves each byte to its place.
use mathlib.Core.Option
use Prim.Native.Nat.{min}
use pico_thing_main.Base.{
  ne→==, byte_at, ℕ, zero, suc, ◌+◌, ◌-◌, ◌≤◌, ◌<◌, ◌≡◌, ◌≢◌, refl, sym, ap, ◌∙◌, Bool, true, false,
  ◌&&◌, List, [], ◌∷◌, Option, none, some, ltb, leb, ◌==◌, if◌then◌else◌, Cells, take, drop, length,
  length-drop, length-take, u16, arith, Bool-cases, inl, inr,
}
use pico_thing_main.Copy.Loaded.{
  IsLoaded, IsTold, IsLoaded-kept, set_chunk-IsLoaded, snippet_copy-IsLoaded,
}
use pico_thing_main.Registers.{Registers, read_byte, read_word, copy_in}
use pico_thing_main.Registers.Laws.{copy_in-byte_at}
use pico_thing_main.Copy.{
  Guest, chunk_length, set_chunk, load_chunk, copy_out_chunks, copy_outwards,
}

-- Memory with the bytes at an address.
abbrev pub stored : Cells → ℕ → List ℕ → Cells
stored memory address bytes j =
    if leb address j && ltb j (address + length bytes)
    then byte_at bytes (j - address)
    else memory j

byte_at-take : (n k : ℕ) (xs : List ℕ) → k < n → byte_at (take n xs) k ≡ byte_at xs k
byte_at-take zero k xs h = absurd (omega arith)
byte_at-take (suc n) k [] h = refl
byte_at-take (suc n) zero (x ∷ xs) h = refl
byte_at-take (suc n) (suc k) (x ∷ xs) h = byte_at-take n k xs (omega arith)

byte_at-drop : (n k : ℕ) (xs : List ℕ) → byte_at (drop n xs) k ≡ byte_at xs (n + k)
byte_at-drop zero k xs = ap (byte_at xs) (omega arith)
byte_at-drop (suc n) k [] = refl
byte_at-drop (suc n) k (x ∷ xs) =
    let next : suc n + k ≡ suc (n + k) = omega arith in
    byte_at-drop n k xs ∙ ap (byte_at (x ∷ xs)) (sym next)

pub load_chunk_lem :
    (start len : ℕ) (bytes : List ℕ) (r : Registers)
    → start < 65536
    → len ≤ 16
    → len ≤ length bytes
    → (s : Registers) × (load_chunk start len bytes r ≡ some s)
      × (read_word s 36 ≡ start)
      × (read_byte s 39 ≡ len)
      × ((k : ℕ) → k < len → s.read_registers (16 + k) ≡ byte_at bytes k)
      × ((j : ℕ) → 32 ≤ j → s.read_registers j ≡ (set_chunk start len r).read_registers j)
unfolding load_chunk
load_chunk_lem start len bytes r h l m =
    let count : length (take len bytes) ≡ len = omega (arith, length-take len bytes, m) in
    let (s, e, inside, outside) =
      copy_in-byte_at (set_chunk start len r) 16 (take len bytes) (omega (arith, count)) in
    let fits : ltb (length bytes) len ≡ false = ground (arith, m) in
    let kept : (j : ℕ) → 32 ≤ j → s.read_registers j ≡ (set_chunk start len r).read_registers j =
      λ j q. outside j (inr (omega (arith, count))) in
    (
      s,
      ap (λ (b : Bool). if b then none else copy_in (set_chunk start len r) 16 (take len bytes))
            fits
          ∙ e,
      ground (arith, kept 36 (omega arith), kept 37 (omega arith)),
      kept 39 (omega arith),
      λ k q. inside k (omega (arith, count)) ∙ byte_at-take len k bytes q,
      kept,
    )

-- One chunk stored, then the rest.
stored_chunk :
    (memory after : Cells) (start len : ℕ) (bytes : List ℕ)
    → len ≤ length bytes
    → ((j : ℕ)
        → after j
          ≡ (if leb start j && ltb j (start + len) then byte_at bytes (j - start) else memory j))
    → (j : ℕ) → stored after (start + len) (drop len bytes) j ≡ stored memory start bytes j
stored_chunk memory after start len bytes h e j =
    let moved : len + (j - (start + len)) ≡ (if leb (start + len) j then j - start else len) =
      ground arith in
    let there = byte_at-drop len (j - (start + len)) bytes ∙ ap (byte_at bytes) moved in
    let here = e j in
    let count = length-drop len bytes in
    elim (Bool-cases (leb (start + len) j)) [
      | inl p ↦ ground (arith, p, there, here, count)
      | inr p ↦ ground (arith, p, here, count)
    ]

pub chunk_length_lem :
    (start finish : ℕ)
    → start ≤ finish
    → finish < 65536
    → chunk_length start finish ≡ min 16 (finish - start)
chunk_length_lem start finish h l = omega arith

-- A copier, in a state of which `memory_of` is the guest's memory, while the state is ready.
module _ {W : Type 0} (memory_of : W → Cells) (Ready : W → Type 0) where
  -- What this snippet does where it stands in its place and RESET points to it, told to copy one to
  -- sixteen bytes of the memory below the devices: it copies the buffer to the address in its fifth
  -- and sixth bytes, as many bytes as its eighth says, in time; it stays in its place, and the state
  -- is ready for it again.
  abbrev pub CopiesOut : Cells → (Guest W → Bool × Guest W) → Type 0
  CopiesOut code execute =
      (r : Registers) (w : W)
      → Ready w
      → IsTold code r
      → ((execute (r, w)).0 ≡ true)
        × IsLoaded code (execute (r, w)).1.0
        × Ready (execute (r, w)).1.1
        × ((j : ℕ)
            → memory_of (execute (r, w)).1.1 j ≡ (
                if leb (read_word r 36) j && ltb j (read_word r 36 + read_byte r 39)
                then r.read_registers (16 + (j - read_word r 36))
                else memory_of w j))

  -- What the snippet leaves, for a chunk that was loaded.
  execute_chunk :
      (code : Cells) (execute : Guest W → Bool × Guest W) (start len : ℕ) (bytes : List ℕ)
      (s : Registers) (w : W)
      → CopiesOut code execute
      → Ready w
      → IsTold code s
      → read_word s 36 ≡ start
      → read_byte s 39 ≡ len
      → ((k : ℕ) → k < len → s.read_registers (16 + k) ≡ byte_at bytes k)
      → (j : ℕ)
      → memory_of (execute (s, w)).1.1 j
        ≡ (if leb start j && ltb j (start + len) then byte_at bytes (j - start) else memory_of w j)
  execute_chunk code execute start len bytes s w c y t a b inside j =
      let moved : memory_of (execute (s, w)).1.1 j ≡ (
          if leb start j && ltb j (start + len)
          then s.read_registers (16 + (j - start))
          else memory_of w j) =
        (c s w y t).3 j ∙ λ i.
        if leb (a i) j && ltb j (a i + b i)
        then s.read_registers (16 + (j - a i))
        else memory_of w j in
      elim (Bool-cases (leb start j && ltb j (start + len))) [
        | inl p ↦ ground (arith, p, moved, inside (j - start) (ground (arith, p)))
        | inr p ↦ ground (arith, p, moved)
      ]

  -- The loop ends with the bytes in their places.
  pub record Copied (w : W) (start : ℕ) (bytes : List ℕ) (result : Option (Bool × Guest W))
      : Type 0 where
    pub guest : Guest W
    pub returns : result ≡ some (true, guest)
    pub ready : Ready guest.1
    pub places : (j : ℕ) → memory_of guest.1 j ≡ stored (memory_of w) start bytes j

  -- One round of the loop.
  copy_round :
      (execute : Guest W → Bool × Guest W) (n start finish : ℕ) (bytes : List ℕ) (r s : Registers)
      (w : W)
      → start ≢ finish
      → load_chunk start (chunk_length start finish) bytes r ≡ some s
      → (execute (s, w)).0 ≡ true
      → u16 (start + chunk_length start finish) ≡ start + chunk_length start finish
      → copy_out_chunks execute (suc n) start finish bytes (r, w)
        ≡ copy_out_chunks execute n
            (start + chunk_length start finish)
            finish
            (drop (chunk_length start finish) bytes)
            (execute (s, w)).1
  unfolding copy_out_chunks Option.bind
  copy_round execute n start finish bytes r s w d loads ok next =
      let len = chunk_length start finish in
      let g = (execute (s, w)).1 in
      let rest = λ (k : ℕ) (q : Guest W). copy_out_chunks execute n k finish (drop len bytes) q in
      let after = λ (o : Option Registers). Option.bind o λ r₁.
        let (b, q) = execute (r₁, w) in if b then rest (u16 (start + len)) q else some (false, q) in
      ap (λ (b : Bool). if b then some (true, (r, w)) else after (load_chunk start len bytes r))
        (ne→== start finish d)
      ∙ ap after loads
      ∙ ap (λ (b : Bool). if b then rest (u16 (start + len)) g else some (false, g)) ok
      ∙ ap (λ (k : ℕ). rest k g) next

  copy_more :
      (code : Cells) (execute : Guest W → Bool × Guest W) (n start finish len : ℕ) (bytes : List ℕ)
      (r s : Registers) (w : W)
      → CopiesOut code execute
      → Ready w
      → IsTold code s
      → len ≤ length bytes
      → read_word s 36 ≡ start
      → read_byte s 39 ≡ len
      → ((k : ℕ) → k < len → s.read_registers (16 + k) ≡ byte_at bytes k)
      → (result : Option (Bool × Guest W))
      → result ≡ copy_out_chunks execute n (start + len) finish (drop len bytes) (execute (s, w)).1
      → Copied
          (execute (s, w)).1.1
          (start + len)
          (drop len bytes)
          (copy_out_chunks execute n (start + len) finish (drop len bytes) (execute (s, w)).1)
      → Copied w start bytes result
  copy_more code execute n start finish len bytes r s w c y t h a b inside result e x = record {
    guest = x.guest;
    returns = e ∙ x.returns;
    ready = x.ready;
    places = λ j.
        x.places j
        ∙ stored_chunk (memory_of w) (memory_of (execute (s, w)).1.1) start len bytes h
            (execute_chunk code execute start len bytes s w c y t a b inside) j;
  }

  copy_out_chunks_lem :
      (code : Cells) (execute : Guest W → Bool × Guest W) (n start finish : ℕ) (bytes : List ℕ)
      (r : Registers) (w : W)
      → CopiesOut code execute
      → Ready w
      → IsLoaded code r
      → start + length bytes ≡ finish
      → finish ≤ 0xFE00
      → length bytes < n
      → Copied w start bytes (copy_out_chunks execute n start finish bytes (r, w))
  unfolding copy_out_chunks
  copy_out_chunks_lem code execute zero start finish bytes r w c y i e h l = absurd (omega arith)
  copy_out_chunks_lem code execute (suc n) start finish bytes r w c y i e h l =
      elim (Bool-cases (start == finish)) [
        | inl d ↦ record {
          guest = (r, w);
          returns =
              ap
                (λ (b : Bool).
                  if b
                  then some (true, (r, w))
                  else Option.bind (load_chunk start (chunk_length start finish) bytes r) λ r₁.
                    let (ok, g) = execute (r₁, w) in
                    if ok
                    then copy_out_chunks execute n (u16 (start + chunk_length start finish)) finish
                        (drop (chunk_length start finish) bytes) g
                    else some (false, g))
                d;
          ready = y;
          places = λ j. ground (arith, d, e);
        }
        | inr d ↦
            let len = chunk_length start finish in
            let size : len ≡ min 16 (finish - start) =
              chunk_length_lem start finish (omega (arith, e)) (omega (arith, h)) in
            let more : start ≢ finish = ground (arith, d) in
            let (s, loads, a, b, inside, kept) =
              load_chunk_lem start len bytes r (omega (arith, e, h)) (omega (arith, size))
                (omega (arith, size, e)) in
            let t : IsTold code s = record {
              loaded =
                  IsLoaded-kept code (set_chunk start len r) s (λ j m _ _ _. kept j m)
                    (set_chunk-IsLoaded code start len r i);
              some_bytes = omega (arith, b, size, e, more);
              one_chunk = omega (arith, b, size);
              below_devices = omega (arith, a, b, size, e, h);
            } in
            let g = (execute (s, w)).1 in
            copy_more code execute n start finish len bytes r s w c y t (omega (arith, size, e)) a b
              inside _
              (copy_round execute n start finish bytes r s w more loads (c s w y t).0
                (omega (arith, size, e, h)))
              (copy_out_chunks_lem code execute n (start + len) finish (drop len bytes) g.0 g.1 c
                (c s w y t).2 (c s w y t).1 (omega (arith, size, e, length-drop len bytes)) h
                (omega (arith, size, e, l, more, length-drop len bytes)))
      ]

  -- With a snippet of sixteen bytes of which a run does the following, from every ready state, where
  -- those bytes stand in the snippet's place, but for the three that it is told with, and RESET points
  -- to them, and it is told of one to sixteen bytes of the memory below $FE00: it copies the buffer as
  -- it is told to, ends in time, and leaves itself in its place and the state ready. Then copy() with
  -- this snippet, of a list of bytes to an address from which they end below $FE00, from a ready state
  -- and with whatever the registers hold, comes to an end within one round for each byte and one more,
  -- reports success, leaves exactly those bytes at the address and the rest of the guest's memory as
  -- it was, and leaves the state ready.
  pub copy_outwards_lem :
      (code : Cells) (execute : Guest W → Bool × Guest W) (address : ℕ) (bytes : List ℕ)
      (r : Registers) (w : W)
      → CopiesOut code execute
      → Ready w
      → address + length bytes ≤ 0xFE00
      → Copied w address bytes (copy_outwards code execute (length bytes) address bytes (r, w))
  unfolding copy_outwards Option.bind
  copy_outwards_lem code execute address bytes r w c y h =
      let (r₁, e, i) = snippet_copy-IsLoaded code r in
      let x =
        copy_out_chunks_lem code execute (suc (length bytes)) address (u16 (address + length bytes))
          bytes r₁ w c y i (omega (arith, h)) (omega (arith, h)) (omega arith) in
      record {
        guest = x.guest;
        returns =
            ap
              (λ (o : Option Registers). Option.bind o λ q.
                copy_out_chunks execute (suc (length bytes)) address (u16 (address + length bytes))
                  bytes (q, w))
              e
            ∙ x.returns;
        ready = x.ready;
        places = x.places;
      }
