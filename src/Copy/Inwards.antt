-- ===== src/Copy/Inwards.antt =====
-- A copy inwards reads the bytes at an address.
use mathlib.Core.Option
use Prim.Native.Nat.{min}
use pico_thing_main.Base.{
  ne→==, ℕ, zero, suc, ◌+◌, ◌-◌, ◌≤◌, ◌<◌, ◌≡◌, ◌≢◌, refl, sym, ap, ◌∙◌, Bool, true, false, List,
  [], ◌++◌, append_assoc, append-nil, Option, some, ◌==◌, if◌then◌else◌, Cells, u16, arith, if_elim,
  items, items-split, items_cong,
}
use pico_thing_main.Copy.Loaded.{IsLoaded, IsTold, set_chunk-IsLoaded, snippet_copy-IsLoaded}
use pico_thing_main.Registers.{Registers, read_byte, read_word, copy_out}
use pico_thing_main.Registers.Laws.{copy_out-items}
use pico_thing_main.Copy.{Guest, chunk_length, set_chunk, copy_in_chunks, copy_inwards}

chunk_length_lem :
    (start n finish : ℕ)
    → start + suc n ≡ finish
    → finish < 65536
    → chunk_length start finish ≡ min 16 (suc n)
chunk_length_lem start n finish e h = omega (arith, e, h)

joined :
    (bytes : List ℕ) (m m' : Cells) (start len rest n : ℕ)
    → m' ≡ m
    → len + rest ≡ n
    → (bytes ++ items m start len) ++ items m' (start + len) rest ≡ bytes ++ items m start n
joined bytes m m' start len rest n e f =
    append_assoc bytes (items m start len) (items m' (start + len) rest)
    ∙ ap (◌++◌ bytes) (
        ap (λ (c : Cells). items m start len ++ items c (start + len) rest) e
        ∙ sym (items-split m start len rest)
        ∙ ap (items m start) f)

-- A copier, in a state of which `memory_of` is the guest's memory, while the state is ready.
module _ {W : Type 0} (memory_of : W → Cells) (Ready : W → Type 0) where
  -- What this snippet does where it stands in its place and RESET points to it, told to copy one to
  -- sixteen bytes of the memory below the devices: it copies from the address in its fifth and sixth
  -- bytes to the buffer, as many bytes as its eighth says, in time; it stays in its place, leaves the
  -- memory alone, and the state is ready for it again.
  abbrev pub CopiesIn : Cells → (Guest W → Bool × Guest W) → Type 0
  CopiesIn code execute =
      (r : Registers) (w : W)
      → Ready w
      → IsTold code r
      → ((execute (r, w)).0 ≡ true)
        × IsLoaded code (execute (r, w)).1.0
        × Ready (execute (r, w)).1.1
        × (memory_of (execute (r, w)).1.1 ≡ memory_of w)
        × ((k : ℕ)
            → k < read_byte r 39
            → (execute (r, w)).1.0.read_registers (16 + k) ≡ memory_of w (read_word r 36 + k))

  -- The loop ends with the bytes behind those that it has stored before.
  pub record Fetched (w : W) (start n : ℕ) (bytes : List ℕ)
      (result : Option (Bool × (List ℕ × Guest W))) : Type 0 where
    pub guest : Guest W
    pub returns : result ≡ some (true, (bytes ++ items (memory_of w) start n, guest))
    pub ready : Ready guest.1
    pub memory_kept : memory_of guest.1 ≡ memory_of w

  set_chunk_lem :
      (start len : ℕ) (r : Registers)
      → start < 65536
      → len ≤ 16
      → (read_word (set_chunk start len r) 36 ≡ start)
        × (read_byte (set_chunk start len r) 39 ≡ len)
  set_chunk_lem start len r h l = (ground arith, ground arith)

  told :
      (code : Cells) (start len : ℕ) (r : Registers)
      → IsLoaded code r
      → 0 < len
      → len ≤ 16
      → start + len ≤ 0xFE00
      → IsTold code (set_chunk start len r)
  told code start len r i l m h =
      let (a, b) = set_chunk_lem start len r (omega (arith, h)) m in
      record {
        loaded = set_chunk-IsLoaded code start len r i;
        some_bytes = omega (arith, b, l);
        one_chunk = omega (arith, b, m);
        below_devices = omega (arith, a, b, h);
      }

  chunk_items :
      (code : Cells) (execute : Guest W → Bool × Guest W) (start len : ℕ) (r : Registers) (w : W)
      → CopiesIn code execute
      → Ready w
      → IsTold code (set_chunk start len r)
      → start < 65536
      → len ≤ 16
      → copy_out (execute (set_chunk start len r, w)).1.0 16 len
        ≡ some (items (memory_of w) start len)
  chunk_items code execute start len r w c y t h l =
      let s = set_chunk start len r in
      let (a, b) = set_chunk_lem start len r h l in
      let (_, _, _, _, cells) = c s w y t in
      copy_out-items (execute (s, w)).1.0 16 len (omega (arith, l))
      ∙ ap some (
          items_cong (execute (s, w)).1.0.read_registers (memory_of w) 16 start len
            λ k m. cells k (omega (arith, b, m)) ∙ ap (λ (x : ℕ). memory_of w (x + k)) a)

  fetch_round :
      (code : Cells) (execute : Guest W → Bool × Guest W) (fuel start finish len : ℕ)
      (bytes : List ℕ) (r : Registers) (w : W)
      → CopiesIn code execute
      → Ready w
      → IsTold code (set_chunk start len r)
      → start < 65536
      → len ≤ 16
      → start ≢ finish
      → chunk_length start finish ≡ len
      → u16 (start + len) ≡ start + len
      → copy_in_chunks execute (suc fuel) start finish bytes (r, w)
        ≡ copy_in_chunks execute fuel
            (start + len)
            finish
            (bytes ++ items (memory_of w) start len)
            (execute (set_chunk start len r, w)).1
  unfolding copy_in_chunks Option.bind
  fetch_round code execute fuel start finish len bytes r w c y t h l d size next =
      let g = (execute (set_chunk start len r, w)).1 in
      let round = λ (n : ℕ).
        let (ok, q) = execute (set_chunk start n r, w) in
        if ok
        then Option.bind (copy_out q.0 16 n)
            (λ chunk. copy_in_chunks execute fuel (u16 (start + n)) finish (bytes ++ chunk) q)
        else some (false, (bytes, q)) in
      let rest =
        λ (k : ℕ) (chunk : List ℕ). copy_in_chunks execute fuel k finish (bytes ++ chunk) g in
      let fetched = Option.bind (copy_out g.0 16 len) (rest (u16 (start + len))) in
      ap
        (λ (b : Bool).
          if b then some (true, (bytes, (r, w))) else round (chunk_length start finish))
        (ne→== start finish d)
      ∙ ap round size
      ∙ ap (λ (b : Bool). if b then fetched else some (false, (bytes, g)))
          (c (set_chunk start len r) w y t).0
      ∙ ap (λ (o : Option (List ℕ)). Option.bind o (rest (u16 (start + len))))
          (chunk_items code execute start len r w c y t h l)
      ∙ ap (λ (k : ℕ). rest k (items (memory_of w) start len)) next

  copy_in_chunks_lem :
      (code : Cells) (execute : Guest W → Bool × Guest W) (fuel start n finish : ℕ) (bytes : List ℕ)
      (r : Registers) (w : W)
      → CopiesIn code execute
      → Ready w
      → IsLoaded code r
      → start + n ≡ finish
      → finish ≤ 0xFE00
      → n < fuel
      → Fetched w start n bytes (copy_in_chunks execute fuel start finish bytes (r, w))
  unfolding copy_in_chunks
  copy_in_chunks_lem code execute zero start n finish bytes r w c y i e h l =
      absurd (omega (arith, l))
  copy_in_chunks_lem code execute (suc fuel) start zero finish bytes r w c y i e h l = record {
    guest = (r, w);
    returns =
        if_elim (λ (x : Option (Bool × (List ℕ × Guest W))). x ≡ some (true, (bytes, (r, w))))
          (start == finish) (λ _. refl) (λ f. absurd (ground (arith, f, e)))
        ∙ ap (λ xs. some (true, (xs, (r, w)))) (sym (append-nil bytes));
    ready = y;
    memory_kept = refl;
  }
  copy_in_chunks_lem code execute (suc fuel) start (suc n) finish bytes r w c y i e h l =
      let len = min 16 (suc n) in
      let rest = suc n - len in
      let g = (execute (set_chunk start len r, w)).1 in
      let t = told code start len r i (omega arith) (omega arith) (omega (arith, e, h)) in
      let (_, i₁, y₁, kept, _) = c (set_chunk start len r) w y t in
      let m = memory_of w in
      let x =
        copy_in_chunks_lem code execute fuel (start + len) rest finish (bytes ++ items m start len)
          g.0 g.1 c y₁ i₁ (omega (arith, e)) h (omega (arith, l)) in
      record {
        guest = x.guest;
        returns =
            fetch_round code execute fuel start finish len bytes r w c y t (omega (arith, e, h))
              (omega arith) (λ f. absurd (omega (arith, f, e)))
              (chunk_length_lem start n finish e (omega (arith, h))) (omega (arith, e, h))
            ∙ x.returns
            ∙ ap (λ xs. some (true, (xs, x.guest)))
                (joined bytes m (memory_of g.1) start len rest (suc n) kept (omega arith));
        ready = x.ready;
        memory_kept = x.memory_kept ∙ kept;
      }

  -- With a snippet that, where it stands in its place and is told of one to sixteen bytes below $FE00,
  -- copies them to the buffer in time, stays in its place, and leaves the memory and the readiness of
  -- the state alone: a copy inwards with that snippet, from a ready state, of bytes that end below
  -- $FE00 comes to an end within one round for each byte and one more, reports success, and gives
  -- exactly the bytes that stand at the address.
  pub copy_inwards_lem :
      (code : Cells) (execute : Guest W → Bool × Guest W) (count address : ℕ) (r : Registers)
      (w : W)
      → CopiesIn code execute
      → Ready w
      → address + count ≤ 0xFE00
      → Fetched w address count [] (copy_inwards code execute count address (r, w))
  unfolding copy_inwards Option.bind
  copy_inwards_lem code execute count address r w c y h =
      let (r₁, e, i) = snippet_copy-IsLoaded code r in
      let x =
        copy_in_chunks_lem code execute (suc count) address count (u16 (address + count)) [] r₁ w c
          y i (omega (arith, h)) (omega (arith, h)) (omega arith) in
      record {
        guest = x.guest;
        returns =
            ap
              (λ (o : Option Registers).
                Option.bind o
                  λ q. copy_in_chunks execute (suc count) address (u16 (address + count)) [] (q, w))
              e
            ∙ x.returns;
        ready = x.ready;
        memory_kept = x.memory_kept;
      }
