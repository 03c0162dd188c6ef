-- ===== src/Registers/Laws.antt =====
-- What the register accessors promise.
use mathlib.Core.Option
use pico_thing_main.Base.{
  byte_at, ◌∙◌, Bool, true, ℕ, zero, suc, ◌+◌, ◌*◌, ◌%◌, ◌≤◌, ◌<◌, ◌≡◌, ◌≢◌, refl, ap, ◌⊎◌, List,
  [], ◌∷◌, none, some, arith, ltb, if◌then◌else◌, update, length, items, Cells,
}
use pico_thing_main.Registers.{
  Registers, register_length, index, read_byte, read_word, put_word, written_byte, clear_from,
  clear, copy_in, copy_cells, copy_out, copy_out_write,
}

-- A word that is stored at an index whose pair of bytes lies in the block is read back, its bytes
-- are in big-endian order, and every other byte of the block keeps its value.
pub read_word-put_word :
    (r : Registers) (i v : ℕ)
    → v < 65536
    → index i < 63
    → (read_word (put_word r i v) i ≡ v)
      × (read_byte (put_word r i v) i * 256 + read_byte (put_word r i v) (i + 1) ≡ v)
      × ((j : ℕ)
          → index j ≢ index i
          → index j ≢ index i + 1
          → read_byte (put_word r i v) j ≡ read_byte r j)
read_word-put_word r i v hv hi = (ground arith, ground arith, λ j p q. ground arith)

clear_from_lem :
    (n : ℕ) (r : Registers) (j : ℕ)
    → let s = clear_from n r in
      (s.read_registers j ≡ (if ltb j n then 0 else r.read_registers j))
      × (s.write_registers j ≡ (if ltb j n then 0 else r.write_registers j))
unfolding clear_from
clear_from_lem zero r j = ground arith
clear_from_lem (suc n) r j = ground (
  arith,
  clear_from_lem n
      (record r {
        read_registers = update r.read_registers n 0;
        write_registers = update r.write_registers n 0;
      })
      j,
)

-- After `clear` every byte of both blocks is zero, and nothing behind the blocks has changed.
pub clear_lem :
    (r : Registers) (i j : ℕ)
    → register_length ≤ j
    → (read_byte (clear r) i ≡ 0)
      × (written_byte (clear r) i ≡ 0)
      × ((clear r).read_registers j ≡ r.read_registers j)
unfolding clear
clear_lem r i j h = ground (arith, clear_from_lem 64 r (i % 64), clear_from_lem 64 r j)

-- `copy_in` without its fault.
abbrev fill : Cells → ℕ → List ℕ → Cells
fill c addr [] = c
fill c addr (x ∷ xs) = fill (update c addr x) (addr + 1) xs

copy_cells_lem :
    (c : Cells) (addr n : ℕ) → addr + n ≤ 64 → copy_cells c addr n ≡ some (items c addr n)
unfolding copy_cells
copy_cells_lem c addr zero h = refl
copy_cells_lem c addr (suc n) h = ground (arith, copy_cells_lem c (addr + 1) n)

copy_in-fill :
    (r : Registers) (addr : ℕ) (xs : List ℕ)
    → addr + length xs ≤ 64
    → copy_in r addr xs ≡ some (record r { read_registers = fill r.read_registers addr xs })
unfolding copy_in
copy_in-fill r addr [] h = refl
copy_in-fill r addr (x ∷ xs) h = ground (
  arith,
  copy_in-fill (record r { read_registers = update r.read_registers addr x }) (addr + 1) xs,
)

fill_outside :
    (c : Cells) (addr : ℕ) (xs : List ℕ) (j : ℕ)
    → (j < addr) ⊎ (addr + length xs ≤ j)
    → fill c addr xs j ≡ c j
fill_outside c addr [] j h = refl
fill_outside c addr (x ∷ xs) j h = ground (arith, fill_outside (update c addr x) (addr + 1) xs j)

items-fill : (c : Cells) (addr : ℕ) (xs : List ℕ) → items (fill c addr xs) addr (length xs) ≡ xs
items-fill c addr [] = refl
items-fill c addr (x ∷ xs) = ground (
  arith,
  items-fill (update c addr x) (addr + 1) xs,
  fill_outside (update c addr x) (addr + 1) xs addr,
)

-- Bytes that `copy_in` stores inside the block are what `copy_out` then loads from there, in order;
-- the cells outside that range, and the whole write block, keep their values.
pub copy_out-copy_in :
    (r : Registers) (addr : ℕ) (xs : List ℕ)
    → addr + length xs ≤ register_length
    → (s : Registers) × (copy_in r addr xs ≡ some s)
      × (copy_out s addr (length xs) ≡ some xs)
      × ((j : ℕ) → (j < addr) ⊎ (addr + length xs ≤ j) → s.read_registers j ≡ r.read_registers j)
      × ((j : ℕ) → s.write_registers j ≡ r.write_registers j)
unfolding copy_out
copy_out-copy_in r addr xs h = (
  record r { read_registers = fill r.read_registers addr xs },
  copy_in-fill r addr xs h,
  rw (copy_cells_lem (fill r.read_registers addr xs) addr (length xs) h)
      (ap some (items-fill r.read_registers addr xs)),
  λ j o. fill_outside r.read_registers addr xs j o,
  λ j. refl,
)

copy_in_fault_lem :
    (r : Registers) (addr : ℕ) (x : ℕ) (xs : List ℕ)
    → register_length < addr + length (x ∷ xs)
    → copy_in r addr (x ∷ xs) ≡ none
unfolding copy_in
copy_in_fault_lem r addr x [] h = ground arith
copy_in_fault_lem r addr x (y ∷ xs) h = ground (
  arith,
  copy_in_fault_lem (record r { read_registers = update r.read_registers addr x }) (addr + 1) y xs,
)

copy_out_fault :
    (c : Cells) (addr n : ℕ) → register_length < addr + suc n → copy_cells c addr (suc n) ≡ none
unfolding copy_cells
copy_out_fault c addr zero h = ground arith
copy_out_fault c addr (suc n) h = ground (arith, copy_out_fault c (addr + 1) n)

-- A copy of at least one byte that reaches over the end of the block goes outside the array,
-- whether it stores or loads.
pub copy_fault :
    (r : Registers) (addr : ℕ) (x : ℕ) (xs : List ℕ)
    → register_length < addr + length (x ∷ xs)
    → (copy_in r addr (x ∷ xs) ≡ none)
      × (copy_out r addr (length (x ∷ xs)) ≡ none)
      × (copy_out_write r addr (length (x ∷ xs)) ≡ none)
unfolding copy_out copy_out_write
copy_fault r addr x xs h = (
  copy_in_fault_lem r addr x xs h,
  copy_out_fault r.read_registers addr (length xs) h,
  copy_out_fault r.write_registers addr (length xs) h,
)

copy_cells_cong :
    (c d : Cells) (addr n : ℕ)
    → ((j : ℕ) → addr ≤ j → c j ≡ d j)
    → copy_cells c addr n ≡ copy_cells d addr n
unfolding copy_cells
copy_cells_cong c d addr zero h = refl
copy_cells_cong c d addr (suc n) h =
    let rest = copy_cells_cong c d (addr + 1) n λ j l. h j (omega arith) in
    λ i.
      if ltb addr register_length then Option.map (◌∷◌ (h addr (omega arith) i)) (rest i) else none

-- What `copy_out` loads depends on the bytes from its address on.
pub copy_out_cong :
    (r s : Registers) (addr n : ℕ)
    → ((j : ℕ) → addr ≤ j → r.read_registers j ≡ s.read_registers j)
    → copy_out r addr n ≡ copy_out s addr n
unfolding copy_out
copy_out_cong r s addr n h = copy_cells_cong r.read_registers s.read_registers addr n h

fill-byte_at :
    (c : Cells) (addr : ℕ) (xs : List ℕ) (k : ℕ)
    → k < length xs
    → fill c addr xs (addr + k) ≡ byte_at xs k
fill-byte_at c addr [] k h = absurd (omega arith)
fill-byte_at c addr (x ∷ xs) zero h =
    ground (arith, fill_outside (update c addr x) (addr + 1) xs (addr + 0))
fill-byte_at c addr (x ∷ xs) (suc k) h =
    let moved : addr + suc k ≡ addr + 1 + k = omega arith in
    ap (fill (update c addr x) (addr + 1) xs) moved
    ∙ fill-byte_at (update c addr x) (addr + 1) xs k (omega arith)

-- `copy_in`, byte by byte.
pub copy_in-byte_at :
    (r : Registers) (addr : ℕ) (xs : List ℕ)
    → addr + length xs ≤ register_length
    → (s : Registers) × (copy_in r addr xs ≡ some s)
      × ((k : ℕ) → k < length xs → s.read_registers (addr + k) ≡ byte_at xs k)
      × ((j : ℕ) → (j < addr) ⊎ (addr + length xs ≤ j) → s.read_registers j ≡ r.read_registers j)
copy_in-byte_at r addr xs h = (
  record r { read_registers = fill r.read_registers addr xs },
  copy_in-fill r addr xs h,
  fill-byte_at r.read_registers addr xs,
  λ j o. fill_outside r.read_registers addr xs j o,
)

-- A load inside the block.
pub copy_out-items :
    (r : Registers) (addr n : ℕ)
    → addr + n ≤ 64
    → copy_out r addr n ≡ some (items r.read_registers addr n)
unfolding copy_out copy_cells
copy_out-items r addr zero h = refl
copy_out-items r addr (suc n) h =
    let inside : ltb addr 64 ≡ true = ground (arith, h) in
    ap
      (λ (b : Bool).
        if b then Option.map (◌∷◌ (r.read_registers addr)) (copy_out r (addr + 1) n) else none)
      inside
    ∙ ap (Option.map (◌∷◌ (r.read_registers addr)))
        (copy_out-items r (addr + 1) n (omega (arith, h)))
