-- ===== src/Console/Memory/Shown.antt =====
-- What EXAMINE shows.
use mathlib.Core.Option
use pico_thing_main.Base.{
  ℕ, zero, suc, ◌+◌, ◌-◌, ◌*◌, ◌/◌, ◌≤◌, ◌<◌, ◌≡◌, refl, sym, ap, ap₂, ◌∙◌, Bool, true, false, not,
  ◌&&◌, if_elim, List, [], ◌∷◌, ◌++◌, append_assoc, append-nil, Option, none, some, leb, ltb,
  if◌then◌else◌, Cells, items, items_cong, byte_at, u16, arith,
}
use pico_thing_main.Registers.{Registers}
use pico_thing_main.Mc6809.{rs_reset, assert_stopped, assert_powered}
use pico_thing_main.Core1.{registers_of}
use pico_thing_main.Copy.{Guest}
use pico_thing_main.Copy.Loaded.{byte_at-items}
use pico_thing_main.Copy.Inwards.{CopiesIn, copy_inwards_lem}
use pico_thing_main.Console.{Board, Env, is_held, run_copy, board_of, copy_in}
use pico_thing_main.Console.Memory.{Row, row, display_start, display_end, examine_rows, examine}

-- A row of memory at an address that is a multiple of sixteen: the bytes in the range, and blanks
-- for the others.
abbrev pub shown : ℕ → ℕ → Cells → ℕ → Row
shown first last memory loc = (
  loc,
  items (λ i. if leb first (loc + i) && ltb (loc + i) last then some (memory (loc + i)) else none) 0
      16,
)

abbrev pub shown_rows : ℕ → ℕ → Cells → ℕ → ℕ → List Row
shown_rows first last memory loc zero = []
shown_rows first last memory loc (suc n) =
    shown first last memory loc ∷ shown_rows first last memory (loc + 16) n

row-items :
    (first last : ℕ) (memory : Cells) (loc : ℕ)
    → row first last loc (items memory loc 16) ≡ shown first last memory loc
row-items first last memory loc =
    ap (λ (xs : List (Option ℕ)). (loc, xs))
      (items_cong (cell (λ i. byte_at (items memory loc 16) i)) (cell (λ i. memory (loc + i))) 0 0
        16
        λ j h.
          ap
            (λ (v : ℕ).
              if leb first (loc + (0 + j)) && ltb (loc + (0 + j)) last then some v else none)
            (byte_at-items memory loc 16 (0 + j) (omega (arith, h))))
  where
    cell : (ℕ → ℕ) → ℕ → Option ℕ
    cell f i = if leb first (loc + i) && ltb (loc + i) last then some (f i) else none

abbrev memory_of : Board → Cells
memory_of b = b.memory

is_held_lem : (b : Board) → b.core1.mc6809.run_state ≡ rs_reset → is_held b ≡ true
unfolding assert_stopped assert_powered
is_held_lem b e = ground (arith, e)

display_end_lem : (last : ℕ) → 0 < last → last ≤ 0xFFF0 → display_end last ≡ (last + 15) / 16 * 16
unfolding display_end
display_end_lem last h l = omega (arith, h, l)

-- A board on which the 6809 is held, whatever its registers, and on which the copying snippet works.
module _ (env : Env) (Ready : Board → Type 0)
    (held : (b : Board) → Ready b → b.core1.mc6809.run_state ≡ rs_reset)
    (any_registers : (r : Registers) (b : Board) → Ready b → Ready (board_of (r, b)))
    (c : CopiesIn memory_of Ready env.copy_in_code (run_copy env)) where
  -- The command ends without a fault, and leaves the memory and the board as it should.
  pub record Examined (b : Board) (rows : List Row) (result : Option (List Row × Board))
      : Type 0 where
    pub board : Board
    pub returns : result ≡ some (rows, board)
    pub ready : Ready board
    pub memory_kept : board.memory ≡ b.memory

  record Read (b : Board) (loc : ℕ) : Type 0 where
    board : Board
    returns : copy_in env 16 loc b ≡ some (true, (items b.memory loc 16, board))
    ready : Ready board
    memory_kept : board.memory ≡ b.memory

  copy_in-Read : (loc : ℕ) (b : Board) → Ready b → loc + 16 ≤ 0xFE00 → Read b loc
  unfolding copy_in
  copy_in-Read loc b y h =
      let x =
        copy_inwards_lem memory_of Ready env.copy_in_code (run_copy env) 16 loc
          (registers_of b.core1) b c y h in
      record {
        board = board_of x.guest;
        returns =
            ap (Option.map (λ (z : Bool × (List ℕ × Guest Board)). (z.0, (z.1.0, board_of z.1.1))))
              x.returns;
        ready = any_registers x.guest.0 x.guest.1 x.ready;
        memory_kept = x.memory_kept;
      }

  examine_rows-Examined :
      (fuel first last loc n : ℕ) (rows : List Row) (b : Board)
      → Ready b
      → display_end last ≤ 0xFE00
      → loc + 16 * n ≡ display_end last
      → n < fuel
      → Examined b
          (rows ++ shown_rows first last b.memory loc n)
          (examine_rows env fuel first last loc rows b)
  unfolding examine_rows Option.bind
  examine_rows-Examined zero first last loc n rows b y d e l = absurd (omega (arith, l))
  examine_rows-Examined (suc fuel) first last loc zero rows b y d e l = record {
    board = b;
    returns =
        if_elim (λ (x : Option (List Row × Board)). x ≡ some (rows, b))
          (not (ltb loc (display_end last))) (λ _. refl) (λ g. absurd (ground (arith, g, e)))
        ∙ ap (λ xs. some (xs, b)) (sym (append-nil rows));
    ready = y;
    memory_kept = refl;
  }
  examine_rows-Examined (suc fuel) first last loc (suc n) rows b y d e l =
      let k = copy_in-Read loc b y (omega (arith, d, e)) in
      let below : ltb loc (display_end last) ≡ true = ground (arith, e) in
      let next : u16 (loc + 16) ≡ loc + 16 = omega (arith, d, e) in
      let one = shown first last b.memory loc in
      let after = λ (x : Bool × (List ℕ × Board)). elim x.0 as (λ _. Option (List Row × Board)) [
        | false ↦ some (rows, x.1.1)
        | true ↦
            examine_rows env fuel first last (u16 (loc + 16))
              (rows ++ row first last loc x.1.0 ∷ []) x.1.1
      ] in
      let x =
        examine_rows-Examined fuel first last (loc + 16) n (rows ++ one ∷ []) k.board k.ready d
          (omega (arith, e)) (omega (arith, l)) in
      record {
        board = x.board;
        returns =
            ap
              (λ (p : Bool).
                if not p then some (rows, b) else Option.bind (copy_in env 16 loc b) after)
              below
            ∙ ap (λ (o : Option (Bool × (List ℕ × Board))). Option.bind o after) k.returns
            ∙ ap₂ (λ (i : ℕ) (w : Row). examine_rows env fuel first last i (rows ++ w ∷ []) k.board)
                next (row-items first last b.memory loc)
            ∙ x.returns
            ∙ ap (λ xs. some (xs, x.board))
                (append_assoc rows (one ∷ []) (shown_rows first last k.board.memory (loc + 16) n)
                  ∙ ap (λ m. rows ++ one ∷ shown_rows first last m (loc + 16) n) k.memory_kept);
        ready = x.ready;
        memory_kept = x.memory_kept ∙ k.memory_kept;
      }

  -- EXAMINE on a ready board, with a range that is not empty and ends at $FE00 at most. The snippet
  -- COPY_IN, where its bytes stand in the snippet's place, but for the three that it is told with, RESET
  -- points to them, and it is told of one to sixteen bytes below $FE00, copies them to the buffer from
  -- every ready board, in time, and leaves itself in its place, the board ready and its memory alone; a
  -- ready board is held in reset, and stays ready with other registers. Then the command ends without
  -- a fault after at most 4096 rows. It shows the rows of sixteen bytes from the one with the first
  -- address to the one with the last, each with exactly the bytes of the guest's memory that lie in
  -- the range, and blanks for the others; the memory is as it was.
  pub examine-Examined :
      (first last : ℕ) (b : Board)
      → Ready b
      → first < last
      → last ≤ 0xFE00
      → Examined b
          (shown_rows first last b.memory (first / 16 * 16) ((last + 15) / 16 - first / 16))
          (examine env first last b)
  unfolding examine
  examine-Examined first last b y h l =
      let n = (last + 15) / 16 - first / 16 in
      let e = display_end_lem last (omega (arith, h)) (omega (arith, l)) in
      let x =
        examine_rows-Examined 4097 first last (first / 16 * 16) n [] b y (omega (arith, e, l))
          (omega (arith, e, h)) (omega (arith, l)) in
      record {
        board = x.board;
        returns =
            ap
              (λ (p : Bool).
                if not p
                then some ([], b)
                else examine_rows env 4097 first last (display_start first) [] b)
              (is_held_lem b (held b y))
            ∙ x.returns;
        ready = x.ready;
        memory_kept = x.memory_kept;
      }
