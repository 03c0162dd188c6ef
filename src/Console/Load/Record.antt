-- ===== src/Console/Load/Record.antt =====
-- One S-record that the console reads.
use mathlib.Core.Option
use pico_thing_main.Base.{
  ℕ, ◌+◌, ◌-◌, ◌≤◌, ◌<◌, ◌≡◌, refl, ap, ◌∙◌, Bool, true, false, not, List, [], Option, none, some,
  ltb, leb, eq→==, arith, if◌then◌else◌, Cells, length, u16,
}
use pico_thing_main.Mc6809.{rs_reset, assert_powered, is_reset}
use pico_thing_main.Srec.{Fields, process_srecord}
use pico_thing_main.Srec.Record.{
  AllBytes, record_text, expected_checksum, process_srecord-record_text,
}
use pico_thing_main.Copy.{Guest}
use pico_thing_main.Copy.Outwards.{CopiesOut, copy_outwards_lem, stored}
use pico_thing_main.Core1.{registers_of}
use pico_thing_main.Console.{Board, Env, is_powered, run_copy, board_of, copy_out}
use pico_thing_main.Console.Setup.{Placement, mc6809-Placement}
use pico_thing_main.Console.Load.{load_s1, load_record, srecord}
use pico_thing_main.Console.Memory.{put_bytes}
use pico_thing_main.Console.Run.{set_reset_vector}

-- The 6809 is held in reset, records are not ignored, and the devices answer where they should.
pub record Ready (b : Board) : Type 0 where
  pub held : b.core1.mc6809.run_state ≡ rs_reset
  pub heeded : b.srecord_ignore ≡ false
  pub placed : Placement b.core1

abbrev pub memory_of : Board → Cells
memory_of b = b.memory

-- A record with its right checksum.
abbrev pub line_of : ℕ → ℕ → List ℕ → List ℕ
line_of kind addr xs = record_text kind addr xs (expected_checksum addr xs)

abbrev pub fields_of : ℕ → List ℕ → Fields
fields_of addr xs = record {
  count = length xs + 3;
  address = addr;
  bytes = xs;
  checksum = expected_checksum addr xs;
}

pub powered : (b : Board) → b.core1.mc6809.run_state ≡ rs_reset → is_powered b ≡ true
unfolding assert_powered
powered b e = ground (arith, e)

-- A record of which nothing is wrong is read.
pub srecord-line_of :
    (env : Env) (kind addr : ℕ) (xs : List ℕ) (b : Board)
    → is_powered b ≡ true
    → addr < 65536
    → length xs ≤ 252
    → AllBytes xs
    → srecord env (line_of kind addr xs) b ≡ load_record env kind (fields_of addr xs) b
unfolding srecord
srecord-line_of env kind addr xs b e ha hl hx =
    let c = expected_checksum addr xs in
    let after = λ (o : Option (Fields × Bool)). elim o as (λ _. Option Board) [
      | none ↦ some b
      | some (f, ok) ↦ if not ok then some b else load_record env kind f b
    ] in
    ap (λ (p : Bool). if not p then some b else after (process_srecord (line_of kind addr xs))) e
    ∙ ap after (process_srecord-record_text kind addr xs c ha hl hx (omega arith))
    ∙ ap (λ (q : Bool). if not q then some b else load_record env kind (fields_of addr xs) b)
        (eq→== c c refl)

-- What a copy leaves on the board.
pub record Placed (b : Board) (addr : ℕ) (xs : List ℕ) (result : Option (Bool × Board))
    : Type 0 where
  pub board : Board
  pub returns : result ≡ some (true, board)
  pub ready : Ready board
  pub places : (j : ℕ) → board.memory j ≡ stored b.memory addr xs j

copy_out_lem :
    (env : Env) (addr : ℕ) (xs : List ℕ) (b : Board)
    → CopiesOut memory_of Ready env.copy_out_code (run_copy env)
    → Ready b
    → addr + length xs ≤ 0xFE00
    → Placed b addr xs (copy_out env (length xs) addr xs b)
unfolding copy_out
copy_out_lem env addr xs b c y h =
    let k =
      copy_outwards_lem memory_of Ready env.copy_out_code (run_copy env) addr xs
        (registers_of b.core1) b c y h in
    record {
      board = board_of k.guest;
      returns = ap (Option.map (λ (x : Bool × Guest Board). (x.0, board_of x.1))) k.returns;
      ready = record {
        held = k.ready.held;
        heeded = k.ready.heeded;
        placed = mc6809-Placement k.guest.1.core1 _ k.ready.placed;
      };
      places = k.places;
    }

-- The part of a record's bytes that the text gives, in the arithmetic of the source.
count_lem : (n : ℕ) → n ≤ 252 → u16 (n + 3 + 65536 - 3) ≡ n
count_lem n h = omega (arith, h)

-- What a line leaves on the board.
pub record Step (b : Board) (addr : ℕ) (xs : List ℕ) (result : Option Board) : Type 0 where
  pub board : Board
  pub returns : result ≡ some board
  pub ready : Ready board
  pub places : (j : ℕ) → board.memory j ≡ stored b.memory addr xs j

abbrev pub give_up : Bool × Board → Board
give_up x = if not x.0 then record x.1 { srecord_ignore = true } else x.1

load_s1-Step :
    (env : Env) (addr : ℕ) (xs : List ℕ) (b : Board)
    → CopiesOut memory_of Ready env.copy_out_code (run_copy env)
    → Ready b
    → length xs ≤ 252
    → addr + (length xs + 3) < 0xFE00
    → Step b addr xs (load_s1 env (fields_of addr xs) b)
unfolding load_s1
load_s1-Step env addr xs b c y h l =
    let k = copy_out_lem env addr xs b c y (omega (arith, l)) in
    let inside : ltb (addr + (length xs + 3)) 0xFE00 ≡ true = ground (arith, l) in
    let stopped : is_reset b.core1.mc6809.run_state ≡ true = ap is_reset y.held in
    let copied = λ (n : ℕ). Option.map give_up (copy_out env n addr xs b) in
    let n = u16 (length xs + 3 + 65536 - 3) in
    record {
      board = k.board;
      returns =
          ap
            (λ (p : Bool).
              if p
              then (if not (is_reset b.core1.mc6809.run_state)
                  then some (record b { srecord_ignore = true })
                  else copied n)
              else if leb 0xFFF0 addr
              then some (put_bytes addr xs b)
              else some b)
            inside
          ∙ ap (λ (p : Bool). if not p then some (record b { srecord_ignore = true }) else copied n)
              stopped
          ∙ ap copied (count_lem (length xs) h)
          ∙ ap (Option.map give_up) k.returns;
      ready = k.ready;
      places = k.places;
    }

pub srecord-Step :
    (env : Env) (addr : ℕ) (xs : List ℕ) (b : Board)
    → CopiesOut memory_of Ready env.copy_out_code (run_copy env)
    → Ready b
    → length xs ≤ 252
    → AllBytes xs
    → addr + (length xs + 3) < 0xFE00
    → Step b addr xs (srecord env (line_of b'1' addr xs) b)
unfolding load_record
srecord-Step env addr xs b c y h hx l =
    let k = load_s1-Step env addr xs b c y h l in
    record {
      board = k.board;
      returns =
          srecord-line_of env b'1' addr xs b (powered b y.held) (omega (arith, l)) h hx
          ∙ ap (λ (p : Bool). if p then some b else load_s1 env (fields_of addr xs) b) y.heeded
          ∙ k.returns;
      ready = k.ready;
      places = k.places;
    }

pub last_line :
    (env : Env) (entry : ℕ) (b : Board)
    → is_powered b ≡ true
    → entry < 65536
    → srecord env (line_of b'9' entry []) b
      ≡ some (set_reset_vector entry (record b { srecord_ignore = false }))
unfolding load_record
last_line env entry b e h = srecord-line_of env b'9' entry [] b e h (omega arith) tt

pub first_line :
    (env : Env) (b : Board)
    → is_powered b ≡ true
    → srecord env (line_of b'0' 0 []) b ≡ some (record b { srecord_ignore = false })
unfolding load_record
first_line env b e = srecord-line_of env b'0' 0 [] b e (omega arith) (omega arith) tt
