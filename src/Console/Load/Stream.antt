-- ===== src/Console/Load/Stream.antt =====
-- A program that is sent as S-records is loaded.
use mathlib.Core.Option
use pico_thing_main.Base.{
  ℕ, ◌+◌, ◌≤◌, ◌<◌, ◌≡◌, refl, ap, ◌∙◌, false, List, [], ◌∷◌, Option, some, arith, Cells, length,
}
use pico_thing_main.Registers.{Registers, read_word, put_word}
use pico_thing_main.Mc6809.{rs_reset}
use pico_thing_main.Srec.Record.{AllBytes}
use pico_thing_main.Copy.Outwards.{CopiesOut, stored}
use pico_thing_main.Core1.{registers_of, reset_vector_offset}
use pico_thing_main.Console.{Board, Env, run_copy}
use pico_thing_main.Console.Setup.{Placement, mc6809-Placement}
use pico_thing_main.Console.Load.{srecord}
use pico_thing_main.Console.Run.{set_reset_vector}
use pico_thing_main.Console.Load.Record.{
  Ready, memory_of, powered, line_of, srecord-Step, first_line, last_line,
}

-- The lines that are entered one after another.
abbrev pub load_lines : Env → List (List ℕ) → Board → Option Board
load_lines env [] b = some b
load_lines env (line ∷ lines) b = Option.bind (srecord env line b) (load_lines env lines)

-- Bytes and their address.
abbrev pub Segment : Type 0
Segment = ℕ × List ℕ

abbrev pub Loadable : Segment → Type 0
Loadable (addr, xs) = (length xs ≤ 252) × AllBytes xs × (addr + (length xs + 3) < 0xFE00)

abbrev pub AllLoadable : List Segment → Type 0
AllLoadable [] = Unit {0}
AllLoadable (s ∷ ss) = Loadable s × AllLoadable ss

-- An S1 record for each segment, and then an S9 record with the address at which the program starts.
abbrev pub body : List Segment → ℕ → List (List ℕ)
body [] entry = line_of b'9' entry [] ∷ []
body ((addr, xs) ∷ ss) entry = line_of b'1' addr xs ∷ body ss entry

abbrev pub program : List Segment → ℕ → List (List ℕ)
program ss entry = line_of b'0' 0 [] ∷ body ss entry

abbrev pub loaded : List Segment → Cells → Cells
loaded [] memory = memory
loaded ((addr, xs) ∷ ss) memory = loaded ss (stored memory addr xs)

pub record Loaded (b : Board) (ss : List Segment) (entry : ℕ) (result : Option Board) : Type 0 where
  pub board : Board
  pub returns : result ≡ some board
  pub ready : Ready board
  pub places : board.memory ≡ loaded ss b.memory
  pub starts : read_word (registers_of board.core1) reset_vector_offset ≡ entry

reset_word : (r : Registers) (v : ℕ) → v < 65536 → read_word (put_word r 62 v) 62 ≡ v
reset_word r v h = ground arith

load_body :
    (env : Env) (ss : List Segment) (entry : ℕ) (b : Board)
    → CopiesOut memory_of Ready env.copy_out_code (run_copy env)
    → Ready b
    → AllLoadable ss
    → entry < 65536
    → Loaded b ss entry (load_lines env (body ss entry) b)
unfolding Option.bind
load_body env [] entry b c y a h = record {
  board = set_reset_vector entry (record b { srecord_ignore = false });
  returns =
      ap (λ (o : Option Board). Option.bind o some) (last_line env entry b (powered b y.held) h);
  ready = record { held = y.held; heeded = refl; placed = mc6809-Placement b.core1 _ y.placed };
  places = refl;
  starts = reset_word (registers_of b.core1) entry h;
}
load_body env ((addr, xs) ∷ ss) entry b c y (a, as') h =
    let k = srecord-Step env addr xs b c y a.0 a.1 a.2 in
    let l = load_body env ss entry k.board c k.ready as' h in
    record {
      board = l.board;
      returns =
          ap (λ (o : Option Board). Option.bind o (load_lines env (body ss entry))) k.returns
          ∙ l.returns;
      ready = l.ready;
      places = l.places ∙ ap (loaded ss) (λ i j. k.places j i);
      starts = l.starts;
    }

-- The snippet COPY_OUT, where its bytes stand in the snippet's place, but for the three that it is told
-- with, RESET points to them, and it is told of one to sixteen bytes below $FE00, does the following
-- from every board on which the 6809 is held in reset, records are not ignored and the devices answer
-- at the registers meant for devices: it copies the buffer as it is told to, ends in time and leaves
-- itself in its place and the board so. On a board with the 6809 held in reset and such devices,
-- whether or not records were ignored before: an S0 record, an S1 record for each segment of a
-- program, of at most 252 bytes and with the address plus the count of the record below $FE00, and
-- an S9 record are all read without a fault. The guest's memory then has every segment at its
-- address, later ones over earlier ones, and what it had elsewhere; RESET points to the address of
-- the S9 record; the 6809 is still held, and records are not ignored.
pub load_program :
    (env : Env) (ss : List Segment) (entry : ℕ) (b : Board)
    → CopiesOut memory_of Ready env.copy_out_code (run_copy env)
    → b.core1.mc6809.run_state ≡ rs_reset
    → Placement b.core1
    → AllLoadable ss
    → entry < 65536
    → Loaded b ss entry (load_lines env (program ss entry) b)
unfolding Option.bind
load_program env ss entry b c e p a h =
    let l =
      load_body env ss entry (record b { srecord_ignore = false }) c
        (record { held = e; heeded = refl; placed = p }) a h in
    record {
      board = l.board;
      returns =
          ap (λ (o : Option Board). Option.bind o (load_lines env (body ss entry)))
            (first_line env b (powered b e))
          ∙ l.returns;
      ready = l.ready;
      places = l.places;
      starts = l.starts;
    }
