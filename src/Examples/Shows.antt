-- ===== src/Examples/Shows.antt =====
-- What EXAMINE shows, at a concrete input.
use pico_thing_main.Base.{
  ◌<◌, ◌≤◌, ◌&&◌, ltb, ℕ, ◌+◌, ◌-◌, ◌≡◌, refl, sym, ap, ap₂, subst, ◌∙◌, Bool, true, false, not,
  leb, if◌then◌else◌, Cells, arith,
}
use pico_thing_main.Registers.{Registers, read_word}
use pico_thing_main.Mc6809.{rs_reset, rs_synced, assert_stopped, assert_powered}
use pico_thing_main.Core1.{registers_of, with_registers}
use pico_thing_main.Power
use pico_thing_main.Copy.Loaded.{IsLoaded, IsLoaded-kept}
use pico_thing_main.Copy.Inwards.{CopiesIn}
use pico_thing_main.Console.{
  Board, Env, is_held, run_copy, run_snippet, start_with_timeout, await_sync, call_setup,
  on_supervisor, supervisor_of, board_of,
}
use pico_thing_main.Console.Setup.{start-registers}
use pico_thing_main.Console.Memory.{examine}
use pico_thing_main.Console.Memory.Shown.{Examined, shown_rows, examine-Examined}
use pico_thing_main.Examples.Machines.{board_in, env, in_state}

-- Every register from the buffer on gets the byte of the memory that it stands for.
abbrev fetched : Registers → Cells → Registers
fetched r memory = record r {
  read_registers =
      λ j. if leb 16 j && ltb j 32 then memory (read_word r 36 + (j - 16)) else r.read_registers j;
}

abbrev fetching : ℕ → Board → Board
fetching i b =
    in_state rs_synced
      (record b { core1 = with_registers (fetched (registers_of b.core1) b.memory) b.core1 })

abbrev reader : Env
reader = record env { observe = fetching }

-- A board that is held and on which no callback is set.
record Ready (b : Board) : Type 0 where
  held : b.core1.mc6809.run_state ≡ rs_reset
  bare : b.setup_callback ≡ false

abbrev memory_of : Board → Cells
memory_of b = b.memory

abbrev read_run : Board → Board
read_run b = in_state rs_reset (on_supervisor Power.stop (fetching 0 (on_supervisor Power.start b)))

call_setup_bare : (b : Board) → b.setup_callback ≡ false → call_setup b ≡ b
unfolding call_setup
call_setup_bare b e = ground (arith, e)

is_held_lem : (b : Board) → b.core1.mc6809.run_state ≡ rs_reset → is_held b ≡ true
unfolding assert_stopped assert_powered
is_held_lem b e = ground (arith, e)

run_lem : (b : Board) → Ready b → run_snippet reader 4 b ≡ (true, read_run b)
unfolding run_snippet start_with_timeout await_sync
run_lem b y =
    ap
      (λ (q : Bool).
        let x : Bool × Board = if not q then (false, b) else (
          true,
          on_supervisor Power.stop (fetching 0 (on_supervisor Power.start (call_setup b))),
        ) in
        (x.0, in_state rs_reset x.1))
      (is_held_lem b y.held)
    ∙ ap (λ (c : Board). (true, read_run c)) (call_setup_bare b y.bare)

read_run-registers :
    (b : Board) (k : ℕ)
    → k < 16
    → (registers_of (read_run b).core1).read_registers (16 + k)
      ≡ b.memory (read_word (registers_of b.core1) 36 + k)
unfolding Power.stop
read_run-registers b k l =
    let e = start-registers (supervisor_of b) in
    let s = registers_of (on_supervisor Power.start b).core1 in
    let inside : leb 16 (16 + k) && ltb (16 + k) 32 ≡ true = ground (arith, l) in
    let there : 16 + k - 16 ≡ k = omega arith in
    ap
      (λ (q : Bool).
        if q then b.memory (read_word s 36 + (16 + k - 16)) else s.read_registers (16 + k))
      inside
    ∙ ap₂ (λ (r : Registers) (i : ℕ). b.memory (read_word r 36 + i)) e there

read_run_above :
    (b : Board) (j : ℕ)
    → 32 ≤ j
    → (registers_of (read_run b).core1).read_registers j ≡ (registers_of b.core1).read_registers j
unfolding Power.stop
read_run_above b j l =
    let e = start-registers (supervisor_of b) in
    let s = registers_of (on_supervisor Power.start b).core1 in
    let outside : leb 16 j && ltb j 32 ≡ false = ground (arith, l) in
    ap (λ (q : Bool). if q then b.memory (read_word s 36 + (j - 16)) else s.read_registers j)
      outside
    ∙ ap (λ (r : Registers). r.read_registers j) e

reader-CopiesIn : CopiesIn memory_of Ready reader.copy_in_code (run_copy reader)
unfolding run_copy
reader-CopiesIn r w y t =
    let b = board_of (r, w) in
    let z : Ready b = record { held = y.held; bare = y.bare } in
    let e = run_lem b z in
    (
      ap (λ (x : Bool × Board). x.0) e,
      subst (λ (x : Bool × Board). IsLoaded reader.copy_in_code (registers_of x.1.core1)) (sym e)
          (IsLoaded-kept reader.copy_in_code r (registers_of (read_run b).core1)
            (λ j m _ _ _. read_run_above b j m) t.loaded),
      subst (λ (x : Bool × Board). Ready x.1) (sym e) (record { held = refl; bare = y.bare }),
      ap (λ (x : Bool × Board). x.1.memory) e,
      λ k l.
          ap (λ (x : Bool × Board). (registers_of x.1.core1).read_registers (16 + k)) e
          ∙ read_run-registers b k (omega (arith, l, t.one_chunk)),
    )

abbrev bare_board : Board
bare_board = record (board_in rs_reset) { setup_callback = false; memory = λ j. j }

bare_board-Ready : Ready bare_board
bare_board-Ready = record { held = refl; bare = refl }

examine-Examined_example :
    Examined reader Ready
      (λ b y. y.held)
      (λ r b y. record { held = y.held; bare = y.bare })
      reader-CopiesIn
      bare_board
      (shown_rows 0x1003 0x1012 (λ j. j) 0x1000 2)
      (examine reader 0x1003 0x1012 bare_board)
examine-Examined_example =
    examine-Examined reader Ready (λ b y. y.held) (λ r b y. record { held = y.held; bare = y.bare })
      reader-CopiesIn 0x1003 0x1012 bare_board bare_board-Ready (omega arith) (omega arith)
