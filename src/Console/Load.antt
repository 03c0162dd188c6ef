-- ===== src/Console/Load.antt =====
-- src/pico_thing.cpp: the command SRECORD, which loads a line of S-records.
pub mod Record
pub mod Stream
pub mod Ignored
use mathlib.Core.Option
use pico_thing_main.Base.{
  ℕ, ◌+◌, ◌-◌, Bool, true, false, not, ◌||◌, List, Option, none, some, ltb, leb, ◌==◌,
  if◌then◌else◌, byte_at, u16,
}
use pico_thing_main.Mc6809.{is_reset}
use pico_thing_main.Srec.{Fields, process_srecord}
use pico_thing_main.Console.{Board, Env, is_powered, copy_out}
use pico_thing_main.Console.Memory.{put_bytes}
use pico_thing_main.Console.Run.{set_reset_vector}

-- An S1 record: the guest's memory, or the vectors.
unfoldable pub load_s1 : Env → Fields → Board → Option Board
load_s1 env f b =
    if ltb (f.address + f.count) 0xFE00
    then (if not (is_reset b.core1.mc6809.run_state)
        then some (record b { srecord_ignore = true })
        else Option.map
            (λ (x : Bool × Board). if not x.0 then record x.1 { srecord_ignore = true } else x.1)
            (copy_out env (u16 (f.count + 65536 - 3)) f.address f.bytes b))
    else if leb 0xFFF0 f.address
    then some (put_bytes f.address f.bytes b)
    else some b

-- A record that has been read, of the kind that the second character tells.
unfoldable pub load_record : Env → ℕ → Fields → Board → Option Board
unfolding load_s1
load_record env kind f b₀ =
    let b = if kind == b'0' || kind == b'9' then record b₀ { srecord_ignore = false } else b₀ in
    if b.srecord_ignore
    then some b
    else if kind == b'0'
    then some b
    else if kind == b'1'
    then load_s1 env f b
    else if kind == b'5'
    then some b
    else if kind == b'9'
    then (let b₁ = if not b.srecord_ignore then set_reset_vector f.address b else b in
        some (record b₁ { srecord_ignore = false }))
    else some b

-- CMD_SRECORD
unfoldable pub srecord : Env → List ℕ → Board → Option Board
unfolding load_record
srecord env line b = if not (is_powered b) then some b else elim (process_srecord line) [
  | none ↦ some b
  | some (f, ok) ↦ if not ok then some b else load_record env (byte_at line 1) f b
]
