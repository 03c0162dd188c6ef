-- ===== src/Diskload.antt =====
-- chunk/diskload.c, and ide_write_sector of chunk/ide_lib.c: the guest's program that writes a disk
-- image which arrives at the serial port. The bytes that arrive are a list; `none` is a wait for a
-- byte that does not come. What the drive does with a sector is a parameter; the waits for it are
-- left out.
pub mod Packets
pub mod Frames
pub mod Room
use mathlib.Core.Option
use Prim.Native.Nat.{bit_xor}
use pico_thing_main.Base.{
  ℕ, zero, suc, ◌+◌, ◌-◌, ◌*◌, ◌%◌, Bool, true, false, not, List, [], ◌∷◌, ◌++◌, Option, none, some,
  ltb, ◌==◌, if◌then◌else◌, length, u8,
}

abbrev pub soh : ℕ
soh = 0x01

abbrev pub eot : ℕ
eot = 0x04

abbrev pub ack : ℕ
ack = 0x06

abbrev pub nak : ℕ
nak = 0x15

abbrev pub sector_size : ℕ
sector_size = 512

-- What a part of the decoder has stored, before what it stores next.
abbrev pub before : List ℕ → List ℕ × List ℕ → List ℕ × List ℕ
before xs (ys, rest) = (xs ++ ys, rest)

-- `while (count-- && out < end) *out++ = rx_byte();`, with the room that is left: the bytes stored,
-- and those still to arrive.
unfoldable pub literal_run : ℕ → ℕ → List ℕ → Option (List ℕ × List ℕ)
literal_run zero room cs = some ([], cs)
literal_run (suc count) zero cs = some ([], cs)
literal_run (suc count) (suc room) [] = none
literal_run (suc count) (suc room) (c ∷ cs) =
    Option.map (before (c ∷ [])) (literal_run count room cs)

-- `while (count-- && out < end) *out++ = val;`
unfoldable pub repeat_run : ℕ → ℕ → ℕ → List ℕ
repeat_run zero room val = []
repeat_run (suc count) zero val = []
repeat_run (suc count) (suc room) val = val ∷ repeat_run count room val

-- The loop of packbits_decode: the rounds left, and the room.
unfoldable pub decode_runs : ℕ → ℕ → List ℕ → Option (List ℕ × List ℕ)
decode_runs zero room cs = none
decode_runs (suc fuel) room [] = none
decode_runs (suc fuel) room (n ∷ cs) = elim (n == 128) [
  | true ↦ some ([], cs)
  | false ↦ elim (ltb n 128) [
    | true ↦
        Option.bind (literal_run (u8 (n + 1)) room cs)
          λ x. Option.map (before x.0) (decode_runs fuel (room - length x.0) x.1)
    | false ↦ elim cs [
      | [] ↦ none
      | val ∷ rest ↦
          let xs = repeat_run (u8 (257 - n)) room val in
          Option.map (before xs) (decode_runs fuel (room - length xs) rest)
    ]
  ]
]

-- A round takes a byte at least.
unfoldable pub packbits_decode : ℕ → List ℕ → Option (List ℕ × List ℕ)
unfolding decode_runs
packbits_decode dst_cap cs = decode_runs (suc (length cs)) dst_cap cs

-- `chk`
abbrev pub checksum : List ℕ → ℕ → ℕ
checksum [] chk = chk
checksum (x ∷ xs) chk = checksum xs (bit_xor chk x)

-- What a frame says.
pub data Frame : Type 0 where
  finished refused : Frame
  sector : ℕ → List ℕ → Frame

-- From the payload on, for a sector at `lba`.
unfoldable pub receive_payload : ℕ → List ℕ → Option (Frame × List ℕ)
unfolding packbits_decode
receive_payload lba cs = Option.bind (packbits_decode sector_size cs) λ x.
    elim (length x.0 == sector_size) [
      | false ↦ some (refused, x.1)
      | true ↦ elim x.1 [
        | [] ↦ none
        | got ∷ rest ↦ some (if got == checksum x.0 0 then sector lba x.0 else refused, rest)
      ]
    ]

-- A frame, and the bytes behind it.
unfoldable pub receive_frame : List ℕ → Option (Frame × List ℕ)
unfolding receive_payload
receive_frame [] = none
receive_frame (c ∷ cs) =
    if c == eot
    then some (finished, cs)
    else if not (c == soh)
    then some (refused, cs)
    else elim cs [
      | b₂ ∷ b₁ ∷ b₀ ∷ rest ↦ receive_payload (b₂ * 65536 + b₁ * 256 + b₀) rest
      | _ ↦ none
    ]

-- The result, and the drive, which takes 28 bits of the sector's number.
unfoldable pub ide_write_sector : {D : Type 0} → (ℕ → List ℕ → D → D) → ℕ → List ℕ → D → ℕ × D
ide_write_sector drive lba buf d = (0, drive (lba % 268435456) buf d)

abbrev pub respond : {D : Type 0} → ℕ → List ℕ × D → List ℕ × D
respond c (responses, d) = (c ∷ responses, d)

-- The loop of main: the rounds left, the drive, the bytes that arrive, and the drive's state. The
-- result is the responses and the state.
unfoldable pub receive_frames :
    {D : Type 0} → ℕ → (ℕ → List ℕ → D → D) → List ℕ → D → Option (List ℕ × D)
unfolding receive_frame ide_write_sector
receive_frames zero drive cs d = none
receive_frames (suc fuel) drive cs d = Option.bind (receive_frame cs) λ x. elim x.0 [
  | finished ↦ some (ack ∷ [], d)
  | refused ↦ Option.map (respond nak) (receive_frames fuel drive x.1 d)
  | sector lba bytes ↦
      let (result, d₁) = ide_write_sector drive lba bytes d in
      Option.map (respond (if result == 0 then ack else nak)) (receive_frames fuel drive x.1 d₁)
]

-- main, which first sends an 'R'.
unfoldable pub diskload : {D : Type 0} → (ℕ → List ℕ → D → D) → List ℕ → D → Option (List ℕ × D)
unfolding receive_frames
diskload drive cs d = Option.map (respond b'R') (receive_frames (suc (length cs)) drive cs d)
