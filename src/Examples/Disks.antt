-- ===== src/Examples/Disks.antt =====
-- The disk program at concrete inputs.
use pico_thing_main.Base.{ℕ, ◌≡◌, ◌≤◌, refl, List, [], ◌∷◌, ◌++◌, some, arith, length}
use mathlib.Core.Option
use pico_thing_main.Diskload.{diskload, packbits_decode, literal_run}
use pico_thing_main.Diskload.Packets.{Packet, AllPackets, encode, expand, packbits_decode-encode}
use pico_thing_main.Diskload.Packets
use pico_thing_main.Diskload.Frames.{Image, AllSectors, transfer, written, acks, diskload-transfer}
use pico_thing_main.Diskload.Room.{packbits_decode-Fits}

abbrev packets : List Packet
packets = Packets.literal (5 ∷ 6 ∷ 7 ∷ []) ∷ Packets.repeat 4 9 ∷ []

packets-AllPackets : AllPackets packets
packets-AllPackets = (omega arith, omega arith, (omega arith, omega arith, tt))

packbits_decode-encode_example :
    packbits_decode 512 (encode packets ++ 1 ∷ 2 ∷ []) ≡ some (expand packets, 1 ∷ 2 ∷ [])
packbits_decode-encode_example =
    packbits_decode-encode 512 packets (1 ∷ 2 ∷ []) packets-AllPackets (omega arith)

-- Three literal bytes, of which two fit.
abbrev two_bytes : List ℕ
two_bytes = 5 ∷ 6 ∷ []

decoded : packbits_decode 2 (2 ∷ 5 ∷ 6 ∷ 128 ∷ []) ≡ some (two_bytes, [])
unfolding packbits_decode literal_run Option.bind
decoded = refl

packbits_decode-Fits_example : length two_bytes ≤ 2
packbits_decode-Fits_example = packbits_decode-Fits 2 (2 ∷ 5 ∷ 6 ∷ 128 ∷ []) (two_bytes, []) decoded

abbrev sector_packets : List Packet
sector_packets =
    Packets.repeat 128 1 ∷ Packets.repeat 128 2 ∷ Packets.repeat 128 3 ∷ Packets.repeat 128 4 ∷ []

sector_packets-AllPackets : AllPackets sector_packets
sector_packets-AllPackets = (
  omega arith,
  omega arith,
  (omega arith, omega arith, (omega arith, omega arith, (omega arith, omega arith, tt))),
)

abbrev image : Image
image = (70000, sector_packets) ∷ (70001, sector_packets) ∷ []

image-AllSectors : AllSectors image
image-AllSectors = (
  omega arith,
  sector_packets-AllPackets,
  refl,
  (omega arith, sector_packets-AllPackets, refl, tt),
)

-- The drive as a list of what it has been given.
abbrev Log : Type 0
Log = List (ℕ × List ℕ)

abbrev log_write : ℕ → List ℕ → Log → Log
log_write lba bytes log = log ++ (lba, bytes) ∷ []

diskload-transfer_example :
    diskload log_write (transfer image) [] ≡ some (b'R' ∷ acks 3, written log_write image [])
diskload-transfer_example = diskload-transfer log_write image [] image-AllSectors
