-- ===== src/Diskload/Frames.antt =====
-- A disk image that is sent in frames.
use mathlib.Core.Option
use pico_thing_main.Base.{
  ℕ, zero, suc, ◌+◌, ◌*◌, ◌/◌, ◌%◌, ◌≤◌, ◌<◌, ◌≡◌, refl, ap, ap₂, ◌∙◌, Bool, true, false, List, [],
  ◌∷◌, ◌++◌, append_assoc, Option, none, some, ◌==◌, eq→==, arith, if◌then◌else◌, length,
  length-append,
}
use pico_thing_main.Diskload.{
  Frame, refused, sector, finished, ack, nak, soh, eot, checksum, receive_payload, receive_frame,
  respond, ide_write_sector, receive_frames, diskload,
}
use pico_thing_main.Diskload.Packets.{Packet, encode, expand, AllPackets, packbits_decode-encode}

-- A sector in packets, with its number and a checksum byte.
abbrev pub frame : ℕ → List Packet → ℕ → List ℕ
frame lba ps chk = soh ∷ lba / 65536 ∷ lba / 256 % 256 ∷ lba % 256 ∷ (encode ps ++ chk ∷ [])

receive_payload-encode :
    (lba : ℕ) (ps : List Packet) (chk : ℕ) (rest : List ℕ)
    → AllPackets ps
    → length (expand ps) ≡ 512
    → receive_payload lba (encode ps ++ chk ∷ rest)
      ≡ some (if chk == checksum (expand ps) 0 then sector lba (expand ps) else refused, rest)
unfolding receive_payload Option.bind
receive_payload-encode lba ps chk rest v h =
    let fits : length (expand ps) ≤ 512 = omega (arith, h) in
    let result =
      some (if chk == checksum (expand ps) 0 then sector lba (expand ps) else refused, rest) in
    let checked = λ (b : Bool). elim b as (λ _. Option (Frame × List ℕ)) [
      | false ↦ some (refused, chk ∷ rest)
      | true ↦ result
    ] in
    ap
      (λ (o : Option (List ℕ × List ℕ)). Option.bind o λ x.
        elim (length x.0 == 512) as (λ _. Option (Frame × List ℕ)) [
          | false ↦ some (refused, x.1)
          | true ↦ elim x.1 as (λ _. Option (Frame × List ℕ)) [
            | [] ↦ none
            | got ∷ more ↦ some (if got == checksum x.0 0 then sector lba x.0 else refused, more)
          ]
        ])
      (packbits_decode-encode 512 ps (chk ∷ rest) v fits)
    ∙ ap checked (eq→== (length (expand ps)) 512 h)

-- A frame whose packets keep to the format and stand for 512 bytes is taken as the sector that it
-- carries if its last byte is the checksum of these bytes, and refused if it is any other; and the
-- program goes on at the byte behind the frame.
pub receive_frame-frame :
    (lba : ℕ) (ps : List Packet) (chk : ℕ) (rest : List ℕ)
    → AllPackets ps
    → length (expand ps) ≡ 512
    → receive_frame (frame lba ps chk ++ rest)
      ≡ some (if chk == checksum (expand ps) 0 then sector lba (expand ps) else refused, rest)
unfolding receive_frame
receive_frame-frame lba ps chk rest v h =
    let number : lba / 65536 * 65536 + lba / 256 % 256 * 256 + lba % 256 ≡ lba = omega arith in
    ap₂ receive_payload number (append_assoc (encode ps) (chk ∷ []) rest)
    ∙ receive_payload-encode lba ps chk rest v h

-- Sectors in packets.
abbrev pub Image : Type 0
Image = List (ℕ × List Packet)

abbrev pub AllSectors : Image → Type 0
AllSectors [] = Unit {0}
AllSectors ((lba, ps) ∷ image) =
    (lba < 16777216) × AllPackets ps × (length (expand ps) ≡ 512) × AllSectors image

-- What the host sends for an image, and what the drive then holds.
abbrev pub transfer : Image → List ℕ
transfer [] = eot ∷ []
transfer ((lba, ps) ∷ image) = frame lba ps (checksum (expand ps) 0) ++ transfer image

module _ {D : Type 0} (drive : ℕ → List ℕ → D → D) where
  abbrev pub written : Image → D → D
  written [] d = d
  written ((lba, ps) ∷ image) d = written image (drive lba (expand ps) d)

abbrev pub acks : ℕ → List ℕ
acks zero = []
acks (suc n) = ack ∷ acks n

low : (lba : ℕ) → lba < 16777216 → lba % 268435456 ≡ lba
low lba h = omega (arith, h)

module _ {D : Type 0} (drive : ℕ → List ℕ → D → D) where
  receive_sector :
      (fuel : ℕ) (lba : ℕ) (ps : List Packet) (rest : List ℕ) (d : D)
      → lba < 16777216
      → AllPackets ps
      → length (expand ps) ≡ 512
      → receive_frames (suc fuel) drive (frame lba ps (checksum (expand ps) 0) ++ rest) d
        ≡ Option.map (respond ack) (receive_frames fuel drive rest (drive lba (expand ps) d))
  unfolding receive_frames Option.bind ide_write_sector
  receive_sector fuel lba ps rest d l v h =
      let chk = checksum (expand ps) 0 in
      let after = λ (o : Option (Frame × List ℕ)). Option.bind o λ x.
        elim x.0 as (λ _. Option (List ℕ × D)) [
          | finished ↦ some (ack ∷ [], d)
          | refused ↦ Option.map (respond nak) (receive_frames fuel drive x.1 d)
          | sector n bytes ↦
              let (result, d₁) = ide_write_sector drive n bytes d in
              Option.map (respond (if result == 0 then ack else nak))
                (receive_frames fuel drive x.1 d₁)
        ] in
      ap after (receive_frame-frame lba ps chk rest v h)
      ∙ ap (λ (b : Bool). after (some (if b then sector lba (expand ps) else refused, rest)))
          (eq→== chk chk refl)
      ∙ ap
          (λ (n : ℕ).
            Option.map (respond ack) (receive_frames fuel drive rest (drive n (expand ps) d)))
          (low lba l)

  receive_frames-transfer :
      (fuel : ℕ) (image : Image) (d : D)
      → AllSectors image
      → length image < fuel
      → receive_frames fuel drive (transfer image) d
        ≡ some (acks (suc (length image)), written drive image d)
  unfolding receive_frames receive_frame Option.bind
  receive_frames-transfer zero image d v l = absurd (omega (arith, l))
  receive_frames-transfer (suc fuel) [] d v l = refl
  receive_frames-transfer (suc fuel) ((lba, ps) ∷ image) d (b, p, h, v) l =
      receive_sector fuel lba ps (transfer image) d b p h
      ∙ ap (Option.map (respond ack))
          (receive_frames-transfer fuel image (drive lba (expand ps) d) v (omega (arith, l)))

  length-transfer : (image : Image) → length image < length (transfer image)
  length-transfer [] = omega arith
  length-transfer ((lba, ps) ∷ image) = omega (
    arith,
    length-transfer image,
    length-append (frame lba ps (checksum (expand ps) 0)) (transfer image),
  )

  -- An image of sectors with numbers of 24 bits, each sent as packets that keep to the format and
  -- stand for 512 bytes, with the right checksum, and then the end mark: whatever the drive does
  -- with a sector, the program takes all of them and ends. It has answered with 'R', with ACK to
  -- each sector and with ACK to the end mark, and the drive has been given exactly these sectors
  -- with their numbers, in their order.
  pub diskload-transfer :
      (image : Image) (d : D)
      → AllSectors image
      → diskload drive (transfer image) d
        ≡ some (b'R' ∷ acks (suc (length image)), written drive image d)
  unfolding diskload
  diskload-transfer image d v = ap (Option.map (respond b'R')) (
      receive_frames-transfer (suc (length (transfer image))) image d v
        (omega (arith, length-transfer image)))
