-- ===== src/Srec.antt =====
-- src/srec.cpp: hexadecimal fields and S-records. A text is the list of its bytes with no NUL in it:
-- a load behind the end finds the NUL that ends the C string.
pub mod Hex
pub mod Record
use pico_thing_main.Base.{
  ℕ, zero, suc, ◌+◌, ◌-◌, ◌*◌, ◌%◌, ◌/◌, ◌≡◌, ◌≤◌, ◌<◌, Bool, true, false, ◌&&◌, ◌||◌, ltb, leb,
  ◌==◌, if◌then◌else◌, List, [], ◌∷◌, ◌++◌, Option, none, some, u8, u16, u32, drop,
}

-- `*buf`
abbrev pub head : List ℕ → ℕ
head [] = 0
head (c ∷ cs) = c

abbrev pub tail : List ℕ → List ℕ
tail [] = []
tail (c ∷ cs) = cs

-- The value of one digit, or `none` for a byte that is no hexadecimal digit.
unfoldable pub digit : ℕ → Option ℕ
digit c =
    if leb b'0' c && leb c b'9'
    then some (c - b'0')
    else if leb b'A' c && leb c b'F'
    then some (c - b'A' + 10)
    else if leb b'a' c && leb c b'f'
    then some (c - b'a' + 10)
    else none

-- `(uint)-1`
abbrev pub bad_hex : ℕ
bad_hex = 4294967295

-- The loop of `hex` with `count` not zero: `left` digits to go.
unfoldable pub hex_digits : ℕ → List ℕ → ℕ → ℕ
hex_digits zero cs val = val
hex_digits (suc left) cs val = elim (digit (head cs)) [
  | none ↦ bad_hex
  | some d ↦ hex_digits left (tail cs) (u32 (u32 (val * 16) + d))
]

-- The loop with `count` zero: up to the NUL, and at least one digit.
unfoldable pub hex_text : List ℕ → ℕ → ℕ
hex_text [] val = bad_hex
hex_text (c ∷ cs) val = elim (digit c) [
  | none ↦ bad_hex
  | some d ↦ elim cs [
    | [] ↦ u32 (u32 (val * 16) + d)
    | _ ∷ _ ↦ hex_text cs (u32 (u32 (val * 16) + d))
  ]
]

pub hex : List ℕ → ℕ → ℕ
hex cs zero = hex_text cs 0
hex cs (suc n) = hex_digits (suc n) cs 0

-- What `process_srecord` stores through its pointers. Where a field is malformed, what it has stored
-- before is left out.
pub record Fields : Type 0 where
  pub count : ℕ
  pub address : ℕ
  pub bytes : List ℕ
  pub checksum : ℕ

-- The loop over the data bytes: the bytes that are stored, and the position and the sum behind
-- them, or `none` at a field that is no byte. `sum` is a `uint16_t`.
unfoldable pub data_bytes : ℕ → List ℕ → ℕ → Option (List ℕ × List ℕ × ℕ)
data_bytes zero cs sum = some ([], cs, sum)
data_bytes (suc left) cs sum =
    let val = hex_digits 2 cs 0 in
    if ltb 0xFF val then none else elim (data_bytes left (drop 2 cs) (u16 (sum + val))) [
      | none ↦ none
      | some (bytes, rest, total) ↦ some (val ∷ bytes, rest, total)
    ]

-- `index -= 3` on a `uint8_t`
abbrev pub data_count : ℕ → ℕ
data_count count = u8 (count + 256 - 3)

-- The checksum: the last lines of `process_srecord`.
unfoldable pub finish : ℕ → ℕ → List ℕ → List ℕ → ℕ → Option (Fields × Bool)
finish count addr bytes cs total =
    let sum = 0xFF - u8 total in
    let checksum = hex_digits 2 cs 0 in
    if ltb 0xFF checksum
    then none
    else some (
      record { count = count; address = addr; bytes = bytes; checksum = checksum },
      checksum == sum,
    )

-- From the loop over the data bytes on.
unfoldable pub read_data : ℕ → ℕ → List ℕ → Option (Fields × Bool)
read_data count addr cs =
    elim (data_bytes (data_count count) cs (u16 (u16 (count + addr / 256 % 256) + addr % 256))) [
      | none ↦ none
      | some (bytes, rest, total) ↦ finish count addr bytes rest total
    ]

-- The fields of a well-formed record with its verdict; `none` where a field is malformed.
unfoldable pub process_srecord : List ℕ → Option (Fields × Bool)
process_srecord buf =
    let cs₀ = drop 2 buf in
    let count = hex_digits 2 cs₀ 0 in
    let cs₁ = drop 2 cs₀ in
    let addr = hex_digits 4 cs₁ 0 in
    if ltb 0xFF count
    then none
    else if ltb 0xFFFF addr
    then none
    else read_data count addr (drop 4 cs₁)
