-- ===== src/Srec/Record.antt =====
-- `process_srecord` against the records that a tool writes.
use pico_thing_main.Base.{
  byte_at, ap₂, subst, ne→==, ℕ, zero, suc, ◌+◌, ◌-◌, ◌*◌, ◌%◌, ◌/◌, ◌≡◌, ◌≢◌, ◌≤◌, ◌<◌, refl, inl,
  inr, ◌∙◌, sym, ap, Bool, false, ltb, ◌==◌, Bool-cases, Option-cases, List, [], ◌∷◌, ◌++◌, some,
  u8, u16, drop, length, length-drop, arith,
}
use pico_thing_main.Srec.{
  hex_digits, data_bytes, data_count, process_srecord, finish, read_data, Fields,
}
use pico_thing_main.Srec.Hex.{
  byte_text, word_text, hex_digits-byte_text, hex_digits-word_text, hex_digits_long,
}

abbrev pub AllBytes : List ℕ → Type 0
AllBytes [] = Unit {0}
AllBytes (x ∷ xs) = (x < 256) × AllBytes xs

abbrev pub bytes_text : List ℕ → List ℕ
bytes_text [] = []
bytes_text (x ∷ xs) = byte_text x ++ bytes_text xs

abbrev pub total : List ℕ → ℕ
total [] = 0
total (x ∷ xs) = x + total xs

-- The checksum of the format: the ones' complement of the low byte of the sum of the count, the two
-- bytes of the address and the data.
abbrev pub expected_checksum : ℕ → List ℕ → ℕ
expected_checksum addr xs = 255 - (length xs + 3 + addr / 256 + addr % 256 + total xs) % 256

-- A record of kind `k` with the checksum byte `c`.
abbrev pub record_text : ℕ → ℕ → List ℕ → ℕ → List ℕ
record_text k addr xs c =
    b'S' ∷ k ∷ byte_text (length xs + 3)
    ++ (word_text addr ++ (bytes_text xs ++ (byte_text c ++ [])))

data_bytes-bytes_text :
    (xs rest : List ℕ) (sum : ℕ)
    → AllBytes xs
    → (t : ℕ) × (data_bytes (length xs) (bytes_text xs ++ rest) sum ≡ some (xs, rest, t))
      × (u8 t ≡ u8 (sum + total xs))
unfolding data_bytes
data_bytes-bytes_text [] rest sum h = (sum, refl, omega arith)
data_bytes-bytes_text (x ∷ xs) rest sum h =
    let (t, e, m) = data_bytes-bytes_text xs rest (u16 (sum + x)) h.1 in
    (t, ground (arith, hex_digits-byte_text x (bytes_text xs ++ rest), e), omega arith)

finish-byte_text :
    (count addr c t : ℕ) (xs : List ℕ)
    → c < 256
    → finish count addr xs (byte_text c ++ []) t
      ≡ some (record { count = count; address = addr; bytes = xs; checksum = c }, c == 0xFF - u8 t)
unfolding finish
finish-byte_text count addr c t xs h = ground (arith, hex_digits-byte_text c [])

read_data-bytes_text :
    (addr c : ℕ) (xs : List ℕ)
    → addr < 65536
    → length xs ≤ 252
    → AllBytes xs
    → c < 256
    → read_data (length xs + 3) addr (bytes_text xs ++ (byte_text c ++ []))
      ≡ some (
        record { count = length xs + 3; address = addr; bytes = xs; checksum = c },
        c == expected_checksum addr xs,
      )
unfolding read_data
read_data-bytes_text addr c xs ha hl hx hc =
    let n : data_count (length xs + 3) ≡ length xs = omega arith in
    let (t, e, m) =
      data_bytes-bytes_text xs (byte_text c ++ [])
        (u16 (u16 (length xs + 3 + addr / 256 % 256) + addr % 256)) hx in
    rw (n, e, read_data)
      (finish-byte_text (length xs + 3) addr c t xs hc
        ∙ ap
            (λ s.
              some (
                record { count = length xs + 3; address = addr; bytes = xs; checksum = c },
                c == s,
              ))
            (omega arith))

process_srecord-header :
    (k n addr : ℕ) (rest : List ℕ)
    → n < 256
    → addr < 65536
    → process_srecord (b'S' ∷ k ∷ byte_text n ++ (word_text addr ++ rest)) ≡ read_data n addr rest
unfolding process_srecord
process_srecord-header k n addr rest hn ha =
    rw (hex_digits-byte_text n (word_text addr ++ rest) hn, hex_digits-word_text addr rest ha)
      (ground arith)

-- A record that a tool writes, of any kind, with up to 252 data bytes and any checksum byte, is read
-- back field by field, and is accepted exactly when the checksum byte is the format's.
pub process_srecord-record_text :
    (k addr : ℕ) (xs : List ℕ) (c : ℕ)
    → addr < 65536
    → length xs ≤ 252
    → AllBytes xs
    → c < 256
    → process_srecord (record_text k addr xs c)
      ≡ some (
        record { count = length xs + 3; address = addr; bytes = xs; checksum = c },
        c == expected_checksum addr xs,
      )
unfolding process_srecord
process_srecord-record_text k addr xs c ha hl hx hc =
    process_srecord-header k (length xs + 3) addr (bytes_text xs ++ (byte_text c ++ []))
      (omega arith) ha
    ∙ read_data-bytes_text addr c xs ha hl hx hc

-- `xs` with the byte at `i` replaced by `y`.
abbrev pub replace_at : List ℕ → ℕ → ℕ → List ℕ
replace_at [] i y = []
replace_at (x ∷ xs) zero y = y ∷ xs
replace_at (x ∷ xs) (suc i) y = x ∷ replace_at xs i y

replace_at_lem :
    (xs : List ℕ) (i y : ℕ)
    → i < length xs
    → AllBytes xs
    → y < 256
    → (length (replace_at xs i y) ≡ length xs)
      × AllBytes (replace_at xs i y)
      × (total (replace_at xs i y) + byte_at xs i ≡ total xs + y)
      × (byte_at xs i < 256)
replace_at_lem [] i y hi hx hy = elim hi [ ]
replace_at_lem (x ∷ xs) zero y hi hx hy = ground arith
replace_at_lem (x ∷ xs) (suc i) y hi hx hy = ground (arith, replace_at_lem xs i y)

-- A record in which exactly one data byte has been changed in transit is read, with the changed
-- byte, and refused.
pub one_byte_refused :
    (k addr : ℕ) (xs : List ℕ) (i y : ℕ)
    → addr < 65536
    → length xs ≤ 252
    → AllBytes xs
    → i < length xs
    → y < 256
    → y ≢ byte_at xs i
    → process_srecord (record_text k addr (replace_at xs i y) (expected_checksum addr xs))
      ≡ some (
        record {
          count = length xs + 3;
          address = addr;
          bytes = replace_at xs i y;
          checksum = expected_checksum addr xs;
        },
        false,
      )
one_byte_refused k addr xs i y ha hl hx hi hy ne =
    let (l, b, t, z) = replace_at_lem xs i y hi hx hy in
    process_srecord-record_text k addr (replace_at xs i y) (expected_checksum addr xs) ha
      (omega arith) b (omega arith)
    ∙ ap₂
        (λ n b. some (
          record {
            count = n;
            address = addr;
            bytes = replace_at xs i y;
            checksum = expected_checksum addr xs;
          },
          b,
        ))
        (omega arith) (ne→== _ _ (omega arith))

-- What the loop over the data bytes has read.
data_bytes_long :
    (left : ℕ) (cs : List ℕ) (sum : ℕ) (xs rest : List ℕ) (t : ℕ)
    → data_bytes left cs sum ≡ some (xs, rest, t)
    → (length xs ≡ left) × AllBytes xs × (length cs ≡ 2 * left + length rest)
unfolding data_bytes
data_bytes_long zero cs sum xs rest t e = ground arith
data_bytes_long (suc left) cs sum xs rest t e =
    let val = hex_digits 2 cs 0 in
    elim (Bool-cases (ltb 0xFF val)) [
      | inl big ↦ absurd (ground arith)
      | inr small ↦ elim (Option-cases (data_bytes left (drop 2 cs) (u16 (sum + val)))) [
        | inl n ↦ absurd (ground arith)
        | inr ((ys, rest', t'), f) ↦
            let long = hex_digits_long 2 cs 0 (λ b. absurd (ground arith)) in
            let (l, a, d) = data_bytes_long left (drop 2 cs) (u16 (sum + val)) ys rest' t' f in
            ground (arith, length-drop {0} 2 cs)
      ]
    ]

finish_bounds :
    (count addr t : ℕ) (xs cs : List ℕ) (f : Fields) (verdict : Bool)
    → finish count addr xs cs t ≡ some (f, verdict)
    → (f.count ≡ count) × (f.address ≡ addr) × (f.bytes ≡ xs) × (f.checksum < 256) × (2 ≤ length cs)
unfolding finish
finish_bounds count addr t xs cs f verdict e = ground (arith, hex_digits_long 2 cs 0)

read_data_bounds :
    (count addr : ℕ) (cs : List ℕ) (f : Fields) (verdict : Bool)
    → read_data count addr cs ≡ some (f, verdict)
    → (f.count ≡ count)
      × (f.address ≡ addr)
      × (f.checksum < 256)
      × AllBytes f.bytes
      × (length f.bytes ≡ data_count count)
      × (2 * data_count count + 2 ≤ length cs)
unfolding read_data
read_data_bounds count addr cs f verdict e =
    elim (Option-cases
      (data_bytes (data_count count) cs (u16 (u16 (count + addr / 256 % 256) + addr % 256)))) [
        | inl n ↦ absurd (ground arith)
        | inr ((xs, rest, t), d) ↦
            let (a, b, c, g, h) = finish_bounds count addr t xs rest f verdict (ground arith) in
            let (l, bs, k) = data_bytes_long (data_count count) cs _ xs rest t d in
            (a, b, g, subst AllBytes (sym c) bs, ap length c ∙ l, omega arith)
      ]

-- Whatever text is read as a record, accepted or refused: the fields are in range, there are as many
-- data bytes as the count says (modulo 256), and all the digits of the record stand in the text.
pub process_srecord_bounds :
    (buf : List ℕ) (f : Fields) (verdict : Bool)
    → process_srecord buf ≡ some (f, verdict)
    → (f.count < 256)
      × (f.address < 65536)
      × (f.checksum < 256)
      × AllBytes f.bytes
      × (length f.bytes ≡ data_count f.count)
      × (10 + 2 * data_count f.count ≤ length buf)
unfolding process_srecord
process_srecord_bounds buf f verdict e =
    let cs₀ = drop 2 buf in
    let cs₁ = drop 2 cs₀ in
    let long₀ = hex_digits_long 2 cs₀ 0 in
    let long₁ = hex_digits_long 4 cs₁ 0 in
    let b = read_data_bounds (hex_digits 2 cs₀ 0) (hex_digits 4 cs₁ 0) (drop 4 cs₁) f verdict in
    ground (arith, length-drop {0} 2 buf, length-drop {0} 2 cs₀, length-drop {0} 4 cs₁)

-- A record on a line of the command buffer, which holds 255 characters, has a count of at least
-- three, so that the callers' `count - 3u` does not wrap, and counts its data bytes.
pub process_srecord_line :
    (buf : List ℕ) (f : Fields) (verdict : Bool)
    → length buf ≤ 255
    → process_srecord buf ≡ some (f, verdict)
    → (3 ≤ f.count) × (length f.bytes ≡ f.count - 3) × (length f.bytes ≤ 122)
process_srecord_line buf f verdict h e =
    let b = process_srecord_bounds buf f verdict e in omega arith
