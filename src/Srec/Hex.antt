-- ===== src/Srec/Hex.antt =====
-- `hex` against the printing of numbers in hexadecimal.
use pico_thing_main.Base.{
  ℕ, zero, suc, ◌+◌, ◌-◌, ◌*◌, ◌%◌, ◌/◌, ◌≡◌, ◌≢◌, ◌≤◌, ◌<◌, refl, ◌⊎◌, ◌∙◌, Option-cases, ltb,
  if◌then◌else◌, List, [], ◌∷◌, ◌++◌, none, some, u32, length, arith, inl, inr,
}
use pico_thing_main.Srec.{digit, bad_hex, hex_digits}

-- The digit that the monitor prints for a value below 16.
abbrev pub nibble : ℕ → ℕ
nibble n = if ltb n 10 then b'0' + n else b'A' + n - 10

abbrev pub byte_text : ℕ → List ℕ
byte_text n = nibble (n / 16) ∷ nibble (n % 16) ∷ []

abbrev pub word_text : ℕ → List ℕ
word_text n = byte_text (n / 256) ++ byte_text (n % 256)

pub digit-nibble : (n : ℕ) → n < 16 → digit (nibble n) ≡ some n
unfolding digit
digit-nibble n h = ground arith

-- One round of the loop.
pub hex_digits_step :
    (left c : ℕ) (cs : List ℕ) (val d : ℕ)
    → digit c ≡ some d
    → hex_digits (suc left) (c ∷ cs) val ≡ hex_digits left cs (u32 (u32 (val * 16) + d))
unfolding hex_digits
hex_digits_step left c cs val d e = rw (e, hex_digits)

pub hex_digits-byte_text :
    (n : ℕ) (rest : List ℕ) → n < 256 → hex_digits 2 (byte_text n ++ rest) 0 ≡ n
unfolding hex_digits
hex_digits-byte_text n rest h = ground (arith, digit-nibble (n / 16), digit-nibble (n % 16))

pub hex_digits-word_text :
    (n : ℕ) (rest : List ℕ) → n < 65536 → hex_digits 4 (word_text n ++ rest) 0 ≡ n
unfolding hex_digits
hex_digits-word_text n rest h = ground (
  arith,
  digit-nibble (n / 256 / 16),
  digit-nibble (n / 256 % 16),
  digit-nibble (n % 256 / 16),
  digit-nibble (n % 256 % 16),
)

digit_cases : (c : ℕ) → (digit c ≡ none) ⊎ ((d : ℕ) × (digit c ≡ some d))
digit_cases c = Option-cases (digit c)

-- A field that is read has all its digits before the end of the text.
pub hex_digits_long :
    (left : ℕ) (cs : List ℕ) (val : ℕ) → hex_digits left cs val ≢ bad_hex → left ≤ length cs
unfolding hex_digits digit
hex_digits_long zero cs val h = omega arith
hex_digits_long (suc left) [] val h = absurd (h refl)
hex_digits_long (suc left) (c ∷ cs) val h = elim (digit_cases c) [
  | inl e ↦ absurd (h (rw (e, hex_digits) refl))
  | inr (d, e) ↦
      let below =
        hex_digits_long left cs (u32 (u32 (val * 16) + d))
          (λ b. h (hex_digits_step left c cs val d e ∙ b)) in
      omega arith
]
