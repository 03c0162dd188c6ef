-- ===== src/Console/LineEditor.antt =====
-- src/pico_thing.cpp: the line editor of poll_console.
pub mod Reference
use pico_thing_main.Base.{
  ℕ, zero, suc, ◌+◌, ◌-◌, Bool, true, false, ◌&&◌, ◌||◌, List, [], ◌∷◌, Option, none, some, leb,
  ltb, ◌==◌, if◌then◌else◌, Cells, update,
}

-- COMMAND_BUFFER_LEN
abbrev pub command_buffer_len : ℕ
command_buffer_len = 256

-- buf and idx
pub record Line : Type 0 where
  pub buf : Cells
  pub idx : ℕ  -- int

abbrev pub is_newline : ℕ → Bool
is_newline ch = ch == 13 || ch == 10

abbrev pub is_backspace : ℕ → Bool
is_backspace ch = ch == 8

-- `ch >= ' ' && ch < 0x7F`
abbrev pub is_plain : ℕ → Bool
is_plain ch = leb 32 ch && ltb ch 127

-- The string in an array from an index on: the bytes before the first NUL, of the `n` that are left.
unfoldable pub c_string : Cells → ℕ → ℕ → List ℕ
c_string buf k zero = []
c_string buf k (suc n) = elim (buf k == 0) [ true ↦ [] | false ↦ buf k ∷ c_string buf (k + 1) n ]

-- What a character does: the line that process_command gets, if any, and the new state.
unfoldable pub key : ℕ → Line → Option (List ℕ) × Line
unfolding c_string
key ch l =
    if is_newline ch
    then (let buf = update l.buf l.idx 0 in
        (some (c_string buf 0 command_buffer_len), record { buf = buf; idx = 0 }))
    else if is_backspace ch
    then (if ltb 0 l.idx
        then (none, record { buf = update l.buf l.idx 0; idx = l.idx - 1 })
        else (none, l))
    else if ltb l.idx (command_buffer_len - 1)
    then (if is_plain ch
        then (none, record { buf = update l.buf l.idx ch; idx = l.idx + 1 })
        else (none, l))
    else (none, l)

-- The lines of a sequence of characters, and the state behind it.
abbrev pub and_line : Option (List ℕ) → List (List ℕ) → List (List ℕ)
and_line none rest = rest
and_line (some text) rest = text ∷ rest

unfoldable pub keys : List ℕ → Line → List (List ℕ) × Line
unfolding key
keys [] l = ([], l)
keys (ch ∷ chs) l =
    let (text, l₁) = key ch l in let (texts, l₂) = keys chs l₁ in (and_line text texts, l₂)
