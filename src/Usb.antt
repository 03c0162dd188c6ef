-- ===== src/Usb.antt =====
-- src/usb.c: the reads and writes of the two USB serial interfaces. TinyUSB is a parameter: the
-- state of an interface and what its functions return and leave.
pub mod Laws
use pico_thing_main.Base.{ℕ, ◌≤◌, ◌≡◌, Bool, List, [], ◌++◌, ltb, not, if◌then◌else◌, length, take}

-- tud_cdc_n_connected, tud_cdc_n_available, tud_cdc_n_read, tud_cdc_n_write, tud_cdc_n_write_flush
pub record Cdc : Type 1 where
  pub State : Type 0
  pub connected : State → Bool
  pub available : State → ℕ
  pub read : ℕ → State → List ℕ × State
  pub write : List ℕ → State → ℕ × State
  pub write_flush : State → State

-- What TinyUSB documents: an interface has a queue of bytes from the host and one to it; a read
-- takes the oldest bytes of the one and no more than asked for, a write appends as many of the bytes
-- as it says to the other.
pub record IsCdc (c : Cdc) : Type 0 where
  pub waiting : c.State → List ℕ
  pub sent : c.State → List ℕ
  pub read_at_most : (n : ℕ) (s : c.State) → length (c.read n s).0 ≤ n
  pub read_waiting : (n : ℕ) (s : c.State) → (c.read n s).0 ++ waiting (c.read n s).1 ≡ waiting s
  pub read_sent : (n : ℕ) (s : c.State) → sent (c.read n s).1 ≡ sent s
  pub write_at_most : (xs : List ℕ) (s : c.State) → (c.write xs s).0 ≤ length xs
  pub write_sent :
      (xs : List ℕ) (s : c.State) → sent (c.write xs s).1 ≡ sent s ++ take (c.write xs s).0 xs
  pub write_waiting : (xs : List ℕ) (s : c.State) → waiting (c.write xs s).1 ≡ waiting s
  pub flush_waiting : (s : c.State) → waiting (c.write_flush s) ≡ waiting s
  pub flush_sent : (s : c.State) → sent (c.write_flush s) ≡ sent s

-- The bytes that are stored, and the interface.
unfoldable pub usb_cdc_read_n : (c : Cdc) → ℕ → c.State → List ℕ × c.State
usb_cdc_read_n c buf_len s =
    if not (c.connected s)
    then ([], s)
    else if ltb 0 (c.available s)
    then c.read buf_len s
    else ([], s)

-- The number of bytes that are taken, and the interface.
unfoldable pub usb_cdc_write_n : (c : Cdc) → List ℕ → c.State → ℕ × c.State
usb_cdc_write_n c bytes s =
    if not (c.connected s) then (0, s) else if ltb 0 (length bytes) then c.write bytes s else (0, s)

unfoldable pub usb_cdc_flush_n : (c : Cdc) → c.State → c.State
usb_cdc_flush_n c s = if c.connected s then c.write_flush s else s
