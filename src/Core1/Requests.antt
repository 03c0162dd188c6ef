-- ===== src/Core1/Requests.antt =====
-- src/pico_thing.cpp: the system requests of the guest. main_core1 takes a request from a register,
-- and core 0 serves it in sysreq_process. The processor's floating point and the SDK's calendar
-- clock are parameters. `none` is an access outside a register block.
use mathlib.Core.Option
use pico_thing_main.Base.{
  ℕ, ◌+◌, ◌/◌, ◌%◌, Bool, ◌||◌, List, [], ◌∷◌, Option, none, some, ◌==◌, if◌then◌else◌, Cells,
  items, u8,
}
use pico_thing_main.Registers.{
  Registers, read_byte, put_byte, put_word, written_byte, write_byte, copy_in, copy_out,
}
use pico_thing_main.Core1.{buffer_offset, snippet_offset, reset_vector_offset, register_snippet}

-- SYSTEM_REQUEST and SYSTEM_REQUEST_STATUS; SYSTEM_SUBREQUEST and SYSTEM_REQUEST_RESPONSE.
abbrev pub system_request : ℕ
system_request = 2

abbrev pub system_response : ℕ
system_response = 3

abbrev pub request_time : ℕ
request_time = 84

abbrev pub request_set_time : ℕ
request_set_time = 116

abbrev pub request_mount : ℕ
request_mount = 77

abbrev pub request_unmount : ℕ
request_unmount = 109

abbrev pub request_float : ℕ
request_float = 82

abbrev pub response_done : ℕ
response_done = 1

abbrev pub response_busy : ℕ
response_busy = 0x7F

abbrev pub response_unknown : ℕ
response_unknown = 0xFF

abbrev pub response_unavailable : ℕ
response_unavailable = 0xFD

-- The type `float`, as the handler uses it.
pub record FloatUnit : Type 1 where
  pub Float : Type 0
  pub of_byte : ℕ → Float
  pub add : Float → Float → Float
  pub subtract : Float → Float → Float
  pub multiply : Float → Float → Float
  pub divide : Float → Float → Float
  pub negative : Float → Bool
  pub is_zero : Float → Bool
  pub word : Float → ℕ  -- uint32_t

-- `reg[i] = v` for a `float` v.
abbrev pub put_float : (f : FloatUnit) → Registers → ℕ → f.Float → Registers
put_float f r i v = let w = f.word v in put_word (put_word r i (w / 65536)) (i + 2) (w % 65536)

abbrev pub float_flags : (f : FloatUnit) → f.Float → ℕ
float_flags f c = if f.negative c then 8 else if f.is_zero c then 4 else 0

-- SYSTEM_REQUEST_STATUS and SYSTEM_REQUEST_RESPONSE after a float operation.
abbrev pub float_done : (f : FloatUnit) → f.Float → Registers → Registers
float_done f c r =
    put_byte (put_byte r system_request response_done) system_response (float_flags f c)

-- `float a = reg[…]` takes the conversion of the register to `uint8_t`, since the one to `float` is
-- explicit.
abbrev pub operand : (f : FloatUnit) → Registers → ℕ → f.Float
operand f r i = f.of_byte (read_byte r i)

-- REQUEST_FLOAT, with the sub-request: '+', '-', '*' and '/'.
unfoldable pub float_request : FloatUnit → ℕ → Registers → Registers
float_request f subrequest r =
    let a = operand f r buffer_offset in
    let b = operand f r (buffer_offset + 4) in
    if subrequest == 43
    then float_done f (f.add a b) (put_float f r buffer_offset (f.add a b))
    else if subrequest == 45
    then float_done f (f.subtract a b) (put_float f r buffer_offset (f.subtract a b))
    else if subrequest == 42
    then float_done f (f.multiply a b) (put_float f r buffer_offset (f.multiply a b))
    else if subrequest == 47
    then float_done f (f.divide a b) r
    else put_byte (put_byte r system_request response_unknown) system_response 0

-- The requests that are left to core 0.
abbrev pub is_deferred : ℕ → Bool
is_deferred b =
    b == request_time || (b == request_set_time || (b == request_mount || b == request_unmount))

-- The case SYSTEM_REQUEST of main_core1.
unfoldable pub take_request : FloatUnit → ℕ → Registers → Registers
unfolding float_request
take_request f written_byte_ r =
    if read_byte r system_response == response_busy
    then write_byte r system_request (read_byte r system_request)
    else if is_deferred written_byte_
    then put_byte (put_byte r system_request (written_byte r system_request)) system_response
        response_busy
    else if written_byte_ == request_float
    then float_request f (written_byte r system_response) r
    else put_byte (write_byte (put_byte r system_request 0) system_request 0) system_response
        response_unknown

-- struct tm, of which the clock fills these.
pub record Calendar : Type 0 where
  pub tm_year : ℕ
  pub tm_mon : ℕ
  pub tm_mday : ℕ
  pub tm_hour : ℕ
  pub tm_min : ℕ
  pub tm_sec : ℕ
  pub tm_wday : ℕ

-- guest_time, the bytes of the union.
abbrev pub guest_time : Calendar → List ℕ
guest_time t =
    u8 t.tm_year
    ∷ u8 (t.tm_mon + 1)
    ∷ u8 t.tm_mday
    ∷ u8 t.tm_hour
    ∷ u8 t.tm_min
    ∷ u8 t.tm_sec
    ∷ u8 t.tm_wday
    ∷ []

abbrev pub calendar_of : List ℕ → Calendar
calendar_of (y ∷ mo ∷ d ∷ h ∷ mi ∷ s ∷ w ∷ _) = record {
  tm_year = y;
  tm_mon = mo;
  tm_mday = d;
  tm_hour = h;
  tm_min = mi;
  tm_sec = s;
  tm_wday = w;
}
calendar_of _ = record {
  tm_year = 0;
  tm_mon = 0;
  tm_mday = 0;
  tm_hour = 0;
  tm_min = 0;
  tm_sec = 0;
  tm_wday = 0;
}

abbrev pub respond : ℕ → Registers → Registers
respond v r = put_byte r system_response v

-- REQUEST_TIME, with what aon_timer_get_time_calendar finds.
unfoldable pub get_time : Option Calendar → Registers → Option Registers
get_time none r = some (respond response_unavailable r)
get_time (some t) r = Option.map (respond response_done) (copy_in r buffer_offset (guest_time t))

-- REQUEST_SET_TIME, with whether aon_timer_set_time_calendar succeeds. The source address is
-- REGISTER_BUFFER.
unfoldable pub set_time : (Calendar → Bool) → Registers → Option Registers
set_time ok r =
    Option.map
      (λ (bytes : List ℕ).
        respond (if ok (calendar_of bytes) then response_done else response_unavailable) r)
      (copy_out r 0xFFD0 7)

unfoldable pub sysreq_process : Option Calendar → (Calendar → Bool) → Registers → Option Registers
unfolding get_time set_time
sysreq_process now ok r =
    if read_byte r system_response == response_busy
    then (let request = read_byte r system_request in
        if request == request_time
        then get_time now r
        else if request == request_set_time
        then set_time ok r
        else if request == request_mount || request == request_unmount
        then some (respond response_unavailable r)
        else some r)
    else some r

-- snippet_copy, with the sixteen bytes of a snippet.
unfoldable pub snippet_copy : Cells → Registers → Option Registers
snippet_copy code r =
    Option.map (λ (s : Registers). put_word s reset_vector_offset register_snippet)
      (copy_in r snippet_offset (items code 0 16))
