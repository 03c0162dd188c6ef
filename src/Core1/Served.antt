-- ===== src/Core1/Served.antt =====
-- What becomes of a system request.
use mathlib.Core.Option
use pico_thing_main.Base.{
  ◌+◌, ◌%◌, ℕ, ◌<◌, ◌≡◌, ◌≢◌, refl, ap, ◌∙◌, Bool, true, false, ◌==◌, ap₂, ==→eq, if◌then◌else◌,
  if_elim, arith, Option, none, some, [], ◌∷◌,
}
use pico_thing_main.Registers.{Registers, read_byte, put_byte, written_byte, copy_out}
use pico_thing_main.Registers.Laws.{copy_out-copy_in, copy_fault, copy_out_cong}
use pico_thing_main.Core1.Requests.{
  float_done, float_flags, operand, FloatUnit, Calendar, guest_time, system_request,
  system_response, request_time, request_set_time, response_done, response_busy, is_deferred,
  take_request, sysreq_process, get_time, set_time, respond, float_request,
}

-- Core 0 finds a request for the time, and the clock is set: the request is done, and the buffer
-- holds the seven bytes of the time.
get_time_lem :
    (t : Calendar) (r : Registers)
    → (s : Registers) × (get_time (some t) r ≡ some s)
      × (copy_out s 16 7 ≡ some (guest_time t))
      × (read_byte s system_response ≡ response_done)
unfolding get_time
get_time_lem t r =
    let (s, e, o, _, _) = copy_out-copy_in r 16 (guest_time t) (omega arith) in
    (
      respond response_done s,
      ap (Option.map (respond response_done)) e,
      copy_out_cong (respond response_done s) s 16 7 (λ j h. ground arith) ∙ o,
      refl,
    )

busy_lem :
    (f : FloatUnit) (b : ℕ) (r : Registers)
    → ¬ (read_byte r system_response ≡ response_busy)
    → is_deferred b ≡ true
    → take_request f b r
      ≡ put_byte
          (put_byte r system_request (written_byte r system_request))
          system_response
          response_busy
unfolding take_request
busy_lem f b r h d =
    let target =
      put_byte (put_byte r system_request (written_byte r system_request)) system_response
        response_busy in
    if_elim (λ (s : Registers). s ≡ target) (read_byte r system_response == response_busy)
      (λ e. absurd (h (==→eq _ _ e)))
      λ _.
        if_elim (λ (s : Registers). s ≡ target) (is_deferred b) (λ _. refl)
          (λ e. absurd (ground (arith, e, d)))

ignored_lem :
    (f : FloatUnit) (b : ℕ) (r : Registers)
    → read_byte r system_response ≡ response_busy
    → (take_request f b r).read_registers ≡ r.read_registers
unfolding take_request
ignored_lem f b r h =
    if_elim (λ (s : Registers). s.read_registers ≡ r.read_registers)
      (read_byte r system_response == response_busy) (λ _. refl)
      (λ e. absurd (ground (arith, e, h)))

process_time :
    (now : Option Calendar) (ok : Calendar → Bool) (r : Registers)
    → read_byte r system_response ≡ response_busy
    → read_byte r system_request ≡ request_time
    → sysreq_process now ok r ≡ get_time now r
unfolding sysreq_process
process_time now ok r b q =
    if_elim (λ (o : Option Registers). o ≡ get_time now r)
      (read_byte r system_response == response_busy)
      (λ _.
        if_elim (λ (o : Option Registers). o ≡ get_time now r)
          (read_byte r system_request == request_time) (λ _. refl)
          (λ e. absurd (ground (arith, e, q))))
      (λ e. absurd (ground (arith, e, b)))

-- The guest has written a request for the time while none was under way, and the loop takes it. The
-- response register then says busy, and as long as it does a further request of any kind changes no
-- byte that the guest reads. Core 0 serves the request without leaving the block: if the clock has
-- a time, the response is done, and the buffer holds seven bytes, each modulo 256: the year, the
-- month, counted from one where the clock counts from zero, the day, the hour, the minute, the second
-- and the day of the week.
pub time_request :
    (f : FloatUnit) (b : ℕ) (t : Calendar) (ok : Calendar → Bool) (r : Registers)
    → ¬ (read_byte r system_response ≡ response_busy)
    → written_byte r system_request ≡ request_time
    → let busy = take_request f request_time r in
      (read_byte busy system_response ≡ response_busy)
      × ((take_request f b busy).read_registers ≡ busy.read_registers)
      × (s : Registers) × (sysreq_process (some t) ok busy ≡ some s)
      × (copy_out s 16 7
          ≡ some (
              t.tm_year % 256
              ∷ (1 + t.tm_mon) % 256
              ∷ t.tm_mday % 256
              ∷ t.tm_hour % 256
              ∷ t.tm_min % 256
              ∷ t.tm_sec % 256
              ∷ t.tm_wday % 256
              ∷ []))
      × (read_byte s system_response ≡ response_done)
time_request f b t ok r h w =
    let e = busy_lem f request_time r h refl in
    let shown : read_byte (take_request f request_time r) system_response ≡ response_busy =
      ap (λ (s : Registers). read_byte s system_response) e in
    let kept : read_byte (take_request f request_time r) system_request ≡ request_time =
      ap (λ (s : Registers). read_byte s system_request) e ∙ w in
    let (s, g, o, d) = get_time_lem t (take_request f request_time r) in
    let month : t.tm_mon + 1 ≡ 1 + t.tm_mon = omega arith in
    let time = λ (m : ℕ). some (
      t.tm_year % 256
      ∷ m % 256
      ∷ t.tm_mday % 256
      ∷ t.tm_hour % 256
      ∷ t.tm_min % 256
      ∷ t.tm_sec % 256
      ∷ t.tm_wday % 256
      ∷ []) in
    (
      shown,
      ignored_lem f b (take_request f request_time r) shown,
      s,
      process_time (some t) ok (take_request f request_time r) shown kept ∙ g,
      o ∙ ap time month,
      d,
    )

-- A request to set the time is under way. Whatever the clock would answer, core 0 then loads from
-- outside the register block.
pub set_time_faults :
    (now : Option Calendar) (ok : Calendar → Bool) (r : Registers)
    → read_byte r system_response ≡ response_busy
    → read_byte r system_request ≡ request_set_time
    → sysreq_process now ok r ≡ none
unfolding sysreq_process set_time
set_time_faults now ok r b q =
    let (_, e, _) = copy_fault r 0xFFD0 0 (0 ∷ 0 ∷ 0 ∷ 0 ∷ 0 ∷ 0 ∷ []) (omega arith) in
    if_elim (λ (o : Option Registers). o ≡ none) (read_byte r system_response == response_busy)
      (λ _.
        if_elim (λ (o : Option Registers). o ≡ none) (read_byte r system_request == request_time)
          (λ d. absurd (ground (arith, d, q)))
          λ _.
            if_elim (λ (o : Option Registers). o ≡ none)
              (read_byte r system_request == request_set_time) (λ _. ap (Option.map _) e)
              (λ d. absurd (ground (arith, d, q))))
      (λ d. absurd (ground (arith, d, b)))

-- Two conditionals on one test.
if_both {ℓ κ} :
    {A : Type ℓ} (P : A → A → Type κ) (b : Bool) {x y u v : A}
    → P x u
    → P y v
    → P (if b then x else y) (if b then u else v)
if_both P true p q = p
if_both P false p q = q

-- Two blocks show the guest the same status and response.
abbrev SameAnswer : Registers → Registers → Type 0
SameAnswer s t =
    (read_byte t system_response ≡ read_byte s system_response)
    × (read_byte t system_request ≡ read_byte s system_request)

same_answer :
    (f : FloatUnit) (op : f.Float → f.Float → f.Float) (k v : ℕ) (r s t : Registers)
    → 16 < k
    → k < 24
    → k ≢ 20
    → SameAnswer
        (float_done f (op (operand f r 16) (operand f r 20)) s)
        (float_done f (op (operand f (put_byte r k v) 16) (operand f (put_byte r k v) 20)) t)
same_answer f op k v r s t l h n =
    let first : read_byte (put_byte r k v) 16 ≡ read_byte r 16 = ground arith in
    let second : read_byte (put_byte r k v) 20 ≡ read_byte r 20 = ground arith in
    (ap₂ (λ x y. float_flags f (op (f.of_byte x) (f.of_byte y))) first second, refl)

-- The three lower bytes of either operand do not matter to a float request: overwriting one of them
-- beforehand changes neither the status nor the response of any operation.
pub float_operands :
    (f : FloatUnit) (subrequest k v : ℕ) (r : Registers)
    → 16 < k
    → k < 24
    → k ≢ 20
    → let s = float_request f subrequest r in
      let t = float_request f subrequest (put_byte r k v) in
      (read_byte t system_response ≡ read_byte s system_response)
      × (read_byte t system_request ≡ read_byte s system_request)
unfolding float_request
float_operands f subrequest k v r l h n =
    if_both SameAnswer (subrequest == 43) (same_answer f f.add k v r r r l h n) (
      if_both SameAnswer (subrequest == 45) (same_answer f f.subtract k v r r r l h n) (
        if_both SameAnswer (subrequest == 42) (same_answer f f.multiply k v r r r l h n) (
          if_both SameAnswer (subrequest == 47) (same_answer f f.divide k v r r r l h n)
            (refl, refl))))
