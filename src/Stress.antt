-- ===== src/Stress.antt =====
-- chunk/stress_acia.c: the guest's test of the flow control of the auxiliary serial port. It sends
-- frames, expects the host to send each of them back, and reports PASS or FAIL. `Line` is what the
-- successive calls of INCH find: a byte, or none; behind its end no byte ever comes. OUTCH takes each
-- byte. The flush of the port before the interrupts are on is left out.
pub mod Xor
pub mod Received
pub mod Frames
pub mod Echo
use mathlib.Core.Option
use Prim.Native.Nat.{bit_xor}
use pico_thing_main.Base.{
  ℕ, zero, suc, ◌+◌, ◌/◌, ◌%◌, Bool, true, false, ◌&&◌, List, [], ◌∷◌, ◌++◌, Option, none, some,
  ◌==◌, if◌then◌else◌, take, u8, u16, word_of,
}

abbrev pub sof : ℕ
sof = 0x02

abbrev pub frame_eof : ℕ
frame_eof = 0x03

abbrev pub payload_len : ℕ
payload_len = 4096

abbrev pub num_frames : ℕ
num_frames = 16

abbrev pub timeout : ℕ
timeout = 3000000

-- The silent polls that main waits for before it answers.
abbrev pub quiet_polls : ℕ
quiet_polls = 10000

abbrev pub Line : Type 0
Line = List (Option ℕ)

-- The polls left: the byte, if one comes in time.
unfoldable pub aux_recv : ℕ → Line → Option ℕ × Line
aux_recv zero l = (none, l)
aux_recv (suc t) [] = (none, [])
aux_recv (suc t) (some b ∷ l) = (some b, l)
aux_recv (suc t) (none ∷ l) = aux_recv t l

-- The rounds of a loop in assembler that counts down to zero and tests at its end.
abbrev pub rounds : ℕ → ℕ
rounds count = if count == 0 then 65536 else count

-- The loop that sends: the rounds left, the next byte, and the exclusive or of what was sent. The
-- result is the bytes sent, the next byte and the exclusive or.
unfoldable pub send_payload : ℕ → ℕ → ℕ → List ℕ × ℕ × ℕ
send_payload zero sv payload_chk = ([], sv, payload_chk)
send_payload (suc n) sv payload_chk =
    let (bs, sv', chk') = send_payload n (u8 (sv + 1)) (bit_xor payload_chk sv) in
    (sv ∷ bs, sv', chk')

-- The bytes sent and the next payload byte. Since OUTCH blocks, the result of the source is zero.
unfoldable pub send_frame : ℕ → ℕ → ℕ → List ℕ × ℕ
unfolding send_payload
send_frame seq len tx_val =
    let hi = u8 (len / 256) in
    let lo = u8 len in
    let (bs, sv, payload_chk) = send_payload (rounds len) tx_val 0 in
    let chk = bit_xor (bit_xor (bit_xor (bit_xor 0 seq) hi) lo) payload_chk in
    (sof ∷ seq ∷ hi ∷ lo ∷ (bs ++ chk ∷ frame_eof ∷ []), sv)

-- What recv_frame writes through its pointers.
pub record Check : Type 0 where
  pub rx_expected : ℕ
  pub rx_got : ℕ
  pub rx_errors : ℕ

-- `(*errors)++`
abbrev pub add_error : Check → Check
add_error c = record c { rx_errors = u16 (c.rx_errors + 1) }

-- The loop that receives the payload: the rounds left. `none` means that it spins for ever.
unfoldable pub receive_payload : ℕ → Line → Option (List ℕ × Line)
receive_payload zero l = some ([], l)
receive_payload (suc n) [] = none
receive_payload (suc n) (none ∷ l) = receive_payload (suc n) l
receive_payload (suc n) (some b ∷ l) = Option.map (λ x. (b ∷ x.0, x.1)) (receive_payload n l)

abbrev pub verify_byte : ℕ → Check → Check
verify_byte b c = record {
  rx_expected = u8 ((if b == c.rx_expected then c.rx_expected else b) + 1);
  rx_got = u16 (c.rx_got + 1);
  rx_errors = if b == c.rx_expected then c.rx_errors else u16 (c.rx_errors + 1);
}

-- The loop over rx_payload, with `chk`.
unfoldable pub verify_payload : List ℕ → ℕ → Check → ℕ × Check
verify_payload [] chk c = (chk, c)
verify_payload (b ∷ bs) chk c = verify_payload bs (bit_xor chk b) (verify_byte b c)

-- The result of recv_frame, what it has written, and what has not been read.
abbrev pub Received : Type 0
Received = ℕ × Check × Line

-- `if (aux_recv(&b)) return 1;`
abbrev pub with_byte : Check → Line → (ℕ → Line → Option Received) → Option Received
with_byte c l next =
    let x = aux_recv timeout l in elim x.0 [ none ↦ some (1, c, x.1) | some b ↦ next b x.1 ]

unfoldable pub recv_eof : Check → Line → Option Received
unfolding aux_recv
recv_eof c l =
    with_byte c l λ b l'. if b == frame_eof then some (0, c, l') else some (5, add_error c, l')

unfoldable pub recv_chk : ℕ → Check → Line → Option Received
unfolding recv_eof
recv_chk chk c l =
    with_byte c l λ b l'. if b == chk then recv_eof c l' else some (4, add_error c, l')

unfoldable pub recv_payload : ℕ → ℕ → Check → Line → Option Received
unfolding receive_payload verify_payload recv_chk
recv_payload chk len c l =
    Option.bind (receive_payload (rounds len) l)
      λ x. let (chk', c') = verify_payload (take len x.0) chk c in recv_chk chk' c' x.1

unfoldable pub recv_len : ℕ → ℕ → Check → Line → Option Received
unfolding recv_payload
recv_len chk expected_len c l = with_byte c l λ hi l₁. with_byte c l₁ λ lo l₂.
    if word_of hi lo == expected_len
    then recv_payload (bit_xor (bit_xor chk hi) lo) (word_of hi lo) c l₂
    else some (3, add_error c, l₂)

unfoldable pub recv_seq : ℕ → ℕ → Check → Line → Option Received
unfolding recv_len
recv_seq expected_seq expected_len c l =
    with_byte c l
      λ b l'. recv_len (bit_xor 0 b) expected_len (if b == expected_seq then c else add_error c) l'

unfoldable pub recv_frame : ℕ → ℕ → Check → Line → Option Received
unfolding recv_seq
recv_frame expected_seq expected_len c l =
    with_byte c l λ b l'.
      if b == sof then recv_seq expected_seq expected_len c l' else some (2, add_error c, l')

-- The variables of main, and the bytes sent.
pub record Test : Type 0 where
  pub tx_val : ℕ
  pub check : Check
  pub frame_ok : ℕ
  pub frame_fail : ℕ
  pub sent : List ℕ

-- The loop over the frames: the rounds left, and `seq`.
unfoldable pub run_frames : ℕ → ℕ → Test → Line → Option Test
run_frames zero seq t l = some t
run_frames (suc n) seq t l =
    let (bs, tx) = send_frame seq payload_len t.tx_val in
    Option.bind (recv_frame seq payload_len t.check l) λ x. elim (x.0 == 0) [
      | true ↦
          let passed : Test = record {
            tx_val = tx;
            check = x.1;
            frame_ok = u16 (t.frame_ok + 1);
            frame_fail = t.frame_fail;
            sent = t.sent ++ bs;
          } in
          run_frames n (u8 (seq + 1)) passed x.2
      | false ↦ some (record {
        tx_val = tx;
        check = x.1;
        frame_ok = t.frame_ok;
        frame_fail = u16 (t.frame_fail + 1);
        sent = t.sent ++ bs;
      })
    ]

-- The polls left: what follows a 'G', if one comes in time.
unfoldable pub wait_go : ℕ → Line → Option Line
wait_go zero l = none
wait_go (suc t) [] = none
wait_go (suc t) (none ∷ l) = wait_go t l
wait_go (suc t) (some ch ∷ l) = elim (ch == b'G') [ true ↦ some l | false ↦ wait_go t l ]

-- The silent polls still to come.
unfoldable pub drain_stale : ℕ → Line → Line
drain_stale zero l = l
drain_stale (suc n) [] = []
drain_stale (suc n) (none ∷ l) = drain_stale n l
drain_stale (suc n) (some b ∷ l) = drain_stale quiet_polls l

-- How main ends.
pub data Outcome : Type 0 where
  no_host : Outcome
  report : Test → Outcome

-- What is sent before the frames is an 'R'.
abbrev pub start : Test
start = record {
  tx_val = 0;
  check = record { rx_expected = 0; rx_got = 0; rx_errors = 0 };
  frame_ok = 0;
  frame_fail = 0;
  sent = b'R' ∷ [];
}

-- main, with `none` where it spins for ever.
unfoldable pub stress : Line → Option Outcome
stress l = elim (wait_go timeout l) [
  | none ↦ some no_host
  | some l' ↦ Option.map report (run_frames num_frames 0 start (drain_stale quiet_polls l'))
]

-- Whether the report says PASS.
abbrev pub passed : Test → Bool
passed t = t.frame_ok == num_frames && t.check.rx_errors == 0
