-- ===== src/Stress/Frames.antt =====
-- A run of the test whose frames arrive in time.
use mathlib.Core.Option
use Prim.Native.Nat.{bit_xor}
use pico_thing_main.Base.{
  ℕ, zero, suc, ◌+◌, ◌*◌, ◌/◌, ◌<◌, ◌≡◌, refl, sym, ap, ap₂, ◌∙◌, Bool, true, false, List, [], ◌∷◌,
  ◌++◌, append_assoc, append-nil, Option, none, some, ◌==◌, eq→==, arith, if◌then◌else◌, length,
  length-append, u8, u16,
}
use pico_thing_main.Stress.{
  Line, Check, Received, Test, Outcome, report, no_host, start, payload_len, num_frames, timeout,
  quiet_polls, rounds, add_error, send_payload, send_frame, recv_frame, run_frames, wait_go,
  drain_stale, stress,
}
use pico_thing_main.Stress.Xor.{bit_xor_assoc, bit_xor-zero}
use pico_thing_main.Stress.Received.{
  pause, Arrives, Arrives-split, checksum, frame, header_sum, jumps, following, counted, InRange,
  recv_frame-Arrives,
}

-- The bytes that count upwards from a value.
unfoldable pub counting : ℕ → ℕ → List ℕ
counting v zero = []
counting v (suc n) = v ∷ counting (u8 (v + 1)) n

pub length-counting : (v n : ℕ) → length (counting v n) ≡ n
unfolding counting
length-counting v zero = refl
length-counting v (suc n) = ap suc (length-counting (u8 (v + 1)) n)

send_payload_lem :
    (n v x : ℕ)
    → v < 256
    → send_payload n v x ≡ (counting v n, u8 (v + n), checksum (counting v n) x)
unfolding send_payload counting
send_payload_lem zero v x h = ground arith
send_payload_lem (suc n) v x h =
    let ih = send_payload_lem n (u8 (v + 1)) (bit_xor x v) (omega arith) in
    ap (λ (y : List ℕ × ℕ × ℕ). (v ∷ y.0, y.1, y.2)) ih
    ∙ ap (λ w. (counting v (suc n), w, checksum (counting v (suc n)) x)) (omega arith)

-- The sender keeps the payload's exclusive or apart, the receiver goes on from the header's.
checksum-bit_xor : (bs : List ℕ) (x y : ℕ) → checksum bs (bit_xor x y) ≡ bit_xor x (checksum bs y)
checksum-bit_xor [] x y = refl
checksum-bit_xor (b ∷ bs) x y =
    ap (checksum bs) (bit_xor_assoc x y b) ∙ checksum-bit_xor bs x (bit_xor y b)

-- What the sender sends for a payload of a known length is a frame that the receiver takes.
send_frame_lem :
    (seq len v : ℕ)
    → 0 < len
    → v < 256
    → send_frame seq len v ≡ (frame seq (counting v len), u8 (v + len))
unfolding send_frame
send_frame_lem seq len v pos h =
    let bs = counting v len in
    let hd = header_sum seq len in
    let build : List ℕ × ℕ × ℕ → List ℕ × ℕ =
      λ y. (2 ∷ seq ∷ u8 (len / 256) ∷ u8 len ∷ (y.0 ++ bit_xor hd y.2 ∷ 3 ∷ []), y.1) in
    let framed : ℕ → ℕ → List ℕ × ℕ =
      λ n chk. (2 ∷ seq ∷ u8 (n / 256) ∷ u8 n ∷ (bs ++ chk ∷ 3 ∷ []), u8 (v + len)) in
    let same : rounds len ≡ len = ground arith in
    let sums : bit_xor hd (checksum bs 0) ≡ checksum bs hd =
      sym (checksum-bit_xor bs hd 0) ∙ ap (checksum bs) (bit_xor-zero hd) in
    let sent : send_payload (rounds len) v 0 ≡ (bs, u8 (v + len), checksum bs 0) =
      ap (λ n. send_payload n v 0) same ∙ send_payload_lem len v 0 h in
    ap build sent
    ∙ ap (framed len) sums
    ∙ sym (ap (λ n. framed n (checksum bs (header_sum seq n))) (length-counting v len))

-- Frames one after the other, and their payloads.
abbrev pub stream : ℕ → List (List ℕ) → List ℕ
stream seq [] = []
stream seq (bs ∷ payloads) = frame seq bs ++ stream (u8 (seq + 1)) payloads

abbrev pub concat : List (List ℕ) → List ℕ
concat [] = []
concat (bs ∷ payloads) = bs ++ concat payloads

-- Payloads of the test's length.
abbrev pub AllWhole : List (List ℕ) → Type 0
AllWhole [] = Unit {0}
AllWhole (bs ∷ payloads) = (length bs ≡ payload_len) × AllWhole payloads

-- The payloads that the test sends.
abbrev pub ramps : ℕ → List (List ℕ)
ramps zero = []
ramps (suc n) = counting 0 payload_len ∷ ramps n

pub jumps-append :
    (e : ℕ) (xs ys : List ℕ) → jumps e (xs ++ ys) ≡ jumps e xs + jumps (following e xs) ys
jumps-append e [] ys = omega arith
jumps-append e (x ∷ xs) ys = omega (arith, jumps-append (u8 (x + 1)) xs ys)

pub following-append :
    (e : ℕ) (xs ys : List ℕ) → following e (xs ++ ys) ≡ following (following e xs) ys
following-append e [] ys = refl
following-append e (x ∷ xs) ys = following-append (u8 (x + 1)) xs ys

counted-append : (xs ys : List ℕ) (c : Check) → counted ys (counted xs c) ≡ counted (xs ++ ys) c
counted-append xs ys c = ground (
  arith,
  jumps-append c.rx_expected xs ys,
  following-append c.rx_expected xs ys,
  length-append xs ys,
)

counted-InRange : (xs : List ℕ) (c : Check) → InRange (counted xs c)
counted-InRange xs c = ground arith

-- What the test is left with after frames that it takes.
abbrev pub after : ℕ → List (List ℕ) → Test → Test
after seq payloads t = record {
  tx_val = 0;
  check = counted (concat payloads) t.check;
  frame_ok = u16 (t.frame_ok + length payloads);
  frame_fail = t.frame_fail;
  sent = t.sent ++ stream seq (ramps (length payloads));
}

run_frames_step :
    (n seq : ℕ) (bs : List ℕ) (t : Test) (l m : Line)
    → length bs ≡ payload_len
    → t.tx_val ≡ 0
    → InRange t.check
    → Arrives (frame seq bs) l m
    → run_frames (suc n) seq t l
      ≡ run_frames n
          (u8 (seq + 1))
          (record {
            tx_val = 0;
            check = counted bs t.check;
            frame_ok = u16 (t.frame_ok + 1);
            frame_fail = t.frame_fail;
            sent = t.sent ++ frame seq (counting 0 payload_len);
          })
          m
unfolding run_frames Option.bind
run_frames_step n seq bs t l m whole zero_tx i h =
    let go : List ℕ × ℕ → Option Received → Option Test = λ y o. Option.bind o λ x.
      elim (x.0 == 0) [
        | true ↦
            let passed : Test = record {
              tx_val = y.1;
              check = x.1;
              frame_ok = u16 (t.frame_ok + 1);
              frame_fail = t.frame_fail;
              sent = t.sent ++ y.0;
            } in
            run_frames n (u8 (seq + 1)) passed x.2
        | false ↦ some (record {
          tx_val = y.1;
          check = x.1;
          frame_ok = t.frame_ok;
          frame_fail = u16 (t.frame_fail + 1);
          sent = t.sent ++ y.0;
        })
      ] in
    let taken : recv_frame seq payload_len t.check l ≡ some (0, counted bs t.check, m) =
      ap (λ k. recv_frame seq k t.check l) (sym whole)
      ∙ recv_frame-Arrives seq seq bs t.check l m i (omega (arith, whole)) (omega (arith, whole)) h
      ∙ ap (λ (y : Bool). some (0, counted bs (if y then t.check else add_error t.check), m))
          (eq→== seq seq refl) in
    ap (λ v. go (send_frame seq payload_len v) (recv_frame seq payload_len t.check l)) zero_tx
    ∙ ap₂ go (send_frame_lem seq payload_len 0 (omega arith) (omega arith)) taken

run_frames-Arrives :
    (payloads : List (List ℕ)) (seq : ℕ) (t : Test) (l r : Line)
    → AllWhole payloads
    → t.tx_val ≡ 0
    → t.frame_ok < 65536
    → InRange t.check
    → Arrives (stream seq payloads) l r
    → run_frames (length payloads) seq t l ≡ some (after seq payloads t)
unfolding run_frames
run_frames-Arrives [] seq t l r v z o i h = ground (arith, append-nil t.sent)
run_frames-Arrives (bs ∷ payloads) seq t l r (w, v) z o i h =
    let (m, first, others) = Arrives-split (frame seq bs) (stream (u8 (seq + 1)) payloads) l r h in
    let one = frame seq (counting 0 payload_len) in
    let more = stream (u8 (seq + 1)) (ramps (length payloads)) in
    let build : Check → ℕ → List ℕ → Option Test = λ c k xs.
      some (record { tx_val = 0; check = c; frame_ok = k; frame_fail = t.frame_fail; sent = xs }) in
    run_frames_step (length payloads) seq bs t l m w z i first
    ∙ run_frames-Arrives payloads (u8 (seq + 1)) _ m r v refl (omega arith)
        (counted-InRange bs t.check) others
    ∙ ap (λ c. build c (u16 (u16 (t.frame_ok + 1) + length payloads)) ((t.sent ++ one) ++ more))
        (counted-append bs (concat payloads) t.check)
    ∙ ap (λ k. build (counted (bs ++ concat payloads) t.check) k ((t.sent ++ one) ++ more))
        (omega arith)
    ∙ ap
        (build (counted (bs ++ concat payloads) t.check) (u16 (t.frame_ok + suc (length payloads))))
        (append_assoc t.sent one more)

-- The host that is heard: silent polls, a 'G', as many silent polls as main waits for, and frames.
abbrev pub heard : ℕ → Line → Line
heard p l = pause p (some b'G' ∷ pause quiet_polls l)

wait_go-pause : (t p : ℕ) (l : Line) → p < t → wait_go t (pause p (some b'G' ∷ l)) ≡ some l
unfolding wait_go pause
wait_go-pause zero p l h = absurd (omega (arith, h))
wait_go-pause (suc t) zero l h = refl
wait_go-pause (suc t) (suc p) l h = wait_go-pause t p l (omega (arith, h))

drain_stale-pause : (n : ℕ) (l : Line) → drain_stale n (pause n l) ≡ l
unfolding drain_stale pause
drain_stale-pause zero l = refl
drain_stale-pause (suc n) l = drain_stale-pause n l

pub length-concat :
    (payloads : List (List ℕ))
    → AllWhole payloads
    → length (concat payloads) ≡ length payloads * 4096
length-concat [] v = refl
length-concat (bs ∷ payloads) (w, v) =
    omega (arith, length-append bs (concat payloads), w, length-concat payloads v)

-- What the test has counted and sent at its end.
abbrev pub tested : List (List ℕ) → Test
tested payloads = record {
  tx_val = 0;
  check = record {
    rx_expected = following 0 (concat payloads);
    rx_got = 0;
    rx_errors = u16 (jumps 0 (concat payloads));
  };
  frame_ok = num_frames;
  frame_fail = 0;
  sent = b'R' ∷ stream 0 (ramps num_frames);
}

-- A host is heard in time, and then sixteen frames arrive in time, with the right markers, numbers,
-- lengths and checksums, whatever their payloads of 4096 bytes are. Then the test ends. It has sent
-- an 'R' and sixteen frames that each count from 0 to 255 sixteen times. It has taken all frames and
-- counts no bad one; its total of received bytes, which is 65536, shows as zero; and its errors are
-- the places where a received byte is not the one after its predecessor (the first: not zero),
-- modulo 65536. So it reports PASS exactly if the number of these places is divisible by 65536.
pub stress-Arrives :
    (p : ℕ) (payloads : List (List ℕ)) (l r : Line)
    → p < timeout
    → length payloads ≡ num_frames
    → AllWhole payloads
    → Arrives (stream 0 payloads) l r
    → stress (heard p l) ≡ some (report (tested payloads))
unfolding stress
stress-Arrives p payloads l r h n v a =
    let run : Option Line → Option Outcome = λ o. elim o [
      | none ↦ some no_host
      | some l' ↦ Option.map report (run_frames num_frames 0 start (drain_stale quiet_polls l'))
    ] in
    let got : u16 (0 + length (concat payloads)) ≡ 0 = omega (arith, length-concat payloads v, n) in
    let errors = jumps 0 (concat payloads) in
    let done : ℕ → ℕ → ℕ → ℕ → Option Outcome = λ k g m e. some (
      report (record {
        tx_val = 0;
        check = record { rx_expected = following 0 (concat payloads); rx_got = g; rx_errors = e };
        frame_ok = m;
        frame_fail = 0;
        sent = b'R' ∷ stream 0 (ramps k);
      })) in
    ap run (wait_go-pause timeout p (pause quiet_polls l) h)
    ∙ ap (λ x. Option.map report (run_frames num_frames 0 start x))
        (drain_stale-pause quiet_polls l)
    ∙ ap (λ k. Option.map report (run_frames k 0 start l)) (sym n)
    ∙ ap (Option.map report)
        (run_frames-Arrives payloads 0 start l r v refl (omega arith) (omega arith) a)
    ∙ ap (λ k. done k (u16 (0 + length (concat payloads))) (u16 (0 + k)) (u16 (0 + errors))) n
    ∙ ap (λ g. done num_frames g num_frames (u16 (0 + errors))) got
    ∙ ap (done num_frames 0 num_frames) (omega arith)
