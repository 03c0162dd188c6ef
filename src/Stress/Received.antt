-- ===== src/Stress/Received.antt =====
-- Bytes that arrive on a line in time, and what recv_frame makes of a whole frame.
use mathlib.Core.Option
use Prim.Native.Nat.{bit_xor}
use pico_thing_main.Base.{
  ℕ, zero, suc, ◌+◌, ◌/◌, ◌<◌, ◌≡◌, refl, ap, ◌∙◌, Bool, List, [], ◌∷◌, ◌++◌, Option, none, some,
  ◌==◌, eq→==, arith, if◌then◌else◌, length, take, u8, u16, word_of,
}
use pico_thing_main.Stress.{
  Line, Check, Received, sof, frame_eof, timeout, rounds, add_error, verify_byte, aux_recv,
  receive_payload, verify_payload, recv_eof, recv_chk, recv_payload, recv_len, recv_seq, recv_frame,
  with_byte,
}

-- Silent polls, and then the line.
unfoldable pub pause : ℕ → Line → Line
pause zero l = l
pause (suc p) l = none ∷ pause p l

-- The bytes arrive on the first line, each before a wait for it times out, and leave the second.
abbrev pub Arrives : List ℕ → Line → Line → Type 0
Arrives [] l r = l ≡ r
Arrives (b ∷ bs) l r =
    (p : ℕ) × (m : Line) × (p < timeout) × (l ≡ pause p (some b ∷ m)) × Arrives bs m r

pub Arrives-split :
    (bs cs : List ℕ) (l r : Line)
    → Arrives (bs ++ cs) l r
    → (m : Line) × Arrives bs l m × Arrives cs m r
Arrives-split [] cs l r h = (l, refl, h)
Arrives-split (b ∷ bs) cs l r (p, n, t, e, h) =
    let x = Arrives-split bs cs n r h in (x.0, (p, n, t, e, x.1), x.2)

aux_recv-pause : (t p b : ℕ) (l : Line) → p < t → aux_recv t (pause p (some b ∷ l)) ≡ (some b, l)
unfolding aux_recv pause
aux_recv-pause zero p b l h = absurd (omega (arith, h))
aux_recv-pause (suc t) zero b l h = refl
aux_recv-pause (suc t) (suc p) b l h = aux_recv-pause t p b l (omega (arith, h))

with_byte-Arrives :
    (c : Check) (b p : ℕ) (l m : Line) (next : ℕ → Line → Option Received)
    → p < timeout
    → l ≡ pause p (some b ∷ m)
    → with_byte c l next ≡ next b m
with_byte-Arrives c b p l m next h e =
    ap (λ (x : Line). with_byte c x next) e
    ∙ ap
        (λ (x : Option ℕ × Line). elim x.0 as (λ _. Option Received) [
          | none ↦ some (1, c, x.1)
          | some v ↦ next v x.1
        ])
        (aux_recv-pause timeout p b m h)

receive_payload-pause :
    (n p b : ℕ) (l : Line)
    → receive_payload (suc n) (pause p (some b ∷ l))
      ≡ Option.map (λ x. (b ∷ x.0, x.1)) (receive_payload n l)
unfolding receive_payload pause
receive_payload-pause n zero b l = refl
receive_payload-pause n (suc p) b l = receive_payload-pause n p b l

receive_payload-Arrives :
    (bs : List ℕ) (l r : Line) → Arrives bs l r → receive_payload (length bs) l ≡ some (bs, r)
unfolding receive_payload
receive_payload-Arrives [] l r h = ap (λ x. some ([], x)) h
receive_payload-Arrives (b ∷ bs) l r (p, m, t, e, h) =
    ap (receive_payload (suc (length bs))) e
    ∙ receive_payload-pause (length bs) p b m
    ∙ ap (Option.map (λ x. (b ∷ x.0, x.1))) (receive_payload-Arrives bs m r h)

pub take-length {ℓ} : {A : Type ℓ} (xs : List A) → take (length xs) xs ≡ xs
take-length [] = refl
take-length (x ∷ xs) = ap (◌∷◌ x) (take-length xs)

rounds_pos : (n : ℕ) → 0 < n → rounds n ≡ n
rounds_pos n h = ground arith

-- The checksum that the receiver works out, from the sequence number on.
abbrev pub checksum : List ℕ → ℕ → ℕ
checksum [] chk = chk
checksum (b ∷ bs) chk = checksum bs (bit_xor chk b)

-- A frame with a sequence number and a payload.
abbrev pub header_sum : ℕ → ℕ → ℕ
header_sum seq len = bit_xor (bit_xor (bit_xor 0 seq) (u8 (len / 256))) (u8 len)

abbrev pub frame : ℕ → List ℕ → List ℕ
frame seq bs =
    sof
    ∷ seq
    ∷ u8 (length bs / 256)
    ∷ u8 (length bs)
    ∷ (bs ++ checksum bs (header_sum seq (length bs)) ∷ frame_eof ∷ [])

-- How often a byte is not the one after its predecessor, and the byte after the last.
abbrev pub jumps : ℕ → List ℕ → ℕ
jumps e [] = 0
jumps e (b ∷ bs) = (if b == e then 0 else 1) + jumps (u8 (b + 1)) bs

abbrev pub following : ℕ → List ℕ → ℕ
following e [] = e
following e (b ∷ bs) = following (u8 (b + 1)) bs

-- What a check of bytes counts.
abbrev pub counted : List ℕ → Check → Check
counted bs c = record {
  rx_expected = following c.rx_expected bs;
  rx_got = u16 (c.rx_got + length bs);
  rx_errors = u16 (c.rx_errors + jumps c.rx_expected bs);
}

pub record InRange (c : Check) : Type 0 where
  pub got_range : c.rx_got < 65536
  pub errors_range : c.rx_errors < 65536

byte_expected : (b e : ℕ) → u8 ((if b == e then e else b) + 1) ≡ u8 (b + 1)
byte_expected b e = ground arith

pub verify_payload_lem :
    (bs : List ℕ) (chk : ℕ) (c : Check)
    → InRange c
    → verify_payload bs chk c ≡ (checksum bs chk, counted bs c)
unfolding verify_payload
verify_payload_lem [] chk c r = ground arith
verify_payload_lem (b ∷ bs) chk c r =
    verify_payload_lem bs (bit_xor chk b) (verify_byte b c) (ground arith)
    ∙ ground (arith, byte_expected b c.rx_expected)

-- The last two bytes of a frame.
recv_chk-Arrives :
    (chk : ℕ) (c : Check) (l r : Line)
    → Arrives (chk ∷ frame_eof ∷ []) l r
    → recv_chk chk c l ≡ some (0, c, r)
unfolding recv_chk recv_eof
recv_chk-Arrives chk c l r (p, m, t, e, (q, n, u, f, h)) =
    with_byte-Arrives c chk p l m
      (λ b x. if b == chk then recv_eof c x else some (4, add_error c, x)) t e
    ∙ ap (λ (y : Bool). if y then recv_eof c m else some (4, add_error c, m)) (eq→== chk chk refl)
    ∙ with_byte-Arrives c frame_eof q m n
        (λ b x. if b == frame_eof then some (0, c, x) else some (5, add_error c, x)) u f
    ∙ ap (λ x. some (0, c, x)) h

recv_payload-Arrives :
    (chk : ℕ) (bs : List ℕ) (c : Check) (l r : Line)
    → InRange c
    → 0 < length bs
    → Arrives (bs ++ checksum bs chk ∷ frame_eof ∷ []) l r
    → recv_payload chk (length bs) c l ≡ some (0, counted bs c, r)
unfolding recv_payload Option.bind
recv_payload-Arrives chk bs c l r i pos h =
    let (m, first, last) = Arrives-split bs (checksum bs chk ∷ frame_eof ∷ []) l r h in
    let check = λ (x : ℕ × Check). recv_chk x.0 x.1 m in
    ap
      (λ (o : Option (List ℕ × Line)).
        Option.bind o
          λ x. let v = verify_payload (take (length bs) x.0) chk c in recv_chk v.0 v.1 x.1)
      (ap (λ n. receive_payload n l) (rounds_pos (length bs) pos)
        ∙ receive_payload-Arrives bs l m first)
    ∙ ap check (ap (λ xs. verify_payload xs chk c) (take-length bs) ∙ verify_payload_lem bs chk c i)
    ∙ recv_chk-Arrives (checksum bs chk) (counted bs c) m r last

-- A frame with the expected length whose bytes arrive in time is taken, with an error for a wrong
-- sequence number.
pub recv_frame-Arrives :
    (seq s : ℕ) (bs : List ℕ) (c : Check) (l r : Line)
    → InRange c
    → 0 < length bs
    → length bs < 65536
    → Arrives (frame s bs) l r
    → recv_frame seq (length bs) c l ≡ some (0, counted bs (if s == seq then c else add_error c), r)
unfolding recv_frame recv_seq recv_len
recv_frame-Arrives seq s bs c l r i pos short
      (p₁, l₁, t₁, e₁, (p₂, l₂, t₂, e₂, (p₃, l₃, t₃, e₃, (p₄, l₄, t₄, e₄, h)))) =
    let n = length bs in
    let hi = u8 (n / 256) in
    let lo = u8 n in
    let c' = if s == seq then c else add_error c in
    let chk = bit_xor 0 s in
    let sum = bit_xor (bit_xor chk hi) lo in
    let whole : word_of hi lo ≡ n = omega (arith, short) in
    with_byte-Arrives c sof p₁ l l₁
      (λ b x. if b == sof then recv_seq seq n c x else some (2, add_error c, x)) t₁ e₁
    ∙ with_byte-Arrives c s p₂ l₁ l₂
        (λ b x. recv_len (bit_xor 0 b) n (if b == seq then c else add_error c) x) t₂ e₂
    ∙ with_byte-Arrives c' hi p₃ l₂ l₃
        (λ b x. with_byte c' x λ b' x'.
          if word_of b b' == n
          then recv_payload (bit_xor (bit_xor chk b) b') (word_of b b') c' x'
          else some (3, add_error c', x'))
        t₃ e₃
    ∙ with_byte-Arrives c' lo p₄ l₃ l₄
        (λ b' x'.
          if word_of hi b' == n
          then recv_payload (bit_xor (bit_xor chk hi) b') (word_of hi b') c' x'
          else some (3, add_error c', x'))
        t₄ e₄
    ∙ ap
        (λ (y : Bool).
          if y then recv_payload sum (word_of hi lo) c' l₄ else some (3, add_error c', l₄))
        (eq→== (word_of hi lo) n whole)
    ∙ ap (λ k. recv_payload sum k c' l₄) whole
    ∙ recv_payload-Arrives sum bs c' l₄ r (add_error_range s) pos h
  where
    add_error_range : (x : ℕ) → InRange (if x == seq then c else add_error c)
    add_error_range x = ground arith
