-- ===== src/Stress/Echo.antt =====
-- The verdict of the test: on its own frames sent back, and on frames of one byte repeated.
use pico_thing_main.Base.{
  ℕ, zero, suc, ◌+◌, ◌*◌, ◌<◌, ◌≡◌, refl, sym, ap, subst, ◌≢◌, Bool, true, ne→==, ◌&&◌, List, [],
  ◌∷◌, some, ◌==◌, arith, if◌then◌else◌, length, u8, u16,
}
use pico_thing_main.Stress.{Line, Test, report, payload_len, num_frames, timeout, stress, passed}
use pico_thing_main.Stress.Received.{Arrives, jumps, following}
use pico_thing_main.Stress.Frames.{
  counting, length-counting, stream, concat, AllWhole, ramps, heard, tested, length-concat,
  jumps-append, stress-Arrives,
}

jumps-counting : (n v : ℕ) → jumps v (counting v n) ≡ 0
unfolding counting
jumps-counting zero v = refl
jumps-counting (suc n) v = ground (arith, jumps-counting n (u8 (v + 1)))

following-counting : (n v : ℕ) → v < 256 → following v (counting v n) ≡ u8 (v + n)
unfolding counting
following-counting zero v h = omega arith
following-counting (suc n) v h = omega (arith, following-counting n (u8 (v + 1)) (omega arith))

jumps-ramps : (n : ℕ) → jumps 0 (concat (ramps n)) ≡ 0
jumps-ramps zero = refl
jumps-ramps (suc n) = omega (
  arith,
  jumps-append 0 (counting 0 payload_len) (concat (ramps n)),
  jumps-counting payload_len 0,
  ap (λ e. jumps e (concat (ramps n))) (following-counting payload_len 0 (omega arith)),
  jumps-ramps n,
)

ramps-AllWhole : (n : ℕ) → AllWhole (ramps n)
ramps-AllWhole zero = tt
ramps-AllWhole (suc n) = (length-counting 0 payload_len, ramps-AllWhole n)

length-ramps : (n : ℕ) → length (ramps n) ≡ n
length-ramps zero = refl
length-ramps (suc n) = ap suc (length-ramps n)

no_jumps :
    (payloads : List (List ℕ)) → jumps 0 (concat payloads) ≡ 0 → passed (tested payloads) ≡ true
no_jumps payloads h = ap (λ n. 16 == 16 && u16 n == 0) h

-- If a host is heard in time, and then what the test sends behind its 'R' arrives in time, unchanged,
-- then the test ends and reports PASS.
pub stress_echo :
    (p : ℕ) (bs : List ℕ) (l r : Line)
    → p < timeout
    → b'R' ∷ bs ≡ (tested (ramps num_frames)).sent
    → Arrives bs l r
    → (t : Test) × (stress (heard p l) ≡ some (report t)) × (t.sent ≡ b'R' ∷ bs) × (passed t ≡ true)
stress_echo p bs l r h e a =
    let same : bs ≡ stream 0 (ramps num_frames) = ap rest e in
    (
      tested (ramps num_frames),
      stress-Arrives p (ramps num_frames) l r h (length-ramps num_frames)
          (ramps-AllWhole num_frames) (subst (λ xs. Arrives xs l r) same a),
      sym e,
      no_jumps (ramps num_frames) (jumps-ramps num_frames),
    )
  where
    rest : List ℕ → List ℕ
    rest [] = []
    rest (x ∷ xs) = xs

-- A byte, repeated.
unfoldable pub repeated : ℕ → ℕ → List ℕ
repeated v zero = []
repeated v (suc n) = v ∷ repeated v n

unfoldable pub copies : ℕ → ℕ → List (List ℕ)
copies v zero = []
copies v (suc n) = repeated v payload_len ∷ copies v n

length-repeated : (v n : ℕ) → length (repeated v n) ≡ n
unfolding repeated
length-repeated v zero = refl
length-repeated v (suc n) = ap suc (length-repeated v n)

next_differs : (v : ℕ) → v < 256 → u8 (v + 1) ≢ v
next_differs v h e = absurd (omega (arith, e, h))

jumps-repeated : (n e v : ℕ) → v < 256 → e ≢ v → jumps e (repeated v n) ≡ n
unfolding repeated
jumps-repeated zero e v h d = refl
jumps-repeated (suc n) e v h d = omega (
  arith,
  ap {B = ℕ} (λ (b : Bool). if b then 0 else 1) (ne→== v e (λ p. d (sym p))),
  jumps-repeated n (u8 (v + 1)) v h (next_differs v h),
)

following-repeated : (n e v : ℕ) → following e (repeated v (suc n)) ≡ u8 (v + 1)
unfolding repeated
following-repeated zero e v = refl
following-repeated (suc n) e v = following-repeated n (u8 (v + 1)) v

pub length-copies : (v n : ℕ) → length (copies v n) ≡ n
unfolding copies
length-copies v zero = refl
length-copies v (suc n) = ap suc (length-copies v n)

pub copies-AllWhole : (v n : ℕ) → AllWhole (copies v n)
unfolding copies
copies-AllWhole v zero = tt
copies-AllWhole v (suc n) = (length-repeated v payload_len, copies-AllWhole v n)

jumps-copies : (n e v : ℕ) → v < 256 → e ≢ v → jumps e (concat (copies v n)) ≡ n * payload_len
unfolding copies
jumps-copies zero e v h d = refl
jumps-copies (suc n) e v h d = omega (
  arith,
  jumps-append e (repeated v payload_len) (concat (copies v n)),
  jumps-repeated payload_len e v h d,
  ap (λ k. jumps k (concat (copies v n))) (following-repeated 4095 e v),
  jumps-copies n (u8 (v + 1)) v h (next_differs v h),
)

-- A host is heard in time, and then sixteen frames arrive in time, with the right markers, numbers,
-- lengths and checksums, whose payloads are one byte other than zero, repeated. Then the test ends
-- and reports PASS, although it has found each of the 65536 payload bytes wrong: the count of errors
-- has wrapped to zero.
pub repeated_passes :
    (v p : ℕ) (l r : Line)
    → 0 < v
    → v < 256
    → p < timeout
    → Arrives (stream 0 (copies v num_frames)) l r
    → (jumps 0 (concat (copies v num_frames)) ≡ length (concat (copies v num_frames)))
      × (stress (heard p l) ≡ some (report (tested (copies v num_frames))))
      × (passed (tested (copies v num_frames)) ≡ true)
repeated_passes v p l r pos small h a =
    let wrong : jumps 0 (concat (copies v num_frames)) ≡ 65536 =
      jumps-copies num_frames 0 v small (λ e. absurd (omega (arith, e, pos))) in
    (
      omega (
        arith,
        wrong,
        length-concat (copies v num_frames) (copies-AllWhole v num_frames),
        length-copies v num_frames,
      ),
      stress-Arrives p (copies v num_frames) l r h (length-copies v num_frames)
          (copies-AllWhole v num_frames) a,
      ap (λ n. 16 == 16 && u16 n == 0) wrong,
    )
