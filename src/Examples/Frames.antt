-- ===== src/Examples/Frames.antt =====
-- Tests of chunk/stress_acia.c, and its properties at lines without pauses.
use mathlib.Core.Option
use pico_thing_main.Base.{ℕ, ◌≡◌, refl, true, List, [], ◌∷◌, none, some, arith, length}
use pico_thing_main.Stress.{
  Line, Check, Test, report, num_frames, stress, passed, recv_frame, send_frame,
}
use pico_thing_main.Stress.Received.{Arrives, pause, jumps}
use pico_thing_main.Stress.Frames.{stream, concat, ramps, heard, tested, stress-Arrives}
use pico_thing_main.Stress.Echo.{
  copies, length-copies, copies-AllWhole, repeated_passes, stress_echo,
}

abbrev no_errors : Check
no_errors = record { rx_expected = 7; rx_got = 0; rx_errors = 0 }

sent_frame : send_frame 3 2 7 ≡ (2 ∷ 3 ∷ 0 ∷ 2 ∷ 7 ∷ 8 ∷ 14 ∷ 3 ∷ [], 9)
unfolding send_frame
sent_frame = refl

received_frame :
    recv_frame 3 2 no_errors
      (none ∷ some 2 ∷ some 3 ∷ some 0 ∷ some 2 ∷ some 7 ∷ some 9 ∷ none ∷ some 15 ∷ some 3 ∷ [])
    ≡ some (0, record { rx_expected = 10; rx_got = 2; rx_errors = 1 }, [])
unfolding recv_frame Option.bind
received_frame = refl

-- The payload does not end.
frame_cut : recv_frame 3 2 no_errors (some 2 ∷ some 3 ∷ some 0 ∷ some 2 ∷ some 7 ∷ []) ≡ none
unfolding recv_frame Option.bind
frame_cut = refl

-- Bytes without pauses.
at_once : List ℕ → Line
at_once [] = []
at_once (b ∷ bs) = some b ∷ at_once bs

at_once-Arrives : (bs : List ℕ) → Arrives bs (at_once bs) []
unfolding at_once pause
at_once-Arrives [] = refl
at_once-Arrives (b ∷ bs) = (0, at_once bs, omega arith, refl, at_once-Arrives bs)

stress-Arrives_example :
    stress (heard 5 (at_once (stream 0 (copies 9 num_frames))))
    ≡ some (report (tested (copies 9 num_frames)))
stress-Arrives_example =
    stress-Arrives 5 (copies 9 num_frames) (at_once (stream 0 (copies 9 num_frames))) []
      (omega arith) (length-copies 9 num_frames) (copies-AllWhole 9 num_frames)
      (at_once-Arrives (stream 0 (copies 9 num_frames)))

stress_echo_example :
    (t : Test) × (stress (heard 5 (at_once (stream 0 (ramps num_frames)))) ≡ some (report t))
    × (t.sent ≡ b'R' ∷ stream 0 (ramps num_frames))
    × (passed t ≡ true)
stress_echo_example =
    stress_echo 5 (stream 0 (ramps num_frames)) (at_once (stream 0 (ramps num_frames))) []
      (omega arith) refl (at_once-Arrives (stream 0 (ramps num_frames)))

repeated_passes_example :
    (jumps 0 (concat (copies 9 num_frames)) ≡ length (concat (copies 9 num_frames)))
    × (stress (heard 5 (at_once (stream 0 (copies 9 num_frames))))
        ≡ some (report (tested (copies 9 num_frames))))
    × (passed (tested (copies 9 num_frames)) ≡ true)
repeated_passes_example =
    repeated_passes 9 5 (at_once (stream 0 (copies 9 num_frames))) [] (omega arith) (omega arith)
      (omega arith) (at_once-Arrives (stream 0 (copies 9 num_frames)))
