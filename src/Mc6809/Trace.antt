-- ===== src/Mc6809/Trace.antt =====
-- The one-shot bus trace: what a capture holds after any number of cycles.
use pico_thing_main.Base.{
  ℕ, zero, suc, ◌+◌, ◌≡◌, ◌≤◌, ◌<◌, refl, sym, ap, ◌∙◌, Bool, true, false, not, ◌||◌, leb,
  if◌then◌else◌, if_elim, eq→==, ne→==, Cells, update, List, [], ◌∷◌, ◌++◌, length, arith, ap₂,
  append-nil, append_assoc, length-append, length-items, length-take, items-snoc, items_cong, items,
  take, Bool-cases, inl, inr,
}
use Prim.Native.Nat.{min}
use pico_thing_main.Mc6809.{Mc6809, at_least_running, trace_size, trace_arm, trace_capture}

-- The E-falling edges of a run of cycles, with the word on the pins of each.
abbrev pub capture_all : List ℕ → Mc6809 → Mc6809
capture_all [] m = m
capture_all (w ∷ ws) m = capture_all ws (trace_capture w m)

-- What the trace holds, oldest word first.
abbrev pub captured : Mc6809 → List ℕ
captured m = items m.trace 0 m.trace_pos

-- The trace is armed and has room, or it is full and off.
pub record IsTracing (m : Mc6809) : Type 0 where
  pub in_range : m.trace_pos ≤ trace_size
  pub armed : m.trace_enabled ≡ not m.trace_full
  pub complete : m.trace_full ≡ leb trace_size m.trace_pos

-- One E-falling edge of a powered 6809.
record Captured (w : ℕ) (m n : Mc6809) : Type 0 where
  tracing : IsTracing n
  runs : at_least_running n.run_state ≡ true
  words : captured n ≡ take trace_size (captured m ++ w ∷ [])

take_all {ℓ} : {A : Type ℓ} (n : ℕ) (xs : List A) → length xs ≤ n → take n xs ≡ xs
take_all zero [] h = refl
take_all zero (x ∷ xs) h = absurd (omega arith)
take_all (suc n) [] h = refl
take_all (suc n) (x ∷ xs) h = ap (◌∷◌ x) (take_all n xs (omega arith))

take_first {ℓ} : {A : Type ℓ} (n : ℕ) (xs ys : List A) → n ≡ length xs → take n (xs ++ ys) ≡ xs
take_first zero [] ys h = refl
take_first zero (x ∷ xs) ys h = absurd (omega arith)
take_first (suc n) [] ys h = absurd (omega arith)
take_first (suc n) (x ∷ xs) ys h = ap (◌∷◌ x) (take_first n xs ys (omega arith))

take-take {ℓ} : {A : Type ℓ} (n : ℕ) (xs ys : List A) → take n (take n xs ++ ys) ≡ take n (xs ++ ys)
take-take zero xs ys = refl
take-take (suc n) [] ys = refl
take-take (suc n) (x ∷ xs) ys = ap (◌∷◌ x) (take-take n xs ys)

store_word : (c : Cells) (n w : ℕ) → items (update c n w) 0 (n + 1) ≡ items c 0 n ++ w ∷ []
store_word c n w =
    let next : n + 1 ≡ suc n = omega arith in
    ap (items (update c n w) 0) next
    ∙ items-snoc (update c n w) 0 n
    ∙ ap₂ (λ (xs : List ℕ) (x : ℕ). xs ++ x ∷ [])
        (items_cong (update c n w) c 0 0 n
          λ j h. ap (λ (b : Bool). if b then w else c (0 + j)) (ne→== n (0 + j) (omega arith)))
        (ap (λ (b : Bool). if b then w else c (0 + n)) (eq→== n (0 + n) (omega arith)))

capture_full :
    (w : ℕ) (m : Mc6809)
    → IsTracing m
    → at_least_running m.run_state ≡ true
    → m.trace_full ≡ true
    → Captured w m (trace_capture w m)
unfolding trace_capture
capture_full w m t r f =
    let at_end : trace_size ≡ m.trace_pos = ground (arith, t.complete, t.in_range, f) in
    if_elim (Captured w m) (not m.trace_enabled || not (at_least_running m.run_state))
      (λ _. record {
        tracing = t;
        runs = r;
        words = sym (
            take_first trace_size (captured m) (w ∷ [])
              (at_end ∙ sym (length-items m.trace 0 m.trace_pos)));
      })
      λ e. absurd (ground (arith, t.armed, e, f))

capture_room :
    (w : ℕ) (m : Mc6809)
    → IsTracing m
    → at_least_running m.run_state ≡ true
    → m.trace_full ≡ false
    → Captured w m (trace_capture w m)
unfolding trace_capture
capture_room w m t r f =
    let below : m.trace_pos < trace_size = ground (arith, t.complete, t.in_range, f) in
    if_elim (Captured w m) (not m.trace_enabled || not (at_least_running m.run_state))
      (λ e. absurd (ground (arith, t.armed, e, f, r)))
      λ _. record {
        tracing = record {
          in_range = omega arith;
          armed = ap (λ (b : Bool). not (b || leb trace_size (m.trace_pos + 1))) (sym f);
          complete = ap (λ (b : Bool). b || leb trace_size (m.trace_pos + 1)) f;
        };
        runs = r;
        words =
            store_word m.trace m.trace_pos w
            ∙ sym (
                take_all trace_size (captured m ++ w ∷ []) (
                  omega (
                    arith,
                    length-append (captured m) (w ∷ []),
                    length-items m.trace 0 m.trace_pos,
                  )));
      }

capture-Captured :
    (w : ℕ) (m : Mc6809)
    → IsTracing m
    → at_least_running m.run_state ≡ true
    → Captured w m (trace_capture w m)
capture-Captured w m t r = elim (Bool-cases m.trace_full) [
  | inl f ↦ capture_full w m t r f
  | inr f ↦ capture_room w m t r f
]

capture_all_lem :
    (ws : List ℕ) (m : Mc6809)
    → IsTracing m
    → at_least_running m.run_state ≡ true
    → IsTracing (capture_all ws m)
      × (captured (capture_all ws m) ≡ take trace_size (captured m ++ ws))
capture_all_lem [] m t r = (
  t,
  sym (
      ap (take trace_size) (append-nil (captured m))
      ∙ take_all trace_size (captured m)
          (omega (arith, t.in_range, length-items m.trace 0 m.trace_pos))),
)
capture_all_lem (w ∷ ws) m t r =
    let c = capture-Captured w m t r in
    let (u, e) = capture_all_lem ws (trace_capture w m) c.tracing c.runs in
    (
      u,
      e
          ∙ ap (λ (xs : List ℕ). take trace_size (xs ++ ws)) c.words
          ∙ take-take trace_size (captured m ++ w ∷ []) ws
          ∙ ap (take trace_size) (append_assoc (captured m) (w ∷ []) ws),
    )

leb-min : (a b : ℕ) → leb a (min a b) ≡ leb a b
leb-min a b = ground arith

-- After the trace is armed on a powered 6809 that is not in reset, the words of the next cycles are
-- held in order, up to the size of the buffer and no more. The trace is full exactly when there were
-- as many cycles as that, and it is switched off exactly then.
pub trace_one_shot :
    (ws : List ℕ) (m : Mc6809)
    → at_least_running m.run_state ≡ true
    → (captured (capture_all ws (trace_arm m)) ≡ take trace_size ws)
      × ((capture_all ws (trace_arm m)).trace_full ≡ leb trace_size (length ws))
      × ((capture_all ws (trace_arm m)).trace_enabled ≡ not (leb trace_size (length ws)))
unfolding trace_arm
trace_one_shot ws m r =
    let n = trace_arm m in
    let after = capture_all ws n in
    let (t, e) =
      capture_all_lem ws n (record { in_range = omega arith; armed = refl; complete = refl }) r in
    let count : after.trace_pos ≡ min trace_size (length ws) =
      sym (length-items after.trace 0 after.trace_pos) ∙ ap length e ∙ length-take trace_size ws in
    let full : after.trace_full ≡ leb trace_size (length ws) =
      t.complete ∙ ap (leb trace_size) count ∙ leb-min trace_size (length ws) in
    (e, full, t.armed ∙ ap not full)
