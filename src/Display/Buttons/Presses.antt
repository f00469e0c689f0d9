-- ===== src/Display/Buttons/Presses.antt =====
-- What a button's samples report, against a description without counters.
use companion_mission_planne.Base.{
  ℕ, ◌-◌, ◌≤◌, ◌≡◌, refl, sym, ap, ◌∙◌, inl, inr, Bool-cases, arith, Bool, true, false, not, Option,
  none, some, List, [], ◌∷◌, leb, if◌then◌else◌,
}
use companion_mission_planne.Display.Buttons.{
  long_press_threshold, KeyState, released, count_sample, accept, sample, run,
}

-- The samples that repeat the one before them.
abbrev pub repeated : Bool → List (ℕ × Bool) → List (ℕ × Bool)
repeated before [] = []
repeated before ((now, low) ∷ samples) =
    let rest = repeated low samples in
    if (if before then low else not low) then (now, low) ∷ rest else rest

-- No press; a press since a time, or one that has been reported as long.
pub data Press : Type 0 where
  idle : Press
  held : ℕ → Press
  reported : Press

-- A press is reported as long once it has lasted, and as short where it ends before.
unfoldable pub presses : List (ℕ × Bool) → Press → List Bool
presses [] p = []
presses ((now, true) ∷ samples) idle = presses samples (held now)
presses ((now, true) ∷ samples) (held since) =
    let rest = presses samples reported in
    let waiting = presses samples (held since) in
    if leb long_press_threshold (now - since) then true ∷ rest else waiting
presses ((now, true) ∷ samples) reported = presses samples reported
presses ((now, false) ∷ samples) idle = presses samples idle
presses ((now, false) ∷ samples) (held since) = let rest = presses samples idle in false ∷ rest
presses ((now, false) ∷ samples) reported = presses samples idle

-- The state of the press that the fields stand for.
press_of : KeyState → Press
press_of s = if s.pressed then (if s.long_fired then reported else held s.since) else idle

sample-stable :
    (now : ℕ) (low : Bool) (s : KeyState) → 1 ≤ s.stable → 1 ≤ (sample now low s).0.stable
unfolding sample count_sample accept
sample-stable now true s h = ground arith
sample-stable now false s h = ground arith

sample-raw : (now : ℕ) (low : Bool) (s : KeyState) → (sample now low s).0.raw ≡ low
unfolding sample count_sample accept
sample-raw now true s = ground arith
sample-raw now false s = ground arith

-- A sample that differs from the one before changes neither the press nor reports it.
sample-differs :
    (now : ℕ) (low : Bool) (s : KeyState)
    → (if s.raw then low else not low) ≡ false
    → (press_of (sample now low s).0 ≡ press_of s) × ((sample now low s).1 ≡ none)
unfolding sample count_sample press_of
sample-differs now true s d = ground arith
sample-differs now false s d = ground arith

reports : Option Bool → List Bool → List Bool
reports none rest = rest
reports (some long) rest = long ∷ rest

sample-repeats :
    (now : ℕ) (low : Bool) (samples : List (ℕ × Bool)) (s : KeyState)
    → 1 ≤ s.stable
    → (if s.raw then low else not low) ≡ true
    → presses ((now, low) ∷ samples) (press_of s)
      ≡ reports (sample now low s).1 (presses samples (press_of (sample now low s).0))
unfolding sample count_sample accept press_of presses reports
sample-repeats now true samples s h r = ground arith
sample-repeats now false samples s h r = ground arith

run-reports :
    (now : ℕ) (low : Bool) (samples : List (ℕ × Bool)) (s : KeyState)
    → run ((now, low) ∷ samples) s ≡ reports (sample now low s).1 (run samples (sample now low s).0)
unfolding run reports
run-reports now low samples s = ground arith

run-presses :
    (samples : List (ℕ × Bool)) (s : KeyState)
    → 1 ≤ s.stable
    → run samples s ≡ presses (repeated s.raw samples) (press_of s)
unfolding repeated
run-presses [] s h = unfold run in unfold presses in refl
run-presses ((now, low) ∷ samples) s h =
    let s' = (sample now low s).0 in
    let event = (sample now low s).1 in
    let rest : run samples s' ≡ presses (repeated low samples) (press_of s') =
      run-presses samples s' (sample-stable now low s h)
      ∙ ap (λ (b : Bool). presses (repeated b samples) (press_of s')) (sample-raw now low s) in
    let here = run-reports now low samples s ∙ ap (reports event) rest in
    elim (Bool-cases (if s.raw then low else not low)) [
      | inl e ↦ rw e (here ∙ sym (sample-repeats now low (repeated low samples) s h e))
      | inr e ↦
          let (same, silent) = sample-differs now low s e in
          rw e (
            here
            ∙ ap (λ (o : Option Bool). reports o (presses (repeated low samples) (press_of s')))
                silent
            ∙ unfold reports in ap (presses (repeated low samples)) same)
    ]

-- What a button reports from the start of the polling on. The samples that repeat the one before them
-- say whether it is down; a press is reported once: as long when it has lasted for the threshold, and
-- else as short when it ends. So a single stray sample never makes a press or ends one.
pub run-debounced :
    (now : ℕ) (low : Bool) (samples : List (ℕ × Bool))
    → run ((now, low) ∷ samples) released ≡ presses (repeated low samples) idle
unfolding sample count_sample reports press_of
run-debounced now true samples =
    run-reports now true samples released
    ∙ run-presses samples (sample now true released).0 (omega arith)
run-debounced now false samples =
    run-reports now false samples released
    ∙ run-presses samples (sample now false released).0 (omega arith)
