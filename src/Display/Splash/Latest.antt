-- ===== src/Display/Splash/Latest.antt =====
-- What the splash shows after a tick.
use companion_mission_planne.Base.{
  ℕ, zero, suc, ◌+◌, ◌-◌, ◌≤◌, ◌≡◌, refl, sym, ◌∙◌, ap, inl, inr, arith, Bool, true, false, List,
  [], ◌∷◌, ◌++◌, append_assoc, append-nil, Text, length, length-append, length-drop, drop, ltb,
  Bool-cases, if◌then◌else◌,
}
use companion_mission_planne.Display.Splash.{
  splash_max_lines, newest, push_line, splash_lines, Splash, SplashEvent, line, tail_ended, tick,
  draw_splash, splash_step, run_splash, started_splash,
}

-- The lines that the journal gave.
abbrev pub lines_of : List SplashEvent → List Text
lines_of [] = []
lines_of (line s ∷ events) = s ∷ lines_of events
lines_of (tail_ended ∷ events) = lines_of events
lines_of (tick ∷ events) = lines_of events

-- The last `n` of a list.
abbrev pub last_of : ℕ → List Text → List Text
last_of n xs = drop (length xs - n) xs

newest-last : (n : ℕ) (xs : List Text) → newest n xs ≡ last_of n xs
unfolding newest
newest-last n xs = elim (Bool-cases (ltb n (length xs))) [
  | inl e ↦ rw (e, newest) refl
  | inr e ↦
      let short : 0 ≡ length xs - n = ground arith in
      rw (e, newest) (ap (λ (k : ℕ). drop k xs) short)
]

drop-append : (k : ℕ) (xs ys : List Text) → k ≤ length xs → drop k (xs ++ ys) ≡ drop k xs ++ ys
drop-append zero xs ys l = refl
drop-append (suc k) [] ys l = absurd (omega arith)
drop-append (suc k) (x ∷ xs) ys l = drop-append k xs ys (omega arith)

drop-nil : (n : ℕ) → drop {A = Text} n [] ≡ []
drop-nil zero = refl
drop-nil (suc n) = refl

drop-drop : (j k : ℕ) (xs : List Text) → drop j (drop k xs) ≡ drop (k + j) xs
drop-drop j zero xs = let same : j ≡ 0 + j = omega arith in ap (λ (n : ℕ). drop n xs) same
drop-drop j (suc k) [] = drop-nil j ∙ sym (drop-nil (suc k + j))
drop-drop j (suc k) (x ∷ xs) =
    let same : suc (k + j) ≡ suc k + j = omega arith in
    drop-drop j k xs ∙ ap (λ (n : ℕ). drop n (x ∷ xs)) same

-- A line behind the last lines, cut to their number.
last-push :
    (n : ℕ) (xs : List Text) (s : Text)
    → last_of n (last_of n xs ++ s ∷ []) ≡ last_of n (xs ++ s ∷ [])
last-push n xs s =
    let k = length xs - n in
    let j = length (last_of n xs ++ s ∷ []) - n in
    let sizes : k + j ≡ length (xs ++ s ∷ []) - n =
      omega (
        arith,
        length-append (last_of n xs) (s ∷ []),
        length-append xs (s ∷ []),
        length-drop k xs,
      ) in
    ap (drop j) (sym (drop-append k xs (s ∷ []) (omega arith)))
    ∙ drop-drop j k (xs ++ s ∷ [])
    ∙ ap (λ (m : ℕ). drop m (xs ++ s ∷ [])) sizes

-- The ring holds the last of the lines so far, and the screen shows the ring unless it is dirty.
record IsShown (p : Splash) (lines : List Text) : Type 0 where
  ring_max : p.ring.max ≡ splash_max_lines
  ring_last : p.ring.buf ≡ last_of splash_max_lines lines
  screen : p.dirty ≡ false → p.drawn ≡ splash_lines p.ring.buf

-- The tick, by whether the ring is dirty.
tick-IsShown :
    (dirty : Bool) (p : Splash) (lines : List Text)
    → IsShown p lines
    → IsShown (if dirty then draw_splash p else p) lines
unfolding draw_splash
tick-IsShown true p lines h = record {
  ring_max = h.ring_max;
  ring_last = h.ring_last;
  screen = λ q. refl;
}
tick-IsShown false p lines h = h

step-IsShown :
    (e : SplashEvent) (p : Splash) (lines : List Text)
    → IsShown p lines
    → IsShown (splash_step e p) (lines ++ lines_of (e ∷ []))
unfolding splash_step push_line draw_splash
step-IsShown (line s) p lines h = record {
  ring_max = h.ring_max;
  ring_last =
      ap (λ (n : ℕ). newest n (p.ring.buf ++ s ∷ [])) h.ring_max
      ∙ newest-last splash_max_lines (p.ring.buf ++ s ∷ [])
      ∙ ap (λ (b : List Text). last_of splash_max_lines (b ++ s ∷ [])) h.ring_last
      ∙ last-push splash_max_lines lines s;
  screen = λ q. absurd (ground (arith, q));
}
step-IsShown tail_ended p lines h = rw (append-nil lines) h
step-IsShown tick p lines h = rw (append-nil lines) (tick-IsShown p.dirty p lines h)

lines_of-cons :
    (e : SplashEvent) (events : List SplashEvent)
    → lines_of (e ∷ events) ≡ lines_of (e ∷ []) ++ lines_of events
lines_of-cons (line s) events = refl
lines_of-cons tail_ended events = refl
lines_of-cons tick events = refl

run-IsShown :
    (events : List SplashEvent) (p : Splash) (lines : List Text)
    → IsShown p lines
    → IsShown (run_splash events p) (lines ++ lines_of events)
unfolding run_splash
run-IsShown [] p lines h = rw (append-nil lines) h
run-IsShown (e ∷ events) p lines h =
    rw (lines_of-cons e events, ← append_assoc lines (lines_of (e ∷ [])) (lines_of events))
      (run-IsShown events (splash_step e p) (lines ++ lines_of (e ∷ [])) (step-IsShown e p lines h))

started-IsShown : IsShown started_splash []
unfolding started_splash draw_splash
started-IsShown = record { ring_max = refl; ring_last = refl; screen = λ q. refl }

run-append :
    (events : List SplashEvent) (e : SplashEvent) (p : Splash)
    → run_splash (events ++ e ∷ []) p ≡ splash_step e (run_splash events p)
unfolding run_splash
run-append [] e p = refl
run-append (f ∷ events) e p = run-append events e (splash_step f p)

-- The lines that a clean screen shows.
clean-drawn :
    (p : Splash) (lines : List Text)
    → IsShown p lines
    → p.dirty ≡ false
    → p.drawn ≡ last_of splash_max_lines lines
unfolding splash_lines newest
clean-drawn p lines h clean =
    let all : splash_lines (last_of splash_max_lines lines) ≡ last_of splash_max_lines lines =
      ground (arith, length-drop (length lines - splash_max_lines) lines) in
    h.screen clean ∙ ap splash_lines h.ring_last ∙ all

tick-clean : (p : Splash) → (splash_step tick p).dirty ≡ false
unfolding splash_step draw_splash
tick-clean p = ground arith

-- After a tick the screen shows the newest 14 lines of the journal, all of them where there are fewer,
-- in their order, whatever came before.
pub run_splash-newest :
    (events : List SplashEvent)
    → (run_splash (events ++ tick ∷ []) started_splash).drawn
      ≡ last_of splash_max_lines (lines_of events)
run_splash-newest events =
    let p = run_splash events started_splash in
    let shown =
      step-IsShown tick p (lines_of events)
        (run-IsShown events started_splash [] started-IsShown) in
    ap (λ (q : Splash). q.drawn) (run-append events tick started_splash)
    ∙ clean-drawn (splash_step tick p) (lines_of events ++ []) shown (tick-clean p)
    ∙ ap (last_of splash_max_lines) (append-nil (lines_of events))
