-- ===== src/Display/Splash.antt =====
-- The boot splash of internal/display/splash.go: the log ring, the loop that repaints on a tick, and the
-- search for the hardware; and `renderSplash` of render.go, as far as the choice of the lines goes.
pub mod Latest
use companion_mission_planne.Base.{
  ℕ, ◌-◌, Bool, true, false, Option, none, some, List, [], ◌∷◌, ◌++◌, Text, length, drop, ltb,
  if◌then◌else◌,
}

-- splashMaxLines
abbrev pub splash_max_lines : ℕ
splash_max_lines = 14

-- logRing
pub record LogRing : Type 0 where
  pub buf : List Text
  pub max : ℕ

-- `buf[len(buf)-n:]` where the buffer is longer than `n`
unfoldable pub newest : ℕ → List Text → List Text
newest n buf = if ltb n (length buf) then drop (length buf - n) buf else buf

-- push
unfoldable pub push_line : Text → LogRing → LogRing
unfolding newest
push_line s r = record r { buf = newest r.max (r.buf ++ s ∷ []) }

-- The rows that renderSplash has room for, and the lines that it draws.
abbrev pub splash_rows : ℕ
splash_rows = 15

unfoldable pub splash_lines : List Text → List Text
unfolding newest
splash_lines lines = newest splash_rows lines

-- The variables of the loop, with the lines that were last drawn.
pub record Splash : Type 0 where
  pub ring : LogRing
  pub dirty : Bool
  pub drawn : List Text

-- The cases of the select, up to the end of the context.
pub data SplashEvent : Type 0 where
  line : Text → SplashEvent
  tail_ended : SplashEvent
  tick : SplashEvent

unfoldable pub draw_splash : Splash → Splash
unfolding splash_lines
draw_splash p = record p { dirty = false; drawn = splash_lines p.ring.buf }

unfoldable pub splash_step : SplashEvent → Splash → Splash
unfolding push_line draw_splash
splash_step (line s) p = record p { ring = push_line s p.ring; dirty = true }
splash_step tail_ended p = p
splash_step tick p = if p.dirty then draw_splash p else p

-- The loop from the first drawing on.
unfoldable pub run_splash : List SplashEvent → Splash → Splash
unfolding splash_step
run_splash [] p = p
run_splash (e ∷ events) p = run_splash events (splash_step e p)

unfoldable pub started_splash : Splash
unfolding draw_splash
started_splash =
    draw_splash
      (record { ring = record { buf = []; max = splash_max_lines }; dirty = false; drawn = [] })

-- What detectHardware gives in a round, the time when it has failed, and whether the context ends
-- while the loop waits.
pub record Attempt (H : Type 0) : Type 0 where
  pub hardware : Option H
  pub now : ℕ
  pub cancelled : Bool

pub data Detection (H : Type 0) : Type 0 where
  detected : H → Detection H
  gave_up : Detection H
  trying : Detection H

-- detectWithRetry over the rounds so far
unfoldable pub detect_with_retry : {H : Type 0} → ℕ → List (Attempt H) → Detection H
detect_with_retry deadline [] = trying
detect_with_retry deadline (a ∷ attempts) =
    let rest = detect_with_retry deadline attempts in
    elim a.hardware [
      | some hw ↦ detected hw
      | none ↦ if ltb deadline a.now then gave_up else if a.cancelled then gave_up else rest
    ]
