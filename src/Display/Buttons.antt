-- ===== src/Display/Buttons.antt =====
-- `pollButtons` of internal/display/hat_linux.go: what one button's samples make of its state, and a
-- round over the buttons with `emit`. A sample is whether the pin is low, with the time of the tick.
pub mod Presses
use companion_mission_planne.Base.{
  ℕ, suc, ◌-◌, Bool, true, false, not, ◌&&◌, Option, none, some, List, [], ◌∷◌, ◌++◌, leb, ltb,
  length, if◌then◌else◌,
}
use companion_mission_planne.Display.Panel.{Button, rotate_button}

-- debounce: the equal samples in a row that it takes to accept a level.
abbrev pub debounce : ℕ
debounce = 2

-- longPressThreshold, in nanoseconds
abbrev pub long_press_threshold : ℕ
long_press_threshold = 3000000000

pub record KeyState : Type 0 where
  pub level : Bool
  pub raw : Bool
  pub stable : ℕ
  pub pressed : Bool
  pub since : ℕ
  pub long_fired : Bool

-- The zero value.
abbrev pub released : KeyState
released = record {
  level = false;
  raw = false;
  stable = 0;
  pressed = false;
  since = 0;
  long_fired = false;
}

-- The counting of equal samples.
unfoldable pub count_sample : Bool → KeyState → KeyState
count_sample true s =
    if s.raw
    then (if ltb s.stable debounce then record s { stable = suc s.stable } else s)
    else record s { raw = true; stable = 1 }
count_sample false s =
    if s.raw
    then record s { raw = false; stable = 1 }
    else (if ltb s.stable debounce then record s { stable = suc s.stable } else s)

-- The switch on an accepted level; the event is whether the press was long.
unfoldable pub accept : ℕ → KeyState → KeyState × Option Bool
accept now s =
    if s.level
    then (if s.pressed
        then (if not s.long_fired && leb long_press_threshold (now - s.since)
            then (record s { long_fired = true }, some true)
            else (s, none))
        else (record s { pressed = true; long_fired = false; since = now }, none))
    else (if s.pressed
        then (record s { pressed = false }, if s.long_fired then none else some false)
        else (s, none))

-- The body of the loop over the buttons.
unfoldable pub sample : ℕ → Bool → KeyState → KeyState × Option Bool
unfolding count_sample accept
sample now low s =
    let t = count_sample low s in
    if ltb t.stable debounce then (t, none) else accept now (record t { level = t.raw })

-- The samples of one button, and the events that they give.
unfoldable pub run : List (ℕ × Bool) → KeyState → List Bool
unfolding sample
run [] s = []
run ((now, low) ∷ samples) s =
    let (s', event) = sample now low s in
    let rest = run samples s' in elim event [ none ↦ rest | some long ↦ long ∷ rest ]

-- ButtonEvent
pub record ButtonEvent : Type 0 where
  pub button : Button
  pub long : Bool

-- The capacity of the channel of events.
abbrev pub event_capacity : ℕ
event_capacity = 8

-- emit
unfoldable pub emit : Bool → ButtonEvent → List ButtonEvent → List ButtonEvent
unfolding rotate_button
emit rotate180 ev waiting =
    if ltb (length waiting) event_capacity
    then waiting ++ record ev { button = rotate_button rotate180 ev.button } ∷ []
    else waiting

-- A tick over the buttons with their states and what their pins read; a pin that is nil is not in
-- the list.
unfoldable pub poll_round :
    Bool
    → ℕ
    → List (Button × Bool × KeyState)
    → List ButtonEvent
    → List (Button × KeyState) × List ButtonEvent
unfolding sample emit
poll_round rotate180 now [] waiting = ([], waiting)
poll_round rotate180 now ((b, low, s) ∷ keys) waiting =
    let (s', event) = sample now low s in
    let sent' : List ButtonEvent = elim event [
      | none ↦ waiting
      | some long ↦ emit rotate180 (record { button = b; long = long }) waiting
    ] in
    let (states, out) = poll_round rotate180 now keys sent' in ((b, s') ∷ states, out)
