-- ===== src/Tests/Screen.antt =====
-- A button with a stray sample, a picture of two by two pixels, a line that wraps, and a boot.
use companion_mission_planne.Base.{
  ℕ, ◌+◌, ◌*◌, ◌≡◌, refl, Bool, true, false, some, List, [], ◌∷◌, ◌++◌, Text, codes, length, All,
  leb, arith,
}
use companion_mission_planne.Display.Buttons.{released, run}
use companion_mission_planne.Display.Buttons.Presses.{presses, repeated, idle, run-debounced}
use companion_mission_planne.Display.Rgb565.{Rgba, wire_bytes}
use companion_mission_planne.Display.Rgb565.Packing.{IsPacked}
use companion_mission_planne.Display.Rgb565.Frame.{wire_bytes-IsPacked}
use companion_mission_planne.Display.Lines.{wrap_to_width}
use companion_mission_planne.Display.Lines.Wrapped.{letters, concat, IsRow, wrap_to_width-IsWrapped}
use companion_mission_planne.Display.Splash.{
  SplashEvent, line, tick, run_splash, started_splash, splash_max_lines,
}
use companion_mission_planne.Display.Splash.Latest.{lines_of, last_of, run_splash-newest}
use companion_mission_planne.Display.Pages.{human_duration}

-- Down from the second sample on, with a stray one, until the end.
abbrev samples : List (ℕ × Bool)
samples =
    (20, true)
    ∷ (40, true)
    ∷ (60, false)
    ∷ (80, true)
    ∷ (100, true)
    ∷ (120, false)
    ∷ (140, false)
    ∷ []

run-debounced_example : run ((0, false) ∷ samples) released ≡ presses (repeated false samples) idle
run-debounced_example = run-debounced 0 false samples

-- The stray sample has not made two presses of it.
one_press : run ((0, false) ∷ samples) released ≡ false ∷ []
unfolding run
one_press = refl

abbrev picture : Rgba
picture = record {
  pix = 255 ∷ 0 ∷ 0 ∷ 255 ∷ 0 ∷ 255 ∷ 0 ∷ 255 ∷ 0 ∷ 0 ∷ 255 ∷ 255 ∷ 255 ∷ 255 ∷ 255 ∷ 255 ∷ [];
  stride = 8;
}

wire_bytes-IsPacked_example :
    (out : List ℕ) × (wire_bytes 2 2 picture true ≡ some out)
    × (length out ≡ 2 * (2 * 2))
    × IsPacked picture (0, 1) out (0 * (2 * 2) + 1 * 2)
wire_bytes-IsPacked_example =
    wire_bytes-IsPacked picture true 2 2 1 0 (refl, refl) (omega arith) (omega arith) (omega arith)

-- White comes first on a panel that is mounted upside down, and red last.
upside_down : wire_bytes 2 2 picture true ≡ some (255 ∷ 255 ∷ 0 ∷ 31 ∷ 7 ∷ 224 ∷ 248 ∷ 0 ∷ [])
unfolding wire_bytes
upside_down = refl

-- Three runes are the width.
abbrev three : Text → Bool
three t = leb (length t) 3

wrap_to_width-IsWrapped_example :
    (letters (concat (wrap_to_width three (codes "ab c defgh"))) ≡ letters (codes "ab c defgh"))
    × All (IsRow three) (wrap_to_width three (codes "ab c defgh"))
wrap_to_width-IsWrapped_example = wrap_to_width-IsWrapped three (codes "ab c defgh")

broken :
    wrap_to_width three (codes "ab c defgh")
    ≡ codes "ab" ∷ codes "c" ∷ codes "def" ∷ codes "gh" ∷ []
unfolding wrap_to_width
broken = refl

abbrev boot : List SplashEvent
boot = line (codes "a") ∷ tick ∷ line (codes "b") ∷ []

run_splash-newest_example :
    (run_splash (boot ++ tick ∷ []) started_splash).drawn ≡ last_of splash_max_lines (lines_of boot)
run_splash-newest_example = run_splash-newest boot

three_hours : human_duration 11520000000000 ≡ codes "3h12m"
unfolding human_duration
three_hours = refl
