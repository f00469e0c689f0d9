-- ===== src/Display/Pages.antt =====
-- The words of the pages, after internal/display/render.go, and the registers of the battery, after
-- internal/display/pisugar.go and the polling of internal/display/display.go. Strings are runes.
use Prim.Native.Nat.{bit_and}
use companion_mission_planne.Base.{
  ℕ, ◌+◌, ◌-◌, ◌*◌, ◌/◌, ◌%◌, Bool, true, false, not, ◌&&◌, Option, none, some, [], ◌∷◌, ◌++◌, Text,
  codes, to_upper, trim_space, format_uint, has_prefix, is_empty, nat_eq, ltb, if◌then◌else◌,
}
use companion_mission_planne.Display.Status.{ControllerStatus, NetStatus, BatteryStatus}

-- clampPct, of a percentage that is not negative
unfoldable pub clamp_pct : ℕ → ℕ
clamp_pct p = if ltb 100 p then 100 else p

-- ifEmpty
unfoldable pub if_empty : Text → Text → Text
if_empty s fallback = if is_empty s then fallback else s

abbrev minute : ℕ
minute = 60000000000

-- d.Round(time.Minute), of nanoseconds
unfoldable pub round_minute : ℕ → ℕ
round_minute d = let r = d % minute in if ltb (r + r) minute then d - r else d + (minute - r)

-- `%02d`
unfoldable pub two_digits : ℕ → Text
unfolding format_uint
two_digits n = (if ltb n 10 then codes "0" else []) ++ format_uint n

-- humanDuration
unfoldable pub human_duration : ℕ → Text
unfolding round_minute two_digits format_uint
human_duration duration =
    let d = round_minute duration in
    let h = d / (60 * minute) in
    let m = d % (60 * minute) / minute in
    if ltb 0 h
    then format_uint h ++ codes "h" ++ two_digits m ++ codes "m"
    else format_uint m ++ codes "m"

-- pill: its text, and whether it is green.
pub record Pill : Type 0 where
  pub text : Text
  pub green : Bool

-- controllerPill
unfoldable pub controller_pill : ControllerStatus → Pill
unfolding to_upper if_empty
controller_pill c =
    if c.connected
    then record {
      text = to_upper (if_empty c.label (codes "Controller")) ++ codes " CONNECTED";
      green = true;
    }
    else if is_empty c.label
    then record { text = codes "NO CONTROLLER"; green = false }
    else record {
      text = to_upper c.label ++ codes " " ++ 0x2014 ∷ codes " " ++ to_upper c.state;
      green = false;
    }

-- Wireless
unfoldable pub wireless : NetStatus → Bool
unfolding has_prefix
wireless n = has_prefix n.iface (codes "wlan")

-- The network line of renderStatus.
unfoldable pub net_label : NetStatus → Text
unfolding wireless
net_label n =
    if not n.up
    then codes "No network"
    else if wireless n
    then (if is_empty n.ssid
        then codes "Wi-Fi   " ++ n.ip ++ codes "   (" ++ n.iface ++ codes ")"
        else codes "Wi-Fi   " ++ n.ssid ++ codes "   " ++ n.ip)
    else codes "Wired   " ++ n.ip ++ codes "   (" ++ n.iface ++ codes ")"

-- The network row of renderSystem.
unfoldable pub net_detail : NetStatus → Text
unfolding wireless trim_space if_empty
net_detail n = trim_space (
    if_empty n.ip (0x2014 ∷ [])
    ++ codes "  "
    ++ (if wireless n && not (is_empty n.ssid) then n.ssid else n.iface))

-- The headline and the line below it of renderTransfer.
unfoldable pub transfer_words : Bool → Text × Text
transfer_words true = (codes "IN PROGRESS", codes "Writing a mission to the controller")
transfer_words false = (codes "IDLE", codes "No active transfer")

-- pisugarPercent, pisugarExternalPower, and the millivolts of pisugarVolts
unfoldable pub pisugar_percent : ℕ → ℕ
unfolding clamp_pct
pisugar_percent reg = clamp_pct reg

unfoldable pub pisugar_external_power : ℕ → Bool
pisugar_external_power status = not (nat_eq (bit_and status 0x80) 0)

unfoldable pub pisugar_millivolts : ℕ → ℕ → ℕ
pisugar_millivolts high low = high * 256 + low

-- read, with the answers of the bus to its three transactions.
unfoldable pub read_battery : Option ℕ → Option ℕ → Option (ℕ × ℕ) → Option BatteryStatus
unfolding pisugar_percent pisugar_external_power
read_battery none status volt = none
read_battery (some pct) none volt = none
read_battery (some pct) (some status) none = none
read_battery (some pct) (some status) (some volt) = some (record {
  present = true;
  percent = pisugar_percent pct;
  external_power = pisugar_external_power status;
})

-- The poll of RunBattery: a reading that fails leaves the last one.
unfoldable pub poll_battery : Option BatteryStatus → Option BatteryStatus → Option BatteryStatus
poll_battery none latest = latest
poll_battery (some reading) latest = some reading
