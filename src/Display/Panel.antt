-- ===== src/Display/Panel.antt =====
-- The loop of internal/display/display.go: pages, buttons, blanking and the safe shutdown. The state
-- of the loop and what it last told the hardware are one record; a case of its select is one step.
pub mod Safety
use companion_mission_planne.Base.{
  ℕ, ◌-◌, Bool, true, false, not, ◌&&◌, Option, none, some, leb, ltb, is_empty, nat_eq,
  if◌then◌else◌,
}
use companion_mission_planne.Display.Status.{Snapshot, Signal, activity_of, same_signal, health_led}

pub data Page : Type 0 where
  page_status page_transfer page_system page_logs page_qr : Page

pub data Button : Type 0 where
  button_a button_b button_x button_y : Button

-- rotateButton
unfoldable pub rotate_button : Bool → Button → Button
rotate_button true b = b
rotate_button false button_a = button_y
rotate_button false button_b = button_x
rotate_button false button_x = button_b
rotate_button false button_y = button_a

-- The configuration; `idle_off` is 0 where blanking is off.
pub record Config : Type 0 where
  pub brightness : ℕ
  pub idle_off : ℕ
  pub allow_shutdown : Bool

-- `brightness`, which is 80 where none is set.
unfoldable pub brightness_of : Config → ℕ
brightness_of c = if nat_eq c.brightness 0 then 80 else c.brightness

-- refreshInterval, in seconds
unfoldable pub refresh_interval : ℕ → ℕ
refresh_interval d = if nat_eq d 0 then 5 else d

-- The variables of the loop, and of the hardware: the backlight, the LED, the last page drawn (`none`
-- for none, the farewell after a shutdown), and whether poweroff was called.
pub record Panel : Type 0 where
  pub page : Page
  pub screen_on : Bool
  pub last_activity : ℕ
  pub last_sig : Option Signal
  pub backlight : ℕ
  pub led : Bool × Bool × Bool
  pub drawn : Option (Page × Snapshot)
  pub powered_off : Bool

-- `page = (page + 1) % pageCount`, and back from the QR page.
unfoldable pub next_page : Page → Page
next_page page_status = page_transfer
next_page page_transfer = page_system
next_page page_system = page_logs
next_page page_logs = page_status
next_page page_qr = page_status

unfoldable pub toggle_qr : Page → Page
toggle_qr page_qr = page_status
toggle_qr page_status = page_qr
toggle_qr page_transfer = page_qr
toggle_qr page_system = page_qr
toggle_qr page_logs = page_qr

-- wake
unfoldable pub wake : Config → ℕ → Panel → Panel
unfolding brightness_of
wake c now p =
    if p.screen_on
    then record p { last_activity = now }
    else record p { last_activity = now; screen_on = true; backlight = brightness_of c }

-- sleep
unfoldable pub sleep : Panel → Panel
sleep p =
    if p.screen_on
    then record p { screen_on = false; backlight = 0; led = (false, false, false) }
    else p

-- The first half of draw: a signal that differs from the last one wakes the screen.
notice : Config → ℕ → Signal → Panel → Panel
unfolding wake same_signal
notice c now sig p = elim p.last_sig [
  | none ↦ record p { last_sig = some sig }
  | some last ↦
      if same_signal sig last
      then record p { last_sig = some sig }
      else wake c now (record p { last_sig = some sig })
]

repaint : Snapshot → Panel → Panel
unfolding health_led
repaint snap p =
    if p.screen_on then record p { drawn = some (p.page, snap); led = health_led snap } else p

-- draw, on the snapshot taken at `now`.
unfoldable pub draw : Config → ℕ → Snapshot → Panel → Panel
unfolding notice repaint activity_of
draw c now snap p = repaint snap (notice c now (activity_of snap) p)

-- The variables before the first drawing.
unfoldable pub initial : Config → ℕ → Panel
unfolding brightness_of
initial c now = record {
  page = page_status;
  screen_on = true;
  last_activity = now;
  last_sig = none;
  backlight = brightness_of c;
  led = (false, false, false);
  drawn = none;
  powered_off = false;
}

-- The loop up to its first select.
unfoldable pub started : Config → ℕ → Snapshot → Panel
unfolding draw initial
started c now snap = draw c now snap (initial c now)

-- The case of the ticker.
unfoldable pub on_tick : Config → ℕ → Snapshot → Panel → Panel
unfolding draw sleep
on_tick c now snap p =
    let q = draw c now snap p in
    if ltb 0 c.idle_off && q.screen_on && leb c.idle_off (now - q.last_activity) then sleep q else q

-- The case of a registry event.
unfoldable pub on_event : Config → ℕ → Snapshot → Panel → Panel
unfolding draw wake
on_event c now snap p = draw c now snap (wake c now p)

-- shutdown: the farewell is on the screen, and the loop returns.
unfoldable pub shutdown : Panel → Panel
shutdown p = record p { drawn = none; powered_off = true }

unfoldable pub on_y : Config → ℕ → Snapshot → Bool → Panel → Panel
unfolding shutdown draw toggle_qr
on_y c now snap long p =
    if long && c.allow_shutdown
    then shutdown p
    else draw c now snap (record p { page = toggle_qr p.page })

-- The switch on the button, for a screen that is on.
unfoldable pub act : Config → ℕ → Snapshot → Button → Bool → Panel → Panel
unfolding on_y draw sleep next_page
act c now snap button_a long p = draw c now snap (record p { page = next_page p.page })
act c now snap button_x long p = draw c now snap (record p { page = next_page p.page })
act c now snap button_b long p = draw c now snap (sleep p)
act c now snap button_y long p = on_y c now snap long p

-- The case of a button.
unfoldable pub on_button : Config → ℕ → Snapshot → Button → Bool → Panel → Panel
unfolding wake draw act
on_button c now snap b long p =
    if p.screen_on then act c now snap b long (wake c now p) else draw c now snap (wake c now p)
