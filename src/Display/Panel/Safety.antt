-- ===== src/Display/Panel/Safety.antt =====
-- What the hardware shows in every state of the loop, and what it takes to power off.
use companion_mission_planne.Base.{
  ℕ, ◌-◌, ltb, leb, ◌&&◌, ◌≡◌, refl, ◌∙◌, inl, inr, arith, Bool, true, false, some, if◌then◌else◌,
  Bool-cases, Option-cases,
}
use companion_mission_planne.Display.Status.{Snapshot, Signal, activity_of, same_signal}
use companion_mission_planne.Display.Panel.{
  Button, button_a, button_b, button_x, button_y, Config, brightness_of, Panel, wake, sleep, notice,
  repaint, draw, initial, started, on_tick, on_event, shutdown, on_y, act, on_button, next_page,
  toggle_qr,
}

-- A blanked screen has its backlight and LED off; a screen that is on has its backlight on.
abbrev pub IsLit : Config → Panel → Type 0
IsLit c p =
    (p.screen_on ≡ true → p.backlight ≡ brightness_of c)
    × (p.screen_on ≡ false → (p.backlight ≡ 0) × (p.led ≡ (false, false, false)))

-- One round of the loop.
pub data Step (c : Config) (p : Panel) : Panel → Type 0 where
  ticks : (now : ℕ) (snap : Snapshot) → Step c p (on_tick c now snap p)
  changes : (now : ℕ) (snap : Snapshot) → Step c p (on_event c now snap p)
  presses :
      (now : ℕ) (snap : Snapshot) (b : Button) (long : Bool)
      → Step c p (on_button c now snap b long p)

-- The states of the loop; it ends with the shutdown.
pub data Reachable (c : Config) : Panel → Type 0 where
  first : (now : ℕ) (snap : Snapshot) → Reachable c (started c now snap)
  next : {p q : Panel} → Reachable c p → p.powered_off ≡ false → Step c p q → Reachable c q

module _ (c : Config) where
  wake-IsLit : (now : ℕ) (p : Panel) → IsLit c p → IsLit c (wake c now p)
  unfolding wake
  wake-IsLit now p l = (ground arith, ground arith)

  sleep-IsLit : (p : Panel) → IsLit c p → IsLit c (sleep p)
  unfolding sleep
  sleep-IsLit p l = (ground arith, ground arith)

  notice-IsLit : (now : ℕ) (sig : Signal) (p : Panel) → IsLit c p → IsLit c (notice c now sig p)
  unfolding notice
  notice-IsLit now sig p l = elim (Option-cases p.last_sig) [
    | inl e ↦ rw (e, notice) l
    | inr (last, e) ↦ elim (Bool-cases (same_signal sig last)) [
      | inl q ↦ rw (e, q, notice) l
      | inr q ↦ rw (e, q, notice) (wake-IsLit now (record p { last_sig = some sig }) l)
    ]
  ]

  repaint-IsLit : (snap : Snapshot) (p : Panel) → IsLit c p → IsLit c (repaint snap p)
  unfolding repaint
  repaint-IsLit snap p l = elim (Bool-cases p.screen_on) [
    | inl e ↦ rw (e, repaint) (λ q. l.0 e, λ q. absurd (ground (arith, q)))
    | inr e ↦ rw (e, repaint) (λ q. absurd (ground (arith, q)), λ q. l.1 e)
  ]

  draw-IsLit : (now : ℕ) (snap : Snapshot) (p : Panel) → IsLit c p → IsLit c (draw c now snap p)
  unfolding draw
  draw-IsLit now snap p l = repaint-IsLit snap _ (notice-IsLit now (activity_of snap) p l)

  act-IsLit :
      (now : ℕ) (snap : Snapshot) (b : Button) (long : Bool) (p : Panel)
      → IsLit c p
      → IsLit c (act c now snap b long p)
  unfolding act on_y shutdown
  act-IsLit now snap button_a long p l = draw-IsLit now snap _ l
  act-IsLit now snap button_x long p l = draw-IsLit now snap _ l
  act-IsLit now snap button_b long p l = draw-IsLit now snap _ (sleep-IsLit p l)
  act-IsLit now snap button_y long p l = elim (Bool-cases (long && c.allow_shutdown)) [
    | inl e ↦ rw (e, on_y) l
    | inr e ↦ rw (e, on_y) (draw-IsLit now snap _ l)
  ]

  -- The two cases of a button, by whether the screen was on.
  button-IsLit :
      (now : ℕ) (snap : Snapshot) (b : Button) (long : Bool) (p : Panel) (on : Bool)
      → IsLit c (wake c now p)
      → IsLit c
          (if on then act c now snap b long (wake c now p) else draw c now snap (wake c now p))
  button-IsLit now snap b long p true l = act-IsLit now snap b long (wake c now p) l
  button-IsLit now snap b long p false l = draw-IsLit now snap (wake c now p) l

  Step-IsLit : {p q : Panel} → Step c p q → IsLit c p → IsLit c q
  unfolding on_tick on_event on_button
  Step-IsLit {p} (ticks now snap) l =
      let drawn' = draw-IsLit now snap p l in
      elim (Bool-cases (
        ltb 0 c.idle_off
        && (draw c now snap p).screen_on
        && leb c.idle_off (now - (draw c now snap p).last_activity))) [
          | inl e ↦ rw (e, on_tick) (sleep-IsLit _ drawn')
          | inr e ↦ rw (e, on_tick) drawn'
        ]
  Step-IsLit {p} (changes now snap) l = draw-IsLit now snap _ (wake-IsLit now p l)
  Step-IsLit {p} (presses now snap b long) l =
      let woken = wake-IsLit now p l in button-IsLit now snap b long p p.screen_on woken

  initial-IsLit : (now : ℕ) → IsLit c (initial c now)
  unfolding initial
  initial-IsLit now = (λ q. refl, λ q. absurd (ground (arith, q)))

  -- In every state of the loop the hardware agrees with it: a blanked screen has its backlight and LED
  -- off, and a screen that is on has the backlight at the configured brightness.
  pub Reachable-IsLit : {p : Panel} → Reachable c p → IsLit c p
  unfolding started
  Reachable-IsLit (first now snap) = draw-IsLit now snap (initial c now) (initial-IsLit now)
  Reachable-IsLit (next r on st) = Step-IsLit st (Reachable-IsLit r)

  wake-power : (now : ℕ) (p : Panel) → (wake c now p).powered_off ≡ p.powered_off
  unfolding wake
  wake-power now p = ground arith

  notice-power :
      (now : ℕ) (sig : Signal) (p : Panel) → (notice c now sig p).powered_off ≡ p.powered_off
  unfolding notice
  notice-power now sig p = elim (Option-cases p.last_sig) [
    | inl e ↦ rw (e, notice) refl
    | inr (last, e) ↦ elim (Bool-cases (same_signal sig last)) [
      | inl q ↦ rw (e, q, notice) refl
      | inr q ↦ rw (e, q, notice) (wake-power now (record p { last_sig = some sig }))
    ]
  ]

  draw-power :
      (now : ℕ) (snap : Snapshot) (p : Panel) → (draw c now snap p).powered_off ≡ p.powered_off
  unfolding draw repaint
  draw-power now snap p = ground (arith, notice-power now (activity_of snap) p)

  sleep-power : (p : Panel) → (sleep p).powered_off ≡ p.powered_off
  unfolding sleep
  sleep-power p = ground arith

  act-power :
      (now : ℕ) (snap : Snapshot) (b : Button) (long : Bool) (p : Panel)
      → p.powered_off ≡ false
      → (act c now snap b long p).powered_off ≡ true
      → (c.allow_shutdown ≡ true) × (b ≡ button_y) × (long ≡ true)
  unfolding act on_y
  act-power now snap button_a long p o e =
      absurd (ground (arith, o, e, draw-power now snap (record p { page = next_page p.page })))
  act-power now snap button_x long p o e =
      absurd (ground (arith, o, e, draw-power now snap (record p { page = next_page p.page })))
  act-power now snap button_b long p o e =
      absurd (ground (arith, o, e, draw-power now snap (sleep p), sleep-power p))
  act-power now snap button_y true p o e = elim (Bool-cases c.allow_shutdown) [
    | inl a ↦ (a, refl, refl)
    | inr a ↦
        absurd (ground (arith, a, o, e, draw-power now snap (record p { page = toggle_qr p.page })))
  ]
  act-power now snap button_y false p o e =
      absurd (ground (arith, o, e, draw-power now snap (record p { page = toggle_qr p.page })))

  tick-power :
      (now : ℕ) (snap : Snapshot) (p : Panel) → (on_tick c now snap p).powered_off ≡ p.powered_off
  unfolding on_tick
  tick-power now snap p = ground (arith, sleep-power (draw c now snap p), draw-power now snap p)

  event-power :
      (now : ℕ) (snap : Snapshot) (p : Panel) → (on_event c now snap p).powered_off ≡ p.powered_off
  unfolding on_event
  event-power now snap p = draw-power now snap (wake c now p) ∙ wake-power now p

  button-power :
      (now : ℕ) (snap : Snapshot) (b : Button) (long : Bool) (p : Panel)
      → p.powered_off ≡ false
      → (on_button c now snap b long p).powered_off ≡ true
      → (c.allow_shutdown ≡ true) × (b ≡ button_y) × (long ≡ true) × (p.screen_on ≡ true)
  unfolding on_button
  button-power now snap b long p o e = elim (Bool-cases p.screen_on) [
    | inl on ↦
        let acted : (act c now snap b long (wake c now p)).powered_off ≡ true =
          ground (arith, on, e) in
        let (a, y, held) = act-power now snap b long (wake c now p) (wake-power now p ∙ o) acted in
        (a, y, held, on)
    | inr off ↦
        absurd (ground (arith, off, e, o, draw-power now snap (wake c now p), wake-power now p))
  ]

-- The machine is powered off by one step only: a long press of button Y, on a screen that is on, where
-- the configuration allows it. A press on a blanked screen never powers it off.
pub Step-IsShutdown :
    (c : Config) (p q : Panel)
    → Step c p q
    → p.powered_off ≡ false
    → q.powered_off ≡ true
    → (c.allow_shutdown ≡ true)
      × (p.screen_on ≡ true)
      × ((now : ℕ) × (snap : Snapshot) × (q ≡ on_button c now snap button_y true p))
Step-IsShutdown c p q (ticks now snap) o e = absurd (ground (arith, o, e, tick-power c now snap p))
Step-IsShutdown c p q (changes now snap) o e =
    absurd (ground (arith, o, e, event-power c now snap p))
Step-IsShutdown c p q (presses now snap b long) o e =
    let (allowed, y, held, on) = button-power c now snap b long p o e in
    (allowed, on, (now, snap, rw (y, held) refl))
