-- ===== src/Device/Service/Redraws/Numbered.antt =====
-- The images that `PushWaypointImages` gives to a device.
use companion_mission_planne.Base.{
  ℕ, ◌+◌, ◌≡◌, refl, ◌∙◌, inl, inr, arith, Option, none, some, some-injective, List, [], ◌∷◌, Text,
  length, Result, ok, Option-cases, Result-cases,
}
use companion_mission_planne.Kmz.Mission.{Point, Mission}
use companion_mission_planne.Device.Mtp.Missions.{WaypointImage}
use companion_mission_planne.Device.Registry.{Controller, Host, lookup}
use companion_mission_planne.Device.Service.{DeviceError, Methods, Service, refreshed}
use companion_mission_planne.Device.Service.Transfers.{Render}
use companion_mission_planne.Device.Service.Redraws.{
  Decoding, image_name, pull_mission, render_images, send_rendered, push_on, push_waypoint_images,
}

-- One image for each waypoint, in order: numbered from `i`, named by its number, and drawn with the
-- number that a pilot counts with.
abbrev pub AreNumbered :
    {W F : Type 0} → Render W F → ℕ → ℕ → List (Point F) → List WaypointImage → Type 0
AreNumbered g ts i [] [] = Unit
AreNumbered g ts i [] (im ∷ images) = ⊥
AreNumbered g ts i (p ∷ points) [] = ⊥
AreNumbered {W} g ts i (p ∷ points) (im ∷ images) =
    (im.index ≡ i)
    × (im.name ≡ image_name i ts)
    × ((w : W) × ((g.render_waypoint w p.lat p.lng (i + 1) p.actions).1 ≡ some im.bytes))
    × AreNumbered g ts (i + 1) points images

numbered-length :
    {W F : Type 0} (g : Render W F) (ts i : ℕ) (points : List (Point F))
    (images : List WaypointImage)
    → AreNumbered g ts i points images
    → length images ≡ length points
numbered-length g ts i [] [] h = refl
numbered-length g ts i [] (im ∷ images) h = absurd h
numbered-length g ts i (p ∷ points) [] h = absurd h
numbered-length g ts i (p ∷ points) (im ∷ images) h =
    omega (arith, numbered-length g ts (i + 1) points images h.3)

module _ {W F : Type 0} (h : Host W) (m : Methods W) (g : Render W F) (x : Decoding F) where
  render-numbered :
      (ts i : ℕ) (points : List (Point F)) (w : W) (images : List WaypointImage)
      → (render_images h m g x ts i points w).1 ≡ some images
      → AreNumbered g ts i points images
  unfolding render_images
  render-numbered ts i [] w images e = rw (← some-injective _ _ e) tt
  render-numbered ts i (p ∷ points) w images e =
      let (w', jpg) = g.render_waypoint w p.lat p.lng (i + 1) p.actions in
      elim (Option-cases (g.render_waypoint w p.lat p.lng (i + 1) p.actions).1) [
        | inl q ↦ absurd (ground (arith, q, e))
        | inr (bytes, q) ↦ elim (Option-cases (render_images h m g x ts (i + 1) points w').1) [
          | inl r ↦ absurd (ground (arith, q, r, e))
          | inr (rest, r) ↦
              let same : record { index = i; name = image_name i ts; bytes = bytes } ∷ rest
                  ≡ images =
                ground (arith, q, r, e) in
              rw (← same) (refl, refl, (w, q), render-numbered ts (i + 1) points w' rest r)
        ]
      ]

  sent :
      (write : W → Text → List WaypointImage → W × Result DeviceError (Unit {0})) (guid : Text)
      (drawn : W × Option (List WaypointImage)) (s s' : Service W) (n : ℕ)
      → send_rendered h m g x write guid drawn s ≡ (s', ok n)
      → (images : List WaypointImage) × (drawn.1 ≡ some images)
        × (write drawn.0 guid images ≡ (s'.world, ok tt))
        × (n ≡ length images)
  unfolding send_rendered
  sent write guid (w, none) s s' n e = absurd (ground (arith, e))
  sent write guid (w, some images) s s' n e = elim (Result-cases (write w guid images).1) [
    | inr (bad, q) ↦ absurd (ground (arith, q, e))
    | inl (done, q) ↦ (images, refl, ground (arith, q, e), ground (arith, q, e))
  ]

  -- What a mission that was drawn and sent has caused.
  abbrev pub IsPushed : ℕ → Controller → Text → Service W → W → ℕ → Type 0
  IsPushed ts c guid s end n =
      (mission : Mission F) × (images : List WaypointImage) × (w : W) × (write : W
        → Text
        → List WaypointImage
        → W × Result DeviceError (Unit {0}))
      × (m.image_writer c ≡ some write)
      × ((pull_mission h m g x c guid s).1 ≡ ok mission)
      × AreNumbered g ts 0 mission.waypoints images
      × (write w guid images ≡ (end, ok tt))
      × (n ≡ length mission.waypoints)

  push_on-IsPushed :
      (ts : ℕ) (c : Controller) (guid : Text) (s s' : Service W) (n : ℕ)
      → push_on h m g x ts c guid s ≡ (s', ok n)
      → IsPushed ts c guid s s'.world n
  unfolding push_on
  push_on-IsPushed ts c guid s s' n e = elim (Option-cases (m.image_writer c)) [
    | inl q ↦ absurd (ground (arith, q, e))
    | inr (write, q) ↦ elim (Result-cases (pull_mission h m g x c guid s).1) [
      | inr (bad, r) ↦ absurd (ground (arith, q, r, e))
      | inl (mission, r) ↦
          let s1 = (pull_mission h m g x c guid s).0 in
          let drawn = render_images h m g x ts 0 mission.waypoints s1.world in
          let (images, d, w, l) = sent write guid drawn s1 s' n (ground (arith, q, r, e)) in
          let numbered = render-numbered ts 0 mission.waypoints s1.world images d in
          (
            mission,
            images,
            drawn.0,
            write,
            q,
            r,
            numbered,
            w,
            l ∙ numbered-length g ts 0 mission.waypoints images numbered,
          )
    ]
  ]

  -- A push of waypoint images that succeeds has read a mission from the slot and has given the
  -- device, in one call that succeeded, an image for each of its waypoints, numbered in order from 0
  -- and drawn with the number that follows; it returns how many they are.
  pub push_waypoint_images-IsPushed :
      (ts : ℕ) (device guid : Text) (s s' : Service W) (n : ℕ)
      → push_waypoint_images h m g x ts device guid s ≡ (s', ok n)
      → (c : Controller) × (lookup device (refreshed h m s).registry ≡ some c)
        × IsPushed ts c guid (refreshed h m s) s'.world n
  unfolding push_waypoint_images
  push_waypoint_images-IsPushed ts device guid s s' n e =
      elim (Option-cases (lookup device (refreshed h m s).registry)) [
        | inl q ↦ absurd (ground (arith, q, e))
        | inr (c, q) ↦
            (c, q, push_on-IsPushed ts c guid (refreshed h m s) s' n (ground (arith, q, e)))
      ]
