-- ===== src/Device/Service/Redraws.antt =====
-- The calls on the registry that draw images from the mission in a slot: `RegeneratePreview` and
-- `PushWaypointImages` of internal/device/detector.go.
pub mod Numbered
use companion_mission_planne.Base.{
  ℕ, ℤ, ◌+◌, ltb, Bool, true, false, not, ◌&&◌, Option, none, some, List, [], ◌∷◌, ◌++◌, Text,
  codes, is_empty, length, take, map, format_uint, Result, ok, err, if◌then◌else◌,
}
use companion_mission_planne.Stores.Persist.{Codec, Faults}
use companion_mission_planne.Stores.Nested.{Nested}
use companion_mission_planne.Stores.Names
use companion_mission_planne.Kmz.Mission.{Point, Mission, has_meaningful_action}
use companion_mission_planne.Kmz.Extract.{KmlEntry, extract_mission}
use companion_mission_planne.Device.Mtp.Missions.{WaypointImage}
use companion_mission_planne.Device.Registry.{Controller, Host, lookup}
use companion_mission_planne.Device.Service.{
  DeviceError, unknown_device, other, TransferResult, Methods, Service, refreshed,
}
use companion_mission_planne.Device.Service.Settings.{save_name}
use companion_mission_planne.Device.Service.Transfers.{Spot, Metadata, Render, upload_preview}

-- The readers of zip and XML, and of floats.
pub record Decoding (F : Type 0) : Type 0 where
  pub unzip : Text → Option (List KmlEntry)
  pub zero_float : F
  pub parse_float : Text → Option F

spot_of : {F : Type 0} → Point F → Spot F
unfolding has_meaningful_action
spot_of p = record { lat = p.lat; lng = p.lng; has_action = has_meaningful_action p }

-- The saved name, else the label in the KMZ, else the start of the GUID; `none` where the GUID is
-- too short to slice.
unfoldable pub display_name : Text → Text → Text → Option Text
display_name saved label guid =
    if not (is_empty saved)
    then some saved
    else if not (is_empty label)
    then some label
    else if ltb (length guid) 8
    then none
    else some (codes "Slot " ++ take 8 guid)

unfoldable pub image_name : ℕ → ℕ → Text
unfolding format_uint
image_name i ts =
    codes "WP_kam_" ++ format_uint i ++ codes "_" ++ format_uint (ts + i) ++ codes ".jpg"

module _ {W F : Type 0} (h : Host W) (m : Methods W) (g : Render W F) (x : Decoding F) where
  -- kmz.ExtractMission on the content of a KMZ.
  unfoldable pub mission_in : Text → Option (Mission F)
  unfolding extract_mission
  mission_in content =
      elim (extract_mission x.zero_float x.parse_float (length content) (x.unzip content)) [
        | ok mission ↦ some mission
        | err e ↦ none
      ]

  -- The ReadKMZ and the parse that RegeneratePreview and PushWaypointImages start with.
  unfoldable pub pull_mission :
      Controller → Text → Service W → Service W × Result DeviceError (Mission F)
  unfolding mission_in
  pull_mission c guid s = elim (m.kmz_reader c) [
    | none ↦ (s, err other)
    | some read ↦
        let (w, r) = read s.world guid in
        let s' : Service W = record s { world = w } in
        elim r [
          | err e ↦ (s', err e)
          | ok content ↦ elim (mission_in content) [
            | none ↦ (s', err other)
            | some mission ↦ (s', ok mission)
          ]
        ]
  ]

  -- The name that the preview shows; a nil store is a nil dereference.
  preview_name : Text → Text → Text → Service W → Option Text
  unfolding display_name
  preview_name device guid label s = elim s.names [
    | none ↦ none
    | some store ↦ display_name (Names.get store device guid) label guid
  ]

  redraw :
      Controller
      → Text
      → Text
      → Mission F
      → Service W
      → Option (Service W × Result DeviceError (Unit {0}))
  unfolding preview_name upload_preview spot_of
  redraw c device guid mission s = elim (preview_name device guid mission.name s) [
    | none ↦ none
    | some name ↦ some (
        upload_preview m g c guid
          (record { name = name; waypoints = map spot_of mission.waypoints; date = mission.date })
          s)
  ]

  -- RegeneratePreview past the lookup: both interfaces are asked for before anything is read.
  regenerate_on :
      Controller → Text → Text → Service W → Option (Service W × Result DeviceError (Unit {0}))
  unfolding pull_mission redraw
  regenerate_on c device guid s = elim (m.preview_writer c) [
    | none ↦ some (s, err other)
    | some write ↦
        let (s', pulled) = pull_mission c guid s in
        elim pulled [ err e ↦ some (s', err e) | ok mission ↦ redraw c device guid mission s' ]
  ]

  -- RegeneratePreview
  unfoldable pub regenerate_preview :
      Text → Text → Service W → Option (Service W × Result DeviceError (Unit {0}))
  unfolding refreshed regenerate_on
  regenerate_preview device guid s =
      let s1 = refreshed h m s in
      elim (lookup device s1.registry) [
        | none ↦ some (s1, err unknown_device)
        | some c ↦ regenerate_on c device guid s1
      ]

  -- The loop that renders the waypoints from number `i` on; `ts` is the time in milliseconds.
  unfoldable pub render_images : ℕ → ℕ → List (Point F) → W → W × Option (List WaypointImage)
  unfolding image_name
  render_images ts i [] w = (w, some [])
  render_images ts i (p ∷ points) w =
      let (w', jpg) = g.render_waypoint w p.lat p.lng (i + 1) p.actions in
      elim jpg [
        | none ↦ (w', none)
        | some bytes ↦
            let (w'', rest) = render_images ts (i + 1) points w' in
            elim rest [
              | none ↦ (w'', none)
              | some images ↦
                  (w'', some (record { index = i; name = image_name i ts; bytes = bytes } ∷ images))
            ]
      ]

  send_rendered :
      (W → Text → List WaypointImage → W × Result DeviceError (Unit {0}))
      → Text
      → W × Option (List WaypointImage)
      → Service W
      → Service W × Result DeviceError ℕ
  send_rendered write guid (w, none) s = (record s { world = w }, err other)
  send_rendered write guid (w, some images) s =
      let (w', r) = write w guid images in
      (record s { world = w' }, elim r [ err e ↦ err e | ok done ↦ ok (length images) ])

  push_on : ℕ → Controller → Text → Service W → Service W × Result DeviceError ℕ
  unfolding pull_mission render_images send_rendered
  push_on ts c guid s = elim (m.image_writer c) [
    | none ↦ (s, err other)
    | some write ↦
        let (s', pulled) = pull_mission c guid s in
        elim pulled [
          | err e ↦ (s', err e)
          | ok mission ↦ send_rendered write guid (render_images ts 0 mission.waypoints s'.world) s'
        ]
  ]

  -- PushWaypointImages; the count that it returns beside an error is read by no caller.
  unfoldable pub push_waypoint_images :
      ℕ → Text → Text → Service W → Service W × Result DeviceError ℕ
  unfolding refreshed push_on
  push_waypoint_images ts device guid s =
      let s1 = refreshed h m s in
      elim (lookup device s1.registry) [
        | none ↦ (s1, err unknown_device)
        | some c ↦ push_on ts c guid s1
      ]
