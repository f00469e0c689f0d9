-- ===== src/Device/Service/Transfers.antt =====
-- The calls on the registry that write a mission to a slot or empty it: `TransferWithMeta`,
-- `uploadPreview` and `ClearSlot` of internal/device/detector.go. The images are drawn by
-- internal/preview, whose functions are the parameter `Render`.
pub mod Saved
pub mod Left
use companion_mission_planne.Base.{
  ℕ, ℤ, ◌+◌, ltb, Bool, true, false, not, ◌&&◌, Option, none, some, List, [], ◌∷◌, ◌++◌, Text,
  codes, is_empty, length, take, map, format_uint, Result, ok, err, if◌then◌else◌,
}
use companion_mission_planne.Stores.Persist.{Codec, Faults}
use companion_mission_planne.Stores.Nested.{Nested}
use companion_mission_planne.Stores.Names
use companion_mission_planne.Kmz.Mission.{Point, Mission, has_meaningful_action}
use companion_mission_planne.Kmz.Extract.{KmlEntry, extract_mission}
use companion_mission_planne.Device.Mtp.Missions.{WaypointImage}
use companion_mission_planne.Device.Registry.{Controller, Host, lookup}
use companion_mission_planne.Device.Service.{
  DeviceError, unknown_device, other, TransferResult, Methods, Service, refreshed,
}
use companion_mission_planne.Device.Service.Settings.{save_name}

-- preview.Waypoint and Waypoint of controller.go
pub record Spot (F : Type 0) : Type 0 where
  pub lat : F
  pub lng : F
  pub has_action : Bool

-- PreviewMetadata, and the preview.Metadata made of it; a date `none` is the zero time.
pub record Metadata (F : Type 0) : Type 0 where
  pub name : Text
  pub waypoints : List (Spot F)
  pub date : Option ℤ

-- preview.Generate and preview.RenderWaypoint; they fetch map tiles.
pub record Render (W F : Type 0) : Type 0 where
  pub generate : W → Metadata F → W × Option Text
  pub render_waypoint : W → F → F → ℕ → List Text → W × Option Text

module _ {W : Type 0} (m : Methods W) where
  -- The last step of uploadPreview and of RegeneratePreview.
  unfoldable pub write_preview :
      Controller → Text → Text → Service W → Service W × Result DeviceError (Unit {0})
  write_preview c guid jpg s = elim (m.preview_writer c) [
    | none ↦ (s, err other)
    | some write ↦ let (w, r) = write s.world guid jpg in (record s { world = w }, r)
  ]

module _ {W F : Type 0} (m : Methods W) (g : Render W F) where
  -- uploadPreview
  unfoldable pub upload_preview :
      Controller → Text → Metadata F → Service W → Service W × Result DeviceError (Unit {0})
  unfolding write_preview
  upload_preview c guid meta s =
      let (w, jpg) = g.generate s.world meta in
      elim jpg [
        | none ↦ (record s { world = w }, err other)
        | some bytes ↦ write_preview m c guid bytes (record s { world = w })
      ]

  -- The preview step of TransferWithMeta, whose error is logged.
  unfoldable pub try_preview :
      Bool → Controller → Text → Option (Metadata F) → Service W → Service W
  unfolding upload_preview
  try_preview enabled c guid none s = s
  try_preview enabled c guid (some meta) s =
      if enabled && not (is_empty meta.waypoints) then (upload_preview c guid meta s).0 else s

-- The name step of TransferWithMeta and of ClearSlot, whose error is logged or ignored.
unfoldable pub keep_name :
    {W : Type 0}
    → Codec (Nested Text)
    → Faults
    → Text
    → Text
    → Text
    → Service W
    → Option (Service W)
unfolding save_name
keep_name cn f device guid name s = elim s.names [
  | none ↦ some s
  | some store ↦ elim (save_name f cn device guid name store s) [
    | none ↦ none
    | some (s', r) ↦ some s'
  ]
]

-- `if meta != nil && meta.Name != "" && r.names != nil`
unfoldable pub record_name :
    {W F : Type 0}
    → Codec (Nested Text)
    → Faults
    → Text
    → Text
    → Option (Metadata F)
    → Service W
    → Option (Service W)
unfolding keep_name
record_name cn f device guid none s = some s
record_name cn f device guid (some meta) s =
    if is_empty meta.name then some s else keep_name cn f device guid meta.name s

module _ {W F : Type 0} (h : Host W) (m : Methods W) (g : Render W F) (cn : Codec (Nested Text))
    (f : Faults) where
  -- TransferWithMeta after a KMZ that was written.
  unfoldable pub finish_transfer :
      Bool
      → Controller
      → Text
      → Text
      → Option (Metadata F)
      → TransferResult
      → Service W
      → Option (Service W × Result DeviceError TransferResult)
  unfolding record_name try_preview
  finish_transfer enabled c device guid meta res s = elim (record_name cn f device guid meta s) [
    | none ↦ none
    | some s' ↦ some (try_preview m g enabled c guid meta s', ok res)
  ]

  -- TransferWithMeta; `enabled` is previewEnabled.
  unfoldable pub transfer_with_meta :
      Bool
      → Text
      → Text
      → Text
      → Option (Metadata F)
      → Service W
      → Option (Service W × Result DeviceError TransferResult)
  unfolding refreshed finish_transfer
  transfer_with_meta enabled device guid kmz meta s =
      let s1 = refreshed h m s in
      elim (lookup device s1.registry) [
        | none ↦ some (s1, err unknown_device)
        | some c ↦
            let (w, r) = m.write_kmz c s1.world guid kmz in
            let s2 : Service W = record s1 { world = w } in
            elim r [
              | err e ↦ some (s2, err e)
              | ok res ↦ finish_transfer enabled c device guid meta res s2
            ]
      ]

module _ {W : Type 0} (h : Host W) (m : Methods W) (cn : Codec (Nested Text)) (f : Faults) where
  -- ClearSlot
  unfoldable pub clear_slot :
      Text → Text → Service W → Option (Service W × Result DeviceError (Unit {0}))
  unfolding refreshed keep_name
  clear_slot device guid s =
      let s1 = refreshed h m s in
      elim (lookup device s1.registry) [
        | none ↦ some (s1, err unknown_device)
        | some c ↦
            let (w, r) = m.clear_slot c s1.world guid in
            let s2 : Service W = record s1 { world = w } in
            elim r [
              | err e ↦ some (s2, err e)
              | ok done ↦ elim (keep_name cn f device guid [] s2) [
                | none ↦ none
                | some s3 ↦ some (s3, ok tt)
              ]
            ]
      ]
