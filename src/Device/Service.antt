-- ===== src/Device/Service.antt =====
-- The calls that the API makes on the registry of internal/device/detector.go: slot listing, and the
-- reads of a preview and of a KMZ. The methods of a device are the parameter `Methods`, after the
-- interfaces of internal/device/controller.go and detector.go.
pub mod Settings
pub mod Transfers
pub mod Redraws
pub mod MediaRoutes
pub mod Slots
use companion_mission_planne.Base.{
  ℕ, Bool, true, false, Option, none, some, List, [], ◌∷◌, Text, text_Eq, is_empty, Result, ok, err,
  map, if◌then◌else◌,
}
use companion_mission_planne.Stores.Persist.{Disk, Codec, Faults}
use companion_mission_planne.Stores.Nested.{Nested}
use companion_mission_planne.Stores.Names
use companion_mission_planne.Stores.Managed
use companion_mission_planne.Stores.SlotOrder
use companion_mission_planne.Stores.SlotOrder.{Orders}
use companion_mission_planne.Stores.Reorder.{reorder}
use companion_mission_planne.Device.Media.{MediaItem}
use companion_mission_planne.Device.Mtp.Listing.{Slot}
use companion_mission_planne.Device.Mtp.Missions.{WaypointImage}
use companion_mission_planne.Device.Registry.{Controller, Registry, Host, lookup}
use companion_mission_planne.Device.Registry.Refresh.{refresh}

-- The errors that the API tells apart, and the others.
pub data DeviceError : Type 0 where
  unknown_device slot_not_found preview_not_found media_unavailable : DeviceError
  media_not_found thumbnail_not_found other : DeviceError

-- TransferResult
pub record TransferResult : Type 0 where
  pub guid : Text
  pub file_size : ℕ

-- MediaBrowser
pub record MediaBrowser (W : Type 0) : Type 0 where
  pub list_media : W → W × Result DeviceError (List MediaItem)
  pub read_media : W → Text → W × Result DeviceError (Text × Text)
  pub read_thumbnail : W → Text → W × Result DeviceError Text
  pub read_video_preview : W → Text → W × Result DeviceError (Text × Text)

-- The methods of a controller; those of an optional interface are `none` where a type assertion
-- fails.
pub record Methods (W : Type 0) : Type 0 where
  pub list_slots : Controller → W → W × Result DeviceError (List Slot)
  pub read_preview : Controller → W → Text → W × Result DeviceError Text
  pub write_kmz : Controller → W → Text → Text → W × Result DeviceError TransferResult
  pub clear_slot : Controller → W → Text → W × Result DeviceError (Unit {0})
  pub kmz_reader : Controller → Option (W → Text → W × Result DeviceError Text)
  pub preview_writer : Controller → Option (W → Text → Text → W × Result DeviceError (Unit {0}))
  pub image_writer :
      Controller → Option (W → Text → List WaypointImage → W × Result DeviceError (Unit {0}))
  pub media_browser : Controller → Option (MediaBrowser W)
  pub local_media : Controller → Option (W → Text → W × Result DeviceError Text)

-- The registry with its world, its side stores, each of which may be nil, and their disk.
pub record Service (W : Type 0) : Type 0 where
  pub world : W
  pub registry : Registry
  pub names : Option Names.Store
  pub managed : Option Managed.Store
  pub order : Option SlotOrder.Store
  pub disk : Disk

named : Text → Slot → Slot
named [] s = s
named (c ∷ name) s = record s { name = c ∷ name }

-- applySavedNames
unfoldable pub apply_saved_names : Option Names.Store → Text → List Slot → List Slot
unfolding named
apply_saved_names none device slots = slots
apply_saved_names (some store) device slots =
    map (λ (s : Slot). named (Names.get store device s.guid) s) slots

is_managed : Option Managed.Store → Text → Text → Bool
is_managed none device guid = true
is_managed (some store) device guid = Managed.get store device guid

-- The loop that fills the Managed flags.
unfoldable pub apply_managed : Option Managed.Store → Text → List Slot → List Slot
unfolding is_managed
apply_managed store device slots =
    map (λ (s : Slot). record s { managed = is_managed store device s.guid }) slots

unfoldable pub apply_order : Option SlotOrder.Store → Text → List Slot → List Slot
apply_order none device slots = slots
apply_order (some store) device slots =
    reorder (λ (s : Slot). s.guid) (SlotOrder.get store device) slots

-- What ListSlots makes of the slots that the controller listed.
unfoldable pub overlay : {W : Type 0} → Service W → Text → List Slot → List Slot
unfolding apply_saved_names apply_managed apply_order
overlay s device slots =
    apply_order s.order device
      (apply_managed s.managed device (apply_saved_names s.names device slots))

listed :
    {W : Type 0}
    → Service W
    → Text
    → Result DeviceError (List Slot)
    → Result DeviceError (List Slot)
unfolding overlay
listed s device (err e) = err e
listed s device (ok slots) = ok (overlay s device slots)

module _ {W : Type 0} (h : Host W) (m : Methods W) where
  -- The call of Refresh, which returns no error.
  unfoldable pub refreshed : Service W → Service W
  refreshed s = let (w, r) = refresh h s.world s.registry in record s { world = w; registry = r }

  -- ListSlots
  unfoldable pub list_slots : Text → Service W → Service W × Result DeviceError (List Slot)
  unfolding refreshed listed
  list_slots device s =
      let s' = refreshed s in
      elim (lookup device s'.registry) [
        | none ↦ (s', err unknown_device)
        | some c ↦
            let (w, r) = m.list_slots c s'.world in (record s' { world = w }, listed s' device r)
      ]

  -- ReadPreview
  unfoldable pub read_preview : Text → Text → Service W → Service W × Result DeviceError Text
  read_preview device guid s = elim (lookup device s.registry) [
    | none ↦ (s, err unknown_device)
    | some c ↦ let (w, r) = m.read_preview c s.world guid in (record s { world = w }, r)
  ]

  -- ReadKMZ
  unfoldable pub read_kmz : Text → Text → Service W → Service W × Result DeviceError Text
  read_kmz device guid s = elim (lookup device s.registry) [
    | none ↦ (s, err unknown_device)
    | some c ↦ elim (m.kmz_reader c) [
      | none ↦ (s, err other)
      | some read ↦ let (w, r) = read s.world guid in (record s { world = w }, r)
    ]
  ]
