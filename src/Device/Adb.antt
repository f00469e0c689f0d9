-- ===== src/Device/Adb.antt =====
-- The ADB controller of internal/device/detector.go with the `Device` of internal/adb: what goadb
-- answers is a record of operations over a type of device states. The `ls` before a push is left
-- out, since its answer is dropped; times come from the device.
pub mod Paths
pub mod Sizes
pub mod Listed
use companion_mission_planne.Base.{
  ℕ, Bool, true, false, not, ◌&&◌, ◌||◌, Option, none, some, List, [], ◌∷◌, ◌++◌, Text, text_eq,
  codes, contains, to_lower, nat_eq, take, is_empty, Result, ok, err, if◌then◌else◌,
}
use companion_mission_planne.Kmz.Guid.{looks_like_guid}
use companion_mission_planne.Device.Mtp.Listing.{Slot, later}
use companion_mission_planne.Device.Registry.{
  AdbState, AdbDevice, is_device, offline, unauthorized, unknown,
}
use companion_mission_planne.Device.Registry.Hotplug.{RawState, map_state}
use companion_mission_planne.Device.Service.{DeviceError, TransferResult, preview_not_found, other}
use companion_mission_planne.Device.Adb.Paths.{waypoint_dir, paths_for}

-- DirEntry
pub record DirEntry : Type 0 where
  pub name : Text
  pub mode : ℕ
  pub size : ℕ
  pub modified_at : ℕ

-- An error of goadb's State: whether its code is DeviceNotFound, and its chain of causes.
pub record StateError : Type 0 where
  pub not_found : Bool
  pub chain : Text

-- The calls of goadb. An error of Stat is its text; `write` is OpenWrite with the copy, and
-- Close of what it opened; its flag is the error of the first two. `close_fails` is the error of
-- Close, by which the device says whether it has stored the file. `spools` tells whether the temporary file of a push can be written and opened.
pub record Goadb (D : Type 0) : Type 0 where
  pub state : D → Result StateError RawState
  pub run_command : D → Text → Option Text
  pub list_entries : D → Text → Option (List DirEntry)
  pub stat : D → Text → Result Text (Option DirEntry)
  pub open_read : D → Text → Option Text
  pub write : D → Text → Text → D × Bool
  pub close_fails : D → Text → Text → Bool
  pub spools : D → Bool

-- The switch on the chain of causes.
state_of : StateError → Option AdbState
unfolding contains to_lower
state_of e =
    let chain = to_lower e.chain in
    if e.not_found
    then some offline
    else if contains chain (codes "unauthorized")
    then some unauthorized
    else if contains chain (codes "offline")
        || contains chain (codes "no devices")
        || contains chain (codes "device not found")
    then some offline
    else none

-- The entries without `.` and `..`.
unfoldable pub real_entries : List DirEntry → List DirEntry
unfolding text_eq
real_entries [] = []
real_entries (e ∷ raw) =
    let rest = real_entries raw in
    if text_eq e.name (codes ".") || text_eq e.name (codes "..") then rest else e ∷ rest

-- modelLabel
unfoldable pub model_label : AdbDevice → Text
model_label d = if is_empty d.model then codes "Unknown DJI device" else d.model

-- Size and time of a slot after the look at its KMZ.
sized : Option DirEntry → ℕ → ℕ × ℕ
sized none t = (0, t)
sized (some kmz) t = (kmz.size, later t kmz.modified_at)

unfoldable pub exists_in : Result DeviceError (Option DirEntry) → Option DirEntry
exists_in (ok found) = found
exists_in (err e) = none

is_some : Option DirEntry → Bool
is_some none = false
is_some (some e) = true

module _ {D : Type 0} (a : Goadb D) where
  -- RawState; `none` is its error.
  unfoldable pub raw_state : D → Option AdbState
  unfolding state_of map_state
  raw_state d = elim (a.state d) [ ok st ↦ some (map_state st) | err e ↦ state_of e ]

  -- Authorized
  unfoldable pub is_authorized : D → Bool
  unfolding raw_state
  is_authorized d = elim (raw_state d) [ none ↦ false | some st ↦ is_device st ]

  -- The state that `Info` reports and caches, from the state that is cached.
  unfoldable pub reported_state : D → AdbState → AdbState
  unfolding is_authorized raw_state
  reported_state d cached =
      if is_authorized d then cached else elim (raw_state d) [ none ↦ cached | some st ↦ st ]

  -- HasDJIFly
  unfoldable pub has_dji_fly : D → Option Bool
  unfolding contains
  has_dji_fly d =
      elim (a.run_command d
        (codes "ls /sdcard/Android/data/dji.go.v5/files/waypoint 2>/dev/null && echo OK")) [
          | none ↦ none
          | some out ↦ some (contains out (codes "OK"))
        ]

  -- ListDir
  unfoldable pub list_dir : D → Text → Option (List DirEntry)
  unfolding real_entries
  list_dir d path = elim (a.list_entries d path) [
    | none ↦ none
    | some raw ↦ some (real_entries raw)
  ]

  -- Stat; the inner option is its flag.
  unfoldable pub stat : D → Text → Result DeviceError (Option DirEntry)
  unfolding contains
  stat d path = elim (a.stat d path) [
    | err text ↦
        if contains text (codes "no such") || contains text (codes "does not exist")
        then ok none
        else err other
    | ok none ↦ ok none
    | ok (some e) ↦
        if nat_eq e.mode 0 && nat_eq e.size 0 && nat_eq e.modified_at 0
        then ok none
        else ok (some e)
  ]

  -- Push, by pushViaSync, which drops the error of Close (`close_fails`).
  unfoldable pub push : D → Text → Text → D × Bool
  push d content path = if a.spools d then a.write d path content else (d, true)

  -- The body of the loop of ListSlots on a slot.
  unfoldable pub slot_of : D → DirEntry → Slot
  unfolding stat sized exists_in is_some paths_for
  slot_of d e =
      let paths = paths_for e.name in
      let (size, t) = sized (exists_in (stat d paths.kmz)) e.modified_at in
      record {
        guid = e.name;
        name = codes "Slot " ++ take 8 e.name;
        last_modified = t;
        file_size = size;
        preview_available = is_some (exists_in (stat d paths.preview));
        preview_url = [];
        managed = false;
      }

  unfoldable pub collect_slots : D → List DirEntry → List Slot
  unfolding slot_of looks_like_guid
  collect_slots d [] = []
  collect_slots d (e ∷ entries) =
      let rest = collect_slots d entries in
      if looks_like_guid e.name then slot_of d e ∷ rest else rest

  -- ListSlots
  unfoldable pub list_slots : D → Result DeviceError (List Slot)
  unfolding collect_slots list_dir
  list_slots d = elim (list_dir d waypoint_dir) [
    | none ↦ err other
    | some entries ↦ ok (collect_slots d entries)
  ]

  -- ReadPreview
  unfoldable pub read_preview : D → Text → Result DeviceError Text
  unfolding stat paths_for
  read_preview d guid = elim (stat d (paths_for guid).preview) [
    | err e ↦ err e
    | ok none ↦ err preview_not_found
    | ok (some e) ↦ elim (a.open_read d (paths_for guid).preview) [
      | none ↦ err other
      | some jpg ↦ ok jpg
    ]
  ]

  -- WriteKMZ; a size that cannot be read is 0.
  unfoldable pub write_kmz : D → Text → Text → D × Result DeviceError TransferResult
  unfolding push stat sized exists_in paths_for
  write_kmz d guid content =
      let (d', failed) = push d content (paths_for guid).kmz in
      if failed then (d', err other) else (
        d',
        ok (record {
          guid = guid;
          file_size = (sized (exists_in (stat d' (paths_for guid).kmz)) 0).0;
        }),
      )

  -- WritePreview
  unfoldable pub write_preview : D → Text → Text → D × Result DeviceError (Unit {0})
  unfolding push paths_for
  write_preview d guid jpg =
      let (d', failed) = push d jpg (paths_for guid).preview in
      (d', if failed then err other else ok tt)

  -- ClearSlot
  unfoldable pub clear_slot : D → Text → D × Result DeviceError (Unit {0})
  clear_slot d guid = (d, err other)
