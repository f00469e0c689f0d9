-- ===== src/Device/Registry/Volumes.antt =====
-- USB Mass Storage in internal/device/detector.go: `scanMassStorage`, `probeVolume`, the test of the
-- media layout, and the clean-up of mounts that an earlier run left.
pub mod Once
use companion_mission_planne.Base.{
  Bool, true, false, not, ◌&&◌, ◌||◌, Option, none, some, List, [], ◌∷◌, ◌++◌, Text, text_Eq,
  text_eq, codes, equal_fold, leb, nat_eq, ℕ, is_empty, elem, if◌then◌else◌,
}
use companion_mission_planne.Base.Table
use companion_mission_planne.Base.Table.{Table}
use companion_mission_planne.Blockdev.{UsbVolume}
use companion_mission_planne.Device.Registry.{
  MsVolume, StorageController, Controller, storage, Registry, Host,
}

is_safe_byte : ℕ → Bool
is_safe_byte c =
    leb b'a' c && leb c b'z'
    || leb b'A' c && leb c b'Z'
    || leb b'0' c && leb c b'9'
    || nat_eq c b'-'
    || nat_eq c b'_'

-- sanitizeVolID, on the runes of the id.
unfoldable pub sanitize_vol_id : Text → Text
unfolding is_safe_byte
sanitize_vol_id [] = []
sanitize_vol_id (c ∷ id) = (if is_safe_byte c then c else b'_') ∷ sanitize_vol_id id

is_dcim : List (Text × Bool) → Bool
unfolding equal_fold
is_dcim [] = false
is_dcim ((name, is_dir) ∷ entries) = is_dir && equal_fold name (codes "DCIM") || is_dcim entries

-- The record that probeVolume starts from.
abbrev fresh_volume : UsbVolume → MsVolume
fresh_volume v = record {
  id = v.id;
  dev_path = v.dev_path;
  mountpoint = [];
  mounted_by_us = false;
  is_media = false;
  controller = none;
}

abbrev model_of : UsbVolume → Text
model_of v = if is_empty v.label then codes "USB storage" else v.label

-- `if mv.isMedia && mv.controller != nil`
unfoldable pub register_volume : MsVolume → Registry → Registry
register_volume mv r = elim mv.controller [
  | none ↦ r
  | some c ↦ if mv.is_media then record r { devices = Table.put mv.id (storage c) r.devices } else r
]

abbrev pub ids_of : List UsbVolume → List Text
ids_of [] = []
ids_of (v ∷ vols) = v.id ∷ ids_of vols

module _ {W : Type 0} (h : Host W) where
  -- hasDCIM
  unfoldable pub has_dcim : W → Text → Bool
  unfolding is_dcim
  has_dcim w dir = elim (h.read_dir w dir) [ none ↦ false | some entries ↦ is_dcim entries ]

  below_has_dcim : W → Text → List (Text × Bool) → Bool
  unfolding has_dcim
  below_has_dcim w dir [] = false
  below_has_dcim w dir ((name, is_dir) ∷ entries) =
      is_dir && has_dcim w (dir ++ codes "/" ++ name) || below_has_dcim w dir entries

  -- hasMediaLayout
  unfoldable pub has_media_layout : W → Text → Bool
  unfolding has_dcim below_has_dcim
  has_media_layout w mountpoint = has_dcim w mountpoint || elim (h.read_dir w mountpoint) [
    | none ↦ false
    | some entries ↦ below_has_dcim w mountpoint entries
  ]

  -- What probeVolume does once the volume is mounted; `ours` is mountedByUs.
  unfoldable pub inspect_mounted : UsbVolume → Text → Bool → W → W × MsVolume
  unfolding has_media_layout
  inspect_mounted v mountpoint ours w =
      if has_media_layout w mountpoint
      then (
        w,
        record (fresh_volume v) {
          mountpoint = mountpoint;
          mounted_by_us = ours;
          is_media = true;
          controller = some (record { id = v.id; model = model_of v; mountpoint = mountpoint });
        },
      )
      else if ours
      then (h.remove_dir (h.unmount w mountpoint).0 mountpoint, fresh_volume v)
      else (w, record (fresh_volume v) { mountpoint = mountpoint })

  mount_and_inspect : UsbVolume → Text → W → W × MsVolume
  unfolding inspect_mounted
  mount_and_inspect v mountpoint w =
      let (w', fails) = h.mount_ro w v.dev_path v.fs_type mountpoint in
      if fails then (w', fresh_volume v) else inspect_mounted v mountpoint true w'

  -- probeVolume
  unfoldable pub probe_volume : Text → UsbVolume → W → W × MsVolume
  unfolding inspect_mounted mount_and_inspect sanitize_vol_id
  probe_volume root v w =
      if is_empty v.mountpoint
      then mount_and_inspect v (root ++ codes "/" ++ sanitize_vol_id v.id) w
      else inspect_mounted v v.mountpoint false w

  -- The record of a volume, which is probed when it is first seen.
  unfoldable pub track_volume : UsbVolume → W → Registry → W × MsVolume × Registry
  unfolding probe_volume
  track_volume v w r = elim (Table.get v.id r.volumes) [
    | some mv ↦ (w, mv, r)
    | none ↦
        let (w', mv) = probe_volume r.mount_root v w in
        (w', mv, record r { volumes = Table.put v.id mv r.volumes })
  ]

  -- The loop over the listed volumes.
  unfoldable pub visit_volumes : List UsbVolume → W → Registry → W × Registry
  unfolding track_volume register_volume
  visit_volumes [] w r = (w, r)
  visit_volumes (v ∷ vols) w r =
      let (w', mv, r') = track_volume v w r in visit_volumes vols w' (register_volume mv r')

  -- The unmount of a volume that has gone.
  unfoldable pub release_volume : MsVolume → W → W
  release_volume mv w =
      if mv.mounted_by_us && not (is_empty mv.mountpoint)
      then h.remove_dir (h.unmount w mv.mountpoint).0 mv.mountpoint
      else w

  -- The loop over the volumes that are tracked; `seen` are the ids of the listing.
  unfoldable pub drop_volumes : List Text → Table Text MsVolume → W → W × Table Text MsVolume
  unfolding release_volume
  drop_volumes seen [] w = (w, [])
  drop_volumes seen ((id, mv) ∷ volumes) w = elim (elem id seen) [
    | true ↦ let (w', rest) = drop_volumes seen volumes w in (w', (id, mv) ∷ rest)
    | false ↦ drop_volumes seen volumes (release_volume mv w)
  ]

  -- scanMassStorage: a scan that fails leaves all as it is.
  unfoldable pub scan_mass_storage : W → Registry → W × Registry
  unfolding visit_volumes drop_volumes
  scan_mass_storage w r = elim (h.scan w) [
    | none ↦ (w, r)
    | some vols ↦
        let (w1, r1) = visit_volumes vols w r in
        let (w2, volumes) = drop_volumes (ids_of vols) r1.volumes w1 in
        (w2, record r1 { volumes = volumes })
  ]

  -- The loop of cleanMassStorageDir.
  clean_entries : Text → List (Text × Bool) → W → W
  clean_entries dir [] w = w
  clean_entries dir ((name, is_dir) ∷ entries) w =
      let p = dir ++ codes "/" ++ name in
      clean_entries dir entries (h.remove_dir (h.unmount w p).0 p)

  -- cleanMassStorageDir
  unfoldable pub clean_mass_storage_dir : Text → W → W
  unfolding clean_entries
  clean_mass_storage_dir dir w = elim (h.read_dir w dir) [
    | none ↦ w
    | some entries ↦ clean_entries dir entries w
  ]
