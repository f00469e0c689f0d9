-- ===== src/Device/Mtp/Classify.antt =====
-- `classify` of internal/device/mtp_controller.go: what kind of device has been plugged in.
pub mod Kinds
use companion_mission_planne.Base.{
  ℕ, Bool, true, false, ◌&&◌, Option, none, some, List, [], ◌∷◌, ◌++◌, Text, codes, contains,
  to_lower, Result, ok, err, if◌then◌else◌,
}
use companion_mission_planne.Base.Sorting.{sort_ranked}
use companion_mission_planne.Device.Mtp.{
  FileEntry, Transport, MtpError, io, not_found, slot_not_found, preview_not_found, kmz_missing,
  image_folder_missing, preview_dir_missing, preview_folder_missing, media_unavailable,
  media_not_found, thumbnail_not_found, controller, camera, unknown, Located, find_in, find_child,
  lookup_path,
}

-- storagePriority
unfoldable pub storage_priority : Text → ℕ
unfolding to_lower contains
storage_priority name =
    let lower = to_lower name in
    if contains lower (codes "internal") && contains lower (codes "shared")
    then 3
    else if contains lower (codes "internal")
    then 2
    else if contains lower (codes "disk")
    then 0
    else 1

-- The waypoint folder of DJI Fly below a storage.
abbrev pub waypoint_path : Text
waypoint_path = codes "Android/data/dji.go.v5/files/waypoint"

-- sort.SliceStable by storagePriority, the highest first.
unfoldable pub ordered_storages : List FileEntry → List FileEntry
unfolding storage_priority
ordered_storages storages = sort_ranked (λ (s : FileEntry). storage_priority s.name) storages

-- What the waypoint tree of one storage turns out to be.
pub data Tree : Type 0 where
  found_tree : FileEntry → Tree
  no_tree : Tree
  broken : MtpError → Tree

tree_of : Result MtpError FileEntry → Tree
tree_of (ok entry) = found_tree entry
tree_of (err e) = elim e [ not_found ↦ no_tree | other ↦ broken other ]

or_first : Option FileEntry → Option FileEntry → Option FileEntry
or_first none found = found
or_first (some dcim) found = some dcim

none_on_error : Result MtpError (Option FileEntry) → Option FileEntry
none_on_error (err e) = none
none_on_error (ok p) = p

-- The end of the loop: a camera if a DCIM folder was seen.
abbrev pub conclude : Option FileEntry → Located
conclude none = record {
  kind = unknown;
  waypoint_dir = none;
  preview_dir = none;
  media_root = none;
}
conclude (some dcim) = record {
  kind = camera;
  waypoint_dir = none;
  preview_dir = none;
  media_root = some dcim;
}

module _ {D : Type 0} (t : Transport D) where
  -- The look for the waypoint tree, made only if the storage lists an Android folder.
  unfoldable pub probe_tree : D → FileEntry → List FileEntry → Tree
  unfolding find_in lookup_path tree_of
  probe_tree d s entries = elim (find_in entries (codes "Android")) [
    | none ↦ no_tree
    | some android ↦ tree_of (lookup_path t d (s.name ++ codes "/" ++ waypoint_path))
  ]

  unfoldable pub located_at : D → FileEntry → Located
  unfolding find_child none_on_error
  located_at d entry = record {
    kind = controller;
    waypoint_dir = some entry;
    preview_dir = none_on_error (find_child t d (some entry) (codes "map_preview"));
    media_root = none;
  }

  -- The loop over the ordered storages.
  unfoldable pub walk_storages : D → List FileEntry → Option FileEntry → Result MtpError Located
  unfolding probe_tree located_at conclude find_in or_first
  walk_storages d [] dcim = ok (conclude dcim)
  walk_storages d (s ∷ storages) dcim = elim (t.children d s) [
    | none ↦ err io
    | some entries ↦ elim (probe_tree d s entries) [
      | found_tree entry ↦ ok (located_at d entry)
      | broken e ↦ err e
      | no_tree ↦ walk_storages d storages (or_first dcim (find_in entries (codes "DCIM")))
    ]
  ]

  unfoldable pub classify : D → Result MtpError Located
  unfolding walk_storages ordered_storages
  classify d = elim (t.storages d) [
    | none ↦ err io
    | some storages ↦ walk_storages d (ordered_storages storages) none
  ]
