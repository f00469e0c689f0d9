-- ===== src/Device/Mtp.antt =====
-- internal/device/mtp_controller.go: a controller or a camera behind MTP, over the device handle of
-- internal/mtp. libmtp is a parameter: its calls are the fields of `Transport`, over a type of device
-- states. Reading calls leave the state alone.
pub mod Classify
pub mod Locate
pub mod Listing
pub mod Missions
pub mod Browse
use mathlib.Core.List.{reverse}
use companion_mission_planne.Base.{
  nat_eq, is_empty, ℕ, Bool, true, false, Option, none, some, List, [], ◌∷◌, Text, equal_fold,
  Result, ok, err, if◌then◌else◌,
}

-- mtp.FileEntry
pub record FileEntry : Type 0 where
  pub object_id : ℕ
  pub storage_id : ℕ
  pub parent_id : ℕ
  pub name : Text
  pub size : ℕ
  pub modified_at : ℕ
  pub is_folder : Bool

-- The calls of libmtp. `none` and `true` stand for their errors.
pub record Transport (D : Type 0) : Type 0 where
  pub storages : D → Option (List FileEntry)
  pub children : D → FileEntry → Option (List FileEntry)
  pub fetch : D → ℕ → Option Text
  pub thumbnail : D → ℕ → Option Text
  pub partial : D → ℕ → ℕ → Option Text
  pub send : D → FileEntry → Text → Text → D × Bool
  pub erase : D → FileEntry → D × Bool

pub data MtpError : Type 0 where
  io : MtpError
  not_found : MtpError
  slot_not_found : Text → MtpError
  preview_not_found : MtpError
  kmz_missing : Text → MtpError
  image_folder_missing : Text → MtpError
  preview_dir_missing : MtpError
  preview_folder_missing : Text → MtpError
  media_unavailable : MtpError
  media_not_found : MtpError
  thumbnail_not_found : MtpError

-- The kinds of internal/device/controller.go.
pub data Kind : Type 0 where
  controller camera unknown : Kind

-- The fields that the walk over the device fills.
pub record Located : Type 0 where
  pub kind : Kind
  pub waypoint_dir : Option FileEntry
  pub preview_dir : Option FileEntry
  pub media_root : Option FileEntry

-- findIn: the first entry of that name, whatever its case.
unfoldable pub find_in : List FileEntry → Text → Option FileEntry
unfolding equal_fold
find_in [] name = none
find_in (e ∷ entries) name =
    let rest = find_in entries name in if equal_fold e.name name then some e else rest

found_in : Option (List FileEntry) → Text → Result MtpError (Option FileEntry)
unfolding find_in
found_in none name = err io
found_in (some entries) name = ok (find_in entries name)

strip_slashes : Text → Text
strip_slashes [] = []
strip_slashes (c ∷ s) = let rest = strip_slashes s in if nat_eq c b'/' then rest else c ∷ s

-- strings.Trim(p, "/")
trim_slashes : Text → Text
unfolding strip_slashes
trim_slashes p = reverse (strip_slashes (reverse (strip_slashes p)))

add_to_head : ℕ → List Text → List Text
add_to_head c [] = (c ∷ []) ∷ []
add_to_head c (s ∷ rest) = (c ∷ s) ∷ rest

-- strings.Split(p, "/")
split_path : Text → List Text
unfolding add_to_head
split_path [] = [] ∷ []
split_path (c ∷ s) =
    let rest = split_path s in if nat_eq c b'/' then [] ∷ rest else add_to_head c rest

module _ {D : Type 0} (t : Transport D) where
  -- listDir: a nil folder lists the storages.
  unfoldable pub list_dir : D → Option FileEntry → Option (List FileEntry)
  list_dir d none = t.storages d
  list_dir d (some folder) = t.children d folder

  -- findChild: an absent child is no error.
  unfoldable pub find_child : D → Option FileEntry → Text → Result MtpError (Option FileEntry)
  unfolding list_dir found_in
  find_child d parent name = found_in (list_dir d parent) name

  -- putFile, which refuses a parent that is nil or no folder.
  unfoldable pub put_file : D → Option FileEntry → Text → Text → D × Bool
  put_file d none name content = (d, true)
  put_file d (some parent) name content =
      if parent.is_folder then t.send d parent name content else (d, true)

  -- The descent of lookupPath below an entry.
  unfoldable pub descend : D → FileEntry → List Text → Result MtpError FileEntry
  unfolding find_in
  descend d current [] = ok current
  descend d current (seg ∷ segments) = elim (t.children d current) [
    | none ↦ err io
    | some entries ↦ elim (find_in entries seg) [
      | none ↦ err not_found
      | some next ↦ descend d next segments
    ]
  ]

  lookup_segments : D → List Text → Result MtpError FileEntry
  unfolding descend find_in
  lookup_segments d [] = err io
  lookup_segments d (storage ∷ segments) = elim (t.storages d) [
    | none ↦ err io
    | some storages ↦ elim (find_in storages storage) [
      | none ↦ err not_found
      | some current ↦ descend d current segments
    ]
  ]

  -- lookupPath: the first segment names the storage.
  unfoldable pub lookup_path : D → Text → Result MtpError FileEntry
  unfolding trim_slashes split_path lookup_segments
  lookup_path d p =
      if is_empty (trim_slashes p) then err io else lookup_segments d (split_path (trim_slashes p))
