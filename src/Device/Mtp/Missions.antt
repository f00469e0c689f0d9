-- ===== src/Device/Mtp/Missions.antt =====
-- The mission files of internal/device/mtp_controller.go: `ReadPreview`, `WriteKMZ`,
-- `WriteWaypointImages`, `ReadKMZ`, `WritePreview`, `ClearSlot`. Each takes what awaitLocate gives
-- and the state of the device, and returns the new state.
pub mod RoundTrip
use companion_mission_planne.Base.{
  ℕ, Bool, true, false, not, ◌&&◌, ◌||◌, Option, none, some, List, [], ◌∷◌, ◌++◌, Text, text_Eq,
  codes, to_upper, equal_fold, has_prefix, has_suffix, length, Result, ok, err, if◌then◌else◌,
}
use companion_mission_planne.Base.Table
use companion_mission_planne.Base.Table.{Table}
use companion_mission_planne.Device.Mtp.{
  FileEntry, Transport, MtpError, io, slot_not_found, preview_not_found, kmz_missing,
  image_folder_missing, preview_dir_missing, preview_folder_missing, Located, list_dir, find_child,
  put_file,
}

-- An entry that a lookup gave; an error counts as absent.
unfoldable pub present : Result MtpError (Option FileEntry) → Option FileEntry
present (err e) = none
present (ok e) = e

-- WaypointImage
pub record WaypointImage : Type 0 where
  pub index : ℕ
  pub name : Text
  pub bytes : Text

-- The files that a new set of waypoint images replaces: WP_*.jpg and ShotSnap.json.
unfoldable pub is_old_image : FileEntry → Bool
unfolding to_upper has_prefix has_suffix equal_fold
is_old_image ch =
    not ch.is_folder
    && (has_prefix (to_upper ch.name) (codes "WP_") && has_suffix (to_upper ch.name) (codes ".JPG")
        || equal_fold ch.name (codes "ShotSnap.json"))

image_positions : Table Text ℕ → List WaypointImage → Table Text ℕ
image_positions m [] = m
image_positions m (img ∷ images) = image_positions (Table.put img.name img.index m) images

-- A written file's outcome as an error or its size.
sent : Text → Bool → Result MtpError ℕ
sent content true = err io
sent content false = ok (length content)

module _ {D : Type 0} (t : Transport D) where
  get_file : D → FileEntry → Result MtpError Text
  get_file d e = elim (t.fetch d e.object_id) [ none ↦ err io | some content ↦ ok content ]

  -- The slot's folder in the waypoint directory, `none` where it is absent or cannot be looked up.
  unfoldable pub slot_folder : Located → D → Text → Option FileEntry
  unfolding present find_child
  slot_folder l d guid = present (find_child t d l.waypoint_dir guid)

  -- ReadKMZ: what is streamed to the caller.
  unfoldable pub read_kmz : Result MtpError Located → D → Text → Result MtpError Text
  unfolding slot_folder get_file present find_child
  read_kmz (err e) d guid = err e
  read_kmz (ok l) d guid = elim (slot_folder l d guid) [
    | none ↦ err (slot_not_found guid)
    | some slot ↦ elim (present (find_child t d (some slot) (guid ++ codes ".kmz"))) [
      | none ↦ err (kmz_missing guid)
      | some kmz ↦ get_file d kmz
    ]
  ]

  -- Removes an entry if there is one; `true` is the error of the removal.
  unfoldable pub erase_present : D → Option FileEntry → D × Bool
  erase_present d none = (d, false)
  erase_present d (some e) = t.erase d e

  -- The upload of a buffered file; `none` is an upload that could not be read.
  unfoldable pub put_upload : D → Option FileEntry → Text → Option Text → D × Result MtpError ℕ
  unfolding put_file sent
  put_upload d dir name none = (d, err io)
  put_upload d dir name (some content) =
      let (d', refused) = put_file t d dir name content in (d', sent content refused)

  -- The replacement of the file `name` in a folder: the old one is deleted, and the new one sent.
  unfoldable pub replace_file : D → Option FileEntry → Text → Option Text → D × Result MtpError ℕ
  unfolding present find_child erase_present put_upload
  replace_file d dir name upload =
      let (d', failed) = erase_present d (present (find_child t d dir name)) in
      let rest = put_upload d' dir name upload in if failed then (d', err io) else rest

  -- WriteKMZ. A slot that is absent leaves a nil folder, in which the lookup lists the storages and
  -- which the upload refuses.
  unfoldable pub write_kmz :
      Result MtpError Located → D → Text → Option Text → D × Result MtpError ℕ
  unfolding find_child replace_file
  write_kmz (err e) d guid upload = (d, err e)
  write_kmz (ok l) d guid upload = elim (find_child t d l.waypoint_dir guid) [
    | err e ↦ (d, err (slot_not_found guid))
    | ok slot ↦ replace_file d slot (guid ++ codes ".kmz") upload
  ]

  read_preview_file : D → Option FileEntry → Text → Result MtpError Text
  unfolding present find_child get_file
  read_preview_file d none guid = err preview_not_found
  read_preview_file d (some dir) guid =
      if dir.is_folder
      then elim (present (find_child t d (some dir) (guid ++ codes ".jpg"))) [
        | none ↦ err preview_not_found
        | some jpg ↦ get_file d jpg
      ]
      else err preview_not_found

  -- ReadPreview: what the reader yields.
  unfoldable pub read_preview : Result MtpError Located → D → Text → Result MtpError Text
  unfolding read_preview_file present find_child
  read_preview (err e) d guid = err e
  read_preview (ok l) d guid = elim l.preview_dir [
    | none ↦ err preview_not_found
    | some dir ↦ read_preview_file d (present (find_child t d (some dir) guid)) guid
  ]

  -- The upload of a preview: an old image that cannot be deleted is no error.
  replace_preview : D → FileEntry → Text → Option Text → D × Result MtpError ℕ
  unfolding erase_present present find_child put_upload
  replace_preview d dir name upload =
      let (d', ignored) = erase_present d (present (find_child t d (some dir) name)) in
      put_upload d' (some dir) name upload

  -- WritePreview
  unfoldable pub write_preview :
      Result MtpError Located → D → Text → Option Text → D × Result MtpError ℕ
  unfolding find_child replace_preview
  write_preview (err e) d guid upload = (d, err e)
  write_preview (ok l) d guid upload = elim l.preview_dir [
    | none ↦ (d, err preview_dir_missing)
    | some dir ↦ elim (find_child t d (some dir) guid) [
      | err e ↦ (d, err e)
      | ok none ↦ (d, err (preview_folder_missing guid))
      | ok (some folder) ↦ replace_preview d folder (guid ++ codes ".jpg") upload
    ]
  ]

  -- Deletes the entries that pass a test, whatever fails.
  unfoldable pub erase_where : (FileEntry → Bool) → List FileEntry → D → D
  erase_where p [] d = d
  erase_where p (ch ∷ entries) d = erase_where p entries (if p ch then (t.erase d ch).0 else d)

  -- The loop that sends the images; the first that is refused ends it.
  send_images : D → FileEntry → List WaypointImage → D × Result MtpError ℕ
  unfolding put_file
  send_images d dir [] = (d, ok 0)
  send_images d dir (img ∷ images) =
      let (d1, refused) = put_file t d (some dir) img.name img.bytes in
      let rest = send_images d1 dir images in if refused then (d1, err io) else rest

  replace_images :
      (Table Text ℕ → Text) → D → FileEntry → List WaypointImage → D × Result MtpError ℕ
  unfolding send_images image_positions put_file sent
  replace_images json d dir images =
      let (d1, r) = send_images d dir images in
      elim r [
        | err e ↦ (d1, err e)
        | ok n ↦
            let content = json (image_positions [] images) in
            let (d2, refused) = put_file t d1 (some dir) (codes "ShotSnap.json") content in
            (d2, sent content refused)
      ]

  -- WriteWaypointImages; `json` is what encoding/json makes of ShotSnap.json for the positions.
  unfoldable pub write_waypoint_images :
      (Table Text ℕ → Text)
      → Result MtpError Located
      → D
      → Text
      → List WaypointImage
      → D × Result MtpError ℕ
  unfolding slot_folder present find_child list_dir erase_where is_old_image replace_images
  write_waypoint_images json (err e) d guid images = (d, err e)
  write_waypoint_images json (ok l) d guid images = elim (slot_folder l d guid) [
    | none ↦ (d, err (slot_not_found guid))
    | some slot ↦ elim (present (find_child t d (some slot) (codes "image"))) [
      | none ↦ (d, err (image_folder_missing guid))
      | some dir ↦ elim (list_dir t d (some dir)) [
        | none ↦ (d, err io)
        | some existing ↦ replace_images json (erase_where is_old_image existing d) dir images
      ]
    ]
  ]

  -- The three cleanups of ClearSlot.
  wipe_images : FileEntry → D → D
  unfolding present find_child list_dir erase_where
  wipe_images slot d = elim (present (find_child t d (some slot) (codes "image"))) [
    | none ↦ d
    | some dir ↦ elim (list_dir t d (some dir)) [
      | none ↦ d
      | some children ↦ erase_where (λ (ch : FileEntry). not ch.is_folder) children d
    ]
  ]

  drop_preview : Option FileEntry → Text → D → D
  unfolding present find_child erase_present
  drop_preview none guid d = d
  drop_preview (some dir) guid d = elim (present (find_child t d (some dir) guid)) [
    | none ↦ d
    | some folder ↦
        (erase_present d (present (find_child t d (some folder) (guid ++ codes ".jpg")))).0
  ]

  -- The content of the slot's old KMZ, if it can be read.
  old_kmz : D → FileEntry → Text → Option Text
  unfolding present find_child
  old_kmz d slot guid = elim (present (find_child t d (some slot) (guid ++ codes ".kmz"))) [
    | none ↦ none
    | some e ↦ t.fetch d e.object_id
  ]

  finish_clear : Located → FileEntry → Text → D × Result MtpError ℕ → D × Result MtpError ℕ
  unfolding wipe_images drop_preview
  finish_clear l slot guid (d, err e) = (d, err e)
  finish_clear l slot guid (d, ok n) = (drop_preview l.preview_dir guid (wipe_images slot d), ok n)

  -- ClearSlot; `placeholder` is what PlaceholderKMZ builds at the first waypoint of the old mission,
  -- or at (0, 0) where none can be read, with `none` for its error.
  unfoldable pub clear_slot :
      (Option Text → Option Text) → Result MtpError Located → D → Text → D × Result MtpError ℕ
  unfolding slot_folder old_kmz replace_file finish_clear
  clear_slot placeholder (err e) d guid = (d, err e)
  clear_slot placeholder (ok l) d guid = elim (slot_folder l d guid) [
    | none ↦ (d, err (slot_not_found guid))
    | some slot ↦ elim (placeholder (old_kmz d slot guid)) [
      | none ↦ (d, err io)
      | some kmz ↦
          finish_clear l slot guid (replace_file d (some slot) (guid ++ codes ".kmz") (some kmz))
    ]
  ]
