-- ===== src/Device/Mtp/Browse.antt =====
-- The media browser of internal/device/mtp_controller.go.
pub mod Index
pub mod Reads
use companion_mission_planne.Base.{
  ℕ, zero, suc, ◌^◌, Bool, true, false, Option, none, some, List, [], ◌∷◌, ◌++◌, Text, text_Eq,
  nat_Eq, codes, equal_fold, ext, format_uint, is_empty, Result, ok, err, ◌>>=◌, if◌then◌else◌,
}
use companion_mission_planne.Base.Table
use companion_mission_planne.Base.Table.{Table}
use companion_mission_planne.Base.Sorting.{sort_ranked}
use companion_mission_planne.Device.Media.{
  MediaKind, photo, video, MediaItem, media_kind, parse_object_id, proxy_key,
}
use companion_mission_planne.Device.Exif.{extract_exif_thumbnail}
use companion_mission_planne.Device.Mtp.{
  FileEntry, Transport, MtpError, io, media_unavailable, media_not_found, thumbnail_not_found, Kind,
  controller, camera, unknown, Located,
}

-- mediaScanMaxDepth
abbrev pub media_scan_max_depth : ℕ
media_scan_max_depth = 8

-- mediaByID and lrfByVideo; `none` while the index has not been built.
pub record MediaIndex : Type 0 where
  pub by_id : Option (Table ℕ FileEntry)
  pub lrf_by_video : Table ℕ FileEntry

unfoldable pub empty_index : MediaIndex
empty_index = record { by_id = none; lrf_by_video = [] }

-- The .LRF proxies of the files by folder and base name.
unfoldable pub index_proxies : Table Text FileEntry → List FileEntry → Table Text FileEntry
unfolding equal_fold ext proxy_key
index_proxies m [] = m
index_proxies m (f ∷ files) =
    index_proxies
      (if equal_fold (ext f.name) (codes ".lrf")
        then Table.put (proxy_key f.parent_id f.name) f m
        else m)
      files

-- What the loop over the files builds.
pub record Scanned : Type 0 where
  pub media : Table ℕ FileEntry
  pub proxies : Table ℕ FileEntry
  pub items : List MediaItem

unfoldable pub item_of : FileEntry → MediaKind → Bool → MediaItem
unfolding format_uint
item_of f kind has_proxy = record {
  id = format_uint f.object_id;
  name = f.name;
  kind = kind;
  size = f.size;
  modified_at = f.modified_at;
  has_preview = has_proxy;
  thumbnail_url = [];
  preview_url = [];
  download_url = [];
}

-- One file of the loop: a photo, a video without a proxy, a video with one.
add_item : FileEntry → MediaKind → Option FileEntry → Scanned → Scanned
unfolding item_of
add_item f photo proxy x = record {
  media = Table.put f.object_id f x.media;
  proxies = x.proxies;
  items = x.items ++ item_of f photo false ∷ [];
}
add_item f video none x = record {
  media = Table.put f.object_id f x.media;
  proxies = x.proxies;
  items = x.items ++ item_of f video false ∷ [];
}
add_item f video (some proxy) x = record {
  media = Table.put f.object_id f x.media;
  proxies = Table.put f.object_id proxy x.proxies;
  items = x.items ++ item_of f video true ∷ [];
}

unfoldable pub scan_files : Table Text FileEntry → List FileEntry → Scanned → Scanned
unfolding media_kind add_item proxy_key
scan_files lrf [] x = x
scan_files lrf (f ∷ files) x = elim (media_kind f.name) [
  | none ↦ scan_files lrf files x
  | some kind ↦
      scan_files lrf files (add_item f kind (Table.get (proxy_key f.parent_id f.name) lrf) x)
]

unfoldable pub scanned_of : List FileEntry → Scanned
unfolding scan_files index_proxies
scanned_of files =
    scan_files (index_proxies [] files) files (record { media = []; proxies = []; items = [] })

-- Newest first.
unfoldable pub newest_first : List MediaItem → List MediaItem
newest_first items = sort_ranked (λ (i : MediaItem). i.modified_at) items

unfoldable pub or_not_found : Option FileEntry → Result MtpError FileEntry
or_not_found none = err media_not_found
or_not_found (some e) = ok e

unfoldable pub entry_at : Option (Table ℕ FileEntry) → ℕ → Option FileEntry
entry_at none oid = none
entry_at (some m) oid = Table.get oid m

-- A camera's DCIM folder, or ErrMediaUnavailable.
unfoldable pub camera_root : Located → Result MtpError FileEntry
camera_root l = elim l.kind [
  | controller ↦ err media_unavailable
  | unknown ↦ err media_unavailable
  | camera ↦ elim l.media_root [ none ↦ err media_unavailable | some root ↦ ok root ]
]

-- The loop of collectFiles over a listing; `inside` is the call on a folder.
unfoldable pub collect_entries :
    (FileEntry → Result MtpError (List FileEntry))
    → List FileEntry
    → Result MtpError (List FileEntry)
collect_entries inside [] = ok []
collect_entries inside (e ∷ entries) = do
  here ← if e.is_folder then inside e else ok (e ∷ [])
  rest ← collect_entries inside entries
  ok (here ++ rest)

module _ {D : Type 0} (t : Transport D) where
  -- collectFiles on `fuel` more levels of folders: below the deepest, nothing is read.
  unfoldable pub collect_files : ℕ → D → FileEntry → Result MtpError (List FileEntry)
  unfolding collect_entries
  collect_files zero d dir = ok []
  collect_files (suc fuel) d dir = elim (t.children d dir) [
    | none ↦ err io
    | some entries ↦ collect_entries (collect_files fuel d) entries
  ]

  -- The depths 0 to mediaScanMaxDepth are read.
  unfoldable pub media_files : D → FileEntry → Result MtpError (List FileEntry)
  unfolding collect_files
  media_files d root = collect_files (suc media_scan_max_depth) d root

  -- scanMediaLocked: an error leaves the index alone.
  unfoldable pub scan_media :
      D → FileEntry → MediaIndex → MediaIndex × Result MtpError (List MediaItem)
  unfolding media_files scanned_of newest_first
  scan_media d root x = elim (media_files d root) [
    | err e ↦ (x, err e)
    | ok files ↦
        let s = scanned_of files in
        (record { by_id = some s.media; lrf_by_video = s.proxies }, ok (newest_first s.items))
  ]

  -- ListMedia
  unfoldable pub list_media :
      Result MtpError Located → D → MediaIndex → MediaIndex × Result MtpError (List MediaItem)
  unfolding camera_root scan_media
  list_media (err e) d x = (x, err e)
  list_media (ok l) d x = elim (camera_root l) [
    | err e ↦ (x, err e)
    | ok root ↦ scan_media d root x
  ]

  build_index : D → FileEntry → MediaIndex → MediaIndex × Option MtpError
  unfolding scan_media
  build_index d root x =
      let (x', r) = scan_media d root x in elim r [ err e ↦ (x', some e) | ok items ↦ (x', none) ]

  -- ensureMediaIndex
  unfoldable pub ensure_media_index :
      Result MtpError Located → D → MediaIndex → MediaIndex × Option MtpError
  unfolding camera_root build_index
  ensure_media_index (err e) d x = (x, some e)
  ensure_media_index (ok l) d x = elim (camera_root l) [
    | err e ↦ (x, some e)
    | ok root ↦ elim x.by_id [ some m ↦ (x, none) | none ↦ build_index d root x ]
  ]

  -- mediaEntry
  unfoldable pub media_entry :
      Result MtpError Located → D → MediaIndex → Text → MediaIndex × Result MtpError FileEntry
  unfolding parse_object_id ensure_media_index or_not_found entry_at
  media_entry l d x id = elim (parse_object_id id) [
    | none ↦ (x, err media_not_found)
    | some oid ↦
        let (x', failed) = ensure_media_index l d x in
        elim failed [ some e ↦ (x', err e) | none ↦ (x', or_not_found (entry_at x'.by_id oid)) ]
  ]
