-- ===== src/Api/Media.antt =====
-- internal/api/handlers_media.go: the media handlers and the cache of video previews, with the purge
-- that `pumpDeviceEvents` of server.go makes.
pub mod Cache
use companion_mission_planne.Base.{
  ℕ, Bool, true, false, not, Option, none, some, List, [], ◌∷◌, ◌++◌, Text, text_Eq, text_eq, codes,
  map, take, trim_space, is_empty, has_prefix, Result, ok, err, if◌then◌else◌,
}
use companion_mission_planne.Base.Table
use companion_mission_planne.Base.Table.{Table}
use companion_mission_planne.Kmz.Guid.{is_valid_guid}
use companion_mission_planne.Device.Media.{MediaItem}
use companion_mission_planne.Device.Registry.{Host}
use companion_mission_planne.Device.Registry.Hotplug.{
  EventType, disconnected, connected, authorized, refused, state_change, refreshed,
}
use companion_mission_planne.Device.Service.{
  DeviceError, unknown_device, slot_not_found, preview_not_found, media_unavailable,
  media_not_found, thumbnail_not_found, other, Methods, Service, read_kmz,
}
use companion_mission_planne.Device.Service.MediaRoutes.{
  list_media, read_media, read_media_thumbnail, read_video_preview, media_preview_path,
}
use companion_mission_planne.Api.{
  bad_request, internal_error, invalid_guid, nothing, items, bytes, file, Response, write_error,
  write_json, handle_registry_error,
}
use companion_mission_planne.Api.Filenames.{sanitize_filename, is_object_id, video_content_type}

-- The files below the directory for temporary files, by path.
abbrev pub Files : Type 0
Files = Table Text Text

-- The registry, the files, and the directory for temporary files.
pub record Media (W : Type 0) : Type 0 where
  pub service : Service W
  pub files : Files
  pub temp : Text

-- What the operating system answers: the name of a temporary file, unless it cannot be made; and, where
-- the process ends during a pull, how many bytes the temporary file has got by then.
pub record Os : Type 0 where
  pub mkdir_fails : Bool
  pub create_temp : Option Text
  pub close_fails : Bool
  pub rename_fails : Bool
  pub ends_after : Option ℕ

-- filepath.Join of the cache's directory and a sanitized id, which holds no slash.
unfoldable pub device_dir : Text → Text → Text
unfolding sanitize_filename text_eq
device_dir temp device =
    let name = sanitize_filename device in
    if text_eq name (codes "..")
    then temp
    else if text_eq name (codes ".")
    then temp ++ codes "/kam-media-cache"
    else temp ++ codes "/kam-media-cache/" ++ name

abbrev pub preview_file : Text → Text → Text → Text
preview_file temp device file_id = device_dir temp device ++ codes "/" ++ file_id ++ codes ".mp4"

-- `err == nil && fi.Size() > 0`
unfoldable pub is_cached : Text → Files → Bool
is_cached path files = elim (Table.get path files) [
  | none ↦ false
  | some content ↦ not (is_empty content)
]

-- What becomes of the temporary file when the copy to it and the rename have come to their end.
settle_copied :
    Os → Text → Text → Result DeviceError (Text × Text) → Files → Files × Result DeviceError Text
settle_copied os tmp dst (err e) files = (Table.remove tmp files, err e)
settle_copied os tmp dst (ok (name, content)) files =
    if os.close_fails
    then (Table.remove tmp files, err other)
    else if os.rename_fails
    then (Table.remove tmp files, err other)
    else (Table.put dst content (Table.remove tmp files), ok dst)

-- The bytes that a pull has written before it fails are removed with the file.
pulled_part : ℕ → Result DeviceError (Text × Text) → Text
pulled_part n (err e) = []
pulled_part n (ok (name, content)) = take n content

-- The end of cachedVideoPreview. A process that ends has no answer, for which `other` stands.
unfoldable pub settle :
    Os → Text → Text → Result DeviceError (Text × Text) → Files → Files × Result DeviceError Text
unfolding settle_copied pulled_part
settle os tmp dst pulled files = elim os.ends_after [
  | some n ↦ (Table.put tmp (pulled_part n pulled) files, err other)
  | none ↦ settle_copied os tmp dst pulled files
]

module _ {W : Type 0} (m : Methods W) where
  pull_preview : Os → Text → Text → Text → Text → Media W → Media W × Result DeviceError Text
  unfolding settle read_video_preview
  pull_preview os tmp dst device file_id s =
      let (service, pulled) = read_video_preview m device file_id s.service in
      let (files, r) = settle os tmp dst pulled s.files in
      (record s { service = service; files = files }, r)

  -- cachedVideoPreview
  unfoldable pub cached_video_preview :
      Os → Text → Text → Media W → Media W × Result DeviceError Text
  unfolding is_cached pull_preview device_dir
  cached_video_preview os device file_id s =
      let dst = preview_file s.temp device file_id in
      if is_cached dst s.files
      then (s, ok dst)
      else if os.mkdir_fails
      then (s, err other)
      else elim os.create_temp [
        | none ↦ (s, err other)
        | some tmp ↦ pull_preview os tmp dst device file_id s
      ]

  -- serveMediaFile; `readable` is whether the file can be opened and its size read.
  unfoldable pub serve_media_file : Bool → Text → Response
  unfolding write_error video_content_type
  serve_media_file readable path =
      if readable
      then record {
        status = 200;
        headers =
            (codes "Content-Type", video_content_type path)
            ∷ (codes "Cache-Control", codes "private, max-age=300")
            ∷ [];
        body = file path;
      }
      else write_error 500 internal_error

  serve_cached : (Text → Bool) → Media W × Result DeviceError Text → Media W × Response
  unfolding serve_media_file handle_registry_error
  serve_cached readable (s, err e) = (s, handle_registry_error e)
  serve_cached readable (s, ok path) = (s, serve_media_file (readable path) path)

  -- The choice of handleMediaPreview by what MediaPreviewPath gave.
  preview_by :
      (Text → Bool) → Os → Text → Text → Result DeviceError Text → Media W → Media W × Response
  unfolding serve_media_file serve_cached handle_registry_error cached_video_preview
  preview_by readable os device file_id (ok path) s = (s, serve_media_file (readable path) path)
  preview_by readable os device file_id (err e) s = elim e [
    | media_unavailable ↦ serve_cached readable (cached_video_preview os device file_id s)
    | unknown_device ↦ (s, handle_registry_error unknown_device)
    | slot_not_found ↦ (s, handle_registry_error slot_not_found)
    | preview_not_found ↦ (s, handle_registry_error preview_not_found)
    | media_not_found ↦ (s, handle_registry_error media_not_found)
    | thumbnail_not_found ↦ (s, handle_registry_error thumbnail_not_found)
    | other ↦ (s, handle_registry_error other)
  ]

  -- handleMediaPreview
  unfoldable pub handle_media_preview :
      (Text → Bool) → Os → Text → Text → Media W → Media W × Response
  unfolding is_object_id preview_by media_preview_path write_error
  handle_media_preview readable os device file_id s =
      if is_object_id file_id
      then (let (service, r) = media_preview_path m device file_id s.service in
          preview_by readable os device file_id r (record s { service = service }))
      else (s, write_error 400 bad_request)

-- os.RemoveAll
unfoldable pub remove_all : Text → Files → Files
unfolding has_prefix text_eq
remove_all dir [] = []
remove_all dir ((path, content) ∷ files) =
    let rest = remove_all dir files in
    if text_eq path dir
    then rest
    else if has_prefix path (dir ++ codes "/")
    then rest
    else (path, content) ∷ rest

-- The purge of pumpDeviceEvents on an event.
unfoldable pub purge_preview : {W : Type 0} → EventType → Text → Media W → Media W
unfolding remove_all device_dir
purge_preview kind device s = elim kind [
  | disconnected ↦
      if is_empty device
      then s
      else record s { files = remove_all (device_dir s.temp device) s.files }
  | connected ↦ s
  | authorized ↦ s
  | refused ↦ s
  | state_change ↦ s
  | refreshed ↦ s
]
