-- ===== src/Api/Downloads.antt =====
-- The downloads of internal/api: `handleListMedia`, `handleMediaThumbnail` and `handleDownloadMedia`
-- of handlers_media.go, and `handleDownloadKMZ` of handlers.go.
use companion_mission_planne.Base.{
  Option, none, some, [], ◌∷◌, ◌++◌, Text, text_Eq, codes, map, trim_space, is_empty, Result, ok,
  err, if◌then◌else◌,
}
use companion_mission_planne.Kmz.Guid.{is_valid_guid}
use companion_mission_planne.Device.Media.{MediaItem}
use companion_mission_planne.Device.Registry.{Host}
use companion_mission_planne.Device.Service.{DeviceError, Methods, Service, read_kmz}
use companion_mission_planne.Device.Service.MediaRoutes.{
  list_media, read_media, read_media_thumbnail,
}
use companion_mission_planne.Api.{
  bad_request, invalid_guid, nothing, items, bytes, Response, write_error, write_json,
  handle_registry_error,
}
use companion_mission_planne.Api.Filenames.{sanitize_filename, is_object_id}

module _ {W : Type 0} (m : Methods W) where
  thumbnail_response : Service W × Result DeviceError Text → Service W × Response
  unfolding handle_registry_error
  thumbnail_response (s, err e) = (s, handle_registry_error e)
  thumbnail_response (s, ok content) = (
    s,
    record {
      status = 200;
      headers =
          (codes "Content-Type", codes "image/jpeg")
          ∷ (codes "Cache-Control", codes "private, max-age=300")
          ∷ [];
      body = bytes content;
    },
  )

  -- handleMediaThumbnail
  unfoldable pub handle_media_thumbnail : Text → Text → Service W → Service W × Response
  unfolding is_object_id thumbnail_response read_media_thumbnail write_error
  handle_media_thumbnail device file_id s =
      if is_object_id file_id
      then thumbnail_response (read_media_thumbnail m device file_id s)
      else (s, write_error 400 bad_request)

  unfoldable pub attachment : Text → Text → Service W × Option Text → Service W × Response
  attachment content_type filename (s, read) = (
    s,
    record {
      status = 200;
      headers =
          (codes "Content-Type", content_type)
          ∷ (codes "Content-Disposition", codes "attachment; filename=\"" ++ filename ++ codes "\"")
          ∷ (codes "Cache-Control", codes "no-store")
          ∷ [];
      body = elim read [ none ↦ nothing | some content ↦ bytes content ];
    },
  )

  content_of : Service W × Result DeviceError (Text × Text) → Service W × Option Text
  content_of (s, err e) = (s, none)
  content_of (s, ok (name, content)) = (s, some content)

  unfoldable pub kmz_of : Service W × Result DeviceError Text → Service W × Option Text
  kmz_of (s, err e) = (s, none)
  kmz_of (s, ok content) = (s, some content)

  -- The name in the query, sanitized, or the fallback; `suffix` is appended to the former.
  unfoldable pub download_name : Text → Text → Text → Text
  unfolding trim_space sanitize_filename
  download_name fallback suffix query =
      if is_empty (trim_space query)
      then fallback
      else sanitize_filename (trim_space query) ++ suffix

  -- handleDownloadMedia: a read that fails is logged, and the answer is cut short.
  unfoldable pub handle_download_media : Text → Text → Text → Service W → Service W × Response
  unfolding is_object_id attachment content_of download_name read_media write_error
  handle_download_media device file_id query s =
      if is_object_id file_id
      then attachment (codes "application/octet-stream")
          (download_name (codes "media-" ++ file_id) [] query)
          (content_of (read_media m device file_id s))
      else (s, write_error 400 bad_request)

module _ {W : Type 0} (h : Host W) (m : Methods W) where
  -- handleDownloadKMZ
  unfoldable pub handle_download_kmz : Text → Text → Text → Service W → Service W × Response
  unfolding is_valid_guid attachment kmz_of download_name read_kmz write_error
  handle_download_kmz device guid query s =
      if is_valid_guid guid
      then attachment m (codes "application/vnd.google-earth.kmz")
          (download_name m (guid ++ codes ".kmz") (codes ".kmz") query)
          (kmz_of m (read_kmz h m device guid s))
      else (s, write_error 400 invalid_guid)

  with_urls : Text → MediaItem → MediaItem
  with_urls device i =
      let base = codes "/api/devices/" ++ device ++ codes "/media/" ++ i.id in
      record i {
        download_url = base;
        thumbnail_url = base ++ codes "/thumbnail";
        preview_url = if i.has_preview then base ++ codes "/preview" else i.preview_url;
      }

  -- handleListMedia
  unfoldable pub handle_list_media : Text → Service W → Service W × Response
  unfolding list_media with_urls write_json handle_registry_error
  handle_list_media device s =
      let (s', r) = list_media m h device s in
      elim r [
        | err e ↦ (s', handle_registry_error e)
        | ok found ↦ (s', write_json (items device (map (with_urls device) found)))
      ]
