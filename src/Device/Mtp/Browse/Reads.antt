-- ===== src/Device/Mtp/Browse/Reads.antt =====
-- `ReadMedia`, `ReadVideoPreview` and `ReadThumbnail` of internal/device/mtp_controller.go.
use companion_mission_planne.Base.{
  Bool, Option, none, some, Text, text_Eq, nat_Eq, is_empty, Result, ok, err, if◌then◌else◌,
}
use companion_mission_planne.Base.Table
use companion_mission_planne.Base.Table.{Table}
use companion_mission_planne.Device.Media.{photo, video, media_kind, parse_object_id}
use companion_mission_planne.Device.Exif.{extract_exif_thumbnail}
use companion_mission_planne.Device.Mtp.{
  FileEntry, Transport, MtpError, io, media_not_found, thumbnail_not_found, Located,
}
use companion_mission_planne.Device.Mtp.Browse.{
  MediaIndex, or_not_found, ensure_media_index, media_entry,
}

module _ {D : Type 0} (t : Transport D) where
  fetched : D → Result MtpError FileEntry → Result MtpError (Text × Text)
  fetched d (err e) = err e
  fetched d (ok e) = elim (t.fetch d e.object_id) [
    | none ↦ err io
    | some content ↦ ok (e.name, content)
  ]

  -- ReadMedia
  unfoldable pub read_media :
      Result MtpError Located → D → MediaIndex → Text → MediaIndex × Result MtpError (Text × Text)
  unfolding media_entry fetched
  read_media l d x id = let (x', r) = media_entry t l d x id in (x', fetched d r)

  -- ReadVideoPreview
  unfoldable pub read_video_preview :
      Result MtpError Located → D → MediaIndex → Text → MediaIndex × Result MtpError (Text × Text)
  unfolding parse_object_id ensure_media_index fetched or_not_found
  read_video_preview l d x id = elim (parse_object_id id) [
    | none ↦ (x, err media_not_found)
    | some oid ↦
        let (x', failed) = ensure_media_index t l d x in
        elim failed [
          | some e ↦ (x', err e)
          | none ↦ (x', fetched d (or_not_found (Table.get oid x'.lrf_by_video)))
        ]
  ]

  exif_of : (Text → Bool) → D → FileEntry → Option Text
  unfolding extract_exif_thumbnail
  exif_of decodes d e = elim (t.partial d e.object_id 262144) [
    | none ↦ none
    | some head ↦ extract_exif_thumbnail decodes head
  ]

  thumbnail_from : Option Text → Result MtpError Text
  thumbnail_from none = err thumbnail_not_found
  thumbnail_from (some thumb) = ok thumb

  -- The fallback for a photo whose device gives no thumbnail.
  fallback : (Text → Bool) → D → FileEntry → Result MtpError Text
  unfolding media_kind exif_of thumbnail_from
  fallback decodes d e = elim (media_kind e.name) [
    | none ↦ err thumbnail_not_found
    | some video ↦ err thumbnail_not_found
    | some photo ↦ thumbnail_from (exif_of decodes d e)
  ]

  thumbnail_of : (Text → Bool) → D → Result MtpError FileEntry → Result MtpError Text
  unfolding fallback
  thumbnail_of decodes d (err e) = err e
  thumbnail_of decodes d (ok e) = elim (t.thumbnail d e.object_id) [
    | none ↦ fallback decodes d e
    | some thumb ↦ if is_empty thumb then fallback decodes d e else ok thumb
  ]

  -- ReadThumbnail; `decodes` is the JPEG decoder's verdict.
  unfoldable pub read_thumbnail :
      (Text → Bool)
      → Result MtpError Located
      → D
      → MediaIndex
      → Text
      → MediaIndex × Result MtpError Text
  unfolding media_entry thumbnail_of
  read_thumbnail decodes l d x id =
      let (x', r) = media_entry t l d x id in (x', thumbnail_of decodes d r)
