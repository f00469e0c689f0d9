-- ===== src/Device/MassStorage/Reads.antt =====
-- `ReadMedia`, `ReadVideoPreview` and `PreviewFilePath` of internal/device/massstorage_controller.go.
use companion_mission_planne.Base.{none, some, Text, text_Eq, nat_Eq, Result, ok, err}
use companion_mission_planne.Base.Table
use companion_mission_planne.Base.Table.{Table}
use companion_mission_planne.Device.Media.{photo, video, media_kind, parse_object_id}
use companion_mission_planne.Device.MassStorage.{
  FilePath, Volume, Controller, ensure_index, path_for, resolved, media_at, MediaError,
  media_not_found, not_opened,
}

opened : Volume → Result MediaError FilePath → Result MediaError (Text × Text)
opened v (err e) = err e
opened v (ok p) = elim (v.content p) [ none ↦ err not_opened | some data' ↦ ok (p.name, data') ]

-- ReadMedia: the file's name and what is streamed.
unfoldable pub read_media :
    Volume → Controller → Text → Controller × Result MediaError (Text × Text)
unfolding path_for opened
read_media v c id = let (c', r) = path_for v c id in (c', opened v r)

-- ReadVideoPreview
unfoldable pub read_video_preview :
    Volume → Controller → Text → Controller × Result MediaError (Text × Text)
unfolding ensure_index opened resolved parse_object_id
read_video_preview v c id = elim (parse_object_id id) [
  | none ↦ (c, err media_not_found)
  | some oid ↦
      let c' = ensure_index v c in (c', opened v (resolved (Table.get oid c'.lrf_by_video)))
]

only_video : Result MediaError FilePath → Result MediaError FilePath
unfolding media_kind
only_video (err e) = err e
only_video (ok p) = elim (media_kind p.name) [
  | some video ↦ ok p
  | some photo ↦ err media_not_found
  | none ↦ err media_not_found
]

-- PreviewFilePath
unfoldable pub preview_file_path :
    Volume → Controller → Text → Controller × Result MediaError FilePath
unfolding ensure_index only_video media_at resolved parse_object_id
preview_file_path v c id = elim (parse_object_id id) [
  | none ↦ (c, err media_not_found)
  | some oid ↦
      let c' = ensure_index v c in
      elim (Table.get oid c'.lrf_by_video) [
        | some proxy ↦ (c', ok proxy)
        | none ↦ (c', only_video (resolved (media_at c'.media_by_id oid)))
      ]
]
