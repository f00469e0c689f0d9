-- ===== src/Device/MassStorage/Thumbnails.antt =====
-- `ReadThumbnail` of internal/device/massstorage_controller.go, with the cache of video posters.
pub mod Posters
use companion_mission_planne.Base.{
  ℕ, Option, none, some, [], ◌∷◌, ◌++◌, Text, text_Eq, nat_Eq, Result, ok, err, take,
}
use companion_mission_planne.Base.Table
use companion_mission_planne.Base.Table.{Table}
use companion_mission_planne.Device.Media.{photo, video, media_kind}
use companion_mission_planne.Device.Exif.{extract_exif_thumbnail}
use companion_mission_planne.Device.MassStorage.{
  FilePath, path_text, Volume, Controller, Poster, made, unavailable, failed, path_for, MediaError,
  thumbnail_not_found, not_opened,
}

-- exifThumbnailOf: the thumbnail in the first 256 KB of the file.
abbrev pub exif_probe_bytes : ℕ
exif_probe_bytes = 262144

some_or_missing : Option Text → Result MediaError Text
some_or_missing none = err thumbnail_not_found
some_or_missing (some t) = ok t

unfoldable pub exif_thumbnail_of : Volume → FilePath → Result MediaError Text
unfolding some_or_missing
exif_thumbnail_of v p = elim (v.content p) [
  | none ↦ err not_opened
  | some data' ↦ some_or_missing (extract_exif_thumbnail v.decodes (take exif_probe_bytes data'))
]

-- What the cache answers: `none` is a miss.
cached_poster : Controller → Text → Option (Option Text)
cached_poster c path = Table.get path c.poster_cache

store_poster : Text → Option Text → Controller → Controller
store_poster path poster c = record c { poster_cache = Table.put path poster c.poster_cache }

run_ffmpeg : Text → Poster → Controller → Controller × Result MediaError Text
unfolding store_poster
run_ffmpeg path unavailable c = (record c { runs = c.runs ++ path ∷ [] }, err thumbnail_not_found)
run_ffmpeg path failed c =
    (store_poster path none (record c { runs = c.runs ++ path ∷ [] }), err thumbnail_not_found)
run_ffmpeg path (made poster) c =
    (store_poster path (some poster) (record c { runs = c.runs ++ path ∷ [] }), ok poster)

-- videoPoster, of one request at a time: the second look at the cache sees what the first saw.
unfoldable pub video_poster : Volume → FilePath → Controller → Controller × Result MediaError Text
unfolding cached_poster run_ffmpeg some_or_missing
video_poster v p c = elim (cached_poster c (path_text p)) [
  | some poster ↦ (c, some_or_missing poster)
  | none ↦ run_ffmpeg (path_text p) (v.ffmpeg p) c
]

thumbnail_of :
    Volume → Controller → Result MediaError FilePath → Controller × Result MediaError Text
unfolding exif_thumbnail_of video_poster media_kind
thumbnail_of v c (err e) = (c, err e)
thumbnail_of v c (ok p) = elim (media_kind p.name) [
  | some photo ↦ (c, exif_thumbnail_of v p)
  | some video ↦ video_poster v p c
  | none ↦ (c, err thumbnail_not_found)
]

-- ReadThumbnail
unfoldable pub read_thumbnail : Volume → Controller → Text → Controller × Result MediaError Text
unfolding path_for thumbnail_of
read_thumbnail v c id = let (c', r) = path_for v c id in thumbnail_of v c' r
