-- ===== src/Device/Media.antt =====
-- The parts of the media browsers that do not depend on the transport: `MediaItem` of
-- internal/device/controller.go, and `mediaKind`, `parseObjectID`, `proxyKey` of
-- internal/device/mtp_controller.go. A time is a number of ticks, and 0 is Go's zero time.
use companion_mission_planne.Base.{
  ℕ, ◌^◌, ◌≡◌, refl, Bool, Option, none, some, List, [], ◌∷◌, ◌++◌, Text, text_Eq, text_eq, codes,
  elem, to_lower, to_upper, ext, trim_suffix, trim_space, parse_uint, parse-format,
  trim_space-format, ◌<◌, format_uint, if◌then◌else◌,
}

pub data MediaKind : Type 0 where
  photo video : MediaKind

pub record MediaItem : Type 0 where
  pub id : Text
  pub name : Text
  pub kind : MediaKind
  pub size : ℕ
  pub modified_at : ℕ
  pub has_preview : Bool
  pub thumbnail_url : Text
  pub preview_url : Text
  pub download_url : Text

abbrev photo_exts : List Text
photo_exts =
    codes ".jpg"
    ∷ codes ".jpeg"
    ∷ codes ".dng"
    ∷ codes ".png"
    ∷ codes ".heic"
    ∷ codes ".heif"
    ∷ codes ".webp"
    ∷ codes ".tif"
    ∷ codes ".tiff"
    ∷ codes ".raw"
    ∷ []

abbrev video_exts : List Text
video_exts = codes ".mp4" ∷ codes ".mov" ∷ codes ".m4v" ∷ codes ".avi" ∷ codes ".mkv" ∷ []

-- mediaKind; `none` is "", not a media file.
unfoldable pub media_kind : Text → Option MediaKind
unfolding to_lower ext
media_kind name =
    let e = to_lower (ext name) in
    if elem e photo_exts then some photo else if elem e video_exts then some video else none

-- strconv.ParseUint(strings.TrimSpace(id), 10, 32); `none` is ErrMediaNotFound.
unfoldable pub parse_object_id : Text → Option ℕ
unfolding trim_space parse_uint
parse_object_id id = parse_uint (2 ^ 32) (trim_space id)

-- The name without its extension, in upper case.
unfoldable pub upper_base : Text → Text
unfolding to_upper trim_suffix ext
upper_base name = to_upper (trim_suffix name (ext name))

-- proxyKey
unfoldable pub proxy_key : ℕ → Text → Text
unfolding upper_base format_uint
proxy_key parent name = format_uint parent ++ codes "/" ++ upper_base name

media_kind_examples :
    (media_kind (codes "DJI_0001.JPG") ≡ some photo)
    × (media_kind (codes "a.b/clip.Mov") ≡ some video)
    × (media_kind (codes "DJI_0001.LRF") ≡ none)
    × (media_kind (codes "mp4") ≡ none)
unfolding media_kind text_eq
media_kind_examples = (refl, refl, refl, refl)

proxy_key_example : proxy_key 12 (codes "dji_0001.mp4") ≡ codes "12/DJI_0001"
unfolding proxy_key
proxy_key_example = refl

-- The id that a media item is given is read back as the object's number.
pub parse_object_id-format : (n : ℕ) → n < 2 ^ 32 → parse_object_id (format_uint n) ≡ some n
unfolding parse_object_id
parse_object_id-format n h = rw (trim_space-format n) (parse-format (2 ^ 32) n h)
