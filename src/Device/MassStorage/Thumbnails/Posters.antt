-- ===== src/Device/MassStorage/Thumbnails/Posters.antt =====
-- The poster cache of internal/device/massstorage_controller.go: what a repeated request finds.
use companion_mission_planne.Base.{
  ◌≡◌, refl, ◌∙◌, ap, ◌≢◌, inl, inr, arith, Option, none, some, Text, text_Eq, ==_refl,
  Option-cases, Result, ok, err,
}
use companion_mission_planne.Base.Table
use companion_mission_planne.Base.Table.{Table, get-put}
use companion_mission_planne.Device.Media.{parse_object_id}
use companion_mission_planne.Device.MassStorage.{
  FilePath, path_text, Volume, Controller, Poster, made, unavailable, failed, ensure_index, scan,
  path_for, MediaError,
}
use companion_mission_planne.Device.MassStorage.Thumbnails.{
  video_poster, run_ffmpeg, cached_poster, store_poster, some_or_missing, read_thumbnail,
  thumbnail_of,
}

-- An index that has been built is kept.
ensure_index-again :
    (v : Volume) (c : Controller) → ensure_index v (ensure_index v c) ≡ ensure_index v c
unfolding ensure_index scan
ensure_index-again v c = elim (Option-cases c.media_by_id) [
  | inl e ↦ ground (arith, e)
  | inr (m, e) ↦ ground (arith, e)
]

pub path_for-again :
    (v : Volume) (c : Controller) (id : Text) → path_for v (path_for v c id).0 id ≡ path_for v c id
unfolding path_for
path_for-again v c id = elim (Option-cases (parse_object_id id)) [
  | inl e ↦ ground (arith, e)
  | inr (oid, e) ↦ ground (arith, e, ensure_index-again v c)
]

video_poster-miss :
    (v : Volume) (p : FilePath) (c : Controller)
    → Table.get (path_text p) c.poster_cache ≡ none
    → video_poster v p c ≡ run_ffmpeg (path_text p) (v.ffmpeg p) c
unfolding video_poster cached_poster
video_poster-miss v p c e = ground (arith, e)

video_poster-hit :
    (v : Volume) (p : FilePath) (c : Controller) (t : Option Text)
    → Table.get (path_text p) c.poster_cache ≡ some t
    → video_poster v p c ≡ (c, some_or_missing t)
unfolding video_poster cached_poster
video_poster-hit v p c t e = ground (arith, e)

stored :
    (k : Text) (t : Option Text) (m : Table Text (Option Text))
    → Table.get k (Table.put k t m) ≡ some t
stored k t m = get-put k k t m ∙ rw (==_refl k) refl

poster_run-again :
    (v : Volume) (p : FilePath) (c : Controller) (o : Poster)
    → o ≢ unavailable
    → video_poster v p (run_ffmpeg (path_text p) o c).0 ≡ run_ffmpeg (path_text p) o c
unfolding run_ffmpeg store_poster some_or_missing
poster_run-again v p c (made t) h =
    video_poster-hit v p (run_ffmpeg (path_text p) (made t) c).0 (some t)
      (stored (path_text p) (some t) c.poster_cache)
poster_run-again v p c unavailable h = absurd (h refl)
poster_run-again v p c failed h =
    video_poster-hit v p (run_ffmpeg (path_text p) failed c).0 none
      (stored (path_text p) none c.poster_cache)

-- Unless ffmpeg is missing, a video's poster asked for again is answered alike, and the second
-- request changes nothing: ffmpeg does not run again, whether it made a poster or failed.
pub poster-again :
    (v : Volume) (p : FilePath) (c : Controller)
    → v.ffmpeg p ≢ unavailable
    → video_poster v p (video_poster v p c).0 ≡ video_poster v p c
poster-again v p c h = elim (Option-cases (Table.get (path_text p) c.poster_cache)) [
  | inl e ↦ rw (video_poster-miss v p c e) (poster_run-again v p c (v.ffmpeg p) h)
  | inr (t, e) ↦ rw (video_poster-hit v p c t e) (video_poster-hit v p c t e)
]

-- A resolved path stays resolved while the index does.
path_for-stable :
    (v : Volume) (c d : Controller) (id : Text) (r : Result MediaError FilePath)
    → path_for v c id ≡ (c, r)
    → d.media_by_id ≡ c.media_by_id
    → path_for v d id ≡ (d, r)
unfolding path_for
path_for-stable v c d id r h q = elim (Option-cases (parse_object_id id)) [
  | inl e ↦ ground (arith, e)
  | inr (oid, e) ↦ elim (Option-cases c.media_by_id) [
    | inl n ↦ unfold ensure_index scan in ground (arith, e, n)
    | inr (m, n) ↦ unfold ensure_index in ground (arith, e, n)
  ]
]

video_poster-index :
    (v : Volume) (p : FilePath) (c : Controller)
    → (video_poster v p c).0.media_by_id ≡ c.media_by_id
unfolding video_poster run_ffmpeg store_poster
video_poster-index v p c = ground arith

thumbnail_of-again :
    (v : Volume) (c : Controller) (r : Result MediaError FilePath)
    → ((p : FilePath) → v.ffmpeg p ≢ unavailable)
    → (thumbnail_of v (thumbnail_of v c r).0 r ≡ thumbnail_of v c r)
      × ((thumbnail_of v c r).0.media_by_id ≡ c.media_by_id)
unfolding thumbnail_of
thumbnail_of-again v c (err e) h = (refl, refl)
thumbnail_of-again v c (ok p) h = ground (arith, video_poster-index v p c, poster-again v p c (h p))

-- Unless ffmpeg is missing, a thumbnail asked for again is answered alike, error or not, and the
-- second request changes nothing: the volume is not scanned again and ffmpeg does not run again.
read_thumbnail-again :
    (v : Volume) (c : Controller) (id : Text)
    → ((p : FilePath) → v.ffmpeg p ≢ unavailable)
    → read_thumbnail v (read_thumbnail v c id).0 id ≡ read_thumbnail v c id
unfolding read_thumbnail
read_thumbnail-again v c id h =
    let (c', r) = path_for v c id in
    let (same, index) = thumbnail_of-again v c' r h in
    ap (λ (x : Controller × Result MediaError FilePath). thumbnail_of v x.0 x.1)
      (path_for-stable v c' (thumbnail_of v c' r).0 id r (path_for-again v c id) index)
    ∙ same
