-- ===== src/Tests/Device.antt =====
-- Concrete volumes and image heads.
use companion_mission_planne.Base.{
  ℕ, ◌≡◌, get_elem?, Bool, true, false, some, [], ◌∷◌, Text, text_Eq, codes, arith,
}
use companion_mission_planne.Base.Table
use companion_mission_planne.Base.Sorting.{sort_ranked}
use companion_mission_planne.Device.Media.{MediaItem, photo, media_kind}
use companion_mission_planne.Device.MassStorage.{
  file, folder, nil, cons, walk_nodes, Volume, Controller, failed, Found, new_controller,
  found_files, list_media,
}
use mathlib.Core.List.{Perm}
use companion_mission_planne.Base.Sorting.{IsFalling}
use companion_mission_planne.Device.MassStorage.Index.{list_media-Resolves, Resolves}

abbrev accepts : Text → Bool
accepts t = true

abbrev small_head : Text
small_head = 0xFF ∷ 0xD8 ∷ 1 ∷ 0xFF ∷ 0xD8 ∷ 0xFF ∷ 7 ∷ 0xFF ∷ 0xD9 ∷ 2 ∷ []

abbrev inner_image : Text
inner_image = 0xFF ∷ 0xD8 ∷ 0xFF ∷ 7 ∷ 0xFF ∷ 0xD9 ∷ []

-- Two media files and a low-resolution clip; ffmpeg fails on all of them.
abbrev card : Volume
card = record {
  root = codes "/media";
  tree =
      cons
        (folder (codes "DCIM") (
          cons (file (codes "A.MP4") (some (9, 1))) (
            cons (file (codes "A.LRF") (some (3, 1)))
              (cons (file (codes "B.JPG") (some (5, 2))) nil))))
        nil;
  content = λ p. some [];
  decodes = accepts;
  ffmpeg = λ p. failed;
}

abbrev fresh : Controller
fresh = new_controller (codes "sd") (codes "SD card")

abbrev newest : MediaItem
newest = record {
  id = codes "1";
  name = codes "B.JPG";
  kind = photo;
  size = 5;
  modified_at = 2;
  has_preview = false;
  thumbnail_url = [];
  preview_url = [];
  download_url = [];
}

list_media-Resolves_example :
    IsFalling (λ (m : MediaItem). m.modified_at) (list_media card fresh).1
    × Perm
        (found_files card)
        (walk_nodes card.root card.tree (record { files = []; lrf = [] })).files
    × ((j : ℕ) (item : MediaItem)
        → get_elem? (list_media card fresh).1 j ≡ some item
        → (f : Found) × Resolves card (list_media card fresh).0 j item f)
unfolding found_files sort_ranked walk_nodes media_kind Table.get Table.put
list_media-Resolves_example = list_media-Resolves card fresh (omega arith)
