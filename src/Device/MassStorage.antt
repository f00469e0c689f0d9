-- ===== src/Device/MassStorage.antt =====
-- internal/device/massstorage_controller.go: a camera or drone behind a mounted volume.
-- The file system is a tree; ffmpeg and the JPEG decoder are parameters.
pub mod Reads
pub mod Thumbnails
pub mod Index
use companion_mission_planne.Base.{
  ℕ, zero, suc, ◌+◌, ◌%◌, ◌^◌, Bool, true, false, ◌&&◌, ◌||◌, Option, none, some, List, [], ◌∷◌,
  ◌++◌, Text, text_Eq, text_eq, nat_Eq, codes, has_prefix, equal_fold, ext, format_uint, Result, ok,
  err, is_empty, take, if◌then◌else◌,
}
use companion_mission_planne.Base.Table
use companion_mission_planne.Base.Table.{Table}
use companion_mission_planne.Base.Sorting.{sort_ranked}
use companion_mission_planne.Device.Media.{
  MediaKind, photo, video, MediaItem, media_kind, parse_object_id, upper_base,
}
use companion_mission_planne.Device.Exif.{extract_exif_thumbnail}

-- A file is `stat` = its size and modification time, or `none` where Info fails. A directory that
-- cannot be listed is `unreadable`.
mutual
  pub data Node : Type 0 where
    file : Text → Option (ℕ × ℕ) → Node
    folder : Text → Nodes → Node
    unreadable : Text → Node

  pub data Nodes : Type 0 where
    nil : Nodes
    cons : Node → Nodes → Nodes

-- filepath.Dir and filepath.Base of a path that the walk yields.
pub record FilePath : Type 0 where
  pub dir : Text
  pub name : Text

abbrev pub path_text : FilePath → Text
path_text p = p.dir ++ codes "/" ++ p.name

pub record Found : Type 0 where
  pub path : FilePath
  pub kind : MediaKind
  pub size : ℕ
  pub mtime : ℕ

-- fsProxyKey
unfoldable pub fs_proxy_key : FilePath → Text
unfolding upper_base
fs_proxy_key p = p.dir ++ codes "/" ++ upper_base p.name

-- What the walk has collected: the media files and the .LRF paths by proxy key.
pub record Walked : Type 0 where
  pub files : List Found
  pub lrf : Table Text FilePath

-- The directories below the root that the walk does not enter.
is_skipped : Text → Bool
unfolding has_prefix equal_fold
is_skipped name = has_prefix name (codes ".") || equal_fold name (codes "System Volume Information")

add_media : FilePath → Option MediaKind → Option (ℕ × ℕ) → Walked → Walked
add_media p none stat w = w
add_media p (some kind) none w = w
add_media p (some kind) (some (size, mtime)) w = record w {
  files = w.files ++ record { path = p; kind = kind; size = size; mtime = mtime } ∷ [];
}

-- The walk's function on a file.
visit_file : FilePath → Option (ℕ × ℕ) → Walked → Walked
unfolding equal_fold ext add_media media_kind fs_proxy_key
visit_file p stat w =
    if equal_fold (ext p.name) (codes ".lrf")
    then record w { lrf = Table.put (fs_proxy_key p) p w.lrf }
    else add_media p (media_kind p.name) stat w

-- filepath.WalkDir below the root, in the order of the tree.
unfoldable mutual
  unfolding visit_file is_skipped

  pub walk_node : Text → Node → Walked → Walked
  walk_node dir (file name stat) w = visit_file (record { dir = dir; name = name }) stat w
  walk_node dir (folder name children) w =
      let inside = walk_nodes (dir ++ codes "/" ++ name) children w in
      if is_skipped name then w else inside
  walk_node dir (unreadable name) w = w

  pub walk_nodes : Text → Nodes → Walked → Walked
  walk_nodes dir nil w = w
  walk_nodes dir (cons node nodes) w = walk_nodes dir nodes (walk_node dir node w)

-- What the controller meets outside itself: the mounted tree, what a file holds (`none` where it
-- cannot be opened), the JPEG decoder, and the outcome of an ffmpeg run.
pub data Poster : Type 0 where
  made : Text → Poster
  unavailable : Poster
  failed : Poster

pub record Volume : Type 0 where
  pub root : Text
  pub tree : Nodes
  pub content : FilePath → Option Text
  pub decodes : Text → Bool
  pub ffmpeg : FilePath → Poster

-- massStorageController. `media_by_id` is `none` while the index has not been built. A cached
-- poster `none` stands for nil, a file that ffmpeg failed on. `runs` records the calls of ffmpeg.
pub record Controller : Type 0 where
  pub id : Text
  pub model : Text
  pub media_by_id : Option (Table ℕ FilePath)
  pub lrf_by_video : Table ℕ FilePath
  pub poster_cache : Table Text (Option Text)
  pub runs : List Text

unfoldable pub new_controller : Text → Text → Controller
new_controller id model = record {
  id = id;
  model = model;
  media_by_id = none;
  lrf_by_video = [];
  poster_cache = [];
  runs = [];
}

pub data MediaError : Type 0 where
  media_not_found thumbnail_not_found not_opened : MediaError

-- The two maps and the items that the indexing loop builds.
pub record Indexed : Type 0 where
  pub media : Table ℕ FilePath
  pub proxies : Table ℕ FilePath
  pub items : List MediaItem

-- uint32(i + 1)
abbrev pub id_at : ℕ → ℕ
id_at i = (i + 1) % 2 ^ 32

item_of : ℕ → Found → MediaItem
unfolding format_uint
item_of id f = record {
  id = format_uint id;
  name = f.path.name;
  kind = f.kind;
  size = f.size;
  modified_at = f.mtime;
  has_preview = elim f.kind [ video ↦ true | photo ↦ false ];
  thumbnail_url = [];
  preview_url = [];
  download_url = [];
}

put_proxy : MediaKind → ℕ → Option FilePath → Table ℕ FilePath → Table ℕ FilePath
put_proxy video id (some p) proxies = Table.put id p proxies
put_proxy video id none proxies = proxies
put_proxy photo id proxy proxies = proxies

index_loop : Table Text FilePath → ℕ → List Found → Indexed → Indexed
index_loop lrf i [] x = x
index_loop lrf i (f ∷ files) x = index_loop lrf (i + 1) files (record {
  media = Table.put (id_at i) f.path x.media;
  proxies = put_proxy f.kind (id_at i) (Table.get (fs_proxy_key f.path) lrf) x.proxies;
  items = x.items ++ item_of (id_at i) f ∷ [];
})

-- The media files of the volume, newest first.
unfoldable pub found_files : Volume → List Found
found_files v =
    sort_ranked (λ (f : Found). f.mtime)
      (walk_nodes v.root v.tree (record { files = []; lrf = [] })).files

unfoldable pub index_of : Volume → Indexed
unfolding index_loop put_proxy item_of
index_of v =
    let w = walk_nodes v.root v.tree (record { files = []; lrf = [] }) in
    index_loop w.lrf 0 (found_files v) (record { media = []; proxies = []; items = [] })

-- scanLocked
unfoldable pub scan : Volume → Controller → Controller × List MediaItem
unfolding index_of
scan v c =
    let x = index_of v in
    (record c { media_by_id = some x.media; lrf_by_video = x.proxies }, x.items)

-- ListMedia
unfoldable pub list_media : Volume → Controller → Controller × List MediaItem
unfolding scan
list_media v c = scan v c

-- ensureIndex
unfoldable pub ensure_index : Volume → Controller → Controller
unfolding scan
ensure_index v c = elim c.media_by_id [ some m ↦ c | none ↦ (scan v c).0 ]

media_at : Option (Table ℕ FilePath) → ℕ → Option FilePath
media_at none oid = none
media_at (some m) oid = Table.get oid m

resolved : Option FilePath → Result MediaError FilePath
resolved none = err media_not_found
resolved (some p) = ok p

-- pathFor
unfoldable pub path_for : Volume → Controller → Text → Controller × Result MediaError FilePath
unfolding ensure_index media_at resolved parse_object_id
path_for v c id = elim (parse_object_id id) [
  | none ↦ (c, err media_not_found)
  | some oid ↦ let c' = ensure_index v c in (c', resolved (media_at c'.media_by_id oid))
]
