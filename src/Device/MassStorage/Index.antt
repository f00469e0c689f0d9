-- ===== src/Device/MassStorage/Index.antt =====
-- The media listing of internal/device/massstorage_controller.go and the ids in it.
use mathlib.Core.List.{Perm}
use mathlib.Core.Path.{subst}
use companion_mission_planne.Base.{
  ℕ, zero, suc, ◌+◌, ◌^◌, ◌≤◌, ◌<◌, ◌≡◌, refl, sym, ◌∙◌, ap, arith, some, Text, text_Eq, nat_Eq,
  length, get_elem?, All, append-nil, append_assoc, ok, List, [], ◌∷◌, ◌++◌, format_uint,
}
use companion_mission_planne.Base.Table
use companion_mission_planne.Base.Table.{Table, get-put}
use companion_mission_planne.Base.Sorting.{IsFalling, sort-IsFalling, sort-perm}
use companion_mission_planne.Device.Media.{MediaItem, parse_object_id-format}
use companion_mission_planne.Device.MassStorage.{
  FilePath, Found, walk_nodes, Volume, Controller, Indexed, index_loop, item_of, id_at, found_files,
  index_of, scan, list_media, ensure_index, path_for,
}

-- The items of the files from position `i` on.
abbrev items_from : ℕ → List Found → List MediaItem
items_from i [] = []
items_from i (f ∷ files) = item_of (id_at i) f ∷ items_from (i + 1) files

loop-items :
    (lrf : Table Text FilePath) (i : ℕ) (files : List Found) (x : Indexed)
    → (index_loop lrf i files x).items ≡ x.items ++ items_from i files
unfolding index_loop
loop-items lrf i [] x = sym (append-nil x.items)
loop-items lrf i (f ∷ files) x =
    loop-items lrf (i + 1) files _
    ∙ append_assoc x.items (item_of (id_at i) f ∷ []) (items_from (i + 1) files)

-- A number that was given out before the loop keeps its file.
loop-before :
    (lrf : Table Text FilePath) (i k : ℕ) (files : List Found) (x : Indexed)
    → k ≤ i
    → i + length files < 2 ^ 32
    → Table.get k (index_loop lrf i files x).media ≡ Table.get k x.media
unfolding index_loop
loop-before lrf i k [] x h b = refl
loop-before lrf i k (f ∷ files) x h b =
    loop-before lrf (i + 1) k files _ (omega arith) (omega arith)
    ∙ ground (arith, get-put (id_at i) k f.path x.media)

-- The file at position `j` of the loop has the number `i + j + 1`.
loop-at :
    (lrf : Table Text FilePath) (i j : ℕ) (files : List Found) (x : Indexed) (f : Found)
    → i + length files < 2 ^ 32
    → get_elem? files j ≡ some f
    → Table.get (i + j + 1) (index_loop lrf i files x).media ≡ some f.path
unfolding index_loop
loop-at lrf i j [] x f b e = absurd (cc)
loop-at lrf i zero (g ∷ files) x f b e =
    loop-before lrf (i + 1) (i + 0 + 1) files _ (omega arith) (omega arith)
    ∙ ground (arith, get-put (id_at i) (i + 0 + 1) g.path x.media, e)
loop-at lrf i (suc j) (g ∷ files) x f b e =
    let next : i + suc j + 1 ≡ i + 1 + j + 1 = omega arith in
    rw next (loop-at lrf (i + 1) j files _ f (omega arith) e)

items_from-at :
    (i j : ℕ) (files : List Found) (item : MediaItem)
    → get_elem? (items_from i files) j ≡ some item
    → (f : Found) × (get_elem? files j ≡ some f) × (item ≡ item_of (id_at (i + j)) f)
items_from-at i j [] item e = absurd (cc)
items_from-at i zero (f ∷ files) item e = (f, refl, ground (arith, e))
items_from-at i (suc j) (g ∷ files) item e =
    let (f, at, q) = items_from-at (i + 1) j files item e in
    let next : i + 1 + j ≡ i + suc j = omega arith in
    (f, at, q ∙ ap (λ (n : ℕ). item_of (id_at n) f) next)

items_from-All :
    (n i : ℕ) (files : List Found)
    → All (λ (f : Found). f.mtime ≤ n) files
    → All (λ (m : MediaItem). m.modified_at ≤ n) (items_from i files)
unfolding item_of
items_from-All n i [] a = tt
items_from-All n i (f ∷ files) (a, b) = (a, items_from-All n (i + 1) files b)

items_from-IsFalling :
    (i : ℕ) (files : List Found)
    → IsFalling (λ (f : Found). f.mtime) files
    → IsFalling (λ (m : MediaItem). m.modified_at) (items_from i files)
unfolding item_of
items_from-IsFalling i [] s = tt
items_from-IsFalling i (f ∷ files) (a, s) =
    (items_from-All f.mtime (i + 1) files a, items_from-IsFalling (i + 1) files s)

get-lt {ℓ} : {A : Type ℓ} (l : List A) (j : ℕ) (a : A) → get_elem? l j ≡ some a → j < length l
get-lt [] j a e = absurd (cc)
get-lt (x ∷ l) zero a e = omega arith
get-lt (x ∷ l) (suc j) a e = omega (arith, get-lt l j a e)

-- The file that an item of the listing stands for: the one at the item's position among the
-- volume's media, whose name the item carries and which its id is resolved to.
abbrev pub Resolves : Volume → Controller → ℕ → MediaItem → Found → Type 0
Resolves v c j item f =
    (get_elem? (found_files v) j ≡ some f)
    × (item.name ≡ f.path.name)
    × (path_for v c item.id ≡ (c, ok f.path))

path_for-listed :
    (v : Volume) (c : Controller) (n : ℕ) (p : FilePath) (m : Table ℕ FilePath)
    → n < 2 ^ 32
    → c.media_by_id ≡ some m
    → Table.get n m ≡ some p
    → path_for v c (format_uint n) ≡ (c, ok p)
unfolding path_for ensure_index
path_for-listed v c n p m h e g = ground (arith, parse_object_id-format n h, e, g)

list_media-at :
    (v : Volume) (c : Controller) (j : ℕ) (item : MediaItem)
    → length (found_files v) < 2 ^ 32
    → get_elem? (list_media v c).1 j ≡ some item
    → (f : Found) × Resolves v (list_media v c).0 j item f
unfolding list_media scan index_of item_of
list_media-at v c j item b e =
    let w = walk_nodes v.root v.tree (record { files = []; lrf = [] }) in
    let files = found_files v in
    let start : Indexed = record { media = []; proxies = []; items = [] } in
    let (f, at, q) =
      items_from-at 0 j files item
        (sym (ap (λ l. get_elem? l j) (loop-items w.lrf 0 files start)) ∙ e) in
    let lt : j < length files = get-lt files j f at in
    let number : id_at (0 + j) ≡ 0 + j + 1 = omega arith in
    (
      f,
      (
        at,
        ap (λ (i : MediaItem). i.name) q,
        rw (q, number)
            (path_for-listed v (list_media v c).0 (0 + j + 1) f.path (index_of v).media
              (omega arith) refl (loop-at w.lrf 0 j files start f (omega arith) at)),
      ),
    )

list_media-IsFalling :
    (v : Volume) (c : Controller) → IsFalling (λ (m : MediaItem). m.modified_at) (list_media v c).1
unfolding list_media scan index_of found_files
list_media-IsFalling v c =
    let w = walk_nodes v.root v.tree (record { files = []; lrf = [] }) in
    let rank : Found → ℕ = λ f. f.mtime in
    let start : Indexed = record { media = []; proxies = []; items = [] } in
    subst (IsFalling (λ (m : MediaItem). m.modified_at))
      (sym (loop-items w.lrf 0 (found_files v) start))
      (items_from-IsFalling 0 (found_files v) (sort-IsFalling rank w.files))

found_files-perm :
    (v : Volume)
    → Perm (found_files v) (walk_nodes v.root v.tree (record { files = []; lrf = [] })).files
unfolding found_files
found_files-perm v =
    sort-perm (λ (f : Found). f.mtime)
      (walk_nodes v.root v.tree (record { files = []; lrf = [] })).files

-- The items that `ListMedia` returns are ordered by falling modification time. The media files are
-- those that the walk of the volume found, each once for every time it was found; and with fewer
-- than 2 ^ 32 of them every item has the name of the media file at its position, and its id
-- resolves to that file in the controller that `ListMedia` leaves, without another scan.
pub list_media-Resolves :
    (v : Volume) (c : Controller)
    → length (found_files v) < 2 ^ 32
    → IsFalling (λ (m : MediaItem). m.modified_at) (list_media v c).1
      × Perm (found_files v) (walk_nodes v.root v.tree (record { files = []; lrf = [] })).files
      × ((j : ℕ) (item : MediaItem)
          → get_elem? (list_media v c).1 j ≡ some item
          → (f : Found) × Resolves v (list_media v c).0 j item f)
list_media-Resolves v c b =
    (list_media-IsFalling v c, found_files-perm v, λ j item e. list_media-at v c j item b e)
