-- ===== src/Device/Mtp/Browse/Index.antt =====
-- What the listing of a camera's media promises of the ids that it gives out.
use mathlib.Core.Path.{subst}
use companion_mission_planne.Base.{
  ℕ, ◌^◌, ◌<◌, ◌≡◌, refl, sym, ◌∙◌, ap, inl, inr, arith, Bool, true, false, Option, none, some,
  List, [], ◌∷◌, Text, text_Eq, nat_Eq, map, All, All-append, elem, IsDistinct, format_uint, Result,
  ok, Option-cases, ok-injective,
}
use companion_mission_planne.Base.Table
use companion_mission_planne.Base.Table.{Table, get-put}
use companion_mission_planne.Base.Sorting.{sort-All, IsFalling, sort-IsFalling}
use companion_mission_planne.Device.Media.{
  MediaKind, photo, video, MediaItem, media_kind, parse_object_id-format, proxy_key,
}
use companion_mission_planne.Device.Mtp.{FileEntry, Transport, MtpError, Located}
use companion_mission_planne.Device.Mtp.Browse.{
  MediaIndex, Scanned, item_of, add_item, scan_files, scanned_of, newest_first, or_not_found,
  entry_at, camera_root, media_files, scan_media, list_media, ensure_media_index, media_entry,
  index_proxies,
}

-- An object number fits the 32 bits of MTP.
abbrev pub IsNumbered : FileEntry → Type 0
IsNumbered f = f.object_id < 2 ^ 32

-- The item's id is the number of a file with the item's name, which the table holds, and which
-- does not stand among the numbers still to come.
abbrev Kept : List ℕ → Table ℕ FileEntry → MediaItem → Type 0
Kept later media i =
    (f : FileEntry) × IsNumbered f
    × (i.id ≡ format_uint f.object_id)
    × (i.name ≡ f.name)
    × (Table.get f.object_id media ≡ some f)
    × (elem f.object_id later ≡ false)

Kept-later :
    (n : ℕ) (later : List ℕ) (media : Table ℕ FileEntry) (items : List MediaItem)
    → All (Kept (n ∷ later) media) items
    → All (Kept later media) items
Kept-later n later media [] h = tt
Kept-later n later media (i ∷ items) ((f, a, b, c, d, e), h) =
    ((f, a, b, c, d, ground (arith, e)), Kept-later n later media items h)

Kept-put :
    (g : FileEntry) (later : List ℕ) (media : Table ℕ FileEntry) (items : List MediaItem)
    → All (Kept (g.object_id ∷ later) media) items
    → All (Kept later (Table.put g.object_id g media)) items
Kept-put g later media [] h = tt
Kept-put g later media (i ∷ items) ((f, a, b, c, d, e), h) = (
  (f, a, b, c, get-put g.object_id f.object_id g media ∙ ground (arith, d, e), ground (arith, e)),
  Kept-put g later media items h,
)

Kept-new :
    (g : FileEntry) (kind : MediaKind) (b : Bool) (later : List ℕ) (media : Table ℕ FileEntry)
    → IsNumbered g
    → elem g.object_id later ≡ false
    → Kept later (Table.put g.object_id g media) (item_of g kind b)
unfolding item_of
Kept-new g kind b later media n e =
    (g, n, refl, refl, get-put g.object_id g.object_id g media ∙ ground arith, e)

add-Kept :
    (f : FileEntry) (kind : MediaKind) (proxy : Option FileEntry) (later : List ℕ) (x : Scanned)
    → IsNumbered f
    → elem f.object_id later ≡ false
    → All (Kept (f.object_id ∷ later) x.media) x.items
    → All (Kept later (add_item f kind proxy x).media) (add_item f kind proxy x).items
unfolding add_item
add-Kept f photo proxy later x n e h =
    All-append (Kept later _) x.items _ (Kept-put f later x.media x.items h)
      (Kept-new f photo false later x.media n e, tt)
add-Kept f video none later x n e h =
    All-append (Kept later _) x.items _ (Kept-put f later x.media x.items h)
      (Kept-new f video false later x.media n e, tt)
add-Kept f video (some proxy) later x n e h =
    All-append (Kept later _) x.items _ (Kept-put f later x.media x.items h)
      (Kept-new f video true later x.media n e, tt)

abbrev pub numbers : List FileEntry → List ℕ
numbers = map (λ (f : FileEntry). f.object_id)

scan-Kept :
    (lrf : Table Text FileEntry) (files : List FileEntry) (x : Scanned)
    → All IsNumbered files
    → IsDistinct (numbers files)
    → All (Kept (numbers files) x.media) x.items
    → All (Kept [] (scan_files lrf files x).media) (scan_files lrf files x).items
unfolding scan_files
scan-Kept lrf [] x n u h = h
scan-Kept lrf (f ∷ files) x n u h = elim (Option-cases (media_kind f.name)) [
  | inl e ↦
      rw (e, scan_files)
        (scan-Kept lrf files x n.1 u.1 (Kept-later f.object_id (numbers files) x.media x.items h))
  | inr (kind, e) ↦
      let proxy = Table.get (proxy_key f.parent_id f.name) lrf in
      rw (e, scan_files)
        (scan-Kept lrf files (add_item f kind proxy x) n.1 u.1
          (add-Kept f kind proxy (numbers files) x n.0 u.0 h))
]

module _ {D : Type 0} (t : Transport D) where
  -- An item of the listing whose id leads, without another scan, to a file of the item's name.
  abbrev pub Leads : Result MtpError Located → D → MediaIndex → MediaItem → Type 0
  Leads l d x i = (f : FileEntry) × (f.name ≡ i.name) × (media_entry t l d x i.id ≡ (x, ok f))

  Leads-Kept :
      (l : Located) (d : D) (x : MediaIndex) (root : FileEntry) (media : Table ℕ FileEntry)
      → camera_root l ≡ ok root
      → x.by_id ≡ some media
      → (items : List MediaItem) → All (Kept [] media) items
      → All (Leads (ok l) d x) items
  unfolding media_entry ensure_media_index or_not_found entry_at
  Leads-Kept l d x root media r e [] h = tt
  Leads-Kept l d x root media r e (i ∷ items) ((f, a, b, c, g, z), h) = (
    (f, sym c, rw b (ground (arith, r, e, g, parse_object_id-format f.object_id a))),
    Leads-Kept l d x root media r e items h,
  )

  -- What is promised of a listing and the index that it leaves.
  abbrev IsServed : Located → D → MediaIndex → List MediaItem → Type 0
  IsServed l d x items =
      All (Leads (ok l) d x) items × IsFalling (λ (i : MediaItem). i.modified_at) items

  scanned-IsServed :
      (l : Located) (d : D) (root : FileEntry) (files : List FileEntry)
      → camera_root l ≡ ok root
      → All IsNumbered files
      → IsDistinct (numbers files)
      → let s = scanned_of files in
        IsServed l d
          (record { by_id = some s.media; lrf_by_video = s.proxies })
          (newest_first s.items)
  unfolding newest_first scanned_of
  scanned-IsServed l d root files r n u =
      let s = scanned_of files in
      let x : MediaIndex = record { by_id = some s.media; lrf_by_video = s.proxies } in
      let rank : MediaItem → ℕ = λ i. i.modified_at in
      (
        sort-All rank (Leads (ok l) d x) s.items (
            Leads-Kept l d x root s.media r refl s.items (
              scan-Kept (index_proxies [] files) files
                (record { media = []; proxies = []; items = [] }) n u tt)),
        sort-IsFalling rank s.items,
      )

  -- Where the media files of a camera have distinct object numbers of 32 bits, every item that
  -- `ListMedia` returns leads by its id, without another scan, to a file that bears the item's name;
  -- and the items are ordered by falling modification time.
  pub list_media-Leads :
      (l : Located) (d : D) (x x' : MediaIndex) (items : List MediaItem) (root : FileEntry)
      (files : List FileEntry)
      → camera_root l ≡ ok root
      → media_files t d root ≡ ok files
      → All IsNumbered files
      → IsDistinct (numbers files)
      → list_media t (ok l) d x ≡ (x', ok items)
      → All (Leads (ok l) d x') items × IsFalling (λ (i : MediaItem). i.modified_at) items
  unfolding list_media scan_media
  list_media-Leads l d x x' items root files r e n u h =
      let s = scanned_of files in
      let x0 : MediaIndex = record { by_id = some s.media; lrf_by_video = s.proxies } in
      let same : Path (MediaIndex × Result MtpError (List MediaItem))
          (x0, ok (newest_first s.items)) (x', ok items) =
        ground (arith, r, e, h) in
      subst (λ (y : MediaIndex). IsServed l d y items) (ap (λ p. p.0) same)
        (subst (IsServed l d x0) (ok-injective (ap (λ p. p.1) same))
          (scanned-IsServed l d root files r n u))
