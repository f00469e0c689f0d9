-- ===== src/Device/Adb/Sizes.antt =====
-- What a listing of the ADB controller shows, as a function of the names in the waypoint folder and
-- the sizes of the KMZ files.
use mathlib.Core.Path.{subst}
use companion_mission_planne.Base.{
  ℕ, ◌≡◌, refl, sym, ◌∙◌, ap, inl, inr, arith, Bool, true, false, not, ◌||◌, Option, none, some,
  List, [], ◌∷◌, Text, text_Eq, text_eq, text_eq_iff, codes, map, keep_if, elem, length, All, ok,
  if◌then◌else◌, Bool-cases, Option-cases,
}
use companion_mission_planne.Kmz.Guid.{looks_like_guid}
use companion_mission_planne.Device.Mtp.Listing.{Slot}
use companion_mission_planne.Device.Service.{TransferResult}
use companion_mission_planne.Device.Adb.Paths.{waypoint_dir, paths_for}
use companion_mission_planne.Device.Adb.{
  DirEntry, Goadb, real_entries, sized, exists_in, list_dir, stat, push, slot_of, collect_slots,
  list_slots, write_kmz,
}

abbrev pub names_of : List DirEntry → List Text
names_of = map (λ (e : DirEntry). e.name)

pub elem-keep :
    (p : Text → Bool) (g : Text) (l : List Text)
    → elem g (keep_if p l) ≡ true
    → (p g ≡ true) × (elem g l ≡ true)
elem-keep p g [] h = absurd (cc)
elem-keep p g (x ∷ l) h = elim (Bool-cases (p x)) [
  | inr r ↦ let (k, m) = elem-keep p g l (ground (arith, r, h)) in (k, ground (arith, m))
  | inl r ↦ elim (Bool-cases (text_eq x g)) [
    | inl q ↦ (subst (λ (y : Text). p y ≡ true) ((text_eq_iff x g).0 q) r, ground (arith, q))
    | inr q ↦ let (k, m) = elem-keep p g l (ground (arith, r, q, h)) in (k, ground (arith, m))
  ]
]

pub All-elem : (P : Text → Type 0) (g : Text) (l : List Text) → All P l → elem g l ≡ true → P g
All-elem P g [] h e = absurd (cc)
All-elem P g (x ∷ l) (px, h) e = elim (Bool-cases (text_eq x g)) [
  | inl q ↦ subst P ((text_eq_iff x g).0 q) px
  | inr q ↦ All-elem P g l h (ground (arith, q, e))
]

pub looks-length : (s : Text) → looks_like_guid s ≡ true → length s ≡ 36
unfolding looks_like_guid
looks-length s h = ground arith

-- A name other than the two of the folder and its parent.
abbrev pub is_real : Text → Bool
is_real n = not (text_eq n (codes ".") || text_eq n (codes ".."))

pub names-real :
    (raw : List DirEntry) → names_of (real_entries raw) ≡ keep_if is_real (names_of raw)
unfolding real_entries
names-real [] = refl
names-real (e ∷ raw) =
    elim (Bool-cases (text_eq e.name (codes ".") || text_eq e.name (codes ".."))) [
      | inl q ↦ rw (q, real_entries) (names-real raw)
      | inr q ↦ rw (q, real_entries) (ap (λ (l : List Text). e.name ∷ l) (names-real raw))
    ]

sized-any : (o : Option DirEntry) (s t : ℕ) → (sized o s).0 ≡ (sized o t).0
unfolding sized
sized-any none s t = refl
sized-any (some e) s t = refl

-- The slots among the names of the waypoint folder.
abbrev pub slot_names : List Text → List Text
slot_names ns = keep_if looks_like_guid (keep_if is_real ns)

-- What a listing shows of a slot besides its times and preview.
abbrev pub sizes : Slot → Text × ℕ
sizes s = (s.guid, s.file_size)

-- The same after an upload of `n` bytes to the slot `guid`.
abbrev pub resized : Text → ℕ → Slot → Text × ℕ
resized guid n s = (s.guid, if text_eq s.guid guid then n else s.file_size)

pub map-agree :
    (f g : Text → Text × ℕ) (l : List Text)
    → ((x : Text) → elem x l ≡ true → f x ≡ g x)
    → map f l ≡ map g l
map-agree f g [] h = refl
map-agree f g (x ∷ l) h =
    let here : f x ≡ g x = h x (ground (arith, (text_eq_iff x x).1 refl)) in
    let rest = map-agree f g l (λ y e. h y (ground (arith, e))) in rw (here, rest) refl

pub elem-slot_names : (g : Text) (ns : List Text) → elem g (slot_names ns) ≡ true → elem g ns ≡ true
elem-slot_names g ns h =
    (elem-keep is_real g ns (elem-keep looks_like_guid g (keep_if is_real ns) h).1).1

module _ {D : Type 0} (a : Goadb D) where
  -- The size that a listing shows for a slot.
  unfoldable pub size_of : D → Text → ℕ
  unfolding sized
  size_of d guid = (sized (exists_in (stat a d (paths_for guid).kmz)) 0).0

  slot-size : (d : D) (e : DirEntry) → (slot_of a d e).file_size ≡ size_of d e.name
  unfolding slot_of size_of
  slot-size d e = sized-any (exists_in (stat a d (paths_for e.name).kmz)) e.modified_at 0

  slot-guid : (d : D) (e : DirEntry) → (slot_of a d e).guid ≡ e.name
  unfolding slot_of
  slot-guid d e = refl

  collect-map :
      (d : D) (f : Text → ℕ → Text × ℕ) (entries : List DirEntry)
      → map (λ (s : Slot). f s.guid s.file_size) (collect_slots a d entries)
        ≡ map (λ (n : Text). f n (size_of d n)) (keep_if looks_like_guid (names_of entries))
  unfolding collect_slots
  collect-map d f [] = refl
  collect-map d f (e ∷ entries) = elim (Bool-cases (looks_like_guid e.name)) [
    | inr q ↦ rw (q, collect_slots) (collect-map d f entries)
    | inl q ↦ rw (q, collect_slots, slot-guid d e, slot-size d e, collect-map d f entries) refl
  ]

  pub listing-map :
      (d : D) (f : Text → ℕ → Text × ℕ) (raw : List DirEntry)
      → map (λ (s : Slot). f s.guid s.file_size) (collect_slots a d (real_entries raw))
        ≡ map (λ (n : Text). f n (size_of d n)) (slot_names (names_of raw))
  listing-map d f raw =
      collect-map d f (real_entries raw)
      ∙ ap (λ (ns : List Text). map (λ (n : Text). f n (size_of d n)) (keep_if looks_like_guid ns))
          (names-real raw)

  pub collect-guids :
      (d : D) (entries : List DirEntry)
      → map (λ (s : Slot). s.guid) (collect_slots a d entries)
        ≡ keep_if looks_like_guid (names_of entries)
  unfolding collect_slots
  collect-guids d [] = refl
  collect-guids d (e ∷ entries) = elim (Bool-cases (looks_like_guid e.name)) [
    | inr q ↦ rw (q, collect_slots) (collect-guids d entries)
    | inl q ↦ rw (q, collect_slots, slot-guid d e, collect-guids d entries) refl
  ]

  -- The entries behind a listing.
  pub list_slots-raw :
      (d : D) (slots : List Slot)
      → list_slots a d ≡ ok slots
      → (raw : List DirEntry) × (a.list_entries d waypoint_dir ≡ some raw)
        × (collect_slots a d (real_entries raw) ≡ slots)
  unfolding list_slots list_dir
  list_slots-raw d slots h = elim (Option-cases (a.list_entries d waypoint_dir)) [
    | inl e ↦ absurd (ground (arith, e, h))
    | inr (raw, e) ↦ (raw, e, ground (arith, e, h))
  ]

  pub raw-list_slots :
      (d : D) (raw : List DirEntry)
      → a.list_entries d waypoint_dir ≡ some raw
      → list_slots a d ≡ ok (collect_slots a d (real_entries raw))
  unfolding list_slots list_dir
  raw-list_slots d raw e = rw (e, list_slots, list_dir) refl

  push-wrote :
      (d d' : D) (content path : Text)
      → push a d content path ≡ (d', false)
      → a.write d path content ≡ (d', false)
  unfolding push
  push-wrote d d' content path h = elim (Bool-cases (a.spools d)) [
    | inl e ↦ ground (arith, e, h)
    | inr e ↦ absurd (ground (arith, e, h))
  ]

  -- What an upload that succeeds has done.
  pub write_kmz-wrote :
      (d d' : D) (guid content : Text) (r : TransferResult)
      → write_kmz a d guid content ≡ (d', ok r)
      → (a.write d (paths_for guid).kmz content ≡ (d', false)) × (r.file_size ≡ size_of d' guid)
  unfolding write_kmz
  write_kmz-wrote d d' guid content r h =
      elim (Bool-cases (push a d content (paths_for guid).kmz).1) [
        | inl e ↦ absurd (ground (arith, e, h))
        | inr e ↦
            let moved : (push a d content (paths_for guid).kmz).0 ≡ d' = ground (arith, e, h) in
            let size : size_of (push a d content (paths_for guid).kmz).0 guid ≡ r.file_size =
              unfold size_of in ground (arith, e, h) in
            (
              push-wrote d d' content (paths_for guid).kmz (ground (arith, e, moved)),
              sym size ∙ ap (λ (x : D). size_of x guid) moved,
            )
      ]
