-- ===== src/Device/Adb/Listed.antt =====
-- What a listing of the ADB controller shows after an upload.
use mathlib.Core.Path.{subst}
use companion_mission_planne.Base.{
  ℕ, ◌≤◌, ◌<◌, ◌≡◌, refl, sym, ◌∙◌, ap, inl, inr, arith, true, false, some, List, [], ◌∷◌, ◌++◌,
  Text, text_Eq, text_eq, text_eq_iff, codes, has_prefix, map, keep_if, elem, length, length-append,
  nat_eq, All, ok, if◌then◌else◌, Bool-cases,
}
use companion_mission_planne.Kmz.Guid.{looks_like_guid}
use companion_mission_planne.Device.Mtp.Listing.{Slot}
use companion_mission_planne.Device.Service.{TransferResult}
use companion_mission_planne.Device.Adb.Paths.{
  waypoint_dir, paths_for, IsSegment, kmz-plain, kmz-injective, length-kmz_path,
}
use companion_mission_planne.Device.Adb.Sizes.{
  names_of, is_real, slot_names, elem-keep, All-elem, looks-length, names-real, map-agree,
  elem-slot_names, sizes, resized, size_of, collect-guids, listing-map, list_slots-raw,
  raw-list_slots, write_kmz-wrote,
}
use companion_mission_planne.Device.Adb.{
  DirEntry, Goadb, real_entries, sized, exists_in, stat, collect_slots, list_slots, write_kmz,
}

-- A file was written, and the device has said that it is stored.
abbrev pub IsStored : {D : Type 0} → Goadb D → D → Text → Text → D → Type 0
IsStored a d path content d' =
    (a.write d path content ≡ (d', false)) × (a.close_fails d path content ≡ false)

-- What adb promises of its calls. A file that the device says it has stored has the size of its content and a mode; a
-- write leaves the metadata of every path alone but for those of the file and the folders above it,
-- and the names in a folder where it goes below an entry of this folder. Names are path segments.
pub record IsAdb {D : Type 0} (a : Goadb D) : Type 0 where
  pub list_segments :
      (d : D) (dir : Text) (raw : List DirEntry)
      → a.list_entries d dir ≡ some raw
      → All IsSegment (names_of raw)
  pub write_stat :
      (d d' : D) (path content : Text)
      → IsStored a d path content d'
      → (e : DirEntry) × (a.stat d' path ≡ ok (some e))
        × (e.size ≡ length content)
        × (nat_eq e.mode 0 ≡ false)
  pub write_frame :
      (d d' : D) (path content q : Text)
      → IsStored a d path content d'
      → text_eq q path ≡ false
      → has_prefix path (q ++ codes "/") ≡ false
      → a.stat d' q ≡ a.stat d q
  pub write_names :
      (d d' : D) (dir name file content : Text) (raw : List DirEntry)
      → IsStored a d ((dir ++ codes "/" ++ name) ++ codes "/" ++ file) content d'
      → a.list_entries d dir ≡ some raw
      → elem name (names_of raw) ≡ true
      → (raw' : List DirEntry) × (a.list_entries d' dir ≡ some raw')
        × (names_of raw' ≡ names_of raw)

prefix-length : (s p : Text) → has_prefix s p ≡ true → length p ≤ length s
unfolding has_prefix
prefix-length s [] h = omega arith
prefix-length [] (c ∷ p) h = absurd (cc)
prefix-length (b ∷ s) (c ∷ p) h = omega (arith, prefix-length s p (ground arith))

no-prefix : (s p : Text) → length s < length p → has_prefix s p ≡ false
no-prefix s p l = elim (Bool-cases (has_prefix s p)) [
  | inl e ↦ absurd (omega (arith, l, prefix-length s p e))
  | inr e ↦ e
]

kmz-apart :
    (g h : Text)
    → IsSegment g
    → IsSegment h
    → length g ≡ 36
    → length h ≡ 36
    → text_eq g h ≡ false
    → text_eq (paths_for g).kmz (paths_for h).kmz ≡ false
kmz-apart g h sg sh lg lh e = elim (Bool-cases (text_eq (paths_for g).kmz (paths_for h).kmz)) [
  | inr q ↦ q
  | inl q ↦
      let same = kmz-injective g h sg sh lg lh ((text_eq_iff _ _).0 q) in
      absurd (ground (arith, e, (text_eq_iff g h).1 same))
]

module _ {D : Type 0} (a : Goadb D) (adb : IsAdb a) where
  -- A slot's name is one path segment of 36 bytes.
  slot-plain :
      (d : D) (raw : List DirEntry)
      → a.list_entries d waypoint_dir ≡ some raw
      → (g : Text) → elem g (slot_names (names_of raw)) ≡ true
      → IsSegment g × (length g ≡ 36)
  slot-plain d raw e g h = (
    All-elem IsSegment g (names_of raw) (adb.list_segments d waypoint_dir raw e)
        (elem-slot_names g (names_of raw) h),
    looks-length g (elem-keep looks_like_guid g (keep_if is_real (names_of raw)) h).0,
  )

  size_of-written :
      (d d' : D) (guid content : Text)
      → IsStored a d (paths_for guid).kmz content d'
      → size_of a d' guid ≡ length content
  unfolding size_of stat sized exists_in
  size_of-written d d' guid content h =
      let (e, s, n, m) = adb.write_stat d d' (paths_for guid).kmz content h in
      rw (s, m, size_of, stat, exists_in, sized) n

  -- The KMZ of another slot is not touched.
  size_of-other :
      (d d' : D) (guid content g : Text)
      → IsStored a d (paths_for guid).kmz content d'
      → IsSegment guid × (length guid ≡ 36)
      → IsSegment g × (length g ≡ 36)
      → text_eq g guid ≡ false
      → size_of a d' g ≡ size_of a d g
  unfolding size_of stat
  size_of-other d d' guid content g h (sg, lg) (s, l) e =
      let here = (paths_for guid).kmz in
      let there = (paths_for g).kmz in
      let apart : text_eq there here ≡ false = kmz-apart g guid s sg l lg e in
      let beside : has_prefix here (there ++ codes "/") ≡ false =
        no-prefix here (there ++ codes "/") (
          omega (
            arith,
            length-append there (codes "/"),
            length-kmz_path guid sg lg,
            length-kmz_path g s l,
          )) in
      rw (adb.write_frame d d' here content there h apart beside, size_of, stat) refl

  size_of-after :
      (d d' : D) (guid content g : Text)
      → IsStored a d (paths_for guid).kmz content d'
      → IsSegment guid × (length guid ≡ 36)
      → IsSegment g × (length g ≡ 36)
      → size_of a d' g ≡ (if text_eq g guid then length content else size_of a d g)
  size_of-after d d' guid content g h p q = elim (Bool-cases (text_eq g guid)) [
    | inl e ↦ rw (e, (text_eq_iff g guid).0 e) (size_of-written d d' guid content h)
    | inr e ↦ rw e (size_of-other d d' guid content g h p q e)
  ]

  -- After an upload through adb that succeeds, and whose Close has not failed (an error that the
  -- program drops), the result and the listing show the size of what was uploaded for its slot, and the
  -- listing has the same slots, in the same order, of which the others have kept their sizes.
  pub write_kmz-listed :
      (d d' : D) (guid content : Text) (slots : List Slot) (r : TransferResult)
      → list_slots a d ≡ ok slots
      → elem guid (map (λ (s : Slot). s.guid) slots) ≡ true
      → write_kmz a d guid content ≡ (d', ok r)
      → a.close_fails d (paths_for guid).kmz content ≡ false
      → (r.file_size ≡ length content)
        × ((slots' : List Slot) × (list_slots a d' ≡ ok slots')
            × (map sizes slots' ≡ map (resized guid (length content)) slots))
  write_kmz-listed d d' guid content slots r h m w closed =
      let (raw, e, c) = list_slots-raw a d slots h in
      let (written, size) = write_kmz-wrote a d d' guid content r w in
      let wrote : IsStored a d (paths_for guid).kmz content d' = (written, closed) in
      let plain = slot-plain d raw e in
      let listed : elem guid (slot_names (names_of raw)) ≡ true =
        subst (λ (l : List Text). elem guid l ≡ true)
          (ap (map (λ (s : Slot). s.guid)) (sym c)
            ∙ collect-guids a d (real_entries raw)
            ∙ ap (keep_if looks_like_guid) (names-real raw))
          m in
      let (sg, lg) = plain guid listed in
      let new : Text → ℕ = λ n. if text_eq n guid then length content else size_of a d n in
      let (raw', e', same) =
        adb.write_names d d' waypoint_dir guid (guid ++ codes ".kmz") content raw
          (subst (λ (p : Text). IsStored a d p content d') (kmz-plain guid sg lg) wrote) e
          (elem-slot_names guid (names_of raw) listed) in
      (
        size ∙ size_of-written d d' guid content wrote,
        (
          collect_slots a d' (real_entries raw'),
          raw-list_slots a d' raw' e',
          listing-map a d' (λ n k. (n, k)) raw'
              ∙ ap (λ (ns : List Text). map (λ (n : Text). (n, size_of a d' n)) (slot_names ns))
                  same
              ∙ map-agree (λ n. (n, size_of a d' n)) (λ n. (n, new n)) (slot_names (names_of raw))
                  (λ n k.
                    ap (λ (b : ℕ). (n, b))
                      (size_of-after d d' guid content n wrote (sg, lg) (plain n k)))
              ∙ sym (listing-map a d (λ n k. (n, if text_eq n guid then length content else k)) raw)
              ∙ ap (map (resized guid (length content))) c,
        ),
      )
