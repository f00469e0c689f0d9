-- ===== src/Device/Mtp/Missions/RoundTrip.antt =====
-- Writing a mission to a slot and reading it back.
use mathlib.Core.Path.{subst}
use companion_mission_planne.Base.{
  ℕ, ◌≡◌, refl, sym, ◌∙◌, ap, inl, inr, arith, Bool, true, false, not, Option, none, some, List, [],
  ◌∷◌, ◌++◌, Text, text_Eq, codes, equal_fold, to_lower, keep_if, nat_Eq, ◌==◌, ==_refl, ok, err,
  Bool-cases, Option-cases,
}
use companion_mission_planne.Device.Mtp.{
  FileEntry, Transport, io, Located, find_in, found_in, list_dir, find_child, put_file,
}
use companion_mission_planne.Device.Mtp.Missions.{
  present, sent, get_file, slot_folder, read_kmz, erase_present, put_upload, replace_file,
  write_kmz,
}

-- The entries that are left in a listing when an object is deleted.
abbrev pub without : FileEntry → List FileEntry → List FileEntry
without e entries = keep_if (λ (x : FileEntry). not (x.object_id == e.object_id)) entries

-- What MTP promises of its calls: a file that was sent stands at the end of its folder's listing
-- with its name and content, in no other folder, and a deletion takes the object out of all
-- listings.
pub record IsMtp {D : Type 0} (t : Transport D) : Type 0 where
  pub send_lists :
      (d d' : D) (dir : FileEntry) (name content : Text) (entries : List FileEntry)
      → t.send d dir name content ≡ (d', false)
      → t.children d dir ≡ some entries
      → (e : FileEntry) × (e.name ≡ name)
        × (t.children d' dir ≡ some (entries ++ e ∷ []))
        × (t.fetch d' e.object_id ≡ some content)
  pub send_frame :
      (d d' : D) (dir other : FileEntry) (name content : Text)
      → t.send d dir name content ≡ (d', false)
      → (other.object_id == dir.object_id) ≡ false
      → t.children d' other ≡ t.children d other
  pub erase_lists :
      (d d' : D) (e dir : FileEntry) (entries : List FileEntry)
      → t.erase d e ≡ (d', false)
      → t.children d dir ≡ some entries
      → t.children d' dir ≡ some (without e entries)

find-keep :
    (p : FileEntry → Bool) (entries : List FileEntry) (name : Text) (e : FileEntry)
    → find_in entries name ≡ some e
    → p e ≡ true
    → find_in (keep_if p entries) name ≡ some e
unfolding find_in
find-keep p [] name e h k = absurd (cc)
find-keep p (x ∷ entries) name e h k = elim (Bool-cases (equal_fold x.name name)) [
  | inl q ↦
      let same : x ≡ e = ground (arith, q, h) in
      let kept : p x ≡ true = subst (λ (y : FileEntry). p y ≡ true) (sym same) k in
      rw (kept, q) (ap some same)
  | inr q ↦
      let rest : find_in (keep_if p entries) name ≡ some e =
        find-keep p entries name e (ground (arith, q, h)) k in
      elim (Bool-cases (p x)) [ inl r ↦ rw (r, q) rest | inr r ↦ rw r rest ]
]

find-append :
    (entries : List FileEntry) (name : Text) (e : FileEntry)
    → find_in entries name ≡ none
    → equal_fold e.name name ≡ true
    → find_in (entries ++ e ∷ []) name ≡ some e
unfolding find_in
find-append [] name e h k = rw k refl
find-append (x ∷ entries) name e h k = elim (Bool-cases (equal_fold x.name name)) [
  | inl q ↦ absurd (ground (arith, q, h))
  | inr q ↦ rw q (find-append entries name e (ground (arith, q, h)) k)
]

module _ {D : Type 0} (t : Transport D) (laws : IsMtp t) where
  -- A slot in the waypoint directory, and what the two of them list.
  abbrev pub IsSlot : D → FileEntry → FileEntry → List FileEntry → Text → Type 0
  IsSlot d dir slot entries guid =
      ((listed : List FileEntry) × (t.children d dir ≡ some listed)
        × (find_in listed guid ≡ some slot))
      × (t.children d slot ≡ some entries)
      × ((dir.object_id == slot.object_id) ≡ false)

  put-read :
      (d d' : D) (l : Located) (dir slot : FileEntry) (entries : List FileEntry)
      (guid content : Text)
      → l.waypoint_dir ≡ some dir
      → IsSlot d dir slot entries guid
      → find_in entries (guid ++ codes ".kmz") ≡ none
      → t.send d slot (guid ++ codes ".kmz") content ≡ (d', false)
      → read_kmz t (ok l) d' guid ≡ ok content
  unfolding read_kmz slot_folder find_child list_dir found_in present get_file
  put-read d d' l dir slot entries guid content w ((listed, a, b), c, apart) n h =
      let (e, named, after, back) =
        laws.send_lists d d' slot (guid ++ codes ".kmz") content entries h c in
      let above : t.children d' dir ≡ some listed =
        laws.send_frame d d' slot dir (guid ++ codes ".kmz") content h apart ∙ a in
      let last : find_in (entries ++ e ∷ []) (guid ++ codes ".kmz") ≡ some e =
        find-append entries (guid ++ codes ".kmz") e n
          (rw named (unfold equal_fold in ==_refl (to_lower (guid ++ codes ".kmz")))) in
      ground (arith, w, above, b, after, last, back)

  -- The folder holds at most one entry with the name of the slot's KMZ, and that is not the folder.
  abbrev pub HoldsOne : FileEntry → List FileEntry → Text → Type 0
  HoldsOne slot entries guid =
      (e : FileEntry)
      → find_in entries (guid ++ codes ".kmz") ≡ some e
      → ((slot.object_id == e.object_id) ≡ false)
        × (find_in (without e entries) (guid ++ codes ".kmz") ≡ none)

  erase-IsSlot :
      (d d' : D) (dir slot e : FileEntry) (entries : List FileEntry) (guid : Text)
      → IsSlot d dir slot entries guid
      → (slot.object_id == e.object_id) ≡ false
      → t.erase d e ≡ (d', false)
      → IsSlot d' dir slot (without e entries) guid
  erase-IsSlot d d' dir slot e entries guid ((listed, a, b), c, apart) q h = (
    (
      without e listed,
      laws.erase_lists d d' e dir listed h a,
      find-keep (λ (x : FileEntry). not (x.object_id == e.object_id)) listed guid slot b (ap not q),
    ),
    laws.erase_lists d d' e slot entries h c,
    apart,
  )

  sent_ok :
      (d d' : D) (slot : FileEntry) (name content : Text) (n : ℕ)
      → put_upload t d (some slot) name (some content) ≡ (d', ok n)
      → t.send d slot name content ≡ (d', false)
  unfolding put_upload put_file sent
  sent_ok d d' slot name content n h = ground (arith, h)

  -- The mission that `WriteKMZ` has put into a slot without an error is what `ReadKMZ` streams
  -- afterwards, whether the slot held a mission before or not: for a device that keeps the promises
  -- of MTP, and a slot's folder with at most one entry of the name of its KMZ.
  pub write_kmz-read_kmz :
      (d d' : D) (l : Located) (dir slot : FileEntry) (entries : List FileEntry)
      (guid content : Text) (n : ℕ)
      → l.waypoint_dir ≡ some dir
      → IsSlot d dir slot entries guid
      → HoldsOne slot entries guid
      → write_kmz t (ok l) d guid (some content) ≡ (d', ok n)
      → read_kmz t (ok l) d' guid ≡ ok content
  unfolding write_kmz replace_file find_child list_dir found_in present erase_present
  write_kmz-read_kmz d d' l dir slot entries guid content n w s one h =
      let ((listed, a, b), c, apart) = s in
      let name = guid ++ codes ".kmz" in
      elim (Option-cases (find_in entries name)) [
        | inl q ↦
            put-read d d' l dir slot entries guid content w s q
              (sent_ok d d' slot name content n (ground (arith, w, a, b, c, q, h)))
        | inr (e, q) ↦ elim (Bool-cases (t.erase d e).1) [
          | inl r ↦ absurd (ground (arith, w, a, b, c, q, r, h))
          | inr r ↦
              let d1 = (t.erase d e).0 in
              let erased =
                erase-IsSlot d d1 dir slot e entries guid s (one e q).0
                  (ap (λ (x : Bool). (d1, x)) r) in
              put-read d1 d' l dir slot (without e entries) guid content w erased (one e q).1
                (sent_ok d1 d' slot name content n (ground (arith, w, a, b, c, q, r, h)))
        ]
      ]

-- An upload to a slot whose folder is not in the waypoint directory never succeeds, and its error
-- is that of the transport, not the one for an absent slot.
pub write_kmz-absent :
    {D : Type 0} (t : Transport D) (d : D) (l : Located) (guid : Text) (upload : Option Text)
    → find_child t d l.waypoint_dir guid ≡ ok none
    → (write_kmz t (ok l) d guid upload).1 ≡ err io
unfolding write_kmz replace_file put_upload put_file sent
write_kmz-absent t d l guid none h = ground (arith, h)
write_kmz-absent t d l guid (some content) h = ground (arith, h)
