-- ===== src/Device/Mtp/Listing.antt =====
-- `ListSlots` of internal/device/mtp_controller.go, and the `Slot` of internal/device/controller.go.
use mathlib.Core.Path.{subst}
use companion_mission_planne.Base.{
  ℕ, ◌≤◌, ◌≡◌, refl, sym, ◌∙◌, ap, inl, inr, arith, Bool, true, false, not, ◌&&◌, Option, none,
  some, List, [], ◌∷◌, ◌++◌, Text, text_Eq, text_eq, codes, to_upper, map, take, length, keep_if,
  ltb, All, Result, ok, err, if◌then◌else◌, Bool-cases, Option-cases,
}
use companion_mission_planne.Base.Table
use companion_mission_planne.Base.Table.{Table}
use companion_mission_planne.Kmz.Guid.{looks_like_guid}
use companion_mission_planne.Device.Mtp.{
  FileEntry, Transport, MtpError, io, not_found, Located, find_in,
}

pub record Slot : Type 0 where
  pub guid : Text
  pub name : Text
  pub last_modified : ℕ
  pub file_size : ℕ
  pub preview_available : Bool
  pub preview_url : Text
  pub managed : Bool

-- `if t.After(mtime) { mtime = t }`
abbrev pub later : ℕ → ℕ → ℕ
later mtime t = if ltb mtime t then t else mtime

-- The folders of map_preview by upper-cased name; a later one replaces an earlier one.
unfoldable pub preview_folders : Table Text FileEntry → List FileEntry → Table Text FileEntry
unfolding to_upper
preview_folders m [] = m
preview_folders m (p ∷ entries) =
    preview_folders (if p.is_folder then Table.put (to_upper p.name) p m else m) entries

-- The loop of previewJPEGMtime.
unfoldable pub jpeg_mtime : Text → List FileEntry → Option ℕ
unfolding to_upper text_eq
jpeg_mtime want [] = none
jpeg_mtime want (ch ∷ entries) =
    let rest = jpeg_mtime want entries in
    if not ch.is_folder && text_eq (to_upper ch.name) want then some ch.modified_at else rest

unfoldable pub or_none : Option (List FileEntry) → List FileEntry
or_none none = []
or_none (some entries) = entries

-- The entries that stand for slots.
unfoldable pub is_slot : FileEntry → Bool
unfolding looks_like_guid
is_slot e = e.is_folder && looks_like_guid e.name

-- Size and time after the look at the slot's KMZ.
with_kmz : ℕ → Option FileEntry → ℕ × ℕ
with_kmz mtime none = (0, mtime)
with_kmz mtime (some kc) = (kc.size, later mtime kc.modified_at)

with_preview : ℕ → Option ℕ → Bool × ℕ
with_preview mtime none = (false, mtime)
with_preview mtime (some jpeg) = (true, later mtime jpeg)

-- A slot whose default name is made of the first eight bytes of its GUID, which it has.
abbrev pub IsNamed : Slot → Type 0
IsNamed s = (8 ≤ length s.guid) × (s.name ≡ codes "Slot " ++ take 8 s.guid)

module _ {D : Type 0} (t : Transport D) where
  -- previewJPEGMtime, hasPreviewFile
  unfoldable pub preview_jpeg_mtime : D → FileEntry → Text → Option ℕ
  unfolding jpeg_mtime to_upper
  preview_jpeg_mtime d dir guid = elim (t.children d dir) [
    | none ↦ none
    | some entries ↦ jpeg_mtime (to_upper (guid ++ codes ".jpg")) entries
  ]

  -- The lookup in the set of preview folders, then in the folder.
  unfoldable pub preview_of : D → Table Text FileEntry → Text → Option ℕ
  unfolding preview_jpeg_mtime to_upper
  preview_of d folders guid = elim (Table.get (to_upper guid) folders) [
    | none ↦ none
    | some dir ↦ preview_jpeg_mtime d dir guid
  ]

  -- The body of the loop on an entry that is a slot.
  unfoldable pub slot_of : D → Table Text FileEntry → FileEntry → Slot
  unfolding with_kmz with_preview preview_of find_in or_none
  slot_of d folders e =
      let (size, t1) =
        with_kmz e.modified_at (find_in (or_none (t.children d e)) (e.name ++ codes ".kmz")) in
      let (exists', t2) = with_preview t1 (preview_of d folders e.name) in
      record {
        guid = e.name;
        name = codes "Slot " ++ take 8 e.name;
        last_modified = t2;
        file_size = size;
        preview_available = exists';
        preview_url = [];
        managed = false;
      }

  unfoldable pub collect_slots : D → Table Text FileEntry → List FileEntry → List Slot
  unfolding slot_of is_slot
  collect_slots d folders [] = []
  collect_slots d folders (e ∷ entries) =
      let rest = collect_slots d folders entries in
      if is_slot e then slot_of d folders e ∷ rest else rest

  listed_previews : D → Option FileEntry → List FileEntry
  unfolding or_none
  listed_previews d none = []
  listed_previews d (some dir) = or_none (t.children d dir)

  -- ListSlots; the first argument is what awaitLocate gives.
  unfoldable pub list_slots : Result MtpError Located → D → Result MtpError (List Slot)
  unfolding collect_slots preview_folders listed_previews
  list_slots (err e) d = err e
  list_slots (ok l) d = elim l.waypoint_dir [
    | none ↦ err not_found
    | some dir ↦ elim (t.children d dir) [
      | none ↦ err io
      | some entries ↦
          ok (collect_slots d (preview_folders [] (listed_previews d l.preview_dir)) entries)
    ]
  ]

  collect-guids :
      (d : D) (folders : Table Text FileEntry) (entries : List FileEntry)
      → map (λ (s : Slot). s.guid) (collect_slots d folders entries)
        ≡ map (λ (e : FileEntry). e.name) (keep_if is_slot entries)
  unfolding collect_slots slot_of
  collect-guids d folders [] = refl
  collect-guids d folders (e ∷ entries) = elim (Bool-cases (is_slot e)) [
    | inl q ↦ rw q (ap (λ l. e.name ∷ l) (collect-guids d folders entries))
    | inr q ↦ rw q (collect-guids d folders entries)
  ]

  collect-IsNamed :
      (d : D) (folders : Table Text FileEntry) (entries : List FileEntry)
      → All IsNamed (collect_slots d folders entries)
  unfolding collect_slots slot_of
  collect-IsNamed d folders [] = tt
  collect-IsNamed d folders (e ∷ entries) = elim (Bool-cases (is_slot e)) [
    | inl q ↦ rw q (
      (unfold is_slot looks_like_guid in ground (arith, q), refl),
      collect-IsNamed d folders entries,
    )
    | inr q ↦ rw q (collect-IsNamed d folders entries)
  ]

  -- `ListSlots` returns one slot for each folder of the waypoint directory whose name looks like a
  -- GUID, in the order of the listing, and each GUID has the eight bytes that its default name takes.
  list_slots-guids :
      (l : Located) (d : D) (slots : List Slot)
      → list_slots (ok l) d ≡ ok slots
      → (dir : FileEntry) × (entries : List FileEntry) × (l.waypoint_dir ≡ some dir)
        × (t.children d dir ≡ some entries)
        × (map (λ (s : Slot). s.guid) slots
            ≡ map (λ (e : FileEntry). e.name) (keep_if is_slot entries))
        × All IsNamed slots
  unfolding list_slots
  list_slots-guids l d slots h = elim (Option-cases l.waypoint_dir) [
    | inl e ↦ absurd (ground (arith, e, h))
    | inr (dir, e) ↦ elim (Option-cases (t.children d dir)) [
      | inl q ↦ absurd (ground (arith, e, q, h))
      | inr (entries, q) ↦
          let folders = preview_folders [] (listed_previews d l.preview_dir) in
          let same : collect_slots d folders entries ≡ slots = ground (arith, e, q, h) in
          (
            dir,
            entries,
            e,
            q,
            ap (map (λ (s : Slot). s.guid)) (sym same) ∙ collect-guids d folders entries,
            subst (All IsNamed) same (collect-IsNamed d folders entries),
          )
    ]
  ]

  -- The time of a slot is never before that of its folder, its KMZ or its preview image, so that a
  -- new preview changes the address under which a browser keeps the old one.
  slot_of-fresh :
      (d : D) (folders : Table Text FileEntry) (e : FileEntry)
      → (e.modified_at ≤ (slot_of d folders e).last_modified)
        × ((kc : FileEntry)
            → find_in (or_none (t.children d e)) (e.name ++ codes ".kmz") ≡ some kc
            → kc.modified_at ≤ (slot_of d folders e).last_modified)
        × ((jpeg : ℕ)
            → preview_of d folders e.name ≡ some jpeg
            → jpeg ≤ (slot_of d folders e).last_modified)
  unfolding slot_of with_kmz with_preview
  slot_of-fresh d folders e =
      (ground arith, (λ kc q. ground (arith, q)), (λ jpeg q. ground (arith, q)))
