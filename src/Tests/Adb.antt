-- ===== src/Tests/Adb.antt =====
-- A controller behind adb that is kept in memory, with two slots, of which one is empty.
use companion_mission_planne.Base.{
  ℕ, ◌≡◌, refl, sym, inl, inr, arith, Bool, true, false, Option, none, some, List, [], ◌∷◌, ◌∙◌,
  Text, text_Eq, text_eq, text_eq_iff, codes, map, length, All, Result, ok, err, ap, if◌then◌else◌,
  Bool-cases,
}
use companion_mission_planne.Base.Table
use companion_mission_planne.Base.Table.{Table}
use companion_mission_planne.Device.Mtp.Listing.{Slot}
use companion_mission_planne.Device.Registry.{device}
use companion_mission_planne.Device.Registry.Hotplug.{raw_online}
use companion_mission_planne.Device.Adb.Paths.{waypoint_dir, paths_for, IsSegment}
use companion_mission_planne.Device.Adb.{DirEntry, Goadb, list_slots, write_kmz, reported_state}
use companion_mission_planne.Device.Adb.Listed.{IsAdb, IsStored, write_kmz-listed}
use companion_mission_planne.Device.Adb.Sizes.{names_of, sizes, resized}

abbrev Files : Type 0
Files = Table Text Text

abbrev full : Text
full = codes "0A1B2C3D-0000-4000-8000-000000000001"

abbrev empty : Text
empty = codes "0A1B2C3D-0000-4000-8000-000000000002"

abbrev folder : Text → DirEntry
folder name = record { name = name; mode = 1; size = 0; modified_at = 5 }

abbrev folders : List DirEntry
folders = map folder (codes "." ∷ codes ".." ∷ full ∷ codes "map_preview" ∷ empty ∷ [])

abbrev stored : Text → DirEntry
stored content = record { name = []; mode = 1; size = length content; modified_at = 9 }

stat_of : Option Text → Result Text (Option DirEntry)
stat_of none = err (codes "no such file or directory")
stat_of (some content) = ok (some (stored content))

abbrev files_adb : Goadb Files
files_adb = record {
  state = λ d. ok raw_online;
  run_command = λ d command. some (codes "OK");
  list_entries = λ d dir. if text_eq dir waypoint_dir then some folders else none;
  stat = λ d path. stat_of (Table.get path d);
  open_read = λ d path. Table.get path d;
  write = λ d path content. (Table.put path content d, false);
  close_fails = λ d path content. false;
  spools = λ d. true;
}

folders-segments :
    (dir : Text) (raw : List DirEntry)
    → ◌≡◌ {A = Option (List DirEntry)}
        (if text_eq dir waypoint_dir then some folders else none)
        (some raw)
    → All IsSegment (names_of raw)
folders-segments dir raw h = elim (Bool-cases (text_eq dir waypoint_dir)) [
  | inl e ↦
      let same : folders ≡ raw = ground (arith, e, h) in
      rw (← same) (refl, (refl, (refl, (refl, (refl, tt)))))
  | inr e ↦ absurd (ground (arith, e, h))
]

put-stat :
    (d d' : Files) (path content q : Text)
    → IsStored files_adb d path content d'
    → files_adb.stat d' q
      ≡ (if text_eq path q then ok (some (stored content)) else files_adb.stat d q)
unfolding stat_of
put-stat d d' path content q h =
    let moved : Table.put path content d ≡ d' = ap (λ (x : Files × Bool). x.0) h.0 in
    rw (← moved, Table.get-put path q content d)
      (elim (Bool-cases (text_eq path q)) [ inl e ↦ rw e refl | inr e ↦ rw e refl ])

files_adb-IsAdb : IsAdb files_adb
files_adb-IsAdb = record {
  list_segments = λ d dir raw h. folders-segments dir raw h;
  write_stat = λ d d' path content h. (
    stored content,
    put-stat d d' path content path h ∙ rw ((text_eq_iff path path).1 refl) refl,
    refl,
    refl,
  );
  write_frame = λ d d' path content q h apart beside.
      put-stat d d' path content q h ∙ elim (Bool-cases (text_eq path q)) [
        | inl e ↦
            absurd (ground (arith, apart, (text_eq_iff q path).1 (sym ((text_eq_iff path q).0 e))))
        | inr e ↦ rw e refl
      ];
  write_names = λ d d' dir name file content raw h e m. (raw, e, refl);
}

abbrev before : Files
before = ((paths_for full).kmz, codes "abc") ∷ []

abbrev after : Files
after = Table.put (paths_for empty).kmz (codes "12345") before

abbrev slot : Text → ℕ → ℕ → Slot
slot guid size time = record {
  guid = guid;
  name = codes "Slot 0A1B2C3D";
  last_modified = time;
  file_size = size;
  preview_available = false;
  preview_url = [];
  managed = false;
}

abbrev slots_before : List Slot
slots_before = slot full 3 9 ∷ slot empty 0 5 ∷ []

listed_before : list_slots files_adb before ≡ ok slots_before
unfolding list_slots paths_for stat_of Table.get
listed_before = refl

write_kmz-listed_example :
    (5 ≡ length (codes "12345"))
    × ((slots' : List Slot) × (list_slots files_adb after ≡ ok slots')
        × (map sizes slots' ≡ map (resized empty (length (codes "12345"))) slots_before))
unfolding list_slots paths_for stat_of write_kmz Table.get Table.put
write_kmz-listed_example =
    write_kmz-listed files_adb files_adb-IsAdb before after empty (codes "12345") slots_before
      (record { guid = empty; file_size = 5 }) listed_before refl refl refl

-- The state of a device that is ready, which the panel does not take for connected.
ready_state : reported_state files_adb before device ≡ device
unfolding reported_state
ready_state = refl
