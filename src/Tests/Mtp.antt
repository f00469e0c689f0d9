-- ===== src/Tests/Mtp.antt =====
-- A controller and a camera that are kept in memory, and one run of the background walk.
use mathlib.Core.List.{Memᴰ}
use companion_mission_planne.Base.{
  ℕ, ◌≡◌, refl, arith, Bool, true, false, none, some, List, [], ◌∷◌, ◌++◌, Text, text_Eq, codes,
  All, nat_Eq, equal_fold, Result, ok, err,
}
use companion_mission_planne.Base.Sorting.{IsFalling, sort_ranked}
use companion_mission_planne.Tests.Memory.{Stored, Memory, memory, memory-IsMtp}
use companion_mission_planne.Device.Media.{MediaItem}
use companion_mission_planne.Device.Mtp.{
  FileEntry, MtpError, io, Located, controller, camera, find_in, find_child, lookup_path,
}
use companion_mission_planne.Device.Mtp.Classify.{classify, probe_tree}
use companion_mission_planne.Device.Mtp.Classify.Kinds.{classify-controller}
use companion_mission_planne.Device.Mtp.Listing.{Slot, slot_of}
use companion_mission_planne.Device.Mtp.Missions.{write_kmz, read_kmz}
use companion_mission_planne.Device.Mtp.Missions.RoundTrip.{write_kmz-read_kmz, write_kmz-absent}
use companion_mission_planne.Device.Mtp.Browse.{
  MediaIndex, empty_index, camera_root, media_files, list_media, collect_files,
}
use companion_mission_planne.Device.Mtp.Browse.Index.{list_media-Leads, Leads}
use companion_mission_planne.Device.Mtp.Locate.{
  closed_channel, open_channel, Walk, new_walk, kickoff, launch, store, close_done, notify, step,
  Reachable, first, next, IsOnce,
}
use companion_mission_planne.Device.Mtp.Locate.Progress.{Reachable-CanEnd, CanEnd}
use companion_mission_planne.Device.Mtp.Locate.Once.{Reachable-IsOnce}

abbrev entry : ℕ → ℕ → Text → Bool → FileEntry
entry n parent name is_folder = record {
  object_id = n;
  storage_id = 1;
  parent_id = parent;
  name = name;
  size = 3;
  modified_at = n;
  is_folder = is_folder;
}

abbrev object : ℕ → ℕ → Text → Bool → Text → Stored
object n parent name is_folder content = record {
  parent = parent;
  entry = entry n parent name is_folder;
  content = content;
}

abbrev pub slot_guid : Text
slot_guid = codes "0A1b2C3d-0000-4444-8888-0123456789aF"

abbrev storage : FileEntry
storage = entry 1 0 (codes "Internal shared storage") true

abbrev pub waypoint_folder : FileEntry
waypoint_folder = entry 6 5 (codes "waypoint") true

abbrev pub slot_entry : FileEntry
slot_entry = entry 7 6 slot_guid true

abbrev pub kmz_entry : FileEntry
kmz_entry = entry 8 7 (slot_guid ++ codes ".KMZ") false

abbrev pub remote : Memory
remote =
    object 1 0 (codes "Internal shared storage") true []
    ∷ object 2 1 (codes "Android") true []
    ∷ object 3 2 (codes "data") true []
    ∷ object 4 3 (codes "dji.go.v5") true []
    ∷ object 5 4 (codes "files") true []
    ∷ object 6 5 (codes "waypoint") true []
    ∷ object 7 6 slot_guid true []
    ∷ object 8 7 (slot_guid ++ codes ".KMZ") false (codes "old")
    ∷ []

abbrev pub remote_located : Located
remote_located = record {
  kind = controller;
  waypoint_dir = some waypoint_folder;
  preview_dir = none;
  media_root = none;
}

classify-controller_example : remote_located.kind ≡ controller
unfolding classify lookup_path probe_tree sort_ranked
classify-controller_example =
    classify-controller memory remote (storage ∷ []) remote_located storage waypoint_folder refl
      refl (Memᴰ.head refl) (entry 2 1 (codes "Android") true ∷ [], refl, refl)

abbrev the_slots : List Slot
the_slots = slot_of memory remote [] slot_entry ∷ []

abbrev rewritten_remote : Memory
rewritten_remote = (write_kmz memory (ok remote_located) remote slot_guid (some (codes "new"))).0

write_kmz-read_kmz_example :
    read_kmz memory (ok remote_located) rewritten_remote slot_guid ≡ ok (codes "new")
unfolding write_kmz find_in equal_fold
write_kmz-read_kmz_example =
    write_kmz-read_kmz memory memory-IsMtp remote rewritten_remote remote_located waypoint_folder
      slot_entry (kmz_entry ∷ []) slot_guid (codes "new") 3 refl
      ((slot_entry ∷ [], refl, refl), refl, refl) (λ e q. ground (arith, q)) refl

write_kmz-absent_example :
    (write_kmz memory (ok remote_located) remote (codes "other") (some (codes "new"))).1 ≡ err io
unfolding find_child
write_kmz-absent_example =
    write_kmz-absent memory remote remote_located (codes "other") (some (codes "new")) refl

abbrev dcim : FileEntry
dcim = entry 2 1 (codes "DCIM") true

abbrev action_cam : Memory
action_cam =
    object 2 1 (codes "DCIM") true []
    ∷ object 3 2 (codes "A.MP4") false (codes "video")
    ∷ object 4 2 (codes "A.LRF") false (codes "proxy")
    ∷ object 5 2 (codes "B.JPG") false (codes "photo")
    ∷ []

abbrev camera_located : Located
camera_located = record {
  kind = camera;
  waypoint_dir = none;
  preview_dir = none;
  media_root = some dcim;
}

abbrev served : MediaIndex × Result MtpError (List MediaItem)
served = list_media memory (ok camera_located) action_cam empty_index

abbrev items_of : Result MtpError (List MediaItem) → List MediaItem
items_of (err e) = []
items_of (ok items) = items

list_media-Leads_example :
    All (Leads memory (ok camera_located) action_cam served.0) (items_of served.1)
    × IsFalling (λ (i : MediaItem). i.modified_at) (items_of served.1)
unfolding list_media media_files camera_root collect_files
list_media-Leads_example =
    list_media-Leads memory camera_located action_cam empty_index served.0 (items_of served.1) dcim
      (entry 3 2 (codes "A.MP4") false
        ∷ entry 4 2 (codes "A.LRF") false
        ∷ entry 5 2 (codes "B.JPG") false
        ∷ [])
      refl refl (omega arith, (omega arith, (omega arith, tt))) (refl, (refl, (refl, tt))) refl

-- Two callers, one walk that ends in an error, and its callback.
abbrev ended : Walk
ended = record (new_walk true) {
  started = true;
  done = closed_channel;
  result = some (err io);
  calls = 1;
}

ended-Reachable : Reachable ended
unfolding step new_walk
ended-Reachable =
    next notify
      (next close_done
        (next (store (err io))
          (next launch (next kickoff (next kickoff (first true) refl) refl) refl) refl)
        refl)
      refl

Reachable-IsOnce_example : IsOnce ended
Reachable-IsOnce_example = Reachable-IsOnce ended ended-Reachable

-- One caller has asked for the walk, and its goroutine has not begun.
abbrev waiting : Walk
waiting = record (new_walk false) { started = true; done = open_channel; leaving = 1 }

waiting-Reachable : Reachable waiting
unfolding step new_walk
waiting-Reachable = next kickoff (first false) refl

Reachable-CanEnd_example : CanEnd waiting
unfolding new_walk
Reachable-CanEnd_example = Reachable-CanEnd waiting waiting-Reachable refl
