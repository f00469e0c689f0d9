-- ===== src/Tests/Registry.antt =====
-- A card reader, a controller behind MTP that is plugged in again, and a tablet behind adb.
use companion_mission_planne.Base.{
  if◌then◌else◌, elem, ℕ, ◌≡◌, refl, true, false, none, some, List, [], ◌∷◌, Text, text_Eq, text_eq,
  codes, elem, ok, map, nat_Eq,
}
use mathlib.Core.List.{Perm}
use companion_mission_planne.Base.Table
use companion_mission_planne.Base.Table.{Table}
use companion_mission_planne.Blockdev.{UsbVolume}
use companion_mission_planne.Stores.Persist.{Codec, Faults, written}
use companion_mission_planne.Stores.Nested.{Nested}
use companion_mission_planne.Stores.Names
use companion_mission_planne.Device.Mtp.Listing.{Slot}
use companion_mission_planne.Device.Registry.{
  Handle, AdbDevice, device, Controller, mtp, Registry, Host, new_registry, find_open_by_bus_dev,
  lookup,
}
use companion_mission_planne.Device.Registry.Volumes.{scan_mass_storage, ids_of}
use companion_mission_planne.Device.Registry.Volumes.Once.{scan_mass_storage-once}
use companion_mission_planne.Device.Registry.Refresh.{refresh, refresh_mtp}
use companion_mission_planne.Device.Registry.Refresh.Tracked.{
  IsCovered, refresh-IsCovered, new_registry-IsTracked,
}
use companion_mission_planne.Device.Registry.Hotplug.{poll_loop}
use companion_mission_planne.Device.Registry.Hotplug.Tracks.{
  present_after, last_listed, poll_loop-tracks,
}
use companion_mission_planne.Device.Service.{
  TransferResult, Methods, Service, refreshed, list_slots,
}
use companion_mission_planne.Device.Service.Slots.{decorated, list_slots-decorated}
use companion_mission_planne.Device.Service.Transfers.{Metadata, Render, transfer_with_meta}
use companion_mission_planne.Device.Service.Transfers.Saved.{
  IsRenamed, transfer_with_meta-IsRenamed,
}

-- The world is a list of what was done to it.
abbrev pub World : Type 0
World = List Text

abbrev card : UsbVolume
card = record {
  id = codes "usbms:A1";
  dev_path = codes "/dev/sdb1";
  fs_type = codes "exfat";
  label = [];
  mountpoint = [];
}

abbrev mounted_card : UsbVolume
mounted_card = record card { mountpoint = codes "/tmp/mounts/A1" }

-- What lsblk says of the card, which it lists with its mountpoint once it is mounted.
abbrev card_in : World → UsbVolume
card_in w = if elem (codes "mount") w then mounted_card else card

abbrev pub handle : ℕ → Handle
handle dev = record { ref = dev; identifier = codes "usb:1"; usb_bus = 1; usb_dev = dev }

abbrev tablet : AdbDevice
tablet = record { serial = codes "T1"; state = device; model = [] }

-- One MTP device at the given number, whose serial is S1; a card; no tablet.
abbrev host : ℕ → Host World
host dev = record {
  adb_list = λ w. some [];
  raw_state = λ w serial. some device;
  mtp_list = λ w. some (handle dev ∷ []);
  open_session = λ w d. (codes "open" ∷ w, some (codes "S1"));
  ping = λ w d. true;
  close = λ w d. codes "close" ∷ w;
  is_locating = λ w c. false;
  kickoff_locate = λ w c. codes "walk" ∷ w;
  scan = λ w. some (card_in w ∷ []);
  mount_ro = λ w dev_path fs_type mountpoint. (codes "mount" ∷ w, false);
  unmount = λ w mountpoint. (codes "unmount" ∷ w, false);
  remove_dir = λ w dir. w;
  read_dir = λ w dir. some ((codes "DCIM", true) ∷ []);
}

abbrev started : Registry
started = new_registry true (codes "/tmp/mounts")

refresh-IsCovered_example : IsCovered (refresh (host 5) [] started).1
refresh-IsCovered_example =
    refresh-IsCovered (host 5) [] started (new_registry-IsTracked true (codes "/tmp/mounts"))

scan_mass_storage-once_example :
    ((id : Text)
      → Table.has id (scan_mass_storage (host 5) [] started).1.volumes
        ≡ elem id (ids_of (card ∷ [])))
    × ((scan_mass_storage
          (host 5)
          (scan_mass_storage (host 5) [] started).0
          (scan_mass_storage (host 5) [] started).1).0
        ≡ (scan_mass_storage (host 5) [] started).0)
    × ((scan_mass_storage
          (host 5)
          (scan_mass_storage (host 5) [] started).0
          (scan_mass_storage (host 5) [] started).1).1.volumes
        ≡ (scan_mass_storage (host 5) [] started).1.volumes)
unfolding scan_mass_storage text_eq new_registry Table.get Table.put
scan_mass_storage-once_example =
    scan_mass_storage-once (host 5) [] started (card ∷ []) (mounted_card ∷ []) refl refl refl

-- The state after a first refresh with the device at number 5.
abbrev connected_once : World × Registry
connected_once = refresh_mtp (host 5) [] started

-- Plugged in again at number 6 before the next refresh: the new handle is filed, the controller is
-- still the one of the old handle, and no handle is closed.
plugged_again :
    (Table.get (codes "S1") (refresh_mtp (host 6) connected_once.0 connected_once.1).1.open_mtp
      ≡ some (record (handle 6) { identifier = codes "S1" }))
    × (Table.get
          (codes "S1")
          (refresh_mtp (host 6) connected_once.0 connected_once.1).1.mtp_controllers
        ≡ some (record { handle = record (handle 5) { identifier = codes "S1" } }))
    × ((refresh_mtp (host 6) connected_once.0 connected_once.1).0
        ≡ codes "open" ∷ codes "walk" ∷ codes "open" ∷ [])
unfolding refresh_mtp new_registry text_eq Table.get find_open_by_bus_dev Table.put
plugged_again = (refl, refl, refl)

poll_loop-tracks_example :
    present_after
      (codes "b")
      (poll_loop
        ((1, some (codes "a" ∷ codes "b" ∷ [])) ∷ (2, none) ∷ (3, some (codes "b" ∷ [])) ∷ [])
        []).1
      false
    ≡ elem (codes "b") (
        last_listed
          ((1, some (codes "a" ∷ codes "b" ∷ [])) ∷ (2, none) ∷ (3, some (codes "b" ∷ [])) ∷ [])
          [])
poll_loop-tracks_example =
    poll_loop-tracks (codes "b")
      ((1, some (codes "a" ∷ codes "b" ∷ [])) ∷ (2, none) ∷ (3, some (codes "b" ∷ [])) ∷ [])

-- The same host without block devices.
abbrev pub quiet : Host World
quiet = record (host 5) { scan = λ w. none }

abbrev slot : Text → Slot
slot guid = record {
  guid = guid;
  name = codes "Slot";
  last_modified = 0;
  file_size = 1;
  preview_available = false;
  preview_url = [];
  managed = false;
}

abbrev result : TransferResult
result = record { guid = codes "g"; file_size = 3 }

-- A controller with the slots g and k.
abbrev pub methods : Methods World
methods = record {
  list_slots = λ c w. (w, ok (slot (codes "g") ∷ slot (codes "k") ∷ []));
  read_preview = λ c w guid. (w, ok []);
  write_kmz = λ c w guid kmz. (codes "write" ∷ w, ok result);
  clear_slot = λ c w guid. (w, ok tt);
  kmz_reader = λ c. none;
  preview_writer = λ c. none;
  image_writer = λ c. none;
  media_browser = λ c. none;
  local_media = λ c. none;
}

abbrev names : Names.Store
names = record { path = []; names = some [] }

abbrev pub service : Service World
service = record {
  world = [];
  registry = started;
  names = some names;
  managed = none;
  order = none;
  disk = [];
}

abbrev seen : Controller
seen = mtp (record { handle = record (handle 5) { identifier = codes "S1" } })

known : lookup (codes "S1") (refreshed quiet methods service).registry ≡ some seen
unfolding lookup refreshed refresh refresh_mtp Table.get scan_mass_storage find_open_by_bus_dev
    new_registry Table.put
known = refl

abbrev slots : List Slot
slots = slot (codes "g") ∷ slot (codes "k") ∷ []

list_slots-decorated_example :
    (out : List Slot) × ((list_slots quiet methods (codes "S1") service).1 ≡ ok out)
    × Perm out (map (decorated service (codes "S1")) slots)
unfolding text_eq
list_slots-decorated_example =
    list_slots-decorated quiet methods (codes "S1") service seen slots known refl (refl, (refl, tt))
      (λ store e. absurd (cc))

abbrev pub codec : Codec (Nested Text)
codec = record { encode = λ m. some (codes "x"); decode = λ t. none }

abbrev pub faults : Faults
faults = record { mkdir_fails = false; write = written; rename_fails = false }

abbrev pub render : Render World ℕ
render = record {
  generate = λ w meta. (w, none);
  render_waypoint = λ w lat lng i actions. (w, none);
}

abbrev pub meta : Metadata ℕ
meta = record { name = codes "Farm"; waypoints = []; date = none }

transfer_with_meta-IsRenamed_example :
    (s' : Service World) × (transfer_with_meta quiet methods render codec faults true
        (codes "S1")
        (codes "g")
        (codes "kmz")
        (some meta)
        service
      ≡ some (s', ok result))
    × IsRenamed names (codes "S1") (codes "g") (codes "Farm") s'.names
transfer_with_meta-IsRenamed_example =
    transfer_with_meta-IsRenamed quiet methods render codec faults true (codes "S1") (codes "g")
      (codes "kmz") meta service seen result names [] known refl refl refl refl
