-- ===== src/Tests/Delivery.antt =====
-- A mission that is uploaded to the controller kept in memory, and downloaded again.
use companion_mission_planne.Base.{
  ℕ, ◌≤◌, ◌≡◌, refl, arith, true, false, Option, none, some, List, [], ◌∷◌, ◌++◌, Text, text_Eq,
  codes, length, ok, err, nat_Eq, text_eq, equal_fold,
}
use companion_mission_planne.Tests.Memory.{Memory, memory, memory-IsMtp}
use companion_mission_planne.Tests.Mtp.{
  slot_guid, waypoint_folder, slot_entry, kmz_entry, remote, remote_located,
}
use companion_mission_planne.Tests.Registry.{handle, codec, faults, meta}
use companion_mission_planne.Tests.Api.{formats, form, decoding, hub}
use companion_mission_planne.Kmz.Archive.{Entry, max_size}
use companion_mission_planne.Device.Mtp.Browse.{empty_index}
use companion_mission_planne.Device.MassStorage
use companion_mission_planne.Device.MassStorage.{nil, unavailable}
use companion_mission_planne.Device.Adb.{Goadb}
use companion_mission_planne.Device.Registry.{
  Host, device, new_registry, find_open_by_bus_dev, lookup,
}
use companion_mission_planne.Base.Table
use companion_mission_planne.Device.Registry.Refresh.{refresh, refresh_mtp}
use companion_mission_planne.Device.Registry.Volumes.{scan_mass_storage}
use companion_mission_planne.Kmz.Guid.{is_valid_guid}
use companion_mission_planne.Device.Service.{Methods, refreshed}
use companion_mission_planne.Device.Service.Transfers.{Render}
use companion_mission_planne.Device.Dispatch.{World}
use companion_mission_planne.Device.Dispatch
use companion_mission_planne.Api.{Response, bytes}
use companion_mission_planne.Api.Transfer.{
  Formats, Server, rewrite_upload, vet_form, handle_transfer, Upload,
}
use companion_mission_planne.Api.Downloads.{handle_download_kmz}
use companion_mission_planne.Api.Delivery.{controllers, handle_transfer-handle_download_kmz}

abbrev Devices : Type 0
Devices = World Memory ℕ

abbrev no_adb : Goadb ℕ
no_adb = record {
  state = λ d. err (record { not_found = true; chain = [] });
  run_command = λ d c. none;
  list_entries = λ d p. none;
  stat = λ d p. err [];
  open_read = λ d p. none;
  write = λ d p c. (d, true);
  close_fails = λ d p c. false;
  spools = λ d. false;
}

abbrev no_card : Dispatch.CardState
no_card = record {
  volume = record {
    root = codes "/tmp";
    tree = nil;
    content = λ p. none;
    decodes = λ t. false;
    ffmpeg = λ p. unavailable;
  };
  cache = MassStorage.new_controller (codes "card") (codes "Card");
}

-- The controller kept in memory behind every handle.
abbrev devices : Devices
devices = record {
  mtp_at = λ n. record { device = remote; located = ok remote_located; index = empty_index };
  adb_at = λ serial. 0;
  card_at = λ id. no_card;
}

-- The controller is listed at number 5 and has the serial S1.
abbrev host : Host Devices
host = record {
  adb_list = λ w. some [];
  raw_state = λ w serial. some device;
  mtp_list = λ w. some (handle 5 ∷ []);
  open_session = λ w d. (w, some (codes "S1"));
  ping = λ w d. true;
  close = λ w d. w;
  is_locating = λ w c. false;
  kickoff_locate = λ w c. w;
  scan = λ w. none;
  mount_ro = λ w dev_path fs_type mountpoint. (w, false);
  unmount = λ w mountpoint. (w, false);
  remove_dir = λ w dir. w;
  read_dir = λ w dir. none;
}

abbrev server : Server Devices
server = record {
  service = record {
    world = devices;
    registry = new_registry true (codes "/tmp/mounts");
    names = none;
    managed = none;
    order = none;
    disk = [];
  };
  active_transfers = 0;
  hub = hub;
}

abbrev render : Render Devices ℕ
render = record {
  generate = λ w meta. (w, none);
  render_waypoint = λ w lat lng i actions. (w, none);
}

abbrev names_of : List Entry → Text
names_of [] = []
names_of (e ∷ entries) = e.name ++ names_of entries

-- The writer of archives keeps the names of the entries.
abbrev named_formats : Formats ℕ
named_formats = record formats { write_zip = λ entries. names_of entries }

abbrev at_hand : Methods Devices
at_hand = controllers memory memory-IsMtp no_adb (λ m. []) (λ old. none) (λ t. false)

abbrev answered : Option (Server Devices × Response) → Server Devices × Response
answered none = (server, record { status = 0; headers = []; body = bytes [] })
answered (some p) = p

abbrev outcome : Server Devices × Response
outcome = answered (
    handle_transfer host at_hand render decoding codec faults named_formats false 5 (codes "S1")
      slot_guid meta (some form) server)

abbrev upload : Upload
upload = record { size = 3; content = some (codes "zip") }

handle_transfer-handle_download_kmz_example :
    (entries : List Entry) × (length (codes "zip") ≤ max_size)
    × (rewrite_upload named_formats slot_guid (codes "zip") ≡ ok entries)
    × ((handle_download_kmz host at_hand (codes "S1") slot_guid [] outcome.0.service).1.body
        ≡ bytes (named_formats.write_zip entries))
unfolding handle_transfer lookup refreshed refresh refresh_mtp Table.get scan_mass_storage
    find_open_by_bus_dev new_registry Table.put equal_fold text_eq Dispatch.Controllers.methods
    is_valid_guid vet_form rewrite_upload
    companion_mission_planne.Device.Dispatch.Missions.write_kmz
    companion_mission_planne.Device.Mtp.Missions.write_kmz
handle_transfer-handle_download_kmz_example =
    handle_transfer-handle_download_kmz memory memory-IsMtp no_adb (λ m. []) (λ old. none)
      (λ t. false) host render decoding codec faults named_formats 5 (codes "S1") slot_guid []
      (codes "zip") meta form upload server outcome.0 outcome.1
      (record { handle = record (handle 5) { identifier = codes "S1" } }) remote_located
      waypoint_folder slot_entry (kmz_entry ∷ []) refl refl refl
      ((slot_entry ∷ [], refl, refl), refl, refl) (λ e q. ground (arith, q)) refl refl refl refl
      refl
