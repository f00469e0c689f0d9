-- ===== src/Device/Registry.antt =====
-- The registry of internal/device/detector.go: the connected devices, the MTP handles that are open,
-- the controllers cached for them and the USB volumes that have been looked at. What lies behind adb,
-- libmtp and the kernel is the parameter `Host`, over a type of states of the outside world.
pub mod Volumes
pub mod Refresh
pub mod Hotplug
use companion_mission_planne.Base.{
  ℕ, nat_eq, Bool, true, false, ◌&&◌, Option, none, some, List, [], ◌∷◌, Text, text_Eq,
  if◌then◌else◌,
}
use companion_mission_planne.Base.Table
use companion_mission_planne.Base.Table.{Table}
use companion_mission_planne.Blockdev.{UsbVolume}

-- A *mtp.Device; `ref` tells the allocations apart.
pub record Handle : Type 0 where
  pub ref : ℕ
  pub identifier : Text
  pub usb_bus : ℕ
  pub usb_dev : ℕ

-- mtpController, by the handle that it talks to.
pub record MtpController : Type 0 where
  pub handle : Handle

-- The states of adb.DeviceState.
pub data AdbState : Type 0 where
  device offline unauthorized unknown : AdbState

-- st == StateDevice
abbrev pub is_device : AdbState → Bool
is_device device = true
is_device offline = false
is_device unauthorized = false
is_device unknown = false

-- adb.Device
pub record AdbDevice : Type 0 where
  pub serial : Text
  pub state : AdbState
  pub model : Text

-- What newMassStorageController is given.
pub record StorageController : Type 0 where
  pub id : Text
  pub model : Text
  pub mountpoint : Text

-- The implementations of `Controller`.
pub data Controller : Type 0 where
  adb : AdbDevice → Controller
  mtp : MtpController → Controller
  storage : StorageController → Controller

-- msVolume
pub record MsVolume : Type 0 where
  pub id : Text
  pub dev_path : Text
  pub mountpoint : Text
  pub mounted_by_us : Bool
  pub is_media : Bool
  pub controller : Option StorageController

-- The maps of the registry. `has_adb` is `adbClient != nil`.
pub record Registry : Type 0 where
  pub has_adb : Bool
  pub mount_root : Text
  pub devices : Table Text Controller
  pub open_mtp : Table Text Handle
  pub mtp_controllers : Table Text MtpController
  pub volumes : Table Text MsVolume

-- The outside world. `none` and `true` stand for errors; `open_session` gives the identifier that the handle
-- has once it is open; `read_dir` gives the names and whether each is a directory.
pub record Host (W : Type 0) : Type 0 where
  pub adb_list : W → Option (List AdbDevice)
  pub raw_state : W → Text → Option AdbState
  pub mtp_list : W → Option (List Handle)
  pub open_session : W → Handle → W × Option Text
  pub ping : W → Handle → Bool
  pub close : W → Handle → W
  pub is_locating : W → MtpController → Bool
  pub kickoff_locate : W → MtpController → W
  pub scan : W → Option (List UsbVolume)
  pub mount_ro : W → Text → Text → Text → W × Bool
  pub unmount : W → Text → W × Bool
  pub remove_dir : W → Text → W
  pub read_dir : W → Text → Option (List (Text × Bool))

-- NewRegistry: no maps are filled.
unfoldable pub new_registry : Bool → Text → Registry
new_registry has_adb mount_root = record {
  has_adb = has_adb;
  mount_root = mount_root;
  devices = [];
  open_mtp = [];
  mtp_controllers = [];
  volumes = [];
}

-- findOpenByBusDev
unfoldable pub find_open_by_bus_dev : ℕ → ℕ → Table Text Handle → Option Handle
find_open_by_bus_dev bus dev [] = none
find_open_by_bus_dev bus dev ((id, d) ∷ handles) =
    let rest = find_open_by_bus_dev bus dev handles in
    if nat_eq d.usb_bus bus && nat_eq d.usb_dev dev then some d else rest

-- Lookup; `none` is ErrUnknownDevice.
unfoldable pub lookup : Text → Registry → Option Controller
lookup id r = Table.get id r.devices
