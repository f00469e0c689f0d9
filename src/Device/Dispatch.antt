-- ===== src/Device/Dispatch.antt =====
-- The controllers of internal/device behind the interfaces of controller.go: which method of which
-- controller a call on the registry reaches. A device has a state of its own in the world.
pub mod Missions
pub mod Media
pub mod Controllers
pub mod Stored
use companion_mission_planne.Base.{
  ℕ, Bool, true, false, Option, none, some, List, Text, text_eq, nat_eq, Result, ok, err,
  if◌then◌else◌,
}
use companion_mission_planne.Base.Table.{Table}
use companion_mission_planne.Device.Media.{MediaItem}
use companion_mission_planne.Device.MassStorage
use companion_mission_planne.Device.MassStorage.{
  FilePath, Volume, MediaError, not_opened, path_text,
}
use companion_mission_planne.Device.Mtp.{Transport, MtpError, Located}
use companion_mission_planne.Device.Mtp.Listing.{Slot}
use companion_mission_planne.Device.Mtp.Missions.{WaypointImage}
use companion_mission_planne.Device.Mtp.Browse.{MediaIndex}
use companion_mission_planne.Device.Adb.{Goadb}
use companion_mission_planne.Device.Registry.{
  Controller, adb, mtp, storage, MtpController, StorageController,
}
use companion_mission_planne.Device.Service.{
  DeviceError, slot_not_found, preview_not_found, media_unavailable, media_not_found,
  thumbnail_not_found, other, TransferResult, MediaBrowser, Methods,
}

-- The sentinel that an error of the MTP controller wraps.
unfoldable pub from_mtp : MtpError → DeviceError
from_mtp MtpError.io = other
from_mtp MtpError.not_found = other
from_mtp (MtpError.slot_not_found guid) = slot_not_found
from_mtp MtpError.preview_not_found = preview_not_found
from_mtp (MtpError.kmz_missing guid) = other
from_mtp (MtpError.image_folder_missing guid) = other
from_mtp MtpError.preview_dir_missing = other
from_mtp (MtpError.preview_folder_missing guid) = other
from_mtp MtpError.media_unavailable = media_unavailable
from_mtp MtpError.media_not_found = media_not_found
from_mtp MtpError.thumbnail_not_found = thumbnail_not_found

unfoldable pub from_storage : MediaError → DeviceError
from_storage MediaError.media_not_found = media_not_found
from_storage MediaError.thumbnail_not_found = thumbnail_not_found
from_storage not_opened = other

unfoldable pub wrap {ℓ} :
    {E : Type 0} {A : Type ℓ} → (E → DeviceError) → Result E A → Result DeviceError A
wrap f (ok a) = ok a
wrap f (err e) = err (f e)

-- A device behind MTP: its state, what awaitLocate gives, and the index of its media.
pub record MtpState (M : Type 0) : Type 0 where
  pub device : M
  pub located : Result MtpError Located
  pub index : MediaIndex

-- A mounted volume with its controller.
pub record CardState : Type 0 where
  pub volume : Volume
  pub cache : MassStorage.Controller

-- The devices: those behind MTP by the number of the handle, those behind adb by serial and the cards
-- by id.
pub record World (M A : Type 0) : Type 0 where
  pub mtp_at : ℕ → MtpState M
  pub adb_at : Text → A
  pub card_at : Text → CardState

module _ {M A : Type 0} where
  unfoldable pub put_mtp : ℕ → MtpState M → World M A → World M A
  put_mtp n x w = record w { mtp_at = λ k. if nat_eq k n then x else w.mtp_at k }

  unfoldable pub put_adb : Text → A → World M A → World M A
  put_adb n x w = record w { adb_at = λ k. if text_eq k n then x else w.adb_at k }

  unfoldable pub put_card : Text → CardState → World M A → World M A
  put_card n x w = record w { card_at = λ k. if text_eq k n then x else w.card_at k }
