-- ===== src/Api.antt =====
-- internal/api: the HTTP server that the mission planner talks to. The router of net/http is left to
-- the library; a handler takes the path parameters and what the library has parsed of the request.
pub mod Middleware
pub mod Filenames
pub mod Events
pub mod Slots
pub mod Transfer
pub mod Media
pub mod Downloads
pub mod Delivery
use companion_mission_planne.Base.{ℕ, Bool, Option, none, some, List, [], ◌∷◌, Text, text_Eq, codes}
use companion_mission_planne.Base.Table
use companion_mission_planne.Base.Table.{Table}
use companion_mission_planne.Device.Media.{MediaItem}
use companion_mission_planne.Device.Mtp.Listing.{Slot}
use companion_mission_planne.Device.Service.{
  DeviceError, unknown_device, slot_not_found, preview_not_found, media_unavailable,
  media_not_found, thumbnail_not_found, other, TransferResult,
}

-- The error codes of errors.go that a handler sends.
pub data Code : Type 0 where
  bad_request unauthorized device_not_found slot_missing kmz_invalid kmz_too_large : Code
  transfer_failed internal_error invalid_guid media_conflict media_missing : Code

-- What a handler writes: an error envelope, or one of the bodies of a success.
pub data Body : Type 0 where
  nothing : Body
  error : Code → Body
  slots : Text → List Slot → Body
  items : Text → List MediaItem → Body
  transferred : TransferResult → Body
  cleared : Text → Body
  named : Text → Text → Text → Body
  flagged : Text → Text → Bool → Body
  counted : Text → ℕ → Body
  regenerated : Text → Text → Body
  bytes : Text → Body
  file : Text → Body

pub record Response : Type 0 where
  pub status : ℕ
  pub headers : Table Text Text
  pub body : Body

-- writeError
unfoldable pub write_error : ℕ → Code → Response
write_error status code = record {
  status = status;
  headers = (codes "Content-Type", codes "application/json") ∷ [];
  body = error code;
}

-- writeJSON
unfoldable pub write_json : Body → Response
write_json body = record {
  status = 200;
  headers = (codes "Content-Type", codes "application/json") ∷ [];
  body = body;
}

-- handleRegistryError
unfoldable pub handle_registry_error : DeviceError → Response
unfolding write_error
handle_registry_error unknown_device = write_error 404 device_not_found
handle_registry_error preview_not_found = write_error 404 slot_missing
handle_registry_error slot_not_found = write_error 404 slot_missing
handle_registry_error media_unavailable = write_error 409 media_conflict
handle_registry_error media_not_found = write_error 404 media_missing
handle_registry_error thumbnail_not_found = write_error 404 media_missing
handle_registry_error other = write_error 500 transfer_failed
