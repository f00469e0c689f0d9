-- ===== src/Api/Transfer.antt =====
-- `handleTransfer` of internal/api/handlers.go, with the archive checks of internal/kmz and the
-- registry's transfer behind it. The multipart, zip and JSON readers are parameters; `none` as an
-- outcome is a panic.
pub mod Checked
pub mod Accepted
use companion_mission_planne.Base.{
  ℕ, suc, ◌+◌, ◌-◌, Bool, true, false, Option, none, some, List, [], ◌∷◌, Text, text_eq, codes,
  length, take, ltb, is_empty, equal_fold, trim_space, Result, ok, err, if◌then◌else◌,
}
use companion_mission_planne.Stores.Persist.{Codec, Faults}
use companion_mission_planne.Stores.Nested.{Nested}
use companion_mission_planne.Kmz.Guid.{is_valid_guid}
use companion_mission_planne.Kmz.Archive.{
  Entry, Archive, Info, KmzError, max_size, inspect, rewrite_for_guid,
}
use companion_mission_planne.Device.Registry.{Host}
use companion_mission_planne.Device.Service.{DeviceError, TransferResult, Methods, Service}
use companion_mission_planne.Device.Service.Transfers.{Metadata, Render, transfer_with_meta}
use companion_mission_planne.Device.Service.Redraws.{Decoding, push_waypoint_images}
use companion_mission_planne.Api.{
  bad_request, invalid_guid, kmz_too_large, kmz_invalid, transferred, Response, write_error,
  write_json, handle_registry_error,
}
use companion_mission_planne.Api.Events.{Event, Hub, broadcast}

-- The form field "kmz": the size in its header, and its content, `none` where it cannot be read.
pub record Upload : Type 0 where
  pub size : ℕ
  pub content : Option Text

-- The parsed form; a missing value is "".
pub record Form : Type 0 where
  pub kmz : Option Upload
  pub name : Text
  pub preview_metadata : Text
  pub push_images : Text

-- The readers and writers of archives, and json.Unmarshal into a metadata value.
pub record Formats (F : Type 0) : Type 0 where
  pub read_zip : Text → Archive
  pub write_zip : List Entry → Text
  pub unmarshal : Text → Metadata F → Option (Metadata F)

-- The state behind the handler: the registry, the counter of transfers in flight, and the sockets.
pub record Server (W : Type 0) : Type 0 where
  pub service : Service W
  pub active_transfers : ℕ
  pub hub : Hub

-- The limit on what is read of the upload.
abbrev pub limited : Text → Text
limited content = take (suc max_size) content

-- The metadata of the transfer; the name of the form stands in for an empty one.
unfoldable pub metadata_of : {F : Type 0} → Formats F → Form → Metadata F → Option (Metadata F)
metadata_of x form blank =
    if is_empty form.preview_metadata
    then some blank
    else elim (x.unmarshal form.preview_metadata blank) [
      | none ↦ none
      | some meta ↦ some (if is_empty meta.name then record meta { name = form.name } else meta)
    ]

-- Inspect, then RewriteForGUID, on what was read.
unfoldable pub rewrite_upload :
    {F : Type 0} → Formats F → Text → Text → Result KmzError (List Entry)
unfolding inspect rewrite_for_guid
rewrite_upload x guid raw = elim (inspect (length raw) (x.read_zip raw)) [
  | err e ↦ err e
  | ok info ↦ rewrite_for_guid (x.read_zip raw) guid
]

-- What the checks before the transfer give: an answer, or the KMZ to write with its metadata.
pub data Vetted (F : Type 0) : Type 0 where
  rejected : Response → Vetted F
  accepted : List Entry → Metadata F → Vetted F

unfoldable pub vet_metadata : {F : Type 0} → List Entry → Option (Metadata F) → Vetted F
unfolding write_error
vet_metadata entries none = rejected (write_error 400 bad_request)
vet_metadata entries (some meta) = accepted entries meta

unfoldable pub vet_archive : {F : Type 0} → Formats F → Form → Text → Metadata F → Text → Vetted F
unfolding rewrite_upload vet_metadata metadata_of write_error
vet_archive x form guid blank raw = elim (rewrite_upload x guid raw) [
  | err e ↦ rejected (write_error 400 kmz_invalid)
  | ok entries ↦ vet_metadata entries (metadata_of x form blank)
]

unfoldable pub vet_content : {F : Type 0} → Formats F → Form → Text → Metadata F → Upload → Vetted F
unfolding vet_archive write_error
vet_content x form guid blank upload =
    if ltb max_size upload.size
    then rejected (write_error 413 kmz_too_large)
    else elim upload.content [
      | none ↦ rejected (write_error 400 bad_request)
      | some content ↦
          if ltb max_size (length (limited content))
          then rejected (write_error 413 kmz_too_large)
          else vet_archive x form guid blank (limited content)
    ]

unfoldable pub vet_form : {F : Type 0} → Formats F → Text → Metadata F → Form → Vetted F
unfolding vet_content write_error
vet_form x guid blank form = elim form.kmz [
  | none ↦ rejected (write_error 400 bad_request)
  | some upload ↦ vet_content x form guid blank upload
]

-- The part of handleTransfer up to the counter. `now` is the date that the metadata starts with.
unfoldable pub vet : {F : Type 0} → Formats F → Text → Metadata F → Option Form → Vetted F
unfolding vet_form is_valid_guid write_error
vet x guid blank form =
    if is_valid_guid guid
    then elim form [
      | none ↦ rejected (write_error 400 bad_request)
      | some f ↦ vet_form x guid blank f
    ]
    else rejected (write_error 400 invalid_guid)

-- `pushWP`
unfoldable pub wants_images : Option Form → Bool
unfolding equal_fold trim_space
wants_images none = false
wants_images (some form) = equal_fold (trim_space form.push_images) (codes "true")

module _ {W F : Type 0} (h : Host W) (m : Methods W) (g : Render W F) (dec : Decoding F)
    (c : Codec (Nested Text)) (f : Faults) where
  -- The end of handleTransfer: the images, whose error is logged, then the event and the answer.
  -- `ts` is the time in milliseconds.
  unfoldable pub complete :
      ℕ → Text → Text → Option Form → TransferResult → Server W → Server W × Response
  unfolding wants_images write_json push_waypoint_images broadcast
  complete ts device guid form res sv =
      let s =
        if wants_images form
        then (push_waypoint_images h m g dec ts device guid sv.service).0
        else sv.service in
      let ev : Event = record {
        kind = codes "transfer.completed";
        device = device;
        slot = guid;
        at = ts;
      } in
      (record sv { service = s; hub = broadcast ev sv.hub }, write_json (transferred res))

  unfoldable pub replied :
      ℕ
      → Text
      → Text
      → Option Form
      → Server W
      → Option (Service W × Result DeviceError TransferResult)
      → Option (Server W × Response)
  unfolding complete handle_registry_error
  replied ts device guid form sv none = none
  replied ts device guid form sv (some (s, err e)) =
      some (record sv { service = s }, handle_registry_error e)
  replied ts device guid form sv (some (s, ok res)) =
      some (complete ts device guid form res (record sv { service = s }))

  -- The deferred Add(-1), which a panic runs as well.
  unfoldable pub lowered : Option (Server W × Response) → Option (Server W × Response)
  lowered none = none
  lowered (some (sv, r)) = some (record sv { active_transfers = sv.active_transfers - 1 }, r)

  -- From Add(1) on; `enabled` is previewEnabled.
  unfoldable pub send_transfer :
      Bool
      → ℕ
      → Text
      → Text
      → Option Form
      → Text
      → Metadata F
      → Server W
      → Option (Server W × Response)
  unfolding transfer_with_meta replied lowered
  send_transfer enabled ts device guid form kmz meta sv = lowered (
      replied ts device guid form (record sv { active_transfers = sv.active_transfers + 1 })
        (transfer_with_meta h m g c f enabled device guid kmz (some meta) sv.service))

  -- handleTransfer
  unfoldable pub handle_transfer :
      Formats F
      → Bool
      → ℕ
      → Text
      → Text
      → Metadata F
      → Option Form
      → Server W
      → Option (Server W × Response)
  unfolding vet send_transfer
  handle_transfer x enabled ts device guid blank form sv = elim (vet x guid blank form) [
    | rejected r ↦ some (sv, r)
    | accepted entries meta ↦
        send_transfer enabled ts device guid form (x.write_zip entries) meta sv
  ]
