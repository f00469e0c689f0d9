-- ===== src/Api/Slots.antt =====
-- The slot handlers of internal/api/handlers.go, over the registry's calls. `none` as an outcome is a
-- panic of the handler. A body is what the JSON decoder made of it, `none` its error.
use companion_mission_planne.Base.{
  ℕ, Bool, true, false, Option, none, some, List, [], ◌∷◌, ◌++◌, Text, codes, map, length,
  trim_space, Result, ok, err, if◌then◌else◌,
}
use companion_mission_planne.Stores.Persist.{Codec, Faults}
use companion_mission_planne.Stores.Nested.{Nested}
use companion_mission_planne.Stores.SlotOrder.{Orders}
use companion_mission_planne.Kmz.Guid.{is_valid_guid}
use companion_mission_planne.Device.Mtp.Listing.{Slot}
use companion_mission_planne.Device.Registry.{Host}
use companion_mission_planne.Device.Service.{
  DeviceError, Methods, Service, list_slots, read_preview, refreshed,
}
use companion_mission_planne.Device.Service.Settings.{
  set_slot_name, set_slot_managed, set_slot_order,
}
use companion_mission_planne.Device.Service.Transfers.{Render, clear_slot}
use companion_mission_planne.Device.Service.Redraws.{
  Decoding, regenerate_preview, push_waypoint_images,
}
use companion_mission_planne.Api.{
  bad_request, internal_error, invalid_guid, Body, nothing, slots, cleared, named, flagged, counted,
  regenerated, bytes, Response, write_error, write_json, handle_registry_error,
}

abbrev Outcome : Type 0 → Type 0
Outcome W = Option (Service W × Response)

-- A reply of the registry, with the body of its success.
abbrev answer {ℓ} :
    {W : Type 0} {A : Type ℓ} → (A → Body) → Service W × Result DeviceError A → Service W × Response
answer body (s, err e) = (s, handle_registry_error e)
answer body (s, ok a) = (s, write_json (body a))

-- The same where every error is sent as an internal one.
abbrev answer_internal {ℓ} :
    {W : Type 0} {A : Type ℓ} → (A → Body) → Service W × Result DeviceError A → Service W × Response
answer_internal body (s, err e) = (s, write_error 500 internal_error)
answer_internal body (s, ok a) = (s, write_json (body a))

abbrev and_answer {ℓ κ} : {A : Type ℓ} {B : Type κ} → (A → B) → Option A → Option B
and_answer f none = none
and_answer f (some a) = some (f a)

-- The guard that the handlers of a slot start with.
unfoldable pub with_guid : {W : Type 0} → Text → Service W → Outcome W → Outcome W
unfolding is_valid_guid write_error
with_guid guid s rest = if is_valid_guid guid then rest else some (s, write_error 400 invalid_guid)

with_url : Text → Slot → Slot
with_url device s = record s {
  preview_url = codes "/api/devices/" ++ device ++ codes "/slots/" ++ s.guid ++ codes "/preview";
}

module _ {W F : Type 0} (h : Host W) (m : Methods W) (g : Render W F) (x : Decoding F) where
  -- handleListSlots
  unfoldable pub handle_list_slots : Text → Service W → Service W × Response
  unfolding list_slots with_url handle_registry_error write_json
  handle_list_slots device s =
      answer (λ found. slots device (map (with_url device) found)) (list_slots h m device s)

  image_response : Service W × Result DeviceError Text → Service W × Response
  unfolding handle_registry_error
  image_response (s, err e) = (s, handle_registry_error e)
  image_response (s, ok content) = (
    s,
    record {
      status = 200;
      headers =
          (codes "Content-Type", codes "image/jpeg")
          ∷ (codes "Cache-Control", codes "no-store")
          ∷ [];
      body = bytes content;
    },
  )

  -- handleReadPreview
  unfoldable pub handle_read_preview : Text → Text → Service W → Outcome W
  unfolding with_guid image_response read_preview
  handle_read_preview device guid s =
      with_guid guid s (some (image_response (read_preview h m device guid s)))

  -- handleRegeneratePreview
  unfoldable pub handle_regenerate_preview : Text → Text → Service W → Outcome W
  unfolding with_guid regenerate_preview handle_registry_error write_json
  handle_regenerate_preview device guid s = with_guid guid s (
      and_answer (answer (λ done. regenerated device guid))
        (regenerate_preview h m g x device guid s))

  -- handlePushWaypointImages
  unfoldable pub handle_push_waypoint_images : ℕ → Text → Text → Service W → Outcome W
  unfolding with_guid push_waypoint_images handle_registry_error write_json
  handle_push_waypoint_images ts device guid s =
      with_guid guid s
        (some (answer (λ n. counted device n) (push_waypoint_images h m g x ts device guid s)))

module _ {W : Type 0} (h : Host W) (m : Methods W) (f : Faults) where
  -- handleClearSlot
  unfoldable pub handle_clear_slot : Codec (Nested Text) → Text → Text → Service W → Outcome W
  unfolding with_guid clear_slot handle_registry_error write_json
  handle_clear_slot c device guid s =
      with_guid guid s
        (and_answer (answer (λ done. cleared guid)) (clear_slot h m c f device guid s))

-- The loop of handleSetSlotOrder over the GUIDs.
unfoldable pub are_valid : List Text → Bool
unfolding is_valid_guid
are_valid [] = true
are_valid (g ∷ order) = if is_valid_guid g then are_valid order else false

module _ {W : Type 0} (f : Faults) where
  store_name : Codec (Nested Text) → Text → Text → Text → Service W → Outcome W
  unfolding set_slot_name write_error write_json
  store_name c device guid name s =
      and_answer (answer_internal (λ done. named device guid name))
        (set_slot_name f c device guid name s)

  -- handleSetSlotName
  unfoldable pub handle_set_slot_name :
      Codec (Nested Text) → Text → Text → Option Text → Service W → Outcome W
  unfolding with_guid store_name trim_space
  handle_set_slot_name c device guid body s = with_guid guid s (elim body [
    | none ↦ some (s, write_error 400 bad_request)
    | some name ↦ store_name c device guid (trim_space name) s
  ])

  -- handleClearSlotName
  unfoldable pub handle_clear_slot_name : Codec (Nested Text) → Text → Text → Service W → Outcome W
  unfolding with_guid store_name
  handle_clear_slot_name c device guid s = with_guid guid s (store_name c device guid [] s)

  -- handleSetSlotManaged; a body without the field is refused too.
  unfoldable pub handle_set_slot_managed :
      Codec (Nested Bool) → Text → Text → Option (Option Bool) → Service W → Outcome W
  unfolding with_guid set_slot_managed write_error write_json
  handle_set_slot_managed c device guid body s = with_guid guid s (elim body [
    | none ↦ some (s, write_error 400 bad_request)
    | some none ↦ some (s, write_error 400 bad_request)
    | some (some val) ↦
        and_answer (answer_internal (λ done. flagged device guid val))
          (set_slot_managed f c device guid val s)
  ])

  -- handleSetSlotOrder
  unfoldable pub handle_set_slot_order :
      Codec Orders → Text → Option (List Text) → Service W → Outcome W
  unfolding are_valid set_slot_order write_error write_json
  handle_set_slot_order c device body s = elim body [
    | none ↦ some (s, write_error 400 bad_request)
    | some order ↦
        if are_valid order
        then and_answer (answer_internal (λ done. counted device (length order)))
            (set_slot_order f c device order s)
        else some (s, write_error 400 invalid_guid)
  ]

-- handleRefresh; Refresh returns no error.
unfoldable pub handle_refresh : {W : Type 0} → Host W → Methods W → Service W → Service W × Response
unfolding refreshed write_json
handle_refresh h m s = (refreshed h m s, write_json nothing)
