-- ===== src/Device/Registry/Hotplug.antt =====
-- The events of internal/device/detector.go: the pollers behind `Watch`, the translation of what adb
-- reports, and the internal bus. A tick that is cut short by the end of the context is left out.
pub mod Tracks
use companion_mission_planne.Base.{
  ℕ, Bool, true, false, ◌&&◌, not, Option, none, some, List, [], ◌∷◌, ◌++◌, Text, text_Eq, elem,
  length, ltb, map, nat_eq, if◌then◌else◌,
}
use companion_mission_planne.Blockdev.{UsbVolume}
use companion_mission_planne.Device.Registry.{
  Handle, is_device, AdbState, device, offline, unauthorized, unknown,
}

-- The values of Event.Type.
pub data EventType : Type 0 where
  connected disconnected authorized refused state_change refreshed : EventType

-- Event; the times are counted from 1, and 0 is the zero time.
pub record Event : Type 0 where
  pub kind : EventType
  pub device_id : Text
  pub at : ℕ

-- `curr[id] = struct{}{}` for each listed id.
unfoldable pub id_set : List Text → List Text
id_set [] = []
id_set (id ∷ ids) = let rest = id_set ids in if elem id rest then rest else id ∷ rest

-- The loops over `prev` and `curr` that send an event for each id that the other set lacks.
unfoldable pub differing : EventType → ℕ → List Text → List Text → List Event
differing kind now [] other = []
differing kind now (id ∷ ids) other =
    let rest = differing kind now ids other in
    if elem id other then rest else record { kind = kind; device_id = id; at = now } ∷ rest

-- One tick on the ids that the scan gave: the next `prev` and what is sent. A scan that fails
-- changes nothing.
unfoldable pub poll_tick : ℕ → Option (List Text) → List Text → List Text × List Event
unfolding id_set differing
poll_tick now none prev = (prev, [])
poll_tick now (some ids) prev =
    let curr = id_set ids in
    (curr, differing disconnected now prev curr ++ differing connected now curr prev)

-- The loop of a poller, from the set `prev`, over the ticks with their scans.
unfoldable pub poll_loop : List (ℕ × Option (List Text)) → List Text → List Text × List Event
unfolding poll_tick
poll_loop [] prev = (prev, [])
poll_loop ((now, scanned) ∷ ticks) prev =
    let (curr, sent) = poll_tick now scanned prev in
    let (last, later) = poll_loop ticks curr in (last, sent ++ later)

identifiers : Option (List Handle) → Option (List Text)
identifiers none = none
identifiers (some devs) = some (map (λ (d : Handle). d.identifier) devs)

volume_ids : Option (List UsbVolume) → Option (List Text)
volume_ids none = none
volume_ids (some vols) = some (map (λ (v : UsbVolume). v.id) vols)

-- pollMTPHotplug
unfoldable pub poll_mtp_hotplug : List (ℕ × Option (List Handle)) → List Event
unfolding poll_loop identifiers
poll_mtp_hotplug ticks =
    (poll_loop (map (λ (t : ℕ × Option (List Handle)). (t.0, identifiers t.1)) ticks) []).1

-- pollBlockHotplug
unfoldable pub poll_block_hotplug : List (ℕ × Option (List UsbVolume)) → List Event
unfolding poll_loop volume_ids
poll_block_hotplug ticks =
    (poll_loop (map (λ (t : ℕ × Option (List UsbVolume)). (t.0, volume_ids t.1)) ticks) []).1

-- The states of goadb.
pub data RawState : Type 0 where
  raw_online raw_offline raw_disconnected raw_unauthorized raw_other : RawState

-- mapState
unfoldable pub map_state : RawState → AdbState
map_state raw_online = device
map_state raw_offline = offline
map_state raw_disconnected = offline
map_state raw_unauthorized = unauthorized
map_state raw_other = unknown

-- adb.StateChange
pub record StateChange : Type 0 where
  pub serial : Text
  pub previous : AdbState
  pub current : AdbState

abbrev is_unauthorized : AdbState → Bool
is_unauthorized unauthorized = true
is_unauthorized device = false
is_unauthorized offline = false
is_unauthorized unknown = false

-- The switch of translateStateChange, its cases in the order of the source.
unfoldable pub event_type : StateChange → EventType
event_type ev =
    if is_device ev.current && not (is_device ev.previous)
    then connected
    else if not (is_device ev.current) && is_device ev.previous
    then disconnected
    else if is_unauthorized ev.current
    then refused
    else if is_device ev.current && is_unauthorized ev.previous
    then authorized
    else state_change

-- translateStateChange
unfoldable pub translate_state_change : ℕ → StateChange → Event
unfolding event_type
translate_state_change now ev = record { kind = event_type ev; device_id = ev.serial; at = now }

-- The capacity of eventBus.
abbrev pub bus_capacity : ℕ
bus_capacity = 64

-- emit: the zero time is replaced, and an event that finds the bus full is dropped.
unfoldable pub emit : ℕ → Event → List Event → List Event
emit now ev bus =
    let stamped = if nat_eq ev.at 0 then record ev { at = now } else ev in
    if ltb (length bus) bus_capacity then bus ++ stamped ∷ [] else bus
