-- ===== src/Device/Registry/Refresh.antt =====
-- `Refresh` and `controllerFor` of internal/device/detector.go. The goroutines that close stale
-- handles have exclusive ownership of them; each is run at the point where it is started.
mod Visits
pub mod Tracked
use companion_mission_planne.Base.{
  Bool, true, false, not, Option, none, some, List, [], ◌∷◌, Text, text_Eq, elem, is_empty,
  if◌then◌else◌,
}
use companion_mission_planne.Base.Table
use companion_mission_planne.Base.Table.{Table}
use companion_mission_planne.Device.Registry.{
  Handle, MtpController, is_device, AdbState, device, offline, unauthorized, unknown, AdbDevice,
  Controller, adb, mtp, storage, Registry, Host, find_open_by_bus_dev,
}
use companion_mission_planne.Device.Registry.Volumes.{scan_mass_storage}

-- The world, the registry and the identifiers `seen` while Refresh runs.
pub record Scan (W : Type 0) : Type 0 where
  pub world : W
  pub registry : Registry
  pub seen : List Text

unfoldable pub add_adb : List AdbDevice → Table Text Controller → Table Text Controller
add_adb [] m = m
add_adb (d ∷ devs) m = add_adb devs (Table.put d.serial (adb d) m)

-- `seen[id] = true; r.devices[id] = c`
unfoldable pub keep_device : {W : Type 0} → Text → MtpController × Scan W → Scan W
keep_device id (c, s) = record s {
  registry = record s.registry { devices = Table.put id (mtp c) s.registry.devices };
  seen = id ∷ s.seen;
}

module _ {W : Type 0} (h : Host W) where
  -- The ADB part: a list that fails is skipped.
  unfoldable pub list_adb : W → Registry → Registry
  unfolding add_adb
  list_adb w r = elim (h.adb_list w) [
    | none ↦ r
    | some devs ↦ if r.has_adb then record r { devices = add_adb devs r.devices } else r
  ]

  -- controllerFor
  unfoldable pub controller_for : Handle → Scan W → MtpController × Scan W
  controller_for d s = elim (Table.get d.identifier s.registry.mtp_controllers) [
    | some c ↦ (c, s)
    | none ↦
        let c : MtpController = record { handle = d } in
        (
          c,
          record s {
            world = h.kickoff_locate s.world c;
            registry = record s.registry {
              mtp_controllers = Table.put d.identifier c s.registry.mtp_controllers;
            };
          },
        )
  ]

  -- The end of the loop's body: Open, then the maps under the identifier that it gave.
  unfoldable pub open_device : Handle → Scan W → Scan W
  unfolding controller_for keep_device
  open_device md s =
      let (w, opened) = h.open_session s.world md in
      elim opened [
        | none ↦ record s { world = w }
        | some id ↦
            let d = record md { identifier = id } in
            keep_device id (
              controller_for d (record s {
                world = w;
                registry = record s.registry { open_mtp = Table.put id d s.registry.open_mtp };
              }))
      ]

  -- A handle that does not answer is closed and forgotten.
  unfoldable pub drop_handle : Handle → Scan W → Scan W
  drop_handle d s = record s {
    world = h.close s.world d;
    registry = record s.registry {
      open_mtp = Table.remove d.identifier s.registry.open_mtp;
      mtp_controllers = Table.remove d.identifier s.registry.mtp_controllers;
    };
  }

  unfoldable pub ping_or_reopen : Handle → Handle → Scan W → Scan W
  unfolding keep_device controller_for open_device drop_handle
  ping_or_reopen md existing s =
      if h.ping s.world existing
      then keep_device existing.identifier (controller_for existing s)
      else open_device md (drop_handle existing s)

  -- A handle that is open on the same bus and device number: no Ping while its walk runs.
  unfoldable pub reuse_handle : Handle → Handle → Scan W → Scan W
  unfolding keep_device ping_or_reopen
  reuse_handle md existing s = elim (Table.get existing.identifier s.registry.mtp_controllers) [
    | none ↦ ping_or_reopen md existing s
    | some c ↦
        if h.is_locating s.world c
        then keep_device existing.identifier (c, s)
        else ping_or_reopen md existing s
  ]

  -- The body of the loop over the listed MTP devices.
  unfoldable pub visit_device : Handle → Scan W → Scan W
  unfolding open_device reuse_handle
  visit_device md s = elim (find_open_by_bus_dev md.usb_bus md.usb_dev s.registry.open_mtp) [
    | none ↦ open_device md s
    | some existing ↦ reuse_handle md existing s
  ]

  unfoldable pub visit_devices : List Handle → Scan W → Scan W
  unfolding visit_device
  visit_devices [] s = s
  visit_devices (md ∷ devs) s = visit_devices devs (visit_device md s)

  -- A list that fails is empty.
  unfoldable pub listed : W → List Handle
  listed w = elim (h.mtp_list w) [ none ↦ [] | some devs ↦ devs ]

  -- The loop that closes the handles not seen: over the entries that openMTP has at its start.
  unfoldable pub close_stale : Table Text Handle → Scan W → Scan W
  close_stale [] s = s
  close_stale ((id, d) ∷ handles) s = close_stale handles (
      if elem id s.seen then s else record s {
        world = h.close s.world d;
        registry = record s.registry {
          open_mtp = Table.remove id s.registry.open_mtp;
          mtp_controllers = Table.remove id s.registry.mtp_controllers;
        };
      })

  -- adb.Device.Authorized, false on an error.
  unfoldable pub authorized : W → AdbDevice → Bool
  authorized w d = elim (h.raw_state w d.serial) [ none ↦ false | some st ↦ is_device st ]

  unfoldable pub is_shadow : W → Controller → Bool
  unfolding authorized
  is_shadow w (adb d) = not (authorized w d)
  is_shadow w (mtp c) = false
  is_shadow w (storage c) = false

  -- The loop that removes ADB entries which are not authorized.
  unfoldable pub hide_shadows : W → Table Text Controller → Table Text Controller
  unfolding is_shadow
  hide_shadows w [] = []
  hide_shadows w ((id, c) ∷ devices) =
      let rest = hide_shadows w devices in if is_shadow w c then rest else (id, c) ∷ rest

  unfoldable pub dedup : W → Registry → Registry
  unfolding hide_shadows
  dedup w r = if is_empty r.open_mtp then r else record r { devices = hide_shadows w r.devices }

  -- The MTP part.
  unfoldable pub refresh_mtp : W → Registry → W × Registry
  unfolding listed visit_devices close_stale dedup
  refresh_mtp w r =
      let s = visit_devices (listed w) (record { world = w; registry = r; seen = [] }) in
      let t = close_stale s.registry.open_mtp s in (t.world, dedup t.world t.registry)

  -- Refresh: the device map is built anew.
  unfoldable pub refresh : W → Registry → W × Registry
  unfolding list_adb refresh_mtp
  refresh w r =
      let (w', r') = refresh_mtp w (list_adb w (record r { devices = [] })) in
      scan_mass_storage h w' r'
