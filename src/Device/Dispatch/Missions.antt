-- ===== src/Device/Dispatch/Missions.antt =====
-- The calls on the slots, by the kind of the controller: a USB volume refuses them.
use companion_mission_planne.Base.{ℕ, Option, none, some, List, Text, Result, ok, err}
use companion_mission_planne.Base.Table.{Table}
use companion_mission_planne.Device.Mtp.{Transport, MtpError}
use companion_mission_planne.Device.Mtp.Listing
use companion_mission_planne.Device.Mtp.Listing.{Slot}
use companion_mission_planne.Device.Mtp.Missions
use companion_mission_planne.Device.Mtp.Missions.{WaypointImage}
use companion_mission_planne.Device.Adb
use companion_mission_planne.Device.Adb.{Goadb}
use companion_mission_planne.Device.Registry.{Controller, adb, mtp, storage, MtpController}
use companion_mission_planne.Device.Service.{DeviceError, preview_not_found, other, TransferResult}
use companion_mission_planne.Device.Dispatch.{from_mtp, wrap, MtpState, World, put_mtp, put_adb}

done : Result DeviceError ℕ → Result DeviceError (Unit {0})
done (ok n) = ok tt
done (err e) = err e

unfoldable pub transferred_to : Text → Result DeviceError ℕ → Result DeviceError TransferResult
transferred_to guid (ok n) = ok (record { guid = guid; file_size = n })
transferred_to guid (err e) = err e

module _ {M A : Type 0} (t : Transport M) (a : Goadb A) where
  -- ListSlots
  unfoldable pub list_slots : Controller → World M A → World M A × Result DeviceError (List Slot)
  unfolding wrap
  list_slots (adb d) w = (w, Adb.list_slots a (w.adb_at d.serial))
  list_slots (mtp c) w =
      let x = w.mtp_at c.handle.ref in (w, wrap from_mtp (Listing.list_slots t x.located x.device))
  list_slots (storage s) w = (w, err other)

  -- ReadPreview
  unfoldable pub read_preview : Controller → World M A → Text → World M A × Result DeviceError Text
  unfolding wrap
  read_preview (adb d) w guid = (w, Adb.read_preview a (w.adb_at d.serial) guid)
  read_preview (mtp c) w guid =
      let x = w.mtp_at c.handle.ref in
      (w, wrap from_mtp (Missions.read_preview t x.located x.device guid))
  read_preview (storage s) w guid = (w, err preview_not_found)

  -- A change of a device behind MTP, with the error or the size that it gives.
  unfoldable pub on_mtp :
      MtpController
      → (MtpState M → M × Result MtpError ℕ)
      → World M A
      → World M A × Result DeviceError ℕ
  unfolding put_mtp wrap
  on_mtp c f w =
      let x = w.mtp_at c.handle.ref in
      let (d, r) = f x in (put_mtp c.handle.ref (record x { device = d }) w, wrap from_mtp r)

  -- WriteKMZ
  unfoldable pub write_kmz :
      Controller → World M A → Text → Text → World M A × Result DeviceError TransferResult
  unfolding on_mtp put_adb transferred_to
  write_kmz (adb d) w guid kmz =
      let (x, r) = Adb.write_kmz a (w.adb_at d.serial) guid kmz in (put_adb d.serial x w, r)
  write_kmz (mtp c) w guid kmz =
      let (w', r) =
        on_mtp c (λ (x : MtpState M). Missions.write_kmz t x.located x.device guid (some kmz)) w in
      (w', transferred_to guid r)
  write_kmz (storage s) w guid kmz = (w, err other)

  -- ClearSlot
  unfoldable pub clear_slot :
      (Option Text → Option Text)
      → Controller
      → World M A
      → Text
      → World M A × Result DeviceError (Unit {0})
  unfolding on_mtp put_adb done
  clear_slot placeholder (adb d) w guid =
      let (x, r) = Adb.clear_slot a (w.adb_at d.serial) guid in (put_adb d.serial x w, r)
  clear_slot placeholder (mtp c) w guid =
      let (w', r) =
        on_mtp c (λ (x : MtpState M). Missions.clear_slot t placeholder x.located x.device guid)
          w in
      (w', done r)
  clear_slot placeholder (storage s) w guid = (w, err other)

  -- The type assertion to KMZReader.
  unfoldable pub kmz_reader :
      Controller → Option (World M A → Text → World M A × Result DeviceError Text)
  unfolding wrap
  kmz_reader (adb d) = none
  kmz_reader (mtp c) = some λ w guid.
      let x = w.mtp_at c.handle.ref in
      (w, wrap from_mtp (Missions.read_kmz t x.located x.device guid))
  kmz_reader (storage s) = none

  -- The type assertion to PreviewWriter.
  unfoldable pub preview_writer :
      Controller → Option (World M A → Text → Text → World M A × Result DeviceError (Unit {0}))
  unfolding on_mtp put_adb done
  preview_writer (adb d) = some λ w guid jpg.
      let (x, r) = Adb.write_preview a (w.adb_at d.serial) guid jpg in (put_adb d.serial x w, r)
  preview_writer (mtp c) = some λ w guid jpg.
      let (w', r) =
        on_mtp c (λ (x : MtpState M). Missions.write_preview t x.located x.device guid (some jpg))
          w in
      (w', done r)
  preview_writer (storage s) = none

  -- The type assertion to WaypointImageWriter.
  unfoldable pub image_writer :
      (Table Text ℕ → Text)
      → Controller
      → Option (World M A → Text → List WaypointImage → World M A × Result DeviceError (Unit {0}))
  unfolding on_mtp done
  image_writer json (adb d) = none
  image_writer json (mtp c) = some λ w guid images.
      let (w', r) =
        on_mtp c
          (λ (x : MtpState M). Missions.write_waypoint_images t json x.located x.device guid images)
          w in
      (w', done r)
  image_writer json (storage s) = none
