-- ===== src/Device/Dispatch/Controllers.antt =====
-- The controllers of the three kinds behind the interfaces that the registry calls.
use companion_mission_planne.Base.{ℕ, Bool, Option, Text}
use companion_mission_planne.Base.Table.{Table}
use companion_mission_planne.Device.Mtp.{Transport}
use companion_mission_planne.Device.Adb.{Goadb}
use companion_mission_planne.Device.Service.{Methods}
use companion_mission_planne.Device.Dispatch.{World}
use companion_mission_planne.Device.Dispatch.Missions.{
  list_slots, read_preview, write_kmz, clear_slot, kmz_reader, preview_writer, image_writer,
}
use companion_mission_planne.Device.Dispatch.Media.{media_browser, local_media}

module _ {M A : Type 0} where
  unfoldable pub methods :
      Transport M
      → Goadb A
      → (Table Text ℕ → Text)
      → (Option Text → Option Text)
      → (Text → Bool)
      → Methods (World M A)
  methods t a json placeholder decodes = record {
    list_slots = list_slots t a;
    read_preview = read_preview t a;
    write_kmz = write_kmz t a;
    clear_slot = clear_slot t a placeholder;
    kmz_reader = kmz_reader t a;
    preview_writer = preview_writer t a;
    image_writer = image_writer t a json;
    media_browser = media_browser t decodes;
    local_media = local_media;
  }
