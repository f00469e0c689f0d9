-- ===== src/Device/Dispatch/Media.antt =====
-- The media browsers by the kind of the controller, and the files of a mounted volume.
use companion_mission_planne.Base.{Bool, Option, none, some, List, Text, Result, ok, err}
use companion_mission_planne.Device.Media.{MediaItem}
use companion_mission_planne.Device.MassStorage
use companion_mission_planne.Device.MassStorage.{
  FilePath, Volume, MediaError, not_opened, path_text,
}
use companion_mission_planne.Device.MassStorage.Reads
use companion_mission_planne.Device.MassStorage.Thumbnails
use companion_mission_planne.Device.Mtp.{Transport, MtpError}
use companion_mission_planne.Device.Mtp.Browse
use companion_mission_planne.Device.Mtp.Browse.Reads as MtpReads
use companion_mission_planne.Device.Mtp.Browse.{MediaIndex}
use companion_mission_planne.Device.Registry.{
  Controller, adb, mtp, storage, MtpController, StorageController,
}
use companion_mission_planne.Device.Service.{DeviceError, MediaBrowser}
use companion_mission_planne.Device.Dispatch.{
  from_mtp, from_storage, wrap, MtpState, CardState, World, put_mtp, put_card,
}

-- ListMedia of a mounted volume, which gives no error.
listed_media :
    MassStorage.Controller × List MediaItem
    → MassStorage.Controller × Result MediaError (List MediaItem)
listed_media (c, items) = (c, ok items)

path_of :
    MassStorage.Controller × Result MediaError FilePath
    → MassStorage.Controller × Result MediaError Text
path_of (c, err e) = (c, err e)
path_of (c, ok p) = (c, ok (path_text p))

module _ {M A : Type 0} where
  -- A call of a device's media browser, which may build its index.
  indexed :
      {R : Type 0}
      → MtpController
      → (MtpState M → MediaIndex × Result MtpError R)
      → World M A
      → World M A × Result DeviceError R
  unfolding put_mtp wrap
  indexed c f w =
      let x = w.mtp_at c.handle.ref in
      let (i, r) = f x in (put_mtp c.handle.ref (record x { index = i }) w, wrap from_mtp r)

  on_card :
      {R : Type 0}
      → StorageController
      → (CardState → MassStorage.Controller × Result MediaError R)
      → World M A
      → World M A × Result DeviceError R
  unfolding put_card wrap
  on_card s f w =
      let x = w.card_at s.id in
      let (c, r) = f x in (put_card s.id (record x { cache = c }) w, wrap from_storage r)

module _ {M A : Type 0} (t : Transport M) where
  -- The type assertion to MediaBrowser.
  unfoldable pub media_browser : (Text → Bool) → Controller → Option (MediaBrowser (World M A))
  unfolding indexed on_card listed_media
  media_browser decodes (adb d) = none
  media_browser decodes (mtp c) = some (record {
    list_media =
        λ w. indexed c (λ (x : MtpState M). Browse.list_media t x.located x.device x.index) w;
    read_media = λ w id.
        indexed c (λ (x : MtpState M). MtpReads.read_media t x.located x.device x.index id) w;
    read_thumbnail = λ w id.
        indexed c
          (λ (x : MtpState M). MtpReads.read_thumbnail t decodes x.located x.device x.index id) w;
    read_video_preview = λ w id.
        indexed c (λ (x : MtpState M). MtpReads.read_video_preview t x.located x.device x.index id)
          w;
  })
  media_browser decodes (storage s) = some (record {
    list_media = λ w.
        on_card s (λ (x : CardState). listed_media (MassStorage.list_media x.volume x.cache)) w;
    read_media = λ w id. on_card s (λ (x : CardState). Reads.read_media x.volume x.cache id) w;
    read_thumbnail =
        λ w id. on_card s (λ (x : CardState). Thumbnails.read_thumbnail x.volume x.cache id) w;
    read_video_preview =
        λ w id. on_card s (λ (x : CardState). Reads.read_video_preview x.volume x.cache id) w;
  })

module _ {M A : Type 0} where
  -- The type assertion to LocalMedia.
  unfoldable pub local_media :
      Controller → Option (World M A → Text → World M A × Result DeviceError Text)
  unfolding on_card path_of
  local_media (adb d) = none
  local_media (mtp c) = none
  local_media (storage s) =
      some λ w id.
        on_card s (λ (x : CardState). path_of (Reads.preview_file_path x.volume x.cache id)) w
