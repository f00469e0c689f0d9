-- ===== src/Device/Service/MediaRoutes.antt =====
-- The media calls on the registry of internal/device/detector.go.
use companion_mission_planne.Base.{none, some, List, Text, Result, err}
use companion_mission_planne.Device.Media.{MediaItem}
use companion_mission_planne.Device.Registry.{Host, lookup}
use companion_mission_planne.Device.Service.{
  DeviceError, unknown_device, media_unavailable, MediaBrowser, Methods, Service, refreshed,
}

module _ {W : Type 0} (m : Methods W) where
  -- Lookup and the assertion on MediaBrowser that the media calls start with; `call` is the method.
  unfoldable pub with_browser {ℓ} :
      {A : Type ℓ}
      → Text
      → (MediaBrowser W → W → W × Result DeviceError A)
      → Service W
      → Service W × Result DeviceError A
  with_browser device call s = elim (lookup device s.registry) [
    | none ↦ (s, err unknown_device)
    | some c ↦ elim (m.media_browser c) [
      | none ↦ (s, err media_unavailable)
      | some b ↦ let (w, r) = call b s.world in (record s { world = w }, r)
    ]
  ]

  -- ReadMedia
  unfoldable pub read_media : Text → Text → Service W → Service W × Result DeviceError (Text × Text)
  unfolding with_browser
  read_media device id = with_browser device (λ b w. b.read_media w id)

  -- ReadMediaThumbnail
  unfoldable pub read_media_thumbnail :
      Text → Text → Service W → Service W × Result DeviceError Text
  unfolding with_browser
  read_media_thumbnail device id = with_browser device (λ b w. b.read_thumbnail w id)

  -- ReadVideoPreview
  unfoldable pub read_video_preview :
      Text → Text → Service W → Service W × Result DeviceError (Text × Text)
  unfolding with_browser
  read_video_preview device id = with_browser device (λ b w. b.read_video_preview w id)

  -- MediaPreviewPath
  unfoldable pub media_preview_path : Text → Text → Service W → Service W × Result DeviceError Text
  media_preview_path device id s = elim (lookup device s.registry) [
    | none ↦ (s, err unknown_device)
    | some c ↦ elim (m.local_media c) [
      | none ↦ (s, err media_unavailable)
      | some path_of ↦ let (w, r) = path_of s.world id in (record s { world = w }, r)
    ]
  ]

  -- ListMedia
  unfoldable pub list_media :
      Host W → Text → Service W → Service W × Result DeviceError (List MediaItem)
  unfolding with_browser refreshed
  list_media h device s = with_browser device (λ b w. b.list_media w) (refreshed h m s)
