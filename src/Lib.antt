-- ===== src/Lib.antt =====
-- A model of kam-transfer, the daemon that moves DJI missions and media between a planner and the
-- devices that are plugged in, in Go.
--
-- The program. An HTTP server (internal/api) calls a registry of devices (internal/device/detector.go),
-- which routes each request to the controller of one device: an MTP device
-- (internal/device/mtp_controller.go over internal/mtp), a mounted volume
-- (internal/device/massstorage_controller.go) or an ADB device. Mission files are KMZ archives
-- (internal/kmz). Three small stores beside them keep what the user set: the names of slots
-- (internal/names), the slots that are not managed (internal/managed) and their order
-- (internal/slotorder).
--
-- The files.
--   Base: shared names. Base/Tests has Boolean tests and equality, Base/Lists lists over native numbers,
--     Base/Texts strings as lists of bytes, Base/Numbers the decimal numbers of strconv, Base/Table Go's
--     maps as association lists, Base/Sorting the stable sort by a falling number, Base/Results results.
--   Stores: Persist is the file handling of the three stores (New and flushLocked), Nested their map of
--     maps; Names, Managed and SlotOrder are internal/names/store.go, internal/managed/store.go and
--     internal/slotorder/store.go; Reorder is slotorder.Reorder. A store is a record of its path and
--     its map, with `none` for Go's nil map; an operation takes the disk and what the operating system
--     refuses, and returns the new store and disk. `none` as an operation's result is a panic.
--   Kmz: Guid is guidRE, IsValidGUID and looksLikeGUID; Archive is Inspect, safePath, RewriteForGUID and
--     isTextEntry of internal/kmz/kmz.go; Mission and Extract are parseKML and ExtractMission of
--     internal/kmz/extract.go.
--   Device: Media is mediaKind, parseObjectID, proxyKey and MediaItem; Exif is internal/device/exif.go;
--     MassStorage is internal/device/massstorage_controller.go, with extractPoster of
--     internal/device/poster.go as a parameter; Mtp is internal/device/mtp_controller.go: Mtp itself has
--     the handle and the lookups, Classify the walk that tells a controller from a camera, Locate its
--     goroutines, Listing the slots, Missions the files of a slot, Browse the media.
--     Registry is the registry of internal/device/detector.go: its maps, Registry/Volumes the mounting
--     and probing of cards (scanMassStorage), Registry/Refresh the function Refresh, Registry/Hotplug the
--     pollers, the translation of adb's events and the bus. Service is what the API calls on it: the slot
--     listing and the side stores, Service/Transfers what writes a mission or empties a slot,
--     Service/Redraws what draws images from a mission, Service/MediaRoutes the media calls.
--     Dispatch is what a call on the registry reaches: the controllers of the three kinds behind the
--     interfaces of controller.go, on a world in which every device has a state.
--     Adb is adbController over the device of internal/adb, Adb/Paths the PathsFor of slots.go.
--   Api: internal/api. Middleware is authMiddleware and corsMiddleware, composed as Run does; Slots,
--     Transfer, Media and Downloads are the handlers of handlers.go and handlers_media.go with the cache
--     of video previews; Delivery composes an upload with a download; Events is the event socket; Filenames has sanitizeFilename and isObjectID.
--   Libmtp: internal/mtp/client_linux.go. Libmtp itself has the listings and the small calls, Spool the
--     copies through temporary files and the handle as the record of operations that Device.Mtp takes,
--     Opening the listing and opening of devices with releaseGVFS.
--   Blockdev: parseLsblk of internal/blockdev/blockdev_linux.go, which finds the volumes to mount.
--   Display: internal/display. Panel is `loop` of display.go, one function for each case of its select,
--     on a record of its variables and of what the hardware was told last; Status has the choices that
--     the screen shows; ServiceLog is the log buffer of servicelog.go; Buttons is pollButtons of
--     hat_linux.go; Rgb565 is toRGB565 of st7789_linux.go; Lines and Pages have what render.go does
--     with text, and Pages the registers of pisugar.go; Splash is the loop of splash.go.
--   Tests: the theorems at concrete inputs, and devices kept in memory that keep the promises of
--     MTP and of adb.
--
-- Parameters. The zip and XML readers are the entries and tokens that they yield; encoding/json is a
-- pair of functions; floating point numbers are an abstract type with a parser; the JPEG decoder, ffmpeg
-- and PlaceholderKMZ are functions. What the registry asks of adb, libmtp and the kernel is a record of
-- operations over a type of states of the world (Device.Registry.Host), the methods of a device are one
-- (Device.Service.Methods), and so is the drawing of images (Device.Service.Transfers.Render). The calls
-- of goadb and of libmtp are records of operations over a type of device states (Device.Adb.Goadb and
-- Device.Mtp.Transport, which Libmtp.Spool fills from the calls of libmtp itself), and what the theorems
-- need of them is Device.Adb.Listed.IsAdb and Device.Mtp.Missions.RoundTrip.IsMtp.
--
-- Choices. Strings are bytes and case mapping is that of ASCII. A time is a number of ticks with 0 for
-- Go's zero time. An error keeps its sentinel and loses its text. What a mutex guards is one step, but not what
-- subsMu guards for reading only: each send of a broadcast is a step. Of the header of a zip entry the
-- fields are modelled that an author sets. The
-- token loop of parseKML runs on fuel, one round for each token and one for the end: every round takes
-- a token. Decimal digits are printed on fuel above the number, which each round divides by ten;
-- collectFiles has the nine levels of folders that mediaScanMaxDepth allows. Object numbers have 32 bits.
--
-- The registry and the API. A map of the registry is an association list, whose order stands for one
-- order in which Go may visit it. A handle bears the number of its allocation, so that a handle that was
-- opened again differs from the old one. The goroutines that close stale handles run at the point where
-- they are started. `none` as the outcome of a call is a panic. A handler takes the path parameters and
-- what the library has parsed, and returns the new state and the status, headers and body.
--
-- Not modelled: the router of net/http and the handlers that only report (handleSystem, handleHealth,
-- handleListDevices, handleInspectKMZ in internal/api/handlers.go); the connection to adb
-- (internal/adb/transport.go) and the walk of a tree for research (internal/device/probe.go); the
-- drawing, the drivers and the host telemetry of the panel (internal/display); running lsblk; the drawing
-- of preview images (internal/preview); the memory that the bindings hand to libmtp; the placeholder's XML; configuration and the programs' wiring.
pub mod Base
pub mod Stores
pub mod Kmz
pub mod Device
pub mod Api
pub mod Libmtp
pub mod Blockdev
pub mod Display
pub mod Tests
