-- ===== src/Tests/Api.antt =====
-- Requests with and without the token, an upload, a preview of a video, and two sockets.
use companion_mission_planne.Base.{
  ℕ, ◌+◌, nat_Eq, ◌≡◌, ◌≢◌, refl, arith, ◌⊎◌, true, false, none, some, List, [], ◌∷◌, Text, text_Eq,
  text_eq, text_eq_iff, codes, is_empty, All, to_lower,
}
use companion_mission_planne.Base.Table
use companion_mission_planne.Api.{Response, nothing}
use companion_mission_planne.Api.Middleware.{Request, Handler, is_allowed, serve}
use companion_mission_planne.Api.Middleware.Guards.{
  IsAdmitted, serve-refuses, serve-visible, allow_origin,
}
use companion_mission_planne.Api.Filenames.{sanitize_filename, sanitize_filename-IsPlain, IsPlain}
use companion_mission_planne.Api.Events.{Event, Hub, new_hub, subscribe, broadcast}
use companion_mission_planne.Api.Events.Order.{
  IsFair, Reachable, Reachable-IsFair, first, next, subscribes, broadcast-Reachable,
}
use companion_mission_planne.Kmz.Archive.{Entry}
use companion_mission_planne.Device.Service.Transfers.{Metadata}
use companion_mission_planne.Device.Service.Redraws.{Decoding}
use companion_mission_planne.Device.Service.MediaRoutes.{read_video_preview}
use companion_mission_planne.Api.Transfer.{Form, Formats, Server, handle_transfer, send_transfer}
use companion_mission_planne.Api.Transfer.Checked.{IsChecked, IsRefusal, handle_transfer-IsChecked}
use companion_mission_planne.Api.Media.{Media, Os, device_dir, preview_file, cached_video_preview}
use companion_mission_planne.Api.Media.Cache.{IsWhole, cached_video_preview-IsWhole}
use companion_mission_planne.Tests.Registry.{
  World, quiet, methods, service, render, codec, faults, meta,
}

-- A handler that counts the requests that reach it.
abbrev mux : Handler ℕ
mux r s = (s + 1, record { status = 200; headers = []; body = nothing })

abbrev request : Request
request = record {
  method = codes "GET";
  path = codes "/api/devices";
  origin = codes "https://planner";
  kam_token = [];
  authorization = codes "Bearer guess";
  query_token = [];
}

abbrev origins : List Text
origins = codes "https://planner" ∷ []

serve-refuses_example :
    IsAdmitted (codes "secret") request
    ⊎ (((serve origins (codes "secret") mux request 0).0 ≡ 0)
        × (((serve origins (codes "secret") mux request 0).1.status ≡ 401)
            ⊎ ((request.method ≡ codes "OPTIONS")
                × ((serve origins (codes "secret") mux request 0).1.status ≡ 204))))
serve-refuses_example = serve-refuses origins (codes "secret") mux request 0 refl

serve-visible_example :
    Table.get allow_origin (serve origins (codes "secret") mux request 0).1.headers
    ≡ some (codes "https://planner")
unfolding is_allowed text_eq to_lower Table.has
serve-visible_example = serve-visible origins (codes "secret") mux request 0 refl refl refl

sanitize_filename-IsPlain_example :
    All IsPlain (sanitize_filename (codes "a/b"))
    × (is_empty (sanitize_filename (codes "a/b")) ≡ false)
sanitize_filename-IsPlain_example = sanitize_filename-IsPlain (codes "a/b")

-- Dots pass, so that the name of a parent folder is left as it is.
two_dots : sanitize_filename (codes "..") ≡ codes ".."
unfolding sanitize_filename
two_dots = refl

abbrev event : Event
event = record { kind = codes "device.connected"; device = codes "S1"; slot = []; at = 1 }

abbrev pub hub : Hub
hub = record { subs = (7, record { send = event ∷ []; written = []; offered = event ∷ [] }) ∷ [] }

hub-Reachable : Reachable hub
unfolding new_hub subscribe broadcast Table.get Table.put
hub-Reachable = broadcast-Reachable event (next first (subscribes 7 refl))

Reachable-IsFair_example : IsFair hub
Reachable-IsFair_example = Reachable-IsFair hub-Reachable

abbrev pub entry : Entry
entry = record {
  name = codes "wpmz/template.kml";
  method = 8;
  comment = [];
  modified_at = 0;
  external_attrs = 0;
  extra = [];
  content = some (codes "<kml/>");
}

abbrev pub formats : Formats ℕ
formats = record {
  read_zip = λ raw. some (entry ∷ []);
  write_zip = λ entries. codes "zip";
  unmarshal = λ t m. none;
}

abbrev pub form : Form
form = record {
  kmz = some (record { size = 3; content = some (codes "zip") });
  name = codes "Farm";
  preview_metadata = [];
  push_images = [];
}

abbrev pub decoding : Decoding ℕ
decoding = record { unzip = λ t. none; zero_float = 0; parse_float = λ t. none }

abbrev server : Server World
server = record { service = service; active_transfers = 0; hub = hub }

abbrev guid : Text
guid = codes "550E8400-E29B-41D4-A716-446655440000"

handle_transfer-IsChecked_example :
    ((r : Response) × IsRefusal r
      × (handle_transfer quiet methods render decoding codec faults formats true 5
            (codes "S1")
            guid
            meta
            (some form)
            server
          ≡ some (server, r)))
    ⊎ ((entries : List Entry) × (sent : Metadata ℕ) × IsChecked formats guid (some form) entries
        × (handle_transfer quiet methods render decoding codec faults formats true 5
              (codes "S1")
              guid
              meta
              (some form)
              server
            ≡ send_transfer quiet methods render decoding codec faults true 5
                (codes "S1")
                guid
                (some form)
                (formats.write_zip entries)
                sent
                server))
handle_transfer-IsChecked_example =
    handle_transfer-IsChecked quiet methods render decoding codec faults formats true 5 (codes "S1")
      guid meta (some form) server

abbrev os : Os
os = record {
  mkdir_fails = false;
  create_temp = some (codes "/tmp/kam-media-cache/S1/lrf-1.part");
  close_fails = false;
  rename_fails = false;
  ends_after = none;
}

abbrev media : Media World
media = record { service = service; files = []; temp = codes "/tmp" }

text_ne : (a b : Text) → text_eq a b ≡ false → a ≢ b
text_ne a b h e = absurd (ground (arith, h, (text_eq_iff a b).1 e))

other_name :
    codes "/tmp/kam-media-cache/S1/lrf-1.part"
    ≢ preview_file (codes "/tmp") (codes "S1") (codes "9")
unfolding device_dir sanitize_filename text_eq
other_name = text_ne _ _ refl

cached_video_preview-IsWhole_example :
    IsWhole
      (preview_file (codes "/tmp") (codes "S1") (codes "9"))
      []
      (read_video_preview methods (codes "S1") (codes "9") service).1
      (cached_video_preview methods os (codes "S1") (codes "9") media).0.files
      (cached_video_preview methods os (codes "S1") (codes "9") media).1
cached_video_preview-IsWhole_example =
    cached_video_preview-IsWhole methods os (codes "S1") (codes "9")
      (codes "/tmp/kam-media-cache/S1/lrf-1.part") media refl other_name
