-- ===== src/Tests/Images.antt =====
-- A controller whose slot holds a mission of one waypoint, and the images drawn from it.
use companion_mission_planne.Base.{◌≡◌, refl, none, some, List, [], ◌∷◌, Text, codes, ok}
use companion_mission_planne.Base.Table
use companion_mission_planne.Kmz.Mission.{Token, start, end, chars, parse_coordinate}
use companion_mission_planne.Kmz.Extract.{KmlEntry, try_entry}
use companion_mission_planne.Device.Registry.{
  Controller, lookup, find_open_by_bus_dev, new_registry,
}
use companion_mission_planne.Device.Registry.Volumes.{scan_mass_storage}
use companion_mission_planne.Device.Registry.Refresh.{refresh}
use companion_mission_planne.Device.Service.{Methods, Service, refreshed}
use companion_mission_planne.Device.Service.Transfers.{Render}
use companion_mission_planne.Device.Service.Redraws.{Decoding, push_waypoint_images, pull_mission}
use companion_mission_planne.Device.Service.Redraws.Numbered.{
  IsPushed, push_waypoint_images-IsPushed,
}
use companion_mission_planne.Tests.Registry.{World, quiet, methods, service}

abbrev one_waypoint : List Token
one_waypoint =
    start (codes "Placemark")
    ∷ start (codes "coordinates")
    ∷ chars (codes "1,2,3")
    ∷ end (codes "coordinates")
    ∷ end (codes "Placemark")
    ∷ []

abbrev waylines : KmlEntry
waylines = record { name = codes "wpmz/waylines.wpml"; tokens = some one_waypoint }

-- Numbers stand for themselves as texts.
abbrev decoding : Decoding Text
decoding = record { unzip = λ t. some (waylines ∷ []); zero_float = []; parse_float = λ t. some t }

abbrev render : Render World Text
render = record {
  generate = λ w meta. (w, none);
  render_waypoint = λ w lat lng i actions. (codes "draw" ∷ w, some (codes "jpg"));
}

abbrev with_images : Methods World
with_images = record methods {
  kmz_reader = λ c. some (λ w guid. (codes "read" ∷ w, ok (codes "kmz")));
  image_writer = λ c. some (λ w guid images. (codes "images" ∷ w, ok tt));
}

abbrev pushed : Service World
pushed =
    (push_waypoint_images quiet with_images render decoding 7 (codes "S1") (codes "g") service).0

push_waypoint_images-IsPushed_example :
    (c : Controller) × (lookup (codes "S1") (refreshed quiet with_images service).registry ≡ some c)
    × IsPushed quiet with_images render decoding 7 c
        (codes "g")
        (refreshed quiet with_images service)
        pushed.world
        1
unfolding push_waypoint_images pull_mission lookup Table.get refresh scan_mass_storage
    find_open_by_bus_dev new_registry Table.put try_entry parse_coordinate
push_waypoint_images-IsPushed_example =
    push_waypoint_images-IsPushed quiet with_images render decoding 7 (codes "S1") (codes "g")
      service pushed 1 refl
