-- ===== src/Tests/Kmz.antt =====
-- Concrete archives and token streams.
use mathlib.Core.List.{Memᴰ}
use companion_mission_planne.Base.{
  ◌≡◌, refl, ◌≤◌, true, false, Option, none, some, List, [], ◌∷◌, Text, text_Eq, text_eq, codes,
  map, All, arith, Result, ok, is_empty,
}
use companion_mission_planne.Base.Table
use companion_mission_planne.Kmz.Archive.{Entry, Info, max_size, inspect, safe_path}
use companion_mission_planne.Kmz.Archive.Safety.{inspect_safe, IsSafeName}
use companion_mission_planne.Kmz.Archive.Rewrite.{IsReadable}
use companion_mission_planne.Kmz.Mission.{
  Token, start, end, chars, Mission, ParseError, parse_kml, parse_coordinate,
}
use companion_mission_planne.Kmz.Mission.Totality.{parse_kml-returns}
use companion_mission_planne.Kmz.Extract.{KmlEntry, extract_mission, try_entry}
use companion_mission_planne.Kmz.Extract.Priority.{
  extract_order, extract_sound, Searches, search_list, ComesFrom,
}

abbrev some_guid : Text
some_guid = codes "0A1b2C3d-0000-4444-8888-0123456789aF"

abbrev kml : Entry
kml = record {
  name = codes "wpmz/template.kml";
  method = 8;
  comment = [];
  modified_at = 0;
  external_attrs = 0;
  extra = [];
  content = some (codes "<kml>x</kml>");
}

abbrev two_entries : List Entry
two_entries =
    kml
    ∷ record {
      name = codes "wpmz/res/preview.jpg";
      method = 0;
      comment = [];
      modified_at = 0;
      external_attrs = 0;
      extra = [];
      content = some (codes "jpg");
    }
    ∷ []

abbrev reported : Info
reported = record {
  name = [];
  description = [];
  waypoints = 0;
  has_preview = true;
  files = codes "wpmz/template.kml" ∷ codes "wpmz/res/preview.jpg" ∷ [];
}

inspect_safe_example :
    (500 ≤ max_size)
    × ((files : List Entry) × (some two_entries ≡ some files)
        × All (λ (f : Entry). IsSafeName f.name) files
        × (reported.files ≡ map (λ (f : Entry). f.name) files))
unfolding inspect
inspect_safe_example = inspect_safe 500 (some two_entries) reported refl

All-IsReadable : All IsReadable two_entries
unfolding safe_path
All-IsReadable = ((refl, (codes "<kml>x</kml>", refl)), ((refl, (codes "jpg", refl)), tt))

-- Numbers stand for themselves as texts.
abbrev read_text : Text → Option Text
read_text s = some s

abbrev one_point : List Token
one_point =
    start (codes "Placemark")
    ∷ start (codes "coordinates")
    ∷ chars (codes "1,2,3")
    ∷ end (codes "coordinates")
    ∷ end (codes "Placemark")
    ∷ []

parse_kml-returns_example :
    (r : Result ParseError (Mission Text)) × (parse_kml [] read_text one_point ≡ some r)
    × ((m : Mission Text) → r ≡ ok m → is_empty m.waypoints ≡ false)
parse_kml-returns_example = parse_kml-returns [] read_text one_point

abbrev waylines : KmlEntry
waylines = record { name = codes "wpmz/waylines.wpml"; tokens = some one_point }

abbrev kmz_files : List KmlEntry
kmz_files = record { name = codes "wpmz/template.kml"; tokens = some [] } ∷ waylines ∷ []

extract_order_example :
    Searches [] read_text
      (search_list [] read_text kmz_files)
      (extract_mission [] read_text 900 (some kmz_files))
extract_order_example = extract_order [] read_text 900 kmz_files (omega arith)

abbrev extracted : Mission Text
extracted = record {
  name = [];
  author = [];
  date = none;
  waypoints = record { lat = codes "2"; lng = codes "1"; alt = codes "3"; actions = [] } ∷ [];
  source = codes "wpmz/waylines.wpml";
}

extract_sound_example :
    (900 ≤ max_size) × ((f : KmlEntry) × Memᴰ f kmz_files × ComesFrom [] read_text extracted f)
unfolding extract_mission text_eq Table.get Table.put try_entry parse_coordinate
extract_sound_example = extract_sound [] read_text 900 kmz_files extracted refl
