-- ===== src/Kmz/Extract.antt =====
-- `ExtractMission` of internal/kmz/extract.go: which entry of the archive the mission comes from.
pub mod Priority
use companion_mission_planne.Base.{
  ℕ, ◌≡◌, refl, ◌⊎◌, inl, inr, Bool, true, false, ◌||◌, Option, none, some, List, [], ◌∷◌, Text,
  text_Eq, codes, ltb, elem, has_suffix, to_lower, Result, ok, err, if◌then◌else◌,
}
use companion_mission_planne.Base.Table
use companion_mission_planne.Base.Table.{Table}
use companion_mission_planne.Kmz.Archive.{max_size}
use companion_mission_planne.Kmz.Mission.{
  Token, Mission, ParseError, syntax, no_waypoints, parse_kml,
}

-- A zip entry with the tokens of its content; `none` is the error of f.Open.
pub record KmlEntry : Type 0 where
  pub name : Text
  pub tokens : Option (List Token)

pub data ExtractError : Type 0 where
  too_large : ExtractError
  bad_archive : ExtractError
  parse_failed : Text → ExtractError
  nothing_found : ExtractError

-- What one candidate gives: a mission, an error that ends the search, or nothing.
pub data Tried (F : Type 0) : Type 0 where
  found : Mission F → Tried F
  failed : Tried F
  no_mission : Tried F

abbrev pub candidates : List Text
candidates = codes "wpmz/template.kml" ∷ codes "wpmz/waylines.wpml" ∷ []

index_entries : Table Text KmlEntry → List KmlEntry → Table Text KmlEntry
index_entries m [] = m
index_entries m (f ∷ files) = index_entries (Table.put f.name f m) files

pub Tried-cases :
    {F : Type 0} (t : Tried F) → ((m : Mission F) × (t ≡ found m)) ⊎ (t ≡ failed) ⊎ (t ≡ no_mission)
Tried-cases (found m) = inl (m, refl)
Tried-cases failed = inr (inl refl)
Tried-cases no_mission = inr (inr refl)

unfoldable pub is_kml_name : Text → Bool
unfolding has_suffix to_lower
is_kml_name name =
    has_suffix (to_lower name) (codes ".kml") || has_suffix (to_lower name) (codes ".wpml")

module _ {F : Type 0} (zero_float : F) (parse_float : Text → Option F) where
  -- `none` does not occur: the loop of parseKML has enough fuel.
  classify_parse : Text → Option (Result ParseError (Mission F)) → Tried F
  classify_parse name none = failed
  classify_parse name (some (ok m)) = found (record m { source = name })
  classify_parse name (some (err syntax)) = failed
  classify_parse name (some (err no_waypoints)) = no_mission

  -- parseKMLFromZip, the test for errNoWaypoints, and `m.Source = name`.
  unfoldable pub try_entry : KmlEntry → Tried F
  unfolding classify_parse parse_kml
  try_entry f = elim f.tokens [
    | none ↦ failed
    | some tokens ↦ classify_parse f.name (parse_kml zero_float parse_float tokens)
  ]

  -- The loop over the preferred names.
  unfoldable pub try_candidates :
      Table Text KmlEntry
      → List Text
      → Result ExtractError (Mission F)
      → Result ExtractError (Mission F)
  try_candidates by_name [] otherwise = otherwise
  try_candidates by_name (name ∷ names) otherwise =
      let rest = try_candidates by_name names otherwise in
      elim (Table.get name by_name) [
        | none ↦ rest
        | some f ↦ elim (try_entry f) [
          | found m ↦ ok m
          | failed ↦ err (parse_failed name)
          | no_mission ↦ rest
        ]
      ]

  -- The loop over the other entries.
  unfoldable pub try_others : List KmlEntry → Result ExtractError (Mission F)
  unfolding is_kml_name
  try_others [] = err nothing_found
  try_others (f ∷ files) =
      let rest = try_others files in
      if is_kml_name f.name
      then if elem f.name candidates then rest else elim (try_entry f) [
        | found m ↦ ok m
        | failed ↦ err (parse_failed f.name)
        | no_mission ↦ rest
      ]
      else rest

  unfoldable pub extract_mission : ℕ → Option (List KmlEntry) → Result ExtractError (Mission F)
  unfolding try_candidates try_others index_entries
  extract_mission size archive = if ltb max_size size then err too_large else elim archive [
    | none ↦ err bad_archive
    | some files ↦ try_candidates (index_entries [] files) candidates (try_others files)
  ]
