-- ===== src/Kmz/Mission.antt =====
-- internal/kmz/extract.go: the mission inside a KML or WPML entry.
-- encoding/xml is a parameter in the form of what it yields: the tokens of the entry in order, with
-- `bad` where the decoder reports a syntax error. Floating point numbers are an abstract type with
-- a parser, as strconv.ParseFloat; the model compares none and computes with none.
pub mod Totality
use companion_mission_planne.Base.{
  ℕ, zero, suc, Bool, true, false, not, ◌&&◌, ◌||◌, Option, none, some, List, [], ◌∷◌, ◌++◌, Text,
  text_Eq, text_eq, codes, nat_eq, elem, is_empty, length, trim_space, ℤ, pos, parse_int64, Result,
  ok, err, if◌then◌else◌, ◌==◌,
}

-- Local names only: the program never looks at a namespace.
pub data Token : Type 0 where
  start : Text → Token
  end : Text → Token
  chars : Text → Token
  bad : Token

pub data ParseError : Type 0 where
  syntax : ParseError
  no_waypoints : ParseError

-- strings.Split(s, ",")
add_byte : ℕ → List Text → List Text
add_byte c [] = (c ∷ []) ∷ []
add_byte c (s ∷ rest) = (c ∷ s) ∷ rest

unfoldable pub split_comma : Text → List Text
unfolding add_byte
split_comma [] = [] ∷ []
split_comma (c ∷ s) =
    let rest = split_comma s in if nat_eq c b',' then [] ∷ rest else add_byte c rest

-- dec.DecodeElement into a string: the character data directly inside the element, up to its end.
decode_from : ℕ → Text → List Token → Option (Text × List Token)
decode_from depth raw [] = none
decode_from zero raw (end name ∷ tokens) = some (raw, tokens)
decode_from (suc depth) raw (end name ∷ tokens) = decode_from depth raw tokens
decode_from depth raw (start name ∷ tokens) = decode_from (suc depth) raw tokens
decode_from zero raw (chars s ∷ tokens) = decode_from zero (raw ++ s) tokens
decode_from (suc depth) raw (chars s ∷ tokens) = decode_from (suc depth) raw tokens
decode_from depth raw (bad ∷ tokens) = none

unfoldable pub decode_element : List Token → Option (Text × List Token)
unfolding decode_from
decode_element tokens = decode_from zero [] tokens

-- parseUnixMillis
unfoldable pub parse_unix_millis : Text → Option ℤ
unfolding parse_int64 trim_space
parse_unix_millis raw = parse_int64 (trim_space raw)

-- A waypoint, over the type of the floating point numbers.
pub record Point (F : Type 0) : Type 0 where
  pub lat : F
  pub lng : F
  pub alt : F
  pub actions : List Text

pub record Mission (F : Type 0) : Type 0 where
  pub name : Text
  pub author : Text
  pub date : Option ℤ
  pub waypoints : List (Point F)
  pub source : Text

-- HasMeaningfulAction
unfoldable pub is_meaningful : Text → Bool
unfolding text_eq
is_meaningful a =
    text_eq a (codes "takePhoto")
    || text_eq a (codes "startRecord")
    || text_eq a (codes "stopRecord")
    || text_eq a (codes "hover")

has_meaningful : List Text → Bool
has_meaningful [] = false
has_meaningful (a ∷ actions) = is_meaningful a || has_meaningful actions

unfoldable pub has_meaningful_action : {F : Type 0} → Point F → Bool
unfolding has_meaningful is_meaningful
has_meaningful_action p = has_meaningful p.actions

-- The statement `last.Actions = append(last.Actions, v)` on the last waypoint.
add_action : {F : Type 0} → Text → List (Point F) → List (Point F)
add_action v [] = []
add_action v (p ∷ []) = record p { actions = p.actions ++ v ∷ [] } ∷ []
add_action v (p ∷ q ∷ points) = p ∷ add_action v (q ∷ points)

-- The stack of open elements, the innermost first.
in_placemark : List Text → Bool
in_placemark stack = elem (codes "Placemark") stack

parent_is_document : List Text → Bool
parent_is_document (name ∷ parent ∷ stack) = text_eq parent (codes "Document")
parent_is_document stack = false

pop : Text → List Text → List Text
unfolding text_eq
pop name [] = []
pop name (top ∷ stack) = if text_eq top name then stack else top ∷ stack

-- What the switch on the element's name does with a start element.
pub data Action : Type 0 where
  coordinates action author create_time doc_name skip : Action

-- The cases of the switch, with the guards under which each one skips the element.
unfoldable pub action_of : {F : Type 0} → List Text → Mission F → Text → Action
unfolding text_eq in_placemark parent_is_document
action_of stack m tag =
    if text_eq tag (codes "coordinates")
    then if in_placemark stack then coordinates else skip
    else if text_eq tag (codes "actionActuatorFunc")
    then if in_placemark stack && not (is_empty m.waypoints) then action else skip
    else if text_eq tag (codes "author")
    then author
    else if text_eq tag (codes "createTime")
    then create_time
    else if text_eq tag (codes "name")
    then if parent_is_document stack && is_empty m.name then doc_name else skip
    else skip

module _ {F : Type 0} (zero_float : F) (parse_float : Text → Option F) where
  alt_of : List Text → F
  alt_of [] = zero_float
  alt_of (part ∷ rest) = elim (parse_float (trim_space part)) [ none ↦ zero_float | some a ↦ a ]

  point_of : List Text → Option (Point F)
  point_of (first ∷ second ∷ rest) = elim (parse_float (trim_space first)) [
    | none ↦ none
    | some lng ↦ elim (parse_float (trim_space second)) [
      | none ↦ none
      | some lat ↦ some (record { lat = lat; lng = lng; alt = alt_of rest; actions = [] })
    ]
  ]
  point_of parts = none

  -- parseCoordinate: "lng,lat[,alt]"
  unfoldable pub parse_coordinate : Text → Option (Point F)
  unfolding split_comma trim_space point_of alt_of
  parse_coordinate raw = point_of (split_comma (trim_space raw))

  add_point : Mission F → Option (Point F) → Mission F
  add_point m none = m
  add_point m (some p) = record m { waypoints = m.waypoints ++ p ∷ [] }

  set_date : Mission F → Option ℤ → Mission F
  set_date m none = m
  set_date m (some ts) = record m { date = some ts }

  -- What the decoded text of an element does to the mission.
  record_text : Action → Text → Mission F → Mission F
  unfolding add_point set_date add_action parse_unix_millis trim_space
  record_text coordinates raw m = add_point m (parse_coordinate raw)
  record_text action raw m =
      let v = trim_space raw in
      if is_empty v then m else record m { waypoints = add_action v m.waypoints }
  record_text author raw m = record m { author = trim_space raw }
  record_text create_time raw m = set_date m (parse_unix_millis raw)
  record_text doc_name raw m = record m { name = trim_space raw }
  record_text skip raw m = m

  -- The token loop of parseKML. `none` means that the fuel ran out.
  unfoldable pub parse_loop :
      ℕ → List Text → Mission F → List Token → Option (Result ParseError (Mission F))
  unfolding action_of record_text decode_element pop
  parse_loop zero stack m tokens = none
  parse_loop (suc fuel) stack m [] = some (ok m)
  parse_loop (suc fuel) stack m (bad ∷ tokens) = some (err syntax)
  parse_loop (suc fuel) stack m (chars s ∷ tokens) = parse_loop fuel stack m tokens
  parse_loop (suc fuel) stack m (end tag ∷ tokens) = parse_loop fuel (pop tag stack) m tokens
  parse_loop (suc fuel) stack m (start tag ∷ tokens) = elim (action_of (tag ∷ stack) m tag) [
    | skip ↦ parse_loop fuel (tag ∷ stack) m tokens
    | a ↦ elim (decode_element tokens) [
      | none ↦ some (err syntax)
      | some (raw, rest) ↦ parse_loop fuel stack (record_text a raw m) rest
    ]
  ]

  abbrev pub empty_mission : Mission F
  empty_mission = record { name = []; author = []; date = none; waypoints = []; source = [] }

  require_waypoints : Mission F → Result ParseError (Mission F)
  require_waypoints m = if is_empty m.waypoints then err no_waypoints else ok m

  finish : Option (Result ParseError (Mission F)) → Option (Result ParseError (Mission F))
  unfolding require_waypoints
  finish none = none
  finish (some (err e)) = some (err e)
  finish (some (ok m)) = some (require_waypoints m)

  -- parseKML; the fuel is one round for each token and one for the end.
  unfoldable pub parse_kml : List Token → Option (Result ParseError (Mission F))
  unfolding parse_loop finish
  parse_kml tokens = finish (parse_loop (suc (length tokens)) [] empty_mission tokens)
