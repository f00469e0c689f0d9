-- ===== src/Kmz/Guid.antt =====
-- `guidRE` and `IsValidGUID` of internal/kmz/kmz.go, and `looksLikeGUID` of
-- internal/device/detector.go.
use companion_mission_planne.Base.{
  ℕ, zero, suc, ◌≤◌, ◌≡◌, refl, Bool, true, false, ◌&&◌, ◌||◌, List, [], ◌∷◌, arith, Text, is_digit,
  leb, nat_eq, length, All, if◌then◌else◌,
}

-- The two character classes of the pattern.
pub data Class : Type 0 where
  hex dash : Class

abbrev pub is_hex : ℕ → Bool
is_hex c = is_digit c || leb b'A' c && leb c b'F' || leb b'a' c && leb c b'f'

abbrev fits : Class → ℕ → Bool
fits hex c = is_hex c
fits dash c = nat_eq c b'-'

abbrev hexes : ℕ → List Class → List Class
hexes zero rest = rest
hexes (suc n) rest = hex ∷ hexes n rest

-- ^[0-9A-Fa-f]{8}-[0-9A-Fa-f]{4}-[0-9A-Fa-f]{4}-[0-9A-Fa-f]{4}-[0-9A-Fa-f]{12}$
abbrev guid_re : List Class
guid_re = hexes 8 (dash ∷ hexes 4 (dash ∷ hexes 4 (dash ∷ hexes 4 (dash ∷ hexes 12 []))))

-- The anchors make it a match of the whole text.
match_string : List Class → Text → Bool
match_string [] [] = true
match_string [] (c ∷ s) = false
match_string (p ∷ ps) [] = false
match_string (p ∷ ps) (c ∷ s) = fits p c && match_string ps s

unfoldable pub is_valid_guid : Text → Bool
unfolding match_string
is_valid_guid s = match_string guid_re s

-- strings.Count(s, "-")
unfoldable pub count_dashes : Text → ℕ
count_dashes [] = 0
count_dashes (c ∷ s) = let rest = count_dashes s in if nat_eq c b'-' then suc rest else rest

unfoldable pub looks_like_guid : Text → Bool
unfolding count_dashes
looks_like_guid s = if nat_eq (length s) 36 then nat_eq (count_dashes s) 4 else false

abbrev dashes_of : List Class → ℕ
dashes_of [] = 0
dashes_of (hex ∷ ps) = dashes_of ps
dashes_of (dash ∷ ps) = suc (dashes_of ps)

match-shape :
    (ps : List Class) (s : Text)
    → match_string ps s ≡ true
    → (length s ≡ length ps) × (count_dashes s ≡ dashes_of ps)
unfolding match_string count_dashes
match-shape [] [] h = (refl, refl)
match-shape [] (c ∷ s) h = absurd (cc)
match-shape (p ∷ ps) [] h = absurd (cc)
match-shape (hex ∷ ps) (c ∷ s) h = ground (arith, match-shape ps s)
match-shape (dash ∷ ps) (c ∷ s) h = ground (arith, match-shape ps s)

-- A byte of a GUID is a hexadecimal digit or a dash.
abbrev pub IsGuidByte : ℕ → Type 0
IsGuidByte c = (is_hex c || nat_eq c b'-') ≡ true

match-bytes : (ps : List Class) (s : Text) → match_string ps s ≡ true → All IsGuidByte s
unfolding match_string
match-bytes [] [] h = tt
match-bytes [] (c ∷ s) h = absurd (cc)
match-bytes (p ∷ ps) [] h = absurd (cc)
match-bytes (hex ∷ ps) (c ∷ s) h = (ground arith, match-bytes ps s (ground arith))
match-bytes (dash ∷ ps) (c ∷ s) h = (ground arith, match-bytes ps s (ground arith))

pub valid-bytes : (s : Text) → is_valid_guid s ≡ true → All IsGuidByte s
unfolding is_valid_guid
valid-bytes s h = match-bytes guid_re s h

pub valid-length : (s : Text) → is_valid_guid s ≡ true → length s ≡ 36
unfolding is_valid_guid
valid-length s h = (match-shape guid_re s h).0

-- Every GUID that the API accepts is one that the slot listings accept, and so it has the eight
-- bytes that a slot's default name takes.
valid-looks_like : (s : Text) → is_valid_guid s ≡ true → (looks_like_guid s ≡ true) × (8 ≤ length s)
unfolding is_valid_guid looks_like_guid
valid-looks_like s h =
    let shape = match-shape guid_re s h in (ground (arith, shape), omega (arith, shape))
