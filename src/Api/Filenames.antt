-- ===== src/Api/Filenames.antt =====
-- The names and ids of internal/api/handlers.go and handlers_media.go: `sanitizeFilename`,
-- `isObjectID` and `videoContentType`.
use mathlib.Core.List.{reverse, reverse-cons}
use companion_mission_planne.Base.{
  ℕ, ◌≡◌, refl, inl, inr, arith, Bool, true, false, not, ◌&&◌, ◌||◌, [], ◌∷◌, Text, text_eq, codes,
  to_lower, trim_left, trim_space, is_space, ext, leb, nat_eq, is_empty, All, All-append,
  if◌then◌else◌, Bool-cases,
}

-- The runes that sanitizeFilename lets pass.
abbrev pub is_plain : ℕ → Bool
is_plain c =
    leb b'a' c && leb c b'z'
    || leb b'A' c && leb c b'Z'
    || leb b'0' c && leb c b'9'
    || nat_eq c 32
    || nat_eq c b'-'
    || nat_eq c b'_'
    || nat_eq c b'.'

-- The loop, on the runes of the name.
unfoldable pub replace_runes : Text → Text
replace_runes [] = []
replace_runes (c ∷ name) = (if is_plain c then c else b'_') ∷ replace_runes name

-- sanitizeFilename
unfoldable pub sanitize_filename : Text → Text
unfolding replace_runes trim_space
sanitize_filename name =
    let out = trim_space (replace_runes name) in if is_empty out then codes "mission" else out

all_digits : Text → Bool
all_digits [] = true
all_digits (c ∷ s) = leb b'0' c && leb c b'9' && all_digits s

-- isObjectID
unfoldable pub is_object_id : Text → Bool
unfolding all_digits
is_object_id s = not (is_empty s) && all_digits s

-- videoContentType
unfoldable pub video_content_type : Text → Text
unfolding ext to_lower text_eq
video_content_type path =
    if text_eq (to_lower (ext path)) (codes ".mov")
    then codes "video/quicktime"
    else codes "video/mp4"

All-reverse {κ} : (P : ℕ → Type κ) (s : Text) → All P s → All P (reverse s)
All-reverse P [] h = tt
All-reverse P (c ∷ s) (p, h) =
    rw (reverse-cons c s) (All-append P (reverse s) (c ∷ []) (All-reverse P s h) (p, tt))

All-trim_left {κ} : (P : ℕ → Type κ) (s : Text) → All P s → All P (trim_left s)
unfolding trim_left
All-trim_left P [] h = tt
All-trim_left P (c ∷ s) (p, h) = elim (Bool-cases (is_space c)) [
  | inl e ↦ rw e (All-trim_left P s h)
  | inr e ↦ rw e (p, h)
]

All-trim_space {κ} : (P : ℕ → Type κ) (s : Text) → All P s → All P (trim_space s)
unfolding trim_space
All-trim_space P s h = All-reverse P _ (All-trim_left P _ (All-reverse P _ (All-trim_left P s h)))

-- A rune that is a letter, a digit, a space, or one of - _ and the full stop.
abbrev pub IsPlain : ℕ → Type 0
IsPlain c = is_plain c ≡ true

replace_runes-IsPlain : (name : Text) → All IsPlain (replace_runes name)
unfolding replace_runes
replace_runes-IsPlain [] = tt
replace_runes-IsPlain (c ∷ name) = (ground arith, replace_runes-IsPlain name)

-- A sanitized file name is never empty and has no rune outside letters, digits, space and the three
-- signs: no separator of paths, no quote and no control character of a header gets through.
pub sanitize_filename-IsPlain :
    (name : Text)
    → All IsPlain (sanitize_filename name) × (is_empty (sanitize_filename name) ≡ false)
unfolding sanitize_filename
sanitize_filename-IsPlain name =
    let plain = All-trim_space IsPlain (replace_runes name) (replace_runes-IsPlain name) in
    elim (Bool-cases (is_empty (trim_space (replace_runes name)))) [
      | inl e ↦ rw e (ground arith, refl)
      | inr e ↦ rw e (plain, e)
    ]
