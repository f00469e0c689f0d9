-- ===== src/Display/Lines.antt =====
-- The text of the pages, after internal/display/render.go: wrapping and shortening to a width, the
-- rows of the page of logs, and the words of a page. A string is a list of runes; `fits` is whether
-- the width that the font measures is within the bound.
pub mod Wrapped
use mathlib.Core.List.{reverse}
use companion_mission_planne.Base.{
  ℕ, zero, suc, ◌+◌, ◌-◌, ◌*◌, ◌/◌, ◌%◌, Bool, true, false, ◌||◌, List, [], ◌∷◌, ◌++◌, Text, codes,
  to_upper, format_uint, is_empty, nat_eq, leb, ltb, length, drop, if◌then◌else◌,
}
use companion_mission_planne.Display.Status.{ControllerStatus}

extend_word : ℕ → List Text → List Text
extend_word c [] = (c ∷ []) ∷ []
extend_word c (w ∷ words) = (c ∷ w) ∷ words

-- strings.Split(s, " ")
unfoldable pub split_words : Text → List Text
unfolding extend_word
split_words [] = [] ∷ []
split_words (c ∷ s) =
    let rest = split_words s in if nat_eq c b' ' then [] ∷ rest else extend_word c rest

-- A word behind the row so far.
unfoldable pub joined : Text → Text → Text
joined [] word = word
joined (c ∷ cur) word = (c ∷ cur) ++ b' ' ∷ word

-- The row that is committed before a word that overflows.
unfoldable pub commit : Text → List Text
commit [] = []
commit (c ∷ cur) = (c ∷ cur) ∷ []

-- The rune that stands for what was cut.
abbrev pub ellipsis : Text
ellipsis = 0x2026 ∷ []

-- A row of the page of logs: a continuation is indented, and the newest entry is brightest.
pub record LogRow : Type 0 where
  pub text : Text
  pub continued : Bool
  pub newest : Bool

-- The rows of 15 pixels below the header, which takes 38 of 240.
abbrev pub max_rows : ℕ
max_rows = (240 - 38) / 15

module _ (fits : Text → Bool) where
  -- The loop over the runes of a token that does not fit: the rows that are full, and the last one.
  unfoldable pub break_word : Text → Text → List Text × Text
  break_word chunk [] = ([], chunk)
  break_word chunk (r ∷ word) =
      let longer = break_word (chunk ++ r ∷ []) word in
      let (rows, last) = break_word (r ∷ []) word in
      if fits (chunk ++ r ∷ []) || is_empty chunk then longer else (chunk ∷ rows, last)

  -- The loop over the words: the rows that are full, and the last one.
  unfoldable pub wrap_words : Text → List Text → List Text
  unfolding joined break_word commit
  wrap_words cur [] = cur ∷ []
  wrap_words cur (word ∷ words) =
      let kept = wrap_words (joined cur word) words in
      let fresh = wrap_words word words in
      let (rows, last) = break_word [] word in
      let broken = rows ++ wrap_words last words in
      if fits (joined cur word) then kept else commit cur ++ (if fits word then fresh else broken)

  -- wrapToWidth
  unfoldable pub wrap_to_width : Text → List Text
  unfolding wrap_words split_words
  wrap_to_width s = wrap_words [] (split_words s)

  -- The loop of truncateToWidth over the runes, the last one first.
  unfoldable pub shorten : Text → Text
  shorten [] = ellipsis
  shorten (c ∷ []) = ellipsis
  shorten (c ∷ d ∷ r) =
      let rest = shorten (d ∷ r) in
      let cut = reverse (d ∷ r) ++ ellipsis in if fits cut then cut else rest

  -- truncateToWidth
  unfoldable pub truncate_to_width : Text → Text
  unfolding shorten
  truncate_to_width s = if fits s then s else shorten (reverse s)

  -- The rows of an entry of the log: the first one, and its continuations.
  unfoldable pub entry_rows : Bool → Bool → List Text → List LogRow
  entry_rows newest continued [] = []
  entry_rows newest continued (row ∷ rows) =
      record { text = row; continued = continued; newest = newest } ∷ entry_rows newest true rows

  -- All rows of renderLogs; the last entry is the newest.
  unfoldable pub all_rows : List Text → List LogRow
  unfolding entry_rows wrap_to_width
  all_rows [] = []
  all_rows (entry ∷ entries) =
      entry_rows (is_empty entries) false (wrap_to_width entry) ++ all_rows entries

  -- The rows that renderLogs draws from top to bottom.
  unfoldable pub shown_rows : List Text → List LogRow
  unfolding all_rows
  shown_rows entries =
      let rows = all_rows entries in
      if ltb max_rows (length rows) then drop (length rows - max_rows) rows else rows
