-- ===== src/Kmz/Archive.antt =====
-- internal/kmz/kmz.go: `Inspect`, `safePath`, `RewriteForGUID`, `isTextEntry`.
-- The zip reader is a parameter in the form of what it yields: the entries in archive order, or
-- `none` where zip.NewReader refuses. The writer's output is the list of entries given to it.
pub mod Safety
pub mod Rewrite
use companion_mission_planne.Base.{
  ℕ, ◌+◌, ◌*◌, Bool, true, false, ◌||◌, Option, none, some, List, [], ◌∷◌, ◌++◌, Text, codes, ltb,
  is_empty, has_prefix, has_suffix, contains, to_lower, Result, ok, err, ◌>>=◌, ◌>>◌, if◌then◌else◌,
}
use companion_mission_planne.Kmz.Guid.{is_valid_guid}

-- zip.File: the fields of its header that an author sets, and what Open and ReadAll give, `none` for
-- their error.
pub record Entry : Type 0 where
  pub name : Text
  pub method : ℕ
  pub comment : Text
  pub modified_at : ℕ
  pub external_attrs : ℕ
  pub extra : Text
  pub content : Option Text

abbrev pub Archive : Type 0
Archive = Option (List Entry)

pub data KmzError : Type 0 where
  too_large : KmzError
  bad_archive : KmzError
  empty_name : KmzError
  unsafe_path : Text → KmzError
  invalid_guid : Text → KmzError
  unreadable : Text → KmzError

-- MaxSize: 10 MB
abbrev pub max_size : ℕ
max_size = 10 * 1024 * 1024

pub record Info : Type 0 where
  pub name : Text
  pub description : Text
  pub waypoints : ℕ
  pub has_preview : Bool
  pub files : List Text

abbrev empty_info : Info
empty_info = record { name = []; description = []; waypoints = 0; has_preview = false; files = [] }

-- path.IsAbs is the test for a leading slash.
unfoldable pub safe_path : Text → Result KmzError (Unit {0})
unfolding has_prefix contains
safe_path name =
    if is_empty name
    then err empty_name
    else if has_prefix name (codes "/") || contains name (codes "..")
    then err (unsafe_path name)
    else ok tt

is_preview_name : Text → Bool
unfolding has_suffix to_lower
is_preview_name name =
    has_suffix (to_lower name) (codes "thumbnail.png")
    || has_suffix (to_lower name) (codes "preview.jpg")

-- The loop of Inspect.
inspect_entries : Info → List Entry → Result KmzError Info
inspect_entries info [] = ok info
inspect_entries info (f ∷ files) = do
  safe_path f.name
  let listed = record info { files = info.files ++ f.name ∷ [] }
  inspect_entries (record listed { has_preview = info.has_preview || is_preview_name f.name }) files

unfoldable pub inspect : ℕ → Archive → Result KmzError Info
unfolding inspect_entries is_preview_name safe_path
inspect size archive =
    if ltb max_size size
    then err too_large
    else elim archive [ none ↦ err bad_archive | some files ↦ inspect_entries empty_info files ]

unfoldable pub is_text_entry : Text → Bool
unfolding has_suffix to_lower
is_text_entry name =
    let n = to_lower name in
    has_suffix n (codes ".kml") || has_suffix n (codes ".wpml") || has_suffix n (codes ".xml")

-- guidRE.ReplaceAllFunc: the pattern is anchored at both ends of the text, so its only possible
-- match is the whole content.
unfoldable pub replace_all : Text → Text → Text
unfolding is_valid_guid
replace_all new_guid content = if is_valid_guid content then new_guid else content

rewrite_content : Text → Text → Text → Text
unfolding is_text_entry replace_all
rewrite_content new_guid name content =
    if is_text_entry name then replace_all new_guid content else content

read_all : Entry → Result KmzError Text
read_all f = elim f.content [ none ↦ err (unreadable f.name) | some content ↦ ok content ]

-- The entry that RewriteForGUID writes for another one: the header has its name and method only.
abbrev pub copied : Entry → Option Text → Entry
copied f content = record {
  name = f.name;
  method = f.method;
  comment = [];
  modified_at = 0;
  external_attrs = 0;
  extra = [];
  content = content;
}

-- The loop of RewriteForGUID; `out` is what the zip writer was given so far.
rewrite_entries : Text → List Entry → List Entry → Result KmzError (List Entry)
unfolding read_all
rewrite_entries new_guid out [] = ok out
rewrite_entries new_guid out (f ∷ files) = do
  safe_path f.name
  content ← read_all f
  let written = copied f (some (rewrite_content new_guid f.name content))
  rewrite_entries new_guid (out ++ written ∷ []) files

unfoldable pub rewrite_for_guid : Archive → Text → Result KmzError (List Entry)
unfolding rewrite_entries rewrite_content
rewrite_for_guid archive new_guid =
    if is_valid_guid new_guid
    then elim archive [ none ↦ err bad_archive | some files ↦ rewrite_entries new_guid [] files ]
    else err (invalid_guid new_guid)
