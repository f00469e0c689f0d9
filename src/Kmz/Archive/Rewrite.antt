-- ===== src/Kmz/Archive/Rewrite.antt =====
-- What `RewriteForGUID` writes.
use mathlib.Core.Option
use companion_mission_planne.Base.{◌≡◌, some, map, Text, ok}
use companion_mission_planne.Kmz.Archive.{copied, Entry, safe_path, rewrite_content}

-- An entry as it stands in the output.
pub rewritten : Text → Entry → Entry
rewritten new_guid f = copied f (Option.map (rewrite_content new_guid f.name) f.content)

-- An entry that the loop can copy: a safe name, and content that can be read.
abbrev pub IsReadable : Entry → Type 0
IsReadable f = (safe_path f.name ≡ ok tt) × ((content : Text) × (f.content ≡ some content))
