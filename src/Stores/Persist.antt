-- ===== src/Stores/Persist.antt =====
-- The file handling that the three stores share: `New` and `flushLocked` of
-- internal/names/store.go. A disk is a table of paths; what the operating system may refuse is an
-- argument. A crash in the middle of a write is a write that was cut.
pub mod Atomic
use companion_mission_planne.Base.{
  ℕ, ◌≡◌, Bool, true, false, Option, none, some, List, [], ◌∷◌, ◌++◌, Text, text_Eq, codes, take,
  is_empty, if◌then◌else◌,
}
use companion_mission_planne.Base.Table
use companion_mission_planne.Base.Table.{Table}

abbrev pub Disk : Type 0
Disk = Table Text Text

-- encoding/json on the map of a store. `none` as a map is Go's nil map, which JSON writes `null`;
-- `none` as a result is the codec's error.
pub record Codec (M : Type 0) : Type 0 where
  pub encode : Option M → Option Text
  pub decode : Text → Option (Option M)

-- What os.WriteFile does: it writes all, or it fails after some bytes, or before the file is made.
pub data WriteOutcome : Type 0 where
  written : WriteOutcome
  cut : ℕ → WriteOutcome
  refused : WriteOutcome

pub record Faults : Type 0 where
  pub mkdir_fails : Bool
  pub write : WriteOutcome
  pub rename_fails : Bool

abbrev pub tmp_path : Text → Text
tmp_path path = path ++ codes ".tmp"

rename_tmp : Bool → Text → Text → Disk → Disk × Bool
rename_tmp true path content d = (d, true)
rename_tmp false path content d = (Table.put path content (Table.remove (tmp_path path) d), false)

write_tmp : Faults → Text → Text → WriteOutcome → Disk → Disk × Bool
unfolding rename_tmp
write_tmp f path content refused d = (d, true)
write_tmp f path content (cut n) d = (Table.put (tmp_path path) (take n content) d, true)
write_tmp f path content written d =
    rename_tmp f.rename_fails path content (Table.put (tmp_path path) content d)

-- The new disk, and whether an error is returned.
unfoldable pub flush : {M : Type 0} → Codec M → Faults → Text → Option M → Disk → Disk × Bool
unfolding write_tmp
flush c f path m d =
    if is_empty path
    then (d, false)
    else if f.mkdir_fails
    then (d, true)
    else elim (c.encode m) [ none ↦ (d, true) | some content ↦ write_tmp f path content f.write d ]

-- What `New` returns: a map, or an error.
pub data Loaded (M : Type 0) : Type 0 where
  ready : Option M → Loaded M
  failed : Loaded M

decoded : {M : Type 0} → Option (Option M) → Loaded M
decoded none = failed
decoded (some m) = ready m

-- `read_fails` is an error of os.ReadFile other than a missing file.
unfoldable pub load : {K V : Type 0} → Codec (Table K V) → Bool → Text → Disk → Loaded (Table K V)
unfolding decoded
load c read_fails path d =
    if is_empty path
    then ready (some [])
    else if read_fails
    then failed
    else elim (Table.get path d) [
      | none ↦ ready (some [])
      | some content ↦ if is_empty content then ready (some []) else decoded (c.decode content)
    ]
