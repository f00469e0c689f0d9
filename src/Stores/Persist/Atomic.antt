-- ===== src/Stores/Persist/Atomic.antt =====
-- What a flush may leave on the disk, and what the next start reads back.
use companion_mission_planne.Base.{
  ◌≡◌, ◌≢◌, ◌⊎◌, inl, inr, refl, ap, Bool, true, false, Option, some, arith, Option-cases,
  Bool-cases, Text, text_Eq, text_eq_iff, codes, length, length-append, is_empty, ◌==◌, ==_refl,
}
use companion_mission_planne.Base.Table
use companion_mission_planne.Base.Table.{Table, get-put, get-remove}
use companion_mission_planne.Stores.Persist.{
  Disk, Codec, Faults, WriteOutcome, written, cut, refused, tmp_path, write_tmp, rename_tmp, flush,
  ready, load,
}

pub tmp_path_ne : (path : Text) → tmp_path path ≢ path
tmp_path_ne path h = omega (arith, ap length h, length-append path (codes ".tmp"))

pub tmp_path_neq : (path : Text) → (tmp_path path == path) ≡ false
tmp_path_neq path = ground (arith, text_eq_iff (tmp_path path) path, tmp_path_ne path)

-- The content at the store's path after `write_tmp`, on each outcome.
abbrev KeptOrNew : Option Text → Text → Option Text → Type 0
KeptOrNew before content after = (after ≡ before) ⊎ (after ≡ some content)

get-rename_tmp :
    (fails : Bool) (path content : Text) (d : Disk)
    → KeptOrNew (Table.get path d) content (Table.get path (rename_tmp fails path content d).0)
unfolding rename_tmp
get-rename_tmp true path content d = inl refl
get-rename_tmp false path content d = inr (simp (get-put, ==_refl))

get-write_tmp :
    (f : Faults) (path content : Text) (w : WriteOutcome) (d : Disk)
    → KeptOrNew (Table.get path d) content (Table.get path (write_tmp f path content w d).0)
unfolding write_tmp
get-write_tmp f path content refused d = inl refl
get-write_tmp f path content (cut n) d = inl (simp (get-put, tmp_path_neq path))
get-write_tmp f path content written d =
    let step = get-rename_tmp f.rename_fails path content (Table.put (tmp_path path) content d) in
    let same = get-put (tmp_path path) path content d in
    ground (arith, step, same, tmp_path_neq path)

frame-write_tmp :
    (f : Faults) (path content other : Text)
    → (path == other) ≡ false
    → (tmp_path path == other) ≡ false
    → (w : WriteOutcome) (d : Disk)
    → Table.get other (write_tmp f path content w d).0 ≡ Table.get other d
unfolding write_tmp
frame-write_tmp f path content other h k refused d = refl
frame-write_tmp f path content other h k (cut n) d = simp (get-put, k)
frame-write_tmp f path content other h k written d = elim (Bool-cases f.rename_fails) [
  | inl e ↦ rw (e, rename_tmp) (simp (get-put, k))
  | inr e ↦ rw (e, rename_tmp) (simp (get-put, get-remove, h, k))
]

module _ {M : Type 0} (c : Codec M) (f : Faults) (path : Text) (m : Option M) (d : Disk) where
  -- Whatever fails, and wherever a write is cut, what stands at the store's path afterwards is the
  -- old content or the whole new encoding.
  pub flush_atomic :
      (Table.get path (flush c f path m d).0 ≡ Table.get path d)
      ⊎ ((content : Text) × (c.encode m ≡ some content)
          × (Table.get path (flush c f path m d).0 ≡ some content))
  unfolding flush
  flush_atomic = elim (Option-cases (c.encode m)) [
    | inl e ↦ inl (ground (arith, e))
    | inr (content, e) ↦ ground (arith, e, get-write_tmp f path content f.write d)
  ]

  -- A flush that reports no error has left the whole encoding at a store's path.
  pub flush_written :
      (content : Text)
      → is_empty path ≡ false
      → c.encode m ≡ some content
      → (flush c f path m d).1 ≡ false
      → Table.get path (flush c f path m d).0 ≡ some content
  unfolding flush write_tmp
  flush_written content p e h = ground (
    arith,
    get-put path path content (Table.remove (tmp_path path) (Table.put (tmp_path path) content d)),
    ==_refl path,
  )

  -- A flush touches its own path and the temporary one, and no other file.
  flush_frame :
      (other : Text)
      → (path == other) ≡ false
      → (tmp_path path == other) ≡ false
      → Table.get other (flush c f path m d).0 ≡ Table.get other d
  unfolding flush
  flush_frame other h k = elim (Option-cases (c.encode m)) [
    | inl e ↦ ground (arith, e)
    | inr (content, e) ↦ ground (arith, e, frame-write_tmp f path content other h k f.write d)
  ]

-- The next start reads back the map that the last flush without an error wrote, provided that the
-- decoder reads what the encoder wrote for it.
pub load-flush :
    {K V : Type 0} (c : Codec (Table K V)) (f : Faults) (path : Text) (m : Table K V) (d : Disk)
    (content : Text)
    → is_empty path ≡ false
    → c.encode (some m) ≡ some content
    → is_empty content ≡ false
    → c.decode content ≡ some (some m)
    → (flush c f path (some m) d).1 ≡ false
    → load c false path (flush c f path (some m) d).0 ≡ ready (some m)
unfolding load
load-flush c f path m d content p e nonempty back h =
    ground (arith, flush_written c f path (some m) d content)
