-- ===== src/Libmtp/Spool/Clean.antt =====
-- When a temporary file is left behind.
use companion_mission_planne.Base.{
  ℕ, true, false, Option, none, some, [], ◌∷◌, Text, text_Eq, ◌≡◌, ◌⊎◌, refl, ◌∙◌, ap, inl, inr,
  arith, Option-cases, Result-cases, Bool-cases, ◌==◌, ==_refl,
}
use companion_mission_planne.Base.Table
use companion_mission_planne.Base.Table.{Table}
use companion_mission_planne.Device.Mtp.{FileEntry}
use companion_mission_planne.Libmtp.{Libmtp, Temp, Device, cleaned, read_temp}
use companion_mission_planne.Libmtp.Spool.{
  with_file, pull_object, get_object_to, send_spooled, spool, put_into, put_file,
}

-- A file that is made under a new name and removed leaves the others as they were.
remove-put :
    (k : Text) (v : Text) (m : Table Text Text)
    → Table.remove k (Table.put k v m) ≡ Table.remove k m
unfolding Table.remove Table.put
remove-put k v [] = let same : (k == k) ≡ true = ==_refl k in ground (arith, same)
remove-put k v ((j, w) ∷ m) =
    let same : (k == k) ≡ true = ==_refl k in ground (arith, same, remove-put k v m)

remove-new : (k : Text) (m : Table Text Text) → Table.has k m ≡ false → Table.remove k m ≡ m
unfolding Table.remove Table.has
remove-new k [] h = refl
remove-new k ((j, w) ∷ m) h = elim (Bool-cases (j == k)) [
  | inl e ↦ absurd (ground (arith, e, h))
  | inr e ↦ rw e (ap (λ (l : Table Text Text). (j, w) ∷ l) (remove-new k m (ground (arith, e, h))))
]

module _ {D : Type 0} (lib : Libmtp D) (o : Temp) where
  -- A name of a temporary file that no file has.
  abbrev pub IsFresh : Device D → Type 0
  IsFresh x = (tmp : Text) → o.name ≡ some tmp → Table.has tmp x.files ≡ false

  read_temp-kept : (tmp : Text) (x : Device D) → (read_temp o tmp x).0 ≡ x
  unfolding read_temp
  read_temp-kept tmp x = elim (Bool-cases o.open_fails) [
    | inl e ↦ rw (e, read_temp) refl
    | inr e ↦ elim (Option-cases (Table.get tmp x.files)) [
      | inl q ↦ rw (e, q, read_temp) refl
      | inr (content, q) ↦ rw (e, q, read_temp) refl
    ]
  ]

  abbrev wiped : Text → Device D → Device D
  wiped tmp x = record x { files = Table.remove tmp x.files }

  wiped-with_file :
      (tmp content : Text) (x : Device D) → wiped tmp (with_file tmp content x) ≡ wiped tmp x
  wiped-with_file tmp content x =
      ap (λ (m : Table Text Text). record x { files = m }) (remove-put tmp content x.files)

  wiped-new : (tmp : Text) (x : Device D) → Table.has tmp x.files ≡ false → wiped tmp x ≡ x
  wiped-new tmp x h =
      ap (λ (m : Table Text Text). record x { files = m }) (remove-new tmp x.files h)

  pull_object-wiped :
      (tmp : Text) (object : ℕ) (x : Device D)
      → wiped tmp (pull_object lib o tmp object x).0 ≡ wiped tmp x
  unfolding pull_object
  pull_object-wiped tmp object x = elim (Result-cases (lib.get_file x.phone object)) [
    | inl (content, e) ↦
        let pulled : (pull_object lib o tmp object x).0 ≡ with_file tmp content x =
          rw (e, pull_object) (read_temp-kept tmp (with_file tmp content x)) in
        ap (wiped tmp) pulled ∙ wiped-with_file tmp content x
    | inr (rc, e) ↦
        let pulled : (pull_object lib o tmp object x).0 ≡ x = rw (e, pull_object) refl in
        ap (wiped tmp) pulled
  ]

  -- The handle is as it was; or the temporary file cannot be removed, and but for it the handle is as
  -- it was.
  abbrev pub IsClean : Device D → Device D → Type 0
  IsClean x y =
      (y ≡ x)
      ⊎ ((tmp : Text) × (o.name ≡ some tmp)
          × (o.remove_fails ≡ true)
          × (record y { files = Table.remove tmp y.files } ≡ x))

  -- The same of the temporary files alone.
  abbrev pub AreClean : Table Text Text → Table Text Text → Type 0
  AreClean before after =
      (after ≡ before)
      ⊎ ((tmp : Text) × (o.name ≡ some tmp)
          × (o.remove_fails ≡ true)
          × (Table.remove tmp after ≡ before))

  get_object_to-IsClean :
      (x : Device D) (object : ℕ) → IsFresh x → IsClean x (get_object_to lib o x object).0
  unfolding get_object_to cleaned
  get_object_to-IsClean x object new = elim (Bool-cases x.is_open) [
    | inr e ↦ inl (ground (arith, e))
    | inl e ↦ elim (Option-cases o.name) [
      | inl q ↦ inl (ground (arith, e, q))
      | inr (tmp, q) ↦
          let pulled = (pull_object lib o tmp object (with_file tmp [] x)).0 in
          let gone : wiped tmp pulled ≡ x =
            pull_object-wiped tmp object (with_file tmp [] x)
            ∙ wiped-with_file tmp [] x
            ∙ wiped-new tmp x (new tmp q) in
          elim (Bool-cases o.remove_fails) [
            | inr r ↦
                let done : (get_object_to lib o x object).0 ≡ wiped tmp pulled =
                  ground (arith, e, q, r) in
                inl (done ∙ gone)
            | inl r ↦
                let done : (get_object_to lib o x object).0 ≡ pulled = ground (arith, e, q, r) in
                inr (tmp, q, r, ap (wiped tmp) done ∙ gone)
          ]
    ]
  ]

  -- The temporary files without one of them.
  abbrev others : Text → Device D → Table Text Text
  others tmp x = Table.remove tmp x.files

  spool-others :
      (tmp : Text) (parent : FileEntry) (name : Text) (size : ℕ) (content : Text) (x : Device D)
      → others tmp (spool lib o tmp parent name size content x).0 ≡ others tmp x
  unfolding spool send_spooled
  spool-others tmp parent name size content x = elim (Bool-cases o.copy_fails) [
    | inl e ↦ rw (e, spool) refl
    | inr e ↦ elim (Bool-cases o.sync_fails) [
      | inl q ↦ rw (e, q, spool) (remove-put tmp content x.files)
      | inr q ↦ elim (Bool-cases (lib.new_file x.phone)) [
        | inl k ↦ rw (e, q, k, spool, send_spooled) (remove-put tmp content x.files)
        | inr k ↦ rw (e, q, k, spool) (remove-put tmp content x.files)
      ]
    ]
  ]

  put_file-AreClean :
      (x : Device D) (parent : Option FileEntry) (name : Text) (size : ℕ) (content : Text)
      → IsFresh x
      → AreClean x.files (put_file lib o x parent name size content).0.files
  unfolding put_file put_into cleaned
  put_file-AreClean x none name size content new = inl (ground arith)
  put_file-AreClean x (some dir) name size content new = elim (Option-cases o.name) [
    | inl q ↦ inl (ground (arith, q))
    | inr (tmp, q) ↦
        let spooled = (spool lib o tmp dir name size content (with_file tmp [] x)).0 in
        let gone : others tmp spooled ≡ x.files =
          spool-others tmp dir name size content (with_file tmp [] x)
          ∙ remove-put tmp [] x.files
          ∙ remove-new tmp x.files (new tmp q) in
        elim (Bool-cases dir.is_folder) [
          | inr d ↦ inl (ground (arith, q, d))
          | inl d ↦ elim (Bool-cases x.is_open) [
            | inr e ↦ inl (ground (arith, q, d, e))
            | inl e ↦ elim (Bool-cases o.remove_fails) [
              | inr r ↦
                  let done : (put_file lib o x (some dir) name size content).0.files
                      ≡ others tmp spooled =
                    ground (arith, q, d, e, r) in
                  inl (done ∙ gone)
              | inl r ↦
                  let done : (put_file lib o x (some dir) name size content).0.files
                      ≡ spooled.files =
                    ground (arith, q, d, e, r) in
                  inr (tmp, q, r, ap (Table.remove tmp) done ∙ gone)
            ]
          ]
        ]
  ]

  -- When the name of the temporary file is new, a download leaves the handle as it was, and an upload
  -- leaves the files as they were, on every path; only where the temporary file cannot be removed may
  -- it be left behind, and then nothing else is changed.
  pub spool-IsClean :
      (x : Device D)
      → IsFresh x
      → ((object : ℕ) → IsClean x (get_object_to lib o x object).0)
        × ((parent : Option FileEntry) (name : Text) (size : ℕ) (content : Text)
            → AreClean x.files (put_file lib o x parent name size content).0.files)
  spool-IsClean x new = (
    (λ object. get_object_to-IsClean x object new),
    (λ parent name size content. put_file-AreClean x parent name size content new),
  )
