-- ===== src/Kmz/Archive/Safety.antt =====
-- The names of the entries that `Inspect` and `RewriteForGUID` of internal/kmz/kmz.go let through.
use companion_mission_planne.Base.{
  ℕ, ◌≡◌, refl, true, false, ◌||◌, ◌≤◌, none, some, List, [], ◌∷◌, ◌++◌, map, arith, append_assoc,
  append-nil, All, Text, text_Eq, text_eq, text_eq_iff, codes, nat_eq, elem, is_empty, ltb,
  has_prefix, contains, segments, extend, ok, Result-cases, Bool-cases, inl, inr,
}
use companion_mission_planne.Kmz.Archive.{
  Entry, Archive, Info, max_size, safe_path, inspect_entries, is_preview_name, empty_info, inspect,
}

HeadPrefix : Text → List Text → Type 0
HeadPrefix s [] = Unit
HeadPrefix s (h ∷ rest) = has_prefix s h ≡ true

segments-head : (s : Text) → HeadPrefix s (segments s)
unfolding segments HeadPrefix has_prefix
segments-head [] = refl
segments-head (c ∷ s) = elim (Bool-cases (nat_eq c b'/')) [
  | inl e ↦ rw e refl
  | inr e ↦ rw e (step c s (segments s) (segments-head s))
]
  where
    step : (c : ℕ) (s : Text) (l : List Text) → HeadPrefix s l → HeadPrefix (c ∷ s) (extend c l)
    step c s [] h = ground arith
    step c s (x ∷ l) h = ground arith

contains-tail : (c : ℕ) (s p : Text) → contains s p ≡ true → contains (c ∷ s) p ≡ true
unfolding contains
contains-tail c s p h = ground arith

contains-here : (s p : Text) → has_prefix s p ≡ true → contains s p ≡ true
unfolding contains
contains-here [] p h = h
contains-here (c ∷ s) p h = ground arith

extend-contains :
    (c : ℕ) (s seg : Text) (l : List Text)
    → HeadPrefix s l
    → (elem seg l ≡ true → contains s seg ≡ true)
    → elem seg (extend c l) ≡ true
    → contains (c ∷ s) seg ≡ true
unfolding extend HeadPrefix
extend-contains c s seg [] hp ih h =
    contains-here (c ∷ s) seg
      (rw (← (text_eq_iff (c ∷ []) seg).0 (ground arith)) (unfold has_prefix in ground arith))
extend-contains c s seg (x ∷ l) hp ih h = elim (Bool-cases (text_eq (c ∷ x) seg)) [
  | inl e ↦
      contains-here (c ∷ s) seg
        (rw (← (text_eq_iff (c ∷ x) seg).0 e) (unfold has_prefix in ground arith))
  | inr e ↦ contains-tail c s seg (ih (ground arith))
]

-- A path segment stands in the path.
pub segment-contains : (s seg : Text) → elem seg (segments s) ≡ true → contains s seg ≡ true
unfolding segments
segment-contains [] seg h =
    contains-here [] seg (rw (← (text_eq_iff [] seg).0 (ground arith)) (unfold has_prefix in refl))
segment-contains (c ∷ s) seg h = elim (Bool-cases (nat_eq c b'/')) [
  | inl e ↦ elim (Bool-cases (text_eq [] seg)) [
    | inl q ↦
        contains-here (c ∷ s) seg (rw (← (text_eq_iff [] seg).0 q) (unfold has_prefix in refl))
    | inr q ↦ contains-tail c s seg (segment-contains s seg (ground arith))
  ]
  | inr e ↦
      extend-contains c s seg (segments s) (segments-head s) (segment-contains s seg) (ground arith)
]

-- A name that `safePath` accepts.
abbrev pub IsSafeName : Text → Type 0
IsSafeName name =
    (is_empty name ≡ false)
    × (has_prefix name (codes "/") ≡ false)
    × (elem (codes "..") (segments name) ≡ false)

no_dots :
    (name : Text) → contains name (codes "..") ≡ false → elem (codes "..") (segments name) ≡ false
no_dots name h = elim (Bool-cases (elem (codes "..") (segments name))) [
  | inl e ↦ absurd (cc (segment-contains name (codes "..") e))
  | inr e ↦ e
]

pub safe_path-IsSafeName : (name : Text) → safe_path name ≡ ok tt → IsSafeName name
unfolding safe_path
safe_path-IsSafeName name h = (ground arith, ground arith, no_dots name (ground arith))

inspect_entries-safe :
    (info info' : Info) (files : List Entry)
    → inspect_entries info files ≡ ok info'
    → All (λ (f : Entry). IsSafeName f.name) files
      × (info'.files ≡ info.files ++ map (λ (f : Entry). f.name) files)
unfolding inspect_entries
inspect_entries-safe info info' [] h = (tt, ground (arith, append-nil info.files))
inspect_entries-safe info info' (f ∷ files) h = elim (Result-cases (safe_path f.name)) [
  | inl (u, e) ↦
      let seen = info.has_preview || is_preview_name f.name in
      let listed = record info { has_preview = seen; files = info.files ++ f.name ∷ [] } in
      let rest = inspect_entries-safe listed info' files (ground (arith, e)) in
      (
        (safe_path-IsSafeName f.name e, rest.0),
        ground (
          arith,
          rest.1,
          append_assoc info.files (f.name ∷ []) (map (λ (f : Entry). f.name) files),
        ),
      )
  | inr (x, e) ↦ absurd (ground (arith, e))
]

-- Whatever `Inspect` accepts is at most 10 MB, each of its entries has a relative name with no
-- `..` segment, and the names are reported in archive order.
pub inspect_safe :
    (size : ℕ) (archive : Archive) (info : Info)
    → inspect size archive ≡ ok info
    → (size ≤ max_size)
      × ((files : List Entry) × (archive ≡ some files)
          × All (λ (f : Entry). IsSafeName f.name) files
          × (info.files ≡ map (λ (f : Entry). f.name) files))
unfolding inspect
inspect_safe size none info h = absurd (elim (Bool-cases (ltb max_size size)) [
  | inl e ↦ ground (arith, e)
  | inr e ↦ ground (arith, e)
])
inspect_safe size (some files) info h =
    let loop = inspect_entries-safe empty_info info files (ground arith) in
    (ground arith, (files, refl, loop.0, loop.1))
