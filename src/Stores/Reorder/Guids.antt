-- ===== src/Stores/Reorder/Guids.antt =====
-- The order in which `Reorder` puts the GUIDs.
use mathlib.Core.Path.{ap₂}
use mathlib.Core.List.{map-append}
use companion_mission_planne.Base.{
  ◌≡◌, refl, ap, sym, ◌∙◌, Bool, true, false, not, ◌||◌, ◌&&◌, none, some, List, [], ◌∷◌, ◌++◌, map,
  arith, append-nil, append_assoc, Text, text_Eq, text_eq_iff, elem, keep_if, ==_refl, Bool-cases,
  Option-cases, inl, inr,
}
use companion_mission_planne.Base.Table
use companion_mission_planne.Base.Table.{Table, get-put}
use companion_mission_planne.Stores.Reorder.{
  is_used, index_items, take_ordered, append_rest, merge, reorder,
}

module _ {ℓ} {T : Type ℓ} (guid_of : T → Text) where
  -- What the saved order picks from a table, without the accumulators.
  unfoldable pub picks : Table Text T → List Text → List T
  picks by_guid [] = []
  picks by_guid (g ∷ order) =
      let rest = picks by_guid order in
      elim (Table.get g by_guid) [ some v ↦ v ∷ rest | none ↦ rest ]

  pub ordered-out :
      (by_guid : Table Text T) (order : List Text) (out : List T) (used : Table Text Bool)
      → (take_ordered guid_of by_guid order out used).0 ≡ out ++ picks by_guid order
  unfolding take_ordered picks
  ordered-out by_guid [] out used = rw append-nil
  ordered-out by_guid (g ∷ order) out used = elim (Option-cases (Table.get g by_guid)) [
    | inl e ↦ rw (e, take_ordered, picks) (ordered-out by_guid order out used)
    | inr (v, e) ↦
        rw (e, take_ordered, picks)
          (ordered-out by_guid order (out ++ v ∷ []) (Table.put g true used)
            ∙ append_assoc out (v ∷ []) (picks by_guid order))
  ]

  pub rest-out :
      (used : Table Text Bool) (out items : List T)
      → append_rest guid_of used out items
        ≡ out ++ keep_if (λ it. not (is_used (guid_of it) used)) items
  unfolding append_rest
  rest-out used out [] = rw append-nil
  rest-out used out (it ∷ items) = elim (Bool-cases (is_used (guid_of it) used)) [
    | inl e ↦ rw e (rest-out used out items)
    | inr e ↦ rw e (rest-out used (out ++ it ∷ []) items ∙ append_assoc out (it ∷ []) _)
  ]

  unfoldable pub is_present : Table Text T → Text → Bool
  is_present by_guid g = elim (Table.get g by_guid) [ none ↦ false | some v ↦ true ]

  pub ordered-used :
      (by_guid : Table Text T) (order : List Text) (out : List T) (used : Table Text Bool)
      (g : Text)
      → is_used g (take_ordered guid_of by_guid order out used).1
        ≡ (is_used g used || (elem g order && is_present by_guid g))
  unfolding take_ordered is_used is_present
  ordered-used by_guid [] out used g = ground arith
  ordered-used by_guid (a ∷ order) out used g = elim (Option-cases (Table.get a by_guid)) [
    | inl e ↦
        rw (e, take_ordered)
          (ordered-used by_guid order out used g ∙ ground (arith, e, text_eq_iff a g))
    | inr (v, e) ↦
        rw (e, take_ordered)
          (ordered-used by_guid order (out ++ v ∷ []) (Table.put a true used) g
            ∙ ground (arith, e, text_eq_iff a g, get-put a g true used))
  ]

  pub index-present :
      (m : Table Text T) (items : List T) (g : Text)
      → is_present (index_items guid_of m items) g ≡ (elem g (map guid_of items) || is_present m g)
  unfolding index_items is_present
  index-present m [] g = refl
  index-present m (it ∷ items) g =
      index-present (Table.put (guid_of it) it m) items g
      ∙ ground (arith, get-put (guid_of it) g it m)

  -- Each entry of the index stands under its own GUID.
  abbrev pub IsKeyed : Table Text T → Type ℓ
  IsKeyed m = (g : Text) (v : T) → Table.get g m ≡ some v → guid_of v ≡ g

  put-IsKeyed : (it : T) (m : Table Text T) → IsKeyed m → IsKeyed (Table.put (guid_of it) it m)
  put-IsKeyed it m h g v e =
      ground (arith, get-put (guid_of it) g it m, text_eq_iff (guid_of it) g, h g v)

  pub index-IsKeyed :
      (m : Table Text T) (items : List T) → IsKeyed m → IsKeyed (index_items guid_of m items)
  unfolding index_items
  index-IsKeyed m [] h = h
  index-IsKeyed m (it ∷ items) h =
      index-IsKeyed (Table.put (guid_of it) it m) items (put-IsKeyed it m h)

  picks-guids :
      (m : Table Text T) (order : List Text)
      → IsKeyed m
      → map guid_of (picks m order) ≡ keep_if (is_present m) order
  unfolding picks is_present
  picks-guids m [] h = refl
  picks-guids m (g ∷ order) h = elim (Option-cases (Table.get g m)) [
    | inl e ↦
        let absent : is_present m g ≡ false = ground (arith, e) in
        rw (e, picks) (rw absent (picks-guids m order h))
    | inr (v, e) ↦
        let present : is_present m g ≡ true = ground (arith, e) in
        rw (e, picks) (rw present (ap₂ ◌∷◌ (h g v e) (picks-guids m order h)))
  ]

  map-keep_if :
      (p : Text → Bool) (items : List T)
      → map guid_of (keep_if (λ it. p (guid_of it)) items) ≡ keep_if p (map guid_of items)
  map-keep_if p [] = refl
  map-keep_if p (it ∷ items) = elim (Bool-cases (p (guid_of it))) [
    | inl e ↦ rw e (ap (λ l. guid_of it ∷ l) (map-keep_if p items))
    | inr e ↦ rw e (map-keep_if p items)
  ]

-- Two tests that agree on the members of a list keep the same.
pub keep_if-agree :
    (p q : Text → Bool) (l : List Text)
    → ((g : Text) → elem g l ≡ true → p g ≡ q g)
    → keep_if p l ≡ keep_if q l
keep_if-agree p q [] h = refl
keep_if-agree p q (g ∷ l) h =
    let same : p g ≡ q g = h g (ground (arith, ==_refl g)) in
    let rest : keep_if p l ≡ keep_if q l = keep_if-agree p q l (λ x m. h x (ground arith)) in
    ground (arith, same, rest)

keep_if-all : (l : List Text) → keep_if (λ g. true) l ≡ l
keep_if-all [] = refl
keep_if-all (g ∷ l) = ap (λ r. g ∷ r) (keep_if-all l)

keep_if-none : (l : List Text) → keep_if (λ g. false) l ≡ []
keep_if-none [] = refl
keep_if-none (g ∷ l) = keep_if-none l

module _ {ℓ} {T : Type ℓ} (guid_of : T → Text) where
  pub merge-split :
      (order : List Text) (items : List T)
      → let index = index_items guid_of [] items in
        let used = (take_ordered guid_of index order [] []).1 in
        merge guid_of order items
        ≡ picks guid_of index order ++ keep_if (λ it. not (is_used (guid_of it) used)) items
  unfolding merge
  merge-split order items =
      let index = index_items guid_of [] items in
      rest-out guid_of (take_ordered guid_of index order [] []).1
        (take_ordered guid_of index order [] []).0 items
      ∙ rw (ordered-out guid_of index order [] []) refl

  -- Which of the listed items the last loop skips.
  pub used-listed :
      (order : List Text) (items : List T) (g : Text)
      → elem g (map guid_of items) ≡ true
      → is_used g (take_ordered guid_of (index_items guid_of [] items) order [] []).1 ≡ elem g order
  unfolding is_used is_present Table.get
  used-listed order items g m =
      let index = index_items guid_of [] items in
      ground (arith, ordered-used guid_of index order [] [] g, index-present guid_of [] items g)

  index-listed :
      (items : List T) (g : Text)
      → is_present guid_of (index_items guid_of [] items) g ≡ elem g (map guid_of items)
  unfolding is_present Table.get
  index-listed items g = ground (arith, index-present guid_of [] items g)

  pub nil-IsKeyed : IsKeyed guid_of []
  unfolding Table.get
  nil-IsKeyed g v e = absurd (cc)

  merge-guids :
      (order : List Text) (items : List T)
      → let listed = map guid_of items in
        map guid_of (merge guid_of order items)
        ≡ keep_if (λ g. elem g listed) order ++ keep_if (λ g. not (elem g order)) listed
  merge-guids order items =
      let listed = map guid_of items in
      let index = index_items guid_of [] items in
      let used = (take_ordered guid_of index order [] []).1 in
      let present : (g : Text) → is_present guid_of index g ≡ elem g listed =
        λ g. index-listed items g in
      ap (map guid_of) (merge-split order items)
      ∙ map-append guid_of (picks guid_of index order) _
      ∙ ap₂ ◌++◌
          (picks-guids guid_of index order (index-IsKeyed guid_of [] items nil-IsKeyed)
            ∙ keep_if-agree _ _ order (λ g m. present g))
          (map-keep_if guid_of (λ g. not (is_used g used)) items
            ∙ keep_if-agree _ _ listed (λ g m. ap not (used-listed order items g m)))

-- The GUIDs after `Reorder`: first those of the saved order that are on the device, in the saved
-- order, then the others in the order in which the device lists them.
pub reorder-guids {ℓ} :
    {T : Type ℓ} (guid_of : T → Text) (order : List Text) (items : List T)
    → let listed = map guid_of items in
      map guid_of (reorder guid_of order items)
      ≡ keep_if (λ g. elem g listed) order ++ keep_if (λ g. not (elem g order)) listed
unfolding reorder
reorder-guids guid_of [] items = ap (λ l. l) (sym (keep_if-all (map guid_of items)))
reorder-guids guid_of (g ∷ order) [] = rw (keep_if-none order)
reorder-guids guid_of (g ∷ order) (it ∷ items) = merge-guids guid_of (g ∷ order) (it ∷ items)
