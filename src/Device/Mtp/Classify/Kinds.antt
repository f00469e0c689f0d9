-- ===== src/Device/Mtp/Classify/Kinds.antt =====
-- What the outcome of `classify` says of the storages of the device.
use mathlib.Core.List.{Memᴰ}
use mathlib.Core.Path.{subst}
use companion_mission_planne.Base.{
  ◌≡◌, refl, sym, ◌∙◌, ap, ◌⊎◌, inl, inr, arith, Option, none, some, List, [], ◌∷◌, codes, All,
  Option-cases, ok,
}
use companion_mission_planne.Base.Sorting.{sort-All-back}
use companion_mission_planne.Device.Mtp.{
  FileEntry, Transport, MtpError, controller, Located, find_in,
}
use companion_mission_planne.Device.Mtp.Classify.{
  storage_priority, ordered_storages, Tree, found_tree, no_tree, broken, probe_tree, located_at,
  conclude, or_first, walk_storages, classify,
}

pub Tree-cases :
    (x : Tree)
    → ((e : FileEntry) × (x ≡ found_tree e)) ⊎ (x ≡ no_tree) ⊎ ((e : MtpError) × (x ≡ broken e))
Tree-cases (found_tree e) = inl (e, refl)
Tree-cases no_tree = inr (inl refl)
Tree-cases (broken e) = inr (inr (e, refl))

module _ {D : Type 0} (t : Transport D) (d : D) where
  -- The storage was listed, and the waypoint tree was looked for on it with this outcome.
  abbrev pub Probed : Tree → FileEntry → Type 0
  Probed x s =
      (entries : List FileEntry) × (t.children d s ≡ some entries) × (probe_tree t d s entries ≡ x)

  -- The first DCIM folder on the listed storages, in their order.
  pub first_dcim : List FileEntry → Option FileEntry
  first_dcim [] = none
  first_dcim (s ∷ storages) = elim (t.children d s) [
    | none ↦ none
    | some entries ↦ elim (find_in entries (codes "DCIM")) [
      | some dcim ↦ some dcim
      | none ↦ first_dcim storages
    ]
  ]

  or_first-first :
      (seen here : Option FileEntry) (storages : List FileEntry)
      → or_first (or_first seen here) (first_dcim storages)
        ≡ or_first seen (elim here [ some dcim ↦ some dcim | none ↦ first_dcim storages ])
  unfolding or_first
  or_first-first none none storages = refl
  or_first-first none (some x) storages = refl
  or_first-first (some y) here storages = refl

  walk-outcome :
      (storages : List FileEntry) (seen : Option FileEntry) (l : Located)
      → walk_storages t d storages seen ≡ ok l
      → ((s : FileEntry) × (entry : FileEntry) × Memᴰ s storages
          × Probed (found_tree entry) s
          × (l ≡ located_at t d entry))
        ⊎ (All (Probed no_tree) storages × (l ≡ conclude (or_first seen (first_dcim storages))))
  unfolding walk_storages first_dcim
  walk-outcome [] none l h = inr (tt, unfold or_first in ground (arith, h))
  walk-outcome [] (some x) l h = inr (tt, unfold or_first in ground (arith, h))
  walk-outcome (s ∷ storages) seen l h = elim (Option-cases (t.children d s)) [
    | inl e ↦ absurd (ground (arith, e, h))
    | inr (entries, e) ↦ elim (Tree-cases (probe_tree t d s entries)) [
      | inl (entry, q) ↦ inl (s, entry, Memᴰ.head refl, (entries, e, q), ground (arith, e, q, h))
      | inr (inr (x, q)) ↦ absurd (ground (arith, e, q, h))
      | inr (inl q) ↦
          elim (walk-outcome storages (or_first seen (find_in entries (codes "DCIM"))) l
            (ground (arith, e, q, h))) [
              | inl (s', entry, m, p, r) ↦ inl (s', entry, Memᴰ.tail m, p, r)
              | inr (a, r) ↦ inr (
                ((entries, e, q), a),
                r
                    ∙ ap conclude (
                        or_first-first seen (find_in entries (codes "DCIM")) storages
                        ∙ rw (e, first_dcim) refl),
              )
            ]
    ]
  ]

  -- A walk that returns without an error either found the waypoint tree on a storage, which makes
  -- the device a controller, or it looked for one on every storage in vain; then the device is a
  -- camera if a storage has a DCIM folder, rooted at the first in the order of priority, and
  -- unknown if none has.
  pub classify-outcome :
      (storages : List FileEntry) (l : Located)
      → t.storages d ≡ some storages
      → classify t d ≡ ok l
      → ((s : FileEntry) × (entry : FileEntry) × Memᴰ s (ordered_storages storages)
          × Probed (found_tree entry) s
          × (l ≡ located_at t d entry))
        ⊎ (All (Probed no_tree) storages × (l ≡ conclude (first_dcim (ordered_storages storages))))
  unfolding classify
  classify-outcome storages l e h =
      elim (walk-outcome (ordered_storages storages) none l (ground (arith, e, h))) [
        | inl tree ↦ inl tree
        | inr (a, r) ↦ inr (
          unfold ordered_storages in
              sort-All-back (λ (s : FileEntry). storage_priority s.name) (Probed no_tree) storages
                a,
          unfold or_first in r,
        )
      ]

  tree-absurd : (s entry : FileEntry) → Probed (found_tree entry) s → ¬ Probed no_tree s
  tree-absurd s entry (xs, e, q) (ys, f, r) = absurd (ground (arith, e, q, f, r))

  All-Memᴰ {ℓ κ} : {A : Type ℓ} (P : A → Type κ) (a : A) (l : List A) → Memᴰ a l → All P l → P a
  All-Memᴰ P a [] m h = elim m [ ]
  All-Memᴰ P a (x ∷ l) (Memᴰ.head e) h = subst P (sym e) h.0
  All-Memᴰ P a (x ∷ l) (Memᴰ.tail m) h = All-Memᴰ P a l m h.1

  -- A waypoint tree on any storage makes the device a controller, whatever DCIM folders the
  -- storages have, unless the walk ends in an error.
  pub classify-controller :
      (storages : List FileEntry) (l : Located) (s entry : FileEntry)
      → t.storages d ≡ some storages
      → classify t d ≡ ok l
      → Memᴰ s storages
      → Probed (found_tree entry) s
      → l.kind ≡ controller
  unfolding located_at
  classify-controller storages l s entry e h m p = elim (classify-outcome storages l e h) [
    | inl (s', entry', m', p', r) ↦ ap (λ (l : Located). l.kind) r
    | inr (a, r) ↦ absurd (tree-absurd s entry p (All-Memᴰ (Probed no_tree) s storages m a))
  ]
