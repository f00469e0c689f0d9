-- ===== src/Stores/Names/Laws.antt =====
-- What a sequence of `Set` and `Get` on the name store gives.
use mathlib.Core.Path.{subst}
use companion_mission_planne.Base.{
  is_empty, false, Option, sym, ◌∙◌, ap, inl, inr, Option-cases, ◌≡◌, arith, Bool, ◌&&◌, some, [],
  ◌∷◌, Text, text_Eq, ◌==◌, if◌then◌else◌,
}
use companion_mission_planne.Stores.Persist.{Disk, Codec, Faults}
use companion_mission_planne.Stores.Nested.{Nested, put2, remove2, get2-put2, get2-remove2}
use companion_mission_planne.Stores.Persist.{flush}
use companion_mission_planne.Stores.Persist.Atomic.{load-flush}
use companion_mission_planne.Stores.Names.{new, opened, assign, Store, get, set, flush_locked}

-- A `Set` on a store whose map is not nil returns, whatever the disk does, and afterwards `Get`
-- gives the new name (the empty one included) at that device and slot and the old name elsewhere.
pub get-set :
    (c : Codec (Nested Text)) (f : Faults) (s : Store) (d : Disk) (m : Nested Text)
    (device guid name other slot : Text)
    → s.names ≡ some m
    → (r : Store × Disk × Bool) × (set c f s d device guid name ≡ some r)
      × (get r.0 other slot
          ≡ (if (device == other) && (guid == slot) then name else get s other slot))
unfolding set get
get-set c f s d m device guid [] other slot h =
    let s' = record s { names = some (remove2 device guid m) } in
    (flush_locked c f s' d, ground (arith), ground (arith, get2-remove2 device guid other slot m))
get-set c f s d m device guid (b ∷ name) other slot h =
    let s' = record s { names = some (put2 device guid (b ∷ name) m) } in
    (
      flush_locked c f s' d,
      ground (arith),
      ground (arith, get2-put2 device guid other slot (b ∷ name) m),
    )

-- The codec writes this map as a text that it reads back as the same map.
abbrev pub ReadsBack : Codec (Nested Text) → Nested Text → Type 0
ReadsBack c m =
    (content : Text) × (c.encode (some m) ≡ some content)
    × (is_empty content ≡ false)
    × (c.decode content ≡ some (some m))

restart :
    (c : Codec (Nested Text)) (f : Faults) (path : Text) (m : Nested Text) (d : Disk)
    → is_empty path ≡ false
    → ReadsBack c m
    → (flush c f path (some m) d).1 ≡ false
    → new c false path (flush c f path (some m) d).0 ≡ some (record { path = path; names = some m })
unfolding new opened
restart c f path m d p (content, e, n, back) h =
    ground (arith, load-flush c f path m d content p e n back h)

written :
    (c : Codec (Nested Text)) (f : Faults) (path : Text) (m : Nested Text) (d d' : Disk)
    (x : Option (Nested Text))
    → is_empty path ≡ false
    → ReadsBack c m
    → x ≡ some m
    → (flush c f path x d).0 ≡ d'
    → (flush c f path x d).1 ≡ false
    → new c false path d' ≡ some (record { path = path; names = some m })
written c f path m d d' x p r e a b =
    ap (new c false path) (sym (subst (λ y. (flush c f path y d).0 ≡ d') e a))
    ∙ restart c f path m d p r (subst (λ y. (flush c f path y d).1 ≡ false) e b)

-- After a `Set` that reports no error, a restart of the daemon finds the store as `Set` left it,
-- provided that the codec reads back what it writes for its map.
pub set-new :
    (c : Codec (Nested Text)) (f : Faults) (s : Store) (d d' : Disk) (device guid name : Text)
    (m' : Nested Text)
    → is_empty s.path ≡ false
    → ReadsBack c m'
    → set c f s d device guid name ≡ some (record { path = s.path; names = some m' }, d', false)
    → new c false s.path d' ≡ some (record { path = s.path; names = some m' })
unfolding set flush_locked
set-new c f s d d' device guid name m' p r h =
    elim (Option-cases (assign s.names device guid name)) [
      | inl e ↦ absurd (ground (arith, e, h))
      | inr (x, e) ↦
          let left : Path (Store × Disk × Bool) (flush_locked c f (record s { names = x }) d)
              (record { path = s.path; names = some m' }, d', false) =
            ground (arith, e, h) in
          let map : x ≡ some m' = ap (λ (t : Store × Disk × Bool). t.0.names) left in
          written c f s.path m' d d' x p r map (ap (λ t. t.1) left) (ap (λ t. t.2) left)
    ]
