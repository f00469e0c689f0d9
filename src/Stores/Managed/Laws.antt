-- ===== src/Stores/Managed/Laws.antt =====
-- What `Set` and `Get` on the managed flags give, and what the sidecar file keeps.
use companion_mission_planne.Base.{
  ◌≡◌, refl, arith, Bool, true, false, ◌&&◌, some, Text, text_Eq, ◌==◌, if◌then◌else◌,
}
use companion_mission_planne.Stores.Persist.{Disk, Codec, Faults}
use companion_mission_planne.Stores.Nested.{Nested, put2, remove2, get2-put2, get2-remove2}
use companion_mission_planne.Stores.Nested.Minimal.{IsMinimal, put2-IsMinimal, remove2-IsMinimal}
use companion_mission_planne.Stores.Managed.{Store, get, set, flush_locked}

-- A `Set` on a store whose map is not nil returns, whatever the disk does, and afterwards `Get`
-- gives the new flag at that device and slot and the old flag elsewhere.
managed_get-set :
    (c : Codec (Nested Bool)) (f : Faults) (s : Store) (d : Disk) (m : Nested Bool)
    (device guid : Text) (managed : Bool) (other slot : Text)
    → s.flags ≡ some m
    → (r : Store × Disk × Bool) × (set c f s d device guid managed ≡ some r)
      × (get r.0 other slot
          ≡ (if (device == other) && (guid == slot) then managed else get s other slot))
unfolding set get
managed_get-set c f s d m device guid true other slot h =
    let s' = record s { flags = some (remove2 device guid m) } in
    (flush_locked c f s' d, ground arith, ground (arith, get2-remove2 device guid other slot m))
managed_get-set c f s d m device guid false other slot h =
    let s' = record s { flags = some (put2 device guid false m) } in
    (flush_locked c f s' d, ground arith, ground (arith, get2-put2 device guid other slot false m))

-- Only explicit opt-outs are recorded.
abbrev pub IsOptOut : Bool → Type 0
IsOptOut v = v ≡ false

-- A store that records opt-outs only, with no device left without one, stays so through `Set`.
set-IsMinimal :
    (c : Codec (Nested Bool)) (f : Faults) (s : Store) (d : Disk) (m : Nested Bool)
    (device guid : Text) (managed : Bool)
    → s.flags ≡ some m
    → IsMinimal IsOptOut m
    → (r : Store × Disk × Bool) × (m' : Nested Bool) × (set c f s d device guid managed ≡ some r)
      × (r.0.flags ≡ some m')
      × IsMinimal IsOptOut m'
unfolding set
set-IsMinimal c f s d m device guid true h k =
    let m' = remove2 device guid m in
    let s' = record s { flags = some m' } in
    (
      flush_locked c f s' d,
      m',
      ground arith,
      ground arith,
      remove2-IsMinimal IsOptOut device guid m k,
    )
set-IsMinimal c f s d m device guid false h k =
    let m' = put2 device guid false m in
    let s' = record s { flags = some m' } in
    (
      flush_locked c f s' d,
      m',
      ground arith,
      ground arith,
      put2-IsMinimal IsOptOut device guid false m refl k,
    )
