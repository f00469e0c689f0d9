-- ===== src/Device/Registry/Volumes/Once.antt =====
-- Which volumes scanMassStorage keeps, and that it probes each of them once.
use mathlib.Core.Path.{subst}
use companion_mission_planne.Base.{
  ◌≡◌, refl, sym, ◌∙◌, ap, inl, inr, arith, true, ◌&&◌, ◌||◌, some, List, [], ◌∷◌, Text, text_Eq,
  elem, All, ◌==◌, ==_refl, ==→eq, if◌then◌else◌, Bool-cases, Option-cases,
}
use companion_mission_planne.Base.Table
use companion_mission_planne.Base.Table.{Table, has-put, has-get, get-put}
use companion_mission_planne.Blockdev.{UsbVolume}
use companion_mission_planne.Device.Registry.{MsVolume, Registry, Host}
use companion_mission_planne.Device.Registry.Volumes.{
  track_volume, register_volume, visit_volumes, release_volume, drop_volumes, ids_of,
  scan_mass_storage,
}

register-volumes : (mv : MsVolume) (r : Registry) → (register_volume mv r).volumes ≡ r.volumes
unfolding register_volume
register-volumes mv r = ground arith

module _ {W : Type 0} (h : Host W) where
  track-has :
      (id : Text) (v : UsbVolume) (w : W) (r : Registry)
      → Table.has id (track_volume h v w r).2.volumes
        ≡ (if v.id == id then true else Table.has id r.volumes)
  unfolding track_volume
  track-has id v w r = elim (Option-cases (Table.get v.id r.volumes)) [
    | inl e ↦ rw (e, track_volume) (has-put v.id id _ r.volumes)
    | inr (mv, e) ↦ elim (Bool-cases (v.id == id)) [
      | inl q ↦
          rw (e, q, track_volume)
            (subst (λ k. Table.has k r.volumes ≡ true) (==→eq v.id id q)
              (has-get v.id r.volumes ∙ rw e refl))
      | inr q ↦ rw (e, q, track_volume) refl
    ]
  ]

  visit-has :
      (id : Text) (vols : List UsbVolume) (w : W) (r : Registry)
      → Table.has id (visit_volumes h vols w r).1.volumes
        ≡ elem id (ids_of vols) || Table.has id r.volumes
  unfolding visit_volumes
  visit-has id [] w r = refl
  visit-has id (v ∷ vols) w r =
      let (w', mv, r') = track_volume h v w r in
      ground (
        arith,
        visit-has id vols w' (register_volume mv r'),
        register-volumes mv r',
        track-has id v w r,
      )

  drop-has :
      (id : Text) (seen : List Text) (volumes : Table Text MsVolume) (w : W)
      → Table.has id (drop_volumes h seen volumes w).1 ≡ elem id seen && Table.has id volumes
  unfolding drop_volumes Table.has
  drop-has id seen [] w = ground arith
  drop-has id seen ((j, mv) ∷ volumes) w =
      let same : (j == id) ≡ true → elem j seen ≡ elem id seen =
        λ s. ap (λ k. elem k seen) (==→eq j id s) in
      let kept = drop-has id seen volumes w in
      let left = drop-has id seen volumes (release_volume h mv w) in
      ground (arith, same, kept, left)

  -- When lsblk lists the volumes, the registry afterwards has a record of each of them and of no
  -- other volume, whatever it had a record of before.
  scan-tracks :
      (w : W) (r : Registry) (vols : List UsbVolume) (id : Text)
      → h.scan w ≡ some vols
      → Table.has id (scan_mass_storage h w r).1.volumes ≡ elem id (ids_of vols)
  unfolding scan_mass_storage
  scan-tracks w r vols id e =
      let (w1, r1) = visit_volumes h vols w r in
      rw (e, scan_mass_storage)
        (drop-has id (ids_of vols) r1.volumes w1 ∙ ground (arith, visit-has id vols w r))

  -- Every listed volume has a record.
  abbrev AreTracked : List UsbVolume → Table Text MsVolume → Type 0
  AreTracked vols m = All (λ (v : UsbVolume). Table.has v.id m ≡ true) vols

  visit-known :
      (vols : List UsbVolume) (w : W) (r : Registry)
      → AreTracked vols r.volumes
      → ((visit_volumes h vols w r).0 ≡ w) × ((visit_volumes h vols w r).1.volumes ≡ r.volumes)
  unfolding visit_volumes track_volume
  visit-known [] w r k = (refl, refl)
  visit-known (v ∷ vols) w r (here, k) = elim (Option-cases (Table.get v.id r.volumes)) [
    | inl e ↦ absurd (ground (arith, e, here, has-get v.id r.volumes))
    | inr (mv, e) ↦
        let same = register-volumes mv r in
        let (p, q) = visit-known vols w (register_volume mv r) (rw same k) in
        rw (e, visit_volumes, track_volume) (p, q ∙ same)
  ]

  drop-known :
      (seen : List Text) (volumes : Table Text MsVolume) (w : W)
      → ((id : Text) → Table.has id volumes ≡ true → elem id seen ≡ true)
      → drop_volumes h seen volumes w ≡ (w, volumes)
  unfolding drop_volumes Table.has
  drop-known seen [] w k = refl
  drop-known seen ((j, mv) ∷ volumes) w k =
      let here : elem j seen ≡ true = k j (ground (arith, ==_refl j)) in
      let rest = drop-known seen volumes w (λ id t. k id (ground (arith, t))) in
      ground (arith, here, rest)

  ids-tracked :
      (vols : List UsbVolume) (m : Table Text MsVolume)
      → ((id : Text) → elem id (ids_of vols) ≡ true → Table.has id m ≡ true)
      → AreTracked vols m
  ids-tracked [] m k = tt
  ids-tracked (v ∷ vols) m k =
      (k v.id (ground (arith, ==_refl v.id)), ids-tracked vols m (λ id t. k id (ground (arith, t))))

  -- A scan whose listing the records match already.
  scan-known :
      (w : W) (r : Registry) (vols : List UsbVolume)
      → h.scan w ≡ some vols
      → ((id : Text) → Table.has id r.volumes ≡ elem id (ids_of vols))
      → ((scan_mass_storage h w r).0 ≡ w) × ((scan_mass_storage h w r).1.volumes ≡ r.volumes)
  unfolding scan_mass_storage
  scan-known w r vols e k =
      let (p, q) = visit-known vols w r (ids-tracked vols r.volumes (λ id t. k id ∙ t)) in
      let (w1, r1) = visit_volumes h vols w r in
      let gone : drop_volumes h (ids_of vols) r1.volumes w1 ≡ (w1, r1.volumes) =
        drop-known (ids_of vols) r1.volumes w1
          (λ id t. sym (k id) ∙ subst (λ m. Table.has id m ≡ true) q t) in
      rw (e, scan_mass_storage) (ap (λ x. x.0) gone ∙ p, ap (λ x. x.1) gone ∙ q)

  -- After a scan the registry has a record of each listed volume and of no other one; and another
  -- scan that finds volumes of the same identifiers, wherever they are mounted by then, mounts
  -- nothing, unmounts nothing and leaves every record as it is: a card is mounted and probed once,
  -- not on every scan.
  pub scan_mass_storage-once :
      (w : W) (r : Registry) (vols vols' : List UsbVolume)
      → h.scan w ≡ some vols
      → h.scan (scan_mass_storage h w r).0 ≡ some vols'
      → ids_of vols' ≡ ids_of vols
      → ((id : Text) → Table.has id (scan_mass_storage h w r).1.volumes ≡ elem id (ids_of vols))
        × ((scan_mass_storage h (scan_mass_storage h w r).0 (scan_mass_storage h w r).1).0
            ≡ (scan_mass_storage h w r).0)
        × ((scan_mass_storage h (scan_mass_storage h w r).0 (scan_mass_storage h w r).1).1.volumes
            ≡ (scan_mass_storage h w r).1.volumes)
  scan_mass_storage-once w r vols vols' e e' same =
      let kept = λ (id : Text). scan-tracks w r vols id e in
      let (p, q) =
        scan-known (scan_mass_storage h w r).0 (scan_mass_storage h w r).1 vols' e'
          (λ id. kept id ∙ ap (elem id) (sym same)) in
      (kept, p, q)
