-- ===== src/Device/Registry/Refresh/Tracked.antt =====
-- What Refresh as a whole keeps between the open handles, the controllers and the devices shown.
use mathlib.Core.Path.{subst}
use companion_mission_planne.Base.{
  ◌≡◌, refl, ◌∙◌, ap, inl, inr, arith, Bool, true, not, ◌&&◌, ◌||◌, some, List, [], ◌∷◌, Text,
  text_Eq, is_empty, elem, ◌==◌, ==→eq, Bool-cases, Option-cases,
}
use companion_mission_planne.Base.Table
use companion_mission_planne.Base.Table.{
  Table, Each, put-Each, remove-Each, has-put, has-get, has-remove, get-put,
}
use companion_mission_planne.Blockdev.{UsbVolume}
use companion_mission_planne.Device.Registry.{
  Handle, MtpController, MsVolume, Controller, adb, mtp, storage, Registry, Host, new_registry,
}
use companion_mission_planne.Device.Registry.Volumes.{
  visit_volumes, register_volume, track_volume, scan_mass_storage,
}
use companion_mission_planne.Device.Registry.Refresh.Visits.{
  IsKeyed, IsTracked, IsShown, visit_devices-IsSound,
}
use companion_mission_planne.Device.Registry.Refresh.{
  Scan, listed, visit_devices, close_stale, is_shadow, hide_shadows, dedup, refresh_mtp, refresh,
  list_adb,
}

-- In addition, each open handle is of a device in the map.
abbrev pub IsCovered : Registry → Type 0
IsCovered r =
    IsTracked r × ((id : Text) → Table.has id r.open_mtp ≡ true → Table.has id r.devices ≡ true)

-- The second registry has the handles and controllers of the first, and at least its devices.
abbrev Grows : Registry → Registry → Type 0
Grows r r' =
    (r'.open_mtp ≡ r.open_mtp)
    × (r'.mtp_controllers ≡ r.mtp_controllers)
    × ((id : Text) → Table.has id r.devices ≡ true → Table.has id r'.devices ≡ true)

Grows-trans : (r s t : Registry) → Grows r s → Grows s t → Grows r t
Grows-trans r s t (p, q, f) (p', q', g) = (p' ∙ p, q' ∙ q, λ id k. g id (f id k))

Grows-IsCovered : (r s : Registry) → Grows r s → IsCovered r → IsCovered s
Grows-IsCovered r s (p, q, f) ((keyed, backed), shown) = (
  (rw p keyed, λ id k. rw p (backed id (subst (λ m. Table.has id m ≡ true) q k))),
  λ id k. f id (shown id (subst (λ m. Table.has id m ≡ true) p k)),
)

register-Grows : (mv : MsVolume) (r : Registry) → Grows r (register_volume mv r)
unfolding register_volume
register-Grows mv r = elim (Option-cases mv.controller) [
  | inl e ↦ rw (e, register_volume) (refl, refl, λ id q. q)
  | inr (c, e) ↦ elim (Bool-cases mv.is_media) [
    | inl p ↦
        rw (e, p, register_volume)
          (refl, refl, λ id q. has-put mv.id id (storage c) r.devices ∙ ground (arith, q))
    | inr p ↦ rw (e, p, register_volume) (refl, refl, λ id q. q)
  ]
]

empty-has : (id : Text) (m : Table Text Handle) → is_empty m ≡ true → Table.has id m ≡ true → ⊥
unfolding Table.has
empty-has id [] e q = ground (arith, q)
empty-has id (x ∷ m) e q = ground (arith, e)

pub new_registry-IsTracked : (has_adb : Bool) (root : Text) → IsTracked (new_registry has_adb root)
unfolding new_registry Table.has
new_registry-IsTracked has_adb root = (tt, λ id q. absurd (cc))

module _ {W : Type 0} (h : Host W) where
  -- What is closed: the handles not seen, with their controllers.
  close_stale-has :
      (id : Text) (handles : Table Text Handle) (s : Scan W)
      → (Table.has id (close_stale h handles s).registry.open_mtp
          ≡ Table.has id s.registry.open_mtp && (elem id s.seen || not (Table.has id handles)))
        × (Table.has id (close_stale h handles s).registry.mtp_controllers
            ≡ Table.has id s.registry.mtp_controllers
              && (elem id s.seen || not (Table.has id handles)))
  unfolding close_stale Table.has
  close_stale-has id [] s = (ground arith, ground arith)
  close_stale-has id ((j, d) ∷ handles) s = elim (Bool-cases (elem j s.seen)) [
    | inl e ↦
        let same : (j == id) ≡ true → elem j s.seen ≡ elem id s.seen =
          λ q. ap (λ k. elem k s.seen) (==→eq j id q) in
        let (p, q) = close_stale-has id handles s in
        rw (e, close_stale) (ground (arith, e, same, p), ground (arith, e, same, q))
    | inr e ↦
        let same : (j == id) ≡ true → elem j s.seen ≡ elem id s.seen =
          λ q. ap (λ k. elem k s.seen) (==→eq j id q) in
        let (p, q) = close_stale-has id handles _ in
        rw (e, close_stale)
          (
            p ∙ ground (arith, e, same, has-remove j id s.registry.open_mtp),
            q ∙ ground (arith, e, same, has-remove j id s.registry.mtp_controllers),
          )
  ]

  close_stale-IsKeyed :
      (handles : Table Text Handle) (s : Scan W)
      → IsKeyed s.registry.open_mtp
      → IsKeyed (close_stale h handles s).registry.open_mtp
  unfolding close_stale
  close_stale-IsKeyed [] s k = k
  close_stale-IsKeyed ((j, d) ∷ handles) s k = elim (Bool-cases (elem j s.seen)) [
    | inl e ↦ rw (e, close_stale) (close_stale-IsKeyed handles s k)
    | inr e ↦
        rw (e, close_stale) (close_stale-IsKeyed handles _ (remove-Each _ j s.registry.open_mtp k))
  ]

  close_stale-devices :
      (handles : Table Text Handle) (s : Scan W)
      → (close_stale h handles s).registry.devices ≡ s.registry.devices
  unfolding close_stale
  close_stale-devices [] s = refl
  close_stale-devices ((j, d) ∷ handles) s = elim (Bool-cases (elem j s.seen)) [
    | inl e ↦ rw (e, close_stale) (close_stale-devices handles s)
    | inr e ↦ rw (e, close_stale) (close_stale-devices handles _)
  ]

  hide_shadows-mtp :
      (w : W) (id : Text) (c : MtpController) (m : Table Text Controller)
      → Table.get id m ≡ some (mtp c)
      → Table.get id (hide_shadows h w m) ≡ some (mtp c)
  unfolding hide_shadows is_shadow Table.get
  hide_shadows-mtp w id c [] e = e
  hide_shadows-mtp w id c ((j, adb d) ∷ m) e = ground (arith, e, hide_shadows-mtp w id c m)
  hide_shadows-mtp w id c ((j, mtp d) ∷ m) e = ground (arith, e, hide_shadows-mtp w id c m)
  hide_shadows-mtp w id c ((j, storage d) ∷ m) e = ground (arith, e, hide_shadows-mtp w id c m)

  nothing_seen : (r : Registry) (w : W) → IsShown (record { world = w; registry = r; seen = [] })
  nothing_seen r w id q = absurd (ground (arith, q))

  -- The part on MTP: handles and controllers agree, and each open handle is of a device shown.
  refresh_mtp-IsCovered : (w : W) (r : Registry) → IsTracked r → IsCovered (refresh_mtp h w r).1
  unfolding refresh_mtp dedup
  refresh_mtp-IsCovered w r t =
      let s = visit_devices h (listed h w) (record { world = w; registry = r; seen = [] }) in
      let handles = s.registry.open_mtp in
      let u = close_stale h handles s in
      let ((keyed, backed), shown) = visit_devices-IsSound h (listed h w) _ (t, nothing_seen r w) in
      let stale = λ (id : Text). close_stale-has id handles s in
      let tracked : IsTracked u.registry =
        (close_stale-IsKeyed handles s keyed, λ id q. ground (arith, q, stale id, backed id)) in
      elim (Bool-cases (is_empty u.registry.open_mtp)) [
        | inl e ↦ rw (e, dedup) (tracked, λ id q. absurd (empty-has id u.registry.open_mtp e q))
        | inr e ↦
            rw (e, dedup)
              (
                tracked,
                λ id q.
                    let (c, p) = shown id (ground (arith, q, stale id)) in
                    has-get id _
                    ∙ rw
                        (hide_shadows-mtp u.world id c u.registry.devices
                          (ap (Table.get id) (close_stale-devices handles s) ∙ p))
                        refl,
              )
      ]

  track-Grows : (v : UsbVolume) (w : W) (r : Registry) → Grows r (track_volume h v w r).2
  unfolding track_volume
  track-Grows v w r = elim (Option-cases (Table.get v.id r.volumes)) [
    | inl e ↦ rw (e, track_volume) (refl, refl, λ id q. q)
    | inr (mv, e) ↦ rw (e, track_volume) (refl, refl, λ id q. q)
  ]

  visit-Grows :
      (vols : List UsbVolume) (w : W) (r : Registry) → Grows r (visit_volumes h vols w r).1
  unfolding visit_volumes
  visit-Grows [] w r = (refl, refl, λ id q. q)
  visit-Grows (v ∷ vols) w r =
      let (w', mv, r') = track_volume h v w r in
      let s = register_volume mv r' in
      let t = (visit_volumes h vols w' s).1 in
      Grows-trans r r' t (track-Grows v w r)
        (Grows-trans r' s t (register-Grows mv r') (visit-Grows vols w' s))

  scan-Grows : (w : W) (r : Registry) → Grows r (scan_mass_storage h w r).1
  unfolding scan_mass_storage
  scan-Grows w r = elim (Option-cases (h.scan w)) [
    | inl e ↦ rw (e, scan_mass_storage) (refl, refl, λ id q. q)
    | inr (vols, e) ↦ rw (e, scan_mass_storage) (visit-Grows vols w r)
  ]

  list_adb-same :
      (w : W) (r : Registry)
      → ((list_adb h w r).open_mtp ≡ r.open_mtp)
        × ((list_adb h w r).mtp_controllers ≡ r.mtp_controllers)
  unfolding list_adb
  list_adb-same w r = (ground arith, ground arith)

  -- If every handle is filed under its own identifier, and an open handle is filed under every
  -- identifier that has a cached controller, then this is so after Refresh, whatever adb, libmtp and
  -- the kernel answer; and then no handle is open for a device that is not in the map of devices.
  pub refresh-IsCovered : (w : W) (r : Registry) → IsTracked r → IsCovered (refresh h w r).1
  unfolding refresh
  refresh-IsCovered w r (keyed, backed) =
      let fresh : Registry = record r { devices = [] } in
      let (open', cached) = list_adb-same w fresh in
      let (w', r') = refresh_mtp h w (list_adb h w fresh) in
      Grows-IsCovered r' (scan_mass_storage h w' r').1 (scan-Grows w' r')
        (refresh_mtp-IsCovered w (list_adb h w fresh) (rw open' keyed, rw (open', cached) backed))
