-- ===== src/Device/Registry/Refresh/Visits.antt =====
-- What the loop of Refresh over the MTP devices keeps between the map of open handles, the cached
-- controllers and the devices shown.
use mathlib.Core.Path.{subst}
use companion_mission_planne.Base.{
  ℕ, ◌≡◌, refl, ◌∙◌, inl, inr, arith, true, some, List, [], ◌∷◌, Text, text_Eq, elem, ◌==◌, ==_refl,
  ==→eq, Bool-cases, Option-cases,
}
use companion_mission_planne.Base.Table
use companion_mission_planne.Base.Table.{
  Table, Each, put-Each, remove-Each, has-put, has-get, has-remove, get-put,
}
use companion_mission_planne.Device.Registry.{
  Handle, MtpController, mtp, Registry, Host, find_open_by_bus_dev,
}
use companion_mission_planne.Device.Registry.Refresh.{
  Scan, controller_for, keep_device, open_device, drop_handle, ping_or_reopen, reuse_handle,
  visit_device, visit_devices,
}

-- The key of a handle is its identifier.
abbrev pub IsKeyed : Table Text Handle → Type 0
IsKeyed = Each (λ id (d : Handle). d.identifier ≡ id)

-- A controller is cached only under an identifier that an open handle is filed under.
abbrev pub IsBacked : Registry → Type 0
IsBacked r = (id : Text) → Table.has id r.mtp_controllers ≡ true → Table.has id r.open_mtp ≡ true

abbrev pub IsTracked : Registry → Type 0
IsTracked r = IsKeyed r.open_mtp × IsBacked r

-- The identifiers seen so far are in the map of devices, as MTP devices.
abbrev pub IsShown : {W : Type 0} → Scan W → Type 0
IsShown s =
    (id : Text)
    → elem id s.seen ≡ true
    → (c : MtpController) × (Table.get id s.registry.devices ≡ some (mtp c))

abbrev pub IsSound : {W : Type 0} → Scan W → Type 0
IsSound s = IsTracked s.registry × IsShown s

find-has :
    (bus dev : ℕ) (m : Table Text Handle) (d : Handle)
    → IsKeyed m
    → find_open_by_bus_dev bus dev m ≡ some d
    → Table.has d.identifier m ≡ true
unfolding find_open_by_bus_dev Table.has
find-has bus dev [] d k e = cc
find-has bus dev ((id, d') ∷ m) d (here, k) e =
    ground (arith, e, here, ==_refl d.identifier, find-has bus dev m d k)

module _ {W : Type 0} where
  keep_device-IsSound :
      (id : Text) (c : MtpController) (s : Scan W) → IsSound s → IsSound (keep_device id (c, s))
  unfolding keep_device
  keep_device-IsSound id c s (t, shown) = (
    t,
    λ j q. elim (Bool-cases (id == j)) [
      | inl e ↦ (c, get-put id j (mtp c) s.registry.devices ∙ rw e refl)
      | inr e ↦
          let (c', p) = shown j (ground (arith, e, q)) in
          (c', get-put id j (mtp c) s.registry.devices ∙ rw e p)
    ],
  )

module _ {W : Type 0} (h : Host W) where
  controller_for-IsSound :
      (d : Handle) (s : Scan W)
      → Table.has d.identifier s.registry.open_mtp ≡ true
      → IsSound s
      → IsSound (controller_for h d s).1
  unfolding controller_for
  controller_for-IsSound d s o ((k, b), shown) =
      elim (Option-cases (Table.get d.identifier s.registry.mtp_controllers)) [
        | inr (c, e) ↦ rw (e, controller_for) ((k, b), shown)
        | inl e ↦
            rw (e, controller_for)
              (
                (
                  k,
                  λ j q. elim (Bool-cases (d.identifier == j)) [
                    | inl p ↦ subst (λ i. Table.has i s.registry.open_mtp ≡ true) (==→eq _ _ p) o
                    | inr p ↦ b j (
                        ground (
                          arith,
                          p,
                          q,
                          has-put d.identifier j (record { handle = d }) s.registry.mtp_controllers,
                        ))
                  ],
                ),
                shown,
              )
      ]

  keep_controller-IsSound :
      (d : Handle) (s : Scan W)
      → Table.has d.identifier s.registry.open_mtp ≡ true
      → IsSound s
      → IsSound (keep_device d.identifier (controller_for h d s))
  keep_controller-IsSound d s o t =
      keep_device-IsSound d.identifier _ _ (controller_for-IsSound d s o t)

  open_device-IsSound : (md : Handle) (s : Scan W) → IsSound s → IsSound (open_device h md s)
  unfolding open_device
  open_device-IsSound md s ((k, b), shown) = elim (Option-cases (h.open_session s.world md).1) [
    | inl e ↦ rw (e, open_device) ((k, b), shown)
    | inr (id, e) ↦
        let d : Handle = record md { identifier = id } in
        rw (e, open_device)
          (keep_controller-IsSound d _
            (has-put id id d s.registry.open_mtp ∙ ground (arith, ==_refl id))
            (
              (
                put-Each _ id d s.registry.open_mtp refl k,
                λ j q. ground (arith, b j q, has-put id j d s.registry.open_mtp),
              ),
              shown,
            ))
  ]

  drop_handle-IsSound : (d : Handle) (s : Scan W) → IsSound s → IsSound (drop_handle h d s)
  unfolding drop_handle
  drop_handle-IsSound d s ((k, b), shown) = (
    (
      remove-Each _ d.identifier s.registry.open_mtp k,
      λ j q. ground (
        arith,
        q,
        b j,
        has-remove d.identifier j s.registry.open_mtp,
        has-remove d.identifier j s.registry.mtp_controllers,
      ),
    ),
    shown,
  )

  ping_or_reopen-IsSound :
      (md d : Handle) (s : Scan W)
      → Table.has d.identifier s.registry.open_mtp ≡ true
      → IsSound s
      → IsSound (ping_or_reopen h md d s)
  unfolding ping_or_reopen
  ping_or_reopen-IsSound md d s o t = elim (Bool-cases (h.ping s.world d)) [
    | inl e ↦ rw (e, ping_or_reopen) (keep_controller-IsSound d s o t)
    | inr e ↦ rw (e, ping_or_reopen) (open_device-IsSound md _ (drop_handle-IsSound d s t))
  ]

  reuse_handle-IsSound :
      (md d : Handle) (s : Scan W)
      → Table.has d.identifier s.registry.open_mtp ≡ true
      → IsSound s
      → IsSound (reuse_handle h md d s)
  unfolding reuse_handle
  reuse_handle-IsSound md d s o t =
      elim (Option-cases (Table.get d.identifier s.registry.mtp_controllers)) [
        | inl e ↦ rw (e, reuse_handle) (ping_or_reopen-IsSound md d s o t)
        | inr (c, e) ↦ elim (Bool-cases (h.is_locating s.world c)) [
          | inl q ↦ rw (e, q, reuse_handle) (keep_device-IsSound d.identifier c s t)
          | inr q ↦ rw (e, q, reuse_handle) (ping_or_reopen-IsSound md d s o t)
        ]
      ]

  visit_device-IsSound : (md : Handle) (s : Scan W) → IsSound s → IsSound (visit_device h md s)
  unfolding visit_device
  visit_device-IsSound md s t =
      elim (Option-cases (find_open_by_bus_dev md.usb_bus md.usb_dev s.registry.open_mtp)) [
        | inl e ↦ rw (e, visit_device) (open_device-IsSound md s t)
        | inr (d, e) ↦
            rw (e, visit_device)
              (reuse_handle-IsSound md d s
                (find-has md.usb_bus md.usb_dev s.registry.open_mtp d t.0.0 e) t)
      ]

  pub visit_devices-IsSound :
      (devs : List Handle) (s : Scan W) → IsSound s → IsSound (visit_devices h devs s)
  unfolding visit_devices
  visit_devices-IsSound [] s t = t
  visit_devices-IsSound (md ∷ devs) s t =
      visit_devices-IsSound devs (visit_device h md s) (visit_device-IsSound md s t)
