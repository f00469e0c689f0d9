-- ===== src/Device/Service/Transfers/Left.antt =====
-- What a transfer without a preview leaves of the registry and of the world.
use companion_mission_planne.Base.{
  ◌≡◌, refl, sym, ◌∙◌, ap, inl, inr, arith, false, Option, none, some, some-injective, Text,
  text_Eq, is_empty, Result, ok, nat_Eq, Option-cases, Bool-cases, Result-cases,
}
use companion_mission_planne.Stores.Persist.{Codec, Faults}
use companion_mission_planne.Stores.Nested.{Nested}
use companion_mission_planne.Stores.Names
use companion_mission_planne.Device.Registry.{Controller, Host, lookup}
use companion_mission_planne.Device.Service.{
  DeviceError, TransferResult, Methods, Service, refreshed,
}
use companion_mission_planne.Device.Service.Settings.{save_name}
use companion_mission_planne.Device.Service.Transfers.{
  Metadata, Render, try_preview, keep_name, record_name, finish_transfer, transfer_with_meta,
}

-- Two states of the registry with one world and one set of devices.
abbrev IsBeside : {W : Type 0} → Service W → Service W → Type 0
IsBeside s s' = (s'.world ≡ s.world) × (s'.registry ≡ s.registry)

module _ {W : Type 0} where
  save_name-IsBeside :
      (cn : Codec (Nested Text)) (f : Faults) (device guid name : Text) (s s' : Service W)
      (store : Names.Store) (r : Result _ (Unit {0}))
      → save_name f cn device guid name store s ≡ some (s', r)
      → IsBeside s s'
  unfolding save_name
  save_name-IsBeside cn f device guid name s s' store r h =
      elim (Option-cases (Names.set cn f store s.disk device guid name)) [
        | inl e ↦ absurd (ground (arith, e, h))
        | inr ((x, disk, fails), e) ↦ ground (arith, e, h)
      ]

  beside : (s s' : Service W) → s ≡ s' → IsBeside s s'
  beside s s' same =
      (ap (λ (x : Service W). x.world) (sym same), ap (λ (x : Service W). x.registry) (sym same))

  keep_name-IsBeside :
      (cn : Codec (Nested Text)) (f : Faults) (device guid name : Text) (s s' : Service W)
      → keep_name cn f device guid name s ≡ some s'
      → IsBeside s s'
  unfolding keep_name
  keep_name-IsBeside cn f device guid name s s' h = elim (Option-cases s.names) [
    | inl e ↦ beside s s' (ground (arith, e, h))
    | inr (store, e) ↦ elim (Option-cases (save_name f cn device guid name store s)) [
      | inl q ↦ absurd (ground (arith, e, q, h))
      | inr ((s1, r), q) ↦
          let same : s1 ≡ s' = ground (arith, e, q, h) in
          save_name-IsBeside cn f device guid name s s' store r
            (q ∙ ap (λ (x : Service W). some (x, r)) same)
    ]
  ]

  record_name-IsBeside :
      {F : Type 0} (cn : Codec (Nested Text)) (f : Faults) (device guid : Text)
      (meta : Option (Metadata F)) (s s' : Service W)
      → record_name cn f device guid meta s ≡ some s'
      → IsBeside s s'
  unfolding record_name
  record_name-IsBeside cn f device guid none s s' h = beside s s' (some-injective s s' h)
  record_name-IsBeside cn f device guid (some meta) s s' h =
      elim (Bool-cases (is_empty meta.name)) [
        | inl e ↦ beside s s' (ground (arith, e, h))
        | inr e ↦ keep_name-IsBeside cn f device guid meta.name s s' (ground (arith, e, h))
      ]

  try_preview-off :
      {F : Type 0} (m : Methods W) (g : Render W F) (c : Controller) (guid : Text)
      (meta : Option (Metadata F)) (s : Service W)
      → try_preview m g false c guid meta s ≡ s
  unfolding try_preview
  try_preview-off m g c guid none s = refl
  try_preview-off m g c guid (some meta) s = refl

  finish_transfer-left :
      {F : Type 0} (hs : Host W) (m : Methods W) (g : Render W F) (cn : Codec (Nested Text))
      (f : Faults) (c : Controller) (device guid : Text) (meta : Option (Metadata F))
      (res out : TransferResult) (s s' : Service W)
      → finish_transfer hs m g cn f false c device guid meta res s ≡ some (s', ok out)
      → IsBeside s s' × (res ≡ out)
  unfolding finish_transfer
  finish_transfer-left hs m g cn f c device guid meta res out s s' h =
      elim (Option-cases (record_name cn f device guid meta s)) [
        | inl e ↦ absurd (ground (arith, e, h))
        | inr (s1, e) ↦
            let off : try_preview m g false c guid meta s1 ≡ s' = ground (arith, e, h) in
            let same : s1 ≡ s' = sym (try_preview-off m g c guid meta s1) ∙ off in
            (
              record_name-IsBeside cn f device guid meta s s' (e ∙ ap some same),
              ground (arith, e, h),
            )
      ]

  -- Without a preview, a transfer that succeeds has left what the controller's write has left.
  pub transfer-left :
      {F : Type 0} (h : Host W) (m : Methods W) (g : Render W F) (cn : Codec (Nested Text))
      (f : Faults) (device guid kmz : Text) (meta : Option (Metadata F)) (s s' : Service W)
      (c : Controller) (res : TransferResult)
      → lookup device (refreshed h m s).registry ≡ some c
      → transfer_with_meta h m g cn f false device guid kmz meta s ≡ some (s', ok res)
      → (m.write_kmz c (refreshed h m s).world guid kmz ≡ (s'.world, ok res))
        × (s'.registry ≡ (refreshed h m s).registry)
  unfolding transfer_with_meta finish_transfer
  transfer-left h m g cn f device guid kmz meta s s' c res known q =
      let s1 = refreshed h m s in
      let w = m.write_kmz c s1.world guid kmz in
      elim (Result-cases w.1) [
        | inl (out, r) ↦
            let s2 : Service W = record s1 { world = w.0 } in
            let last : finish_transfer h m g cn f false c device guid meta out s2
                ≡ some (s', ok res) =
              ground (arith, known, r, q) in
            let (b, same) = finish_transfer-left h m g cn f c device guid meta out res s2 s' last in
            (
              ap (λ (x : W). (x, w.1)) (sym b.0)
                  ∙ ap (λ (x : Result DeviceError TransferResult). (s'.world, x)) (r ∙ ap ok same),
              b.1,
            )
        | inr (e, r) ↦ absurd (ground (arith, known, r, q))
      ]
