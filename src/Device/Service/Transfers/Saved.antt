-- ===== src/Device/Service/Transfers/Saved.antt =====
-- The saved name after a transfer and after a slot is cleared.
use companion_mission_planne.Base.{
  ◌≡◌, refl, sym, ◌∙◌, ap, inl, inr, arith, Bool, false, ◌&&◌, Option, none, some, some-injective,
  [], Text, text_Eq, is_empty, ◌==◌, if◌then◌else◌, ok, Option-cases,
}
use companion_mission_planne.Stores.Persist.{Codec, Faults}
use companion_mission_planne.Stores.Nested.{Nested}
use companion_mission_planne.Stores.Names
use companion_mission_planne.Stores.Names.Laws.{get-set}
use companion_mission_planne.Device.Registry.{Controller, Host, lookup}
use companion_mission_planne.Device.Service.{TransferResult, Methods, Service, refreshed}
use companion_mission_planne.Device.Service.Settings.{save_name}
use companion_mission_planne.Device.Service.Transfers.{
  Metadata, Render, write_preview, upload_preview, try_preview, keep_name, record_name,
  finish_transfer, transfer_with_meta, clear_slot,
}

-- The store holds `name` for this slot, and for every other slot what `old` holds.
abbrev pub IsRenamed : Names.Store → Text → Text → Text → Option Names.Store → Type 0
IsRenamed old device guid name now =
    (new : Names.Store) × (now ≡ some new)
    × ((other slot : Text)
        → Names.get new other slot
          ≡ (if (device == other) && (guid == slot) then name else Names.get old other slot))

module _ {W : Type 0} where
  keep_name-IsRenamed :
      (cn : Codec (Nested Text)) (f : Faults) (device guid name : Text) (s : Service W)
      (store : Names.Store) (m : Nested Text)
      → s.names ≡ some store
      → store.names ≡ some m
      → (s' : Service W) × (keep_name cn f device guid name s ≡ some s')
        × IsRenamed store device guid name s'.names
  unfolding keep_name save_name
  keep_name-IsRenamed cn f device guid name s store m e q =
      let (r, done, here) = get-set cn f store s.disk m device guid name [] [] q in
      (
        record s { names = some r.0; disk = r.1 },
        rw (e, done, keep_name, save_name) refl,
        (
          r.0,
          refl,
          λ other slot.
              let (r', done', there) = get-set cn f store s.disk m device guid name other slot q in
              let same : r' ≡ r = some-injective _ _ (sym done' ∙ done) in
              ap (λ x. Names.get x.0 other slot) (sym same) ∙ there,
        ),
      )

  write_preview-names :
      (m : Methods W) (c : Controller) (guid jpg : Text) (s : Service W)
      → (write_preview m c guid jpg s).0.names ≡ s.names
  unfolding write_preview
  write_preview-names m c guid jpg s = elim (Option-cases (m.preview_writer c)) [
    | inl e ↦ rw (e, write_preview) refl
    | inr (write, e) ↦ rw (e, write_preview) refl
  ]

  upload_preview-names :
      {F : Type 0} (m : Methods W) (g : Render W F) (c : Controller) (guid : Text)
      (meta : Metadata F) (s : Service W)
      → (upload_preview m g c guid meta s).0.names ≡ s.names
  unfolding upload_preview
  upload_preview-names m g c guid meta s = elim (Option-cases (g.generate s.world meta).1) [
    | inl e ↦ rw (e, upload_preview) refl
    | inr (jpg, e) ↦ rw (e, upload_preview) (write_preview-names m c guid jpg _)
  ]

  try_preview-names :
      {F : Type 0} (m : Methods W) (g : Render W F) (enabled : Bool) (c : Controller) (guid : Text)
      (meta : Option (Metadata F)) (s : Service W)
      → (try_preview m g enabled c guid meta s).names ≡ s.names
  unfolding try_preview
  try_preview-names m g enabled c guid none s = refl
  try_preview-names m g enabled c guid (some meta) s =
      ground (arith, upload_preview-names m g c guid meta s)

-- When the controller has written the KMZ, the transfer succeeds with its result, whatever becomes
-- of the preview and of the file of names, and a name that came with the KMZ is the saved name of
-- this slot, while no other saved name changes.
pub transfer_with_meta-IsRenamed :
    {W F : Type 0} (h : Host W) (m : Methods W) (g : Render W F) (cn : Codec (Nested Text))
    (f : Faults) (enabled : Bool) (device guid kmz : Text) (meta : Metadata F) (s : Service W)
    (c : Controller) (res : TransferResult) (store : Names.Store) (names : Nested Text)
    → lookup device (refreshed h m s).registry ≡ some c
    → (m.write_kmz c (refreshed h m s).world guid kmz).1 ≡ ok res
    → s.names ≡ some store
    → store.names ≡ some names
    → is_empty meta.name ≡ false
    → (s' : Service W) × (transfer_with_meta h m g cn f enabled device guid kmz (some meta) s
        ≡ some (s', ok res))
      × IsRenamed store device guid meta.name s'.names
unfolding transfer_with_meta finish_transfer record_name refreshed
transfer_with_meta-IsRenamed h m g cn f enabled device guid kmz meta s c res store names known
      written e q n =
    let s1 = refreshed h m s in
    let s2 = record s1 { world = (m.write_kmz c s1.world guid kmz).0 } in
    let (s3, done, renamed) = keep_name-IsRenamed cn f device guid meta.name s2 store names e q in
    (
      try_preview m g enabled c guid (some meta) s3,
      rw (known, written, n, done, transfer_with_meta, finish_transfer, record_name) refl,
      rw (try_preview-names m g enabled c guid (some meta) s3) renamed,
    )

-- When the controller has cleared the slot, the call succeeds, and the slot has no saved name any
-- more, so that it is listed under its default name; no other saved name changes.
pub clear_slot-IsRenamed :
    {W : Type 0} (h : Host W) (m : Methods W) (cn : Codec (Nested Text)) (f : Faults)
    (device guid : Text) (s : Service W) (c : Controller) (store : Names.Store)
    (names : Nested Text)
    → lookup device (refreshed h m s).registry ≡ some c
    → (m.clear_slot c (refreshed h m s).world guid).1 ≡ ok tt
    → s.names ≡ some store
    → store.names ≡ some names
    → (s' : Service W) × (clear_slot h m cn f device guid s ≡ some (s', ok tt))
      × IsRenamed store device guid [] s'.names
unfolding clear_slot refreshed
clear_slot-IsRenamed h m cn f device guid s c store names known cleared e q =
    let s1 = refreshed h m s in
    let s2 = record s1 { world = (m.clear_slot c s1.world guid).0 } in
    let (s3, done, renamed) = keep_name-IsRenamed cn f device guid [] s2 store names e q in
    (s3, rw (known, cleared, done, clear_slot) refl, renamed)
