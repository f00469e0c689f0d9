-- ===== src/Device/Dispatch/Stored.antt =====
-- A transfer through the registry to a device behind MTP, and the read of its slot afterwards.
use companion_mission_planne.Base.{
  ℕ, ◌≡◌, sym, ◌∙◌, ap, inl, inr, arith, Bool, true, false, Option, some, List, Text, text_Eq,
  Result, ok, ◌==◌, ==_refl, nat_Eq, Result-cases, ok-injective,
}
use companion_mission_planne.Base.Table.{Table}
use companion_mission_planne.Stores.Persist.{Codec, Faults}
use companion_mission_planne.Stores.Nested.{Nested}
use companion_mission_planne.Device.Mtp.{FileEntry, Transport, MtpError, Located}
use companion_mission_planne.Device.Mtp.Missions
use companion_mission_planne.Device.Mtp.Missions.RoundTrip.{
  IsMtp, IsSlot, HoldsOne, write_kmz-read_kmz,
}
use companion_mission_planne.Device.Adb.{Goadb}
use companion_mission_planne.Device.Registry.{mtp, MtpController, Host, lookup}
use companion_mission_planne.Device.Service.{
  DeviceError, TransferResult, Methods, Service, refreshed, read_kmz,
}
use companion_mission_planne.Device.Service.Transfers.{Metadata, Render, transfer_with_meta}
use companion_mission_planne.Device.Dispatch.{MtpState, World, put_mtp, wrap, from_mtp}
use companion_mission_planne.Device.Dispatch.Missions.{
  on_mtp, transferred_to, write_kmz, kmz_reader,
}
use companion_mission_planne.Device.Dispatch.Controllers.{methods}
use companion_mission_planne.Device.Service.Transfers.Left.{transfer-left}

module _ {M A : Type 0} (t : Transport M) (a : Goadb A) where
  -- What a write that succeeds has done to the device behind MTP.
  write_kmz-at :
      (c : MtpController) (w w' : World M A) (guid kmz : Text) (res : TransferResult)
      → write_kmz t a (mtp c) w guid kmz ≡ (w', ok res)
      → (d' : M) × (w' ≡ put_mtp c.handle.ref (record (w.mtp_at c.handle.ref) { device = d' }) w)
        × (Missions.write_kmz t
              (w.mtp_at c.handle.ref).located
              (w.mtp_at c.handle.ref).device
              guid
              (some kmz)
            ≡ (d', ok res.file_size))
        × (res.guid ≡ guid)
  unfolding write_kmz on_mtp transferred_to wrap
  write_kmz-at c w w' guid kmz res h =
      let x = w.mtp_at c.handle.ref in
      let out = Missions.write_kmz t x.located x.device guid (some kmz) in
      elim (Result-cases out.1) [
        | inl (n, r) ↦
            let made : record { guid = guid; file_size = n } ≡ res = ok-injective (
              sym (ap (λ (y : Result MtpError ℕ). transferred_to guid (wrap from_mtp y)) r)
              ∙ ap (λ (p : World M A × Result DeviceError TransferResult). p.1) h) in
            (
              out.0,
              sym (ap (λ (p : World M A × Result DeviceError TransferResult). p.0) h),
              ap (λ (y : Result MtpError ℕ). (out.0, y)) r
                  ∙ ap (λ (y : TransferResult). (out.0, ok y.file_size)) made,
              sym (ap (λ (y : TransferResult). y.guid) made),
            )
        | inr (e, r) ↦ absurd (ground (arith, r, h))
      ]

module _ {M A : Type 0} where
  put_mtp-at : (n : ℕ) (x : MtpState M) (w : World M A) → (put_mtp n x w).mtp_at n ≡ x
  unfolding put_mtp
  put_mtp-at n x w = let same : (n == n) ≡ true = ==_refl n in ground (arith, same)

module _ {M A : Type 0} (t : Transport M) (a : Goadb A) (json : Table Text ℕ → Text)
    (placeholder : Option Text → Option Text) (decodes : Text → Bool) where
  abbrev pub stored_by : Methods (World M A)
  stored_by = methods t a json placeholder decodes

  -- What a read gives after a device's state was put into the world.
  read_put :
      (h : Host (World M A)) (c : MtpController) (device guid : Text) (x : MtpState M)
      (w : World M A) (s : Service (World M A))
      → lookup device s.registry ≡ some (mtp c)
      → s.world ≡ put_mtp c.handle.ref x w
      → (read_kmz h stored_by device guid s).1
        ≡ wrap from_mtp (Missions.read_kmz t x.located x.device guid)
  unfolding read_kmz methods kmz_reader
  read_put h c device guid x w s known e =
      let here : s.world.mtp_at c.handle.ref ≡ x =
        ap (λ (v : World M A). v.mtp_at c.handle.ref) e ∙ put_mtp-at c.handle.ref x w in
      rw (known, read_kmz)
        (ap (λ (y : MtpState M). wrap from_mtp (Missions.read_kmz t y.located y.device guid)) here)

  -- A mission that the registry has transferred to a slot of a device behind MTP is what it reads
  -- back from the slot, and the result names the slot. The device is known after the refresh, it has
  -- been walked and keeps the promises of MTP, its slot's folder has at most one entry of the name
  -- of its KMZ, and no preview is made.
  pub transfer_with_meta-read_kmz :
      {F : Type 0} (laws : IsMtp t) (h : Host (World M A)) (g : Render (World M A) F)
      (cn : Codec (Nested Text)) (f : Faults) (device guid kmz : Text) (meta : Option (Metadata F))
      (s s' : Service (World M A)) (res : TransferResult) (c : MtpController) (l : Located)
      (dir slot : FileEntry) (entries : List FileEntry)
      → lookup device (refreshed h stored_by s).registry ≡ some (mtp c)
      → ((refreshed h stored_by s).world.mtp_at c.handle.ref).located ≡ ok l
      → l.waypoint_dir ≡ some dir
      → IsSlot t laws
          ((refreshed h stored_by s).world.mtp_at c.handle.ref).device
          dir
          slot
          entries
          guid
      → HoldsOne t laws slot entries guid
      → transfer_with_meta h stored_by g cn f false device guid kmz meta s ≡ some (s', ok res)
      → ((read_kmz h stored_by device guid s').1 ≡ ok kmz) × (res.guid ≡ guid)
  unfolding methods wrap
  transfer_with_meta-read_kmz laws h g cn f device guid kmz meta s s' res c l dir slot entries known
        walked way one_slot one q =
      let w = (refreshed h stored_by s).world in
      let x = w.mtp_at c.handle.ref in
      let (left, kept) =
        transfer-left h stored_by g cn f device guid kmz meta s s' (mtp c) res known q in
      let (d', there, sent, named) = write_kmz-at t a c w s'.world guid kmz res left in
      let at_ok : Missions.write_kmz t (ok l) x.device guid (some kmz) ≡ (d', ok res.file_size) =
        ap (λ (y : Result MtpError Located). Missions.write_kmz t y x.device guid (some kmz))
          (sym walked)
        ∙ sent in
      (
        read_put h c device guid (record x { device = d' }) w s' (ap (lookup device) kept ∙ known)
              there
            ∙ ap (λ (y : Result MtpError Located). wrap from_mtp (Missions.read_kmz t y d' guid))
                walked
            ∙ ap (wrap from_mtp) (
                write_kmz-read_kmz t laws x.device d' l dir slot entries guid kmz res.file_size way
                  one_slot one at_ok),
        named,
      )
