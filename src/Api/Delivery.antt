-- ===== src/Api/Delivery.antt =====
-- The way of a mission through the service: what `handleTransfer` has stored on a device behind MTP is
-- what `handleDownloadKMZ` answers with.
use mathlib.Core.Path.{subst}
use companion_mission_planne.Base.{
  ℕ, codes, ◌++◌, ◌+◌, ◌≤◌, ◌≡◌, refl, sym, ◌∙◌, ap, inl, inr, arith, Bool, true, false, Option,
  some, List, Text, text_Eq, length, Result, ok, err,
}
use companion_mission_planne.Base.Table.{Table}
use companion_mission_planne.Stores.Persist.{Codec, Faults}
use companion_mission_planne.Stores.Nested.{Nested}
use companion_mission_planne.Kmz.Guid.{is_valid_guid}
use companion_mission_planne.Kmz.Archive.{Entry, max_size}
use companion_mission_planne.Device.Mtp.{FileEntry, Transport, Located}
use companion_mission_planne.Device.Mtp.Missions.RoundTrip.{IsMtp, IsSlot, HoldsOne}
use companion_mission_planne.Device.Adb.{Goadb}
use companion_mission_planne.Device.Registry.{mtp, MtpController, Host, lookup}
use companion_mission_planne.Device.Service.{DeviceError, Methods, Service, refreshed, read_kmz}
use companion_mission_planne.Device.Service.Transfers.{Metadata, Render, transfer_with_meta}
use companion_mission_planne.Device.Service.Redraws.{Decoding}
use companion_mission_planne.Device.Dispatch.{World}
use companion_mission_planne.Device.Dispatch.Stored.{stored_by, transfer_with_meta-read_kmz}
use companion_mission_planne.Api.{Response, bytes}
use companion_mission_planne.Api.Transfer.{
  Upload, Form, Formats, Server, rewrite_upload, rejected, vet, wants_images, send_transfer,
  handle_transfer,
}
use companion_mission_planne.Api.Transfer.Checked.{IsSound, vet-IsSound, Vetted-cases}
use companion_mission_planne.Api.Transfer.Accepted.{vet_accepted, rejected_status, replied_ok}
use companion_mission_planne.Api.Downloads.{attachment, kmz_of, download_name, handle_download_kmz}

module _ {W : Type 0} (h : Host W) (m : Methods W) where
  attached :
      (kind name content : Text) (p : Service W × Result DeviceError Text)
      → p.1 ≡ ok content
      → (attachment m kind name (kmz_of m p)).1.body ≡ bytes content
  unfolding attachment kmz_of
  attached kind name content (s, ok stored) e = ground (arith, e)
  attached kind name content (s, err bad) e = absurd (cc)

  kmz_body :
      (device guid query content : Text) (s : Service W)
      → is_valid_guid guid ≡ true
      → (read_kmz h m device guid s).1 ≡ ok content
      → (handle_download_kmz h m device guid query s).1.body ≡ bytes content
  unfolding handle_download_kmz
  kmz_body device guid query content s v e =
      rw (v, handle_download_kmz)
        (attached (codes "application/vnd.google-earth.kmz")
          (download_name m (guid ++ codes ".kmz") (codes ".kmz") query) content
          (read_kmz h m device guid s) e)

module _ {M A : Type 0} (t : Transport M) (laws : IsMtp t) (a : Goadb A)
    (json : Table Text ℕ → Text) (placeholder : Option Text → Option Text)
    (decodes : Text → Bool) where
  abbrev pub controllers : Methods (World M A)
  controllers = stored_by t a json placeholder decodes

  -- A mission whose upload is answered with 200 is at most 10 MB, has been rewritten for its slot,
  -- and a download of the slot afterwards gives the bytes of the rewriting. The slot is on a device
  -- behind MTP that keeps the promises of MTP, is known after the refresh and has been walked; the
  -- slot's folder has at most one entry of the name of its KMZ; neither a preview nor waypoint images
  -- are made.
  pub handle_transfer-handle_download_kmz :
      {F : Type 0} (h : Host (World M A)) (g : Render (World M A) F) (dec : Decoding F)
      (cn : Codec (Nested Text)) (f : Faults) (x : Formats F) (ts : ℕ)
      (device guid query content : Text) (blank : Metadata F) (form : Form) (upload : Upload)
      (sv sv' : Server (World M A)) (r : Response) (c : MtpController) (l : Located)
      (dir slot : FileEntry) (listed : List FileEntry)
      → lookup device (refreshed h controllers sv.service).registry ≡ some (mtp c)
      → ((refreshed h controllers sv.service).world.mtp_at c.handle.ref).located ≡ ok l
      → l.waypoint_dir ≡ some dir
      → IsSlot t laws
          ((refreshed h controllers sv.service).world.mtp_at c.handle.ref).device
          dir
          slot
          listed
          guid
      → HoldsOne t laws slot listed guid
      → form.kmz ≡ some upload
      → upload.content ≡ some content
      → wants_images (some form) ≡ false
      → handle_transfer h controllers g dec cn f x false ts device guid blank (some form) sv
        ≡ some (sv', r)
      → r.status ≡ 200
      → (entries : List Entry) × (length content ≤ max_size)
        × (rewrite_upload x guid content ≡ ok entries)
        × ((handle_download_kmz h controllers device guid query sv'.service).1.body
            ≡ bytes (x.write_zip entries))
  unfolding handle_transfer send_transfer
  handle_transfer-handle_download_kmz h g dec cn f x ts device guid query content blank form upload
        sv sv' r c l dir slot listed known walked way in_place one sent read plain done success =
      elim (Vetted-cases (vet x guid blank (some form))) [
        | inl (bad, e) ↦
            let refusal : IsSound x guid (some form) (rejected bad) =
              subst (IsSound x guid (some form)) e (vet-IsSound x guid blank (some form)) in
            let same : bad ≡ r = ground (arith, e, done) in
            absurd (rejected_status bad refusal (ap (λ (y : Response). y.status) same ∙ success))
        | inr (entries, meta, e) ↦
            let (v, short, rewritten) =
              vet_accepted x guid blank meta form content entries upload sent read e in
            let kmz = x.write_zip entries in
            let step : handle_transfer h controllers g dec cn f x false ts device guid blank
                  (some form) sv
                ≡ send_transfer h controllers g dec cn f false ts device guid (some form) kmz meta
                    sv =
              rw (e, handle_transfer) refl in
            let (res, moved) =
              replied_ok h controllers g dec cn f ts device guid form
                (record sv { active_transfers = sv.active_transfers + 1 }) sv' r
                (transfer_with_meta h controllers g cn f false device guid kmz (some meta)
                  sv.service)
                plain (sym step ∙ done) success in
            let (back, named) =
              transfer_with_meta-read_kmz t a json placeholder decodes laws h g cn f device guid kmz
                (some meta) sv.service sv'.service res c l dir slot listed known walked way in_place
                one moved in
            (
              entries,
              short,
              rewritten,
              kmz_body h controllers device guid query kmz sv'.service v back,
            )
      ]
