-- ===== src/Api/Transfer/Accepted.antt =====
-- What is known of a transfer that `handleTransfer` answers with a success.
use mathlib.Core.Path.{subst}
use companion_mission_planne.Base.{
  ℕ, ◌≤◌, ◌≡◌, refl, sym, ◌∙◌, ap, inl, inr, arith, true, false, Option, none, some, some-injective,
  List, Text, text_Eq, length, ltb, Result, ok, err, Result-cases, Bool-cases,
}
use companion_mission_planne.Stores.Persist.{Codec, Faults}
use companion_mission_planne.Stores.Nested.{Nested}
use companion_mission_planne.Kmz.Guid.{is_valid_guid}
use companion_mission_planne.Kmz.Archive.{Entry, max_size}
use companion_mission_planne.Device.Registry.{Host}
use companion_mission_planne.Device.Service.{DeviceError, TransferResult, Methods, Service}
use companion_mission_planne.Device.Service.Transfers.{Metadata, Render}
use companion_mission_planne.Device.Service.Redraws.{Decoding}
use companion_mission_planne.Api.{
  Response, write_error, kmz_too_large, kmz_invalid, invalid_guid, handle_registry_error,
}
use companion_mission_planne.Api.Transfer.{
  Upload, Form, Formats, Server, limited, metadata_of, rewrite_upload, Vetted, rejected, accepted,
  vet_metadata, vet_archive, vet_content, vet_form, vet, wants_images, complete, replied, lowered,
}
use companion_mission_planne.Api.Transfer.Checked.{take-short, ltb-≤, IsRefusal}

metadata_accepted :
    {F : Type 0} (entries kept : List Entry) (meta : Metadata F) (o : Option (Metadata F))
    → vet_metadata entries o ≡ accepted kept meta
    → entries ≡ kept
unfolding vet_metadata write_error
metadata_accepted entries kept meta none h = ground (arith, h)
metadata_accepted entries kept meta (some given) h = ground (arith, h)

never :
    {F : Type 0} {v : Vetted F} {r : Response} {entries : List Entry} {meta : Metadata F}
    → v ≡ rejected r
    → v ≡ accepted entries meta
    → ⊥
never e h = let clash : rejected _ ≡ accepted _ _ = sym e ∙ h in cc

archive_accepted :
    {F : Type 0} (x : Formats F) (form : Form) (guid : Text) (blank meta : Metadata F) (raw : Text)
    (entries : List Entry)
    → vet_archive x form guid blank raw ≡ accepted entries meta
    → rewrite_upload x guid raw ≡ ok entries
unfolding vet_archive
archive_accepted x form guid blank meta raw entries h =
    elim (Result-cases (rewrite_upload x guid raw)) [
      | inr (bad, e) ↦
          let step : vet_archive x form guid blank raw ≡ rejected (write_error 400 kmz_invalid) =
            rw (e, vet_archive) refl in
          absurd (never step h)
      | inl (kept, e) ↦
          let step : vet_archive x form guid blank raw
              ≡ vet_metadata kept (metadata_of x form blank) =
            rw (e, vet_archive) refl in
          e ∙ ap ok (metadata_accepted kept entries meta (metadata_of x form blank) (sym step ∙ h))
    ]

module _ {F : Type 0} (x : Formats F) (guid : Text) (blank meta : Metadata F) (form : Form)
    (content : Text) (entries : List Entry) where
  content_accepted :
      (upload : Upload)
      → upload.content ≡ some content
      → vet_content x form guid blank upload ≡ accepted entries meta
      → (length content ≤ max_size) × (rewrite_upload x guid content ≡ ok entries)
  unfolding vet_content
  content_accepted upload q h = elim (Bool-cases (ltb max_size upload.size)) [
    | inl e ↦
        let step : vet_content x form guid blank upload ≡ rejected (write_error 413 kmz_too_large) =
          rw (e, vet_content) refl in
        absurd (never step h)
    | inr e ↦ elim (Bool-cases (ltb max_size (length (limited content)))) [
      | inl k ↦
          let step : vet_content x form guid blank upload
              ≡ rejected (write_error 413 kmz_too_large) =
            rw (e, q, k, vet_content) refl in
          absurd (never step h)
      | inr k ↦
          let step : vet_content x form guid blank upload
              ≡ vet_archive x form guid blank (limited content) =
            rw (e, q, k, vet_content) refl in
          let short = ltb-≤ max_size (length (limited content)) k in
          let whole = take-short max_size content short in
          (
            subst (λ (s : Text). length s ≤ max_size) whole short,
            subst (λ (s : Text). rewrite_upload x guid s ≡ ok entries) whole
                (archive_accepted x form guid blank meta (limited content) entries (sym step ∙ h)),
          )
    ]
  ]

  pub vet_accepted :
      (upload : Upload)
      → form.kmz ≡ some upload
      → upload.content ≡ some content
      → vet x guid blank (some form) ≡ accepted entries meta
      → (is_valid_guid guid ≡ true)
        × (length content ≤ max_size)
        × (rewrite_upload x guid content ≡ ok entries)
  unfolding vet vet_form
  vet_accepted upload e q h = elim (Bool-cases (is_valid_guid guid)) [
    | inr v ↦
        let step : vet x guid blank (some form) ≡ rejected (write_error 400 invalid_guid) =
          rw (v, vet) refl in
        absurd (never step h)
    | inl v ↦
        let step : vet x guid blank (some form) ≡ vet_content x form guid blank upload =
          rw (v, e, vet, vet_form) refl in
        let (short, rewritten) = content_accepted upload q (sym step ∙ h) in (v, short, rewritten)
  ]

-- No answer to an error is a success.
refused : (e : DeviceError) → (handle_registry_error e).status ≡ 200 → ⊥
unfolding handle_registry_error write_error
refused e h = ground (arith, e, h)

pub rejected_status : (r : Response) → IsRefusal r → r.status ≡ 200 → ⊥
rejected_status r (inl e) h = ground (arith, e, h)
rejected_status r (inr e) h = ground (arith, e, h)

module _ {W F : Type 0} (h : Host W) (m : Methods W) (g : Render W F) (dec : Decoding F)
    (c : Codec (Nested Text)) (f : Faults) where
  pub replied_ok :
      (ts : ℕ) (device guid : Text) (form : Form) (sv sv' : Server W) (r : Response)
      (o : Option (Service W × Result DeviceError TransferResult))
      → wants_images (some form) ≡ false
      → lowered h m g dec c f (replied h m g dec c f ts device guid (some form) sv o)
        ≡ some (sv', r)
      → r.status ≡ 200
      → (res : TransferResult) × (o ≡ some (sv'.service, ok res))
  unfolding lowered replied complete
  replied_ok ts device guid form sv sv' r none n e ok_status = absurd (cc)
  replied_ok ts device guid form sv sv' r (some (s, err bad)) n e ok_status =
      let same : handle_registry_error bad ≡ r =
        ap (λ (p : Server W × Response). p.1) (some-injective _ _ e) in
      absurd (refused bad (ap (λ (x : Response). x.status) same ∙ ok_status))
  replied_ok ts device guid form sv sv' r (some (s, ok res)) n e ok_status =
      let s1 : Server W = record sv { service = s } in
      let kept : (complete h m g dec c f ts device guid (some form) res s1).0.service ≡ s =
        rw (n, complete) refl in
      let same : (complete h m g dec c f ts device guid (some form) res s1).0.service
          ≡ sv'.service =
        ap (λ (p : Server W × Response). p.0.service) (some-injective _ _ e) in
      (res, ap (λ (x : Service W). some (x, ok res)) (sym kept ∙ same))
