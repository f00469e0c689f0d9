-- ===== src/Api/Transfer/Checked.antt =====
-- What `handleTransfer` has checked when the registry is asked to write, and what it leaves behind.
use mathlib.Core.Path.{subst}
use companion_mission_planne.Base.{
  ℕ, zero, suc, ◌+◌, ◌≤◌, [], ◌∷◌, take, sym, ap, false, ◌≡◌, refl, ◌⊎◌, inl, inr, arith, Bool,
  true, Option, none, some, List, Text, length, ltb, All, Result, ok, err, Result-cases, Bool-cases,
  Option-cases,
}
use companion_mission_planne.Stores.Persist.{Codec, Faults}
use companion_mission_planne.Stores.Nested.{Nested}
use companion_mission_planne.Kmz.Guid.{is_valid_guid}
use companion_mission_planne.Kmz.Archive.{Entry, max_size, inspect, rewrite_for_guid}
use companion_mission_planne.Kmz.Archive.Safety.{IsSafeName, inspect_safe}
use companion_mission_planne.Device.Registry.{Host}
use companion_mission_planne.Device.Service.{Methods, Service, DeviceError, TransferResult}
use companion_mission_planne.Device.Service.Transfers.{Metadata, Render, transfer_with_meta}
use companion_mission_planne.Device.Service.Redraws.{Decoding}
use companion_mission_planne.Api.{Response, write_error}
use companion_mission_planne.Api.Transfer.{
  Upload, Form, Formats, Server, limited, metadata_of, rewrite_upload, Vetted, rejected, accepted,
  vet_metadata, vet_archive, vet_content, vet_form, vet, complete, replied, lowered, send_transfer,
  handle_transfer,
}

-- A limit of one more than `n` that is not used up has cut nothing off.
pub take-short :
    (n : ℕ) (content : Text) → length (take (suc n) content) ≤ n → take (suc n) content ≡ content
take-short n [] h = refl
take-short zero (c ∷ content) h = absurd (omega (arith, h))
take-short (suc n) (c ∷ content) h =
    let short : length (take (suc n) content) ≤ n = omega (arith, h) in
    ap (λ (s : Text). c ∷ s) (take-short n content short)

pub ltb-≤ : (n k : ℕ) → ltb n k ≡ false → k ≤ n
ltb-≤ n k h = ground (arith, h)

-- The whole content of the form's upload is at most `max_size` bytes and an archive whose entries all
-- have safe names, and `entries` is its rewriting for the slot.
abbrev pub IsCheckedContent : {F : Type 0} → Formats F → Text → Text → List Entry → Type 0
IsCheckedContent x guid content entries =
    (is_valid_guid guid ≡ true)
    × (length content ≤ max_size)
    × ((files : List Entry) × (x.read_zip content ≡ some files)
        × All (λ (f : Entry). IsSafeName f.name) files
        × (rewrite_for_guid (some files) guid ≡ ok entries))

abbrev pub IsChecked : {F : Type 0} → Formats F → Text → Option Form → List Entry → Type 0
IsChecked x guid form entries =
    (f : Form) × (upload : Upload) × (content : Text) × (form ≡ some f)
    × (f.kmz ≡ some upload)
    × (upload.content ≡ some content)
    × IsCheckedContent x guid content entries

-- An answer that tells the client that its request is at fault.
abbrev pub IsRefusal : Response → Type 0
IsRefusal r = (r.status ≡ 400) ⊎ (r.status ≡ 413)

abbrev pub IsSound : {F : Type 0} → Formats F → Text → Option Form → Vetted F → Type 0
IsSound x guid form (rejected r) = IsRefusal r
IsSound x guid form (accepted entries meta) = IsChecked x guid form entries

-- The same of the content alone.
abbrev IsSoundContent : {F : Type 0} → Formats F → Text → Text → Vetted F → Type 0
IsSoundContent x guid content (rejected r) = IsRefusal r
IsSoundContent x guid content (accepted entries meta) = IsCheckedContent x guid content entries

with_form :
    {F : Type 0} (x : Formats F) (guid : Text) (f : Form) (upload : Upload) (content : Text)
    (v : Vetted F)
    → f.kmz ≡ some upload
    → upload.content ≡ some content
    → IsSoundContent x guid content v
    → IsSound x guid (some f) v
with_form x guid f upload content (rejected r) e q k = k
with_form x guid f upload content (accepted entries meta) e q k =
    (f, upload, content, refl, e, q, k)

module _ {F : Type 0} (x : Formats F) (form : Form) (guid : Text) (blank : Metadata F) where
  vet_metadata-IsSound :
      (content : Text) (entries : List Entry) (meta : Option (Metadata F))
      → IsCheckedContent x guid content entries
      → IsSoundContent x guid content (vet_metadata entries meta)
  unfolding vet_metadata write_error
  vet_metadata-IsSound content entries none k = inl refl
  vet_metadata-IsSound content entries (some meta) k = k

  rewrite_upload-IsChecked :
      (content : Text) (entries : List Entry)
      → is_valid_guid guid ≡ true
      → rewrite_upload x guid content ≡ ok entries
      → IsCheckedContent x guid content entries
  unfolding rewrite_upload
  rewrite_upload-IsChecked content entries v e =
      elim (Result-cases (inspect (length content) (x.read_zip content))) [
        | inr (bad, q) ↦ absurd (ground (arith, e, q))
        | inl (info, q) ↦
            let (small, (files, opened, safe, listed)) =
              inspect_safe (length content) (x.read_zip content) info q in
            let written : rewrite_for_guid (x.read_zip content) guid ≡ ok entries =
              ground (arith, e, q) in
            (
              v,
              small,
              (
                files,
                opened,
                safe,
                subst (λ a. rewrite_for_guid a guid ≡ ok entries) opened written,
              ),
            )
      ]

  vet_archive-IsSound :
      (content : Text)
      → is_valid_guid guid ≡ true
      → IsSoundContent x guid content (vet_archive x form guid blank content)
  unfolding vet_archive write_error
  vet_archive-IsSound content v = elim (Result-cases (rewrite_upload x guid content)) [
    | inr (bad, e) ↦ rw (e, vet_archive) (inl refl)
    | inl (entries, e) ↦
        rw (e, vet_archive)
          (vet_metadata-IsSound content entries (metadata_of x form blank)
            (rewrite_upload-IsChecked content entries v e))
  ]

  vet_content-IsSound :
      (upload : Upload)
      → form.kmz ≡ some upload
      → is_valid_guid guid ≡ true
      → IsSound x guid (some form) (vet_content x form guid blank upload)
  unfolding vet_content write_error
  vet_content-IsSound upload u v = elim (Bool-cases (ltb max_size upload.size)) [
    | inl e ↦ rw (e, vet_content) (inr refl)
    | inr e ↦ elim (Option-cases upload.content) [
      | inl q ↦ rw (e, q, vet_content) (inl refl)
      | inr (content, q) ↦ elim (Bool-cases (ltb max_size (length (limited content)))) [
        | inl k ↦ rw (e, q, k, vet_content) (inr refl)
        | inr k ↦
            let step : vet_content x form guid blank upload
                ≡ vet_archive x form guid blank (limited content) =
              rw (e, q, k, vet_content) refl in
            let whole = take-short max_size content (ltb-≤ max_size (length (limited content)) k) in
            subst (IsSound x guid (some form)) (sym step) (
              with_form x guid form upload content (vet_archive x form guid blank (limited content))
                u q
                (subst
                  (λ (c : Text). IsSoundContent x guid content (vet_archive x form guid blank c))
                  (sym whole) (vet_archive-IsSound content v)))
      ]
    ]
  ]

  vet_form-IsSound :
      is_valid_guid guid ≡ true → IsSound x guid (some form) (vet_form x guid blank form)
  unfolding vet_form write_error
  vet_form-IsSound v = elim (Option-cases form.kmz) [
    | inl e ↦ rw (e, vet_form) (inl refl)
    | inr (upload, e) ↦
        let step : vet_form x guid blank form ≡ vet_content x form guid blank upload =
          ground (arith, e) in
        subst (IsSound x guid (some form)) (sym step) (vet_content-IsSound upload e v)
  ]

pub vet-IsSound :
    {F : Type 0} (x : Formats F) (guid : Text) (blank : Metadata F) (form : Option Form)
    → IsSound x guid form (vet x guid blank form)
unfolding vet write_error
vet-IsSound x guid blank form = elim (Bool-cases (is_valid_guid guid)) [
  | inr e ↦ rw (e, vet) (inl refl)
  | inl e ↦ elim (Option-cases form) [
    | inl q ↦ rw (e, q, vet) (inl refl)
    | inr (f, q) ↦ rw (e, q, vet) (vet_form-IsSound x f guid blank e)
  ]
]

pub Vetted-cases :
    {F : Type 0} (v : Vetted F)
    → ((r : Response) × (v ≡ rejected r))
      ⊎ ((entries : List Entry) × (meta : Metadata F) × (v ≡ accepted entries meta))
Vetted-cases (rejected r) = inl (r, refl)
Vetted-cases (accepted entries meta) = inr (entries, meta, refl)

module _ {W F : Type 0} (h : Host W) (m : Methods W) (g : Render W F) (dec : Decoding F)
    (c : Codec (Nested Text)) (f : Faults) (x : Formats F) where
  -- A transfer either is refused with 400 or 413, and nothing has changed, or the registry is asked
  -- to write the rewriting of the form's upload, which has been checked: the slot's GUID is well
  -- formed, the whole content of the upload is at most 10 MB and an archive, and all names in it are
  -- safe.
  pub handle_transfer-IsChecked :
      (enabled : Bool) (ts : ℕ) (device guid : Text) (blank : Metadata F) (form : Option Form)
      (sv : Server W)
      → ((r : Response) × IsRefusal r
          × (handle_transfer h m g dec c f x enabled ts device guid blank form sv ≡ some (sv, r)))
        ⊎ ((entries : List Entry) × (meta : Metadata F) × IsChecked x guid form entries
            × (handle_transfer h m g dec c f x enabled ts device guid blank form sv
                ≡ send_transfer h m g dec c f enabled ts device guid form
                    (x.write_zip entries)
                    meta
                    sv))
  unfolding handle_transfer
  handle_transfer-IsChecked enabled ts device guid blank form sv =
      let sound = vet-IsSound x guid blank form in
      elim (Vetted-cases (vet x guid blank form)) [
        | inl (r, e) ↦ inl (r, subst (IsSound x guid form) e sound, rw (e, handle_transfer) refl)
        | inr (entries, meta, e) ↦
            inr (entries, meta, subst (IsSound x guid form) e sound, rw (e, handle_transfer) refl)
      ]

  replied-balance :
      (ts : ℕ) (device guid : Text) (form : Option Form) (sv sv' : Server W) (r : Response)
      (o : Option (Service W × Result DeviceError TransferResult))
      → lowered h m g dec c f (
          replied h m g dec c f ts device guid form
            (record sv { active_transfers = sv.active_transfers + 1 })
            o)
        ≡ some (sv', r)
      → sv'.active_transfers ≡ sv.active_transfers
  unfolding lowered replied complete
  replied-balance ts device guid form sv sv' r none e = absurd (cc)
  replied-balance ts device guid form sv sv' r (some (s, err bad)) e = ground (arith, e)
  replied-balance ts device guid form sv sv' r (some (s, ok res)) e = ground (arith, e)

  -- Whatever the outcome, unless the handler panics, the counter of transfers in flight is afterwards
  -- what it was.
  pub handle_transfer-balance :
      (enabled : Bool) (ts : ℕ) (device guid : Text) (blank : Metadata F) (form : Option Form)
      (sv sv' : Server W) (r : Response)
      → handle_transfer h m g dec c f x enabled ts device guid blank form sv ≡ some (sv', r)
      → sv'.active_transfers ≡ sv.active_transfers
  unfolding handle_transfer send_transfer
  handle_transfer-balance enabled ts device guid blank form sv sv' r e =
      elim (Vetted-cases (vet x guid blank form)) [
        | inl (a, q) ↦ ground (arith, q, e)
        | inr (entries, meta, q) ↦
            replied-balance ts device guid form sv sv' r
              (transfer_with_meta h m g c f enabled device guid (x.write_zip entries) (some meta)
                sv.service)
              (ground (arith, q, e))
      ]
