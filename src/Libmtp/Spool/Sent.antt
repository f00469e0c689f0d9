-- ===== src/Libmtp/Spool/Sent.antt =====
-- What is known of an upload and a download that have succeeded.
use mathlib.Core.Path.{subst}
use companion_mission_planne.Base.{
  ℕ, true, false, some, [], Text, text_Eq, nat_Eq, Result, ok, ◌≡◌, refl, sym, ◌∙◌, ap, inl, inr,
  arith, Option-cases, Result-cases, Bool-cases, ◌==◌, ==_refl,
}
use companion_mission_planne.Base.Table
use companion_mission_planne.Device.Mtp.{FileEntry}
use companion_mission_planne.Libmtp.{
  Libmtp, RawFile, Temp, MtpFault, Device, meta_of, cleaned, read_temp,
}
use companion_mission_planne.Libmtp.Spool.{
  with_file, pull_object, get_object_to, send_spooled, spool, put_into, put_file, failed,
}

-- A temporary file can be made, written and read.
abbrev pub IsReliable : Temp → Type 0
IsReliable o =
    ((tmp : Text) × (o.name ≡ some tmp)) × (o.copy_fails ≡ false) × (o.open_fails ≡ false)

module _ {D : Type 0} (lib : Libmtp D) where
  -- The call of libmtp behind an upload, and the handle that it leaves.
  abbrev pub IsSent : Device D → RawFile → Text → Device D → Type 0
  IsSent x meta content x' =
      (id : ℕ) × (lib.send_file x.phone meta content ≡ (x'.phone, ok id)) × (x'.is_open ≡ x.is_open)

module _ {D : Type 0} (lib : Libmtp D) (o : Temp) where
  send_spooled-IsSent :
      (meta : RawFile) (content : Text) (x : Device D)
      → failed (send_spooled lib o meta content x).1 ≡ false
      → IsSent lib x meta content (send_spooled lib o meta content x).0
  unfolding send_spooled failed
  send_spooled-IsSent meta content x h =
      let p = lib.send_file x.phone meta content in
      elim (Result-cases p.1) [
        | inr (rc, e) ↦ absurd (ground (arith, e, h))
        | inl (id, e) ↦ (id, ap (λ (r : Result ℕ ℕ). (p.0, r)) e, refl)
      ]

  spool-IsSent :
      (tmp : Text) (dir : FileEntry) (name : Text) (size : ℕ) (content : Text) (x : Device D)
      → failed (spool lib o tmp dir name size content x).1 ≡ false
      → IsSent lib x (meta_of dir name size) content (spool lib o tmp dir name size content x).0
  unfolding spool failed
  spool-IsSent tmp dir name size content x h = elim (Bool-cases o.copy_fails) [
    | inl e ↦ absurd (ground (arith, e, h))
    | inr e ↦ elim (Bool-cases o.sync_fails) [
      | inl q ↦ absurd (ground (arith, e, q, h))
      | inr q ↦ elim (Bool-cases (lib.new_file x.phone)) [
        | inr k ↦ absurd (ground (arith, e, q, k, h))
        | inl k ↦
            let step : spool lib o tmp dir name size content x
                ≡ send_spooled lib o (meta_of dir name size) content (with_file tmp content x) =
              rw (e, q, k, spool) refl in
            let fine : failed
                  (send_spooled lib o (meta_of dir name size) content (with_file tmp content x)).1
                ≡ false =
              ap (λ (r : Device D × Result MtpFault ℕ). failed r.1) (sym step) ∙ h in
            subst
              (λ (r : Device D × Result MtpFault ℕ).
                IsSent lib x (meta_of dir name size) content r.0)
              (sym step)
              (send_spooled-IsSent (meta_of dir name size) content (with_file tmp content x) fine)
      ]
    ]
  ]

  pub put_file-IsSent :
      (dir : FileEntry) (name : Text) (size : ℕ) (content : Text) (x : Device D)
      → failed (put_file lib o x (some dir) name size content).1 ≡ false
      → (x.is_open ≡ true)
        × IsSent lib x
            (meta_of dir name size)
            content
            (put_file lib o x (some dir) name size content).0
  unfolding put_file put_into cleaned failed
  put_file-IsSent dir name size content x h = elim (Bool-cases x.is_open) [
    | inr e ↦ absurd (ground (arith, e, h))
    | inl e ↦ elim (Bool-cases dir.is_folder) [
      | inr q ↦ absurd (ground (arith, e, q, h))
      | inl q ↦ elim (Option-cases o.name) [
        | inl k ↦ absurd (ground (arith, e, q, k, h))
        | inr (tmp, k) ↦
            let p = spool lib o tmp dir name size content (with_file tmp [] x) in
            let (id, sent, kept) =
              spool-IsSent tmp dir name size content (with_file tmp [] x)
                (ground (arith, e, q, k, h)) in
            let phone : (put_file lib o x (some dir) name size content).0.phone ≡ p.0.phone =
              ground (arith, e, q, k) in
            let opened : (put_file lib o x (some dir) name size content).0.is_open ≡ p.0.is_open =
              ground (arith, e, q, k) in
            (e, (id, sent ∙ ap (λ (d : D). (d, ok id)) (sym phone), opened ∙ kept))
      ]
    ]
  ]

  read_temp-written :
      (tmp content : Text) (x : Device D)
      → IsReliable o
      → (read_temp o tmp (with_file tmp content x)).1 ≡ ok content
  unfolding read_temp
  read_temp-written tmp content x (named, copied, opened) =
      let same : (tmp == tmp) ≡ true = ==_refl tmp in
      let held : Table.get tmp (Table.put tmp content x.files) ≡ some content =
        Table.get-put tmp tmp content x.files ∙ rw same refl in
      rw (opened, held, copied, read_temp) refl

  pub get_object_to-reads :
      (x : Device D) (object : ℕ) (content : Text)
      → IsReliable o
      → x.is_open ≡ true
      → lib.get_file x.phone object ≡ ok content
      → (get_object_to lib o x object).1 ≡ ok content
  unfolding get_object_to pull_object cleaned
  get_object_to-reads x object content ((tmp, k), copied, opened) e h =
      let read = read_temp-written tmp content (with_file tmp [] x) ((tmp, k), copied, opened) in
      ground (arith, e, k, h, read)
