-- ===== src/Libmtp/Spool.antt =====
-- `getObjectTo` and `putFile` of internal/mtp/client_linux.go: an object is copied through a temporary
-- file, which is removed; and the calls of the handle as internal/device uses them.
pub mod Clean
pub mod Sent
use companion_mission_planne.Base.{
  ℕ, Bool, true, false, not, Option, none, some, List, [], Text, text_Eq, length, Result, ok, err,
  if◌then◌else◌, ◌≡◌, refl, ◌∙◌, ap, inl, inr, arith, Option-cases, Result-cases, Bool-cases, ◌==◌,
}
use companion_mission_planne.Base.Table
use companion_mission_planne.Device.Mtp.{FileEntry, Transport}
use companion_mission_planne.Libmtp.{
  Libmtp, RawFile, Temp, MtpFault, not_open, no_parent, temp_failed, no_memory, refused, Device,
  meta_of, cleaned, read_temp, list_dir, get_thumbnail, get_partial_object, delete_object,
}

unfoldable pub or_nothing : {E A : Type 0} → Result E A → Option A
or_nothing (ok a) = some a
or_nothing (err e) = none

unfoldable pub failed : {E A : Type 0} → Result E A → Bool
failed (ok a) = false
failed (err e) = true

abbrev pub with_file : {D : Type 0} → Text → Text → Device D → Device D
with_file tmp content x = record x { files = Table.put tmp content x.files }

module _ {D : Type 0} (lib : Libmtp D) (o : Temp) where
  -- What libmtp writes to the temporary file, and what is read of it.
  unfoldable pub pull_object : Text → ℕ → Device D → Device D × Result MtpFault Text
  unfolding read_temp
  pull_object tmp object x = elim (lib.get_file x.phone object) [
    | err rc ↦ (x, err (refused rc))
    | ok content ↦ read_temp o tmp (with_file tmp content x)
  ]

  -- getObjectTo
  unfoldable pub get_object_to : Device D → ℕ → Device D × Result MtpFault Text
  unfolding pull_object cleaned
  get_object_to x object = if not x.is_open then (x, err not_open) else elim o.name [
    | none ↦ (x, err temp_failed)
    | some tmp ↦ cleaned o tmp (pull_object tmp object (with_file tmp [] x))
  ]

  -- The call of LIBMTP_Send_File_From_File.
  unfoldable pub send_spooled : RawFile → Text → Device D → Device D × Result MtpFault ℕ
  send_spooled meta content x =
      let (phone, r) = lib.send_file x.phone meta content in
      (record x { phone = phone }, elim r [ err rc ↦ err (refused rc) | ok id ↦ ok id ])

  -- The part of putFile with the temporary file.
  unfoldable pub spool :
      Text → FileEntry → Text → ℕ → Text → Device D → Device D × Result MtpFault ℕ
  unfolding send_spooled
  spool tmp parent name size content x =
      if o.copy_fails
      then (x, err temp_failed)
      else if o.sync_fails
      then (with_file tmp content x, err temp_failed)
      else if not (lib.new_file x.phone)
      then (with_file tmp content x, err no_memory)
      else send_spooled (meta_of parent name size) content (with_file tmp content x)

  unfoldable pub put_into : Device D → FileEntry → Text → ℕ → Text → Device D × Result MtpFault ℕ
  unfolding spool cleaned
  put_into x parent name size content =
      if not parent.is_folder then (x, err no_parent) else elim o.name [
        | none ↦ (x, err temp_failed)
        | some tmp ↦ cleaned o tmp (spool tmp parent name size content (with_file tmp [] x))
      ]

  -- putFile; the object's number is its result.
  unfoldable pub put_file :
      Device D → Option FileEntry → Text → ℕ → Text → Device D × Result MtpFault ℕ
  unfolding put_into
  put_file x parent name size content =
      if not x.is_open
      then (x, err not_open)
      else elim parent [ none ↦ (x, err no_parent) | some dir ↦ put_into x dir name size content ]

module _ {D : Type 0} (lib : Libmtp D) (temp : Device D → Temp) where
  -- The calls of a handle in the order of `Transport`; a file is sent with its length.
  unfoldable pub transport : Transport (Device D)
  unfolding list_dir get_object_to get_thumbnail get_partial_object put_file delete_object
      or_nothing failed
  transport = record {
    storages = λ x. or_nothing (list_dir lib x none);
    children = λ x dir. or_nothing (list_dir lib x (some dir));
    fetch = λ x object. or_nothing (get_object_to lib (temp x) x object).1;
    thumbnail = λ x object. or_nothing (get_thumbnail lib x object);
    partial = λ x object n. or_nothing (get_partial_object lib x object 0 n);
    send = λ x dir name content.
        let (x', r) = put_file lib (temp x) x (some dir) name (length content) content in
        (x', failed r);
    erase = λ x e. let (x', r) = delete_object lib x e in (x', failed r);
  }
