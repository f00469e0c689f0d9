-- ===== src/Libmtp.antt =====
-- internal/mtp/client_linux.go: the device handle over libmtp. The calls of libmtp are a parameter, as is
-- what the operating system answers about temporary files; an object is copied through such a file.
pub mod Promises
pub mod Spool
pub mod Opening
use companion_mission_planne.Base.{
  ℕ, ◌+◌, Bool, true, false, not, ◌&&◌, Option, none, some, List, [], ◌∷◌, ◌++◌, Text, text_Eq,
  text_eq, nat_eq, codes, is_empty, length, map, ext, to_lower, format_uint, Result, ok, err,
  if◌then◌else◌,
}
use companion_mission_planne.Base.Table
use companion_mission_planne.Base.Table.{Table}
use companion_mission_planne.Device.Mtp.{FileEntry, Transport}

-- The file types that the bindings tell apart.
pub data Filetype : Type 0 where
  folder jpeg png unknown : Filetype

-- LIBMTP_file_t
pub record RawFile : Type 0 where
  pub item_id : ℕ
  pub parent_id : ℕ
  pub storage_id : ℕ
  pub filename : Text
  pub filesize : ℕ
  pub modificationdate : ℕ
  pub filetype : Filetype

-- LIBMTP_devicestorage_t; the description `none` is a null pointer.
pub record RawStorage : Type 0 where
  pub id : ℕ
  pub description : Option Text

-- A return code with the buffer of the call, `none` for a null pointer.
pub record Reply : Type 0 where
  pub rc : ℕ
  pub buffer : Option Text

-- The calls of libmtp on a device. A file is given to `send_file` with its content, and `get_file` gives
-- what it has written; both have their return code.
pub record Libmtp (D : Type 0) : Type 0 where
  pub storage_list : D → List RawStorage
  pub files_and_folders : D → ℕ → ℕ → List RawFile
  pub get_file : D → ℕ → Result ℕ Text
  pub get_thumbnail : D → ℕ → Reply
  pub get_partial_object : D → ℕ → ℕ → ℕ → Reply
  pub new_file : D → Bool
  pub send_file : D → RawFile → Text → D × Result ℕ ℕ
  pub delete_object : D → ℕ → D × ℕ
  pub probe : D → Bool

-- What the operating system answers about a temporary file: its name, unless it cannot be made.
pub record Temp : Type 0 where
  pub name : Option Text
  pub copy_fails : Bool
  pub sync_fails : Bool
  pub open_fails : Bool
  pub remove_fails : Bool

-- The errors of the package, ErrNotFound and ErrPartialUnsupported among them.
pub data MtpFault : Type 0 where
  not_open no_parent temp_failed no_memory : MtpFault
  refused : ℕ → MtpFault
  not_found partial_unsupported : MtpFault

-- Device: whether libmtp has it open, its state, and the temporary files by path.
pub record Device (D : Type 0) : Type 0 where
  pub is_open : Bool
  pub phone : D
  pub files : Table Text Text

-- guessFiletype
unfoldable pub guess_filetype : Text → Filetype
unfolding ext to_lower text_eq
guess_filetype name =
    let e = to_lower (ext name) in
    if text_eq e (codes ".jpg")
    then jpeg
    else if text_eq e (codes ".jpeg")
    then jpeg
    else if text_eq e (codes ".png")
    then png
    else unknown

is_folder : Filetype → Bool
is_folder folder = true
is_folder jpeg = false
is_folder png = false
is_folder unknown = false

unfoldable pub entry_of : ℕ → RawFile → FileEntry
unfolding is_folder
entry_of storage f = record {
  object_id = f.item_id;
  storage_id = storage;
  parent_id = f.parent_id;
  name = f.filename;
  size = f.filesize;
  modified_at = f.modificationdate;
  is_folder = is_folder f.filetype;
}

-- walkFileList
unfoldable pub walk_file_list : ℕ → List RawFile → List FileEntry
unfolding entry_of
walk_file_list storage files = map (entry_of storage) files

or_empty : Option Text → Text
or_empty none = []
or_empty (some s) = s

storage_name : RawStorage → Text
unfolding or_empty format_uint
storage_name s =
    let name = or_empty s.description in
    if is_empty name then codes "Storage " ++ format_uint s.id else name

-- The entry that stands for a storage.
storage_entry : RawStorage → FileEntry
unfolding storage_name
storage_entry s = record {
  object_id = 0;
  storage_id = s.id;
  parent_id = 0;
  name = storage_name s;
  size = 0;
  modified_at = 0;
  is_folder = true;
}

-- The metadata of putFile.
unfoldable pub meta_of : FileEntry → Text → ℕ → RawFile
unfolding guess_filetype
meta_of parent name size = record {
  item_id = 0;
  parent_id = parent.object_id;
  storage_id = parent.storage_id;
  filename = name;
  filesize = size;
  modificationdate = 0;
  filetype = guess_filetype name;
}

-- A buffer that has something in it, or ErrNotFound.
filled : Option Text → Result MtpFault Text
filled none = err not_found
filled (some data') = if is_empty data' then err not_found else ok data'

-- The removal of a temporary file, which is deferred, and whose error is dropped.
unfoldable pub cleaned {ℓ} :
    {D : Type 0} {A : Type ℓ}
    → Temp
    → Text
    → Device D × Result MtpFault A
    → Device D × Result MtpFault A
cleaned o tmp (x, r) =
    (if o.remove_fails then x else record x { files = Table.remove tmp x.files }, r)

-- What a temporary file holds when it is opened.
unfoldable pub read_temp : {D : Type 0} → Temp → Text → Device D → Device D × Result MtpFault Text
read_temp o tmp x = if o.open_fails then (x, err temp_failed) else elim (Table.get tmp x.files) [
  | none ↦ (x, err temp_failed)
  | some content ↦ (x, if o.copy_fails then err temp_failed else ok content)
]

module _ {D : Type 0} (lib : Libmtp D) where
  -- listStorages
  unfoldable pub list_storages : Device D → List FileEntry
  unfolding storage_entry
  list_storages x = map storage_entry (lib.storage_list x.phone)

  -- listDir
  unfoldable pub list_dir : Device D → Option FileEntry → Result MtpFault (List FileEntry)
  unfolding list_storages walk_file_list
  list_dir x parent = if not x.is_open then err not_open else elim parent [
    | none ↦ ok (list_storages x)
    | some dir ↦
        ok (
          walk_file_list dir.storage_id
            (lib.files_and_folders x.phone dir.storage_id dir.object_id))
  ]

  -- getThumbnail
  unfoldable pub get_thumbnail : Device D → ℕ → Result MtpFault Text
  unfolding filled
  get_thumbnail x object =
      let r = lib.get_thumbnail x.phone object in
      if not x.is_open
      then err not_open
      else if nat_eq r.rc 0
      then filled r.buffer
      else err not_found

  -- getPartialObject
  unfoldable pub get_partial_object : Device D → ℕ → ℕ → ℕ → Result MtpFault Text
  unfolding filled
  get_partial_object x object offset max_bytes =
      let r = lib.get_partial_object x.phone object offset max_bytes in
      if not x.is_open
      then err not_open
      else if nat_eq r.rc 0
      then filled r.buffer
      else err partial_unsupported

  -- deleteObject
  unfoldable pub delete_object : Device D → FileEntry → Device D × Result MtpFault (Unit {0})
  delete_object x e =
      let (phone, rc) = lib.delete_object x.phone e.object_id in
      if not x.is_open
      then (x, err not_open)
      else (record x { phone = phone }, if nat_eq rc 0 then ok tt else err (refused rc))

  -- pingDevice; `false` is its error.
  unfoldable pub ping_device : Device D → Bool
  ping_device x = x.is_open && lib.probe x.phone

-- closeDevice
unfoldable pub close_device : {D : Type 0} → Device D → Device D
close_device x = record x { is_open = false }
