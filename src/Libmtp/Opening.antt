-- ===== src/Libmtp/Opening.antt =====
-- `listDevices`, `openDevice` and `releaseGVFS` of internal/mtp/client_linux.go. What libmtp finds and
-- opens and what the commands of the desktop do is a parameter, over a type of states of the machine.
use mathlib.Core.Path.{subst}
use companion_mission_planne.Base.{
  ℕ, ◌+◌, Bool, true, false, Option, none, some, List, [], ◌∷◌, ◌++◌, Text, codes, is_empty, ltb,
  trim_space, format_uint, Result, ok, err, if◌then◌else◌, ◌≡◌, refl, sym, ◌∙◌, inl, inr, arith,
  Bool-cases, Option-cases,
}
use companion_mission_planne.Device.Registry.{Handle}

-- The outcomes of LIBMTP_Detect_Raw_Devices, with bus and number of each device.
pub data Detected : Type 0 where
  detected : List (ℕ × ℕ) → Detected
  no_device_attached connecting memory_allocation : Detected
  detect_error : ℕ → Detected

pub data ListFault : Type 0 where
  no_usb out_of_memory : ListFault
  code : ℕ → ListFault

-- What libmtp gives of a device that it has opened; `none` is a null pointer.
pub record Opened : Type 0 where
  pub friendly : Option Text
  pub serial : Option Text

-- The machine: opening a device, the commands on the path, and running one; the flag is its error.
pub record Machine (W : Type 0) : Type 0 where
  pub open_raw : W → ℕ → ℕ → W × Option Opened
  pub on_path : W → Text → Bool
  pub run : W → List Text → W × Bool
  pub pause : W → W

-- mtp.Device, with the name that it shows.
pub record Named : Type 0 where
  pub handle : Handle
  pub friendly : Text

-- The devices of listDevices; the n-th allocation has the number `ref` + n.
listed_devices : ℕ → List (ℕ × ℕ) → List Named
listed_devices ref [] = []
listed_devices ref ((bus, dev) ∷ found) =
    record {
      handle = record {
        ref = ref;
        identifier = codes "usb:" ++ format_uint bus ++ codes "-" ++ format_uint dev;
        usb_bus = bus;
        usb_dev = dev;
      };
      friendly = codes "MTP device";
    }
    ∷ listed_devices (1 + ref) found

-- listDevices
unfoldable pub list_devices : ℕ → Detected → Result ListFault (List Named)
unfolding listed_devices format_uint
list_devices ref (detected found) = ok (listed_devices ref found)
list_devices ref no_device_attached = ok []
list_devices ref connecting = err no_usb
list_devices ref memory_allocation = err out_of_memory
list_devices ref (detect_error n) = err (code n)

three_digits : ℕ → Text
unfolding format_uint
three_digits n =
    if ltb n 10
    then codes "00" ++ format_uint n
    else if ltb n 100
    then codes "0" ++ format_uint n
    else format_uint n

-- busDevString
unfoldable pub bus_dev_string : ℕ → ℕ → Text
unfolding three_digits
bus_dev_string bus dev = three_digits bus ++ codes "," ++ three_digits dev

-- A serial that is not blank becomes the identifier.
identified_by : Option Text → Text → Text
unfolding trim_space
identified_by none old = old
identified_by (some serial) old = let s = trim_space serial in if is_empty s then old else s

friendly_or : Option Text → Text → Text
friendly_or none old = old
friendly_or (some name) old = name

-- What openDevice makes of the handle.
unfoldable pub opened_as : Named → Opened → Named
unfolding identified_by friendly_or
opened_as d o = record {
  handle = record d.handle { identifier = identified_by o.serial d.handle.identifier };
  friendly = friendly_or o.friendly d.friendly;
}

module _ {W : Type 0} (c : Machine W) where
  -- The loop over the two commands that unmount; the first that succeeds ends it.
  unfoldable pub release_mounts : List (List Text) → W → W × Bool
  release_mounts [] w = (w, false)
  release_mounts ([] ∷ candidates) w = release_mounts candidates w
  release_mounts ((bin ∷ args) ∷ candidates) w =
      let skipped = release_mounts candidates w in
      let (w', failed) = c.run w (bin ∷ args) in
      let tried = release_mounts candidates w' in
      if c.on_path w bin then (if failed then tried else (w', true)) else skipped

  -- The commands of a step, whose errors are logged.
  run_all : List (List Text) → W → W
  run_all [] w = w
  run_all (command ∷ commands) w = run_all commands (c.run w command).0

  -- One of the steps (2) and (3): its commands are run if the first word is on the path.
  unfoldable pub release_by : Text → List (List Text) → W × Bool → W × Bool
  unfolding run_all
  release_by bin commands (w, released) =
      if c.on_path w bin then (run_all commands w, true) else (w, released)

  settled : W × Bool → W × Bool
  settled (w, true) = (c.pause w, true)
  settled (w, false) = (w, false)

  -- releaseGVFS
  unfoldable pub release_gvfs : Handle → W → W × Bool
  unfolding bus_dev_string release_mounts release_by settled
  release_gvfs d w =
      let uri = codes "mtp://[usb:" ++ bus_dev_string d.usb_bus d.usb_dev ++ codes "]/" in
      settled (
        release_by (codes "adb") ((codes "adb" ∷ codes "kill-server" ∷ []) ∷ []) (
          release_by (codes "pkill")
            ((codes "pkill" ∷ codes "-f" ∷ codes "kiod6" ∷ [])
              ∷ (codes "pkill" ∷ codes "-f" ∷ codes "gvfsd-mtp" ∷ [])
              ∷ [])
            (release_mounts
              ((codes "gio" ∷ codes "mount" ∷ codes "-u" ∷ uri ∷ [])
                ∷ (codes "gvfs-mount" ∷ codes "-u" ∷ uri ∷ [])
                ∷ [])
              w)))

  unfoldable pub attempt : Named → W → W × Option Named
  unfolding opened_as
  attempt d w =
      let (w', o) = c.open_raw w d.handle.usb_bus d.handle.usb_dev in
      (w', elim o [ none ↦ none | some found ↦ some (opened_as d found) ])

  -- openDevice; `none` is its error.
  unfoldable pub open_device : Named → W → W × Option Named
  open_device d w =
      let (w1, first) = attempt d w in
      let (w2, released) = release_gvfs d.handle w1 in
      let second = attempt d w2 in
      elim first [ some named ↦ (w1, some named) | none ↦ if released then second else (w2, none) ]

-- The handle under which a device is filed: it has an identifier, and the place and number of `d`.
abbrev pub IsFiled : Named → Named → Type 0
IsFiled d d' =
    (is_empty d'.handle.identifier ≡ false)
    × (d'.handle.usb_bus ≡ d.handle.usb_bus)
    × (d'.handle.usb_dev ≡ d.handle.usb_dev)
    × (d'.handle.ref ≡ d.handle.ref)

identified_by-kept :
    (serial : Option Text) (old : Text)
    → is_empty old ≡ false
    → is_empty (identified_by serial old) ≡ false
unfolding identified_by
identified_by-kept none old n = n
identified_by-kept (some serial) old n = elim (Bool-cases (is_empty (trim_space serial))) [
  | inl e ↦ rw (e, identified_by) n
  | inr e ↦ rw (e, identified_by) e
]

module _ {W : Type 0} (c : Machine W) where
  attempt-IsFiled :
      (d d' : Named) (w : W)
      → is_empty d.handle.identifier ≡ false
      → (attempt c d w).1 ≡ some d'
      → IsFiled d d'
  unfolding attempt opened_as
  attempt-IsFiled d d' w n h =
      elim (Option-cases (c.open_raw w d.handle.usb_bus d.handle.usb_dev).1) [
        | inl e ↦ absurd (ground (arith, e, h))
        | inr (o, e) ↦
            let same : opened_as d o ≡ d' = ground (arith, e, h) in
            subst (IsFiled d) same
              (identified_by-kept o.serial d.handle.identifier n, refl, refl, refl)
      ]

  -- A device that has been opened, at the first or at the second attempt, has an identifier under which
  -- it can be filed, and its bus, its number there and its allocation are those of the listing.
  pub open_device-IsFiled :
      (d d' : Named) (w : W)
      → is_empty d.handle.identifier ≡ false
      → (open_device c d w).1 ≡ some d'
      → IsFiled d d'
  unfolding open_device
  open_device-IsFiled d d' w n h =
      let second = (release_gvfs c d.handle (attempt c d w).0) in
      elim (Option-cases (attempt c d w).1) [
        | inr (found, e) ↦
            let step : (open_device c d w).1 ≡ (attempt c d w).1 = rw (e, open_device) refl in
            attempt-IsFiled d d' w n (sym step ∙ h)
        | inl e ↦ elim (Bool-cases second.1) [
          | inl q ↦
              let step : (open_device c d w).1 ≡ (attempt c d second.0).1 =
                rw (e, q, open_device) refl in
              attempt-IsFiled d d' second.0 n (sym step ∙ h)
          | inr q ↦
              let step : (open_device c d w).1 ≡ none = rw (e, q, open_device) refl in
              absurd (ground (arith, step, h))
        ]
      ]
