-- ===== src/Blockdev.antt =====
-- internal/blockdev: the USB volumes among what lsblk lists. The JSON decoder is a parameter in the
-- form of the nodes that it yields; mounting is left to the kernel.
pub mod Usb
use companion_mission_planne.Base.{
  Bool, true, false, not, ◌&&◌, ◌||◌, Option, none, some, List, [], ◌∷◌, ◌++◌, Text, text_Eq,
  text_eq, codes, to_lower, is_empty, if◌then◌else◌,
}
use companion_mission_planne.Base.Table
use companion_mission_planne.Base.Table.{Table}

-- lsblkNode; a null column is "".
pub record LsblkNode : Type 0 where
  pub name : Text
  pub path : Text
  pub pk_name : Text
  pub tran : Text
  pub fs_type : Text
  pub label : Text
  pub uuid : Text
  pub mountpoint : Text

-- blockdev.Volume
pub record UsbVolume : Type 0 where
  pub id : Text
  pub dev_path : Text
  pub fs_type : Text
  pub label : Text
  pub mountpoint : Text

-- The loop that fills tranByName.
unfoldable pub trans_by_name : Table Text Text → List LsblkNode → Table Text Text
trans_by_name m [] = m
trans_by_name m (n ∷ nodes) = trans_by_name (Table.put n.name n.tran m) nodes

-- tranByName[name] == "usb", where a missing entry reads "".
unfoldable pub tran_is_usb : Table Text Text → Text → Bool
unfolding text_eq
tran_is_usb m name = elim (Table.get name m) [
  | none ↦ false
  | some tran ↦ text_eq tran (codes "usb")
]

unfoldable pub is_usb : LsblkNode → Table Text Text → Bool
unfolding text_eq tran_is_usb
is_usb n m = text_eq n.tran (codes "usb") || not (is_empty n.pk_name) && tran_is_usb m n.pk_name

unfoldable pub mountable : Text → Bool
unfolding to_lower text_eq
mountable fs_type =
    let t = to_lower fs_type in
    text_eq t (codes "vfat")
    || text_eq t (codes "exfat")
    || text_eq t (codes "ntfs")
    || text_eq t (codes "ntfs3")

-- The UUID, else the label, else the device path.
volume_id : LsblkNode → Text
volume_id n = if is_empty n.uuid then if is_empty n.label then n.path else n.label else n.uuid

unfoldable pub volume_of : LsblkNode → UsbVolume
unfolding volume_id
volume_of n = record {
  id = codes "usbms:" ++ volume_id n;
  dev_path = n.path;
  fs_type = n.fs_type;
  label = n.label;
  mountpoint = n.mountpoint;
}

unfoldable pub collect_volumes : Table Text Text → List LsblkNode → List UsbVolume
unfolding mountable is_usb volume_of
collect_volumes m [] = []
collect_volumes m (n ∷ nodes) =
    let rest = collect_volumes m nodes in
    if not (mountable n.fs_type) || not (is_usb n m) then rest else volume_of n ∷ rest

-- parseLsblk; `none` stands for the decoder's error.
unfoldable pub parse_lsblk : Option (List LsblkNode) → Option (List UsbVolume)
unfolding trans_by_name collect_volumes
parse_lsblk none = none
parse_lsblk (some nodes) = some (collect_volumes (trans_by_name [] nodes) nodes)
