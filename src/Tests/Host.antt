-- ===== src/Tests/Host.antt =====
-- A list of block devices, and a panel with its buttons.
use companion_mission_planne.Base.{
  ℕ, ◌≡◌, refl, true, false, some, List, [], ◌∷◌, text_Eq, text_eq, codes, map, keep_if,
}
use companion_mission_planne.Base.Table
use companion_mission_planne.Blockdev.{LsblkNode, parse_lsblk, volume_of}
use companion_mission_planne.Blockdev.Usb.{parse_lsblk-usb, is_usb_volume}
use companion_mission_planne.Display.Status.{Info, Snapshot, controller_status}
use companion_mission_planne.Display.Panel.{
  Config, Panel, initial, started, wake, sleep, draw, on_button, on_y, act, shutdown, button_b,
  button_y,
}
use companion_mission_planne.Display.Panel.Safety.{
  presses, Reachable, first, next, IsLit, Reachable-IsLit, Step-IsShutdown,
}

abbrev disk : LsblkNode
disk = record {
  name = codes "sdb";
  path = codes "/dev/sdb";
  pk_name = [];
  tran = codes "usb";
  fs_type = [];
  label = [];
  uuid = [];
  mountpoint = [];
}

abbrev partition : LsblkNode
partition = record disk {
  name = codes "sdb1";
  path = codes "/dev/sdb1";
  pk_name = codes "sdb";
  tran = [];
  fs_type = codes "exFAT";
}

abbrev nodes : List LsblkNode
nodes = partition ∷ disk ∷ []

parse_lsblk-usb_example :
    parse_lsblk (some nodes) ≡ some (map volume_of (keep_if (is_usb_volume nodes) nodes))
unfolding text_eq
parse_lsblk-usb_example = parse_lsblk-usb nodes (refl, (refl, tt))

one_volume : parse_lsblk (some nodes) ≡ some (volume_of partition ∷ [])
unfolding parse_lsblk text_eq Table.get Table.put
one_volume = refl

abbrev idle : Snapshot
idle = record {
  url = codes "http://10.0.0.2:8080";
  battery = record { present = true; percent = 50; external_power = true };
  net = record { up = true; ip = codes "10.0.0.2"; iface = codes "eth0"; ssid = [] };
  controller = record { connected = false; label = []; state = [] };
  transferring = false;
}

abbrev panel_config : Config
panel_config = record { brightness = 60; idle_off = 100; allow_shutdown = true }

abbrev awake : Panel
awake = started panel_config 1 idle

-- Button B has blanked the screen.
abbrev blanked : Panel
blanked = on_button panel_config 2 idle button_b false awake

-- The long press that powers off a panel that is on.
Step-IsShutdown_example :
    (panel_config.allow_shutdown ≡ true)
    × (awake.screen_on ≡ true)
    × ((now : ℕ) × (snap : Snapshot) × (on_button panel_config 3 idle button_y true awake
          ≡ on_button panel_config now snap button_y true awake))
unfolding started draw initial on_button act on_y shutdown
Step-IsShutdown_example =
    Step-IsShutdown panel_config awake (on_button panel_config 3 idle button_y true awake)
      (presses 3 idle button_y true) refl refl

blanked-Reachable : Reachable panel_config blanked
unfolding started draw initial
blanked-Reachable = next (first 1 idle) refl (presses 2 idle button_b false)

Reachable-IsLit_example : IsLit panel_config blanked
Reachable-IsLit_example = Reachable-IsLit panel_config blanked-Reachable

-- On a blanked screen the same press does no more than wake it.
woken_only :
    (blanked.backlight ≡ 0)
    × ((on_button panel_config 3 idle button_y true blanked).powered_off ≡ false)
    × ((on_button panel_config 3 idle button_y true blanked).backlight ≡ 60)
unfolding started draw initial on_button act sleep wake
woken_only = (refl, refl, refl)

-- What the ADB controller reports of a device that is ready.
abbrev ready_by_adb : Info
ready_by_adb = record {
  id = codes "0123";
  model = codes "DJI RC 2";
  authorized = true;
  state = codes "device";
}

adb_never_connected : (controller_status (ready_by_adb ∷ [])).connected ≡ false
unfolding controller_status
adb_never_connected = refl
