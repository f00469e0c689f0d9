-- ===== src/Display/Status.antt =====
-- What the status screen shows: the choices of internal/display/display.go between devices, networks
-- and addresses, the colour of the LED, and what the tools for Wi-Fi print.
use companion_mission_planne.Base.{
  ℕ, ◌+◌, Bool, true, false, not, ◌&&◌, ◌||◌, Option, none, some, List, [], ◌∷◌, ◌++◌, Text,
  text_eq, codes, format_uint, has_prefix, is_empty, leb, ltb, if◌then◌else◌,
}

-- device.Info, as far as the screen reads it.
pub record Info : Type 0 where
  pub id : Text
  pub model : Text
  pub authorized : Bool
  pub state : Text

pub record ControllerStatus : Type 0 where
  pub connected : Bool
  pub label : Text
  pub state : Text

pub record NetStatus : Type 0 where
  pub up : Bool
  pub ip : Text
  pub iface : Text
  pub ssid : Text

pub record TailscaleInfo : Type 0 where
  pub up : Bool
  pub ip : Text
  pub iface : Text

pub record BatteryStatus : Type 0 where
  pub present : Bool
  pub percent : ℕ
  pub external_power : Bool

-- The parts of Snapshot that the loop reads.
pub record Snapshot : Type 0 where
  pub url : Text
  pub battery : BatteryStatus
  pub net : NetStatus
  pub controller : ControllerStatus
  pub transferring : Bool

is_online : Info → Bool
unfolding text_eq
is_online i = text_eq i.state (codes "online")

-- The rank of a device; the loop starts from -1, below every rank.
unfoldable pub device_rank : Info → ℕ
unfolding is_online
device_rank i = (if is_online i then 2 else 0) + (if i.authorized then 1 else 0)

-- The loop of controllerStatus.
unfoldable pub best_device : Option Info → List Info → Option Info
unfolding device_rank
best_device best [] = best
best_device none (i ∷ infos) = best_device (some i) infos
best_device (some b) (i ∷ infos) =
    best_device (if ltb (device_rank b) (device_rank i) then some i else some b) infos

-- controllerStatus
unfoldable pub controller_status : List Info → ControllerStatus
unfolding best_device is_online
controller_status infos = elim (best_device none infos) [
  | none ↦ record { connected = false; label = []; state = [] }
  | some best ↦ record {
    connected = is_online best;
    label = if is_empty best.model then best.id else best.model;
    state = best.state;
  }
]

-- A network interface with the IPv4 addresses among its addresses.
pub record Interface : Type 0 where
  pub name : Text
  pub up : Bool
  pub loopback : Bool
  pub addresses : List Text

-- The rank of an interface by its name.
unfoldable pub interface_rank : Text → ℕ
unfolding has_prefix
interface_rank name =
    if has_prefix name (codes "wlan")
    then 3
    else if has_prefix name (codes "eth") || has_prefix name (codes "en")
    then 2
    else 1

-- An address with the interface that it was found on.
pub record Choice : Type 0 where
  pub name : Text
  pub ip : Text

better : Option Choice → Choice → Option Choice
unfolding interface_rank
better none c = some c
better (some b) c = if ltb (interface_rank b.name) (interface_rank c.name) then some c else some b

-- The loop over the addresses of an interface.
pick_address : Text → List Text → Option Choice → Option Choice
unfolding better
pick_address name [] best = best
pick_address name (ip ∷ addresses) best =
    pick_address name addresses (better best (record { name = name; ip = ip }))

-- The loop of readNet over the interfaces.
unfoldable pub pick_interface : List Interface → Option Choice → Option Choice
unfolding pick_address
pick_interface [] best = best
pick_interface (i ∷ ifaces) best =
    pick_interface ifaces
      (if i.loopback || not i.up then best else pick_address i.name i.addresses best)

-- readNet; `ssid_of` is wifiSSID.
unfoldable pub read_net : (Text → Text) → Option (List Interface) → NetStatus
unfolding pick_interface has_prefix
read_net ssid_of ifaces = elim ifaces [
  | none ↦ record { up = false; ip = []; iface = []; ssid = [] }
  | some l ↦ elim (pick_interface l none) [
    | none ↦ record { up = false; ip = []; iface = []; ssid = [] }
    | some c ↦ record {
      up = true;
      ip = c.ip;
      iface = c.name;
      ssid = if has_prefix c.name (codes "wlan") then ssid_of c.name else [];
    }
  ]
]

-- The loop of readTailscale.
first_tailscale : List Interface → TailscaleInfo
unfolding has_prefix
first_tailscale [] = record { up = false; ip = []; iface = [] }
first_tailscale (i ∷ ifaces) =
    let rest = first_tailscale ifaces in
    if has_prefix i.name (codes "tailscale") && i.up
    then elim i.addresses [
      | [] ↦ rest
      | (ip ∷ addresses) ↦ record { up = true; ip = ip; iface = i.name }
    ]
    else rest

-- readTailscale
unfoldable pub read_tailscale : Option (List Interface) → TailscaleInfo
unfolding first_tailscale
read_tailscale none = record { up = false; ip = []; iface = [] }
read_tailscale (some ifaces) = first_tailscale ifaces

-- serverURL, of the address that the server is bound to and its port.
unfoldable pub server_url : Text → ℕ → NetStatus → TailscaleInfo → Text
unfolding text_eq format_uint
server_url bind port n ts =
    let wildcard = is_empty bind || text_eq bind (codes "0.0.0.0") || text_eq bind (codes "::") in
    let host = if wildcard then (if ts.up && not (is_empty ts.ip) then ts.ip else n.ip) else bind in
    codes "http://"
    ++ (if is_empty host then codes "127.0.0.1" else host)
    ++ codes ":"
    ++ format_uint port

-- healthLED: the red, green and blue channels.
unfoldable pub health_led : Snapshot → Bool × Bool × Bool
health_led s =
    if s.battery.present && not s.battery.external_power && leb s.battery.percent 10
    then (true, false, false)
    else if not s.controller.connected
        || s.battery.present && (leb s.battery.percent 20 || not s.battery.external_power)
    then (true, true, false)
    else (false, true, false)

-- activitySignal
pub record Signal : Type 0 where
  pub transferring : Bool
  pub ctrl_conn : Bool
  pub ctrl_state : Text
  pub ctrl_label : Text
  pub net_up : Bool
  pub net_iface : Text
  pub net_ssid : Text

-- activityOf
unfoldable pub activity_of : Snapshot → Signal
activity_of s = record {
  transferring = s.transferring;
  ctrl_conn = s.controller.connected;
  ctrl_state = s.controller.state;
  ctrl_label = s.controller.label;
  net_up = s.net.up;
  net_iface = s.net.iface;
  net_ssid = s.net.ssid;
}

same_bool : Bool → Bool → Bool
same_bool true b = b
same_bool false b = not b

-- `sig == lastSig`
unfoldable pub same_signal : Signal → Signal → Bool
unfolding same_bool text_eq
same_signal a b =
    same_bool a.transferring b.transferring
    && same_bool a.ctrl_conn b.ctrl_conn
    && text_eq a.ctrl_state b.ctrl_state
    && text_eq a.ctrl_label b.ctrl_label
    && same_bool a.net_up b.net_up
    && text_eq a.net_iface b.net_iface
    && text_eq a.net_ssid b.net_ssid
