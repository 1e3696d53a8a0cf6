-- ===== src/Console.antt =====
-- components/commands/src/cmd-wifi.c: the WiFi commands of the console. `arg_parse` is not part of
-- the repository: what it leaves in the argument table is given.
pub mod Netmask
pub mod Commands
pub mod Act
pub mod Terminal
pub mod Ping
use basic_setup.Prelude.{
  ℕ, zero, suc, ◌+◌, ◌/◌, ◌%◌, Bool, true, false, not, Option, none, some, List, [], ◌∷◌, ◌==◌,
  if◌then◌else◌,
}
use basic_setup.Wifi.{
  Driver, State, WifiMode, AppErr, app_wifi_connect, app_wifi_disconnect, app_wifi_ap_start,
  app_wifi_ap_stop,
}

-- `connect_args` behind `arg_parse`: the number of errors, and the values of the two arguments.
pub record ConnectArgs : Type 0 where
  pub nerrors : ℕ
  pub ssid : List (List ℕ)
  pub password : List (List ℕ)

-- The value of an argument that was given once.
unfoldable pub only : List (List ℕ) → Option (List ℕ)
only (value ∷ []) = some value
only _ = none

unfoldable pub given : Option (List ℕ) → Option (List ℕ) → Option (List ℕ)
given none password = none
given (some ssid) password = password

-- What a command returns: 1 for its arguments, the result of the action, or nothing, by a fault.
pub data Returned : Type 0 where
  usage fault : Returned
  result : AppErr → Returned

-- The states that `print_interface_info` prints.
pub data StateText : Type 0 where
  text_connecting text_connected text_failed text_disconnected text_started text_stopped : StateText

module _ {W : Type 0} (v : Driver W) where
  unfoldable pub cmd_connect :
      ConnectArgs → (State W → Bool × State W) → State W → Returned × State W
  unfolding only given
  cmd_connect args wait s =
      let ssid = only args.ssid in
      let (r, s') = app_wifi_connect v ssid (given ssid (only args.password)) wait s in
      if args.nerrors == 0 then (result r, s') else (usage, s)

  unfoldable pub cmd_disconnect : State W → Returned × State W
  cmd_disconnect s = let (r, s') = app_wifi_disconnect v s in (result r, s')

  unfoldable pub cmd_ap_start :
      ConnectArgs → (State W → Bool × State W) → State W → Returned × State W
  unfolding only given
  cmd_ap_start args wait s =
      let ssid = only args.ssid in
      let (r, s') = app_wifi_ap_start v ssid (given ssid (only args.password)) wait s in
      if args.nerrors == 0
      then elim r [ none ↦ (fault, s') | some e ↦ (result e, s') ]
      else (usage, s)

  unfoldable pub cmd_ap_stop : State W → Returned × State W
  cmd_ap_stop s = let (r, s') = app_wifi_ap_stop v s in (result r, s')

  -- The status of the station, by the first bit that is set, and of the access point.
  unfoldable pub sta_status : State W → StateText
  sta_status s =
      if s.connecting
      then text_connecting
      else (if s.connected
          then text_connected
          else (if s.failed then text_failed else text_disconnected))

  unfoldable pub ap_status : State W → StateText
  ap_status s = if s.ap_started then text_started else text_stopped

-- `while (netmask) { cidr += netmask & 0x01; netmask >>= 1; }`; `none` means that the fuel ran out.
unfoldable pub cidr_loop : ℕ → ℕ → ℕ → Option ℕ
cidr_loop zero netmask cidr = if netmask == 0 then some cidr else none
cidr_loop (suc fuel) netmask cidr =
    let rest = cidr_loop fuel (netmask / 2) (cidr + netmask % 2) in
    if netmask == 0 then some cidr else rest

-- The prefix length of a netmask in host order, a u32_t.
unfoldable pub cidr : ℕ → Option ℕ
unfolding cidr_loop
cidr netmask = cidr_loop 32 netmask 0
