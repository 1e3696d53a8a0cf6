-- ===== src/Wifi/Handlers.antt =====
-- The WebSocket handlers of main/wifi.c and `app_wifi_start`; `app_wifi_scan` of
-- main/wifi_action.c with its callback.
pub mod Start
use basic_setup.Prelude.{
  ℕ, zero, suc, ◌+◌, ◌*◌, ◌%◌, Bool, true, false, not, ◌&&◌, ◌||◌, Option, none, some, List, [],
  ◌∷◌, ◌++◌, length, get_or, take, drop, replicate, ◌==◌, if◌then◌else◌,
}
use basic_setup.Device.{EspErr, is_ok, ws_sendframe, task_delay}
use basic_setup.Device.Op
use basic_setup.Device.MsgId
use basic_setup.Config.{c_string}
use basic_setup.Registry.{Item, web_socket_add_handler_auth}
use basic_setup.Wifi.{
  WifiMode, mode_null, mode_sta, mode_ap, mode_apsta, Driver, ApConfig, StaConfig, State, WifiEvent,
  emit, drive, same_mode, set_wifi_mode, app_wifi_ap_start, app_wifi_ap_stop, app_wifi_connect,
  app_wifi_disconnect,
}

-- `wifi_ap_record_t`, and the bytes that `malloc` leaves in the padding of `struct ws_scan_result`.
pub record ScanRecord : Type 0 where
  pub bssid : List ℕ
  pub ssid : List ℕ
  pub rssi : ℕ
  pub authmode : ℕ
  pub padding : List ℕ

-- More calls of the SDK. `stale_mode` is what the variable `mode` holds when `esp_wifi_get_mode`
-- fails; `scan` is the records of a scan, `none` being an error or no memory.
pub record Network (W : Type 0) : Type 0 where
  pub driver : Driver W
  pub stale_mode : WifiMode
  pub mac_sta : List ℕ
  pub mac_ap : List ℕ
  pub ip_sta : W → List ℕ
  pub ip_ap : W → List ℕ
  pub scan : W → Option (List ScanRecord)
  pub register_wifi_event : EspErr
  pub register_ip_event : EspErr

-- sizeof(struct wifi_config_sta), which is that of struct wifi_config_ap.
abbrev pub sizeof_wifi_config : ℕ
sizeof_wifi_config = 120

abbrev pub flag : Bool → ℕ
flag true = 1
flag false = 0

-- The configuration of the access point; the zeroed one if the driver has none to give.
abbrev pub or_zeroed : Option ApConfig → ApConfig
or_zeroed (some cfg) = cfg
or_zeroed none = record {
  ssid = replicate 32 0;
  password = replicate 64 0;
  ssid_len = 0;
  authmode = 0;
  max_connection = 0;
}

-- One `struct ws_scan_result`.
unfoldable pub scan_result : ScanRecord → List ℕ
scan_result r = r.bssid ++ (r.ssid ++ (r.rssi ∷ (r.authmode % 256) ∷ r.padding))

unfoldable pub scan_results : List ScanRecord → List ℕ
unfolding scan_result
scan_results [] = []
scan_results (r ∷ rs) = scan_result r ++ scan_results rs

module _ {W : Type 0} (n : Network W) where
  open n use {driver}

  abbrev pub current_mode : W → WifiMode
  current_mode w = elim (driver.get_mode w) [ none ↦ n.stale_mode | some mode ↦ mode ]

  -- `ret` after the request, if it is one, was copied into it: the bytes behind `msg_id`.
  abbrev pub request : List ℕ → List ℕ
  request msg = if length msg == 119 then msg else replicate 119 0

  unfoldable pub sta_reply : List ℕ → State W → List ℕ
  sta_reply msg s =
      let mode = current_mode s.driver in
      let cfg = driver.get_config_sta s.driver in
      MsgId.wifi_config_sta
      ∷ flag (same_mode mode mode_apsta || same_mode mode mode_sta)
      ∷ (n.mac_sta
          ++ (n.ip_sta s.driver
              ++ (cfg.ssid
                  ++ (cfg.password
                      ++ (flag (driver.get_auto_connect s.driver) ∷ drop 116 (request msg))))))

  unfoldable pub on_ws_get_set_config_sta :
      ℕ → List ℕ → (State W → Bool × State W) → State W → State W
  unfolding sta_reply app_wifi_connect app_wifi_disconnect
  on_ws_get_set_config_sta client msg wait s =
      let s1 = emit (task_delay 1000) (app_wifi_disconnect driver s).1 in
      let s2 =
        (app_wifi_connect driver (some (c_string (drop 19 msg))) (some (c_string (drop 51 msg)))
          wait s1).1 in
      let s' = if length msg == 119 then (if get_or msg 0 0 == 0 then s1 else s2) else s in
      emit (ws_sendframe (some client) (sta_reply msg s') Op.bin) s'

  -- Only `ssid_len` bytes of the name are copied over what the request has there, and `is_started`
  -- is the bit from before the request.
  unfoldable pub ap_reply : Bool → List ℕ → State W → List ℕ
  ap_reply started msg s =
      let mode = current_mode s.driver in
      let cfg = or_zeroed (driver.get_config_ap s.driver) in
      let name = take 32 (drop 19 (request msg)) in
      MsgId.wifi_config_ap
      ∷ flag (same_mode mode mode_apsta || same_mode mode mode_ap)
      ∷ (n.mac_ap
          ++ (n.ip_ap s.driver
              ++ ((take cfg.ssid_len cfg.ssid ++ drop cfg.ssid_len name)
                  ++ (cfg.password
                      ++ (flag started ∷ (cfg.authmode % 256) ∷ drop 117 (request msg))))))

  unfoldable pub on_ws_get_set_config_ap :
      ℕ → List ℕ → (State W → Bool × State W) → State W → State W
  unfolding ap_reply app_wifi_ap_start app_wifi_ap_stop
  on_ws_get_set_config_ap client msg wait s =
      let on =
        (app_wifi_ap_start driver (some (c_string (drop 19 msg))) (some (c_string (drop 51 msg)))
          wait s).1 in
      let off = (app_wifi_ap_stop driver s).1 in
      let s' = if length msg == 119 then (if get_or msg 0 0 == 0 then off else on) else s in
      emit (ws_sendframe (some client) (ap_reply s.ap_started msg s') Op.bin) s'

  -- `app_wifi_scan(&send_scan_results, client)`.
  unfoldable pub on_ws_sta_scan : ℕ → State W → State W
  unfolding set_wifi_mode scan_results
  on_ws_sta_scan client s = elim (driver.get_mode s.driver) [
    | none ↦ s
    | some cur ↦
        let s' = drive driver (set_wifi_mode driver mode_sta) s in
        elim (n.scan s'.driver) [
          | none ↦ s'
          | some rs ↦
              emit (ws_sendframe (some client) (MsgId.wifi_sta_scan ∷ scan_results rs) Op.bin) s'
        ]
  ]

-- The handlers that `app_wifi_start` registers.
pub data WifiHandler : Type 0 where
  config_ap config_sta sta_scan : WifiHandler

-- What `app_wifi_start` works on: the two event handlers, the message handlers, and the state.
pub record Startup (W : Type 0) : Type 0 where
  pub wifi_handler : Bool
  pub ip_handler : Bool
  pub items : List (Item WifiHandler)
  pub state : State W

module _ {W : Type 0} (n : Network W) where
  open n use {driver}

  -- The driver is started if it has a mode; without a name in the configuration of the access point
  -- it does not connect by itself.
  unfoldable pub start_driver : W → EspErr × W
  start_driver w = driver.wifi_start (elim (driver.get_config_ap w) [
    | none ↦ w
    | some cfg ↦ if length (c_string cfg.ssid) == 0 then driver.set_auto_connect false w else w
  ])

  -- The label `error2`.
  unfoldable pub fail_wifi : Startup W → Bool × Startup W
  fail_wifi s =
      (false, record s { wifi_handler = false; state = record (s.state) { wifi_error = true } })

  -- The label `error3`, which goes on at `error2`.
  unfoldable pub fail_start : Startup W → Bool × Startup W
  unfolding fail_wifi
  fail_start s = fail_wifi (record s { ip_handler = false })

  unfoldable pub add_handlers : Bool → Startup W → Bool × Startup W
  unfolding web_socket_add_handler_auth
  add_handlers alloc s =
      let items1 =
        (web_socket_add_handler_auth alloc MsgId.wifi_config_ap config_ap true s.items).1 in
      let items2 =
        (web_socket_add_handler_auth alloc MsgId.wifi_config_sta config_sta true items1).1 in
      let items3 = (web_socket_add_handler_auth alloc MsgId.wifi_sta_scan sta_scan true items2).1 in
      (true, record s { items = items3 })

  -- `app_wifi_start`; the result is whether it is ESP_OK.
  unfoldable pub app_wifi_start : Bool → Startup W → Bool × Startup W
  unfolding start_driver fail_wifi fail_start add_handlers
  app_wifi_start alloc s =
      let s1 = record s { wifi_handler = is_ok n.register_wifi_event } in
      let s2 = record s1 { ip_handler = is_ok n.register_ip_event } in
      let (err, w) = start_driver s.state.driver in
      let s3 = record s2 { state = record (s.state) { driver = w } } in
      if not (is_ok n.register_wifi_event)
      then fail_wifi s1
      else (if not (is_ok n.register_ip_event)
          then fail_start s2
          else (elim (driver.get_mode s.state.driver) [
            | none ↦ fail_start s2
            | some mode ↦
                if same_mode mode mode_null
                then add_handlers alloc s2
                else (if is_ok err then add_handlers alloc s3 else fail_start s3)
          ]))
