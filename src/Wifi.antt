-- ===== src/Wifi.antt =====
-- main/wifi_action.c and the event handlers of main/wifi.c: the WiFi mode, the access point, the
-- station, and the state bits of main/include/state.h.
-- The WiFi driver and the TCP/IP adapter of the SDK are the functions of a `Driver` over a driver
-- state `W`, and a wait for a state bit is a function on the state.
pub mod Retry
pub mod Interfaces
pub mod AccessPoint
pub mod Handlers
use basic_setup.Prelude.{
  ℕ, zero, suc, ◌+◌, Bool, true, false, not, ◌&&◌, ◌||◌, Option, none, some, List, [], ◌∷◌, ◌++◌,
  length, replicate, ltb, leb, ◌==◌, if◌then◌else◌,
}
use basic_setup.Device.{EspErr, is_ok, Effect, task_delay, esp_restart}
use basic_setup.Config.{fill}

-- `wifi_mode_t`.
pub data WifiMode : Type 0 where
  mode_null mode_sta mode_ap mode_apsta : WifiMode

-- The codes of main/include/errors.h that these functions return.
pub data AppErr : Type 0 where
  app_ok app_err_error already_started not_started not_connected : AppErr

-- The fields of `wifi_config_t` that are written or read, for the access point and the station.
pub record ApConfig : Type 0 where
  pub ssid : List ℕ
  pub password : List ℕ
  pub ssid_len : ℕ
  pub authmode : ℕ
  pub max_connection : ℕ

pub record StaConfig : Type 0 where
  pub ssid : List ℕ
  pub password : List ℕ

-- The calls of the SDK; `none` is an error. Results that the code only logs are left out.
pub record Driver (W : Type 0) : Type 0 where
  pub get_mode : W → Option WifiMode
  pub set_mode : WifiMode → W → W
  pub wifi_start : W → EspErr × W
  pub wifi_stop : W → W
  pub connect : W → W
  pub get_auto_connect : W → Bool
  pub set_auto_connect : Bool → W → W
  pub set_protocol_bgn : W → W
  pub set_hostname_ap : W → W
  pub set_hostname_sta : W → W
  pub get_config_ap : W → Option ApConfig
  pub set_config_ap : ApConfig → W → W
  pub get_config_sta : W → StaConfig
  pub set_config_sta : StaConfig → W → W

-- `wifi_event_sta_disconnected_t.reason`, as far as the code tells values apart.
pub data Reason : Type 0 where
  assoc_leave basic_rate_not_support no_ap_found other_reason : Reason

pub data WifiEvent : Type 0 where
  ap_start ap_stop sta_start sta_stop sta_connected : WifiEvent
  sta_disconnected : Reason → WifiEvent
  other_event : WifiEvent

-- The bits of APP_STATE that are used, `retry_cntr`, the driver, and the effects so far.
pub record State (W : Type 0) : Type 0 where
  pub ap_started : Bool
  pub wifi_error : Bool
  pub internet_connected : Bool
  pub connecting : Bool
  pub connected : Bool
  pub failed : Bool
  pub retry_cntr : ℕ
  pub driver : W
  pub out : List Effect

-- CONFIG_APP_WIFI_MAX_CLIENT and CONFIG_APP_WIFI_MAX_RETRY.
abbrev pub max_client : ℕ
max_client = 5

abbrev pub max_retry : ℕ
max_retry = 5

abbrev pub emit : {W : Type 0} → Effect → State W → State W
emit e s = record s { out = s.out ++ (e ∷ []) }

abbrev pub same_mode : WifiMode → WifiMode → Bool
same_mode mode_null mode_null = true
same_mode mode_sta mode_sta = true
same_mode mode_ap mode_ap = true
same_mode mode_apsta mode_apsta = true
same_mode _ _ = false

-- The configuration that `app_wifi_ap_start` sets; `ssid` and `pass` are without their terminators.
unfoldable pub ap_config : List ℕ → List ℕ → ApConfig → ApConfig
ap_config ssid pass old =
    let secured = ltb 0 (length pass) && leb (length pass) 64 in
    record {
      ssid = fill 32 ssid;
      password = if secured then fill 64 pass else replicate 64 0;
      ssid_len = 0;
      authmode = if secured then 4 else 0;
      max_connection =
          if ltb 0 old.max_connection && leb old.max_connection max_client
          then old.max_connection
          else max_client;
    }

unfoldable pub sta_config : List ℕ → Option (List ℕ) → StaConfig
sta_config ssid none = record { ssid = fill 32 ssid; password = replicate 64 0 }
sta_config ssid (some pass) = record {
  ssid = fill 32 ssid;
  password = if leb 8 (length pass) then fill 64 pass else replicate 64 0;
}

module _ {W : Type 0} (v : Driver W) where
  -- The driver's part of a state changed.
  abbrev pub drive : (W → W) → State W → State W
  drive f s = record s { driver = f s.driver }

  unfoldable pub set_wifi_mode : WifiMode → W → W
  set_wifi_mode mode w = elim (v.get_mode w) [
    | none ↦ w
    | some cur ↦
        if same_mode cur mode_null
        then (v.wifi_start (v.set_mode mode w)).1
        else (if not (same_mode cur mode_apsta) && not (same_mode cur mode)
            then v.set_mode mode_apsta w
            else w)
  ]

  unfoldable pub unset_wifi_mode : WifiMode → W → W
  unset_wifi_mode mode w = elim (v.get_mode w) [
    | none ↦ w
    | some cur ↦
        if same_mode cur mode_apsta
        then v.set_mode (if same_mode mode mode_ap then mode_sta else mode_ap) w
        else (if same_mode cur mode then v.wifi_stop (v.set_mode mode_null w) else w)
  ]

  -- The branch of `handle_wifi_event` for a lost connection.
  unfoldable pub on_disconnected : Reason → State W → State W
  on_disconnected assoc_leave s = record s { connecting = false; failed = false; connected = false }
  on_disconnected reason s =
      let retried = record s { connected = false; retry_cntr = s.retry_cntr + 1 } in
      let adapted = reconnect reason retried in
      if leb max_retry s.retry_cntr
      then emit esp_restart (record s { connecting = false; failed = true; retry_cntr = 0 })
      else drive v.connect (record adapted { connecting = true })
    where
      reconnect : Reason → State W → State W
      reconnect basic_rate_not_support s = drive v.set_protocol_bgn s
      reconnect no_ap_found s = emit (task_delay 10000) s
      reconnect _ s = s

  unfoldable pub handle_wifi_event : WifiEvent → State W → State W
  unfolding on_disconnected
  handle_wifi_event ap_start s = record (drive v.set_hostname_ap s) { ap_started = true }
  handle_wifi_event ap_stop s = record s { ap_started = false }
  handle_wifi_event sta_start s =
      if v.get_auto_connect s.driver
      then drive v.connect
          (record (drive v.set_hostname_sta s) { failed = false; connecting = true })
      else s
  handle_wifi_event sta_stop s = record s { connecting = false }
  handle_wifi_event sta_connected s = record s {
    connecting = false;
    failed = false;
    connected = true;
    retry_cntr = 0;
  }
  handle_wifi_event (sta_disconnected reason) s = on_disconnected reason s
  handle_wifi_event other_event s = s

  -- `handle_ip_event`: `true` is IP_EVENT_STA_GOT_IP, `false` IP_EVENT_STA_LOST_IP.
  unfoldable pub handle_ip_event : Bool → State W → State W
  handle_ip_event true s = record s { retry_cntr = 0 }
  handle_ip_event false s = record s { internet_connected = false }

  -- `xEventGroupWaitBits` for one bit, with `clear` being xClearOnExit: `wait` is whether the bit was
  -- set in time, and the state at that moment; `clear_bit` clears the bit.
  unfoldable pub wait_bits :
      Bool → (State W → State W) → (State W → Bool × State W) → State W → Bool × State W
  wait_bits clear clear_bit wait s =
      let (in_time, s') = wait s in (in_time, if in_time && clear then clear_bit s' else s')

  -- The end of `app_wifi_ap_start`: the wait for STATE_AP_STARTED, with its third argument 1.
  unfoldable pub await_ap_started : (State W → Bool × State W) → State W → Option AppErr × State W
  unfolding wait_bits
  await_ap_started wait s =
      let (in_time, s') = wait_bits true (λ t. record t { ap_started = false }) wait s in
      (some (if in_time then app_ok else not_started), s')

  -- The configuration, if there is a name, and the wait.
  unfoldable pub configure_ap :
      Option (List ℕ)
      → Option (List ℕ)
      → (State W → Bool × State W)
      → State W
      → Option AppErr × State W
  unfolding await_ap_started ap_config
  configure_ap none pass wait s = await_ap_started wait s
  configure_ap (some ssid) pass wait s = elim (v.get_config_ap s.driver) [
    | none ↦ (some app_err_error, s)
    | some old ↦ elim pass [
      | none ↦ (none, s)
      | some pass ↦ await_ap_started wait (drive (v.set_config_ap (ap_config ssid pass old)) s)
    ]
  ]

  -- `app_wifi_ap_start`. The password is `none` for NULL, of which `strlen` is taken: the result
  -- `none` is that fault.
  unfoldable pub app_wifi_ap_start :
      Option (List ℕ)
      → Option (List ℕ)
      → (State W → Bool × State W)
      → State W
      → Option AppErr × State W
  unfolding configure_ap set_wifi_mode
  app_wifi_ap_start ssid pass wait s =
      if s.ap_started
      then (some already_started, s)
      else configure_ap ssid pass wait (drive (set_wifi_mode mode_ap) s)

  unfoldable pub app_wifi_ap_stop : State W → AppErr × State W
  unfolding unset_wifi_mode
  app_wifi_ap_stop s =
      if s.ap_started then (app_ok, drive (unset_wifi_mode mode_ap) s) else (not_connected, s)

  unfoldable pub app_wifi_connect :
      Option (List ℕ) → Option (List ℕ) → (State W → Bool × State W) → State W → AppErr × State W
  unfolding set_wifi_mode sta_config wait_bits
  app_wifi_connect ssid pass wait s =
      let s1 = drive (v.set_auto_connect true) (drive (set_wifi_mode mode_sta) s) in
      let (in_time, s') =
        wait_bits true (λ t. record t { connecting = false }) wait (configure ssid s1) in
      (app_ok, if in_time then s' else drive v.connect (record s' { connecting = true }))
    where
      configure : Option (List ℕ) → State W → State W
      configure none s = s
      configure (some ssid) s = drive (v.set_config_sta (sta_config ssid pass)) s

  -- `bits` is a copy from before the bit is cleared, and `xEventGroupClearBits` gives the bits from
  -- before too.
  unfoldable pub app_wifi_disconnect : State W → AppErr × State W
  unfolding unset_wifi_mode
  app_wifi_disconnect s =
      let s' = record s { connecting = false } in
      if s.connecting || s.connected
      then (app_ok, drive (unset_wifi_mode mode_sta) (drive (v.set_auto_connect false) s'))
      else (not_connected, s')
