-- ===== src/Firmware.antt =====
-- The message handlers of main/config.c, main/actuator.c and main/wifi.c over one state, the
-- registration of those handlers and the boot sequence up to the WiFi. What the SDK keeps, its flash
-- and the state of its WiFi driver, is the type `N`.
-- A client is the index of its slot; `none` is the NULL client, a broadcast. A message is the list
-- of its bytes, and the byte behind it is the terminator 0 that the frame reader writes.
pub mod ShiftRegister
pub mod Relays
pub mod Validity
pub mod Login
pub mod Access
pub mod Updates
use basic_setup.Prelude.{
  ℕ, zero, suc, ◌+◌, ◌*◌, ◌/◌, ◌%◌, ◌^◌, Bool, true, false, ◌&&◌, Option, none, some, List, [], ◌∷◌,
  ◌++◌, length, get_or, set, take, drop, ltb, leb, ◌==◌, if◌then◌else◌,
}
use basic_setup.Device.{
  EspErr, is_ok, Env, Effect, gpio_set_level, ws_sendframe, task_delay, esp_restart, clock, ds,
  stcp,
}
use basic_setup.Device.Op
use basic_setup.Device.MsgId
use basic_setup.Config.{
  AppConfig, to_bytes, app_switch_count, app_name_max_size, tcpip_hostname_max_size,
}
use basic_setup.Storage.{
  nvs_clear, password_check, update_password, config_save, reset_wifi_config, config_load,
}
use basic_setup.Wifi.{State}
use basic_setup.Wifi.Handlers.{
  Network, WifiHandler, config_ap, config_sta, sta_scan, Startup, on_ws_get_set_config_ap,
  on_ws_get_set_config_sta, on_ws_sta_scan, app_wifi_start,
}
use basic_setup.Registry.{
  Item, web_socket_add_handler_auth, close_all_frame, ws_onmessage, ws_onopen,
}

-- The functions that are registered. `on_ws_update` is the actuator's, `on_ws_wifi` those of wifi.c.
pub data Handler : Type 0 where
  on_ws_client on_ws_login on_ws_logout on_ws_update_hostname on_ws_update_switches : Handler
  on_ws_update_sensors on_ws_update_password on_ws_reset_config on_ws_restart on_ws_update : Handler
  on_ws_wifi : WifiHandler → Handler

-- What the handlers of wifi.c work on: the SDK, what happens during the two waits for a state bit,
-- and the state bits. The driver and the effects of `bits` are set for each call.
pub record Radio (N : Type 0) : Type 0 where
  pub network : Network N
  pub wait_ap : State N → Bool × State N
  pub wait_sta : State N → Bool × State N
  pub bits : State N

pub record Device (N : Type 0) : Type 0 where
  pub config : AppConfig
  pub flash : N
  pub is_login : ℕ → Bool
  pub handlers : List (Item Handler)
  pub radio : Radio N
  pub out : List Effect

abbrev pub app_password_max_size : ℕ
app_password_max_size = 128

abbrev pub flag : Bool → ℕ
flag true = 1
flag false = 0

-- One more effect.
abbrev pub emit : {N : Type 0} → Effect → Device N → Device N
emit e d = record d { out = d.out ++ (e ∷ []) }

abbrev pub set_login : {N : Type 0} → ℕ → Bool → Device N → Device N
set_login client b d = record d { is_login = λ c. if c == client then b else d.is_login c }

-- Nothing in wifi.c and wifi_action.c moves a pin of the shift register, and no event during a wait
-- does.
unfoldable pub without_pins : List Effect → List Effect
without_pins [] = []
without_pins (gpio_set_level pin v ∷ es) = without_pins es
without_pins (ws_sendframe client msg type ∷ es) = ws_sendframe client msg type ∷ without_pins es
without_pins (task_delay t ∷ es) = task_delay t ∷ without_pins es
without_pins (esp_restart ∷ es) = esp_restart ∷ without_pins es

-- The state that wifi.c sees, and the device behind a change of it.
abbrev pub wifi_state : {N : Type 0} → Device N → State N
wifi_state d = record (d.radio.bits) { driver = d.flash; out = [] }

abbrev pub put_wifi_state : {N : Type 0} → State N → Device N → Device N
put_wifi_state s d = record d {
  flash = s.driver;
  radio = record (d.radio) { bits = s };
  out = d.out ++ without_pins s.out;
}

unfoldable pub on_wifi : {N : Type 0} → WifiHandler → ℕ → List ℕ → Radio N → State N → State N
unfolding on_ws_get_set_config_ap on_ws_get_set_config_sta on_ws_sta_scan
on_wifi config_ap client msg r s = on_ws_get_set_config_ap r.network client msg r.wait_ap s
on_wifi config_sta client msg r s = on_ws_get_set_config_sta r.network client msg r.wait_sta s
on_wifi sta_scan client msg r s = on_ws_sta_scan r.network client s

-- `memcpy(config.hostname, msg, size)` and the terminator, for a size of at most 32.
abbrev pub write_hostname : List ℕ → AppConfig → AppConfig
write_hostname msg c =
    let copied = msg ++ drop (length msg) c.hostname in
    record c {
      hostname =
          if ltb (length msg) tcpip_hostname_max_size then set copied (length msg) 0 else copied;
    }

abbrev pub write_switches : List ℕ → AppConfig → AppConfig
write_switches msg c = record c {
  switches = take (app_switch_count * app_name_max_size) msg;
  switch_cfg = take app_switch_count (drop (app_switch_count * app_name_max_size) msg);
}

abbrev pub write_sensors : ℕ → List ℕ → AppConfig → AppConfig
write_sensors n msg c = record c {
  sensors = take (n * app_name_max_size) msg;
  sensor_cfg = take n (drop (n * app_name_max_size) msg);
}

-- `gpio_set_level(DS, !((value >> i) & 1))` and a clock pulse, for i from `n - 1` down to 0.
unfoldable pub shift_out : ℕ → ℕ → List Effect
shift_out value zero = []
shift_out value (suc i) =
    gpio_set_level ds (if value / 2 ^ i % 2 == 0 then 1 else 0)
    ∷ gpio_set_level clock 1
    ∷ gpio_set_level clock 0
    ∷ shift_out value i

-- The pin writes of `actuator_update`.
unfoldable pub actuator_pins : ℕ → List Effect
unfolding shift_out
actuator_pins value = shift_out value 8 ++ (gpio_set_level stcp 1 ∷ gpio_set_level stcp 0 ∷ [])

module _ {N : Type 0} (env : Env N) where
  unfoldable pub actuator_update : ℕ → Device N → Device N
  unfolding actuator_pins
  actuator_update value d =
      let c = record (d.config) { switch_values = value } in
      record d {
        config = c;
        flash = (config_save env none c d.flash).1;
        out =
            d.out
            ++ (actuator_pins value
                ++ (ws_sendframe none (MsgId.actuator ∷ value ∷ []) Op.bin ∷ []));
      }

  unfoldable pub send_config : Option ℕ → Device N → Device N
  send_config client d = emit (ws_sendframe client (MsgId.config ∷ to_bytes d.config) Op.bin) d

  -- The password is looked at only if the client is not logged in and the size is 1 to 128.
  unfoldable pub login : ℕ → List ℕ → Device N → Device N
  login client msg d =
      let (err, n) = password_check env msg d.flash in
      let logged = d.is_login client in
      let tried = ltb 0 (length msg) && leb (length msg) app_password_max_size in
      let reply = λ (b : Bool). ws_sendframe (some client) (MsgId.login ∷ flag b ∷ []) Op.bin in
      if logged
      then emit (reply true) d
      else (if tried
          then (if is_ok err
              then emit (reply true) (set_login client true (record d { flash = n }))
              else emit (reply false) (record d { flash = n }))
          else emit (reply false) d)

  -- What the three `on_ws_update_*` handlers of the configuration share: `accepted` is the test of
  -- the size, `c` the configuration written, and the answer is followed by a broadcast if the
  -- configuration was saved.
  unfoldable pub update_config : ℕ → ℕ → Bool → AppConfig → Device N → Device N
  unfolding send_config
  update_config id client accepted c d =
      let (err, n) = config_save env none c d.flash in
      let reply = λ (b : Bool). ws_sendframe (some client) (id ∷ flag b ∷ []) Op.bin in
      let d' = record d { config = c; flash = n } in
      if accepted
      then (if is_ok err then send_config none (emit (reply true) d') else emit (reply false) d')
      else emit (reply false) d

  unfoldable pub update_hostname : ℕ → List ℕ → Device N → Device N
  update_hostname client msg d =
      update_config MsgId.update_hostname client
        (ltb 0 (length msg) && leb (length msg) tcpip_hostname_max_size)
        (write_hostname msg d.config) d

  unfoldable pub update_switches : ℕ → List ℕ → Device N → Device N
  update_switches client msg d =
      update_config MsgId.update_switches client
        (length msg == app_switch_count * app_name_max_size + app_switch_count)
        (write_switches msg d.config) d

  unfoldable pub update_sensors : ℕ → List ℕ → Device N → Device N
  update_sensors client msg d =
      update_config MsgId.update_sensors client
        (length msg == env.sensor_count * app_name_max_size + env.sensor_count)
        (write_sensors env.sensor_count msg d.config) d

  unfoldable pub set_password : ℕ → List ℕ → Device N → Device N
  set_password client msg d =
      let (err, n) = update_password env msg none d.flash in
      let reply =
        λ (b : Bool). ws_sendframe (some client) (MsgId.update_password ∷ flag b ∷ []) Op.bin in
      if ltb 0 (length msg) && leb (length msg) app_password_max_size
      then emit (reply (is_ok err)) (record d { flash = n })
      else emit (reply false) d

  unfoldable pub restart : Device N → Device N
  restart d = record d { out = d.out ++ (close_all_frame ∷ task_delay 500 ∷ esp_restart ∷ []) }

  unfoldable pub cmd_reset : Device N → Device N
  cmd_reset d = record d {
    flash = (reset_wifi_config env (nvs_clear env none d.flash).1).1;
    out = d.out ++ (close_all_frame ∷ task_delay 500 ∷ esp_restart ∷ []);
  }

  -- A call through the handler pointer.
  unfoldable pub call : Handler → ℕ → List ℕ → ℕ → Device N → Device N
  unfolding actuator_update send_config login update_hostname update_switches update_sensors
      set_password restart cmd_reset on_wifi
  call on_ws_client client msg type d = send_config (some client) d
  call on_ws_login client msg type d = login client msg d
  call on_ws_logout client msg type d = set_login client false d
  call on_ws_update_hostname client msg type d = update_hostname client msg d
  call on_ws_update_switches client msg type d = update_switches client msg d
  call on_ws_update_sensors client msg type d = update_sensors client msg d
  call on_ws_update_password client msg type d = set_password client msg d
  call on_ws_reset_config client msg type d = cmd_reset d
  call on_ws_restart client msg type d = restart d
  call on_ws_update client msg type d = actuator_update (get_or msg 0 0) d
  call (on_ws_wifi h) client msg type d =
      put_wifi_state (on_wifi h client msg d.radio (wifi_state d)) d

  -- The two callbacks of the WebSocket layer.
  unfoldable pub on_message : ℕ → List ℕ → ℕ → Device N → Device N
  on_message client msg type d =
      ws_onmessage call (λ d client. d.is_login client) emit d.handlers client msg type d

  unfoldable pub on_open : ℕ → Device N → Device N
  on_open client d = ws_onopen call (λ d client. d.is_login client) emit d.handlers client d

  -- Messages, one after the other: the client, the bytes and the type.
  unfoldable pub on_messages : List (ℕ × List ℕ × ℕ) → Device N → Device N
  on_messages [] d = d
  on_messages ((client, msg, type) ∷ ms) d = on_messages ms (on_message client msg type d)

-- Registration, `alloc i` being the answer of the i-th `calloc`.
unfoldable pub add_handler : {N : Type 0} → Bool → ℕ → Handler → Bool → Device N → Device N
unfolding web_socket_add_handler_auth
add_handler alloc code handler auth d = record d {
  handlers = (web_socket_add_handler_auth alloc code handler auth d.handlers).1;
}

unfoldable pub register_config : {N : Type 0} → (ℕ → Bool) → Device N → Device N
unfolding add_handler
register_config alloc d0 =
    let d1 = add_handler (alloc 0) MsgId.on_open on_ws_client false d0 in
    let d2 = add_handler (alloc 1) MsgId.login on_ws_login false d1 in
    let d3 = add_handler (alloc 2) MsgId.logout on_ws_logout true d2 in
    let d4 = add_handler (alloc 3) MsgId.update_hostname on_ws_update_hostname true d3 in
    let d5 = add_handler (alloc 4) MsgId.update_switches on_ws_update_switches true d4 in
    let d6 = add_handler (alloc 5) MsgId.update_sensors on_ws_update_sensors true d5 in
    let d7 = add_handler (alloc 6) MsgId.update_password on_ws_update_password true d6 in
    let d8 = add_handler (alloc 7) MsgId.reset_config on_ws_reset_config true d7 in
    add_handler (alloc 8) MsgId.restart on_ws_restart true d8

-- The pins are set low, the stored value is shown, and the handler is added.
unfoldable pub actuator_setup : {N : Type 0} → Env N → Bool → ℕ → Device N → Device N
unfolding actuator_update add_handler
actuator_setup env alloc initial d =
    let low = gpio_set_level clock 0 ∷ gpio_set_level ds 0 ∷ gpio_set_level stcp 0 ∷ [] in
    add_handler alloc MsgId.actuator on_ws_update false
      (actuator_update env initial (record d { out = d.out ++ low }))

-- `config_load` with its registrations, which an unusable NVS leaves out.
unfoldable pub load : {N : Type 0} → Env N → (ℕ → Bool) → Device N → Device N
unfolding register_config
load env alloc d =
    let (loaded, err, c, n) = config_load env d.config d.flash in
    let d' = record d { config = c; flash = n } in if loaded then register_config alloc d' else d'

-- `app_main` up to the actuator.
unfoldable pub boot_actuator : {N : Type 0} → Env N → (ℕ → Bool) → Device N → Device N
unfolding load actuator_setup
boot_actuator env alloc d =
    let d' = load env alloc d in actuator_setup env (alloc 9) d'.config.switch_values d'

abbrev pub wifi_item : Item WifiHandler → Item Handler
wifi_item i = record {
  code = i.code;
  authenticated = i.authenticated;
  handler = on_ws_wifi i.handler;
}

unfoldable pub wifi_handlers : List (Item WifiHandler) → List (Item Handler)
wifi_handlers [] = []
wifi_handlers (i ∷ is) = wifi_item i ∷ wifi_handlers is

-- What `app_wifi_start` begins with; the message handlers that it adds come behind those that are
-- there.
abbrev pub startup : {N : Type 0} → Device N → Startup N
startup d = record { wifi_handler = false; ip_handler = false; items = []; state = wifi_state d }

-- `app_wifi_start` on the device.
unfoldable pub wifi_setup : {N : Type 0} → Bool → Device N → Device N
unfolding app_wifi_start wifi_handlers
wifi_setup alloc d =
    let st = (app_wifi_start d.radio.network alloc (startup d)).1 in
    put_wifi_state st.state (record d { handlers = d.handlers ++ wifi_handlers st.items })

-- `app_main` up to the server.
unfoldable pub boot : {N : Type 0} → Env N → (ℕ → Bool) → Device N → Device N
unfolding boot_actuator wifi_setup
boot env alloc d = wifi_setup (alloc 10) (boot_actuator env alloc d)
