-- ===== src/Tests/Wifi.antt =====
-- The theorems on the WiFi, on a radio that keeps its settings.
use basic_setup.Prelude.{◌≡◌, refl, Bool, true, false, some, List, [], ◌∷◌, replicate, arith}
use basic_setup.Device.{esp_ok, esp_fail}
use basic_setup.Config.{codes}
use basic_setup.Wifi.{
  handle_wifi_event, WifiMode, mode_null, mode_sta, Driver, ApConfig, StaConfig, State, no_ap_found,
  not_connected, ap_start, sta_start, sta_connected, sta_disconnected, app_wifi_ap_start,
  app_wifi_ap_stop,
}
use basic_setup.Wifi.Retry.{
  IsConsistent, Event, wifi_event, ip_event, handle_events, handle_events-IsConsistent,
}
use basic_setup.Wifi.Interfaces.{ModeLaws}
use basic_setup.Wifi.AccessPoint.{app_wifi_ap_stop-app_wifi_ap_start}
use basic_setup.Wifi.Handlers.{Network, Startup, app_wifi_start}
use basic_setup.Wifi.Handlers.Start.{Started, works, app_wifi_start_lem}

pub record Radio : Type 0 where
  mode : WifiMode
  auto : Bool
  access : ApConfig
  sta : StaConfig

abbrev pub driver : Driver Radio
driver = record {
  get_mode = λ w. some w.mode;
  set_mode = λ m w. record w { mode = m };
  wifi_start = λ w. (esp_ok, w);
  wifi_stop = λ w. w;
  connect = λ w. w;
  get_auto_connect = λ w. w.auto;
  set_auto_connect = λ b w. record w { auto = b };
  set_protocol_bgn = λ w. w;
  set_hostname_ap = λ w. w;
  set_hostname_sta = λ w. w;
  get_config_ap = λ w. some w.access;
  set_config_ap = λ c w. record w { access = c };
  get_config_sta = λ w. w.sta;
  set_config_sta = λ c w. record w { sta = c };
}

laws : ModeLaws driver
laws = record { get-set = λ m w. refl; get-start = λ w. refl; get-stop = λ w. refl }

abbrev pub access : ApConfig
access = record {
  ssid = replicate 32 0;
  password = replicate 64 0;
  ssid_len = 0;
  authmode = 0;
  max_connection = 9;
}

abbrev radio : Radio
radio = record {
  mode = mode_sta;
  auto = true;
  access = access;
  sta = record { ssid = replicate 32 0; password = replicate 64 0 };
}

abbrev pub state : State Radio
state = record {
  ap_started = false;
  wifi_error = false;
  internet_connected = false;
  connecting = false;
  connected = false;
  failed = false;
  retry_cntr = 5;
  driver = radio;
  out = [];
}

-- A wait in which the event WIFI_EVENT_AP_START arrives.
abbrev pub wait : State Radio → Bool × State Radio
wait s = (true, handle_wifi_event driver ap_start s)

-- A start, a connection that is lost, and an address.
abbrev events : List Event
events =
    wifi_event sta_start
    ∷ wifi_event sta_connected
    ∷ wifi_event (sta_disconnected no_ap_found)
    ∷ ip_event true
    ∷ []

handle_events-IsConsistent_example : IsConsistent (handle_events driver events state)
handle_events-IsConsistent_example =
    handle_events-IsConsistent driver events state
      (record { within = omega arith; settled = λ e. cc })

app_wifi_ap_stop-app_wifi_ap_start_example :
    app_wifi_ap_stop driver (app_wifi_ap_start driver (some (codes "osh")) (some []) wait state).1
    ≡ (not_connected, (app_wifi_ap_start driver (some (codes "osh")) (some []) wait state).1)
app_wifi_ap_stop-app_wifi_ap_start_example =
    app_wifi_ap_stop-app_wifi_ap_start driver (some (codes "osh")) (some []) wait state
      (unfold app_wifi_ap_start in refl)

abbrev network : Network Radio
network = record {
  driver = driver;
  stale_mode = mode_null;
  mac_sta = replicate 6 1;
  mac_ap = replicate 6 2;
  ip_sta = λ w. replicate 12 10;
  ip_ap = λ w. replicate 12 11;
  scan = λ w. some [];
  register_wifi_event = esp_ok;
  register_ip_event = esp_fail;
}

abbrev startup : Startup Radio
startup = record { wifi_handler = false; ip_handler = false; items = []; state = state }

app_wifi_start_lem_example :
    Started network (works network startup) startup (app_wifi_start network true startup)
app_wifi_start_lem_example = app_wifi_start_lem network startup
