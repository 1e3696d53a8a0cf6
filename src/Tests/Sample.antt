-- ===== src/Tests/Sample.antt =====
-- A flash that keeps what is written in a function, and devices on it. `erase_ok` is whether
-- `nvs_erase_all` succeeds.
use basic_setup.Prelude.{
  ℕ, suc, ◌≤◌, ◌≡◌, ◌≢◌, refl, sym, Bool, true, false, ◌&&◌, Option, none, some, List, [], ◌∷◌,
  length, replicate, leb, ◌==◌, if◌then◌else◌, arith,
}
use basic_setup.Device.{
  EspErr, esp_ok, other_err, Namespace, Key, Nvs, Env, NvsLaws, same_key, same_namespace,
}
use basic_setup.Config.{AppConfig, config_reset}
use basic_setup.Wifi.{Driver, State, mode_null}
use basic_setup.Storage.{config_load}
use basic_setup.Firmware.{Device, Radio, boot, boot_actuator}
use basic_setup.Firmware.Access.{boot_handlers, boot-boot_handlers, Starts}

pub record Flash : Type 0 where
  pub stored : Namespace → Key → Option (List ℕ)
  pub handles : List (ℕ × Namespace)

-- The namespace of a handle.
abbrev find_handle : ℕ → List (ℕ × Namespace) → Option Namespace
find_handle h [] = none
find_handle h ((h', ns) ∷ hs) = if h == h' then some ns else find_handle h hs

abbrev remove_handle : ℕ → List (ℕ × Namespace) → List (ℕ × Namespace)
remove_handle h [] = []
remove_handle h ((h', ns) ∷ hs) =
    let rest = remove_handle h hs in if h == h' then hs else (h', ns) ∷ rest

abbrev put : Option Namespace → Key → List ℕ → Flash → EspErr × Flash
put none k d n = (other_err 1, n)
put (some ns) k d n = (
  esp_ok,
  record n {
    stored = λ ns' k'. if same_namespace ns ns' && same_key k k' then some d else n.stored ns' k';
  },
)

abbrev found : ℕ → Option (List ℕ) → EspErr × List ℕ × ℕ
found cap none = (other_err 2, [], 0)
found cap (some d) =
    if leb (length d) cap then (esp_ok, d, length d) else (other_err 3, [], length d)

abbrev get : Option Namespace → Key → ℕ → Flash → EspErr × List ℕ × ℕ
get none k cap n = (other_err 1, [], 0)
get (some ns) k cap n = found cap (n.stored ns k)

abbrev pub nvs : Bool → Nvs Flash
nvs erase_ok = record {
  nvs_open = λ ns m n. (
    esp_ok,
    suc (length n.handles),
    record n { handles = (suc (length n.handles), ns) ∷ n.handles },
  );
  nvs_set_blob = λ h k d n. put (find_handle h n.handles) k d n;
  nvs_get_blob = λ h k cap n. get (find_handle h n.handles) k cap n;
  nvs_erase_all = λ h n. if erase_ok then (esp_ok, n) else (other_err 4, n);
  nvs_close = λ h n. record n { handles = remove_handle h n.handles };
}

-- A stand-in for SHA-256 that has 32 bytes.
abbrev hash : List ℕ → Option (List ℕ)
hash plain = some (length plain ∷ replicate 31 7)

abbrev pub env_with : Bool → Env Flash
env_with erase_ok = record {
  flash = nvs erase_ok;
  sha256 = hash;
  sensor_count = 8;
  mac = 1 ∷ 2 ∷ 3 ∷ 4 ∷ 5 ∷ 6 ∷ [];
  chip_id = 0x1640ef;
}

abbrev pub env : Env Flash
env = env_with true

pub handles-put :
    (ns : Option Namespace) (k : Key) (d : List ℕ) (n : Flash)
    → (put ns k d n).1.handles ≡ n.handles
handles-put none k d n = refl
handles-put (some ns) k d n = refl

pub find_top :
    (h : ℕ) (ns : Namespace) (hs : List (ℕ × Namespace)) → find_handle h ((h, ns) ∷ hs) ≡ some ns
find_top h ns hs = ground arith

pub remove_top :
    (h : ℕ) (ns : Namespace) (hs : List (ℕ × Namespace)) → remove_handle h ((h, ns) ∷ hs) ≡ hs
remove_top h ns hs = ground arith

pub found-some :
    (cap : ℕ) (d : List ℕ) → length d ≤ cap → found cap (some d) ≡ (esp_ok, d, length d)
found-some cap d h = ground arith

pub handles-erase :
    (erase_ok : Bool) (n : Flash) → ((nvs erase_ok).nvs_erase_all 0 n).1.handles ≡ n.handles
handles-erase true n = refl
handles-erase false n = refl

pub no_error : true ≢ false
no_error e = cc

abbrev pub laws : (erase_ok : Bool) → NvsLaws (env_with erase_ok).flash
laws erase_ok = record {
  stored = λ n. n.stored;
  handles = λ n. n.handles;
  kept = λ h k d n. true;
  open_ok = λ ns m n e. (λ z. absurd (omega arith), refl, refl);
  open_err = λ ns m n e. (absurd (no_error e), refl);
  set_handles = λ h k d n. handles-put (find_handle h n.handles) k d n;
  set_ok = λ h ns hs k d n top ok ns' k'. rw (top, find_top h ns hs) refl;
  get_found = λ h ns hs k cap n d top e fits. rw (top, find_top h ns hs, e) (found-some cap d fits);
  erase_handles = λ h n. handles-erase erase_ok n;
  close_top = λ h ns hs n top. (rw top (remove_top h ns hs), refl);
}

-- Nothing is stored and no handle is open.
abbrev pub blank : Flash
blank = record { stored = λ ns k. none; handles = [] }

abbrev pub config : AppConfig
config = config_reset 8 (1 ∷ 2 ∷ 3 ∷ 4 ∷ 5 ∷ 6 ∷ []) 0x1640ef

-- A WiFi that is off.
abbrev wifi : Driver Flash
wifi = record {
  get_mode = λ n. some mode_null;
  set_mode = λ m n. n;
  wifi_start = λ n. (esp_ok, n);
  wifi_stop = λ n. n;
  connect = λ n. n;
  get_auto_connect = λ n. false;
  set_auto_connect = λ b n. n;
  set_protocol_bgn = λ n. n;
  set_hostname_ap = λ n. n;
  set_hostname_sta = λ n. n;
  get_config_ap = λ n. none;
  set_config_ap = λ c n. n;
  get_config_sta = λ n. record { ssid = replicate 32 0; password = replicate 64 0 };
  set_config_sta = λ c n. n;
}

abbrev bits : State Flash
bits = record {
  ap_started = false;
  wifi_error = false;
  internet_connected = false;
  connecting = false;
  connected = false;
  failed = false;
  retry_cntr = 0;
  driver = blank;
  out = [];
}

abbrev radio : Radio Flash
radio = record {
  network = record {
    driver = wifi;
    stale_mode = mode_null;
    mac_sta = replicate 6 1;
    mac_ap = replicate 6 2;
    ip_sta = λ n. replicate 12 10;
    ip_ap = λ n. replicate 12 11;
    scan = λ n. some [];
    register_wifi_event = esp_ok;
    register_ip_event = esp_ok;
  };
  wait_ap = λ s. (false, s);
  wait_sta = λ s. (false, s);
  bits = bits;
}

-- A device that has not booted.
abbrev pub device : Device Flash
device = record {
  config = config;
  flash = blank;
  is_login = λ c. false;
  handlers = [];
  radio = radio;
  out = [];
}

pub device-Starts : Starts env device
unfolding config_load boot_actuator
device-Starts = record { none_yet = refl; loaded = refl; started = refl }

pub booted-handlers : boot_handlers ≡ (boot env (λ i. true) device).handlers
booted-handlers = sym (
    boot-boot_handlers env device device-Starts.none_yet device-Starts.loaded device-Starts.started)

abbrev pub booted : Device Flash
booted = record device { handlers = boot_handlers }
