-- ===== src/Device.antt =====
-- What the firmware modules share: the SDK calls they make and the effects that leave the chip.
-- NVS, SHA-256 and the chip identity are not under the repository, so they are fields of `Env`;
-- `NvsLaws` states what the NVS documentation says of them.
pub mod Op
pub mod MsgId
use basic_setup.Prelude.{
  ℕ, ◌≤◌, ◌≡◌, ◌≢◌, Bool, true, false, ◌&&◌, Option, none, some, List, [], ◌∷◌, ◌++◌, length, ◌==◌,
  if◌then◌else◌,
}

-- `esp_err_t`, as far as the code tells values apart.
pub data EspErr : Type 0 where
  esp_ok esp_fail nvs_not_initialized : EspErr
  other_err : ℕ → EspErr

abbrev pub is_ok : EspErr → Bool
is_ok esp_ok = true
is_ok _ = false

-- The namespaces "app" and "nvs.net80211", and the keys "cfg" and "pwd".
pub data Namespace : Type 0 where
  app net80211 : Namespace

pub data Key : Type 0 where
  cfg pwd : Key

pub data Mode : Type 0 where
  readonly readwrite : Mode

-- The NVS calls over a flash state `N`. `nvs_get_blob h k cap` gives the bytes it writes to the
-- buffer and the length it reports.
pub record Nvs (N : Type 0) : Type 0 where
  pub nvs_open : Namespace → Mode → N → EspErr × ℕ × N
  pub nvs_set_blob : ℕ → Key → List ℕ → N → EspErr × N
  pub nvs_get_blob : ℕ → Key → ℕ → N → EspErr × List ℕ × ℕ
  pub nvs_erase_all : ℕ → N → EspErr × N
  pub nvs_close : ℕ → N → N

pub record Env (N : Type 0) : Type 0 where
  pub flash : Nvs N
  pub open flash use *
  -- `none` is a non-zero result of `esp_sha256_finish`.
  pub sha256 : List ℕ → Option (List ℕ)
  -- APP_SENSOR_COUNT: 8 with CONFIG_APP_WITH_SENSOR, otherwise 0.
  pub sensor_count : ℕ
  -- The six bytes of the efuse MAC, and the id of the flash chip.
  pub mac : List ℕ
  pub chip_id : ℕ

abbrev pub same_key : Key → Key → Bool
same_key cfg cfg = true
same_key pwd pwd = true
same_key _ _ = false

abbrev pub same_namespace : Namespace → Namespace → Bool
same_namespace app app = true
same_namespace net80211 net80211 = true
same_namespace _ _ = false

-- The documented behaviour of NVS, seen through what is stored and which handles are open. What is
-- set is certain to be stored only behind nvs_commit, which the firmware does not call: `kept` is
-- whether the implementation stores a blob without it.
pub record NvsLaws {N : Type 0} (v : Nvs N) : Type 0 where
  pub stored : N → Namespace → Key → Option (List ℕ)
  pub handles : N → List (ℕ × Namespace)
  pub kept : ℕ → Key → List ℕ → N → Bool
  pub open_ok :
      (ns : Namespace) (m : Mode) (n : N)
      → is_ok (v.nvs_open ns m n).0 ≡ true
      → ((v.nvs_open ns m n).1 ≢ 0)
        × (handles (v.nvs_open ns m n).2 ≡ ((v.nvs_open ns m n).1, ns) ∷ handles n)
        × (stored (v.nvs_open ns m n).2 ≡ stored n)
  pub open_err :
      (ns : Namespace) (m : Mode) (n : N)
      → is_ok (v.nvs_open ns m n).0 ≡ false
      → (handles (v.nvs_open ns m n).2 ≡ handles n) × (stored (v.nvs_open ns m n).2 ≡ stored n)
  pub set_handles :
      (h : ℕ) (k : Key) (d : List ℕ) (n : N) → handles (v.nvs_set_blob h k d n).1 ≡ handles n
  pub set_ok :
      (h : ℕ) (ns : Namespace) (hs : List (ℕ × Namespace)) (k : Key) (d : List ℕ) (n : N)
      → handles n ≡ (h, ns) ∷ hs
      → is_ok (v.nvs_set_blob h k d n).0 ≡ true
      → (ns' : Namespace) (k' : Key)
      → stored (v.nvs_set_blob h k d n).1 ns' k' ≡ (
          if kept h k d n && (same_namespace ns ns' && same_key k k')
          then some d
          else stored n ns' k')
  pub get_found :
      (h : ℕ) (ns : Namespace) (hs : List (ℕ × Namespace)) (k : Key) (cap : ℕ) (n : N) (d : List ℕ)
      → handles n ≡ (h, ns) ∷ hs
      → stored n ns k ≡ some d
      → length d ≤ cap
      → v.nvs_get_blob h k cap n ≡ (esp_ok, d, length d)
  pub erase_handles : (h : ℕ) (n : N) → handles (v.nvs_erase_all h n).1 ≡ handles n
  pub close_top :
      (h : ℕ) (ns : Namespace) (hs : List (ℕ × Namespace)) (n : N)
      → handles n ≡ (h, ns) ∷ hs
      → (handles (v.nvs_close h n) ≡ hs) × (stored (v.nvs_close h n) ≡ stored n)

-- The pins of the shift register.
pub data Pin : Type 0 where
  clock ds stcp : Pin

-- What leaves the firmware. A frame without a client is a broadcast.
pub data Effect : Type 0 where
  gpio_set_level : Pin → ℕ → Effect
  ws_sendframe : Option ℕ → List ℕ → ℕ → Effect
  task_delay : ℕ → Effect
  esp_restart : Effect
