-- ===== src/Firmware/Access.antt =====
-- Which messages reach a handler of a client that is not logged in, with the handlers that the boot
-- registers.
use basic_setup.Prelude.{
  ℕ, ◌≤◌, ◌≡◌, ◌≢◌, refl, ap, subst, ◌∙◌, Bool, true, false, some, List, [], ◌∷◌, ◌++◌, ◌==◌,
  if◌then◌else◌, arith,
}
use basic_setup.Device.{Env, ws_sendframe}
use basic_setup.Device.Op
use basic_setup.Device.MsgId
use basic_setup.Storage.{config_load}
use basic_setup.Registry.{Item, ws_onmessage, err_unauthorized, err_cmd_notfound}
use basic_setup.Wifi.Handlers.{config_ap, config_sta, sta_scan, app_wifi_start}
use basic_setup.Wifi.Handlers.Start.{Started, works, wifi_items, app_wifi_start_lem}
use basic_setup.Registry.Auth.{matching, IsGuarded, ws_onmessage_refusal}
use basic_setup.Firmware.{
  Device, Handler, on_ws_client, on_ws_login, on_ws_logout, on_ws_update_hostname,
  on_ws_update_switches, on_ws_update_sensors, on_ws_update_password, on_ws_reset_config,
  on_ws_restart, on_ws_update, on_ws_wifi, boot_actuator, wifi_handlers, startup, wifi_setup, emit,
  call, on_message, boot,
}

abbrev item : ℕ → Handler → Bool → Item Handler
item code handler auth = record { code = code; authenticated = auth; handler = handler }

-- The list after a boot with memory enough.
abbrev pub boot_handlers : List (Item Handler)
boot_handlers =
    item MsgId.on_open on_ws_client false
    ∷ item MsgId.login on_ws_login false
    ∷ item MsgId.logout on_ws_logout true
    ∷ item MsgId.update_hostname on_ws_update_hostname true
    ∷ item MsgId.update_switches on_ws_update_switches true
    ∷ item MsgId.update_sensors on_ws_update_sensors true
    ∷ item MsgId.update_password on_ws_update_password true
    ∷ item MsgId.reset_config on_ws_reset_config true
    ∷ item MsgId.restart on_ws_restart true
    ∷ item MsgId.actuator on_ws_update false
    ∷ item MsgId.wifi_config_ap (on_ws_wifi config_ap) true
    ∷ item MsgId.wifi_config_sta (on_ws_wifi config_sta) true
    ∷ item MsgId.wifi_sta_scan (on_ws_wifi sta_scan) true
    ∷ []

IsGuarded-boot_handlers : (c : ℕ) → c ≢ 0 → c ≢ 1 → c ≢ 4 → IsGuarded c boot_handlers
unfolding IsGuarded
IsGuarded-boot_handlers c h0 h1 h4 = (
  λ e. absurd (h0 (omega arith)),
  (
    λ e. absurd (h4 (omega arith)),
    (guarded, (guarded, (guarded, (guarded, (guarded, (guarded, (guarded, last))))))),
  ),
)
  where
    wifi : List (Item Handler)
    wifi =
        item MsgId.wifi_config_ap (on_ws_wifi config_ap) true
        ∷ item MsgId.wifi_config_sta (on_ws_wifi config_sta) true
        ∷ item MsgId.wifi_sta_scan (on_ws_wifi sta_scan) true
        ∷ []

    guarded : {n : ℕ} → n ≡ c → true ≡ true
    guarded e = refl

    last : (1 ≡ c → false ≡ true) × IsGuarded c wifi
    last = (λ e. absurd (h1 (omega arith)), (guarded, (guarded, (guarded, tt))))

matching_boot : (c : ℕ) → matching c boot_handlers ≤ 1
unfolding matching
matching_boot c = ground arith

module _ {N : Type 0} (env : Env N) where
  boot_actuator-handlers :
      (d : Device N)
      → d.handlers ≡ []
      → (config_load env d.config d.flash).0 ≡ true
      → (boot_actuator env (λ i. true) d).handlers ++ wifi_handlers wifi_items ≡ boot_handlers
  unfolding boot_actuator wifi_handlers
  boot_actuator-handlers d e loaded = rw (loaded, e) refl

  -- A boot of a device without handlers registers exactly the handlers of `boot_handlers`, in that
  -- order, if NVS opens, there is memory, and the calls of `app_wifi_start` succeed.
  pub boot-boot_handlers :
      (d : Device N)
      → d.handlers ≡ []
      → (config_load env d.config d.flash).0 ≡ true
      → works
          (boot_actuator env (λ i. true) d).radio.network
          (startup (boot_actuator env (λ i. true) d))
        ≡ true
      → (boot env (λ i. true) d).handlers ≡ boot_handlers
  unfolding boot wifi_setup
  boot-boot_handlers d e loaded started =
      let b = boot_actuator env (λ i. true) d in
      let start : Started b.radio.network true (startup b)
          (app_wifi_start b.radio.network true (startup b)) =
        subst
          (λ (w : Bool).
            Started b.radio.network w (startup b) (app_wifi_start b.radio.network true (startup b)))
          started (app_wifi_start_lem b.radio.network (startup b)) in
      ap (λ items. b.handlers ++ wifi_handlers items) start.3 ∙ boot_actuator-handlers d e loaded

  -- What a boot needs to register all handlers: none before, NVS that opens, and a driver whose calls
  -- succeed.
  pub record Starts (d : Device N) : Type 0 where
    pub none_yet : d.handlers ≡ []
    pub loaded : (config_load env d.config d.flash).0 ≡ true
    pub started :
        works
          (boot_actuator env (λ i. true) d).radio.network
          (startup (boot_actuator env (λ i. true) d))
        ≡ true

  -- The answer to a client that is not logged in.
  abbrev pub refusal : ℕ → List ℕ
  refusal c = if matching c boot_handlers == 0 then err_cmd_notfound c else err_unauthorized c

  pub refusal_lem :
      (d : Device N) (client c : ℕ) (msg : List ℕ) (type : ℕ)
      → d.handlers ≡ boot_handlers
      → d.is_login client ≡ false
      → c ≢ MsgId.on_open
      → c ≢ MsgId.actuator
      → c ≢ MsgId.login
      → on_message env client (c ∷ msg) type d
        ≡ emit (ws_sendframe (some client) (refusal c) Op.bin) d
  unfolding on_message
  refusal_lem d client c msg type e l h0 h1 h4 =
      ap
        (λ items.
          ws_onmessage (call env) (λ d client. d.is_login client) emit items client (c ∷ msg) type
            d)
        e
      ∙ ws_onmessage_refusal (call env) (λ d client. d.is_login client) emit (λ e s client. refl)
          boot_handlers client c msg type d l (IsGuarded-boot_handlers c h0 h1 h4) (matching_boot c)

  -- On a device with the handlers that a boot registers, when there are none before, NVS opens, there
  -- is memory and the calls of `app_wifi_start` succeed, a message of a client that is not logged in
  -- changes nothing and is answered by one refusal, unless its code is that of the greeting, the
  -- actuator or the login.
  pub on_message-refusal :
      (off d : Device N) (client c : ℕ) (msg : List ℕ) (type : ℕ)
      → Starts off
      → d.handlers ≡ (boot env (λ i. true) off).handlers
      → d.is_login client ≡ false
      → c ≢ MsgId.on_open
      → c ≢ MsgId.actuator
      → c ≢ MsgId.login
      → on_message env client (c ∷ msg) type d
        ≡ emit (ws_sendframe (some client) (refusal c) Op.bin) d
  on_message-refusal off d client c msg type b e l h0 h1 h4 =
      refusal_lem d client c msg type (e ∙ boot-boot_handlers off b.none_yet b.loaded b.started) l
        h0 h1 h4
