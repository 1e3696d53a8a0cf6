-- ===== src/Firmware/Relays.antt =====
-- The relays show `switch_values`, whatever messages arrive: the handlers of main/config.c and
-- main/actuator.c as far as they move a pin.
use basic_setup.Prelude.{
  ℕ, ◌≡◌, refl, Bool, true, false, ◌&&◌, Option, none, some, List, [], ◌∷◌, ◌++◌, get_or, arith,
  Bool-cases, inl, inr, ltb, leb, length,
}
use basic_setup.Device.{
  Env, is_ok, Effect, gpio_set_level, ws_sendframe, task_delay, esp_restart, clock, ds, stcp,
}
use basic_setup.Config.{AppConfig}
use basic_setup.Storage.{config_save, password_check}
use basic_setup.Registry.Auth.{ws_onmessage-P}
use basic_setup.Firmware.{
  Device, Handler, on_ws_client, on_ws_login, on_ws_logout, on_ws_update_hostname,
  on_ws_update_switches, on_ws_update_sensors, on_ws_update_password, on_ws_reset_config,
  on_ws_restart, on_ws_update, on_ws_wifi, without_pins, boot_actuator, wifi_setup, write_hostname,
  write_switches, write_sensors, set_password, app_password_max_size, emit, actuator_pins,
  actuator_update, send_config, login, update_config, call, on_message, on_messages, load, boot,
  actuator_setup, add_handler,
}
use basic_setup.Firmware.ShiftRegister.{Register, run, Shows, run-append, actuator_pins-Shows}

-- The outputs show the switch values of the configuration, after all effects so far.
abbrev pub RelaysShow : {N : Type 0} → Register → Device N → Type 0
RelaysShow r d = Shows d.config.switch_values (run d.out r)

-- Frames, delays and restarts do not move a pin.
unfoldable pub IsQuiet : List Effect → Type 0
IsQuiet [] = Unit {0}
IsQuiet (gpio_set_level pin v ∷ es) = ⊥
IsQuiet (e ∷ es) = IsQuiet es

run_quiet : (es : List Effect) (r : Register) → IsQuiet es → run es r ≡ r
unfolding run IsQuiet
run_quiet [] r q = refl
run_quiet (gpio_set_level pin v ∷ es) r q = absurd q
run_quiet (ws_sendframe client msg type ∷ es) r q = run_quiet es r q
run_quiet (task_delay t ∷ es) r q = run_quiet es r q
run_quiet (esp_restart ∷ es) r q = run_quiet es r q

quiet-Shows :
    (value : ℕ) (r : Register) (xs es : List Effect)
    → IsQuiet es
    → Shows value (run xs r)
    → Shows value (run (xs ++ es) r)
quiet-Shows value r xs es q s = rw (run-append xs es r, run_quiet es (run xs r) q) s

IsQuiet-without_pins : (es : List Effect) → IsQuiet (without_pins es)
unfolding IsQuiet without_pins
IsQuiet-without_pins [] = tt
IsQuiet-without_pins (gpio_set_level pin v ∷ es) = IsQuiet-without_pins es
IsQuiet-without_pins (ws_sendframe client msg type ∷ es) = IsQuiet-without_pins es
IsQuiet-without_pins (task_delay t ∷ es) = IsQuiet-without_pins es
IsQuiet-without_pins (esp_restart ∷ es) = IsQuiet-without_pins es

low_pins :
    (r : Register)
    → let r' = run (gpio_set_level clock 0 ∷ gpio_set_level ds 0 ∷ gpio_set_level stcp 0 ∷ []) r in
      (r'.clock_level ≡ 0) × (r'.stcp_level ≡ 0)
unfolding run
low_pins r = (ground arith, ground arith)

module _ {N : Type 0} (env : Env N) (r : Register) where
  pub actuator_update-Shows :
      (value : ℕ) (d : Device N)
      → (run d.out r).clock_level ≡ 0
      → (run d.out r).stcp_level ≡ 0
      → RelaysShow r (actuator_update env value d)
  unfolding actuator_update
  actuator_update-Shows value d c s =
      let frame = ws_sendframe none (1 ∷ value ∷ []) 2 ∷ [] in
      rw (run-append d.out (actuator_pins value ++ frame) r) (
        quiet-Shows value (run d.out r) (actuator_pins value) frame (unfold IsQuiet in tt)
          (actuator_pins-Shows value (run d.out r) c s))

  pub emit-Shows :
      (client : Option ℕ) (msg : List ℕ) (type : ℕ) (d : Device N)
      → RelaysShow r d
      → RelaysShow r (emit (ws_sendframe client msg type) d)
  emit-Shows client msg type d s = quiet-Shows _ r d.out _ (unfold IsQuiet in tt) s

  update_config-Shows :
      (id client : ℕ) (accepted : Bool) (c : AppConfig) (d : Device N)
      → c.switch_values ≡ d.config.switch_values
      → RelaysShow r d
      → RelaysShow r (update_config env id client accepted c d)
  unfolding update_config send_config
  update_config-Shows id client false c d e s = emit-Shows _ _ _ d s
  update_config-Shows id client true c d e s =
      let (err, n) = config_save env none c d.flash in
      let d' : Device N = record d { config = c; flash = n } in
      let s' : RelaysShow r d' = rw e s in
      elim (Bool-cases (is_ok err)) [
        | inl ok ↦ rw ok (emit-Shows none _ _ (emit _ d') (emit-Shows (some client) _ _ d' s'))
        | inr failed ↦ rw failed (emit-Shows (some client) _ _ d' s')
      ]

  login-Shows :
      (client : ℕ) (msg : List ℕ) (d : Device N)
      → RelaysShow r d
      → RelaysShow r (login env client msg d)
  unfolding login
  login-Shows client msg d s =
      let (err, n) = password_check env msg d.flash in
      elim (Bool-cases (d.is_login client)) [
        | inl old ↦ rw old (emit-Shows (some client) _ _ d s)
        | inr new ↦
            elim (Bool-cases (ltb 0 (length msg) && leb (length msg) app_password_max_size)) [
              | inl fits ↦ elim (Bool-cases (is_ok err)) [
                | inl ok ↦ rw (new, fits, ok) (emit-Shows (some client) _ _ d s)
                | inr bad ↦ rw (new, fits, bad) (emit-Shows (some client) _ _ d s)
              ]
              | inr other ↦ rw (new, other) (emit-Shows (some client) _ _ d s)
            ]
      ]

  set_password-Shows :
      (client : ℕ) (msg : List ℕ) (d : Device N)
      → RelaysShow r d
      → RelaysShow r (set_password env client msg d)
  unfolding set_password
  set_password-Shows client msg d s =
      elim (Bool-cases (ltb 0 (length msg) && leb (length msg) app_password_max_size)) [
        | inl fits ↦ rw fits (emit-Shows (some client) _ _ d s)
        | inr other ↦ rw other (emit-Shows (some client) _ _ d s)
      ]

  pub call-Shows :
      (h : Handler) (client : ℕ) (msg : List ℕ) (type : ℕ) (d : Device N)
      → RelaysShow r d
      → RelaysShow r (call env h client msg type d)
  unfolding call
  call-Shows on_ws_client client msg type d s =
      unfold send_config in quiet-Shows _ r d.out _ (unfold IsQuiet in tt) s
  call-Shows on_ws_login client msg type d s = login-Shows client msg d s
  call-Shows on_ws_logout client msg type d s = s
  call-Shows on_ws_update_hostname client msg type d s =
      update_config-Shows _ client _ (write_hostname msg d.config) d refl s
  call-Shows on_ws_update_switches client msg type d s =
      update_config-Shows _ client _ (write_switches msg d.config) d refl s
  call-Shows on_ws_update_sensors client msg type d s =
      update_config-Shows _ client _ (write_sensors env.sensor_count msg d.config) d refl s
  call-Shows on_ws_update_password client msg type d s = set_password-Shows client msg d s
  call-Shows on_ws_reset_config client msg type d s =
      quiet-Shows _ r d.out _ (unfold IsQuiet in tt) s
  call-Shows on_ws_restart client msg type d s = quiet-Shows _ r d.out _ (unfold IsQuiet in tt) s
  call-Shows on_ws_update client msg type d s = actuator_update-Shows (get_or msg 0 0) d s.0 s.1
  call-Shows (on_ws_wifi h) client msg type d s = quiet-Shows _ r d.out _ (IsQuiet-without_pins _) s

  pub on_message-Shows :
      (client : ℕ) (msg : List ℕ) (type : ℕ) (d : Device N)
      → RelaysShow r d
      → RelaysShow r (on_message env client msg type d)
  unfolding on_message
  on_message-Shows client msg type d s =
      ws_onmessage-P (call env) (λ d client. d.is_login client) emit (RelaysShow r) call-Shows
        emit-Shows d.handlers client msg type d s

  on_messages-Shows :
      (ms : List (ℕ × List ℕ × ℕ)) (d : Device N)
      → RelaysShow r d
      → RelaysShow r (on_messages env ms d)
  unfolding on_messages
  on_messages-Shows [] d s = s
  on_messages-Shows ((client, msg, type) ∷ ms) d s =
      on_messages-Shows ms _ (on_message-Shows client msg type d s)

  actuator_setup-Shows :
      (alloc : Bool) (initial : ℕ) (d : Device N)
      → RelaysShow r (actuator_setup env alloc initial d)
  unfolding actuator_setup add_handler
  actuator_setup-Shows alloc initial d =
      let low = gpio_set_level clock 0 ∷ gpio_set_level ds 0 ∷ gpio_set_level stcp 0 ∷ [] in
      let lows = low_pins (run d.out r) in
      actuator_update-Shows initial (record d { out = d.out ++ low })
        (rw (run-append d.out low r) lows.0) (rw (run-append d.out low r) lows.1)

  pub boot-Shows : (alloc : ℕ → Bool) (d : Device N) → RelaysShow r (boot env alloc d)
  unfolding boot boot_actuator wifi_setup
  boot-Shows alloc d =
      let d' = load env alloc d in
      quiet-Shows _ r (boot_actuator env alloc d).out _ (IsQuiet-without_pins _)
        (actuator_setup-Shows (alloc 9) d'.config.switch_values d')

  -- After a boot and any messages, from any clients, the outputs of the shift register, in whatever
  -- state it was powered up, show `switch_values`: output i is low exactly where bit i is 1.
  pub on_messages-RelaysShow :
      (alloc : ℕ → Bool) (d : Device N) (ms : List (ℕ × List ℕ × ℕ))
      → RelaysShow r (on_messages env ms (boot env alloc d))
  on_messages-RelaysShow alloc d ms = on_messages-Shows ms (boot env alloc d) (boot-Shows alloc d)
