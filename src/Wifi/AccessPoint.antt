-- ===== src/Wifi/AccessPoint.antt =====
-- Starting and stopping the access point: `app_wifi_ap_start` and `app_wifi_ap_stop` of
-- main/wifi_action.c.
use basic_setup.Prelude.{
  ℕ, ◌≤◌, ◌<◌, ◌≡◌, refl, Bool, false, ◌&&◌, Option, none, some, List, length, ltb, leb,
  if◌then◌else◌, arith, Option-cases, inl, inr,
}
use basic_setup.Wifi.{
  Driver, State, wait_bits, ApConfig, app_ok, not_connected, max_client, ap_config,
  await_ap_started, configure_ap, drive, set_wifi_mode, mode_ap, app_wifi_ap_start,
  app_wifi_ap_stop,
}

-- Whatever was configured before, the number of clients that the access point takes is 1 to 5, and
-- it is secured exactly if the password has 1 to 64 bytes.
pub ap_config_lem :
    (ssid pass : List ℕ) (old : ApConfig)
    → (0 < (ap_config ssid pass old).max_connection)
      × ((ap_config ssid pass old).max_connection ≤ max_client)
      × ((ap_config ssid pass old).authmode
          ≡ (if ltb 0 (length pass) && leb (length pass) 64 then 4 else 0))
unfolding ap_config
ap_config_lem ssid pass old = (ground arith, ground arith, refl)

module _ {W : Type 0} (v : Driver W) where
  await_ap_started-cleared :
      (wait : State W → Bool × State W)
      → (s : State W) → (await_ap_started v wait s).0 ≡ some app_ok
      → (await_ap_started v wait s).1.ap_started ≡ false
  unfolding await_ap_started wait_bits
  await_ap_started-cleared wait s ok = ground arith

  configure_ap-cleared :
      (ssid pass : Option (List ℕ)) (wait : State W → Bool × State W)
      → (s : State W) → (configure_ap v ssid pass wait s).0 ≡ some app_ok
      → (configure_ap v ssid pass wait s).1.ap_started ≡ false
  unfolding configure_ap
  configure_ap-cleared none pass wait s ok = await_ap_started-cleared wait s ok
  configure_ap-cleared (some ssid) none wait s ok = elim (Option-cases (v.get_config_ap s.driver)) [
    | inl e ↦ cc (rw (e, configure_ap) at ok)
    | inr (old, e) ↦ cc (rw (e, configure_ap) at ok)
  ]
  configure_ap-cleared (some ssid) (some pass) wait s ok =
      elim (Option-cases (v.get_config_ap s.driver)) [
        | inl e ↦ cc (rw (e, configure_ap) at ok)
        | inr (old, e) ↦
            rw (e, configure_ap)
              (await_ap_started-cleared wait (drive v (v.set_config_ap (ap_config ssid pass old)) s)
                (rw (e, configure_ap) at ok))
      ]

  app_wifi_ap_start-cleared :
      (ssid pass : Option (List ℕ)) (wait : State W → Bool × State W)
      → (s : State W) → (app_wifi_ap_start v ssid pass wait s).0 ≡ some app_ok
      → (app_wifi_ap_start v ssid pass wait s).1.ap_started ≡ false
  unfolding app_wifi_ap_start
  app_wifi_ap_start-cleared ssid pass wait s ok =
      let started = configure_ap-cleared ssid pass wait (drive v (set_wifi_mode v mode_ap) s) in
      ground (arith, started)

  -- An access point that was started with success cannot be stopped: the wait for its bit clears the
  -- bit, so `app_wifi_ap_stop` at once behind it finds none started and does nothing.
  pub app_wifi_ap_stop-app_wifi_ap_start :
      (ssid pass : Option (List ℕ)) (wait : State W → Bool × State W)
      → (s : State W) → (app_wifi_ap_start v ssid pass wait s).0 ≡ some app_ok
      → app_wifi_ap_stop v (app_wifi_ap_start v ssid pass wait s).1
        ≡ (not_connected, (app_wifi_ap_start v ssid pass wait s).1)
  unfolding app_wifi_ap_stop
  app_wifi_ap_stop-app_wifi_ap_start ssid pass wait s ok =
      let cleared = app_wifi_ap_start-cleared ssid pass wait s ok in ground (arith, cleared)

  configure_ap_fault :
      (ssid : List ℕ) (wait : State W → Bool × State W) (s : State W) (old : ApConfig)
      → v.get_config_ap s.driver ≡ some old
      → (configure_ap v (some ssid) none wait s).0 ≡ none
  unfolding configure_ap
  configure_ap_fault ssid wait s old e = rw (e, configure_ap) refl

  -- With a name and no password, starting an access point that is not started faults if the driver
  -- has a configuration to give.
  pub app_wifi_ap_start_fault :
      (ssid : List ℕ) (wait : State W → Bool × State W) (s : State W) (old : ApConfig)
      → s.ap_started ≡ false
      → v.get_config_ap (set_wifi_mode v mode_ap s.driver) ≡ some old
      → (app_wifi_ap_start v (some ssid) none wait s).0 ≡ none
  unfolding app_wifi_ap_start
  app_wifi_ap_start_fault ssid wait s old off e =
      let fault = configure_ap_fault ssid wait (drive v (set_wifi_mode v mode_ap) s) old e in
      ground (arith, fault)
