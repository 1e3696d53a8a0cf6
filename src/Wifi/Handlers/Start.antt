-- ===== src/Wifi/Handlers/Start.antt =====
-- The results of `app_wifi_start` of main/wifi.c.
use basic_setup.Prelude.{
  ℕ, ◌≡◌, refl, ap, ◌∙◌, Bool, true, false, ◌&&◌, ◌||◌, none, some, if◌then◌else◌, List, [], ◌∷◌,
  ◌++◌, append_assoc, Bool-cases, Option-cases, inl, inr,
}
use basic_setup.Device.{is_ok}
use basic_setup.Device.MsgId
use basic_setup.Registry.{Item}
use basic_setup.Registry.Auth.{add_handler-order}
use basic_setup.Wifi.{mode_null, same_mode}
use basic_setup.Wifi.Handlers.{
  Network, Startup, WifiHandler, config_ap, config_sta, sta_scan, start_driver, fail_wifi,
  fail_start, add_handlers, app_wifi_start,
}

abbrev guarded : ℕ → WifiHandler → Item WifiHandler
guarded code handler = record { code = code; authenticated = true; handler = handler }

-- The three handlers, all of which want a login.
abbrev pub wifi_items : List (Item WifiHandler)
wifi_items =
    guarded MsgId.wifi_config_ap config_ap
    ∷ guarded MsgId.wifi_config_sta config_sta
    ∷ guarded MsgId.wifi_sta_scan sta_scan
    ∷ []

-- What a start leaves, by whether it is to succeed. The handler of the IP events is unregistered
-- only if that of the WiFi events could be registered.
abbrev pub Started : {W : Type 0} → Network W → Bool → Startup W → Bool × Startup W → Type 0
Started n true s r =
    (r.0 ≡ true)
    × (r.1.wifi_handler ≡ true)
    × (r.1.ip_handler ≡ true)
    × (r.1.items ≡ s.items ++ wifi_items)
Started n false s r =
    (r.0 ≡ false)
    × (r.1.wifi_handler ≡ false)
    × (r.1.ip_handler ≡ (if is_ok n.register_wifi_event then false else s.ip_handler))
    × (r.1.items ≡ s.items)
    × (r.1.state.wifi_error ≡ true)

-- Whether all calls of `app_wifi_start` succeed: both registrations, the read of the mode, and, if
-- there is a mode, the start of the driver.
abbrev pub works : {W : Type 0} → Network W → Startup W → Bool
works n s =
    is_ok n.register_wifi_event
    && is_ok n.register_ip_event
    && (elim (n.driver.get_mode s.state.driver) [
      | none ↦ false
      | some mode ↦ same_mode mode mode_null || is_ok (start_driver n s.state.driver).0
    ])

module _ {W : Type 0} (n : Network W) where
  fail_start-Started :
      (s s' : Startup W)
      → is_ok n.register_wifi_event ≡ true
      → s'.items ≡ s.items
      → Started n false s (fail_start n s')
  unfolding fail_start fail_wifi
  fail_start-Started s s' w e = (refl, refl, rw w refl, e, refl)

  add_handlers-Started :
      (s s' : Startup W)
      → s'.wifi_handler ≡ true
      → s'.ip_handler ≡ true
      → s'.items ≡ s.items
      → Started n true s (add_handlers n true s')
  unfolding add_handlers
  add_handlers-Started s s' wifi ip e =
      let items1 = s'.items ++ (guarded MsgId.wifi_config_ap config_ap ∷ []) in
      let items2 = items1 ++ (guarded MsgId.wifi_config_sta config_sta ∷ []) in
      let added : (add_handlers n true s').1.items ≡ s'.items ++ wifi_items =
        rw
          (
            add_handler-order true MsgId.wifi_config_ap config_ap true s'.items,
            add_handler-order true MsgId.wifi_config_sta config_sta true items1,
            add_handler-order true MsgId.wifi_sta_scan sta_scan true items2,
          )
          (append_assoc items1 (guarded MsgId.wifi_config_sta config_sta ∷ []) _
            ∙ append_assoc s'.items (guarded MsgId.wifi_config_ap config_ap ∷ []) _) in
      (refl, wifi, ip, added ∙ ap (λ items. items ++ wifi_items) e)

  -- With memory for the message handlers, `app_wifi_start` is all or nothing: if the calls of the
  -- SDK succeed, its result is ESP_OK and both event handlers and the three guarded message handlers
  -- are registered; if one of them fails, the result is an error, the event handlers it registered
  -- are taken back, there is no message handler, and the error bit is set.
  pub app_wifi_start_lem : (s : Startup W) → Started n (works n s) s (app_wifi_start n true s)
  unfolding app_wifi_start fail_wifi
  app_wifi_start_lem s =
      let s2 : Startup W = record s {
        wifi_handler = is_ok n.register_wifi_event;
        ip_handler = is_ok n.register_ip_event;
      } in
      let s3 : Startup W = record s2 {
        state = record (s.state) { driver = (start_driver n s.state.driver).1 };
      } in
      elim (Bool-cases (is_ok n.register_wifi_event)) [
        | inr w ↦ rw (w, app_wifi_start) (refl, refl, rw w refl, refl, refl)
        | inl w ↦ elim (Bool-cases (is_ok n.register_ip_event)) [
          | inr i ↦ rw (w, i, app_wifi_start) (fail_start-Started s s2 w refl)
          | inl i ↦ elim (Option-cases (n.driver.get_mode s.state.driver)) [
            | inl e ↦ rw (w, i, e, app_wifi_start) (fail_start-Started s s2 w refl)
            | inr (mode, e) ↦ elim (Bool-cases (same_mode mode mode_null)) [
              | inl off ↦ rw (w, i, e, off, app_wifi_start) (add_handlers-Started s s2 w i refl)
              | inr on ↦ elim (Bool-cases (is_ok (start_driver n s.state.driver).0)) [
                | inl ok ↦ rw (w, i, e, on, ok, app_wifi_start) (add_handlers-Started s s3 w i refl)
                | inr failed ↦
                    rw (w, i, e, on, failed, app_wifi_start) (fail_start-Started s s3 w refl)
              ]
            ]
          ]
        ]
      ]
