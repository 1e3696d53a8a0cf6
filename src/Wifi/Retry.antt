-- ===== src/Wifi/Retry.antt =====
-- Losing and regaining the connection: `handle_wifi_event` and `handle_ip_event` of main/wifi.c.
use basic_setup.Prelude.{
  ℕ, suc, ◌+◌, ◌≤◌, ◌≡◌, ◌≢◌, refl, Bool, true, false, List, [], ◌∷◌, ◌++◌, ◌==◌, if◌then◌else◌,
  arith,
}
use basic_setup.Device.{Effect, gpio_set_level, ws_sendframe, task_delay, esp_restart}
use basic_setup.Wifi.{
  Driver, State, Reason, assoc_leave, basic_rate_not_support, no_ap_found, other_reason, WifiEvent,
  ap_start, ap_stop, sta_start, sta_stop, sta_connected, sta_disconnected, other_event, max_retry,
  on_disconnected, handle_wifi_event, handle_ip_event,
}

-- An event of either kind.
pub data Event : Type 0 where
  wifi_event : WifiEvent → Event
  ip_event : Bool → Event

-- The counter stays in its range, and a station that is connected has no retry counted and has not
-- failed.
pub record IsConsistent {W : Type 0} (s : State W) : Type 0 where
  pub within : s.retry_cntr ≤ max_retry
  pub settled : s.connected ≡ true → (s.retry_cntr ≡ 0) × (s.failed ≡ false)

unfoldable pub restarts : List Effect → ℕ
restarts [] = 0
restarts (esp_restart ∷ es) = suc (restarts es)
restarts (e ∷ es) = restarts es

restarts-append : (xs ys : List Effect) → restarts (xs ++ ys) ≡ restarts xs + restarts ys
unfolding restarts
restarts-append [] ys = omega arith
restarts-append (gpio_set_level p v ∷ xs) ys = restarts-append xs ys
restarts-append (ws_sendframe c m t ∷ xs) ys = restarts-append xs ys
restarts-append (task_delay t ∷ xs) ys = restarts-append xs ys
restarts-append (esp_restart ∷ xs) ys = omega (arith, restarts-append xs ys)

module _ {W : Type 0} (v : Driver W) where
  unfoldable pub handle_events : List Event → State W → State W
  handle_events [] s = s
  handle_events (wifi_event e ∷ es) s = handle_events es (handle_wifi_event v e s)
  handle_events (ip_event b ∷ es) s = handle_events es (handle_ip_event v b s)

  on_disconnected-IsConsistent :
      (reason : Reason) (s : State W) → IsConsistent s → IsConsistent (on_disconnected v reason s)
  unfolding on_disconnected
  on_disconnected-IsConsistent assoc_leave s c = record { within = c.within; settled = λ e. cc }
  on_disconnected-IsConsistent basic_rate_not_support s c = record {
    within = ground (arith, c.within);
    settled = ground (arith, c.within, c.settled);
  }
  on_disconnected-IsConsistent no_ap_found s c = record {
    within = ground (arith, c.within);
    settled = ground (arith, c.within, c.settled);
  }
  on_disconnected-IsConsistent other_reason s c = record {
    within = ground (arith, c.within);
    settled = ground (arith, c.within, c.settled);
  }

  handle_wifi_event-IsConsistent :
      (e : WifiEvent) (s : State W) → IsConsistent s → IsConsistent (handle_wifi_event v e s)
  unfolding handle_wifi_event
  handle_wifi_event-IsConsistent ap_start s c = record { within = c.within; settled = c.settled }
  handle_wifi_event-IsConsistent ap_stop s c = record { within = c.within; settled = c.settled }
  handle_wifi_event-IsConsistent sta_start s c = record {
    within = ground (arith, c.within);
    settled = ground (arith, c.settled);
  }
  handle_wifi_event-IsConsistent sta_stop s c = record { within = c.within; settled = c.settled }
  handle_wifi_event-IsConsistent sta_connected s c = record {
    within = omega arith;
    settled = λ e. (refl, refl);
  }
  handle_wifi_event-IsConsistent (sta_disconnected reason) s c =
      on_disconnected-IsConsistent reason s c
  handle_wifi_event-IsConsistent other_event s c = c

  handle_ip_event-IsConsistent :
      (b : Bool) (s : State W) → IsConsistent s → IsConsistent (handle_ip_event v b s)
  unfolding handle_ip_event
  handle_ip_event-IsConsistent true s c = record {
    within = omega arith;
    settled = λ e. (refl, (c.settled e).1);
  }
  handle_ip_event-IsConsistent false s c = record { within = c.within; settled = c.settled }

  -- Whatever events arrive, at most five retries are counted, and a station that is connected has
  -- no retry counted and has not failed, if this was so before.
  pub handle_events-IsConsistent :
      (es : List Event) (s : State W) → IsConsistent s → IsConsistent (handle_events es s)
  unfolding handle_events
  handle_events-IsConsistent [] s c = c
  handle_events-IsConsistent (wifi_event e ∷ es) s c =
      handle_events-IsConsistent es _ (handle_wifi_event-IsConsistent e s c)
  handle_events-IsConsistent (ip_event b ∷ es) s c =
      handle_events-IsConsistent es _ (handle_ip_event-IsConsistent b s c)

  restarts_more :
      (s : State W) (e : Effect) → restarts (s.out ++ (e ∷ [])) ≡ restarts s.out + restarts (e ∷ [])
  restarts_more s e = restarts-append s.out (e ∷ [])

  -- From a count of at most five, each loss of the connection that the user did not ask for is one
  -- retry, up to five; the loss after the fifth retry restarts the device, and starts the count
  -- again.
  pub on_disconnected_lem :
      (reason : Reason) (s : State W)
      → reason ≢ assoc_leave
      → s.retry_cntr ≤ max_retry
      → let last = s.retry_cntr == max_retry in
        let after = on_disconnected v reason s in
        (after.retry_cntr ≡ (if last then 0 else (s.retry_cntr + 1)))
        × (restarts after.out ≡ (if last then (restarts s.out + 1) else restarts s.out))
  unfolding on_disconnected restarts
  on_disconnected_lem assoc_leave s l h = absurd (l refl)
  on_disconnected_lem basic_rate_not_support s l h =
      (ground arith, ground (arith, restarts_more s esp_restart))
  on_disconnected_lem no_ap_found s l h = (
    ground arith,
    ground (arith, restarts_more s esp_restart, restarts_more s (task_delay 10000)),
  )
  on_disconnected_lem other_reason s l h =
      (ground arith, ground (arith, restarts_more s esp_restart))
