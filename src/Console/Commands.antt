-- ===== src/Console/Commands.antt =====
-- The commands that start the access point and connect the station.
use basic_setup.Prelude.{
  ℕ, suc, ◌≡◌, refl, ap, Bool, true, false, none, some, List, [], ◌∷◌, ◌==◌, arith,
}
use basic_setup.Wifi.{Driver, State, ApConfig, set_wifi_mode, mode_ap}
use basic_setup.Wifi.AccessPoint.{app_wifi_ap_start_fault}
use basic_setup.Console.{ConnectArgs, only, given, usage, fault, cmd_connect, cmd_ap_start}

only_one :
    (values : List (List ℕ)) (value : List ℕ) → values ≡ value ∷ [] → only values ≡ some value
unfolding only
only_one values value e = ap only e

only-none : (values : List (List ℕ)) → values ≡ [] → only values ≡ none
unfolding only
only-none values e = ap only e

module _ {W : Type 0} (v : Driver W) where
  -- `start <ssid>` on the console, without a password: if the access point is not started and the
  -- driver has a configuration to give, the command does not return. With arguments that
  -- `arg_parse` refuses, `start` and `connect` return 1 and change nothing.
  pub cmd_ap_start_fault :
      (args : ConnectArgs) (wait : State W → Bool × State W) (s : State W) (ssid : List ℕ)
      (old : ApConfig)
      → args.nerrors ≡ 0
      → args.ssid ≡ ssid ∷ []
      → args.password ≡ []
      → s.ap_started ≡ false
      → v.get_config_ap (set_wifi_mode v mode_ap s.driver) ≡ some old
      → ((cmd_ap_start v args wait s).0 ≡ fault)
        × ((n : ℕ)
            → (cmd_ap_start v (record args { nerrors = suc n }) wait s ≡ (usage, s))
              × (cmd_connect v (record args { nerrors = suc n }) wait s ≡ (usage, s)))
  unfolding cmd_ap_start cmd_connect given
  cmd_ap_start_fault args wait s ssid old z one absent off e =
      let parsed : (args.nerrors == 0) ≡ true = ground arith in
      let name : only args.ssid ≡ some ssid = only_one args.ssid ssid one in
      let without : only args.password ≡ none = only-none args.password absent in
      let stuck = app_wifi_ap_start_fault v ssid wait s old off e in
      (
        rw (parsed, name, without, stuck, cmd_ap_start) refl,
        λ n. let refused : (suc n == 0) ≡ false = ground arith in rw refused (refl, refl),
      )
