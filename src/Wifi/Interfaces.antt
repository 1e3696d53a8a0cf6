-- ===== src/Wifi/Interfaces.antt =====
-- `set_wifi_mode` and `unset_wifi_mode` of main/wifi_action.c as the two interfaces see them.
use basic_setup.Prelude.{◌≡◌, refl, ap, ◌∙◌, Bool, true, false, not, ◌&&◌, ◌||◌, Option, none, some}
use basic_setup.Wifi.{
  WifiMode, mode_null, mode_sta, mode_ap, mode_apsta, Driver, set_wifi_mode, unset_wifi_mode,
}

-- What the SDK documents of the mode: it is the one that was set last, and starting and stopping
-- keep it.
pub record ModeLaws {W : Type 0} (v : Driver W) : Type 0 where
  pub get-set : (mode : WifiMode) (w : W) → v.get_mode (v.set_mode mode w) ≡ some mode
  pub get-start : (w : W) → v.get_mode (v.wifi_start w).1 ≡ v.get_mode w
  pub get-stop : (w : W) → v.get_mode (v.wifi_stop w) ≡ v.get_mode w

pub data Interface : Type 0 where
  station access_point : Interface

abbrev pub mode_of : Interface → WifiMode
mode_of station = mode_sta
mode_of access_point = mode_ap

abbrev pub enabled : WifiMode → Interface → Bool
enabled mode_null i = false
enabled mode_apsta i = true
enabled mode_sta station = true
enabled mode_sta access_point = false
enabled mode_ap station = false
enabled mode_ap access_point = true

-- Whether an interface is enabled in the mode that `esp_wifi_get_mode` gives.
abbrev pub mode_enabled : Interface → Option WifiMode → Option Bool
mode_enabled i none = none
mode_enabled i (some mode) = some (enabled mode i)

abbrev pub same_interface : Interface → Interface → Bool
same_interface station station = true
same_interface access_point access_point = true
same_interface _ _ = false

-- The mode in which exactly these interfaces are enabled.
abbrev mode_with : Bool → Bool → WifiMode
mode_with false false = mode_null
mode_with true false = mode_sta
mode_with false true = mode_ap
mode_with true true = mode_apsta

enabled_with :
    (f : Interface → Bool) (j : Interface)
    → enabled (mode_with (f station) (f access_point)) j ≡ f j
enabled_with f station = both (f station) (f access_point)
  where
    both : (a b : Bool) → enabled (mode_with a b) station ≡ a
    both false false = refl
    both false true = refl
    both true false = refl
    both true true = refl
enabled_with f access_point = both (f station) (f access_point)
  where
    both : (a b : Bool) → enabled (mode_with a b) access_point ≡ b
    both false false = refl
    both false true = refl
    both true false = refl
    both true true = refl

module _ {W : Type 0} (v : Driver W) (laws : ModeLaws v) where
  open laws use {get-set, get-start, get-stop}

  set_wifi_mode_eq :
      (i : Interface) (cur : WifiMode) (w : W)
      → v.get_mode w ≡ some cur
      → v.get_mode (set_wifi_mode v (mode_of i) w)
        ≡ some (
            mode_with
              (enabled cur station || same_interface i station)
              (enabled cur access_point || same_interface i access_point))
  unfolding set_wifi_mode
  set_wifi_mode_eq station mode_null w e = rw (e, set_wifi_mode, get-start, get-set) refl
  set_wifi_mode_eq station mode_sta w e = rw (e, set_wifi_mode, e) refl
  set_wifi_mode_eq station mode_ap w e = rw (e, set_wifi_mode, get-set) refl
  set_wifi_mode_eq station mode_apsta w e = rw (e, set_wifi_mode, e) refl
  set_wifi_mode_eq access_point mode_null w e = rw (e, set_wifi_mode, get-start, get-set) refl
  set_wifi_mode_eq access_point mode_sta w e = rw (e, set_wifi_mode, get-set) refl
  set_wifi_mode_eq access_point mode_ap w e = rw (e, set_wifi_mode, e) refl
  set_wifi_mode_eq access_point mode_apsta w e = rw (e, set_wifi_mode, e) refl

  unset_wifi_mode_eq :
      (i : Interface) (cur : WifiMode) (w : W)
      → v.get_mode w ≡ some cur
      → v.get_mode (unset_wifi_mode v (mode_of i) w)
        ≡ some (
            mode_with
              (enabled cur station && not (same_interface i station))
              (enabled cur access_point && not (same_interface i access_point)))
  unfolding unset_wifi_mode
  unset_wifi_mode_eq station mode_null w e = rw (e, unset_wifi_mode, e) refl
  unset_wifi_mode_eq station mode_sta w e = rw (e, unset_wifi_mode, get-stop, get-set) refl
  unset_wifi_mode_eq station mode_ap w e = rw (e, unset_wifi_mode, e) refl
  unset_wifi_mode_eq station mode_apsta w e = rw (e, unset_wifi_mode, get-set) refl
  unset_wifi_mode_eq access_point mode_null w e = rw (e, unset_wifi_mode, e) refl
  unset_wifi_mode_eq access_point mode_sta w e = rw (e, unset_wifi_mode, e) refl
  unset_wifi_mode_eq access_point mode_ap w e = rw (e, unset_wifi_mode, get-stop, get-set) refl
  unset_wifi_mode_eq access_point mode_apsta w e = rw (e, unset_wifi_mode, get-set) refl

  -- If the mode can be read, after `set_wifi_mode` the interface that was asked for is enabled,
  -- and the other one is as it was.
  pub set_wifi_mode-enabled :
      (i j : Interface) (cur : WifiMode) (w : W)
      → v.get_mode w ≡ some cur
      → mode_enabled j (v.get_mode (set_wifi_mode v (mode_of i) w))
        ≡ some (enabled cur j || same_interface i j)
  set_wifi_mode-enabled i j cur w e =
      ap (mode_enabled j) (set_wifi_mode_eq i cur w e)
      ∙ ap some (enabled_with (λ k. enabled cur k || same_interface i k) j)

  -- If the mode can be read, after `unset_wifi_mode` the interface that was named is disabled, and
  -- the other one is as it was.
  pub unset_wifi_mode-enabled :
      (i j : Interface) (cur : WifiMode) (w : W)
      → v.get_mode w ≡ some cur
      → mode_enabled j (v.get_mode (unset_wifi_mode v (mode_of i) w))
        ≡ some (enabled cur j && not (same_interface i j))
  unset_wifi_mode-enabled i j cur w e =
      ap (mode_enabled j) (unset_wifi_mode_eq i cur w e)
      ∙ ap some (enabled_with (λ k. enabled cur k && not (same_interface i k)) j)
