-- ===== src/Tests/Storage.antt =====
-- The theorems on the NVS half of the configuration, on a flash that holds a blob.
use basic_setup.Prelude.{ℕ, ◌≡◌, refl, true, none, some, List, [], ◌∷◌, replicate, arith, ◌↔◌}
use basic_setup.Device.{is_ok, pwd}
use basic_setup.Config.{to_bytes, codes, config_reset}
use basic_setup.Storage.{
  nvs_save, nvs_clear, password_check, update_password, config_save, config_load,
}
use basic_setup.Storage.Handles.{storage_closes_handles}
use basic_setup.Storage.Password.{password_check-update_password}
use basic_setup.Storage.Persist.{config_load-config_save}
use basic_setup.Firmware.Validity.{config_reset-IsValid}
use basic_setup.Tests.Sample.{Flash, env, laws, blank, config}

abbrev mac : List ℕ
mac = 1 ∷ 2 ∷ 3 ∷ 4 ∷ 5 ∷ 6 ∷ []

-- The stand-in hash of a password of `n` bytes.
abbrev hash_of : ℕ → List ℕ
hash_of n = n ∷ replicate 31 7

-- A flash that holds this blob under every key.
abbrev holding : List ℕ → Flash
holding blob = record { stored = λ ns k. some blob; handles = [] }

-- "admin" is set over "toor", and "toor" is not it; the stand-in hash tells passwords apart by their length.
password_check-update_password_example :
    (is_ok
        (password_check env
          (codes "toor")
          (update_password env (codes "admin") none (holding (hash_of 4))).1).0
      ≡ true)
    ↔ (hash_of 5 ≡ hash_of 4)
password_check-update_password_example =
    password_check-update_password env (laws true) (codes "admin") (codes "toor") (hash_of 4)
      (hash_of 5) (hash_of 4) none (holding (hash_of 4)) refl refl refl refl refl
      (unfold update_password in refl) refl

config_load-config_save_example :
    let n = holding (to_bytes config) in
    ((config_load env config (config_save env none config n).1).0 ≡ true)
    × (is_ok (config_load env config (config_save env none config n).1).1 ≡ true)
    × ((config_load env config (config_save env none config n).1).2 ≡ config)
config_load-config_save_example =
    config_load-config_save env (laws true) config config config (holding (to_bytes config))
      (config_reset-IsValid 8 mac 0x1640ef) (config_reset-IsValid 8 mac 0x1640ef)
      (unfold config_reset in omega arith) refl (config_reset-IsValid 8 mac 0x1640ef)
      (unfold config_reset in omega arith) (unfold config_save in refl) refl

storage_closes_handles_example :
    ((nvs_save env none pwd (1 ∷ 2 ∷ []) blank).1.handles ≡ [])
    × ((nvs_clear env none blank).1.handles ≡ [])
    × ((password_check env (codes "admin") blank).1.handles ≡ [])
    × ((update_password env (codes "admin") none blank).1.handles ≡ [])
    × ((config_save env none config blank).1.handles ≡ [])
    × ((config_load env config blank).3.handles ≡ [])
storage_closes_handles_example =
    storage_closes_handles env (laws true) none pwd (1 ∷ 2 ∷ []) (codes "admin") config blank
