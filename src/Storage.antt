-- ===== src/Storage.antt =====
-- The NVS half of main/config.c: saving and clearing blobs, the password, loading the
-- configuration. A `handle` argument that is NULL is `none`.
pub mod Handles
pub mod Password
pub mod Persist
use basic_setup.Prelude.{
  ℕ, ◌+◌, ◌≡◌, Bool, true, false, ◌&&◌, Option, none, some, List, [], ◌∷◌, ◌++◌, length, drop, ltb,
  ◌==◌, if◌then◌else◌,
}
use basic_setup.Device.{
  EspErr, esp_ok, esp_fail, nvs_not_initialized, other_err, is_ok, Namespace, app, net80211, Key,
  cfg, pwd, Mode, readonly, readwrite, Nvs, Env,
}
use basic_setup.Config.{AppConfig, to_bytes, of_bytes, sizeof_config, config_reset, codes}

-- `memcmp` of two buffers of one size.
unfoldable pub bytes_equal : List ℕ → List ℕ → Bool
bytes_equal [] [] = true
bytes_equal [] (y ∷ ys) = false
bytes_equal (x ∷ xs) [] = false
bytes_equal (x ∷ xs) (y ∷ ys) = x == y && bytes_equal xs ys

module _ {N : Type 0} (env : Env N) where
  open env use {
    nvs_open, nvs_set_blob, nvs_get_blob, nvs_erase_all, nvs_close, sha256, sensor_count,
  }

  -- `if (local_handle) nvs_close(local_handle)`.
  abbrev pub close_local : ℕ → N → N
  close_local h n = if h == 0 then n else nvs_close h n

  -- A call on the handle that was given, or on one of its own that is closed again.
  unfoldable pub with_handle : Option ℕ → (ℕ → N → EspErr × N) → N → EspErr × N
  with_handle (some h) act n = act h n
  with_handle none act n =
      let (err, h, n1) = nvs_open app readwrite n in
      let (err', n2) = act h n1 in if is_ok err then (err', close_local h n2) else (err, n1)

  unfoldable pub nvs_save : Option ℕ → Key → List ℕ → N → EspErr × N
  unfolding with_handle
  nvs_save handle key blob = with_handle handle (λ h n. nvs_set_blob h key blob n)

  unfoldable pub nvs_clear : Option ℕ → N → EspErr × N
  unfolding with_handle
  nvs_clear handle = with_handle handle nvs_erase_all

  unfoldable pub password_hash : List ℕ → Option (List ℕ)
  password_hash plain = sha256 plain

  -- The comparison of `password_check`, on what `nvs_get_blob` gave.
  unfoldable pub compare_stored : List ℕ → EspErr × List ℕ × ℕ → EspErr
  unfolding bytes_equal
  compare_stored input (err, stored, stored_len) =
      if is_ok err
      then (if stored_len == 32
          then (if bytes_equal stored input then esp_ok else esp_fail)
          else esp_fail)
      else err

  unfoldable pub password_check : List ℕ → N → EspErr × N
  unfolding password_hash compare_stored
  password_check plain n = elim (password_hash plain) [
    | none ↦ (esp_fail, n)
    | some input ↦
        let (err, h, n1) = nvs_open app readonly n in
        let err' = compare_stored input (nvs_get_blob h pwd 32 n1) in
        if is_ok err then (err', nvs_close h n1) else (err, n1)
  ]

  -- The handle that `update_password` is given is not used: it opens its own.
  unfoldable pub update_password : List ℕ → Option ℕ → N → EspErr × N
  unfolding password_hash nvs_save
  update_password plain handle n = elim (password_hash plain) [
    | none ↦ (esp_fail, n)
    | some hashed ↦ nvs_save none pwd hashed n
  ]

  unfoldable pub config_save : Option ℕ → AppConfig → N → EspErr × N
  unfolding nvs_save
  config_save handle config n = nvs_save handle cfg (to_bytes config) n

  -- A failing `nvs_erase_all` returns without closing the handle.
  unfoldable pub reset_wifi_config : N → EspErr × N
  reset_wifi_config n =
      let (err, h, n1) = nvs_open net80211 readwrite n in
      let (err', n2) = nvs_erase_all h n1 in
      if is_ok err then (if is_ok err' then (err', nvs_close h n2) else (err', n2)) else (err, n1)

  -- `nvs_get_blob` wrote the bytes `got` over the front of the struct.
  abbrev pub overlay : List ℕ → AppConfig → AppConfig
  overlay got config = of_bytes sensor_count (got ++ drop (length got) (to_bytes config))

  -- What `config_load` does once it knows whether the stored configuration can be used: the result,
  -- the configuration and the flash, before the handle is closed.
  unfoldable pub load_config : ℕ → EspErr → AppConfig → N → EspErr × AppConfig × N
  unfolding update_password config_save
  load_config h err config n =
      let fresh = config_reset sensor_count env.mac env.chip_id in
      let n1 = (update_password (codes "admin") (some h) n).1 in
      let n2 = (config_save (some h) fresh n1).1 in
      let mended = record config { sensor_delay = 1000 } in
      let n3 = (config_save (some h) mended n).1 in
      if is_ok err
      then (if ltb config.sensor_delay 100 then (err, mended, n3) else (err, config, n))
      else (err, fresh, n2)

  -- The error of `config_load` once `nvs_get_blob` has answered.
  unfoldable pub blob_err : EspErr × List ℕ × ℕ → EspErr
  blob_err (err, got, len) =
      if is_ok err then (if len == sizeof_config sensor_count then err else esp_fail) else err

  -- `config_load` up to the registration of the handlers. The Boolean is whether it gets there.
  unfoldable pub config_load : AppConfig → N → Bool × EspErr × AppConfig × N
  unfolding blob_err load_config
  config_load config n =
      let (err, h, n1) = nvs_open app readwrite n in
      let blob = nvs_get_blob h cfg (sizeof_config sensor_count) n1 in
      let (err', config', n2) = load_config h (blob_err blob) (overlay blob.1 config) n1 in
      if is_ok err then (true, err', config', nvs_close h n2) else (false, err, config, n1)
