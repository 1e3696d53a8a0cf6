-- ===== src/Storage/Handles.antt =====
-- Handles: who closes what it opened.
use basic_setup.Prelude.{
  ℕ, ◌≡◌, ◌≢◌, refl, ◌∙◌, true, Option, none, some, List, ◌∷◌, arith, Bool-cases, Option-cases, inl,
  inr, ltb, if◌then◌else◌,
}
use basic_setup.Device.{
  EspErr, esp_ok, is_ok, Namespace, app, readonly, readwrite, net80211, Key, cfg, pwd, Mode, Env,
  NvsLaws,
}
use basic_setup.Config.{AppConfig, sizeof_config, to_bytes, codes}
use basic_setup.Storage.{
  password_hash, blob_err, overlay, close_local, with_handle, nvs_save, nvs_clear, password_check,
  update_password, config_save, reset_wifi_config, load_config, config_load,
}

pub is_ok→eq : (e : EspErr) → is_ok e ≡ true → e ≡ esp_ok
is_ok→eq e h = ground arith

pub close_local-nonzero :
    {N : Type 0} (env : Env N) (h : ℕ) (n : N) → h ≢ 0 → close_local env h n ≡ env.nvs_close h n
close_local-nonzero env h n z = ground arith

module _ {N : Type 0} (env : Env N) (laws : NvsLaws env.flash) where
  open laws use {handles}

  -- Closing the handle that was opened last, on a flash whose open handles are still the same.
  close-handles :
      (ns : Namespace) (m : Mode) (n n2 : N)
      → is_ok (env.nvs_open ns m n).0 ≡ true
      → handles n2 ≡ handles (env.nvs_open ns m n).2
      → handles (env.nvs_close (env.nvs_open ns m n).1 n2) ≡ handles n
  close-handles ns m n n2 opened same =
      (laws.close_top _ ns (handles n) n2 (same ∙ (laws.open_ok ns m n opened).1)).0

  with_handle-handles :
      (handle : Option ℕ) (act : ℕ → N → EspErr × N) (n : N)
      → ((h : ℕ) (m : N) → handles (act h m).1 ≡ handles m)
      → handles (with_handle env handle act n).1 ≡ handles n
  unfolding with_handle
  with_handle-handles (some h) act n keep = keep h n
  with_handle-handles none act n keep = elim (Bool-cases (is_ok (env.nvs_open app readwrite n).0)) [
    | inl opened ↦
        let nonzero = (laws.open_ok app readwrite n opened).0 in
        let same = keep (env.nvs_open app readwrite n).1 (env.nvs_open app readwrite n).2 in
        let closed = close-handles app readwrite n _ opened same in
        rw (opened, close_local-nonzero env _ _ nonzero) closed
    | inr failed ↦ rw failed (laws.open_err app readwrite n failed).0
  ]

  nvs_save-handles :
      (handle : Option ℕ) (key : Key) (blob : List ℕ) (n : N)
      → handles (nvs_save env handle key blob n).1 ≡ handles n
  unfolding nvs_save
  nvs_save-handles handle key blob n =
      with_handle-handles handle _ n (λ h m. laws.set_handles h key blob m)

  update_password-handles :
      (plain : List ℕ) (handle : Option ℕ) (n : N)
      → handles (update_password env plain handle n).1 ≡ handles n
  unfolding update_password password_hash
  update_password-handles plain handle n = elim (Option-cases (env.sha256 plain)) [
    | inl e ↦ rw (e, update_password) refl
    | inr (hashed, e) ↦ rw (e, update_password) (nvs_save-handles none pwd hashed n)
  ]

  config_save-handles :
      (handle : Option ℕ) (c : AppConfig) (n : N)
      → handles (config_save env handle c n).1 ≡ handles n
  unfolding config_save
  config_save-handles handle c n = nvs_save-handles handle cfg (to_bytes c) n

  password_check-handles :
      (plain : List ℕ) (n : N) → handles (password_check env plain n).1 ≡ handles n
  unfolding password_check password_hash
  password_check-handles plain n = elim (Option-cases (env.sha256 plain)) [
    | inl e ↦ rw (e, password_check) refl
    | inr (input, e) ↦
        rw (e, password_check)
          (elim (Bool-cases (is_ok (env.nvs_open app readonly n).0)) [
            | inl opened ↦ rw opened (close-handles app readonly n _ opened refl)
            | inr failed ↦ rw failed (laws.open_err app readonly n failed).0
          ])
  ]

  load_config-handles :
      (h : ℕ) (err : EspErr) (c : AppConfig) (n : N)
      → handles (load_config env h err c n).2 ≡ handles n
  unfolding load_config
  load_config-handles h err c n = elim (Bool-cases (is_ok err)) [
    | inl e ↦ rw e (elim (Bool-cases (ltb c.sensor_delay 100)) [
      | inl short ↦ rw short (config_save-handles (some h) _ n)
      | inr long ↦ rw long refl
    ])
    | inr e ↦
        rw e (config_save-handles (some h) _ _ ∙ update_password-handles (codes "admin") (some h) n)
  ]

  config_load-handles : (c : AppConfig) (n : N) → handles (config_load env c n).3 ≡ handles n
  unfolding config_load
  config_load-handles c n = elim (Bool-cases (is_ok (env.nvs_open app readwrite n).0)) [
    | inl opened ↦
        let (err, h, n1) = env.nvs_open app readwrite n in
        let blob = env.nvs_get_blob h cfg (sizeof_config env.sensor_count) n1 in
        rw opened (
          close-handles app readwrite n _ opened
            (load_config-handles h (blob_err env blob) (overlay env blob.1 c) n1))
    | inr failed ↦ rw failed (laws.open_err app readwrite n failed).0
  ]

  -- Whatever the flash answers, every operation closes each handle that it opens and no other:
  -- saving and clearing, on a given handle or their own, the two password operations, and loading.
  pub storage_closes_handles :
      (handle : Option ℕ) (key : Key) (blob plain : List ℕ) (c : AppConfig) (n : N)
      → (handles (nvs_save env handle key blob n).1 ≡ handles n)
        × (handles (nvs_clear env handle n).1 ≡ handles n)
        × (handles (password_check env plain n).1 ≡ handles n)
        × (handles (update_password env plain handle n).1 ≡ handles n)
        × (handles (config_save env handle c n).1 ≡ handles n)
        × (handles (config_load env c n).3 ≡ handles n)
  unfolding nvs_clear
  storage_closes_handles handle key blob plain c n = (
    nvs_save-handles handle key blob n,
    with_handle-handles handle _ n laws.erase_handles,
    password_check-handles plain n,
    update_password-handles plain handle n,
    config_save-handles handle c n,
    config_load-handles c n,
  )

  -- Once `nvs_open` has given it a handle, `reset_wifi_config` closes that handle, except when
  -- erasing fails: then one more handle is open than before.
  pub reset_wifi_config_leak :
      (n : N)
      → is_ok (env.nvs_open net80211 readwrite n).0 ≡ true
      → let (err, h, n1) = env.nvs_open net80211 readwrite n in
        handles (reset_wifi_config env n).1
        ≡ (if is_ok (env.nvs_erase_all h n1).0 then handles n else ((h, net80211) ∷ handles n))
  unfolding reset_wifi_config
  reset_wifi_config_leak n opened =
      elim (Bool-cases (
        is_ok
          (env.nvs_erase_all (env.nvs_open net80211 readwrite n).1
            (env.nvs_open net80211 readwrite n).2).0)) [
              | inl erased ↦
                  rw (opened, erased)
                    (close-handles net80211 readwrite n _ opened (laws.erase_handles _ _))
              | inr failed ↦
                  rw (opened, failed)
                    (laws.erase_handles _ _ ∙ (laws.open_ok net80211 readwrite n opened).1)
            ]
