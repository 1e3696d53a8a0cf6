-- ===== src/Storage/Persist.antt =====
-- The configuration across a restart: what `config_save` stores, `config_load` brings back.
use basic_setup.Prelude.{
  ℕ, zero, suc, ◌≤◌, ◌≡◌, refl, true, false, none, some, List, [], ◌∷◌, length, drop, append-nil,
  arith, Bool-cases, inl, inr, ◌∙◌, if◌then◌else◌,
}
use basic_setup.Device.{esp_ok, is_ok, app, readwrite, cfg, Env, NvsLaws}
use basic_setup.Config.{AppConfig, IsValid, to_bytes, sizeof_config, config_reset}
use basic_setup.Config.Layout.{length-to_bytes, of_bytes-to_bytes}
use basic_setup.Storage.{config_save, overlay, blob_err, load_config, config_load}
use basic_setup.Storage.Password.{keeps, nvs_save-stored}

drop_all {ℓ} : {A : Type ℓ} (n : ℕ) (xs : List A) → length xs ≡ n → drop n xs ≡ []
drop_all zero [] h = refl
drop_all zero (x ∷ xs) h = absurd (omega arith)
drop_all (suc n) [] h = absurd (omega arith)
drop_all (suc n) (x ∷ xs) h = drop_all n xs (omega arith)

module _ {N : Type 0} (env : Env N) where
  -- A stored struct that covers the whole of the old one replaces it.
  overlay_all :
      (old c : AppConfig)
      → IsValid env.sensor_count old
      → IsValid env.sensor_count c
      → overlay env (to_bytes c) old ≡ c
  overlay_all old c v w =
      rw
        (
          length-to_bytes env.sensor_count c w,
          drop_all _ (to_bytes old) (length-to_bytes env.sensor_count old v),
          append-nil (to_bytes c),
        )
        (of_bytes-to_bytes env.sensor_count c w)

  -- When `config_load` gets past `nvs_open`, the sensor delay is at least 100 ms: a blob that cannot
  -- be used is replaced by the defaults, and a shorter delay by 1000 ms.
  pub config_load-delay :
      (old : AppConfig) (n : N)
      → (config_load env old n).0 ≡ true
      → 100 ≤ (config_load env old n).2.sensor_delay
  unfolding config_load load_config config_reset
  config_load-delay old n h = ground arith

  -- When `config_load` gets past `nvs_open` and reports an error, the configuration is that of
  -- `config_reset`.
  pub config_load-reset :
      (old : AppConfig) (n : N)
      → (config_load env old n).0 ≡ true
      → is_ok (config_load env old n).1 ≡ false
      → (config_load env old n).2 ≡ config_reset env.sensor_count env.mac env.chip_id
  unfolding config_load load_config
  config_load-reset old n h e = ground arith

  blob_err_ok :
      (got : List ℕ) (len : ℕ)
      → len ≡ sizeof_config env.sensor_count
      → blob_err env (esp_ok, got, len) ≡ esp_ok
  unfolding blob_err
  blob_err_ok got len e = ground arith

  load_config_ok :
      (h : ℕ) (c : AppConfig) (n : N)
      → 100 ≤ c.sensor_delay
      → load_config env h esp_ok c n ≡ (esp_ok, c, n)
  unfolding load_config
  load_config_ok h c n delay = ground arith

  module _ (laws : NvsLaws env.flash) where
    open laws use {handles, stored}

    load_stored :
        (old c : AppConfig) (n : N)
        → IsValid env.sensor_count old
        → IsValid env.sensor_count c
        → 100 ≤ c.sensor_delay
        → stored n app cfg ≡ some (to_bytes c)
        → is_ok (env.nvs_open app readwrite n).0 ≡ true
        → ((config_load env old n).0 ≡ true)
          × (is_ok (config_load env old n).1 ≡ true)
          × ((config_load env old n).2 ≡ c)
    unfolding config_load
    load_stored old c n v w delay held opened =
        let (err, h, n1) = env.nvs_open app readwrite n in
        let size = length-to_bytes env.sensor_count c w in
        let (nonzero, top, same) = laws.open_ok app readwrite n opened in
        let found =
          laws.get_found h app (handles n) cfg (sizeof_config env.sensor_count) n1 (to_bytes c) top
            (rw same held) (omega (arith, size)) in
        rw
          (
            opened,
            found,
            overlay_all old c v w,
            blob_err_ok (to_bytes c) _ size,
            load_config_ok h c n1 delay,
          )
          (refl, refl, refl)

    -- When a valid configuration with a delay of at least 100 ms is saved with success over another
    -- such one, `config_load` finds the new one if NVS stores a blob without nvs_commit, and the one
    -- that was stored before if it does not, whatever valid one stood in RAM before, provided that
    -- NVS opens.
    pub config_load-config_save :
        (old before c : AppConfig) (n : N)
        → IsValid env.sensor_count old
        → IsValid env.sensor_count before
        → 100 ≤ before.sensor_delay
        → stored n app cfg ≡ some (to_bytes before)
        → IsValid env.sensor_count c
        → 100 ≤ c.sensor_delay
        → is_ok (config_save env none c n).0 ≡ true
        → is_ok (env.nvs_open app readwrite (config_save env none c n).1).0 ≡ true
        → ((config_load env old (config_save env none c n).1).0 ≡ true)
          × (is_ok (config_load env old (config_save env none c n).1).1 ≡ true)
          × ((config_load env old (config_save env none c n).1).2
              ≡ (if keeps env laws cfg (to_bytes c) n then c else before))
    unfolding config_save
    config_load-config_save old before c n v b bdelay held w delay saved opened =
        let after = nvs_save-stored env laws cfg (to_bytes c) n saved app cfg in
        elim (Bool-cases (keeps env laws cfg (to_bytes c) n)) [
          | inl k ↦ rw k (load_stored old c _ v w delay (after ∙ rw k refl) opened)
          | inr k ↦ rw k (load_stored old before _ v b bdelay (after ∙ rw k held) opened)
        ]
