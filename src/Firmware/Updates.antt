-- ===== src/Firmware/Updates.antt =====
-- The configuration updates: what a handler leaves in RAM and in flash, and what it sends.
use basic_setup.Prelude.{
  ℕ, zero, suc, ◌+◌, ◌*◌, ◌<◌, ◌≡◌, refl, ap, ◌∙◌, Bool, true, false, ◌&&◌, none, some, List, [],
  ◌∷◌, ◌++◌, append_assoc, length, take, drop, set, length-drop, take-append-drop, take_all, ltb,
  leb, ◌==◌, if◌then◌else◌, arith, Bool-cases, inl, inr,
}
use basic_setup.Device.{Env, NvsLaws, app, cfg, is_ok, Effect, ws_sendframe}
use basic_setup.Device.Op
use basic_setup.Device.MsgId
use basic_setup.Config.{
  AppConfig, IsValid, to_bytes, c_string, app_switch_count, app_name_max_size,
  tcpip_hostname_max_size,
}
use basic_setup.Storage.{config_save}
use basic_setup.Storage.Password.{keeps, nvs_save-stored}
use basic_setup.Firmware.{
  Device, flag, write_hostname, write_switches, update_config, update_hostname, update_switches,
  send_config,
}

abbrev pub reply : ℕ → ℕ → Bool → Effect
reply client id b = ws_sendframe (some client) (id ∷ flag b ∷ []) Op.bin

abbrev pub broadcast : AppConfig → Effect
broadcast c = ws_sendframe none (MsgId.config ∷ to_bytes c) Op.bin

-- The bytes up to the first zero do not change when a zero is put behind them.
c_string-terminate :
    (msg rest : List ℕ)
    → 0 < length rest
    → c_string (set (msg ++ rest) (length msg) 0) ≡ c_string msg
unfolding c_string
c_string-terminate [] [] h = absurd (omega arith)
c_string-terminate [] (x ∷ rest) h = refl
c_string-terminate (zero ∷ msg) rest h = refl
c_string-terminate (suc b ∷ msg) rest h = ap (◌∷◌ (suc b)) (c_string-terminate msg rest h)

c_string-hostname :
    (msg : List ℕ) (c : AppConfig)
    → length c.hostname ≡ 32
    → length msg < 32
    → c_string (write_hostname msg c).hostname ≡ c_string msg
c_string-hostname msg c v h = elim (Bool-cases (ltb (length msg) 32)) [
  | inl short ↦ rw short (
      c_string-terminate msg (drop (length msg) c.hostname)
        (omega (arith, v, length-drop (length msg) c.hostname)))
  | inr long ↦ absurd (ground arith)
]

config_save-stored :
    {N : Type 0} (env : Env N) (laws : NvsLaws env.flash) (c : AppConfig) (n : N)
    → is_ok (config_save env none c n).0 ≡ true
    → laws.stored (config_save env none c n).1 app cfg
      ≡ (if keeps env laws cfg (to_bytes c) n then some (to_bytes c) else laws.stored n app cfg)
unfolding config_save
config_save-stored env laws c n ok =
    let after = nvs_save-stored env laws cfg (to_bytes c) n ok app cfg in
    elim (Bool-cases (keeps env laws cfg (to_bytes c) n)) [
      | inl k ↦ rw k (after ∙ rw k refl)
      | inr k ↦ rw k (after ∙ rw k refl)
    ]

module _ {N : Type 0} (env : Env N) where
  -- What the three update handlers do, on each branch: a message of the wrong size changes nothing;
  -- otherwise the configuration is replaced in RAM whether or not it could be saved. The client is
  -- told whether it was saved, and only then is the new configuration sent to everybody.
  pub update_config_lem :
      (id client : ℕ) (accepted : Bool) (c : AppConfig) (d : Device N)
      → let (err, n) = config_save env none c d.flash in
        let saved = accepted && is_ok err in
        let after = update_config env id client accepted c d in
        (after.config ≡ (if accepted then c else d.config))
        × (after.flash ≡ (if accepted then n else d.flash))
        × (after.out ≡ d.out ++ (reply client id saved ∷ (if saved then broadcast c ∷ [] else [])))
  unfolding update_config send_config
  update_config_lem id client false c d = (refl, refl, refl)
  update_config_lem id client true c d =
      elim (Bool-cases (is_ok (config_save env none c d.flash).0)) [
        | inl ok ↦
            rw ok (refl, refl, append_assoc d.out (reply client id true ∷ []) (broadcast c ∷ []))
        | inr failed ↦ rw failed (refl, refl, refl)
      ]

  -- A host name of 1 to 31 bytes reads back, as a C string, as what was sent, if the configuration
  -- is valid.
  pub update_hostname-c_string :
      (client : ℕ) (msg : List ℕ) (d : Device N)
      → IsValid env.sensor_count d.config
      → 0 < length msg
      → length msg < tcpip_hostname_max_size
      → c_string (update_hostname env client msg d).config.hostname ≡ c_string msg
  unfolding update_hostname
  update_hostname-c_string client msg d v pos short =
      let accepted = ltb 0 (length msg) && leb (length msg) tcpip_hostname_max_size in
      let fits : accepted ≡ true = ground arith in
      let done =
        update_config_lem MsgId.update_hostname client accepted (write_hostname msg d.config) d in
      rw (done.0, fits) (c_string-hostname msg d.config v.hostname_len short)

  -- When a message about the switches has the right size and can be saved, the flash holds the
  -- bytes of the configuration in RAM if NVS stores a blob without nvs_commit, and what it held
  -- before if it does not; that configuration has the names and the types of the message, and the
  -- client is told before it is broadcast.
  pub update_switches-stored :
      (laws : NvsLaws env.flash) (client : ℕ) (msg : List ℕ) (d : Device N)
      → length msg ≡ app_switch_count * app_name_max_size + app_switch_count
      → is_ok (config_save env none (write_switches msg d.config) d.flash).0 ≡ true
      → let after = update_switches env client msg d in
        (laws.stored after.flash app cfg ≡ (
          if keeps env laws cfg (to_bytes after.config) d.flash
          then some (to_bytes after.config)
          else laws.stored d.flash app cfg))
        × (after.config.switches ++ after.config.switch_cfg ≡ msg)
        × (after.out
            ≡ d.out
              ++ (reply client MsgId.update_switches true
                  ∷ broadcast (write_switches msg d.config)
                  ∷ []))
  unfolding update_switches
  update_switches-stored laws client msg d size ok =
      let c = write_switches msg d.config in
      let accepted = length msg == app_switch_count * app_name_max_size + app_switch_count in
      let fits : accepted ≡ true = ground arith in
      let done = update_config_lem MsgId.update_switches client accepted c d in
      rw (done.0, done.1, done.2, fits, ok)
        (
          config_save-stored env laws c d.flash ok,
          ap (◌++◌ (take 192 msg))
                (take_all 8 (drop 192 msg) (omega (arith, length-drop 192 msg, size)))
              ∙ take-append-drop 192 msg,
          refl,
        )
