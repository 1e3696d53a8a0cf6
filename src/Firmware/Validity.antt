-- ===== src/Firmware/Validity.antt =====
-- The configuration keeps the sizes of its arrays, whatever is received.
use basic_setup.Prelude.{
  ℕ, zero, suc, ◌+◌, ◌*◌, ◌≤◌, ◌≡◌, refl, Bool, true, false, none, List, [], ◌∷◌, ◌++◌, length,
  drop, replicate, length-append, length-take, length-drop, length-set, length-replicate, ltb,
  arith, Bool-cases, inl, inr,
}
use basic_setup.Device.{Env, is_ok}
use basic_setup.Config.{
  AppConfig, IsValid, app_switch_count, app_name_max_size, tcpip_hostname_max_size, config_reset,
  name_rows, device_id, fill, codes,
}
use basic_setup.Storage.{config_save}
use basic_setup.Registry.Auth.{ws_onmessage-P}
use basic_setup.Firmware.{
  Device, Handler, on_ws_client, on_ws_login, on_ws_logout, on_ws_update_hostname,
  on_ws_update_switches, on_ws_update_sensors, on_ws_update_password, on_ws_reset_config,
  on_ws_restart, on_ws_update, on_ws_wifi, write_hostname, write_switches, write_sensors,
  update_config, login, set_password, emit, call, on_message, on_messages,
}

length-fill : (size : ℕ) (text : List ℕ) → length (fill size text) ≡ size
length-fill size text = omega (
  arith,
  length-take size (text ++ replicate size 0),
  length-append text (replicate size 0),
  length-replicate size (let z : ℕ = 0 in z),
)

length-name_rows :
    (prefix : List ℕ) (i rows : ℕ) → length (name_rows prefix i rows) ≡ rows * app_name_max_size
unfolding name_rows
length-name_rows prefix i zero = refl
length-name_rows prefix i (suc rows) = omega (
  arith,
  length-append (fill app_name_max_size (prefix ++ ((48 + i + 1) ∷ [])))
      (name_rows prefix (i + 1) rows),
  length-fill app_name_max_size (prefix ++ ((48 + i + 1) ∷ [])),
  length-name_rows prefix (i + 1) rows,
)

-- The default configuration fits the struct.
pub config_reset-IsValid :
    (n : ℕ) (mac : List ℕ) (chip_id : ℕ) → IsValid n (config_reset n mac chip_id)
unfolding config_reset
config_reset-IsValid n mac chip_id = record {
  version_u16 = omega arith;
  delay_u16 = omega arith;
  reserved2_u16 = omega arith;
  switch_cfg_len = refl;
  sensor_cfg_len = length-replicate n 0x81;
  hostname_len = length-fill tcpip_hostname_max_size (codes "OSH-" ++ device_id mac chip_id);
  switches_len = length-name_rows (codes "Switch ") 0 app_switch_count;
  sensors_len = length-name_rows (codes "Sensor ") 0 n;
}

module _ {n : ℕ} (msg : List ℕ) (c : AppConfig) (v : IsValid n c) where
  hostname_fits : length msg ≤ 32 → length (msg ++ drop (length msg) c.hostname) ≡ 32
  hostname_fits h = omega (
    arith,
    length-append msg (drop (length msg) c.hostname),
    length-drop (length msg) c.hostname,
    v.hostname_len,
  )

  write_hostname-IsValid : length msg ≤ 32 → IsValid n (write_hostname msg c)
  write_hostname-IsValid h = record {
    version_u16 = v.version_u16;
    delay_u16 = v.delay_u16;
    reserved2_u16 = v.reserved2_u16;
    switch_cfg_len = v.switch_cfg_len;
    sensor_cfg_len = v.sensor_cfg_len;
    hostname_len = elim (Bool-cases (ltb (length msg) 32)) [
      | inl short ↦
          rw (short, length-set {A = ℕ} (msg ++ drop (length msg) c.hostname) (length msg) 0)
            (hostname_fits h)
      | inr full ↦ rw full (hostname_fits h)
    ];
    switches_len = v.switches_len;
    sensors_len = v.sensors_len;
  }

  write_switches-IsValid :
      length msg ≡ app_switch_count * app_name_max_size + app_switch_count
      → IsValid n (write_switches msg c)
  write_switches-IsValid h = record {
    version_u16 = v.version_u16;
    delay_u16 = v.delay_u16;
    reserved2_u16 = v.reserved2_u16;
    switch_cfg_len =
        omega (arith, h, length-take app_switch_count (drop 192 msg), length-drop 192 msg);
    sensor_cfg_len = v.sensor_cfg_len;
    hostname_len = v.hostname_len;
    switches_len = omega (arith, h, length-take 192 msg);
    sensors_len = v.sensors_len;
  }

  write_sensors-IsValid : length msg ≡ n * app_name_max_size + n → IsValid n (write_sensors n msg c)
  write_sensors-IsValid h = record {
    version_u16 = v.version_u16;
    delay_u16 = v.delay_u16;
    reserved2_u16 = v.reserved2_u16;
    switch_cfg_len = v.switch_cfg_len;
    sensor_cfg_len = omega (
      arith,
      h,
      length-take n (drop (n * app_name_max_size) msg),
      length-drop (n * app_name_max_size) msg,
    );
    hostname_len = v.hostname_len;
    switches_len = v.switches_len;
    sensors_len = omega (arith, h, length-take (n * app_name_max_size) msg);
  }

module _ {N : Type 0} (env : Env N) where
  update_config-IsValid :
      (id client : ℕ) (accepted : Bool) (c : AppConfig) (d : Device N)
      → (accepted ≡ true → IsValid env.sensor_count c)
      → IsValid env.sensor_count d.config
      → IsValid env.sensor_count (update_config env id client accepted c d).config
  unfolding update_config
  update_config-IsValid id client false c d h v = v
  update_config-IsValid id client true c d h v =
      elim (Bool-cases (is_ok (config_save env none c d.flash).0)) [
        | inl ok ↦ rw ok (h refl)
        | inr failed ↦ rw failed (h refl)
      ]

  config_kept-login :
      (client : ℕ) (msg : List ℕ) (d : Device N) → (login env client msg d).config ≡ d.config
  unfolding login
  config_kept-login client msg d = ground arith

  config_kept-set_password :
      (client : ℕ) (msg : List ℕ) (d : Device N) → (set_password env client msg d).config ≡ d.config
  unfolding set_password
  config_kept-set_password client msg d = ground arith

  call-IsValid :
      (h : Handler) (client : ℕ) (msg : List ℕ) (type : ℕ) (d : Device N)
      → IsValid env.sensor_count d.config
      → IsValid env.sensor_count (call env h client msg type d).config
  unfolding call
  call-IsValid on_ws_client client msg type d v = v
  call-IsValid on_ws_login client msg type d v = rw (config_kept-login client msg d) v
  call-IsValid on_ws_logout client msg type d v = v
  call-IsValid on_ws_update_hostname client msg type d v =
      update_config-IsValid _ client _ _ d
        (λ e. write_hostname-IsValid msg d.config v (ground arith)) v
  call-IsValid on_ws_update_switches client msg type d v =
      update_config-IsValid _ client _ _ d
        (λ e. write_switches-IsValid msg d.config v (ground arith)) v
  call-IsValid on_ws_update_sensors client msg type d v =
      update_config-IsValid _ client _ _ d
        (λ e. write_sensors-IsValid msg d.config v (ground arith)) v
  call-IsValid on_ws_update_password client msg type d v =
      rw (config_kept-set_password client msg d) v
  call-IsValid on_ws_reset_config client msg type d v = v
  call-IsValid on_ws_restart client msg type d v = v
  call-IsValid (on_ws_wifi h) client msg type d v = v
  call-IsValid on_ws_update client msg type d v = record {
    version_u16 = v.version_u16;
    delay_u16 = v.delay_u16;
    reserved2_u16 = v.reserved2_u16;
    switch_cfg_len = v.switch_cfg_len;
    sensor_cfg_len = v.sensor_cfg_len;
    hostname_len = v.hostname_len;
    switches_len = v.switches_len;
    sensors_len = v.sensors_len;
  }

  on_message-IsValid :
      (client : ℕ) (msg : List ℕ) (type : ℕ) (d : Device N)
      → IsValid env.sensor_count d.config
      → IsValid env.sensor_count (on_message env client msg type d).config
  unfolding on_message
  on_message-IsValid client msg type d v =
      ws_onmessage-P (call env) (λ d client. d.is_login client) emit
        (λ d. IsValid env.sensor_count d.config) call-IsValid (λ client msg type d v. v) d.handlers
        client msg type d v

  -- No sequence of messages, of any sizes and from any clients, makes a valid configuration
  -- invalid: every field keeps its size.
  pub on_messages-IsValid :
      (ms : List (ℕ × List ℕ × ℕ)) (d : Device N)
      → IsValid env.sensor_count d.config
      → IsValid env.sensor_count (on_messages env ms d).config
  unfolding on_messages
  on_messages-IsValid [] d v = v
  on_messages-IsValid ((client, msg, type) ∷ ms) d v =
      on_messages-IsValid ms _ (on_message-IsValid client msg type d v)
