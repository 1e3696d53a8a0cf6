-- ===== src/Config/Layout.antt =====
-- The struct in memory: its size, and that its bytes determine it.
use basic_setup.Prelude.{
  ℕ, ◌+◌, ◌*◌, ◌/◌, ◌%◌, ◌<◌, ◌≡◌, refl, length, length-append, take-append, drop-append, take_all,
  arith,
}
use basic_setup.Config.{
  AppConfig, IsValid, to_bytes, of_bytes, sizeof_config, app_switch_count, app_name_max_size,
  tcpip_hostname_max_size,
}

pub u16_join : (v : ℕ) → v < 65536 → v % 256 + 256 * (v / 256 % 256) ≡ v
u16_join v h = omega arith

-- A valid configuration takes exactly `sizeof(struct app_config)` bytes.
pub length-to_bytes : (n : ℕ) (c : AppConfig) → IsValid n c → length (to_bytes c) ≡ sizeof_config n
unfolding to_bytes
length-to_bytes n c v = omega (
  arith,
  v.switch_cfg_len,
  v.sensor_cfg_len,
  v.hostname_len,
  v.switches_len,
  v.sensors_len,
  length-append {0},
)

-- Reading the bytes of a valid configuration back gives the configuration.
pub of_bytes-to_bytes : (n : ℕ) (c : AppConfig) → IsValid n c → of_bytes n (to_bytes c) ≡ c
unfolding to_bytes of_bytes
of_bytes-to_bytes n c v =
    rw
      (
        drop-append app_switch_count c.switch_cfg _ v.switch_cfg_len,
        drop-append n c.sensor_cfg _ v.sensor_cfg_len,
        drop-append tcpip_hostname_max_size c.hostname _ v.hostname_len,
        drop-append (app_switch_count * app_name_max_size) c.switches _ v.switches_len,
        take-append app_switch_count c.switch_cfg _ v.switch_cfg_len,
        take-append n c.sensor_cfg _ v.sensor_cfg_len,
        take-append tcpip_hostname_max_size c.hostname _ v.hostname_len,
        take-append (app_switch_count * app_name_max_size) c.switches _ v.switches_len,
        take_all (n * app_name_max_size) c.sensors v.sensors_len,
        u16_join c.config_version v.version_u16,
        u16_join c.sensor_delay v.delay_u16,
        u16_join c.reserved2 v.reserved2_u16,
      )
      refl
