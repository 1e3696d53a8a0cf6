-- ===== src/Config.antt =====
-- main/include/config.h and the part of main/config.c that makes the default configuration:
-- `struct app_config`, its bytes in memory, and `config_reset`. An array of names is kept as its
-- bytes, 24 a name, the way `memcpy` moves it.
pub mod Layout
use basic_setup.Prelude.{
  ℕ, zero, suc, ◌+◌, ◌*◌, ◌/◌, ◌%◌, ◌<◌, ◌≡◌, List, [], ◌∷◌, ◌++◌, length, get_or, take, drop,
  replicate, ltb, if◌then◌else◌,
}
use Prim.Native.Char.{code}
use Prim.Native.String.{String}

abbrev pub app_switch_count : ℕ
app_switch_count = 8

abbrev pub app_name_max_size : ℕ
app_name_max_size = 24

-- TCPIP_HOSTNAME_MAX_SIZE of the SDK, as clients/gtk/websocket_client.h repeats it.
abbrev pub tcpip_hostname_max_size : ℕ
tcpip_hostname_max_size = 32

abbrev pub app_config_version : ℕ
app_config_version = 2

pub record AppConfig : Type 0 where
  pub config_version : ℕ
  pub switch_len : ℕ
  pub sensor_len : ℕ
  pub switch_values : ℕ
  pub switch_cfg : List ℕ
  pub sensor_cfg : List ℕ
  pub reserved1 : ℕ
  pub sensor_delay : ℕ
  pub reserved2 : ℕ
  pub hostname : List ℕ
  pub switches : List ℕ
  pub sensors : List ℕ

-- A uint16_t in memory, low byte first.
abbrev pub u16_bytes : ℕ → List ℕ → List ℕ
u16_bytes v rest = (v % 256) ∷ (v / 256 % 256) ∷ rest

abbrev pub u16_at : List ℕ → ℕ → ℕ
u16_at bs i = get_or bs i 0 + 256 * get_or bs (suc i) 0

-- The bytes of the struct, field by field; with 0 or 8 sensors every field is aligned.
unfoldable pub to_bytes : AppConfig → List ℕ
to_bytes c = u16_bytes config_version (
    switch_len
    ∷ sensor_len
    ∷ switch_values
    ∷ (switch_cfg
        ++ (sensor_cfg
            ++ (reserved1
                ∷ u16_bytes sensor_delay
                    (u16_bytes reserved2 (hostname ++ (switches ++ sensors)))))))
  where
    open c use {
      config_version, switch_len, sensor_len, switch_values, switch_cfg, sensor_cfg, reserved1,
      sensor_delay, reserved2, hostname, switches, sensors,
    }

-- `sizeof(struct app_config)` with `n` sensors.
abbrev pub sizeof_config : ℕ → ℕ
sizeof_config n =
    5
    + app_switch_count
    + n
    + 5
    + tcpip_hostname_max_size
    + app_switch_count * app_name_max_size
    + n * app_name_max_size

-- The struct that the bytes `bs` of it are, with `n` sensors.
unfoldable pub of_bytes : ℕ → List ℕ → AppConfig
of_bytes n bs =
    let r1 = drop 5 bs in
    let r2 = drop app_switch_count r1 in
    let r3 = drop n r2 in
    let r4 = drop 5 r3 in
    let r5 = drop tcpip_hostname_max_size r4 in
    record {
      config_version = u16_at bs 0;
      switch_len = get_or bs 2 0;
      sensor_len = get_or bs 3 0;
      switch_values = get_or bs 4 0;
      switch_cfg = take app_switch_count r1;
      sensor_cfg = take n r2;
      reserved1 = get_or r3 0 0;
      sensor_delay = u16_at r3 1;
      reserved2 = u16_at r3 3;
      hostname = take tcpip_hostname_max_size r4;
      switches = take (app_switch_count * app_name_max_size) r5;
      sensors = take (n * app_name_max_size) (drop (app_switch_count * app_name_max_size) r5);
    }

-- The struct has the sizes that its declaration gives.
pub record IsValid (n : ℕ) (c : AppConfig) : Type 0 where
  pub version_u16 : c.config_version < 65536
  pub delay_u16 : c.sensor_delay < 65536
  pub reserved2_u16 : c.reserved2 < 65536
  pub switch_cfg_len : length c.switch_cfg ≡ app_switch_count
  pub sensor_cfg_len : length c.sensor_cfg ≡ n
  pub hostname_len : length c.hostname ≡ tcpip_hostname_max_size
  pub switches_len : length c.switches ≡ app_switch_count * app_name_max_size
  pub sensors_len : length c.sensors ≡ n * app_name_max_size

abbrev pub codes : String → List ℕ
codes String.[] = []
codes (String.◌∷◌ c s) = code c ∷ codes s

-- `sprintf` into a zeroed array of `size` bytes.
abbrev pub fill : ℕ → List ℕ → List ℕ
fill size text = take size (text ++ replicate size 0)

-- One digit of `%X`.
abbrev pub hex_digit : ℕ → ℕ
hex_digit d = if ltb d 10 then 48 + d else 55 + d

-- `%0kX` of a number below 16 ^ k.
unfoldable pub hex : ℕ → ℕ → List ℕ
hex zero v = []
hex (suc k) v = hex k (v / 16) ++ (hex_digit (v % 16) ∷ [])

-- `for (i = 0; i < count; i++) sprintf(names[i], prefix "%d", i + 1)`; `i + 1` is one digit.
unfoldable pub name_rows : List ℕ → ℕ → ℕ → List ℕ
name_rows prefix i zero = []
name_rows prefix i (suc rows) =
    fill app_name_max_size (prefix ++ ((48 + i + 1) ∷ [])) ++ name_rows prefix (i + 1) rows

-- `device_id`: the last three bytes of the MAC and the chip id.
unfoldable pub device_id : List ℕ → ℕ → List ℕ
unfolding hex
device_id mac chip_id =
    hex 2 (get_or mac 3 0) ++ (hex 2 (get_or mac 4 0) ++ (hex 2 (get_or mac 5 0) ++ hex 8 chip_id))

-- The configuration that `config_reset` leaves, with `n` sensors.
unfoldable pub config_reset : ℕ → List ℕ → ℕ → AppConfig
unfolding device_id name_rows
config_reset n mac chip_id = record {
  config_version = app_config_version;
  switch_len = app_switch_count;
  sensor_len = n;
  switch_values = 0;
  switch_cfg = replicate app_switch_count 0x81;
  sensor_cfg = replicate n 0x81;
  reserved1 = 0;
  sensor_delay = 1000;
  reserved2 = 0;
  hostname = fill tcpip_hostname_max_size (codes "OSH-" ++ device_id mac chip_id);
  switches = name_rows (codes "Switch ") 0 app_switch_count;
  sensors = name_rows (codes "Sensor ") 0 n;
}

-- The value of a string that is read up to its first zero byte.
unfoldable pub c_string : List ℕ → List ℕ
c_string [] = []
c_string (zero ∷ bs) = []
c_string (suc b ∷ bs) = suc b ∷ c_string bs
