-- ===== src/Sensor.antt =====
-- main/sensor.c: the multiplexed readings of the analog converter, and their broadcast.
pub mod Readings
use basic_setup.Prelude.{
  ℕ, zero, suc, ◌+◌, ◌/◌, ◌%◌, ◌≤◌, ◌<◌, ◌≡◌, ◌≢◌, refl, sym, ap, ◌∙◌, Bool, true, false, not,
  Option, none, some, List, [], ◌∷◌, length, get_or, get_elem?, set, get_elem?-set_self,
  get_elem?-set_ne, length-set, ◌==◌, if◌then◌else◌,
}
use basic_setup.Device.{Effect, ws_sendframe, task_delay}
use basic_setup.Device.Op
use basic_setup.Config.{AppConfig}

-- WS_MSG_ID_SENSOR.
abbrev pub sensor_id : ℕ
sensor_id = 3

-- `sensor_msg.values`, and the levels of the pins S0, S1 and S2.
pub record Sensors : Type 0 where
  pub values : List ℕ
  pub s0 : ℕ
  pub s1 : ℕ
  pub s2 : ℕ

-- The bit 0x80 of `config.sensor_cfg[i]`.
abbrev pub enabled : List ℕ → ℕ → Bool
enabled cfg i = not (get_or cfg i 0 / 128 % 2 == 0)

-- `adc` is what `adc_read` gives at the levels of S0, S1 and S2.
module _ (adc : ℕ → ℕ → ℕ → ℕ) where
  -- The pins for channel `i`, and the reading, a uint8_t.
  unfoldable pub read_channel : ℕ → Sensors → Sensors
  read_channel i st =
      let s0 = i % 2 in
      let s1 = i / 2 % 2 in
      let s2 = i / 4 % 2 in
      record st { s0 = s0; s1 = s1; s2 = s2; values = set st.values i (adc s0 s1 s2 / 4 % 256) }

  -- The channels from `i` on, for as many as are left.
  unfoldable pub read_channels : List ℕ → ℕ → ℕ → Sensors → Sensors
  unfolding read_channel
  read_channels cfg zero i st = st
  read_channels cfg (suc n) i st =
      read_channels cfg n (i + 1) (if enabled cfg i then read_channel i st else st)

  -- One round of `read_sensors` with APP_SENSOR_COUNT channels: the wait, in milliseconds, stands
  -- between the readings and the broadcast.
  unfoldable pub read_sensors : ℕ → AppConfig → Sensors → Sensors × List Effect
  unfolding read_channels
  read_sensors count config st =
      let st' = read_channels config.sensor_cfg count 0 st in
      (
        st',
        task_delay config.sensor_delay
            ∷ ws_sendframe none (sensor_id ∷ (count % 256) ∷ st'.values) Op.bin
            ∷ [],
      )

-- The lines of `sensor_cmd` from channel `i` on: the enabled channels and their values.
unfoldable pub lines : List ℕ → List ℕ → ℕ → ℕ → List (ℕ × ℕ)
lines cfg values zero i = []
lines cfg values (suc n) i =
    let rest = lines cfg values n (i + 1) in
    if enabled cfg i then (i, get_or values i 0) ∷ rest else rest

-- `sensor_cmd`; `parsed` is whether `arg_parse` found no error.
unfoldable pub sensor_cmd : Bool → ℕ → AppConfig → Sensors → ℕ × List (ℕ × ℕ)
unfolding lines
sensor_cmd parsed count config st =
    if parsed then (0, lines config.sensor_cfg st.values count 0) else (1, [])
