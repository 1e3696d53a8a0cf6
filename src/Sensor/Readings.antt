-- ===== src/Sensor/Readings.antt =====
-- What a round of readings leaves in the message.
use basic_setup.Prelude.{
  ℕ, zero, suc, ◌+◌, ◌/◌, ◌%◌, ◌≤◌, ◌<◌, ◌≡◌, ◌≢◌, refl, sym, ap, ◌∙◌, subst, none, some, List, [],
  ◌∷◌, length, get_elem?, get_elem?-set_self, get_elem?-set_ne, length-set, if◌then◌else◌, arith,
  if_both, ==_iff, ◌==◌, Bool-cases, inl, inr,
}
use basic_setup.Device.{ws_sendframe, task_delay}
use basic_setup.Device.Op
use basic_setup.Config.{AppConfig}
use basic_setup.Sensor.{Sensors, sensor_id, enabled, read_channel, read_channels, read_sensors}

module _ (adc : ℕ → ℕ → ℕ → ℕ) where
  -- The reading of channel `c`, scaled to a byte.
  abbrev pub scaled : ℕ → ℕ
  scaled c = adc (c % 2) (c / 2 % 2) (c / 4 % 2) / 4

  one_channel : List ℕ → ℕ → Sensors → Sensors
  one_channel cfg i st = if enabled cfg i then read_channel adc i st else st

  length-one_channel :
      (cfg : List ℕ) (i : ℕ) (st : Sensors)
      → length (one_channel cfg i st).values ≡ length st.values
  unfolding one_channel read_channel
  length-one_channel cfg i st =
      if_both (λ (s : Sensors). length s.values ≡ length st.values) (enabled cfg i) _ _
        (length-set st.values i _) refl

  one_channel_other :
      (cfg : List ℕ) (i c : ℕ) (st : Sensors)
      → i ≢ c
      → get_elem? (one_channel cfg i st).values c ≡ get_elem? st.values c
  unfolding one_channel read_channel
  one_channel_other cfg i c st n =
      if_both (λ (s : Sensors). get_elem? s.values c ≡ get_elem? st.values c) (enabled cfg i) _ _
        (get_elem?-set_ne st.values _ n) refl

  one_channel_self :
      (cfg : List ℕ) (i : ℕ) (st : Sensors)
      → i < length st.values
      → scaled i < 256
      → get_elem? (one_channel cfg i st).values i
        ≡ (if enabled cfg i then some (scaled i) else get_elem? st.values i)
  unfolding one_channel read_channel
  one_channel_self cfg i st h small = elim (Bool-cases (enabled cfg i)) [
    | inl on ↦
        let fits : scaled i % 256 ≡ scaled i = omega (arith, small) in
        rw on (get_elem?-set_self st.values i _ h ∙ ap some fits)
    | inr off ↦ rw off refl
  ]

  channels_other :
      (cfg : List ℕ) (n i c : ℕ) (st : Sensors)
      → c < i
      → get_elem? (read_channels adc cfg n i st).values c ≡ get_elem? st.values c
  unfolding read_channels one_channel
  channels_other cfg zero i c st h = refl
  channels_other cfg (suc n) i c st h =
      channels_other cfg n (i + 1) c (one_channel cfg i st) (omega arith)
      ∙ one_channel_other cfg i c st (λ e. absurd (omega arith))

  channels_lem :
      (cfg : List ℕ) (n i c : ℕ) (st : Sensors)
      → i ≤ c
      → c < i + n
      → i + n ≤ length st.values
      → scaled c < 256
      → get_elem? (read_channels adc cfg n i st).values c
        ≡ (if enabled cfg c then some (scaled c) else get_elem? st.values c)
  unfolding read_channels one_channel
  channels_lem cfg zero i c st h1 h2 h3 small = absurd (omega arith)
  channels_lem cfg (suc n) i c st h1 h2 h3 small = elim (Bool-cases (i == c)) [
    | inl same ↦
        let e : i ≡ c = (==_iff i c).0 same in
        channels_other cfg n (i + 1) c (one_channel cfg i st) (omega (arith, e))
        ∙ subst
            (λ k.
              get_elem? (one_channel cfg i st).values k
              ≡ (if enabled cfg k then some (scaled k) else get_elem? st.values k))
            e
            (one_channel_self cfg i st (omega (arith, h3))
              (subst (λ k. scaled k < 256) (sym e) small))
    | inr other ↦
        let ne : i ≢ c = λ e. ground arith in
        channels_lem cfg n (i + 1) c (one_channel cfg i st) (omega (arith, ne, h1))
          (omega (arith, h2)) (omega (arith, h3, length-one_channel cfg i st)) small
        ∙ ap (λ old. if enabled cfg c then some (scaled c) else old)
            (one_channel_other cfg i c st ne)
  ]

  -- After a round over as many channels as the message has values, the value of each enabled channel
  -- is the reading taken at its levels of the pins, divided by four, if the converter gives less than
  -- 1024, the others are as before, and the message has them behind its id and their number.
  pub read_sensors_lem :
      (count : ℕ) (config : AppConfig) (st : Sensors)
      → count ≡ length st.values
      → ((a b c : ℕ) → adc a b c < 1024)
      → let r = read_sensors adc count config st in
        ((c : ℕ)
          → c < count
          → get_elem? r.0.values c
            ≡ (if enabled config.sensor_cfg c then some (scaled c) else get_elem? st.values c))
        × (r.1
            ≡ task_delay config.sensor_delay
              ∷ ws_sendframe none (sensor_id ∷ (count % 256) ∷ r.0.values) Op.bin
              ∷ [])
  unfolding read_sensors
  read_sensors_lem count config st size range = (
    λ c h.
        channels_lem config.sensor_cfg count 0 c st (omega arith) (omega arith)
          (omega (arith, size)) (omega (arith, range (c % 2) (c / 2 % 2) (c / 4 % 2))),
    refl,
  )
