-- ===== src/Firmware/ShiftRegister.antt =====
-- The relays: what the pin writes of main/actuator.c do to the 74HC595 shift register of the
-- readme, and that its outputs always show `switch_values`.
use basic_setup.Prelude.{
  ℕ, ◌-◌, ◌/◌, ◌%◌, ◌^◌, ◌≡◌, refl, subst, ◌&&◌, List, [], ◌∷◌, ◌++◌, map, take, ◌==◌,
  if◌then◌else◌, arith,
}
use basic_setup.Device.{
  Effect, gpio_set_level, ws_sendframe, task_delay, esp_restart, Pin, clock, ds, stcp,
}
use basic_setup.Firmware.{actuator_pins}

-- A shift register with the levels of its inputs; the newest bit is the first of `stages`.
pub record Register : Type 0 where
  pub clock_level : ℕ
  pub ds_level : ℕ
  pub stcp_level : ℕ
  pub stages : List ℕ
  pub outputs : List ℕ

-- A rising clock shifts the serial input in; a rising STCP copies the stages to the outputs.
unfoldable pub set_pin : Pin → ℕ → Register → Register
set_pin ds v r = record r { ds_level = v }
set_pin clock v r =
    if r.clock_level == 0 && v == 1
    then record r { clock_level = v; stages = take 8 (r.ds_level ∷ r.stages) }
    else record r { clock_level = v }
set_pin stcp v r =
    if r.stcp_level == 0 && v == 1
    then record r { stcp_level = v; outputs = r.stages }
    else record r { stcp_level = v }

unfoldable pub observe : Effect → Register → Register
unfolding set_pin
observe (gpio_set_level pin v) r = set_pin pin v r
observe (ws_sendframe client msg type) r = r
observe (task_delay t) r = r
observe esp_restart r = r

unfoldable pub run : List Effect → Register → Register
unfolding observe
run [] r = r
run (e ∷ es) r = run es (observe e r)

-- The level at each output, Q0 to Q7: 0, which switches the relay on, where the bit is 1.
abbrev pub levels : ℕ → List ℕ
levels value = map (λ i. 1 - value / 2 ^ i % 2) (0 ∷ 1 ∷ 2 ∷ 3 ∷ 4 ∷ 5 ∷ 6 ∷ 7 ∷ [])

-- Clock and STCP are low between updates, and the outputs show `value`.
abbrev pub Shows : ℕ → Register → Type 0
Shows value r = (r.clock_level ≡ 0) × (r.stcp_level ≡ 0) × (r.outputs ≡ levels value)

pub run-append : (xs ys : List Effect) (r : Register) → run (xs ++ ys) r ≡ run ys (run xs r)
unfolding run
run-append [] ys r = refl
run-append (x ∷ xs) ys r = run-append xs ys (observe x r)

inverted : (b : ℕ) → (if b % 2 == 0 then 1 else 0) ≡ 1 - b % 2
inverted b = ground arith

abbrev idle : ℕ → List ℕ → List ℕ → Register
idle d stages outputs = record {
  clock_level = 0;
  ds_level = d;
  stcp_level = 0;
  stages = stages;
  outputs = outputs;
}

idle-Shows :
    (value d : ℕ) (stages outputs : List ℕ)
    → Shows value (run (actuator_pins value) (idle d stages outputs))
unfolding actuator_pins run
idle-Shows value d stages outputs = (refl, refl, simp inverted)

idle-eq :
    (r : Register) → r.clock_level ≡ 0 → r.stcp_level ≡ 0 → idle r.ds_level r.stages r.outputs ≡ r
idle-eq r c s = ground arith

-- The eight clock pulses and the latch.
pub actuator_pins-Shows :
    (value : ℕ) (r : Register)
    → r.clock_level ≡ 0
    → r.stcp_level ≡ 0
    → Shows value (run (actuator_pins value) r)
actuator_pins-Shows value r c s =
    subst (λ x. Shows value (run (actuator_pins value) x)) (idle-eq r c s)
      (idle-Shows value r.ds_level r.stages r.outputs)
