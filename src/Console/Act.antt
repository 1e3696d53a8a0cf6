-- ===== src/Console/Act.antt =====
-- The command `act` of main/actuator.c. `arg_parse` of the SDK fills an argument that is given and
-- leaves the value of one that is not as it was.
use basic_setup.Prelude.{
  ℕ, suc, ◌-◌, ◌%◌, ◌≡◌, refl, false, Option, none, some, ◌==◌, if◌then◌else◌, arith,
}
use basic_setup.Prelude.Int.{ℤ, pos, negsuc}
use basic_setup.Device.{Env}
use basic_setup.Firmware.{Device, actuator_update}
use basic_setup.Firmware.ShiftRegister.{Register}
use basic_setup.Firmware.Relays.{RelaysShow, actuator_update-Shows}

-- `value & 0xffu` of an int.
abbrev pub low_byte : ℤ → ℕ
low_byte (pos n) = n % 256
low_byte (negsuc n) = 255 - n % 256

-- `ival[0]` behind `arg_parse`, from what it was.
abbrev pub parsed : Option ℤ → ℤ → ℤ
parsed none ival = ival
parsed (some n) ival = n

-- What a call leaves: its result, what it prints, the argument table, and the device.
pub record Called (N : Type 0) : Type 0 where
  pub ret : ℕ
  pub printed : Option ℕ
  pub ival : ℤ
  pub device : Device N

module _ {N : Type 0} (env : Env N) where
  unfoldable pub actuator_cmd : ℕ → Option ℤ → ℤ → Device N → Called N
  unfolding actuator_update
  actuator_cmd nerrors byte ival d =
      let ival' = parsed byte ival in
      let d' = actuator_update env (low_byte ival') d in
      if nerrors == 0
      then record { ret = 0; printed = some d'.config.switch_values; ival = ival'; device = d' }
      else record { ret = 1; printed = none; ival = ival'; device = d }

  -- `act` on a device whose relays show its switch values: they do afterwards, too. Without errors
  -- the switch values are the low byte of the argument, which is printed; without an argument it is
  -- that of the call before, whatever the switches have been set to since. With errors the device is
  -- as it was.
  pub actuator_cmd-RelaysShow :
      (r : Register) (byte : Option ℤ) (ival : ℤ) (k : ℕ) (d : Device N)
      → RelaysShow r d
      → let c = actuator_cmd 0 byte ival d in
        RelaysShow r c.device
        × (c.ret ≡ 0)
        × (c.device.config.switch_values ≡ low_byte (parsed byte ival))
        × (c.printed ≡ some (low_byte (parsed byte ival)))
        × ((actuator_cmd (suc k) byte ival d).ret ≡ 1)
        × ((actuator_cmd (suc k) byte ival d).device ≡ d)
  unfolding actuator_cmd actuator_update
  actuator_cmd-RelaysShow r byte ival k d s =
      let v = low_byte (parsed byte ival) in
      let refused : (suc k == 0) ≡ false = ground arith in
      (actuator_update-Shows env r v d s.0 s.1, refl, refl, refl, rw refused refl, rw refused refl)
