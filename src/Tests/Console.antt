-- ===== src/Tests/Console.antt =====
-- The theorems on the commands `act` and `ping`.
use basic_setup.Prelude.{◌≡◌, true, some}
use basic_setup.Prelude.Int.{pos, negsuc}
use basic_setup.Firmware.{Device, boot}
use basic_setup.Firmware.Relays.{RelaysShow, boot-Shows}
use basic_setup.Console.Act.{actuator_cmd, actuator_cmd-RelaysShow}
use basic_setup.Tests.Sample.{Flash, env, device}
use basic_setup.Tests.Composition.{register}

abbrev started : Device Flash
started = boot env (λ i. true) device

-- `act` with -1, behind a call with 5.
actuator_cmd-RelaysShow_example :
    let c = actuator_cmd env 0 (some (negsuc 0)) (pos 5) started in
    RelaysShow register c.device
    × (c.ret ≡ 0)
    × (c.device.config.switch_values ≡ 255)
    × (c.printed ≡ some 255)
    × ((actuator_cmd env 1 (some (negsuc 0)) (pos 5) started).ret ≡ 1)
    × ((actuator_cmd env 1 (some (negsuc 0)) (pos 5) started).device ≡ started)
actuator_cmd-RelaysShow_example =
    actuator_cmd-RelaysShow env register (some (negsuc 0)) (pos 5) 0 started
      (boot-Shows env register (λ i. true) device)
