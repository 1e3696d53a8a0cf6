-- ===== src/Tests/Firmware.antt =====
-- The theorems on the message handlers, on a device with eight sensors and a blank flash.
use basic_setup.Prelude.{
  ℕ, ◌≡◌, refl, true, some, List, [], ◌∷◌, ◌++◌, replicate, ◌==◌, if◌then◌else◌, arith,
}
use basic_setup.Device.{ws_sendframe, app, cfg}
use basic_setup.Device.Op
use basic_setup.Device.MsgId
use basic_setup.Config.{codes, to_bytes, IsValid}
use basic_setup.Storage.{config_save}
use basic_setup.Registry.{err_unauthorized}
use basic_setup.Registry.Auth.{matching}
use basic_setup.Firmware.{
  emit, flag, login, on_message, on_messages, update_switches, write_switches,
}
use basic_setup.Firmware.Access.{boot_handlers, on_message-refusal}
use basic_setup.Firmware.Login.{login_result, login_lem}
use basic_setup.Firmware.Updates.{reply, broadcast, update_switches-stored}
use basic_setup.Firmware.Validity.{config_reset-IsValid, on_messages-IsValid}
use basic_setup.Tests.Sample.{device, device-Starts, booted-handlers, env, laws, config, booted}

-- Switches 1 and 3 on, a login with the default password, a new hostname, then a restart.
abbrev messages : List (ℕ × List ℕ × ℕ)
messages =
    (0, MsgId.actuator ∷ 5 ∷ [], Op.bin)
    ∷ (1, MsgId.login ∷ codes "admin", Op.bin)
    ∷ (1, MsgId.update_hostname ∷ codes "kitchen", Op.bin)
    ∷ (1, MsgId.restart ∷ [], Op.bin)
    ∷ []

on_message-refusal_example :
    on_message env 2 (MsgId.restart ∷ []) Op.bin booted
    ≡ emit (ws_sendframe (some 2) (err_unauthorized MsgId.restart) Op.bin) booted
unfolding matching
on_message-refusal_example =
    on_message-refusal env device booted 2 MsgId.restart [] Op.bin device-Starts booted-handlers
      refl (λ e. absurd (omega arith)) (λ e. absurd (omega arith)) (λ e. absurd (omega arith))

login_lem_example :
    ((c : ℕ)
      → (login env 1 (codes "admin") booted).is_login c
        ≡ (if c == 1 then login_result env 1 (codes "admin") booted else booted.is_login c))
    × ((login env 1 (codes "admin") booted).config ≡ config)
    × ((login env 1 (codes "admin") booted).handlers ≡ boot_handlers)
    × ((login env 1 (codes "admin") booted).out
        ≡ ws_sendframe
            (some 1)
            (MsgId.login ∷ flag (login_result env 1 (codes "admin") booted) ∷ [])
            Op.bin
          ∷ [])
login_lem_example = login_lem env 1 (codes "admin") booted

-- All names empty, and every switch enabled.
abbrev switches_message : List ℕ
switches_message = replicate 192 0 ++ replicate 8 0x81

update_switches-stored_example :
    let after = update_switches env 1 switches_message booted in
    (after.flash.stored app cfg ≡ some (to_bytes after.config))
    × (after.config.switches ++ after.config.switch_cfg ≡ switches_message)
    × (after.out
        ≡ reply 1 MsgId.update_switches true
          ∷ broadcast (write_switches switches_message config)
          ∷ [])
update_switches-stored_example =
    update_switches-stored env (laws true) 1 switches_message booted refl
      (unfold config_save in refl)

on_messages-IsValid_example : IsValid 8 (on_messages env messages booted).config
on_messages-IsValid_example =
    on_messages-IsValid env messages booted
      (config_reset-IsValid 8 (1 ∷ 2 ∷ 3 ∷ 4 ∷ 5 ∷ 6 ∷ []) 0x1640ef)
