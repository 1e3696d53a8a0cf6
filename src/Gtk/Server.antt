-- ===== src/Gtk/Server.antt =====
-- The client and the firmware together: a greeting and a click.
use basic_setup.Prelude.{ℕ, ◌^◌, ◌%◌, ◌<◌, ◌≡◌, refl, ap, true, none, [], ◌∷◌, ◌++◌, bit_xor}
use basic_setup.Device.{Env, ws_sendframe}
use basic_setup.Device.Op
use basic_setup.Device.MsgId
use basic_setup.Config.{AppConfig, IsValid, to_bytes}
use basic_setup.Config.Layout.{of_bytes-to_bytes}
use basic_setup.Registry.{ws_onmessage}
use basic_setup.Firmware.{Device, actuator_pins, actuator_update, on_message, call, emit}
use basic_setup.Firmware.Access.{boot_handlers}
use basic_setup.Gtk.{Client, ws_send_toggle_button, client_handlers, websocket_callback}
use basic_setup.Gtk.Buttons.{bit, toggled, toggle_bit}

-- The greeting of a firmware without sensors, whose configuration is valid, gives the client the
-- configuration of the firmware.
pub websocket_callback-to_bytes :
    (c : AppConfig) (s : Client)
    → IsValid 0 c
    → (websocket_callback (client_handlers true) (MsgId.config ∷ to_bytes c) s).config ≡ c
unfolding websocket_callback client_handlers
websocket_callback-to_bytes c s v = of_bytes-to_bytes 0 c v

module _ {N : Type 0} (env : Env N) where
  on_message-actuator :
      (client v : ℕ) (d : Device N)
      → d.handlers ≡ boot_handlers
      → on_message env client (MsgId.actuator ∷ v ∷ []) Op.bin d ≡ actuator_update env v d
  unfolding on_message actuator_update ws_onmessage call
  on_message-actuator client v d e =
      ap
        (λ items.
          ws_onmessage (call env) (λ d client. d.is_login client) emit items client
            (MsgId.actuator ∷ v ∷ []) Op.bin d)
        e

  -- On a device with the handlers of the boot, a click on button `i`, one of eight, of a client
  -- that knows the switch values, a byte, toggles switch `i` and no other, whoever is logged in:
  -- the new values are shifted out and broadcast, and the client that receives the broadcast knows
  -- them too.
  pub on_message-ws_send_toggle_button :
      (client i : ℕ) (s : Client) (d : Device N)
      → d.handlers ≡ boot_handlers
      → s.config.switch_values ≡ d.config.switch_values
      → d.config.switch_values < 256
      → i < 8
      → let d' = on_message env client (ws_send_toggle_button i s) Op.bin d in
        let msg = MsgId.actuator ∷ d'.config.switch_values ∷ [] in
        (d'.out
          ≡ d.out ++ (actuator_pins d'.config.switch_values ++ (ws_sendframe none msg Op.bin ∷ [])))
        × ((websocket_callback (client_handlers true) msg s).config.switch_values
            ≡ d'.config.switch_values)
        × ((j : ℕ) → j < 8 → bit d'.config.switch_values j ≡ toggled i d.config.switch_values j)
  unfolding ws_send_toggle_button websocket_callback client_handlers actuator_update
  on_message-ws_send_toggle_button client i s d e known byte hi =
      let v = bit_xor s.config.switch_values (2 ^ i) % 256 in
      rw (on_message-actuator client v d e)
        (refl, refl, λ j hj. rw known (toggle_bit i d.config.switch_values j hi byte hj))
