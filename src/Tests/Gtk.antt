-- ===== src/Tests/Gtk.antt =====
-- The theorems on the desktop client, with two buttons, and on the client and the firmware together.
use basic_setup.Prelude.{
  ◌*◌, ◌+◌, if◌then◌else◌, List, ℕ, ◌<◌, ◌≡◌, refl, true, false, none, [], ◌∷◌, ◌++◌, arith,
}
use basic_setup.Device.{ws_sendframe}
use basic_setup.Device.Op
use basic_setup.Device.MsgId
use basic_setup.Config.{AppConfig, config_reset}
use basic_setup.Firmware.{actuator_pins, on_message}
use basic_setup.Gtk.{Button, Client, ws_send_toggle_button, client_handlers, websocket_callback}
use basic_setup.Gtk.Buttons.{bit, toggled}
use basic_setup.Gtk.Server.{on_message-ws_send_toggle_button}
use basic_setup.Gtk.Service.{
  Visit, closed, connection_error, receives, initial, websocket_service_loop,
  websocket_service_loop-paced,
}
use basic_setup.Tests.Sample.{env, booted, config}

abbrev button : Button
button = record { label = []; sensitive = false; active = false }

-- The configuration of a firmware without sensors.
abbrev plain_config : AppConfig
plain_config = config_reset 0 (1 ∷ 2 ∷ 3 ∷ 4 ∷ 5 ∷ 6 ∷ []) 0x1640ef

abbrev client : Client
client = record { config = plain_config; title = []; buttons = button ∷ button ∷ [] }

on_message-ws_send_toggle_button_example :
    let d' = on_message env 0 (ws_send_toggle_button 3 client) Op.bin booted in
    let msg = MsgId.actuator ∷ d'.config.switch_values ∷ [] in
    (d'.out ≡ actuator_pins d'.config.switch_values ++ (ws_sendframe none msg Op.bin ∷ []))
    × ((websocket_callback (client_handlers true) msg client).config.switch_values
        ≡ d'.config.switch_values)
    × ((j : ℕ) → j < 8 → bit d'.config.switch_values j ≡ toggled 3 config.switch_values j)
unfolding config_reset
on_message-ws_send_toggle_button_example =
    on_message-ws_send_toggle_button env 0 3 client booted refl refl (omega arith) (omega arith)

-- A connection that is refused, one that is closed after a message, and one that stays.
abbrev visits : List Visit
visits =
    record { begun = true; reasons = connection_error ∷ []; stop = false }
    ∷ record {
      begun = true;
      reasons = receives true (MsgId.actuator ∷ 5 ∷ []) ∷ closed ∷ [];
      stop = false;
    }
    ∷ record { begun = true; reasons = []; stop = false }
    ∷ []

websocket_service_loop-paced_example :
    let d = (websocket_service_loop visits (initial (client_handlers true) client)).1 in
    3 * d.attempts ≡ d.slept + (if d.websocket then 3 else 0)
websocket_service_loop-paced_example =
    websocket_service_loop-paced visits (client_handlers true) client
