-- ===== src/Gtk.antt =====
-- The desktop client: clients/gtk/shb.c, and the handler list and the receive callback of
-- clients/gtk/websocket_client.c. A widget is what the code sets of it.
pub mod Buttons
pub mod Server
pub mod Service
use basic_setup.Prelude.{
  ℕ, zero, suc, ◌+◌, ◌*◌, ◌/◌, ◌%◌, ◌^◌, Bool, true, false, not, Option, none, some, List, [], ◌∷◌,
  ◌++◌, length, get_or, drop, ltb, ◌==◌, if◌then◌else◌, bit_and, bit_xor,
}
use basic_setup.Device.MsgId
use basic_setup.Config.{AppConfig, of_bytes, c_string, app_name_max_size}

pub record Button : Type 0 where
  pub label : List ℕ
  pub sensitive : Bool
  pub active : Bool

pub record Client : Type 0 where
  pub config : AppConfig
  pub title : List ℕ
  pub buttons : List Button

-- `config.switch_cfg[i] & (0x1 << 7)` and `config.switch_values & (1 << i)` as tests.
abbrev pub switch_enabled : AppConfig → ℕ → Bool
switch_enabled c i = not (bit_and (get_or c.switch_cfg i 0) 128 == 0)

abbrev pub switch_on : AppConfig → ℕ → Bool
switch_on c i = ltb 0 (bit_and c.switch_values (2 ^ i))

-- The message of `ws_send_toggle_button`.
unfoldable pub ws_send_toggle_button : ℕ → Client → List ℕ
ws_send_toggle_button i s = MsgId.actuator ∷ (bit_xor s.config.switch_values (2 ^ i) % 256) ∷ []

-- The loop of `update_button_state`, from button `i`.
unfoldable pub update_buttons : AppConfig → ℕ → List Button → List Button
update_buttons c i [] = []
update_buttons c i (b ∷ bs) =
    (if switch_enabled c i then record b { active = switch_on c i } else b)
    ∷ update_buttons c (suc i) bs

unfoldable pub update_button_state : Client → Client
unfolding update_buttons
update_button_state s = record s { buttons = update_buttons s.config 0 s.buttons }

-- The loop of `on_ws_config`.
unfoldable pub label_buttons : AppConfig → ℕ → List Button → List Button
label_buttons c i [] = []
label_buttons c i (b ∷ bs) =
    record b {
      label = c_string (drop (i * app_name_max_size) c.switches);
      sensitive = switch_enabled c i;
    }
    ∷ label_buttons c (suc i) bs

-- The client has no sensors in its struct.
unfoldable pub on_ws_config : List ℕ → Client → Client
unfolding label_buttons update_button_state
on_ws_config msg s =
    let c = of_bytes 0 msg in
    update_button_state record {
      config = c;
      title = if length (c_string c.hostname) == 0 then s.title else c_string c.hostname;
      buttons = label_buttons c 0 s.buttons;
    }

unfoldable pub on_ws_actuator : List ℕ → Client → Client
unfolding update_button_state
on_ws_actuator msg s =
    update_button_state (record s { config = record (s.config) { switch_values = get_or msg 0 0 } })

pub data ClientHandler : Type 0 where
  ws_config ws_actuator : ClientHandler

unfoldable pub insert_last : ℕ × ClientHandler → List (ℕ × ClientHandler) → List (ℕ × ClientHandler)
insert_last new [] = new ∷ []
insert_last new (cur ∷ rest) = cur ∷ insert_last new rest

-- `web_socket_add_handler` of the client; `alloc` is whether `calloc` finds memory.
unfoldable pub web_socket_add_handler :
    Bool → ℕ → ClientHandler → List (ℕ × ClientHandler) → Bool × List (ℕ × ClientHandler)
unfolding insert_last
web_socket_add_handler alloc code handler items =
    if alloc then (true, insert_last (code, handler) items) else (false, items)

-- The handlers that `on_app_activate` adds.
unfoldable pub client_handlers : Bool → List (ℕ × ClientHandler)
unfolding web_socket_add_handler
client_handlers alloc =
    (web_socket_add_handler alloc MsgId.actuator ws_actuator
      (web_socket_add_handler alloc MsgId.config ws_config []).1).1

unfoldable pub call : ClientHandler → List ℕ → Client → Client
unfolding on_ws_config on_ws_actuator
call ws_config msg s = on_ws_config msg s
call ws_actuator msg s = on_ws_actuator msg s

-- The loop over the handlers in `websocket_callback`.
unfoldable pub handle_binary : List (ℕ × ClientHandler) → ℕ → List ℕ → Client → Client
unfolding call
handle_binary [] c msg s = s
handle_binary ((code, handler) ∷ rest) c msg s =
    handle_binary rest c msg (if code == c then call handler msg s else s)

-- LWS_CALLBACK_CLIENT_RECEIVE of a binary message.
unfoldable pub websocket_callback : List (ℕ × ClientHandler) → List ℕ → Client → Client
unfolding handle_binary
websocket_callback items [] s = s
websocket_callback items (c ∷ msg) s = handle_binary items c msg s
