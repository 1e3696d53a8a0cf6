-- ===== src/Gtk/Buttons.antt =====
-- The buttons of the client show the switches.
use basic_setup.Prelude.{
  ℕ, suc, ◌^◌, ◌%◌, ◌<◌, ◌≡◌, refl, Bool, true, false, not, List, [], ◌∷◌, ltb, ◌==◌, if◌then◌else◌,
  bit_and, bit_xor, Bool-cases, inl, inr, every, every_lem,
}
use basic_setup.Config.{AppConfig, of_bytes}
use basic_setup.Gtk.{
  Button, Client, switch_enabled, switch_on, update_buttons, update_button_state, label_buttons,
  on_ws_config, on_ws_actuator, ClientHandler, ws_config, ws_actuator, call, handle_binary,
  websocket_callback,
}

-- From button `i` on, the button of an enabled switch is active exactly if the switch is on.
unfoldable pub Show : AppConfig → ℕ → List Button → Type 0
Show c i [] = Unit {0}
Show c i (b ∷ bs) = (switch_enabled c i ≡ true → b.active ≡ switch_on c i) × Show c (suc i) bs

update_buttons-Show : (c : AppConfig) (i : ℕ) (bs : List Button) → Show c i (update_buttons c i bs)
unfolding Show update_buttons
update_buttons-Show c i [] = tt
update_buttons-Show c i (b ∷ bs) = ((λ e. rw e refl), update_buttons-Show c (suc i) bs)

call-Show :
    (handler : ClientHandler) (msg : List ℕ) (s : Client)
    → Show (call handler msg s).config 0 (call handler msg s).buttons
unfolding call on_ws_config on_ws_actuator update_button_state
call-Show ws_config msg s =
    let c = of_bytes 0 msg in update_buttons-Show c 0 (label_buttons c 0 s.buttons)
call-Show ws_actuator msg s = update_buttons-Show _ 0 s.buttons

handle_binary-Show :
    (items : List (ℕ × ClientHandler)) (c : ℕ) (msg : List ℕ) (s : Client)
    → Show s.config 0 s.buttons
    → Show (handle_binary items c msg s).config 0 (handle_binary items c msg s).buttons
unfolding handle_binary
handle_binary-Show [] c msg s shown = shown
handle_binary-Show ((code, handler) ∷ rest) c msg s shown = elim (Bool-cases (code == c)) [
  | inl e ↦
      rw (e, handle_binary)
        (handle_binary-Show rest c msg (call handler msg s) (call-Show handler msg s))
  | inr e ↦ rw (e, handle_binary) (handle_binary-Show rest c msg s shown)
]

-- The buttons show the switches after any message, of any length and with any handlers, if they did
-- before.
pub websocket_callback-Show :
    (items : List (ℕ × ClientHandler)) (msg : List ℕ) (s : Client)
    → Show s.config 0 s.buttons
    → Show (websocket_callback items msg s).config 0 (websocket_callback items msg s).buttons
unfolding websocket_callback
websocket_callback-Show items [] s shown = shown
websocket_callback-Show items (c ∷ msg) s shown = handle_binary-Show items c msg s shown

abbrev flag : Bool → ℕ
flag true = 1
flag false = 0

flag-eq : (a b : Bool) → (flag a == flag b) ≡ true → a ≡ b
flag-eq true true e = refl
flag-eq true false e = cc
flag-eq false true e = cc
flag-eq false false e = refl

-- The test of bit `j` of `v`, and what it is after bit `i` was toggled.
abbrev pub bit : ℕ → ℕ → Bool
bit v j = ltb 0 (bit_and v (2 ^ j))

abbrev pub toggled : ℕ → ℕ → ℕ → Bool
toggled i v j = if i == j then not (bit v j) else bit v j

toggle_table :
    every 8 (λ i.
      every 256
        (λ v. every 8 (λ j. flag (bit (bit_xor v (2 ^ i) % 256) j) == flag (toggled i v j))))
    ≡ true
unfolding every
toggle_table = refl

pub toggle_bit :
    (i v j : ℕ) → i < 8 → v < 256 → j < 8 → bit (bit_xor v (2 ^ i) % 256) j ≡ toggled i v j
toggle_bit i v j hi hv hj =
    flag-eq _ _ (every_lem _ 8 (every_lem _ 256 (every_lem _ 8 toggle_table i hi) v hv) j hj)
