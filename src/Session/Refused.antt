-- ===== src/Session/Refused.antt =====
-- What a client that does not log in can do to the firmware.
use basic_setup.Prelude.{
  ℕ, ◌≡◌, ◌≢◌, refl, ◌∙◌, sym, subst, true, false, List, [], ◌∷◌, length, ◌==◌, arith,
}
use basic_setup.Device.{Env}
use basic_setup.Device.MsgId
use basic_setup.Registry.{ws_onopen}
use basic_setup.Firmware.{Device, set_login, call, send_config, boot, on_message, on_open}
use basic_setup.Firmware.Access.{boot_handlers, boot-boot_handlers, Starts, refusal_lem}
use basic_setup.WebSocket.Reader.{Ahead}
use basic_setup.WebSocket.ReadFrame.Control.{msg_ctrl_size}
use basic_setup.WebSocket.NextFrame.Section.{text}
use basic_setup.WebSocket.Clients.{Table}
use basic_setup.WebSocket.Connection.Ends.{Taken}
use basic_setup.WebSocket.Connection.Delivery.{
  Message, AllMessages, stream, deliver, ws_establishconnection-deliver,
}
use basic_setup.Session.{Attempt, connect}

-- A message whose code is none of the three that are open to everybody.
abbrev pub IsGuarded : Message → Type 0
IsGuarded m =
    (c : ℕ) × (msg : List ℕ) × (text m.first m.others ≡ c ∷ msg)
    × (c ≢ MsgId.on_open)
    × (c ≢ MsgId.actuator)
    × (c ≢ MsgId.login)

abbrev pub AllGuarded : List Message → Type 0
AllGuarded [] = Unit
AllGuarded (m ∷ ms) = IsGuarded m × AllGuarded ms

-- What stays as it is.
pub record Untouched {N : Type 0} (client : ℕ) (d d' : Device N) : Type 0 where
  pub config : d'.config ≡ d.config
  pub flash : d'.flash ≡ d.flash
  pub radio : d'.radio ≡ d.radio
  pub handlers : d'.handlers ≡ boot_handlers
  pub logged_out : d'.is_login client ≡ false

module _ {N : Type 0} (env : Env N) (client : ℕ) (d : Device N) where
  on_message-Untouched :
      (m : Message) (d' : Device N)
      → IsGuarded m
      → Untouched client d d'
      → Untouched client d (on_message env client (text m.first m.others) m.type d')
  on_message-Untouched m d' (c, msg, e, h0, h1, h4) u =
      subst (λ xs. Untouched client d (on_message env client xs m.type d')) (sym e)
        (subst (Untouched client d)
          (sym (refusal_lem env d' client c msg m.type u.handlers u.logged_out h0 h1 h4))
          (record {
            config = u.config;
            flash = u.flash;
            radio = u.radio;
            handlers = u.handlers;
            logged_out = u.logged_out;
          }))

  deliver-Untouched :
      (ms : List Message) (d' : Device N)
      → AllGuarded ms
      → Untouched client d d'
      → Untouched client d (deliver (on_message env client) ms d')
  deliver-Untouched [] d' g u = u
  deliver-Untouched (m ∷ ms) d' (g, gs) u =
      deliver-Untouched ms _ gs (on_message-Untouched m d' g u)

  on_open-Untouched :
      d.handlers ≡ boot_handlers
      → Untouched client d (on_open env client (set_login client false d))
  unfolding on_open ws_onopen call send_config
  on_open-Untouched e =
      let same : (client == client) ≡ true = ground arith in
      rw e (record {
        config = refl;
        flash = refl;
        radio = refl;
        handlers = refl;
        logged_out = rw same refl;
      })

  -- On a device with the handlers that a boot registers, when there are none before, NVS opens, there
  -- is memory and the calls of `app_wifi_start` succeed, a client whose slot is taken sends messages of type
  -- TXT or BIN, in fragments shorter than 65536 bytes, together at most 16 MiB a message, with PING
  -- frames shorter than 125 bytes among them, none with the code of the greeting, the actuator or
  -- the login, and then ends its stream; memory does not run out, each PONG can be sent, and the
  -- client is not in state CLOSING. Whoever was in its slot before and whatever the messages say, the
  -- configuration, the flash, the WiFi and the handlers stay as they are, and the client is not logged in.
  pub connect-Untouched :
      (off : Device N) (ms : List Message) (fd : ℕ) (a : Attempt) (t : Table)
      → a.slot ≡ client
      → Starts env off
      → d.handlers ≡ (boot env (λ i. true) off).handlers
      → AllMessages ms
      → AllGuarded ms
      → ((n : ℕ) → a.peer.realloc_ok n ≡ true)
      → ((n : ℕ) → a.peer.pong_sent n ≡ true)
      → ((n : ℕ) → a.peer.closing n ≡ false)
      → length a.wfd.msg_ctrl ≡ msg_ctrl_size
      → Ahead (stream ms []) a.wfd.reader
      → Taken a.slot fd t
      → Untouched client d (connect env a t d).2
  unfolding connect
  connect-Untouched off ms fd a t same b e v g memory answered open_still ctrl ahead k =
      let r =
        ws_establishconnection-deliver (on_message env a.slot) a.peer memory answered open_still ms
          (on_open env a.slot) a.slot fd a.wfd t (set_login a.slot false d) v ctrl ahead k in
      subst (Untouched client d) (sym r.1) (
        subst
          (λ c.
            Untouched client d
              (deliver (on_message env c) ms (on_open env c (set_login c false d))))
          (sym same)
          (deliver-Untouched ms _ g
            (on_open-Untouched (e ∙ boot-boot_handlers env off b.none_yet b.loaded b.started))))
