-- ===== src/Session/Relays.antt =====
-- The relays, from the bytes on the wire.
use basic_setup.Prelude.{ℕ, Bool, List, [], ◌∷◌, false}
use basic_setup.Device.{Env}
use basic_setup.Firmware.{Device, set_login, boot, call, emit, on_message, on_open}
use basic_setup.Firmware.ShiftRegister.{Register}
use basic_setup.Firmware.Relays.{RelaysShow, emit-Shows, call-Shows, on_message-Shows, boot-Shows}
use basic_setup.Registry.Auth.{ws_onopen-P}
use basic_setup.WebSocket.Clients.{Table}
use basic_setup.Session.{Attempt, connect, connect_all}
use basic_setup.Session.Keeps.{ws_establishconnection-P}

module _ {N : Type 0} (env : Env N) (r : Register) where
  on_open-Shows : (client : ℕ) (d : Device N) → RelaysShow r d → RelaysShow r (on_open env client d)
  unfolding on_open
  on_open-Shows client d s =
      ws_onopen-P (call env) (λ d client. d.is_login client) emit (RelaysShow r) (call-Shows env r)
        (emit-Shows env r) d.handlers client d s

  connect_all-Shows :
      (attempts : List Attempt) (t : Table) (d : Device N)
      → RelaysShow r d
      → RelaysShow r (connect_all env attempts t d)
  unfolding connect_all connect
  connect_all-Shows [] t d s = s
  connect_all-Shows (a ∷ rest) t d s = connect_all-Shows rest _ _ (
      ws_establishconnection-P (RelaysShow r) (on_message env a.slot)
        (λ text type d'. on_message-Shows env r a.slot text type d') a.peer (on_open env a.slot)
        a.slot a.wfd t (set_login a.slot false d) (on_open-Shows a.slot _ s))

  -- After a boot and any connections, one after the other, whatever bytes their clients send and in
  -- whatever pieces they arrive, the outputs of the shift register, in whatever state it was powered
  -- up, show `switch_values`: output i is low exactly where bit i is 1.
  pub connect_all-RelaysShow :
      (alloc : ℕ → Bool) (d : Device N) (attempts : List Attempt) (t : Table)
      → RelaysShow r (connect_all env attempts t (boot env alloc d))
  connect_all-RelaysShow alloc d attempts t =
      connect_all-Shows attempts t (boot env alloc d) (boot-Shows env r alloc d)
