-- ===== src/Session.antt =====
-- The firmware behind its connections: the threads of components/web/src/web-socket.c that call the
-- handlers of main/config.c and main/actuator.c through web-socket-handler.c.
pub mod Keeps
pub mod Relays
pub mod Refused
pub mod Upgrade
use basic_setup.Prelude.{ℕ, false, Option, List, [], ◌∷◌, ◌++◌}
use basic_setup.Device.{Env, Effect}
use basic_setup.Firmware.{Device, set_login, on_open, on_message}
use basic_setup.WebSocket.NextFrame.{Peer, Wfd}
use basic_setup.WebSocket.Clients.{Table}
use basic_setup.WebSocket.Connection.{LoopEnd, ws_establishconnection}

-- A connection: its slot, what its thread sees of the others, and what its client sends.
pub record Attempt : Type 0 where
  pub slot : ℕ
  pub peer : Peer
  pub wfd : Wfd

module _ {N : Type 0} (env : Env N) where
  -- The thread of a connection over the device; `client->is_login = false` comes first.
  unfoldable pub connect :
      Attempt → Table → Device N → Option LoopEnd × (Table × List Effect) × Device N
  connect a t d =
      ws_establishconnection a.peer (on_open env a.slot) (on_message env a.slot) a.slot a.wfd t
        (set_login a.slot false d)

  -- Connections, one after the other.
  unfoldable pub connect_all : List Attempt → Table → Device N → Device N
  unfolding connect
  connect_all [] t d = d
  connect_all (a ∷ rest) t d = let (how, (t', out), d') = connect a t d in connect_all rest t' d'
