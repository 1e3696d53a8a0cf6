-- ===== src/WebSocket/Threads.antt =====
-- The threads of components/web/src/web-socket.c over one client table: the HTTP task that accepts,
-- the threads of the connections and of their time-outs, and the callers of `ws_ping` and
-- `ws_close_client`. Each step is one whole operation on the table, and the steps come
-- in any order; what happens when two calls of `close_client` overlap is in Overlap.
pub mod Slots
pub mod Operations
pub mod Taking
pub mod Conserved
pub mod Overlap
use basic_setup.Prelude.{ℕ, Bool, Option, List, [], ◌∷◌}
use basic_setup.Http.{Accepted, accepted, too_many_client, refused}
use basic_setup.WebSocket.NextFrame.{Wfd}
use basic_setup.WebSocket.Clients.{
  Table, ClientState, start_close_timeout, close_client, ws_accept, web_socket_main,
}
use basic_setup.WebSocket.Connection.{begin, answer_close, end_connection}
use basic_setup.WebSocket.Timeout.{close_timeout, ws_close_client}
use basic_setup.WebSocket.Ping.{ws_ping}

-- The table, and the sockets that `ws_accept` took over, the last one first.
pub record System : Type 0 where
  pub table : Table
  pub given : List ℕ

-- With too many clients `http_handler` keeps the socket.
abbrev pub took : Accepted → ℕ → List ℕ → List ℕ
took accepted sock given = sock ∷ given
took too_many_client sock given = given
took refused sock given = sock ∷ given

abbrev pub accept_step : Bool → Bool → Bool → ℕ → System → System
accept_step locks_ok handshake_ok thread_ok sock s =
    let (result, t) = ws_accept locks_ok handshake_ok thread_ok sock s.table in
    record { table = t; given = took result sock s.given }

-- One operation. `closes` is `close_client` by a thread that has looked at the state before other
-- threads changed it, and so is a `times_out` with a state of the past.
pub data Step (s : System) : System → Type 0 where
  accepts :
      (locks_ok handshake_ok thread_ok : Bool) (sock : ℕ)
      → Step s (accept_step locks_ok handshake_ok thread_ok sock s)
  begins : (i : ℕ) → Step s (record s { table = begin i s.table })
  answers : (i : ℕ) (w : Wfd) → Step s (record s { table = (answer_close i w s.table).0 })
  leaves : (i : ℕ) → Step s (record s { table = end_connection i s.table })
  asks :
      (send_ok thread_ok : Bool) (i : ℕ)
      → Step s (record s { table = (ws_close_client send_ok thread_ok i s.table).1 })
  times_out :
      (i : ℕ) (state : ClientState) → Step s (record s { table = close_timeout i state s.table })
  pings :
      (client : Option ℕ) (threshold : ℕ)
      → Step s (record s { table = (ws_ping client threshold s.table).0 })
  closes : (i : ℕ) → Step s (record s { table = close_client i s.table })

-- From `web_socket_main` on, if each operation ends before the next one begins. The mutexes of the
-- source do not force that: see Overlap.
pub data Serial : System → Type 0 where
  starts : Serial (record { table = web_socket_main; given = [] })
  next : {s s' : System} → Serial s → Step s s' → Serial s'
