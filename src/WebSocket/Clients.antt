-- ===== src/WebSocket/Clients.antt =====
-- The client table of components/web/src/web-socket.c: states, closing, and `ws_accept`. The mutexes
-- of a slot only order the accesses of threads, and one thread at a time is modelled.
pub mod Oldest
pub mod Accept
use basic_setup.Prelude.{
  ℕ, zero, suc, ◌+◌, ◌%◌, ◌^◌, Bool, true, false, not, ◌&&◌, ◌||◌, Option, none, some, List, [],
  ◌∷◌, ◌++◌, replicate, ltb, leb, ◌==◌, if◌then◌else◌,
}
use basic_setup.Http.{Accepted, accepted, too_many_client, refused}

abbrev pub max_clients : ℕ
max_clients = 5

-- WS_STATE_*, and the -1 that `web_socket_main` leaves.
pub data ClientState : Type 0 where
  ws_connecting ws_open ws_closing ws_closed ws_unused : ClientState

-- `struct ws_connection`; a socket or an id of -1 is `none`.
pub record Slot : Type 0 where
  pub client_sock : Option ℕ
  pub state : ClientState
  pub close_thrd : Bool
  pub is_login : Bool
  pub last_pong_id : Option ℕ
  pub current_ping_id : Option ℕ
  pub conn_seq : ℕ

-- `client_socks`, `conn_seq`, and the descriptors that were closed.
pub record Table : Type 0 where
  pub slots : List Slot
  pub conn_seq : ℕ
  pub closed : List ℕ

-- LONG_MAX of the chip.
abbrev pub long_max : ℕ
long_max = 2147483647

unfoldable pub slot_at : List Slot → ℕ → Option Slot
slot_at [] i = none
slot_at (s ∷ slots) zero = some s
slot_at (s ∷ slots) (suc i) = slot_at slots i

unfoldable pub put_slot : List Slot → ℕ → Slot → List Slot
put_slot [] i new = []
put_slot (s ∷ slots) zero new = new ∷ slots
put_slot (s ∷ slots) (suc i) new = s ∷ put_slot slots i new

-- The slot of a valid client: CLIENT_VALID.
unfoldable pub valid_slot : ℕ → Table → Option (Slot × ℕ)
unfolding slot_at
valid_slot i t = elim (slot_at t.slots i) [
  | none ↦ none
  | some s ↦ elim s.client_sock [ none ↦ none | some fd ↦ some (s, fd) ]
]

unfoldable pub get_client_state : ℕ → Table → Option ClientState
unfolding valid_slot
get_client_state i t = elim (valid_slot i t) [ none ↦ none | some r ↦ some r.0.state ]

unfoldable pub set_client_state : ℕ → ClientState → Table → Table
unfolding valid_slot put_slot
set_client_state i state t = elim (valid_slot i t) [
  | none ↦ t
  | some r ↦ record t { slots = put_slot t.slots i (record (r.0) { state = state }) }
]

unfoldable pub close_client : ℕ → Table → Table
unfolding valid_slot put_slot
close_client i t = elim (valid_slot i t) [
  | none ↦ t
  | some r ↦ record t {
    slots = put_slot t.slots i (record (r.0) { state = ws_closed; client_sock = none });
    closed = t.closed ++ (r.1 ∷ []);
  }
]

-- `start_close_timeout`; `thread_ok` is whether the thread of the time-out could be made.
unfoldable pub start_close_timeout : Bool → ℕ → Table → Table
unfolding valid_slot put_slot
start_close_timeout thread_ok i t = elim (valid_slot i t) [
  | none ↦ t
  | some r ↦ elim r.0.state [
    | ws_open ↦ record t {
      slots =
          put_slot t.slots i
            (record (r.0) { state = ws_closing; close_thrd = thread_ok || r.0.close_thrd });
    }
    | _ ↦ t
  ]
]

-- The search of `ws_accept` from slot `i`: the first free slot, and the oldest client before it.
unfoldable pub scan : ℕ → List Slot → ℕ → Option ℕ → Option ℕ × Option ℕ
scan i [] oldest_seq oldest = (none, oldest)
scan i (s ∷ slots) oldest_seq oldest =
    let older = scan (suc i) slots s.conn_seq (some i) in
    let younger = scan (suc i) slots oldest_seq oldest in
    elim s.client_sock [
      | none ↦ (some i, oldest)
      | some fd ↦ if ltb s.conn_seq oldest_seq then older else younger
    ]

-- The slot for a new client; the oldest client is closed if there is no free one.
unfoldable pub choose_slot : Table → Option (ℕ × Table)
unfolding scan close_client
choose_slot t =
    let (free, oldest) = scan 0 t.slots long_max none in
    elim free [
      | some i ↦ some (i, t)
      | none ↦ elim oldest [ none ↦ none | some i ↦ some (i, close_client i t) ]
    ]

-- The fields that `ws_accept` sets; `is_login` is left to the thread of the connection.
unfoldable pub fill_slot : ℕ → ℕ → Table → Table
unfolding slot_at put_slot
fill_slot i sock t = elim (slot_at t.slots i) [
  | none ↦ t
  | some s ↦
      let seq = (t.conn_seq + 1) % 2 ^ 32 in
      record t {
        conn_seq = seq;
        slots = put_slot t.slots i (record s {
          client_sock = some sock;
          state = ws_connecting;
          close_thrd = false;
          last_pong_id = none;
          current_ping_id = none;
          conn_seq = seq;
        });
      }
]

-- `ws_accept`. A lock that cannot be made leaves the slot taken; a failed handshake or thread closes
-- the client.
unfoldable pub ws_accept : Bool → Bool → Bool → ℕ → Table → Accepted × Table
unfolding choose_slot fill_slot
ws_accept locks_ok handshake_ok thread_ok sock t = elim (choose_slot t) [
  | none ↦ (too_many_client, t)
  | some r ↦
      let filled = fill_slot r.0 sock r.1 in
      if locks_ok
      then (if handshake_ok && thread_ok
          then (accepted, filled)
          else (refused, close_client r.0 filled))
      else (refused, filled)
]

-- `web_socket_main`: every byte of the slots is 0xff.
unfoldable pub web_socket_main : Table
web_socket_main = record {
  conn_seq = 0;
  closed = [];
  slots = replicate max_clients (record {
    client_sock = none;
    state = ws_unused;
    close_thrd = true;
    is_login = true;
    last_pong_id = none;
    current_ping_id = none;
    conn_seq = 4294967295;
  });
}
