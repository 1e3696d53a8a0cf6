-- ===== src/Tests/Devices.antt =====
-- The theorems on closing and pinging, on the end of an evicted client, and on the console.
use basic_setup.Prelude.{
  Option, none, ℕ, ◌≡◌, ◌≤◌, ◌+◌, ◌*◌, ◌++◌, refl, true, none, some, List, [], ◌∷◌, arith,
}
use basic_setup.Device.{ws_sendframe}
use basic_setup.Device.Op
use basic_setup.Tests.Web.{slot, table}
use basic_setup.WebSocket.Control.{clse_proterr, do_close}
use basic_setup.WebSocket.Control.Close.{Answers, code_of, do_close-Sendable}
use basic_setup.WebSocket.Clients.{
  ClientState, ws_closing, get_client_state, long_max, slot_at, ws_accept,
}
use basic_setup.WebSocket.Clients.Accept.{sock_of}
use basic_setup.WebSocket.Clients.Oldest.{AllTaken, least, seq_at}
use basic_setup.WebSocket.Connection.{end_connection}
use basic_setup.WebSocket.Connection.Evicted.{end_connection-ws_accept}
use basic_setup.WebSocket.Ping.{Behind, pings, IsFree, ws_ping-IsFree}
use basic_setup.WebSocket.Timeout.{await_close, close_timeout, ws_close_client}
use basic_setup.WebSocket.Timeout.Expiry.{RunsOut, ws_close_client-IsFree}

do_close-Sendable_example :
    let msg : List ℕ = 3 ∷ 236 ∷ 0 ∷ [] in
    (do_close none 0 msg ≡ [])
    × (code_of (do_close none 1 msg) ≡ clse_proterr)
    × Answers (3 * 256 + 236) (3 ∷ 236 ∷ []) (do_close none 2 msg)
do_close-Sendable_example = do_close-Sendable 3 236 (0 ∷ []) (omega arith) (omega arith)

-- The first client of the table.
first_client-Behind : Behind 0 3 0 table
first_client-Behind = record {
  slot = slot 3 8;
  at = unfold slot_at in refl;
  taken = refl;
  usable = refl;
  gap_is = refl;
}

ws_ping-IsFree_example :
    ((k : ℕ) → k ≤ 2 → Behind 0 3 k (pings k 0 2 table)) × IsFree 0 (pings 3 0 2 table)
ws_ping-IsFree_example = ws_ping-IsFree 0 3 2 table (omega arith) first_client-Behind

-- A wait that is woken once and then runs out of time.
abbrev rounds : List (ClientState × Option ClientState)
rounds = (ws_closing, none) ∷ (ws_closing, some ws_closing) ∷ []

rounds-RunsOut : RunsOut rounds
rounds-RunsOut = ((λ e. cc), ((λ e. cc), (λ e. cc)))

ws_close_client-IsFree_example :
    let r = ws_close_client true true 0 table in
    (r.0 ≡ true)
    × (r.2 ≡ ws_sendframe (some 0) (3 ∷ 232 ∷ []) Op.clse ∷ [])
    × (get_client_state 0 r.1 ≡ some ws_closing)
    × ((state : ClientState) × (await_close rounds ≡ some state)
        × IsFree 0 (close_timeout 0 state r.1)
        × ((close_timeout 0 state r.1).closed ≡ [] ++ (3 ∷ [])))
ws_close_client-IsFree_example =
    ws_close_client-IsFree 0 3 table rounds (slot 3 8, unfold slot_at in refl, refl, refl)
      rounds-RunsOut

end_connection-ws_accept_example :
    let t' = (ws_accept true true true 9 table).1 in
    (k : ℕ) × (old : ℕ) × (seq_at table.slots k ≡ least table.slots long_max)
    × (sock_of (slot_at table.slots k) ≡ some old)
    × (t'.closed ≡ table.closed ++ (old ∷ []))
    × (sock_of (slot_at t'.slots k) ≡ some 9)
    × (sock_of (slot_at (end_connection k t').slots k) ≡ none)
    × ((end_connection k t').closed ≡ table.closed ++ (old ∷ 9 ∷ []))
end_connection-ws_accept_example =
    end_connection-ws_accept 9 table (unfold AllTaken in ((λ e. cc), ((λ e. cc), ((λ e. cc), tt))))
      (unfold least in omega arith)
