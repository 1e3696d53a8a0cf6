-- ===== src/Tests/Web.antt =====
-- The theorems on HTTP requests, on the start of the server and on the client table.
use basic_setup.Prelude.{
  Option, true, ℕ, ◌+◌, ◌<◌, ◌≡◌, refl, false, none, some, List, [], ◌∷◌, ◌++◌, arith,
}
use basic_setup.Config.{codes}
use basic_setup.Storage.{bytes_equal}
use basic_setup.Http.{WebFile, accepted, crlf, name_matches, serve, http_handler}
use basic_setup.Http.Listen.{Server, Calls, http_start, works, Attempt, http_start-Attempt}
use basic_setup.Http.Thread.{Visitor}
use basic_setup.Http.Requests.{IsPath, NoMatch, http_handler-file}
use basic_setup.WebSocket.Clients.{Slot, Table, ws_open, long_max, choose_slot, close_client}
use basic_setup.WebSocket.Clients.{ws_accept, ws_closed}
use basic_setup.WebSocket.Clients.Accept.{Gives, ws_accept-Gives}
use basic_setup.WebSocket.Clients.Oldest.{AllTaken, least, seq_at, choose_slot-least}

abbrev file : List ℕ → WebFile
file name = record { name = name; type = codes "text/css"; gzip = false; body = 1 ∷ 2 ∷ [] }

abbrev files : List WebFile
files = file (codes "a.bc") ∷ file (codes "a.b") ∷ file (codes "index") ∷ []

abbrev print_int : ℕ → List ℕ
print_int n = (48 + n) ∷ []

abbrev request : List ℕ → List ℕ
request path = codes "GET /" ++ (path ++ (32 ∷ codes "HTTP/1.1" ++ (crlf ++ crlf)))

a_b-IsPath : IsPath (codes "a.b")
unfolding IsPath
a_b-IsPath = (
  λ e. absurd (omega arith),
  λ e. absurd (omega arith),
  (
    λ e. absurd (omega arith),
    λ e. absurd (omega arith),
    (λ e. absurd (omega arith), λ e. absurd (omega arith), tt),
  ),
)

http_handler-file_example :
    http_handler print_int files
      (file (codes "index"))
      18
      (λ r. accepted)
      (some (request (codes "a.b")))
    ≡ serve print_int (file (codes "a.b"))
unfolding bytes_equal
http_handler-file_example =
    http_handler-file print_int files (file (codes "index")) 18 (λ r. accepted) (codes "a.b")
      (codes "HTTP/1.1" ++ (crlf ++ crlf)) (file (codes "a.b")) (file (codes "a.bc") ∷ [])
      (file (codes "index") ∷ []) (omega arith) refl a_b-IsPath (omega arith) (omega arith) refl
      refl refl (unfold NoMatch name_matches in (refl, tt))

abbrev pub slot : ℕ → ℕ → Slot
slot fd seq = record {
  client_sock = some fd;
  state = ws_open;
  close_thrd = false;
  is_login = false;
  last_pong_id = none;
  current_ping_id = none;
  conn_seq = seq;
}

abbrev pub table : Table
table = record { slots = slot 3 8 ∷ slot 4 6 ∷ slot 5 7 ∷ []; conn_seq = 8; closed = [] }

choose_slot-least_example :
    (k : ℕ) × (choose_slot table ≡ some (k, close_client k table))
    × (k < 3)
    × (seq_at table.slots k ≡ least table.slots long_max)
choose_slot-least_example =
    choose_slot-least table (unfold AllTaken in ((λ e. cc), ((λ e. cc), ((λ e. cc), tt))))
      (unfold least in omega arith)

-- The mutex of a slot cannot be made: the slot is kept.
ws_accept-Gives_example :
    Gives 1 9 true (close_client 1 table) (ws_accept false true true 9 table).1
unfolding choose_slot close_client
ws_accept-Gives_example =
    ws_accept-Gives false true true 9 1
      (record (slot 4 6) { state = ws_closed; client_sock = none }) table (close_client 1 table)
      refl refl

-- A server that has not been started, and calls of which `listen` fails.
abbrev server : Server
server = record { started = false; fd = none; mutexes = 0; sockets = []; tasks = 0 }

abbrev calls : Calls
calls = record { mutex = true; socket = some 6; bind_ok = true; listen_ok = false; task_ok = true }

http_start-Attempt_example : Attempt (works calls) calls server (http_start calls server)
http_start-Attempt_example = http_start-Attempt calls server refl

-- A request for a file, one for a WebSocket, and one without a first byte.
abbrev visitors : List (Option Visitor)
visitors =
    some
      (record { client_fd = 7; request = some (request (codes "a.b")); ws_accept = λ r. accepted })
    ∷ some
        (record { client_fd = 8; request = some (request (codes "ws")); ws_accept = λ r. accepted })
    ∷ some (record { client_fd = 9; request = none; ws_accept = λ r. accepted })
    ∷ none
    ∷ []
