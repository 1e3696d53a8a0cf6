-- ===== src/WebSocket/Threads/Conserved.antt =====
-- As long as the operations do not overlap, no order of them loses a descriptor or closes one twice.
use basic_setup.Prelude.{ℕ, ◌+◌, ◌≡◌, refl, ◌∙◌, length, arith}
use basic_setup.WebSocket.Clients.{Table, max_clients, web_socket_main}
use basic_setup.WebSocket.Threads.{
  System, Step, accepts, begins, answers, leaves, asks, times_out, pings, closes, Serial, starts,
  next,
}
use basic_setup.WebSocket.Threads.Slots.{tally, held, AllCoherent, Keeps}
use basic_setup.WebSocket.Threads.Operations.{
  close_client-Keeps, begin-Keeps, answer_close-Keeps, end_connection-Keeps, close_timeout-Keeps,
  ws_close_client-Keeps, ws_ping-Keeps,
}
use basic_setup.WebSocket.Threads.Taking.{ws_accept-Takes}

-- Five slots; a slot has a socket exactly if its state is CONNECTING, OPEN or CLOSING; and a
-- descriptor was taken over as often as it stands in a slot or was closed.
pub record IsValid (s : System) : Type 0 where
  pub count : length s.table.slots ≡ max_clients
  pub coherent : AllCoherent s.table.slots
  pub conserved : (fd : ℕ) → held fd s.table.slots + tally fd s.table.closed ≡ tally fd s.given

Keeps-IsValid :
    (s : System) (t : Table) → Keeps s.table t → IsValid s → IsValid (record s { table = t })
Keeps-IsValid s t k v = record {
  count = k.count ∙ v.count;
  coherent = k.coherent v.coherent;
  conserved = λ fd. k.balanced fd ∙ v.conserved fd;
}

Step-IsValid : {s s' : System} → Step s s' → IsValid s → IsValid s'
Step-IsValid {s} (accepts locks_ok handshake_ok thread_ok sock) v =
    let a = ws_accept-Takes locks_ok handshake_ok thread_ok sock s.given s.table in
    record {
      count = a.count ∙ v.count;
      coherent = a.coherent v.coherent;
      conserved = λ fd. a.balanced fd (v.conserved fd);
    }
Step-IsValid {s} (begins i) v = Keeps-IsValid s _ (begin-Keeps i s.table) v
Step-IsValid {s} (answers i w) v = Keeps-IsValid s _ (answer_close-Keeps i w s.table) v
Step-IsValid {s} (leaves i) v = Keeps-IsValid s _ (end_connection-Keeps i s.table) v
Step-IsValid {s} (asks send_ok thread_ok i) v =
    Keeps-IsValid s _ (ws_close_client-Keeps send_ok thread_ok i s.table) v
Step-IsValid {s} (times_out i state) v = Keeps-IsValid s _ (close_timeout-Keeps i state s.table) v
Step-IsValid {s} (pings client threshold) v =
    Keeps-IsValid s _ (ws_ping-Keeps client threshold s.table) v
Step-IsValid {s} (closes i) v = Keeps-IsValid s _ (close_client-Keeps i s.table) v

-- In whatever order the threads run their operations, from `web_socket_main` on, if each operation
-- ends before the next one begins, there are five slots, a slot has a socket exactly if its state is
-- CONNECTING, OPEN or CLOSING, and each socket that `ws_accept` took over is still in a slot or was
-- closed, once for each time it was taken over: none is lost and none is closed twice.
pub Serial-IsValid : {s : System} → Serial s → IsValid s
unfolding web_socket_main
Serial-IsValid starts = record {
  count = refl;
  coherent = (tt, (tt, (tt, (tt, (tt, tt)))));
  conserved = λ fd. omega arith;
}
Serial-IsValid (next r st) = Step-IsValid st (Serial-IsValid r)
