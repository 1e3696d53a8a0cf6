-- ===== src/Tests/Session.antt =====
-- The theorems on messages and connections, for a client that sends a message in two fragments with
-- a PING before the second.
use basic_setup.Prelude.{
  ℕ, ◌≡◌, ◌≢◌, ◌<◌, ◌++◌, refl, Bool, true, false, none, some, List, [], ◌∷◌, append-nil, length,
  replicate, subst, inr, ◌⊎◌, arith,
}
use basic_setup.Prelude.Int.{pos}
use basic_setup.Tests.Frames.{masks, reader, reader-Ahead}
use basic_setup.Device.Op
use basic_setup.WebSocket.Reader.{Ends, Ahead}
use basic_setup.WebSocket.ReadFrame.Payload.{unmask}
use basic_setup.WebSocket.NextFrame.{overrun, Peer, Wfd, Outcome, message, next_frame}
use basic_setup.WebSocket.NextFrame.Fragment.{Frame, IsFrame}
use basic_setup.WebSocket.NextFrame.Section.{Section, IsSection, encode, text, asked}
use basic_setup.WebSocket.NextFrame.Message.{Received, next_frame-Received}
use basic_setup.WebSocket.NextFrame.Progress.{next_frame-returns}
use basic_setup.WebSocket.NextFrame.Outcomes.{next_frame-closing}
use basic_setup.WebSocket.Clients.{Slot, Table, ws_open, slot_at}
use basic_setup.WebSocket.Clients.Accept.{sock_of}
use basic_setup.WebSocket.Connection.{at_close, at_error, at_overrun, ws_establishconnection}
use basic_setup.WebSocket.Connection.Ends.{Taken, ws_establishconnection-closes}
use basic_setup.WebSocket.Connection.Delivery.{
  Message, IsMessage, stream, deliver, ws_establishconnection-deliver,
}

abbrev pub peer : Bool → Peer
peer closing = record {
  closing = λ n. closing;
  current_ping_id = λ n. pos 0;
  pong_sent = λ n. true;
  realloc_ok = λ n. true;
}

abbrev pub frame : List ℕ → Frame
frame payload = record { masks = masks; payload = payload }

pub frame-IsFrame :
    (size : ℕ) (payload : List ℕ) → length payload < size → IsFrame size (frame payload)
frame-IsFrame size payload h = record {
  four = refl;
  bytes = (omega arith, (omega arith, (omega arith, (omega arith, tt))));
  short = h;
}

abbrev pub first : Section
first = record { pings = []; part = frame (9 ∷ 8 ∷ []) }

abbrev pub second : Section
second = record { pings = frame (7 ∷ []) ∷ []; part = frame (6 ∷ 5 ∷ []) }

pub first-IsSection : IsSection first
first-IsSection = (tt, frame-IsFrame 65536 (9 ∷ 8 ∷ []) (omega arith))

pub second-IsSection : IsSection second
second-IsSection =
    ((frame-IsFrame 125 (7 ∷ []) (omega arith), tt), frame-IsFrame 65536 (6 ∷ 5 ∷ []) (omega arith))

abbrev pub wfd : List ℕ → Wfd
wfd bytes = record {
  reader = reader (bytes ∷ []);
  msg_ctrl = replicate 125 0;
  msg_data = [];
  frame_size = 0;
  msg_idx = 0;
  frame_type = none;
  last_pong_id = pos 0;
  pongs = [];
  met = 0;
}

pub arrives : (b : ℕ) (bs : List ℕ) → Ahead (b ∷ bs) (reader ((b ∷ bs) ∷ []))
arrives b bs =
    subst (λ xs. Ahead xs (reader ((b ∷ bs) ∷ []))) (append-nil (b ∷ bs)) (reader-Ahead b bs)

abbrev pub bytes : List ℕ
bytes = encode Op.bin first (second ∷ []) []

next_frame-Received_example :
    Received Op.bin
      (text first (second ∷ []))
      ([] ++ asked first (second ∷ []))
      []
      (next_frame (peer false) (wfd bytes))
next_frame-Received_example =
    next_frame-Received (peer false) (λ n. refl) (λ n. refl) (λ n. refl) Op.bin [] first
      (second ∷ []) (wfd bytes) (inr refl) first-IsSection (second-IsSection, tt)
      (unfold unmask in omega arith) refl (arrives _ _)

-- The same bytes, and the end of the stream.
abbrev ended : Wfd
ended = record (wfd bytes) { reader = reader (bytes ∷ [] ∷ []) }

next_frame-returns_example :
    ((next_frame (peer true) ended).0 ≡ some overrun)
    ⊎ ((r : Outcome) × ((next_frame (peer true) ended).0 ≡ some r) × (r ≢ overrun))
next_frame-returns_example = next_frame-returns (peer true) ended (omega arith) (unfold Ends in tt)

next_frame-closing_example : (next_frame (peer true) (wfd bytes)).0 ≢ some message
next_frame-closing_example = next_frame-closing (peer true) (λ n. refl) (wfd bytes)

abbrev pub slot : Slot
slot = record {
  client_sock = some 7;
  state = ws_open;
  close_thrd = false;
  is_login = true;
  last_pong_id = none;
  current_ping_id = none;
  conn_seq = 1;
}

abbrev pub table : Table
table = record { slots = slot ∷ []; conn_seq = 1; closed = [] }

pub slot-Taken : Taken 0 7 table
slot-Taken = (slot, unfold slot_at in refl, refl, λ e. cc)

-- An application that keeps what it is called with.
abbrev keep : List ℕ → ℕ → List (List ℕ) → List (List ℕ)
keep msg type calls = (type ∷ msg) ∷ calls

abbrev sent_message : Message
sent_message = record { type = Op.bin; first = first; others = second ∷ [] }

sent_message-IsMessage : IsMessage sent_message
sent_message-IsMessage = record {
  type_ok = inr refl;
  first_ok = first-IsSection;
  others_ok = (second-IsSection, tt);
  fits = unfold unmask in omega arith;
}

abbrev pub sent : List Message
sent = sent_message ∷ []

ws_establishconnection-closes_example :
    let r = ws_establishconnection (peer true) (λ calls. calls) keep 0 ended table [] in
    (r.0 ≡ some at_overrun)
    ⊎ (((r.0 ≡ some at_close) ⊎ (r.0 ≡ some at_error))
        × (sock_of (slot_at r.1.0.slots 0) ≡ none)
        × (r.1.0.closed ≡ [] ++ (7 ∷ [])))
ws_establishconnection-closes_example =
    ws_establishconnection-closes (peer true) (λ calls. calls) keep 0 7 ended table [] (omega arith)
      (unfold Ends in tt) slot-Taken

ws_establishconnection-deliver_example :
    let w = wfd (stream sent []) in
    let r = ws_establishconnection (peer false) (λ calls. calls) keep 0 w table [] in
    (r.0 ≡ some at_error)
    × (r.2 ≡ deliver keep sent [])
    × (sock_of (slot_at r.1.0.slots 0) ≡ none)
    × (r.1.0.closed ≡ [] ++ (7 ∷ []))
ws_establishconnection-deliver_example =
    ws_establishconnection-deliver keep (peer false) (λ n. refl) (λ n. refl) (λ n. refl) sent
      (λ calls. calls) 0 7 (wfd (stream sent [])) table [] (sent_message-IsMessage, tt) refl
      (arrives _ _) slot-Taken
