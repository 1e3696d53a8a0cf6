-- ===== src/Tests/Composition.antt =====
-- The theorems on the firmware behind its connections, on interleaved threads, on a broadcast and on
-- the size of a message.
use basic_setup.Prelude.{
  ℕ, ◌≤◌, ◌≡◌, refl, true, false, Option, none, some, List, [], ◌∷◌, length, replicate, inr, arith,
}
use basic_setup.Device.Op
use basic_setup.Device.MsgId
use basic_setup.Firmware.{boot}
use basic_setup.Firmware.ShiftRegister.{Register}
use basic_setup.Firmware.Relays.{RelaysShow}
use basic_setup.Session.{Attempt, connect, connect_all}
use basic_setup.Session.Relays.{connect_all-RelaysShow}
use basic_setup.Session.Refused.{Untouched, connect-Untouched}
use basic_setup.WebSocket.Frame.{frame}
use basic_setup.WebSocket.ReadFrame.{max_frame_length}
use basic_setup.WebSocket.ReadFrame.Payload.{unmask}
use basic_setup.WebSocket.NextFrame.{next_frame}
use basic_setup.WebSocket.NextFrame.Section.{Section}
use basic_setup.WebSocket.NextFrame.Message.{next_frame-Received}
use basic_setup.WebSocket.NextFrame.Bounds.{next_frame-bounds}
use basic_setup.WebSocket.Clients.{web_socket_main, close_client}
use basic_setup.WebSocket.Connection.{end_connection}
use basic_setup.WebSocket.Connection.Delivery.{Message, AllMessages, stream}
use basic_setup.WebSocket.Sending.{Partly, open_from}
use basic_setup.WebSocket.Sendframe.{
  Sends, Delivered, all_bytes, ws_sendframe, ws_sendframe-Delivered,
}
use basic_setup.WebSocket.Threads.{System, accept_step, starts, next, accepts, closes, leaves}
use basic_setup.WebSocket.Threads.Overlap.{
  shut_socket, clear_slot, uninterrupted, close_client-overlap,
}
use basic_setup.WebSocket.Clients.{slot_at, fill_slot}
use basic_setup.WebSocket.Clients.Accept.{sock_of}
use basic_setup.WebSocket.Threads.Conserved.{IsValid, Serial-IsValid}
use basic_setup.Tests.Sample.{device-Starts, booted-handlers, env, device, booted}
use basic_setup.Tests.Session.{
  peer, wfd, table, slot-Taken, arrives, bytes, first, second, first-IsSection, second-IsSection,
}

-- A register that was powered up with some levels.
abbrev pub register : Register
register = record {
  clock_level = 1;
  ds_level = 0;
  stcp_level = 1;
  stages = 1 ∷ 0 ∷ 1 ∷ [];
  outputs = replicate 8 0;
}

-- The code of a restart, masked with zeros, in one frame.
abbrev restart : Section
restart = record {
  pings = [];
  part = record { masks = 0 ∷ 0 ∷ 0 ∷ 0 ∷ []; payload = MsgId.restart ∷ [] };
}

abbrev restarts : List Message
restarts = record { type = Op.bin; first = restart; others = [] } ∷ []

restarts-AllMessages : AllMessages restarts
restarts-AllMessages = (
  record {
    type_ok = inr refl;
    first_ok = (
      tt,
      record {
        four = refl;
        bytes = (omega arith, (omega arith, (omega arith, (omega arith, tt))));
        short = omega arith;
      },
    );
    others_ok = tt;
    fits = unfold unmask in omega arith;
  },
  tt,
)

abbrev attempt : List ℕ → Attempt
attempt sent = record { slot = 0; peer = peer false; wfd = wfd sent }

connect_all-RelaysShow_example : RelaysShow register (
    connect_all env
      (attempt (stream restarts []) ∷ attempt bytes ∷ [])
      table
      (boot env (λ i. true) device))
connect_all-RelaysShow_example =
    connect_all-RelaysShow env register (λ i. true) device
      (attempt (stream restarts []) ∷ attempt bytes ∷ []) table

connect-Untouched_example :
    Untouched 0 booted (connect env (attempt (stream restarts [])) table booted).2
unfolding unmask
connect-Untouched_example =
    connect-Untouched env 0 booted device restarts 7 (attempt (stream restarts [])) table refl
      device-Starts booted-handlers restarts-AllMessages
      (
        (
          MsgId.restart,
          [],
          refl,
          (λ e. absurd (omega arith)),
          (λ e. absurd (omega arith)),
          (λ e. absurd (omega arith)),
        ),
        tt,
      )
      (λ n. refl) (λ n. refl) (λ n. refl) refl (arrives _ _) slot-Taken

-- A socket is taken over, the server closes the client, the next socket takes the slot, and the
-- thread of the first one, which still runs, ends.
abbrev one_client : System
one_client = accept_step true true true 7 (record { table = web_socket_main; given = [] })

abbrev closed_client : System
closed_client = record one_client { table = close_client 0 one_client.table }

abbrev two_clients : System
two_clients = accept_step true true true 8 closed_client

Serial-IsValid_example : IsValid (record two_clients { table = end_connection 0 two_clients.table })
Serial-IsValid_example = Serial-IsValid (
    next
      (next (next (next starts (accepts true true true 7)) (closes 0)) (accepts true true true 8))
      (leaves 0))

close_client-overlap_example :
    let twice = shut_socket 0 (shut_socket 0 table).1 in
    let freed = clear_slot 0 twice.1 in
    let lost = clear_slot 0 (fill_slot 0 9 freed) in
    (uninterrupted 0 table ≡ close_client 0 table)
    × (twice.0 ≡ true)
    × (freed.closed ≡ 7 ∷ 7 ∷ [])
    × (sock_of (slot_at (fill_slot 0 9 freed).slots 0) ≡ some 9)
    × (sock_of (slot_at lost.slots 0) ≡ none)
    × (lost.closed ≡ 7 ∷ 7 ∷ [])
close_client-overlap_example =
    close_client-overlap 0 7 9 table (slot-Taken.0, slot-Taken.1, slot-Taken.2)

next_frame-bounds_example :
    ((next_frame (peer false) (wfd bytes)).1.frame_size ≤ max_frame_length)
    × ((next_frame (peer false) (wfd bytes)).1.frame_size
        ≤ length (next_frame (peer false) (wfd bytes)).1.msg_data)
next_frame-bounds_example =
    next_frame-bounds (peer false) (wfd bytes)
      (next_frame-Received (peer false) (λ n. refl) (λ n. refl) (λ n. refl) Op.bin [] first
        (second ∷ []) (wfd bytes) (inr refl) first-IsSection (second-IsSection, tt)
        (unfold unmask in omega arith) refl (arrives _ _)).outcome

-- Each call of `send` takes one byte of the three.
abbrev takes : ℕ → List (Option ℕ)
takes i = some 1 ∷ some 1 ∷ some 1 ∷ []

takes-Sends : Sends takes (frame Op.txt (104 ∷ []))
takes-Sends = record {
  partly = λ i.
      unfold Partly in
      unfold frame in
      (omega arith, omega arith, (omega arith, omega arith, (omega arith, omega arith, tt)));
  enough = λ i. unfold frame in omega arith;
}

ws_sendframe-Delivered_example :
    Delivered takes Op.txt
      (104 ∷ [])
      (open_from 0 table.slots)
      0
      (ws_sendframe true takes none (104 ∷ []) Op.txt table)
ws_sendframe-Delivered_example =
    ws_sendframe-Delivered takes Op.txt (104 ∷ []) table (omega arith) (unfold frame in omega arith)
      (unfold all_bytes in unfold open_from in unfold frame in omega arith) takes-Sends
