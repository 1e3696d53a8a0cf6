-- ===== src/WebSocket/Connection.antt =====
-- `ws_establishconnection`: the thread of one connection, from the state OPEN to the end of its
-- client. `on_message` is `ws_onmessage` for the client, over a state `S` of the application.
pub mod Ends
pub mod Evicted
pub mod Delivery
use basic_setup.Prelude.{
  ℕ, zero, suc, ◌+◌, ◌≡◌, Bool, true, false, not, ◌&&◌, ◌||◌, Option, none, some, List, [], ◌∷◌,
  ◌++◌, take, ◌==◌, if◌then◌else◌,
}
use basic_setup.Device.{Effect, ws_sendframe}
use basic_setup.Device.Op
use basic_setup.WebSocket.Reader.{Reader, unread}
use basic_setup.WebSocket.Control.{do_close}
use basic_setup.WebSocket.NextFrame.{
  Peer, Wfd, Outcome, message, close, error_end, hang_up, overrun, next_frame,
}
use basic_setup.WebSocket.Clients.{
  Slot, Table, ClientState, ws_connecting, ws_open, ws_closing, ws_closed, ws_unused, slot_at,
  put_slot, set_client_state, get_client_state, close_client,
}

-- `wfd.frame_type == type`.
unfoldable pub has_type : ℕ → Option ℕ → Bool
has_type type none = false
has_type type (some t) = t == type

-- How the loop over the messages ends: at a CLOSE frame, because `next_frame` gave -1, or with a
-- write outside of a buffer.
pub data LoopEnd : Type 0 where
  at_close at_error at_overrun : LoopEnd

-- `break` at a CLOSE frame, or the next round.
abbrev pub go_on :
    {S : Type 0} → Option S → Wfd → S → (S → Option LoopEnd × Wfd × S) → Option LoopEnd × Wfd × S
go_on none w s rest = (some at_close, w, s)
go_on (some s') w s rest = rest s'

module _ {S : Type 0} (on_message : List ℕ → ℕ → S → S) where
  -- What is done with what `next_frame` left; `none` leaves the loop. The message is as long as
  -- `frame_size` says.
  unfoldable pub event : Wfd → S → Option S
  unfolding has_type
  event w s =
      let text = take w.frame_size w.msg_data in
      if has_type Op.txt w.frame_type && not w.reader.error
      then some (on_message text Op.txt s)
      else (if has_type Op.bin w.frame_type && not w.reader.error
          then some (on_message text Op.bin s)
          else (if has_type Op.clse w.frame_type && not w.reader.error then none else some s))

  -- A round of the loop behind `next_frame`; `rest` is what the loop gives from a state on.
  unfoldable pub round :
      Option Outcome → Wfd → S → (S → Option LoopEnd × Wfd × S) → Option LoopEnd × Wfd × S
  round none w s rest = (none, w, s)
  round (some message) w s rest = go_on (event w s) w s rest
  round (some close) w s rest = go_on (event w s) w s rest
  round (some error_end) w s rest = (some at_error, w, s)
  round (some hang_up) w s rest = (some at_error, w, s)
  round (some overrun) w s rest = (some at_overrun, w, s)

  -- The loop.
  unfoldable pub message_loop : Peer → ℕ → Wfd → S → Option LoopEnd × Wfd × S
  unfolding round
  message_loop p zero w s = (none, w, s)
  message_loop p (suc fuel) w s =
      let (o, w') = next_frame p w in round o w' s (message_loop p fuel w')

-- `client->is_login = false` and the state OPEN.
unfoldable pub begin : ℕ → Table → Table
unfolding slot_at put_slot set_client_state
begin i t = elim (slot_at t.slots i) [
  | none ↦ t
  | some s ↦
      set_client_state i ws_open
        (record t { slots = put_slot t.slots i (record s { is_login = false }) })
]

abbrev pub is_closing : Option ClientState → Bool
is_closing (some ws_closing) = true
is_closing _ = false

abbrev pub is_closed : Option ClientState → Bool
is_closed (some ws_closed) = true
is_closed _ = false

-- At a CLOSE frame: the answer, unless the state is CLOSING.
unfoldable pub answer_close : ℕ → Wfd → Table → Table × List Effect
unfolding get_client_state set_client_state do_close
answer_close i w t = if is_closing (get_client_state i t) then (t, []) else (
  set_client_state i ws_closing t,
  ws_sendframe (some i) (do_close none w.frame_size w.msg_ctrl) Op.clse ∷ [],
)

-- Behind the loop, when the thread of the time-out has ended.
unfoldable pub end_connection : ℕ → Table → Table
unfolding get_client_state close_client
end_connection i t = if is_closed (get_client_state i t) then t else close_client i t

-- Behind the loop; a crash leaves the table as it is.
unfoldable pub leave : Option LoopEnd → ℕ → Wfd → Table → Table × List Effect
unfolding answer_close end_connection
leave (some at_close) i w t =
    let (answered, out) = answer_close i w t in (end_connection i answered, out)
leave (some at_error) i w t = (end_connection i t, [])
leave (some at_overrun) i w t = (t, [])
leave none i w t = (t, [])

-- The whole thread, with what `ws_onopen` does, for a table that no other thread changes. `w` is
-- `wfd`, whose reader holds what is to come.
unfoldable pub ws_establishconnection :
    {S : Type 0}
    → Peer
    → (S → S)
    → (List ℕ → ℕ → S → S)
    → ℕ
    → Wfd
    → Table
    → S
    → Option LoopEnd × (Table × List Effect) × S
unfolding message_loop begin leave
ws_establishconnection p on_open on_message i w t s =
    let (how, w', s') = message_loop on_message p (suc (unread w.reader)) w (on_open s) in
    (how, leave how i w' (begin i t), s')
