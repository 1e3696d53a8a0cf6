-- ===== src/Session/Keeps.antt =====
-- What every message keeps, a connection keeps, whatever bytes its client sends.
use basic_setup.Prelude.{
  ℕ, zero, suc, Option, none, some, List, if_both, take, not, ◌&&◌, if◌then◌else◌,
}
use basic_setup.Device.Op
use basic_setup.WebSocket.Reader.{unread}
use basic_setup.WebSocket.NextFrame.{
  Peer, Wfd, Outcome, message, close, error_end, hang_up, overrun, next_frame,
}
use basic_setup.WebSocket.Clients.{Table}
use basic_setup.WebSocket.Connection.{
  LoopEnd, has_type, event, go_on, round, message_loop, ws_establishconnection,
}

module _ {S : Type 0} (P : S → Type 0) (on_message : List ℕ → ℕ → S → S)
    (keeps : (text : List ℕ) (type : ℕ) (s : S) → P s → P (on_message text type s)) where
  -- The state that an event leaves, if it leaves one.
  abbrev Left : Option S → Type 0
  Left none = Unit {0}
  Left (some s) = P s

  record LeftOf (o : Option S) : Type 0 where
    left : Left o

  event-Left : (w : Wfd) (s : S) → P s → LeftOf (event on_message w s)
  unfolding event
  event-Left w s h =
      let text = take w.frame_size w.msg_data in
      let is = λ (k : ℕ). has_type k w.frame_type && not w.reader.error in
      let close : Option S = if is Op.clse then none else some s in
      let binary : Option S = if is Op.bin then some (on_message text Op.bin s) else close in
      if_both LeftOf (is Op.txt) (some (on_message text Op.txt s)) binary
        (record { left = keeps text Op.txt s h })
        (if_both LeftOf (is Op.bin) (some (on_message text Op.bin s)) close
          (record { left = keeps text Op.bin s h })
          (if_both LeftOf (is Op.clse) none (some s) (record { left = tt }) (record { left = h })))

  go_on-P :
      (o : Option S) (w : Wfd) (s : S) (rest : S → Option LoopEnd × Wfd × S)
      → P s
      → Left o
      → ((s' : S) → P s' → P (rest s').2)
      → P (go_on o w s rest).2
  go_on-P none w s rest h l go = h
  go_on-P (some s') w s rest h l go = go s' l

  round-P :
      (o : Option Outcome) (w : Wfd) (s : S) (rest : S → Option LoopEnd × Wfd × S)
      → P s
      → ((s' : S) → P s' → P (rest s').2)
      → P (round on_message o w s rest).2
  unfolding round
  round-P none w s rest h go = h
  round-P (some message) w s rest h go = go_on-P _ w s rest h (event-Left w s h).left go
  round-P (some close) w s rest h go = go_on-P _ w s rest h (event-Left w s h).left go
  round-P (some error_end) w s rest h go = h
  round-P (some hang_up) w s rest h go = h
  round-P (some overrun) w s rest h go = h

  message_loop-P :
      (p : Peer) (fuel : ℕ) (w : Wfd) (s : S) → P s → P (message_loop on_message p fuel w s).2
  unfolding message_loop
  message_loop-P p zero w s h = h
  message_loop-P p (suc fuel) w s h =
      round-P (next_frame p w).0 (next_frame p w).1 s _ h
        (λ s' h'. message_loop-P p fuel (next_frame p w).1 s' h')

  pub ws_establishconnection-P :
      (p : Peer) (on_open : S → S) (i : ℕ) (w : Wfd) (t : Table) (s : S)
      → P (on_open s)
      → P (ws_establishconnection p on_open on_message i w t s).2
  unfolding ws_establishconnection
  ws_establishconnection-P p on_open i w t s h =
      message_loop-P p (suc (unread w.reader)) w (on_open s) h
