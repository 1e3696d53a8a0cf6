-- ===== src/WebSocket/Connection/Ends.antt =====
-- The thread of a connection ends when its client does, and the client is closed once.
use basic_setup.Prelude.{
  ℕ, zero, suc, ◌≤◌, ◌<◌, ◌≡◌, ◌≢◌, refl, sym, ap, ◌∙◌, ◌⊎◌, inl, inr, Option, none, some, List, [],
  ◌∷◌, ◌++◌, arith, if_both, false,
}
use basic_setup.Device.{Effect}
use basic_setup.WebSocket.Reader.{Ends, unread}
use basic_setup.WebSocket.NextFrame.{
  Peer, Wfd, Outcome, message, close, error_end, hang_up, overrun, next_frame,
}
use basic_setup.WebSocket.NextFrame.Progress.{next_frame-outcome, next_frame-Fewer}
use basic_setup.WebSocket.Clients.{
  Slot, Table, ClientState, ws_connecting, ws_open, ws_closing, ws_closed, ws_unused, slot_at,
  put_slot, valid_slot, set_client_state, get_client_state, close_client,
}
use basic_setup.WebSocket.Clients.Accept.{slot_at-put_slot, sock_of}
use basic_setup.WebSocket.Connection.{
  is_closing, is_closed, LoopEnd, at_close, at_error, at_overrun, event, go_on, round, message_loop,
  begin, answer_close, end_connection, leave, ws_establishconnection,
}

go_on_ends :
    {S : Type 0} (o : Option S) (w : Wfd) (s : S) (rest : S → Option LoopEnd × Wfd × S)
    → ((s' : S) → (e : LoopEnd) × ((rest s').0 ≡ some e))
    → (e : LoopEnd) × ((go_on o w s rest).0 ≡ some e)
go_on_ends none w s rest go = (at_close, refl)
go_on_ends (some s') w s rest go = go s'

module _ {S : Type 0} (on_message : List ℕ → ℕ → S → S) (p : Peer) where
  -- What a round needs of the rest.
  round_ends :
      (o : Option Outcome) (w : Wfd) (s : S) (rest : S → Option LoopEnd × Wfd × S)
      → o ≢ none
      → (o ≢ some hang_up → (s' : S) → (e : LoopEnd) × ((rest s').0 ≡ some e))
      → (e : LoopEnd) × ((round on_message o w s rest).0 ≡ some e)
  unfolding round
  round_ends none w s rest n go = absurd (n refl)
  round_ends (some message) w s rest n go =
      go_on_ends (event on_message w s) w s rest (go (λ e. cc))
  round_ends (some close) w s rest n go = go_on_ends (event on_message w s) w s rest (go (λ e. cc))
  round_ends (some error_end) w s rest n go = (at_error, refl)
  round_ends (some hang_up) w s rest n go = (at_error, refl)
  round_ends (some overrun) w s rest n go = (at_overrun, refl)

  pub message_loop-ends :
      (fuel : ℕ) (w : Wfd) (s : S)
      → w.reader.cur_pos ≤ w.reader.amt_read
      → unread w.reader < fuel
      → (e : LoopEnd) × ((message_loop on_message p fuel w s).0 ≡ some e)
  unfolding message_loop
  message_loop-ends zero w s h less = absurd (omega arith)
  message_loop-ends (suc fuel) w s h less =
      let (o, returns) = next_frame-outcome p w h in
      round_ends (next_frame p w).0 (next_frame p w).1 s
        (message_loop on_message p fuel (next_frame p w).1)
        (λ e. let f : none ≡ some o = sym e ∙ returns in cc)
        (λ no s'. elim (next_frame-Fewer p w h) [
          | inl e ↦ absurd (no e)
          | inr f ↦ message_loop-ends fuel (next_frame p w).1 s' f.0 (omega (arith, less, f.1))
        ])

-- A client in slot `i`, with its socket.
abbrev pub Taken : ℕ → ℕ → Table → Type 0
Taken i fd t =
    (s : Slot) × (slot_at t.slots i ≡ some s) × (s.client_sock ≡ some fd) × (s.state ≢ ws_closed)

set_client_state-Taken :
    (i fd : ℕ) (state : ClientState) (t : Table)
    → state ≢ ws_closed
    → Taken i fd t
    → Taken i fd (set_client_state i state t) × ((set_client_state i state t).closed ≡ t.closed)
unfolding set_client_state valid_slot
set_client_state-Taken i fd state t n (s, at, sock, usable) =
    rw (at, set_client_state, sock)
      ((record s { state = state }, slot_at-put_slot t.slots i s _ at, sock, n), refl)

begin-Taken :
    (i fd : ℕ) (t : Table) → Taken i fd t → Taken i fd (begin i t) × ((begin i t).closed ≡ t.closed)
unfolding begin
begin-Taken i fd t (s, at, sock, usable) =
    let started = record s { is_login = false } in
    rw (at, begin)
      (set_client_state-Taken i fd ws_open (record t { slots = put_slot t.slots i started })
        (λ e. cc) (started, slot_at-put_slot t.slots i s started at, sock, usable))

answer_close-Taken :
    (i fd : ℕ) (w : Wfd) (t : Table)
    → Taken i fd t
    → Taken i fd (answer_close i w t).0 × ((answer_close i w t).0.closed ≡ t.closed)
unfolding answer_close
answer_close-Taken i fd w t k =
    if_both (λ (r : Table × List Effect). Taken i fd r.0 × (r.0.closed ≡ t.closed))
      (is_closing (get_client_state i t)) _ _ (k, refl)
      (set_client_state-Taken i fd ws_closing t (λ e. cc) k)

state_lem :
    (i fd : ℕ) (t : Table) (s : Slot)
    → slot_at t.slots i ≡ some s
    → s.client_sock ≡ some fd
    → get_client_state i t ≡ some s.state
unfolding get_client_state valid_slot
state_lem i fd t s at sock = rw (at, get_client_state, sock) refl

not_closed : (state : ClientState) → state ≢ ws_closed → is_closed (some state) ≡ false
not_closed ws_closed n = absurd (n refl)
not_closed ws_connecting n = refl
not_closed ws_open n = refl
not_closed ws_closing n = refl
not_closed ws_unused n = refl

-- The end of a thread closes the socket of the client that is in the slot by then.
pub end_connection-closes :
    (i fd : ℕ) (t : Table)
    → Taken i fd t
    → (sock_of (slot_at (end_connection i t).slots i) ≡ none)
      × ((end_connection i t).closed ≡ t.closed ++ (fd ∷ []))
unfolding end_connection valid_slot close_client
end_connection-closes i fd t (s, at, sock, usable) =
    let shut = record s { state = ws_closed; client_sock = none } in
    let state : get_client_state i t ≡ some s.state = state_lem i fd t s at sock in
    rw (state, not_closed s.state usable)
      (rw (at, close_client, sock) (ap sock_of (slot_at-put_slot t.slots i s shut at), refl))

-- The end of a thread that did not crash.
abbrev Left : ℕ → ℕ → Table → Option LoopEnd → Table × List Effect → Type 0
Left i fd t how r =
    (how ≡ some at_overrun)
    ⊎ (((how ≡ some at_close) ⊎ (how ≡ some at_error))
        × (sock_of (slot_at r.0.slots i) ≡ none)
        × (r.0.closed ≡ t.closed ++ (fd ∷ [])))

leave-Left :
    (i fd : ℕ) (w : Wfd) (t0 t : Table) (how : Option LoopEnd)
    → how ≢ none
    → Taken i fd t
    → t.closed ≡ t0.closed
    → Left i fd t0 how (leave how i w t)
unfolding leave
leave-Left i fd w t0 t (some at_close) n k same =
    let (k', kept) = answer_close-Taken i fd w t k in
    let (free, shut) = end_connection-closes i fd (answer_close i w t).0 k' in
    inr (inl refl, free, shut ∙ ap (λ xs. xs ++ (fd ∷ [])) (kept ∙ same))
leave-Left i fd w t0 t (some at_error) n k same =
    let (free, shut) = end_connection-closes i fd t k in
    inr (inr refl, free, shut ∙ ap (λ xs. xs ++ (fd ∷ [])) same)
leave-Left i fd w t0 t (some at_overrun) n k same = inl refl
leave-Left i fd w t0 t none n k same = absurd (n refl)

pub establishconnection-Left :
    {S : Type 0} (p : Peer) (on_open : S → S) (on_message : List ℕ → ℕ → S → S) (i fd : ℕ) (w : Wfd)
    (t : Table) (s : S)
    → w.reader.cur_pos ≤ w.reader.amt_read
    → Taken i fd t
    → let r = ws_establishconnection p on_open on_message i w t s in
      (r.0 ≡ some at_overrun)
      ⊎ (((r.0 ≡ some at_close) ⊎ (r.0 ≡ some at_error))
          × (sock_of (slot_at r.1.0.slots i) ≡ none)
          × (r.1.0.closed ≡ t.closed ++ (fd ∷ [])))
unfolding ws_establishconnection
establishconnection-Left p on_open on_message i fd w t s h k =
    let loop = message_loop on_message p (suc (unread w.reader)) w (on_open s) in
    let (e, ended) =
      message_loop-ends on_message p (suc (unread w.reader)) w (on_open s) h (omega arith) in
    let (opened, same) = begin-Taken i fd t k in
    leave-Left i fd loop.1 t (begin i t) loop.0 (λ n. let f : none ≡ some e = sym n ∙ ended in cc)
      opened same

-- If no other thread changes the table and one of the calls of `recv` ahead gives 0 or fails, the
-- thread of a client in a slot ends, and unless a write left a buffer it has by then closed the
-- socket of the client, once and no other, and freed the slot.
pub ws_establishconnection-closes :
    {S : Type 0} (p : Peer) (on_open : S → S) (on_message : List ℕ → ℕ → S → S) (i fd : ℕ) (w : Wfd)
    (t : Table) (s : S)
    → w.reader.cur_pos ≤ w.reader.amt_read
    → Ends w.reader.input
    → Taken i fd t
    → let r = ws_establishconnection p on_open on_message i w t s in
      (r.0 ≡ some at_overrun)
      ⊎ (((r.0 ≡ some at_close) ⊎ (r.0 ≡ some at_error))
          × (sock_of (slot_at r.1.0.slots i) ≡ none)
          × (r.1.0.closed ≡ t.closed ++ (fd ∷ [])))
ws_establishconnection-closes p on_open on_message i fd w t s h ended k =
    establishconnection-Left p on_open on_message i fd w t s h k
