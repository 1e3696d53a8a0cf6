-- ===== src/WebSocket/Threads/Operations.antt =====
-- The operations on the table, except for `ws_accept`, and what they keep.
use basic_setup.Prelude.{
  ℕ, zero, suc, ◌+◌, ◌≡◌, refl, sym, ap, subst, Bool, false, Option, none, some, List, ltb, ◌||◌,
  arith, Option-cases, if_both, inl, inr,
}
use basic_setup.Device.{Effect}
use basic_setup.WebSocket.Clients.{
  Slot, Table, ClientState, ws_connecting, ws_open, ws_closing, ws_closed, ws_unused, slot_at,
  put_slot, valid_slot, set_client_state, get_client_state, close_client, start_close_timeout,
  max_clients,
}
use basic_setup.WebSocket.Clients.Accept.{length-put_slot}
use basic_setup.WebSocket.NextFrame.{Wfd}
use basic_setup.WebSocket.Connection.{begin, is_closing, is_closed, answer_close, end_connection}
use basic_setup.WebSocket.Timeout.{close_timeout, ws_close_client}
use basic_setup.WebSocket.Ping.{next_id, send_ping_close, ping_all, ws_ping}
use basic_setup.WebSocket.Threads.Slots.{
  one, holds, IsCoherent, Keeps, Keeps-refl, Keeps-trans, tally-append, held-put_slot,
  AllCoherent-put_slot, put-Keeps,
}

pub close_client-Keeps : (i : ℕ) (t : Table) → Keeps t (close_client i t)
unfolding close_client valid_slot
close_client-Keeps i t = elim (Option-cases (slot_at t.slots i)) [
  | inl e ↦ rw (e, close_client) (Keeps-refl t)
  | inr (s, e) ↦ elim (Option-cases s.client_sock) [
    | inl free ↦ rw (e, close_client, free) (Keeps-refl t)
    | inr (fd, busy) ↦
        let shut = record s { state = ws_closed; client_sock = none } in
        let had : (x : ℕ) → holds x s.client_sock ≡ one x fd = λ x. ap (holds x) busy in
        rw (e, close_client, busy)
          (record {
            count = length-put_slot t.slots i shut;
            coherent = λ c. AllCoherent-put_slot t.slots i shut tt c;
            balanced = λ x.
                omega
                  (arith, held-put_slot x t.slots i s shut e, tally-append x t.closed fd, had x);
          })
  ]
]

-- The states of a client in a slot.
abbrev IsInUse : ClientState → Type 0
IsInUse state = IsCoherent (some 0) state

IsInUse-some : (fd : ℕ) (state : ClientState) → IsInUse state → IsCoherent (some fd) state
IsInUse-some fd ws_connecting h = h
IsInUse-some fd ws_open h = h
IsInUse-some fd ws_closing h = h
IsInUse-some fd ws_closed h = h
IsInUse-some fd ws_unused h = h

set_client_state-Keeps :
    (i : ℕ) (state : ClientState) (t : Table) → IsInUse state → Keeps t (set_client_state i state t)
unfolding set_client_state valid_slot
set_client_state-Keeps i state t h = elim (Option-cases (slot_at t.slots i)) [
  | inl e ↦ rw (e, set_client_state) (Keeps-refl t)
  | inr (s, e) ↦ elim (Option-cases s.client_sock) [
    | inl free ↦ rw (e, set_client_state, free) (Keeps-refl t)
    | inr (fd, busy) ↦
        rw (e, set_client_state, busy)
          (put-Keeps t i s (record s { state = state }) e refl
            (λ c. subst (λ o. IsCoherent o state) (sym busy) (IsInUse-some fd state h)))
  ]
]

pub begin-Keeps : (i : ℕ) (t : Table) → Keeps t (begin i t)
unfolding begin
begin-Keeps i t = elim (Option-cases (slot_at t.slots i)) [
  | inl e ↦ rw (e, begin) (Keeps-refl t)
  | inr (s, e) ↦
      rw (e, begin)
        (Keeps-trans (put-Keeps t i s (record s { is_login = false }) e refl (λ c. c))
          (set_client_state-Keeps i ws_open _ tt))
]

pub answer_close-Keeps : (i : ℕ) (w : Wfd) (t : Table) → Keeps t (answer_close i w t).0
unfolding answer_close
answer_close-Keeps i w t =
    if_both (λ (r : Table × List Effect). Keeps t r.0) (is_closing (get_client_state i t)) _ _
      (Keeps-refl t) (set_client_state-Keeps i ws_closing t tt)

pub end_connection-Keeps : (i : ℕ) (t : Table) → Keeps t (end_connection i t)
unfolding end_connection
end_connection-Keeps i t =
    if_both (Keeps t) (is_closed (get_client_state i t)) _ _ (Keeps-refl t) (close_client-Keeps i t)

pub close_timeout-Keeps :
    (i : ℕ) (state : ClientState) (t : Table) → Keeps t (close_timeout i state t)
unfolding close_timeout
close_timeout-Keeps i ws_closed t = Keeps-refl t
close_timeout-Keeps i ws_open t = close_client-Keeps i t
close_timeout-Keeps i ws_connecting t = close_client-Keeps i t
close_timeout-Keeps i ws_closing t = close_client-Keeps i t
close_timeout-Keeps i ws_unused t = close_client-Keeps i t

open_asked :
    (o : Option ℕ) (state : ClientState)
    → state ≡ ws_open
    → IsCoherent o state
    → IsCoherent o ws_closing
open_asked none state e c = subst (IsCoherent none) e c
open_asked (some fd) state e c = tt

-- A client in its slot, in a known state.
asking-Keeps :
    (state : ClientState) (thread_ok : Bool) (i fd : ℕ) (t : Table) (s : Slot)
    → slot_at t.slots i ≡ some s
    → s.client_sock ≡ some fd
    → s.state ≡ state
    → Keeps t (start_close_timeout thread_ok i t)
unfolding start_close_timeout valid_slot
asking-Keeps ws_open thread_ok i fd t s e busy f =
    let asked = record s { state = ws_closing; close_thrd = thread_ok || s.close_thrd } in
    rw (e, start_close_timeout, busy, f)
      (put-Keeps t i s asked e refl (λ c. open_asked s.client_sock s.state f c))
asking-Keeps ws_connecting thread_ok i fd t s e busy f =
    rw (e, start_close_timeout, busy, f) (Keeps-refl t)
asking-Keeps ws_closing thread_ok i fd t s e busy f =
    rw (e, start_close_timeout, busy, f) (Keeps-refl t)
asking-Keeps ws_closed thread_ok i fd t s e busy f =
    rw (e, start_close_timeout, busy, f) (Keeps-refl t)
asking-Keeps ws_unused thread_ok i fd t s e busy f =
    rw (e, start_close_timeout, busy, f) (Keeps-refl t)

start_close_timeout-Keeps :
    (thread_ok : Bool) (i : ℕ) (t : Table) → Keeps t (start_close_timeout thread_ok i t)
unfolding start_close_timeout valid_slot
start_close_timeout-Keeps thread_ok i t = elim (Option-cases (slot_at t.slots i)) [
  | inl e ↦ rw (e, start_close_timeout) (Keeps-refl t)
  | inr (s, e) ↦ elim (Option-cases s.client_sock) [
    | inl free ↦ rw (e, start_close_timeout, free) (Keeps-refl t)
    | inr (fd, busy) ↦ asking-Keeps s.state thread_ok i fd t s e busy refl
  ]
]

pub ws_close_client-Keeps :
    (send_ok thread_ok : Bool) (i : ℕ) (t : Table)
    → Keeps t (ws_close_client send_ok thread_ok i t).1
unfolding ws_close_client
ws_close_client-Keeps send_ok thread_ok i t = elim (Option-cases (valid_slot i t)) [
  | inl e ↦ rw (e, ws_close_client) (Keeps-refl t)
  | inr (r, e) ↦
      rw (e, ws_close_client)
        (if_both (λ (x : Bool × Table × List Effect). Keeps t x.1) send_ok _ _
          (start_close_timeout-Keeps thread_ok i t) (Keeps-refl t))
]

pinging-Keeps :
    (state : ClientState) (i threshold fd : ℕ) (t : Table) (s : Slot)
    → slot_at t.slots i ≡ some s
    → s.client_sock ≡ some fd
    → s.state ≡ state
    → Keeps t (send_ping_close i threshold t).0
unfolding send_ping_close valid_slot
pinging-Keeps ws_open i threshold fd t s e busy f =
    let id = next_id s.current_ping_id in
    let new = record s { current_ping_id = some id } in
    let pinged = record t { slots = put_slot t.slots i new } in
    rw (e, send_ping_close, busy, f)
      (if_both (λ (r : Table × List Effect). Keeps t r.0)
        (ltb (next_id s.last_pong_id + threshold) (id + 1)) _ _
        (Keeps-trans (put-Keeps t i s new e refl (λ c. c)) (close_client-Keeps i pinged))
        (put-Keeps t i s new e refl (λ c. c)))
pinging-Keeps ws_connecting i threshold fd t s e busy f =
    rw (e, send_ping_close, busy, f) (Keeps-refl t)
pinging-Keeps ws_closing i threshold fd t s e busy f =
    rw (e, send_ping_close, busy, f) (Keeps-refl t)
pinging-Keeps ws_closed i threshold fd t s e busy f =
    rw (e, send_ping_close, busy, f) (Keeps-refl t)
pinging-Keeps ws_unused i threshold fd t s e busy f =
    rw (e, send_ping_close, busy, f) (Keeps-refl t)

send_ping_close-Keeps : (i threshold : ℕ) (t : Table) → Keeps t (send_ping_close i threshold t).0
unfolding send_ping_close valid_slot
send_ping_close-Keeps i threshold t = elim (Option-cases (slot_at t.slots i)) [
  | inl e ↦ rw (e, send_ping_close) (Keeps-refl t)
  | inr (s, e) ↦ elim (Option-cases s.client_sock) [
    | inl free ↦ rw (e, send_ping_close, free) (Keeps-refl t)
    | inr (fd, busy) ↦ pinging-Keeps s.state i threshold fd t s e busy refl
  ]
]

ping_all-Keeps : (n i threshold : ℕ) (t : Table) → Keeps t (ping_all n i threshold t).0
unfolding ping_all
ping_all-Keeps zero i threshold t = Keeps-refl t
ping_all-Keeps (suc n) i threshold t =
    Keeps-trans (send_ping_close-Keeps i threshold t) (ping_all-Keeps n (suc i) threshold _)

pub ws_ping-Keeps :
    (cli : Option ℕ) (threshold : ℕ) (t : Table) → Keeps t (ws_ping cli threshold t).0
unfolding ws_ping
ws_ping-Keeps cli zero t = Keeps-refl t
ws_ping-Keeps (some i) (suc k) t = send_ping_close-Keeps i (suc k) t
ws_ping-Keeps none (suc k) t = ping_all-Keeps max_clients 0 (suc k) t
