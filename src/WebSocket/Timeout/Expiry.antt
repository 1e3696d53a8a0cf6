-- ===== src/WebSocket/Timeout/Expiry.antt =====
-- A client that is asked to close and does not.
use basic_setup.Prelude.{
  ℕ, ◌≡◌, ◌≢◌, refl, sym, subst, true, Option, none, some, List, [], ◌∷◌, ◌++◌,
}
use basic_setup.Device.{ws_sendframe}
use basic_setup.Device.Op
use basic_setup.WebSocket.Clients.{
  Slot, Table, ClientState, ws_connecting, ws_open, ws_closing, ws_closed, ws_unused, slot_at,
  put_slot, valid_slot, get_client_state, close_client, start_close_timeout,
}
use basic_setup.WebSocket.Clients.Accept.{slot_at-put_slot}
use basic_setup.WebSocket.Control.{code_bytes}
use basic_setup.WebSocket.Ping.{IsFree}
use basic_setup.WebSocket.Timeout.{await_close, close_timeout, ws_close_client}

-- The rounds of a wait that never sees the client closed, not after it ran out of time either, which
-- it does.
abbrev pub RunsOut : List (ClientState × Option ClientState) → Type 0
RunsOut [] = ⊥
RunsOut ((state, some now) ∷ rounds) = (state ≢ ws_closed) × (now ≢ ws_closed)
RunsOut ((state, none) ∷ rounds) = (state ≢ ws_closed) × RunsOut rounds

-- An open client in slot `i`.
abbrev pub IsOpen : ℕ → ℕ → Table → Type 0
IsOpen i fd t =
    (s : Slot) × (slot_at t.slots i ≡ some s) × (s.client_sock ≡ some fd) × (s.state ≡ ws_open)

StillOpen : Option ClientState → Type 0
StillOpen o = (state : ClientState) × (o ≡ some state) × (state ≢ ws_closed)

await_close-RunsOut :
    (rounds : List (ClientState × Option ClientState))
    → RunsOut rounds
    → StillOpen (await_close rounds)
unfolding await_close StillOpen
await_close-RunsOut [] w = absurd w
await_close-RunsOut ((ws_closed, some now) ∷ rounds) (n, h) = absurd (n refl)
await_close-RunsOut ((ws_closed, none) ∷ rounds) (n, h) = absurd (n refl)
await_close-RunsOut ((ws_open, some now) ∷ rounds) (n, h) = (now, refl, h)
await_close-RunsOut ((ws_open, none) ∷ rounds) (n, w) = await_close-RunsOut rounds w
await_close-RunsOut ((ws_connecting, some now) ∷ rounds) (n, h) = (now, refl, h)
await_close-RunsOut ((ws_connecting, none) ∷ rounds) (n, w) = await_close-RunsOut rounds w
await_close-RunsOut ((ws_closing, some now) ∷ rounds) (n, h) = (now, refl, h)
await_close-RunsOut ((ws_closing, none) ∷ rounds) (n, w) = await_close-RunsOut rounds w
await_close-RunsOut ((ws_unused, some now) ∷ rounds) (n, h) = (now, refl, h)
await_close-RunsOut ((ws_unused, none) ∷ rounds) (n, w) = await_close-RunsOut rounds w

close_timeout-late :
    (i : ℕ) (state : ClientState) (t : Table)
    → state ≢ ws_closed
    → close_timeout i state t ≡ close_client i t
unfolding close_timeout
close_timeout-late i ws_open t n = refl
close_timeout-late i ws_connecting t n = refl
close_timeout-late i ws_closing t n = refl
close_timeout-late i ws_unused t n = refl
close_timeout-late i ws_closed t n = absurd (n refl)

-- The slot of a client that was asked to close.
abbrev asked : Slot → Slot
asked s = record s { state = ws_closing; close_thrd = true }

start_close_timeout-asked :
    (i fd : ℕ) (t : Table) (s : Slot)
    → slot_at t.slots i ≡ some s
    → s.client_sock ≡ some fd
    → s.state ≡ ws_open
    → start_close_timeout true i t ≡ record t { slots = put_slot t.slots i (asked s) }
unfolding start_close_timeout valid_slot
start_close_timeout-asked i fd t s at sock usable =
    rw (at, start_close_timeout, sock, usable) (rw (sym sock) refl)

ws_close_client-asked :
    (i fd : ℕ) (t : Table) (s : Slot)
    → slot_at t.slots i ≡ some s
    → s.client_sock ≡ some fd
    → s.state ≡ ws_open
    → ws_close_client true true i t ≡ (
      true,
      record t { slots = put_slot t.slots i (asked s) },
      ws_sendframe (some i) (3 ∷ 232 ∷ []) Op.clse ∷ [],
    )
unfolding ws_close_client valid_slot code_bytes
ws_close_client-asked i fd t s at sock usable =
    let started = start_close_timeout-asked i fd t s at sock usable in
    rw (at, ws_close_client, sock, started) (rw (sym sock) refl)

closing_state :
    (i fd : ℕ) (t : Table) (s : Slot)
    → slot_at t.slots i ≡ some s
    → s.client_sock ≡ some fd
    → get_client_state i t ≡ some s.state
unfolding get_client_state valid_slot
closing_state i fd t s at sock = rw (at, get_client_state, sock) refl

pub closes :
    (i fd : ℕ) (t : Table) (s : Slot)
    → slot_at t.slots i ≡ some s
    → s.client_sock ≡ some fd
    → IsFree i (close_client i t) × ((close_client i t).closed ≡ t.closed ++ (fd ∷ []))
unfolding close_client valid_slot
closes i fd t s at sock =
    let shut = record s { state = ws_closed; client_sock = none } in
    rw (at, close_client, sock) ((shut, slot_at-put_slot t.slots i s shut at, refl, refl), refl)

-- If the CLOSE frame of `ws_close_client` is sent to an open client and the thread of the time-out
-- is made, the client is in state CLOSING, and if the wait of that thread runs out of time and the
-- client is not closed by then, neither in a test before nor in the reading behind it, the thread
-- closes its socket and frees its slot.
pub ws_close_client-IsFree :
    (i fd : ℕ) (t : Table) (rounds : List (ClientState × Option ClientState))
    → IsOpen i fd t
    → RunsOut rounds
    → let r = ws_close_client true true i t in
      (r.0 ≡ true)
      × (r.2 ≡ ws_sendframe (some i) (3 ∷ 232 ∷ []) Op.clse ∷ [])
      × (get_client_state i r.1 ≡ some ws_closing)
      × ((state : ClientState) × (await_close rounds ≡ some state)
          × IsFree i (close_timeout i state r.1)
          × ((close_timeout i state r.1).closed ≡ t.closed ++ (fd ∷ [])))
unfolding StillOpen
ws_close_client-IsFree i fd t rounds (s, at, sock, usable) w =
    let (state, ended, n) = await_close-RunsOut rounds w in
    let t' = record t { slots = put_slot t.slots i (asked s) } in
    let there : slot_at t'.slots i ≡ some (asked s) = slot_at-put_slot t.slots i s (asked s) at in
    let (free, shut) =
      subst (λ u. IsFree i u × (u.closed ≡ t.closed ++ (fd ∷ [])))
        (sym (close_timeout-late i state t' n)) (closes i fd t' (asked s) there sock) in
    rw (ws_close_client-asked i fd t s at sock usable)
      (refl, refl, closing_state i fd t' (asked s) there sock, (state, ended, free, shut))
