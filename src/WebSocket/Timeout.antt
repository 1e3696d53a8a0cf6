-- ===== src/WebSocket/Timeout.antt =====
-- Closing a connection: `ws_close_client`, and the thread of its time-out.
pub mod Expiry
use basic_setup.Prelude.{
  ℕ, zero, suc, ◌+◌, ◌-◌, ◌*◌, ◌/◌, ◌<◌, ◌≡◌, refl, Bool, true, false, Option, none, some, List, [],
  ◌∷◌, leb, if◌then◌else◌, arith, if_cases,
}
use basic_setup.Device.{Effect, ws_sendframe}
use basic_setup.Device.Op
use basic_setup.WebSocket.Control.{code_bytes, clse_normal}
use basic_setup.WebSocket.Clients.{
  Table, ClientState, ws_closed, valid_slot, close_client, start_close_timeout,
}

-- `struct timespec`.
pub record Timespec : Type 0 where
  pub tv_sec : ℕ
  pub tv_nsec : ℕ

-- The loop that normalises the time.
unfoldable pub normalize : ℕ → Timespec → Timespec
normalize zero ts = ts
normalize (suc fuel) ts =
    let rest =
      normalize fuel (record { tv_sec = ts.tv_sec + 1; tv_nsec = ts.tv_nsec - 1000000000 }) in
    if leb 1000000000 ts.tv_nsec then rest else ts

-- MS_TO_NS(TIMEOUT_MS) behind the present time.
unfoldable pub deadline : Timespec → Timespec
deadline now =
    let ts = record now { tv_nsec = now.tv_nsec + 500 * 1000000 } in
    normalize (suc (ts.tv_nsec / 1000000000)) ts

-- The wait of `close_timeout`: for each round the state that the test sees, and whether the wait that
-- follows runs out of time and with which state of the client it then comes back. The result is
-- the state behind the loop, if the loop ends: a wait that runs out of time ends it, and the state is
-- read again.
unfoldable pub await_close : List (ClientState × Option ClientState) → Option ClientState
await_close [] = none
await_close ((ws_closed, late) ∷ rounds) = some ws_closed
await_close ((state, some now) ∷ rounds) = some now
await_close ((state, none) ∷ rounds) = await_close rounds

-- `close_timeout` with the state behind its loop.
unfoldable pub close_timeout : ℕ → ClientState → Table → Table
close_timeout i ws_closed t = t
close_timeout i state t = close_client i t

-- `ws_close_client`: whether it returns 0, the table, and the CLOSE frame. `send_ok` is whether the
-- frame could be sent, `thread_ok` whether the thread of the time-out could be made.
unfoldable pub ws_close_client : Bool → Bool → ℕ → Table → Bool × Table × List Effect
unfolding code_bytes
ws_close_client send_ok thread_ok i t = elim (valid_slot i t) [
  | none ↦ (false, t, [])
  | some r ↦
      let out = ws_sendframe (some i) (code_bytes clse_normal) Op.clse ∷ [] in
      if send_ok then (true, start_close_timeout thread_ok i t, out) else (false, t, out)
]

normalize_lem :
    (fuel : ℕ) (ts : Timespec)
    → ts.tv_nsec / 1000000000 < fuel
    → ((normalize fuel ts).tv_nsec < 1000000000)
      × ((normalize fuel ts).tv_sec * 1000000000 + (normalize fuel ts).tv_nsec
          ≡ ts.tv_sec * 1000000000 + ts.tv_nsec)
unfolding normalize
normalize_lem zero ts h = absurd (omega arith)
normalize_lem (suc fuel) ts h =
    let next : Timespec = record { tv_sec = ts.tv_sec + 1; tv_nsec = ts.tv_nsec - 1000000000 } in
    if_cases
      (λ (r : Timespec).
        (r.tv_nsec < 1000000000)
        × (r.tv_sec * 1000000000 + r.tv_nsec ≡ ts.tv_sec * 1000000000 + ts.tv_nsec))
      (leb 1000000000 ts.tv_nsec) _ _ (λ e. ground (arith, normalize_lem fuel next))
      (λ e. (ground arith, refl))

-- The loop that normalises the deadline ends with less than a second of nanoseconds, half a second
-- behind the present time.
pub deadline_lem :
    (now : Timespec)
    → ((deadline now).tv_nsec < 1000000000)
      × ((deadline now).tv_sec * 1000000000 + (deadline now).tv_nsec
          ≡ now.tv_sec * 1000000000 + now.tv_nsec + 500000000)
unfolding deadline
deadline_lem now =
    let ts = record now { tv_nsec = now.tv_nsec + 500000000 } in
    let r = normalize_lem (suc (ts.tv_nsec / 1000000000)) ts (omega arith) in
    (r.0, omega (arith, r.1))
