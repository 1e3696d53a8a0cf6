-- ===== src/WebSocket/Clients/Accept.antt =====
-- What `ws_accept` leaves in the table.
use basic_setup.Prelude.{
  ℕ, zero, suc, ◌+◌, ◌%◌, ◌^◌, ◌≡◌, ◌≢◌, refl, sym, ap, ◌∙◌, Bool, true, false, not, ◌&&◌, ◌||◌,
  Option, none, some, List, [], ◌∷◌, ◌++◌, length, if◌then◌else◌,
}
use basic_setup.WebSocket.Clients.{
  Slot, Table, slot_at, put_slot, valid_slot, close_client, choose_slot, fill_slot, ws_accept,
  ws_connecting,
}

pub slot_at-put_slot :
    (slots : List Slot) (k : ℕ) (s new : Slot)
    → slot_at slots k ≡ some s
    → slot_at (put_slot slots k new) k ≡ some new
unfolding slot_at put_slot
slot_at-put_slot [] k s new e = cc
slot_at-put_slot (x ∷ slots) zero s new e = refl
slot_at-put_slot (x ∷ slots) (suc k) s new e = slot_at-put_slot slots k s new e

pub slot_at-put_slot_other :
    (slots : List Slot) (j k : ℕ) (new : Slot)
    → j ≢ k
    → slot_at (put_slot slots k new) j ≡ slot_at slots j
unfolding slot_at put_slot
slot_at-put_slot_other [] j k new h = refl
slot_at-put_slot_other (x ∷ slots) zero zero new h = absurd (h refl)
slot_at-put_slot_other (x ∷ slots) zero (suc k) new h = refl
slot_at-put_slot_other (x ∷ slots) (suc j) zero new h = refl
slot_at-put_slot_other (x ∷ slots) (suc j) (suc k) new h =
    slot_at-put_slot_other slots j k new (λ e. h (ap suc e))

pub length-put_slot :
    (slots : List Slot) (k : ℕ) (new : Slot) → length (put_slot slots k new) ≡ length slots
unfolding put_slot
length-put_slot [] k new = refl
length-put_slot (s ∷ slots) zero new = refl
length-put_slot (s ∷ slots) (suc k) new = ap suc (length-put_slot slots k new)

-- The socket in slot `k`.
abbrev pub sock_of : Option Slot → Option ℕ
sock_of none = none
sock_of (some s) = s.client_sock

-- The table after slot `k` was given to a socket, or taken back from it.
abbrev pub Gives : ℕ → ℕ → Bool → Table → Table → Type 0
Gives k sock kept before after =
    (sock_of (slot_at after.slots k) ≡ (if kept then some sock else none))
    × (after.closed ≡ (if kept then before.closed else (before.closed ++ (sock ∷ []))))
    × ((j : ℕ) → j ≢ k → slot_at after.slots j ≡ slot_at before.slots j)

pub fill_slot-Gives :
    (k sock : ℕ) (s : Slot) (t : Table)
    → slot_at t.slots k ≡ some s
    → Gives k sock true t (fill_slot k sock t)
unfolding fill_slot
fill_slot-Gives k sock s t e =
    rw (e, fill_slot)
      (
        ap sock_of (slot_at-put_slot t.slots k s _ e),
        refl,
        λ j h. slot_at-put_slot_other t.slots j k _ h,
      )

-- The slot that `fill_slot` leaves.
abbrev pub filled : ℕ → Table → Slot → Slot
filled sock t s = record s {
  client_sock = some sock;
  state = ws_connecting;
  close_thrd = false;
  last_pong_id = none;
  current_ping_id = none;
  conn_seq = (t.conn_seq + 1) % 2 ^ 32;
}

pub fill_slot_lem :
    (k sock : ℕ) (s : Slot) (t : Table)
    → slot_at t.slots k ≡ some s
    → slot_at (fill_slot k sock t).slots k ≡ some (filled sock t s)
unfolding fill_slot
fill_slot_lem k sock s t e = rw (e, fill_slot) (slot_at-put_slot t.slots k s (filled sock t s) e)

pub close_client-Gives :
    (k sock : ℕ) (s : Slot) (t0 t : Table)
    → slot_at t.slots k ≡ some s
    → Gives k sock true t0 t
    → Gives k sock false t0 (close_client k t)
unfolding close_client valid_slot
close_client-Gives k sock s t0 t e (taken, same, others) =
    let busy : s.client_sock ≡ some sock = ap sock_of (sym e) ∙ taken in
    rw (e, close_client, busy)
      (
        ap sock_of (slot_at-put_slot t.slots k s _ e),
        ap (λ xs. xs ++ (sock ∷ [])) same,
        λ j h. slot_at-put_slot_other t.slots j k _ h ∙ others j h,
      )

fill_close-Gives :
    (k sock : ℕ) (s : Slot) (t : Table)
    → slot_at t.slots k ≡ some s
    → Gives k sock false t (close_client k (fill_slot k sock t))
fill_close-Gives k sock s t e =
    close_client-Gives k sock (filled sock t s) t (fill_slot k sock t) (fill_slot_lem k sock s t e)
      (fill_slot-Gives k sock s t e)

-- The slot that `ws_accept` has chosen keeps the new socket if everything went well, and also if a
-- lock could not be made; after a failed handshake or thread the socket is closed and the slot is
-- free. No other slot changes.
pub ws_accept-Gives :
    (locks_ok handshake_ok thread_ok : Bool) (sock k : ℕ) (s : Slot) (t chosen : Table)
    → choose_slot t ≡ some (k, chosen)
    → slot_at chosen.slots k ≡ some s
    → Gives k sock
        (not locks_ok || (handshake_ok && thread_ok))
        chosen
        (ws_accept locks_ok handshake_ok thread_ok sock t).1
unfolding ws_accept
ws_accept-Gives false handshake_ok thread_ok sock k s t chosen e at =
    rw (e, ws_accept) (fill_slot-Gives k sock s chosen at)
ws_accept-Gives true true true sock k s t chosen e at =
    rw (e, ws_accept) (fill_slot-Gives k sock s chosen at)
ws_accept-Gives true true false sock k s t chosen e at =
    rw (e, ws_accept) (fill_close-Gives k sock s chosen at)
ws_accept-Gives true false thread_ok sock k s t chosen e at =
    rw (e, ws_accept) (fill_close-Gives k sock s chosen at)
