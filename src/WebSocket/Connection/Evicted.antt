-- ===== src/WebSocket/Connection/Evicted.antt =====
-- A new client in the slot of a client whose thread has not ended yet.
use basic_setup.Prelude.{
  ℕ, zero, suc, ◌<◌, ◌≡◌, refl, ap, ◌∙◌, true, none, some, List, [], ◌∷◌, ◌++◌, append_assoc,
  length, arith, Option-cases, inl, inr,
}
use basic_setup.WebSocket.Clients.{
  Slot, Table, long_max, slot_at, valid_slot, close_client, choose_slot, ws_accept,
}
use basic_setup.WebSocket.Clients.Accept.{
  length-put_slot, filled, fill_slot_lem, sock_of, ws_accept-Gives,
}
use basic_setup.WebSocket.Clients.Oldest.{AllTaken, least, seq_at, choose_slot-least}
use basic_setup.WebSocket.Connection.{end_connection}
use basic_setup.WebSocket.Timeout.Expiry.{closes}
use basic_setup.WebSocket.Connection.Ends.{Taken, end_connection-closes}

ws_accept-Taken :
    (sock k : ℕ) (s : Slot) (t chosen : Table)
    → choose_slot t ≡ some (k, chosen)
    → slot_at chosen.slots k ≡ some s
    → Taken k sock (ws_accept true true true sock t).1
unfolding ws_accept
ws_accept-Taken sock k s t chosen e at =
    rw (e, ws_accept) (filled sock chosen s, fill_slot_lem k sock s chosen at, refl, λ c. cc)

socket : (k sock : ℕ) (t : Table) → Taken k sock t → sock_of (slot_at t.slots k) ≡ some sock
socket k fd t (s, at, sock, usable) = ap sock_of at ∙ sock

slot_in : (slots : List Slot) (k : ℕ) → k < length slots → (s : Slot) × (slot_at slots k ≡ some s)
unfolding slot_at
slot_in [] k h = absurd (omega arith)
slot_in (s ∷ slots) zero h = (s, refl)
slot_in (s ∷ slots) (suc k) h = slot_in slots k (omega arith)

length-close_client : (k : ℕ) (t : Table) → length (close_client k t).slots ≡ length t.slots
unfolding close_client
length-close_client k t = elim (Option-cases (valid_slot k t)) [
  | inl e ↦ rw (e, close_client) refl
  | inr (r, e) ↦ rw (e, close_client) (length-put_slot t.slots k _)
]

-- The socket of a slot of a full table.
sock_in :
    (slots : List Slot) (k : ℕ)
    → AllTaken slots
    → k < length slots
    → (s : Slot) × (fd : ℕ) × (slot_at slots k ≡ some s) × (s.client_sock ≡ some fd)
unfolding slot_at AllTaken
sock_in [] k full h = absurd (omega arith)
sock_in (s ∷ slots) zero (n, full) h = elim (Option-cases s.client_sock) [
  | inl e ↦ absurd (n e)
  | inr (fd, e) ↦ (s, fd, refl, e)
]
sock_in (s ∷ slots) (suc k) (n, full) h = sock_in slots k full (omega arith)

-- When all slots are taken, with a sequence number below LONG_MAX, `ws_accept` closes the socket of
-- the oldest client, once and no other, and gives its slot to the new one. The thread of the closed
-- client ends behind that, and its end closes the socket of the new client.
pub end_connection-ws_accept :
    (sock : ℕ) (t : Table)
    → AllTaken t.slots
    → least t.slots long_max < long_max
    → let t' = (ws_accept true true true sock t).1 in
      (k : ℕ) × (old : ℕ) × (seq_at t.slots k ≡ least t.slots long_max)
      × (sock_of (slot_at t.slots k) ≡ some old)
      × (t'.closed ≡ t.closed ++ (old ∷ []))
      × (sock_of (slot_at t'.slots k) ≡ some sock)
      × (sock_of (slot_at (end_connection k t').slots k) ≡ none)
      × ((end_connection k t').closed ≡ t.closed ++ (old ∷ sock ∷ []))
end_connection-ws_accept sock t full h =
    let (k, e, inside, same) = choose_slot-least t full h in
    let (old_slot, old, there, busy) = sock_in t.slots k full inside in
    let (s, at) =
      slot_in (close_client k t).slots k (omega (arith, length-close_client k t, inside)) in
    let t' = (ws_accept true true true sock t).1 in
    let taken = ws_accept-Taken sock k s t (close_client k t) e at in
    let gives = ws_accept-Gives true true true sock k s t (close_client k t) e at in
    let shut_old : t'.closed ≡ t.closed ++ (old ∷ []) =
      gives.1 ∙ (closes k old t old_slot there busy).1 in
    let (free, shut) = end_connection-closes k sock t' taken in
    (
      k,
      old,
      same,
      ap sock_of there ∙ busy,
      shut_old,
      socket k sock t' taken,
      free,
      shut ∙ ap (λ xs. xs ++ (sock ∷ [])) shut_old ∙ append_assoc t.closed (old ∷ []) (sock ∷ []),
    )
