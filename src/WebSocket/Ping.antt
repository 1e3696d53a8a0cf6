-- ===== src/WebSocket/Ping.antt =====
-- `ws_ping`: the PING frames, and the end of a client that does not answer them.
use basic_setup.Prelude.{
  ℕ, zero, suc, ◌+◌, ◌≤◌, ◌<◌, ◌≡◌, refl, subst, true, false, Option, none, some, List, [], ◌∷◌,
  ◌++◌, ltb, if◌then◌else◌, arith,
}
use basic_setup.Prelude.Int.{pos}
use basic_setup.Device.{Effect, ws_sendframe}
use basic_setup.Device.Op
use basic_setup.WebSocket.Control.{int32_to_ping_msg}
use basic_setup.WebSocket.Clients.Accept.{slot_at-put_slot}
use basic_setup.WebSocket.Clients.{
  Slot, Table, ws_open, ws_closed, valid_slot, slot_at, put_slot, close_client, max_clients,
}

-- An id one higher; -1 is `none`.
abbrev pub next_id : Option ℕ → ℕ
next_id none = 0
next_id (some n) = n + 1

-- `send_ping_close`: the PING with the next id, and the end of a client that is more than
-- `threshold` answers behind. Ids stay below 2 ^ 31 here.
unfoldable pub send_ping_close : ℕ → ℕ → Table → Table × List Effect
unfolding int32_to_ping_msg
send_ping_close i threshold t = elim (valid_slot i t) [
  | none ↦ (t, [])
  | some r ↦ elim r.0.state [
    | ws_open ↦
        let id = next_id r.0.current_ping_id in
        let pinged = record t {
          slots = put_slot t.slots i (record (r.0) { current_ping_id = some id });
        } in
        let out = ws_sendframe (some i) (int32_to_ping_msg (pos id)) Op.ping ∷ [] in
        if ltb (next_id r.0.last_pong_id + threshold) (id + 1)
        then (close_client i pinged, out)
        else (pinged, out)
    | _ ↦ (t, [])
  ]
]

-- The broadcast of `ws_ping`, over `n` slots from slot `i`.
unfoldable pub ping_all : ℕ → ℕ → ℕ → Table → Table × List Effect
unfolding send_ping_close
ping_all zero i threshold t = (t, [])
ping_all (suc n) i threshold t =
    let (t', out) = send_ping_close i threshold t in
    let (t'', out') = ping_all n (suc i) threshold t' in (t'', out ++ out')

-- `ws_ping`; a client of `none` is a broadcast, and a threshold of 0 stands for all that are not
-- positive.
unfoldable pub ws_ping : Option ℕ → ℕ → Table → Table × List Effect
unfolding ping_all
ws_ping cli zero t = (t, [])
ws_ping (some i) (suc k) t = send_ping_close i (suc k) t
ws_ping none (suc k) t = ping_all max_clients 0 (suc k) t

-- An open client in slot `i` that is `gap` answers behind.
pub record Behind (i fd gap : ℕ) (t : Table) : Type 0 where
  pub slot : Slot
  pub at : slot_at t.slots i ≡ some slot
  pub taken : slot.client_sock ≡ some fd
  pub usable : slot.state ≡ ws_open
  pub gap_is : next_id slot.current_ping_id ≡ next_id slot.last_pong_id + gap

-- `k` PING frames to the client in slot `i`, with no PONG between them.
pub pings : ℕ → ℕ → ℕ → Table → Table
pings zero i threshold t = t
pings (suc k) i threshold t = pings k i threshold (ws_ping (some i) threshold t).0

-- A slot that is free again.
abbrev pub IsFree : ℕ → Table → Type 0
IsFree i t =
    (s : Slot) × (slot_at t.slots i ≡ some s) × (s.client_sock ≡ none) × (s.state ≡ ws_closed)

ping-Behind :
    (i fd gap threshold : ℕ) (t : Table)
    → Behind i fd gap t
    → gap < threshold
    → Behind i fd (suc gap) (ws_ping (some i) threshold t).0
unfolding ws_ping send_ping_close valid_slot
ping-Behind i fd gap zero t b h = absurd (omega arith)
ping-Behind i fd gap (suc k) t b h =
    let late : ltb (next_id b.slot.last_pong_id + suc k) (next_id b.slot.current_ping_id + 1)
        ≡ false =
      ground (arith, b.gap_is) in
    let pinged = record (b.slot) { current_ping_id = some (next_id b.slot.current_ping_id) } in
    rw (b.at, send_ping_close, b.taken, b.usable, late)
      (record {
        slot = pinged;
        at = slot_at-put_slot t.slots i b.slot pinged b.at;
        taken = b.taken;
        usable = b.usable;
        gap_is = omega (arith, b.gap_is);
      })

ping-IsFree :
    (i fd gap threshold : ℕ) (t : Table)
    → 0 < threshold
    → Behind i fd gap t
    → threshold ≤ gap
    → IsFree i (ws_ping (some i) threshold t).0
unfolding ws_ping send_ping_close valid_slot close_client
ping-IsFree i fd gap zero t h0 b h = absurd (omega arith)
ping-IsFree i fd gap (suc k) t h0 b h =
    let late : ltb (next_id b.slot.last_pong_id + suc k) (next_id b.slot.current_ping_id + 1)
        ≡ true =
      ground (arith, b.gap_is) in
    let pinged = record (b.slot) { current_ping_id = some (next_id b.slot.current_ping_id) } in
    let slots = put_slot t.slots i pinged in
    let there : slot_at slots i ≡ some pinged = slot_at-put_slot t.slots i b.slot pinged b.at in
    let shut = record pinged { state = ws_closed; client_sock = none } in
    let closed : slot_at (close_client i (record t { slots = slots })).slots i ≡ some shut =
      rw (there, close_client, b.taken) (slot_at-put_slot slots i pinged shut there) in
    rw (b.at, send_ping_close, b.taken, b.usable, late) (shut, closed, refl, refl)

pings-Behind :
    (k i fd gap threshold : ℕ) (t : Table)
    → Behind i fd gap t
    → gap + k ≤ threshold
    → Behind i fd (gap + k) (pings k i threshold t)
unfolding pings
pings-Behind zero i fd gap threshold t b h = let e : gap + 0 ≡ gap = omega arith in rw e b
pings-Behind (suc k) i fd gap threshold t b h =
    let e : gap + suc k ≡ suc gap + k = omega arith in
    rw e (
      pings-Behind k i fd (suc gap) threshold (ws_ping (some i) threshold t).0
        (ping-Behind i fd gap threshold t b (omega arith)) (omega arith))

pings-IsFree :
    (k i fd gap threshold : ℕ) (t : Table)
    → 0 < threshold
    → Behind i fd gap t
    → gap + k ≡ threshold
    → IsFree i (pings (suc k) i threshold t)
unfolding pings
pings-IsFree zero i fd gap threshold t h0 b h = ping-IsFree i fd gap threshold t h0 b (omega arith)
pings-IsFree (suc k) i fd gap threshold t h0 b h =
    pings-IsFree k i fd (suc gap) threshold (ws_ping (some i) threshold t).0 h0
      (ping-Behind i fd gap threshold t b (omega arith)) (omega arith)

-- A client that has answered every PING so far and answers no further one stays open for as many
-- PING frames as the threshold, which is positive, and the next one closes it and frees its slot.
pub ws_ping-IsFree :
    (i fd threshold : ℕ) (t : Table)
    → 0 < threshold
    → Behind i fd 0 t
    → ((k : ℕ) → k ≤ threshold → Behind i fd k (pings k i threshold t))
      × IsFree i (pings (suc threshold) i threshold t)
ws_ping-IsFree i fd threshold t h0 b =
    let zero_plus : (k : ℕ) → 0 + k ≡ k = λ k. omega arith in
    (
      λ k h.
          subst (λ n. Behind i fd n (pings k i threshold t)) (zero_plus k)
            (pings-Behind k i fd 0 threshold t b (omega arith)),
      pings-IsFree threshold i fd 0 threshold t h0 b (omega arith),
    )
