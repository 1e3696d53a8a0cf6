-- ===== src/WebSocket/Threads/Overlap.antt =====
-- `close_client` of components/web/src/web-socket.c in its two parts: CLIENT_VALID, the state and
-- `close_socket`, which no mutex guards, and the end, which frees the slot.
use basic_setup.Prelude.{
  ℕ, zero, suc, ◌≡◌, refl, sym, ap, ◌∙◌, Bool, true, false, none, some, List, [], ◌∷◌, ◌++◌,
  append_assoc, if◌then◌else◌, Option-cases, inl, inr,
}
use basic_setup.WebSocket.Clients.{
  Slot, Table, ws_closed, slot_at, put_slot, valid_slot, close_client, fill_slot,
}
use basic_setup.WebSocket.Clients.Accept.{slot_at-put_slot, sock_of, fill_slot_lem}

-- The first part, with whether the client was valid.
unfoldable pub shut_socket : ℕ → Table → Bool × Table
unfolding valid_slot put_slot
shut_socket i t = elim (valid_slot i t) [
  | none ↦ (false, t)
  | some r ↦ (
    true,
    record t {
      slots = put_slot t.slots i (record (r.0) { state = ws_closed });
      closed = t.closed ++ (r.1 ∷ []);
    },
  )
]

-- The second part, whoever has the slot by then.
unfoldable pub clear_slot : ℕ → Table → Table
unfolding slot_at put_slot
clear_slot i t = elim (slot_at t.slots i) [
  | none ↦ t
  | some s ↦ record t { slots = put_slot t.slots i (record s { client_sock = none }) }
]

-- A call that no other thread interrupts.
unfoldable pub uninterrupted : ℕ → Table → Table
unfolding shut_socket clear_slot
uninterrupted i t = let (found, t') = shut_socket i t in if found then clear_slot i t' else t'

put_slot_twice :
    (slots : List Slot) (i : ℕ) (a b : Slot)
    → put_slot (put_slot slots i a) i b ≡ put_slot slots i b
unfolding put_slot
put_slot_twice [] i a b = refl
put_slot_twice (s ∷ slots) zero a b = refl
put_slot_twice (s ∷ slots) (suc i) a b = ap (λ xs. s ∷ xs) (put_slot_twice slots i a b)

uninterrupted-close_client : (i : ℕ) (t : Table) → uninterrupted i t ≡ close_client i t
unfolding uninterrupted shut_socket clear_slot close_client valid_slot
uninterrupted-close_client i t = elim (Option-cases (slot_at t.slots i)) [
  | inl e ↦ rw (e, uninterrupted, shut_socket, close_client, valid_slot) refl
  | inr (s, e) ↦ elim (Option-cases s.client_sock) [
    | inl g ↦ rw (e, g, uninterrupted, shut_socket, clear_slot, close_client, valid_slot) refl
    | inr (fd, g) ↦
        let s' = record s { state = ws_closed } in
        let t' : Table = record t {
          slots = put_slot t.slots i s';
          closed = t.closed ++ (fd ∷ []);
        } in
        let first : shut_socket i t ≡ (true, t') = simp (e, g, shut_socket, valid_slot) refl in
        let there : slot_at t'.slots i ≡ some s' = slot_at-put_slot t.slots i s s' e in
        let second : clear_slot i t'
            ≡ record t' { slots = put_slot t'.slots i (record s' { client_sock = none }) } =
          rw (there, clear_slot) refl in
        let whole : close_client i t
            ≡ record t' { slots = put_slot t.slots i (record s' { client_sock = none }) } =
          simp (e, g, close_client, valid_slot) refl in
        ap (λ (r : Bool × Table). if r.0 then clear_slot i r.1 else r.1) first
        ∙ second
        ∙ ap (λ xs. record t' { slots = xs })
            (put_slot_twice t.slots i s' (record s' { client_sock = none }))
        ∙ sym whole
  ]
]

-- A client in slot `i`, with its socket.
abbrev pub At : ℕ → ℕ → Table → Type 0
At i fd t = (s : Slot) × (slot_at t.slots i ≡ some s) × (s.client_sock ≡ some fd)

shut_socket-At :
    (i fd : ℕ) (t : Table)
    → At i fd t
    → ((shut_socket i t).0 ≡ true)
      × At i fd (shut_socket i t).1
      × ((shut_socket i t).1.closed ≡ t.closed ++ (fd ∷ []))
unfolding shut_socket valid_slot
shut_socket-At i fd t (s, at, sock) =
    let there = slot_at-put_slot t.slots i s (record s { state = ws_closed }) at in
    rw (at, shut_socket, sock) (refl, (record s { state = ws_closed }, there, sock), refl)

clear_slot-sock :
    (i : ℕ) (t : Table) (s : Slot)
    → slot_at t.slots i ≡ some s
    → (slot_at (clear_slot i t).slots i ≡ some (record s { client_sock = none }))
      × ((clear_slot i t).closed ≡ t.closed)
unfolding clear_slot
clear_slot-sock i t s at = rw (at, clear_slot) (slot_at-put_slot t.slots i s _ at, refl)

fill_slot-closed :
    (i sock : ℕ) (t : Table) (s : Slot)
    → slot_at t.slots i ≡ some s
    → (fill_slot i sock t).closed ≡ t.closed
unfolding fill_slot
fill_slot-closed i sock t s at = rw (at, fill_slot) refl

-- A call of `close_client` that no other thread interrupts is its two parts, one after the other. If
-- two calls for a client in a slot overlap, so that both do the first part before one does the
-- second, its descriptor is closed twice; and if `ws_accept` gives the slot to a new socket between
-- the second parts of the two, the slot then has no socket and the new one was not closed: it is
-- lost.
pub close_client-overlap :
    (i fd new : ℕ) (t : Table)
    → At i fd t
    → let twice = shut_socket i (shut_socket i t).1 in
      let freed = clear_slot i twice.1 in
      let lost = clear_slot i (fill_slot i new freed) in
      (uninterrupted i t ≡ close_client i t)
      × (twice.0 ≡ true)
      × (freed.closed ≡ t.closed ++ (fd ∷ fd ∷ []))
      × (sock_of (slot_at (fill_slot i new freed).slots i) ≡ some new)
      × (sock_of (slot_at lost.slots i) ≡ none)
      × (lost.closed ≡ t.closed ++ (fd ∷ fd ∷ []))
close_client-overlap i fd new t k =
    let (_, k1, closed1) = shut_socket-At i fd t k in
    let (found, k2, closed2) = shut_socket-At i fd (shut_socket i t).1 k1 in
    let twice = (shut_socket i (shut_socket i t).1).1 in
    let (at, shut) = clear_slot-sock i twice k2.0 k2.1 in
    let freed = clear_slot i twice in
    let given = fill_slot_lem i new _ freed at in
    let (at', shut') = clear_slot-sock i (fill_slot i new freed) _ given in
    let both : freed.closed ≡ t.closed ++ (fd ∷ fd ∷ []) =
      shut
      ∙ closed2
      ∙ ap (λ xs. xs ++ (fd ∷ [])) closed1
      ∙ append_assoc t.closed (fd ∷ []) (fd ∷ []) in
    (
      uninterrupted-close_client i t,
      found,
      both,
      ap sock_of given,
      ap sock_of at',
      shut' ∙ fill_slot-closed i new freed _ at ∙ both,
    )
