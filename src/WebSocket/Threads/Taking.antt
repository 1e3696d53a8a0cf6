-- ===== src/WebSocket/Threads/Taking.antt =====
-- `ws_accept` and the descriptors.
use basic_setup.Prelude.{
  ℕ, suc, ◌+◌, ◌≡◌, refl, sym, ap, ◌∙◌, subst, Bool, ◌&&◌, Option, none, some, List, [], ◌∷◌,
  length, ltb, arith, Option-cases, if_both, ◌⊎◌, inl, inr,
}
use basic_setup.Http.{Accepted, accepted, refused}
use basic_setup.WebSocket.Clients.{
  Slot, Table, long_max, slot_at, close_client, scan, choose_slot, fill_slot, ws_accept,
}
use basic_setup.WebSocket.Clients.Accept.{length-put_slot, filled}
use basic_setup.WebSocket.Timeout.Expiry.{closes}
use basic_setup.WebSocket.Threads.{took}
use basic_setup.WebSocket.Threads.Slots.{
  one, tally, holds, balance, AllCoherent, Keeps, Keeps-refl, held-put_slot, AllCoherent-put_slot,
}
use basic_setup.WebSocket.Threads.Operations.{close_client-Keeps}

-- A slot without a socket.
abbrev IsEmpty : ℕ → List Slot → Type 0
IsEmpty k slots = (s : Slot) × (slot_at slots k ≡ some s) × (s.client_sock ≡ none)

-- A slot with one.
abbrev IsTaken : ℕ → List Slot → Type 0
IsTaken k slots = (s : Slot) × (fd : ℕ) × (slot_at slots k ≡ some s) × (s.client_sock ≡ some fd)

-- Where the scan from slot `i` can find something: `i` slots before these.
abbrev Behind : (ℕ → List Slot → Type 0) → ℕ → List Slot → ℕ → Type 0
Behind P i slots k = (j : ℕ) × (k ≡ i + j) × P j slots

-- What the scan finds.
abbrev Found : ℕ → List Slot → Option ℕ → Option ℕ × Option ℕ → Type 0
Found i slots oldest (some k, o) = Behind IsEmpty i slots k
Found i slots oldest (none, none) = Unit {0}
Found i slots oldest (none, some k) = (oldest ≡ some k) ⊎ Behind IsTaken i slots k

record IsFound (i : ℕ) (slots : List Slot) (oldest : Option ℕ) (r : Option ℕ × Option ℕ)
    : Type 0 where
  found : Found i slots oldest r

further :
    (i : ℕ) (s : Slot) (slots : List Slot) (fd : ℕ) (old oldest : Option ℕ)
    (r : Option ℕ × Option ℕ)
    → s.client_sock ≡ some fd
    → (old ≡ oldest) ⊎ (old ≡ some i)
    → Found (suc i) slots old r
    → Found i (s ∷ slots) oldest r
unfolding slot_at
further i s slots fd old oldest (some k, o) busy h (j, e, found) = (suc j, omega (arith, e), found)
further i s slots fd old oldest (none, none) busy h f = tt
further i s slots fd old oldest (none, some k) busy h (inr (j, e, found)) =
    inr (suc j, omega (arith, e), found)
further i s slots fd old oldest (none, some k) busy (inl same) (inl e) = inl (sym same ∙ e)
further i s slots fd old oldest (none, some k) busy (inr here) (inl e) =
    let at : some i ≡ some k = sym here ∙ e in inr (0, ground arith, (s, fd, refl, busy))

scan-IsFound :
    (i : ℕ) (slots : List Slot) (seq : ℕ) (oldest : Option ℕ)
    → IsFound i slots oldest (scan i slots seq oldest)
unfolding scan slot_at
scan-IsFound i [] seq none = record { found = tt }
scan-IsFound i [] seq (some k) = record { found = inl refl }
scan-IsFound i (s ∷ slots) seq oldest = elim (Option-cases s.client_sock) [
  | inl free ↦ simp (scan, free) (record { found = (0, omega arith, (s, refl, free)) })
  | inr (fd, busy) ↦
      simp (scan, busy)
        (if_both (IsFound i (s ∷ slots) oldest) (ltb s.conn_seq seq) _ _
          (record {
            found =
                further i s slots fd (some i) oldest _ busy (inr refl)
                  (scan-IsFound (suc i) slots s.conn_seq (some i)).found;
          })
          (record {
            found =
                further i s slots fd oldest oldest _ busy (inl refl)
                  (scan-IsFound (suc i) slots seq oldest).found;
          }))
]

-- The slot that is chosen, and the table by then.
record IsReady (t : Table) (k : ℕ) (t' : Table) : Type 0 where
  kept : Keeps t t'
  free : IsEmpty k t'.slots

-- What `choose_slot` gives.
abbrev Ready : Table → Option (ℕ × Table) → Type 0
Ready t none = Unit {0}
Ready t (some (k, t')) = IsReady t k t'

ready :
    (t : Table) (r : Option ℕ × Option ℕ)
    → Found 0 t.slots none r
    → Ready t (elim r.0 [
      | some i ↦ some (i, t)
      | none ↦ elim r.1 [ none ↦ none | some i ↦ some (i, close_client i t) ]
    ])
ready t (some k, o) (j, e, found) =
    let at : j ≡ k = omega arith in
    record { kept = Keeps-refl t; free = subst (λ n. IsEmpty n t.slots) at found }
ready t (none, none) f = tt
ready t (none, some k) (inl e) = cc
ready t (none, some k) (inr (j, e, (s, fd, found, busy))) =
    let at : j ≡ k = omega arith in
    let here = subst (λ n. slot_at t.slots n ≡ some s) at found in
    let ((shut, there, free, closed), _) = closes k fd t s here busy in
    record { kept = close_client-Keeps k t; free = (shut, there, free) }

choose_slot-Ready : (t : Table) → Ready t (choose_slot t)
unfolding choose_slot
choose_slot-Ready t =
    ready t (scan 0 t.slots long_max none) (scan-IsFound 0 t.slots long_max none).found

-- The table with a socket more.
pub record Grows (sock : ℕ) (t t' : Table) : Type 0 where
  pub count : length t'.slots ≡ length t.slots
  pub coherent : AllCoherent t.slots → AllCoherent t'.slots
  pub balanced : (fd : ℕ) → balance fd t' ≡ balance fd t + one fd sock

fill_slot-Grows :
    (k sock : ℕ) (s : Slot) (t : Table)
    → slot_at t.slots k ≡ some s
    → s.client_sock ≡ none
    → Grows sock t (fill_slot k sock t)
unfolding fill_slot
fill_slot-Grows k sock s t e free =
    let new = filled sock t s in
    let had : (fd : ℕ) → holds fd s.client_sock ≡ 0 = λ fd. ap (holds fd) free in
    rw (e, fill_slot)
      (record {
        count = length-put_slot t.slots k new;
        coherent = λ c. AllCoherent-put_slot t.slots k new tt c;
        balanced = λ fd. omega (arith, held-put_slot fd t.slots k s new e, had fd);
      })

Keeps-Grows : {sock : ℕ} {t u v : Table} → Keeps t u → Grows sock u v → Grows sock t v
Keeps-Grows k g = record {
  count = g.count ∙ k.count;
  coherent = λ c. g.coherent (k.coherent c);
  balanced = λ fd. omega (arith, g.balanced fd, k.balanced fd);
}

Grows-Keeps : {sock : ℕ} {t u v : Table} → Grows sock t u → Keeps u v → Grows sock t v
Grows-Keeps g k = record {
  count = k.count ∙ g.count;
  coherent = λ c. k.coherent (g.coherent c);
  balanced = λ fd. k.balanced fd ∙ g.balanced fd;
}

-- The table and the sockets that were taken over, behind `ws_accept`.
pub record Takes (sock : ℕ) (given : List ℕ) (t : Table) (r : Accepted × Table) : Type 0 where
  pub count : length r.1.slots ≡ length t.slots
  pub coherent : AllCoherent t.slots → AllCoherent r.1.slots
  pub balanced :
      (fd : ℕ) → balance fd t ≡ tally fd given → balance fd r.1 ≡ tally fd (took r.0 sock given)

accepted-Takes :
    (sock : ℕ) (given : List ℕ) (t t' : Table) → Grows sock t t' → Takes sock given t (accepted, t')
accepted-Takes sock given t t' g = record {
  count = g.count;
  coherent = g.coherent;
  balanced = λ fd e. omega (arith, g.balanced fd, e);
}

refused-Takes :
    (sock : ℕ) (given : List ℕ) (t t' : Table) → Grows sock t t' → Takes sock given t (refused, t')
refused-Takes sock given t t' g = record {
  count = g.count;
  coherent = g.coherent;
  balanced = λ fd e. omega (arith, g.balanced fd, e);
}

pub ws_accept-Takes :
    (locks_ok handshake_ok thread_ok : Bool) (sock : ℕ) (given : List ℕ) (t : Table)
    → Takes sock given t (ws_accept locks_ok handshake_ok thread_ok sock t)
unfolding ws_accept
ws_accept-Takes locks_ok handshake_ok thread_ok sock given t = elim (Option-cases (choose_slot t)) [
  | inl e ↦ rw (e, ws_accept) (record { count = refl; coherent = λ c. c; balanced = λ fd h. h })
  | inr ((k, t1), e) ↦
      let chosen : IsReady t k t1 = subst (Ready t) e (choose_slot-Ready t) in
      let (s, at, free) = chosen.free in
      let g = Keeps-Grows chosen.kept (fill_slot-Grows k sock s t1 at free) in
      let filled = fill_slot k sock t1 in
      let Q = Takes sock given t in
      rw (e, ws_accept)
        (if_both Q locks_ok _ _
          (if_both Q (handshake_ok && thread_ok) _ _ (accepted-Takes sock given t filled g) (
            refused-Takes sock given t (close_client k filled)
              (Grows-Keeps g (close_client-Keeps k filled))))
          (refused-Takes sock given t filled g))
]
