-- ===== src/WebSocket/Clients/Oldest.antt =====
-- Which client has to go when all slots are taken.
use basic_setup.Prelude.{
  ℕ, zero, suc, ◌+◌, ◌≤◌, ◌<◌, ◌≡◌, ◌≢◌, refl, sym, ap, ◌∙◌, Option, none, some, List, [], ◌∷◌,
  length, min, ltb, arith, Bool-cases, Option-cases, inl, inr,
}
use basic_setup.WebSocket.Clients.{Slot, Table, long_max, scan, choose_slot, close_client}

unfoldable pub AllTaken : List Slot → Type 0
AllTaken [] = Unit {0}
AllTaken (s ∷ slots) = (s.client_sock ≢ none) × AllTaken slots

-- The least sequence number, and at most `seq`.
unfoldable pub least : List Slot → ℕ → ℕ
least [] seq = seq
least (s ∷ slots) seq = least slots (min s.conn_seq seq)

-- The sequence number in slot `k`.
unfoldable pub seq_at : List Slot → ℕ → ℕ
seq_at [] k = 0
seq_at (s ∷ slots) zero = s.conn_seq
seq_at (s ∷ slots) (suc k) = seq_at slots k

least-le : (slots : List Slot) (seq : ℕ) → least slots seq ≤ seq
unfolding least
least-le [] seq = omega arith
least-le (s ∷ slots) seq = omega (arith, least-le slots (min s.conn_seq seq))

scan-oldest :
    (i : ℕ) (slots : List Slot) (seq : ℕ) (oldest : Option ℕ)
    → AllTaken slots
    → (least slots seq ≡ seq → scan i slots seq oldest ≡ (none, oldest))
      × (least slots seq < seq
          → (k : ℕ) × (scan i slots seq oldest ≡ (none, some (i + k)))
            × (k < length slots)
            × (seq_at slots k ≡ least slots seq))
unfolding scan AllTaken least seq_at
scan-oldest i [] seq oldest taken = (λ e. refl, λ h. absurd (omega arith))
scan-oldest i (s ∷ slots) seq oldest (busy, taken) = elim (Option-cases s.client_sock) [
  | inl free ↦ absurd (busy free)
  | inr (fd, e) ↦ elim (Bool-cases (ltb s.conn_seq seq)) [
    | inl older ↦
        let first : min s.conn_seq seq ≡ s.conn_seq = ground (arith, older) in
        let sooner : s.conn_seq < seq = ground (arith, older) in
        let bound = least-le slots s.conn_seq in
        let here = scan-oldest (suc i) slots s.conn_seq (some i) taken in
        rw (e, scan, older, first)
          (
            λ eq. absurd (omega (arith, eq, bound, sooner)),
            λ h. elim (Bool-cases (ltb (least slots s.conn_seq) s.conn_seq)) [
              | inl lower ↦
                  let (k, found, inside, same) = here.1 (ground (arith, lower)) in
                  (suc k, found ∙ ap (λ n. (none, some n)) (deeper k), omega (arith, inside), same)
              | inr equal ↦
                  let same : least slots s.conn_seq ≡ s.conn_seq = ground (arith, equal, bound) in
                  (0, here.0 same ∙ ap (λ n. (none, some n)) here_at, omega arith, sym same)
            ],
          )
    | inr younger ↦
        let first : min s.conn_seq seq ≡ seq = ground (arith, younger) in
        let there = scan-oldest (suc i) slots seq oldest taken in
        rw (e, scan, younger, first)
          (
            there.0,
            λ h.
                let (k, found, inside, same) = there.1 h in
                (suc k, found ∙ ap (λ n. (none, some n)) (deeper k), omega (arith, inside), same),
          )
  ]
]
  where
    deeper : (k : ℕ) → suc i + k ≡ i + suc k
    deeper k = omega arith

    here_at : i ≡ i + 0
    here_at = omega arith

choose_slot-scan :
    (t : Table) (k : ℕ)
    → scan 0 t.slots long_max none ≡ (none, some k)
    → choose_slot t ≡ some (k, close_client k t)
unfolding choose_slot
choose_slot-scan t k e =
    let free : (scan 0 t.slots long_max none).0 ≡ none = ap (λ r. r.0) e in
    let oldest : (scan 0 t.slots long_max none).1 ≡ some k = ap (λ r. r.1) e in
    rw (free, choose_slot, oldest) refl

-- When all slots are taken, and one of the clients has a sequence number below LONG_MAX, the
-- client that is closed for a new one has the least sequence number.
pub choose_slot-least :
    (t : Table)
    → AllTaken t.slots
    → least t.slots long_max < long_max
    → (k : ℕ) × (choose_slot t ≡ some (k, close_client k t))
      × (k < length t.slots)
      × (seq_at t.slots k ≡ least t.slots long_max)
choose_slot-least t taken h =
    let (k, found, inside, same) = (scan-oldest 0 t.slots long_max none taken).1 h in
    let at : 0 + k ≡ k = omega arith in
    (k, choose_slot-scan t k (found ∙ ap (λ n. (none, some n)) at), inside, same)
