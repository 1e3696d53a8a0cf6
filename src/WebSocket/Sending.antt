-- ===== src/WebSocket/Sending.antt =====
-- `send_all`, and the clients that a frame of `ws_sendframe` goes to.
use basic_setup.Prelude.{
  ℕ, suc, ◌+◌, ◌≤◌, ◌<◌, ◌≡◌, ◌≢◌, refl, sym, ap, ◌∙◌, Bool, true, false, Option, none, some, List,
  [], ◌∷◌, ◌++◌, append_assoc, append-nil, length, length-append, length-drop, take, drop,
  take-append-drop, if◌then◌else◌, arith, ◌⊎◌, inl, inr, Bool-cases, Option-cases,
}
use basic_setup.WebSocket.Clients.{Slot, ws_open}

-- What `send_all` and `ws_sendframe` return: the count, or -1; `blocked` stands for a call of `send`
-- without a result, and `overflowed` for an `int` that does not hold what is counted in it.
pub data Sent : Type 0 where
  sent : ℕ → Sent
  broken blocked overflowed : Sent

-- `results` are those of `send`, `none` for -1; the bytes that it took are collected in `out`.
unfoldable pub send_all : List (Option ℕ) → List ℕ → ℕ → List ℕ → Sent × List ℕ
send_all results [] ret out = (sent ret, out)
send_all [] (b ∷ bs) ret out = (blocked, out)
send_all (none ∷ results) (b ∷ bs) ret out = (broken, out)
send_all (some r ∷ results) (b ∷ bs) ret out =
    send_all results (drop r (b ∷ bs)) (ret + r) (out ++ take r (b ∷ bs))

-- `send` takes at least one byte and at most those it is given.
unfoldable pub Partly : List (Option ℕ) → List ℕ → Type 0
Partly [] buf = Unit
Partly (none ∷ results) buf = Unit
Partly (some r ∷ results) [] = Unit
Partly (some r ∷ results) (b ∷ bs) =
    (0 < r) × (r ≤ suc (length bs)) × Partly results (drop r (b ∷ bs))

-- What was written, `out`, is a beginning of `all`; with success it is all of it.
abbrev Delivers : List ℕ → Sent × List ℕ → Type 0
Delivers all (sent n, out) = (out ≡ all) × (n ≡ length all)
Delivers all (broken, out) = (rest : List ℕ) × (out ++ rest ≡ all)
Delivers all (blocked, out) = (rest : List ℕ) × (out ++ rest ≡ all)
Delivers all (overflowed, out) = ⊥

send_all-Delivers :
    (results : List (Option ℕ)) (buf out all : List ℕ) (ret : ℕ)
    → Partly results buf
    → out ++ buf ≡ all
    → ret ≡ length out
    → Delivers all (send_all results buf ret out)
unfolding send_all Partly
send_all-Delivers [] [] out all ret p e c =
    let whole : out ≡ all = sym (append-nil out) ∙ e in (whole, c ∙ ap length whole)
send_all-Delivers (r ∷ rs) [] out all ret p e c =
    let whole : out ≡ all = sym (append-nil out) ∙ e in (whole, c ∙ ap length whole)
send_all-Delivers [] (b ∷ bs) out all ret p e c = (b ∷ bs, e)
send_all-Delivers (none ∷ results) (b ∷ bs) out all ret p e c = (b ∷ bs, e)
send_all-Delivers (some r ∷ results) (b ∷ bs) out all ret (pos, le, p) e c =
    send_all-Delivers results (drop r (b ∷ bs)) (out ++ take r (b ∷ bs)) all (ret + r) p
      (append_assoc out (take r (b ∷ bs)) (drop r (b ∷ bs))
        ∙ ap (λ xs. out ++ xs) (take-append-drop r (b ∷ bs))
        ∙ e)
      (omega (
        arith,
        c,
        length-append out (take r (b ∷ bs)),
        length-append (take r (b ∷ bs)) (drop r (b ∷ bs)),
        ap length (take-append-drop r (b ∷ bs)),
        length-drop r (b ∷ bs),
        le,
      ))

send_all-returns :
    (results : List (Option ℕ)) (buf out : List ℕ) (ret : ℕ)
    → Partly results buf
    → length buf ≤ length results
    → (send_all results buf ret out).0 ≢ blocked
unfolding send_all Partly
send_all-returns [] [] out ret p h = λ e. cc
send_all-returns (r ∷ rs) [] out ret p h = λ e. cc
send_all-returns [] (b ∷ bs) out ret p h = absurd (omega arith)
send_all-returns (none ∷ results) (b ∷ bs) out ret p h = λ e. cc
send_all-returns (some r ∷ results) (b ∷ bs) out ret (pos, le, p) h =
    send_all-returns results (drop r (b ∷ bs)) _ _ p (omega (arith, length-drop r (b ∷ bs), pos))

either :
    (all : List ℕ) (r : Sent × List ℕ)
    → Delivers all r
    → r.0 ≢ blocked
    → (r ≡ (sent (length all), all)) ⊎ ((r.0 ≡ broken) × ((rest : List ℕ) × (r.1 ++ rest ≡ all)))
either all (sent n, out) (e, c) h = inl (rw (c, e) refl)
either all (broken, out) d h = inr (refl, d)
either all (blocked, out) d h = absurd (h refl)
either all (overflowed, out) d h = absurd d

-- If each call of `send` takes at least one byte and at most those it is given, or fails, then
-- `send_all` ends within as many calls as there are bytes; with success it returns their number and
-- all of them were written in order, and otherwise a beginning of them.
pub send_all_lem :
    (results : List (Option ℕ)) (buf : List ℕ)
    → Partly results buf
    → length buf ≤ length results
    → ((send_all results buf 0 [] ≡ (sent (length buf), buf)))
      ⊎ (((send_all results buf 0 []).0 ≡ broken)
          × ((rest : List ℕ) × ((send_all results buf 0 []).1 ++ rest ≡ buf)))
send_all_lem results buf p h =
    either buf (send_all results buf 0 []) (send_all-Delivers results buf [] buf 0 p refl refl)
      (send_all-returns results buf [] 0 p h)

-- One of the calls of `send` fails before all bytes have been taken.
unfoldable pub Fails : List (Option ℕ) → List ℕ → Type 0
Fails results [] = ⊥
Fails [] (b ∷ bs) = ⊥
Fails (none ∷ results) (b ∷ bs) = Unit
Fails (some r ∷ results) (b ∷ bs) = Fails results (drop r (b ∷ bs))

pub send_all-Fails :
    (results : List (Option ℕ)) (buf : List ℕ) (ret : ℕ) (out : List ℕ)
    → (send_all results buf ret out).0 ≡ broken
    → Fails results buf
unfolding send_all Fails
send_all-Fails [] [] ret out e = cc
send_all-Fails (r ∷ rs) [] ret out e = cc
send_all-Fails [] (b ∷ bs) ret out e = cc
send_all-Fails (none ∷ results) (b ∷ bs) ret out e = tt
send_all-Fails (some r ∷ results) (b ∷ bs) ret out e =
    send_all-Fails results (drop r (b ∷ bs)) _ _ e

pub Fails-send_all :
    (results : List (Option ℕ)) (buf : List ℕ) (ret : ℕ) (out : List ℕ)
    → Fails results buf
    → (send_all results buf ret out).0 ≡ broken
unfolding send_all Fails
Fails-send_all [] [] ret out f = absurd f
Fails-send_all (r ∷ rs) [] ret out f = absurd f
Fails-send_all [] (b ∷ bs) ret out f = absurd f
Fails-send_all (none ∷ results) (b ∷ bs) ret out f = refl
Fails-send_all (some r ∷ results) (b ∷ bs) ret out f =
    Fails-send_all results (drop r (b ∷ bs)) _ _ f

abbrev pub is_open : Slot → Bool
is_open s = elim s.client_sock [
  | none ↦ false
  | some fd ↦ elim s.state [ ws_open ↦ true | _ ↦ false ]
]

-- The loop of a broadcast from slot `i`: what it returns, -1 being `none`, and the slots that got
-- the frame. `send` is what SEND returns for a slot.
unfoldable pub broadcast : (ℕ → Option ℕ) → ℕ → List Slot → ℕ → Option ℕ × List ℕ
broadcast send i [] output = (some output, [])
broadcast send i (s ∷ slots) output =
    let skip = broadcast send (suc i) slots output in
    if is_open s
    then elim (send i) [
      | none ↦ (none, [])
      | some n ↦
          let (total, reached) = broadcast send (suc i) slots (output + n) in (total, i ∷ reached)
    ]
    else skip

-- The slots of the open clients from slot `i`.
unfoldable pub open_from : ℕ → List Slot → List ℕ
open_from i [] = []
open_from i (s ∷ slots) = if is_open s then i ∷ open_from (suc i) slots else open_from (suc i) slots

-- The beginning of a list before the first failure, and the sum, if there is no failure.
pub before_failure : (ℕ → Option ℕ) → List ℕ → List ℕ
before_failure send [] = []
before_failure send (i ∷ is) = elim (send i) [ none ↦ [] | some n ↦ i ∷ before_failure send is ]

pub total : (ℕ → Option ℕ) → List ℕ → ℕ → Option ℕ
total send [] acc = some acc
total send (i ∷ is) acc = elim (send i) [ none ↦ none | some n ↦ total send is (acc + n) ]

-- A broadcast reaches the open clients in the order of their slots up to the first one that the
-- frame cannot be sent to; it returns -1 if there is one, and otherwise the sum of the bytes.
pub broadcast-open_from :
    (send : ℕ → Option ℕ) (i : ℕ) (slots : List Slot) (output : ℕ)
    → broadcast send i slots output
      ≡ (total send (open_from i slots) output, before_failure send (open_from i slots))
unfolding broadcast open_from before_failure total
broadcast-open_from send i [] output = refl
broadcast-open_from send i (s ∷ slots) output = elim (Bool-cases (is_open s)) [
  | inl usable ↦ elim (Option-cases (send i)) [
    | inl e ↦ rw (usable, e) refl
    | inr (n, e) ↦ rw (usable, e, broadcast-open_from send (suc i) slots (output + n)) refl
  ]
  | inr shut ↦ rw (shut, broadcast-open_from send (suc i) slots output) refl
]
