-- ===== src/WebSocket/Threads/Slots.antt =====
-- Descriptors in the slots and descriptors that were closed.
use basic_setup.Prelude.{
  ℕ, zero, suc, ◌+◌, ◌≡◌, refl, ap, ◌∙◌, subst, Option, none, some, List, [], ◌∷◌, ◌++◌, length,
  ◌==◌, if◌then◌else◌, arith,
}
use basic_setup.WebSocket.Clients.{
  Slot, Table, ClientState, ws_closed, ws_unused, slot_at, put_slot,
}
use basic_setup.WebSocket.Clients.Accept.{length-put_slot}

-- How often a descriptor stands in a list, and in the slots.
abbrev pub one : ℕ → ℕ → ℕ
one fd x = if x == fd then 1 else 0

abbrev pub tally : ℕ → List ℕ → ℕ
tally fd [] = 0
tally fd (x ∷ xs) = one fd x + tally fd xs

abbrev pub holds : ℕ → Option ℕ → ℕ
holds fd none = 0
holds fd (some x) = one fd x

abbrev pub held : ℕ → List Slot → ℕ
held fd [] = 0
held fd (s ∷ slots) = holds fd s.client_sock + held fd slots

abbrev pub balance : ℕ → Table → ℕ
balance fd t = held fd t.slots + tally fd t.closed

-- A slot without a socket is closed or was never used, one with a socket is neither.
abbrev pub IsCoherent : Option ℕ → ClientState → Type 0
IsCoherent none ws_closed = Unit {0}
IsCoherent none ws_unused = Unit {0}
IsCoherent none _ = ⊥
IsCoherent (some fd) ws_closed = ⊥
IsCoherent (some fd) ws_unused = ⊥
IsCoherent (some fd) _ = Unit {0}

abbrev pub AllCoherent : List Slot → Type 0
AllCoherent [] = Unit {0}
AllCoherent (s ∷ slots) = IsCoherent s.client_sock s.state × AllCoherent slots

-- What an operation keeps: the number of slots, their coherence, and for each descriptor the slots
-- that hold it and the calls of `close` together.
pub record Keeps (t t' : Table) : Type 0 where
  pub count : length t'.slots ≡ length t.slots
  pub coherent : AllCoherent t.slots → AllCoherent t'.slots
  pub balanced : (fd : ℕ) → balance fd t' ≡ balance fd t

pub Keeps-refl : (t : Table) → Keeps t t
Keeps-refl t = record { count = refl; coherent = λ c. c; balanced = λ fd. refl }

pub Keeps-trans : {t u v : Table} → Keeps t u → Keeps u v → Keeps t v
Keeps-trans k l = record {
  count = l.count ∙ k.count;
  coherent = λ c. l.coherent (k.coherent c);
  balanced = λ fd. l.balanced fd ∙ k.balanced fd;
}

pub tally-append :
    (fd : ℕ) (xs : List ℕ) (x : ℕ) → tally fd (xs ++ (x ∷ [])) ≡ tally fd xs + one fd x
tally-append fd [] x = omega arith
tally-append fd (y ∷ xs) x = omega (arith, tally-append fd xs x)

pub held-put_slot :
    (fd : ℕ) (slots : List Slot) (i : ℕ) (s new : Slot)
    → slot_at slots i ≡ some s
    → held fd (put_slot slots i new) + holds fd s.client_sock
      ≡ held fd slots + holds fd new.client_sock
unfolding slot_at put_slot
held-put_slot fd [] i s new e = cc
held-put_slot fd (x ∷ slots) zero s new e =
    let same : holds fd x.client_sock ≡ holds fd s.client_sock =
      ap (λ (o : Option Slot). elim o [ none ↦ 0 | some y ↦ holds fd y.client_sock ]) e in
    omega (arith, same)
held-put_slot fd (x ∷ slots) (suc i) s new e = omega (arith, held-put_slot fd slots i s new e)

pub AllCoherent-at :
    (slots : List Slot) (i : ℕ) (s : Slot)
    → slot_at slots i ≡ some s
    → AllCoherent slots
    → IsCoherent s.client_sock s.state
unfolding slot_at
AllCoherent-at [] i s e c = cc
AllCoherent-at (x ∷ slots) zero s e (c, cs) =
    subst
      (λ (o : Option Slot). elim o [ none ↦ Unit {0} | some y ↦ IsCoherent y.client_sock y.state ])
      e c
AllCoherent-at (x ∷ slots) (suc i) s e (c, cs) = AllCoherent-at slots i s e cs

pub AllCoherent-put_slot :
    (slots : List Slot) (i : ℕ) (new : Slot)
    → IsCoherent new.client_sock new.state
    → AllCoherent slots
    → AllCoherent (put_slot slots i new)
unfolding put_slot
AllCoherent-put_slot [] i new n c = tt
AllCoherent-put_slot (x ∷ slots) zero new n (c, cs) = (n, cs)
AllCoherent-put_slot (x ∷ slots) (suc i) new n (c, cs) = (c, AllCoherent-put_slot slots i new n cs)

-- A slot with the same socket.
pub put-Keeps :
    (t : Table) (i : ℕ) (s new : Slot)
    → slot_at t.slots i ≡ some s
    → new.client_sock ≡ s.client_sock
    → (IsCoherent s.client_sock s.state → IsCoherent new.client_sock new.state)
    → Keeps t (record t { slots = put_slot t.slots i new })
put-Keeps t i s new at same coh = record {
  count = length-put_slot t.slots i new;
  coherent = λ c. AllCoherent-put_slot t.slots i new (coh (AllCoherent-at t.slots i s at c)) c;
  balanced = λ fd. omega (arith, held-put_slot fd t.slots i s new at, ap (holds fd) same);
}
