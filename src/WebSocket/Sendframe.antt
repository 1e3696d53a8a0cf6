-- ===== src/WebSocket/Sendframe.antt =====
-- `ws_sendframe` of components/web/src/web-socket.c with its two front ends: the frame is built once
-- and goes to one client, or to every open one.
use basic_setup.Prelude.{
  ℕ, suc, ◌+◌, ◌≤◌, ◌<◌, ◌≡◌, ◌^◌, refl, ap, Bool, true, false, Option, none, some, List, [], ◌∷◌,
  ◌++◌, length, if◌then◌else◌, ◌⊎◌, inl, inr, Bool-cases, Option-cases, subst, sym, ◌∙◌, append-nil,
  length-append, ltb, lt→ltb, not, arith,
}
use basic_setup.WebSocket.Frame.{header, frame, receive, receive-frame}
use basic_setup.WebSocket.Clients.{Slot, Table, ws_open, slot_at}
use basic_setup.WebSocket.Sending.{
  Sent, sent, broken, blocked, overflowed, Fails, send_all-Fails, Fails-send_all, send_all, Partly,
  send_all_lem, is_open, open_from,
}

-- SEND to a slot: `send_all` behind its check of the client. `results` are what the calls of `send`
-- for this slot return, and beside the count stand the bytes that were written.
unfoldable pub send_to : List (Option ℕ) → List ℕ → Slot → Sent × List ℕ
unfolding send_all
send_to results buf s = elim s.client_sock [
  | none ↦ (broken, [])
  | some fd ↦ send_all results buf 0 []
]

-- The loop over the clients from slot `i`, with what it wrote to each slot. `output` is an `ssize_t`
-- of 32 bits.
unfoldable pub send_open :
    (ℕ → List (Option ℕ)) → List ℕ → ℕ → List Slot → ℕ → Sent × List (ℕ × List ℕ)
unfolding send_to
send_open results buf i [] output = (sent output, [])
send_open results buf i (s ∷ slots) output =
    let skip = send_open results buf (suc i) slots output in
    let (ret, bytes) = send_to (results i) buf s in
    if is_open s
    then elim ret [
      | sent n ↦
          let (r, log) = send_open results buf (suc i) slots (output + n) in
          if ltb (output + n) (2 ^ 31) then (r, (i, bytes) ∷ log) else (overflowed, (i, bytes) ∷ [])
      | broken ↦ (broken, (i, bytes) ∷ [])
      | blocked ↦ (blocked, (i, bytes) ∷ [])
      | overflowed ↦ (overflowed, (i, bytes) ∷ [])
    ]
    else skip

-- `memory` is whether the response could be allocated; no client is a broadcast. `idx_response` is an
-- `int`, and what `malloc` is given, one byte more than the response, is cut to 32 bits: a response
-- of 2 ^ 31 bytes or more does not get built.
unfoldable pub ws_sendframe :
    Bool → (ℕ → List (Option ℕ)) → Option ℕ → List ℕ → ℕ → Table → Sent × List (ℕ × List ℕ)
unfolding frame send_to send_open slot_at
ws_sendframe memory results client msg type t =
    let response = frame type msg in
    if not memory
    then (broken, [])
    else (if not (ltb (length response) (2 ^ 31)) then (overflowed, []) else (elim client [
      | none ↦ send_open results response 0 t.slots 0
      | some i ↦ elim (slot_at t.slots i) [
        | none ↦ (broken, [])
        | some s ↦ let (r, bytes) = send_to (results i) response s in (r, (i, bytes) ∷ [])
      ]
    ]))

unfoldable pub ws_sendframe_txt :
    Bool → (ℕ → List (Option ℕ)) → Option ℕ → List ℕ → Table → Sent × List (ℕ × List ℕ)
unfolding ws_sendframe
ws_sendframe_txt memory results client msg t = ws_sendframe memory results client msg 1 t

unfoldable pub ws_sendframe_bin :
    Bool → (ℕ → List (Option ℕ)) → Option ℕ → List ℕ → Table → Sent × List (ℕ × List ℕ)
unfolding ws_sendframe
ws_sendframe_bin memory results client msg t = ws_sendframe memory results client msg 2 t

-- What these slots got, one after the other: each one for which no call of `send` fails the whole
-- frame, up to one for which a call fails, which got a beginning of it. The bytes add up to the
-- result.
pub Delivered : (ℕ → List (Option ℕ)) → ℕ → List ℕ → List ℕ → ℕ → Sent × List (ℕ × List ℕ) → Type 0
Delivered results type msg [] output (r, []) = r ≡ sent output
Delivered results type msg [] output (r, x ∷ log) = ⊥
Delivered results type msg (i ∷ is) output (r, []) = ⊥
Delivered results type msg (i ∷ is) output (r, (j, bytes) ∷ log) =
    (j ≡ i)
    × (((¬ Fails (results i) (frame type msg))
          × (receive bytes ≡ some (type, msg, []))
          × Delivered results type msg is (output + length bytes) (r, log))
        ⊎ (Fails (results i) (frame type msg)
            × (r ≡ broken)
            × (log ≡ [])
            × ((rest : List ℕ) × (bytes ++ rest ≡ frame type msg))))

-- The bytes that these slots get if each gets `n`.
unfoldable pub all_bytes : List ℕ → ℕ → ℕ
all_bytes [] n = 0
all_bytes (i ∷ is) n = n + all_bytes is n

-- `send` takes at least a byte and at most those it is given, and returns often enough.
pub record Sends (results : ℕ → List (Option ℕ)) (buf : List ℕ) : Type 0 where
  pub partly : (i : ℕ) → Partly (results i) buf
  pub enough : (i : ℕ) → length buf ≤ length (results i)

-- What `send_all` promises of a buffer.
abbrev Written : List (Option ℕ) → List ℕ → Sent × List ℕ → Type 0
Written results buf r =
    ((¬ Fails results buf) × (r ≡ (sent (length buf), buf)))
    ⊎ (Fails results buf × (r.0 ≡ broken) × ((rest : List ℕ) × (r.1 ++ rest ≡ buf)))

send_all-Written :
    (results : List (Option ℕ)) (buf : List ℕ)
    → Partly results buf
    → length buf ≤ length results
    → Written results buf (send_all results buf 0 [])
send_all-Written results buf p enough = elim (send_all_lem results buf p enough) [
  | inl e ↦ inl (
    (λ f.
        let failed : broken ≡ sent (length buf) =
          sym (Fails-send_all results buf 0 [] f) ∙ ap (λ (r : Sent × List ℕ). r.0) e in
        cc),
    e,
  )
  | inr (e, part) ↦ inr (send_all-Fails results buf 0 [] e, e, part)
]

-- A client of the list that got all of it or a beginning.
first-Delivered :
    (results : ℕ → List (Option ℕ)) (type : ℕ) (msg : List ℕ) (i : ℕ) (is : List ℕ) (output : ℕ)
    (r : Sent × List ℕ) (later : ℕ → Sent × List (ℕ × List ℕ))
    → receive (frame type msg) ≡ some (type, msg, [])
    → output + length (frame type msg) < 2 ^ 31
    → Written (results i) (frame type msg) r
    → Delivered results type msg is
        (output + length (frame type msg))
        (later (output + length (frame type msg)))
    → Delivered results type msg (i ∷ is) output (elim r.0 [
      | sent n ↦
          if ltb (output + n) (2 ^ 31)
          then ((later (output + n)).0, (i, r.1) ∷ (later (output + n)).1)
          else (overflowed, (i, r.1) ∷ [])
      | broken ↦ (broken, (i, r.1) ∷ [])
      | blocked ↦ (blocked, (i, r.1) ∷ [])
      | overflowed ↦ (overflowed, (i, r.1) ∷ [])
    ])
unfolding Delivered
first-Delivered results type msg i is output (sent m, bytes) later got fits (inl (n, e)) rest =
    let whole : ltb (output + length (frame type msg)) (2 ^ 31) ≡ true = lt→ltb _ _ fits in
    let count : m ≡ length (frame type msg) = cc in
    let all : bytes ≡ frame type msg = cc in rw (count, all, whole) (refl, inl (n, got, rest))
first-Delivered results type msg i is output (broken, bytes) later got fits (inl (n, e)) rest = cc
first-Delivered results type msg i is output (blocked, bytes) later got fits (inl (n, e)) rest = cc
first-Delivered results type msg i is output (overflowed, bytes) later got fits (inl (n, e)) rest =
    cc
first-Delivered results type msg i is output (broken, bytes) later got fits (inr (f, e, part))
      rest =
    (refl, inr (f, refl, refl, part))
first-Delivered results type msg i is output (sent n, bytes) later got fits (inr (f, e, part))
      rest =
    cc
first-Delivered results type msg i is output (blocked, bytes) later got fits (inr (f, e, part))
      rest =
    cc
first-Delivered results type msg i is output (overflowed, bytes) later got fits (inr (f, e, part))
      rest =
    cc

is_open-sock : (s : Slot) → is_open s ≡ true → (fd : ℕ) × (s.client_sock ≡ some fd)
is_open-sock s e = elim (Option-cases s.client_sock) [
  | inl free ↦
      let shut : is_open s ≡ false =
        ap
          (λ (o : Option ℕ). elim o [
            | none ↦ false
            | some fd ↦ elim s.state [ ws_open ↦ true | _ ↦ false ]
          ])
          free in
      cc
  | inr busy ↦ busy
]

send_to-some :
    (results : List (Option ℕ)) (buf : List ℕ) (s : Slot) (fd : ℕ)
    → s.client_sock ≡ some fd
    → send_to results buf s ≡ send_all results buf 0 []
unfolding send_to
send_to-some results buf s fd e =
    ap (λ (o : Option ℕ). elim o [ none ↦ (broken, []) | some fd ↦ send_all results buf 0 [] ]) e

send_open-Delivered :
    (results : ℕ → List (Option ℕ)) (type : ℕ) (msg : List ℕ) (i : ℕ) (slots : List Slot)
    (output : ℕ)
    → receive (frame type msg) ≡ some (type, msg, [])
    → output + all_bytes (open_from i slots) (length (frame type msg)) < 2 ^ 31
    → Sends results (frame type msg)
    → Delivered results type msg
        (open_from i slots)
        output
        (send_open results (frame type msg) i slots output)
unfolding send_open open_from Delivered all_bytes
send_open-Delivered results type msg i [] output got fits ok = refl
send_open-Delivered results type msg i (s ∷ slots) output got fits ok =
    elim (Bool-cases (is_open s)) [
      | inl usable ↦
          let (fd, busy) = is_open-sock s usable in
          let all = frame type msg in
          let same = send_to-some (results i) all s fd busy in
          let below : output + (length all + all_bytes (open_from (suc i) slots) (length all))
              < 2 ^ 31 =
            rw usable at fits in
          rw usable (
            first-Delivered results type msg i (open_from (suc i) slots) output
              (send_to (results i) (frame type msg) s)
              (send_open results (frame type msg) (suc i) slots) got (omega (arith, below))
              (subst (Written (results i) all) (sym same)
                (send_all-Written (results i) all (ok.partly i) (ok.enough i)))
              (send_open-Delivered results type msg (suc i) slots (output + length all) got
                (omega (arith, below)) ok))
      | inr shut ↦
          rw shut
            (send_open-Delivered results type msg (suc i) slots output got (rw shut at fits) ok)
    ]

length-msg : (type : ℕ) (msg : List ℕ) → length msg ≤ length (frame type msg)
unfolding frame
length-msg type msg = omega (arith, length-append (header type (length msg)) msg)

-- A broadcast of a message with an opcode below 16, when its response can be allocated, the response
-- has fewer than 2 ^ 31 bytes and so have those for all open clients together, and each call of
-- `send` takes at least one byte and at most those it is given, or fails: the open clients get it in
-- the order of their slots, and a receiver reads exactly the opcode and the message from what each
-- was sent, up to the first client for which a call of `send` fails. That one got a beginning of the
-- frame, those behind it nothing, and the result is -1; if no call fails the result is the sum of
-- the bytes.
pub ws_sendframe-Delivered :
    (results : ℕ → List (Option ℕ)) (type : ℕ) (msg : List ℕ) (t : Table)
    → type < 16
    → length (frame type msg) < 2 ^ 31
    → all_bytes (open_from 0 t.slots) (length (frame type msg)) < 2 ^ 31
    → Sends results (frame type msg)
    → Delivered results type msg (open_from 0 t.slots) 0 (ws_sendframe true results none msg type t)
unfolding ws_sendframe
ws_sendframe-Delivered results type msg t small short fits ok =
    let built : ltb (length (frame type msg)) (2 ^ 31) ≡ true = lt→ltb _ _ short in
    rw (built, ws_sendframe)
      (send_open-Delivered results type msg 0 t.slots 0
        (ap receive (sym (append-nil (frame type msg)))
          ∙ receive-frame type msg [] small (omega (arith, length-msg type msg)))
        (omega (arith, fits)) ok)
