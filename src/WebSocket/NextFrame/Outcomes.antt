-- ===== src/WebSocket/NextFrame/Outcomes.antt =====
-- Which messages `next_frame` can hand on.
use basic_setup.Prelude.{
  ℕ, zero, suc, ◌+◌, ◌/◌, ◌%◌, ◌≡◌, ◌≢◌, refl, ◌⊎◌, inl, inr, Bool, true, false, not, ◌&&◌, ◌||◌,
  Option, some, ltb, ◌==◌, arith, if_both, if_cases, Option-cases,
}
use basic_setup.Device.Op
use basic_setup.WebSocket.Reader.{next_byte, unread}
use basic_setup.WebSocket.Control.{is_control_frame}
use basic_setup.WebSocket.ReadFrame.{as_u64}
use basic_setup.WebSocket.NextFrame.{
  Wfd, Peer, Turn, ends, leaves, closes, hangs_up, overruns, Outcome, message, sized, accepted,
  opened, turn, unexpected, valid_opcode, finish, resume, frame_loop, start_message, next_frame,
}
use basic_setup.WebSocket.NextFrame.Verdicts.{
  IsData, Begun, Typed, Verdict, turn-Verdict, close_frame-Verdict,
}

-- What is handed on as a message.
abbrev Complete : Option Outcome × Wfd → Type 0
Complete r = r.0 ≡ some message → IsData r.1.frame_type × (r.1.reader.error ≡ false)

finish-Complete :
    (st : Wfd) → (st.reader.error ≡ true) ⊎ IsData st.frame_type → Complete (some (finish st), st)
unfolding finish
finish-Complete st (inl e) = λ m. absurd (ground arith)
finish-Complete st (inr d) = λ m. (d, ground arith)

going :
    (st : Wfd)
    → (st.reader.error ≡ true) ⊎ Begun st.frame_type
    → st.reader.error ≡ false
    → Begun st.frame_type
going st (inl e) n = absurd (ground arith)
going st (inr b) n = b

resume-Complete :
    (r : Turn × Wfd) (rest : Option Outcome × Wfd)
    → Verdict Typed r
    → (Begun r.1.frame_type → Complete rest)
    → Complete (resume r.0 r.1 rest)
unfolding resume
resume-Complete (ends true, st) rest v h = finish-Complete st v
resume-Complete (ends false, st) rest v h =
    if_cases Complete st.reader.error _ _ (λ e. finish-Complete st (inl e)) (λ e. h (going st v e))
resume-Complete (leaves, st) rest v h = finish-Complete st (inl v)
resume-Complete (closes, st) rest v h = λ m. cc
resume-Complete (hangs_up, st) rest v h = λ m. cc
resume-Complete (overruns, st) rest v h = λ m. cc

frame_loop-Complete :
    (p : Peer) (fuel : ℕ) (st : Wfd) → Begun st.frame_type → Complete (frame_loop p fuel st)
unfolding frame_loop
frame_loop-Complete p zero st b = λ m. cc
frame_loop-Complete p (suc fuel) st b =
    resume-Complete (turn p st) (frame_loop p fuel (turn p st).1) (turn-Verdict p st b)
      (frame_loop-Complete p fuel (turn p st).1)

-- Whatever arrives: if `next_frame` returns 0 with a message, the type is TXT or BIN and no error is
-- set.
pub next_frame-IsData :
    (p : Peer) (st : Wfd)
    → (next_frame p st).0 ≡ some message
    → IsData (next_frame p st).1.frame_type × ((next_frame p st).1.reader.error ≡ false)
unfolding next_frame
next_frame-IsData p st =
    frame_loop-Complete p (suc (unread st.reader)) (start_message st) (inl refl)

-- The verdict on a turn that completes nothing.
abbrev Nothing : Turn × Wfd → Type 0
Nothing r = Verdict (λ _ _. ⊥) r

resume-Nothing :
    (r : Turn × Wfd) (rest : Option Outcome × Wfd)
    → Nothing r
    → (resume r.0 r.1 rest).0 ≢ some message
unfolding resume finish
resume-Nothing (ends is_fin, st) rest (inl e) = ground arith
resume-Nothing (ends is_fin, st) rest (inr n) = absurd n
resume-Nothing (leaves, st) rest e = ground arith
resume-Nothing (closes, st) rest v = λ m. cc
resume-Nothing (hangs_up, st) rest v = λ m. cc
resume-Nothing (overruns, st) rest v = λ m. cc

module _ (p : Peer) (closing : (n : ℕ) → p.closing n ≡ true) where
  close-Nothing :
      (opcode : ℕ) (is_fin : Bool) (st : Wfd)
      → opcode ≡ Op.clse
      → Nothing (sized p opcode is_fin st)
  unfolding sized is_control_frame
  close-Nothing opcode is_fin st e =
      let n = as_u64 (next_byte st.reader).0 % 256 % 128 in
      let st' = record st { reader = (next_byte st.reader).1 } in
      rw e (
        if_both Nothing (not is_fin || ltb 125 n) _ _ refl
          (close_frame-Verdict p (λ _ _. ⊥) is_fin n st'))

  opened-Nothing : (b : ℕ) (st : Wfd) → Nothing (opened p b st)
  unfolding opened accepted
  opened-Nothing b st =
      let opcode = b % 16 in
      if_both Nothing (not (b / 16 % 8 == 0) || unexpected opcode st.frame_type) _ _ refl (
        if_both Nothing (valid_opcode opcode) _ _
          (if_cases Nothing (p.closing st.met && not (opcode == Op.clse)) _ _ (λ e. refl)
            (λ e. close-Nothing opcode _ _ (ground (arith, closing st.met))))
          (inl refl))

  turn-Nothing : (st : Wfd) → Nothing (turn p st)
  unfolding turn
  turn-Nothing st = elim (Option-cases (next_byte st.reader).0) [
    | inl e ↦ rw (e, turn) tt
    | inr (b, e) ↦
        rw (e, turn)
          (opened-Nothing b (record st { reader = (next_byte st.reader).1; met = st.met + 1 }))
  ]

  frame_loop-Nothing : (fuel : ℕ) (st : Wfd) → (frame_loop p fuel st).0 ≢ some message
  unfolding frame_loop
  frame_loop-Nothing zero st = λ m. cc
  frame_loop-Nothing (suc fuel) st =
      resume-Nothing (turn p st) (frame_loop p fuel (turn p st).1) (turn-Nothing st)

  -- While the client is in state CLOSING, whatever it sends, `next_frame` hands on no message.
  pub next_frame-closing : (st : Wfd) → (next_frame p st).0 ≢ some message
  unfolding next_frame
  next_frame-closing st = frame_loop-Nothing (suc (unread st.reader)) (start_message st)
