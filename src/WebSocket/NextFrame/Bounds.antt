-- ===== src/WebSocket/NextFrame/Bounds.antt =====
-- How much `next_frame` hands on.
use basic_setup.Prelude.{
  ℕ, zero, suc, ◌+◌, ◌/◌, ◌%◌, ◌≤◌, ◌≡◌, refl, ◌⊎◌, inl, inr, Bool, true, false, not, ◌&&◌, ◌||◌,
  List, Option, some, length, ltb, ◌==◌, arith, if_both, if_cases, Option-cases,
}
use basic_setup.Device.Op
use basic_setup.WebSocket.Reader.{next_byte, unread}
use basic_setup.WebSocket.Control.{is_control_frame}
use basic_setup.WebSocket.ReadFrame.{Status-cases, as_u64, read_frame, max_frame_length}
use basic_setup.WebSocket.ReadFrame.Failure.{read_frame-Flagged}
use basic_setup.WebSocket.ReadFrame.Fits.{read_frame-IsFit}
use basic_setup.WebSocket.NextFrame.{
  Wfd, Peer, Turn, ends, leaves, closes, hangs_up, overruns, Outcome, message, sized, accepted,
  opened, turn, unexpected, valid_opcode, finish, resume, frame_loop, start_message, next_frame,
  data_reading, ctrl_reading, store_data, store_ctrl, keep_pong, do_pong, data_frame, pong_frame,
  ping_frame,
}
use basic_setup.WebSocket.NextFrame.Verdicts.{Verdict, settle-Verdict, close_frame-Verdict}

-- The size is exact, inside of the buffer and at most 16 MiB.
abbrev Whole : ℕ → ℕ → List ℕ → Type 0
Whole size idx buf = (size ≡ idx) × (idx ≤ length buf) × (size ≤ max_frame_length)

abbrev IsWhole : Wfd → Type 0
IsWhole st = Whole st.frame_size st.msg_idx st.msg_data

abbrev Fits : Turn × Wfd → Type 0
Fits r = Verdict (λ _ st. IsWhole st) r

module _ (p : Peer) where
  data_frame-Fits :
      (is_fin : Bool) (n : ℕ) (st : Wfd) → IsWhole st → Fits (data_frame p is_fin n st)
  unfolding data_frame
  data_frame-Fits is_fin n st (e, h, b) =
      let (status, r) = read_frame p.realloc_ok false is_fin (data_reading n st) in
      settle-Verdict (λ _ st. IsWhole st) status is_fin (store_data r st)
        (read_frame-Flagged p.realloc_ok false is_fin (data_reading n st)).flagged
        (λ d.
          let fit =
            read_frame-IsFit p.realloc_ok is_fin (data_reading n st)
              (record { exact = e; inside = h; bounded = b }) d in
          (fit.exact, fit.inside, fit.bounded))

  keep_pong-IsWhole : (size : ℕ) (st : Wfd) → IsWhole st → IsWhole (keep_pong p size st)
  unfolding keep_pong
  keep_pong-IsWhole size st w = if_both IsWhole _ _ _ w w

  do_pong-Fits : (size : ℕ) (st : Wfd) → IsWhole st → Fits (do_pong p size st)
  unfolding do_pong
  do_pong-Fits size st w = if_both Fits (p.pong_sent st.met) _ _ (inr w) refl

  pong_frame-Fits :
      (is_fin : Bool) (n : ℕ) (st : Wfd) → IsWhole st → Fits (pong_frame p is_fin n st)
  unfolding pong_frame
  pong_frame-Fits is_fin n st w =
      let (status, r) = read_frame p.realloc_ok true is_fin (ctrl_reading n st) in
      elim (Status-cases status) [
        | inl e ↦ rw (e, pong_frame) (inr (keep_pong-IsWhole r.frame_size (store_ctrl r st) w))
        | inr (inl e) ↦
            rw (e, pong_frame)
              ((read_frame-Flagged p.realloc_ok true is_fin (ctrl_reading n st)).flagged e)
        | inr (inr e) ↦ rw (e, pong_frame) tt
      ]

  ping_frame-Fits :
      (is_fin : Bool) (n : ℕ) (st : Wfd) → IsWhole st → Fits (ping_frame p is_fin n st)
  unfolding ping_frame
  ping_frame-Fits is_fin n st w =
      let (status, r) = read_frame p.realloc_ok true is_fin (ctrl_reading n st) in
      elim (Status-cases status) [
        | inl e ↦ rw (e, ping_frame) (do_pong-Fits r.frame_size (store_ctrl r st) w)
        | inr (inl e) ↦
            rw (e, ping_frame)
              ((read_frame-Flagged p.realloc_ok true is_fin (ctrl_reading n st)).flagged e)
        | inr (inr e) ↦ rw (e, ping_frame) tt
      ]

  sized-Fits :
      (opcode : ℕ) (is_fin : Bool) (st : Wfd) → IsWhole st → Fits (sized p opcode is_fin st)
  unfolding sized
  sized-Fits opcode is_fin st w =
      let n = as_u64 (next_byte st.reader).0 % 256 % 128 in
      let st' = record st { reader = (next_byte st.reader).1 } in
      if_both Fits (is_control_frame opcode && (not is_fin || ltb 125 n)) _ _ refl (
        if_both Fits (opcode == Op.txt || opcode == Op.bin || opcode == Op.cont) _ _
          (data_frame-Fits is_fin n st' w)
          (if_both Fits (opcode == Op.pong) _ _ (pong_frame-Fits is_fin n st' w) (
            if_both Fits (opcode == Op.ping) _ _ (ping_frame-Fits is_fin n st' w)
              (close_frame-Verdict p (λ _ st. IsWhole st) is_fin n st'))))

  opened-Fits : (b : ℕ) (st : Wfd) → IsWhole st → Fits (opened p b st)
  unfolding opened accepted
  opened-Fits b st w =
      let opcode = b % 16 in
      if_both Fits (not (b / 16 % 8 == 0) || unexpected opcode st.frame_type) _ _ refl (
        if_both Fits (valid_opcode opcode) _ _
          (if_both Fits (p.closing st.met && not (opcode == Op.clse)) _ _ refl (
            if_both (λ (s : Wfd). Fits (sized p opcode (b % 256 / 128 == 1) s))
              (opcode == Op.cont || is_control_frame opcode) _ _ (sized-Fits opcode _ st w)
              (sized-Fits opcode _ (record st { frame_type = some opcode }) w)))
          (inl refl))

  turn-Fits : (st : Wfd) → IsWhole st → Fits (turn p st)
  unfolding turn
  turn-Fits st w = elim (Option-cases (next_byte st.reader).0) [
    | inl e ↦ rw (e, turn) tt
    | inr (b, e) ↦
        rw (e, turn)
          (opened-Fits b (record st { reader = (next_byte st.reader).1; met = st.met + 1 }) w)
  ]

-- What is handed on as a message.
abbrev Handed : Option Outcome × Wfd → Type 0
Handed r = r.0 ≡ some message → IsWhole r.1

finish-Handed : (st : Wfd) → (st.reader.error ≡ true) ⊎ IsWhole st → Handed (some (finish st), st)
unfolding finish
finish-Handed st (inl e) = λ m. absurd (ground arith)
finish-Handed st (inr w) = λ m. w

resume-Handed :
    (r : Turn × Wfd) (rest : Option Outcome × Wfd)
    → Fits r
    → (IsWhole r.1 → Handed rest)
    → Handed (resume r.0 r.1 rest)
unfolding resume
resume-Handed (ends true, st) rest v h = finish-Handed st v
resume-Handed (ends false, st) rest (inl e) h =
    if_cases Handed st.reader.error _ _ (λ set. finish-Handed st (inl set)) (λ clear. cc)
resume-Handed (ends false, st) rest (inr w) h =
    if_both Handed st.reader.error _ _ (finish-Handed st (inr w)) (h w)
resume-Handed (leaves, st) rest v h = finish-Handed st (inl v)
resume-Handed (closes, st) rest v h = λ m. cc
resume-Handed (hangs_up, st) rest v h = λ m. cc
resume-Handed (overruns, st) rest v h = λ m. cc

frame_loop-Handed : (p : Peer) (fuel : ℕ) (st : Wfd) → IsWhole st → Handed (frame_loop p fuel st)
unfolding frame_loop
frame_loop-Handed p zero st w = λ m. cc
frame_loop-Handed p (suc fuel) st w =
    resume-Handed (turn p st) (frame_loop p fuel (turn p st).1) (turn-Fits p st w)
      (frame_loop-Handed p fuel (turn p st).1)

-- Whatever arrives, whatever lengths its frames announce and whatever other threads and `realloc` do:
-- if `next_frame` returns 0 with a message, then its size is at most 16 MiB, and as many bytes stand
-- in its buffer.
pub next_frame-bounds :
    (p : Peer) (st : Wfd)
    → (next_frame p st).0 ≡ some message
    → ((next_frame p st).1.frame_size ≤ max_frame_length)
      × ((next_frame p st).1.frame_size ≤ length (next_frame p st).1.msg_data)
unfolding next_frame
next_frame-bounds p st m =
    let (e, h, b) =
      frame_loop-Handed p (suc (unread st.reader)) (start_message st)
        (refl, ground arith, ground arith) m in
    (b, omega (arith, e, h))
