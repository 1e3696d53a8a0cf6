-- ===== src/WebSocket/NextFrame/Progress.antt =====
-- The loop of `next_frame` ends: every turn that goes on has read a byte. An idle client makes `recv`
-- wait; what is shown holds for an input that ends, with a `recv` that gives 0 or fails.
use basic_setup.Prelude.{
  ℕ, zero, suc, [], ◌+◌, ◌≤◌, ◌<◌, ◌≡◌, ◌≢◌, ◌∙◌, ap, refl, ◌||◌, Option, some, arith, Option-cases,
  none, inl, inr, ◌⊎◌, if_both,
}
use basic_setup.WebSocket.Reader.{Ends, Ahead, next_byte_end, Reader, next_byte, unread}
use basic_setup.WebSocket.ReadFrame.Progress.{next_byte-Shrinks}
use basic_setup.WebSocket.NextFrame.{
  Wfd, Peer, Turn, ends, leaves, closes, hangs_up, overruns, Outcome, close, hang_up, overrun,
  message, error_end, resume, opened, turn, frame_loop, next_frame, finish, start_message,
}
use basic_setup.WebSocket.NextFrame.Later.{After, opened-After}

-- What a turn that goes on leaves: fewer bytes can come.
abbrev pub Goes : Reader → Turn × Wfd → Type 0
Goes v (ends is_fin, st') =
    (st'.reader.cur_pos ≤ st'.reader.amt_read) × (unread st'.reader < unread v)
Goes v (leaves, st') = Unit {0}
Goes v (closes, st') = Unit {0}
Goes v (hangs_up, st') = Unit {0}
Goes v (overruns, st') = Unit {0}

After-Goes : (v w : Reader) (r : Turn × Wfd) → unread w < unread v → After w r → Goes v r
After-Goes v w (ends is_fin, st') less l = (l.within, omega (arith, l.fewer))
After-Goes v w (leaves, st') less l = tt
After-Goes v w (closes, st') less l = tt
After-Goes v w (hangs_up, st') less l = tt
After-Goes v w (overruns, st') less l = tt

pub turn-Goes :
    (p : Peer) (st : Wfd) → st.reader.cur_pos ≤ st.reader.amt_read → Goes st.reader (turn p st)
unfolding turn
turn-Goes p st h = elim (Option-cases (next_byte st.reader).0) [
  | inl e ↦ rw (e, turn) tt
  | inr (b, e) ↦
      let w = (next_byte st.reader).1 in
      let (_, read) = next_byte-Shrinks st.reader h in
      let st' = record st { reader = w; met = st.met + 1 } in
      let (within, less) = read b e in
      rw (e, turn)
        (After-Goes st.reader w (opened p b st') (omega (arith, less))
          (opened-After p w b st' (record { within = within; fewer = omega arith })))
]

resume-returns :
    (v : Reader) (r : Turn × Wfd) (rest : Option Outcome × Wfd)
    → Goes v r
    → (r.1.reader.cur_pos ≤ r.1.reader.amt_read
        → unread r.1.reader < unread v
        → (o : Outcome) × (rest.0 ≡ some o))
    → (o : Outcome) × ((resume r.0 r.1 rest).0 ≡ some o)
unfolding resume
resume-returns v (ends is_fin, st) rest (within, less) h =
    if_both (λ (x : Option Outcome × Wfd). (o : Outcome) × (x.0 ≡ some o)) _ _ _ (finish st, refl)
      (h within less)
resume-returns v (leaves, st) rest g h = (finish st, refl)
resume-returns v (closes, st) rest g h = (close, refl)
resume-returns v (hangs_up, st) rest g h = (hang_up, refl)
resume-returns v (overruns, st) rest g h = (overrun, refl)

-- With more turns than bytes the loop ends.
frame_loop-returns :
    (p : Peer) (fuel : ℕ) (st : Wfd)
    → st.reader.cur_pos ≤ st.reader.amt_read
    → unread st.reader < fuel
    → (r : Outcome) × ((frame_loop p fuel st).0 ≡ some r)
unfolding frame_loop
frame_loop-returns p zero st h enough = absurd (omega arith)
frame_loop-returns p (suc fuel) st h enough =
    resume-returns st.reader (turn p st) _ (turn-Goes p st h)
      (λ within less. frame_loop-returns p fuel (turn p st).1 within (omega arith))

-- One turn more than there are bytes in the input is enough.
pub next_frame-outcome :
    (p : Peer) (st : Wfd)
    → st.reader.cur_pos ≤ st.reader.amt_read
    → (r : Outcome) × ((next_frame p st).0 ≡ some r)
unfolding next_frame
next_frame-outcome p st h =
    frame_loop-returns p (suc (unread st.reader)) (start_message st) h (omega arith)

crashed : (r : Outcome) → (r ≡ overrun) ⊎ (r ≢ overrun)
crashed overrun = inl refl
crashed message = inr (λ e. cc)
crashed close = inr (λ e. cc)
crashed error_end = inr (λ e. cc)
crashed hang_up = inr (λ e. cc)

-- If one of the calls of `recv` ahead gives 0 or fails, then, whatever the bytes before are, in
-- whatever pieces they come and whatever other threads do, `next_frame` returns within one turn more
-- than there are bytes in the input, or a write leaves one of its buffers before.
pub next_frame-returns :
    (p : Peer) (st : Wfd)
    → st.reader.cur_pos ≤ st.reader.amt_read
    → Ends st.reader.input
    → ((next_frame p st).0 ≡ some overrun)
      ⊎ ((r : Outcome) × ((next_frame p st).0 ≡ some r) × (r ≢ overrun))
next_frame-returns p st h ended =
    let (r, e) = next_frame-outcome p st h in
    elim (crashed r) [ inl over ↦ inl (e ∙ ap some over) | inr n ↦ inr (r, e, n) ]

-- Fewer bytes than from `v` can come.
abbrev pub Fewer : Reader → Reader → Type 0
Fewer v w = (w.cur_pos ≤ w.amt_read) × (unread w < unread v)

turn-Fewer :
    (p : Peer) (st : Wfd)
    → st.reader.cur_pos ≤ st.reader.amt_read
    → ((turn p st).0 ≡ hangs_up) ⊎ Fewer st.reader (turn p st).1.reader
unfolding turn
turn-Fewer p st h = elim (Option-cases (next_byte st.reader).0) [
  | inl e ↦ rw (e, turn) (inl refl)
  | inr (b, e) ↦
      let w = (next_byte st.reader).1 in
      let (_, read) = next_byte-Shrinks st.reader h in
      let (within, less) = read b e in
      let l =
        opened-After p w b (record st { reader = w; met = st.met + 1 })
          (record { within = within; fewer = omega arith }) in
      rw (e, turn) (inr (l.within, omega (arith, l.fewer, less)))
]

resume-Fewer :
    (v : Reader) (r : Turn × Wfd) (rest : Option Outcome × Wfd)
    → (r.0 ≡ hangs_up) ⊎ Fewer v r.1.reader
    → (Fewer v r.1.reader → (rest.0 ≡ none) ⊎ (rest.0 ≡ some hang_up) ⊎ Fewer v rest.1.reader)
    → ((resume r.0 r.1 rest).0 ≡ none)
      ⊎ ((resume r.0 r.1 rest).0 ≡ some hang_up)
      ⊎ Fewer v (resume r.0 r.1 rest).1.reader
unfolding resume
resume-Fewer v (ends is_fin, st) rest (inl e) g = cc
resume-Fewer v (ends is_fin, st) rest (inr f) g =
    if_both (λ (x : Option Outcome × Wfd). (x.0 ≡ none) ⊎ (x.0 ≡ some hang_up) ⊎ Fewer v x.1.reader)
      (is_fin || st.reader.error) _ _ (inr (inr f)) (g f)
resume-Fewer v (leaves, st) rest (inl e) g = cc
resume-Fewer v (leaves, st) rest (inr f) g = inr (inr f)
resume-Fewer v (closes, st) rest (inl e) g = cc
resume-Fewer v (closes, st) rest (inr f) g = inr (inr f)
resume-Fewer v (hangs_up, st) rest f g = inr (inl refl)
resume-Fewer v (overruns, st) rest (inl e) g = cc
resume-Fewer v (overruns, st) rest (inr f) g = inr (inr f)

frame_loop-Fewer :
    (p : Peer) (fuel : ℕ) (st : Wfd)
    → st.reader.cur_pos ≤ st.reader.amt_read
    → ((frame_loop p fuel st).0 ≡ none)
      ⊎ ((frame_loop p fuel st).0 ≡ some hang_up)
      ⊎ Fewer st.reader (frame_loop p fuel st).1.reader
unfolding frame_loop
frame_loop-Fewer p zero st h = inl refl
frame_loop-Fewer p (suc fuel) st h =
    resume-Fewer st.reader (turn p st) (frame_loop p fuel (turn p st).1) (turn-Fewer p st h) (λ f.
      further st.reader (turn p st).1.reader (frame_loop p fuel (turn p st).1) f
        (frame_loop-Fewer p fuel (turn p st).1 f.0))
  where
    further :
        (v w : Reader) (r : Option Outcome × Wfd)
        → Fewer v w
        → (r.0 ≡ none) ⊎ (r.0 ≡ some hang_up) ⊎ Fewer w r.1.reader
        → (r.0 ≡ none) ⊎ (r.0 ≡ some hang_up) ⊎ Fewer v r.1.reader
    further v w r f (inl e) = inl e
    further v w r f (inr (inl e)) = inr (inl e)
    further v w r f (inr (inr g)) = inr (inr (g.0, omega (arith, f.1, g.1)))

-- Unless the stream has ended, `next_frame` has read at least one byte when it returns.
pub next_frame-Fewer :
    (p : Peer) (st : Wfd)
    → st.reader.cur_pos ≤ st.reader.amt_read
    → ((next_frame p st).0 ≡ some hang_up) ⊎ Fewer st.reader (next_frame p st).1.reader
unfolding next_frame
next_frame-Fewer p st h = elim (frame_loop-Fewer p (suc (unread st.reader)) (start_message st) h) [
  | inl e ↦
      let (o, f) =
        frame_loop-returns p (suc (unread st.reader)) (start_message st) h (omega arith) in
      absurd (ground arith)
  | inr r ↦ r
]

turn_end :
    (p : Peer) (st : Wfd)
    → Ahead [] st.reader
    → turn p st ≡ (hangs_up, record st { reader = (next_byte st.reader).1; met = st.met + 1 })
unfolding turn
turn_end p st a = rw (next_byte_end st.reader a, turn) refl

-- At the end of the stream `next_frame` returns -1 from inside of its loop.
pub next_frame_end :
    (p : Peer) (st : Wfd)
    → Ahead [] st.reader
    → ((next_frame p st).0 ≡ some hang_up) × ((next_frame p st).1.pongs ≡ st.pongs)
unfolding next_frame frame_loop resume
next_frame_end p st a = rw (turn_end p (start_message st) a) (refl, refl)
