-- ===== src/WebSocket/NextFrame/Message.antt =====
-- A message that arrives in fragments, with PING frames between them.
use basic_setup.Prelude.{
  ℕ, zero, suc, ◌+◌, ◌≤◌, ◌<◌, ◌≡◌, refl, sym, ap, ◌∙◌, subst, ◌⊎◌, inl, inr, Bool, true, false,
  Option, none, some, List, [], ◌∷◌, ◌++◌, append-nil, append_assoc, map, length, length-append,
  take, if◌then◌else◌, arith,
}
use basic_setup.Device.Op
use basic_setup.WebSocket.Reader.{Reader, Ahead, unread}
use basic_setup.WebSocket.ReadFrame.{max_frame_length}
use basic_setup.WebSocket.ReadFrame.Control.{msg_ctrl_size}
use basic_setup.WebSocket.NextFrame.{
  Wfd, Peer, Turn, ends, leaves, closes, hangs_up, overruns, Outcome, message, error_end, turn,
  finish, resume, frame_loop, start_message, next_frame,
}
use basic_setup.WebSocket.NextFrame.Progress.{Goes, turn-Goes}
use basic_setup.WebSocket.NextFrame.Fragment.{
  Frame, frame_bytes, clear, At, Stepped, Fragment, length-unmask,
}
use basic_setup.WebSocket.NextFrame.Turns.{data-Stepped}
use basic_setup.WebSocket.NextFrame.Pings.{ping-Stepped}
use basic_setup.WebSocket.NextFrame.Section.{
  Section, AllFrames, IsSection, AllSections, ping_bytes, encode, text, asked,
}

Goes-ends :
    (v : Reader) (r : Turn × Wfd) (is_fin : Bool)
    → r.0 ≡ ends is_fin
    → Goes v r
    → unread r.1.reader < unread v
Goes-ends v (ends f, st) is_fin e g = g.1
Goes-ends v (leaves, st) is_fin e g = cc
Goes-ends v (closes, st) is_fin e g = cc
Goes-ends v (hangs_up, st) is_fin e g = cc
Goes-ends v (overruns, st) is_fin e g = cc

-- What the loop gives at the end of a message.
pub record Received (type : ℕ) (msg : List ℕ) (pongs : List (List ℕ)) (rest : List ℕ)
    (r : Option Outcome × Wfd) : Type 0 where
  pub outcome : r.0 ≡ some message
  pub has_type : r.1.frame_type ≡ some type
  pub size : r.1.frame_size ≡ length msg
  pub content : take (length msg) r.1.msg_data ≡ msg
  pub zero_behind : 0 < length msg → take (suc (length msg)) r.1.msg_data ≡ msg ++ (0 ∷ [])
  pub answers : r.1.pongs ≡ pongs
  pub ctrl : length r.1.msg_ctrl ≡ msg_ctrl_size
  pub left : Ahead rest r.1.reader

Stepped-Received :
    (type : ℕ) (msg rest : List ℕ) (pongs : List (List ℕ)) (r : Turn × Wfd)
    (more : Option Outcome × Wfd)
    → Stepped true (some type) msg pongs rest r
    → Received type msg pongs rest (resume r.0 r.1 more)
unfolding resume finish
Stepped-Received type msg rest pongs r more h =
    rw (h.ended, resume)
      (record {
        outcome = ap (λ (b : Bool). some (if b then error_end else message)) h.left.no_error;
        has_type = h.now.type_so_far;
        size = h.now.size;
        content = h.now.text;
        zero_behind = h.zero_behind refl;
        answers = h.answers;
        ctrl = h.now.ctrl;
        left = h.left;
      })

Stepped-resume :
    (type : Option ℕ) (msg rest : List ℕ) (pongs : List (List ℕ)) (r : Turn × Wfd)
    (more : Option Outcome × Wfd)
    → Stepped false type msg pongs rest r
    → resume r.0 r.1 more ≡ more
unfolding resume
Stepped-resume type msg rest pongs r more h = rw (h.ended, resume, h.left.no_error) refl

part_fits :
    (msg : List ℕ) (s : Section) (ss : List Section)
    → length (msg ++ text s ss) ≤ max_frame_length
    → length msg + length s.part.payload ≤ max_frame_length
part_fits msg s [] fits =
    omega (arith, length-append msg (clear s.part), length-unmask s.part.masks 0 s.part.payload)
part_fits msg s (t ∷ ss) fits = omega (
  arith,
  length-append msg (clear s.part ++ text t ss),
  length-append (clear s.part) (text t ss),
  length-unmask s.part.masks 0 s.part.payload,
)

module _ (p : Peer) (memory : (n : ℕ) → p.realloc_ok n ≡ true)
    (answered : (n : ℕ) → p.pong_sent n ≡ true) (open_still : (n : ℕ) → p.closing n ≡ false) where
  -- What holds of the loop from every state behind a frame holds from the state before it.
  loop_goes :
      (Q : Option Outcome × Wfd → Type 0) (type : Option ℕ) (msg bytes rest : List ℕ)
      (pongs : List (List ℕ)) (fuel : ℕ) (st : Wfd)
      → Ahead bytes st.reader
      → unread st.reader < fuel
      → Stepped false type msg pongs rest (turn p st)
      → ((n : ℕ) → unread (turn p st).1.reader < n → Q (frame_loop p n (turn p st).1))
      → Q (frame_loop p fuel st)
  unfolding frame_loop
  loop_goes Q type msg bytes rest pongs zero st a less h q = absurd (omega arith)
  loop_goes Q type msg bytes rest pongs (suc n) st a less h q =
      let fewer = Goes-ends st.reader (turn p st) false h.ended (turn-Goes p st a.within) in
      subst Q
        (sym (Stepped-resume type msg rest pongs (turn p st) (frame_loop p n (turn p st).1) h))
        (q n (omega (arith, less, fewer)))

  loop_ends :
      (type : ℕ) (msg rest : List ℕ) (pongs : List (List ℕ)) (fuel : ℕ) (st : Wfd)
      → unread st.reader < fuel
      → Stepped true (some type) msg pongs rest (turn p st)
      → Received type msg pongs rest (frame_loop p fuel st)
  unfolding frame_loop
  loop_ends type msg rest pongs zero st less h = absurd (omega arith)
  loop_ends type msg rest pongs (suc n) st less h =
      Stepped-Received type msg rest pongs (turn p st) (frame_loop p n (turn p st).1) h

  -- The PING frames in front of a fragment.
  loop_pings :
      (Q : Option Outcome × Wfd → Type 0) (type : Option ℕ) (msg rest : List ℕ) (fs : List Frame)
      (fuel : ℕ) (st : Wfd)
      → AllFrames msg_ctrl_size fs
      → At type msg st
      → Ahead (ping_bytes fs rest) st.reader
      → unread st.reader < fuel
      → ((n : ℕ) (st' : Wfd)
          → At type msg st'
          → st'.pongs ≡ st.pongs ++ map clear fs
          → Ahead rest st'.reader
          → unread st'.reader < n
          → Q (frame_loop p n st'))
      → Q (frame_loop p fuel st)
  loop_pings Q type msg rest [] fuel st v at a less q =
      q fuel st at (sym (append-nil st.pongs)) a less
  loop_pings Q type msg rest (f ∷ fs) fuel st (v, vs) at a less q =
      let h = ping-Stepped p memory answered open_still f (ping_bytes fs rest) msg type st v at a in
      loop_goes Q type msg (ping_bytes (f ∷ fs) rest) (ping_bytes fs rest)
        (st.pongs ++ (clear f ∷ [])) fuel st a less h
        (λ n less'.
          loop_pings Q type msg rest fs n (turn p st).1 vs h.now h.left less'
            (λ m st' at' pongs a' less''.
              q m st' at'
                (pongs
                  ∙ ap (λ xs. xs ++ map clear fs) h.answers
                  ∙ append_assoc st.pongs (clear f ∷ []) (map clear fs))
                a' less''))

  loop_message :
      (opcode type : ℕ) (so_far : Option ℕ) (msg rest : List ℕ) (s : Section) (ss : List Section)
      (fuel : ℕ) (st : Wfd)
      → Fragment opcode type so_far
      → IsSection s
      → AllSections ss
      → length (msg ++ text s ss) ≤ max_frame_length
      → At so_far msg st
      → Ahead (encode opcode s ss rest) st.reader
      → unread st.reader < fuel
      → Received type (msg ++ text s ss) (st.pongs ++ asked s ss) rest (frame_loop p fuel st)
  loop_message opcode type so_far msg rest s [] fuel st frag v vs fits at a less =
      loop_pings (Received type (msg ++ clear s.part) (st.pongs ++ map clear s.pings) rest) so_far
        msg (frame_bytes true opcode s.part rest) s.pings fuel st v.0 at a less
        (λ n st' at' pongs a' less'.
          let h =
            data-Stepped p memory answered open_still opcode type so_far true s.part rest msg st'
              frag v.1 at' (part_fits msg s [] fits) a' in
          subst (λ xs. Received type (msg ++ clear s.part) xs rest (frame_loop p n st')) pongs
            (loop_ends type (msg ++ clear s.part) rest st'.pongs n st' less' h))
  loop_message opcode type so_far msg rest s (t ∷ ss) fuel st frag v vs fits at a less =
      let whole = msg ++ text s (t ∷ ss) in
      let pongs' = st.pongs ++ asked s (t ∷ ss) in
      let next = encode Op.cont t ss rest in
      let Q = Received type whole pongs' rest in
      loop_pings Q so_far msg (frame_bytes false opcode s.part next) s.pings fuel st v.0 at a less
        (λ n st' at' pongs a' less'.
          let h =
            data-Stepped p memory answered open_still opcode type so_far false s.part next msg st'
              frag v.1 at' (part_fits msg s (t ∷ ss) fits) a' in
          let together : (msg ++ clear s.part) ++ text t ss ≡ whole =
            append_assoc msg (clear s.part) (text t ss) in
          let asked_all : (turn p st').1.pongs ++ asked t ss ≡ pongs' =
            ap (λ xs. xs ++ asked t ss) (h.answers ∙ pongs)
            ∙ append_assoc st.pongs (map clear s.pings) (asked t ss) in
          loop_goes Q (some type) (msg ++ clear s.part) (frame_bytes false opcode s.part next) next
            st'.pongs n st' a' less' h
            (λ m less''.
              subst (λ xs. Received type whole xs rest (frame_loop p m (turn p st').1)) asked_all
                (subst
                  (λ xs.
                    Received type xs ((turn p st').1.pongs ++ asked t ss) rest
                      (frame_loop p m (turn p st').1))
                  together
                  (loop_message Op.cont type (some type) (msg ++ clear s.part) rest t ss m
                    (turn p st').1 (inr (refl, refl)) vs.0 vs.1
                    (subst (λ xs. length xs ≤ max_frame_length) (sym together) fits) h.now h.left
                    less''))))

  -- If the bytes of a message of type TXT or BIN, whose fragments are shorter than 65536 bytes and
  -- together at most 16 MiB long, with PING frames of less than 125 bytes before the fragments, arrive
  -- in whatever pieces, and no memory runs out, no PONG fails and the client stays open, then
  -- `next_frame` returns 0 with the type, the size and the unmasked text of the message, a zero behind
  -- it if it is not empty, has answered each PING with its payload, and leaves what follows unread.
  pub next_frame-Received :
      (type : ℕ) (rest : List ℕ) (s : Section) (ss : List Section) (st : Wfd)
      → (type ≡ Op.txt) ⊎ (type ≡ Op.bin)
      → IsSection s
      → AllSections ss
      → length (text s ss) ≤ max_frame_length
      → length st.msg_ctrl ≡ msg_ctrl_size
      → Ahead (encode type s ss rest) st.reader
      → Received type (text s ss) (st.pongs ++ asked s ss) rest (next_frame p st)
  unfolding next_frame
  next_frame-Received type rest s ss st t v vs fits ctrl a =
      loop_message type type none [] rest s ss (suc (unread st.reader)) (start_message st)
        (inl (refl, refl, t)) v vs fits
        (record { type_so_far = refl; size = refl; index = refl; text = refl; ctrl = ctrl }) a
        (omega arith)
