-- ===== src/WebSocket/NextFrame/Later.antt =====
-- No step of a turn of `next_frame` gives bytes back.
use basic_setup.Prelude.{
  ℕ, ◌/◌, ◌%◌, Bool, true, false, ◌||◌, ltb, ◌==◌, inl, inr, if_both, not, ◌&&◌,
}
use basic_setup.WebSocket.Reader.{Reader, next_byte}
use basic_setup.WebSocket.ReadFrame.{Status-cases, as_u64, read_frame}
use basic_setup.Device.Op
use basic_setup.WebSocket.Control.{is_control_frame}
use basic_setup.WebSocket.ReadFrame.Progress.{Later, next_byte-Later, raise-Later, read_frame-Later}
use basic_setup.WebSocket.NextFrame.{
  Wfd, Peer, Turn, data_frame, pong_frame, ping_frame, do_pong, keep_pong, close_frame, sized,
  accepted, opened, data_reading, ctrl_reading, store_ctrl, unexpected, valid_opcode,
}

-- The same of a step of `next_frame`.
abbrev pub After : Reader → Turn × Wfd → Type 0
After v r = Later v r.1.reader

module _ (p : Peer) (v : Reader) where
  data_frame-After :
      (is_fin : Bool) (n : ℕ) (st : Wfd) → Later v st.reader → After v (data_frame p is_fin n st)
  unfolding data_frame
  data_frame-After is_fin n st l =
      read_frame-Later v p.realloc_ok false is_fin (data_reading n st) l

  keep_pong-After : (size : ℕ) (st : Wfd) → Later v st.reader → Later v (keep_pong p size st).reader
  unfolding keep_pong
  keep_pong-After size st l = if_both (λ (r : Wfd). Later v r.reader) _ _ _ l l

  pong_frame-After :
      (is_fin : Bool) (n : ℕ) (st : Wfd) → Later v st.reader → After v (pong_frame p is_fin n st)
  unfolding pong_frame
  pong_frame-After is_fin n st l =
      let (status, r) = read_frame p.realloc_ok true is_fin (ctrl_reading n st) in
      let l' : Later v r.reader =
        read_frame-Later v p.realloc_ok true is_fin (ctrl_reading n st) l in
      elim (Status-cases status) [
        | inl e ↦ rw (e, pong_frame) (keep_pong-After r.frame_size (store_ctrl r st) l')
        | inr (inl e) ↦ rw (e, pong_frame) l'
        | inr (inr e) ↦ rw (e, pong_frame) l'
      ]

  do_pong-After : (size : ℕ) (st : Wfd) → Later v st.reader → After v (do_pong p size st)
  unfolding do_pong
  do_pong-After size st l = if_both (After v) (p.pong_sent st.met) _ _ l (raise-Later v st.reader l)

  ping_frame-After :
      (is_fin : Bool) (n : ℕ) (st : Wfd) → Later v st.reader → After v (ping_frame p is_fin n st)
  unfolding ping_frame
  ping_frame-After is_fin n st l =
      let (status, r) = read_frame p.realloc_ok true is_fin (ctrl_reading n st) in
      let l' : Later v r.reader =
        read_frame-Later v p.realloc_ok true is_fin (ctrl_reading n st) l in
      elim (Status-cases status) [
        | inl e ↦ rw (e, ping_frame) (do_pong-After r.frame_size (store_ctrl r st) l')
        | inr (inl e) ↦ rw (e, ping_frame) l'
        | inr (inr e) ↦ rw (e, ping_frame) l'
      ]

  close_frame-After :
      (is_fin : Bool) (n : ℕ) (st : Wfd) → Later v st.reader → After v (close_frame p is_fin n st)
  unfolding close_frame
  close_frame-After is_fin n st l =
      let (status, r) = read_frame p.realloc_ok true is_fin (ctrl_reading n st) in
      let l' : Later v r.reader =
        read_frame-Later v p.realloc_ok true is_fin (ctrl_reading n st) l in
      elim (Status-cases status) [
        | inl e ↦ rw (e, close_frame) l'
        | inr (inl e) ↦ rw (e, close_frame) l'
        | inr (inr e) ↦ rw (e, close_frame) l'
      ]

  sized-After :
      (opcode : ℕ) (is_fin : Bool) (st : Wfd)
      → Later v st.reader
      → After v (sized p opcode is_fin st)
  unfolding sized
  sized-After opcode is_fin st l =
      let (b, w) = next_byte st.reader in
      let n = as_u64 b % 256 % 128 in
      let st' = record st { reader = w } in
      let l' : Later v w = next_byte-Later v st.reader l in
      if_both (After v) (is_control_frame opcode && (not is_fin || ltb 125 n)) _ _
        (raise-Later v w l')
        (if_both (After v) (opcode == Op.txt || opcode == Op.bin || opcode == Op.cont) _ _
          (data_frame-After is_fin n st' l')
          (if_both (After v) (opcode == Op.pong) _ _ (pong_frame-After is_fin n st' l') (
            if_both (After v) (opcode == Op.ping) _ _ (ping_frame-After is_fin n st' l')
              (close_frame-After is_fin n st' l'))))

  accepted-After :
      (opcode : ℕ) (is_fin : Bool) (st : Wfd)
      → Later v st.reader
      → After v (accepted p opcode is_fin st)
  unfolding accepted
  accepted-After opcode is_fin st l =
      if_both (After v) (p.closing st.met && not (opcode == Op.clse)) _ _
        (raise-Later v st.reader l)
        (sized-After opcode is_fin _ (if_both (λ (r : Wfd). Later v r.reader) _ _ _ l l))

  pub opened-After : (b : ℕ) (st : Wfd) → Later v st.reader → After v (opened p b st)
  unfolding opened
  opened-After b st l =
      let raised = raise-Later v st.reader l in
      if_both (After v) (not (b / 16 % 8 == 0) || unexpected (b % 16) st.frame_type) _ _ raised (
        if_both (After v) (valid_opcode (b % 16)) _ _
          (accepted-After (b % 16) (b % 256 / 128 == 1) st l) raised)
