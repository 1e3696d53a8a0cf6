-- ===== src/WebSocket/NextFrame/Pings.antt =====
-- A turn of `next_frame` over a PING frame that has arrived completely.
use basic_setup.Prelude.{
  ℕ, ◌+◌, ◌≡◌, refl, sym, ap, ◌∙◌, subst, true, false, Option, List, [], ◌∷◌, ◌++◌, length, take,
  ltb, arith,
}
use basic_setup.Device.Op
use basic_setup.WebSocket.Reader.{next_byte, Ahead, next_byte-Takes}
use basic_setup.WebSocket.Control.{is_control_frame}
use basic_setup.WebSocket.ReadFrame.{read_frame}
use basic_setup.WebSocket.ReadFrame.Control.{msg_ctrl_size}
use basic_setup.WebSocket.ReadFrame.Length.{seven_bits}
use basic_setup.WebSocket.ReadFrame.Copied.{wire, read_frame-Read}
use basic_setup.WebSocket.NextFrame.{
  Wfd, Peer, ctrl_reading, do_pong, ping_frame, sized, turn, unexpected,
}
use basic_setup.WebSocket.NextFrame.Fragment.{
  At-reader, Frame, IsFrame, frame_bytes, clear, At, Stepped, second_byte, small_length,
  ping_expected,
}
use basic_setup.WebSocket.NextFrame.Opening.{turn-sized}

module _ (p : Peer) (memory : (n : ℕ) → p.realloc_ok n ≡ true)
    (answered : (n : ℕ) → p.pong_sent n ≡ true) (open_still : (n : ℕ) → p.closing n ≡ false) where
  -- A PING of at most 124 bytes is answered with its payload.
  ping_frame-Stepped :
      (f : Frame) (rest msg : List ℕ) (type : Option ℕ) (st : Wfd)
      → IsFrame msg_ctrl_size f
      → At type msg st
      → Ahead (wire f.masks f.payload rest) st.reader
      → Stepped false type msg
          (st.pongs ++ (clear f ∷ []))
          rest
          (ping_frame p true (seven_bits (length f.payload)) st)
  unfolding ping_frame do_pong
  ping_frame-Stepped f rest msg type st v at a =
      let got =
        read_frame-Read p.realloc_ok memory true true f.masks f.payload rest
          (ctrl_reading (seven_bits (length f.payload)) st) v.four v.bytes (omega (arith, v.short))
          a refl (omega (arith, v.short)) (omega arith) (omega arith)
          (λ c. omega (arith, v.short, at.ctrl)) in
      let r = read_frame p.realloc_ok true true (ctrl_reading (seven_bits (length f.payload)) st) in
      let size : 0 + length f.payload ≡ r.1.frame_size = sym got.total in
      let same : take r.1.frame_size r.1.buf ≡ clear f =
        subst (λ n. take n r.1.buf ≡ clear f) size got.text in
      rw (got.ok, ping_frame, answered st.met)
        (record {
          ended = refl;
          now = record {
            type_so_far = at.type_so_far;
            size = at.size;
            index = at.index;
            text = at.text;
            ctrl = got.kept refl ∙ at.ctrl;
          };
          answers = ap (λ xs. st.pongs ++ (xs ∷ [])) same;
          left = got.left;
          zero_behind = λ e g. cc;
        })

  ping_turn :
      (f : Frame) (rest msg : List ℕ) (type : Option ℕ) (st : Wfd)
      → IsFrame msg_ctrl_size f
      → At type msg st
      → Ahead ((128 + seven_bits (length f.payload)) ∷ wire f.masks f.payload rest) st.reader
      → Stepped false type msg (st.pongs ++ (clear f ∷ [])) rest (sized p Op.ping true st)
  unfolding sized is_control_frame
  ping_turn f rest msg type st v at a =
      let n = length f.payload in
      let (e, a') =
        next_byte-Takes st.reader (128 + seven_bits n) (wire f.masks f.payload rest) a in
      let st1 = record st { reader = (next_byte st.reader).1 } in
      let at1 : At type msg st1 = At-reader type msg st _ _ at in
      let few : ltb 125 (seven_bits n) ≡ false = small_length n v.short in
      rw (e, second_byte n, few) (ping_frame-Stepped f rest msg type st1 v at1 a')

  pub ping-Stepped :
      (f : Frame) (rest msg : List ℕ) (type : Option ℕ) (st : Wfd)
      → IsFrame msg_ctrl_size f
      → At type msg st
      → Ahead (frame_bytes true Op.ping f rest) st.reader
      → Stepped false type msg (st.pongs ++ (clear f ∷ [])) rest (turn p st)
  unfolding is_control_frame
  ping-Stepped f rest msg type st v at a =
      let bytes = (128 + seven_bits (length f.payload)) ∷ wire f.masks f.payload rest in
      let (expected, valid) = ping_expected type in
      let (e, a') =
        turn-sized p open_still Op.ping true bytes st a (omega arith)
          (ap (unexpected Op.ping) at.type_so_far ∙ expected) valid in
      let st' = record st { reader = (next_byte st.reader).1; met = st.met + 1 } in
      subst (Stepped false type msg (st.pongs ++ (clear f ∷ [])) rest) (sym e)
        (ping_turn f rest msg type st' v (At-reader _ msg st _ _ at) a')
