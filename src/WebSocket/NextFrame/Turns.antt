-- ===== src/WebSocket/NextFrame/Turns.antt =====
-- A turn of `next_frame` over a data frame that has arrived completely.
use basic_setup.Prelude.{
  ℕ, suc, ◌+◌, ◌≤◌, ◌≡◌, refl, sym, ap, ◌∙◌, subst, ◌⊎◌, Bool, true, false, ◌||◌, Option, some,
  List, [], ◌∷◌, ◌++◌, length, length-append, take, ◌==◌, arith, inl, inr,
}
use basic_setup.Device.Op
use basic_setup.WebSocket.Reader.{next_byte, Ahead, next_byte-Takes}
use basic_setup.WebSocket.Control.{is_control_frame}
use basic_setup.WebSocket.ReadFrame.{max_frame_length, read_frame}
use basic_setup.WebSocket.ReadFrame.Length.{seven_bits}
use basic_setup.WebSocket.ReadFrame.Copied.{wire, read_frame-Read}
use basic_setup.WebSocket.NextFrame.{
  Wfd, Peer, ends, settle, data_reading, data_frame, sized, turn, unexpected,
}
use basic_setup.WebSocket.NextFrame.Fragment.{
  At-reader, Frame, IsFrame, frame_bytes, clear, At, Stepped, second_byte, length-unmask, At-inside,
  Fragment, Fragment-expected, Fragment-lt, first_fragment,
}
use basic_setup.WebSocket.NextFrame.Opening.{turn-sized}

module _ (p : Peer) (memory : (n : ℕ) → p.realloc_ok n ≡ true)
    (answered : (n : ℕ) → p.pong_sent n ≡ true) (open_still : (n : ℕ) → p.closing n ≡ false) where
  data_frame-Stepped :
      (is_fin : Bool) (f : Frame) (rest msg : List ℕ) (type : Option ℕ) (st : Wfd)
      → IsFrame 65536 f
      → At type msg st
      → length msg + length f.payload ≤ max_frame_length
      → Ahead (wire f.masks f.payload rest) st.reader
      → Stepped is_fin type
          (msg ++ clear f)
          st.pongs
          rest
          (data_frame p is_fin (seven_bits (length f.payload)) st)
  unfolding data_frame
  data_frame-Stepped is_fin f rest msg type st v at fits a =
      let buffered = At-inside type msg st at in
      let got =
        read_frame-Read p.realloc_ok memory false is_fin f.masks f.payload rest
          (data_reading (seven_bits (length f.payload)) st) v.four v.bytes v.short a refl
          (omega (arith, at.size, fits)) (omega (arith, at.index, buffered))
          (omega (arith, at.index, at.size)) (λ c. cc) in
      let r =
        read_frame p.realloc_ok false is_fin (data_reading (seven_bits (length f.payload)) st) in
      let grown : length (msg ++ clear f) ≡ length msg + length f.payload =
        omega (arith, length-append msg (clear f), length-unmask f.masks 0 f.payload) in
      let here : st.msg_idx + length f.payload ≡ length (msg ++ clear f) =
        omega (arith, grown, at.index) in
      let so_far : take st.msg_idx st.msg_data ≡ msg =
        ap (λ n. take n st.msg_data) at.index ∙ at.text in
      let whole : take st.msg_idx st.msg_data ++ clear f ≡ msg ++ clear f =
        ap (λ xs. xs ++ clear f) so_far in
      record {
        ended = ap (λ s. settle s (ends is_fin)) got.ok;
        now = record {
          type_so_far = at.type_so_far;
          size = omega (arith, got.total, grown, at.size);
          index = got.index ∙ here;
          text =
              subst (λ n. take n r.1.buf ≡ take st.msg_idx st.msg_data ++ clear f) here got.text
              ∙ whole;
          ctrl = at.ctrl;
        };
        answers = refl;
        left = got.left;
        zero_behind = λ e g.
            subst (λ n. take (suc n) r.1.buf ≡ (take st.msg_idx st.msg_data ++ clear f) ++ (0 ∷ []))
              here (got.zero_behind e (omega (arith, g, grown, at.size)))
            ∙ ap (λ xs. xs ++ (0 ∷ [])) whole;
      }

  data_turn :
      (opcode : ℕ) (is_fin : Bool) (f : Frame) (rest msg : List ℕ) (type : Option ℕ) (st : Wfd)
      → (opcode ≡ Op.txt) ⊎ (opcode ≡ Op.bin) ⊎ (opcode ≡ Op.cont)
      → IsFrame 65536 f
      → At type msg st
      → length msg + length f.payload ≤ max_frame_length
      → Ahead ((128 + seven_bits (length f.payload)) ∷ wire f.masks f.payload rest) st.reader
      → Stepped is_fin type (msg ++ clear f) st.pongs rest (sized p opcode is_fin st)
  unfolding sized is_control_frame
  data_turn opcode is_fin f rest msg type st data_opcode v at fits a =
      let n = length f.payload in
      let (e, a') =
        next_byte-Takes st.reader (128 + seven_bits n) (wire f.masks f.payload rest) a in
      let st1 = record st { reader = (next_byte st.reader).1 } in
      let at1 : At type msg st1 = At-reader type msg st _ _ at in
      let is_data : (opcode == Op.txt || opcode == Op.bin || opcode == Op.cont) ≡ true =
        ground arith in
      let no_control : is_control_frame opcode ≡ false = ground arith in
      rw (e, second_byte n, is_data, no_control)
        (data_frame-Stepped is_fin f rest msg type st1 v at1 fits a')

  -- The first fragment of a message of type `type`, or a further one.
  pub data-Stepped :
      (opcode type : ℕ) (so_far : Option ℕ) (is_fin : Bool) (f : Frame) (rest msg : List ℕ)
      (st : Wfd)
      → Fragment opcode type so_far
      → IsFrame 65536 f
      → At so_far msg st
      → length msg + length f.payload ≤ max_frame_length
      → Ahead (frame_bytes is_fin opcode f rest) st.reader
      → Stepped is_fin (some type) (msg ++ clear f) st.pongs rest (turn p st)
  data-Stepped opcode type so_far is_fin f rest msg st frag v at fits a =
      let bytes = (128 + seven_bits (length f.payload)) ∷ wire f.masks f.payload rest in
      let (expected, valid) = Fragment-expected opcode type so_far frag in
      let (e, a') =
        turn-sized p open_still opcode is_fin bytes st a (Fragment-lt opcode type so_far frag)
          (ap (unexpected opcode) at.type_so_far ∙ expected) valid in
      let st' = record st { reader = (next_byte st.reader).1; met = st.met + 1 } in
      subst (Stepped is_fin (some type) (msg ++ clear f) st.pongs rest) (sym e) (elim frag [
        | inl (o, n, t) ↦
            let starts = first_fragment opcode type o t in
            rw starts.0 (
              data_turn opcode is_fin f rest msg (some type)
                (record st' { frame_type = some opcode }) starts.1 v
                (record {
                  type_so_far = ap some o;
                  size = at.size;
                  index = at.index;
                  text = at.text;
                  ctrl = at.ctrl;
                })
                fits a')
        | inr (o, s) ↦
            let goes_on : (opcode == Op.cont || is_control_frame opcode) ≡ true = ground arith in
            rw goes_on (
              data_turn opcode is_fin f rest msg (some type) st' (inr (inr o)) v
                (subst (λ o. At o msg st') s (At-reader so_far msg st _ _ at)) fits a')
      ])
