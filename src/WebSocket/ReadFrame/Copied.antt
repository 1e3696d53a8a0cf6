-- ===== src/WebSocket/ReadFrame/Copied.antt =====
-- A frame that has arrived completely: `read_frame` appends its payload to the buffer.
use basic_setup.Prelude.{
  ℕ, suc, ◌+◌, ◌%◌, ◌^◌, ◌≤◌, ◌<◌, ◌≡◌, refl, sym, ap, ◌∙◌, subst, Bool, true, false, not, ◌&&◌,
  List, [], ◌∷◌, ◌++◌, length, length-set, take, take-set_le, ltb, ◌==◌, arith, if_cases,
}
use basic_setup.WebSocket.Reader.{Ahead}
use basic_setup.WebSocket.ReadFrame.{
  Status, done, failed, fault, Reading, max_frame_length, read_length, read_masks, realloc,
  write_byte, and_then, read_payload, terminate, read_body, read_frame,
}
use basic_setup.WebSocket.ReadFrame.Payload.{unmask, length-realloc, write_byte_done, take-set}
use basic_setup.WebSocket.ReadFrame.Overflow.{read_masks-Ahead}
use basic_setup.WebSocket.ReadFrame.Length.{
  AllBytes, read_masks-bytes, seven_bits, length_bytes, read_length-Ahead,
}
use basic_setup.WebSocket.ReadFrame.Appended.{take-realloc, Appended, read_payload-Appended}

-- What `read_frame` leaves of a frame that has arrived completely, if it is called with the size
-- `size`, the index `idx` and the buffer `buf`: the payload stands behind the message so far without
-- its mask, and a zero behind it if the frame is final and the message not empty.
pub record Read (control is_fin : Bool) (ms bs rest : List ℕ) (size idx : ℕ) (buf : List ℕ)
    (r : Status × Reading) : Type 0 where
  pub ok : r.0 ≡ done
  pub total : r.1.frame_size ≡ size + length bs
  pub index : r.1.msg_idx ≡ idx + length bs
  pub text : take (idx + length bs) r.1.buf ≡ take idx buf ++ unmask ms 0 bs
  pub zero_behind :
      is_fin ≡ true
      → 0 < size + length bs
      → take (suc (idx + length bs)) r.1.buf ≡ (take idx buf ++ unmask ms 0 bs) ++ (0 ∷ [])
  pub kept : control ≡ true → length r.1.buf ≡ length buf
  pub left : Ahead rest r.1.reader

and_then_done :
    (r : Status × Reading) (next : Reading → Status × Reading)
    → r.0 ≡ done
    → and_then r next ≡ next r.1
and_then_done (done, st) next e = refl
and_then_done (failed, st) next e = cc
and_then_done (fault, st) next e = cc

module _ (realloc_ok : ℕ → Bool) (memory : (n : ℕ) → realloc_ok n ≡ true) (control is_fin : Bool)
    (ms bs rest : List ℕ) where
  -- After the terminator of a final frame.
  record Completed (st : Reading) (r : Status × Reading) : Type 0 where
    ok : r.0 ≡ done
    size : r.1.frame_size ≡ st.frame_size
    idx : r.1.msg_idx ≡ st.msg_idx
    text : take st.msg_idx r.1.buf ≡ take st.msg_idx st.buf
    zero_behind :
        is_fin ≡ true
        → 0 < st.frame_size
        → take (suc st.msg_idx) r.1.buf ≡ take st.msg_idx st.buf ++ (0 ∷ [])
    kept : control ≡ true → length r.1.buf ≡ length st.buf
    reader : r.1.reader ≡ st.reader

  write_byte-Completed :
      (st : Reading) (buf : List ℕ)
      → st.msg_idx < length buf
      → take st.msg_idx buf ≡ take st.msg_idx st.buf
      → (control ≡ true → length buf ≡ length st.buf)
      → Completed st (write_byte 0 (record st { buf = buf }))
  write_byte-Completed st buf h text kept =
      subst (Completed st) (sym (write_byte_done 0 (record st { buf = buf }) h)) (record {
        ok = refl;
        size = refl;
        idx = refl;
        text = take-set_le buf st.msg_idx 0 ∙ text;
        zero_behind =
            λ f g. take-set buf st.msg_idx 0 h ∙ ap (λ (xs : List ℕ). xs ++ (0 ∷ [])) text;
        kept = λ c. length-set buf st.msg_idx 0 ∙ kept c;
        reader = refl;
      })

  terminate-Completed :
      (st : Reading)
      → st.msg_idx ≤ length st.buf
      → st.msg_idx + 1 < 2 ^ 32
      → (is_fin ≡ true → (st.frame_length == 0 && not control) ≡ false → st.msg_idx < length st.buf)
      → Completed st (terminate realloc_ok control is_fin st)
  unfolding terminate
  terminate-Completed st h small room =
      let Q = Completed st in
      let size = st.msg_idx + 1 in
      if_cases Q (is_fin && ltb 0 st.frame_size) _ _
        (λ final.
          if_cases Q (st.frame_length == 0 && not control) _ _
            (λ e.
              if_cases Q (realloc_ok (size % 2 ^ 32)) _ _
                (λ f.
                  write_byte-Completed st (realloc size st.buf)
                    (omega (arith, length-realloc size st.buf))
                    (take-realloc st.msg_idx size st.buf h (omega arith) small) (λ c. ground arith))
                (λ f. let no : true ≡ false = sym (memory (size % 2 ^ 32)) ∙ f in cc))
            (λ e. write_byte-Completed st st.buf (room (ground arith) e) refl (λ c. refl)))
        (λ open_ended. record {
          ok = refl;
          size = refl;
          idx = refl;
          text = refl;
          zero_behind = λ f g. ground arith;
          kept = λ c. refl;
          reader = refl;
        })

  -- The payload and the terminator together; `st` is the state before the size was added.
  joined :
      (st : Reading) (r1 r : Status × Reading) {size : ℕ}
      → Appended realloc_ok memory control is_fin ms bs rest st r1
      → Completed r1.1 r
      → st.frame_size ≡ size + length bs
      → Read control is_fin ms bs rest size st.msg_idx st.buf r
  joined st r1 r p z whole = record {
    ok = z.ok;
    total = z.size ∙ p.size ∙ whole;
    index = z.idx ∙ p.idx;
    text = subst (λ i. take i r.1.buf ≡ take i r1.1.buf) p.idx z.text ∙ p.text;
    zero_behind = λ f g.
        subst (λ i. take (suc i) r.1.buf ≡ take i r1.1.buf ++ (0 ∷ [])) p.idx
          (z.zero_behind f (omega (arith, g, p.size, whole)))
        ∙ ap (λ (xs : List ℕ). xs ++ (0 ∷ [])) p.text;
    kept = λ c. z.kept c ∙ p.kept c;
    left = subst (Ahead rest) (sym z.reader) p.left;
  }

  read_body-Read :
      (st : Reading)
      → length ms ≡ 4
      → AllBytes ms
      → Ahead (ms ++ (bs ++ rest)) st.reader
      → st.frame_length ≡ length bs
      → st.frame_size + length bs ≤ max_frame_length
      → st.msg_idx ≤ length st.buf
      → st.msg_idx ≤ st.frame_size
      → (control ≡ true → st.msg_idx + length bs < length st.buf)
      → Read control is_fin ms bs rest st.frame_size st.msg_idx st.buf
          (read_body realloc_ok control is_fin st)
  unfolding read_body
  read_body-Read st four bytes a len fits h le ctrl =
      let total = (st.frame_size + st.frame_length) % 2 ^ 64 in
      let whole : total ≡ st.frame_size + length bs = omega (arith, len, fits) in
      let passes : ltb max_frame_length total ≡ false = ground (arith, whole, fits) in
      let ahead : Ahead (bs ++ rest) (read_masks 4 st.reader).1 =
        subst (λ n. Ahead (bs ++ rest) (read_masks n st.reader).1) four
          (read_masks-Ahead ms (bs ++ rest) st.reader a) in
      let masks : (read_masks 4 st.reader).0 ≡ ms =
        subst (λ n. (read_masks n st.reader).0 ≡ ms) four
          (read_masks-bytes ms (bs ++ rest) st.reader bytes a) in
      let st1 : Reading = record st { frame_size = total; reader = (read_masks 4 st.reader).1 } in
      let p =
        read_payload-Appended realloc_ok memory control is_fin ms bs rest st1 ahead len h
          (omega (arith, le, fits)) ctrl in
      let r1 = read_payload realloc_ok control is_fin ms st1 in
      let here : r1.1.msg_idx ≡ st.msg_idx + length bs = p.idx in
      let z =
        terminate-Completed r1.1 (omega (arith, here, p.inside)) (omega (arith, here, le, fits))
          (λ f g.
            let k = p.room f (subst (λ n. (n == 0 && not control) ≡ false) p.same g) in
            omega (arith, here, k)) in
      rw
        (passes, ahead.no_error, masks, and_then_done r1 (terminate realloc_ok control is_fin) p.ok)
        (joined st1 r1 (terminate realloc_ok control is_fin r1.1) p z whole)

-- `n` bytes of payload, as `read_frame` meets them: the length behind the seven bits, the masks, the
-- payload, and what follows.
abbrev pub wire : List ℕ → List ℕ → List ℕ → List ℕ
wire ms bs rest = length_bytes (length bs) ++ (ms ++ (bs ++ rest))

module _ (realloc_ok : ℕ → Bool) (memory : (n : ℕ) → realloc_ok n ≡ true) (control is_fin : Bool)
    (ms bs rest : List ℕ) where
  pub read_frame-Read :
      (st : Reading)
      → length ms ≡ 4
      → AllBytes ms
      → length bs < 65536
      → Ahead (wire ms bs rest) st.reader
      → st.frame_length ≡ seven_bits (length bs)
      → st.frame_size + length bs ≤ max_frame_length
      → st.msg_idx ≤ length st.buf
      → st.msg_idx ≤ st.frame_size
      → (control ≡ true → st.msg_idx + length bs < length st.buf)
      → Read control is_fin ms bs rest st.frame_size st.msg_idx st.buf
          (read_frame realloc_ok control is_fin st)
  unfolding read_frame
  read_frame-Read st four bytes small a len fits h le ctrl =
      let P = λ (k : ℕ). Read control is_fin ms bs rest st.frame_size st.msg_idx st.buf (
        read_body realloc_ok control is_fin (record st {
          frame_length = (read_length k st.reader).0;
          reader = (read_length k st.reader).1;
        })) in
      let (n, a') = read_length-Ahead (length bs) (ms ++ (bs ++ rest)) st.reader small a in
      let st1 = record st {
        frame_length = (read_length (seven_bits (length bs)) st.reader).0;
        reader = (read_length (seven_bits (length bs)) st.reader).1;
      } in
      subst P (sym len) (
        read_body-Read realloc_ok memory control is_fin ms bs rest st1 four bytes a' n fits h le
          ctrl)
