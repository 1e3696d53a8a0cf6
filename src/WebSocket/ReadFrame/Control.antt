-- ===== src/WebSocket/ReadFrame/Control.antt =====
-- A final control frame of the largest size that `next_frame` lets through.
use basic_setup.Prelude.{
  ℕ, ◌+◌, ◌%◌, ◌^◌, ◌≤◌, ◌<◌, ◌≡◌, refl, sym, ◌∙◌, subst, Bool, true, false, List, ◌++◌, length,
  ltb, ◌==◌, arith,
}
use basic_setup.WebSocket.Reader.{Ahead}
use basic_setup.WebSocket.ReadFrame.{
  Status, done, failed, fault, Reading, max_frame_length, read_masks, write_byte, and_then,
  copy_payload, read_payload, terminate, read_body,
}
use basic_setup.WebSocket.ReadFrame.Payload.{Inside, copy_payload-Inside, copy_payload-Copied}
use basic_setup.WebSocket.ReadFrame.Overflow.{read_masks-Ahead}

-- The size of `msg_ctrl`.
abbrev pub msg_ctrl_size : ℕ
msg_ctrl_size = 125

and_then-done :
    (r : Status × Reading) (next : Reading → Status × Reading)
    → r.0 ≡ done
    → (next r.1).0 ≡ fault
    → (and_then r next).0 ≡ fault
and_then-done (done, st) next e h = h
and_then-done (failed, st) next e h = cc
and_then-done (fault, st) next e h = refl

pub Inside-done :
    (n : ℕ) (st : Reading) (r : Status × Reading)
    → r.0 ≡ done
    → Inside n st r
    → Inside n st (done, r.1)
Inside-done n st (done, st') e h = h
Inside-done n st (failed, st') e h = cc
Inside-done n st (fault, st') e h = absurd h

module _ (realloc_ok : ℕ → Bool) where
  terminate-overrun :
      (st : Reading)
      → length st.buf ≤ st.msg_idx
      → 0 < st.frame_size
      → 0 < st.frame_length
      → (terminate realloc_ok true true st).0 ≡ fault
  unfolding terminate write_byte
  terminate-overrun st full size len = ground arith

  -- A final control frame of 125 bytes that arrives completely fills `msg_ctrl`, and its terminator
  -- is written behind it.
  pub read_body-control :
      (ms bs rest : List ℕ) (st : Reading)
      → st.frame_size ≡ 0
      → st.msg_idx ≡ 0
      → st.frame_length ≡ msg_ctrl_size
      → length st.buf ≡ msg_ctrl_size
      → length bs ≡ msg_ctrl_size
      → length ms ≡ 4
      → Ahead (ms ++ (bs ++ rest)) st.reader
      → (read_body realloc_ok true true st).0 ≡ fault
  unfolding read_body read_payload
  read_body-control ms bs rest st size idx len room all four a =
      let total = (st.frame_size + st.frame_length) % 2 ^ 64 in
      let whole : total ≡ 125 = omega (arith, size, len) in
      let passes : ltb max_frame_length total ≡ false = ground (arith, whole) in
      let ahead : Ahead (bs ++ rest) (read_masks 4 st.reader).1 =
        subst (λ n. Ahead (bs ++ rest) (read_masks n st.reader).1) four
          (read_masks-Ahead ms (bs ++ rest) st.reader a) in
      let (masks, w) = read_masks 4 st.reader in
      let payload : (st.frame_length == 0) ≡ false = ground (arith, len) in
      let st' : Reading = record st { frame_size = total; reader = w } in
      let count : st.frame_length ≡ length bs = len ∙ sym all in
      let copied = copy_payload-Copied masks 0 bs rest st' ahead (omega (arith, idx, room, all)) in
      let finished : (copy_payload masks 0 st.frame_length st').0 ≡ done =
        subst (λ n. (copy_payload masks 0 n st').0 ≡ done) (sym count) copied.0 in
      let inside =
        Inside-done st.frame_length st' _ finished
          (copy_payload-Inside masks 0 st.frame_length st' (omega (arith, idx, room, len))) in
      rw (passes, ahead.no_error, payload)
        (and_then-done (copy_payload masks 0 st.frame_length st') _ finished (
          terminate-overrun (copy_payload masks 0 st.frame_length st').1
            (omega (arith, inside.0, inside.1, idx, room, len)) (omega (arith, inside.2, whole))
            (omega (arith, inside.3, len))))
