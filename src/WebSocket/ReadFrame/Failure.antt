-- ===== src/WebSocket/ReadFrame/Failure.antt =====
-- `read_frame` fails only with the error flag set.
use basic_setup.Prelude.{
  ℕ, zero, suc, ◌+◌, ◌%◌, ◌^◌, ◌≡◌, refl, Bool, true, not, ◌&&◌, ◌||◌, none, some, List, [], ◌∷◌,
  length, get_or, ltb, ◌==◌, bit_xor, if_both, if_cases, Option-cases, inl, inr, Option,
}
use basic_setup.WebSocket.Reader.{Reader, refill, next_byte}
use basic_setup.WebSocket.ReadFrame.{
  Status, done, failed, fault, Reading, max_frame_length, flag, realloc, read_length, read_masks,
  write_byte, and_then, copy_payload, read_payload, terminate, read_body, read_frame,
}

-- A failure, if it is one, has set the flag.
pub record Flagged (r : Status × Reading) : Type 0 where
  pub flagged : r.0 ≡ failed → r.1.reader.error ≡ true

done_Flagged : (st : Reading) → Flagged (done, st)
done_Flagged st = record { flagged = λ e. cc }

fault_Flagged : (st : Reading) → Flagged (fault, st)
fault_Flagged st = record { flagged = λ e. cc }

raised_Flagged :
    (st : Reading) → Flagged (failed, record st { reader = record (st.reader) { error = true } })
raised_Flagged st = record { flagged = λ e. refl }

refill-none :
    (input : List (List ℕ)) (w : Reader)
    → (refill input w).0 ≡ none
    → (refill input w).1.error ≡ true
unfolding refill
refill-none [] w e = refl
refill-none ([] ∷ rest) w e = refl
refill-none ((b ∷ bs) ∷ rest) w e = cc

next_byte-none : (w : Reader) → (next_byte w).0 ≡ none → (next_byte w).1.error ≡ true
unfolding next_byte
next_byte-none w =
    if_both (λ (r : Option ℕ × Reader). r.0 ≡ none → r.1.error ≡ true)
      (w.cur_pos == 0 || w.cur_pos == w.amt_read) (refill w.input w)
      (some (get_or w.frm w.cur_pos 0), record w { cur_pos = w.cur_pos + 1 })
      (refill-none w.input w) (λ e. cc)

and_then-Flagged :
    (r : Status × Reading) (next : Reading → Status × Reading)
    → Flagged r
    → ((st : Reading) → Flagged (next st))
    → Flagged (and_then r next)
and_then-Flagged (done, st) next h g = g st
and_then-Flagged (failed, st) next h g = h
and_then-Flagged (fault, st) next h g = h

write_byte-Flagged : (value : ℕ) (st : Reading) → Flagged (write_byte value st)
unfolding write_byte
write_byte-Flagged value st =
    if_both Flagged (ltb st.msg_idx (length st.buf)) _ _ (done_Flagged _) (fault_Flagged st)

copy_payload-Flagged :
    (masks : List ℕ) (i n : ℕ) (st : Reading) → Flagged (copy_payload masks i n st)
unfolding copy_payload
copy_payload-Flagged masks i zero st = done_Flagged st
copy_payload-Flagged masks i (suc n) st = elim (Option-cases (next_byte st.reader).0) [
  | inl e ↦ rw (e, copy_payload) (record { flagged = λ f. next_byte-none st.reader e })
  | inr (b, e) ↦
      let st1 = record st { reader = (next_byte st.reader).1 } in
      let x = bit_xor b (get_or masks (i % 4) 0) in
      rw (e, copy_payload)
        (and_then-Flagged (write_byte x st1)
          (λ st'. copy_payload masks (suc i) n (record st' { msg_idx = st'.msg_idx + 1 }))
          (write_byte-Flagged x st1)
          (λ st'. copy_payload-Flagged masks (suc i) n (record st' { msg_idx = st'.msg_idx + 1 })))
]

module _ (realloc_ok : ℕ → Bool) (control is_fin : Bool) where
  read_payload-Flagged :
      (masks : List ℕ) (st : Reading) → Flagged (read_payload realloc_ok control is_fin masks st)
  unfolding read_payload
  read_payload-Flagged masks st =
      let grown = record st { buf = realloc (st.msg_idx + st.frame_length + flag is_fin) st.buf } in
      if_both Flagged (st.frame_length == 0) _ _ (done_Flagged st) (
        if_both Flagged control _ _ (copy_payload-Flagged masks 0 st.frame_length st) (
          if_both Flagged _ _ _ (copy_payload-Flagged masks 0 st.frame_length grown)
            (raised_Flagged st)))

  terminate-Flagged : (st : Reading) → Flagged (terminate realloc_ok control is_fin st)
  unfolding terminate
  terminate-Flagged st =
      let grown = record st { buf = realloc (st.msg_idx + 1) st.buf } in
      if_both Flagged (is_fin && ltb 0 st.frame_size) _ _
        (if_both Flagged (st.frame_length == 0 && not control) _ _
          (if_both Flagged _ _ _ (write_byte-Flagged 0 grown) (raised_Flagged st))
          (write_byte-Flagged 0 st))
        (done_Flagged st)

  read_body-Flagged : (st : Reading) → Flagged (read_body realloc_ok control is_fin st)
  unfolding read_body
  read_body-Flagged st =
      let size = (st.frame_size + st.frame_length) % 2 ^ 64 in
      let (masks, w) = read_masks 4 st.reader in
      let read = record st { frame_size = size; reader = w } in
      if_both Flagged (ltb max_frame_length size) _ _
        (raised_Flagged (record st { frame_size = size }))
        (if_cases Flagged w.error _ _ (λ set. record { flagged = λ e. set })
          (λ clear.
            and_then-Flagged (read_payload realloc_ok control is_fin masks read)
              (terminate realloc_ok control is_fin) (read_payload-Flagged masks read)
              terminate-Flagged))

  pub read_frame-Flagged : (st : Reading) → Flagged (read_frame realloc_ok control is_fin st)
  unfolding read_frame
  read_frame-Flagged st =
      let (n, w) = read_length st.frame_length st.reader in
      read_body-Flagged (record st { frame_length = n; reader = w })
