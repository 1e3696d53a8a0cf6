-- ===== src/WebSocket/ReadFrame/Progress.antt =====
-- `read_frame` only moves on: no byte comes twice.
use basic_setup.Prelude.{
  ℕ, zero, suc, ◌+◌, ◌%◌, ◌^◌, ◌≤◌, ◌<◌, ◌≡◌, refl, Bool, true, ◌||◌, some, List, [], ◌∷◌, length,
  ltb, ◌==◌, arith, Bool-cases, Option-cases, inl, inr, bit_xor, if_both, not, ◌&&◌, get_or,
}
use basic_setup.WebSocket.Reader.{Reader, refill, next_byte, pending, unread}
use basic_setup.WebSocket.ReadFrame.{
  Status, done, failed, fault, Reading, flag, realloc, max_frame_length, or_bytes, read_length,
  read_masks, write_byte, and_then, copy_payload, read_payload, terminate, read_body, read_frame,
}

-- `w'` comes behind `w`, and `k` bytes fewer can come.
abbrev pub Shrinks : ℕ → Reader → Reader → Type 0
Shrinks k w w' = (w'.cur_pos ≤ w'.amt_read) × (unread w' + k ≤ unread w)

refill-Shrinks :
    (input : List (List ℕ)) (w : Reader)
    → w.input ≡ input
    → w.cur_pos ≤ w.amt_read
    → Shrinks 0 w (refill input w).1
      × ((b : ℕ) → (refill input w).0 ≡ some b → Shrinks 1 w (refill input w).1)
unfolding refill unread pending
refill-Shrinks [] w e h = ((h, omega arith), λ b c. cc)
refill-Shrinks ([] ∷ rest) w e h = rw e ((h, omega arith), λ b c. cc)
refill-Shrinks ((x ∷ xs) ∷ rest) w e h =
    rw e ((omega arith, omega arith), λ b c. (omega arith, omega arith))

pub next_byte-Shrinks :
    (w : Reader)
    → w.cur_pos ≤ w.amt_read
    → Shrinks 0 w (next_byte w).1
      × ((b : ℕ) → (next_byte w).0 ≡ some b → Shrinks 1 w (next_byte w).1)
unfolding next_byte unread
next_byte-Shrinks w h = elim (Bool-cases (w.cur_pos == 0 || w.cur_pos == w.amt_read)) [
  | inl empty ↦ rw empty (refill-Shrinks w.input w refl h)
  | inr more ↦
      let less : w.cur_pos < w.amt_read = ground arith in
      rw more ((omega arith, omega arith), λ b c. (omega arith, omega arith))
]

-- `w` comes behind `v`.
pub record Later (v w : Reader) : Type 0 where
  pub within : w.cur_pos ≤ w.amt_read
  pub fewer : unread w ≤ unread v

pub next_byte-Later : (v w : Reader) → Later v w → Later v (next_byte w).1
next_byte-Later v w l =
    let (after, _) = next_byte-Shrinks w l.within in
    record { within = after.0; fewer = omega (arith, l.fewer, after.1) }

pub raise-Later : (v w : Reader) → Later v w → Later v (record w { error = true })
unfolding unread
raise-Later v w l = record { within = l.within; fewer = l.fewer }

or_bytes-Later :
    (shifts : List ℕ) (acc : ℕ) (v w : Reader) → Later v w → Later v (or_bytes shifts acc w).1
unfolding or_bytes
or_bytes-Later [] acc v w l = l
or_bytes-Later (shift ∷ shifts) acc v w l =
    or_bytes-Later shifts _ v (next_byte w).1 (next_byte-Later v w l)

read_length-Later : (n : ℕ) (v w : Reader) → Later v w → Later v (read_length n w).1
unfolding read_length
read_length-Later n v w l = elim (Bool-cases (n == 126)) [
  | inl two ↦ rw two (or_bytes-Later (8 ∷ 0 ∷ []) 0 v w l)
  | inr more ↦ elim (Bool-cases (n == 127)) [
    | inl eight ↦
        rw (more, eight) (or_bytes-Later (56 ∷ 48 ∷ 40 ∷ 32 ∷ 24 ∷ 16 ∷ 8 ∷ 0 ∷ []) 0 v w l)
    | inr short ↦ rw (more, short) l
  ]
]

read_masks-Later : (n : ℕ) (v w : Reader) → Later v w → Later v (read_masks n w).1
unfolding read_masks
read_masks-Later zero v w l = l
read_masks-Later (suc n) v w l = read_masks-Later n v (next_byte w).1 (next_byte-Later v w l)

-- What holds of a reader is kept by a step of `read_frame`.
abbrev Keeps : Reader → (Reading → Status × Reading) → Type 0
Keeps v step = (st : Reading) → Later v st.reader → Later v (step st).1.reader

and_then-Later :
    (v : Reader) (r : Status × Reading) (next : Reading → Status × Reading)
    → Later v r.1.reader
    → Keeps v next
    → Later v (and_then r next).1.reader
and_then-Later v (done, st) next l keep = keep st l
and_then-Later v (failed, st) next l keep = l
and_then-Later v (fault, st) next l keep = l

write_byte-Later : (v : Reader) (value : ℕ) → Keeps v (write_byte value)
unfolding write_byte
write_byte-Later v value st l = elim (Bool-cases (ltb st.msg_idx (length st.buf))) [
  | inl inside ↦ rw inside l
  | inr outside ↦ rw outside l
]

copy_payload-Later : (v : Reader) (masks : List ℕ) (i n : ℕ) → Keeps v (copy_payload masks i n)
unfolding copy_payload
copy_payload-Later v masks i zero st l = l
copy_payload-Later v masks i (suc n) st l =
    let l' = next_byte-Later v st.reader l in
    elim (Option-cases (next_byte st.reader).0) [
      | inl e ↦ rw (e, copy_payload) l'
      | inr (b, e) ↦
          rw (e, copy_payload)
            (and_then-Later v
              (write_byte (bit_xor b (get_or masks (i % 4) 0))
                (record st { reader = (next_byte st.reader).1 }))
              (λ st'. copy_payload masks (suc i) n (record st' { msg_idx = st'.msg_idx + 1 }))
              (write_byte-Later v (bit_xor b (get_or masks (i % 4) 0))
                (record st { reader = (next_byte st.reader).1 }) l')
              (λ st' m.
                copy_payload-Later v masks (suc i) n (record st' { msg_idx = st'.msg_idx + 1 }) m))
    ]

module _ (v : Reader) (realloc_ok : ℕ → Bool) (control is_fin : Bool) where
  read_payload-Later : (masks : List ℕ) → Keeps v (read_payload realloc_ok control is_fin masks)
  unfolding read_payload
  read_payload-Later masks st l =
      let size = st.msg_idx + st.frame_length + flag is_fin in
      let grown = record st { buf = realloc size st.buf } in
      let P = λ (r : Status × Reading). Later v r.1.reader in
      if_both P (st.frame_length == 0) _ _ l (
        if_both P control _ _ (copy_payload-Later v masks 0 st.frame_length st l) (
          if_both P (realloc_ok (size % 2 ^ 32)) _ _
            (copy_payload-Later v masks 0 st.frame_length grown l) (raise-Later v st.reader l)))

  terminate-Later : Keeps v (terminate realloc_ok control is_fin)
  unfolding terminate
  terminate-Later st l =
      let grown = record st { buf = realloc (st.msg_idx + 1) st.buf } in
      let P = λ (r : Status × Reading). Later v r.1.reader in
      if_both P (is_fin && ltb 0 st.frame_size) _ _
        (if_both P (st.frame_length == 0 && not control) _ _
          (if_both P (realloc_ok ((st.msg_idx + 1) % 2 ^ 32)) _ _ (write_byte-Later v 0 grown l)
            (raise-Later v st.reader l))
          (write_byte-Later v 0 st l))
        l

  read_body-Later : Keeps v (read_body realloc_ok control is_fin)
  unfolding read_body
  read_body-Later st l =
      let size = (st.frame_size + st.frame_length) % 2 ^ 64 in
      let (masks, w) = read_masks 4 st.reader in
      let read = record st { frame_size = size; reader = w } in
      let l' : Later v w = read_masks-Later 4 v st.reader l in
      let whole =
        and_then-Later v (read_payload realloc_ok control is_fin masks read)
          (terminate realloc_ok control is_fin) (read_payload-Later masks read l')
          terminate-Later in
      let P = λ (r : Status × Reading). Later v r.1.reader in
      if_both P (ltb max_frame_length size) _ _ (raise-Later v st.reader l)
        (if_both P w.error _ _ l' whole)

  pub read_frame-Later : Keeps v (read_frame realloc_ok control is_fin)
  unfolding read_frame
  read_frame-Later st l =
      let (n, w) = read_length st.frame_length st.reader in
      read_body-Later (record st { frame_length = n; reader = w })
        (read_length-Later st.frame_length v st.reader l)
