-- ===== src/WebSocket/ReadFrame/Payload.antt =====
-- `read_frame` copies the payload without its mask, and stays inside of the buffer.
use basic_setup.Prelude.{
  ℕ, zero, suc, ◌+◌, ◌%◌, ◌^◌, ◌≤◌, ◌<◌, ◌≡◌, refl, sym, ap, ◌∙◌, subst, none, some, List, [], ◌∷◌,
  ◌++◌, append_assoc, append-nil, length, length-append, length-take, length-set, length-replicate,
  take, set, get_or, replicate, bit_xor, arith, Option-cases, inl, inr,
}
use basic_setup.WebSocket.Reader.{next_byte, Ahead, next_byte-Takes}
use basic_setup.WebSocket.ReadFrame.{
  Status, done, failed, fault, Reading, realloc, write_byte, copy_payload,
}

-- The payload as RFC 6455 takes the mask off, from index `i`.
unfoldable pub unmask : List ℕ → ℕ → List ℕ → List ℕ
unmask masks i [] = []
unmask masks i (b ∷ bs) = bit_xor b (get_or masks (i % 4) 0) ∷ unmask masks (suc i) bs

pub take-set :
    (buf : List ℕ) (n x : ℕ) → n < length buf → take (suc n) (set buf n x) ≡ take n buf ++ (x ∷ [])
take-set [] n x h = absurd (omega arith)
take-set (y ∷ buf) zero x h = refl
take-set (y ∷ buf) (suc n) x h = ap (◌∷◌ y) (take-set buf n x (omega arith))

pub length-realloc : (size : ℕ) (buf : List ℕ) → length (realloc size buf) ≡ size % 2 ^ 32
length-realloc size buf = omega (
  arith,
  length-take (size % 2 ^ 32) (buf ++ replicate (size % 2 ^ 32) 0),
  length-append buf (replicate (size % 2 ^ 32) 0),
  length-replicate (size % 2 ^ 32) (let z : ℕ = 0 in z),
)

-- After a copy of `n` bytes: it has not left the buffer, and with success it is `n` bytes further.
abbrev pub Inside : ℕ → Reading → Status × Reading → Type 0
Inside n st (done, st') =
    (st'.msg_idx ≡ st.msg_idx + n)
    × (length st'.buf ≡ length st.buf)
    × (st'.frame_size ≡ st.frame_size)
    × (st'.frame_length ≡ st.frame_length)
Inside n st (failed, st') = Unit {0}
Inside n st (fault, st') = ⊥

pub write_byte_done :
    (value : ℕ) (st : Reading)
    → st.msg_idx < length st.buf
    → write_byte value st ≡ (done, record st { buf = set st.buf st.msg_idx value })
unfolding write_byte
write_byte_done value st h = ground arith

-- The state after one byte.
abbrev pub copied : List ℕ → ℕ → ℕ → Reading → Reading
copied masks i b st = record st {
  reader = (next_byte st.reader).1;
  buf = set st.buf st.msg_idx (bit_xor b (get_or masks (i % 4) 0));
  msg_idx = st.msg_idx + 1;
}

copy_payload_step :
    (masks : List ℕ) (i n b : ℕ) (st : Reading)
    → (next_byte st.reader).0 ≡ some b
    → st.msg_idx < length st.buf
    → copy_payload masks i (suc n) st ≡ copy_payload masks (suc i) n (copied masks i b st)
unfolding copy_payload
copy_payload_step masks i n b st e h =
    let written =
      write_byte_done (bit_xor b (get_or masks (i % 4) 0))
        (record st { reader = (next_byte st.reader).1 }) h in
    rw (e, copy_payload, written) refl

copy_payload_end :
    (masks : List ℕ) (i n : ℕ) (st : Reading)
    → (next_byte st.reader).0 ≡ none
    → copy_payload masks i (suc n) st ≡ (failed, record st { reader = (next_byte st.reader).1 })
unfolding copy_payload
copy_payload_end masks i n st e = rw (e, copy_payload) refl

Inside-suc :
    (masks : List ℕ) (i n b : ℕ) (st : Reading) (r : Status × Reading)
    → Inside n (copied masks i b st) r
    → Inside (suc n) st r
Inside-suc masks i n b st (done, st') (idx, len, size, frame) = (
  omega (arith, idx),
  len ∙ length-set st.buf st.msg_idx (bit_xor b (get_or masks (i % 4) 0)),
  size,
  frame,
)
Inside-suc masks i n b st (failed, st') h = h
Inside-suc masks i n b st (fault, st') h = h

pub copy_payload-Inside :
    (masks : List ℕ) (i n : ℕ) (st : Reading)
    → st.msg_idx + n ≤ length st.buf
    → Inside n st (copy_payload masks i n st)
unfolding copy_payload
copy_payload-Inside masks i zero st h = (omega arith, refl, refl, refl)
copy_payload-Inside masks i (suc n) st h = elim (Option-cases (next_byte st.reader).0) [
  | inl e ↦ subst (Inside (suc n) st) (sym (copy_payload_end masks i n st e)) tt
  | inr (b, e) ↦
      let same = length-set st.buf st.msg_idx (bit_xor b (get_or masks (i % 4) 0)) in
      let rest =
        copy_payload-Inside masks (suc i) n (copied masks i b st) (omega (arith, h, same)) in
      subst (Inside (suc n) st) (sym (copy_payload_step masks i n b st e (omega (arith, h))))
        (Inside-suc masks i n b st _ rest)
]

-- After a copy of the payload `bs`, with the bytes `rest` behind it.
abbrev pub Copied : List ℕ → ℕ → List ℕ → List ℕ → Reading → Status × Reading → Type 0
Copied masks i bs rest st r =
    (r.0 ≡ done)
    × (take (st.msg_idx + length bs) r.1.buf ≡ take st.msg_idx st.buf ++ unmask masks i bs)
    × Ahead rest r.1.reader

-- If the payload has arrived, in whatever pieces, and the buffer has room for it, it is copied behind
-- the message so far without its mask, and the reader stands at the bytes behind it.
pub copy_payload-Copied :
    (masks : List ℕ) (i : ℕ) (bs rest : List ℕ) (st : Reading)
    → Ahead (bs ++ rest) st.reader
    → st.msg_idx + length bs ≤ length st.buf
    → Copied masks i bs rest st (copy_payload masks i (length bs) st)
unfolding copy_payload unmask
copy_payload-Copied masks i [] rest st a h =
    let none_more : st.msg_idx + 0 ≡ st.msg_idx = omega arith in
    (refl, rw none_more (sym (append-nil (take st.msg_idx st.buf))), a)
copy_payload-Copied masks i (b ∷ bs) rest st a h =
    let x = bit_xor b (get_or masks (i % 4) 0) in
    let (e, ahead) = next_byte-Takes st.reader b (bs ++ rest) a in
    let same = length-set st.buf st.msg_idx x in
    let st1 = copied masks i b st in
    let (ok, got, left) =
      copy_payload-Copied masks (suc i) bs rest st1 ahead (omega (arith, h, same)) in
    let next : st.msg_idx + suc (length bs) ≡ st.msg_idx + 1 + length bs = omega arith in
    let one : st.msg_idx + 1 ≡ suc st.msg_idx = omega arith in
    let first : take (st.msg_idx + 1) st1.buf ≡ take st.msg_idx st.buf ++ (x ∷ []) =
      rw one (take-set st.buf st.msg_idx x (omega (arith, h))) in
    rw (copy_payload_step masks i (length bs) b st e (omega (arith, h)), next)
      (
        ok,
        got
            ∙ ap (λ xs. xs ++ unmask masks (suc i) bs) first
            ∙ append_assoc (take st.msg_idx st.buf) (x ∷ []) (unmask masks (suc i) bs),
        left,
      )
