-- ===== src/WebSocket/ReadFrame/Overflow.antt =====
-- When `read_frame` leaves its buffer: never if the sum of the lengths fits 64 bits, and at once if
-- the length of a continuation frame makes it wrap around.
use basic_setup.Prelude.{
  ℕ, zero, suc, ◌+◌, ◌-◌, ◌%◌, ◌^◌, ◌≤◌, ◌<◌, ◌≡◌, ◌≢◌, refl, subst, Bool, true, false, ◌&&◌, List,
  [], ◌∷◌, ◌++◌, length, ltb, ◌==◌, arith, Bool-cases, inl, inr,
}
use basic_setup.WebSocket.Reader.{Reader, next_byte, Ahead, next_byte-Takes}
use basic_setup.WebSocket.ReadFrame.{
  Status, done, failed, fault, Reading, max_frame_length, read_masks, realloc, write_byte, and_then,
  copy_payload, flag, read_payload, terminate, read_body,
}
use basic_setup.WebSocket.ReadFrame.Payload.{length-realloc, Inside, copy_payload-Inside}

write_byte-safe :
    (value : ℕ) (st : Reading) → st.msg_idx < length st.buf → (write_byte value st).0 ≢ fault
unfolding write_byte
write_byte-safe value st h = ground arith

-- The masks of a reader with enough bytes ahead.
pub read_masks-Ahead :
    (ms bs : List ℕ) (w : Reader) → Ahead (ms ++ bs) w → Ahead bs (read_masks (length ms) w).1
unfolding read_masks
read_masks-Ahead [] bs w a = a
read_masks-Ahead (m ∷ ms) bs w a =
    read_masks-Ahead ms bs (next_byte w).1 (next_byte-Takes w m (ms ++ bs) a).1

and_then-fault :
    (r : Status × Reading) (next : Reading → Status × Reading)
    → r.0 ≡ fault
    → (and_then r next).0 ≡ fault
and_then-fault (done, st) next e = cc
and_then-fault (failed, st) next e = e
and_then-fault (fault, st) next e = e

and_then-safe :
    (n : ℕ) (st : Reading) (r : Status × Reading) (next : Reading → Status × Reading)
    → Inside n st r
    → ((st' : Reading) → Inside n st (done, st') → (next st').0 ≢ fault)
    → (and_then r next).0 ≢ fault
and_then-safe n st (done, st') next inside h = h st' inside
and_then-safe n st (failed, st') next inside h = λ e. cc
and_then-safe n st (fault, st') next inside h = absurd inside

-- The first byte behind the end of the buffer.
copy_payload-overrun :
    (masks : List ℕ) (i n b : ℕ) (bs : List ℕ) (st : Reading)
    → Ahead (b ∷ bs) st.reader
    → length st.buf ≤ st.msg_idx
    → 0 < n
    → (copy_payload masks i n st).0 ≡ fault
unfolding copy_payload write_byte
copy_payload-overrun masks i zero b bs st a h pos = absurd (omega arith)
copy_payload-overrun masks i (suc n) b bs st a h pos =
    let (e, ahead) = next_byte-Takes st.reader b bs a in
    let outside : ltb st.msg_idx (length st.buf) ≡ false = ground (arith, h) in
    rw (e, copy_payload, outside) refl

pub flag_bound : (b : Bool) → flag b ≤ 1
flag_bound true = omega arith
flag_bound false = omega arith

pub flag_final : (b : Bool) → b ≡ true → flag b ≡ 1
flag_final b e = rw e refl

module _ (realloc_ok : ℕ → Bool) (is_fin : Bool) where
  terminate-safe :
      (st : Reading)
      → st.msg_idx < 2 ^ 32 - 1
      → (st.frame_length ≢ 0 → is_fin ≡ true → st.msg_idx < length st.buf)
      → (terminate realloc_ok false is_fin st).0 ≢ fault
  unfolding terminate
  terminate-safe st small room = elim (Bool-cases (is_fin && ltb 0 st.frame_size)) [
    | inr open_ended ↦ rw open_ended (λ e. cc)
    | inl final ↦ elim (Bool-cases (st.frame_length == 0)) [
      | inr some_bytes ↦
          rw (final, some_bytes) (write_byte-safe 0 st (room (ground arith) (ground arith)))
      | inl no_bytes ↦ elim (Bool-cases (realloc_ok ((st.msg_idx + 1) % 2 ^ 32))) [
        | inr no_memory ↦ rw (final, no_bytes, no_memory) (λ e. cc)
        | inl memory ↦
            rw (final, no_bytes, memory)
              (write_byte-safe 0 (record st { buf = realloc (st.msg_idx + 1) st.buf })
                (omega (arith, small, length-realloc (st.msg_idx + 1) st.buf)))
      ]
    ]
  ]

  read_payload-safe :
      (masks : List ℕ) (st : Reading)
      → st.msg_idx + st.frame_length ≤ max_frame_length
      → (and_then
          (read_payload realloc_ok false is_fin masks st)
          (terminate realloc_ok false is_fin)).0
        ≢ fault
  unfolding read_payload
  read_payload-safe masks st small = elim (Bool-cases (st.frame_length == 0)) [
    | inl empty ↦
        rw empty
          (terminate-safe st (omega (arith, small)) (λ h. absurd (h (ground (arith, empty)))))
    | inr payload ↦
        let request = st.msg_idx + st.frame_length + flag is_fin in
        let grown = record st { buf = realloc request st.buf } in
        let room = length-realloc request st.buf in
        let bound = flag_bound is_fin in
        elim (Bool-cases (realloc_ok (request % 2 ^ 32))) [
          | inr no_memory ↦ rw (payload, no_memory) (λ e. cc)
          | inl memory ↦
              rw (payload, memory)
                (and_then-safe st.frame_length grown _ _
                  (copy_payload-Inside masks 0 st.frame_length grown
                    (omega (arith, small, room, bound)))
                  (λ st' inside. terminate-safe st' (omega (arith, small, inside.0)) (λ h final.
                    omega (arith, small, room, inside.0, inside.1, flag_final is_fin final))))
        ]
  ]

  -- A data frame is never written outside of its buffer, whatever the client sends and whether or
  -- not there is memory, if the message so far is no longer than the sum of the lengths and the
  -- new length does not make that sum wrap around.
  pub read_body-safe :
      (st : Reading)
      → st.msg_idx ≤ st.frame_size
      → st.frame_size + st.frame_length < 2 ^ 64
      → (read_body realloc_ok false is_fin st).0 ≢ fault
  unfolding read_body
  read_body-safe st idx sum =
      let size = (st.frame_size + st.frame_length) % 2 ^ 64 in
      let (masks, w) = read_masks 4 st.reader in
      elim (Bool-cases (ltb max_frame_length size)) [
        | inl too_long ↦ rw too_long (λ e. cc)
        | inr fits ↦ elim (Bool-cases w.error) [
          | inl bad ↦ rw (fits, bad) (λ e. cc)
          | inr good ↦
              rw (fits, good)
                (read_payload-safe masks (record st { frame_size = size; reader = w })
                  (ground (arith, idx, sum)))
        ]
      ]

  -- A data frame whose length is `k` below 2 ^ 64, `k` being at most the size of the message so
  -- far, which is within the limit, passes the check of the size: if its masks and one byte arrive
  -- and there is memory, the buffer shrinks and that byte is written behind its end.
  pub read_body-overflow :
      (k b : ℕ) (ms bs : List ℕ) (st : Reading)
      → 0 < k
      → k ≤ st.frame_size
      → st.frame_size ≤ max_frame_length
      → st.msg_idx ≡ st.frame_size
      → st.frame_length ≡ 2 ^ 64 - k
      → ((size : ℕ) → realloc_ok size ≡ true)
      → length ms ≡ 4
      → Ahead (ms ++ (b ∷ bs)) st.reader
      → (read_body realloc_ok false is_fin st).0 ≡ fault
  unfolding read_body read_payload
  read_body-overflow k b ms bs st pos le size idx len memory four a =
      let total = (st.frame_size + st.frame_length) % 2 ^ 64 in
      let wrapped : total ≡ st.frame_size - k = omega (arith, pos, le, size, len) in
      let passes : ltb max_frame_length total ≡ false = ground (arith, wrapped) in
      let ahead : Ahead (b ∷ bs) (read_masks 4 st.reader).1 =
        subst (λ n. Ahead (b ∷ bs) (read_masks n st.reader).1) four
          (read_masks-Ahead ms (b ∷ bs) st.reader a) in
      let (masks, w) = read_masks 4 st.reader in
      let payload : (st.frame_length == 0) ≡ false = ground (arith, len) in
      let request = st.msg_idx + st.frame_length + flag is_fin in
      let small : length (realloc request st.buf) ≤ st.msg_idx =
        omega (arith, length-realloc request st.buf, flag_bound is_fin, pos, le, size, idx, len) in
      let grown = record st { frame_size = total; reader = w; buf = realloc request st.buf } in
      rw (passes, ahead.no_error, payload, memory (request % 2 ^ 32))
        (and_then-fault (copy_payload masks 0 st.frame_length grown) _
          (copy_payload-overrun masks 0 st.frame_length b bs grown ahead small (ground arith)))
