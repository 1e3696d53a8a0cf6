-- ===== src/WebSocket/ReadFrame.antt =====
-- `read_frame`: the length, the masks and the payload of one frame, into the buffer of its message.
-- A buffer is a list as long as what is allocated; the bytes that `realloc` adds are zeros here.
-- C leaves the order of the calls of `next_byte` in one expression open: it is left to right here.
pub mod Payload
pub mod Overflow
pub mod Control
pub mod Progress
pub mod Length
pub mod Appended
pub mod Copied
pub mod Failure
pub mod Fits
use basic_setup.Prelude.{
  ℕ, zero, suc, ◌+◌, ◌-◌, ◌*◌, ◌%◌, ◌^◌, ◌≡◌, refl, ◌⊎◌, inl, inr, Bool, true, false, not, ◌&&◌,
  ◌||◌, Option, none, some, List, [], ◌∷◌, ◌++◌, length, get_or, set, take, replicate, ltb, leb,
  ◌==◌, if◌then◌else◌, bit_or, bit_xor,
}
use basic_setup.WebSocket.Reader.{Reader, next_byte}

-- 0, a negative number, or a write outside of the buffer.
pub data Status : Type 0 where
  done failed fault : Status

pub Status-cases : (s : Status) → (s ≡ done) ⊎ (s ≡ failed) ⊎ (s ≡ fault)
Status-cases done = inl refl
Status-cases failed = inr (inl refl)
Status-cases fault = inr (inr refl)

-- What `read_frame` works on.
pub record Reading : Type 0 where
  pub reader : Reader
  pub buf : List ℕ
  pub frame_length : ℕ
  pub frame_size : ℕ
  pub msg_idx : ℕ

-- MAX_FRAME_LENGTH, 16 MiB.
abbrev pub max_frame_length : ℕ
max_frame_length = 16777216

-- The int that `next_byte` gives, as a uint64_t.
abbrev pub as_u64 : Option ℕ → ℕ
as_u64 none = 18446744073709551615
as_u64 (some b) = b

-- `acc | next_byte(wfd) << shift`, for one shift after the other.
unfoldable pub or_bytes : List ℕ → ℕ → Reader → ℕ × Reader
or_bytes [] acc w = (acc, w)
or_bytes (shift ∷ shifts) acc w =
    let (b, w') = next_byte w in or_bytes shifts (bit_or acc (as_u64 b * 2 ^ shift % 2 ^ 64)) w'

-- The length of the frame, from the seven bits of its second byte.
unfoldable pub read_length : ℕ → Reader → ℕ × Reader
unfolding or_bytes
read_length n w =
    if n == 126
    then or_bytes (8 ∷ 0 ∷ []) 0 w
    else (if n == 127 then or_bytes (56 ∷ 48 ∷ 40 ∷ 32 ∷ 24 ∷ 16 ∷ 8 ∷ 0 ∷ []) 0 w else (n, w))

-- `masks[i] = next_byte(wfd)`, a uint8_t, for each mask.
unfoldable pub read_masks : ℕ → Reader → List ℕ × Reader
read_masks zero w = ([], w)
read_masks (suc n) w =
    let (b, w') = next_byte w in
    let (masks, w'') = read_masks n w' in ((as_u64 b % 256) ∷ masks, w'')

-- `realloc` to a size_t of 32 bits.
abbrev pub realloc : ℕ → List ℕ → List ℕ
realloc size buf = take (size % 2 ^ 32) (buf ++ replicate (size % 2 ^ 32) 0)

-- `msg[*msg_idx] = value`.
unfoldable pub write_byte : ℕ → Reading → Status × Reading
write_byte value st =
    if ltb st.msg_idx (length st.buf)
    then (done, record st { buf = set st.buf st.msg_idx value })
    else (fault, st)

-- What follows, if nothing has failed.
abbrev pub and_then : Status × Reading → (Reading → Status × Reading) → Status × Reading
and_then (done, st) next = next st
and_then (failed, st) next = (failed, st)
and_then (fault, st) next = (fault, st)

-- The copy loop, from index `i` for as many bytes as are left.
unfoldable pub copy_payload : List ℕ → ℕ → ℕ → Reading → Status × Reading
unfolding write_byte
copy_payload masks i zero st = (done, st)
copy_payload masks i (suc n) st =
    let (byte, w) = next_byte st.reader in
    elim byte [
      | none ↦ (failed, record st { reader = w })
      | some b ↦
          and_then (write_byte (bit_xor b (get_or masks (i % 4) 0)) (record st { reader = w }))
            (λ st'. copy_payload masks (suc i) n (record st' { msg_idx = st'.msg_idx + 1 }))
    ]

abbrev pub flag : Bool → ℕ
flag true = 1
flag false = 0

module _ (realloc_ok : ℕ → Bool) (control is_fin : Bool) where
  -- The reallocation and the copy, for a frame with a payload.
  unfoldable pub read_payload : List ℕ → Reading → Status × Reading
  read_payload masks st =
      let size = (st.msg_idx + st.frame_length + flag is_fin) in
      let grown = record st { buf = realloc size st.buf } in
      if st.frame_length == 0
      then (done, st)
      else (if control
          then copy_payload masks 0 st.frame_length st
          else (if realloc_ok (size % 2 ^ 32)
              then copy_payload masks 0 st.frame_length grown
              else (failed, record st { reader = record (st.reader) { error = true } })))

  -- The terminator behind a final frame.
  unfoldable pub terminate : Reading → Status × Reading
  unfolding write_byte
  terminate st =
      let grown = record st { buf = realloc (st.msg_idx + 1) st.buf } in
      if is_fin && ltb 0 st.frame_size
      then (if st.frame_length == 0 && not control
          then (if realloc_ok ((st.msg_idx + 1) % 2 ^ 32)
              then write_byte 0 grown
              else (failed, record st { reader = record (st.reader) { error = true } }))
          else write_byte 0 st)
      else (done, st)

  -- `read_frame` behind the length: the check of the size, the masks, and the payload.
  unfoldable pub read_body : Reading → Status × Reading
  read_body st =
      let size = (st.frame_size + st.frame_length) % 2 ^ 64 in
      let sized = record st { frame_size = size } in
      let (masks, w) = read_masks 4 st.reader in
      if ltb max_frame_length size
      then (failed, record sized { reader = record (st.reader) { error = true } })
      else (if w.error
          then (failed, record sized { reader = w })
          else and_then (read_payload masks (record sized { reader = w })) terminate)

  -- `st.frame_length` is at first the seven bits.
  unfoldable pub read_frame : Reading → Status × Reading
  unfolding read_length read_body
  read_frame st =
      let (n, w) = read_length st.frame_length st.reader in
      read_body (record st { frame_length = n; reader = w })
