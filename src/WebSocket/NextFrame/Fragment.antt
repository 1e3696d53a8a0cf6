-- ===== src/WebSocket/NextFrame/Fragment.antt =====
-- The frames of a client on the wire, and what a turn that has read one leaves.
use basic_setup.Prelude.{
  ℕ, suc, ◌+◌, ◌/◌, ◌%◌, ◌≤◌, ◌<◌, ◌≡◌, refl, ap, ◌∙◌, ◌⊎◌, Bool, true, false, ◌||◌, Option, none,
  some, List, [], ◌∷◌, ◌++◌, length, length-take, take, ltb, ◌==◌, if◌then◌else◌, arith, inl, inr,
}
use basic_setup.Device.Op
use basic_setup.WebSocket.Reader.{Reader, Ahead}
use basic_setup.WebSocket.Control.{is_control_frame}
use basic_setup.WebSocket.ReadFrame.Payload.{unmask}
use basic_setup.WebSocket.ReadFrame.Control.{msg_ctrl_size}
use basic_setup.WebSocket.ReadFrame.Length.{AllBytes, seven_bits}
use basic_setup.WebSocket.ReadFrame.Copied.{wire}
use basic_setup.WebSocket.NextFrame.{Wfd, Turn, ends, unexpected, valid_opcode}

-- A masked frame of a client: its masks, and its payload as it is sent.
pub record Frame : Type 0 where
  pub masks : List ℕ
  pub payload : List ℕ

pub record IsFrame (size : ℕ) (f : Frame) : Type 0 where
  pub four : length f.masks ≡ 4
  pub bytes : AllBytes f.masks
  pub short : length f.payload < size

abbrev pub first_byte : Bool → ℕ → ℕ
first_byte fin opcode = if fin then 128 + opcode else opcode

-- A frame on the wire, with what follows it.
abbrev pub frame_bytes : Bool → ℕ → Frame → List ℕ → List ℕ
frame_bytes fin opcode f rest =
    first_byte fin opcode ∷ (128 + seven_bits (length f.payload)) ∷ wire f.masks f.payload rest

abbrev pub clear : Frame → List ℕ
clear f = unmask f.masks 0 f.payload

-- The reading state after `msg`, in a message of type `type`.
pub record At (type : Option ℕ) (msg : List ℕ) (st : Wfd) : Type 0 where
  pub type_so_far : st.frame_type ≡ type
  pub size : st.frame_size ≡ length msg
  pub index : st.msg_idx ≡ length msg
  pub text : take (length msg) st.msg_data ≡ msg
  pub ctrl : length st.msg_ctrl ≡ msg_ctrl_size

-- Reading on changes none of it.
pub At-reader :
    (type : Option ℕ) (msg : List ℕ) (st : Wfd) (w : Reader) (n : ℕ)
    → At type msg st
    → At type msg (record st { reader = w; met = n })
At-reader type msg st w n at = record {
  type_so_far = at.type_so_far;
  size = at.size;
  index = at.index;
  text = at.text;
  ctrl = at.ctrl;
}

-- A turn that has read a frame: the state, the PONG frames so far and the bytes that are left.
pub record Stepped (is_fin : Bool) (type : Option ℕ) (msg : List ℕ) (pongs : List (List ℕ))
    (rest : List ℕ) (r : Turn × Wfd) : Type 0 where
  pub ended : r.0 ≡ ends is_fin
  pub now : At type msg r.1
  pub answers : r.1.pongs ≡ pongs
  pub left : Ahead rest r.1.reader
  pub zero_behind :
      is_fin ≡ true → 0 < length msg → take (suc (length msg)) r.1.msg_data ≡ msg ++ (0 ∷ [])

pub second_byte : (n : ℕ) → (128 + seven_bits n) % 256 % 128 ≡ seven_bits n
unfolding seven_bits
second_byte n = ground arith

pub length-unmask : (ms : List ℕ) (i : ℕ) (bs : List ℕ) → length (unmask ms i bs) ≡ length bs
unfolding unmask
length-unmask ms i [] = refl
length-unmask ms i (b ∷ bs) = ap suc (length-unmask ms (suc i) bs)

-- The buffer holds at least the message.
pub At-inside :
    (type : Option ℕ) (msg : List ℕ) (st : Wfd) → At type msg st → length msg ≤ length st.msg_data
At-inside type msg st at = omega (arith, ap length at.text, length-take (length msg) st.msg_data)

pub small_length : (n : ℕ) → n < msg_ctrl_size → ltb 125 (seven_bits n) ≡ false
unfolding seven_bits
small_length n h = ground arith

pub first_byte_lem :
    (is_fin : Bool) (opcode : ℕ)
    → opcode < 16
    → (first_byte is_fin opcode % 16 ≡ opcode)
      × ((first_byte is_fin opcode % 256 / 128 == 1) ≡ is_fin)
      × ((first_byte is_fin opcode / 16 % 8 == 0) ≡ true)
first_byte_lem true opcode h = (ground arith, ground arith, ground arith)
first_byte_lem false opcode h = (ground arith, ground arith, ground arith)

-- An opcode of a fragment, the type of its message and what is known of it before.
abbrev pub Fragment : ℕ → ℕ → Option ℕ → Type 0
Fragment opcode type so_far =
    ((opcode ≡ type) × (so_far ≡ none) × ((type ≡ Op.txt) ⊎ (type ≡ Op.bin)))
    ⊎ ((opcode ≡ Op.cont) × (so_far ≡ some type))

pub Fragment-expected :
    (opcode type : ℕ) (so_far : Option ℕ)
    → Fragment opcode type so_far
    → (unexpected opcode so_far ≡ false) × (valid_opcode opcode ≡ true)
unfolding unexpected valid_opcode
Fragment-expected opcode type so_far (inl (e, f, inl t)) = ground arith
Fragment-expected opcode type so_far (inl (e, f, inr t)) = ground arith
Fragment-expected opcode type so_far (inr (e, f)) = ground arith

pub Fragment-lt : (opcode type : ℕ) (so_far : Option ℕ) → Fragment opcode type so_far → opcode < 16
Fragment-lt opcode type so_far (inl (e, f, inl t)) = omega (arith, e, t)
Fragment-lt opcode type so_far (inl (e, f, inr t)) = omega (arith, e, t)
Fragment-lt opcode type so_far (inr (e, f)) = omega (arith, e)

pub first_fragment :
    (opcode type : ℕ)
    → opcode ≡ type
    → (type ≡ Op.txt) ⊎ (type ≡ Op.bin)
    → ((opcode == Op.cont || is_control_frame opcode) ≡ false)
      × ((opcode ≡ Op.txt) ⊎ (opcode ≡ Op.bin) ⊎ (opcode ≡ Op.cont))
unfolding is_control_frame
first_fragment opcode type e (inl t) = (ground arith, inl (e ∙ t))
first_fragment opcode type e (inr t) = (ground arith, inr (inl (e ∙ t)))

pub ping_expected :
    (type : Option ℕ) → (unexpected Op.ping type ≡ false) × (valid_opcode Op.ping ≡ true)
unfolding unexpected valid_opcode
ping_expected none = (refl, refl)
ping_expected (some t) = (refl, refl)
