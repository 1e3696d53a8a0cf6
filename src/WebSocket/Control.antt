-- ===== src/WebSocket/Control.antt =====
-- The contents of control frames: the ids of PING and PONG, and the code of CLOSE.
pub mod Close
use basic_setup.Prelude.{
  ℕ, ◌+◌, ◌-◌, ◌*◌, ◌/◌, ◌%◌, ◌^◌, ◌<◌, ◌≡◌, Bool, true, false, ◌&&◌, ◌||◌, Option, none, some,
  List, [], ◌∷◌, get_or, take, ltb, ◌==◌, if◌then◌else◌, arith,
}
use basic_setup.Prelude.Int.{ℤ, pos, negsuc}
use basic_setup.Device.Op

unfoldable pub is_control_frame : ℕ → Bool
is_control_frame frame = frame == Op.clse || frame == Op.ping || frame == Op.pong

-- The bits of an `int32_t`, and the `int32_t` of 32 bits.
abbrev pub bits32 : ℤ → ℕ
bits32 (pos n) = n
bits32 (negsuc n) = 2 ^ 32 - 1 - n

abbrev pub int32 : ℕ → ℤ
int32 n = if ltb n (2 ^ 31) then pos n else negsuc (2 ^ 32 - 1 - n)

-- The shifts of the four bytes take different bits, so `|` is `+`.
unfoldable pub pong_msg_to_int32 : List ℕ → ℤ
pong_msg_to_int32 msg =
    int32
      (get_or msg 3 0 + get_or msg 2 0 * 2 ^ 8 + get_or msg 1 0 * 2 ^ 16 + get_or msg 0 0 * 2 ^ 24)

-- `msg[i] = ping_id >> shift`, a uint8_t.
unfoldable pub int32_to_ping_msg : ℤ → List ℕ
int32_to_ping_msg ping_id =
    (bits32 ping_id / 2 ^ 24 % 256)
    ∷ (bits32 ping_id / 2 ^ 16 % 256)
    ∷ (bits32 ping_id / 2 ^ 8 % 256)
    ∷ (bits32 ping_id % 256)
    ∷ []

-- The values of an `int32_t`.
abbrev pub IsInt32 : ℤ → Type 0
IsInt32 (pos n) = n < 2 ^ 31
IsInt32 (negsuc n) = n < 2 ^ 31

-- The id that is sent in a PING comes back from the PONG that echoes it, for each `int32_t`.
pub pong_msg_to_int32-int32_to_ping_msg :
    (id : ℤ) → IsInt32 id → pong_msg_to_int32 (int32_to_ping_msg id) ≡ id
unfolding pong_msg_to_int32 int32_to_ping_msg
pong_msg_to_int32-int32_to_ping_msg (pos n) h = ground arith
pong_msg_to_int32-int32_to_ping_msg (negsuc n) h = ground arith

-- WS_CLSE_NORMAL and WS_CLSE_PROTERR.
abbrev pub clse_normal : ℕ
clse_normal = 1000

abbrev pub clse_proterr : ℕ
clse_proterr = 1002

-- The codes that `do_close` sends back.
unfoldable pub valid_code : ℕ → Bool
valid_code cc =
    if (ltb cc 1000 || ltb 1003 cc) && (ltb cc 1007 || ltb 1011 cc) && (ltb cc 3000 || ltb 4999 cc)
    then false
    else true

-- A code, as `do_close` and `ws_close_client` write it.
unfoldable pub code_bytes : ℕ → List ℕ
code_bytes cc = (cc / 256 % 256) ∷ (cc % 256) ∷ []

-- The payload of the CLOSE frame that `do_close` sends: the custom code, or for `none`, which is -1,
-- what `msg_ctrl` holds if its code is valid or it has none or a reason.
unfoldable pub do_close : Option ℕ → ℕ → List ℕ → List ℕ
unfolding code_bytes valid_code
do_close (some cc) frame_size msg_ctrl = code_bytes cc
do_close none frame_size msg_ctrl =
    let cc =
      if frame_size == 1
      then get_or msg_ctrl 0 0
      else (get_or msg_ctrl 0 0 * 256 + get_or msg_ctrl 1 0) in
    if frame_size == 0 || ltb 2 frame_size
    then take frame_size msg_ctrl
    else (if valid_code cc then take frame_size msg_ctrl else code_bytes clse_proterr)
