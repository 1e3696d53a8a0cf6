-- ===== src/WebSocket/NextFrame.antt =====
-- `next_frame`: the loop over the frames of one message, and the control frames between them.
-- What other threads decide is given for each frame, by its number.
pub mod Later
pub mod Progress
pub mod Fragment
pub mod Opening
pub mod Turns
pub mod Pings
pub mod Section
pub mod Message
pub mod Verdicts
pub mod Outcomes
pub mod Bounds
use basic_setup.Prelude.{
  ℕ, zero, suc, ◌+◌, ◌-◌, ◌/◌, ◌%◌, Bool, true, false, not, ◌&&◌, ◌||◌, Option, none, some, List,
  [], ◌∷◌, ◌++◌, length, take, ltb, ◌==◌, if◌then◌else◌,
}
use basic_setup.Prelude.Int.{ℤ, pos, ltb_ℤ}
use basic_setup.Device.Op
use basic_setup.WebSocket.Reader.{Reader, next_byte, unread}
use basic_setup.WebSocket.ReadFrame.{Status, done, failed, fault, Reading, as_u64, read_frame}
use basic_setup.WebSocket.Control.{is_control_frame, pong_msg_to_int32}

-- `closing n` is whether the client is in state CLOSING when frame `n` is met, `current_ping_id n`
-- the last PING id by then, and `pong_sent n` whether a PONG could be sent.
pub record Peer : Type 0 where
  pub closing : ℕ → Bool
  pub current_ping_id : ℕ → ℤ
  pub pong_sent : ℕ → Bool
  pub realloc_ok : ℕ → Bool

-- `struct ws_frame_data` with the variables of `next_frame`, `last_pong_id` of the client, the
-- payloads of the PONG frames sent, and the number of frames met. A type of -1 is `none`.
pub record Wfd : Type 0 where
  pub reader : Reader
  pub msg_ctrl : List ℕ
  pub msg_data : List ℕ
  pub frame_size : ℕ
  pub msg_idx : ℕ
  pub frame_type : Option ℕ
  pub last_pong_id : ℤ
  pub pongs : List (List ℕ)
  pub met : ℕ

-- How a turn of the loop ends: at the test of the loop with this `is_fin`, by `break`, at a CLOSE
-- frame, because no byte came, or with a write outside of a buffer.
pub data Turn : Type 0 where
  ends : Bool → Turn
  leaves closes hangs_up overruns : Turn

-- `wfd->error = 1`.
abbrev pub raise : Wfd → Wfd
raise st = record st { reader = record (st.reader) { error = true } }

-- `break` if `read_frame` failed.
abbrev pub settle : Status → Turn → Turn
settle done t = t
settle failed t = leaves
settle fault t = overruns

-- What `read_frame` is called with, for a data frame and for a control frame.
abbrev pub data_reading : ℕ → Wfd → Reading
data_reading n st = record {
  reader = st.reader;
  buf = st.msg_data;
  frame_length = n;
  frame_size = st.frame_size;
  msg_idx = st.msg_idx;
}

abbrev pub ctrl_reading : ℕ → Wfd → Reading
ctrl_reading n st = record {
  reader = st.reader;
  buf = st.msg_ctrl;
  frame_length = n;
  frame_size = 0;
  msg_idx = 0;
}

abbrev pub store_data : Reading → Wfd → Wfd
store_data r st = record st {
  reader = r.reader;
  msg_data = r.buf;
  frame_size = r.frame_size;
  msg_idx = r.msg_idx;
}

abbrev pub store_ctrl : Reading → Wfd → Wfd
store_ctrl r st = record st { reader = r.reader; msg_ctrl = r.buf }

-- A continuation without a data frame before it, or a data frame inside of a message.
unfoldable pub unexpected : ℕ → Option ℕ → Bool
unfolding is_control_frame
unexpected opcode none = opcode == Op.cont
unexpected opcode (some t) = not (is_control_frame opcode) && not (opcode == Op.cont)

unfoldable pub valid_opcode : ℕ → Bool
valid_opcode opcode =
    opcode == Op.txt
    || opcode == Op.bin
    || opcode == Op.cont
    || opcode == Op.ping
    || opcode == Op.pong
    || opcode == Op.clse

module _ (p : Peer) where
  unfoldable pub data_frame : Bool → ℕ → Wfd → Turn × Wfd
  data_frame is_fin n st =
      let (status, r) = read_frame p.realloc_ok false is_fin (data_reading n st) in
      (settle status (ends is_fin), store_data r st)

  -- The id of a PONG of four bytes is kept if it is one that was sent.
  unfoldable pub keep_pong : ℕ → Wfd → Wfd
  keep_pong size st =
      let id = pong_msg_to_int32 st.msg_ctrl in
      if not (size == 4) || ltb_ℤ id (pos 0) || ltb_ℤ (p.current_ping_id st.met) id
      then st
      else record st { last_pong_id = id }

  unfoldable pub pong_frame : Bool → ℕ → Wfd → Turn × Wfd
  unfolding keep_pong
  pong_frame is_fin n st =
      let (status, r) = read_frame p.realloc_ok true is_fin (ctrl_reading n st) in
      let st' = store_ctrl r st in
      elim status [
        | done ↦ (ends false, keep_pong r.frame_size st')
        | failed ↦ (leaves, st')
        | fault ↦ (overruns, st')
      ]

  -- `do_pong`.
  unfoldable pub do_pong : ℕ → Wfd → Turn × Wfd
  do_pong size st =
      if p.pong_sent st.met
      then (ends false, record st { pongs = st.pongs ++ (take size st.msg_ctrl ∷ []) })
      else (leaves, raise st)

  unfoldable pub ping_frame : Bool → ℕ → Wfd → Turn × Wfd
  unfolding do_pong
  ping_frame is_fin n st =
      let (status, r) = read_frame p.realloc_ok true is_fin (ctrl_reading n st) in
      let st' = store_ctrl r st in
      elim status [
        | done ↦ do_pong r.frame_size st'
        | failed ↦ (leaves, st')
        | fault ↦ (overruns, st')
      ]

  unfoldable pub close_frame : Bool → ℕ → Wfd → Turn × Wfd
  close_frame is_fin n st =
      let (status, r) = read_frame p.realloc_ok true is_fin (ctrl_reading n st) in
      let st' = store_ctrl r st in
      elim status [
        | done ↦ (closes, record st' { frame_size = r.frame_size; frame_type = some Op.clse })
        | failed ↦ (leaves, st')
        | fault ↦ (overruns, st')
      ]

  -- The second byte, and the frame by its opcode.
  unfoldable pub sized : ℕ → Bool → Wfd → Turn × Wfd
  unfolding data_frame pong_frame ping_frame close_frame is_control_frame
  sized opcode is_fin st =
      let (b, w) = next_byte st.reader in
      let n = as_u64 b % 256 % 128 in
      let st' = record st { reader = w } in
      if is_control_frame opcode && (not is_fin || ltb 125 n)
      then (leaves, raise st')
      else (if opcode == Op.txt || opcode == Op.bin || opcode == Op.cont
          then data_frame is_fin n st'
          else (if opcode == Op.pong
              then pong_frame is_fin n st'
              else (if opcode == Op.ping
                  then ping_frame is_fin n st'
                  else close_frame is_fin n st')))

  -- A client in state CLOSING may only send a CLOSE frame.
  unfoldable pub accepted : ℕ → Bool → Wfd → Turn × Wfd
  unfolding sized is_control_frame
  accepted opcode is_fin st =
      if p.closing st.met && not (opcode == Op.clse)
      then (leaves, raise st)
      else sized opcode is_fin (
          if opcode == Op.cont || is_control_frame opcode
          then st
          else record st { frame_type = some opcode })

  -- The first byte: FIN, three reserved bits and the opcode.
  unfoldable pub opened : ℕ → Wfd → Turn × Wfd
  unfolding accepted unexpected valid_opcode
  opened b st =
      let opcode = b % 16 in
      let is_fin = b % 256 / 128 == 1 in
      if not (b / 16 % 8 == 0) || unexpected opcode st.frame_type
      then (leaves, raise st)
      else (if valid_opcode opcode
          then accepted opcode is_fin st
          else (ends is_fin, raise (record st { frame_type = some opcode })))

  unfoldable pub turn : Wfd → Turn × Wfd
  unfolding opened
  turn st =
      let (byte, w) = next_byte st.reader in
      let st' = record st { reader = w; met = st.met + 1 } in
      elim byte [ none ↦ (hangs_up, st') | some b ↦ opened b st' ]

-- What `next_frame` returns: 0 with a message or at a CLOSE frame, -1 behind the loop or inside of
-- it, or never since a write left a buffer.
pub data Outcome : Type 0 where
  message close error_end hang_up overrun : Outcome

-- After the loop.
unfoldable pub finish : Wfd → Outcome
finish st = if st.reader.error then error_end else message

-- Behind a turn: the loop is left, or `rest` is what its next turns give.
unfoldable pub resume : Turn → Wfd → Option Outcome × Wfd → Option Outcome × Wfd
unfolding finish
resume (ends is_fin) st rest = if is_fin || st.reader.error then (some (finish st), st) else rest
resume leaves st rest = (some (finish st), st)
resume closes st rest = (some close, st)
resume hangs_up st rest = (some hang_up, st)
resume overruns st rest = (some overrun, st)

unfoldable pub frame_loop : Peer → ℕ → Wfd → Option Outcome × Wfd
unfolding resume
frame_loop p zero st = (none, st)
frame_loop p (suc fuel) st =
    let (t, st') = turn p st in let rest = frame_loop p fuel st' in resume t st' rest

-- The variables as `next_frame` sets them; `wfd->error` keeps its value.
unfoldable pub start_message : Wfd → Wfd
start_message st = record st { msg_data = []; frame_size = 0; msg_idx = 0; frame_type = none }

-- Each turn that goes on has read a byte, so the bytes that can come are turns enough.
unfoldable pub next_frame : Peer → Wfd → Option Outcome × Wfd
unfolding frame_loop start_message
next_frame p st = frame_loop p (suc (unread st.reader)) (start_message st)
