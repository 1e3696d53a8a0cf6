-- ===== src/WebSocket/NextFrame/Opening.antt =====
-- The first byte of a frame that is accepted.
use basic_setup.Prelude.{
  ℕ, ◌+◌, ◌/◌, ◌%◌, ◌<◌, ◌≡◌, refl, Bool, true, false, ◌||◌, some, List, ◌∷◌, ◌==◌, if◌then◌else◌,
}
use basic_setup.Device.Op
use basic_setup.WebSocket.Reader.{next_byte, Ahead, next_byte-Takes}
use basic_setup.WebSocket.Control.{is_control_frame}
use basic_setup.WebSocket.NextFrame.{
  Wfd, Peer, sized, accepted, opened, turn, unexpected, valid_opcode,
}
use basic_setup.WebSocket.NextFrame.Fragment.{first_byte, first_byte_lem}

module _ (p : Peer) (open_still : (n : ℕ) → p.closing n ≡ false) where
  opened-sized :
      (b opcode : ℕ) (is_fin : Bool) (st : Wfd)
      → b % 16 ≡ opcode
      → (b % 256 / 128 == 1) ≡ is_fin
      → (b / 16 % 8 == 0) ≡ true
      → unexpected opcode st.frame_type ≡ false
      → valid_opcode opcode ≡ true
      → opened p b st
        ≡ sized p opcode is_fin (
            if opcode == Op.cont || is_control_frame opcode
            then st
            else record st { frame_type = some opcode })
  unfolding opened accepted
  opened-sized b opcode is_fin st low fin rsv fits valid =
      rw (low, fin, rsv, fits, valid, open_still st.met) refl

  -- The first byte of a frame, and the rest of it by `sized`.
  pub turn-sized :
      (opcode : ℕ) (is_fin : Bool) (bytes : List ℕ) (st : Wfd)
      → Ahead (first_byte is_fin opcode ∷ bytes) st.reader
      → opcode < 16
      → unexpected opcode st.frame_type ≡ false
      → valid_opcode opcode ≡ true
      → let st' = record st { reader = (next_byte st.reader).1; met = st.met + 1 } in
        (turn p st
          ≡ sized p opcode is_fin (
              if opcode == Op.cont || is_control_frame opcode
              then st'
              else record st' { frame_type = some opcode }))
        × Ahead bytes (next_byte st.reader).1
  unfolding turn
  turn-sized opcode is_fin bytes st a h fits valid =
      let (e, a') = next_byte-Takes st.reader (first_byte is_fin opcode) bytes a in
      let (low, fin, rsv) = first_byte_lem is_fin opcode h in
      let st' = record st { reader = (next_byte st.reader).1; met = st.met + 1 } in
      (
        rw (e, turn)
            (opened-sized (first_byte is_fin opcode) opcode is_fin st' low fin rsv fits valid),
        a',
      )
