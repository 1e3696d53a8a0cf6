-- ===== src/WebSocket/NextFrame/Section.antt =====
-- A message on the wire, in fragments with PING frames before them.
use basic_setup.Prelude.{ℕ, true, false, List, [], ◌∷◌, ◌++◌, map}
use basic_setup.Device.Op
use basic_setup.WebSocket.ReadFrame.Control.{msg_ctrl_size}
use basic_setup.WebSocket.NextFrame.Fragment.{Frame, IsFrame, frame_bytes, clear}

-- A fragment with the PING frames before it.
pub record Section : Type 0 where
  pub pings : List Frame
  pub part : Frame

abbrev pub AllFrames : ℕ → List Frame → Type 0
AllFrames size [] = Unit
AllFrames size (f ∷ fs) = IsFrame size f × AllFrames size fs

abbrev pub IsSection : Section → Type 0
IsSection s = AllFrames msg_ctrl_size s.pings × IsFrame 65536 s.part

abbrev pub AllSections : List Section → Type 0
AllSections [] = Unit
AllSections (s ∷ ss) = IsSection s × AllSections ss

abbrev pub ping_bytes : List Frame → List ℕ → List ℕ
ping_bytes [] rest = rest
ping_bytes (f ∷ fs) rest = frame_bytes true Op.ping f (ping_bytes fs rest)

-- A message on the wire, in its fragments: the first has the opcode of the message, the last FIN.
abbrev pub encode : ℕ → Section → List Section → List ℕ → List ℕ
encode opcode s [] rest = ping_bytes s.pings (frame_bytes true opcode s.part rest)
encode opcode s (t ∷ ss) rest =
    ping_bytes s.pings (frame_bytes false opcode s.part (encode Op.cont t ss rest))

-- Its text, and the payloads of its PING frames.
abbrev pub text : Section → List Section → List ℕ
text s [] = clear s.part
text s (t ∷ ss) = clear s.part ++ text t ss

abbrev pub asked : Section → List Section → List (List ℕ)
asked s [] = map clear s.pings
asked s (t ∷ ss) = map clear s.pings ++ asked t ss
