-- ===== src/Tests/Protocol.antt =====
-- The theorem on the frame that is sent, applied to a small message.
use basic_setup.Prelude.{◌≡◌, some, [], ◌∷◌, ◌++◌, arith}
use basic_setup.Device.Op
use basic_setup.WebSocket.Frame.{frame, receive, receive-frame}

receive-frame_example :
    receive (frame Op.bin (1 ∷ 5 ∷ []) ++ (9 ∷ [])) ≡ some (Op.bin, 1 ∷ 5 ∷ [], 9 ∷ [])
receive-frame_example = receive-frame Op.bin (1 ∷ 5 ∷ []) (9 ∷ []) (omega arith) (omega arith)
