-- ===== src/Tests/Frames.antt =====
-- The theorems on the reading of frames, on small messages.
use basic_setup.Prelude.{
  replicate, ℕ, ◌-◌, ◌^◌, ◌≡◌, ◌≢◌, refl, true, false, List, [], ◌∷◌, ◌++◌, arith,
}
use basic_setup.WebSocket.Reader.{Reader, Ahead, arriving}
use basic_setup.WebSocket.ReadFrame.{fault, Reading, read_body}
use basic_setup.WebSocket.ReadFrame.Control.{read_body-control}
use basic_setup.WebSocket.ReadFrame.Overflow.{read_body-safe, read_body-overflow}

abbrev pub masks : List ℕ
masks = 1 ∷ 2 ∷ 3 ∷ 4 ∷ []

-- A reader with nothing in its buffer and these bytes to come.
abbrev pub reader : List (List ℕ) → Reader
reader input = record { input = input; frm = []; cur_pos = 0; amt_read = 0; error = false }

pub reader-Ahead : (b : ℕ) (bs : List ℕ) → Ahead (b ∷ bs ++ []) (reader ((b ∷ bs) ∷ []))
reader-Ahead b bs = record {
  no_error = refl;
  within = omega arith;
  filled = refl;
  fresh = λ z. refl;
  stream = unfold arriving in refl;
}

-- A message of which two bytes were received; `n` is the length of the next frame.
abbrev reading : ℕ → List (List ℕ) → List ℕ → Reading
reading n input buf = record {
  reader = reader input;
  buf = buf;
  frame_length = n;
  frame_size = 2;
  msg_idx = 2;
}

read_body-safe_example :
    (read_body (λ n. true) false true (reading 1 ((1 ∷ 2 ∷ 3 ∷ 4 ∷ 9 ∷ []) ∷ []) (5 ∷ 6 ∷ []))).0
    ≢ fault
read_body-safe_example =
    read_body-safe (λ n. true) true (reading 1 ((1 ∷ 2 ∷ 3 ∷ 4 ∷ 9 ∷ []) ∷ []) (5 ∷ 6 ∷ []))
      (omega arith) (omega arith)

read_body-overflow_example :
    (read_body
      (λ n. true)
      false
      true
      (reading (2 ^ 64 - 1) ((1 ∷ 2 ∷ 3 ∷ 4 ∷ 9 ∷ []) ∷ []) (5 ∷ 6 ∷ []))).0
    ≡ fault
read_body-overflow_example =
    read_body-overflow (λ n. true) true 1 9 masks []
      (reading (2 ^ 64 - 1) ((1 ∷ 2 ∷ 3 ∷ 4 ∷ 9 ∷ []) ∷ []) (5 ∷ 6 ∷ [])) (omega arith)
      (omega arith) (omega arith) refl refl (λ n. refl) refl (reader-Ahead 1 (2 ∷ 3 ∷ 4 ∷ 9 ∷ []))

-- A control frame of 125 zeros.
abbrev control : Reading
control = record {
  reader = reader ((1 ∷ 2 ∷ 3 ∷ 4 ∷ replicate 125 0) ∷ []);
  buf = replicate 125 0;
  frame_length = 125;
  frame_size = 0;
  msg_idx = 0;
}

read_body-control_example : (read_body (λ n. true) true true control).0 ≡ fault
read_body-control_example =
    read_body-control (λ n. true) masks (replicate 125 0) [] control refl refl refl refl refl refl
      (reader-Ahead 1 (2 ∷ 3 ∷ 4 ∷ replicate 125 0))
