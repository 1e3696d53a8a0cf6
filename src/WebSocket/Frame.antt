-- ===== src/WebSocket/Frame.antt =====
-- The frame that `ws_sendframe` writes, and what RFC 6455 reads from it.
use basic_setup.Prelude.{
  ℕ, suc, ◌+◌, ◌-◌, ◌*◌, ◌/◌, ◌%◌, ◌^◌, ◌≤◌, ◌<◌, ◌≡◌, refl, ap, ◌∙◌, Bool-cases, inl, inr, true,
  Option, none, some, List, [], ◌∷◌, ◌++◌, length, length-append, take, drop, take-append,
  drop-append, leb, ltb, ◌==◌, if◌then◌else◌, bit_or, arith, every, every_lem, ==_iff,
}

-- The header: `WS_FIN | type` and the length in one, three or nine bytes.
unfoldable pub header : ℕ → ℕ → List ℕ
header type n =
    if leb n 125
    then bit_or 128 type ∷ (n % 128) ∷ []
    else (if leb n 65535
        then bit_or 128 type ∷ 126 ∷ (n / 256 % 256) ∷ (n % 256) ∷ []
        else (bit_or 128 type
            ∷ 127
            ∷ (n / 2 ^ 56 % 256)
            ∷ (n / 2 ^ 48 % 256)
            ∷ (n / 2 ^ 40 % 256)
            ∷ (n / 2 ^ 32 % 256)
            ∷ (n / 2 ^ 24 % 256)
            ∷ (n / 2 ^ 16 % 256)
            ∷ (n / 256 % 256)
            ∷ (n % 256)
            ∷ []))

-- `response`: the header and the message.
unfoldable pub frame : ℕ → List ℕ → List ℕ
unfolding header
frame type msg = header type (length msg) ++ msg

-- An unmasked frame as a receiver reads it: opcode, payload and what follows. `none` is a frame that
-- is incomplete, masked, not final, or not minimal in its length.
be : ℕ → List ℕ → ℕ
be acc [] = acc
be acc (b ∷ bs) = be (acc * 256 + b) bs

payload : ℕ → ℕ → List ℕ → Option (ℕ × List ℕ × List ℕ)
payload op n rest = if leb n (length rest) then some (op, take n rest, drop n rest) else none

extended : ℕ → ℕ → List ℕ → Option (ℕ × List ℕ × List ℕ)
unfolding payload be
extended op size rest =
    if leb size (length rest) then payload op (be 0 (take size rest)) (drop size rest) else none

pub receive : List ℕ → Option (ℕ × List ℕ × List ℕ)
unfolding payload extended
receive [] = none
receive (b ∷ []) = none
receive (b ∷ l ∷ rest) =
    if ltb b 128
    then none
    else (if leb l 125
        then payload (b - 128) l rest
        else (if l == 126
            then extended (b - 128) 2 rest
            else (if l == 127 then extended (b - 128) 8 rest else none)))

fin_table : every 16 (λ t. bit_or 128 t == 128 + t) ≡ true
unfolding every
fin_table = refl

fin_byte : (t : ℕ) → t < 16 → bit_or 128 t ≡ 128 + t
fin_byte t h = (==_iff _ _).0 (every_lem _ 16 fin_table t h)

be_eight :
    (n : ℕ)
    → n < 2 ^ 64
    → ((((((((0 * 256 + n / 2 ^ 56 % 256) * 256 + n / 2 ^ 48 % 256) * 256 + n / 2 ^ 40 % 256) * 256
                        + n / 2 ^ 32 % 256)
                      * 256
                    + n / 2 ^ 24 % 256)
                  * 256
                + n / 2 ^ 16 % 256)
              * 256
            + n / 256 % 256)
          * 256
        + n % 256)
      ≡ n
be_eight n h = omega arith

extended_two :
    (t n : ℕ) (rest : List ℕ)
    → n < 65536
    → extended t 2 ((n / 256 % 256) ∷ (n % 256) ∷ rest) ≡ payload t n rest
unfolding extended be
extended_two t n rest h =
    let whole : (0 * 256 + n / 256 % 256) * 256 + n % 256 ≡ n = omega arith in
    let enough : leb 2 (suc (suc (length rest))) ≡ true = ground arith in
    rw enough (ap (λ k. payload t k rest) whole)

extended_eight :
    (t n : ℕ) (rest : List ℕ)
    → n < 2 ^ 64
    → extended t 8 (
        (n / 2 ^ 56 % 256)
        ∷ (n / 2 ^ 48 % 256)
        ∷ (n / 2 ^ 40 % 256)
        ∷ (n / 2 ^ 32 % 256)
        ∷ (n / 2 ^ 24 % 256)
        ∷ (n / 2 ^ 16 % 256)
        ∷ (n / 256 % 256)
        ∷ (n % 256)
        ∷ rest)
      ≡ payload t n rest
unfolding extended be
extended_eight t n rest h =
    let enough : leb 8 (suc (suc (suc (suc (suc (suc (suc (suc (length rest))))))))) ≡ true =
      ground arith in
    rw enough (ap (λ k. payload t k rest) (be_eight n h))

payload-append :
    (op : ℕ) (msg rest : List ℕ) → payload op (length msg) (msg ++ rest) ≡ some (op, msg, rest)
unfolding payload
payload-append op msg rest =
    let enough : leb (length msg) (length (msg ++ rest)) ≡ true =
      ground (arith, length-append msg rest) in
    rw (enough, take-append (length msg) msg rest refl, drop-append (length msg) msg rest refl)

module _ (t : ℕ) (ht : t < 16) where
  receive_short :
      (n : ℕ) (rest : List ℕ) → n ≤ 125 → receive ((128 + t) ∷ n ∷ rest) ≡ payload t n rest
  unfolding receive
  receive_short n rest h = ground arith

  receive_two : (rest : List ℕ) → receive ((128 + t) ∷ 126 ∷ rest) ≡ extended t 2 rest
  unfolding receive
  receive_two rest = ground arith

  receive_eight : (rest : List ℕ) → receive ((128 + t) ∷ 127 ∷ rest) ≡ extended t 8 rest
  unfolding receive
  receive_eight rest = ground arith

-- For an opcode below 16 and a message shorter than 2 ^ 64, a receiver gets the opcode and the
-- message back from the frame, and nothing of what follows it, in each of the three forms of the
-- length.
pub receive-frame :
    (type : ℕ) (msg rest : List ℕ)
    → type < 16
    → length msg < 2 ^ 64
    → receive (frame type msg ++ rest) ≡ some (type, msg, rest)
unfolding frame
receive-frame type msg rest ht hl = elim (Bool-cases (leb (length msg) 125)) [
  | inl short ↦
      let small : length msg % 128 ≡ length msg = ground arith in
      rw (short, fin_byte type ht, small)
        (receive_short type ht (length msg) (msg ++ rest) (ground arith)
          ∙ payload-append type msg rest)
  | inr longer ↦ elim (Bool-cases (leb (length msg) 65535)) [
    | inl two ↦
        rw (longer, two, fin_byte type ht)
          (receive_two type ht _
            ∙ extended_two type (length msg) (msg ++ rest) (ground arith)
            ∙ payload-append type msg rest)
    | inr eight ↦
        rw (longer, eight, fin_byte type ht)
          (receive_eight type ht _
            ∙ extended_eight type (length msg) (msg ++ rest) hl
            ∙ payload-append type msg rest)
  ]
]
