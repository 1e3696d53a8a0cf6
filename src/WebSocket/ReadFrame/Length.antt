-- ===== src/WebSocket/ReadFrame/Length.antt =====
-- The length of a frame and its masks, as they stand on the wire.
use basic_setup.Prelude.{
  ℕ, ◌+◌, ◌*◌, ◌/◌, ◌%◌, ◌^◌, ◌<◌, ◌≡◌, refl, ◌∙◌, true, false, List, [], ◌∷◌, ◌++◌, length, ltb,
  ◌==◌, if◌then◌else◌, bit_or, arith, Bool-cases, inl, inr, every, bytes_eq,
}
use basic_setup.WebSocket.Reader.{Reader, next_byte, Ahead, next_byte-Takes}
use basic_setup.WebSocket.ReadFrame.{or_bytes, read_length, read_masks}

-- The bytes of a list are bytes.
abbrev pub AllBytes : List ℕ → Type 0
AllBytes [] = Unit
AllBytes (b ∷ bs) = (b < 256) × AllBytes bs

pub read_masks-bytes :
    (ms bs : List ℕ) (w : Reader)
    → AllBytes ms
    → Ahead (ms ++ bs) w
    → (read_masks (length ms) w).0 ≡ ms
unfolding read_masks
read_masks-bytes [] bs w v a = refl
read_masks-bytes (m ∷ ms) bs w (small, v) a =
    let (e, ahead) = next_byte-Takes w m (ms ++ bs) a in
    let fits : m % 256 ≡ m = omega arith in
    rw (e, read_masks-bytes ms bs (next_byte w).1 v ahead, fits) refl

-- The seven bits for a payload of `n` bytes, and the bytes of its length behind them, as RFC 6455
-- writes the lengths below 65536.
unfoldable pub seven_bits : ℕ → ℕ
seven_bits n = if ltb n 126 then n else 126

unfoldable pub length_bytes : ℕ → List ℕ
length_bytes n = if ltb n 126 then [] else (n / 256) ∷ (n % 256) ∷ []

or_table : every 256 (λ h. every 256 (λ l. bit_or (bit_or 0 (h * 256)) l == h * 256 + l)) ≡ true
unfolding every
or_table = refl

or_two : (h l : ℕ) → h < 256 → l < 256 → bit_or (bit_or 0 (h * 256)) l ≡ h * 256 + l
or_two = bytes_eq (λ h l. bit_or (bit_or 0 (h * 256)) l) (λ h l. h * 256 + l) or_table

pub read_length-Ahead :
    (n : ℕ) (bs : List ℕ) (w : Reader)
    → n < 65536
    → Ahead (length_bytes n ++ bs) w
    → ((read_length (seven_bits n) w).0 ≡ n) × Ahead bs (read_length (seven_bits n) w).1
unfolding read_length length_bytes seven_bits or_bytes
read_length-Ahead n bs w h a = elim (Bool-cases (ltb n 126)) [
  | inl short ↦
      let two : (n == 126) ≡ false = ground arith in
      let eight : (n == 127) ≡ false = ground arith in rw (short, two, eight) (refl, rw short at a)
  | inr longer ↦
      let a' : Ahead ((n / 256) ∷ (n % 256) ∷ bs) w = rw longer at a in
      let (e1, a1) = next_byte-Takes w (n / 256) ((n % 256) ∷ bs) a' in
      let (e2, a2) = next_byte-Takes (next_byte w).1 (n % 256) bs a1 in
      let high : n / 256 * 2 ^ 8 % 2 ^ 64 ≡ n / 256 * 256 = omega arith in
      let low : n % 256 * 2 ^ 0 % 2 ^ 64 ≡ n % 256 = omega arith in
      let whole : n / 256 * 256 + n % 256 ≡ n = omega arith in
      let both = or_two (n / 256) (n % 256) (omega arith) (omega arith) in
      rw (longer, e1, e2) (rw (high, low) (both ∙ whole), a2)
]
