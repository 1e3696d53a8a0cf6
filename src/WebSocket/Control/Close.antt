-- ===== src/WebSocket/Control/Close.antt =====
-- The answer to a CLOSE frame.
use basic_setup.Prelude.{
  ℕ, ◌+◌, ◌*◌, ◌≤◌, ◌<◌, ◌≡◌, refl, ◌⊎◌, inl, inr, true, false, none, List, [], ◌∷◌, arith,
  Bool-cases, if_cases,
}
use basic_setup.WebSocket.Control.{valid_code, code_bytes, do_close, clse_proterr}

-- The codes that an endpoint may send, by RFC 6455, sections 7.4.1 and 7.4.2.
abbrev pub Sendable : ℕ → Type 0
Sendable cc =
    ((1000 ≤ cc) × (cc ≤ 1003)) ⊎ ((1007 ≤ cc) × (cc ≤ 1011)) ⊎ ((3000 ≤ cc) × (cc ≤ 4999))

valid_code-Sendable : (cc : ℕ) → valid_code cc ≡ true → Sendable cc
unfolding valid_code
valid_code-Sendable cc h = ground arith

valid_code-not-Sendable : (cc : ℕ) → valid_code cc ≡ false → ¬ Sendable cc
unfolding valid_code
valid_code-not-Sendable cc h = λ s. ground arith

-- What the two bytes of a code stand for.
abbrev pub code_of : List ℕ → ℕ
code_of [] = 0
code_of (a ∷ []) = a
code_of (a ∷ b ∷ rest) = a * 256 + b

-- The answer to a CLOSE frame with the code `code`.
abbrev pub Answers : ℕ → List ℕ → List ℕ → Type 0
Answers code msg answer =
    (Sendable code × (answer ≡ msg)) ⊎ ((¬ Sendable code) × (code_of answer ≡ clse_proterr))

-- To a CLOSE frame with two bytes the answer is the same code if an endpoint may send it, and
-- otherwise 1002; to one with a single byte, 1002; to one that is empty, an empty one.
pub do_close-Sendable :
    (a b : ℕ) (rest : List ℕ)
    → a < 256
    → b < 256
    → (do_close none 0 (a ∷ b ∷ rest) ≡ [])
      × (code_of (do_close none 1 (a ∷ b ∷ rest)) ≡ clse_proterr)
      × Answers (a * 256 + b) (a ∷ b ∷ []) (do_close none 2 (a ∷ b ∷ rest))
unfolding do_close code_bytes
do_close-Sendable a b rest ha hb =
    let code = a * 256 + b in
    let single : valid_code a ≡ false = elim (Bool-cases (valid_code a)) [
      | inl e ↦ let s = valid_code-Sendable a e in absurd (omega (arith, s))
      | inr e ↦ e
    ] in
    (
      refl,
      rw single refl,
      if_cases (Answers code (a ∷ b ∷ [])) (valid_code code) _ _
          (λ e. inl (valid_code-Sendable code e, refl))
          (λ e. inr (valid_code-not-Sendable code e, refl)),
    )
