-- ===== src/Prelude/Bits.antt =====
-- Facts about bytes and bits that are checked over their whole range by evaluation.
use Prim.Native.Nat.{ℕ, zero, suc, ◌<◌, bit_xor}
use mathlib.Core.Path.{◌≡◌, refl}
use mathlib.Core.Bool.{Bool, true, ◌&&◌}
use native.Mathlib.Omega.{arith}
use basic_setup.Prelude.Tests.{◌==◌, ==_iff}

-- A test holds at each number below `count`.
unfoldable pub every : ℕ → (ℕ → Bool) → Bool
every zero test = true
every (suc last) test = every last test && test last

pub every_lem :
    (test : ℕ → Bool) (count : ℕ) → every count test ≡ true → (i : ℕ) → i < count → test i ≡ true
unfolding every
every_lem test zero checked i h = absurd (omega arith)
every_lem test (suc last) checked i h =
    let earlier : every last test ≡ true → i < last → test i ≡ true =
      λ all below. every_lem test last all i below in
    ground (arith, earlier)

-- Two functions that agree on every byte by evaluation.
pub byte_eq : (f g : ℕ → ℕ) → every 256 (λ x. f x == g x) ≡ true → (x : ℕ) → x < 256 → f x ≡ g x
byte_eq f g t x h = (==_iff _ _).0 (every_lem _ 256 t x h)

-- And on every pair of bytes.
pub bytes_eq :
    (f g : ℕ → ℕ → ℕ)
    → every 256 (λ x. every 256 (λ y. f x y == g x y)) ≡ true
    → (x y : ℕ) → x < 256
    → y < 256
    → f x y ≡ g x y
bytes_eq f g t x y hx hy = (==_iff _ _).0 (every_lem _ 256 (every_lem _ 256 t x hx) y hy)

xor_table : every 256 (λ x. every 256 (λ y. bit_xor (bit_xor x y) y == x)) ≡ true
unfolding every
xor_table = refl

pub xor_twice : (x y : ℕ) → x < 256 → y < 256 → bit_xor (bit_xor x y) y ≡ x
xor_twice = bytes_eq _ _ xor_table
