-- ===== src/Console/Netmask.antt =====
-- The prefix length of a netmask.
use native.Mathlib.Nat.{zero-add}
use native.Mathlib.Numerals.{unary_clauses}
use basic_setup.Prelude.{
  Option, some, ℕ, ltb, zero, suc, ◌+◌, ◌-◌, ◌*◌, ◌/◌, ◌%◌, ◌^◌, ◌≤◌, ◌<◌, ◌≡◌, refl, ap, ◌∙◌, true,
  ◌==◌, arith, if_cases, every, every_lem, ==_iff,
}
use basic_setup.Console.{cidr_loop, cidr}

-- The netmask of a prefix length.
abbrev pub netmask_of : ℕ → ℕ
netmask_of prefix = 2 ^ 32 - 2 ^ (32 - prefix)

-- The sum of the lowest `n` binary digits.
pub digit_sum : ℕ → ℕ → ℕ
digit_sum zero m = 0
digit_sum (suc n) m = m % 2 + digit_sum n (m / 2)

digit_sum_zero : (n : ℕ) → digit_sum n 0 ≡ 0
unfolding digit_sum
digit_sum_zero zero = refl
digit_sum_zero (suc n) = omega (arith, digit_sum_zero n)

cidr_loop-digit_sum : (n m acc : ℕ) → m < 2 ^ n → cidr_loop n m acc ≡ some (acc + digit_sum n m)
unfolding cidr_loop digit_sum
cidr_loop-digit_sum zero m acc h =
    if_cases (λ (r : Option ℕ). r ≡ some (acc + 0)) (m == 0) _ _ (λ e. ap some (omega arith))
      (λ e. absurd (ground arith))
cidr_loop-digit_sum (suc n) m acc h =
    if_cases (λ (r : Option ℕ). r ≡ some (acc + (m % 2 + digit_sum n (m / 2)))) (m == 0) _ _
      (λ e.
        let zero_m : m ≡ 0 = (==_iff m 0).0 e in
        rw zero_m (ap some (omega (arith, digit_sum_zero n))))
      (λ e.
        let double : 2 ^ suc n ≡ 2 * 2 ^ n = simp unary_clauses (omega arith) in
        cidr_loop-digit_sum n (m / 2) (acc + m % 2) (omega (arith, h, double))
        ∙ ap some (omega arith))

masks : every 33 (λ prefix. digit_sum 32 (netmask_of prefix) == prefix) ≡ true
unfolding every digit_sum
masks = refl

small_masks : every 33 (λ prefix. ltb (netmask_of prefix) (2 ^ 32)) ≡ true
unfolding every
small_masks = refl

cidr-netmask_of : (prefix : ℕ) → prefix ≤ 32 → cidr (netmask_of prefix) ≡ some prefix
unfolding cidr
cidr-netmask_of prefix h =
    let small : ltb (netmask_of prefix) (2 ^ 32) ≡ true =
      every_lem (λ n. ltb (netmask_of n) (2 ^ 32)) 33 small_masks prefix (omega arith) in
    let ones : digit_sum 32 (netmask_of prefix) ≡ prefix =
      (==_iff _ _).0
        (every_lem (λ n. digit_sum 32 (netmask_of n) == n) 33 masks prefix (omega arith)) in
    cidr_loop-digit_sum 32 (netmask_of prefix) 0 (ground arith)
    ∙ ap some (zero-add (digit_sum 32 (netmask_of prefix)) ∙ ones)

-- For a 32-bit netmask the loop of `print_interface_info` ends and counts the ones of the netmask;
-- for the 33 netmasks of a prefix that is the length of the prefix.
pub cidr-digit_sum :
    (netmask : ℕ)
    → netmask < 2 ^ 32
    → (cidr netmask ≡ some (digit_sum 32 netmask))
      × ((prefix : ℕ) → prefix ≤ 32 → cidr (netmask_of prefix) ≡ some prefix)
unfolding cidr
cidr-digit_sum netmask h = (
  cidr_loop-digit_sum 32 netmask 0 h ∙ ap some (zero-add (digit_sum 32 netmask)),
  cidr-netmask_of,
)
