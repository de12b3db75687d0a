-- ===== src/Prelude/Bits.antt =====
-- The mask `& 7`, and the test of a property for every pair of numbers below a bound.
use Prim.Native.Nat.{ℕ, zero, suc, ◌/◌, ◌%◌, ◌≤◌, ◌<◌, min, bit_and, digits, bit_and-bitwise}
use mathlib.Core.Path.{◌≡◌, refl, ◌∙◌, subst}
use mathlib.Core.Bool.{Bool, true, false, ◌&&◌}
use native.Mathlib.Omega.{arith}
use native.Mathlib.Decide.{ℕ_discrete}

-- `a & mask`, computed over `n` binary digits.
abbrev masked : ℕ → ℕ → ℕ → ℕ
masked mask n a = digits (λ m. zero) min n a mask

-- Each mask takes one digit more than the mask before it.
masked_none : (n a : ℕ) → masked 0 n a ≡ 0
masked_none zero a = refl
masked_none (suc n) zero = refl
masked_none (suc n) (suc a) = omega (arith, masked_none n (suc a / 2))

masked_one : (n a : ℕ) → a ≤ n → masked 1 n a ≡ a % 2
masked_one zero zero fits = refl
masked_one (suc n) zero fits = refl
masked_one zero (suc a) fits = absurd (omega arith)
masked_one (suc n) (suc a) fits = omega (arith, masked_none n (suc a / 2))

masked_two : (n a : ℕ) → a ≤ n → masked 3 n a ≡ a % 4
masked_two zero zero fits = refl
masked_two (suc n) zero fits = refl
masked_two zero (suc a) fits = absurd (omega arith)
masked_two (suc n) (suc a) fits = omega (arith, masked_one n (suc a / 2) (omega arith))

masked_three : (n a : ℕ) → a ≤ n → masked 7 n a ≡ a % 8
masked_three zero zero fits = refl
masked_three (suc n) zero fits = refl
masked_three zero (suc a) fits = absurd (omega arith)
masked_three (suc n) (suc a) fits = omega (arith, masked_two n (suc a / 2) (omega arith))

pub low_three : (a : ℕ) → bit_and a 7 ≡ a % 8
low_three a = bit_and-bitwise a 7 ∙ masked_three a a (omega arith)

-- The test holds of every number below `n`.
unfoldable pub everywhere : (ℕ → Bool) → ℕ → Bool
everywhere test zero = true
everywhere test (suc n) = everywhere test n && test n

and_left : (a b : Bool) → (a && b) ≡ true → a ≡ true
and_left true b e = refl
and_left false b e = e

and_right : (a b : Bool) → (a && b) ≡ true → b ≡ true
and_right true b e = e
and_right false b e = cc

pub everywhere-at :
    (test : ℕ → Bool) (n : ℕ) → everywhere test n ≡ true → (k : ℕ) → k < n → test k ≡ true
unfolding everywhere
everywhere-at test zero all k within = absurd (omega arith)
everywhere-at test (suc n) all k within = elim (ℕ_discrete n k) [
  | yes last ↦ subst (λ (j : ℕ). test j ≡ true) last (and_right (everywhere test n) (test n) all)
  | no earlier ↦
      everywhere-at test n (and_left (everywhere test n) (test n) all) k (omega (arith, earlier))
]
