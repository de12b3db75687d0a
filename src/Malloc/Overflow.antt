-- ===== src/Malloc/Overflow.antt =====
-- malloc of almost 2^64 bytes.
use native.Mathlib.Nat.{mod-eq_of_lt, mod-eq-sub-mod}
use native.Mathlib.Decide.{dec_lt}
use aether_os.Prelude.{
  ℕ, ◌+◌, ◌-◌, ◌%◌, ◌≤◌, ◌<◌, ◌≡◌, refl, ap, ◌∙◌, arith, add64, u64_mod, ltb, if◌then◌else◌, ◌==◌,
  false,
}
use aether_os.Malloc.{align_up, need_of, malloc, Heap}

wrapped : (m : ℕ) → u64_mod ≤ m → m < u64_mod + u64_mod → m % u64_mod ≡ m - u64_mod
wrapped m lo hi =
    mod-eq-sub-mod {n = m} {m = u64_mod} lo
    ∙ mod-eq_of_lt {n = m - u64_mod} {m = u64_mod} (omega arith)

small_need : (x : ℕ) → x ≤ 30 → (if ltb (x - x % 16) 32 then 32 else x - x % 16) ≡ 32
small_need x le = ground arith

-- The sum that is rounded down to a multiple of 16.
rounded : (n : ℕ) → u64_mod ≤ n + 31 → n < u64_mod → add64 (add64 n 16) 15 ≤ 30
rounded n lo hi = elim (dec_lt (n + 16) u64_mod) [
  | yes p ↦ omega (
    arith,
    mod-eq_of_lt {n = n + 16} {m = u64_mod} p,
    wrapped (n + 16 + 15) (omega arith) (omega arith),
    ap (λ (k : ℕ). (k + 15) % u64_mod) (mod-eq_of_lt {n = n + 16} {m = u64_mod} p),
  )
  | no p ↦ omega (
    arith,
    ap (λ (k : ℕ). (k + 15) % u64_mod) (wrapped (n + 16) (omega arith) (omega arith)),
    mod-eq_of_lt {n = n + 16 - u64_mod + 15} {m = u64_mod} (omega arith),
  )
]

need_of_huge : (n : ℕ) → u64_mod ≤ n + 31 → n < u64_mod → need_of n ≡ 32
unfolding need_of align_up
need_of_huge n lo hi = small_need (add64 (add64 n 16) 15) (rounded n lo hi)

need_of_one : need_of 1 ≡ 32
unfolding need_of align_up
need_of_one = refl

-- malloc of one of the 31 largest sizes of 64 bits does what malloc of one byte does: the size of
-- the block is computed with a wrap-around.
pub malloc_huge : (h : Heap) (n : ℕ) → u64_mod ≤ n + 31 → n < u64_mod → malloc h n ≡ malloc h 1
unfolding malloc
malloc_huge h n lo hi = rw (need_of_huge n lo hi, need_of_one, nonzero) refl
  where
    nonzero : n == 0 ≡ false
    nonzero = ground arith
