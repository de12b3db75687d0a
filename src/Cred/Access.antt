-- ===== src/Cred/Access.antt =====
-- `cred_check` against the permission bits read one at a time.
use Prim.Native.Nat.{bit_and}
use aether_os.Prelude.{
  ℕ, ◌/◌, ◌%◌, ◌^◌, ◌<◌, ◌≡◌, refl, ◌↔◌, ◌⊎◌, inl, inr, Bool, true, false, not, ◌&&◌, ◌||◌, arith,
  ◌==◌, Bool-cases, if◌then◌else◌,
}
use aether_os.Prelude.Bits.{low_three, everywhere, everywhere-at}
use aether_os.Cred.{Cred, class_bits, cred_check}

-- Bit `k` of a word.
abbrev pub bit : ℕ → ℕ → ℕ
bit x k = x / 2 ^ k % 2

-- Every access that is asked for (4 read, 2 write, 1 execute) is granted by the octal digit `d`.
abbrev pub Grants : ℕ → ℕ → Type 0
Grants d access =
    (bit access 0 ≡ 1 → bit d 0 ≡ 1)
    × (bit access 1 ≡ 1 → bit d 1 ≡ 1)
    × (bit access 2 ≡ 1 → bit d 2 ≡ 1)

-- The octal digit of the mode that is for this process.
abbrev pub digit : Cred → ℕ → ℕ → ℕ → ℕ
digit c fuid fgid mode =
    if c.euid == fuid then mode / 64 % 8 else (if c.egid == fgid then mode / 8 % 8 else mode % 8)

class_bits-eq-digit :
    (c : Cred) (fuid fgid mode : ℕ) → class_bits c fuid fgid mode ≡ digit c fuid fgid mode
unfolding class_bits
class_bits-eq-digit c fuid fgid mode =
    ground (arith, low_three (mode / 2 ^ 6), low_three (mode / 2 ^ 3), low_three mode)

abbrev implies : ℕ → ℕ → Bool
implies a b = not (a == 1) || b == 1

abbrev grants : ℕ → ℕ → Bool
grants d a =
    implies (bit a 0) (bit d 0) && (implies (bit a 1) (bit d 1) && implies (bit a 2) (bit d 2))

abbrev same : Bool → Bool → Bool
same true b = b
same false b = not b

abbrev agrees : ℕ → ℕ → Bool
agrees d a = same (bit_and d a == a) (grants d a)

grants_table : everywhere (λ d. everywhere (agrees d) 8) 8 ≡ true
unfolding everywhere
grants_table = refl

grants_iff : (d a : ℕ) → d < 8 → a < 8 → agrees d a ≡ true
grants_iff d a hd ha =
    everywhere-at (agrees d) 8 (everywhere-at (λ d. everywhere (agrees d) 8) 8 grants_table d hd) a
      ha

same-eq-true : (a b : Bool) → same a b ≡ true → a ≡ b
same-eq-true true b h = ground arith
same-eq-true false b h = ground arith

grants-Grants : (d a : ℕ) → (grants d a ≡ true) ↔ Grants d a
grants-Grants d a = ((λ h. ground arith), (λ h. ground arith))

mask-Grants : (d a : ℕ) → d < 8 → a < 8 → ((bit_and d a == a) ≡ true) ↔ Grants d a
mask-Grants d a hd ha =
    rw (same-eq-true (bit_and d a == a) (grants d a) (grants_iff d a hd ha)) (grants-Grants d a)

digit-lt : (c : Cred) (fuid fgid mode : ℕ) → digit c fuid fgid mode < 8
digit-lt c fuid fgid mode = ground arith

-- For an access mask below 8 the check passes exactly when the process is root or the octal
-- digit of the mode for its class (owner, else group, else other) has every bit asked for.
pub cred_check_iff :
    (c : Cred) (fuid fgid mode access : ℕ)
    → access < 8
    → (cred_check c fuid fgid mode access ≡ true)
      ↔ ((c.euid ≡ 0) ⊎ Grants (digit c fuid fgid mode) access)
unfolding cred_check
cred_check_iff c fuid fgid mode access h =
    rw (class_bits-eq-digit c fuid fgid mode) (elim (Bool-cases (c.euid == 0)) [
      | inl root ↦ rw root ((λ _. inl (ground arith)), (λ _. refl))
      | inr user ↦ rw user (
        (λ e. inr ((mask-Grants _ access (digit-lt c fuid fgid mode) h).0 e)),
        (λ g. elim g [
          | inl root ↦ absurd (ground arith)
          | inr g' ↦ (mask-Grants _ access (digit-lt c fuid fgid mode) h).1 g'
        ]),
      )
    ])
