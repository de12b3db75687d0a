-- ===== src/Prelude/Scan.antt =====
-- The search `for (i = k; i < n; i++) if (p(a[i])) ...` over an array, as the index of the first
-- element that passes a test, and what it finds.
use Prim.Native.Nat.{ℕ, zero, suc, ◌≤◌, ◌<◌}
use mathlib.Core.Path.{◌≡◌, refl, subst}
use mathlib.Core.Logic.{inl, inr}
use mathlib.Core.Bool.{Bool, true, false}
use mathlib.Core.List.{List, [], ◌∷◌}
use mathlib.Core.Option.{Option, none, some}
use native.Mathlib.Omega.{arith}
use aether_os.Prelude.Tests.{if◌then◌else◌, Bool-cases}
use aether_os.Prelude.Lists.{length, get_or}

abbrev pub next : Option ℕ → Option ℕ
next none = none
next (some i) = some (suc i)

next-eq-some : (o : Option ℕ) (i : ℕ) → next o ≡ some i → (j : ℕ) × (o ≡ some j) × (suc j ≡ i)
next-eq-some none i e = cc
next-eq-some (some j) i e = (j, refl, ground arith)

module _ {ℓ} {A : Type ℓ} (p : A → Bool) where
  -- The index of the first element at or after index `k` that passes the test.
  unfoldable pub find_from : ℕ → List A → Option ℕ
  find_from k [] = none
  find_from zero (x ∷ xs) = if p x then some 0 else next (find_from zero xs)
  find_from (suc k) (x ∷ xs) = next (find_from k xs)

  -- What a successful search has found.
  pub record Found (k : ℕ) (xs : List A) (d : A) (i : ℕ) : Type 0 where
    pub from : k ≤ i
    pub within : i < length xs
    pub passes : p (get_or xs i d) ≡ true
    pub first : (j : ℕ) → k ≤ j → j < i → p (get_or xs j d) ≡ false

  Found-cons :
      (k : ℕ) (x : A) (xs : List A) (d : A) (i : ℕ)
      → Found k xs d i
      → Found (suc k) (x ∷ xs) d (suc i)
  Found-cons k x xs d i f = record {
    from = omega (arith, f.from);
    within = omega (arith, f.within);
    passes = f.passes;
    first = later;
  }
    where
      later : (j : ℕ) → suc k ≤ j → j < suc i → p (get_or (x ∷ xs) j d) ≡ false
      later zero a b = absurd (omega arith)
      later (suc j) a b = f.first j (omega arith) (omega arith)

  Found-skip :
      (x : A) (xs : List A) (d : A) (i : ℕ)
      → p x ≡ false
      → Found zero xs d i
      → Found zero (x ∷ xs) d (suc i)
  Found-skip x xs d i miss f = record {
    from = omega arith;
    within = omega (arith, f.within);
    passes = f.passes;
    first = later;
  }
    where
      later : (j : ℕ) → 0 ≤ j → j < suc i → p (get_or (x ∷ xs) j d) ≡ false
      later zero a b = miss
      later (suc j) a b = f.first j (omega arith) (omega arith)

  Found-here : (x : A) (xs : List A) (d : A) → p x ≡ true → Found zero (x ∷ xs) d 0
  Found-here x xs d hit = record {
    from = omega arith;
    within = omega arith;
    passes = hit;
    first = λ j a b. absurd (omega arith);
  }

  pub find_from-Found :
      (k : ℕ) (xs : List A) (d : A) (i : ℕ) → find_from k xs ≡ some i → Found k xs d i
  unfolding find_from
  find_from-Found k [] d i e = cc
  find_from-Found zero (x ∷ xs) d i e = elim (Bool-cases (p x)) [
    | inl hit ↦
        let e' : 0 ≡ i = ground arith in subst (Found zero (x ∷ xs) d) e' (Found-here x xs d hit)
    | inr miss ↦
        let (j, f, s) = next-eq-some (find_from zero xs) i (rw miss at e) in
        subst (Found zero (x ∷ xs) d) s (Found-skip x xs d j miss (find_from-Found zero xs d j f))
  ]
  find_from-Found (suc k) (x ∷ xs) d i e =
      let (j, f, s) = next-eq-some (find_from k xs) i e in
      subst (Found (suc k) (x ∷ xs) d) s (Found-cons k x xs d j (find_from-Found k xs d j f))

  -- A search that fails has seen every element from `k` on.
  pub find_from-none :
      (k : ℕ) (xs : List A) (d : A)
      → find_from k xs ≡ none
      → (j : ℕ) → k ≤ j
      → j < length xs
      → p (get_or xs j d) ≡ false
  unfolding find_from
  find_from-none k [] d e j a b = absurd (omega arith)
  find_from-none zero (x ∷ xs) d e zero a b = ground arith
  find_from-none zero (x ∷ xs) d e (suc j) a b =
      ground (arith, λ (h : find_from zero xs ≡ none). find_from-none zero xs d h j)
  find_from-none (suc k) (x ∷ xs) d e zero a b = absurd (omega arith)
  find_from-none (suc k) (x ∷ xs) d e (suc j) a b =
      ground (arith, λ (h : find_from k xs ≡ none). find_from-none k xs d h j)
