-- ===== src/Prelude/Slices.antt =====
-- Slices of lists: what a read of some bytes at an offset gives.
use Prim.Native.Nat.{ℕ, zero, suc, ◌+◌, ◌-◌, ◌≤◌, min}
use mathlib.Core.Path.{◌≡◌, refl, sym, ap, ap₂, ◌∙◌}
use mathlib.Core.List.{List, [], ◌∷◌, ◌++◌}
use native.Mathlib.Omega.{arith}
use aether_os.Prelude.Lists.{length, take, drop, length-take, length-drop, take-nil, drop-nil}

module _ {A : Type 0} where
  -- The `n` elements from index `o` on, or those of them that are there.
  abbrev pub slice : List A → ℕ → ℕ → List A
  slice content o n = take n (drop o content)

  slice_nil : (o n : ℕ) → slice [] o n ≡ []
  slice_nil o n = ap (take n) (drop-nil o) ∙ take-nil n

  pub slice_at :
      (content : List A) (o p n m : ℕ) → o ≡ p → n ≡ m → slice content o n ≡ slice content p m
  slice_at content o p n m e f = ap₂ (slice content) e f

  pub slice_more :
      (content : List A) (o n m : ℕ)
      → slice content o n ++ slice content (o + length (slice content o n)) m
        ≡ slice content o (n + m)
  slice_more content o zero m = slice_at content (o + 0) o m (0 + m) (omega arith) (omega arith)
  slice_more [] o (suc n) m =
      ap₂ ◌++◌ (slice_nil o (suc n)) (slice_nil (o + length (slice [] o (suc n))) m)
      ∙ sym (slice_nil o (suc n + m))
  slice_more (x ∷ xs) zero (suc n) m =
      ap (λ (ys : List A). x ∷ (take n xs ++ ys))
        (slice_at (x ∷ xs) (0 + suc (length (take n xs))) (suc (0 + length (take n xs))) m m
          (omega arith) refl)
      ∙ ap (◌∷◌ x) (slice_more xs zero n m)
      ∙ slice_at (x ∷ xs) 0 0 (suc (n + m)) (suc n + m) refl (omega arith)
  slice_more (x ∷ xs) (suc o) (suc n) m =
      ap (λ (ys : List A). slice xs o (suc n) ++ ys)
        (slice_at (x ∷ xs) (suc o + length (slice xs o (suc n)))
          (suc (o + length (slice xs o (suc n)))) m m (omega arith) refl)
      ∙ slice_more xs o (suc n) m

  pub length-slice : (content : List A) (o n : ℕ) → length (slice content o n) ≤ length content - o
  length-slice content o n = omega (arith, length-take n (drop o content), length-drop o content)

  pub drop-append : (xs ys : List A) (m : ℕ) → drop (length xs + m) (xs ++ ys) ≡ drop m ys
  drop-append [] ys m = let e : 0 + m ≡ m = omega arith in ap (λ (k : ℕ). drop k ys) e
  drop-append (x ∷ xs) ys m =
      let e : suc (length xs) + m ≡ suc (length xs + m) = omega arith in
      ap (λ (k : ℕ). drop k (x ∷ (xs ++ ys))) e ∙ drop-append xs ys m

  -- A slice that ends in the first part.
  pub slice_left :
      (xs ys : List A) (o n : ℕ) → o + n ≤ length xs → slice (xs ++ ys) o n ≡ slice xs o n
  slice_left xs ys o zero h = refl
  slice_left [] ys o (suc n) h = absurd (omega arith)
  slice_left (x ∷ xs) ys zero (suc n) h = ap (◌∷◌ x) (slice_left xs ys zero n (omega arith))
  slice_left (x ∷ xs) ys (suc o) (suc n) h = slice_left xs ys o (suc n) (omega arith)

  pub length-slice_in : (xs : List A) (o n : ℕ) → o + n ≤ length xs → length (slice xs o n) ≡ n
  length-slice_in xs o n h = omega (arith, length-take n (drop o xs), length-drop o xs)

  -- A slice of a list that is cut after `s` elements.
  pub slice-take : (xs : List A) (s o n : ℕ) → slice (take s xs) o n ≡ slice xs o (min n (s - o))
  slice-take xs zero o n =
      let e : 0 ≡ min n (0 - o) = omega arith in slice_nil o n ∙ ap (slice xs o) e
  slice-take [] (suc s) o n = slice_nil o n ∙ sym (slice_nil o (min n (suc s - o)))
  slice-take (x ∷ xs) (suc s) zero zero =
      let e : 0 ≡ min 0 (suc s - 0) = omega arith in ap (slice (x ∷ xs) 0) e
  slice-take (x ∷ xs) (suc s) zero (suc n) =
      ap (◌∷◌ x) (slice-take xs s zero n) ∙ ap (λ (k : ℕ). take k (x ∷ xs)) step
    where
      step : suc (min n (s - 0)) ≡ min (suc n) (suc s - 0)
      step = omega arith
  slice-take (x ∷ xs) (suc s) (suc o) n =
      let e : min n (s - o) ≡ min n (suc s - suc o) = omega arith in
      slice-take xs s o n ∙ ap (slice xs o) e

  pub drop-drop : (k m : ℕ) (xs : List A) → drop k (drop m xs) ≡ drop (m + k) xs
  drop-drop k zero xs = let e : k ≡ 0 + k = omega arith in ap (λ (j : ℕ). drop j xs) e
  drop-drop k (suc m) [] = drop-nil k ∙ sym (drop-nil (suc m + k))
  drop-drop k (suc m) (x ∷ xs) =
      let e : suc (m + k) ≡ suc m + k = omega arith in
      drop-drop k m xs ∙ ap (λ (j : ℕ). drop j (x ∷ xs)) e
