-- ===== src/Ext2/Splices.antt =====
-- `memcpy` into a buffer: what is read back from it, from the copied bytes and from the others.
use aether_os.Prelude.{
  ℕ, ◌+◌, ◌-◌, ◌≤◌, ◌≡◌, ap, ◌∙◌, ◌++◌, arith, min, length, take, drop, length-append, length-take,
  length-drop, take_all,
}
use aether_os.Prelude.Slices.{slice, drop-append, slice_left, slice-take, drop-drop}
use aether_os.Ext2.Layout.{Bytes, splice}

module _ (b : Bytes) (i : ℕ) (xs : Bytes) (fits : i + length xs ≤ length b) where
  before_it : length (take i b) ≡ i
  before_it = omega (arith, length-take i b)

  behind_it : Bytes
  behind_it = drop (i + length xs) b

  pub length-splice : length (splice b i xs) ≡ length b
  unfolding splice
  length-splice = omega (
    arith,
    length-append {0} (take i b) (xs ++ drop (i + length xs) b),
    length-append {0} xs (drop (i + length xs) b),
    length-drop (i + length xs) b,
    before_it,
  )

  -- From an offset behind the start of the copied bytes.
  drop-splice : (k : ℕ) → drop (i + k) (splice b i xs) ≡ drop k (xs ++ drop (i + length xs) b)
  unfolding splice
  drop-splice k =
      let e : i + k ≡ length (take i b) + k = omega (arith, before_it) in
      ap (λ (j : ℕ). drop j (splice b i xs)) e
      ∙ drop-append (take i b) (xs ++ drop (i + length xs) b) k

  pub slice-splice : slice (splice b i xs) i (length xs) ≡ xs
  slice-splice =
      let e : i ≡ i + 0 = omega arith in
      ap (λ (j : ℕ). slice (splice b i xs) j (length xs)) e
      ∙ ap (take (length xs)) (drop-splice 0)
      ∙ slice_left xs (drop (i + length xs) b) 0 (length xs) (omega arith)
      ∙ take_all (length xs) xs (omega arith)

  pub slice-splice_before : (o n : ℕ) → o + n ≤ i → slice (splice b i xs) o n ≡ slice b o n
  unfolding splice
  slice-splice_before o n h =
      let e : min n (i - o) ≡ n = omega arith in
      slice_left (take i b) (xs ++ drop (i + length xs) b) o n (omega (arith, before_it))
      ∙ slice-take b i o n
      ∙ ap (slice b o) e

  pub slice-splice_after : (o n : ℕ) → i + length xs ≤ o → slice (splice b i xs) o n ≡ slice b o n
  slice-splice_after o n h =
      let k = o - (i + length xs) in
      let e : o ≡ i + (length xs + k) = omega arith in
      let f : (i + length xs) + k ≡ o = omega arith in
      ap (λ (j : ℕ). slice (splice b i xs) j n) e
      ∙ ap (take n) (
          drop-splice (length xs + k)
          ∙ drop-append xs (drop (i + length xs) b) k
          ∙ drop-drop k (i + length xs) b)
      ∙ ap (λ (j : ℕ). slice b j n) f
