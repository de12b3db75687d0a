-- ===== src/Pmm/Scan.antt =====
-- The scan of `pmm_alloc_page` finds the lowest free page.
use aether_os.Prelude.{
  ℕ, zero, suc, ◌+◌, ◌-◌, ◌*◌, ◌/◌, ◌%◌, ◌<◌, ◌≡◌, refl, sym, ap, ap₂, ◌∙◌, inl, inr, Bool, true,
  false, Option, none, some, [], ◌∷◌, arith, length, get_or, set, Bool-cases,
}
use native.Mathlib.Decide.{dec_lt}
use aether_os.Pmm.{
  Word, Bitmap, word_bits, max_pages, bitmap_write, bitmap_set, bitmap_test, is_full, ctz_not,
  alloc_scan,
}
use aether_os.Pmm.Bits.{WordsFit, WordsFit-tail}

full-get_or : (w : Word) (i : ℕ) → is_full w ≡ true → i < length w → get_or w i false ≡ true
unfolding is_full
full-get_or [] i f h = absurd (omega arith)
full-get_or (b ∷ w) zero f h = ground arith
full-get_or (b ∷ w) (suc i) f h = ground (arith, full-get_or w i)

-- `ctz(~w)` of a word that is not full is the index of its lowest clear bit.
record Lowest (w : Word) (i : ℕ) : Type 0 where
  within : i < length w
  clear : get_or w i false ≡ false
  below : (j : ℕ) → j < i → get_or w j false ≡ true

Lowest-suc : (w : Word) (i : ℕ) → Lowest w i → Lowest (true ∷ w) (suc i)
Lowest-suc w i low = record { within = omega (arith, low.within); clear = low.clear; below = later }
  where
    later : (j : ℕ) → j < suc i → get_or (true ∷ w) j false ≡ true
    later zero h = refl
    later (suc j) h = low.below j (omega arith)

ctz_not-Lowest : (w : Word) → is_full w ≡ false → Lowest w (ctz_not w)
unfolding is_full ctz_not
ctz_not-Lowest [] f = cc
ctz_not-Lowest (false ∷ w) f = record {
  within = omega arith;
  clear = refl;
  below = λ j h. absurd (omega arith);
}
ctz_not-Lowest (true ∷ w) f = Lowest-suc w (ctz_not w) (ctz_not-Lowest w f)

module _ (w : Word) (ws : Bitmap) where
  pub test-head : (q : ℕ) → q < word_bits → bitmap_test (w ∷ ws) q ≡ get_or w q false
  unfolding bitmap_test
  test-head q h =
      let e : q / word_bits ≡ 0 = omega arith in
      let f : q % word_bits ≡ q = omega arith in rw (e, f)

  pub test-tail : (q : ℕ) → bitmap_test (w ∷ ws) (word_bits + q) ≡ bitmap_test ws q
  unfolding bitmap_test
  test-tail q =
      let e : (word_bits + q) / word_bits ≡ suc (q / word_bits) = omega arith in
      let f : (word_bits + q) % word_bits ≡ q % word_bits = omega arith in rw (e, f)

  write-head : (q : ℕ) (b : Bool) → q < word_bits → bitmap_write (w ∷ ws) q b ≡ set w q b ∷ ws
  unfolding bitmap_write
  write-head q b h =
      let e : q / word_bits ≡ 0 = omega arith in
      let f : q % word_bits ≡ q = omega arith in rw (e, f)

  write-tail :
      (q : ℕ) (b : Bool) → bitmap_write (w ∷ ws) (word_bits + q) b ≡ w ∷ bitmap_write ws q b
  unfolding bitmap_write
  write-tail q b =
      let e : (word_bits + q) / word_bits ≡ suc (q / word_bits) = omega arith in
      let f : (word_bits + q) % word_bits ≡ q % word_bits = omega arith in rw (e, f)

-- The lowest page whose bit is clear.
pub record LowestPage (bm : Bitmap) (q : ℕ) : Type 0 where
  pub within : q < max_pages bm
  pub clear : bitmap_test bm q ≡ false
  pub below : (r : ℕ) → r < q → bitmap_test bm r ≡ true

-- How the scan from word `word` on may end.
pub data Scanned (word : ℕ) (bm : Bitmap) : Option (ℕ × Bitmap) → Type 0 where
  found :
      (q : ℕ)
      → LowestPage bm q
      → {r : Option (ℕ × Bitmap)} → r ≡ some (word * word_bits + q, bitmap_set bm q)
      → Scanned word bm r
  all_used :
      ((q : ℕ) → q < max_pages bm → bitmap_test bm q ≡ true)
      → {r : Option (ℕ × Bitmap)} → r ≡ none
      → Scanned word bm r

-- Past a full word the scan goes on with the next.
abbrev behind : Word → Option (ℕ × Bitmap) → Option (ℕ × Bitmap)
behind w none = none
behind w (some (page, ws)) = some (page, w ∷ ws)

-- Below the first bit of the second word every bit is in the first, which is full.
test-full :
    (w : Word) (ws : Bitmap) (q : ℕ)
    → length w ≡ word_bits
    → is_full w ≡ true
    → ((r : ℕ) → word_bits + r < q → bitmap_test ws r ≡ true)
    → (r : ℕ) → r < q
    → bitmap_test (w ∷ ws) r ≡ true
test-full w ws q size f rest r h = elim (dec_lt r word_bits) [
  | yes low ↦ test-head w ws r low ∙ full-get_or w r f (omega arith)
  | no high ↦
      let e : r ≡ word_bits + (r - word_bits) = omega arith in
      ap (bitmap_test (w ∷ ws)) e
      ∙ test-tail w ws (r - word_bits)
      ∙ rest (r - word_bits) (omega arith)
]

behind-Scanned :
    (word : ℕ) (w : Word) (ws : Bitmap) (r : Option (ℕ × Bitmap))
    → length w ≡ word_bits
    → is_full w ≡ true
    → Scanned (word + 1) ws r
    → Scanned word (w ∷ ws) (behind w r)
unfolding bitmap_set
behind-Scanned word w ws r size f (found q low e) =
    found (word_bits + q)
      (record {
        within = omega (arith, low.within);
        clear = test-tail w ws q ∙ low.clear;
        below = test-full w ws (word_bits + q) size f (λ s h. low.below s (omega arith));
      })
      (ap (behind w) e
        ∙ ap₂ (λ (n : ℕ) (bm : Bitmap). some (n, bm)) (omega arith) (sym (write-tail w ws q true)))
behind-Scanned word w ws r size f (all_used full e) =
    all_used (test-full w ws (max_pages (w ∷ ws)) size f (λ s h. full s (omega arith)))
      (ap (behind w) e)

pub alloc_scan-Scanned :
    (word : ℕ) (bm : Bitmap) → WordsFit bm → Scanned word bm (alloc_scan word bm)
unfolding alloc_scan bitmap_set
alloc_scan-Scanned word [] fit = all_used (λ q h. absurd (omega arith)) refl
alloc_scan-Scanned word (w ∷ ws) fit = elim (Bool-cases (is_full w)) [
  | inr f ↦
      let low = ctz_not-Lowest w f in
      let small : ctz_not w < word_bits = omega (arith, low.within, fit.bits 0 (omega arith)) in
      found (ctz_not w)
        (record {
          within = omega arith;
          clear = test-head w ws (ctz_not w) small ∙ low.clear;
          below = λ r h. test-head w ws r (omega arith) ∙ low.below r h;
        })
        (rw (f, alloc_scan, write-head w ws (ctz_not w) true small))
  | inl f ↦
      rw (f, alloc_scan)
        (behind-Scanned word w ws (alloc_scan (word + 1) ws) (fit.bits 0 (omega arith)) f
          (alloc_scan-Scanned (word + 1) ws (WordsFit-tail w ws fit)))
]
