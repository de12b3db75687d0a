-- ===== src/Pmm/Full.antt =====
-- No clear bit, no free page; and a bit that is set and cleared again leaves the bitmap as it was.
use aether_os.Prelude.{
  ℕ, suc, ◌+◌, ◌/◌, ◌%◌, ◌<◌, ◌≡◌, refl, sym, ap, ◌∙◌, true, false, [], ◌∷◌, arith, length, get_or,
  set, set-set, set-get_or, get_or-set_self,
}
use aether_os.Pmm.{Word, Bitmap, word_bits, max_pages, word_at, bitmap_write, bitmap_test}
use aether_os.Pmm.Bits.{WordsFit, WordsFit-tail, clear_bits, count_clear}
use aether_os.Pmm.Scan.{test-head, test-tail}

clear_bits-zero : (w : Word) → ((i : ℕ) → i < length w → get_or w i false ≡ true) → clear_bits w ≡ 0
unfolding clear_bits
clear_bits-zero [] full = refl
clear_bits-zero (true ∷ w) full = clear_bits-zero w (λ i h. full (suc i) (omega arith))
clear_bits-zero (false ∷ w) full = let e = full 0 (omega arith) in cc

pub count_clear-zero :
    (bm : Bitmap)
    → WordsFit bm
    → ((q : ℕ) → q < max_pages bm → bitmap_test bm q ≡ true)
    → count_clear bm ≡ 0
unfolding count_clear
count_clear-zero [] fit full = refl
count_clear-zero (w ∷ ws) fit full = omega (
  arith,
  clear_bits-zero w (λ i h.
      sym (test-head w ws i (omega (arith, fit.bits 0 (omega arith))))
      ∙ full i (omega (arith, fit.bits 0 (omega arith)))),
  count_clear-zero ws (WordsFit-tail w ws fit)
      (λ q h. sym (test-tail w ws q) ∙ full (word_bits + q) (omega arith)),
)

set-clear_bit : (w : Word) (j : ℕ) → j < length w → get_or w j false ≡ false → set w j false ≡ w
set-clear_bit w j h e = ap (set w j) (sym e) ∙ set-get_or w j false h

pub unwrite :
    (bm : Bitmap) (q : ℕ)
    → WordsFit bm
    → q < max_pages bm
    → bitmap_test bm q ≡ false
    → bitmap_write (bitmap_write bm q true) q false ≡ bm
unfolding bitmap_write bitmap_test
unwrite bm q fit h e =
    ap (λ (x : Word). set (set bm i w) i (set x j false)) (get_or-set_self bm i w [] word_in)
    ∙ set-set bm i w _
    ∙ ap (set bm i) (
        set-set (word_at bm i) j true false
        ∙ set-clear_bit (word_at bm i) j (omega (arith, fit.bits i word_in)) e)
    ∙ set-get_or bm i [] word_in
  where
    i : ℕ
    i = q / word_bits

    j : ℕ
    j = q % word_bits

    w : Word
    w = set (word_at bm i) j true

    word_in : i < length bm
    word_in = omega arith
