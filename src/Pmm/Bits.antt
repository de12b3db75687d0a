-- ===== src/Pmm/Bits.antt =====
-- The bitmap one bit at a time: what a write changes, and how many bits are clear.
use aether_os.Prelude.{
  ℕ, zero, suc, ◌+◌, ◌/◌, ◌%◌, ◌≤◌, ◌<◌, ◌≡◌, sym, ap, ◌∙◌, ◌≢◌, Bool, true, false, [], ◌∷◌, arith,
  length, get_or, set, length-set, get_or-set_self, get_or-set_other, ◌==◌, if◌then◌else◌,
}
use native.Mathlib.Decide.{ℕ_discrete}
use aether_os.Pmm.{Word, Bitmap, word_bits, max_pages, word_at, bitmap_write, bitmap_test}

-- Every word has 64 bits.
pub record WordsFit (bm : Bitmap) : Type 0 where
  pub bits : (w : ℕ) → w < length bm → length (word_at bm w) ≡ word_bits

unfoldable pub clear_bits : Word → ℕ
clear_bits [] = 0
clear_bits (true ∷ w) = clear_bits w
clear_bits (false ∷ w) = suc (clear_bits w)

-- How many pages are free.
unfoldable pub count_clear : Bitmap → ℕ
count_clear [] = 0
count_clear (w ∷ ws) = clear_bits w + count_clear ws

abbrev pub bit_weight : Bool → ℕ
bit_weight true = 0
bit_weight false = 1

clear_bits-set :
    (w : Word) (i : ℕ) (b : Bool)
    → i < length w
    → clear_bits (set w i b) + bit_weight (get_or w i false) ≡ clear_bits w + bit_weight b
unfolding clear_bits
clear_bits-set [] i b h = absurd (omega arith)
clear_bits-set (x ∷ w) zero b h = ground arith
clear_bits-set (x ∷ w) (suc i) b h = ground (arith, clear_bits-set w i b)

count_clear-set :
    (bm : Bitmap) (i : ℕ) (w : Word)
    → i < length bm
    → count_clear (set bm i w) + clear_bits (word_at bm i) ≡ count_clear bm + clear_bits w
unfolding count_clear
count_clear-set [] i w h = absurd (omega arith)
count_clear-set (x ∷ bm) zero w h = omega arith
count_clear-set (x ∷ bm) (suc i) w h = omega (arith, count_clear-set bm i w (omega arith))

clear_bits-le : (w : Word) → clear_bits w ≤ length w
unfolding clear_bits
clear_bits-le [] = omega arith
clear_bits-le (true ∷ w) = omega (arith, clear_bits-le w)
clear_bits-le (false ∷ w) = omega (arith, clear_bits-le w)

pub WordsFit-tail : (w : Word) (bm : Bitmap) → WordsFit (w ∷ bm) → WordsFit bm
WordsFit-tail w bm f = record { bits = λ i h. f.bits (suc i) (omega arith) }

-- There are no more free pages than pages.
pub count_clear-le : (bm : Bitmap) → WordsFit bm → count_clear bm ≤ max_pages bm
unfolding count_clear
count_clear-le [] f = omega arith
count_clear-le (w ∷ bm) f =
    omega (arith, clear_bits-le w, f.bits 0 (omega arith), count_clear-le bm (WordsFit-tail w bm f))

if_eq : (a b : ℕ) (x y : Bool) → a ≡ b → (if a == b then x else y) ≡ x
if_eq a b x y e = ground arith

if_ne : (a b : ℕ) (x y : Bool) → a ≢ b → (if a == b then x else y) ≡ y
if_ne a b x y e = ground arith

module _ (bm : Bitmap) (page : ℕ) (b : Bool) (fit : WordsFit bm) (h : page < max_pages bm) where
  word_in : page / word_bits < length bm
  word_in = omega arith

  bit_in : page % word_bits < length (word_at bm (page / word_bits))
  bit_in = omega (arith, fit.bits (page / word_bits) word_in)

  pub length-write : length (bitmap_write bm page b) ≡ length bm
  unfolding bitmap_write
  length-write = length-set bm (page / word_bits) _

  pub write-WordsFit : WordsFit (bitmap_write bm page b)
  unfolding bitmap_write
  write-WordsFit = record { bits = each }
    where
      new : Word
      new = set (word_at bm (page / word_bits)) (page % word_bits) b

      each :
          (w : ℕ)
          → w < length (set bm (page / word_bits) new)
          → length (word_at (set bm (page / word_bits) new) w) ≡ word_bits
      each w hw = elim (ℕ_discrete (page / word_bits) w) [
        | yes e ↦ rw (← e) (
            ap length (get_or-set_self bm (page / word_bits) new [] word_in)
            ∙ length-set (word_at bm (page / word_bits)) (page % word_bits) b
            ∙ fit.bits (page / word_bits) word_in)
        | no ne ↦
            ap length (get_or-set_other bm (page / word_bits) w new [] ne)
            ∙ fit.bits w (omega (arith, length-set bm (page / word_bits) new))
      ]

  -- A write changes the bit of its page and no other.
  pub test-write :
      (q : ℕ) → bitmap_test (bitmap_write bm page b) q ≡ (if page == q then b else bitmap_test bm q)
  unfolding bitmap_write bitmap_test
  test-write q = elim (ℕ_discrete (page / word_bits) (q / word_bits)) [
    | no ne ↦
        ap (λ (w : Word). get_or w (q % word_bits) false)
          (get_or-set_other bm (page / word_bits) (q / word_bits) new [] ne)
        ∙ sym (if_ne page q b _ (λ e. ne (ap (λ (k : ℕ). k / word_bits) e)))
    | yes e ↦ ap (λ (w : Word). get_or w (q % word_bits) false) (here e) ∙ same_word e
  ]
    where
      new : Word
      new = set (word_at bm (page / word_bits)) (page % word_bits) b

      here :
          page / word_bits ≡ q / word_bits
          → word_at (set bm (page / word_bits) new) (q / word_bits) ≡ new
      here e = rw (← e) (get_or-set_self bm (page / word_bits) new [] word_in)

      same_word :
          page / word_bits ≡ q / word_bits
          → get_or new (q % word_bits) false ≡ (if page == q then b else bitmap_test bm q)
      same_word e = elim (ℕ_discrete (page % word_bits) (q % word_bits)) [
        | yes f ↦ rw (← f) (
            get_or-set_self (word_at bm (page / word_bits)) (page % word_bits) b false bit_in
            ∙ sym (if_eq page q b _ (omega arith)))
        | no nf ↦
            get_or-set_other (word_at bm (page / word_bits)) (page % word_bits) (q % word_bits) b
              false nf
            ∙ ap (λ (w : ℕ). get_or (word_at bm w) (q % word_bits) false) e
            ∙ sym (if_ne page q b _ (λ g. nf (ap (λ (k : ℕ). k % word_bits) g)))
      ]

  pub count_clear-write :
      count_clear (bitmap_write bm page b) + bit_weight (bitmap_test bm page)
      ≡ count_clear bm + bit_weight b
  unfolding bitmap_write bitmap_test
  count_clear-write = omega (
    arith,
    clear_bits-set (word_at bm (page / word_bits)) (page % word_bits) b bit_in,
    count_clear-set bm (page / word_bits) (set (word_at bm (page / word_bits)) (page % word_bits) b)
        word_in,
  )
