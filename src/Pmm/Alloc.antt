-- ===== src/Pmm/Alloc.antt =====
-- What `pmm_alloc_page` and `pmm_free_page` promise.
use aether_os.Prelude.{
  ℕ, ◌+◌, ◌*◌, ◌/◌, ◌%◌, ◌≤◌, ◌<◌, ◌≡◌, refl, sym, subst, ap, ap₂, ◌∙◌, ◌≢◌, ◌↔◌, ◌⊎◌, inl, inr,
  true, false, Option, none, some, arith,
}
use aether_os.Pmm.{
  Pmm, Bitmap, page_size, word_bits, max_pages, max_phys_bytes, bitmap_set, bitmap_clear,
  bitmap_test, alloc_scan, pmm_alloc_page, pmm_free_page,
}
use aether_os.Pmm.Bits.{count_clear-le}
use aether_os.Pmm.Full.{count_clear-zero, unwrite}
use aether_os.Pmm.Inv.{IsValid, Flips, marked, cleared, marked-Flips, cleared-Flips}
use aether_os.Pmm.Scan.{Scanned, found, all_used, LowestPage, alloc_scan-Scanned}

-- How pmm_alloc_page may end: with the lowest free page, which alone changes, to used; or with none,
-- when no page is free, and with nothing changed.
abbrev pub Allocates : Pmm → Option ℕ × Pmm → Type 0
Allocates p out =
    ((q : ℕ) × (out.0 ≡ some (q * page_size))
      × LowestPage p.bitmap q
      × Flips p q true out.1
      × (out.1.free + 1 ≡ p.free))
    ⊎ ((out ≡ (none, p))
        × (p.free ≡ 0)
        × ((q : ℕ) → q < max_pages p.bitmap → bitmap_test p.bitmap q ≡ true))

alloc-hit :
    (p : Pmm) (page : ℕ) (bm : Bitmap)
    → alloc_scan 0 p.bitmap ≡ some (page, bm)
    → bm ≡ bitmap_set p.bitmap page
    → pmm_alloc_page p ≡ (some (page * page_size), marked p page)
unfolding pmm_alloc_page
alloc-hit p page bm e f = rw (e, pmm_alloc_page, f)

alloc-miss : (p : Pmm) → alloc_scan 0 p.bitmap ≡ none → pmm_alloc_page p ≡ (none, p)
unfolding pmm_alloc_page
alloc-miss p e = rw (e, pmm_alloc_page)

-- The two ways in which the call can go, as equations.
alloc_cases :
    (p : Pmm)
    → IsValid p
    → ((q : ℕ) × LowestPage p.bitmap q × (pmm_alloc_page p ≡ (some (q * page_size), marked p q)))
      ⊎ ((pmm_alloc_page p ≡ (none, p))
          × ((q : ℕ) → q < max_pages p.bitmap → bitmap_test p.bitmap q ≡ true))
alloc_cases p v = scanned _ refl (alloc_scan-Scanned 0 p.bitmap v.fit)
  where
    scanned :
        (r : Option (ℕ × Bitmap))
        → alloc_scan 0 p.bitmap ≡ r
        → Scanned 0 p.bitmap r
        → ((q : ℕ) × LowestPage p.bitmap q
            × (pmm_alloc_page p ≡ (some (q * page_size), marked p q)))
          ⊎ ((pmm_alloc_page p ≡ (none, p))
              × ((q : ℕ) → q < max_pages p.bitmap → bitmap_test p.bitmap q ≡ true))
    scanned r s (found q low e) =
        let at_q : 0 * word_bits + q ≡ q = omega arith in
        inl (q, low, alloc-hit p q (bitmap_set p.bitmap q) (rw at_q at (s ∙ e)) refl)
    scanned r s (all_used full e) = inr (alloc-miss p (s ∙ e), full)

-- On a valid state pmm_alloc_page returns the address of the lowest free page, marks that page and
-- no other used, and counts it; it fails exactly when no page is free, and then changes nothing.
pub pmm_alloc_page_lem : (p : Pmm) → IsValid p → Allocates p (pmm_alloc_page p)
pmm_alloc_page_lem p v = elim (alloc_cases p v) [
  | inl (q, low, e) ↦
      let (flips, less) = marked-Flips p q v low.within low.clear in
      subst (Allocates p) (sym e) (inl (q, refl, low, flips, less))
  | inr (e, full) ↦
      subst (Allocates p) (sym e)
        (inr (refl, v.counted ∙ count_clear-zero p.bitmap v.fit full, full))
]

-- Freeing the page `q`, which is in use, makes it free, counts it, and changes no other page.
pmm_free_page_lem :
    (p : Pmm) (q : ℕ)
    → IsValid p
    → q < max_pages p.bitmap
    → bitmap_test p.bitmap q ≡ true
    → (pmm_free_page p (q * page_size) ≡ some (cleared p q))
      × Flips p q false (cleared p q)
      × ((cleared p q).free ≡ p.free + 1)
unfolding pmm_free_page
pmm_free_page_lem p q v h used =
    let (flips, more) = cleared-Flips p q v h used in
    let e : q * page_size / page_size ≡ q = omega arith in
    (rw (e, used) (ground arith), flips, more)

-- pmm_free_page panics exactly on an address that is not the start of a page, one beyond the last
-- page, and the address of a page that is free.
pub pmm_free_page_panics_iff :
    (p : Pmm) (a : ℕ)
    → (pmm_free_page p a ≡ none) ↔ (
        (a % page_size ≢ 0)
        ⊎ (max_phys_bytes p.bitmap ≤ a)
        ⊎ (bitmap_test p.bitmap (a / page_size) ≡ false))
unfolding pmm_free_page
pmm_free_page_panics_iff p a = ((λ e. ground arith), (λ h. ground arith))

restored :
    (p : Pmm) (q : ℕ)
    → IsValid p
    → LowestPage p.bitmap q
    → (marked p q).free + 1 ≡ p.free
    → cleared (marked p q) q ≡ p
unfolding bitmap_set bitmap_clear
restored p q v low less =
    ap₂ (λ (bm : Bitmap) (n : ℕ). record p { bitmap = bm; free = n })
      (unwrite p.bitmap q v.fit low.within low.clear)
      (ground (arith, v.counted, count_clear-le p.bitmap v.fit, v.addressable))

-- Freeing a page that was just allocated gives back the state before, bit for bit.
pub free-alloc :
    (p : Pmm) (a : ℕ)
    → IsValid p
    → (pmm_alloc_page p).0 ≡ some a
    → pmm_free_page (pmm_alloc_page p).1 a ≡ some p
free-alloc p a v e = elim (alloc_cases p v) [
  | inr (f, _) ↦ let g = ap (λ (o : Option ℕ × Pmm). o.0) f in absurd (ground arith)
  | inl (q, low, f) ↦
      let (flips, less) = marked-Flips p q v low.within low.clear in
      let here : bitmap_test (marked p q).bitmap q ≡ true = ground (arith, flips.bits q) in
      let at_q : a ≡ q * page_size = ground (arith, ap (λ (o : Option ℕ × Pmm). o.0) f) in
      rw (f, at_q)
        ((pmm_free_page_lem (marked p q) q flips.valid (omega (arith, low.within, flips.size))
            here).0
          ∙ ap some (restored p q v low less))
]
