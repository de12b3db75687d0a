-- ===== src/Pmm/Inv.antt =====
-- The invariant of the page allocator, and the change of one page's bit.
use aether_os.Prelude.{
  ℕ, ◌+◌, ◌≤◌, ◌<◌, ◌≡◌, Bool, true, false, arith, length, ◌==◌, if◌then◌else◌, add64, sub64,
  u64_mod,
}
use aether_os.Pmm.{
  Pmm, page_size, max_pages, max_phys_bytes, bitmap_write, bitmap_set, bitmap_clear, bitmap_test,
}
use aether_os.Pmm.Bits.{
  WordsFit, count_clear, count_clear-le, count_clear-write, length-write, write-WordsFit,
  test-write,
}

-- Every word has 64 bits, the counter says how many pages are free, and addresses do not wrap.
pub record IsValid (p : Pmm) : Type 0 where
  pub fit : WordsFit p.bitmap
  pub counted : p.free ≡ count_clear p.bitmap
  pub all_pages : p.total ≡ max_pages p.bitmap
  pub addressable : max_phys_bytes p.bitmap + page_size ≤ u64_mod

-- How `p'` comes from `p` by giving the bit of one page the value `b`.
pub record Flips (p : Pmm) (page : ℕ) (b : Bool) (p' : Pmm) : Type 0 where
  pub valid : IsValid p'
  pub size : length p'.bitmap ≡ length p.bitmap
  pub bits : (q : ℕ) → bitmap_test p'.bitmap q ≡ (if page == q then b else bitmap_test p.bitmap q)

abbrev pub marked : Pmm → ℕ → Pmm
marked p page = record p { bitmap = bitmap_set p.bitmap page; free = sub64 p.free 1 }

abbrev pub cleared : Pmm → ℕ → Pmm
cleared p page = record p { bitmap = bitmap_clear p.bitmap page; free = add64 p.free 1 }

module _ (p : Pmm) (page : ℕ) (v : IsValid p) (h : page < max_pages p.bitmap) where
  -- A free page that is marked used is one page less, and a used one that is freed one more.
  pub marked-Flips :
      bitmap_test p.bitmap page ≡ false
      → Flips p page true (marked p page) × ((marked p page).free + 1 ≡ p.free)
  unfolding bitmap_set
  marked-Flips was =
      let changed = count_clear-write p.bitmap page true v.fit h in
      let size = length-write p.bitmap page true v.fit h in
      let counted : (marked p page).free ≡ count_clear (bitmap_write p.bitmap page true) =
        ground (arith, changed, v.counted, count_clear-le p.bitmap v.fit, v.addressable) in
      (
        record {
          valid = record {
            fit = write-WordsFit p.bitmap page true v.fit h;
            counted = counted;
            all_pages = omega (arith, v.all_pages, size);
            addressable = omega (arith, v.addressable, size);
          };
          size = size;
          bits = test-write p.bitmap page true v.fit h;
        },
        ground (arith, counted, changed, v.counted),
      )

  pub cleared-Flips :
      bitmap_test p.bitmap page ≡ true
      → Flips p page false (cleared p page) × ((cleared p page).free ≡ p.free + 1)
  unfolding bitmap_clear
  cleared-Flips was =
      let changed = count_clear-write p.bitmap page false v.fit h in
      let size = length-write p.bitmap page false v.fit h in
      let fit = write-WordsFit p.bitmap page false v.fit h in
      let counted : (cleared p page).free ≡ count_clear (bitmap_write p.bitmap page false) =
        ground (arith, changed, v.counted, count_clear-le _ fit, v.addressable, size) in
      (
        record {
          valid = record {
            fit = fit;
            counted = counted;
            all_pages = omega (arith, v.all_pages, size);
            addressable = omega (arith, v.addressable, size);
          };
          size = size;
          bits = test-write p.bitmap page false v.fit h;
        },
        ground (arith, counted, changed, v.counted),
      )
