-- ===== src/Pmm/Tests.antt =====
-- Runs of the page allocator on small bitmaps, and its theorems at concrete states.
use aether_os.Prelude.{
  none, ◌||◌, ◌≢◌, ◌↔◌, ◌⊎◌, ◌%◌, ◌/◌, ◌≤◌, false, ℕ, ◌≡◌, refl, true, some, [], ◌∷◌, arith,
  replicate, set,
}
use aether_os.Pmm.{
  Pmm, max_phys_bytes, Word, BootInfo, page_size, word_bits, bitmap_test, pmm_alloc_page,
  pmm_free_page, alloc_scan, is_full, ctz_not, mark_range_used, mark_range_free, pmm_init_state,
}
use aether_os.Pmm.Bits.{count_clear, clear_bits}
use aether_os.Pmm.Inv.{IsValid}
use aether_os.Pmm.Alloc.{
  Allocates, pmm_alloc_page_lem, pmm_free_page_panics_iff, free-alloc, pmm_free_page_panics_iff,
}
use aether_os.Pmm.Ranges.{
  Paints, overlaps, hollow, inside, mark_range_used_lem, mark_range_free_lem,
}
use aether_os.Pmm.Boot.{pmm_init_lem}

-- One word: pages 0 and 2 to 63 are in use, page 1 is free.
abbrev hole_at_one : Word
hole_at_one = set (replicate word_bits true) 1 false

abbrev small : Pmm
small = record { bitmap = hole_at_one ∷ []; total = 64; free = 1 }

small-IsValid : IsValid small
unfolding count_clear clear_bits
small-IsValid = record {
  fit = record { bits = λ w h. let e : ◌≡◌ {A = ℕ} w 0 = omega arith in rw e };
  counted = refl;
  all_pages = refl;
  addressable = omega arith;
}

alloc_small : (pmm_alloc_page small).0 ≡ some 4096
unfolding pmm_alloc_page alloc_scan is_full ctz_not
alloc_small = refl

pmm_alloc_page_lem_example : Allocates small (pmm_alloc_page small)
pmm_alloc_page_lem_example = pmm_alloc_page_lem small small-IsValid

free-alloc_example : pmm_free_page (pmm_alloc_page small).1 4096 ≡ some small
free-alloc_example = free-alloc small 4096 small-IsValid alloc_small

-- The two bytes on either side of a page boundary.
mark_range_used_lem_example :
    Paints small
      (λ q. overlaps 8191 8193 q || hollow 8191 8193 q)
      true
      (mark_range_used small 8191 8193)
mark_range_used_lem_example = mark_range_used_lem small 8191 8193 small-IsValid

mark_range_free_lem_example :
    Paints small (inside 4097 16384) false (mark_range_free small 4097 16384)
mark_range_free_lem_example = mark_range_free_lem small 4097 16384 small-IsValid

-- Two megabytes of memory above a kernel of one.
abbrev two_megabytes : BootInfo
two_megabytes = record {
  memory_map = record { kind = 7; physical_start = 0; number_of_pages = 768 } ∷ [];
  kernel_phys_start = 0x100000;
  kernel_phys_end = 0x200000;
  page_table_root = 0x200000;
}

pmm_init_lem_example : IsValid (pmm_init_state 12 two_megabytes)
pmm_init_lem_example = (pmm_init_lem 12 two_megabytes (omega arith)).0

pmm_free_page_panics_iff_example : (pmm_free_page small 4097 ≡ none) ↔ (
    (4097 % page_size ≢ 0)
    ⊎ (max_phys_bytes small.bitmap ≤ 4097)
    ⊎ (bitmap_test small.bitmap (4097 / page_size) ≡ false))
pmm_free_page_panics_iff_example = pmm_free_page_panics_iff small 4097
