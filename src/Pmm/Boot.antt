-- ===== src/Pmm/Boot.antt =====
-- What `pmm_init` hands to the kernel.
use native.Mathlib.Decide.{ℕ_discrete}
use aether_os.Prelude.{
  ℕ, zero, suc, ◌+◌, ◌*◌, ◌/◌, ◌%◌, ◌≤◌, ◌<◌, ◌≡◌, ◌≢◌, ◌⊎◌, refl, sym, ap, ◌∙◌, inl, inr, Bool,
  true, false, not, ◌||◌, ◌&&◌, none, some, List, [], ◌∷◌, arith, length, replicate,
  length-replicate, get_or-replicate_in, if◌then◌else◌, Bool-cases, u64_mod, add64, get_or,
}
use aether_os.Pmm.{
  Pmm, Word, page_size, word_bits, max_pages, bitmap_test, MemoryDescriptor, BootInfo, reclaimable,
  reclaim, descriptor_end, mark_range_free, pmm_init, pmm_init_state,
}
use aether_os.Pmm.Bits.{count_clear, clear_bits}
use aether_os.Pmm.Inv.{IsValid}
use aether_os.Pmm.Alloc.{pmm_alloc_page_lem}
use aether_os.Pmm.Ranges.{Paints, touches, inside, mark_range_used-Paints, mark_range_free_lem}

-- `pmm_bitmap` filled with UINT64_MAX.
full_word : Word
full_word = replicate word_bits true

fresh : ℕ → Pmm
unfolding full_word
fresh words = record { bitmap = replicate words full_word; total = words * word_bits; free = 0 }

count_clear-fresh : (words : ℕ) → count_clear (replicate words full_word) ≡ 0
unfolding count_clear clear_bits full_word
count_clear-fresh zero = refl
count_clear-fresh (suc n) = omega (arith, count_clear-fresh n)

fresh-IsValid :
    (words : ℕ) → words * word_bits * page_size + page_size ≤ u64_mod → IsValid (fresh words)
unfolding fresh
fresh-IsValid words small = record {
  fit = record {
    bits = λ w h.
        ap length (
          get_or-replicate_in words full_word [] w
            (omega (arith, length-replicate words full_word)))
        ∙ length-replicate word_bits true;
  };
  counted = sym (count_clear-fresh words);
  all_pages = omega (arith, length-replicate words full_word);
  addressable = omega (arith, length-replicate words full_word);
}

test-fresh : (words q : ℕ) → q < words * word_bits → bitmap_test (fresh words).bitmap q ≡ true
unfolding fresh bitmap_test full_word
test-fresh words q h =
    ap (λ (w : Word). get_or w (q % word_bits) false)
      (get_or-replicate_in words full_word [] (q / word_bits) (omega arith))
    ∙ get_or-replicate_in word_bits true false (q % word_bits) (omega arith)

-- One painting after another, with the same value.
Paints-or :
    (p p1 p2 : Pmm) (f g : ℕ → Bool) (b : Bool)
    → Paints p f b p1
    → Paints p1 g b p2
    → Paints p (λ q. f q || g q) b p2
Paints-or p p1 p2 f g b s t = record {
  valid = t.valid;
  size = t.size ∙ s.size;
  bits = λ q h. ground (arith, s.bits q h, t.bits q (omega (arith, s.size)));
}

Paints-nothing : (p : Pmm) (b : Bool) → IsValid p → Paints p (λ q. false) b p
Paints-nothing p b v = record { valid = v; size = refl; bits = λ q h. refl }

-- Page `q` lies as a whole in a range of the memory map that may be reclaimed.
abbrev pub in_map : List MemoryDescriptor → ℕ → Bool
in_map [] q = false
in_map (d ∷ ds) q =
    (reclaimable d.kind && inside d.physical_start (descriptor_end d) q) || in_map ds q

reclaim_one-Paints :
    (d : MemoryDescriptor) (p : Pmm)
    → IsValid p
    → Paints p
        (λ q. reclaimable d.kind && inside d.physical_start (descriptor_end d) q)
        false
        (if reclaimable d.kind then mark_range_free p d.physical_start (descriptor_end d) else p)
reclaim_one-Paints d p v = elim (Bool-cases (reclaimable d.kind)) [
  | inl r ↦ rw r (mark_range_free_lem p d.physical_start (descriptor_end d) v)
  | inr r ↦ rw r (Paints-nothing p false v)
]

reclaim-Paints :
    (ds : List MemoryDescriptor) (p : Pmm) → IsValid p → Paints p (in_map ds) false (reclaim p ds)
unfolding reclaim
reclaim-Paints [] p v = Paints-nothing p false v
reclaim-Paints (d ∷ ds) p v =
    let one = reclaim_one-Paints d p v in
    Paints-or p _ _ _ (in_map ds) false one (reclaim-Paints ds _ one.valid)

-- Page `q` has a byte in the first megabyte, in the kernel's image (which is not empty), or in its
-- root page table.
abbrev pub reserved : BootInfo → ℕ → Bool
reserved info q =
    touches 0 0x100000 q
    || touches info.kernel_phys_start info.kernel_phys_end q
    || touches info.page_table_root (add64 info.page_table_root page_size) q

painted_bit :
    (t u f m r : Bool)
    → t ≡ (if r then true else u)
    → u ≡ (if m then false else f)
    → f ≡ true
    → t ≡ (not m || r)
painted_bit t u f m r a b c = ground arith

-- The state that `pmm_init` builds, page by page.
record Painted (words : ℕ) (info : BootInfo) (p : Pmm) : Type 0 where
  valid : IsValid p
  size : length p.bitmap ≡ words
  bits :
      (q : ℕ)
      → q < words * word_bits
      → bitmap_test p.bitmap q ≡ (not (in_map info.memory_map q) || reserved info q)

init_state-Painted :
    (words : ℕ) (info : BootInfo)
    → words * word_bits * page_size + page_size ≤ u64_mod
    → Painted words info (pmm_init_state words info)
unfolding pmm_init_state fresh full_word
init_state-Painted words info small =
    let v0 = fresh-IsValid words small in
    let a = reclaim-Paints info.memory_map (fresh words) v0 in
    let b = mark_range_used-Paints (reclaim (fresh words) info.memory_map) 0 0x100000 a.valid in
    let c = mark_range_used-Paints _ info.kernel_phys_start info.kernel_phys_end b.valid in
    let d =
      mark_range_used-Paints _ info.page_table_root (add64 info.page_table_root page_size)
        c.valid in
    let all = Paints-or _ _ _ _ _ true (Paints-or _ _ _ _ _ true b c) d in
    let size : length (fresh words).bitmap ≡ words = length-replicate words full_word in
    record {
      valid = all.valid;
      size = all.size ∙ a.size ∙ size;
      bits = λ q h.
          painted_bit _ _ _ (in_map info.memory_map q) (reserved info q)
            (all.bits q (omega (arith, a.size, size))) (a.bits q (omega (arith, size)))
            (test-fresh words q h);
    }

init-panics :
    (words : ℕ) (info : BootInfo)
    → (pmm_init_state words info).free ≡ 0
    → pmm_init words info ≡ none
unfolding pmm_init
init-panics words info e = ground arith

init-returns :
    (words : ℕ) (info : BootInfo)
    → (pmm_init_state words info).free ≢ 0
    → pmm_init words info ≡ some (pmm_init_state words info)
unfolding pmm_init
init-returns words info e = ground arith

all_used-free :
    (p : Pmm)
    → IsValid p
    → p.free ≡ 0
    → (q : ℕ) → q < max_pages p.bitmap
    → bitmap_test p.bitmap q ≡ true
all_used-free p v e q h = elim (pmm_alloc_page_lem p v) [
  | inl (_, _, _, _, less) ↦ absurd (omega arith)
  | inr (_, _, full) ↦ full q h
]

-- After pmm_init a page is free exactly when it lies as a whole in a reclaimable range of the memory
-- map and no byte of it is in the first megabyte, the kernel's image, which is not empty, or the root
-- page table. The state is valid and counts every page. pmm_init hands it over with a free page, or
-- else panics, and then every page is in use.
pub pmm_init_lem :
    (words : ℕ) (info : BootInfo)
    → words * word_bits * page_size + page_size ≤ u64_mod
    → let p = pmm_init_state words info in
      IsValid p
      × (p.total ≡ words * word_bits)
      × ((q : ℕ)
          → q < words * word_bits
          → bitmap_test p.bitmap q ≡ (not (in_map info.memory_map q) || reserved info q))
      × (((pmm_init words info ≡ some p) × (0 < p.free))
          ⊎ ((pmm_init words info ≡ none)
              × ((q : ℕ) → q < words * word_bits → bitmap_test p.bitmap q ≡ true)))
pmm_init_lem words info small =
    let t = init_state-Painted words info small in
    (
      t.valid,
      omega (arith, t.valid.all_pages, t.size),
      t.bits,
      elim (ℕ_discrete (pmm_init_state words info).free 0) [
        | yes none_free ↦ inr (
          init-panics words info none_free,
          λ q h.
              all_used-free (pmm_init_state words info) t.valid none_free q (omega (arith, t.size)),
        )
        | no some_free ↦ inl (init-returns words info some_free, omega arith)
      ],
    )
