-- ===== src/Pmm.antt =====
-- kernel/mem/pmm.c and pmm.h: the physical page allocator. A set bit of the bitmap stands for a page
-- in use. A 64-bit word is the list of its bits, the lowest first, so that `w | 1 << b` is a `set`
-- at `b`, `w == UINT64_MAX` says that all bits are set, and `ctz(~w)` is the index of the first
-- clear one. The number of words is the length of the bitmap, PMM_BITMAP_WORDS in the source.
-- Each operation holds `pmm_lock` over all of its accesses, so it is one step.
pub mod Bits
mod Scan
mod Full
pub mod Inv
pub mod Alloc
pub mod Ranges
pub mod Boot
mod Tests
use aether_os.Prelude.{
  ℕ, zero, suc, ◌+◌, ◌-◌, ◌*◌, ◌/◌, ◌%◌, ◌^◌, Bool, true, false, not, ◌&&◌, ◌||◌, Option, none,
  some, List, [], ◌∷◌, ltb, leb, ◌==◌, if◌then◌else◌, length, get_or, set, replicate, u64_mod,
  add64, sub64,
}

abbrev pub page_size : ℕ
page_size = 4096

abbrev pub word_bits : ℕ
word_bits = 64

abbrev pub Word : Type 0
Word = List Bool

abbrev pub Bitmap : Type 0
Bitmap = List Word

-- The state of the allocator: `pmm_bitmap`, `pmm_total`, `pmm_free`.
pub record Pmm : Type 0 where
  pub bitmap : Bitmap
  pub total : ℕ
  pub free : ℕ

-- PMM_MAX_PAGES and PMM_MAX_PHYS_BYTES, from the number of bitmap words.
abbrev pub max_pages : Bitmap → ℕ
max_pages bm = length bm * word_bits

abbrev pub max_phys_bytes : Bitmap → ℕ
max_phys_bytes bm = max_pages bm * page_size

-- `pmm_bitmap[word]` for a word in range.
abbrev pub word_at : Bitmap → ℕ → Word
word_at bm w = get_or bm w []

pub bitmap_write : Bitmap → ℕ → Bool → Bitmap
bitmap_write bm page b =
    set bm (page / word_bits) (set (word_at bm (page / word_bits)) (page % word_bits) b)

pub bitmap_set : Bitmap → ℕ → Bitmap
bitmap_set bm page = bitmap_write bm page true

pub bitmap_clear : Bitmap → ℕ → Bitmap
bitmap_clear bm page = bitmap_write bm page false

pub bitmap_test : Bitmap → ℕ → Bool
bitmap_test bm page = get_or (word_at bm (page / word_bits)) (page % word_bits) false

-- The body of the loop of `mark_range_free`, and the loop over `n` pages from `page` on.
pub free_one : Pmm → ℕ → Pmm
free_one p page =
    if bitmap_test p.bitmap page
    then record p { bitmap = bitmap_clear p.bitmap page; free = add64 p.free 1 }
    else p

pub free_loop : ℕ → ℕ → Pmm → Pmm
free_loop zero page p = p
free_loop (suc n) page p = free_loop n (page + 1) (free_one p page)

pub use_one : Pmm → ℕ → Pmm
use_one p page =
    if not (bitmap_test p.bitmap page)
    then record p { bitmap = bitmap_set p.bitmap page; free = sub64 p.free 1 }
    else p

pub use_loop : ℕ → ℕ → Pmm → Pmm
use_loop zero page p = p
use_loop (suc n) page p = use_loop n (page + 1) (use_one p page)

-- `if (end > PMM_MAX_PHYS_BYTES) end = PMM_MAX_PHYS_BYTES;`
abbrev pub clip : Bitmap → ℕ → ℕ
clip bm end = if ltb (max_phys_bytes bm) end then max_phys_bytes bm else end

-- Free pages are rounded inwards, used ones outwards.
pub mark_range_free : Pmm → ℕ → ℕ → Pmm
mark_range_free p start end =
    if leb (max_phys_bytes p.bitmap) start
    then p
    else (let first_page = add64 start (page_size - 1) / page_size in
        let last_page = clip p.bitmap end / page_size in
        free_loop (last_page - first_page) first_page p)

pub mark_range_used : Pmm → ℕ → ℕ → Pmm
mark_range_used p start end =
    if leb (max_phys_bytes p.bitmap) start
    then p
    else (let first_page = start / page_size in
        let last_page = add64 (clip p.bitmap end) (page_size - 1) / page_size in
        use_loop (last_page - first_page) first_page p)

-- The `type` codes of a memory descriptor that `pmm_init` reclaims.
abbrev pub efi_loader_code : ℕ
efi_loader_code = 1

abbrev pub efi_boot_services_code : ℕ
efi_boot_services_code = 3

abbrev pub efi_boot_services_data : ℕ
efi_boot_services_data = 4

abbrev pub efi_conventional_memory : ℕ
efi_conventional_memory = 7

pub record MemoryDescriptor : Type 0 where
  pub kind : ℕ
  pub physical_start : ℕ
  pub number_of_pages : ℕ

-- What `pmm_init` reads of `os_boot_info`. The walk over the memory map in steps of
-- `memory_descriptor_size` bytes is the list of the descriptors that it meets.
pub record BootInfo : Type 0 where
  pub memory_map : List MemoryDescriptor
  pub kernel_phys_start : ℕ
  pub kernel_phys_end : ℕ
  pub page_table_root : ℕ

pub reclaimable : ℕ → Bool
reclaimable kind =
    kind == efi_conventional_memory
    || (kind == efi_loader_code
        || (kind == efi_boot_services_code || kind == efi_boot_services_data))

abbrev pub descriptor_end : MemoryDescriptor → ℕ
descriptor_end d = add64 d.physical_start (d.number_of_pages * page_size % u64_mod)

pub reclaim : Pmm → List MemoryDescriptor → Pmm
reclaim p [] = p
reclaim p (d ∷ ds) =
    let p' =
      if reclaimable d.kind then mark_range_free p d.physical_start (descriptor_end d) else p in
    reclaim p' ds

-- `pmm_init` for a bitmap of `words` words; `none` is the panic for want of a free page.
pub pmm_init_state : ℕ → BootInfo → Pmm
pmm_init_state words info =
    let fresh : Pmm = record {
      bitmap = replicate words (replicate word_bits true);
      total = words * word_bits;
      free = 0;
    } in
    let p1 = reclaim fresh info.memory_map in
    let p2 = mark_range_used p1 0 0x100000 in
    let p3 = mark_range_used p2 info.kernel_phys_start info.kernel_phys_end in
    mark_range_used p3 info.page_table_root (add64 info.page_table_root page_size)

pub pmm_init : ℕ → BootInfo → Option Pmm
pmm_init words info = let p = pmm_init_state words info in if p.free == 0 then none else some p

-- `pmm_bitmap[word] == UINT64_MAX`
pub is_full : Word → Bool
is_full [] = true
is_full (b ∷ w) = b && is_full w

-- `__builtin_ctzll(~w)`, called only for a word that is not full.
pub ctz_not : Word → ℕ
ctz_not [] = 0
ctz_not (b ∷ w) = if b then suc (ctz_not w) else 0

-- The loop of `pmm_alloc_page` from word `word` on: the page, and the bitmap with its bit set.
pub alloc_scan : ℕ → Bitmap → Option (ℕ × Bitmap)
alloc_scan word [] = none
alloc_scan word (w ∷ ws) = elim (is_full w) [
  | true ↦ elim (alloc_scan (word + 1) ws) [ none ↦ none | some (page, ws') ↦ some (page, w ∷ ws') ]
  | false ↦ some (word * word_bits + ctz_not w, set w (ctz_not w) true ∷ ws)
]

-- `none` is PMM_ALLOC_FAILED; otherwise the physical address of the page.
pub pmm_alloc_page : Pmm → Option ℕ × Pmm
pmm_alloc_page p = elim (alloc_scan 0 p.bitmap) [
  | none ↦ (none, p)
  | some (page, bm) ↦ (some (page * page_size), record p { bitmap = bm; free = sub64 p.free 1 })
]

-- `none` is a panic: an address that is no page of the allocator, or a page that is free.
pub pmm_free_page : Pmm → ℕ → Option Pmm
pmm_free_page p physical_address =
    if not (physical_address % page_size == 0) || leb (max_phys_bytes p.bitmap) physical_address
    then none
    else (let page = physical_address / page_size in
        if not (bitmap_test p.bitmap page)
        then none
        else some (record p { bitmap = bitmap_clear p.bitmap page; free = add64 p.free 1 }))

pub pmm_total_pages : Pmm → ℕ
pmm_total_pages p = p.total

pub pmm_free_pages : Pmm → ℕ
pmm_free_pages p = p.free

pub pmm_address_in_range : Pmm → ℕ → Bool
pmm_address_in_range p physical_address = ltb physical_address (max_phys_bytes p.bitmap)
