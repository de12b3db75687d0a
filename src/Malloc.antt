-- ===== src/Malloc.antt =====
-- user/libc/src/stdlib.c: the C library's allocator over a static arena. An address is an offset
-- into `s_heap`. A block's header, which stands in the arena's bytes before the block's payload, is
-- read and written here as a whole, by the offset of the block.
pub mod Tiles
pub mod Cut
pub mod FirstFit
pub mod Free
pub mod RoundTrip
pub mod Overflow
pub mod Clear
mod Tests
use aether_os.Prelude.Store.{store}
use aether_os.Prelude.{
  ℕ, zero, suc, ◌+◌, ◌-◌, ◌*◌, ◌%◌, Bool, true, false, not, ◌&&◌, Option, none, some, ltb, leb,
  ◌==◌, if◌then◌else◌, add64, u64_mod,
}

abbrev pub heap_sz : ℕ
heap_sz = 262144

abbrev pub hdr_sz : ℕ
hdr_sz = 16

abbrev pub align : ℕ
align = 16

-- `blk_t`; `used` is 0 or 1.
pub record Blk : Type 0 where
  pub total : ℕ
  pub used : Bool

-- `s_init` and `s_heap`.
pub record Heap : Type 0 where
  pub init : Bool
  pub blk : ℕ → Blk
  pub byte : ℕ → ℕ

abbrev pub put_blk : Heap → ℕ → ℕ → Bool → Heap
put_blk h p total used = record h { blk = store h.blk p (record { total = total; used = used }) }

pub heap_init : Heap → Heap
heap_init h = record (put_blk h 0 heap_sz false) { init = true }

-- `ALIGN_UP`
pub align_up : ℕ → ℕ
align_up n = let x = add64 n (align - 1) in x - x % align

-- The size of the block for `n` bytes.
pub need_of : ℕ → ℕ
need_of n =
    let need = align_up (add64 n hdr_sz) in
    if ltb need (hdr_sz + align) then hdr_sz + align else need

abbrev pub fits : Blk → ℕ → Bool
fits b need = not b.used && leb need b.total

-- The block at `p`, which fits, is split if there is room for a second block, and marked used.
pub take_block : Heap → ℕ → ℕ → Heap
take_block h p need =
    let total = (h.blk p).total in
    if leb (add64 need (hdr_sz + align)) total
    then put_blk (put_blk h (p + need) (total - need) false) p need true
    else put_blk h p total true

-- The loop of `malloc`. A round passes a block, so as many rounds as there are blocks suffice.
pub malloc_loop : ℕ → Heap → ℕ → ℕ → Option ℕ × Heap
malloc_loop zero h p need = (none, h)
malloc_loop (suc fuel) h p need =
    let rest = malloc_loop fuel h (p + (h.blk p).total) need in
    if ltb p heap_sz
    then if fits (h.blk p) need then (some (p + hdr_sz), take_block h p need) else rest
    else (none, h)

-- The rounds of the loops: no block is smaller than 16 bytes.
pub heap_fuel : ℕ
heap_fuel = 16384

pub ready_heap : Heap → Heap
ready_heap h = if h.init then h else heap_init h

-- `malloc`: the offset of the payload, none for NULL.
pub malloc : Heap → ℕ → Option ℕ × Heap
malloc h n =
    if n == 0 then (none, ready_heap h) else malloc_loop heap_fuel (ready_heap h) 0 (need_of n)

-- The loop of `free`.
pub coalesce : ℕ → Heap → ℕ → Heap
coalesce zero h p = h
coalesce (suc fuel) h p =
    let b = h.blk p in
    let next = p + b.total in
    let rest = coalesce fuel (put_blk h p (b.total + (h.blk next).total) b.used) p in
    if ltb next heap_sz then if (h.blk next).used then h else rest else h

pub free : Heap → Option ℕ → Heap
free h none = h
free h (some ptr) = let p = ptr - hdr_sz in coalesce heap_fuel (put_blk h p (h.blk p).total false) p

-- `for (i = 0; i < n; i++) c[i] = 0;`, for bytes that are in a payload: what the loop does to a header
-- that it runs into is not modelled.
pub clear : ℕ → Heap → ℕ → Heap
clear zero h c = h
clear (suc n) h c = let h1 = clear n h c in record h1 { byte = store h1.byte (c + n) 0 }

-- `for (i = 0; i < cur; i++) dst[i] = src[i];`
pub copy : ℕ → Heap → ℕ → ℕ → Heap
copy zero h dst src = h
copy (suc n) h dst src =
    let h1 = copy n h dst src in record h1 { byte = store h1.byte (dst + n) (h1.byte (src + n)) }

abbrev zeroed : ℕ → Option ℕ × Heap → Option ℕ × Heap
zeroed n (none, h) = (none, h)
zeroed n (some p, h) = (some p, clear n h p)

pub calloc : Heap → ℕ → ℕ → Option ℕ × Heap
calloc h nmemb size = let n = nmemb * size % u64_mod in zeroed n (malloc h n)

-- `np`, from the call of `malloc` on.
abbrev moved : ℕ → ℕ → Option ℕ × Heap → Option ℕ × Heap
moved ptr cur (none, h) = (none, h)
moved ptr cur (some np, h) = (some np, free (copy cur h np ptr) (some ptr))

pub realloc : Heap → Option ℕ → ℕ → Option ℕ × Heap
realloc h none size = malloc h size
realloc h (some ptr) size =
    let cur = (h.blk (ptr - hdr_sz)).total - hdr_sz in
    if size == 0
    then (none, free h (some ptr))
    else if leb size cur
    then (some ptr, h)
    else moved ptr cur (malloc h size)
