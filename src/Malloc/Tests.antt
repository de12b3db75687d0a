-- ===== src/Malloc/Tests.antt =====
-- Calls of the allocator of user/libc/src/stdlib.c on a fresh arena.
use aether_os.Prelude.{
  ℕ, ◌+◌, ◌%◌, ◌≤◌, ◌≡◌, refl, [], ◌∷◌, Bool, true, false, some, arith, ◌==◌, if◌then◌else◌,
}
use aether_os.Malloc.{Blk, Heap, malloc, free, ready_heap, hdr_sz}
use aether_os.Malloc.Tiles.{Tiles, size}
use aether_os.Malloc.FirstFit.{Outcome, malloc_lem, ready_heap-Tiles}
use aether_os.Malloc.Free.{absorb, free_lem}
use aether_os.Malloc.Overflow.{malloc_huge}
use aether_os.Malloc.RoundTrip.{free-malloc}

abbrev whole : Blk
whole = record { total = 262144; used = false }

-- The arena before the first call.
abbrev fresh : Heap
fresh = record { init = false; blk = λ p. record { total = 0; used = false }; byte = λ p. 0 }

fresh-Tiles : Tiles (ready_heap fresh).blk 0 (whole ∷ [])
fresh-Tiles = ready_heap-Tiles fresh refl

malloc_lem_example :
    (need : ℕ) × (need % 16 ≡ 0)
    × (100 + hdr_sz ≤ need)
    × (need ≤ 100 + hdr_sz + 15)
    × Outcome (ready_heap fresh) 0 need (whole ∷ []) (malloc fresh 100)
malloc_lem_example = malloc_lem fresh 100 (whole ∷ []) (omega arith) (omega arith) fresh-Tiles

free-malloc_example : Tiles (free (malloc fresh 100).1 (malloc fresh 100).0).blk 0 (whole ∷ [])
free-malloc_example = free-malloc fresh 100 (whole ∷ []) (omega arith) (omega arith) fresh-Tiles tt

abbrev block : ℕ → Bool → Blk
block t u = record { total = t; used = u }

-- A used block of 64 bytes, one of 128 bytes, a free one of 32 bytes and the rest.
abbrev headers : ℕ → Blk
headers p =
    if p == 0
    then block 64 true
    else if p == 64
    then block 128 true
    else if p == 192
    then block 32 false
    else block 261920 false

abbrev used_heap : Heap
used_heap = record { init = true; blk = headers; byte = λ p. p }

free_lem_example :
    Tiles
      (free used_heap (some (size (block 64 true ∷ []) + hdr_sz))).blk
      0
      (block 64 true ∷ absorb 128 (block 32 false ∷ block 261920 false ∷ []))
    × ((free used_heap (some (size (block 64 true ∷ []) + hdr_sz))).byte ≡ used_heap.byte)
free_lem_example =
    free_lem used_heap (block 64 true ∷ []) (block 32 false ∷ block 261920 false ∷ [])
      (block 128 true) tiled
  where
    tiled :
        Tiles used_heap.blk 0
          (block 64 true ∷ block 128 true ∷ block 32 false ∷ block 261920 false ∷ [])
    tiled = (
      refl,
      (omega arith, refl),
      (refl, (omega arith, refl), (refl, (omega arith, refl), (refl, (omega arith, refl), refl))),
    )

-- The size -1.
malloc_huge_example : malloc fresh 18446744073709551615 ≡ malloc fresh 1
malloc_huge_example = malloc_huge fresh 18446744073709551615 (omega arith) (omega arith)
