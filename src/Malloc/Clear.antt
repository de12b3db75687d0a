-- ===== src/Malloc/Clear.antt =====
-- calloc clears what malloc gives it.
use aether_os.Prelude.{
  ℕ, ◌+◌, ◌*◌, ◌%◌, ◌≤◌, ◌<◌, ◌≡◌, ◌⊎◌, ◌++◌, List, ◌∷◌, true, u64_mod, Option, none, some,
}
use aether_os.Malloc.{heap_sz, hdr_sz, Blk, Heap, fits}
use aether_os.Malloc.Tiles.{Tiles, size}
use aether_os.Malloc.Cut.{cut}
use aether_os.Malloc.FirstFit.{NoneFits}

-- The `n` bytes at `c` are zero; the others, and the blocks, are as they were.
pub record Cleared (h r : Heap) (c n : ℕ) : Type 0 where
  pub zeros : (j : ℕ) → c ≤ j → j < c + n → r.byte j ≡ 0
  pub others : (j : ℕ) → (j < c) ⊎ (c + n ≤ j) → r.byte j ≡ h.byte j
  pub blocks : r.blk ≡ h.blk

-- The number of bytes that calloc asks for.
abbrev pub product : ℕ → ℕ → ℕ
product nmemb size = nmemb * size % u64_mod

-- calloc of `n` bytes in an arena that the blocks `bs` tile. It returns NULL and changes nothing where
-- `n` is 0 or no free block has `need` bytes. Or it takes the first free block that has, as malloc
-- does; the block of the payload it returns holds the `n` bytes behind its header, and they are zero.
pub data Calloced (h : Heap) (n need : ℕ) (bs : List Blk) (out : Option ℕ × Heap) : Type 0 where
  zero_bytes : n ≡ 0 → out ≡ (none, h) → Calloced h n need bs out
  no_room : NoneFits need bs → out ≡ (none, h) → Calloced h n need bs out
  given_zeroed :
      (pre post : List Blk) (b : Blk)
      → bs ≡ pre ++ b ∷ post
      → NoneFits need pre
      → fits b need ≡ true
      → out.0 ≡ some (size pre + hdr_sz)
      → Tiles out.1.blk 0 (pre ++ (cut b need ++ post))
      → size pre + hdr_sz + n ≤ size pre + (out.1.blk (size pre)).total
      → size pre + (out.1.blk (size pre)).total ≤ heap_sz
      → ((j : ℕ) → size pre + hdr_sz ≤ j → j < size pre + hdr_sz + n → out.1.byte j ≡ 0)
      → ((j : ℕ) → (j < size pre + hdr_sz) ⊎ (size pre + hdr_sz + n ≤ j) → out.1.byte j ≡ h.byte j)
      → Calloced h n need bs out
