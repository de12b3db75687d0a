-- ===== src/Malloc/FirstFit.antt =====
-- malloc takes the first block that is large enough and leaves the arena tiled.
use native.Mathlib.Nat.{mod-eq_of_lt}
use aether_os.Prelude.{
  ℕ, zero, suc, ◌+◌, ◌%◌, ◌≤◌, ◌<◌, ◌≡◌, refl, sym, subst, ap, ◌∙◌, List, [], ◌∷◌, ◌++◌, arith,
  true, false, length, inl, inr, Option, none, some, ltb, add64, u64_mod, Bool-cases,
}
use aether_os.Prelude.Store.{store}
use aether_os.Malloc.{
  heap_sz, hdr_sz, Blk, Heap, fits, take_block, malloc_loop, malloc, need_of, align_up, heap_fuel,
  ready_heap, heap_init,
}
use aether_os.Malloc.Tiles.{Tiles, size, Tiles-size, Tiles-count, size-head, size-nil}
use aether_os.Malloc.Cut.{cut, IsNeed, take_block-Tiles, take_block-before}

-- No block fits.
abbrev pub NoneFits : ℕ → List Blk → Type 0
NoneFits need [] = Unit {0}
NoneFits need (b ∷ bs) = (fits b need ≡ false) × NoneFits need bs

-- malloc's loop finds the first block that fits, or finds that there is none.
pub data Outcome (h : Heap) (p need : ℕ) (bs : List Blk) (out : Option ℕ × Heap) : Type 0 where
  refused : NoneFits need bs → out ≡ (none, h) → Outcome h p need bs out
  taken :
      (pre post : List Blk) (b : Blk)
      → bs ≡ pre ++ b ∷ post
      → NoneFits need pre
      → fits b need ≡ true
      → out.0 ≡ some (p + size pre + hdr_sz)
      → Tiles out.1.blk p (pre ++ (cut b need ++ post))
      → ((j : ℕ) → j < p → out.1.blk j ≡ h.blk j)
      → Outcome h p need bs out

loop_end : (fuel : ℕ) (h : Heap) (p need : ℕ) → p ≡ heap_sz → malloc_loop fuel h p need ≡ (none, h)
unfolding malloc_loop
loop_end zero h p need e = refl
loop_end (suc fuel) h p need e = ground arith

loop_hit :
    (fuel : ℕ) (h : Heap) (p need : ℕ)
    → ltb p heap_sz ≡ true
    → fits (h.blk p) need ≡ true
    → malloc_loop (suc fuel) h p need ≡ (some (p + hdr_sz), take_block h p need)
unfolding malloc_loop
loop_hit fuel h p need l f = ground arith

loop_next :
    (fuel : ℕ) (h : Heap) (p need : ℕ)
    → ltb p heap_sz ≡ true
    → fits (h.blk p) need ≡ false
    → malloc_loop (suc fuel) h p need ≡ malloc_loop fuel h (p + (h.blk p).total) need
unfolding malloc_loop
loop_next fuel h p need l f = ground arith

-- An outcome behind a block that does not fit.
Outcome-next :
    (h : Heap) (p need : ℕ) (b : Blk) (bs : List Blk) (out : Option ℕ × Heap)
    → Tiles h.blk p (b ∷ bs)
    → fits b need ≡ false
    → Outcome h (p + b.total) need bs out
    → Outcome h p need (b ∷ bs) out
unfolding size
Outcome-next h p need b bs out t f (refused n e) = refused (f, n) e
Outcome-next h p need b bs out t f (taken pre post c e n g o new before) =
    taken (b ∷ pre) post c (ap (◌∷◌ b) e) (f, n) g (o ∙ ap some (omega arith))
      (before p (omega (arith, t.1)) ∙ t.0, t.1, new) (λ j l. before j (omega arith))

pub malloc_loop-Outcome :
    (bs : List Blk) (fuel : ℕ) (h : Heap) (p need : ℕ)
    → IsNeed need
    → length bs ≤ fuel
    → Tiles h.blk p bs
    → Outcome h p need bs (malloc_loop fuel h p need)
malloc_loop-Outcome [] fuel h p need n l t = refused tt (loop_end fuel h p need t)
malloc_loop-Outcome (b ∷ bs) zero h p need n l t = absurd (omega arith)
malloc_loop-Outcome (b ∷ bs) (suc fuel) h p need n l t = elim (Bool-cases (fits b need)) [
  | inl f ↦
      subst (Outcome h p need (b ∷ bs))
        (sym (loop_hit fuel h p need within (ap (λ (c : Blk). fits c need) t.0 ∙ f)))
        (taken [] bs b refl tt f zero_pre (take_block-Tiles h p need b bs n f t)
          (take_block-before h p need))
  | inr f ↦
      subst (Outcome h p need (b ∷ bs))
        (sym (
          loop_next fuel h p need within (ap (λ (c : Blk). fits c need) t.0 ∙ f)
          ∙ ap (λ (c : Blk). malloc_loop fuel h (p + c.total) need) t.0))
        (Outcome-next h p need b bs _ t f
          (malloc_loop-Outcome bs fuel h (p + b.total) need n (omega arith) t.2))
]
  where
    within : ltb p heap_sz ≡ true
    within = ground (arith, Tiles-size h.blk p (b ∷ bs) t, size-head b bs, t.1)

    zero_pre : some (p + hdr_sz) ≡ some (p + size [] + hdr_sz)
    zero_pre = ap some (omega (arith, size-nil))

-- The size asked for, below the largest 31 numbers of 64 bits: the least multiple of 16 that holds
-- the bytes and a header.
pub need_of_lem :
    (n : ℕ)
    → 0 < n
    → n + 31 < u64_mod
    → IsNeed (need_of n) × (n + hdr_sz ≤ need_of n) × (need_of n ≤ n + hdr_sz + 15)
unfolding need_of align_up
need_of_lem n pos small = ground (arith, e1, e2)
  where
    e1 : add64 n hdr_sz ≡ n + 16
    e1 = mod-eq_of_lt {n = n + 16} {m = u64_mod} (omega arith)

    sum : n + 16 + 15 ≡ n + 31
    sum = omega arith

    e2 : add64 (n + 16) 15 ≡ n + 31
    e2 = mod-eq_of_lt {n = n + 16 + 15} {m = u64_mod} (omega arith) ∙ sum

malloc-loop :
    (h : Heap) (n : ℕ) → 0 < n → malloc h n ≡ malloc_loop heap_fuel (ready_heap h) 0 (need_of n)
unfolding malloc
malloc-loop h n pos = ground arith

enough : (f : ℕ → Blk) (bs : List Blk) → Tiles f 0 bs → length bs ≤ heap_fuel
unfolding heap_fuel
enough f bs t = omega (arith, Tiles-count f 0 bs t)

-- An arena that was never used is one free block.
pub ready_heap-Tiles :
    (h : Heap)
    → h.init ≡ false
    → Tiles (ready_heap h).blk 0 (record { total = heap_sz; used = false } ∷ [])
unfolding ready_heap heap_init store
ready_heap-Tiles h e = rw e (refl, (omega arith, refl), refl)

-- malloc of n > 0 bytes, n less than 2^64 - 31, in an arena that is tiled by the blocks `bs`. Let
-- `need` be n and the 16 bytes of a header, rounded up to a multiple of 16. Either no free block has
-- `need` bytes; then malloc returns NULL and changes nothing. Or the first that has is taken: it is
-- cut into a used block of `need` bytes and a free rest where the rest has 32 bytes or more, and is
-- used whole otherwise. The payload behind its header is returned, and the arena is tiled by the
-- other blocks, as they were, and the new ones.
pub malloc_lem :
    (h : Heap) (n : ℕ) (bs : List Blk)
    → 0 < n
    → n + 31 < u64_mod
    → Tiles (ready_heap h).blk 0 bs
    → (need : ℕ) × (need % 16 ≡ 0)
      × (n + hdr_sz ≤ need)
      × (need ≤ n + hdr_sz + 15)
      × Outcome (ready_heap h) 0 need bs (malloc h n)
malloc_lem h n bs pos small t =
    let (nd, lo, hi) = need_of_lem n pos small in
    (
      need_of n,
      nd.1,
      lo,
      hi,
      subst (Outcome (ready_heap h) 0 (need_of n) bs) (sym (malloc-loop h n pos)) (
          malloc_loop-Outcome bs heap_fuel (ready_heap h) 0 (need_of n) nd
            (enough (ready_heap h).blk bs t) t),
    )
