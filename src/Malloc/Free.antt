-- ===== src/Malloc/Free.antt =====
-- free gives a block back and joins it with the free blocks behind it.
use aether_os.Prelude.{
  ℕ, zero, suc, ◌+◌, ◌-◌, ◌≤◌, ◌<◌, ◌≡◌, ◌≢◌, refl, sym, subst, ap, ◌∙◌, List, [], ◌∷◌, ◌++◌, arith,
  if◌then◌else◌, true, false, length, inl, inr, some, Bool-cases,
}
use aether_os.Prelude.Store.{store_self, store_other}
use aether_os.Malloc.{heap_sz, hdr_sz, Blk, Heap, put_blk, coalesce, free, heap_fuel}
use aether_os.Malloc.Tiles.{Tiles, Tiles-cong, size, Tiles-size, Tiles-count, size-head}

abbrev pub free_blk : ℕ → Blk
free_blk t = record { total = t; used = false }

-- A free block of `t` bytes before these, joined with the free ones that it touches.
unfoldable pub absorb : ℕ → List Blk → List Blk
absorb t [] = free_blk t ∷ []
absorb t (c ∷ cs) = if c.used then free_blk t ∷ c ∷ cs else absorb (t + c.total) cs

absorb-nil : (t : ℕ) → absorb t [] ≡ free_blk t ∷ []
unfolding absorb
absorb-nil t = refl

pub absorb-used :
    (t : ℕ) (c : Blk) (cs : List Blk) → c.used ≡ true → absorb t (c ∷ cs) ≡ free_blk t ∷ c ∷ cs
unfolding absorb
absorb-used t c cs e = ground arith

pub absorb-free :
    (t : ℕ) (c : Blk) (cs : List Blk) → c.used ≡ false → absorb t (c ∷ cs) ≡ absorb (t + c.total) cs
unfolding absorb
absorb-free t c cs e = ground arith

coalesce-end : (fuel : ℕ) (h : Heap) (p : ℕ) → p + (h.blk p).total ≡ heap_sz → coalesce fuel h p ≡ h
unfolding coalesce
coalesce-end zero h p e = refl
coalesce-end (suc fuel) h p e = ground arith

coalesce-used :
    (fuel : ℕ) (h : Heap) (p : ℕ)
    → (h.blk (p + (h.blk p).total)).used ≡ true
    → coalesce (suc fuel) h p ≡ h
unfolding coalesce
coalesce-used fuel h p e = ground arith

-- The state after one block was joined.
joined : Heap → ℕ → Heap
joined h p = put_blk h p ((h.blk p).total + (h.blk (p + (h.blk p).total)).total) (h.blk p).used

coalesce-joins :
    (fuel : ℕ) (h : Heap) (p : ℕ)
    → p + (h.blk p).total < heap_sz
    → (h.blk (p + (h.blk p).total)).used ≡ false
    → coalesce (suc fuel) h p ≡ coalesce fuel (joined h p) p
unfolding coalesce joined
coalesce-joins fuel h p l e = ground arith

-- What the loop of free makes of a free block of `t` bytes at `p`.
pub record Joins (h r : Heap) (p t : ℕ) (bs : List Blk) : Type 0 where
  pub tiles : Tiles r.blk p (absorb t bs)
  pub others : (j : ℕ) → j ≢ p → r.blk j ≡ h.blk j
  pub bytes : r.byte ≡ h.byte

joined-put :
    (h : Heap) (p t : ℕ) (c : Blk) (cs : List Blk)
    → Tiles h.blk p (free_blk t ∷ c ∷ cs)
    → joined h p ≡ put_blk h p (t + c.total) false
unfolding joined
joined-put h p t c cs i =
    ap (λ (b : Blk). put_blk h p (b.total + (h.blk (p + b.total)).total) b.used) i.0
    ∙ ap (λ (d : Blk). put_blk h p (t + d.total) false) i.2.0

joined-Tiles :
    (h : Heap) (p t : ℕ) (c : Blk) (cs : List Blk)
    → Tiles h.blk p (free_blk t ∷ c ∷ cs)
    → Tiles (put_blk h p (t + c.total) false).blk p (free_blk (t + c.total) ∷ cs)
joined-Tiles h p t c cs i = (
  store_self h.blk p _,
  (omega (arith, i.1, i.2.1), omega (arith, i.1, i.2.1)),
  Tiles-cong h.blk _ (p + (t + c.total)) cs (λ j a. store_other h.blk p j _ (omega (arith, i.1)))
      (subst (λ (q : ℕ). Tiles h.blk q cs) assoc i.2.2),
)
  where
    assoc : p + t + c.total ≡ p + (t + c.total)
    assoc = omega arith

Joins-next :
    (h r : Heap) (p t : ℕ) (c : Blk) (cs : List Blk)
    → c.used ≡ false
    → Joins (put_blk h p (t + c.total) false) r p (t + c.total) cs
    → Joins h r p t (c ∷ cs)
Joins-next h r p t c cs u ih = record {
  tiles = subst (Tiles r.blk p) (sym (absorb-free t c cs u)) ih.tiles;
  others = λ j n. ih.others j n ∙ store_other h.blk p j _ n;
  bytes = ih.bytes;
}

coalesce-Joins :
    (bs : List Blk) (fuel : ℕ) (h : Heap) (p t : ℕ)
    → length bs ≤ fuel
    → Tiles h.blk p (free_blk t ∷ bs)
    → Joins h (coalesce fuel h p) p t bs
coalesce-Joins [] fuel h p t l i =
    subst (λ (r : Heap). Joins h r p t [])
      (sym (coalesce-end fuel h p (ap (λ (c : Blk). p + c.total) i.0 ∙ i.2)))
      (record {
        tiles = subst (Tiles h.blk p) (sym (absorb-nil t)) i;
        others = λ j n. refl;
        bytes = refl;
      })
coalesce-Joins (c ∷ cs) zero h p t l i = absurd (omega arith)
coalesce-Joins (c ∷ cs) (suc fuel) h p t l i = elim (Bool-cases c.used) [
  | inl u ↦
      subst (λ (r : Heap). Joins h r p t (c ∷ cs))
        (sym (coalesce-used fuel h p (ap (λ (b : Blk). b.used) behind ∙ u)))
        (record {
          tiles = subst (Tiles h.blk p) (sym (absorb-used t c cs u)) i;
          others = λ j n. refl;
          bytes = refl;
        })
  | inr u ↦
      subst (λ (r : Heap). Joins h r p t (c ∷ cs))
        (sym (
          coalesce-joins fuel h p within (ap (λ (b : Blk). b.used) behind ∙ u)
          ∙ ap (λ (g : Heap). coalesce fuel g p) (joined-put h p t c cs i)))
        (Joins-next h _ p t c cs u (
          coalesce-Joins cs fuel (put_blk h p (t + c.total) false) p (t + c.total) (omega arith)
            (joined-Tiles h p t c cs i)))
]
  where
    behind : h.blk (p + (h.blk p).total) ≡ c
    behind = ap (λ (b : Blk). h.blk (p + b.total)) i.0 ∙ i.2.0

    within : p + (h.blk p).total < heap_sz
    within = omega (
      arith,
      ap (λ (b : Blk). b.total) i.0,
      Tiles-size h.blk (p + t) (c ∷ cs) i.2,
      size-head c cs,
      i.2.1,
    )

-- The block at `p` is given back.
pub free_at : Heap → ℕ → Heap
free_at h p = coalesce heap_fuel (put_blk h p (h.blk p).total false) p

free-at : (h : Heap) (p : ℕ) → free h (some (p + hdr_sz)) ≡ free_at h p
unfolding free free_at
free-at h p = ap (λ (q : ℕ). coalesce heap_fuel (put_blk h q (h.blk q).total false) q) back
  where
    back : p + hdr_sz - hdr_sz ≡ p
    back = omega arith

freed-Tiles :
    (h : Heap) (p : ℕ) (b : Blk) (post : List Blk)
    → Tiles h.blk p (b ∷ post)
    → Tiles (put_blk h p (h.blk p).total false).blk p (free_blk b.total ∷ post)
freed-Tiles h p b post t = (
  store_self h.blk p _ ∙ ap (λ (c : Blk). free_blk c.total) t.0,
  t.1,
  Tiles-cong h.blk _ (p + b.total) post (λ j a. store_other h.blk p j _ (omega (arith, t.1))) t.2,
)

free_at-Joins :
    (h : Heap) (p : ℕ) (b : Blk) (post : List Blk)
    → Tiles h.blk p (b ∷ post)
    → Joins h (free_at h p) p b.total post
unfolding free_at heap_fuel
free_at-Joins h p b post t =
    let j =
      coalesce-Joins post heap_fuel (put_blk h p (h.blk p).total false) p b.total
        (omega (arith, Tiles-count h.blk (p + b.total) post t.2)) (freed-Tiles h p b post t) in
    record {
      tiles = j.tiles;
      others = λ k n. j.others k n ∙ store_other h.blk p k _ n;
      bytes = j.bytes;
    }

free-prefix :
    (pre : List Blk) (h : Heap) (p : ℕ) (b : Blk) (post : List Blk)
    → Tiles h.blk p (pre ++ b ∷ post)
    → Tiles (free_at h (p + size pre)).blk p (pre ++ absorb b.total post)
      × ((j : ℕ) → j < p → (free_at h (p + size pre)).blk j ≡ h.blk j)
      × ((free_at h (p + size pre)).byte ≡ h.byte)
unfolding size
free-prefix [] h p b post t =
    let j = free_at-Joins h p b post t in
    subst
      (λ (q : ℕ).
        Tiles (free_at h q).blk p (absorb b.total post)
        × ((k : ℕ) → k < p → (free_at h q).blk k ≡ h.blk k)
        × ((free_at h q).byte ≡ h.byte))
      here (j.tiles, (λ k l. j.others k (omega arith)), j.bytes)
  where
    here : p ≡ p + 0
    here = omega arith
free-prefix (c ∷ cs) h p b post t =
    let (tiles, before, bytes) = free-prefix cs h (p + c.total) b post t.2 in
    subst
      (λ (q : ℕ).
        Tiles (free_at h q).blk p (c ∷ cs ++ absorb b.total post)
        × ((k : ℕ) → k < p → (free_at h q).blk k ≡ h.blk k)
        × ((free_at h q).byte ≡ h.byte))
      there
      ((before p (omega (arith, t.1)) ∙ t.0, t.1, tiles), (λ k l. before k (omega arith)), bytes)
  where
    there : p + c.total + size cs ≡ p + (c.total + size cs)
    there = omega arith

-- free of the payload of a block in a tiled arena: the block becomes free and is joined with the
-- free blocks that follow it without a gap, up to the next used one or the end; the other blocks,
-- and the bytes of the payloads, are as they were, and the arena stays tiled.
pub free_lem :
    (h : Heap) (pre post : List Blk) (b : Blk)
    → Tiles h.blk 0 (pre ++ b ∷ post)
    → Tiles (free h (some (size pre + hdr_sz))).blk 0 (pre ++ absorb b.total post)
      × ((free h (some (size pre + hdr_sz))).byte ≡ h.byte)
free_lem h pre post b t =
    let (tiles, before, bytes) = free-prefix pre h 0 b post t in
    subst (λ (r : Heap). Tiles r.blk 0 (pre ++ absorb b.total post) × (r.byte ≡ h.byte))
      (sym (free-at h (size pre) ∙ ap (free_at h) zero_add)) (tiles, bytes)
  where
    zero_add : size pre ≡ 0 + size pre
    zero_add = omega arith
