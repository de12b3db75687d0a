-- ===== src/Malloc/RoundTrip.antt =====
-- Giving back what malloc has just given out.
use aether_os.Prelude.{
  ℕ, ◌+◌, ◌-◌, ◌≤◌, ◌<◌, ◌≡◌, refl, sym, subst, ap, ◌∙◌, List, [], ◌∷◌, ◌++◌, arith, Bool, true,
  false, inl, inr, Option, some, leb, Bool-cases, u64_mod,
}
use aether_os.Malloc.{hdr_sz, Blk, Heap, malloc, free, fits, ready_heap}
use aether_os.Malloc.Tiles.{Tiles, size}
use aether_os.Malloc.Cut.{cut, cut-splits, cut-whole}
use aether_os.Malloc.FirstFit.{Outcome, refused, taken, malloc_lem}
use aether_os.Malloc.Free.{absorb, absorb-used, absorb-free, free_lem}

-- No two neighbours are free.
abbrev pub IsJoined : List Blk → Type 0
IsJoined [] = Unit {0}
IsJoined (b ∷ []) = Unit {0}
IsJoined (b ∷ c ∷ bs) = (b.used ≡ false → c.used ≡ true) × IsJoined (c ∷ bs)

absorb-IsJoined :
    (b : Blk) (post : List Blk)
    → b.used ≡ false
    → IsJoined (b ∷ post)
    → absorb b.total post ≡ b ∷ post
unfolding absorb
absorb-IsJoined b [] u j = ap (λ (c : Bool). record { total = b.total; used = c } ∷ []) (sym u)
absorb-IsJoined b (c ∷ cs) u j =
    absorb-used b.total c cs (j.0 u)
    ∙ ap (λ (v : Bool). record { total = b.total; used = v } ∷ c ∷ cs) (sym u)

IsJoined-behind : (pre : List Blk) (bs : List Blk) → IsJoined (pre ++ bs) → IsJoined bs
IsJoined-behind [] bs j = j
IsJoined-behind (b ∷ []) [] j = tt
IsJoined-behind (b ∷ []) (c ∷ cs) j = j.1
IsJoined-behind (b ∷ c ∷ cs) bs j = IsJoined-behind (c ∷ cs) bs j.1

-- A block that was cut is joined again when it is given back.
cut-absorb :
    (h : Heap) (pre post : List Blk) (b : Blk) (need : ℕ)
    → need ≤ b.total
    → Tiles h.blk 0 (pre ++ (cut b need ++ post))
    → Tiles (free h (some (size pre + hdr_sz))).blk 0 (pre ++ absorb b.total post)
cut-absorb h pre post b need le t = elim (Bool-cases (leb (need + 32) b.total)) [
  | inl e ↦
      let rest : Blk = record { total = b.total - need; used = false } in
      let two =
        free_lem h pre (rest ∷ post) (record { total = need; used = true })
          (subst (λ (xs : List Blk). Tiles h.blk 0 (pre ++ (xs ++ post))) (cut-splits b need e)
            t) in
      subst (λ (xs : List Blk). Tiles (free h (some (size pre + hdr_sz))).blk 0 (pre ++ xs))
        (absorb-free need rest post refl ∙ ap (λ (n : ℕ). absorb n post) whole) two.0
  | inr e ↦
      (free_lem h pre post (record { total = b.total; used = true })
        (subst (λ (xs : List Blk). Tiles h.blk 0 (pre ++ (xs ++ post))) (cut-whole b need e) t)).0
]
  where
    whole : need + (b.total - need) ≡ b.total
    whole = omega arith

fits-free : (b : Blk) (need : ℕ) → fits b need ≡ true → (b.used ≡ false) × (need ≤ b.total)
fits-free b need e = (ground arith, ground arith)

-- In an arena in which no two neighbouring blocks are free, malloc of n > 0 bytes, n less than
-- 2^64 - 31, followed by free of the result, gives back exactly the blocks that were there before,
-- also where malloc has cut one in two and where it has returned NULL.
pub free-malloc :
    (h : Heap) (n : ℕ) (bs : List Blk)
    → 0 < n
    → n + 31 < u64_mod
    → Tiles (ready_heap h).blk 0 bs
    → IsJoined bs
    → Tiles (free (malloc h n).1 (malloc h n).0).blk 0 bs
unfolding free
free-malloc h n bs pos small t j =
    let (need, m, lo, hi, out) = malloc_lem h n bs pos small t in back need (malloc h n) out
  where
    zero_add : (xs : List Blk) → 0 + size xs ≡ size xs
    zero_add xs = omega arith

    back :
        (need : ℕ) (out : Option ℕ × Heap)
        → Outcome (ready_heap h) 0 need bs out
        → Tiles (free out.1 out.0).blk 0 bs
    back need out (refused x e) =
        subst (λ (o : Option ℕ × Heap). Tiles (free o.1 o.0).blk 0 bs) (sym e) t
    back need out (taken pre post b e x f p new before) =
        let (u, le) = fits-free b need f in
        let jb = IsJoined-behind pre (b ∷ post) (subst IsJoined e j) in
        subst (λ (o : Option ℕ). Tiles (free out.1 o).blk 0 bs)
          (sym (p ∙ ap (λ (k : ℕ). some (k + hdr_sz)) (zero_add pre)))
          (subst (Tiles (free out.1 (some (size pre + hdr_sz))).blk 0)
            (ap (λ (xs : List Blk). pre ++ xs) (absorb-IsJoined b post u jb) ∙ sym e)
            (cut-absorb out.1 pre post b need le new))
