-- ===== src/Malloc/Cut.antt =====
-- malloc takes a block whole or cuts it in two.
use native.Mathlib.Nat.{mod-eq_of_lt}
use aether_os.Prelude.{
  ℕ, ◌+◌, ◌-◌, ◌%◌, ◌≤◌, ◌<◌, ◌≡◌, sym, subst, ap, ◌∙◌, List, [], ◌∷◌, ◌++◌, arith, if◌then◌else◌,
  Bool, true, false, inl, inr, leb, add64, u64_mod, Bool-cases,
}
use aether_os.Prelude.Store.{store, store_self, store_other}
use aether_os.Malloc.{heap_sz, hdr_sz, align, Blk, Heap, put_blk, fits, take_block}
use aether_os.Malloc.Tiles.{IsSized, Tiles, Tiles-cong, Tiles-size, size-head}

-- The block is cut in two where the rest has room for a header and 16 bytes, and taken whole if not.
pub cut : Blk → ℕ → List Blk
cut b need =
    if leb (need + 32) b.total
    then record { total = need; used = true } ∷ record { total = b.total - need; used = false } ∷ []
    else record { total = b.total; used = true } ∷ []

abbrev pub IsNeed : ℕ → Type 0
IsNeed need = (32 ≤ need) × (need % 16 ≡ 0)

take_block-splits :
    (h : Heap) (p need : ℕ)
    → leb (add64 need (hdr_sz + align)) (h.blk p).total ≡ true
    → take_block h p need
      ≡ put_blk (put_blk h (p + need) ((h.blk p).total - need) false) p need true
unfolding take_block
take_block-splits h p need e = ground arith

take_block-whole :
    (h : Heap) (p need : ℕ)
    → leb (add64 need (hdr_sz + align)) (h.blk p).total ≡ false
    → take_block h p need ≡ put_blk h p (h.blk p).total true
unfolding take_block
take_block-whole h p need e = ground arith

pub cut-splits :
    (b : Blk) (need : ℕ)
    → leb (need + 32) b.total ≡ true
    → cut b need
      ≡ record { total = need; used = true } ∷ record { total = b.total - need; used = false } ∷ []
unfolding cut
cut-splits b need e = ground arith

pub cut-whole :
    (b : Blk) (need : ℕ)
    → leb (need + 32) b.total ≡ false
    → cut b need ≡ record { total = b.total; used = true } ∷ []
unfolding cut
cut-whole b need e = ground arith

-- The room for a rest is computed without a wrap-around.
room :
    (need t : ℕ) → need ≤ t → t ≤ heap_sz → leb (add64 need (hdr_sz + align)) t ≡ leb (need + 32) t
room need t a b = ap (λ (n : ℕ). leb n t) (mod-eq_of_lt {n = need + 32} {m = u64_mod} (omega arith))

put_two :
    (h : Heap) (p need : ℕ) (b : Blk) (bs : List Blk)
    → IsNeed need
    → IsSized b
    → need + 32 ≤ b.total
    → Tiles h.blk (p + b.total) bs
    → Tiles (put_blk (put_blk h (p + need) (b.total - need) false) p need true).blk p (
        record { total = need; used = true } ∷ record { total = b.total - need; used = false } ∷ bs)
put_two h p need b bs n z le t = (
  store_self _ p _,
  n,
  (
    store_other _ p (p + need) _ (omega arith) ∙ store_self h.blk (p + need) _,
    (omega arith, omega arith),
    subst
        (λ (q : ℕ).
          Tiles (put_blk (put_blk h (p + need) (b.total - need) false) p need true).blk q bs)
        end (Tiles-cong h.blk _ (p + b.total) bs kept t),
  ),
)
  where
    end : p + b.total ≡ p + need + (b.total - need)
    end = omega arith

    kept :
        (j : ℕ)
        → p + b.total ≤ j
        → (put_blk (put_blk h (p + need) (b.total - need) false) p need true).blk j ≡ h.blk j
    kept j a = store_other _ p j _ (omega arith) ∙ store_other h.blk (p + need) j _ (omega arith)

put_one :
    (h : Heap) (p : ℕ) (b : Blk) (u : Bool) (bs : List Blk)
    → IsSized b
    → Tiles h.blk (p + b.total) bs
    → Tiles (put_blk h p b.total u).blk p (record { total = b.total; used = u } ∷ bs)
put_one h p b u bs z t = (
  store_self h.blk p _,
  z,
  Tiles-cong h.blk _ (p + b.total) bs (λ j a. store_other h.blk p j _ (omega arith)) t,
)

pub fits-le : (b : Blk) (need : ℕ) → fits b need ≡ true → need ≤ b.total
fits-le b need e = ground arith

pub leb-le : (m n : ℕ) → leb m n ≡ true → m ≤ n
leb-le m n e = ground arith

-- The block at `p`, and those behind it, after it was taken.
pub take_block-Tiles :
    (h : Heap) (p need : ℕ) (b : Blk) (bs : List Blk)
    → IsNeed need
    → fits b need ≡ true
    → Tiles h.blk p (b ∷ bs)
    → Tiles (take_block h p need).blk p (cut b need ++ bs)
take_block-Tiles h p need b bs n f t = elim (Bool-cases (leb (need + 32) b.total)) [
  | inl e ↦
      subst (λ (r : Heap). Tiles r.blk p (cut b need ++ bs))
        (sym (
          take_block-splits h p need (same ∙ e)
          ∙ ap (λ (c : Blk). put_blk (put_blk h (p + need) (c.total - need) false) p need true)
              t.0))
        (rw (cut-splits b need e) (put_two h p need b bs n t.1 (leb-le (need + 32) b.total e) t.2))
  | inr e ↦
      subst (λ (r : Heap). Tiles r.blk p (cut b need ++ bs))
        (sym
          (take_block-whole h p need (same ∙ e) ∙ ap (λ (c : Blk). put_blk h p c.total true) t.0))
        (rw (cut-whole b need e) (put_one h p b true bs t.1 t.2))
]
  where
    same : leb (add64 need (hdr_sz + align)) (h.blk p).total ≡ leb (need + 32) b.total
    same =
        ap (λ (c : Blk). leb (add64 need (hdr_sz + align)) c.total) t.0
        ∙ room need b.total (fits-le b need f)
            (omega (arith, Tiles-size h.blk p (b ∷ bs) t, size-head b bs))

-- What lies before `p` is as it was.
pub take_block-before : (h : Heap) (p need j : ℕ) → j < p → (take_block h p need).blk j ≡ h.blk j
unfolding take_block store
take_block-before h p need j l = ground arith
