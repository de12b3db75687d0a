-- ===== src/Pmm/Ranges.antt =====
-- What `mark_range_free` and `mark_range_used` do to every page.
use aether_os.Prelude.{
  ℕ, zero, suc, ◌+◌, ◌-◌, ◌*◌, ◌/◌, ◌≤◌, ◌<◌, ◌≡◌, refl, ◌∙◌, inl, inr, Bool, true, false, ◌&&◌,
  ◌||◌, arith, length, ltb, leb, ◌==◌, ==_iff, if◌then◌else◌, Bool-cases, add64,
}
use aether_os.Pmm.{
  Pmm, page_size, max_pages, max_phys_bytes, bitmap_test, free_one, free_loop, use_one, use_loop,
  mark_range_free, mark_range_used,
}
use aether_os.Pmm.Inv.{IsValid, Flips, marked-Flips, cleared-Flips}

-- How `p'` comes from `p` by giving the pages that a test picks the value `b`.
pub record Paints (p : Pmm) (pick : ℕ → Bool) (b : Bool) (p' : Pmm) : Type 0 where
  pub valid : IsValid p'
  pub size : length p'.bitmap ≡ length p.bitmap
  pub bits :
      (q : ℕ)
      → q < max_pages p.bitmap
      → bitmap_test p'.bitmap q ≡ (if pick q then b else bitmap_test p.bitmap q)

-- A page that has the value already.
unchanged-Paints :
    (p : Pmm) (page : ℕ) (b : Bool)
    → IsValid p
    → bitmap_test p.bitmap page ≡ b
    → Paints p (λ q. page == q) b p
unchanged-Paints p page b v e = record { valid = v; size = refl; bits = λ q hq. same q }
  where
    same : (q : ℕ) → bitmap_test p.bitmap q ≡ (if page == q then b else bitmap_test p.bitmap q)
    same q = elim (Bool-cases (page == q)) [
      | inl hit ↦ rw (hit, ← (==_iff page q).0 hit) e
      | inr miss ↦ rw miss
    ]

Flips-Paints :
    (p : Pmm) (page : ℕ) (b : Bool) (p' : Pmm) → Flips p page b p' → Paints p (λ q. page == q) b p'
Flips-Paints p page b p' f = record { valid = f.valid; size = f.size; bits = λ q hq. f.bits q }

abbrev pub between : ℕ → ℕ → ℕ → Bool
between lo hi q = leb lo q && ltb q hi

Paints-none : (p : Pmm) (page : ℕ) (b : Bool) → IsValid p → Paints p (between page (page + 0)) b p
Paints-none p page b v = record { valid = v; size = refl; bits = λ q hq. ground arith }

Paints-first :
    (p p1 p2 : Pmm) (n page : ℕ) (b : Bool)
    → Paints p (λ q. page == q) b p1
    → Paints p1 (between (page + 1) (page + 1 + n)) b p2
    → Paints p (between page (page + suc n)) b p2
Paints-first p p1 p2 n page b one rest = record {
  valid = rest.valid;
  size = rest.size ∙ one.size;
  bits = λ q hq. ground (arith, one.bits q hq, rest.bits q (omega (arith, one.size)));
}

use_one-Paints :
    (p : Pmm) (page : ℕ)
    → IsValid p
    → page < max_pages p.bitmap
    → Paints p (λ q. page == q) true (use_one p page)
unfolding use_one
use_one-Paints p page v h = elim (Bool-cases (bitmap_test p.bitmap page)) [
  | inl used ↦ rw (used, use_one) (unchanged-Paints p page true v used)
  | inr clear ↦ rw (clear, use_one) (Flips-Paints p page true _ (marked-Flips p page v h clear).0)
]

free_one-Paints :
    (p : Pmm) (page : ℕ)
    → IsValid p
    → page < max_pages p.bitmap
    → Paints p (λ q. page == q) false (free_one p page)
unfolding free_one
free_one-Paints p page v h = elim (Bool-cases (bitmap_test p.bitmap page)) [
  | inl used ↦ rw (used, free_one) (Flips-Paints p page false _ (cleared-Flips p page v h used).0)
  | inr clear ↦ rw (clear, free_one) (unchanged-Paints p page false v clear)
]

use_loop-Paints :
    (n page : ℕ) (p : Pmm)
    → IsValid p
    → page + n ≤ max_pages p.bitmap
    → Paints p (between page (page + n)) true (use_loop n page p)
unfolding use_loop
use_loop-Paints zero page p v h = Paints-none p page true v
use_loop-Paints (suc n) page p v h =
    let one = use_one-Paints p page v (omega arith) in
    Paints-first p (use_one p page) _ n page true one
      (use_loop-Paints n (page + 1) (use_one p page) one.valid (omega (arith, one.size)))

free_loop-Paints :
    (n page : ℕ) (p : Pmm)
    → IsValid p
    → page + n ≤ max_pages p.bitmap
    → Paints p (between page (page + n)) false (free_loop n page p)
unfolding free_loop
free_loop-Paints zero page p v h = Paints-none p page false v
free_loop-Paints (suc n) page p v h =
    let one = free_one-Paints p page v (omega arith) in
    Paints-first p (free_one p page) _ n page false one
      (free_loop-Paints n (page + 1) (free_one p page) one.valid (omega (arith, one.size)))

-- Page `q` ends behind `start` and begins before `end`. Where the range is not empty, some byte of the
-- page is in it then.
abbrev pub touches : ℕ → ℕ → ℕ → Bool
touches start end q = ltb start ((q + 1) * page_size) && ltb (q * page_size) end

-- The byte `a` is in the range, and in page `q`.
pub record Shared (start end q : ℕ) : Type 0 where
  pub a : ℕ
  pub in_range : (start ≤ a) × (a < end)
  pub in_page : a / page_size ≡ q

-- Page `q` has a byte in the range from `start` up to `end`: the larger of the two first addresses is
-- below the smaller of the two ends.
abbrev pub overlaps : ℕ → ℕ → ℕ → Bool
overlaps start end q = ltb start end && (ltb start ((q + 1) * page_size) && ltb (q * page_size) end)

-- The range is empty, and page `q` is the one that `start` lies in and begins before `end`.
abbrev pub hollow : ℕ → ℕ → ℕ → Bool
hollow start end q = leb end start && (q == start / page_size && ltb (q * page_size) end)

-- The range holds page `q` as a whole.
abbrev pub inside : ℕ → ℕ → ℕ → Bool
inside start end q = leb start (q * page_size) && leb ((q + 1) * page_size) end

Paints-pick :
    (p p' : Pmm) (f g : ℕ → Bool) (b : Bool)
    → ((q : ℕ) → q < max_pages p.bitmap → f q ≡ g q)
    → Paints p f b p'
    → Paints p g b p'
Paints-pick p p' f g b same t = record {
  valid = t.valid;
  size = t.size;
  bits = λ q hq. rw (same q hq) at (t.bits q hq);
}

unpicked-Paints :
    (p : Pmm) (f : ℕ → Bool) (b : Bool)
    → IsValid p
    → ((q : ℕ) → q < max_pages p.bitmap → f q ≡ false)
    → Paints p f b p
unpicked-Paints p f b v none_picked = record {
  valid = v;
  size = refl;
  bits = λ q hq. rw (none_picked q hq);
}

-- The first page is rounded down and the page behind the last is rounded up; what lies beyond the
-- last page of the bitmap is left out.
pub mark_range_used-Paints :
    (p : Pmm) (start end : ℕ)
    → IsValid p
    → Paints p (touches start end) true (mark_range_used p start end)
unfolding mark_range_used
mark_range_used-Paints p start end v = elim (Bool-cases (leb (max_phys_bytes p.bitmap) start)) [
  | inl beyond ↦
      rw (beyond, mark_range_used)
        (unpicked-Paints p (touches start end) true v (λ q hq. ground arith))
  | inr within ↦
      rw (within, mark_range_used)
        (Paints-pick p _ _ (touches start end) true (λ q hq. ground (arith, v.addressable))
          (use_loop-Paints _ (start / page_size) p v (ground (arith, v.addressable))))
]

-- A page has a byte in a range exactly when the test says so.
overlaps_iff :
    (start end q : ℕ)
    → (overlaps start end q ≡ true → Shared start end q)
      × (Shared start end q → overlaps start end q ≡ true)
overlaps_iff start end q = (shared, λ s. ground (arith, s.in_range, s.in_page))
  where
    shared : overlaps start end q ≡ true → Shared start end q
    shared e = elim (Bool-cases (leb start (q * page_size))) [
      | inl before ↦ record {
        a = q * page_size;
        in_range = (ground arith, ground arith);
        in_page = omega arith;
      }
      | inr behind ↦ record {
        a = start;
        in_range = (omega arith, ground arith);
        in_page = ground arith;
      }
    ]

picks_same : (start end q : ℕ) → touches start end q ≡ (overlaps start end q || hollow start end q)
picks_same start end q = ground arith

-- mark_range_used makes used every page of the bitmap that has a byte in the range. Where the range
-- is empty, it makes used the page that `start` lies in, if that page begins before `end`. It changes
-- no other page.
pub mark_range_used_lem :
    (p : Pmm) (start end : ℕ)
    → IsValid p
    → Paints p (λ q. overlaps start end q || hollow start end q) true (mark_range_used p start end)
mark_range_used_lem p start end v =
    Paints-pick p _ _ (λ q. overlaps start end q || hollow start end q) true
      (λ q hq. picks_same start end q) (mark_range_used-Paints p start end v)

-- mark_range_free makes free every page that lies in the range as a whole, and changes no other
-- page: a range is rounded inwards.
pub mark_range_free_lem :
    (p : Pmm) (start end : ℕ)
    → IsValid p
    → Paints p (inside start end) false (mark_range_free p start end)
unfolding mark_range_free
mark_range_free_lem p start end v = elim (Bool-cases (leb (max_phys_bytes p.bitmap) start)) [
  | inl beyond ↦
      rw (beyond, mark_range_free)
        (unpicked-Paints p (inside start end) false v (λ q hq. ground arith))
  | inr within ↦
      rw (within, mark_range_free)
        (Paints-pick p _ _ (inside start end) false (λ q hq. ground (arith, v.addressable))
          (free_loop-Paints _ (add64 start (page_size - 1) / page_size) p v
            (ground (arith, v.addressable))))
]
