-- ===== src/Malloc/Tiles.antt =====
-- The blocks of the arena: they follow one another without a gap from its start to its end.
use aether_os.Prelude.{ℕ, ◌+◌, ◌*◌, ◌%◌, ◌≤◌, ◌≡◌, refl, ◌∙◌, List, [], ◌∷◌, arith, length}
use aether_os.Malloc.{heap_sz, Blk}

-- A block has room for its header and 16 bytes, and its size is a multiple of 16.
abbrev pub IsSized : Blk → Type 0
IsSized b = (32 ≤ b.total) × (b.total % 16 ≡ 0)

-- From offset `p` on, the headers are those of these blocks, the last of which ends with the arena.
abbrev pub Tiles : (ℕ → Blk) → ℕ → List Blk → Type 0
Tiles f p [] = p ≡ heap_sz
Tiles f p (b ∷ bs) = (f p ≡ b) × IsSized b × Tiles f (p + b.total) bs

-- The headers from `p` on decide what the blocks are.
pub Tiles-cong :
    (f g : ℕ → Blk) (p : ℕ) (bs : List Blk)
    → ((j : ℕ) → p ≤ j → g j ≡ f j)
    → Tiles f p bs
    → Tiles g p bs
Tiles-cong f g p [] same t = t
Tiles-cong f g p (b ∷ bs) same t = (
  same p (omega arith) ∙ t.0,
  t.1,
  Tiles-cong f g (p + b.total) bs (λ j le. same j (omega arith)) t.2,
)

-- The bytes that the blocks take.
unfoldable pub size : List Blk → ℕ
size [] = 0
size (b ∷ bs) = b.total + size bs

pub size-nil : size [] ≡ 0
unfolding size
size-nil = refl

pub size-head : (b : Blk) (bs : List Blk) → b.total ≤ size (b ∷ bs)
unfolding size
size-head b bs = omega arith

pub Tiles-size : (f : ℕ → Blk) (p : ℕ) (bs : List Blk) → Tiles f p bs → p + size bs ≡ heap_sz
unfolding size
Tiles-size f p [] t = omega arith
Tiles-size f p (b ∷ bs) t = omega (arith, Tiles-size f (p + b.total) bs t.2)

pub Tiles-count :
    (f : ℕ → Blk) (p : ℕ) (bs : List Blk) → Tiles f p bs → p + 32 * length bs ≤ heap_sz
Tiles-count f p [] t = omega arith
Tiles-count f p (b ∷ bs) t = omega (arith, Tiles-count f (p + b.total) bs t.2, t.1)
