-- ===== src/Ring.antt =====
-- Circular buffers: the bytes that stand in an array from an index on, going round at its end.
-- The pipes (kernel/proc/pipe.c), the TCP receive buffer (kernel/net/tcp.c) and the keyboard
-- buffer (kernel/drivers/ps2kbd.c) keep their contents so.
use native.Mathlib.Nat.{mod-add-mod, mod-eq_of_lt, mod-eq-sub-mod, add-zero}
use native.Mathlib.Decide.{dec_lt}
use aether_os.Prelude.{
  ℕ, zero, suc, ◌+◌, ◌-◌, ◌%◌, ◌≤◌, ◌<◌, ◌≡◌, refl, ◌≢◌, ap, ap₂, ◌∙◌, List, [], ◌∷◌, ◌++◌, arith,
  length, get_or, set, take, drop, get_or-set_self, get_or-set_other,
}

-- The index `n` places after `h`.
abbrev pub place : ℕ → ℕ → ℕ → ℕ
place cap h n = (h + n) % cap

-- The `n` bytes from index `h` on.
unfoldable pub seg : List ℕ → ℕ → ℕ → ℕ → List ℕ
seg buf cap h zero = []
seg buf cap h (suc n) = get_or buf h 0 ∷ seg buf cap (place cap h 1) n

place-lt : (cap h n : ℕ) → 0 < cap → place cap h n < cap
place-lt cap h n pos = omega arith

pub place-suc : (cap h n : ℕ) → place cap (place cap h 1) n ≡ place cap h (suc n)
place-suc cap h n = rw mod-add-mod (ap (λ (k : ℕ). k % cap) (omega arith))

-- Fewer than `cap` steps round the buffer do not lead back to the start.
place-ne : (cap h n : ℕ) → h < cap → 0 < n → n < cap → place cap h n ≢ h
place-ne cap h n hh pos hn = elim (dec_lt (h + n) cap) [
  | yes p ↦ omega (arith, mod-eq_of_lt p)
  | no p ↦ omega (
    arith,
    mod-eq-sub-mod {n = h + n} {m = cap} (omega arith),
    mod-eq_of_lt {n = h + n - cap} {m = cap} (omega arith),
  )
]

pub seg-suc :
    (buf : List ℕ) (cap h n : ℕ)
    → seg buf cap h (suc n) ≡ get_or buf h 0 ∷ seg buf cap (place cap h 1) n
unfolding seg
seg-suc buf cap h n = refl

pub length-seg : (buf : List ℕ) (cap h n : ℕ) → length (seg buf cap h n) ≡ n
unfolding seg
length-seg buf cap h zero = refl
length-seg buf cap h (suc n) = ap suc (length-seg buf cap (place cap h 1) n)

-- A byte stored just past a segment that does not fill the buffer extends it.
pub seg-store :
    (buf : List ℕ) (cap x n h i : ℕ)
    → cap ≤ length buf
    → h < cap
    → n < cap
    → i ≡ place cap h n
    → seg (set buf i x) cap h (suc n) ≡ seg buf cap h n ++ x ∷ []
unfolding seg
seg-store buf cap x zero h i fits hh hn e =
    rw (e, add-zero, mod-eq_of_lt hh, get_or-set_self buf h x 0 (omega arith))
seg-store buf cap x (suc n) h i fits hh hn e =
    ap₂ ◌∷◌ (get_or-set_other buf i h x 0 (rw e (place-ne cap h (suc n) hh (omega arith) hn)))
      (seg-store buf cap x n (place cap h 1) i fits (omega arith) (omega arith) (e ∙ sym_place))
  where
    sym_place : place cap h (suc n) ≡ place cap (place cap h 1) n
    sym_place = rw place-suc refl

-- The first bytes of a segment, and what is left behind them.
pub take-seg : (buf : List ℕ) (cap h k n : ℕ) → k ≤ n → take k (seg buf cap h n) ≡ seg buf cap h k
unfolding seg
take-seg buf cap h zero n le = refl
take-seg buf cap h (suc k) zero le = absurd (omega arith)
take-seg buf cap h (suc k) (suc n) le =
    ap (◌∷◌ (get_or buf h 0)) (take-seg buf cap (place cap h 1) k n (omega arith))

pub drop-seg :
    (buf : List ℕ) (cap h k n : ℕ)
    → h < cap
    → k ≤ n
    → drop k (seg buf cap h n) ≡ seg buf cap (place cap h k) (n - k)
unfolding seg
drop-seg buf cap h zero n hh le = ap₂ (seg buf cap) (rw (add-zero, mod-eq_of_lt hh)) (omega arith)
drop-seg buf cap h (suc k) zero hh le = absurd (omega arith)
drop-seg buf cap h (suc k) (suc n) hh le =
    drop-seg buf cap (place cap h 1) k n (omega arith) (omega arith)
    ∙ ap₂ (seg buf cap) (place-suc cap h k) (omega arith)
