-- ===== src/Vfs/Path/Names.antt =====
-- Paths as lists of names: what the path strings of kernel/fs/vfs.c stand for.
use aether_os.Prelude.{
  ℕ, ◌≡◌, ◌≢◌, refl, sym, ap, ◌∙◌, Bool, true, false, ◌||◌, inl, inr, List, [], ◌∷◌, ◌++◌, arith,
  ◌==◌, if◌then◌else◌, Bool-cases,
}
use aether_os.Vfs.Path.{slash, skip_slashes, component, after, is_dot, is_dotdot}

-- No byte is a slash.
abbrev pub NoSlash : List ℕ → Type 0
NoSlash [] = Unit {0}
NoSlash (c ∷ p) = (c ≢ slash) × NoSlash p

abbrev pub is_empty : List ℕ → Bool
is_empty [] = true
is_empty (c ∷ p) = false

-- A name of a directory entry.
abbrev pub IsName : List ℕ → Type 0
IsName c = NoSlash c × (is_empty c ≡ false) × (is_dot c ≡ false) × (is_dotdot c ≡ false)

abbrev pub AllNames : List (List ℕ) → Type 0
AllNames [] = Unit {0}
AllNames (c ∷ st) = IsName c × AllNames st

abbrev pub cons_head : ℕ → List (List ℕ) → List (List ℕ)
cons_head c [] = (c ∷ []) ∷ []
cons_head c (w ∷ ws) = (c ∷ w) ∷ ws

-- The pieces between the slashes.
unfoldable pub split : List ℕ → List (List ℕ)
split [] = [] ∷ []
split (c ∷ p) = let ws = split p in if c == slash then [] ∷ ws else cons_head c ws

abbrev pub parent : List (List ℕ) → List (List ℕ)
parent [] = []
parent (c ∷ st) = st

-- One step in the tree; the stack has the innermost directory at its head.
unfoldable pub enter : List (List ℕ) → List ℕ → List (List ℕ)
enter st c = if is_empty c || is_dot c then st else (if is_dotdot c then parent st else c ∷ st)

unfoldable pub walk : List (List ℕ) → List (List ℕ) → List (List ℕ)
walk st [] = st
walk st (c ∷ cs) = walk (enter st c) cs

-- The string of a stack, "" for the root.
unfoldable pub join : List (List ℕ) → List ℕ
join [] = []
join (c ∷ st) = join st ++ slash ∷ c

pub enter-empty : (st : List (List ℕ)) → enter st [] ≡ st
unfolding enter
enter-empty st = refl

pub enter-dot : (st : List (List ℕ)) (c : List ℕ) → is_dot c ≡ true → enter st c ≡ st
unfolding enter
enter-dot st [] e = refl
enter-dot st (x ∷ c) e = ground arith

-- Steps over names keep the stack a stack of names.
pub enter-AllNames :
    (st : List (List ℕ)) (c : List ℕ) → AllNames st → NoSlash c → AllNames (enter st c)
unfolding enter
enter-AllNames st [] a n = a
enter-AllNames [] (x ∷ c) a n = ground arith
enter-AllNames (d ∷ st) (x ∷ c) a n = ground arith

piece : List ℕ → List (List ℕ)
piece [] = []
piece (c ∷ p) = split p

-- `split` by its first piece.
split-component : (p : List ℕ) → split p ≡ component p ∷ piece (after p)
unfolding split piece component after
split-component [] = refl
split-component (c ∷ p) = elim (Bool-cases (c == slash)) [
  | inl e ↦ rw e refl
  | inr e ↦ rw (e, split-component p) refl
]

pub split-slash : (c : ℕ) (p : List ℕ) → c == slash ≡ true → split (c ∷ p) ≡ [] ∷ split p
unfolding split
split-slash c p e = ground arith

pub after-slash : (c : ℕ) (p : List ℕ) → c == slash ≡ true → after (c ∷ p) ≡ c ∷ p
unfolding after
after-slash c p e = ground arith

pub after-other : (c : ℕ) (p : List ℕ) → c == slash ≡ false → after (c ∷ p) ≡ after p
unfolding after
after-other c p e = ground arith

skip_nil : [] ≡ skip_slashes []
unfolding skip_slashes
skip_nil = refl

pub skip-slash : (c : ℕ) (p : List ℕ) → c == slash ≡ true → skip_slashes (c ∷ p) ≡ skip_slashes p
unfolding skip_slashes
skip-slash c p e = ground arith

pub skip-other : (c : ℕ) (p : List ℕ) → c == slash ≡ false → skip_slashes (c ∷ p) ≡ c ∷ p
unfolding skip_slashes
skip-other c p e = ground arith

walk-slash :
    (st : List (List ℕ)) (c : ℕ) (p : List ℕ)
    → c == slash ≡ true
    → walk st (split (c ∷ p)) ≡ walk st (split p)
unfolding walk
walk-slash st c p e =
    ap (walk st) (split-slash c p e) ∙ ap (λ (t : List (List ℕ)). walk t (split p)) (enter-empty st)

walk-none : (st : List (List ℕ)) → walk st (piece (after [])) ≡ walk st (split (after []))
unfolding walk piece split after enter
walk-none st = refl

piece-cons : (c : ℕ) (p : List ℕ) → piece (c ∷ p) ≡ split p
unfolding piece
piece-cons c p = refl

walk-piece :
    (st : List (List ℕ)) (p : List ℕ) → walk st (piece (after p)) ≡ walk st (split (after p))
walk-piece st [] = walk-none st
walk-piece st (c ∷ p) = elim (Bool-cases (c == slash)) [
  | inl e ↦
      ap (λ (q : List ℕ). walk st (piece q)) (after-slash c p e)
      ∙ ap (walk st) (piece-cons c p)
      ∙ sym (walk-slash st c p e)
      ∙ ap (λ (q : List ℕ). walk st (split q)) (sym (after-slash c p e))
  | inr e ↦
      ap (λ (q : List ℕ). walk st (piece q)) (after-other c p e)
      ∙ walk-piece st p
      ∙ ap (λ (q : List ℕ). walk st (split q)) (sym (after-other c p e))
]

-- The walk enters the first component and goes on behind it.
pub walk-component :
    (st : List (List ℕ)) (p : List ℕ)
    → walk st (split p) ≡ walk (enter st (component p)) (split (after p))
unfolding walk
walk-component st p = ap (walk st) (split-component p) ∙ walk-piece (enter st (component p)) p

pub walk-skip :
    (st : List (List ℕ)) (p : List ℕ) → walk st (split p) ≡ walk st (split (skip_slashes p))
walk-skip st [] = ap (λ (q : List ℕ). walk st (split q)) skip_nil
walk-skip st (c ∷ p) = elim (Bool-cases (c == slash)) [
  | inl e ↦
      walk-slash st c p e
      ∙ walk-skip st p
      ∙ ap (λ (q : List ℕ). walk st (split q)) (sym (skip-slash c p e))
  | inr e ↦ ap (λ (q : List ℕ). walk st (split q)) (sym (skip-other c p e))
]
