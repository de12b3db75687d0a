-- ===== src/Vfs/Path/Canonical.antt =====
-- Resolving a resolved path again.
use aether_os.Prelude.{
  ℕ, suc, ◌+◌, ◌≤◌, ◌<◌, ◌≡◌, ◌≢◌, refl, sym, subst, ap, ◌∙◌, true, false, inl, inr, Option, some,
  List, [], ◌∷◌, ◌++◌, arith, ◌==◌, length, take_all, Bool-cases,
}
use aether_os.Vfs.Path.{slash, tmp_size, joined, or_root, vfs_resolve, is_dot, is_dotdot}
use aether_os.Vfs.Path.Names.{
  NoSlash, IsName, AllNames, cons_head, split, split-slash, enter, walk, join,
}
use aether_os.Vfs.Path.Loop.{Starts, list_cases, length-join, length-parent, join-cons}
use aether_os.Vfs.Path.Resolve.{steps, vfs_resolve_lem, joined-Starts, joined-length}

split-NoSlash : (c : List ℕ) → NoSlash c → split c ≡ c ∷ []
unfolding split
split-NoSlash [] n = refl
split-NoSlash (x ∷ c) n = rw (not_slash x n.0, split-NoSlash c n.1) refl
  where
    not_slash : (y : ℕ) → y ≢ slash → y == slash ≡ false
    not_slash y h = ground arith

split_cases : (p : List ℕ) → (w : List ℕ) × (ws : List (List ℕ)) × (split p ≡ w ∷ ws)
unfolding split
split_cases [] = ([], [], refl)
split_cases (c ∷ p) =
    let (w, ws, e) = split_cases p in
    elim (Bool-cases (c == slash)) [
      | inl f ↦ rw f ([], split p, refl)
      | inr f ↦ rw (f, e) (c ∷ w, ws, refl)
    ]

cons_head-append :
    (x : ℕ) (p : List ℕ) (c : List ℕ)
    → cons_head x (split p ++ c ∷ []) ≡ cons_head x (split p) ++ c ∷ []
cons_head-append x p c =
    let (w, ws, e) = split_cases p in
    subst (λ (v : List (List ℕ)). cons_head x (v ++ c ∷ []) ≡ cons_head x v ++ c ∷ []) (sym e) refl

split-append : (p c : List ℕ) → NoSlash c → split (p ++ slash ∷ c) ≡ split p ++ c ∷ []
unfolding split
split-append [] c n = ap (λ (w : List (List ℕ)). [] ∷ w) (split-NoSlash c n)
split-append (x ∷ p) c n = elim (Bool-cases (x == slash)) [
  | inl e ↦ rw (e, split-append p c n) refl
  | inr e ↦ rw (e, split-append p c n) (cons_head-append x p c)
]

walk-append : (st xs : List (List ℕ)) (c : List ℕ) → walk st (xs ++ c ∷ []) ≡ enter (walk st xs) c
unfolding walk
walk-append st [] c = refl
walk-append st (x ∷ xs) c = walk-append (enter st x) xs c

dotless :
    (st : List (List ℕ)) (x : ℕ) (c : List ℕ)
    → is_dot (x ∷ c) ≡ false
    → is_dotdot (x ∷ c) ≡ false
    → enter st (x ∷ c) ≡ (x ∷ c) ∷ st
unfolding enter
dotless st x c e f = rw (e, f) refl

enter-IsName : (st : List (List ℕ)) (c : List ℕ) → IsName c → enter st c ≡ c ∷ st
unfolding enter
enter-IsName st [] n = absurd (ground arith)
enter-IsName st (x ∷ c) n = dotless st x c n.2 n.3

walk-root : walk [] (split []) ≡ []
unfolding walk split enter
walk-root = refl

-- The string of a stack of names is read back as that stack.
join_nil : join [] ≡ []
unfolding join
join_nil = refl

walk-join : (st : List (List ℕ)) → AllNames st → walk [] (split (join st)) ≡ st
walk-join [] a = ap (λ (p : List ℕ). walk [] (split p)) join_nil ∙ walk-root
walk-join (c ∷ st) a =
    ap (λ (p : List ℕ). walk [] (split p)) (join-cons st c)
    ∙ ap (walk []) (split-append (join st) c a.0.0)
    ∙ walk-append [] (split (join st)) c
    ∙ ap (λ (t : List (List ℕ)). enter t c) (walk-join st a.1)
    ∙ enter-IsName st c a.0

append_start : (p c : List ℕ) → Starts p → Starts (p ++ slash ∷ c)
append_start [] c s = refl
append_start (x ∷ p) c s = s

join-Starts : (st : List (List ℕ)) → Starts (join st)
unfolding join
join-Starts [] = tt
join-Starts (c ∷ st) = append_start (join st) c (join-Starts st)

-- The bytes of the pieces, each with a slash.
cost : List (List ℕ) → ℕ
cost [] = 0
cost (w ∷ ws) = 1 + length w + cost ws

length-enter :
    (st : List (List ℕ)) (c : List ℕ) → length (join (enter st c)) ≤ length (join st) + 1 + length c
unfolding enter
length-enter st [] = omega arith
length-enter st (x ∷ c) = elim (Bool-cases (is_dot (x ∷ c))) [
  | inl e ↦ rw e (omega arith)
  | inr e ↦ elim (Bool-cases (is_dotdot (x ∷ c))) [
    | inl f ↦ rw (e, f) (omega (arith, length-parent st))
    | inr f ↦ rw (e, f) (omega (arith, length-join st (x ∷ c)))
  ]
]

length-walk : (st ws : List (List ℕ)) → length (join (walk st ws)) ≤ length (join st) + cost ws
unfolding walk cost
length-walk st [] = omega arith
length-walk st (w ∷ ws) = omega (arith, length-walk (enter st w) ws, length-enter st w)

cost-cons_head :
    (x : ℕ) (w : List ℕ) (ws : List (List ℕ)) → cost (cons_head x (w ∷ ws)) ≡ suc (cost (w ∷ ws))
unfolding cost
cost-cons_head x w ws = omega arith

cost-split : (p : List ℕ) → cost (split p) ≡ length p + 1
unfolding cost split
cost-split [] = omega arith
cost-split (c ∷ p) =
    let (w, ws, e) = split_cases p in
    elim (Bool-cases (c == slash)) [
      | inl f ↦ rw f (omega (arith, cost-split p))
      | inr f ↦ rw f (
          omega (
            arith,
            cost-split p,
            ap (λ (v : List (List ℕ)). cost (cons_head c v)) e,
            cost-cons_head c w ws,
            ap cost e,
          ))
    ]

walk-empty : (p : List ℕ) → walk [] ([] ∷ split p) ≡ walk [] (split p)
unfolding walk enter
walk-empty p = refl

-- A resolved path is no longer than the path.
length_steps : (p : List ℕ) → Starts p → length (join (walk [] (split p))) ≤ length p
unfolding join
length_steps [] s = omega (arith, ap (λ (t : List (List ℕ)). length (join t)) walk-root)
length_steps (c ∷ p) s = omega (
  arith,
  ap (λ (t : List (List ℕ)). length (join t)) (skip_first c p s),
  length-walk [] (split p),
  cost-split p,
)
  where
    skip_first : (x : ℕ) (q : List ℕ) → x ≡ slash → walk [] (split (x ∷ q)) ≡ walk [] (split q)
    skip_first x q e = ap (walk []) (split-slash x q (ground arith)) ∙ walk-empty q

joined-absolute :
    (cwd : List ℕ) (c : ℕ) (p : List ℕ)
    → c ≡ slash
    → length (c ∷ p) < tmp_size
    → joined cwd (some (c ∷ p)) ≡ c ∷ p
unfolding joined
joined-absolute cwd c p e l = rw (is_slash, take_all 511 (c ∷ p) (omega arith)) refl
  where
    is_slash : c == slash ≡ true
    is_slash = ground arith

root_joined : (cwd : List ℕ) → walk [] (split (joined cwd (some (slash ∷ [])))) ≡ []
unfolding joined walk split enter
root_joined cwd = refl

-- The steps of the string of a stack of names are that stack.
steps-join :
    (cwd : List ℕ) (st : List (List ℕ))
    → AllNames st
    → length (join st) < tmp_size
    → steps cwd (some (or_root (join st))) ≡ st
steps-join cwd st a l = elim (list_cases (join st)) [
  | inl e ↦
      ap (λ (q : List ℕ). steps cwd (some (or_root q))) e
      ∙ root_joined cwd
      ∙ sym walk-root
      ∙ ap (λ (q : List ℕ). walk [] (split q)) (sym e)
      ∙ walk-join st a
  | inr (c, cs, e) ↦
      ap (λ (q : List ℕ). steps cwd (some (or_root q))) e
      ∙ ap (λ (q : List ℕ). walk [] (split q))
          (joined-absolute cwd c cs (subst Starts e (join-Starts st))
              (subst (λ (q : List ℕ). length q < tmp_size) e l)
            ∙ sym e)
      ∙ walk-join st a
]

-- A path that vfs_resolve has returned, for a working directory that is empty or starts with a
-- slash, is resolved to itself, whatever the working directory is then (if that, too, is empty or
-- starts with a slash).
pub vfs_resolve_again :
    (cwd later : List ℕ) (path : Option (List ℕ))
    → Starts cwd
    → Starts later
    → vfs_resolve later (some (vfs_resolve cwd path 512)) 512 ≡ vfs_resolve cwd path 512
vfs_resolve_again cwd later path s t =
    let (e, names) = vfs_resolve_lem cwd path s in
    let st = steps cwd path in
    ap (λ (p : List ℕ). vfs_resolve later (some p) 512) e
    ∙ (vfs_resolve_lem later (some (or_root (join st))) t).0
    ∙ ap (λ (r : List (List ℕ)). or_root (join r))
        (steps-join later st names (
          omega (
            arith,
            length_steps (joined cwd path) (joined-Starts cwd path s),
            joined-length cwd path,
          )))
    ∙ sym e
