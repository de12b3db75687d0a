-- ===== src/Vfs/Path/Resolve.antt =====
-- What vfs_resolve of kernel/fs/vfs.c returns.
use aether_os.Prelude.{
  ℕ, zero, suc, ◌-◌, ◌<◌, ◌≡◌, ◌≢◌, refl, sym, subst, ap, inl, inr, Option, none, some, List, [],
  ◌∷◌, ◌++◌, arith, ◌==◌, length, length-append, length-take, take, Bool-cases,
}
use aether_os.Vfs.Path.{
  slash, tmp_size, starts_absolute, close_dir, under_cwd, joined, or_root, vfs_resolve,
}
use aether_os.Vfs.Path.Names.{
  NoSlash, AllNames, cons_head, split, enter, walk, join, enter-AllNames,
}
use aether_os.Vfs.Path.Loop.{Starts, normalize-walk, list_cases}

-- Where the string for the loop comes from.
close-Starts : (t : List ℕ) → Starts t → Starts (close_dir t)
unfolding close_dir
close-Starts [] s = refl
close-Starts (c ∷ t) s = ground arith

close-length : (t : List ℕ) → length t < tmp_size → length (close_dir t) < tmp_size
unfolding close_dir
close-length t l = ground (arith, length-append {0} t (slash ∷ []))

append-Starts : (t u : List ℕ) → Starts t → Starts u → Starts (t ++ u)
append-Starts [] u s v = v
append-Starts (c ∷ t) u s v = s

close-cons : (t : List ℕ) → (c : ℕ) × (cs : List ℕ) × (close_dir t ≡ c ∷ cs)
unfolding close_dir
close-cons [] = (slash, [], refl)
close-cons (c ∷ t) = elim (list_cases (close_dir (c ∷ t))) [
  | inl e ↦ absurd (ground arith)
  | inr r ↦ r
]

take-Starts : (n : ℕ) (t : List ℕ) → Starts t → Starts (take n t)
take-Starts zero t s = tt
take-Starts (suc n) [] s = tt
take-Starts (suc n) (c ∷ t) s = s

under-Starts : (cwd : List ℕ) (path : Option (List ℕ)) → Starts cwd → Starts (under_cwd cwd path)
under-Starts cwd none s = close-Starts _ (take-Starts 511 cwd s)
under-Starts cwd (some p) s =
    let (c, cs, e) = close-cons (take 511 cwd) in
    subst (λ (t : List ℕ). Starts (t ++ take (511 - length t) p)) (sym e)
      (subst Starts e (close-Starts (take 511 cwd) (take-Starts 511 cwd s)))

pub joined-Starts : (cwd : List ℕ) (path : Option (List ℕ)) → Starts cwd → Starts (joined cwd path)
unfolding joined
joined-Starts cwd none s = under-Starts cwd none s
joined-Starts cwd (some []) s = under-Starts cwd (some []) s
joined-Starts cwd (some (c ∷ p)) s = elim (Bool-cases (c == slash)) [
  | inl e ↦ rw e (ground arith)
  | inr e ↦ rw e (under-Starts cwd (some (c ∷ p)) s)
]

short : (p : List ℕ) → length (take 511 p) < tmp_size
short p = omega (arith, length-take 511 p)

under-length : (cwd : List ℕ) (path : Option (List ℕ)) → length (under_cwd cwd path) < tmp_size
under-length cwd none = close-length _ (short cwd)
under-length cwd (some p) =
    let t = close_dir (take 511 cwd) in
    let room = 511 - length t in
    omega (
      arith,
      close-length (take 511 cwd) (short cwd),
      length-append {0} t (take room p),
      length-take room p,
    )

pub joined-length : (cwd : List ℕ) (path : Option (List ℕ)) → length (joined cwd path) < tmp_size
unfolding joined
joined-length cwd none = under-length cwd none
joined-length cwd (some p) = elim (Bool-cases (starts_absolute p)) [
  | inl e ↦ rw e (short p)
  | inr e ↦ rw e (under-length cwd (some p))
]

-- The names behind the steps of a path.
abbrev Pieces : List (List ℕ) → Type 0
Pieces [] = Unit {0}
Pieces (w ∷ ws) = NoSlash w × Pieces ws

cons_head-Pieces : (c : ℕ) (ws : List (List ℕ)) → c ≢ slash → Pieces ws → Pieces (cons_head c ws)
cons_head-Pieces c [] n p = ((n, tt), tt)
cons_head-Pieces c (w ∷ ws) n p = ((n, p.0), p.1)

split-Pieces : (p : List ℕ) → Pieces (split p)
unfolding split
split-Pieces [] = (tt, tt)
split-Pieces (c ∷ p) = elim (Bool-cases (c == slash)) [
  | inl e ↦ rw e (tt, split-Pieces p)
  | inr e ↦ rw e (cons_head-Pieces c (split p) (ground arith) (split-Pieces p))
]

walk-AllNames : (st ws : List (List ℕ)) → AllNames st → Pieces ws → AllNames (walk st ws)
unfolding walk
walk-AllNames st [] a p = a
walk-AllNames st (w ∷ ws) a p = walk-AllNames (enter st w) ws (enter-AllNames st w a p.0) p.1

-- The directory that a path names.
abbrev pub steps : List ℕ → Option (List ℕ) → List (List ℕ)
steps cwd path = walk [] (split (joined cwd path))

-- vfs_resolve, for a working directory that is empty or starts with a slash and a buffer of 512
-- bytes. The path, or the working directory, a slash and the path if that is relative, is cut after
-- 511 bytes and taken apart at the slashes; its steps are walked from the root, where an empty step
-- and "." stay, ".." goes to the parent (the root's is the root), and a name goes down. The result
-- is the absolute path of the place reached, each name behind one slash and "/" for the root; no
-- name in it is empty, ".", ".." or holds a slash. The guard against overflow never ends the loop.
pub vfs_resolve_lem :
    (cwd : List ℕ) (path : Option (List ℕ))
    → Starts cwd
    → (vfs_resolve cwd path 512 ≡ or_root (join (steps cwd path))) × AllNames (steps cwd path)
unfolding vfs_resolve join
vfs_resolve_lem cwd path s = (
  ap or_root (
      normalize-walk (suc (length (joined cwd path))) 512 [] (joined cwd path) tt
        (joined-Starts cwd path s) (omega arith) (omega (arith, joined-length cwd path))),
  walk-AllNames [] (split (joined cwd path)) tt (split-Pieces (joined cwd path)),
)
