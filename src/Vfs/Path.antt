-- ===== src/Vfs/Path.antt =====
-- Path resolution in kernel/fs/vfs.c. `out` is the string built so far, `o - out` its length.
pub mod Names
pub mod Loop
pub mod Resolve
pub mod Canonical
use aether_os.Prelude.{
  ℕ, zero, suc, ◌+◌, ◌-◌, Bool, true, false, not, ◌&&◌, ◌||◌, Option, none, some, List, [], ◌∷◌,
  ◌++◌, ltb, leb, ◌==◌, if◌then◌else◌, length, get_or, take,
}

abbrev pub slash : ℕ
slash = 47

abbrev pub dot : ℕ
dot = 46

-- `while (*p == '/') p++;`
unfoldable pub skip_slashes : List ℕ → List ℕ
skip_slashes [] = []
skip_slashes (c ∷ p) = let rest = skip_slashes p in if c == slash then rest else c ∷ p

-- The bytes that `while (*p && *p != '/') p++;` passes, and what is left behind them.
unfoldable pub component : List ℕ → List ℕ
component [] = []
component (c ∷ p) = let more = component p in if c == slash then [] else c ∷ more

unfoldable pub after : List ℕ → List ℕ
after [] = []
after (c ∷ p) = let rest = after p in if c == slash then c ∷ p else rest

-- `for (r = out; r < o; r++) if (*r == '/') last = r;`, as indices.
unfoldable pub last_slash : ℕ → ℕ → List ℕ → ℕ
last_slash r last [] = last
last_slash r last (c ∷ cs) = last_slash (r + 1) (if c == slash then r else last) cs

unfoldable pub pop_component : List ℕ → List ℕ
pop_component out = take (last_slash 0 0 out) out

abbrev pub is_dot : List ℕ → Bool
is_dot c = length c == 1 && get_or c 0 0 == dot

abbrev pub is_dotdot : List ℕ → Bool
is_dotdot c = length c == 2 && (get_or c 0 0 == dot && get_or c 1 0 == dot)

-- What one component makes of `out`; none is the break of the overflow guard.
unfoldable pub add_component : ℕ → List ℕ → List ℕ → Option (List ℕ)
add_component outsz out c =
    if is_dot c
    then some out
    else (if is_dotdot c
        then some (pop_component out)
        else (if leb outsz (length out + length c + 1) then none else some (out ++ slash ∷ c)))

-- The loop over the components. Each round takes a byte from `p`, so more rounds than `p` has bytes
-- are enough.
unfoldable pub normalize : ℕ → ℕ → List ℕ → List ℕ → List ℕ
normalize zero outsz out p = out
normalize (suc fuel) outsz out p = elim (skip_slashes p) [
  | [] ↦ out
  | c ∷ cs ↦ elim (add_component outsz out (component (c ∷ cs))) [
    | none ↦ out
    | some out' ↦ normalize fuel outsz out' (after (c ∷ cs))
  ]
]

abbrev pub tmp_size : ℕ
tmp_size = 512

abbrev pub starts_absolute : List ℕ → Bool
starts_absolute [] = false
starts_absolute (c ∷ p) = c == slash

-- `if ((n == 0 || tmp[n - 1] != '/') && n < sizeof(tmp) - 1) tmp[n] = '/';`
unfoldable pub close_dir : List ℕ → List ℕ
close_dir t =
    let n = length t in
    if (n == 0 || not (get_or t (n - 1) 0 == slash)) && ltb n (tmp_size - 1)
    then t ++ slash ∷ []
    else t

-- `tmp` for a relative path; `strncat` stops at the room that is left.
abbrev pub under_cwd : List ℕ → Option (List ℕ) → List ℕ
under_cwd cwd none = close_dir (take (tmp_size - 1) cwd)
under_cwd cwd (some path) =
    let t = close_dir (take (tmp_size - 1) cwd) in t ++ take (tmp_size - 1 - length t) path

-- `tmp` before the loop; `path` is none for NULL.
unfoldable pub joined : List ℕ → Option (List ℕ) → List ℕ
joined cwd none = under_cwd cwd none
joined cwd (some path) =
    if starts_absolute path then take (tmp_size - 1) path else under_cwd cwd (some path)

abbrev pub or_root : List ℕ → List ℕ
or_root [] = slash ∷ []
or_root (c ∷ p) = c ∷ p

unfoldable pub vfs_resolve : List ℕ → Option (List ℕ) → ℕ → List ℕ
vfs_resolve cwd path outsz =
    let tmp = joined cwd path in or_root (normalize (suc (length tmp)) outsz [] tmp)
