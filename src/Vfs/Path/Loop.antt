-- ===== src/Vfs/Path/Loop.antt =====
-- The string that the loop of vfs_resolve in kernel/fs/vfs.c builds is that of the stack of names.
use aether_os.Prelude.{
  ℕ, zero, suc, ◌-◌, ◌⊎◌, ◌+◌, ◌≤◌, ◌<◌, ◌≡◌, ◌≢◌, refl, sym, ap, ap₂, ◌∙◌, false, inl, inr, some,
  List, [], ◌∷◌, ◌++◌, arith, ◌==◌, if◌then◌else◌, leb, length, length-append, take, Bool-cases,
}
use aether_os.Vfs.Path.{
  slash, skip_slashes, component, after, last_slash, pop_component, is_dot, is_dotdot,
  add_component, normalize,
}
use aether_os.Vfs.Path.Names.{
  NoSlash, AllNames, split, enter, walk, join, parent, enter-AllNames, walk-component, walk-skip,
  after-other,
}

last_slash-NoSlash : (r last : ℕ) (c : List ℕ) → NoSlash c → last_slash r last c ≡ last
unfolding last_slash
last_slash-NoSlash r last [] n = refl
last_slash-NoSlash r last (x ∷ c) n = rw (not_slash x n.0) (last_slash-NoSlash (r + 1) last c n.1)
  where
    not_slash : (y : ℕ) → y ≢ slash → y == slash ≡ false
    not_slash y h = ground arith

last_slash-append :
    (r last : ℕ) (xs c : List ℕ) → NoSlash c → last_slash r last (xs ++ slash ∷ c) ≡ r + length xs
unfolding last_slash
last_slash-append r last [] c n = last_slash-NoSlash (r + 1) r c n ∙ omega arith
last_slash-append r last (x ∷ xs) c n =
    last_slash-append (r + 1) (if x == slash then r else last) xs c n ∙ omega arith

take-length-append : (xs ys : List ℕ) → take (length xs) (xs ++ ys) ≡ xs
take-length-append [] ys = refl
take-length-append (x ∷ xs) ys = ap (◌∷◌ x) (take-length-append xs ys)

pub join-cons : (st : List (List ℕ)) (c : List ℕ) → join (c ∷ st) ≡ join st ++ slash ∷ c
unfolding join
join-cons st c = refl

-- Popping the last component leaves the parent.
pop-join : (st : List (List ℕ)) → AllNames st → pop_component (join st) ≡ join (parent st)
unfolding pop_component join last_slash
pop-join [] a = refl
pop-join (c ∷ st) a =
    ap (λ (n : ℕ). take n (join st ++ slash ∷ c)) (last_slash-append 0 0 (join st) c a.0.0 ∙ plain)
    ∙ take-length-append (join st) (slash ∷ c)
  where
    plain : 0 + length (join st) ≡ length (join st)
    plain = omega arith

pub length-join :
    (st : List (List ℕ)) (c : List ℕ) → length (join (c ∷ st)) ≡ length (join st) + 1 + length c
unfolding join
length-join st c = omega (arith, length-append {0} (join st) (slash ∷ c))

pub length-parent : (st : List (List ℕ)) → length (join (parent st)) ≤ length (join st)
unfolding join
length-parent [] = omega arith
length-parent (c ∷ st) = omega (arith, length-append {0} (join st) (slash ∷ c))

-- One round, where the string does not outgrow the buffer.
add-enter :
    (outsz : ℕ) (st : List (List ℕ)) (x : ℕ) (c : List ℕ)
    → AllNames st
    → length (join st) + length (x ∷ c) + 1 < outsz
    → add_component outsz (join st) (x ∷ c) ≡ some (join (enter st (x ∷ c)))
unfolding add_component enter
add-enter outsz st x c a fits = elim (Bool-cases (is_dot (x ∷ c))) [
  | inl e ↦ rw e refl
  | inr e ↦ elim (Bool-cases (is_dotdot (x ∷ c))) [
    | inl f ↦ rw (e, f) (ap some (pop-join st a))
    | inr f ↦ rw (e, f, too_long) (ap some (sym (join-cons st (x ∷ c))))
  ]
]
  where
    too_long : leb outsz (length (join st) + length (x ∷ c) + 1) ≡ false
    too_long = ground arith

length-enter :
    (st : List (List ℕ)) (x : ℕ) (c : List ℕ)
    → length (join (enter st (x ∷ c))) ≤ length (join st) + 1 + length (x ∷ c)
unfolding enter
length-enter st x c = elim (Bool-cases (is_dot (x ∷ c))) [
  | inl e ↦ rw e (omega arith)
  | inr e ↦ elim (Bool-cases (is_dotdot (x ∷ c))) [
    | inl f ↦ rw (e, f) (omega (arith, length-parent st))
    | inr f ↦ rw (e, f) (omega (arith, length-join st (x ∷ c)))
  ]
]

-- A path is empty or starts with a slash.
abbrev pub Starts : List ℕ → Type 0
Starts [] = Unit {0}
Starts (c ∷ p) = c ≡ slash

component-NoSlash : (p : List ℕ) → NoSlash (component p)
unfolding component
component-NoSlash [] = tt
component-NoSlash (c ∷ p) = ground (arith, component-NoSlash p)

component-after : (p : List ℕ) → length (component p) + length (after p) ≡ length p
unfolding component after
component-after [] = omega arith
component-after (c ∷ p) = ground (arith, component-after p)

after-Starts : (p : List ℕ) → Starts (after p)
unfolding after
after-Starts [] = tt
after-Starts (c ∷ p) = elim (Bool-cases (c == slash)) [
  | inl e ↦ rw e (ground arith)
  | inr e ↦ rw e (after-Starts p)
]

length-skip : (p : List ℕ) → length (skip_slashes p) ≤ length p
unfolding skip_slashes
length-skip [] = omega arith
length-skip (c ∷ p) = ground (arith, length-skip p)

length-skip_Starts : (p : List ℕ) → Starts p → length (skip_slashes p) ≤ length p - 1
unfolding skip_slashes
length-skip_Starts [] h = omega arith
length-skip_Starts (c ∷ p) h = ground (arith, length-skip p)

-- What skip_slashes leaves does not start with a slash.
skip-head : (p : List ℕ) (c : ℕ) (cs : List ℕ) → skip_slashes p ≡ c ∷ cs → c == slash ≡ false
unfolding skip_slashes
skip-head [] c cs e = cc
skip-head (d ∷ p) c cs e = elim (Bool-cases (d == slash)) [
  | inl f ↦ skip-head p c cs (rw f at e)
  | inr f ↦ ground (arith, e)
]

component-cons : (c : ℕ) (cs : List ℕ) → c == slash ≡ false → component (c ∷ cs) ≡ c ∷ component cs
unfolding component
component-cons c cs e = ground arith

normalize-end :
    (fuel outsz : ℕ) (out p : List ℕ) → skip_slashes p ≡ [] → normalize (suc fuel) outsz out p ≡ out
unfolding normalize
normalize-end fuel outsz out p e = rw (e, normalize) refl

normalize-step :
    (fuel outsz : ℕ) (out o p : List ℕ) (c : ℕ) (cs : List ℕ)
    → skip_slashes p ≡ c ∷ cs
    → add_component outsz out (component (c ∷ cs)) ≡ some o
    → normalize (suc fuel) outsz out p ≡ normalize fuel outsz o (after (c ∷ cs))
unfolding normalize
normalize-step fuel outsz out o p c cs e f = rw (e, f, normalize) refl

pub list_cases : (xs : List ℕ) → (xs ≡ []) ⊎ ((c : ℕ) × (cs : List ℕ) × (xs ≡ c ∷ cs))
list_cases [] = inl refl
list_cases (c ∷ cs) = inr (c, cs, refl)

walk-nil : (st : List (List ℕ)) → walk st (split []) ≡ st
unfolding walk split enter
walk-nil st = refl

pub normalize-walk :
    (fuel outsz : ℕ) (st : List (List ℕ)) (p : List ℕ)
    → AllNames st
    → Starts p
    → length p < fuel
    → length (join st) + length p < outsz
    → normalize fuel outsz (join st) p ≡ join (walk st (split p))
normalize-walk zero outsz st p a s f l = absurd (omega arith)
normalize-walk (suc fuel) outsz st p a s f l = elim (list_cases (skip_slashes p)) [
  | inl e ↦
      normalize-end fuel outsz (join st) p e
      ∙ ap join (sym (walk-skip st p ∙ ap (λ (q : List ℕ). walk st (split q)) e ∙ walk-nil st))
  | inr (c, cs, e) ↦
      let n = skip-head p c cs e in
      let len : suc (length cs) ≤ length p - 1 =
        omega (arith, length-skip_Starts p s, ap (λ (q : List ℕ). length q) e) in
      let parts = component-after cs in
      let word = component-cons c cs n in
      let next = after-other c cs n in
      normalize-step fuel outsz (join st) (join (enter st (c ∷ component cs))) p c cs e (
        ap (add_component outsz (join st)) word
        ∙ add-enter outsz st c (component cs) a (omega arith))
      ∙ ap (normalize fuel outsz (join (enter st (c ∷ component cs)))) next
      ∙ normalize-walk fuel outsz (enter st (c ∷ component cs)) (after cs)
          (enter-AllNames st (c ∷ component cs) a ((λ h. ground arith), component-NoSlash cs))
          (after-Starts cs) (omega arith) (omega (arith, length-enter st c (component cs)))
      ∙ ap join (
          sym (
            walk-skip st p
            ∙ ap (λ (q : List ℕ). walk st (split q)) e
            ∙ walk-component st (c ∷ cs)
            ∙ ap₂ (λ (w q : List ℕ). walk (enter st w) (split q)) word next))
]
