-- ===== src/Sched/Chain.antt =====
-- Lists that are linked through a store: the chain of links from a head, and what a store to one
-- link does to it.
use aether_os.Prelude.{
  ℕ, ◌≡◌, refl, sym, subst, ◌∙◌, ◌≢◌, Option, none, some, List, [], ◌∷◌, ◌++◌, arith,
}
use aether_os.Sched.{update}

-- Following `next` from `p` meets exactly the members of the list, in order, and then ends.
abbrev pub Chain : (ℕ → Option ℕ) → Option ℕ → List ℕ → Type 0
Chain next p [] = p ≡ none
Chain next p (x ∷ xs) = (p ≡ some x) × Chain next (next x) xs

abbrev pub NotIn : ℕ → List ℕ → Type 0
NotIn t [] = Unit {0}
NotIn t (x ∷ xs) = (x ≢ t) × NotIn t xs

abbrev pub Distinct : List ℕ → Type 0
Distinct [] = Unit {0}
Distinct (x ∷ xs) = NotIn x xs × Distinct xs

abbrev pub last? : List ℕ → Option ℕ
last? [] = none
last? (x ∷ []) = some x
last? (x ∷ y ∷ ys) = last? (y ∷ ys)

pub update_self {ℓ} : {A : Type ℓ} (f : ℕ → A) (k : ℕ) (v : A) → update f k v k ≡ v
unfolding update
update_self f k v = ground arith

pub update_other {ℓ} : {A : Type ℓ} (f : ℕ → A) (k j : ℕ) (v : A) → j ≢ k → update f k v j ≡ f j
unfolding update
update_other f k j v h = ground arith

-- The members' links are those of another store.
abbrev pub Agrees : (ℕ → Option ℕ) → (ℕ → Option ℕ) → List ℕ → Type 0
Agrees f g [] = Unit {0}
Agrees f g (x ∷ xs) = (f x ≡ g x) × Agrees f g xs

pub Chain-Agrees :
    (f g : ℕ → Option ℕ) (p : Option ℕ) (xs : List ℕ) → Agrees f g xs → Chain f p xs → Chain g p xs
Chain-Agrees f g p [] a c = c
Chain-Agrees f g p (x ∷ xs) a c =
    (c.0, Chain-Agrees f g (g x) xs a.1 (subst (λ (q : Option ℕ). Chain f q xs) a.0 c.1))

pub Agrees-trans :
    (f g h : ℕ → Option ℕ) (xs : List ℕ) → Agrees f g xs → Agrees g h xs → Agrees f h xs
Agrees-trans f g h [] a b = tt
Agrees-trans f g h (x ∷ xs) a b = (a.0 ∙ b.0, Agrees-trans f g h xs a.1 b.1)

pub Agrees-all : (f g : ℕ → Option ℕ) (xs : List ℕ) → ((j : ℕ) → f j ≡ g j) → Agrees f g xs
Agrees-all f g [] h = tt
Agrees-all f g (x ∷ xs) h = (h x, Agrees-all f g xs h)

-- A store to the link of a thread that is not in the list.
pub Agrees-update :
    (f : ℕ → Option ℕ) (t : ℕ) (v : Option ℕ) (xs : List ℕ)
    → NotIn t xs
    → Agrees f (update f t v) xs
unfolding update
Agrees-update f t v [] n = tt
Agrees-update f t v (x ∷ xs) n = (ground arith, Agrees-update f t v xs n.1)

last-ne : (x u : ℕ) (ys : List ℕ) → NotIn x ys → last? ys ≡ some u → u ≢ x
last-ne x u [] n e = λ _. cc
last-ne x u (y ∷ []) n e = ground arith
last-ne x u (y ∷ z ∷ ys) n e = last-ne x u (z ∷ ys) n.1 e

-- Linking a new member behind the last.
pub Chain-snoc :
    (f : ℕ → Option ℕ) (t u : ℕ) (xs : List ℕ) (p : Option ℕ)
    → Chain f p xs
    → last? xs ≡ some u
    → Distinct xs
    → NotIn t xs
    → Chain (update (update f t none) u (some t)) p (xs ++ t ∷ [])
unfolding update
Chain-snoc f t u [] p c e d n = cc
Chain-snoc f t u (x ∷ []) p c e d n = (c.0, (ground arith, ground arith))
Chain-snoc f t u (x ∷ y ∷ ys) p c e d n = (
  c.0,
  subst (λ (q : Option ℕ). Chain (update (update f t none) u (some t)) q (y ∷ ys ++ t ∷ [])) kept
      (Chain-snoc f t u (y ∷ ys) (f x) c.1 e d.1 n.1),
)
  where
    u-ne : u ≢ x
    u-ne = last-ne x u (y ∷ ys) d.0 e

    kept : f x ≡ update (update f t none) u (some t) x
    kept = sym (
        update_other (update f t none) u x (some t) (λ g. u-ne (sym g))
        ∙ update_other f t x none n.0)

pub last-snoc : (xs : List ℕ) (t : ℕ) → last? (xs ++ t ∷ []) ≡ some t
last-snoc [] t = refl
last-snoc (x ∷ []) t = refl
last-snoc (x ∷ y ∷ ys) t = last-snoc (y ∷ ys) t

pub NotIn-snoc : (x t : ℕ) (xs : List ℕ) → NotIn x xs → t ≢ x → NotIn x (xs ++ t ∷ [])
NotIn-snoc x t [] n h = (h, tt)
NotIn-snoc x t (y ∷ ys) n h = (n.0, NotIn-snoc x t ys n.1 h)

pub Distinct-snoc : (xs : List ℕ) (t : ℕ) → Distinct xs → NotIn t xs → Distinct (xs ++ t ∷ [])
Distinct-snoc [] t d n = (tt, tt)
Distinct-snoc (x ∷ xs) t d n =
    (NotIn-snoc x t xs d.0 (λ e. n.0 (sym e)), Distinct-snoc xs t d.1 n.1)
