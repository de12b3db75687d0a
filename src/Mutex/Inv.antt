-- ===== src/Mutex/Inv.antt =====
-- The invariant of the threads that use a mutex of kernel/sync/mutex.c, and what keeps it.
use aether_os.Prelude.{
  ℕ, ◌≡◌, ◌≢◌, ◌⊎◌, sym, subst, ◌∙◌, Bool, true, false, some, List, [], ◌∷◌, arith,
}
use native.Mathlib.Decide.{ℕ_discrete}
use aether_os.Prelude.Store.{store, store_self, store_other}
use aether_os.Mutex.Threads.{Phase, outside, waiting, holding, waking, System}

-- A thread that waits is awake.
pub record Awake (s : System) : Type 0 where
  pub thread : ℕ
  pub waits : s.phase thread ≡ waiting
  pub awake : s.mutex.blocked thread ≡ false

-- `t` is one of these, and no two of them are the same.
unfoldable pub In : ℕ → List ℕ → Type 0
In t [] = ⊥
In t (x ∷ xs) = (x ≡ t) ⊎ In t xs

unfoldable pub Distinct : List ℕ → Type 0
Distinct [] = Unit
Distinct (x ∷ xs) = (In x xs → ⊥) × Distinct xs

-- A thread is about to wake `t`.
pub record Waker (s : System) (t : ℕ) : Type 0 where
  pub waker : ℕ
  pub wakes : s.phase waker ≡ waking t

-- A thread that waits is awake, or another is about to wake one that waits.
pub data Coming (s : System) : Type 0 where
  tries : Awake s → Coming s
  will_wake : (woken : ℕ) → s.phase woken ≡ waiting → Waker s woken → Coming s

-- What a thread that is about to wake `w` knows of it.
pub record Chosen (s : System) (w : ℕ) : Type 0 where
  pub waits : s.phase w ≡ waiting
  pub sleeps : s.mutex.blocked w ≡ true
  pub unqueued : In w s.mutex.waiters → ⊥

pub record Valid (s : System) : Type 0 where
  -- The owner is the thread that holds the mutex, which is locked then.
  pub owned : (t : ℕ) → s.phase t ≡ holding → s.mutex.owner ≡ some t
  pub locked : (t : ℕ) → s.phase t ≡ holding → s.mutex.locked ≡ true
  -- The waiters are threads that sleep in the loop, each once.
  pub queued : (t : ℕ) → In t s.mutex.waiters → (s.phase t ≡ waiting) × (s.mutex.blocked t ≡ true)
  pub distinct : Distinct s.mutex.waiters
  -- A thread that sleeps in the loop is a waiter, or about to be woken; then by one thread.
  pub asleep :
      (t : ℕ) → s.phase t ≡ waiting → s.mutex.blocked t ≡ true → In t s.mutex.waiters ⊎ Waker s t
  pub chosen : (t w : ℕ) → s.phase t ≡ waking w → Chosen s w
  pub alone : (t u w : ℕ) → s.phase t ≡ waking w → s.phase u ≡ waking w → t ≡ u
  -- A free mutex with waiters has a thread on its way to it.
  pub coming : s.mutex.locked ≡ false → (s.mutex.waiters ≡ []) ⊎ Coming s

pub not_both : (b : Bool) → b ≡ true → b ≡ false → ⊥
not_both b e f = cc

pub apart_phases : (p : Phase) → p ≡ waiting → p ≡ outside → ⊥
apart_phases p e f = cc

pub apart_holding : (p : Phase) → p ≡ waiting → p ≡ holding → ⊥
apart_holding p e f = cc

-- A thread that may pass the loop: no list of the mutex has it, nobody is about to wake it, and it is
-- not in mutex_unlock.
pub record CanPass (s : System) (t : ℕ) : Type 0 where
  pub unqueued : In t s.mutex.waiters → ⊥
  pub unchosen : Waker s t → ⊥
  pub no_waker : (w : ℕ) → s.phase t ≡ waking w → ⊥

pub apart_waking : (p : Phase) (w : ℕ) → p ≡ waiting → p ≡ waking w → ⊥
apart_waking p w e f = cc

pub outside_waking : (p : Phase) (w : ℕ) → p ≡ outside → p ≡ waking w → ⊥
outside_waking p w e f = cc

pub holding_waking : (p : Phase) (w : ℕ) → p ≡ holding → p ≡ waking w → ⊥
holding_waking p w e f = cc

pub waking_same : (a b : ℕ) → waking a ≡ waking b → a ≡ b
waking_same a b e = cc

pub outside-CanPass : (s : System) (t : ℕ) → Valid s → s.phase t ≡ outside → CanPass s t
outside-CanPass s t v o = record {
  unqueued = λ i. apart_phases (s.phase t) (v.queued t i).0 o;
  unchosen = λ k. apart_phases (s.phase t) (v.chosen k.waker t k.wakes).waits o;
  no_waker = λ w e. outside_waking (s.phase t) w o e;
}

pub awake-CanPass :
    (s : System) (t : ℕ) → Valid s → s.phase t ≡ waiting → s.mutex.blocked t ≡ false → CanPass s t
awake-CanPass s t v w b = record {
  unqueued = λ i. not_both (s.mutex.blocked t) (v.queued t i).1 b;
  unchosen = λ k. not_both (s.mutex.blocked t) (v.chosen k.waker t k.wakes).sleeps b;
  no_waker = λ u e. apart_waking (s.phase t) u w e;
}

pub some_same : (a b : ℕ) → some a ≡ some b → a ≡ b
some_same a b e = ground arith

-- An entry of an array that is not the one just written.
pub unwritten {ℓ} :
    {A : Type ℓ} (f : ℕ → A) (t u : ℕ) (p q : A) → store f t p u ≡ q → p ≢ q → (u ≢ t) × (f u ≡ q)
unwritten f t u p q e ne = elim (ℕ_discrete u t) [
  | yes same ↦
      absurd (ne (sym (subst (λ (k : ℕ). store f t p k ≡ p) (sym same) (store_self f t p)) ∙ e))
  | no other ↦ (other, sym (store_other f t u p other) ∙ e)
]
