-- ===== src/Sched/Queue.antt =====
-- The run queue is a first-in first-out queue of threads.
use aether_os.Prelude.{
  ℕ, ◌≡◌, refl, sym, subst, ap, ◌∙◌, ◌≢◌, Option, none, some, List, [], ◌∷◌, ◌++◌, arith,
  if◌then◌else◌,
}
use aether_os.Sched.{
  Sched, update, set_run_next, link_last, rq_add, rq_take, sched_wake, set_state, ThreadState,
  ready, take_head, is_null,
}
use aether_os.Sched.Chain.{
  Chain, NotIn, Distinct, last?, Agrees-trans, Chain-Agrees, Agrees-all, Agrees-update, Chain-snoc,
  last-snoc, Distinct-snoc,
}

-- The links of the run queue.
abbrev pub run_links : Sched → ℕ → Option ℕ
run_links s j = (s.thread j).run_next

-- The run queue holds exactly these threads, in this order.
pub record RunQueue (s : Sched) (xs : List ℕ) : Type 0 where
  pub chain : Chain (run_links s) s.rq_head xs
  pub tail : s.rq_tail ≡ last? xs
  pub distinct : Distinct xs

last_of : (x : ℕ) (xs : List ℕ) → (u : ℕ) × (last? (x ∷ xs) ≡ some u)
last_of x [] = (x, refl)
last_of x (y ∷ ys) = last_of y ys

NotIn-last : (x t u : ℕ) (xs : List ℕ) → NotIn t (x ∷ xs) → last? (x ∷ xs) ≡ some u → u ≢ t
NotIn-last x t u [] n e = ground (arith, n.0)
NotIn-last x t u (y ∷ ys) n e = NotIn-last y t u ys n.1 e

-- The queue after `rq_add` when its last thread is `u`.
linked : Sched → ℕ → ℕ → Sched
linked s t u = record (set_run_next (set_run_next s t none) u (some t)) { rq_tail = some t }

rq_add-linked : (s : Sched) (t u : ℕ) → s.rq_tail ≡ some u → rq_add s t ≡ linked s t u
unfolding rq_add linked
rq_add-linked s t u e =
    ap (λ (l : Option ℕ). record (link_last (set_run_next s t none) l t) { rq_tail = some t }) e

rq_add-first :
    (s : Sched) (t : ℕ)
    → s.rq_tail ≡ none
    → rq_add s t ≡ record (set_run_next s t none) { rq_head = some t; rq_tail = some t }
unfolding rq_add
rq_add-first s t e =
    ap (λ (l : Option ℕ). record (link_last (set_run_next s t none) l t) { rq_tail = some t }) e

linked-links :
    (s : Sched) (t u j : ℕ)
    → u ≢ t
    → update (update (run_links s) t none) u (some t) j ≡ run_links (linked s t u) j
unfolding linked update
linked-links s t u j ne = ground arith

linked-RunQueue :
    (s : Sched) (t x u : ℕ) (xs : List ℕ)
    → RunQueue s (x ∷ xs)
    → NotIn t (x ∷ xs)
    → last? (x ∷ xs) ≡ some u
    → RunQueue (linked s t u) (x ∷ xs ++ t ∷ [])
unfolding linked
linked-RunQueue s t x u xs q n e = record {
  chain =
      Chain-Agrees (update (update (run_links s) t none) u (some t)) (run_links (linked s t u))
        s.rq_head (x ∷ xs ++ t ∷ [])
        (Agrees-all _ _ (x ∷ xs ++ t ∷ []) (λ j. linked-links s t u j (NotIn-last x t u xs n e)))
        (Chain-snoc (run_links s) t u (x ∷ xs) s.rq_head q.chain e q.distinct n);
  tail = sym (last-snoc (x ∷ xs) t);
  distinct = Distinct-snoc (x ∷ xs) t q.distinct n;
}

first-RunQueue :
    (s : Sched) (t : ℕ)
    → RunQueue (record (set_run_next s t none) { rq_head = some t; rq_tail = some t }) (t ∷ [])
unfolding update
first-RunQueue s t = record { chain = (refl, ground arith); tail = refl; distinct = (tt, tt) }

-- rq_add puts a thread that is not in the queue behind all others.
pub rq_add-RunQueue :
    (s : Sched) (t : ℕ) (xs : List ℕ)
    → RunQueue s xs
    → NotIn t xs
    → RunQueue (rq_add s t) (xs ++ t ∷ [])
rq_add-RunQueue s t [] q n =
    subst (λ (r : Sched). RunQueue r (t ∷ [])) (sym (rq_add-first s t q.tail)) (first-RunQueue s t)
rq_add-RunQueue s t (x ∷ xs) q n =
    let (u, e) = last_of x xs in
    subst (λ (r : Sched). RunQueue r (x ∷ xs ++ t ∷ [])) (sym (rq_add-linked s t u (q.tail ∙ e)))
      (linked-RunQueue s t x u xs q n e)

unlinked-links :
    (s : Sched) (x j : ℕ)
    → update (run_links s) x none j
      ≡ (update s.thread x (record (s.thread x) { run_next = none }) j).run_next
unfolding update
unlinked-links s x j = ground arith

rest_tail :
    (s : Sched) (x : ℕ) (ys : List ℕ)
    → RunQueue s (x ∷ ys)
    → (if is_null (run_links s x) then none else s.rq_tail) ≡ last? ys
rest_tail s x [] q = ap (λ (o : Option ℕ). if is_null o then none else s.rq_tail) q.chain.1
rest_tail s x (y ∷ ys) q =
    ap (λ (o : Option ℕ). if is_null o then none else s.rq_tail) q.chain.1.0 ∙ q.tail

pub taken :
    (s : Sched) (x : ℕ) (ys : List ℕ) → RunQueue s (x ∷ ys) → RunQueue (take_head s (some x)).1 ys
unfolding take_head
taken s x ys q = record {
  chain =
      Chain-Agrees (run_links s) _ (run_links s x) ys
        (Agrees-trans (run_links s) (update (run_links s) x none) _ ys
          (Agrees-update (run_links s) x none ys q.distinct.0)
          (Agrees-all _ _ ys (unlinked-links s x)))
        q.chain.1;
  tail = rest_tail s x ys q;
  distinct = q.distinct.1;
}

pub rq_take-head : (s : Sched) (x : ℕ) → s.rq_head ≡ some x → rq_take s ≡ take_head s (some x)
unfolding rq_take
rq_take-head s x e = ap (take_head s) e

-- rq_take gives out the thread at the front and leaves the others.
pub rq_take-RunQueue :
    (s : Sched) (x : ℕ) (xs : List ℕ)
    → RunQueue s (x ∷ xs)
    → ((rq_take s).0 ≡ some x) × RunQueue (rq_take s).1 xs
unfolding rq_take take_head
rq_take-RunQueue s x xs q =
    subst (λ (o : Option ℕ × Sched). (o.0 ≡ some x) × RunQueue o.1 xs)
      (sym (ap (take_head s) q.chain.0)) (front, taken s x xs q)
  where
    front : (take_head s (some x)).0 ≡ some x
    front = refl

-- On an empty queue rq_take gives out none and changes nothing.
pub rq_take-empty : (s : Sched) → RunQueue s [] → rq_take s ≡ (none, s)
unfolding rq_take take_head
rq_take-empty s q = ap (take_head s) q.chain

state-links :
    (s : Sched) (t j : ℕ) (v : ThreadState)
    → run_links s j ≡ (update s.thread t (record (s.thread t) { state = v }) j).run_next
unfolding update
state-links s t j v = ground arith

-- The state of a thread is no part of the queue.
pub set_state-RunQueue :
    (s : Sched) (t : ℕ) (v : ThreadState) (xs : List ℕ)
    → RunQueue s xs
    → RunQueue (set_state s t v) xs
set_state-RunQueue s t v xs q = record {
  chain = Chain-Agrees _ _ s.rq_head xs (Agrees-all _ _ xs (λ j. state-links s t j v)) q.chain;
  tail = q.tail;
  distinct = q.distinct;
}

pub sched_wake-RunQueue :
    (s : Sched) (t : ℕ) (xs : List ℕ)
    → RunQueue s xs
    → NotIn t xs
    → RunQueue (sched_wake s t) (xs ++ t ∷ [])
unfolding sched_wake
sched_wake-RunQueue s t xs q n =
    rq_add-RunQueue (set_state s t ready) t xs (set_state-RunQueue s t ready xs q) n

-- What a run queue is depends on its links and its two ends only.
pub RunQueue-cong :
    (s r : Sched) (xs : List ℕ)
    → ((j : ℕ) → run_links s j ≡ run_links r j)
    → s.rq_head ≡ r.rq_head
    → s.rq_tail ≡ r.rq_tail
    → RunQueue s xs
    → RunQueue r xs
RunQueue-cong s r xs l h t q = record {
  chain =
      subst (λ (p : Option ℕ). Chain (run_links r) p xs) h
        (Chain-Agrees _ _ s.rq_head xs (Agrees-all _ _ xs l) q.chain);
  tail = sym t ∙ q.tail;
  distinct = q.distinct;
}
