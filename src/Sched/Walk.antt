-- ===== src/Sched/Walk.antt =====
-- The walk over the sleepers in kernel/sched/sched.c wakes those whose time has come.
use aether_os.Prelude.{
  ℕ, zero, suc, ◌≤◌, ◌≡◌, ◌≢◌, refl, sym, subst, ap₂, ◌∙◌, Option, none, some, List, [], ◌∷◌, ◌++◌,
  arith, leb, length, append_assoc, append-nil, Bool-cases, inl, inr,
}
use aether_os.Sched.{Sched, wake_walk}
use aether_os.Sched.Chain.{Chain, NotIn, Distinct}
use aether_os.Sched.Queue.{RunQueue}
use aether_os.Sched.Frame.{
  sleep_links, get_link, woken_one, WokenOne, woken_one-WokenOne, woken_one-RunQueue,
}
use aether_os.Sched.Wake.{
  expired, asleep, Apart, Outside, Walked, expired-yes, expired-no, asleep-yes, asleep-no,
  wake_walk-yes, wake_walk-no, wake_walk-none, NotIn-expired, Apart-snoc, Chain-woken,
}

Outside-cons :
    (prev : Option ℕ) (t : ℕ) (ts : List ℕ)
    → Outside prev (t ∷ ts)
    → (prev ≢ some t) × Outside prev ts
Outside-cons none t ts o = ((λ e. cc), tt)
Outside-cons (some p) t ts o = ((λ e. o.0 (ground arith)), o.1)

Walked-none :
    (s : Sched) (prev : Option ℕ) (xs : List ℕ)
    → RunQueue s xs
    → get_link s prev ≡ none
    → Walked s s prev [] xs [] []
Walked-none s prev xs q e = record {
  queue = subst (RunQueue s) (sym (append-nil xs)) q;
  chain = e;
  woken = tt;
  states = λ j n. refl;
  links = λ j n m. refl;
  head = λ p h. refl;
  idles = λ j. refl;
  rsps = λ j. refl;
  current = refl;
  idle = refl;
}

-- The first sleeper is woken, then the others are walked.
Walked-woken :
    (s w r : Sched) (prev : Option ℕ) (t : ℕ) (ts xs es zs : List ℕ)
    → WokenOne s w prev t
    → NotIn t es
    → Walked w r prev ts (xs ++ t ∷ []) es zs
    → Walked s r prev (t ∷ ts) xs (t ∷ es) zs
Walked-woken s w r prev t ts xs es zs o n h = record {
  queue = subst (RunQueue r) (append_assoc xs (t ∷ []) es) h.queue;
  chain = h.chain;
  woken = (h.states t n ∙ o.woken, h.woken);
  states = λ j m. h.states j m.1 ∙ o.states j (λ e. m.0 (sym e));
  links = λ j m k. h.links j m.1 k ∙ o.links j (λ e. m.0 (sym e)) k;
  head = λ p e. h.head p e ∙ o.head p e;
  idles = λ j. h.idles j ∙ o.idles j;
  rsps = λ j. h.rsps j ∙ o.rsps j;
  current = h.current ∙ o.current;
  idle = h.idle ∙ o.idle;
}

get_link-kept :
    (s r : Sched) (prev : Option ℕ) (t : ℕ) (ts xs es zs : List ℕ)
    → Outside prev (t ∷ ts)
    → Walked s r (some t) ts xs es zs
    → get_link r prev ≡ get_link s prev
get_link-kept s r none t ts xs es zs o h = h.head t refl
get_link-kept s r (some p) t ts xs es zs o h = h.links p o.1 (λ e. o.0 (ground arith))

-- The first sleeper is passed over, then the others are walked from its link.
Walked-passed :
    (s r : Sched) (prev : Option ℕ) (t : ℕ) (ts xs es zs : List ℕ)
    → Outside prev (t ∷ ts)
    → get_link s prev ≡ some t
    → Walked s r (some t) ts xs es zs
    → Walked s r prev (t ∷ ts) xs es (t ∷ zs)
Walked-passed s r prev t ts xs es zs o e h = record {
  queue = h.queue;
  chain = (get_link-kept s r prev t ts xs es zs o h ∙ e, h.chain);
  woken = h.woken;
  states = h.states;
  links = λ j m k. h.links j m.1 (λ q. m.0 (ground arith));
  head = λ p q. h.head t refl;
  idles = h.idles;
  rsps = h.rsps;
  current = h.current;
  idle = h.idle;
}

-- What the walk needs of the state it starts from.
pub record Walkable (now : ℕ) (d : ℕ → ℕ) (s : Sched) (prev cur : Option ℕ) (ts xs : List ℕ)
    : Type 0 where
  pub clock : s.ticks ≡ now
  pub deadlines : (j : ℕ) → (s.thread j).sleep_deadline ≡ d j
  pub link : get_link s prev ≡ cur
  pub chain : Chain (sleep_links s) cur ts
  pub distinct : Distinct ts
  pub outside : Outside prev ts
  pub queue : RunQueue s xs
  pub apart : Apart ts xs

Walkable-woken :
    (now : ℕ) (d : ℕ → ℕ) (s : Sched) (prev : Option ℕ) (t : ℕ) (ts xs : List ℕ)
    → Walkable now d s prev (some t) (t ∷ ts) xs
    → Walkable now d (woken_one s prev t) prev (sleep_links s t) ts (xs ++ t ∷ [])
Walkable-woken now d s prev t ts xs a =
    let (ne, out) = Outside-cons prev t ts a.outside in
    let w = woken_one-WokenOne s prev t ne in
    record {
      clock = w.now ∙ a.clock;
      deadlines = λ j. w.deadlines j ∙ a.deadlines j;
      link = w.link;
      chain = Chain-woken s _ prev t ts (sleep_links s t) w out a.distinct.0 a.chain.1;
      distinct = a.distinct.1;
      outside = out;
      queue = woken_one-RunQueue s prev t xs a.queue a.apart.0;
      apart = Apart-snoc ts xs t a.apart.1 a.distinct.0;
    }

Walkable-passed :
    (now : ℕ) (d : ℕ → ℕ) (s : Sched) (prev : Option ℕ) (t : ℕ) (ts xs : List ℕ)
    → Walkable now d s prev (some t) (t ∷ ts) xs
    → Walkable now d s (some t) (sleep_links s t) ts xs
Walkable-passed now d s prev t ts xs a = record {
  clock = a.clock;
  deadlines = a.deadlines;
  link = refl;
  chain = a.chain.1;
  distinct = a.distinct.1;
  outside = a.distinct.0;
  queue = a.queue;
  apart = a.apart.1;
}

-- The end of the walk.
Walked-end :
    (fuel now : ℕ) (d : ℕ → ℕ) (s : Sched) (prev cur : Option ℕ) (xs : List ℕ)
    → Walkable now d s prev cur [] xs
    → Walked s (wake_walk fuel s prev cur) prev [] xs (expired now d []) (asleep now d [])
unfolding expired asleep
Walked-end fuel now d s prev cur xs a =
    subst (λ (r : Sched). Walked s r prev [] xs [] [])
      (sym (wake_walk-none fuel s prev cur a.chain))
      (Walked-none s prev xs a.queue (a.link ∙ a.chain))

walk_step :
    (fuel now : ℕ) (d : ℕ → ℕ) (s : Sched) (prev : Option ℕ) (t : ℕ) (ts xs : List ℕ)
    → ((w : Sched) (q c : Option ℕ) (ys : List ℕ)
        → Walkable now d w q c ts ys
        → Walked w (wake_walk fuel w q c) q ts ys (expired now d ts) (asleep now d ts))
    → Walkable now d s prev (some t) (t ∷ ts) xs
    → Walked s
        (wake_walk (suc fuel) s prev (some t))
        prev
        (t ∷ ts)
        xs
        (expired now d (t ∷ ts))
        (asleep now d (t ∷ ts))
walk_step fuel now d s prev t ts xs ih a = elim (Bool-cases (leb (d t) now)) [
  | inl e ↦
      let v = woken_one s prev t in
      let h =
        Walked-woken s v (wake_walk fuel v prev (sleep_links s t)) prev t ts xs _ _
          (woken_one-WokenOne s prev t (Outside-cons prev t ts a.outside).0)
          (NotIn-expired now d t ts a.distinct.0)
          (ih v prev (sleep_links s t) (xs ++ t ∷ []) (Walkable-woken now d s prev t ts xs a)) in
      rw (wake_walk-yes fuel s prev t (same ∙ e), expired-yes now d t ts e, asleep-yes now d t ts e)
        h
  | inr e ↦
      let h =
        Walked-passed s (wake_walk fuel s (some t) (sleep_links s t)) prev t ts xs _ _ a.outside
          a.link (ih s (some t) (sleep_links s t) xs (Walkable-passed now d s prev t ts xs a)) in
      rw (wake_walk-no fuel s prev t (same ∙ e), expired-no now d t ts e, asleep-no now d t ts e) h
]
  where
    same : leb (s.thread t).sleep_deadline s.ticks ≡ leb (d t) now
    same = ap₂ leb (a.deadlines t) a.clock

-- The walk with as many rounds as there are sleepers, or more.
pub wake_walk-Walked :
    (ts : List ℕ) (fuel now : ℕ) (d : ℕ → ℕ) (s : Sched) (prev cur : Option ℕ) (xs : List ℕ)
    → length ts ≤ fuel
    → Walkable now d s prev cur ts xs
    → Walked s (wake_walk fuel s prev cur) prev ts xs (expired now d ts) (asleep now d ts)
wake_walk-Walked [] fuel now d s prev cur xs l a = Walked-end fuel now d s prev cur xs a
wake_walk-Walked (t ∷ ts) zero now d s prev cur xs l a = absurd (omega arith)
wake_walk-Walked (t ∷ ts) (suc fuel) now d s prev cur xs l a =
    subst
      (λ (c : Option ℕ).
        Walked s (wake_walk (suc fuel) s prev c) prev (t ∷ ts) xs (expired now d (t ∷ ts))
          (asleep now d (t ∷ ts)))
      (sym a.chain.0)
      (walk_step fuel now d s prev t ts xs
        (λ w q c ys. wake_walk-Walked ts fuel now d w q c ys (omega arith))
        (subst (λ (c : Option ℕ). Walkable now d s prev c (t ∷ ts) xs) a.chain.0 a))
