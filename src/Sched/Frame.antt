-- ===== src/Sched/Frame.antt =====
-- What the steps of kernel/sched/sched.c leave as it was.
use aether_os.Prelude.{ℕ, ◌≡◌, ◌≢◌, refl, ◌∙◌, Option, none, some, List, [], ◌∷◌, ◌++◌, arith}
use aether_os.Sched.{
  Sched, ready, update, set_run_next, set_state, set_sleep_next, set_link, link_last, rq_add,
}
use aether_os.Sched.Chain.{NotIn}
use aether_os.Sched.Queue.{RunQueue, RunQueue-cong, rq_add-RunQueue}

-- The links of the sleepers.
abbrev pub sleep_links : Sched → ℕ → Option ℕ
sleep_links s j = (s.thread j).sleep_next

-- `*sp`
abbrev pub get_link : Sched → Option ℕ → Option ℕ
get_link s none = s.sleep_head
get_link s (some p) = sleep_links s p

-- What rq_add does not write: all of a thread but its place in the queue, the clock, the sleepers'
-- head and the CPUs' threads.
pub record SameRest (s r : Sched) : Type 0 where
  pub links : (j : ℕ) → sleep_links r j ≡ sleep_links s j
  pub states : (j : ℕ) → (r.thread j).state ≡ (s.thread j).state
  pub deadlines : (j : ℕ) → (r.thread j).sleep_deadline ≡ (s.thread j).sleep_deadline
  pub idles : (j : ℕ) → (r.thread j).is_idle ≡ (s.thread j).is_idle
  pub rsps : (j : ℕ) → (r.thread j).rsp ≡ (s.thread j).rsp
  pub head : r.sleep_head ≡ s.sleep_head
  pub now : r.ticks ≡ s.ticks
  pub current : r.cpu_current ≡ s.cpu_current
  pub idle : r.cpu_idle ≡ s.cpu_idle

linked-SameRest :
    (s : Sched) (t : ℕ) (l : Option ℕ)
    → SameRest s (record (link_last (set_run_next s t none) l t) { rq_tail = some t })
unfolding update
linked-SameRest s t none = record {
  links = λ j. ground arith;
  states = λ j. ground arith;
  deadlines = λ j. ground arith;
  idles = λ j. ground arith;
  rsps = λ j. ground arith;
  head = refl;
  now = refl;
  current = refl;
  idle = refl;
}
linked-SameRest s t (some u) = record {
  links = λ j. ground arith;
  states = λ j. ground arith;
  deadlines = λ j. ground arith;
  idles = λ j. ground arith;
  rsps = λ j. ground arith;
  head = refl;
  now = refl;
  current = refl;
  idle = refl;
}

pub rq_add-SameRest : (s : Sched) (t : ℕ) → SameRest s (rq_add s t)
unfolding rq_add
rq_add-SameRest s t = linked-SameRest s t s.rq_tail

-- One sleeper taken from the list and made ready, before it is put into the run queue.
abbrev unslept : Sched → Option ℕ → ℕ → Sched
unslept s prev t = set_state (set_sleep_next (set_link s prev (sleep_links s t)) t none) t ready

-- One sleeper woken.
unfoldable pub woken_one : Sched → Option ℕ → ℕ → Sched
woken_one s prev t = rq_add (unslept s prev t) t

-- What waking one sleeper does.
pub record WokenOne (s r : Sched) (prev : Option ℕ) (t : ℕ) : Type 0 where
  pub links : (j : ℕ) → j ≢ t → prev ≢ some j → sleep_links r j ≡ sleep_links s j
  pub link : get_link r prev ≡ sleep_links s t
  pub head : (p : ℕ) → prev ≡ some p → r.sleep_head ≡ s.sleep_head
  pub woken : (r.thread t).state ≡ ready
  pub states : (j : ℕ) → j ≢ t → (r.thread j).state ≡ (s.thread j).state
  pub deadlines : (j : ℕ) → (r.thread j).sleep_deadline ≡ (s.thread j).sleep_deadline
  pub idles : (j : ℕ) → (r.thread j).is_idle ≡ (s.thread j).is_idle
  pub rsps : (j : ℕ) → (r.thread j).rsp ≡ (s.thread j).rsp
  pub now : r.ticks ≡ s.ticks
  pub current : r.cpu_current ≡ s.cpu_current
  pub idle : r.cpu_idle ≡ s.cpu_idle

unslept-WokenOne :
    (s : Sched) (prev : Option ℕ) (t : ℕ) → prev ≢ some t → WokenOne s (unslept s prev t) prev t
unfolding update
unslept-WokenOne s none t h = record {
  links = λ j n m. ground arith;
  link = refl;
  head = λ p e. cc;
  woken = ground arith;
  states = λ j n. ground arith;
  deadlines = λ j. ground arith;
  idles = λ j. ground arith;
  rsps = λ j. ground arith;
  now = refl;
  current = refl;
  idle = refl;
}
unslept-WokenOne s (some p) t h = record {
  links = λ j n m. ground arith;
  link = ground arith;
  head = λ p e. refl;
  woken = ground arith;
  states = λ j n. ground arith;
  deadlines = λ j. ground arith;
  idles = λ j. ground arith;
  rsps = λ j. ground arith;
  now = refl;
  current = refl;
  idle = refl;
}

get_link-SameRest : (s r : Sched) (p : Option ℕ) → SameRest s r → get_link r p ≡ get_link s p
get_link-SameRest s r none h = h.head
get_link-SameRest s r (some p) h = h.links p

WokenOne-SameRest :
    (s r v : Sched) (prev : Option ℕ) (t : ℕ)
    → WokenOne s r prev t
    → SameRest r v
    → WokenOne s v prev t
WokenOne-SameRest s r v prev t w f = record {
  links = λ j n m. f.links j ∙ w.links j n m;
  link = get_link-SameRest r v prev f ∙ w.link;
  head = λ p e. f.head ∙ w.head p e;
  woken = f.states t ∙ w.woken;
  states = λ j n. f.states j ∙ w.states j n;
  deadlines = λ j. f.deadlines j ∙ w.deadlines j;
  idles = λ j. f.idles j ∙ w.idles j;
  rsps = λ j. f.rsps j ∙ w.rsps j;
  now = f.now ∙ w.now;
  current = f.current ∙ w.current;
  idle = f.idle ∙ w.idle;
}

pub woken_one-WokenOne :
    (s : Sched) (prev : Option ℕ) (t : ℕ) → prev ≢ some t → WokenOne s (woken_one s prev t) prev t
unfolding woken_one
woken_one-WokenOne s prev t h =
    WokenOne-SameRest s (unslept s prev t) _ prev t (unslept-WokenOne s prev t h)
      (rq_add-SameRest (unslept s prev t) t)

unslept-RunQueue :
    (s : Sched) (prev : Option ℕ) (t : ℕ) (xs : List ℕ)
    → RunQueue s xs
    → RunQueue (unslept s prev t) xs
unfolding update
unslept-RunQueue s none t xs q = RunQueue-cong s _ xs (λ j. ground arith) refl refl q
unslept-RunQueue s (some p) t xs q = RunQueue-cong s _ xs (λ j. ground arith) refl refl q

-- The woken sleeper is the last of the run queue.
pub woken_one-RunQueue :
    (s : Sched) (prev : Option ℕ) (t : ℕ) (xs : List ℕ)
    → RunQueue s xs
    → NotIn t xs
    → RunQueue (woken_one s prev t) (xs ++ t ∷ [])
unfolding woken_one
woken_one-RunQueue s prev t xs q n =
    rq_add-RunQueue (unslept s prev t) t xs (unslept-RunQueue s prev t xs q) n
