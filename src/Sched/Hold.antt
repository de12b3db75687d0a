-- ===== src/Sched/Hold.antt =====
-- The states that sched_tick of kernel/sched/sched.c passes through: the run queue, the sleepers and
-- the saved stack pointers in each.
use aether_os.Prelude.{
  ℕ, ◌≡◌, refl, sym, subst, ap, ◌∙◌, Option, none, some, List, [], ◌∷◌, ◌++◌, arith, ◌==◌, Bool,
  true, false, append-nil,
}
use aether_os.Sched.{
  Sched, ThreadState, ready, running, blocked, dead, update, set_state, rq_add, take_head, reap,
  reap_as, give_up_space, requeue, requeue_as, pick, or_idle, switch_to, enter, hand_off,
  set_on_cpu,
}
use aether_os.Sched.Chain.{Chain, Chain-Agrees, Agrees-all, NotIn}
use aether_os.Sched.Queue.{
  RunQueue, RunQueue-cong, run_links, rq_add-RunQueue, set_state-RunQueue, taken, rq_take-head,
  rq_take-empty,
}
use aether_os.Sched.Frame.{sleep_links, rq_add-SameRest}

-- The links, the clock and the CPUs' threads are as they were, and so is of each thread what
-- sched_tick reads.
pub record Keeps (s r : Sched) : Type 0 where
  pub runs : (j : ℕ) → run_links s j ≡ run_links r j
  pub links : (j : ℕ) → sleep_links r j ≡ sleep_links s j
  pub states : (j : ℕ) → (r.thread j).state ≡ (s.thread j).state
  pub deadlines : (j : ℕ) → (r.thread j).sleep_deadline ≡ (s.thread j).sleep_deadline
  pub idles : (j : ℕ) → (r.thread j).is_idle ≡ (s.thread j).is_idle
  pub rsps : (j : ℕ) → (r.thread j).rsp ≡ (s.thread j).rsp
  pub first : s.rq_head ≡ r.rq_head
  pub last : s.rq_tail ≡ r.rq_tail
  pub head : r.sleep_head ≡ s.sleep_head
  pub now : r.ticks ≡ s.ticks
  pub current : r.cpu_current ≡ s.cpu_current
  pub idle : r.cpu_idle ≡ s.cpu_idle

reap_space-Keeps :
    (s : Sched) (cpu d : ℕ) (b : Bool)
    → Keeps s (give_up_space b (record s { reap_pending = update s.reap_pending cpu none }) d)
unfolding update
reap_space-Keeps s cpu d false = record {
  runs = λ j. refl;
  links = λ j. refl;
  states = λ j. refl;
  deadlines = λ j. refl;
  idles = λ j. refl;
  rsps = λ j. refl;
  first = refl;
  last = refl;
  head = refl;
  now = refl;
  current = refl;
  idle = refl;
}
reap_space-Keeps s cpu d true = record {
  runs = λ j. ground arith;
  links = λ j. ground arith;
  states = λ j. ground arith;
  deadlines = λ j. ground arith;
  idles = λ j. ground arith;
  rsps = λ j. ground arith;
  first = refl;
  last = refl;
  head = refl;
  now = refl;
  current = refl;
  idle = refl;
}

reap_as-Keeps : (o : Option ℕ) (s : Sched) (cpu : ℕ) → Keeps s (reap_as o s cpu)
reap_as-Keeps none s cpu = record {
  runs = λ j. refl;
  links = λ j. refl;
  states = λ j. refl;
  deadlines = λ j. refl;
  idles = λ j. refl;
  rsps = λ j. refl;
  first = refl;
  last = refl;
  head = refl;
  now = refl;
  current = refl;
  idle = refl;
}
reap_as-Keeps (some d) s cpu =
    let k = reap_space-Keeps s cpu d _ in
    record {
      runs = k.runs;
      links = k.links;
      states = k.states;
      deadlines = k.deadlines;
      idles = k.idles;
      rsps = k.rsps;
      first = k.first;
      last = k.last;
      head = k.head;
      now = k.now;
      current = k.current;
      idle = k.idle;
    }

pub reap-Keeps : (s : Sched) (cpu : ℕ) → Keeps s (reap s cpu)
unfolding reap
reap-Keeps s cpu = reap_as-Keeps (s.reap_pending cpu) s cpu

-- The run queue `xs`, the sleepers `ts`, the saved stack pointers, and the threads of CPU `cpu`.
pub record Holds (s : Sched) (cpu : ℕ) (cur : ℕ) (i : ℕ) (rsps : ℕ → ℕ) (xs ts : List ℕ)
    : Type 0 where
  pub queue : RunQueue s xs
  pub sleepers : Chain (sleep_links s) s.sleep_head ts
  pub current : s.cpu_current cpu ≡ some cur
  pub idle : s.cpu_idle cpu ≡ some i
  pub saved : (j : ℕ) → (s.thread j).rsp ≡ rsps j

pub Chain-links :
    (s r : Sched) (ts : List ℕ)
    → ((j : ℕ) → sleep_links r j ≡ sleep_links s j)
    → r.sleep_head ≡ s.sleep_head
    → Chain (sleep_links s) s.sleep_head ts
    → Chain (sleep_links r) r.sleep_head ts
Chain-links s r ts l h c =
    subst (λ (p : Option ℕ). Chain (sleep_links r) p ts) (sym h)
      (Chain-Agrees _ _ s.sleep_head ts (Agrees-all _ _ ts (λ j. sym (l j))) c)

-- `rq_add` of the thread that ran.
added-Holds :
    (s : Sched) (cpu cur i : ℕ) (rsps : ℕ → ℕ) (xs ts : List ℕ)
    → NotIn cur xs
    → Holds s cpu cur i rsps xs ts
    → Holds (rq_add (set_state s cur ready) cur) cpu cur i rsps (xs ++ cur ∷ []) ts
unfolding update
added-Holds s cpu cur i rsps xs ts n h =
    let f = rq_add-SameRest (set_state s cur ready) cur in
    record {
      queue =
          rq_add-RunQueue (set_state s cur ready) cur xs (set_state-RunQueue s cur ready xs h.queue)
            n;
      sleepers =
          Chain-links s (rq_add (set_state s cur ready) cur) ts (λ j. f.links j ∙ ground arith)
            f.head h.sleepers;
      current = ap (λ (g : ℕ → Option ℕ). g cpu) f.current ∙ h.current;
      idle = ap (λ (g : ℕ → Option ℕ). g cpu) f.idle ∙ h.idle;
      saved = λ j. f.rsps j ∙ (ground (arith, h.saved j));
    }

-- What requeue puts behind the queue.
unfoldable pub requeued : ThreadState → Bool → ℕ → List ℕ
requeued running false cur = cur ∷ []
requeued running true cur = []
requeued ready b cur = []
requeued blocked b cur = []
requeued dead b cur = []

same-Holds :
    (s : Sched) (cpu cur i : ℕ) (rsps : ℕ → ℕ) (xs ts : List ℕ)
    → Holds s cpu cur i rsps xs ts
    → Holds s cpu cur i rsps (xs ++ []) ts
same-Holds s cpu cur i rsps xs ts h =
    subst (λ (ys : List ℕ). Holds s cpu cur i rsps ys ts) (sym (append-nil xs)) h

requeue_as-Holds :
    (v : ThreadState) (b : Bool) (s : Sched) (cpu cur i : ℕ) (rsps : ℕ → ℕ) (xs ts : List ℕ)
    → (v ≡ running → NotIn cur xs)
    → Holds s cpu cur i rsps xs ts
    → Holds (requeue_as v b s cpu cur) cpu cur i rsps (xs ++ requeued v b cur) ts
unfolding requeued
requeue_as-Holds running false s cpu cur i rsps xs ts n h =
    added-Holds s cpu cur i rsps xs ts (n refl) h
requeue_as-Holds running true s cpu cur i rsps xs ts n h = same-Holds s cpu cur i rsps xs ts h
requeue_as-Holds ready b s cpu cur i rsps xs ts n h = same-Holds s cpu cur i rsps xs ts h
requeue_as-Holds blocked b s cpu cur i rsps xs ts n h = same-Holds s cpu cur i rsps xs ts h
requeue_as-Holds dead b s cpu cur i rsps xs ts n h =
    same-Holds (record s { reap_pending = update s.reap_pending cpu (some cur) }) cpu cur i rsps xs
      ts
      (record {
        queue = RunQueue-cong s _ xs (λ j. refl) refl refl h.queue;
        sleepers = h.sleepers;
        current = h.current;
        idle = h.idle;
        saved = h.saved;
      })

-- The thread that ran stands last if it is still running and not the idle thread.
pub requeue-Holds :
    (s : Sched) (cpu cur i : ℕ) (rsps : ℕ → ℕ) (xs ts : List ℕ)
    → ((s.thread cur).state ≡ running → NotIn cur xs)
    → Holds s cpu cur i rsps xs ts
    → Holds
        (requeue s cpu cur)
        cpu
        cur
        i
        rsps
        (xs ++ requeued (s.thread cur).state (s.thread cur).is_idle cur)
        ts
unfolding requeue
requeue-Holds s cpu cur i rsps xs ts n h =
    requeue_as-Holds (s.thread cur).state (s.thread cur).is_idle s cpu cur i rsps xs ts n h

-- The thread that is chosen from a queue, and the queue that is left.
pub front_or : ℕ → List ℕ → ℕ
front_or i [] = i
front_or i (x ∷ xs) = x

pub others : List ℕ → List ℕ
others [] = []
others (x ∷ xs) = xs

taken-rest :
    (s : Sched) (cpu cur i x : ℕ) (rsps : ℕ → ℕ) (xs ts : List ℕ)
    → Holds s cpu cur i rsps (x ∷ xs) ts
    → RunQueue (take_head s (some x)).1 xs
    → Holds (take_head s (some x)).1 cpu cur i rsps xs ts
unfolding take_head update
taken-rest s cpu cur i x rsps xs ts h q = record {
  queue = q;
  sleepers = Chain-links s (take_head s (some x)).1 ts (λ j. ground arith) refl h.sleepers;
  current = h.current;
  idle = h.idle;
  saved = λ j. ground (arith, h.saved j);
}

-- What pick chooses.
abbrev Picked : Option ℕ × Sched → ℕ → ℕ → ℕ → (ℕ → ℕ) → List ℕ → List ℕ → Type 0
Picked o cpu cur i rsps xs ts =
    (o.0 ≡ some (front_or i xs)) × Holds o.1 cpu cur i rsps (others xs) ts

pub pick-Holds :
    (s : Sched) (cpu cur i : ℕ) (rsps : ℕ → ℕ) (xs ts : List ℕ)
    → Holds s cpu cur i rsps xs ts
    → ((pick s cpu).0 ≡ some (front_or i xs)) × Holds (pick s cpu).1 cpu cur i rsps (others xs) ts
unfolding pick front_or others take_head
pick-Holds s cpu cur i rsps [] ts h =
    subst
      (λ (o : Option ℕ × Sched). Picked (or_idle o.0 (o.1.cpu_idle cpu), o.1) cpu cur i rsps [] ts)
      (sym (rq_take-empty s h.queue)) (h.idle, h)
pick-Holds s cpu cur i rsps (x ∷ xs) ts h =
    subst
      (λ (o : Option ℕ × Sched).
        Picked (or_idle o.0 (o.1.cpu_idle cpu), o.1) cpu cur i rsps (x ∷ xs) ts)
      (sym (rq_take-head s x h.queue.chain.0))
      (refl, taken-rest s cpu cur i x rsps xs ts h (taken s x xs h.queue))

-- The thread that runs after the hand-over.
pub record Runs (s : Sched) (cpu next : ℕ) (rsps : ℕ → ℕ) (xs ts : List ℕ) : Type 0 where
  pub queue : RunQueue s xs
  pub sleepers : Chain (sleep_links s) s.sleep_head ts
  pub current : s.cpu_current cpu ≡ some next
  pub state : (s.thread next).state ≡ running
  pub on_cpu : (s.thread next).on_cpu ≡ true
  pub saved : (j : ℕ) → (s.thread j).rsp ≡ rsps j

-- The hand-over, by whether the thread that ran goes on.
abbrev handed : Bool → Sched → ℕ → ℕ → ℕ → Sched
handed b s cpu cur next =
    let s3 = set_on_cpu (hand_off b (set_state s next running) cur) next true in
    record s3 { cpu_current = update s3.cpu_current cpu (some next) }

handed-Runs :
    (b : Bool) (s : Sched) (cpu cur i next : ℕ) (rsps : ℕ → ℕ) (xs ts : List ℕ)
    → Holds s cpu cur i rsps xs ts
    → Runs (handed b s cpu cur next) cpu next rsps xs ts
unfolding update
handed-Runs true s cpu cur i next rsps xs ts h = record {
  queue = RunQueue-cong s (handed true s cpu cur next) xs (λ j. ground arith) refl refl h.queue;
  sleepers = Chain-links s (handed true s cpu cur next) ts (λ j. ground arith) refl h.sleepers;
  current = ground arith;
  state = ground arith;
  on_cpu = ground arith;
  saved = λ j. ground (arith, h.saved j);
}
handed-Runs false s cpu cur i next rsps xs ts h = record {
  queue = RunQueue-cong s (handed false s cpu cur next) xs (λ j. ground arith) refl refl h.queue;
  sleepers = Chain-links s (handed false s cpu cur next) ts (λ j. ground arith) refl h.sleepers;
  current = ground arith;
  state = ground arith;
  on_cpu = ground arith;
  saved = λ j. ground (arith, h.saved j);
}

pub switched-Runs :
    (k : ℕ) (s : Sched) (cpu cur i next : ℕ) (rsps : ℕ → ℕ) (xs ts : List ℕ)
    → Holds s cpu cur i rsps xs ts
    → Runs (enter k (switch_to s cpu cur next) next) cpu next rsps xs ts
unfolding enter switch_to
switched-Runs k s cpu cur i next rsps xs ts h =
    let r = handed-Runs (cur == next) s cpu cur i next rsps xs ts h in
    record {
      queue =
          RunQueue-cong (handed (cur == next) s cpu cur next)
            (enter k (switch_to s cpu cur next) next) xs (λ j. refl) refl refl r.queue;
      sleepers = r.sleepers;
      current = r.current;
      state = r.state;
      on_cpu = r.on_cpu;
      saved = r.saved;
    }
