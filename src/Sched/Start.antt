-- ===== src/Sched/Start.antt =====
-- sched_tick of kernel/sched/sched.c up to the end of the walk over the sleepers.
use aether_os.Prelude.{
  ℕ, ◌≤◌, ◌≡◌, refl, ap, ◌∙◌, Option, none, some, List, ◌++◌, arith, ◌==◌, if◌then◌else◌, length,
  add64,
}
use aether_os.Sched.{Sched, running, update, reap, awake, write}
use aether_os.Sched.Chain.{Chain, Distinct, NotIn}
use aether_os.Sched.Queue.{RunQueue, RunQueue-cong}
use aether_os.Sched.Frame.{sleep_links}
use aether_os.Sched.Wake.{Walked, expired, asleep, Apart}
use aether_os.Sched.Walk.{Walkable, wake_walk-Walked}
use aether_os.Sched.Hold.{reap-Keeps, Holds, Chain-links, requeued}

-- The scheduler between two ticks: CPU `cpu` runs `cur` and has the idle thread `i`, the run queue
-- holds `xs` and the sleepers are `ts`. A running thread is in neither.
pub record Between (s : Sched) (cpu cur i : ℕ) (xs ts : List ℕ) : Type 0 where
  pub current : s.cpu_current cpu ≡ some cur
  pub idle : s.cpu_idle cpu ≡ some i
  pub queue : RunQueue s xs
  pub sleepers : Chain (sleep_links s) s.sleep_head ts
  pub distinct : Distinct ts
  pub apart : Apart ts xs
  pub alone : (s.thread cur).state ≡ running → NotIn cur xs × NotIn cur ts

-- The clock after the tick, and the deadlines.
abbrev pub now_of : Sched → ℕ
now_of s = add64 s.ticks 1

abbrev pub deadline_of : Sched → ℕ → ℕ
deadline_of s j = (s.thread j).sleep_deadline

-- The threads that could run, in order: the queue, then those whose time has come, then the thread
-- that ran if it is still running and not the idle thread.
unfoldable pub runnable : Sched → ℕ → List ℕ → List ℕ → List ℕ
runnable s cur xs ts =
    xs
    ++ expired (now_of s) (deadline_of s) ts
    ++ requeued (s.thread cur).state (s.thread cur).is_idle cur

-- The saved stack pointers with that of the thread that ran.
pub saved_rsps : Sched → ℕ → ℕ → ℕ → ℕ
saved_rsps s cur old_rsp j = if j == cur then old_rsp else (s.thread j).rsp

-- `sched_tick` before the walk.
pub started : Sched → ℕ → ℕ → ℕ → Sched
started s cpu cur old_rsp =
    let s1 = reap s cpu in
    let s2 = write s1 cur (record (s1.thread cur) { rsp = old_rsp }) in
    record s2 { ticks = add64 s2.ticks 1 }

pub started-Walkable :
    (s : Sched) (cpu cur i old_rsp : ℕ) (xs ts : List ℕ)
    → Between s cpu cur i xs ts
    → Walkable
        (now_of s)
        (deadline_of s)
        (started s cpu cur old_rsp)
        none
        (started s cpu cur old_rsp).sleep_head
        ts
        xs
unfolding started update
started-Walkable s cpu cur i old_rsp xs ts b =
    let k = reap-Keeps s cpu in
    record {
      clock = ap (λ (n : ℕ). add64 n 1) k.now;
      deadlines = λ j. ground (arith, k.deadlines j);
      link = refl;
      chain =
          Chain-links s (started s cpu cur old_rsp) ts (λ j. ground (arith, k.links j)) k.head
            b.sleepers;
      distinct = b.distinct;
      outside = tt;
      queue =
          RunQueue-cong s (started s cpu cur old_rsp) xs (λ j. ground (arith, k.runs j)) k.first
            k.last b.queue;
      apart = b.apart;
    }

pub started-state :
    (s : Sched) (cpu cur old_rsp j : ℕ)
    → ((started s cpu cur old_rsp).thread j).state ≡ (s.thread j).state
unfolding started update
started-state s cpu cur old_rsp j = ground (arith, (reap-Keeps s cpu).states j)

pub started-is_idle :
    (s : Sched) (cpu cur old_rsp j : ℕ)
    → ((started s cpu cur old_rsp).thread j).is_idle ≡ (s.thread j).is_idle
unfolding started update
started-is_idle s cpu cur old_rsp j = ground (arith, (reap-Keeps s cpu).idles j)

pub started-rsp :
    (s : Sched) (cpu cur old_rsp j : ℕ)
    → ((started s cpu cur old_rsp).thread j).rsp ≡ saved_rsps s cur old_rsp j
unfolding started update saved_rsps
started-rsp s cpu cur old_rsp j = ground (arith, (reap-Keeps s cpu).rsps j)

-- The walk of the tick.
pub awake-Walked :
    (fuel : ℕ) (s : Sched) (cpu cur i old_rsp : ℕ) (xs ts : List ℕ)
    → length ts ≤ fuel
    → Between s cpu cur i xs ts
    → Walked
        (started s cpu cur old_rsp)
        (awake fuel s cpu cur old_rsp)
        none
        ts
        xs
        (expired (now_of s) (deadline_of s) ts)
        (asleep (now_of s) (deadline_of s) ts)
unfolding awake started
awake-Walked fuel s cpu cur i old_rsp xs ts l b =
    wake_walk-Walked ts fuel (now_of s) (deadline_of s) (started s cpu cur old_rsp) none
      (started s cpu cur old_rsp).sleep_head xs l (started-Walkable s cpu cur i old_rsp xs ts b)

pub started-current :
    (s : Sched) (cpu cur old_rsp : ℕ) → (started s cpu cur old_rsp).cpu_current ≡ s.cpu_current
unfolding started
started-current s cpu cur old_rsp = (reap-Keeps s cpu).current

pub started-idle :
    (s : Sched) (cpu cur old_rsp : ℕ) → (started s cpu cur old_rsp).cpu_idle ≡ s.cpu_idle
unfolding started
started-idle s cpu cur old_rsp = (reap-Keeps s cpu).idle

pub awake-Holds :
    (fuel : ℕ) (s : Sched) (cpu cur i old_rsp : ℕ) (xs ts : List ℕ)
    → length ts ≤ fuel
    → Between s cpu cur i xs ts
    → Holds
        (awake fuel s cpu cur old_rsp)
        cpu
        cur
        i
        (saved_rsps s cur old_rsp)
        (xs ++ expired (now_of s) (deadline_of s) ts)
        (asleep (now_of s) (deadline_of s) ts)
awake-Holds fuel s cpu cur i old_rsp xs ts l b =
    let w = awake-Walked fuel s cpu cur i old_rsp xs ts l b in
    record {
      queue = w.queue;
      sleepers = w.chain;
      current =
          ap (λ (g : ℕ → Option ℕ). g cpu) (w.current ∙ started-current s cpu cur old_rsp)
          ∙ b.current;
      idle = ap (λ (g : ℕ → Option ℕ). g cpu) (w.idle ∙ started-idle s cpu cur old_rsp) ∙ b.idle;
      saved = λ j. w.rsps j ∙ started-rsp s cpu cur old_rsp j;
    }
