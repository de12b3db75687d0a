-- ===== src/Sched/Tick.antt =====
-- One tick of kernel/sched/sched.c: who is woken, who runs next, who waits.
use aether_os.Prelude.{
  ℕ, ◌≤◌, ◌≡◌, ◌≢◌, refl, sym, subst, ap, ◌∙◌, Option, some, List, [], ◌∷◌, ◌++◌, Bool, inl, inr,
  ◌⊎◌, length,
}
use native.Mathlib.Decide.{ℕ_discrete}
use aether_os.Sched.{
  Sched, ThreadState, ready, running, blocked, dead, awake, requeue, pick, finish, sched_tick,
  enter, switch_to,
}
use aether_os.Sched.Chain.{NotIn}
use aether_os.Sched.Wake.{expired, asleep, AllReady, NotIn-expired}
use aether_os.Sched.Hold.{
  Holds, requeued, requeue-Holds, front_or, others, pick-Holds, Runs, switched-Runs,
}
use aether_os.Sched.Start.{
  Between, now_of, deadline_of, runnable, saved_rsps, started-state, started-is_idle, awake-Walked,
  awake-Holds,
}

ready_or :
    (r : Sched) (t : ℕ) (es : List ℕ) → AllReady r es → NotIn t es ⊎ ((r.thread t).state ≡ ready)
ready_or r t [] a = inl tt
ready_or r t (x ∷ xs) a = elim (ℕ_discrete x t) [
  | yes e ↦ inr (subst (λ (u : ℕ). (r.thread u).state ≡ ready) e a.0)
  | no ne ↦ elim (ready_or r t xs a.1) [ inl m ↦ inl (ne, m) | inr e ↦ inr e ]
]

-- A thread that runs after the walk ran before it.
ran_before :
    (r : Sched) (cur : ℕ) (v : ThreadState) (es : List ℕ)
    → AllReady r es
    → (NotIn cur es → (r.thread cur).state ≡ v)
    → (r.thread cur).state ≡ running
    → v ≡ running
ran_before r cur v es a e h = elim (ready_or r cur es a) [ inl m ↦ sym (e m) ∙ h | inr m ↦ cc ]

requeued_stopped : (v : ThreadState) (b : Bool) (cur : ℕ) → v ≢ running → requeued v b cur ≡ []
unfolding requeued
requeued_stopped running b cur n = absurd (n refl)
requeued_stopped ready b cur n = refl
requeued_stopped blocked b cur n = refl
requeued_stopped dead b cur n = refl

is_running? : (v : ThreadState) → (v ≡ running) ⊎ (v ≢ running)
is_running? running = inl refl
is_running? ready = inr (λ e. cc)
is_running? blocked = inr (λ e. cc)
is_running? dead = inr (λ e. cc)

-- The walk wakes others only, so whether the thread that ran waits again is as before it.
still_requeued :
    (r : Sched) (cur : ℕ) (v : ThreadState) (b : Bool) (es : List ℕ)
    → AllReady r es
    → (NotIn cur es → (r.thread cur).state ≡ v)
    → (v ≡ running → NotIn cur es)
    → requeued (r.thread cur).state b cur ≡ requeued v b cur
still_requeued r cur v b es a e n = elim (is_running? v) [
  | inl h ↦ ap (λ (w : ThreadState). requeued w b cur) (e (n h))
  | inr h ↦
      requeued_stopped (r.thread cur).state b cur (λ g. h (ran_before r cur v es a e g))
      ∙ sym (requeued_stopped v b cur h)
]

NotIn-append : (t : ℕ) (xs ys : List ℕ) → NotIn t xs → NotIn t ys → NotIn t (xs ++ ys)
NotIn-append t [] ys m n = n
NotIn-append t (x ∷ xs) ys m n = (m.0, NotIn-append t xs ys m.1 n)

requeued-Holds :
    (fuel : ℕ) (s : Sched) (cpu cur i old_rsp : ℕ) (xs ts : List ℕ)
    → length ts ≤ fuel
    → Between s cpu cur i xs ts
    → Holds
        (requeue (awake fuel s cpu cur old_rsp) cpu cur)
        cpu
        cur
        i
        (saved_rsps s cur old_rsp)
        (runnable s cur xs ts)
        (asleep (now_of s) (deadline_of s) ts)
unfolding runnable
requeued-Holds fuel s cpu cur i old_rsp xs ts l b =
    let r = awake fuel s cpu cur old_rsp in
    let es = expired (now_of s) (deadline_of s) ts in
    let w = awake-Walked fuel s cpu cur i old_rsp xs ts l b in
    let kept = λ (m : NotIn cur es). w.states cur m ∙ started-state s cpu cur old_rsp cur in
    let out = λ (h : (s.thread cur).state ≡ running).
      NotIn-expired (now_of s) (deadline_of s) cur ts (b.alone h).1 in
    let back =
      still_requeued r cur (s.thread cur).state (r.thread cur).is_idle es w.woken kept out
      ∙ ap (λ (c : Bool). requeued (s.thread cur).state c cur)
          (w.idles cur ∙ started-is_idle s cpu cur old_rsp cur) in
    subst
      (λ (bs : List ℕ).
        Holds (requeue r cpu cur) cpu cur i (saved_rsps s cur old_rsp) (xs ++ es ++ bs)
          (asleep (now_of s) (deadline_of s) ts))
      back
      (requeue-Holds r cpu cur i (saved_rsps s cur old_rsp) (xs ++ es)
        (asleep (now_of s) (deadline_of s) ts)
        (λ h.
          let v = ran_before r cur (s.thread cur).state es w.woken kept h in
          NotIn-append cur xs es (b.alone v).0 (out v))
        (awake-Holds fuel s cpu cur i old_rsp xs ts l b))

-- What a tick gives.
abbrev pub Ticked : Option (ℕ × Sched) → ℕ → ℕ → (ℕ → ℕ) → List ℕ → List ℕ → Type 0
Ticked o cpu next rsps xs ts = (r : Sched) × (o ≡ some (rsps next, r)) × Runs r cpu next rsps xs ts

finish-Ticked :
    (k : ℕ) (s : Sched) (cpu cur i next : ℕ) (rsps : ℕ → ℕ) (xs ts : List ℕ)
    → Holds s cpu cur i rsps xs ts
    → Ticked (finish k s cpu cur (some next)) cpu next rsps xs ts
finish-Ticked k s cpu cur i next rsps xs ts h =
    let r = enter k (switch_to s cpu cur next) next in
    let f = switched-Runs k s cpu cur i next rsps xs ts h in
    (r, ap (λ (n : ℕ). some (n, r)) (f.saved next), f)

-- What follows the walk.
abbrev chosen : ℕ → Sched → ℕ → ℕ → Option (ℕ × Sched)
chosen k s cpu cur = let (next, s6) = pick s cpu in finish k s6 cpu cur next

chosen-Ticked :
    (k : ℕ) (s : Sched) (cpu cur i : ℕ) (rsps : ℕ → ℕ) (xs ts : List ℕ)
    → Holds s cpu cur i rsps xs ts
    → Ticked (chosen k s cpu cur) cpu (front_or i xs) rsps (others xs) ts
chosen-Ticked k s cpu cur i rsps xs ts h =
    let (e, rest) = pick-Holds s cpu cur i rsps xs ts h in
    subst
      (λ (o : Option ℕ).
        Ticked (finish k (pick s cpu).1 cpu cur o) cpu (front_or i xs) rsps (others xs) ts)
      (sym e) (finish-Ticked k (pick s cpu).1 cpu cur i (front_or i xs) rsps (others xs) ts rest)

sched_tick-chosen :
    (fuel k : ℕ) (s : Sched) (cpu cur old_rsp : ℕ)
    → s.cpu_current cpu ≡ some cur
    → sched_tick fuel k s cpu old_rsp
      ≡ chosen k (requeue (awake fuel s cpu cur old_rsp) cpu cur) cpu cur
unfolding sched_tick
sched_tick-chosen fuel k s cpu cur old_rsp e = rw (e, sched_tick) refl

-- One tick on a CPU that runs `cur`, with a correctly linked run queue `xs` and sleepers `ts`, where
-- the fuel is at least the number of sleepers. The threads that can run are, in order, those of the
-- queue, the sleepers whose deadline is not after the new clock value, and `cur` if it is still
-- running and is not the idle thread. The tick resumes the first of them, or the idle thread if
-- there are none, with its saved stack pointer (the given one, if it is `cur`), and marks it
-- running on this CPU; the others are the run queue, in this order, and the remaining sleepers the
-- list of sleepers, each linked correctly.
pub sched_tick_lem :
    (fuel kernel_pml4 : ℕ) (s : Sched) (cpu cur i old_rsp : ℕ) (xs ts : List ℕ)
    → length ts ≤ fuel
    → Between s cpu cur i xs ts
    → (r : Sched) × (sched_tick fuel kernel_pml4 s cpu old_rsp
        ≡ some (saved_rsps s cur old_rsp (front_or i (runnable s cur xs ts)), r))
      × Runs r cpu
          (front_or i (runnable s cur xs ts))
          (saved_rsps s cur old_rsp)
          (others (runnable s cur xs ts))
          (asleep (now_of s) (deadline_of s) ts)
sched_tick_lem fuel k s cpu cur i old_rsp xs ts l b =
    subst
      (λ (o : Option (ℕ × Sched)).
        Ticked o cpu (front_or i (runnable s cur xs ts)) (saved_rsps s cur old_rsp)
          (others (runnable s cur xs ts)) (asleep (now_of s) (deadline_of s) ts))
      (sym (sched_tick-chosen fuel k s cpu cur old_rsp b.current))
      (chosen-Ticked k _ cpu cur i (saved_rsps s cur old_rsp) (runnable s cur xs ts)
        (asleep (now_of s) (deadline_of s) ts) (requeued-Holds fuel s cpu cur i old_rsp xs ts l b))
