-- ===== src/Mutex/Exclusion.antt =====
-- Mutual exclusion and wake-ups of kernel/sync/mutex.c.
use aether_os.Prelude.{
  ℕ, ◌≡◌, refl, sym, subst, ap, ◌∙◌, inl, inr, Bool, true, false, Bool-cases, if◌then◌else◌,
}
use aether_os.Prelude.Store.{store, store_self, store_other}
use aether_os.Mutex.{Mutex, mutex_lock, mutex_unlock, mutex_try_lock, acquire, sleep}
use aether_os.Mutex.Threads.{
  Phase, outside, waiting, holding, waking, System, Step, Steps, enter, again, try, leave, wake,
  at_start, after_step, lock, unlock, rouse, try_lock, after_lock, after_try, Fresh,
}
use aether_os.Mutex.Inv.{
  In, Distinct, Valid, Coming, tries, will_wake, CanPass, outside-CanPass, awake-CanPass,
  outside_waking, apart_phases, apart_waking, some_same,
}
use aether_os.Mutex.Passes.{slept-Valid, taken-Valid, refused-Valid}
use aether_os.Mutex.Wakes.{left-Valid, rouse-Valid}

lock-Valid : (s : System) (t : ℕ) → Valid s → CanPass s t → Valid (lock t s)
unfolding mutex_lock
lock-Valid s t v c = elim (Bool-cases s.mutex.locked) [
  | inl l ↦ subst Valid (sym (ap picked l)) (slept-Valid s v t l c)
  | inr l ↦ subst Valid (sym (ap picked l)) (taken-Valid s v t l c)
]
  where
    picked : Bool → System
    picked b =
        let r : Bool × Mutex = if b then (false, sleep t s.mutex) else (true, acquire t s.mutex) in
        record { mutex = r.1; phase = store s.phase t (after_lock r.0) }

try_lock-Valid : (s : System) (t : ℕ) → Valid s → s.phase t ≡ outside → Valid (try_lock t s)
unfolding mutex_try_lock
try_lock-Valid s t v o = elim (Bool-cases s.mutex.locked) [
  | inl l ↦ subst Valid (sym (ap picked l)) (refused-Valid s v t l o)
  | inr l ↦ subst Valid (sym (ap picked l)) (taken-Valid s v t l (outside-CanPass s t v o))
]
  where
    picked : Bool → System
    picked b =
        let r : Bool × Mutex = if b then (false, s.mutex) else (true, acquire t s.mutex) in
        record { mutex = r.1; phase = store s.phase t (after_try r.0) }

unlock-Valid : (s : System) (t : ℕ) → Valid s → s.phase t ≡ holding → Valid (unlock t s)
unfolding mutex_unlock
unlock-Valid s t v h = left-Valid s v t h s.mutex.waiters refl

Step-Valid : {s r : System} → Valid s → Step s r → Valid r
Step-Valid {s} v (enter t o) = lock-Valid s t v (outside-CanPass s t v o)
Step-Valid {s} v (again t w b) = lock-Valid s t v (awake-CanPass s t v w b)
Step-Valid {s} v (try t o) = try_lock-Valid s t v o
Step-Valid {s} v (leave t h) = unlock-Valid s t v h
Step-Valid {s} v (wake t w k) = rouse-Valid s v t w k

Fresh-Valid : (s : System) → Fresh s → Valid s
unfolding In Distinct
Fresh-Valid s f = record {
  owned = λ t h. let o = f.all_outside t in cc;
  locked = λ t h. let o = f.all_outside t in cc;
  queued = λ t i. absurd (subst (In t) f.no_waiters i);
  asleep = λ t w b. absurd (apart_phases (s.phase t) w (f.all_outside t));
  distinct = subst Distinct (sym f.no_waiters) tt;
  chosen = λ t w k. absurd (outside_waking (s.phase t) w (f.all_outside t) k);
  alone = λ t u w k l. absurd (outside_waking (s.phase t) w (f.all_outside t) k);
  coming = λ e. inl f.no_waiters;
}

Steps-Valid : {s r : System} → Valid s → Steps s r → Valid r
Steps-Valid v at_start = v
Steps-Valid v (after_step steps step) = Step-Valid (Steps-Valid v steps) step

-- Threads use a mutex that nobody has used: in any order they call mutex_lock and mutex_try_lock, pass
-- the loop of mutex_lock again when they are awake, and the one that holds the mutex calls
-- mutex_unlock. Then at no time two threads hold the mutex.
pub one_holder :
    (s r : System) (t u : ℕ)
    → Fresh s
    → Steps s r
    → r.phase t ≡ holding
    → r.phase u ≡ holding
    → t ≡ u
one_holder s r t u f steps ht hu =
    let v = Steps-Valid (Fresh-Valid s f) steps in some_same t u (sym (v.owned t ht) ∙ v.owned u hu)

-- A thread that waits can hold the mutex after steps that end with a pass of its loop.
pub record Progress (s : System) : Type 0 where
  pub thread : ℕ
  pub waits : s.phase thread ≡ waiting
  pub next : System
  pub steps : Steps s next
  pub holds : next.phase thread ≡ holding

lock_free : (s : System) (t : ℕ) → s.mutex.locked ≡ false → (lock t s).phase t ≡ holding
unfolding mutex_lock
lock_free s t free = store_self s.phase t _ ∙ ap after free
  where
    after : Bool → Phase
    after b =
        let r : Bool × Mutex = if b then (false, sleep t s.mutex) else (true, acquire t s.mutex) in
        after_lock r.0

Coming-Progress : (s : System) → s.mutex.locked ≡ false → Coming s → Progress s
Coming-Progress s free (tries a) = record {
  thread = a.thread;
  waits = a.waits;
  next = lock a.thread s;
  steps = after_step at_start (again a.thread a.waits a.awake);
  holds = lock_free s a.thread free;
}
Coming-Progress s free (will_wake w waits k) =
    let roused = rouse k.waker w s in
    let still : roused.phase w ≡ waiting =
      store_other s.phase k.waker w outside (λ e.
        apart_waking (s.phase w) w waits (subst (λ (j : ℕ). s.phase j ≡ waking w) (sym e) k.wakes))
      ∙ waits in
    record {
      thread = w;
      waits = waits;
      next = lock w roused;
      steps =
          after_step (after_step at_start (wake k.waker w k.wakes))
            (again w still (store_self s.mutex.blocked w false));
      holds = lock_free roused w free;
    }

-- Threads use a mutex that nobody has used, in any order, by mutex_lock, mutex_try_lock and, where
-- they hold it, mutex_unlock, which releases the mutex's spinlock before it wakes the waiter it has
-- chosen. Whenever the mutex is free and a thread sleeps in mutex_lock, a thread in mutex_lock is
-- awake, or some thread is in mutex_unlock, about to wake one that is in mutex_lock. From there a
-- thread that is in mutex_lock can go on to hold the mutex.
pub no_lost_wake :
    (s r : System) (t : ℕ)
    → Fresh s
    → Steps s r
    → r.mutex.locked ≡ false
    → r.phase t ≡ waiting
    → r.mutex.blocked t ≡ true
    → Coming r × Progress r
unfolding In
no_lost_wake s r t f steps free w b =
    let v = Steps-Valid (Fresh-Valid s f) steps in
    let coming : Coming r = elim (v.asleep t w b) [
      | inr waker ↦ will_wake t w waker
      | inl queued ↦ elim (v.coming free) [
        | inl none_left ↦ absurd (subst (In t) none_left queued)
        | inr coming ↦ coming
      ]
    ] in
    (coming, Coming-Progress r free coming)
