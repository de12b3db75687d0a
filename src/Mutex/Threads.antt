-- ===== src/Mutex/Threads.antt =====
-- Threads that use one mutex of kernel/sync/mutex.c: what each is doing, and the steps of all of
-- them in any order.
use aether_os.Prelude.{ℕ, ◌≡◌, Bool, false, Option, none, some, [], if◌then◌else◌}
use aether_os.Prelude.Store.{store}
use aether_os.Mutex.{Mutex, mutex_lock, mutex_unlock, wake_thread, mutex_try_lock}

-- A thread is outside, in the loop of mutex_lock, between the return of a call that locked the mutex
-- and its mutex_unlock, or in mutex_unlock between the release of the spinlock and the end of
-- sched_wake of some thread.
pub data Phase : Type 0 where
  outside : Phase
  waiting : Phase
  holding : Phase
  waking : ℕ → Phase

pub record System : Type 0 where
  pub mutex : Mutex
  pub phase : ℕ → Phase

-- The phase after a pass of the loop, and after mutex_try_lock.
abbrev pub after_lock : Bool → Phase
after_lock got = if got then holding else waiting

abbrev pub after_try : Bool → Phase
after_try got = if got then holding else outside

abbrev pub lock : ℕ → System → System
lock t s = record {
  mutex = (mutex_lock t s.mutex).1;
  phase = store s.phase t (after_lock (mutex_lock t s.mutex).0);
}

abbrev pub try_lock : ℕ → System → System
try_lock t s = record {
  mutex = (mutex_try_lock t s.mutex).1;
  phase = store s.phase t (after_try (mutex_try_lock t s.mutex).0);
}

abbrev pub after_unlock : Option ℕ → Phase
after_unlock none = outside
after_unlock (some woken) = waking woken

abbrev pub unlock : ℕ → System → System
unlock t s = record {
  mutex = (mutex_unlock s.mutex).1;
  phase = store s.phase t (after_unlock (mutex_unlock s.mutex).0);
}

-- Thread `t` has waked `woken`, and returns from mutex_unlock.
abbrev pub rouse : ℕ → ℕ → System → System
rouse t woken s = record { mutex = wake_thread woken s.mutex; phase = store s.phase t outside }

-- The threads run in any order; one that sleeps waits to be woken, and only a thread that holds
-- the mutex unlocks it.
pub data Step : System → System → Type 0 where
  enter : {s : System} (t : ℕ) → s.phase t ≡ outside → Step s (lock t s)
  again : {s : System} (t : ℕ) → s.phase t ≡ waiting → s.mutex.blocked t ≡ false → Step s (lock t s)
  try : {s : System} (t : ℕ) → s.phase t ≡ outside → Step s (try_lock t s)
  leave : {s : System} (t : ℕ) → s.phase t ≡ holding → Step s (unlock t s)
  wake : {s : System} (t woken : ℕ) → s.phase t ≡ waking woken → Step s (rouse t woken s)

pub data Steps : System → System → Type 0 where
  at_start : {s : System} → Steps s s
  after_step : {s r u : System} → Steps s r → Step r u → Steps s u

-- Nobody uses the mutex yet.
pub record Fresh (s : System) : Type 0 where
  pub unlocked : s.mutex.locked ≡ false
  pub no_owner : s.mutex.owner ≡ none
  pub no_waiters : s.mutex.waiters ≡ []
  pub all_outside : (t : ℕ) → s.phase t ≡ outside
