-- ===== src/Mutex.antt =====
-- kernel/sync/mutex.c and mutex.h: the sleeping lock. mutex_try_lock, a pass of the loop of mutex_lock
-- and mutex_unlock hold the mutex's spinlock from their first to their last access to it, and each is
-- one step. mutex_unlock calls sched_wake when it has released the spinlock: that is a step of its
-- own. The chain of waiters through `wait_next` is a list of thread numbers.
pub mod Threads
pub mod Inv
pub mod Passes
pub mod Wakes
pub mod Exclusion
mod Tests
use aether_os.Prelude.{ℕ, Bool, true, false, Option, none, some, List, [], ◌∷◌, if◌then◌else◌}
use aether_os.Prelude.Store.{store}

-- `mutex_t`, and which threads have the state THREAD_BLOCKED.
pub record Mutex : Type 0 where
  pub locked : Bool
  pub owner : Option ℕ
  pub waiters : List ℕ
  pub blocked : ℕ → Bool

pub mutex_init : (ℕ → Bool) → Mutex
mutex_init blocked = record { locked = false; owner = none; waiters = []; blocked = blocked }

abbrev pub acquire : ℕ → Mutex → Mutex
acquire cur m = record m { locked = true; owner = some cur }

abbrev pub sleep : ℕ → Mutex → Mutex
sleep cur m = record m { waiters = cur ∷ m.waiters; blocked = store m.blocked cur true }

-- A pass of the loop of mutex_lock: true where the function returns, false where the thread sleeps
-- and passes again when it is woken.
unfoldable pub mutex_lock : ℕ → Mutex → Bool × Mutex
mutex_lock cur m = if m.locked then (false, sleep cur m) else (true, acquire cur m)

-- The first waiter is taken off the list.
abbrev pub take_first : List ℕ → Mutex → Option ℕ × Mutex
take_first [] m = (none, m)
take_first (woken ∷ rest) m = (some woken, record m { waiters = rest })

-- mutex_unlock up to its release of the spinlock, and the thread that it then calls sched_wake for.
unfoldable pub mutex_unlock : Mutex → Option ℕ × Mutex
mutex_unlock m = take_first m.waiters (record m { locked = false; owner = none })

-- sched_wake, which does not touch the mutex: the thread is no longer blocked.
abbrev pub wake_thread : ℕ → Mutex → Mutex
wake_thread woken m = record m { blocked = store m.blocked woken false }

unfoldable pub mutex_try_lock : ℕ → Mutex → Bool × Mutex
mutex_try_lock cur m = if m.locked then (false, m) else (true, acquire cur m)
