-- ===== src/Mutex/Tests.antt =====
-- Three threads and one mutex: 1 takes it, 2 and 3 wait, 1 leaves.
use aether_os.Prelude.{ℕ, ◌≡◌, refl, true, false}
use aether_os.Prelude.Store.{store}
use aether_os.Mutex.{mutex_init, mutex_lock, mutex_unlock}
use aether_os.Mutex.Threads.{
  outside, waiting, holding, System, Steps, enter, leave, at_start, after_step, lock, unlock, Fresh,
}
use aether_os.Mutex.Inv.{Coming}
use aether_os.Mutex.Exclusion.{Progress, one_holder, no_lost_wake}

abbrev idle : System
idle = record { mutex = mutex_init (λ t. false); phase = λ t. outside }

idle-Fresh : Fresh idle
unfolding mutex_init
idle-Fresh = record { unlocked = refl; no_owner = refl; no_waiters = refl; all_outside = λ t. refl }

abbrev crowded : System
crowded = lock 3 (lock 2 (lock 1 idle))

crowded-Steps : Steps idle crowded
unfolding mutex_lock mutex_init store
crowded-Steps =
    after_step (after_step (after_step at_start (enter 1 refl)) (enter 2 refl)) (enter 3 refl)

one_holds : crowded.phase 1 ≡ holding
unfolding mutex_lock mutex_init store
one_holds = refl

abbrev first : ℕ
first = 1

one_holder_example : first ≡ first
one_holder_example =
    one_holder idle crowded first first idle-Fresh crowded-Steps one_holds one_holds

abbrev left_one : System
left_one = unlock 1 crowded

left_one-Steps : Steps idle left_one
left_one-Steps = after_step crowded-Steps (leave 1 one_holds)

now_free : left_one.mutex.locked ≡ false
unfolding mutex_lock mutex_unlock mutex_init store
now_free = refl

two_waits : left_one.phase 2 ≡ waiting
unfolding mutex_lock mutex_unlock mutex_init store
two_waits = refl

two_sleeps : left_one.mutex.blocked 2 ≡ true
unfolding mutex_lock mutex_unlock mutex_init store
two_sleeps = refl

no_lost_wake_example : Coming left_one × Progress left_one
no_lost_wake_example =
    no_lost_wake idle left_one 2 idle-Fresh left_one-Steps now_free two_waits two_sleeps
