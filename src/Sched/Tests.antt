-- ===== src/Sched/Tests.antt =====
-- Runs of kernel/sched/sched.c on small states.
use aether_os.Prelude.{
  ℕ, zero, suc, ◌≡◌, refl, Option, none, some, List, [], ◌∷◌, true, false, arith,
}
use aether_os.Sched.{Thread, ThreadState, ready, running, blocked, Sched, sched_tick}
use aether_os.Sched.Queue.{RunQueue}
use aether_os.Sched.Fifo.{Call, Fresh, add, wake, take, run, queue_run, run-queue_run}
use aether_os.Sched.Start.{Between, runnable, saved_rsps, now_of, deadline_of}
use aether_os.Sched.Wake.{asleep, expired}
use aether_os.Sched.Hold.{front_or, requeued, others, Runs}
use aether_os.Sched.Tick.{sched_tick_lem}

abbrev plain_thread : ℕ → ThreadState → Option ℕ → ℕ → Thread
plain_thread n st sleep_next deadline = record {
  rsp = n;
  kstack_top = 0;
  state = st;
  is_idle = false;
  is_user = false;
  on_cpu = false;
  cr3 = 0;
  run_next = none;
  wait_next = none;
  sleep_next = sleep_next;
  sleep_deadline = deadline;
}

-- The idle thread 0, thread 1 running, thread 2 in the queue, threads 3 and 4 asleep.
abbrev threads : ℕ → Thread
threads zero = record (plain_thread 100 ready none 0) { is_idle = true }
threads (suc zero) = plain_thread 101 running none 0
threads (suc (suc zero)) = plain_thread 102 ready none 0
threads (suc (suc (suc zero))) = plain_thread 103 blocked (some 4) 5
threads (suc (suc (suc (suc n)))) = plain_thread 104 blocked none 90

abbrev state : Sched
state = record {
  thread = threads;
  rq_head = some 2;
  rq_tail = some 2;
  ticks = 4;
  sleep_head = some 3;
  cpu_current = λ c. some 1;
  cpu_idle = λ c. some 0;
  reap_pending = λ c. none;
  effects = [];
}

state-Between : Between state 0 1 0 (2 ∷ []) (3 ∷ 4 ∷ [])
state-Between = record {
  current = refl;
  idle = refl;
  queue = record { chain = (refl, refl); tail = refl; distinct = (tt, tt) };
  sleepers = (refl, (refl, refl));
  distinct = (((λ e. ground arith), tt), (tt, tt));
  apart = (((λ e. ground arith), tt), (((λ e. ground arith), tt), tt));
  alone = λ e. (((λ f. ground arith), tt), ((λ f. ground arith), ((λ f. ground arith), tt)));
}

sched_tick_lem_example :
    (r : Sched) × (sched_tick 2 7 state 0 55
      ≡ some (saved_rsps state 1 55 (front_or 0 (runnable state 1 (2 ∷ []) (3 ∷ 4 ∷ []))), r))
    × Runs r 0
        (front_or 0 (runnable state 1 (2 ∷ []) (3 ∷ 4 ∷ [])))
        (saved_rsps state 1 55)
        (others (runnable state 1 (2 ∷ []) (3 ∷ 4 ∷ [])))
        (asleep (now_of state) (deadline_of state) (3 ∷ 4 ∷ []))
sched_tick_lem_example =
    sched_tick_lem 2 7 state 0 1 0 55 (2 ∷ []) (3 ∷ 4 ∷ []) (omega arith) state-Between

-- After thread 2, the woken thread 3 and the preempted thread 1 wait.
runnable_test : runnable state 1 (2 ∷ []) (3 ∷ 4 ∷ []) ≡ 2 ∷ 3 ∷ 1 ∷ []
unfolding runnable expired requeued
runnable_test = refl

abbrev calls : List Call
calls = take ∷ add 2 ∷ wake 1 ∷ take ∷ take ∷ take ∷ []

run-queue_run_example :
    ((run state calls).0 ≡ (queue_run (2 ∷ []) calls).0)
    × RunQueue (run state calls).1 (queue_run (2 ∷ []) calls).1
run-queue_run_example = run-queue_run calls state (2 ∷ []) state-Between.queue fresh
  where
    fresh : Fresh (2 ∷ []) calls
    fresh = (tt, (((λ e. ground arith), tt), tt))
