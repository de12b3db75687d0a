-- ===== src/Sched/Fifo.antt =====
-- Under every sequence of calls the run queue of kernel/sched/sched.c hands the threads out in the
-- order in which they came.
use aether_os.Prelude.{ℕ, ◌≡◌, refl, sym, subst, ap, ap₂, Option, none, some, List, [], ◌∷◌, ◌++◌}
use aether_os.Sched.{Sched, rq_take, sched_add, sched_wake}
use aether_os.Sched.Chain.{NotIn}
use aether_os.Sched.Queue.{
  RunQueue, rq_add-RunQueue, rq_take-RunQueue, rq_take-empty, sched_wake-RunQueue,
}

-- A call on the scheduler that reaches the run queue.
pub data Call : Type 0 where
  add wake : ℕ → Call
  take : Call

-- What the calls give out, in order, and the state after them.
pub run : Sched → List Call → List (Option ℕ) × Sched
run s [] = ([], s)
run s (add t ∷ cs) = run (sched_add s t) cs
run s (wake t ∷ cs) = run (sched_wake s t) cs
run s (take ∷ cs) = let (o, s1) = rq_take s in let (os, s2) = run s1 cs in (o ∷ os, s2)

-- The same calls on a queue, with no store and no links.
pub queue_run : List ℕ → List Call → List (Option ℕ) × List ℕ
queue_run xs [] = ([], xs)
queue_run xs (add t ∷ cs) = queue_run (xs ++ t ∷ []) cs
queue_run xs (wake t ∷ cs) = queue_run (xs ++ t ∷ []) cs
queue_run [] (take ∷ cs) = let (os, ys) = queue_run [] cs in (none ∷ os, ys)
queue_run (x ∷ xs) (take ∷ cs) = let (os, ys) = queue_run xs cs in (some x ∷ os, ys)

-- No call adds a thread that is in the queue.
abbrev pub Fresh : List ℕ → List Call → Type 0
Fresh xs [] = Unit {0}
Fresh xs (add t ∷ cs) = NotIn t xs × Fresh (xs ++ t ∷ []) cs
Fresh xs (wake t ∷ cs) = NotIn t xs × Fresh (xs ++ t ∷ []) cs
Fresh [] (take ∷ cs) = Fresh [] cs
Fresh (x ∷ xs) (take ∷ cs) = Fresh xs cs

sched_add-RunQueue :
    (s : Sched) (t : ℕ) (xs : List ℕ)
    → RunQueue s xs
    → NotIn t xs
    → RunQueue (sched_add s t) (xs ++ t ∷ [])
unfolding sched_add
sched_add-RunQueue s t xs q n = rq_add-RunQueue s t xs q n

-- The calls on the linked queue answer as those on a plain queue, and leave it linked rightly.
abbrev Refines : Sched → List ℕ → List Call → Type 0
Refines s xs cs = ((run s cs).0 ≡ (queue_run xs cs).0) × RunQueue (run s cs).1 (queue_run xs cs).1

-- Let the run queue hold the threads `xs`, in this order, linked through the thread structs, and let
-- a sequence of sched_add, sched_wake and rq_take never add a thread that is in the queue at that
-- moment. Then the calls of rq_take give out what a plain first-in first-out queue would (none when
-- it is empty), and the links, the head and the tail are those of the queue that is left.
pub run-queue_run :
    (cs : List Call) (s : Sched) (xs : List ℕ)
    → RunQueue s xs
    → Fresh xs cs
    → ((run s cs).0 ≡ (queue_run xs cs).0) × RunQueue (run s cs).1 (queue_run xs cs).1
unfolding run queue_run
run-queue_run [] s xs q f = (refl, q)
run-queue_run (add t ∷ cs) s xs q f =
    run-queue_run cs (sched_add s t) (xs ++ t ∷ []) (sched_add-RunQueue s t xs q f.0) f.1
run-queue_run (wake t ∷ cs) s xs q f =
    run-queue_run cs (sched_wake s t) (xs ++ t ∷ []) (sched_wake-RunQueue s t xs q f.0) f.1
run-queue_run (take ∷ cs) s [] q f =
    let e = rq_take-empty s q in
    let ih =
      run-queue_run cs (rq_take s).1 []
        (subst (λ (o : Option ℕ × Sched). RunQueue o.1 []) (sym e) q) f in
    (ap₂ ◌∷◌ (ap (λ (o : Option ℕ × Sched). o.0) e) ih.0, ih.1)
run-queue_run (take ∷ cs) s (x ∷ xs) q f =
    let (e, rest) = rq_take-RunQueue s x xs q in
    let ih = run-queue_run cs (rq_take s).1 xs rest f in (ap₂ ◌∷◌ e ih.0, ih.1)
