-- ===== src/Sched.antt =====
-- kernel/sched/sched.c with the threads of kernel/sched/thread.h: the run queue and the sleepers, two
-- lists linked through the thread structs, and the switch that the timer interrupt makes. A
-- pointer to a thread is its number in the store `thread`, NULL is `none`.
pub mod Chain
pub mod Queue
pub mod Fifo
pub mod Frame
pub mod Wake
pub mod Walk
pub mod Start
pub mod Hold
pub mod Tick
mod Tests
use aether_os.Prelude.{
  ℕ, zero, suc, ◌+◌, Bool, true, false, not, ◌&&◌, Option, none, some, List, [], ◌∷◌, ltb, leb,
  ◌==◌, if◌then◌else◌, add64, ◌≡◌,
}

abbrev pub max_cpus : ℕ
max_cpus = 64

-- `thread_state_t`
pub data ThreadState : Type 0 where
  ready running blocked dead : ThreadState

-- `struct thread`, without the stack's base and size, the thread's number and its process.
pub record Thread : Type 0 where
  pub rsp : ℕ
  pub kstack_top : ℕ
  pub state : ThreadState
  pub is_idle : Bool
  pub is_user : Bool
  pub on_cpu : Bool
  pub cr3 : ℕ
  pub run_next : Option ℕ
  pub wait_next : Option ℕ
  pub sleep_next : Option ℕ
  pub sleep_deadline : ℕ

-- The writes to what lies outside the scheduler's own state, in order.
pub data Effect : Type 0 where
  space_destroy : ℕ → Effect
  kfree_thread : ℕ → Effect
  set_kernel_stack : ℕ → Effect
  space_switch : ℕ → Effect

pub record Sched : Type 0 where
  pub thread : ℕ → Thread
  pub rq_head : Option ℕ
  pub rq_tail : Option ℕ
  pub ticks : ℕ
  pub sleep_head : Option ℕ
  pub cpu_current : ℕ → Option ℕ
  pub cpu_idle : ℕ → Option ℕ
  pub reap_pending : ℕ → Option ℕ
  pub effects : List Effect

-- `a[k] = v`
pub update {ℓ} : {A : Type ℓ} → (ℕ → A) → ℕ → A → ℕ → A
update f k v j = if j == k then v else f j

abbrev pub write : Sched → ℕ → Thread → Sched
write s t v = record s { thread = update s.thread t v }

abbrev pub set_state : Sched → ℕ → ThreadState → Sched
set_state s t st = write s t (record (s.thread t) { state = st })

abbrev pub set_run_next : Sched → ℕ → Option ℕ → Sched
set_run_next s t n = write s t (record (s.thread t) { run_next = n })

abbrev pub set_sleep_next : Sched → ℕ → Option ℕ → Sched
set_sleep_next s t n = write s t (record (s.thread t) { sleep_next = n })

abbrev pub set_on_cpu : Sched → ℕ → Bool → Sched
set_on_cpu s t b = write s t (record (s.thread t) { on_cpu = b })

abbrev link_last : Sched → Option ℕ → ℕ → Sched
link_last s (some last) t = set_run_next s last (some t)
link_last s none t = record s { rq_head = some t }

pub rq_add : Sched → ℕ → Sched
rq_add s t =
    let s1 = set_run_next s t none in
    let s2 = link_last s1 s.rq_tail t in record s2 { rq_tail = some t }

abbrev pub is_null : Option ℕ → Bool
is_null none = true
is_null (some t) = false

pub take_head : Sched → Option ℕ → Option ℕ × Sched
take_head s none = (none, s)
take_head s (some t) =
    let head = (s.thread t).run_next in
    let s1 = record s { rq_head = head; rq_tail = if is_null head then none else s.rq_tail } in
    (some t, set_run_next s1 t none)

pub rq_take : Sched → Option ℕ × Sched
rq_take s = take_head s s.rq_head

-- `sched_add`; the lock is held over `rq_add`.
pub sched_add : Sched → ℕ → Sched
sched_add s t = rq_add s t

-- `sched_wake`, once the spin on `on_cpu` has ended.
pub sched_wake : Sched → ℕ → Sched
sched_wake s t = rq_add (set_state s t ready) t

-- `*sp = v`, where `sp` points to `sleep_head` or to a thread's `sleep_next`.
abbrev pub set_link : Sched → Option ℕ → Option ℕ → Sched
set_link s none v = record s { sleep_head = v }
set_link s (some t) v = set_sleep_next s t v

-- The walk of `sched_tick` over the sleepers: `prev` is the thread whose link `sp` points to, none
-- for `sleep_head`, and `cur` is `*sp`. Each round takes one sleeper from the list, so as many
-- rounds as there are sleepers suffice.
pub wake_walk : ℕ → Sched → Option ℕ → Option ℕ → Sched
wake_walk zero s prev cur = s
wake_walk (suc fuel) s prev none = s
wake_walk (suc fuel) s prev (some t) =
    let next = (s.thread t).sleep_next in
    elim (leb (s.thread t).sleep_deadline s.ticks) [
      | true ↦
          wake_walk fuel
            (rq_add (set_state (set_sleep_next (set_link s prev next) t none) t ready) t) prev next
      | false ↦ wake_walk fuel s (some t) next
    ]

-- `if (dead->is_user && dead->cr3 != 0) ...`
abbrev pub give_up_space : Bool → Sched → ℕ → Sched
give_up_space false s d = s
give_up_space true s d = record (write s d (record (s.thread d) { cr3 = 0 })) {
  effects = space_destroy (s.thread d).cr3 ∷ s.effects;
}

abbrev pub reap_as : Option ℕ → Sched → ℕ → Sched
reap_as none s cpu = s
reap_as (some d) s cpu =
    let s1 = record s { reap_pending = update s.reap_pending cpu none } in
    let s2 = give_up_space ((s.thread d).is_user && not ((s.thread d).cr3 == 0)) s1 d in
    record s2 { effects = kfree_thread d ∷ s2.effects }

-- The thread that died on this CPU in the tick before.
pub reap : Sched → ℕ → Sched
reap s cpu = reap_as (s.reap_pending cpu) s cpu

-- `sched_tick` up to the end of the walk over the sleepers.
pub awake : ℕ → Sched → ℕ → ℕ → ℕ → Sched
awake fuel s cpu cur old_rsp =
    let s1 = reap s cpu in
    let s2 = write s1 cur (record (s1.thread cur) { rsp = old_rsp }) in
    let s3 = record s2 { ticks = add64 s2.ticks 1 } in wake_walk fuel s3 none s3.sleep_head

-- `if (cur->state == THREAD_RUNNING && !cur->is_idle) ... else if (cur->state == THREAD_DEAD) ...`
abbrev pub requeue_as : ThreadState → Bool → Sched → ℕ → ℕ → Sched
requeue_as running false s cpu cur = rq_add (set_state s cur ready) cur
requeue_as dead b s cpu cur = record s { reap_pending = update s.reap_pending cpu (some cur) }
requeue_as _ b s cpu cur = s

pub requeue : Sched → ℕ → ℕ → Sched
requeue s cpu cur = requeue_as (s.thread cur).state (s.thread cur).is_idle s cpu cur

-- `next = rq_take(); if (next == NULL) next = cpu_idle[cpu];`
abbrev pub or_idle : Option ℕ → Option ℕ → Option ℕ
or_idle (some t) idle = some t
or_idle none idle = idle

-- `if (cur != next) cur->on_cpu = false;`
abbrev pub hand_off : Bool → Sched → ℕ → Sched
hand_off true s cur = s
hand_off false s cur = set_on_cpu s cur false

-- The hand-over to the thread that is to run.
pub switch_to : Sched → ℕ → ℕ → ℕ → Sched
switch_to s cpu cur next =
    let s1 = set_state s next running in
    let s2 = hand_off (cur == next) s1 cur in
    let s3 = set_on_cpu s2 next true in
    record s3 { cpu_current = update s3.cpu_current cpu (some next) }

-- The address space and kernel stack of the thread that is to run; `kernel_pml4` is the kernel's.
pub enter : ℕ → Sched → ℕ → Sched
enter kernel_pml4 s next =
    let t = s.thread next in
    record s {
      effects =
          if t.is_user && not (t.cr3 == 0)
          then space_switch t.cr3 ∷ set_kernel_stack t.kstack_top ∷ s.effects
          else space_switch kernel_pml4 ∷ s.effects;
    }

-- The part of `sched_tick` after the sleepers are awake.
abbrev pub finish : ℕ → Sched → ℕ → ℕ → Option ℕ → Option (ℕ × Sched)
finish kernel_pml4 s cpu cur none = none
finish kernel_pml4 s cpu cur (some next) =
    let s1 = enter kernel_pml4 (switch_to s cpu cur next) next in some ((s1.thread next).rsp, s1)

pub pick : Sched → ℕ → Option ℕ × Sched
pick s cpu = let (t, s1) = rq_take s in (or_idle t (s1.cpu_idle cpu), s1)

-- `sched_tick` on CPU `cpu`: the stack pointer to go on with, and the new state; `none` is a fault,
-- a CPU with no current thread or no idle thread. `fuel` bounds the walk over the sleepers.
pub sched_tick : ℕ → ℕ → Sched → ℕ → ℕ → Option (ℕ × Sched)
sched_tick fuel kernel_pml4 s cpu old_rsp = elim (s.cpu_current cpu) [
  | none ↦ none
  | some cur ↦
      let s5 = requeue (awake fuel s cpu cur old_rsp) cpu cur in
      let (next, s6) = pick s5 cpu in finish kernel_pml4 s6 cpu cur next
]

-- `sched_sleep_ms` up to the yield, for the current thread of the CPU.
pub sched_sleep_ms : Sched → ℕ → ℕ → Sched
sched_sleep_ms s cpu ms = elim (s.cpu_current cpu) [
  | none ↦ s
  | some t ↦
      if (s.thread t).is_idle
      then s
      else record (write s t (record (s.thread t) {
        sleep_deadline = add64 s.ticks ms;
        state = blocked;
        sleep_next = s.sleep_head;
      })) { sleep_head = some t }
]
