-- ===== src/Sched/Wake.antt =====
-- The threads that the walk over the sleepers in kernel/sched/sched.c wakes, and its single rounds.
use aether_os.Prelude.{
  ℕ, zero, suc, ◌≡◌, ◌≢◌, refl, sym, subst, Option, none, some, List, [], ◌∷◌, ◌++◌, arith, leb,
  true, false, if◌then◌else◌, Bool-cases, inl, inr,
}
use aether_os.Sched.{Sched, ready, wake_walk}
use aether_os.Sched.Chain.{Chain, Chain-Agrees, Agrees, NotIn, NotIn-snoc}
use aether_os.Sched.Queue.{RunQueue}
use aether_os.Sched.Frame.{sleep_links, get_link, woken_one, WokenOne}

-- Those whose deadline, by `d`, is not after `now`, and the others.
unfoldable pub expired : ℕ → (ℕ → ℕ) → List ℕ → List ℕ
expired now d [] = []
expired now d (t ∷ ts) = if leb (d t) now then t ∷ expired now d ts else expired now d ts

unfoldable pub asleep : ℕ → (ℕ → ℕ) → List ℕ → List ℕ
asleep now d [] = []
asleep now d (t ∷ ts) = if leb (d t) now then asleep now d ts else t ∷ asleep now d ts

-- No thread is in both lists.
abbrev pub Apart : List ℕ → List ℕ → Type 0
Apart [] xs = Unit {0}
Apart (t ∷ ts) xs = NotIn t xs × Apart ts xs

abbrev pub AllReady : Sched → List ℕ → Type 0
AllReady s [] = Unit {0}
AllReady s (t ∷ ts) = ((s.thread t).state ≡ ready) × AllReady s ts

-- The thread whose link is followed is none of these.
abbrev pub Outside : Option ℕ → List ℕ → Type 0
Outside none ts = Unit {0}
Outside (some p) ts = NotIn p ts

-- What the walk over the sleepers `ts`, from the link of `prev`, makes of `s`, whose run queue
-- holds `xs`: it wakes `es` and leaves `zs` asleep.
pub record Walked (s r : Sched) (prev : Option ℕ) (ts xs es zs : List ℕ) : Type 0 where
  pub queue : RunQueue r (xs ++ es)
  pub chain : Chain (sleep_links r) (get_link r prev) zs
  pub woken : AllReady r es
  pub states : (j : ℕ) → NotIn j es → (r.thread j).state ≡ (s.thread j).state
  pub links : (j : ℕ) → NotIn j ts → prev ≢ some j → sleep_links r j ≡ sleep_links s j
  pub head : (p : ℕ) → prev ≡ some p → r.sleep_head ≡ s.sleep_head
  pub idles : (j : ℕ) → (r.thread j).is_idle ≡ (s.thread j).is_idle
  pub rsps : (j : ℕ) → (r.thread j).rsp ≡ (s.thread j).rsp
  pub current : r.cpu_current ≡ s.cpu_current
  pub idle : r.cpu_idle ≡ s.cpu_idle

pub expired-yes :
    (now : ℕ) (d : ℕ → ℕ) (t : ℕ) (ts : List ℕ)
    → leb (d t) now ≡ true
    → expired now d (t ∷ ts) ≡ t ∷ expired now d ts
unfolding expired
expired-yes now d t ts e = ground arith

pub expired-no :
    (now : ℕ) (d : ℕ → ℕ) (t : ℕ) (ts : List ℕ)
    → leb (d t) now ≡ false
    → expired now d (t ∷ ts) ≡ expired now d ts
unfolding expired
expired-no now d t ts e = ground arith

pub asleep-yes :
    (now : ℕ) (d : ℕ → ℕ) (t : ℕ) (ts : List ℕ)
    → leb (d t) now ≡ true
    → asleep now d (t ∷ ts) ≡ asleep now d ts
unfolding asleep
asleep-yes now d t ts e = ground arith

pub asleep-no :
    (now : ℕ) (d : ℕ → ℕ) (t : ℕ) (ts : List ℕ)
    → leb (d t) now ≡ false
    → asleep now d (t ∷ ts) ≡ t ∷ asleep now d ts
unfolding asleep
asleep-no now d t ts e = ground arith

pub wake_walk-yes :
    (fuel : ℕ) (s : Sched) (prev : Option ℕ) (t : ℕ)
    → leb (s.thread t).sleep_deadline s.ticks ≡ true
    → wake_walk (suc fuel) s prev (some t)
      ≡ wake_walk fuel (woken_one s prev t) prev (sleep_links s t)
unfolding wake_walk woken_one
wake_walk-yes fuel s prev t e = rw (e, wake_walk) refl

pub wake_walk-no :
    (fuel : ℕ) (s : Sched) (prev : Option ℕ) (t : ℕ)
    → leb (s.thread t).sleep_deadline s.ticks ≡ false
    → wake_walk (suc fuel) s prev (some t) ≡ wake_walk fuel s (some t) (sleep_links s t)
unfolding wake_walk
wake_walk-no fuel s prev t e = rw (e, wake_walk) refl

pub wake_walk-none :
    (fuel : ℕ) (s : Sched) (prev cur : Option ℕ) → cur ≡ none → wake_walk fuel s prev cur ≡ s
unfolding wake_walk
wake_walk-none zero s prev cur e = refl
wake_walk-none (suc fuel) s prev none e = refl
wake_walk-none (suc fuel) s prev (some t) e = cc

pub NotIn-expired :
    (now : ℕ) (d : ℕ → ℕ) (t : ℕ) (ts : List ℕ) → NotIn t ts → NotIn t (expired now d ts)
unfolding expired
NotIn-expired now d t [] n = tt
NotIn-expired now d t (x ∷ xs) n = elim (Bool-cases (leb (d x) now)) [
  | inl e ↦ subst (NotIn t) (sym (expired-yes now d x xs e)) (n.0, NotIn-expired now d t xs n.1)
  | inr e ↦ subst (NotIn t) (sym (expired-no now d x xs e)) (NotIn-expired now d t xs n.1)
]

pub Apart-snoc : (ts xs : List ℕ) (t : ℕ) → Apart ts xs → NotIn t ts → Apart ts (xs ++ t ∷ [])
Apart-snoc [] xs t a n = tt
Apart-snoc (u ∷ us) xs t a n =
    (NotIn-snoc u t xs a.0 (λ e. n.0 (sym e)), Apart-snoc us xs t a.1 n.1)

-- A link that is none of the list's.
pub Chain-woken :
    (s r : Sched) (prev : Option ℕ) (t : ℕ) (ts : List ℕ) (p : Option ℕ)
    → WokenOne s r prev t
    → Outside prev ts
    → NotIn t ts
    → Chain (sleep_links s) p ts
    → Chain (sleep_links r) p ts
Chain-woken s r prev t ts p w o n c = Chain-Agrees _ _ p ts (agree ts o n) c
  where
    apart : (q : Option ℕ) (u : ℕ) (us : List ℕ) → Outside q (u ∷ us) → q ≢ some u
    apart none u us h = λ e. cc
    apart (some v) u us h = λ e. h.0 (ground arith)

    rest : (q : Option ℕ) (u : ℕ) (us : List ℕ) → Outside q (u ∷ us) → Outside q us
    rest none u us h = tt
    rest (some v) u us h = h.1

    agree : (us : List ℕ) → Outside prev us → NotIn t us → Agrees (sleep_links s) (sleep_links r) us
    agree [] h m = tt
    agree (u ∷ us) h m = (sym (w.links u m.0 (apart prev u us h)), agree us (rest prev u us h) m.1)
