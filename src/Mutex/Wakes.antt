-- ===== src/Mutex/Wakes.antt =====
-- mutex_unlock of kernel/sync/mutex.c, and the wake-up that follows it, keep the invariant.
use aether_os.Prelude.{
  ℕ, ◌≡◌, ◌≢◌, ◌⊎◌, refl, sym, subst, ◌∙◌, inl, inr, true, false, none, Option, List, [], ◌∷◌,
}
use native.Mathlib.Decide.{ℕ_discrete}
use aether_os.Prelude.Store.{store, store_self, store_other}
use aether_os.Mutex.{Mutex, take_first}
use aether_os.Mutex.Threads.{Phase, outside, waiting, holding, waking, System, after_unlock, rouse}
use aether_os.Mutex.Inv.{
  In, Distinct, Valid, Waker, tries, will_wake, Chosen, unwritten, apart_holding, apart_waking,
  holding_waking, waking_same, some_same,
}

module _ (s : System) (v : Valid s) (t : ℕ) where
  -- After mutex_unlock by the thread that holds the mutex, up to the release of the spinlock.
  abbrev pub left : List ℕ → System
  left ws =
      let r : Option ℕ × Mutex = take_first ws (record s.mutex { locked = false; owner = none }) in
      record { mutex = r.1; phase = store s.phase t (after_unlock r.0) }

  module _ (h : s.phase t ≡ holding) where
    not_waiting : (u : ℕ) → s.phase u ≡ waiting → u ≢ t
    not_waiting u w e =
        apart_holding (s.phase u) w (subst (λ (k : ℕ). s.phase k ≡ holding) (sym e) h)

    not_waking : (u w : ℕ) → s.phase u ≡ waking w → u ≢ t
    not_waking u w k e =
        holding_waking (s.phase u) w (subst (λ (j : ℕ). s.phase j ≡ holding) (sym e) h) k

    -- Nobody else holds it.
    no_holder : (p : Phase) → p ≢ holding → (u : ℕ) → store s.phase t p u ≡ holding → ⊥
    no_holder p d u e =
        let (ne, hu) = unwritten s.phase t u p holding e d in
        ne (some_same u t (sym (v.owned u hu) ∙ v.owned t h))

    still_waits : (p : Phase) (u : ℕ) → s.phase u ≡ waiting → store s.phase t p u ≡ waiting
    still_waits p u w = store_other s.phase t u p (not_waiting u w) ∙ w

    still_wakes : (p : Phase) (u : ℕ) → Waker s u → (x : ℕ) × (store s.phase t p x ≡ waking u)
    still_wakes p u k =
        (k.waker, store_other s.phase t k.waker p (not_waking k.waker u k.wakes) ∙ k.wakes)

    nobody_left-Valid : s.mutex.waiters ≡ [] → Valid (left [])
    unfolding In Distinct
    nobody_left-Valid e = record {
      owned = λ u x. absurd (no_holder outside (λ y. cc) u x);
      locked = λ u x. absurd (no_holder outside (λ y. cc) u x);
      queued = λ u i. absurd (subst (In u) e i);
      distinct = v.distinct;
      asleep = λ u x b. elim (v.asleep u (unwritten s.phase t u outside waiting x (λ y. cc)).1 b) [
        | inl i ↦ inl i
        | inr k ↦
            let (y, wakes) = still_wakes outside u k in inr (record { waker = y; wakes = wakes })
      ];
      chosen = λ x u k.
          let was = v.chosen x u (unwritten s.phase t x outside (waking u) k (λ y. cc)).1 in
          record {
            waits = still_waits outside u was.waits;
            sleeps = was.sleeps;
            unqueued = was.unqueued;
          };
      alone = λ x y w a b.
          v.alone x y w (unwritten s.phase t x outside (waking w) a (λ z. cc)).1
            (unwritten s.phase t y outside (waking w) b (λ z. cc)).1;
      coming = λ free. inl e;
    }

    one_chosen-Valid : (w : ℕ) (ws : List ℕ) → s.mutex.waiters ≡ w ∷ ws → Valid (left (w ∷ ws))
    unfolding In Distinct
    one_chosen-Valid w ws e = record {
      owned = λ u x. absurd (no_holder (waking w) (λ y. cc) u x);
      locked = λ u x. absurd (no_holder (waking w) (λ y. cc) u x);
      queued = λ u i. (still_waits (waking w) u (back u (inr i)).0, (back u (inr i)).1);
      distinct = d.1;
      asleep = asleep;
      chosen = chosen;
      alone = alone;
      coming = λ free. inr (will_wake w (still_waits (waking w) w (back w (inl refl)).0) here);
    }
      where
        d : Distinct (w ∷ ws)
        d = subst Distinct e v.distinct

        back : (u : ℕ) → In u (w ∷ ws) → (s.phase u ≡ waiting) × (s.mutex.blocked u ≡ true)
        back u i = v.queued u (subst (In u) (sym e) i)

        here : Waker (left (w ∷ ws)) w
        here = record { waker = t; wakes = store_self s.phase t (waking w) }

        -- No other thread wakes it.
        fresh : (x : ℕ) → s.phase x ≡ waking w → ⊥
        fresh x k = (v.chosen x w k).unqueued (subst (In w) (sym e) (inl refl))

        asleep :
            (u : ℕ)
            → store s.phase t (waking w) u ≡ waiting
            → s.mutex.blocked u ≡ true
            → In u ws ⊎ Waker (left (w ∷ ws)) u
        asleep u x b =
            elim (v.asleep u (unwritten s.phase t u (waking w) waiting x (λ y. cc)).1 b) [
              | inl i ↦ elim (subst (In u) e i) [
                | inl same ↦ inr (subst (Waker (left (w ∷ ws))) same here)
                | inr j ↦ inl j
              ]
              | inr k ↦
                  let (y, wakes) = still_wakes (waking w) u k in
                  inr (record { waker = y; wakes = wakes })
            ]

        -- Before, if it is not the thread that leaves.
        before : (x u : ℕ) → x ≢ t → store s.phase t (waking w) x ≡ waking u → s.phase x ≡ waking u
        before x u ne k = sym (store_other s.phase t x (waking w) ne) ∙ k

        -- The thread that leaves wakes the first waiter.
        only : (x u : ℕ) → x ≡ t → store s.phase t (waking w) x ≡ waking u → w ≡ u
        only x u same k = waking_same w u (
            sym (store_self s.phase t (waking w))
            ∙ subst (λ (j : ℕ). store s.phase t (waking w) j ≡ waking u) same k)

        chosen : (x u : ℕ) → store s.phase t (waking w) x ≡ waking u → Chosen (left (w ∷ ws)) u
        chosen x u k = elim (ℕ_discrete x t) [
          | yes same ↦ subst (Chosen (left (w ∷ ws))) (only x u same k) (record {
            waits = still_waits (waking w) w (back w (inl refl)).0;
            sleeps = (back w (inl refl)).1;
            unqueued = d.0;
          })
          | no ne ↦
              let was = v.chosen x u (before x u ne k) in
              record {
                waits = still_waits (waking w) u was.waits;
                sleeps = was.sleeps;
                unqueued = λ i. was.unqueued (subst (In u) (sym e) (inr i));
              }
        ]

        alone :
            (x y u : ℕ)
            → store s.phase t (waking w) x ≡ waking u
            → store s.phase t (waking w) y ≡ waking u
            → x ≡ y
        alone x y u a b = elim (ℕ_discrete x t) [
          | yes ex ↦ elim (ℕ_discrete y t) [
            | yes ey ↦ ex ∙ sym ey
            | no ny ↦ absurd (
                fresh y
                  (subst (λ (j : ℕ). s.phase y ≡ waking j) (sym (only x u ex a)) (before y u ny b)))
          ]
          | no nx ↦ elim (ℕ_discrete y t) [
            | yes ey ↦ absurd (
                fresh x
                  (subst (λ (j : ℕ). s.phase x ≡ waking j) (sym (only y u ey b)) (before x u nx a)))
            | no ny ↦ v.alone x y u (before x u nx a) (before y u ny b)
          ]
        ]

    pub left-Valid : (ws : List ℕ) → s.mutex.waiters ≡ ws → Valid (left ws)
    left-Valid [] e = nobody_left-Valid e
    left-Valid (w ∷ ws) e = one_chosen-Valid w ws e

  -- The wake-up of the thread that was taken off the list.
  pub rouse-Valid : (w : ℕ) → s.phase t ≡ waking w → Valid (rouse t w s)
  rouse-Valid w k = record {
    owned = λ u x. v.owned u (unwritten s.phase t u outside holding x (λ y. cc)).1;
    locked = λ u x. v.locked u (unwritten s.phase t u outside holding x (λ y. cc)).1;
    queued = λ u i. (
      still u (v.queued u i).0,
      store_other s.mutex.blocked w u false
            (λ e. was.unqueued (subst (λ (j : ℕ). In j s.mutex.waiters) e i))
          ∙ (v.queued u i).1,
    );
    distinct = v.distinct;
    asleep = asleep;
    chosen = chosen;
    alone = λ x y u a b.
        v.alone x y u (unwritten s.phase t x outside (waking u) a (λ z. cc)).1
          (unwritten s.phase t y outside (waking u) b (λ z. cc)).1;
    coming = λ free. inr (
        tries (record {
          thread = w;
          waits = still w was.waits;
          awake = store_self s.mutex.blocked w false;
        }));
  }
    where
      was : Chosen s w
      was = v.chosen t w k

      still : (u : ℕ) → s.phase u ≡ waiting → store s.phase t outside u ≡ waiting
      still u x =
          store_other s.phase t u outside
            (λ e. apart_waking (s.phase u) w x (subst (λ (j : ℕ). s.phase j ≡ waking w) (sym e) k))
          ∙ x

      asleep :
          (u : ℕ)
          → store s.phase t outside u ≡ waiting
          → store s.mutex.blocked w false u ≡ true
          → In u s.mutex.waiters ⊎ Waker (rouse t w s) u
      asleep u x b =
          let (ne, bu) = unwritten s.mutex.blocked w u false true b (λ y. cc) in
          elim (v.asleep u (unwritten s.phase t u outside waiting x (λ y. cc)).1 bu) [
            | inl i ↦ inl i
            | inr j ↦
                let other : j.waker ≢ t = λ e. ne (
                  sym (
                    waking_same w u (sym k ∙ subst (λ (i : ℕ). s.phase i ≡ waking u) e j.wakes))) in
                inr (record {
                  waker = j.waker;
                  wakes = store_other s.phase t j.waker outside other ∙ j.wakes;
                })
          ]

      chosen : (x u : ℕ) → store s.phase t outside x ≡ waking u → Chosen (rouse t w s) u
      chosen x u a =
          let (ne, old) = unwritten s.phase t x outside (waking u) a (λ y. cc) in
          let one = v.chosen x u old in
          record {
            waits = still u one.waits;
            sleeps =
                store_other s.mutex.blocked w u false
                  (λ e. ne (v.alone x t w (subst (λ (j : ℕ). s.phase x ≡ waking j) e old) k))
                ∙ one.sleeps;
            unqueued = one.unqueued;
          }
