-- ===== src/Mutex/Passes.antt =====
-- mutex_lock and mutex_try_lock of kernel/sync/mutex.c keep the invariant.
use aether_os.Prelude.{
  ℕ, ◌≡◌, ◌≢◌, ◌⊎◌, refl, sym, subst, ap, ◌∙◌, inl, inr, true, false, some, ◌∷◌,
}
use native.Mathlib.Decide.{ℕ_discrete}
use aether_os.Prelude.Store.{store, store_self, store_other}
use aether_os.Mutex.{acquire, sleep}
use aether_os.Mutex.Threads.{Phase, outside, waiting, holding, waking, System}
use aether_os.Mutex.Inv.{
  In, Distinct, Valid, Waker, Chosen, CanPass, not_both, unwritten, outside-CanPass,
}

module _ (s : System) (v : Valid s) (t : ℕ) where
  abbrev pub slept : System
  slept = record { mutex = sleep t s.mutex; phase = store s.phase t waiting }

  abbrev pub taken : System
  taken = record { mutex = acquire t s.mutex; phase = store s.phase t holding }

  -- A mutex_try_lock that fails.
  abbrev pub refused : System
  refused = record { mutex = s.mutex; phase = store s.phase t outside }

  module _ (c : CanPass s t) (p : Phase) where
    -- What the other threads are about to do stays as it was.
    moved-Waker : (u : ℕ) → Waker s u → (x : ℕ) × (store s.phase t p x ≡ waking u)
    moved-Waker u k = (
      k.waker,
      store_other s.phase t k.waker p
            (λ e. c.no_waker u (subst (λ (j : ℕ). s.phase j ≡ waking u) e k.wakes))
          ∙ k.wakes,
    )

    moved_other : (u : ℕ) → s.phase u ≡ waiting → u ≢ t → store s.phase t p u ≡ waiting
    moved_other u w ne = store_other s.phase t u p ne ∙ w

    chosen_other : (x u : ℕ) → s.phase x ≡ waking u → u ≢ t
    chosen_other x u k e =
        c.unchosen (record { waker = x; wakes = subst (λ (j : ℕ). s.phase x ≡ waking j) e k })

    queued_other : (u : ℕ) → In u s.mutex.waiters → u ≢ t
    queued_other u i e = c.unqueued (subst (λ (j : ℕ). In j s.mutex.waiters) e i)

  moved_alone :
      (p : Phase)
      → ((w : ℕ) → p ≢ waking w)
      → (x y w : ℕ) → store s.phase t p x ≡ waking w
      → store s.phase t p y ≡ waking w
      → x ≡ y
  moved_alone p ne x y w a b =
      v.alone x y w (unwritten s.phase t x p (waking w) a (ne w)).1
        (unwritten s.phase t y p (waking w) b (ne w)).1

  pub slept-Valid : s.mutex.locked ≡ true → CanPass s t → Valid slept
  unfolding In Distinct
  slept-Valid l c = record {
    owned = λ u h. v.owned u (unwritten s.phase t u waiting holding h (λ e. cc)).1;
    locked = λ u h. l;
    queued = queued;
    distinct = (c.unqueued, v.distinct);
    asleep = asleep;
    chosen = chosen;
    alone = moved_alone waiting (λ w e. cc);
    coming = λ free. absurd (not_both s.mutex.locked l free);
  }
    where
      queued :
          (u : ℕ)
          → In u (t ∷ s.mutex.waiters)
          → (store s.phase t waiting u ≡ waiting) × (store s.mutex.blocked t true u ≡ true)
      queued u i = elim (ℕ_discrete u t) [
        | yes e ↦
            subst
              (λ (k : ℕ).
                (store s.phase t waiting k ≡ waiting) × (store s.mutex.blocked t true k ≡ true))
              (sym e) (store_self s.phase t waiting, store_self s.mutex.blocked t true)
        | no ne ↦ elim i [
          | inl e ↦ absurd (ne (sym e))
          | inr j ↦ (
            moved_other c waiting u (v.queued u j).0 ne,
            store_other s.mutex.blocked t u true ne ∙ (v.queued u j).1,
          )
        ]
      ]

      asleep :
          (u : ℕ)
          → store s.phase t waiting u ≡ waiting
          → store s.mutex.blocked t true u ≡ true
          → In u (t ∷ s.mutex.waiters) ⊎ Waker slept u
      asleep u e b = elim (ℕ_discrete u t) [
        | yes same ↦ inl (inl (sym same))
        | no ne ↦
            elim (v.asleep u (sym (store_other s.phase t u waiting ne) ∙ e)
              (sym (store_other s.mutex.blocked t u true ne) ∙ b)) [
                | inl i ↦ inl (inr i)
                | inr k ↦
                    let (x, wakes) = moved-Waker c waiting u k in
                    inr (record { waker = x; wakes = wakes })
              ]
      ]

      chosen : (x u : ℕ) → store s.phase t waiting x ≡ waking u → Chosen slept u
      chosen x u k =
          let old = (unwritten s.phase t x waiting (waking u) k (λ e. cc)).1 in
          let ne = chosen_other c waiting x u old in
          let was = v.chosen x u old in
          record {
            waits = moved_other c waiting u was.waits ne;
            sleeps = store_other s.mutex.blocked t u true ne ∙ was.sleeps;
            unqueued = λ i. elim i [ inl e ↦ ne (sym e) | inr j ↦ was.unqueued j ];
          }

  -- A change of the phase of a thread that is not on the list: the sleepers are as they were.
  moved_asleep :
      (c : CanPass s t) (p : Phase)
      → p ≢ waiting
      → (u : ℕ) → store s.phase t p u ≡ waiting
      → s.mutex.blocked u ≡ true
      → In u s.mutex.waiters ⊎ ((x : ℕ) × (store s.phase t p x ≡ waking u))
  moved_asleep c p ne u e b = elim (v.asleep u (unwritten s.phase t u p waiting e ne).1 b) [
    | inl i ↦ inl i
    | inr k ↦ inr (moved-Waker c p u k)
  ]

  pub taken-Valid : s.mutex.locked ≡ false → CanPass s t → Valid taken
  taken-Valid free c = record {
    owned = owned;
    locked = λ u h. refl;
    queued = λ u i.
        (moved_other c holding u (v.queued u i).0 (queued_other c holding u i), (v.queued u i).1);
    distinct = v.distinct;
    asleep = λ u e b. elim (moved_asleep c holding (λ x. cc) u e b) [
      | inl i ↦ inl i
      | inr k ↦ inr (record { waker = k.0; wakes = k.1 })
    ];
    chosen = λ x u k.
        let old = (unwritten s.phase t x holding (waking u) k (λ e. cc)).1 in
        let was = v.chosen x u old in
        record {
          waits = moved_other c holding u was.waits (chosen_other c holding x u old);
          sleeps = was.sleeps;
          unqueued = was.unqueued;
        };
    alone = moved_alone holding (λ w e. cc);
    coming = λ e. absurd (not_both true refl e);
  }
    where
      owned : (u : ℕ) → store s.phase t holding u ≡ holding → some t ≡ some u
      owned u h = elim (ℕ_discrete u t) [
        | yes e ↦ ap (λ (k : ℕ). some k) (sym e)
        | no ne ↦
            let l = v.locked u (sym (store_other s.phase t u holding ne) ∙ h) in
            absurd (not_both s.mutex.locked l free)
      ]

  pub refused-Valid : s.mutex.locked ≡ true → s.phase t ≡ outside → Valid refused
  refused-Valid l out =
      let c = outside-CanPass s t v out in
      record {
        owned = λ u h. v.owned u (unwritten s.phase t u outside holding h (λ e. cc)).1;
        locked = λ u h. l;
        queued = λ u i. (
          moved_other c outside u (v.queued u i).0 (queued_other c outside u i),
          (v.queued u i).1,
        );
        distinct = v.distinct;
        asleep = λ u e b. elim (moved_asleep c outside (λ x. cc) u e b) [
          | inl i ↦ inl i
          | inr k ↦ inr (record { waker = k.0; wakes = k.1 })
        ];
        chosen = λ x u k.
            let old = (unwritten s.phase t x outside (waking u) k (λ e. cc)).1 in
            let was = v.chosen x u old in
            record {
              waits = moved_other c outside u was.waits (chosen_other c outside x u old);
              sleeps = was.sleeps;
              unqueued = was.unqueued;
            };
        alone = moved_alone outside (λ w e. cc);
        coming = λ free. absurd (not_both s.mutex.locked l free);
      }
