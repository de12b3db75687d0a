-- ===== src/Fd/Lookup.antt =====
-- Lookups in the descriptor table, and what closing a descriptor does to them.
use native.Mathlib.Decide.{ℕ_discrete}
use aether_os.Prelude.{
  lt→ltb, ℕ, ◌<◌, ◌≡◌, refl, sym, subst, ap, ◌∙◌, ◌≢◌, ◌⊎◌, inl, inr, true, false, none, some,
  arith, length, set, find_from, find_from-Found, Option-cases, get_or-set_self, get_or-set_other,
  length-set,
}
use aether_os.Prelude.Int.{ℤ, pos, negsuc, minus_one}
use aether_os.Fd.{
  FdEntry, FdTable, FdType, max_fds, zero_entry, entry, is_closed, open_entry, fd_type, fd_id,
  fd_to_vfs, alloc_from, fd_alloc, fd_free, fd_set,
}

-- No lookup tells the tables apart.
pub record SameLookups (t u : FdTable) : Type 0 where
  pub kinds : (fd : ℤ) → fd_type t fd ≡ fd_type u fd
  pub ids : (fd : ℤ) → fd_id t fd ≡ fd_id u fd
  pub vfs : (fd : ℤ) → fd_to_vfs t fd ≡ fd_to_vfs u fd

-- Tables that differ in closed slots only.
abbrev ClosedApart : FdTable → FdTable → Type 0
ClosedApart t u =
    (i : ℕ)
    → (entry t i ≡ entry u i) ⊎ (((entry t i).is_open ≡ false) × ((entry u i).is_open ≡ false))

open_entry-ClosedApart :
    (t u : FdTable) → ClosedApart t u → (fd : ℤ) → open_entry t fd ≡ open_entry u fd
unfolding open_entry
open_entry-ClosedApart t u h (pos i) = ground (arith, h i)
open_entry-ClosedApart t u h (negsuc i) = refl

ClosedApart-SameLookups : (t u : FdTable) → ClosedApart t u → SameLookups t u
unfolding fd_type fd_id fd_to_vfs
ClosedApart-SameLookups t u h = record {
  kinds = λ fd. rw (open_entry-ClosedApart t u h fd, fd_type);
  ids = λ fd. rw (open_entry-ClosedApart t u h fd, fd_id);
  vfs = λ fd. rw (open_entry-ClosedApart t u h fd, fd_to_vfs);
}

-- Storing an open entry in a closed slot and closing the slot again.
reopened-ClosedApart :
    (t : FdTable) (i : ℕ) (e closed : FdEntry)
    → i < length t
    → (entry t i).is_open ≡ false
    → closed.is_open ≡ false
    → ClosedApart (set (set t i e) i closed) t
reopened-ClosedApart t i e closed within was now j = elim (ℕ_discrete i j) [
  | yes same ↦
      let back : entry (set (set t i e) i closed) i ≡ closed =
        get_or-set_self (set t i e) i closed zero_entry (omega (arith, length-set t i e)) in
      inr (rw (← same) (ap (λ (x : FdEntry). x.is_open) back ∙ now), rw (← same) was)
  | no other ↦ inl (
      get_or-set_other (set t i e) i j closed zero_entry other
      ∙ get_or-set_other t i j e zero_entry other)
]

alloc_from-hit :
    (first : ℕ) (t : FdTable) (kind : FdType) (id : ℤ) (i : ℕ)
    → find_from is_closed first t ≡ some i
    → alloc_from first t kind id
      ≡ (pos i, set t i (record { is_open = true; kind = kind; id = id }))
unfolding alloc_from
alloc_from-hit first t kind id i hit = rw (hit, alloc_from)

alloc_from-miss :
    (first : ℕ) (t : FdTable) (kind : FdType) (id : ℤ)
    → find_from is_closed first t ≡ none
    → alloc_from first t kind id ≡ (minus_one, t)
unfolding alloc_from
alloc_from-miss first t kind id miss = rw (miss, alloc_from)

free_alloc-ClosedApart :
    (first : ℕ) (t : FdTable) (kind : FdType) (id : ℤ)
    → length t ≡ max_fds
    → ClosedApart (fd_free (alloc_from first t kind id).1 (alloc_from first t kind id).0) t
unfolding fd_free
free_alloc-ClosedApart first t kind id size = elim (Option-cases (find_from is_closed first t)) [
  | inl miss ↦ subst Freed (sym (alloc_from-miss first t kind id miss)) (λ j. inl refl)
  | inr (i, hit) ↦
      let found = find_from-Found is_closed first t zero_entry i hit in
      subst Freed (sym (alloc_from-hit first t kind id i hit)) (
        rw (fd_free, lt→ltb i max_fds (omega (arith, found.within)))
          (reopened-ClosedApart t i _ _ found.within (ground (arith, found.passes)) refl))
]
  where
    Freed : ℤ × FdTable → Type 0
    Freed r = ClosedApart (fd_free r.1 r.0) t

-- Closing what fd_alloc returned, also after it failed, gives back a table on which every lookup
-- answers as on the table before.
pub fd_free-fd_alloc :
    (t : FdTable) (id : ℤ)
    → length t ≡ max_fds
    → SameLookups (fd_free (fd_alloc t id).1 (fd_alloc t id).0) t
unfolding fd_alloc
fd_free-fd_alloc t id size =
    ClosedApart-SameLookups _ t (free_alloc-ClosedApart 3 t FdType.file id size)

-- After fd_free no lookup of that descriptor finds anything, and the lookups of every other
-- descriptor answer as before.
pub fd_free_lem :
    (t : FdTable) (fd : ℤ)
    → length t ≡ max_fds
    → (open_entry (fd_free t fd) fd ≡ none)
      × ((other : ℤ) → other ≢ fd → open_entry (fd_free t fd) other ≡ open_entry t other)
unfolding fd_free open_entry
fd_free_lem t (negsuc n) size = (refl, λ other ne. refl)
fd_free_lem t (pos i) size = (ground (arith, get_or-set_self t i closed zero_entry), others)
  where
    closed : FdEntry
    closed = record { is_open = false; kind = FdType.unused; id = pos 0 }

    others : (other : ℤ) → other ≢ pos i → open_entry (fd_free t (pos i)) other ≡ open_entry t other
    others (negsuc n) ne = refl
    others (pos j) ne =
        ground (arith, get_or-set_other t i j closed zero_entry (λ e. ne (ap pos (sym e))))

-- fd_set on a slot in range returns the slot, installs exactly the given end there, whatever stood
-- there before, and leaves the lookups of every other descriptor as they were.
fd_set_lem :
    (t : FdTable) (i : ℕ) (kind : FdType) (id : ℤ)
    → length t ≡ max_fds
    → i < max_fds
    → ((fd_set t (pos i) kind id).0 ≡ pos i)
      × (open_entry (fd_set t (pos i) kind id).1 (pos i)
          ≡ some (record { is_open = true; kind = kind; id = id }))
      × ((other : ℤ)
          → other ≢ pos i
          → open_entry (fd_set t (pos i) kind id).1 other ≡ open_entry t other)
unfolding fd_set open_entry
fd_set_lem t i kind id size h =
    (ground arith, ground (arith, get_or-set_self t i new zero_entry), others)
  where
    new : FdEntry
    new = record { is_open = true; kind = kind; id = id }

    others :
        (other : ℤ)
        → other ≢ pos i
        → open_entry (fd_set t (pos i) kind id).1 other ≡ open_entry t other
    others (negsuc n) ne = refl
    others (pos j) ne =
        ground (arith, get_or-set_other t i j new zero_entry (λ e. ne (ap pos (sym e))))
