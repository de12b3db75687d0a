-- ===== src/Fd/Alloc.antt =====
-- What the allocators of the descriptor table promise.
use aether_os.Prelude.{
  ℕ, ◌≤◌, ◌<◌, ◌≡◌, sym, ◌∙◌, ◌≢◌, inl, inr, true, false, arith, length, length-set, find_from,
  find_from-Found, find_from-none, Option-cases, get_or-set_self, get_or-set_other,
}
use aether_os.Prelude.Int.{ℤ, pos, minus_one}
use aether_os.Fd.{
  FdEntry, FdTable, FdType, max_fds, zero_entry, entry, is_closed, alloc_from, fd_type, fd_id,
  fd_alloc, fd_alloc_socket, fd_alloc_pipe, open_entry,
}

-- What an allocation from slot `first` on may do to a table `t`: take the lowest closed slot, and
-- write nothing else; or find every slot open, and leave the table as it was.
pub data Allocates (first : ℕ) (t : FdTable) (kind : FdType) (id : ℤ) : ℤ × FdTable → Type 0 where
  fresh :
      {t' : FdTable} (i : ℕ)
      → first ≤ i
      → i < max_fds
      → (entry t i).is_open ≡ false
      → ((j : ℕ) → first ≤ j → j < i → (entry t j).is_open ≡ true)
      → fd_type t' (pos i) ≡ kind
      → fd_id t' (pos i) ≡ id
      → ((j : ℕ) → j ≢ i → entry t' j ≡ entry t j)
      → length t' ≡ max_fds
      → Allocates first t kind id (pos i, t')
  full :
      ((j : ℕ) → first ≤ j → j < max_fds → (entry t j).is_open ≡ true)
      → Allocates first t kind id (minus_one, t)

alloc_from-Allocates :
    (first : ℕ) (t : FdTable) (kind : FdType) (id : ℤ)
    → length t ≡ max_fds
    → Allocates first t kind id (alloc_from first t kind id)
unfolding alloc_from fd_type fd_id open_entry
alloc_from-Allocates first t kind id size = elim (Option-cases (find_from is_closed first t)) [
  | inl miss ↦
      rw (miss, alloc_from)
        (full (λ j a b. ground (arith, find_from-none is_closed first t zero_entry miss j a)))
  | inr (i, hit) ↦
      let found = find_from-Found is_closed first t zero_entry i hit in
      let e : FdEntry = record { is_open = true; kind = kind; id = id } in
      let back = get_or-set_self t i e zero_entry found.within in
      rw (hit, alloc_from)
        (fresh i found.from (omega (arith, found.within)) (ground (arith, found.passes))
          (λ j a b. ground (arith, found.first j a b)) (ground (arith, back)) (ground (arith, back))
          (λ j ne. get_or-set_other t i j e zero_entry (λ q. ne (sym q))) (length-set t i e ∙ size))
]

-- fd_alloc takes the lowest closed descriptor from 3 on, which then is a file with the given id,
-- and changes no other; it fails, and changes nothing, exactly when all of those are open.
pub fd_alloc-Allocates :
    (t : FdTable) (id : ℤ) → length t ≡ max_fds → Allocates 3 t FdType.file id (fd_alloc t id)
unfolding fd_alloc
fd_alloc-Allocates t id size = alloc_from-Allocates 3 t FdType.file id size

-- fd_alloc_pipe takes the lowest closed descriptor from 3 on, which then is a pipe end of the given
-- type and id, and changes no other; it fails, and changes nothing, exactly when all are open.
pub fd_alloc_pipe-Allocates :
    (t : FdTable) (id : ℤ) (kind : FdType)
    → length t ≡ max_fds
    → Allocates 3 t kind id (fd_alloc_pipe t id kind)
unfolding fd_alloc_pipe
fd_alloc_pipe-Allocates t id kind size = alloc_from-Allocates 3 t kind id size

-- fd_alloc_socket takes the lowest closed descriptor from 0 on, so 0, 1 and 2 before others, which
-- then is a socket with the given id, and changes no other; it fails, and changes nothing, exactly
-- when all descriptors are open.
pub fd_alloc_socket-Allocates :
    (t : FdTable) (id : ℤ)
    → length t ≡ max_fds
    → Allocates 0 t FdType.socket id (fd_alloc_socket t id)
unfolding fd_alloc_socket
fd_alloc_socket-Allocates t id size = alloc_from-Allocates 0 t FdType.socket id size
