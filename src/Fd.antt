-- ===== src/Fd.antt =====
-- kernel/proc/fd.c and fd.h: the descriptor table of a process. An `int` descriptor is an
-- integer, so that the tests `fd < 0` and `fd >= MAX_FDS` stand as in the source. A function that
-- changes `*t` returns the new table beside its result.
pub mod Alloc
pub mod Lookup
mod Tests
use aether_os.Prelude.{
  ℕ, Bool, true, false, not, Option, none, some, List, if◌then◌else◌, length, get_or, set,
  replicate, find_from,
}
use aether_os.Prelude.Int.{ℤ, pos, minus_one, in_range}

abbrev pub max_fds : ℕ
max_fds = 32

-- `fd_type_t`, with its prefix FD_ left off.
pub data FdType : Type 0 where
  unused file socket pipe_read pipe_write : FdType

-- `fd_entry_t`. The field is `type` in C.
pub record FdEntry : Type 0 where
  pub is_open : Bool
  pub kind : FdType
  pub id : ℤ

-- `fd_table_t`: its array.
abbrev pub FdTable : Type 0
FdTable = List FdEntry

-- An entry of zero bytes.
abbrev pub zero_entry : FdEntry
zero_entry = record { is_open = false; kind = unused; id = pos 0 }

-- `t->fds[i]` for an index in range.
abbrev pub entry : FdTable → ℕ → FdEntry
entry t i = get_or t i zero_entry

pub fd_table_init : FdTable
fd_table_init = replicate max_fds zero_entry

abbrev pub is_closed : FdEntry → Bool
is_closed e = not e.is_open

-- The loop that the three allocators share: the first closed slot from `first` on.
pub alloc_from : ℕ → FdTable → FdType → ℤ → ℤ × FdTable
alloc_from first t kind id = elim (find_from is_closed first t) [
  | none ↦ (minus_one, t)
  | some i ↦ (pos i, set t i (record { is_open = true; kind = kind; id = id }))
]

pub fd_alloc : FdTable → ℤ → ℤ × FdTable
fd_alloc t vfs_fd = alloc_from 3 t file vfs_fd

pub fd_alloc_socket : FdTable → ℤ → ℤ × FdTable
fd_alloc_socket t sock_idx = alloc_from 0 t socket sock_idx

pub fd_alloc_pipe : FdTable → ℤ → FdType → ℤ × FdTable
fd_alloc_pipe t pipe_idx kind = alloc_from 3 t kind pipe_idx

-- `if (fd < 0 || fd >= MAX_FDS || !t->fds[fd].open)` fails, else the entry.
pub open_entry : FdTable → ℤ → Option FdEntry
open_entry t fd = elim (in_range fd max_fds) [
  | none ↦ none
  | some i ↦ if (entry t i).is_open then some (entry t i) else none
]

abbrev if_file : FdEntry → FdType → ℤ
if_file e file = e.id
if_file e _ = minus_one

pub fd_to_vfs : FdTable → ℤ → ℤ
fd_to_vfs t fd = elim (open_entry t fd) [ none ↦ minus_one | some e ↦ if_file e e.kind ]

pub fd_type : FdTable → ℤ → FdType
fd_type t fd = elim (open_entry t fd) [ none ↦ unused | some e ↦ e.kind ]

pub fd_id : FdTable → ℤ → ℤ
fd_id t fd = elim (open_entry t fd) [ none ↦ minus_one | some e ↦ e.id ]

pub fd_set : FdTable → ℤ → FdType → ℤ → ℤ × FdTable
fd_set t slot kind id = elim (in_range slot max_fds) [
  | none ↦ (minus_one, t)
  | some i ↦ (slot, set t i (record { is_open = true; kind = kind; id = id }))
]

pub fd_free : FdTable → ℤ → FdTable
fd_free t fd = elim (in_range fd max_fds) [
  | none ↦ t
  | some i ↦ set t i (record { is_open = false; kind = unused; id = pos 0 })
]
