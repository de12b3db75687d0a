-- ===== src/Fd/Tests.antt =====
-- Runs of the descriptor table, and its theorems at concrete tables.
use aether_os.Prelude.{◌≡◌, refl, none, length, length-replicate, find_from}
use aether_os.Prelude.Int.{pos, minus_one}
use aether_os.Fd.{
  FdTable, file, socket, pipe_read, max_fds, zero_entry, fd_table_init, fd_alloc, fd_alloc_socket,
  fd_alloc_pipe, fd_set, fd_free, fd_type, fd_id, fd_to_vfs, alloc_from, open_entry,
}
use aether_os.Fd.Alloc.{
  Allocates, fd_alloc-Allocates, fd_alloc_pipe-Allocates, fd_alloc_socket-Allocates,
}
use aether_os.Fd.Lookup.{SameLookups, fd_free-fd_alloc, fd_free_lem}

length-fd_table_init : length fd_table_init ≡ max_fds
unfolding fd_table_init
length-fd_table_init = length-replicate max_fds zero_entry

-- A table with a pipe's read end on descriptor 0.
abbrev piped : FdTable
unfolding fd_table_init fd_set
piped = (fd_set fd_table_init (pos 0) pipe_read (pos 5)).1

length-piped : length piped ≡ max_fds
unfolding fd_table_init fd_set
length-piped = refl

fd_alloc-Allocates_example : Allocates 3 fd_table_init file (pos 7) (fd_alloc fd_table_init (pos 7))
fd_alloc-Allocates_example = fd_alloc-Allocates fd_table_init (pos 7) length-fd_table_init

fd_alloc_pipe-Allocates_example :
    Allocates 3 piped pipe_read (pos 2) (fd_alloc_pipe piped (pos 2) pipe_read)
fd_alloc_pipe-Allocates_example = fd_alloc_pipe-Allocates piped (pos 2) pipe_read length-piped

fd_alloc_socket-Allocates_example :
    Allocates 0 fd_table_init socket (pos 1) (fd_alloc_socket fd_table_init (pos 1))
fd_alloc_socket-Allocates_example =
    fd_alloc_socket-Allocates fd_table_init (pos 1) length-fd_table_init

-- The first file of a process gets descriptor 3, its first socket descriptor 0.
first_descriptors :
    ((fd_alloc fd_table_init (pos 7)).0 ≡ pos 3)
    × ((fd_alloc_socket fd_table_init (pos 1)).0 ≡ pos 0)
unfolding fd_alloc fd_alloc_socket alloc_from fd_table_init find_from
first_descriptors = (refl, refl)

fd_free-fd_alloc_example :
    SameLookups (fd_free (fd_alloc piped (pos 7)).1 (fd_alloc piped (pos 7)).0) piped
fd_free-fd_alloc_example = fd_free-fd_alloc piped (pos 7) length-piped

fd_free_lem_example : open_entry (fd_free piped (pos 0)) (pos 0) ≡ none
fd_free_lem_example = (fd_free_lem piped (pos 0) length-piped).0

piped_lookups :
    (fd_type piped (pos 0) ≡ pipe_read)
    × (fd_id piped (pos 0) ≡ pos 5)
    × (fd_to_vfs piped (pos 0) ≡ minus_one)
unfolding fd_type fd_id fd_to_vfs open_entry fd_set fd_table_init
piped_lookups = (refl, refl, refl)
