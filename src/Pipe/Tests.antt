-- ===== src/Pipe/Tests.antt =====
-- Runs of the pipe table, and its theorems at concrete tables.
use aether_os.Prelude.{
  ◌≡◌, refl, true, false, List, [], ◌∷◌, ◌++◌, arith, set, replicate, length-replicate,
  get_or-replicate, subst, sym,
}
use aether_os.Prelude.Int.{pos}
use aether_os.Pipe.{
  Pipe, Pipes, max_pipes, pipe_at, zero_pipe, pipe_alloc, pipe_write, pipe_read, pipe_close_read,
  pipe_close_write,
}
use aether_os.Pipe.Inv.{IsValid, contents, zero_pipe-IsValid}
use aether_os.Pipe.Table.{TableIsValid, set-TableIsValid}
use aether_os.Pipe.Send.{Writes, pipe_write_lem}
use aether_os.Pipe.Receive.{Reads, pipe_read_lem}
use aether_os.Pipe.Events.{Event, writes, reads, closes_write, run, all_sent, all_received}
use aether_os.Pipe.Fifo.{run_is_fifo}
use aether_os.Pipe.Ends.{Opens, pipe_alloc_lem, close_both_ends}

-- `s_pipes` at boot.
boot : Pipes
boot = replicate max_pipes zero_pipe

boot-TableIsValid : TableIsValid boot
unfolding boot
boot-TableIsValid = record {
  size = length-replicate max_pipes zero_pipe;
  each = λ i. subst IsValid (sym (get_or-replicate max_pipes zero_pipe i)) zero_pipe-IsValid;
}

-- A pipe in use that holds one zero byte.
abbrev one_byte : Pipe
one_byte = record zero_pipe { in_use = true; count = 1 }

one_byte-IsValid : IsValid one_byte
one_byte-IsValid = record {
  full_size = zero_pipe-IsValid.full_size;
  head_in = zero_pipe-IsValid.head_in;
  count_in = omega arith;
}

table : Pipes
table = set boot 2 one_byte

table-TableIsValid : TableIsValid table
unfolding table
table-TableIsValid =
    set-TableIsValid boot 2 one_byte (omega arith) one_byte-IsValid boot-TableIsValid

pipe_alloc_lem_example : Opens boot (pipe_alloc boot)
pipe_alloc_lem_example = (pipe_alloc_lem boot boot-TableIsValid).0

pipe_write_lem_example : Writes table 2 (66 ∷ 67 ∷ []) (pipe_write table (pos 2) (66 ∷ 67 ∷ []))
pipe_write_lem_example = pipe_write_lem table 2 (66 ∷ 67 ∷ []) (omega arith) table-TableIsValid

pipe_read_lem_example : Reads table 2 10 (pipe_read table (pos 2) 10)
pipe_read_lem_example = pipe_read_lem table 2 10 (omega arith) table-TableIsValid

abbrev history : List Event
history = writes (pos 2) (66 ∷ []) ∷ reads (pos 2) 1 ∷ closes_write (pos 2) ∷ reads (pos 2) 9 ∷ []

run_is_fifo_example :
    all_received 2 table history ++ contents (pipe_at (run table history) 2)
    ≡ contents (pipe_at table 2) ++ all_sent 2 table history
run_is_fifo_example = run_is_fifo 2 history table table-TableIsValid

close_both_ends_example :
    (pipe_at (pipe_close_read (pipe_close_write table (pos 2)) (pos 2)) 2).in_use ≡ false
unfolding table boot zero_pipe
close_both_ends_example =
    (close_both_ends table 2 (omega arith) table-TableIsValid.size refl refl refl).2
