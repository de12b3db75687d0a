-- ===== src/Pipe.antt =====
-- kernel/proc/pipe.c: the pipe table. Every operation holds `pipe_lock` from its first to its last
-- access to the table, so an operation is one step on the table; it returns the new table
-- beside its result.
pub mod Inv
pub mod Table
pub mod Send
pub mod Receive
pub mod Events
pub mod Balance
pub mod Fifo
pub mod Ends
mod Tests
use aether_os.Prelude.{
  ℕ, zero, suc, ◌+◌, ◌-◌, ◌%◌, Bool, true, false, not, ◌||◌, Option, none, some, List, [], ◌∷◌, ltb,
  ◌==◌, if◌then◌else◌, length, get_or, set, replicate, find_from,
}
use aether_os.Prelude.Int.{ℤ, pos, negsuc, minus_one, in_range}

abbrev pub pipe_buf : ℕ
pipe_buf = 4096

abbrev pub max_pipes : ℕ
max_pipes = 8

-- `pipe_t`
pub record Pipe : Type 0 where
  pub in_use : Bool
  pub buf : List ℕ
  pub head : ℕ
  pub count : ℕ
  pub write_closed : Bool
  pub read_closed : Bool

-- `s_pipes`
abbrev pub Pipes : Type 0
Pipes = List Pipe

-- A buffer of zero bytes. It is not unfolded where a proof does not need its bytes.
pub zero_buf : List ℕ
zero_buf = replicate pipe_buf 0

-- A pipe of zero bytes.
pub zero_pipe : Pipe
zero_pipe = record {
  in_use = false;
  buf = zero_buf;
  head = 0;
  count = 0;
  write_closed = false;
  read_closed = false;
}

-- `s_pipes[i]` for an index in range.
abbrev pub pipe_at : Pipes → ℕ → Pipe
pipe_at ps i = get_or ps i zero_pipe

abbrev pub is_free : Pipe → Bool
is_free p = not p.in_use

pub pipe_alloc : Pipes → ℤ × Pipes
pipe_alloc ps = elim (find_from is_free 0 ps) [
  | none ↦ (minus_one, ps)
  | some i ↦ (pos i, set ps i (record zero_pipe { in_use = true }))
]

pub pipe_free : Pipes → ℤ → Pipes
pipe_free ps idx = elim (in_range idx max_pipes) [
  | none ↦ ps
  | some i ↦ set ps i (record (pipe_at ps i) { in_use = false })
]

-- One round of the loop of `pipe_write`: `buf[(head + count) % PIPE_BUF] = byte; count++`.
pub push_byte : Pipe → ℕ → Pipe
push_byte p byte = record p {
  buf = set p.buf ((p.head + p.count) % pipe_buf) byte;
  count = p.count + 1;
}

-- The loop of `pipe_write`, over the bytes that are still to write; it counts those written.
pub write_loop : ℕ → Pipe → List ℕ → ℕ × Pipe
write_loop written p [] = (written, p)
write_loop written p (b ∷ src) =
    let rest = write_loop (written + 1) (push_byte p b) src in
    if ltb p.count pipe_buf then rest else (written, p)

pub pipe_write : Pipes → ℤ → List ℕ → ℤ × Pipes
pipe_write ps idx src = elim (in_range idx max_pipes) [
  | none ↦ (minus_one, ps)
  | some i ↦
      let p = pipe_at ps i in
      if not p.in_use || p.read_closed
      then (minus_one, ps)
      else (let (n, q) = write_loop 0 p src in (pos n, set ps i q))
]

-- The loop of `pipe_read`: the bytes read, and where the head then stands.
pub read_loop : ℕ → List ℕ → ℕ → List ℕ × ℕ
read_loop zero buf head = ([], head)
read_loop (suc n) buf head =
    let (out, last) = read_loop n buf ((head + 1) % pipe_buf) in (get_or buf head 0 ∷ out, last)

-- What `pipe_read` returns: -1, 0 at the end of the file, -2 for no data yet, or the number of
-- bytes, and the bytes that it stores in `*buf`.
pub record ReadResult : Type 0 where
  pub status : ℤ
  pub bytes : List ℕ

abbrev pub no_bytes : ℤ → ReadResult
no_bytes s = record { status = s; bytes = [] }

-- -2: no data yet, retry.
abbrev pub again : ℤ
again = negsuc 1

-- The part of `pipe_read` that is reached with bytes in the buffer: `n = min(len, count)`.
pub read_some : Pipe → ℕ → ReadResult × Pipe
read_some p len =
    let n = if ltb len p.count then len else p.count in
    let (out, head) = read_loop n p.buf p.head in
    (record { status = pos n; bytes = out }, record p { head = head; count = p.count - n })

pub pipe_read : Pipes → ℤ → ℕ → ReadResult × Pipes
pipe_read ps idx len = elim (in_range idx max_pipes) [
  | none ↦ (no_bytes minus_one, ps)
  | some i ↦
      let p = pipe_at ps i in
      if not p.in_use
      then (no_bytes minus_one, ps)
      else (if p.count == 0
          then (no_bytes (if p.write_closed then pos 0 else again), ps)
          else (let (r, q) = read_some p len in (r, set ps i q)))
]

-- Closing an end; the second end to go frees the pipe.
pub close_write_end : Pipe → Pipe
close_write_end p =
    if p.in_use
    then record p { write_closed = true; in_use = if p.read_closed then false else p.in_use }
    else p

pub close_read_end : Pipe → Pipe
close_read_end p =
    if p.in_use
    then record p { read_closed = true; in_use = if p.write_closed then false else p.in_use }
    else p

pub pipe_close_write : Pipes → ℤ → Pipes
pipe_close_write ps idx = elim (in_range idx max_pipes) [
  | none ↦ ps
  | some i ↦ set ps i (close_write_end (pipe_at ps i))
]

pub pipe_close_read : Pipes → ℤ → Pipes
pipe_close_read ps idx = elim (in_range idx max_pipes) [
  | none ↦ ps
  | some i ↦ set ps i (close_read_end (pipe_at ps i))
]
