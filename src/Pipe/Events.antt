-- ===== src/Pipe/Events.antt =====
-- Sequences of pipe operations, and the bytes that they put into and take out of one pipe.
use aether_os.Prelude.{ℕ, Bool, false, List, [], ◌∷◌, ◌++◌, take, ◌==◌, if◌then◌else◌}
use aether_os.Prelude.Int.{ℤ, pos, negsuc}
use aether_os.Pipe.{Pipes, pipe_write, pipe_read, pipe_close_write, pipe_close_read}

-- What the processes that hold ends of the pipes may do to the table, one operation at a time.
pub data Event : Type 0 where
  writes : ℤ → List ℕ → Event
  reads : ℤ → ℕ → Event
  closes_write closes_read : ℤ → Event

unfoldable pub step : Pipes → Event → Pipes
step ps (writes idx src) = (pipe_write ps idx src).1
step ps (reads idx len) = (pipe_read ps idx len).1
step ps (closes_write idx) = pipe_close_write ps idx
step ps (closes_read idx) = pipe_close_read ps idx

unfoldable pub run : Pipes → List Event → Pipes
run ps [] = ps
run ps (e ∷ es) = run (step ps e) es

abbrev pub names : ℤ → ℕ → Bool
names (pos j) i = j == i
names (negsuc n) i = false

-- The bytes of `src` that a write with this result has accepted.
abbrev pub accepted : ℤ → List ℕ → List ℕ
accepted (pos n) src = take n src
accepted (negsuc n) src = []

-- The bytes that an operation puts into pipe `i`, and those that it returns from it.
unfoldable pub sent : ℕ → Pipes → Event → List ℕ
sent i ps (writes idx src) = if names idx i then accepted (pipe_write ps idx src).0 src else []
sent i ps _ = []

unfoldable pub received : ℕ → Pipes → Event → List ℕ
received i ps (reads idx len) = if names idx i then (pipe_read ps idx len).0.bytes else []
received i ps _ = []

unfoldable pub all_sent : ℕ → Pipes → List Event → List ℕ
all_sent i ps [] = []
all_sent i ps (e ∷ es) = sent i ps e ++ all_sent i (step ps e) es

unfoldable pub all_received : ℕ → Pipes → List Event → List ℕ
all_received i ps [] = []
all_received i ps (e ∷ es) = received i ps e ++ all_received i (step ps e) es
