-- ===== src/Pipe/Fifo.antt =====
-- A pipe under any sequence of operations of its writers and readers: what comes out is what
-- went in.
use aether_os.Prelude.{ℕ, ◌≡◌, sym, ap, ◌∙◌, List, [], ◌∷◌, ◌++◌, append_assoc, append-nil}
use aether_os.Pipe.{Pipes, pipe_at}
use aether_os.Pipe.Inv.{contents}
use aether_os.Pipe.Table.{TableIsValid}
use aether_os.Pipe.Events.{Event, step, run, received, all_sent, all_received}
use aether_os.Pipe.Balance.{step-Balances}

-- Under every sequence of writes, reads and closes, to any pipes and in any interleaving, the bytes
-- read from a pipe followed by those still in it are the bytes that were in it at the start followed
-- by those that its writes accepted, in the order of the writes: none is lost, repeated or moved.
pub run_is_fifo :
    (i : ℕ) (es : List Event) (ps : Pipes)
    → TableIsValid ps
    → all_received i ps es ++ contents (pipe_at (run ps es) i)
      ≡ contents (pipe_at ps i) ++ all_sent i ps es
unfolding run all_received all_sent
run_is_fifo i [] ps v = sym (append-nil _)
run_is_fifo i (e ∷ es) ps v =
    let b = step-Balances i ps e v in
    append_assoc (received i ps e) _ _
    ∙ ap (◌++◌ (received i ps e)) (run_is_fifo i es (step ps e) b.valid)
    ∙ sym (append_assoc (received i ps e) _ _)
    ∙ ap (λ (l : List ℕ). l ++ all_sent i (step ps e) es) b.flow
    ∙ append_assoc (contents (pipe_at ps i)) _ _
