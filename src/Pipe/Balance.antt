-- ===== src/Pipe/Balance.antt =====
-- Each pipe operation keeps the books: what it takes out and what is left is what was there and
-- what it puts in.
use aether_os.Prelude.{
  ℕ, ◌<◌, ◌≡◌, refl, sym, subst, ap, ◌∙◌, inl, inr, List, [], ◌++◌, append-nil, arith,
  take-append-drop, take-min, ltb, Bool-cases, get_or-set_self, get_or-set_other, set, ◌-◌, ==_iff,
  ltb→lt,
}
use native.Mathlib.Decide.{ℕ_discrete}
use aether_os.Prelude.Int.{ℤ, pos, negsuc, minus_one}
use aether_os.Pipe.{
  Pipe, Pipes, ReadResult, no_bytes, zero_pipe, pipe_buf, max_pipes, pipe_at, pipe_write, pipe_read,
  pipe_close_write, pipe_close_read, close_write_end, close_read_end,
}
use aether_os.Pipe.Inv.{IsValid, contents}
use aether_os.Pipe.Table.{TableIsValid, set-TableIsValid}
use aether_os.Pipe.Send.{pipe_write_lem, Writes}
use aether_os.Pipe.Receive.{pipe_read_lem, Reads}
use aether_os.Pipe.Events.{
  Event, writes, reads, closes_write, closes_read, step, sent, received, accepted,
}

-- One operation keeps the books of pipe `i`.
pub record Balances (i : ℕ) (ps : Pipes) (e : Event) : Type 0 where
  pub valid : TableIsValid (step ps e)
  pub flow :
      received i ps e ++ contents (pipe_at (step ps e) i) ≡ contents (pipe_at ps i) ++ sent i ps e

-- An operation that leaves the table as it was, and moves no byte of the pipe.
still :
    (i : ℕ) (ps : Pipes) (e : Event)
    → TableIsValid (step ps e)
    → received i ps e ≡ []
    → sent i ps e ≡ []
    → contents (pipe_at (step ps e) i) ≡ contents (pipe_at ps i)
    → Balances i ps e
still i ps e v r s c = record { valid = v; flow = rw (r, s) (c ∙ sym (append-nil _)) }

Writes-flow :
    (i : ℕ) (ps : Pipes) (src : List ℕ) (out : ℤ × Pipes)
    → Writes ps i src out
    → contents (pipe_at out.1 i) ≡ contents (pipe_at ps i) ++ accepted out.0 src
Writes-flow i ps src out (inl (_, r, same), _, _) = rw (r, same) (sym (append-nil _))
Writes-flow i ps src out (inr (_, _, r, c), _, _) =
    rw (r, take-min (pipe_buf - (pipe_at ps i).count) src) c

Reads-flow :
    (i : ℕ) (ps : Pipes) (len : ℕ) (out : ReadResult × Pipes)
    → Reads ps i len out
    → out.0.bytes ++ contents (pipe_at out.1 i) ≡ contents (pipe_at ps i)
Reads-flow i ps len out (inl (_, e), _, _) = rw e
Reads-flow i ps len out (inr (inl (_, _, _, e)), _, _) = rw e
Reads-flow i ps len out (inr (inr (inl (_, _, _, e))), _, _) = rw e
Reads-flow i ps len out (inr (inr (inr (_, _, _, b, c))), _, _) =
    rw (b, c) (take-append-drop len (contents (pipe_at ps i)))

write-Balances :
    (i : ℕ) (ps : Pipes) (j : ℕ) (src : List ℕ)
    → Writes ps j src (pipe_write ps (pos j) src)
    → Balances i ps (writes (pos j) src)
unfolding step sent received
write-Balances i ps j src w = elim (ℕ_discrete j i) [
  | no ne ↦
      still i ps (writes (pos j) src) w.1 refl (ground arith)
        (ap contents (w.2 i (λ e. ne (sym e))))
  | yes e ↦ record {
    valid = w.1;
    flow =
        subst
          (λ k.
            contents (pipe_at (pipe_write ps (pos j) src).1 k)
            ≡ contents (pipe_at ps k) ++ sent k ps (writes (pos j) src))
          e (rw (sent, (==_iff j j).1 refl) (Writes-flow j ps src _ w));
  }
]

read-Balances :
    (i : ℕ) (ps : Pipes) (j : ℕ) (len : ℕ)
    → Reads ps j len (pipe_read ps (pos j) len)
    → Balances i ps (reads (pos j) len)
unfolding step sent received
read-Balances i ps j len w = elim (ℕ_discrete j i) [
  | no ne ↦
      still i ps (reads (pos j) len) w.1 (ground arith) refl (ap contents (w.2 i (λ e. ne (sym e))))
  | yes e ↦ record {
    valid = w.1;
    flow =
        subst
          (λ k.
            received k ps (reads (pos j) len) ++ contents (pipe_at (pipe_read ps (pos j) len).1 k)
            ≡ contents (pipe_at ps k) ++ [])
          e (rw (received, (==_iff j j).1 refl) (Reads-flow j ps len _ w ∙ sym (append-nil _)));
  }
]

-- Closing an end changes no byte of any pipe.
close-TableIsValid :
    (ps : Pipes) (j : ℕ) (q : Pipe)
    → j < max_pipes
    → q.buf ≡ (pipe_at ps j).buf
    → q.head ≡ (pipe_at ps j).head
    → q.count ≡ (pipe_at ps j).count
    → TableIsValid ps
    → TableIsValid (set ps j q)
      × ((i : ℕ) → contents (pipe_at (set ps j q) i) ≡ contents (pipe_at ps i))
close-TableIsValid ps j q h b d c v = (set-TableIsValid ps j q h valid v, same)
  where
    valid : IsValid q
    valid = ground (arith, v.each j)

    same : (i : ℕ) → contents (pipe_at (set ps j q) i) ≡ contents (pipe_at ps i)
    same i = elim (ℕ_discrete j i) [
      | yes e ↦
          rw (← e)
            (ap contents (get_or-set_self ps j q zero_pipe (omega (arith, v.size))) ∙ rw (b, d, c))
      | no ne ↦ ap contents (get_or-set_other ps j i q zero_pipe ne)
    ]

write_refused-Balances :
    (i : ℕ) (ps : Pipes) (idx : ℤ) (src : List ℕ)
    → TableIsValid ps
    → pipe_write ps idx src ≡ (minus_one, ps)
    → Balances i ps (writes idx src)
unfolding step sent received
write_refused-Balances i ps idx src v e =
    still i ps (writes idx src) (subst TableIsValid (sym (ap (λ (o : ℤ × Pipes). o.1) e)) v) refl
      (ground (arith, e)) (ap (λ (o : ℤ × Pipes). contents (pipe_at o.1 i)) e)

read_refused-Balances :
    (i : ℕ) (ps : Pipes) (idx : ℤ) (len : ℕ)
    → TableIsValid ps
    → pipe_read ps idx len ≡ (no_bytes minus_one, ps)
    → Balances i ps (reads idx len)
unfolding step sent received
read_refused-Balances i ps idx len v e =
    still i ps (reads idx len) (subst TableIsValid (sym (ap (λ (o : ReadResult × Pipes). o.1) e)) v)
      (ground (arith, e)) refl (ap (λ (o : ReadResult × Pipes). contents (pipe_at o.1 i)) e)

close_write-Balances :
    (i : ℕ) (ps : Pipes) (j : ℕ) → TableIsValid ps → Balances i ps (closes_write (pos j))
unfolding step sent received pipe_close_write close_write_end
close_write-Balances i ps j v = elim (Bool-cases (ltb j max_pipes)) [
  | inl good ↦
      let (valid, same) =
        close-TableIsValid ps j (close_write_end (pipe_at ps j)) (ltb→lt _ _ good) (ground arith)
          (ground arith) (ground arith) v in
      still i ps _ (rw (good, pipe_close_write) valid) refl refl
        (rw (good, pipe_close_write) (same i))
  | inr bad ↦ still i ps _ (rw (bad, pipe_close_write) v) refl refl (rw (bad, pipe_close_write))
]

close_read-Balances :
    (i : ℕ) (ps : Pipes) (j : ℕ) → TableIsValid ps → Balances i ps (closes_read (pos j))
unfolding step sent received pipe_close_read close_read_end
close_read-Balances i ps j v = elim (Bool-cases (ltb j max_pipes)) [
  | inl good ↦
      let (valid, same) =
        close-TableIsValid ps j (close_read_end (pipe_at ps j)) (ltb→lt _ _ good) (ground arith)
          (ground arith) (ground arith) v in
      still i ps _ (rw (good, pipe_close_read) valid) refl refl
        (rw (good, pipe_close_read) (same i))
  | inr bad ↦ still i ps _ (rw (bad, pipe_close_read) v) refl refl (rw (bad, pipe_close_read))
]

pub step-Balances : (i : ℕ) (ps : Pipes) (e : Event) → TableIsValid ps → Balances i ps e
unfolding pipe_write pipe_read step sent received pipe_close_write pipe_close_read
step-Balances i ps (writes (negsuc n) src) v = write_refused-Balances i ps (negsuc n) src v refl
step-Balances i ps (writes (pos j) src) v = elim (Bool-cases (ltb j max_pipes)) [
  | inl good ↦ write-Balances i ps j src (pipe_write_lem ps j src (ltb→lt _ _ good) v)
  | inr bad ↦ write_refused-Balances i ps (pos j) src v (rw (bad, pipe_write))
]
step-Balances i ps (reads (negsuc n) len) v = read_refused-Balances i ps (negsuc n) len v refl
step-Balances i ps (reads (pos j) len) v = elim (Bool-cases (ltb j max_pipes)) [
  | inl good ↦ read-Balances i ps j len (pipe_read_lem ps j len (ltb→lt _ _ good) v)
  | inr bad ↦ read_refused-Balances i ps (pos j) len v (rw (bad, pipe_read))
]
step-Balances i ps (closes_write (negsuc n)) v = still i ps _ v refl refl refl
step-Balances i ps (closes_write (pos j)) v = close_write-Balances i ps j v
step-Balances i ps (closes_read (negsuc n)) v = still i ps _ v refl refl refl
step-Balances i ps (closes_read (pos j)) v = close_read-Balances i ps j v
