-- ===== src/Pipe/Receive.antt =====
-- What `pipe_read` takes out of the pipe that it is called on, and what it returns.
use aether_os.Prelude.{
  ℕ, ◌-◌, ◌≤◌, ◌<◌, min, ◌≡◌, refl, ◌≢◌, ◌⊎◌, inl, inr, true, false, arith, length, take, drop,
  take_all, drop_all, set, get_or-set_self, get_or-set_other, Bool-cases, ltb, lt→ltb,
  if◌then◌else◌, sym, subst, ◌∙◌, ap,
}
use native.Mathlib.Decide.{ℕ_discrete}
use aether_os.Prelude.Int.{pos, minus_one}
use aether_os.Ring.{seg, place, take-seg, drop-seg, length-seg}
use aether_os.Pipe.{
  Pipe, Pipes, pipe_buf, max_pipes, pipe_at, zero_pipe, read_some, pipe_read, ReadResult, no_bytes,
  again,
}
use aether_os.Pipe.Inv.{IsValid, contents, read_loop_lem}
use aether_os.Pipe.Table.{TableIsValid, set-TableIsValid}

-- `read_some` takes the first `min len count` bytes out of the pipe.
pub read_some_lem :
    (p : Pipe) (len : ℕ)
    → IsValid p
    → ((read_some p len).0.status ≡ pos (min len p.count))
      × ((read_some p len).0.bytes ≡ take len (contents p))
      × (contents (read_some p len).1 ≡ drop len (contents p))
      × IsValid (read_some p len).1
unfolding read_some seg
read_some_lem p len v = elim (Bool-cases (ltb len p.count)) [
  | inl part ↦
      rw (part, read_some, read_loop_lem len p.buf p.head v.head_in)
        (
          ap pos (ground arith),
          sym (take-seg p.buf pipe_buf p.head len p.count (ground arith)),
          sym (drop-seg p.buf pipe_buf p.head len p.count v.head_in (ground arith)),
          ground arith,
        )
  | inr all ↦
      rw (all, read_some, read_loop_lem p.count p.buf p.head v.head_in)
        (
          ap pos (ground arith),
          sym (take_all len (contents p) (whole (ground arith))),
          ap (seg p.buf pipe_buf (place pipe_buf p.head p.count)) nothing_left
              ∙ sym (drop_all len (contents p) (whole (ground arith))),
          ground arith,
        )
]
  where
    nothing_left : p.count - p.count ≡ 0
    nothing_left = omega arith

    whole : p.count ≤ len → length (contents p) ≤ len
    whole h = omega (arith, length-seg p.buf pipe_buf p.head p.count)

-- How a read of `len` bytes from pipe `i` may end: refused for a pipe that is not in use; with no
-- bytes for an empty one, at the end of the file if the writer is gone; or with the first bytes.
abbrev pub Reads : Pipes → ℕ → ℕ → ReadResult × Pipes → Type 0
Reads ps i len out =
    let p = pipe_at ps i in
    (((p.in_use ≡ false) × (out ≡ (no_bytes minus_one, ps)))
      ⊎ ((p.in_use ≡ true)
          × (p.count ≡ 0)
          × (p.write_closed ≡ true)
          × (out ≡ (no_bytes (pos 0), ps)))
      ⊎ ((p.in_use ≡ true)
          × (p.count ≡ 0)
          × (p.write_closed ≡ false)
          × (out ≡ (no_bytes again, ps)))
      ⊎ ((p.in_use ≡ true)
          × (0 < p.count)
          × (out.0.status ≡ pos (min len p.count))
          × (out.0.bytes ≡ take len (contents p))
          × (contents (pipe_at out.1 i) ≡ drop len (contents p))))
    × TableIsValid out.1
    × ((j : ℕ) → j ≢ i → pipe_at out.1 j ≡ pipe_at ps j)

pipe_read-refused :
    (ps : Pipes) (i : ℕ) (len : ℕ)
    → i < max_pipes
    → (pipe_at ps i).in_use ≡ false
    → pipe_read ps (pos i) len ≡ (no_bytes minus_one, ps)
unfolding pipe_read
pipe_read-refused ps i len h unused = rw (lt→ltb i max_pipes h, pipe_read, unused)

pipe_read-some :
    (ps : Pipes) (i : ℕ) (len : ℕ)
    → i < max_pipes
    → (pipe_at ps i).in_use ≡ true
    → 0 < (pipe_at ps i).count
    → let out = read_some (pipe_at ps i) len in pipe_read ps (pos i) len ≡ (out.0, set ps i out.1)
unfolding pipe_read
pipe_read-some ps i len h used some_left = rw (lt→ltb i max_pipes h, pipe_read, used) (ground arith)

pipe_read-none :
    (ps : Pipes) (i : ℕ) (len : ℕ)
    → i < max_pipes
    → (pipe_at ps i).in_use ≡ true
    → (pipe_at ps i).count ≡ 0
    → pipe_read ps (pos i) len
      ≡ (no_bytes (if (pipe_at ps i).write_closed then pos 0 else again), ps)
unfolding pipe_read
pipe_read-none ps i len h used empty = rw (lt→ltb i max_pipes h, pipe_read, used) (ground arith)

-- `pipe_read` on a pipe of a valid table. It returns -1 for a pipe that is not in use; for an empty
-- one 0 if the write end is closed and -2 if not; and otherwise the number of bytes read, which
-- are the oldest in the pipe, in order, and are taken out of it. Every other pipe is as it was,
-- and the table stays valid.
pub pipe_read_lem :
    (ps : Pipes) (i : ℕ) (len : ℕ)
    → i < max_pipes
    → TableIsValid ps
    → Reads ps i len (pipe_read ps (pos i) len)
pipe_read_lem ps i len h v = elim (Bool-cases (pipe_at ps i).in_use) [
  | inr unused ↦
      subst (Reads ps i len) (sym (pipe_read-refused ps i len h unused))
        (inl (unused, refl), v, λ j ne. refl)
  | inl used ↦ elim (ℕ_discrete (pipe_at ps i).count 0) [
    | yes empty ↦ elim (Bool-cases (pipe_at ps i).write_closed) [
      | inl closed ↦
          subst (Reads ps i len) (sym (rw closed at (pipe_read-none ps i len h used empty)))
            (inr (inl (used, empty, closed, refl)), v, λ j ne. refl)
      | inr live ↦
          subst (Reads ps i len) (sym (rw live at (pipe_read-none ps i len h used empty)))
            (inr (inr (inl (used, empty, live, refl))), v, λ j ne. refl)
    ]
    | no left ↦
        let out = read_some (pipe_at ps i) len in
        let (s, b, c, q) = read_some_lem (pipe_at ps i) len (v.each i) in
        subst (Reads ps i len) (sym (pipe_read-some ps i len h used (omega arith))) (
          inr (
              inr (
                inr (
                  used,
                  omega arith,
                  s,
                  b,
                  ap contents (get_or-set_self ps i out.1 zero_pipe (omega (arith, v.size))) ∙ c,
                ))),
          set-TableIsValid ps i out.1 h q v,
          λ j ne. get_or-set_other ps i j out.1 zero_pipe (λ e. ne (sym e)),
        )
  ]
]
