-- ===== src/Pipe/Send.antt =====
-- What `pipe_write` does to the pipe that it is called on, and to the other pipes.
use aether_os.Prelude.{
  ℕ, ◌-◌, ◌<◌, min, ◌≡◌, refl, ◌≢◌, ◌⊎◌, inl, inr, Bool, true, false, not, ◌||◌, List, ◌++◌, arith,
  length, take, set, get_or-set_self, get_or-set_other, Bool-cases, lt→ltb, sym, subst, ◌∙◌, ap,
}
use aether_os.Prelude.Int.{ℤ, pos, minus_one}
use aether_os.Pipe.{Pipe, Pipes, pipe_buf, max_pipes, pipe_at, zero_pipe, write_loop, pipe_write}
use aether_os.Pipe.Inv.{contents, write_loop-Wrote}
use aether_os.Pipe.Table.{TableIsValid, set-TableIsValid}

-- `if (!p->in_use || p->read_closed)`
abbrev unwritable : Pipe → Bool
unwritable p = not p.in_use || p.read_closed

pipe_write-fails :
    (ps : Pipes) (i : ℕ) (src : List ℕ)
    → i < max_pipes
    → unwritable (pipe_at ps i) ≡ true
    → pipe_write ps (pos i) src ≡ (minus_one, ps)
unfolding pipe_write
pipe_write-fails ps i src h bad = rw (lt→ltb i max_pipes h, pipe_write, bad)

pipe_write-stores :
    (ps : Pipes) (i : ℕ) (src : List ℕ)
    → i < max_pipes
    → unwritable (pipe_at ps i) ≡ false
    → let out = write_loop 0 (pipe_at ps i) src in
      pipe_write ps (pos i) src ≡ (pos out.0, set ps i out.1)
unfolding pipe_write
pipe_write-stores ps i src h good = rw (lt→ltb i max_pipes h, pipe_write, good)

-- How a write of `src` to pipe `i` may end: refused with -1 for a pipe that is not in use or has no
-- reader, with nothing changed; or accepted, with the bytes that there is room for appended.
abbrev pub Writes : Pipes → ℕ → List ℕ → ℤ × Pipes → Type 0
Writes ps i src out =
    let p = pipe_at ps i in
    let room = pipe_buf - p.count in
    ((((p.in_use ≡ false) ⊎ (p.read_closed ≡ true)) × (out.0 ≡ minus_one) × (out.1 ≡ ps))
      ⊎ ((p.in_use ≡ true)
          × (p.read_closed ≡ false)
          × (out.0 ≡ pos (min (length src) room))
          × (contents (pipe_at out.1 i) ≡ contents p ++ take room src)))
    × TableIsValid out.1
    × ((j : ℕ) → j ≢ i → pipe_at out.1 j ≡ pipe_at ps j)

-- `pipe_write` on a pipe of a valid table. It fails, and changes nothing, exactly when the pipe is
-- not in use or has no reader. Otherwise it returns the number of bytes written, the smaller of
-- the number offered and the room left, and appends exactly those first bytes in order. Either
-- way the table stays valid and every other pipe is as it was.
pub pipe_write_lem :
    (ps : Pipes) (i : ℕ) (src : List ℕ)
    → i < max_pipes
    → TableIsValid ps
    → Writes ps i src (pipe_write ps (pos i) src)
pipe_write_lem ps i src h v = elim (Bool-cases (unwritable (pipe_at ps i))) [
  | inl bad ↦
      subst (Writes ps i src) (sym (pipe_write-fails ps i src h bad))
        (inl (ground arith, refl, refl), v, λ j ne. refl)
  | inr good ↦
      let w = write_loop-Wrote src (pipe_at ps i) 0 (v.each i) in
      let out = write_loop 0 (pipe_at ps i) src in
      subst (Writes ps i src) (sym (pipe_write-stores ps i src h good)) (
        inr (
          ground arith,
          ground arith,
          ap pos (omega (arith, w.number)),
          ap contents (get_or-set_self ps i out.1 zero_pipe (omega (arith, v.size))) ∙ w.bytes,
        ),
        set-TableIsValid ps i out.1 h w.valid v,
        λ j ne. get_or-set_other ps i j out.1 zero_pipe (λ e. ne (sym e)),
      )
]
