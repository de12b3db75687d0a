-- ===== src/Pipe/Ends.antt =====
-- The life of a pipe: who gets it, and when it is free again.
use aether_os.Prelude.{
  ℕ, ◌<◌, ◌≡◌, refl, sym, subst, ap, ◌∙◌, ◌≢◌, ◌⊎◌, inl, inr, true, false, none, some, arith, set,
  length, get_or-set_self, get_or-set_other, set-set, Option-cases, find_from, find_from-Found,
  find_from-none, lt→ltb,
}
use aether_os.Prelude.Int.{ℤ, pos, minus_one}
use aether_os.Pipe.{
  Pipe, Pipes, max_pipes, pipe_at, zero_pipe, is_free, pipe_alloc, pipe_close_write,
  pipe_close_read, close_write_end, close_read_end,
}
use aether_os.Pipe.Inv.{zero_pipe-IsValid}
use aether_os.Pipe.Table.{TableIsValid, set-TableIsValid}

-- How pipe_alloc may end: with the lowest free pipe, empty, with both ends open and in use, and the
-- other pipes as they were; or refused, every pipe being in use, with nothing changed.
abbrev pub Opens : Pipes → ℤ × Pipes → Type 0
Opens ps out =
    ((i : ℕ) × (out.0 ≡ pos i)
      × (i < max_pipes)
      × ((pipe_at ps i).in_use ≡ false)
      × (pipe_at out.1 i ≡ record zero_pipe { in_use = true })
      × ((j : ℕ) → j < i → (pipe_at ps j).in_use ≡ true)
      × ((j : ℕ) → j ≢ i → pipe_at out.1 j ≡ pipe_at ps j))
    ⊎ ((out ≡ (minus_one, ps)) × ((j : ℕ) → j < max_pipes → (pipe_at ps j).in_use ≡ true))

pipe_alloc-hit :
    (ps : Pipes) (i : ℕ)
    → find_from is_free 0 ps ≡ some i
    → pipe_alloc ps ≡ (pos i, set ps i (record zero_pipe { in_use = true }))
unfolding pipe_alloc
pipe_alloc-hit ps i e = rw (e, pipe_alloc)

pipe_alloc-miss : (ps : Pipes) → find_from is_free 0 ps ≡ none → pipe_alloc ps ≡ (minus_one, ps)
unfolding pipe_alloc
pipe_alloc-miss ps e = rw (e, pipe_alloc)

-- pipe_alloc on a valid table opens the lowest free pipe, with no byte in it and both ends open, and
-- fails exactly when all are in use; the table stays valid.
pub pipe_alloc_lem :
    (ps : Pipes) → TableIsValid ps → Opens ps (pipe_alloc ps) × TableIsValid (pipe_alloc ps).1
pipe_alloc_lem ps v = elim (Option-cases (find_from is_free 0 ps)) [
  | inl miss ↦
      subst (λ (o : ℤ × Pipes). Opens ps o × TableIsValid o.1) (sym (pipe_alloc-miss ps miss))
        (inr (refl, λ j h. ground (arith, find_from-none is_free 0 ps zero_pipe miss j, v.size)), v)
  | inr (i, hit) ↦
      let found = find_from-Found is_free 0 ps zero_pipe i hit in
      let q : Pipe = record zero_pipe { in_use = true } in
      subst (λ (o : ℤ × Pipes). Opens ps o × TableIsValid o.1) (sym (pipe_alloc-hit ps i hit))
        (
          inl (
            i,
            refl,
            omega (arith, found.within, v.size),
            ground (arith, found.passes),
            get_or-set_self ps i q zero_pipe found.within,
            (λ j h. ground (arith, found.first j)),
            (λ j ne. get_or-set_other ps i j q zero_pipe (λ e. ne (sym e))),
          ),
          set-TableIsValid ps i q (omega (arith, found.within, v.size))
              (ground (arith, zero_pipe-IsValid)) v,
        )
]

close_write-eq :
    (ps : Pipes) (i : ℕ)
    → i < max_pipes
    → pipe_close_write ps (pos i) ≡ set ps i (close_write_end (pipe_at ps i))
unfolding pipe_close_write
close_write-eq ps i h = rw (lt→ltb i max_pipes h, pipe_close_write)

close_read-eq :
    (ps : Pipes) (i : ℕ)
    → i < max_pipes
    → pipe_close_read ps (pos i) ≡ set ps i (close_read_end (pipe_at ps i))
unfolding pipe_close_read
close_read-eq ps i h = rw (lt→ltb i max_pipes h, pipe_close_read)

then_read :
    (ps : Pipes) (i : ℕ) (q : Pipe)
    → i < max_pipes
    → length ps ≡ max_pipes
    → pipe_close_read (set ps i q) (pos i) ≡ set ps i (close_read_end q)
then_read ps i q h size =
    close_read-eq (set ps i q) i h
    ∙ set-set ps i q _
    ∙ ap (λ (p : Pipe). set ps i (close_read_end p))
        (get_or-set_self ps i q zero_pipe (omega arith))

then_write :
    (ps : Pipes) (i : ℕ) (q : Pipe)
    → i < max_pipes
    → length ps ≡ max_pipes
    → pipe_close_write (set ps i q) (pos i) ≡ set ps i (close_write_end q)
then_write ps i q h size =
    close_write-eq (set ps i q) i h
    ∙ set-set ps i q _
    ∙ ap (λ (p : Pipe). set ps i (close_write_end p))
        (get_or-set_self ps i q zero_pipe (omega arith))

-- The second end to be closed frees the pipe, whichever it is.
close_ends :
    (p : Pipe)
    → p.in_use ≡ true
    → p.write_closed ≡ false
    → p.read_closed ≡ false
    → ((close_write_end p).in_use ≡ true)
      × ((close_read_end p).in_use ≡ true)
      × ((close_read_end (close_write_end p)).in_use ≡ false)
      × (close_read_end (close_write_end p) ≡ close_write_end (close_read_end p))
unfolding close_write_end close_read_end
close_ends p u w r = (ground arith, ground arith, ground arith, ground arith)

-- Closing the ends of a pipe in use with both ends open, in either order: after the first the pipe
-- is still in use, after the second it is free, and the order makes no difference to the table.
pub close_both_ends :
    (ps : Pipes) (i : ℕ)
    → i < max_pipes
    → length ps ≡ max_pipes
    → (pipe_at ps i).in_use ≡ true
    → (pipe_at ps i).write_closed ≡ false
    → (pipe_at ps i).read_closed ≡ false
    → let w = pipe_close_write ps (pos i) in
      let r = pipe_close_read ps (pos i) in
      ((pipe_at w i).in_use ≡ true)
      × ((pipe_at r i).in_use ≡ true)
      × ((pipe_at (pipe_close_read w (pos i)) i).in_use ≡ false)
      × (pipe_close_read w (pos i) ≡ pipe_close_write r (pos i))
close_both_ends ps i h size used wopen ropen =
    let p = pipe_at ps i in
    let (a, b, c, d) = close_ends p used wopen ropen in
    rw
      (
        close_write-eq ps i h,
        close_read-eq ps i h,
        then_read ps i (close_write_end p) h size,
        then_write ps i (close_read_end p) h size,
      )
      (
        at_i (close_write_end p) ∙ a,
        at_i (close_read_end p) ∙ b,
        at_i (close_read_end (close_write_end p)) ∙ c,
        ap (set ps i) d,
      )
  where
    at_i : (q : Pipe) → (pipe_at (set ps i q) i).in_use ≡ q.in_use
    at_i q = ap (λ (x : Pipe). x.in_use) (get_or-set_self ps i q zero_pipe (omega arith))
