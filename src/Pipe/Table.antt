-- ===== src/Pipe/Table.antt =====
-- The invariant of the pipe table.
use aether_os.Prelude.{
  ℕ, ◌<◌, ◌≡◌, arith, length, set, length-set, get_or-set_self, get_or-set_other, sym, subst, ◌∙◌,
}
use native.Mathlib.Decide.{ℕ_discrete}
use aether_os.Pipe.{Pipe, Pipes, max_pipes, pipe_at, zero_pipe}
use aether_os.Pipe.Inv.{IsValid}

-- Every pipe of the table is valid.
pub record TableIsValid (ps : Pipes) : Type 0 where
  pub size : length ps ≡ max_pipes
  pub each : (i : ℕ) → IsValid (pipe_at ps i)

-- Storing a valid pipe keeps the table valid, and the other pipes as they were.
pub set-TableIsValid :
    (ps : Pipes) (i : ℕ) (p : Pipe)
    → i < max_pipes
    → IsValid p
    → TableIsValid ps
    → TableIsValid (set ps i p)
set-TableIsValid ps i p h v t = record { size = length-set ps i p ∙ t.size; each = each }
  where
    each : (j : ℕ) → IsValid (pipe_at (set ps i p) j)
    each j = elim (ℕ_discrete i j) [
      | yes e ↦
          rw (← e)
            (subst IsValid (sym (get_or-set_self ps i p zero_pipe (omega (arith, t.size)))) v)
      | no ne ↦ subst IsValid (sym (get_or-set_other ps i j p zero_pipe ne)) (t.each j)
    ]
