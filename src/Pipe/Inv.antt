-- ===== src/Pipe/Inv.antt =====
-- The invariant of a pipe and of the table, and what one round of each loop does.
use native.Mathlib.Numerals.{add-one}
use aether_os.Prelude.{
  ℕ, zero, suc, ◌+◌, ◌-◌, ◌%◌, ◌≤◌, ◌<◌, min, ◌≡◌, refl, List, [], ◌∷◌, ◌++◌, append_assoc,
  append-nil, arith, length, get_or, take, length-set, length-replicate, Bool-cases, inl, inr, ltb,
  ap, take-nil, take-cons, ltb→lt, ◌∙◌,
}
use aether_os.Ring.{seg, place, place-suc, seg-store}
use aether_os.Pipe.{Pipe, pipe_buf, zero_buf, zero_pipe, push_byte, write_loop, read_loop}

-- The head is an index, and the count says how many bytes of the buffer are in use.
pub record IsValid (p : Pipe) : Type 0 where
  pub full_size : length p.buf ≡ pipe_buf
  pub head_in : p.head < pipe_buf
  pub count_in : p.count ≤ pipe_buf

-- The bytes in the pipe, oldest first.
abbrev pub contents : Pipe → List ℕ
contents p = seg p.buf pipe_buf p.head p.count

pub zero_pipe-IsValid : IsValid zero_pipe
unfolding zero_pipe zero_buf
zero_pipe-IsValid = record {
  full_size = length-replicate {A = ℕ} pipe_buf 0;
  head_in = omega arith;
  count_in = omega arith;
}

push_byte-IsValid : (p : Pipe) (b : ℕ) → IsValid p → p.count < pipe_buf → IsValid (push_byte p b)
unfolding push_byte
push_byte-IsValid p b v room = omega (arith, length-set p.buf ((p.head + p.count) % pipe_buf) b)

contents-push_byte :
    (p : Pipe) (b : ℕ)
    → IsValid p
    → p.count < pipe_buf
    → contents (push_byte p b) ≡ contents p ++ b ∷ []
unfolding push_byte
contents-push_byte p b v room = rw add-one (
    seg-store p.buf pipe_buf b p.count p.head (place pipe_buf p.head p.count)
      (omega (arith, v.full_size)) v.head_in room refl)

-- What the loop of `pipe_write` has done, started at `p` with `k` bytes written.
pub record Wrote (p : Pipe) (src : List ℕ) (k : ℕ) (out : ℕ × Pipe) : Type 0 where
  pub valid : IsValid out.1
  pub number : out.0 ≡ k + min (length src) (pipe_buf - p.count)
  pub bytes : contents out.1 ≡ contents p ++ take (pipe_buf - p.count) src
  pub still_used : out.1.in_use ≡ p.in_use
  pub writer : out.1.write_closed ≡ p.write_closed
  pub reader : out.1.read_closed ≡ p.read_closed

push-Wrote :
    (p : Pipe) (b : ℕ) (src : List ℕ) (k : ℕ) (out : ℕ × Pipe)
    → p.count < pipe_buf
    → contents (push_byte p b) ≡ contents p ++ b ∷ []
    → Wrote (push_byte p b) src (k + 1) out
    → Wrote p (b ∷ src) k out
unfolding push_byte
push-Wrote p b src k out room grown w = record {
  valid = w.valid;
  number = omega (arith, w.number);
  bytes =
      w.bytes
      ∙ ap (λ (l : List ℕ). l ++ take (pipe_buf - (p.count + 1)) src) grown
      ∙ append_assoc (contents p) (b ∷ []) (take (pipe_buf - (p.count + 1)) src)
      ∙ ap (◌++◌ (contents p)) (take-cons _ (pipe_buf - p.count) b src (omega arith));
  still_used = w.still_used;
  writer = w.writer;
  reader = w.reader;
}

pub write_loop-Wrote :
    (src : List ℕ) (p : Pipe) (k : ℕ) → IsValid p → Wrote p src k (write_loop k p src)
unfolding write_loop
write_loop-Wrote [] p k v = record {
  valid = v;
  number = omega arith;
  bytes = rw (take-nil, append-nil);
  still_used = refl;
  writer = refl;
  reader = refl;
}
write_loop-Wrote (b ∷ src) p k v = elim (Bool-cases (ltb p.count pipe_buf)) [
  | inl room ↦
      rw (room, write_loop)
        (push-Wrote p b src k (write_loop (k + 1) (push_byte p b) src) (ltb→lt _ _ room)
          (contents-push_byte p b v (ltb→lt _ _ room))
          (write_loop-Wrote src (push_byte p b) (k + 1)
            (push_byte-IsValid p b v (ltb→lt _ _ room))))
  | inr none_left ↦
      rw (none_left, write_loop)
        (record {
          valid = v;
          number = ground (arith, v.count_in);
          bytes = let e : pipe_buf - p.count ≡ 0 = ground arith in rw (e, append-nil);
          still_used = refl;
          writer = refl;
          reader = refl;
        })
]

abbrev pair : List ℕ → ℕ → List ℕ × ℕ
pair out k = (out, k)

-- What the loop of `pipe_read` returns.
pub read_loop_lem :
    (n : ℕ) (buf : List ℕ) (head : ℕ)
    → head < pipe_buf
    → read_loop n buf head ≡ (seg buf pipe_buf head n, place pipe_buf head n)
unfolding read_loop seg
read_loop_lem zero buf head h = ap (λ (k : ℕ). pair [] k) (omega arith)
read_loop_lem (suc n) buf head h = rw (read_loop_lem n buf (place pipe_buf head 1) (omega arith)) (
    ap (λ (k : ℕ). pair (get_or buf head 0 ∷ seg buf pipe_buf (place pipe_buf head 1) n) k)
      (place-suc pipe_buf head n))
