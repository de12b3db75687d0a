-- ===== src/Keyboard/Buffer.antt =====
-- The characters that wait in the ring buffer of kernel/drivers/ps2kbd.c.
use native.Mathlib.Decide.{ℕ_discrete}
use aether_os.Prelude.{
  ℕ, suc, ◌+◌, ◌%◌, ◌<◌, ◌≡◌, ◌≢◌, refl, sym, subst, ap, ◌∙◌, true, false, List, [], ◌∷◌, ◌++◌,
  arith, ◌==◌, if◌then◌else◌, length, length-append, length-set, get_or, set,
}
use aether_os.Ring.{seg, seg-store, place, place-suc, seg-suc}
use aether_os.Keyboard.{Keyboard, kbd_buf_size, push_char, ps2kbd_getchar}

-- The buffer holds these characters, in this order.
pub record Holds (k : Keyboard) (q : List ℕ) : Type 0 where
  pub sized : length k.buf ≡ 64
  pub head : k.head < 64
  pub room : length q < 64
  pub tail : k.tail ≡ place 64 k.head (length q)
  pub chars : seg k.buf 64 k.head (length q) ≡ q

-- A queue of at most 63 characters; what comes when it is full is dropped.
unfoldable pub queue_push : List ℕ → ℕ → List ℕ
queue_push q c = if length q == 63 then q else q ++ c ∷ []

unfoldable pub queue_get : List ℕ → ℕ × List ℕ
queue_get [] = (0, [])
queue_get (x ∷ q) = (x, q)

push_char-full :
    (k : Keyboard) (c : ℕ) → (k.tail + 1) % kbd_buf_size == k.head ≡ true → push_char k c ≡ k
unfolding push_char
push_char-full k c e = ground arith

push_char-room :
    (k : Keyboard) (c : ℕ)
    → (k.tail + 1) % kbd_buf_size == k.head ≡ false
    → push_char k c ≡ record k { buf = set k.buf k.tail c; tail = (k.tail + 1) % kbd_buf_size }
unfolding push_char
push_char-room k c e = ground arith

queue_push-full : (q : List ℕ) (c : ℕ) → length q ≡ 63 → queue_push q c ≡ q
unfolding queue_push
queue_push-full q c e = ground arith

queue_push-room : (q : List ℕ) (c : ℕ) → length q ≢ 63 → queue_push q c ≡ q ++ c ∷ []
unfolding queue_push
queue_push-room q c e = ground arith

length-snoc : (q : List ℕ) (c : ℕ) → length (q ++ c ∷ []) ≡ suc (length q)
length-snoc q c = omega (arith, length-append {0} q (c ∷ []))

-- Where the next place is, by the number of characters.
test_full : (h t n : ℕ) → h < 64 → t ≡ (h + n) % 64 → n ≡ 63 → (t + 1) % 64 == h ≡ true
test_full h t n a e f = ground arith

test_room : (h t n : ℕ) → h < 64 → n < 63 → t ≡ (h + n) % 64 → (t + 1) % 64 == h ≡ false
test_room h t n a l e = ground arith

stored :
    (k : Keyboard) (q : List ℕ) (c : ℕ)
    → length q < 63
    → Holds k q
    → Holds
        (record k { buf = set k.buf k.tail c; tail = (k.tail + 1) % kbd_buf_size })
        (q ++ c ∷ [])
stored k q c l h = record {
  sized = length-set k.buf k.tail c ∙ h.sized;
  head = h.head;
  room = omega (arith, length-snoc q c);
  tail = ap (λ (t : ℕ). (t + 1) % 64) h.tail ∙ next ∙ ap (place 64 k.head) (sym (length-snoc q c));
  chars =
      ap (seg (set k.buf k.tail c) 64 k.head) (length-snoc q c)
      ∙ seg-store k.buf 64 c (length q) k.head k.tail (omega (arith, h.sized)) h.head (omega arith)
          h.tail
      ∙ ap (λ (xs : List ℕ). xs ++ c ∷ []) h.chars;
}
  where
    next : ((k.head + length q) % 64 + 1) % 64 ≡ (k.head + suc (length q)) % 64
    next = omega arith

pub push_char-Holds :
    (k : Keyboard) (q : List ℕ) (c : ℕ) → Holds k q → Holds (push_char k c) (queue_push q c)
push_char-Holds k q c h = elim (ℕ_discrete (length q) 63) [
  | yes e ↦
      rw
        (
          push_char-full k c (test_full k.head k.tail (length q) h.head h.tail e),
          queue_push-full q c e,
        )
        h
  | no ne ↦
      rw
        (
          push_char-room k c
              (test_room k.head k.tail (length q) h.head (omega (arith, h.room, ne)) h.tail),
          queue_push-room q c ne,
        )
        (stored k q c (omega (arith, h.room, ne)) h)
]

getchar-empty : (k : Keyboard) → k.head == k.tail ≡ true → ps2kbd_getchar k ≡ (0, k)
unfolding ps2kbd_getchar
getchar-empty k e = ground arith

getchar-some :
    (k : Keyboard)
    → k.head == k.tail ≡ false
    → ps2kbd_getchar k ≡ (get_or k.buf k.head 0, record k { head = (k.head + 1) % kbd_buf_size })
unfolding ps2kbd_getchar
getchar-some k e = ground arith

test_empty : (h t : ℕ) → h < 64 → t ≡ (h + 0) % 64 → h == t ≡ true
test_empty h t a e = ground arith

test_some : (h t n : ℕ) → h < 64 → suc n < 64 → t ≡ (h + suc n) % 64 → h == t ≡ false
test_some h t n a l e = ground arith

cons_head : (x y : ℕ) (xs ys : List ℕ) → x ∷ xs ≡ y ∷ ys → x ≡ y
cons_head x y xs ys e = cc

cons_rest : (x y : ℕ) (xs ys : List ℕ) → x ∷ xs ≡ y ∷ ys → xs ≡ ys
cons_rest x y xs ys e = cc

-- What a call of ps2kbd_getchar gives and leaves.
abbrev Got : ℕ × Keyboard → List ℕ → Type 0
Got o q = (o.0 ≡ (queue_get q).0) × Holds o.1 (queue_get q).1

pub getchar-Holds :
    (k : Keyboard) (q : List ℕ)
    → Holds k q
    → ((ps2kbd_getchar k).0 ≡ (queue_get q).0) × Holds (ps2kbd_getchar k).1 (queue_get q).1
unfolding queue_get
getchar-Holds k [] h =
    subst (λ (o : ℕ × Keyboard). Got o [])
      (sym (getchar-empty k (test_empty k.head k.tail h.head h.tail))) (refl, h)
getchar-Holds k (x ∷ q) h =
    subst (λ (o : ℕ × Keyboard). Got o (x ∷ q))
      (sym (getchar-some k (test_some k.head k.tail (length q) h.head h.room h.tail)))
      (
        cons_head _ x _ q chars,
        record {
          sized = h.sized;
          head = omega arith;
          room = omega (arith, h.room);
          tail = h.tail ∙ sym (place-suc 64 k.head (length q));
          chars = cons_rest _ x _ q chars;
        },
      )
  where
    chars : get_or k.buf k.head 0 ∷ seg k.buf 64 (place 64 k.head 1) (length q) ≡ x ∷ q
    chars = sym (seg-suc k.buf 64 k.head (length q)) ∙ h.chars

pub empty-Holds :
    (k : Keyboard) → length k.buf ≡ 64 → k.head < 64 → k.tail ≡ place 64 k.head 0 → Holds k []
unfolding seg
empty-Holds k sized h e = record {
  sized = sized;
  head = h;
  room = omega arith;
  tail = e;
  chars = refl;
}
