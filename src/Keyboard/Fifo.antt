-- ===== src/Keyboard/Fifo.antt =====
-- What is typed on the keyboard of kernel/drivers/ps2kbd.c is read in the order of typing.
use Prim.Native.Nat.{bit_and}
use aether_os.Prelude.{
  ℕ, ◌≡◌, refl, sym, subst, ap, ap₂, ◌∙◌, Bool, true, false, not, ◌&&◌, ◌||◌, Option, none, some,
  List, [], ◌∷◌, arith, ◌==◌, if◌then◌else◌, ◌<◌, length,
}
use aether_os.Ring.{seg, place}
use aether_os.Keyboard.{
  Keyboard, key_char, push_char, ps2kbd_handler, ps2kbd_getchar, ps2kbd_set_stdin_waiter,
}
use aether_os.Keyboard.Buffer.{Holds, queue_push, queue_get, push_char-Holds, getchar-Holds}

-- What a byte from the keyboard means.
pub data Press : Type 0 where
  shift_to : Bool → Press
  toggle_caps : Press
  typed : ℕ → Press
  nothing : Press

-- A key of code 0x2a or 0x36 is a shift key, held until it is released; 0x3a is caps lock; bit 7 is
-- set where a key is released.
unfoldable pub press : Bool → Bool → ℕ → Press
press shift caps scan =
    let release = not (bit_and scan 0x80 == 0) in
    let code = bit_and scan 0x7f in
    if code == 0x2a || code == 0x36
    then shift_to (not release)
    else (if code == 0x3a && not release
        then toggle_caps
        else (if release || key_char shift caps code == 0
            then nothing
            else typed (key_char shift caps code)))

-- The handler's work for each meaning.
abbrev handle : Keyboard → Press → Option ℕ × Keyboard
handle k (shift_to b) = (none, record k { shift = b })
handle k toggle_caps = (none, record k { caps = not k.caps })
handle k (typed c) = (k.waiter, record (push_char k c) { waiter = none })
handle k nothing = (none, k)

handler-handle :
    (k : Keyboard) (scan : ℕ) → ps2kbd_handler k scan ≡ handle k (press k.shift k.caps scan)
unfolding ps2kbd_handler press
handler-handle k scan =
    choose (bit_and scan 0x7f == 0x2a || bit_and scan 0x7f == 0x36)
      (bit_and scan 0x7f == 0x3a && not (not (bit_and scan 0x80 == 0)))
      (not (bit_and scan 0x80 == 0) || key_char k.shift k.caps (bit_and scan 0x7f) == 0)
  where
    c : ℕ
    c = key_char k.shift k.caps (bit_and scan 0x7f)

    up : Bool
    up = not (not (bit_and scan 0x80 == 0))

    choose :
        (x y z : Bool)
        → (if x
            then (none, record k { shift = up })
            else (if y
                then (none, record k { caps = not k.caps })
                else (if z
                    then (none, k)
                    else (k.waiter, record (push_char k c) { waiter = none }))))
          ≡ handle k (
              if x
              then shift_to up
              else (if y then toggle_caps else (if z then nothing else typed c)))
    choose true y z = refl
    choose false true z = refl
    choose false false true = refl
    choose false false false = refl

-- The keyboard as the reader sees it: the modifiers and the characters that wait.
pub record Desk : Type 0 where
  pub shift : Bool
  pub caps : Bool
  pub queue : List ℕ

unfoldable pub desk_press : Desk → Press → Desk
desk_press d (shift_to b) = record d { shift = b }
desk_press d toggle_caps = record d { caps = not d.caps }
desk_press d (typed c) = record d { queue = queue_push d.queue c }
desk_press d nothing = d

pub data Event : Type 0 where
  scan : ℕ → Event
  get : Event
  wait : ℕ → Event

-- The characters that the calls of ps2kbd_getchar return, and the state after the events.
pub run : Keyboard → List Event → List ℕ × Keyboard
run k [] = ([], k)
run k (scan s ∷ es) = run (ps2kbd_handler k s).1 es
run k (get ∷ es) = let (c, k1) = ps2kbd_getchar k in let (cs, k2) = run k1 es in (c ∷ cs, k2)
run k (wait t ∷ es) = run (ps2kbd_set_stdin_waiter k (some t)) es

unfoldable pub desk_run : Desk → List Event → List ℕ × Desk
desk_run d [] = ([], d)
desk_run d (scan s ∷ es) = desk_run (desk_press d (press d.shift d.caps s)) es
desk_run d (get ∷ es) =
    let (c, q) = queue_get d.queue in
    let (cs, d2) = desk_run (record d { queue = q }) es in (c ∷ cs, d2)
desk_run d (wait t ∷ es) = desk_run d es

pub record Shows (k : Keyboard) (d : Desk) : Type 0 where
  pub chars : Holds k d.queue
  pub shift : k.shift ≡ d.shift
  pub caps : k.caps ≡ d.caps

-- The buffer alone decides which characters wait.
same_buffer :
    (k r : Keyboard) (q : List ℕ)
    → r.buf ≡ k.buf
    → r.head ≡ k.head
    → r.tail ≡ k.tail
    → Holds k q
    → Holds r q
same_buffer k r q b h t w = record {
  sized = ap length b ∙ w.sized;
  head = subst (λ (n : ℕ). n < 64) (sym h) w.head;
  room = w.room;
  tail = t ∙ w.tail ∙ ap (λ (n : ℕ). place 64 n (length q)) (sym h);
  chars = ap₂ (λ (buf : List ℕ) (n : ℕ). seg buf 64 n (length q)) b h ∙ w.chars;
}

push_char-shift : (k : Keyboard) (c : ℕ) → (push_char k c).shift ≡ k.shift
unfolding push_char
push_char-shift k c = ground arith

push_char-caps : (k : Keyboard) (c : ℕ) → (push_char k c).caps ≡ k.caps
unfolding push_char
push_char-caps k c = ground arith

handle-Shows :
    (k : Keyboard) (d : Desk) (m : Press) → Shows k d → Shows (handle k m).1 (desk_press d m)
unfolding desk_press
handle-Shows k d (shift_to b) w = record {
  chars = same_buffer k _ d.queue refl refl refl w.chars;
  shift = refl;
  caps = w.caps;
}
handle-Shows k d toggle_caps w = record {
  chars = same_buffer k _ d.queue refl refl refl w.chars;
  shift = w.shift;
  caps = ap not w.caps;
}
handle-Shows k d (typed c) w = record {
  chars =
      same_buffer (push_char k c) _ (queue_push d.queue c) refl refl refl
        (push_char-Holds k d.queue c w.chars);
  shift = push_char-shift k c ∙ w.shift;
  caps = push_char-caps k c ∙ w.caps;
}
handle-Shows k d nothing w = w

handler-Shows :
    (k : Keyboard) (d : Desk) (s : ℕ)
    → Shows k d
    → Shows (ps2kbd_handler k s).1 (desk_press d (press d.shift d.caps s))
handler-Shows k d s w =
    subst (λ (o : Option ℕ × Keyboard). Shows o.1 (desk_press d (press d.shift d.caps s)))
      (sym (handler-handle k s ∙ ap₂ (λ (x y : Bool). handle k (press x y s)) w.shift w.caps))
      (handle-Shows k d (press d.shift d.caps s) w)

getchar-shift : (k : Keyboard) → (ps2kbd_getchar k).1.shift ≡ k.shift
unfolding ps2kbd_getchar
getchar-shift k = ground arith

getchar-caps : (k : Keyboard) → (ps2kbd_getchar k).1.caps ≡ k.caps
unfolding ps2kbd_getchar
getchar-caps k = ground arith

-- Let the buffer hold a queue of characters, correctly stored. Under every sequence of interrupts,
-- calls of ps2kbd_getchar and calls of ps2kbd_set_stdin_waiter, the calls of ps2kbd_getchar return
-- the characters of the keys that were pressed, by the shift keys and caps lock at that moment, in
-- the order of typing, and 0 when none waits; a character that is typed while 63 wait is dropped, and
-- no other is. The characters that still wait at the end are correctly stored.
pub run-desk_run :
    (es : List Event) (k : Keyboard) (d : Desk)
    → Shows k d
    → ((run k es).0 ≡ (desk_run d es).0) × Shows (run k es).1 (desk_run d es).1
unfolding run desk_run ps2kbd_set_stdin_waiter
run-desk_run [] k d w = (refl, w)
run-desk_run (scan s ∷ es) k d w =
    run-desk_run es (ps2kbd_handler k s).1 (desk_press d (press d.shift d.caps s))
      (handler-Shows k d s w)
run-desk_run (get ∷ es) k d w =
    let (c, left) = getchar-Holds k d.queue w.chars in
    let ih =
      run-desk_run es (ps2kbd_getchar k).1 (record d { queue = (queue_get d.queue).1 })
        (record {
          chars = left;
          shift = getchar-shift k ∙ w.shift;
          caps = getchar-caps k ∙ w.caps;
        }) in
    (ap₂ ◌∷◌ c ih.0, ih.1)
run-desk_run (wait t ∷ es) k d w = run-desk_run es (ps2kbd_set_stdin_waiter k (some t)) d (record {
  chars = same_buffer k (ps2kbd_set_stdin_waiter k (some t)) d.queue refl refl refl w.chars;
  shift = w.shift;
  caps = w.caps;
})
