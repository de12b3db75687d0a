-- ===== src/Keyboard.antt =====
-- kernel/drivers/ps2kbd.c: the keyboard. The interrupt handler turns scan codes into characters and
-- puts them into a ring buffer, from which ps2kbd_getchar takes them. The byte that the handler reads
-- from the port is its argument; ps2kbd_init, which sets up the interrupt, is left out.
pub mod Buffer
pub mod Fifo
mod Tests
use Prim.Native.Nat.{bit_and}
use aether_os.Prelude.{
  ℕ, ◌+◌, ◌-◌, ◌%◌, Bool, true, false, not, ◌&&◌, ◌||◌, Option, none, some, List, [], ◌∷◌, leb,
  ◌==◌, if◌then◌else◌, get_or, set,
}

abbrev pub kbd_buf_size : ℕ
kbd_buf_size = 64

-- `s_scan_ascii`: the characters of the keys, 0 for a key with none.
pub scan_ascii : List ℕ
scan_ascii =
    0 ∷ 0 ∷ 49 ∷ 50 ∷ 51 ∷ 52 ∷ 53 ∷ 54 ∷ 55 ∷ 56 ∷ 57 ∷ 48 ∷ 45 ∷ 61 ∷ 8 ∷ 9 ∷ 113 ∷ 119 ∷ 101
    ∷ 114 ∷ 116 ∷ 121 ∷ 117 ∷ 105 ∷ 111 ∷ 112 ∷ 91 ∷ 93 ∷ 10 ∷ 0 ∷ 97 ∷ 115 ∷ 100 ∷ 102 ∷ 103 ∷ 104
    ∷ 106 ∷ 107 ∷ 108 ∷ 59 ∷ 39 ∷ 96 ∷ 0 ∷ 92 ∷ 122 ∷ 120 ∷ 99 ∷ 118 ∷ 98 ∷ 110 ∷ 109 ∷ 44 ∷ 46 ∷ 47
    ∷ 0 ∷ 42 ∷ 0 ∷ 32 ∷ 0 ∷ 0 ∷ 0 ∷ 0 ∷ 0 ∷ 0 ∷ 0 ∷ 0 ∷ 0 ∷ 0 ∷ 0 ∷ 0 ∷ 0 ∷ 55 ∷ 56 ∷ 57 ∷ 45 ∷ 52
    ∷ 53 ∷ 54 ∷ 43 ∷ 49 ∷ 50 ∷ 51 ∷ 48 ∷ 46 ∷ 0 ∷ 0 ∷ 0 ∷ 0 ∷ 0 ∷ 0 ∷ 0 ∷ 0 ∷ 0 ∷ 0 ∷ 0 ∷ 0 ∷ 0 ∷ 0
    ∷ 0 ∷ 0 ∷ 0 ∷ 0 ∷ 0 ∷ 0 ∷ 0 ∷ 0 ∷ 0 ∷ 0 ∷ 0 ∷ 0 ∷ 0 ∷ 0 ∷ 0 ∷ 0 ∷ 0 ∷ 0 ∷ 0 ∷ 0 ∷ 0 ∷ 0 ∷ 0 ∷ 0
    ∷ 0 ∷ 0 ∷ 0 ∷ 0 ∷ 0 ∷ 0 ∷ []

-- `s_scan_ascii_shift`: with a shift key held.
pub scan_ascii_shift : List ℕ
scan_ascii_shift =
    0 ∷ 0 ∷ 33 ∷ 64 ∷ 35 ∷ 36 ∷ 37 ∷ 94 ∷ 38 ∷ 42 ∷ 40 ∷ 41 ∷ 95 ∷ 43 ∷ 8 ∷ 9 ∷ 81 ∷ 87 ∷ 69 ∷ 82
    ∷ 84 ∷ 89 ∷ 85 ∷ 73 ∷ 79 ∷ 80 ∷ 123 ∷ 125 ∷ 10 ∷ 0 ∷ 65 ∷ 83 ∷ 68 ∷ 70 ∷ 71 ∷ 72 ∷ 74 ∷ 75 ∷ 76
    ∷ 58 ∷ 34 ∷ 126 ∷ 0 ∷ 124 ∷ 90 ∷ 88 ∷ 67 ∷ 86 ∷ 66 ∷ 78 ∷ 77 ∷ 60 ∷ 62 ∷ 63 ∷ 0 ∷ 42 ∷ 0 ∷ 32
    ∷ 0 ∷ 0 ∷ 0 ∷ 0 ∷ 0 ∷ 0 ∷ 0 ∷ 0 ∷ 0 ∷ 0 ∷ 0 ∷ 0 ∷ 0 ∷ 55 ∷ 56 ∷ 57 ∷ 45 ∷ 52 ∷ 53 ∷ 54 ∷ 43 ∷ 49
    ∷ 50 ∷ 51 ∷ 48 ∷ 46 ∷ 0 ∷ 0 ∷ 0 ∷ 0 ∷ 0 ∷ 0 ∷ 0 ∷ 0 ∷ 0 ∷ 0 ∷ 0 ∷ 0 ∷ 0 ∷ 0 ∷ 0 ∷ 0 ∷ 0 ∷ 0 ∷ 0
    ∷ 0 ∷ 0 ∷ 0 ∷ 0 ∷ 0 ∷ 0 ∷ 0 ∷ 0 ∷ 0 ∷ 0 ∷ 0 ∷ 0 ∷ 0 ∷ 0 ∷ 0 ∷ 0 ∷ 0 ∷ 0 ∷ 0 ∷ 0 ∷ 0 ∷ 0 ∷ 0 ∷ 0
    ∷ 0 ∷ []

-- `s_buf`, `s_head`, `s_tail`, `s_shift`, `s_caps` and `s_stdin_waiter`, a thread's number.
pub record Keyboard : Type 0 where
  pub buf : List ℕ
  pub head : ℕ
  pub tail : ℕ
  pub shift : Bool
  pub caps : Bool
  pub waiter : Option ℕ

pub ps2kbd_set_stdin_waiter : Keyboard → Option ℕ → Keyboard
ps2kbd_set_stdin_waiter k t = record k { waiter = t }

-- The character of a key.
pub key_char : Bool → Bool → ℕ → ℕ
key_char shift caps code =
    let c = get_or (if shift then scan_ascii_shift else scan_ascii) code 0 in
    if leb 97 c && leb c 122 && caps then c - 32 else c

-- The character is put into the buffer, or dropped if that is full.
pub push_char : Keyboard → ℕ → Keyboard
push_char k c =
    let next = (k.tail + 1) % kbd_buf_size in
    if next == k.head then k else record k { buf = set k.buf k.tail c; tail = next }

-- `ps2kbd_handler` for the byte `scan`: the thread that it wakes, and the state.
pub ps2kbd_handler : Keyboard → ℕ → Option ℕ × Keyboard
ps2kbd_handler k scan =
    let release = not (bit_and scan 0x80 == 0) in
    let code = bit_and scan 0x7f in
    if code == 0x2a || code == 0x36
    then (none, record k { shift = not release })
    else (if code == 0x3a && not release
        then (none, record k { caps = not k.caps })
        else (if release || key_char k.shift k.caps code == 0
            then (none, k)
            else (k.waiter, record (push_char k (key_char k.shift k.caps code)) { waiter = none })))

pub ps2kbd_getchar : Keyboard → ℕ × Keyboard
ps2kbd_getchar k =
    if k.head == k.tail
    then (0, k)
    else (get_or k.buf k.head 0, record k { head = (k.head + 1) % kbd_buf_size })

pub ps2kbd_ready : Keyboard → Bool
ps2kbd_ready k = not (k.head == k.tail)
