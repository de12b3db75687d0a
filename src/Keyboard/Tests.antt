-- ===== src/Keyboard/Tests.antt =====
-- Keys on the keyboard of kernel/drivers/ps2kbd.c.
use aether_os.Prelude.{◌≡◌, refl, List, [], ◌∷◌, false, none, replicate, arith}
use aether_os.Keyboard.{Keyboard, key_char, scan_ascii, scan_ascii_shift}
use aether_os.Keyboard.Buffer.{empty-Holds, queue_push, queue_get}
use aether_os.Keyboard.Fifo.{
  Desk, Event, scan, get, run, desk_run, desk_press, press, Shows, run-desk_run,
}

abbrev idle : Keyboard
idle = record {
  buf = replicate 64 0;
  head = 63;
  tail = 63;
  shift = false;
  caps = false;
  waiter = none;
}

abbrev desk : Desk
desk = record { shift = false; caps = false; queue = [] }

-- The keys a, shift with b, and c after caps lock, read as far as there are any.
abbrev keys : List Event
keys =
    scan 0x1e
    ∷ scan 0x2a
    ∷ scan 0x30
    ∷ get
    ∷ scan 0xaa
    ∷ scan 0x3a
    ∷ scan 0x2e
    ∷ get
    ∷ get
    ∷ get
    ∷ []

run-desk_run_example :
    ((run idle keys).0 ≡ (desk_run desk keys).0) × Shows (run idle keys).1 (desk_run desk keys).1
run-desk_run_example = run-desk_run keys idle desk shown
  where
    shown : Shows idle desk
    shown = record { chars = empty-Holds idle refl (omega arith) refl; shift = refl; caps = refl }

-- They are a, B and C, then nothing.
typed_test : (desk_run desk keys).0 ≡ 97 ∷ 66 ∷ 67 ∷ 0 ∷ []
unfolding desk_run desk_press press key_char scan_ascii scan_ascii_shift queue_push queue_get
typed_test = refl
