-- ===== src/Ext2/Dirs.antt =====
-- kernel/fs/ext2.c: directory entries. A pointer into a block is an offset. A round of a scan passes
-- an entry of eight bytes or more, so the bytes of a block are rounds enough.
use aether_os.Prelude.{
  ℕ, zero, suc, ◌+◌, ◌-◌, ◌*◌, ◌/◌, ◌%◌, Bool, true, false, not, ◌&&◌, ◌||◌, Option, none, some,
  List, [], ◌∷◌, ltb, leb, ◌==◌, if◌then◌else◌, length, set, take, drop, find_from, replicate,
  add32, u8_mod, u16_mod,
}
use aether_os.Prelude.Slices.{slice}
use aether_os.Vfs.Path.{slash, last_slash}
use aether_os.Ext2.Layout.{Bytes, byte_at, le16, le32, put16, put32, splice, equal_bytes}
use aether_os.Ext2.{
  Fs, i_block, set_i_block, i_size, set_i_size, set_i_blocks, read_block, write_block, read_inode,
  write_inode,
}
use aether_os.Ext2.Bitmaps.{alloc_block, free_block}

-- Fields of `ext2_dirent_t` at offset `p`.
abbrev pub de_inode : Bytes → ℕ → ℕ
de_inode block p = le32 block p

abbrev pub de_rec_len : Bytes → ℕ → ℕ
de_rec_len block p = le16 block (p + 4)

abbrev pub de_name_len : Bytes → ℕ → ℕ
de_name_len block p = byte_at block (p + 6)

-- `8 + ((name_len + 3) & ~3)`
abbrev pub entry_size : ℕ → ℕ
entry_size name_len = 8 + (name_len + 3) / 4 * 4

unfoldable pub dirent_valid : Bytes → ℕ → ℕ → Bool
dirent_valid block p end =
    leb (p + 8) end
    && (leb (entry_size (de_name_len block p)) (de_rec_len block p)
        && leb (de_rec_len block p) (end - p))

-- The walk over the entries from `p` on to the first in use that passes the test.
unfoldable pub find_entry : (Bytes → ℕ → Bool) → ℕ → ℕ → Bytes → ℕ → Option ℕ
find_entry test zero end block p = none
find_entry test (suc fuel) end block p =
    let rest = find_entry test fuel end block (p + de_rec_len block p) in
    if dirent_valid block p end
    then (if not (de_inode block p == 0) && test block p then some p else rest)
    else none

-- `de->name_len == name_len && memcmp(de->name, name, name_len) == 0`
abbrev pub has_name : Bytes → Bytes → ℕ → Bool
has_name name block p =
    de_name_len block p == length name && equal_bytes (slice block (p + 8) (length name)) name

-- The bytes of a C string that its length in a `uint8_t` counts.
abbrev pub counted_name : Bytes → Bytes
counted_name name = take (length name % u8_mod) name

unfoldable pub dir_find_in_block : Bytes → ℕ → Bytes → ℕ
dir_find_in_block block block_size name =
    elim (find_entry (has_name name) block_size block_size block 0) [
      | none ↦ 0
      | some p ↦ de_inode block p
    ]

-- The loop over the direct blocks in which an edit of a block is tried; the first that succeeds is
-- returned with the number of its block.
pub edit_blocks : (Bytes → Option Bytes) → Fs → List ℕ → Option (ℕ × Bytes)
edit_blocks edit fs [] = none
edit_blocks edit fs (bno ∷ bs) =
    let rest = edit_blocks edit fs bs in
    if bno == 0 then none else elim (read_block fs bno) [
      | none ↦ rest
      | some blk ↦ elim (edit blk) [ none ↦ rest | some blk' ↦ some (bno, blk') ]
    ]

-- `i_block[b]` for `n` values of `b` from `k` on.
unfoldable pub pointers : Bytes → ℕ → ℕ → List ℕ
pointers inode zero k = []
pointers inode (suc n) k = i_block inode k ∷ pointers inode n (k + 1)

abbrev pub direct : Bytes → List ℕ
direct inode = pointers inode 12 0

-- The inode number, the length, the type and the bytes of a name, behind the field `rec_len`.
unfoldable pub put_name : Bytes → ℕ → ℕ → Bytes → ℕ → Bytes
put_name block p child name ftype =
    splice (set (set (put32 block p child) (p + 6) (length name)) (p + 7) ftype) (p + 8) name

-- The search for room in a block, and the entry put there.
unfoldable pub add_to_block : ℕ → ℕ → Bytes → ℕ → ℕ → Bytes → ℕ → Option Bytes
add_to_block zero end name child ftype block p = none
add_to_block (suc fuel) end name child ftype block p =
    let rest = add_to_block fuel end name child ftype block (p + de_rec_len block p) in
    let needed = entry_size (length name) in
    let actual = entry_size (de_name_len block p) in
    let slack = de_rec_len block p - actual in
    if dirent_valid block p end
    then (if de_inode block p == 0 && leb needed (de_rec_len block p)
        then some (put_name block p child name ftype)
        else (if leb end (p + de_rec_len block p)
              && (not (de_inode block p == 0) && leb needed slack)
            then some (
                put_name (put16 (put16 block (p + 4) actual) (p + actual + 4) slack) (p + actual)
                  child name ftype)
            else rest))
    else none

-- The directory's inode with its new block, none where all direct slots are in use.
abbrev pub is_zero : ℕ → Bool
is_zero n = n == 0

pub attach : Fs → Bytes → ℕ → Option Bytes
attach fs inode bno = elim (find_from is_zero 0 (direct inode)) [
  | none ↦ none
  | some b ↦
      let grown = set_i_size (set_i_block inode b bno) (add32 (i_size inode) fs.block_size) in
      some (set_i_blocks grown (le32 inode 28 + fs.block_size / 512))
]

abbrev pub attached : Fs → ℕ → ℕ → Option Bytes → Bool × Fs
attached fs dir_ino bno none = (false, free_block fs bno)
attached fs dir_ino bno (some inode) = (true, (write_inode fs dir_ino inode).1)

abbrev pub add_block : ℕ → Bytes → Bytes → ℕ → ℕ → ℕ × Fs → Bool × Fs
add_block dir_ino inode name child ftype (bno, fs) =
    let block =
      put_name (put16 (replicate fs.block_size 0) 4 (fs.block_size % u16_mod)) 0 child name ftype in
    if bno == 0
    then (false, fs)
    else attached (write_block fs bno block).1 dir_ino bno (attach fs inode bno)

pub dir_add_entry : Fs → ℕ → Bytes → ℕ → ℕ → Bool × Fs
dir_add_entry fs dir_ino name child ftype = elim (read_inode fs dir_ino) [
  | none ↦ (false, fs)
  | some inode ↦
      if fs.memory
      then elim (edit_blocks
          (λ blk. add_to_block fs.block_size fs.block_size (counted_name name) child ftype blk 0) fs
          (direct inode)) [
            | none ↦ add_block dir_ino inode (counted_name name) child ftype (alloc_block fs)
            | some (bno, blk) ↦ (true, (write_block fs bno blk).1)
          ]
      else (false, fs)
]

-- The first entry that passes the test gets another inode number.
pub point_entry : (Bytes → ℕ → Bool) → ℕ → ℕ → Bytes → Option Bytes
point_entry test ino end block = elim (find_entry test end end block 0) [
  | none ↦ none
  | some p ↦ some (put32 block p ino)
]

pub dir_remove_entry : Fs → ℕ → Bytes → Bool × Fs
dir_remove_entry fs dir_ino name = elim (read_inode fs dir_ino) [
  | none ↦ (false, fs)
  | some inode ↦
      if fs.memory
      then elim (edit_blocks (point_entry (has_name (counted_name name)) 0 fs.block_size) fs
          (direct inode)) [
            | none ↦ (false, fs)
            | some (bno, blk) ↦ (true, (write_block fs bno blk).1)
          ]
      else (false, fs)
]

-- The parent and the leaf of a path. The stores go to buffers of 256 bytes: the model covers the
-- parents that fit.
pub path_split : Bytes → Option (Bytes × Bytes)
path_split path =
    let last = last_slash 0 0 path in
    let name = drop (last + 1) path in
    if length name == 0 || ltb 254 (length name)
    then none
    else some (if last == 0 then slash ∷ [] else take last path, name)
