-- ===== src/Ext2/Write.antt =====
-- kernel/fs/ext2.c: writing to a file, and cutting it.
use aether_os.Prelude.{
  ℕ, zero, suc, ◌+◌, ◌-◌, ◌*◌, ◌/◌, ◌%◌, min, Bool, false, ◌||◌, Option, none, some, ltb, ◌==◌,
  if◌then◌else◌, length, take, drop, replicate, add64, u32_mod,
}
use aether_os.Prelude.Int.{ℤ, pos, minus_one}
use aether_os.Ext2.Layout.{Bytes, le32, put32, splice}
use aether_os.Ext2.{
  Fs, i_block, set_i_block, i_size, set_i_size, set_i_blocks, read_block, write_block, read_inode,
  write_inode,
}
use aether_os.Ext2.Bitmaps.{alloc_block, free_block}

-- A block for the file, and one that is written with zeros to hold pointers.
abbrev pub new_data : Fs → Option ℕ × Fs
new_data fs = let (bno, fs1) = alloc_block fs in (if bno == 0 then none else some bno, fs1)

abbrev pub zeroed_table : Option ℕ × Fs → Option ℕ × Fs
zeroed_table (none, fs) = (none, fs)
zeroed_table (some bno, fs) =
    let (ok, fs1) = write_block fs bno (replicate fs.block_size 0) in
    (if ok then some bno else none, fs1)

abbrev pub new_table : Fs → Option ℕ × Fs
new_table fs = zeroed_table (new_data fs)

abbrev pub enter_pointer : ℕ → Bytes → ℕ → Option ℕ × Fs → Option ℕ × Fs
enter_pointer t tab k (none, fs) = (none, fs)
enter_pointer t tab k (some bno, fs) =
    let (ok, fs1) = write_block fs t (put32 tab (4 * k) bno) in (if ok then some bno else none, fs1)

-- Entry `k` of the pointer block `t`, made where it is 0.
pub pointer_entry : (Fs → Option ℕ × Fs) → ℕ → Option ℕ × Fs → Option ℕ × Fs
pointer_entry fresh k (none, fs) = (none, fs)
pointer_entry fresh k (some t, fs) =
    if fs.memory
    then elim (read_block fs t) [
      | none ↦ (none, fs)
      | some tab ↦
          let bno = le32 tab (4 * k) in
          if bno == 0 then enter_pointer t tab k (fresh fs) else (some bno, fs)
    ]
    else (none, fs)

-- `i_block[k]` of the inode, made where it is 0.
abbrev pub enter_root : ℕ → Bytes → Option ℕ × Fs → Option ℕ × Bytes × Fs
enter_root k inode (none, fs) = (none, inode, fs)
enter_root k inode (some bno, fs) = (some bno, set_i_block inode k bno, fs)

pub root_entry : (Fs → Option ℕ × Fs) → ℕ → Bytes → Fs → Option ℕ × Bytes × Fs
root_entry fresh k inode fs =
    if i_block inode k == 0
    then enter_root k inode (fresh fs)
    else (some (i_block inode k), inode, fs)

abbrev pub with_inode : Bytes → Option ℕ × Fs → Option ℕ × Bytes × Fs
with_inode inode (bno, fs) = (bno, inode, fs)

-- The block of the file at this index, none for a break of the loop.
pub file_block : Fs → Bytes → ℕ → Option ℕ × Bytes × Fs
file_block fs inode block_idx =
    let ptrs = fs.block_size / 4 in
    let dbl_idx = block_idx - 12 - ptrs in
    if ltb block_idx 12
    then root_entry new_data block_idx inode fs
    else (if ltb block_idx (12 + ptrs)
        then (let (t, inode1, fs1) = root_entry new_table 12 inode fs in
            with_inode inode1 (pointer_entry new_data (block_idx - 12) (t, fs1)))
        else (if ltb block_idx (12 + ptrs + ptrs * ptrs)
            then (let (t, inode1, fs1) = root_entry new_table 13 inode fs in
                with_inode inode1 (
                  pointer_entry new_data (dbl_idx % ptrs)
                    (pointer_entry new_table (dbl_idx / ptrs) (t, fs1))))
            else (none, inode, fs)))

-- The end of the loop's body: `xs` is put at `block_off`; a block that is not written as a whole is
-- read first.
pub put_bytes : Fs → ℕ → ℕ → Bytes → Bool × Fs
put_bytes fs bno block_off xs =
    let old =
      if ltb 0 block_off || ltb (length xs) fs.block_size
      then read_block fs bno
      else some (replicate fs.block_size 0) in
    elim old [ none ↦ (false, fs) | some blk ↦ write_block fs bno (splice blk block_off xs) ]

abbrev pub put_in : ℕ → Bytes → Option ℕ × Bytes × Fs → Bool × Bytes × Fs
put_in block_off xs (none, inode, fs) = (false, inode, fs)
put_in block_off xs (some bno, inode, fs) =
    let (ok, fs1) = put_bytes fs bno block_off xs in (ok, inode, fs1)

-- One round for the bytes `xs`, at byte `o` of the file.
abbrev pub write_round : Fs → Bytes → ℕ → Bytes → Bool × Bytes × Fs
write_round fs inode o xs =
    put_in (o % fs.block_size) xs (file_block fs inode (o / fs.block_size % u32_mod))

-- The number of bytes written, the inode and the state.
unfoldable pub write_blocks : ℕ → Fs → Bytes → ℕ → ℕ → Bytes → ℕ × Bytes × Fs
write_blocks zero fs inode off written src = (written, inode, fs)
write_blocks (suc fuel) fs inode off written src =
    let o = add64 off written in
    let to_write = min (fs.block_size - o % fs.block_size) (length src) in
    let (ok, inode1, fs1) = write_round fs inode o (take to_write src) in
    let rest = write_blocks fuel fs1 inode1 off (written + to_write) (drop to_write src) in
    if length src == 0 then (written, inode, fs) else (if ok then rest else (written, inode1, fs1))

-- How many of the pointers are not 0, for `n` of them from `k` on.
pub count_blocks : Bytes → ℕ → ℕ → ℕ
count_blocks inode zero k = 0
count_blocks inode (suc n) k =
    (if i_block inode k == 0 then 0 else 1) + count_blocks inode n (k + 1)

abbrev pub grown : Fs → Bytes → ℕ → Bytes
grown fs inode new_end =
    if ltb (i_size inode) new_end
    then (let inode1 = set_i_size inode new_end in
        set_i_blocks inode1 (count_blocks inode1 14 0 * (fs.block_size / 512)))
    else inode

abbrev pub written_back : ℕ → ℕ → ℕ × Bytes × Fs → ℤ × Fs
written_back ino off (written, inode, fs) =
    let fs1 = (write_inode fs ino (grown fs inode (add64 off written))).1 in
    (pos written, if written == 0 then fs else fs1)

pub ext2_write : Fs → ℕ → ℕ → Bytes → ℤ × Fs
ext2_write fs ino off src =
    if ino == 0 || length src == 0 then (minus_one, fs) else elim (read_inode fs ino) [
      | none ↦ (minus_one, fs)
      | some inode ↦
          if fs.memory
          then written_back ino off (write_blocks (length src) fs inode off 0 src)
          else (minus_one, fs)
    ]

-- `if (bno) free_block(fs, bno);`
abbrev pub free_used : Fs → ℕ → Fs
free_used fs bno = if bno == 0 then fs else free_block fs bno

-- The loop over `n` direct blocks from `k` on.
pub release_direct : ℕ → ℕ → Bytes → Fs → Bytes × Fs
release_direct zero k inode fs = (inode, fs)
release_direct (suc n) k inode fs =
    let bno = i_block inode k in
    release_direct n (k + 1) (if bno == 0 then inode else set_i_block inode k 0) (free_used fs bno)

-- The loop over the pointers of a block, `n` of them from `k` on.
pub release_pointers : ℕ → ℕ → Bytes → Fs → Fs
release_pointers zero k tab fs = fs
release_pointers (suc n) k tab fs = release_pointers n (k + 1) tab (free_used fs (le32 tab (4 * k)))

abbrev pub release_indirect : Bytes → Fs → Bytes × Fs
release_indirect inode fs =
    let bno = i_block inode 12 in
    let fs1 =
      if fs.memory
      then elim (read_block fs bno) [
        | none ↦ fs
        | some tab ↦ release_pointers (fs.block_size / 4) 0 tab fs
      ]
      else fs in
    if bno == 0 then (inode, fs) else (set_i_block inode 12 0, free_block fs1 bno)

-- The code that ext2_truncate and ext2_unlink share: the inode without its blocks, and the state.
pub release : Bytes → Fs → Bytes × Fs
release inode fs =
    let (inode1, fs1) = release_direct 12 0 inode fs in
    let (inode2, fs2) = release_indirect inode1 fs1 in (set_i_blocks (set_i_size inode2 0) 0, fs2)

pub ext2_truncate : Fs → ℕ → Bool × Fs
ext2_truncate fs ino = if ltb ino 2 then (false, fs) else elim (read_inode fs ino) [
  | none ↦ (false, fs)
  | some inode ↦ let (inode1, fs1) = release inode fs in write_inode fs1 ino inode1
]
