-- ===== src/Ext2/Files.antt =====
-- kernel/fs/ext2.c: reading a file. The loop takes a byte or more in a round, so the bytes that are
-- left are rounds enough.
use aether_os.Prelude.{
  ℕ, zero, suc, ◌+◌, ◌-◌, ◌*◌, ◌/◌, ◌%◌, min, Option, none, some, [], ◌++◌, ltb, leb, ◌==◌,
  if◌then◌else◌, length, replicate,
}
use aether_os.Prelude.Int.{ℤ, pos, minus_one}
use aether_os.Prelude.Slices.{slice}
use aether_os.Ext2.Layout.{Bytes, le32}
use aether_os.Ext2.{Fs, i_block, i_size, read_block, read_inode}

-- What the number of a block of the file leads to: the end of the loop, the result -1, or a block.
pub data Place : Type 0 where
  stop : Place
  fail : Place
  at : ℕ → Place

-- Entry `k` of the pointer block `bno`.
abbrev pub pointer : Fs → ℕ → ℕ → Place
pointer fs bno k =
    if bno == 0
    then stop
    else elim (read_block fs bno) [ none ↦ fail | some tab ↦ at (le32 tab (4 * k)) ]

abbrev pub through : Fs → ℕ → Place → Place
through fs k stop = stop
through fs k fail = fail
through fs k (at bno) = pointer fs bno k

unfoldable pub block_number : Fs → Bytes → ℕ → Place
block_number fs inode block_idx =
    let ptrs = fs.block_size / 4 in
    let dbl_idx = block_idx - 12 - ptrs in
    if ltb block_idx 12
    then at (i_block inode block_idx)
    else (if ltb block_idx (12 + ptrs)
        then pointer fs (i_block inode 12) (block_idx - 12)
        else (if ltb block_idx (12 + ptrs + ptrs * ptrs)
            then through fs (dbl_idx % ptrs) (pointer fs (i_block inode 13) (dbl_idx / ptrs))
            else stop))

-- The bytes of a block of a file: none inside ends the loop.
pub data Piece : Type 0 where
  ended : Piece
  failed : Piece
  bytes : Bytes → Piece

abbrev pub piece_of : Fs → Place → Piece
piece_of fs stop = ended
piece_of fs fail = failed
piece_of fs (at bno) =
    if bno == 0
    then bytes (replicate fs.block_size 0)
    else elim (read_block fs bno) [ none ↦ failed | some blk ↦ bytes blk ]

unfoldable pub file_piece : Fs → Bytes → ℕ → Piece
file_piece fs inode block_idx = piece_of fs (block_number fs inode block_idx)

abbrev pub before : Bytes → Option Bytes → Option Bytes
before xs none = none
before xs (some ys) = some (xs ++ ys)

-- The copied bytes, none for the result -1. The offset stays below the file's size, so below 2^32.
unfoldable pub read_blocks : ℕ → Fs → Bytes → ℕ → ℕ → Option Bytes
read_blocks zero fs inode cur_off remaining = some []
read_blocks (suc fuel) fs inode cur_off remaining =
    let block_off = cur_off % fs.block_size in
    let to_copy = min (fs.block_size - block_off) remaining in
    if remaining == 0 then some [] else elim (file_piece fs inode (cur_off / fs.block_size)) [
      | ended ↦ some []
      | failed ↦ none
      | bytes blk ↦
          before (slice blk block_off to_copy)
            (read_blocks fuel fs inode (cur_off + to_copy) (remaining - to_copy))
    ]

abbrev pub counted_bytes : Option Bytes → ℤ × Bytes
counted_bytes none = (minus_one, [])
counted_bytes (some xs) = (pos (length xs), xs)

-- The result and the bytes in `*buf`; what a call that returns -1 has stored is left out.
abbrev pub read_from : Fs → ℕ → ℕ → Option Bytes → ℤ × Bytes
read_from fs off size none = (minus_one, [])
read_from fs off size (some inode) =
    let n = if ltb (i_size inode) (off + size) then i_size inode - off else size in
    if leb (i_size inode) off then (pos 0, []) else counted_bytes (read_blocks n fs inode off n)

unfoldable pub ext2_read : Fs → ℕ → ℕ → ℕ → ℤ × Bytes
ext2_read fs ino off size = read_from fs off size (read_inode fs ino)

pub ext2_file_size : Fs → ℕ → ℕ
ext2_file_size fs ino = elim (read_inode fs ino) [ none ↦ 0 | some inode ↦ i_size inode ]
