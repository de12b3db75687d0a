-- ===== src/Ext2/Bitmaps.antt =====
-- kernel/fs/ext2.c: the block and inode bitmaps of the groups.
use aether_os.Prelude.{
  ℕ, zero, suc, ◌+◌, ◌-◌, ◌*◌, ◌/◌, ◌%◌, none, some, ltb, ◌==◌, if◌then◌else◌, replicate, add32,
  sub32, u16_mod, u32_mod,
}
use aether_os.Ext2.Layout.{Bytes, put16, put32, set_bit, clear_bit, find_clear}
use aether_os.Ext2.{
  Fs, s_inodes_count, s_blocks_count, s_free_blocks_count, s_free_inodes_count, bg_block_bitmap,
  bg_inode_bitmap, bg_free_blocks_count, bg_free_inodes_count, read_block, write_block, write_super,
  read_bgd, write_bgd,
}

-- The end of the loop's body of alloc_block, where a clear bit was found.
abbrev pub claim_block : Fs → ℕ → Bytes → Bytes → ℕ → ℕ × Fs
claim_block fs g bgd bmap bit =
    let fs1 = (write_block fs (bg_block_bitmap bgd) (set_bit bmap bit)).1 in
    let fs2 =
      (write_bgd fs1 g (put16 bgd 12 ((bg_free_blocks_count bgd + u16_mod - 1) % u16_mod))).1 in
    let fs3 =
      (write_super (record fs2 {
        cached_sb = put32 fs2.cached_sb 12 (sub32 (s_free_blocks_count fs2.cached_sb) 1);
      })).1 in
    let block_no = (g * fs.blocks_per_group + fs.first_data_block + bit) % u32_mod in
    (
      block_no,
      if fs3.memory then (write_block fs3 block_no (replicate fs3.block_size 0)).1 else fs3,
    )

abbrev pub blocks_in_group : Fs → ℕ → ℕ
blocks_in_group fs g =
    let count = s_blocks_count fs.cached_sb in
    if ltb count ((g + 1) * fs.blocks_per_group % u32_mod)
    then sub32 count (g * fs.blocks_per_group % u32_mod)
    else fs.blocks_per_group

-- The loop from group `g` on with `n` groups left; 0 where no block is found.
pub alloc_block_from : ℕ → ℕ → Fs → ℕ × Fs
alloc_block_from zero g fs = (0, fs)
alloc_block_from (suc n) g fs =
    let rest = alloc_block_from n (g + 1) fs in
    elim (read_bgd fs g) [
      | none ↦ rest
      | some bgd ↦
          if bg_free_blocks_count bgd == 0
          then rest
          else (if fs.memory
              then elim (read_block fs (bg_block_bitmap bgd)) [
                | none ↦ rest
                | some bmap ↦ elim (find_clear (blocks_in_group fs g) 0 bmap) [
                  | none ↦ rest
                  | some bit ↦ claim_block fs g bgd bmap bit
                ]
              ]
              else (0, fs))
    ]

pub alloc_block : Fs → ℕ × Fs
alloc_block fs =
    let count = s_blocks_count fs.cached_sb in
    alloc_block_from (sub32 (add32 count fs.blocks_per_group) 1 / fs.blocks_per_group) 0 fs

-- The end of free_block, from the group's descriptor and bitmap.
abbrev pub release_block : Fs → ℕ → Bytes → Bytes → ℕ → Fs
release_block fs g bgd bmap bit =
    let fs1 = (write_block fs (bg_block_bitmap bgd) (clear_bit bmap bit)).1 in
    let fs2 = (write_bgd fs1 g (put16 bgd 12 ((bg_free_blocks_count bgd + 1) % u16_mod))).1 in
    (write_super (record fs2 {
      cached_sb = put32 fs2.cached_sb 12 (add32 (s_free_blocks_count fs2.cached_sb) 1);
    })).1

pub free_block : Fs → ℕ → Fs
free_block fs block_no =
    if ltb block_no fs.first_data_block
    then fs
    else (let idx = block_no - fs.first_data_block in
        let g = idx / fs.blocks_per_group in
        elim (read_bgd fs g) [
          | none ↦ fs
          | some bgd ↦
              if fs.memory
              then elim (read_block fs (bg_block_bitmap bgd)) [
                | none ↦ fs
                | some bmap ↦ release_block fs g bgd bmap (idx % fs.blocks_per_group)
              ]
              else fs
        ])

abbrev pub claim_inode : Fs → ℕ → Bytes → Bytes → ℕ → ℕ × Fs
claim_inode fs g bgd bmap bit =
    let fs1 = (write_block fs (bg_inode_bitmap bgd) (set_bit bmap bit)).1 in
    let fs2 =
      (write_bgd fs1 g (put16 bgd 14 ((bg_free_inodes_count bgd + u16_mod - 1) % u16_mod))).1 in
    let fs3 =
      (write_super (record fs2 {
        cached_sb = put32 fs2.cached_sb 16 (sub32 (s_free_inodes_count fs2.cached_sb) 1);
      })).1 in
    ((g * fs.inodes_per_group + bit + 1) % u32_mod, fs3)

pub alloc_inode_from : ℕ → ℕ → Fs → ℕ × Fs
alloc_inode_from zero g fs = (0, fs)
alloc_inode_from (suc n) g fs =
    let rest = alloc_inode_from n (g + 1) fs in
    elim (read_bgd fs g) [
      | none ↦ rest
      | some bgd ↦
          if bg_free_inodes_count bgd == 0
          then rest
          else (if fs.memory
              then elim (read_block fs (bg_inode_bitmap bgd)) [
                | none ↦ rest
                | some bmap ↦ elim (find_clear fs.inodes_per_group 0 bmap) [
                  | none ↦ rest
                  | some bit ↦ claim_inode fs g bgd bmap bit
                ]
              ]
              else (0, fs))
    ]

pub alloc_inode : Fs → ℕ × Fs
alloc_inode fs =
    let count = s_inodes_count fs.cached_sb in
    alloc_inode_from (sub32 (add32 count fs.inodes_per_group) 1 / fs.inodes_per_group) 0 fs

abbrev pub release_inode : Fs → ℕ → Bytes → Bytes → ℕ → Fs
release_inode fs g bgd bmap bit =
    let fs1 = (write_block fs (bg_inode_bitmap bgd) (clear_bit bmap bit)).1 in
    let fs2 = (write_bgd fs1 g (put16 bgd 14 ((bg_free_inodes_count bgd + 1) % u16_mod))).1 in
    (write_super (record fs2 {
      cached_sb = put32 fs2.cached_sb 16 (add32 (s_free_inodes_count fs2.cached_sb) 1);
    })).1

pub free_inode : Fs → ℕ → Fs
free_inode fs ino =
    if ltb ino 2
    then fs
    else (let g = (ino - 1) / fs.inodes_per_group in
        elim (read_bgd fs g) [
          | none ↦ fs
          | some bgd ↦
              if fs.memory
              then elim (read_block fs (bg_inode_bitmap bgd)) [
                | none ↦ fs
                | some bmap ↦ release_inode fs g bgd bmap ((ino - 1) % fs.inodes_per_group)
              ]
              else fs
        ])
