-- ===== src/Ext2.antt =====
-- kernel/fs/ext2.c: blocks, inodes and group descriptors. The disk is the contents of its blocks;
-- structs on it are their bytes. The block device, the page that a transfer bounces through and
-- `kmalloc` answer the same way during one call, as `readable`, `writable` and `memory` say.
pub mod Layout
pub mod Bitmaps
pub mod Dirs
pub mod Lookup
pub mod Files
pub mod Write
pub mod Names
pub mod Stat
pub mod Mount
pub mod Read
pub mod Cat
pub mod Splices
pub mod Slots
pub mod Inodes
pub mod Attributes
pub mod Entries
pub mod Scan
pub mod Put
pub mod Standing
pub mod AddEntry
pub mod AppendEntry
pub mod Directory
pub mod ReadRounds
pub mod Rounds
mod Tests
use aether_os.Prelude.{
  ℕ, zero, suc, ◌+◌, ◌-◌, ◌*◌, ◌/◌, ◌%◌, ◌^◌, Bool, true, false, not, ◌&&◌, ◌||◌, Option, none,
  some, List, [], ◌∷◌, ltb, leb, ◌==◌, if◌then◌else◌, length, replicate, add32, sub32, u16_mod,
  u32_mod,
}
use aether_os.Prelude.Slices.{slice}
use aether_os.Prelude.Store.{store}
use aether_os.Ext2.Layout.{Bytes, le16, le32, put16, put32, splice, set_bit, clear_bit, find_clear}

-- `struct ext2_fs` with the disk; `cached_sb` is the superblock's 1024 bytes. `behind` is what
-- stands in memory behind the NUL of a path.
pub record Fs : Type 0 where
  pub block_size : ℕ
  pub inodes_per_group : ℕ
  pub blocks_per_group : ℕ
  pub inode_size : ℕ
  pub first_data_block : ℕ
  pub bgd_block : ℕ
  pub cached_sb : Bytes
  pub disk : ℕ → Bytes
  pub readable : ℕ → Bool
  pub writable : ℕ → Bool
  pub memory : Bool
  pub behind : Bytes

-- Fields of `ext2_super_t`.
abbrev pub s_inodes_count : Bytes → ℕ
s_inodes_count sb = le32 sb 0

abbrev pub s_blocks_count : Bytes → ℕ
s_blocks_count sb = le32 sb 4

abbrev pub s_free_blocks_count : Bytes → ℕ
s_free_blocks_count sb = le32 sb 12

abbrev pub s_free_inodes_count : Bytes → ℕ
s_free_inodes_count sb = le32 sb 16

-- Fields of `ext2_bgd_t`.
abbrev pub sizeof_bgd : ℕ
sizeof_bgd = 32

abbrev pub bg_block_bitmap : Bytes → ℕ
bg_block_bitmap bgd = le32 bgd 0

abbrev pub bg_inode_bitmap : Bytes → ℕ
bg_inode_bitmap bgd = le32 bgd 4

abbrev pub bg_inode_table : Bytes → ℕ
bg_inode_table bgd = le32 bgd 8

abbrev pub bg_free_blocks_count : Bytes → ℕ
bg_free_blocks_count bgd = le16 bgd 12

abbrev pub bg_free_inodes_count : Bytes → ℕ
bg_free_inodes_count bgd = le16 bgd 14

-- `ext2_inode_t`
abbrev pub sizeof_inode : ℕ
sizeof_inode = 128

abbrev pub i_block : Bytes → ℕ → ℕ
i_block inode k = le32 inode (40 + 4 * k)

abbrev pub set_i_block : Bytes → ℕ → ℕ → Bytes
set_i_block inode k bno = put32 inode (40 + 4 * k) bno

abbrev pub i_size : Bytes → ℕ
i_size inode = le32 inode 4

abbrev pub set_i_size : Bytes → ℕ → Bytes
set_i_size inode n = put32 inode 4 (n % u32_mod)

abbrev pub set_i_blocks : Bytes → ℕ → Bytes
set_i_blocks inode n = put32 inode 28 (n % u32_mod)

pub read_block : Fs → ℕ → Option Bytes
read_block fs block_no = if fs.readable block_no then some (fs.disk block_no) else none

pub write_block : Fs → ℕ → Bytes → Bool × Fs
write_block fs block_no block =
    if fs.writable block_no
    then (true, record fs { disk = store fs.disk block_no block })
    else (false, fs)

-- Two sectors at byte 1024 of the partition, in the block that holds them.
pub write_super : Fs → Bool × Fs
write_super fs =
    let bno = 1024 / fs.block_size in
    write_block fs bno (splice (fs.disk bno) (1024 % fs.block_size) fs.cached_sb)

-- The block and the slot in it where the descriptor of group `g` stands.
abbrev pub bgd_home : Fs → ℕ → ℕ
bgd_home fs g = add32 fs.bgd_block (g / (fs.block_size / sizeof_bgd))

abbrev pub bgd_slot : Fs → ℕ → ℕ
bgd_slot fs g = g % (fs.block_size / sizeof_bgd)

pub read_bgd : Fs → ℕ → Option Bytes
read_bgd fs g = elim (read_block fs (bgd_home fs g)) [
  | none ↦ none
  | some tmp ↦ some (slice tmp (bgd_slot fs g * sizeof_bgd) sizeof_bgd)
]

pub write_bgd : Fs → ℕ → Bytes → Bool × Fs
write_bgd fs g bgd =
    if fs.memory
    then elim (read_block fs (bgd_home fs g)) [
      | none ↦ (false, fs)
      | some tmp ↦ write_block fs (bgd_home fs g) (splice tmp (bgd_slot fs g * sizeof_bgd) bgd)
    ]
    else (false, fs)

-- Where the inode stands: the block of the inode table and the offset in it.
abbrev pub inode_group : Fs → ℕ → ℕ
inode_group fs ino = (ino - 1) / fs.inodes_per_group

abbrev pub inode_index : Fs → ℕ → ℕ
inode_index fs ino = (ino - 1) % fs.inodes_per_group

abbrev pub inode_home : Fs → ℕ → Bytes → ℕ
inode_home fs ino bgd =
    add32 (bg_inode_table bgd) (inode_index fs ino / (fs.block_size / fs.inode_size))

abbrev pub inode_offset : Fs → ℕ → ℕ
inode_offset fs ino = inode_index fs ino % (fs.block_size / fs.inode_size) * fs.inode_size

abbrev pub inode_from : Fs → ℕ → Option Bytes → Option Bytes
inode_from fs ino none = none
inode_from fs ino (some tmp) = some (slice tmp (inode_offset fs ino) sizeof_inode)

abbrev pub inode_via : Fs → ℕ → Option Bytes → Option Bytes
inode_via fs ino none = none
inode_via fs ino (some bgd) = inode_from fs ino (read_block fs (inode_home fs ino bgd))

pub read_inode : Fs → ℕ → Option Bytes
read_inode fs ino = if ino == 0 then none else inode_via fs ino (read_bgd fs (inode_group fs ino))

abbrev pub inode_into : Fs → ℕ → Bytes → ℕ → Option Bytes → Bool × Fs
inode_into fs ino inode bno none = (false, fs)
inode_into fs ino inode bno (some tmp) = write_block fs bno (splice tmp (inode_offset fs ino) inode)

abbrev pub write_via : Fs → ℕ → Bytes → Option Bytes → Bool × Fs
write_via fs ino inode none = (false, fs)
write_via fs ino inode (some bgd) =
    inode_into fs ino inode (inode_home fs ino bgd) (read_block fs (inode_home fs ino bgd))

pub write_inode : Fs → ℕ → Bytes → Bool × Fs
write_inode fs ino inode =
    if ino == 0 || not fs.memory
    then (false, fs)
    else write_via fs ino inode (read_bgd fs (inode_group fs ino))
