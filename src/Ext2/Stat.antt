-- ===== src/Ext2/Stat.antt =====
-- kernel/fs/ext2.c: the calls on the attributes of a file.
use aether_os.Prelude.{
  ℕ, ◌+◌, ◌*◌, ◌/◌, ◌%◌, Bool, false, Option, none, some, ◌==◌, if◌then◌else◌, u16_mod, u64_mod,
}
use aether_os.Prelude.Int.{ℤ, pos, minus_one}
use aether_os.Vfs.{Stat}
use aether_os.Ext2.Layout.{Bytes, le32, put16}
use aether_os.Ext2.{Fs, s_blocks_count, s_free_blocks_count, i_size, read_inode, write_inode}
use aether_os.Ext2.Lookup.{ext2_lookup_ino}
use aether_os.Ext2.Names.{i_gid, i_links_count, i_mode, i_uid}

-- `*out_mode`, `*out_uid` and `*out_gid`.
pub ext2_inode_stat : Fs → ℕ → Option (ℕ × ℕ × ℕ)
ext2_inode_stat fs ino = elim (read_inode fs ino) [
  | none ↦ none
  | some inode ↦ some (i_mode inode, i_uid inode, i_gid inode)
]

abbrev pub stat_of : Bytes → Stat
stat_of inode = record {
  mode = i_mode inode;
  nlink = i_links_count inode;
  uid = i_uid inode;
  gid = i_gid inode;
  size = i_size inode;
  mtime = le32 inode 16;
}

unfoldable pub ext2_stat_full : Fs → ℕ → Option Stat
ext2_stat_full fs ino = elim (read_inode fs ino) [ none ↦ none | some inode ↦ some (stat_of inode) ]

abbrev pub with_mode : Bytes → ℕ → Bytes
with_mode inode mode = put16 inode 0 (i_mode inode / 4096 * 4096 + mode % 4096)

abbrev pub chmod_inode : Fs → ℕ → ℕ → Option Bytes → ℤ × Fs
chmod_inode fs ino mode none = (minus_one, fs)
chmod_inode fs ino mode (some inode) =
    let (ok, fs1) = write_inode fs ino (with_mode inode mode) in
    (if ok then pos 0 else minus_one, fs1)

unfoldable pub ext2_chmod : Fs → Bytes → ℕ → ℤ × Fs
ext2_chmod fs path mode =
    let ino = ext2_lookup_ino fs path in
    if ino == 0 then (minus_one, fs) else chmod_inode fs ino mode (read_inode fs ino)

pub ext2_inode_chown : Fs → ℕ → ℕ → ℕ → Bool × Fs
ext2_inode_chown fs ino uid gid = elim (read_inode fs ino) [
  | none ↦ (false, fs)
  | some inode ↦ write_inode fs ino (put16 (put16 inode 2 (uid % u16_mod)) 24 (gid % u16_mod))
]

-- `*total_bytes` and `*free_bytes`.
pub ext2_disk_stats : Fs → ℕ × ℕ
ext2_disk_stats fs = (
  s_blocks_count fs.cached_sb * fs.block_size % u64_mod,
  s_free_blocks_count fs.cached_sb * fs.block_size % u64_mod,
)
