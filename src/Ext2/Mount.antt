-- ===== src/Ext2/Mount.antt =====
-- kernel/fs/ext2.c: ext2_mount, and the file system that it hands to kernel/fs/vfs.c.
use aether_os.Prelude.{ℕ, ◌*◌, ◌^◌, Bool, not, ◌||◌, Option, none, some, ltb, ◌==◌, if◌then◌else◌}
use aether_os.Vfs.{FileSystem}
use aether_os.Ext2.Layout.{Bytes, le16, le32}
use aether_os.Ext2.{Fs}
use aether_os.Ext2.Lookup.{ext2_lookup, ext2_list_dir}
use aether_os.Ext2.Files.{ext2_read, ext2_file_size}
use aether_os.Ext2.Write.{ext2_write, ext2_truncate}
use aether_os.Ext2.Names.{ext2_create, ext2_mkdir, ext2_unlink, ext2_rename}
use aether_os.Ext2.Stat.{ext2_inode_chown, ext2_chmod, ext2_stat_full}

-- The partition: its superblock, none where it cannot be read, and its blocks for a block size.
pub record Partition : Type 0 where
  pub superblock : Option Bytes
  pub blocks : ℕ → ℕ → Bytes
  pub readable : ℕ → Bool
  pub writable : ℕ → Bool
  pub memory : Bool
  pub behind : Bytes

abbrev pub super_magic : ℕ
super_magic = 0xef53

abbrev pub block_size_of : Bytes → ℕ
block_size_of sb = 1024 * 2 ^ le32 sb 24

pub mounted : Partition → Bytes → Fs
mounted dev sb = record {
  block_size = block_size_of sb;
  inodes_per_group = le32 sb 40;
  blocks_per_group = le32 sb 32;
  inode_size = if ltb 0 (le32 sb 76) then le16 sb 88 else 128;
  first_data_block = le32 sb 20;
  bgd_block = if block_size_of sb == 1024 then 2 else 1;
  cached_sb = sb;
  disk = dev.blocks (block_size_of sb);
  readable = dev.readable;
  writable = dev.writable;
  memory = dev.memory;
  behind = dev.behind;
}

pub ext2_mount : Partition → Option Fs
ext2_mount dev = elim dev.superblock [
  | none ↦ none
  | some sb ↦
      if not (le16 sb 56 == super_magic) || (ltb 2 (le32 sb 24) || not dev.memory)
      then none
      else some (mounted dev sb)
]

-- The calls of kernel/fs/ext2.h as kernel/fs/vfs.c uses them.
abbrev pub ext2 : FileSystem Fs
ext2 = record {
  lookup = ext2_lookup;
  file_size = ext2_file_size;
  read = ext2_read;
  write = ext2_write;
  create = ext2_create;
  mkdir = ext2_mkdir;
  unlink = ext2_unlink;
  rename = ext2_rename;
  truncate = ext2_truncate;
  chown = ext2_inode_chown;
  chmod = ext2_chmod;
  stat_full = ext2_stat_full;
  list_dir = ext2_list_dir;
}
