-- ===== src/Ext2/Names.antt =====
-- kernel/fs/ext2.c: the calls that make, remove and move names.
use Prim.Native.Nat.{bit_and}
use aether_os.Prelude.{
  ℕ, ◌+◌, ◌-◌, ◌%◌, Bool, true, false, not, ◌&&◌, ◌||◌, Option, none, some, [], ◌∷◌, ltb, ◌==◌,
  if◌then◌else◌, replicate, u16_mod,
}
use aether_os.Prelude.Slices.{slice}
use aether_os.Vfs.Path.{dot}
use aether_os.Ext2.Layout.{Bytes, le16, put16, equal_bytes}
use aether_os.Ext2.{Fs, sizeof_inode, write_block, read_inode, write_inode}
use aether_os.Ext2.Bitmaps.{alloc_inode, free_inode}
use aether_os.Ext2.Dirs.{
  dir_add_entry, dir_remove_entry, path_split, de_name_len, edit_blocks, point_entry, direct,
}
use aether_os.Ext2.Lookup.{ext2_lookup_ino}
use aether_os.Ext2.Write.{release}

-- Fields of `ext2_inode_t`.
abbrev pub i_mode : Bytes → ℕ
i_mode inode = le16 inode 0

abbrev pub i_uid : Bytes → ℕ
i_uid inode = le16 inode 2

abbrev pub i_gid : Bytes → ℕ
i_gid inode = le16 inode 24

abbrev pub i_links_count : Bytes → ℕ
i_links_count inode = le16 inode 26

abbrev pub set_links : Bytes → ℕ → Bytes
set_links inode n = put16 inode 26 (n % u16_mod)

-- `EXT2_IMODE_REG | 0644` and `EXT2_IMODE_DIR | 0755`
abbrev pub reg_mode : ℕ
reg_mode = 0x81a4

abbrev pub dir_mode : ℕ
dir_mode = 0x41ed

abbrev pub new_inode : ℕ → ℕ → ℕ → ℕ → Bytes
new_inode mode uid gid links =
    put16
      (put16 (put16 (put16 (replicate sizeof_inode 0) 0 mode) 2 (uid % u16_mod)) 24 (gid % u16_mod))
      26 links

-- A new inode with its first contents; 0 and the state where no inode is left or it cannot be
-- written.
abbrev pub made_inode : Bytes → ℕ × Fs → ℕ × Fs
made_inode inode (ino, fs) =
    let (ok, fs1) = write_inode fs ino inode in
    if ino == 0 then (0, fs) else (if ok then (ino, fs1) else (0, free_inode fs1 ino))

-- `if (!...) { free_inode(fs, ino); return 0; }`
abbrev pub or_free : ℕ → Bool × Fs → ℕ × Fs
or_free ino (ok, fs) = if ok then (ino, fs) else (0, free_inode fs ino)

abbrev pub link_name : ℕ → Bytes → ℕ → ℕ × Fs → ℕ × Fs
link_name parent_ino name ftype (ino, fs) =
    if ino == 0 then (0, fs) else or_free ino (dir_add_entry fs parent_ino name ino ftype)

-- The parent's inode number and the leaf, where the parent is there and the path is not.
abbrev pub new_place : Fs → Bytes → Option (ℕ × Bytes)
new_place fs path = elim (path_split path) [
  | none ↦ none
  | some (parent, name) ↦
      if ext2_lookup_ino fs parent == 0 || not (ext2_lookup_ino fs path == 0)
      then none
      else some (ext2_lookup_ino fs parent, name)
]

pub ext2_create : Fs → Bytes → ℕ → ℕ → ℕ × Fs
ext2_create fs path uid gid = elim (new_place fs path) [
  | none ↦ (0, fs)
  | some (parent_ino, name) ↦
      link_name parent_ino name 1 (made_inode (new_inode reg_mode uid gid 1) (alloc_inode fs))
]

-- "." and ".." in the new directory; ".." is tried only where "." was added.
abbrev pub add_dots : ℕ → ℕ × Fs → ℕ × Fs
add_dots parent_ino (ino, fs) =
    let (ok, fs1) = dir_add_entry fs ino (dot ∷ []) ino 2 in
    if ino == 0
    then (0, fs)
    else or_free ino
        (if ok then dir_add_entry fs1 ino (dot ∷ dot ∷ []) parent_ino 2 else (false, fs1))

-- The parent's link count goes up by one.
abbrev pub count_link : ℕ → ℕ × Fs → ℕ × Fs
count_link parent_ino (ino, fs) = if ino == 0 then (0, fs) else elim (read_inode fs parent_ino) [
  | none ↦ (ino, fs)
  | some par ↦ (ino, (write_inode fs parent_ino (set_links par (i_links_count par + 1))).1)
]

pub ext2_mkdir : Fs → Bytes → ℕ → ℕ → ℕ × Fs
ext2_mkdir fs path uid gid = elim (new_place fs path) [
  | none ↦ (0, fs)
  | some (parent_ino, name) ↦
      let made = made_inode (new_inode dir_mode uid gid 2) (alloc_inode fs) in
      count_link parent_ino (link_name parent_ino name 2 (add_dots parent_ino made))
]

-- The file's inode with a link less; without a link its blocks and the inode are freed.
abbrev pub drop_link : Fs → ℕ → Bytes → Fs
drop_link fs ino inode =
    let fewer =
      if ltb 0 (i_links_count inode) then set_links inode (i_links_count inode - 1) else inode in
    let (gone, fs1) = release fewer fs in
    if i_links_count fewer == 0
    then free_inode (write_inode fs1 ino gone).1 ino
    else (write_inode fs ino fewer).1

pub ext2_unlink : Fs → Bytes → Bool × Fs
ext2_unlink fs path = elim (path_split path) [
  | none ↦ (false, fs)
  | some (parent, name) ↦
      let parent_ino = ext2_lookup_ino fs parent in
      let ino = ext2_lookup_ino fs path in
      if parent_ino == 0 || ino == 0 then (false, fs) else elim (read_inode fs ino) [
        | none ↦ (false, fs)
        | some inode ↦ dir_remove_entry (drop_link fs ino inode) parent_ino name
      ]
]

abbrev pub is_dir : Bytes → Bool
is_dir inode = bit_and (i_mode inode) 0xf000 == 0x4000

-- Makes way for the new name; none where a directory stands there, or where its inode cannot be
-- read.
abbrev pub make_way : Fs → Bytes → Option Fs
make_way fs new_path =
    let dst_ino = ext2_lookup_ino fs new_path in
    if dst_ino == 0 then some fs else elim (read_inode fs dst_ino) [
      | none ↦ none
      | some inode ↦ if is_dir inode then none else some (ext2_unlink fs new_path).1
    ]

-- `de->name_len == 2 && de->name[0] == '.' && de->name[1] == '.'`
abbrev pub is_parent_entry : Bytes → ℕ → Bool
is_parent_entry block p =
    de_name_len block p == 2 && equal_bytes (slice block (p + 8) 2) (dot ∷ dot ∷ [])

-- ".." of a directory that has moved.
abbrev pub redirect : Fs → Bytes → ℕ → Fs
redirect fs src_inode dst_parent =
    if fs.memory
    then elim (edit_blocks (point_entry is_parent_entry dst_parent fs.block_size) fs
        (direct src_inode)) [ none ↦ fs | some (bno, blk) ↦ (write_block fs bno blk).1 ]
    else fs

-- The numbers and names that a rename works on.
pub record Move : Type 0 where
  pub src_ino : ℕ
  pub src_inode : Bytes
  pub src_parent : ℕ
  pub src_name : Bytes
  pub dst_parent : ℕ
  pub dst_name : Bytes

-- The old name is removed; if that fails, the new one is taken back.
abbrev pub after_remove : Move → Bool × Fs → Bool × Fs
after_remove m (ok, fs) =
    if ok
    then (
      true,
      if is_dir m.src_inode && not (m.src_parent == m.dst_parent)
          then redirect fs m.src_inode m.dst_parent
          else fs,
    )
    else (false, (dir_remove_entry fs m.dst_parent m.dst_name).1)

abbrev pub after_add : Move → Bool × Fs → Bool × Fs
after_add m (ok, fs) =
    if ok then after_remove m (dir_remove_entry fs m.src_parent m.src_name) else (false, fs)

abbrev pub move_name : Fs → Bytes → Move → Bool × Fs
move_name fs new_path m = elim (make_way fs new_path) [
  | none ↦ (false, fs)
  | some fs1 ↦
      after_add m
        (dir_add_entry fs1 m.dst_parent m.dst_name m.src_ino (if is_dir m.src_inode then 2 else 1))
]

abbrev pub moved_between : Fs → ℕ → Bytes → Bytes × Bytes → Bytes × Bytes → Bool × Fs
moved_between fs src_ino new_path (src_dir, src_name) (dst_dir, dst_name) =
    let src_parent = ext2_lookup_ino fs src_dir in
    let dst_parent = ext2_lookup_ino fs dst_dir in
    if src_parent == 0 || dst_parent == 0 then (false, fs) else elim (read_inode fs src_ino) [
      | none ↦ (false, fs)
      | some inode ↦ move_name fs new_path (record {
        src_ino = src_ino;
        src_inode = inode;
        src_parent = src_parent;
        src_name = src_name;
        dst_parent = dst_parent;
        dst_name = dst_name;
      })
    ]

pub ext2_rename : Fs → Bytes → Bytes → Bool × Fs
ext2_rename fs old_path new_path =
    let src_ino = ext2_lookup_ino fs old_path in
    if src_ino == 0
    then (false, fs)
    else (if ext2_lookup_ino fs new_path == src_ino
        then (true, fs)
        else elim (path_split old_path) [
          | none ↦ (false, fs)
          | some src ↦ elim (path_split new_path) [
            | none ↦ (false, fs)
            | some dst ↦ moved_between fs src_ino new_path src dst
          ]
        ])
