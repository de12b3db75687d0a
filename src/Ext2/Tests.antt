-- ===== src/Ext2/Tests.antt =====
-- Calls on a small disk: one group, 128 bytes to a block, the group's descriptor in block 1, the
-- inode table from block 2 on, the root directory in block 6 with one entry, "f", and the five
-- bytes of that file in block 7.
use aether_os.Prelude.{
  ℕ, ◌+◌, ◌*◌, ◌≤◌, ◌<◌, ◌≡◌, ◌≢◌, refl, sym, subst, ap, ◌∙◌, Bool, true, false, Option, none, some,
  List, [], ◌∷◌, ◌++◌, arith, length, set, take, replicate, ◌==◌, if◌then◌else◌, ltb, find_from,
}
use aether_os.Prelude.Int.{pos}
use aether_os.Prelude.Slices.{slice}
use aether_os.Prelude.Store.{store}
use aether_os.Vfs.Path.{
  vfs_resolve, joined, close_dir, normalize, skip_slashes, component, after, add_component,
  pop_component, last_slash,
}
use aether_os.Vfs.{Vfs, closed_file, vfs_open, take_slot, resolved}
use aether_os.Vfs.Cursor.{read_all}
use aether_os.Ext2.Layout.{byte_at, Bytes, le32, put32, splice, equal_bytes}
use aether_os.Ext2.{
  Fs, i_size, inode_group, inode_index, inode_home, bg_inode_table, read_block, read_bgd,
  read_inode, write_inode,
}
use aether_os.Ext2.Dirs.{
  has_name, add_to_block, put_name, dir_find_in_block, find_entry, dirent_valid, pointers,
}
use aether_os.Ext2.Lookup.{
  root_ino, ext2_lookup, ext2_lookup_ino, lookup_loop, step_into, find_in_blocks, leading,
}
use aether_os.Ext2.Files.{read_blocks, ext2_read, file_piece, block_number, bytes}
use aether_os.Ext2.Stat.{ext2_chmod}
use aether_os.Ext2.Mount.{ext2}
use aether_os.Ext2.Read.{flat, Stored, ext2_read_lem}
use aether_os.Ext2.Cat.{read_whole_lem}
use aether_os.Ext2.Slots.{IsNumber, Laid}
use aether_os.Ext2.Inodes.{Written, write_inode_lem}
use aether_os.Ext2.Scan.{value}
use aether_os.Ext2.ReadRounds.{Reads}
use aether_os.Ext2.Rounds.{Looks, Scans, rounds_lem}
use aether_os.Ext2.Directory.{add_to_block_lem}
use aether_os.Ext2.Attributes.{Permitted, ext2_chmod_lem}

abbrev zeros : ℕ → Bytes
zeros n = replicate n 0

-- Inode 2, a directory of one block, and inode 3, a file of five bytes.
abbrev root_inode : Bytes
root_inode = set (set (set (zeros 128) 1 0x41) 4 128) 40 6

abbrev file_inode : Bytes
file_inode = set (set (set (zeros 128) 1 0x81) 4 5) 40 7

abbrev entry_f : Bytes
entry_f = 3 ∷ 0 ∷ 0 ∷ 0 ∷ 128 ∷ 0 ∷ 1 ∷ 1 ∷ 102 ∷ zeros 119

abbrev five_block : Bytes
five_block = 1 ∷ 2 ∷ 3 ∷ 4 ∷ 5 ∷ zeros 123

abbrev small_disk : ℕ → Bytes
small_disk =
    store
      (store
        (store (store (store (λ b. zeros 128) 1 (set (zeros 128) 8 2)) 3 root_inode) 4 file_inode) 6
        entry_f)
      7 five_block

abbrev small : Fs
small = record {
  block_size = 128;
  inodes_per_group = 4;
  blocks_per_group = 16;
  inode_size = 128;
  first_data_block = 0;
  bgd_block = 1;
  cached_sb = 4 ∷ 0 ∷ 0 ∷ 0 ∷ 16 ∷ zeros 1019;
  disk = small_disk;
  readable = λ b. ltb b 16;
  writable = λ b. ltb b 16;
  memory = true;
  behind = [];
}

-- "/f"
abbrev path_f : List ℕ
path_f = 47 ∷ 102 ∷ []

read_three : read_inode small 3 ≡ some file_inode
unfolding read_inode read_bgd read_block store le32
read_three = refl

lookup_f : ext2_lookup small path_f ≡ some 3
unfolding ext2_lookup lookup_loop step_into find_in_blocks dir_find_in_block find_entry dirent_valid
    pointers leading read_inode read_bgd read_block store le32 equal_bytes
lookup_f = refl

store_sized :
    (f : ℕ → Bytes) (k : ℕ) (v : Bytes)
    → length v ≡ 128
    → ((b : ℕ) → length (f b) ≡ 128)
    → (b : ℕ) → length (store f k v b) ≡ 128
unfolding store
store_sized f k v e all b = go (b == k)
  where
    go : (c : Bool) → length (if c then v else f b) ≡ 128
    go true = e
    go false = all b

known_numbers : (i : ℕ) → IsNumber small i → i ≤ 4
unfolding le32
known_numbers i h = h

one_group : (i : ℕ) → IsNumber small i → inode_group small i ≡ 0
one_group i h = omega (arith, known_numbers i h)

table_at :
    (i : ℕ) (bgd : Bytes)
    → IsNumber small i
    → read_bgd small (inode_group small i) ≡ some bgd
    → bg_inode_table bgd ≡ 2
unfolding read_bgd read_block store le32
table_at i bgd h e =
    ap (λ (o : Option Bytes). elim o as (λ _. ℕ) [ none ↦ 2 | some b ↦ bg_inode_table b ])
      (sym e ∙ ap (λ (g : ℕ). read_bgd small g) (one_group i h))

home_at :
    (i : ℕ) (bgd : Bytes)
    → IsNumber small i
    → read_bgd small (inode_group small i) ≡ some bgd
    → inode_home small i bgd ≡ 2 + inode_index small i
home_at i bgd h e = omega (arith, table_at i bgd h e, known_numbers i h)

small-Laid : Laid small
small-Laid = record {
  sized = store_sized _ 7 five_block refl (
      store_sized _ 6 entry_f refl (
        store_sized _ 4 file_inode refl (
          store_sized _ 3 root_inode refl
            (store_sized _ 1 (set (zeros 128) 8 2) refl (λ b. refl)))));
  wide = omega arith;
  holds = omega arith;
  apart = λ i j bgd hi hj e same.
      absurd (omega (arith, home_at i bgd hi e, same, known_numbers i hi, known_numbers j hj));
  one_run = λ i j b c hi hj e f same. (
    one_group i hi ∙ sym (one_group j hj),
    omega (arith, home_at i b hi e, home_at j c hj f, same, known_numbers i hi, known_numbers j hj),
  );
}

three_known : IsNumber small 3
unfolding le32
three_known = omega arith

write_inode_lem_example : Written small 3 root_inode (write_inode small 3 root_inode)
write_inode_lem_example = write_inode_lem small small-Laid 3 root_inode three_known refl

f_is_three : ext2_lookup_ino small path_f ≡ 3
f_is_three = ap (λ (o : Option ℕ). elim o as (λ _. ℕ) [ none ↦ 0 | some ino ↦ ino ]) lookup_f

ext2_chmod_lem_example :
    Permitted small (ext2_lookup_ino small path_f) file_inode 0x1a4 (ext2_chmod small path_f 0x1a4)
ext2_chmod_lem_example =
    ext2_chmod_lem small small-Laid path_f 0x1a4 file_inode
      (λ e. absurd (omega (arith, f_is_three, e)))
      (subst (IsNumber small) (sym f_is_three) three_known)
      (ap (read_inode small) f_is_three ∙ read_three) refl

zero_only : (k : ℕ) → k < 1 → 0 ≡ k
zero_only k h = omega arith

five_bytes : i_size file_inode ≡ 5
unfolding le32
five_bytes = refl

file_fits : i_size file_inode ≤ 1 * small.block_size
file_fits = omega (arith, five_bytes)

file-Stored : Stored small file_inode (λ k. five_block) 1
unfolding file_piece block_number read_block store le32
file-Stored = record {
  blocks = omega arith;
  at_block = λ k h.
      subst (λ (j : ℕ). file_piece small file_inode j ≡ bytes five_block) (zero_only k h) refl;
  full = λ k h. refl;
}

ext2_read_lem_example : ext2_read small 3 2 9 ≡ (
  pos (length (slice (take (i_size file_inode) (flat (λ k. five_block) 1)) 2 9)),
  slice (take (i_size file_inode) (flat (λ k. five_block) 1)) 2 9,
)
ext2_read_lem_example =
    ext2_read_lem small file_inode (λ k. five_block) 1 file-Stored 3 2 9 read_three file_fits

-- No file is open yet, and the working directory is the root.
abbrev fresh_vfs : Vfs Fs
fresh_vfs = record {
  root_fs = some small;
  files = replicate 16 closed_file;
  kernel_cwd = 47 ∷ [];
  caller = none;
}

path_resolved : resolved ext2 fresh_vfs (some path_f) ≡ path_f
unfolding vfs_resolve joined close_dir normalize skip_slashes component after add_component
    pop_component last_slash
path_resolved = refl

abbrev after_open : Vfs Fs
after_open = record fresh_vfs {
  files = record { in_use = true; inode = 3; offset = 0 } ∷ replicate 15 closed_file;
}

opened : vfs_open ext2 fresh_vfs (some path_f) ≡ (pos 0, after_open)
unfolding vfs_open take_slot find_from vfs_resolve joined close_dir normalize skip_slashes component
    after add_component pop_component last_slash ext2_lookup lookup_loop step_into find_in_blocks
    dir_find_in_block find_entry dirent_valid pointers leading read_inode read_bgd read_block store
    le32 equal_bytes
opened = refl

read_whole_lem_example :
    (read_all ext2 after_open (pos 0) (2 ∷ 9 ∷ [])).0
    ≡ take (i_size file_inode) (flat (λ k. five_block) 1)
read_whole_lem_example =
    read_whole_lem fresh_vfs small (some path_f) 3 file_inode (λ k. five_block) 1 (2 ∷ 9 ∷ []) 0
      after_open refl refl (ap (ext2_lookup small) path_resolved ∙ lookup_f) read_three file-Stored
      file_fits (omega (arith, five_bytes)) (omega (arith, five_bytes)) opened

abbrev name_f : Bytes
name_f = 102 ∷ []

abbrev name_g : Bytes
name_g = 103 ∷ []

-- The block of the root directory with the name "g" put behind "f", for inode 4.
abbrev entry_fg : Bytes
entry_fg =
    3
    ∷ 0
    ∷ 0
    ∷ 0
    ∷ 12
    ∷ 0
    ∷ 1
    ∷ 1
    ∷ 102
    ∷ 0
    ∷ 0
    ∷ 0
    ∷ 4
    ∷ 0
    ∷ 0
    ∷ 0
    ∷ 116
    ∷ 0
    ∷ 1
    ∷ 1
    ∷ 103
    ∷ zeros 107

add_g : add_to_block 128 128 name_g 4 1 entry_f 0 ≡ some entry_fg
unfolding add_to_block dirent_valid put_name splice put32 le32
add_g = refl

no_g : dir_find_in_block entry_f 128 name_g ≡ 0
unfolding dir_find_in_block find_entry dirent_valid le32 equal_bytes
no_g = refl

f_is_not_g : name_f ≢ name_g
f_is_not_g e =
    let h : byte_at name_f 0 ≡ byte_at name_g 0 = ap (λ (xs : Bytes). byte_at xs 0) e in
    absurd (omega (arith, h))

add_to_block_lem_example :
    (dir_find_in_block entry_fg 128 name_g ≡ 4)
    × (dir_find_in_block entry_fg 128 name_f ≡ dir_find_in_block entry_f 128 name_f)
add_to_block_lem_example =
    add_to_block_lem 128 4 name_g 1 (λ e. absurd (omega (arith, e))) (omega arith) entry_f refl
      (omega arith) entry_fg name_f add_g no_g f_is_not_g

rounds_lem_example :
    Looks small root_ino (name_f ++ 0 ∷ small.behind) (ext2_lookup small path_f)
    × ((found : Option ℕ) × Scans (has_name name_f) 128 entry_f 0 found
        × (dir_find_in_block entry_f 128 name_f ≡ value entry_f found))
    × Reads small file_inode 0 5 (read_blocks 5 small file_inode 0 5)
rounds_lem_example = rounds_lem small name_f name_f entry_f file_inode 0 5 (omega arith)
