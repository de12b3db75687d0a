-- ===== src/Ext2/Lookup.antt =====
-- kernel/fs/ext2.c: the lookup of a path, and the listing of a directory.
use aether_os.Prelude.{
  ℕ, zero, suc, ◌+◌, ◌%◌, Bool, true, not, ◌&&◌, ◌||◌, Option, none, some, List, [], ◌∷◌, ◌++◌, ltb,
  ◌==◌, if◌then◌else◌, length, drop,
}
use aether_os.Prelude.Slices.{slice}
use aether_os.Vfs.Path.{slash, dot}
use aether_os.Ext2.Layout.{Bytes, equal_bytes}
use aether_os.Ext2.{Fs, read_block, read_inode}
use aether_os.Ext2.Dirs.{
  counted_name, de_inode, de_name_len, de_rec_len, dir_find_in_block, direct, dirent_valid,
}

-- Bytes up to a slash or a NUL.
unfoldable pub leading : Bytes → Bytes
leading [] = []
leading (c ∷ p) = let more = leading p in if c == 0 || c == slash then [] else c ∷ more

abbrev pub at_nul : Bytes → Bool
at_nul [] = true
at_nul (c ∷ p) = c == 0

-- `(*slash) ? slash + 1 : slash`
abbrev pub past_slash : Bytes → Bytes
past_slash p = if at_nul p then p else drop 1 p

-- The direct blocks of a directory, searched for a name; none where a block cannot be read, 0
-- where no entry has the name.
unfoldable pub find_in_blocks : Fs → Bytes → List ℕ → Option ℕ
find_in_blocks fs name [] = some 0
find_in_blocks fs name (bno ∷ bs) =
    let rest = find_in_blocks fs name bs in
    if bno == 0 then some 0 else elim (read_block fs bno) [
      | none ↦ none
      | some blk ↦
          let found = dir_find_in_block blk fs.block_size name in
          if found == 0 then rest else some found
    ]

unfoldable pub step_into : Fs → ℕ → Bytes → Option ℕ
step_into fs dir_ino name = elim (read_inode fs dir_ino) [
  | none ↦ none
  | some inode ↦ elim (find_in_blocks fs name (direct inode)) [
    | none ↦ none
    | some found ↦ if found == 0 then none else some found
  ]
]

-- The loop of ext2_lookup over the memory from `p` on. A component's length is kept in a `uint8_t`,
-- and a length of 0 moves `p` on by one byte behind it. A round takes a byte.
unfoldable pub lookup_loop : ℕ → Fs → ℕ → Bytes → Option ℕ
lookup_loop zero fs cur_ino p = some cur_ino
lookup_loop (suc fuel) fs cur_ino p =
    let name = counted_name (leading p) in
    let rest = drop (length (leading p)) p in
    let skipped = lookup_loop fuel fs cur_ino (drop 1 rest) in
    if at_nul p
    then some cur_ino
    else (if length name == 0 then skipped else elim (step_into fs cur_ino name) [
      | none ↦ none
      | some found ↦ lookup_loop fuel fs found (past_slash rest)
    ])

abbrev pub root_ino : ℕ
root_ino = 2

unfoldable pub ext2_lookup : Fs → Bytes → Option ℕ
ext2_lookup fs [] = none
ext2_lookup fs (c ∷ path) =
    let p = path ++ 0 ∷ fs.behind in
    if c == slash then lookup_loop (length p) fs root_ino p else none

abbrev pub ext2_lookup_ino : Fs → Bytes → ℕ
ext2_lookup_ino fs path = elim (ext2_lookup fs path) [ none ↦ 0 | some ino ↦ ino ]

-- `name\n` for the entries of a block, behind the bytes written so far.
pub list_dir_block : ℕ → Bytes → ℕ → ℕ → Bool → Bytes → ℕ → Bytes
list_dir_block zero block end bufsz all written p = written
list_dir_block (suc fuel) block end bufsz all written p =
    let n = de_name_len block p in
    let name = slice block (p + 8) n in
    let dots = equal_bytes name (dot ∷ []) || equal_bytes name (dot ∷ dot ∷ []) in
    let shown = not (de_inode block p == 0) && (ltb 0 n && (all || not dots)) in
    let fits = ltb (length written + n + 1) bufsz in
    let next = if shown && fits then written ++ name ++ 10 ∷ [] else written in
    let rest = list_dir_block fuel block end bufsz all next (p + de_rec_len block p) in
    if dirent_valid block p end then rest else written

pub list_blocks : Fs → ℕ → Bool → Bytes → List ℕ → Bytes
list_blocks fs bufsz all written [] = written
list_blocks fs bufsz all written (bno ∷ bs) =
    if bno == 0 then written else elim (read_block fs bno) [
      | none ↦ written
      | some blk ↦
          list_blocks fs bufsz all
            (list_dir_block fs.block_size blk fs.block_size bufsz all written 0) bs
    ]

-- The bytes before the NUL; their number is the result.
pub ext2_list_dir : Fs → ℕ → ℕ → ℕ → Bytes
ext2_list_dir fs dir_ino bufsz flags = if bufsz == 0 then [] else elim (read_inode fs dir_ino) [
  | none ↦ []
  | some inode ↦ list_blocks fs bufsz (flags % 2 == 1) [] (direct inode)
]
