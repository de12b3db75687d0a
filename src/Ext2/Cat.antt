-- ===== src/Ext2/Cat.antt =====
-- A whole file of ext2, opened by vfs_open and read piece by piece by vfs_read.
use aether_os.Prelude.{
  ℕ, ◌*◌, ◌≤◌, ◌<◌, ◌≡◌, ◌∙◌, Option, some, List, arith, length, take, length-take, take_all,
  u64_mod,
}
use aether_os.Prelude.Int.{pos}
use aether_os.Vfs.{Vfs, vfs_open, resolved}
use aether_os.Vfs.Slots.{IsSized}
use aether_os.Vfs.Open.{vfs_open-At}
use aether_os.Vfs.Cursor.{total, read_all, read_all_lem}
use aether_os.Ext2.Layout.{Bytes}
use aether_os.Ext2.{Fs, i_size, read_inode}
use aether_os.Ext2.Lookup.{ext2_lookup}
use aether_os.Ext2.Read.{flat, Stored, ext2_read_lem}
use aether_os.Ext2.Mount.{ext2}

module _ (v : Vfs Fs) (fs : Fs) (path : Option (List ℕ)) (ino : ℕ) where
  -- Let a file system be mounted in which a path leads to an inode that can be read, and the blocks
  -- of its file be readable and as long as a block is, as far as the file's size goes. Where
  -- vfs_open of the path gives a descriptor, reads through it, of any sizes that sum up to the
  -- file's size or more, give together the bytes of the file, neither more nor less.
  pub read_whole_lem :
      (inode : Bytes) (held : ℕ → Bytes) (n : ℕ) (ns : List ℕ) (i : ℕ) (w : Vfs Fs)
      → v.root_fs ≡ some fs
      → IsSized v.files
      → ext2_lookup fs (resolved ext2 v path) ≡ some ino
      → read_inode fs ino ≡ some inode
      → Stored fs inode held n
      → i_size inode ≤ n * fs.block_size
      → i_size inode < u64_mod
      → i_size inode ≤ total ns
      → vfs_open ext2 v path ≡ (pos i, w)
      → (read_all ext2 w (pos i) ns).0 ≡ take (i_size inode) (flat held n)
  read_whole_lem inode held n ns i w m sized found read stored fits small enough opened =
      let file = take (i_size inode) (flat held n) in
      let short : length file ≤ i_size inode =
        omega (arith, length-take (i_size inode) (flat held n)) in
      let at = vfs_open-At ext2 v fs path ino i w m sized found opened in
      (read_all_lem ext2 ns w fs i ino 0 file at
        (λ o k. ext2_read_lem fs inode held n stored ino o k read fits) (omega arith)
        (omega (arith, short))).0
      ∙ take_all (total ns) file (omega (arith, short))
