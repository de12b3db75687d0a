-- ===== src/Vfs.antt =====
-- kernel/fs/vfs.c: the file layer. A C string is the list of its bytes before the NUL. Every
-- function holds `vfs_lock` from its first to its last access to the state, so it is one step on
-- the state. The file system below is an argument, a record of the functions of kernel/fs/ext2.h.
pub mod Path
pub mod Slots
pub mod Cursor
pub mod Open
pub mod OpenEx
mod Tests
use Prim.Native.Nat.{bit_and}
use aether_os.Prelude.{
  ℕ, ◌+◌, ◌-◌, ◌*◌, Bool, true, false, not, ◌&&◌, ◌||◌, Option, none, some, List, [], ◌∷◌, ltb,
  ◌==◌, if◌then◌else◌, length, get_or, set, take, find_from, add64, u64_mod,
}
use aether_os.Prelude.Int.{ℤ, pos, negsuc, minus_one, in_range}
use aether_os.Vfs.Path.{slash, vfs_resolve}

-- `ext2_stat_t`
pub record Stat : Type 0 where
  pub mode : ℕ
  pub nlink : ℕ
  pub uid : ℕ
  pub gid : ℕ
  pub size : ℕ
  pub mtime : ℕ

-- The functions of kernel/fs/ext2.h on a mounted file system; 0 stands for a failed lookup or
-- creation where the C function returns 0.
pub record FileSystem (F : Type 0) : Type 0 where
  pub lookup : F → List ℕ → Option ℕ
  pub file_size : F → ℕ → ℕ
  pub read : F → ℕ → ℕ → ℕ → ℤ × List ℕ
  pub write : F → ℕ → ℕ → List ℕ → ℤ × F
  pub create : F → List ℕ → ℕ → ℕ → ℕ × F
  pub mkdir : F → List ℕ → ℕ → ℕ → ℕ × F
  pub unlink : F → List ℕ → Bool × F
  pub rename : F → List ℕ → List ℕ → Bool × F
  pub truncate : F → ℕ → Bool × F
  pub chown : F → ℕ → ℕ → ℕ → Bool × F
  pub chmod : F → List ℕ → ℕ → ℤ × F
  pub stat_full : F → ℕ → Option Stat
  pub list_dir : F → ℕ → ℕ → ℕ → List ℕ

abbrev pub vfs_max_open : ℕ
vfs_max_open = 16

-- `vfs_file_t`
pub record VfsFile : Type 0 where
  pub in_use : Bool
  pub inode : ℕ
  pub offset : ℕ

abbrev pub closed_file : VfsFile
closed_file = record { in_use = false; inode = 0; offset = 0 }

-- What a call sees of the current process.
pub record Caller : Type 0 where
  pub cwd : List ℕ
  pub euid : ℕ
  pub egid : ℕ

-- `s_root_fs`, none for NULL, `s_files`, `s_kernel_cwd`, and the current process, none for NULL.
pub record Vfs (F : Type 0) : Type 0 where
  pub root_fs : Option F
  pub files : List VfsFile
  pub kernel_cwd : List ℕ
  pub caller : Option Caller

abbrev pub cwd_of : Option Caller → List ℕ → List ℕ
cwd_of none kernel_cwd = kernel_cwd
cwd_of (some c) kernel_cwd = c.cwd

abbrev pub euid_of : Option Caller → ℕ
euid_of none = 0
euid_of (some c) = c.euid

abbrev pub egid_of : Option Caller → ℕ
egid_of none = 0
egid_of (some c) = c.egid

-- `int` results 0 and -1.
abbrev pub zero_or_error : Bool → ℤ
zero_or_error ok = if ok then pos 0 else minus_one

abbrev pub is_unused : VfsFile → Bool
is_unused f = not f.in_use

abbrev pub file_at : List VfsFile → ℕ → VfsFile
file_at fs i = get_or fs i closed_file

-- `fd < 0 || fd >= VFS_MAX_OPEN || !s_files[fd].in_use` fails, else the index.
abbrev pub open_index : List VfsFile → ℤ → Option ℕ
open_index files fd = elim (in_range fd vfs_max_open) [
  | none ↦ none
  | some i ↦ if (file_at files i).in_use then some i else none
]

module _ {F : Type 0} (ops : FileSystem F) where
  -- The path that a call works on.
  abbrev pub resolved : Vfs F → Option (List ℕ) → List ℕ
  resolved v path = vfs_resolve (cwd_of v.caller v.kernel_cwd) path 512

  -- The loop over `s_files` that the two functions share: the first free slot is taken.
  unfoldable pub take_slot : Vfs F → ℕ → ℕ → ℤ × Vfs F
  take_slot v ino offset = elim (find_from is_unused 0 v.files) [
    | none ↦ (minus_one, v)
    | some i ↦ (
      pos i,
      record v { files = set v.files i (record { in_use = true; inode = ino; offset = offset }) },
    )
  ]

  unfoldable pub vfs_open : Vfs F → Option (List ℕ) → ℤ × Vfs F
  vfs_open v path = elim v.root_fs [
    | none ↦ (minus_one, v)
    | some fs ↦ elim (ops.lookup fs (resolved v path)) [
      | none ↦ (minus_one, v)
      | some ino ↦ take_slot v ino 0
    ]
  ]

  -- `if (n > 0) f->offset += n;`
  abbrev pub advance : VfsFile → ℤ → VfsFile
  advance f (pos n) = record f { offset = add64 f.offset n }
  advance f (negsuc n) = f

  abbrev pub read_file : Vfs F → ℕ → ℕ → Option F → (ℤ × List ℕ) × Vfs F
  read_file v i size none = ((minus_one, []), v)
  read_file v i size (some fs) =
      let f = file_at v.files i in
      let r = ops.read fs f.inode f.offset size in
      (r, record v { files = set v.files i (advance f r.0) })

  abbrev pub read_open : Vfs F → ℕ → Option ℕ → (ℤ × List ℕ) × Vfs F
  read_open v size none = ((minus_one, []), v)
  read_open v size (some i) = read_file v i size v.root_fs

  -- The result, the bytes stored in `*buf`, and the state.
  pub vfs_read : Vfs F → ℤ → ℕ → (ℤ × List ℕ) × Vfs F
  vfs_read v fd size = read_open v size (open_index v.files fd)

  pub vfs_close : Vfs F → ℤ → Vfs F
  vfs_close v fd = elim (in_range fd vfs_max_open) [
    | none ↦ v
    | some i ↦ record v { files = set v.files i (record (file_at v.files i) { in_use = false }) }
  ]

  pub vfs_file_size : Vfs F → Option (List ℕ) → ℕ
  vfs_file_size v path = elim v.root_fs [
    | none ↦ u64_mod - 1
    | some fs ↦ elim (ops.lookup fs (resolved v path)) [
      | none ↦ u64_mod - 1
      | some ino ↦ ops.file_size fs ino
    ]
  ]

  pub vfs_listdir : Vfs F → Option (List ℕ) → ℕ → ℕ → List ℕ
  vfs_listdir v path bufsz flags = elim v.root_fs [
    | none ↦ []
    | some fs ↦ elim (ops.lookup fs (resolved v path)) [
      | none ↦ []
      | some ino ↦ ops.list_dir fs ino bufsz flags
    ]
  ]

  abbrev pub write_file : Vfs F → ℕ → List ℕ → Option F → ℤ × Vfs F
  write_file v i bytes none = (minus_one, v)
  write_file v i bytes (some fs) =
      let f = file_at v.files i in
      let (n, fs') = ops.write fs f.inode f.offset bytes in
      (n, record v { root_fs = some fs'; files = set v.files i (advance f n) })

  abbrev pub write_open : Vfs F → List ℕ → Option ℕ → ℤ × Vfs F
  write_open v bytes none = (minus_one, v)
  write_open v bytes (some i) = write_file v i bytes v.root_fs

  pub vfs_write : Vfs F → ℤ → List ℕ → ℤ × Vfs F
  vfs_write v fd bytes = write_open v bytes (open_index v.files fd)

  abbrev pub o_creat : ℕ → Bool
  o_creat flags = not (bit_and flags 0x40 == 0)

  abbrev pub o_trunc : ℕ → Bool
  o_trunc flags = not (bit_and flags 0x200 == 0)

  abbrev pub o_append : ℕ → Bool
  o_append flags = not (bit_and flags 0x400 == 0)

  abbrev pub created : ℕ × F → Option ℕ × F
  created (ino, fs) = (if ino == 0 then none else some ino, fs)

  -- The inode that vfs_open_ex opens, and the file system after the file was created or cut.
  pub target : Vfs F → F → List ℕ → ℕ → Option ℕ × F
  target v fs path flags = elim (ops.lookup fs path) [
    | none ↦
        if o_creat flags
        then created (ops.create fs path (euid_of v.caller) (egid_of v.caller))
        else (none, fs)
    | some ino ↦ (some ino, if o_trunc flags then (ops.truncate fs ino).1 else fs)
  ]

  abbrev open_target : Vfs F → ℕ → Option ℕ × F → ℤ × Vfs F
  open_target v flags (none, fs) = (minus_one, record v { root_fs = some fs })
  open_target v flags (some ino, fs) =
      take_slot (record v { root_fs = some fs }) ino
        (if o_append flags then ops.file_size fs ino else 0)

  pub vfs_open_ex : Vfs F → Option (List ℕ) → ℕ → ℤ × Vfs F
  vfs_open_ex v path flags = elim v.root_fs [
    | none ↦ (minus_one, v)
    | some fs ↦ open_target v flags (target v fs (resolved v path) flags)
  ]

  abbrev pub made : Vfs F → ℕ × F → ℤ × Vfs F
  made v (ino, fs) = (zero_or_error (not (ino == 0)), record v { root_fs = some fs })

  pub vfs_creat : Vfs F → Option (List ℕ) → ℤ × Vfs F
  vfs_creat v path = elim v.root_fs [
    | none ↦ (minus_one, v)
    | some fs ↦ made v (ops.create fs (resolved v path) (euid_of v.caller) (egid_of v.caller))
  ]

  pub vfs_mkdir : Vfs F → Option (List ℕ) → ℤ × Vfs F
  vfs_mkdir v path = elim v.root_fs [
    | none ↦ (minus_one, v)
    | some fs ↦ made v (ops.mkdir fs (resolved v path) (euid_of v.caller) (egid_of v.caller))
  ]

  abbrev pub done : Vfs F → Bool × F → ℤ × Vfs F
  done v (ok, fs) = (zero_or_error ok, record v { root_fs = some fs })

  pub vfs_unlink : Vfs F → Option (List ℕ) → ℤ × Vfs F
  vfs_unlink v path = elim v.root_fs [
    | none ↦ (minus_one, v)
    | some fs ↦ done v (ops.unlink fs (resolved v path))
  ]

  pub vfs_rename : Vfs F → Option (List ℕ) → Option (List ℕ) → ℤ × Vfs F
  vfs_rename v old_path new_path = elim v.root_fs [
    | none ↦ (minus_one, v)
    | some fs ↦ done v (ops.rename fs (resolved v old_path) (resolved v new_path))
  ]

  -- `strncpy(cwd, abuf, 255); cwd[255] = 0;` on the process or on the kernel's own directory.
  abbrev set_cwd : Vfs F → Option Caller → List ℕ → Vfs F
  set_cwd v none path = record v { kernel_cwd = take 255 path }
  set_cwd v (some c) path = record v { caller = some (record c { cwd = take 255 path }) }

  abbrev change_dir : Vfs F → List ℕ → Option ℕ → ℤ × Vfs F
  change_dir v path none = (minus_one, v)
  change_dir v path (some ino) = (pos 0, set_cwd v v.caller path)

  pub vfs_chdir : Vfs F → Option (List ℕ) → ℤ × Vfs F
  vfs_chdir v none = (minus_one, v)
  vfs_chdir v (some path) = elim v.root_fs [
    | none ↦ (minus_one, v)
    | some fs ↦ change_dir v (resolved v (some path)) (ops.lookup fs (resolved v (some path)))
  ]

  -- The string stored in `*buf`.
  pub vfs_getcwd : Vfs F → ℕ → Option (List ℕ)
  vfs_getcwd v size =
      if size == 0 then none else some (take (size - 1) (cwd_of v.caller v.kernel_cwd))

  pub vfs_chown : Vfs F → Option (List ℕ) → ℕ → ℕ → ℤ × Vfs F
  vfs_chown v path uid gid = elim v.root_fs [
    | none ↦ (minus_one, v)
    | some fs ↦ elim (ops.lookup fs (resolved v path)) [
      | none ↦ (minus_one, v)
      | some ino ↦ done v (ops.chown fs ino uid gid)
    ]
  ]

  pub vfs_chmod : Vfs F → Option (List ℕ) → ℕ → ℤ × Vfs F
  vfs_chmod v path mode = elim v.root_fs [
    | none ↦ (minus_one, v)
    | some fs ↦
        let (r, fs') = ops.chmod fs (resolved v path) mode in (r, record v { root_fs = some fs' })
  ]

  -- `*out`, none where the function returns -1.
  pub vfs_stat : Vfs F → Option (List ℕ) → Option Stat
  vfs_stat v path = elim v.root_fs [
    | none ↦ none
    | some fs ↦ elim (ops.lookup fs (resolved v path)) [
      | none ↦ none
      | some ino ↦ ops.stat_full fs ino
    ]
  ]
