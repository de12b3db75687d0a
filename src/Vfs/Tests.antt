-- ===== src/Vfs/Tests.antt =====
-- Calls of kernel/fs/vfs.c on a file system of one file.
use aether_os.Prelude.{
  ℕ, ◌+◌, ◌≡◌, refl, none, some, List, [], ◌∷◌, true, false, length, replicate, arith,
}
use aether_os.Prelude.Int.{pos, minus_one}
use aether_os.Vfs.{FileSystem, Vfs, closed_file, vfs_open_ex}
use aether_os.Vfs.Path.{
  vfs_resolve, or_root, joined, normalize, skip_slashes, after, component, add_component,
  pop_component, last_slash, close_dir,
}
use aether_os.Vfs.Path.Names.{AllNames, join}
use aether_os.Vfs.Path.Resolve.{steps, vfs_resolve_lem}
use aether_os.Vfs.Path.Canonical.{vfs_resolve_again}
use aether_os.Prelude.Slices.{slice}
use aether_os.Vfs.Cursor.{total, read_all, At, read_all_lem}
use aether_os.Vfs.OpenEx.{Opens, vfs_open_ex_lem}

-- "/a" and "../b/./c//d/"
abbrev home : List ℕ
home = 47 ∷ 97 ∷ []

abbrev given : List ℕ
given = 46 ∷ 46 ∷ 47 ∷ 98 ∷ 47 ∷ 46 ∷ 47 ∷ 99 ∷ 47 ∷ 47 ∷ 100 ∷ 47 ∷ []

-- "/b/c/d"
resolve_test : vfs_resolve home (some given) 512 ≡ 47 ∷ 98 ∷ 47 ∷ 99 ∷ 47 ∷ 100 ∷ []
unfolding vfs_resolve joined close_dir normalize skip_slashes after component add_component
    pop_component last_slash
resolve_test = refl

vfs_resolve_lem_example :
    (vfs_resolve home (some given) 512 ≡ or_root (join (steps home (some given))))
    × AllNames (steps home (some given))
vfs_resolve_lem_example = vfs_resolve_lem home (some given) refl

vfs_resolve_again_example :
    vfs_resolve [] (some (vfs_resolve home (some given) 512)) 512
    ≡ vfs_resolve home (some given) 512
vfs_resolve_again_example = vfs_resolve_again home [] (some given) refl tt

-- A file system whose files all hold the same five bytes.
abbrev bytes : List ℕ
bytes = 1 ∷ 2 ∷ 3 ∷ 4 ∷ 5 ∷ []

abbrev one_file : FileSystem ℕ
one_file = record {
  lookup = λ fs path. some 12;
  file_size = λ fs ino. 5;
  read = λ fs ino o n. (pos (length (slice bytes o n)), slice bytes o n);
  write = λ fs ino o xs. (minus_one, fs);
  create = λ fs path uid gid. (0, fs);
  mkdir = λ fs path uid gid. (0, fs);
  unlink = λ fs path. (false, fs);
  rename = λ fs path new. (false, fs);
  truncate = λ fs ino. (true, fs + 1);
  chown = λ fs ino uid gid. (false, fs);
  chmod = λ fs path mode. (minus_one, fs);
  stat_full = λ fs ino. none;
  list_dir = λ fs ino n flags. [];
}

abbrev state : Vfs ℕ
state = record {
  root_fs = some 0;
  files = record { in_use = true; inode = 12; offset = 1 } ∷ replicate 15 closed_file;
  kernel_cwd = 47 ∷ [];
  caller = none;
}

state-At : At one_file state 0 0 12 1
state-At = record { mounted = refl; sized = refl; slot = omega arith; file = refl }

read_all_lem_example :
    ((read_all one_file state (pos 0) (2 ∷ 9 ∷ [])).0 ≡ slice bytes 1 (total (2 ∷ 9 ∷ [])))
    × At one_file
        (read_all one_file state (pos 0) (2 ∷ 9 ∷ [])).1
        0
        0
        12
        (1 + length (slice bytes 1 (total (2 ∷ 9 ∷ []))))
read_all_lem_example =
    read_all_lem one_file (2 ∷ 9 ∷ []) state 0 0 12 1 bytes state-At (λ o n. refl) (omega arith)
      (omega arith)

vfs_open_ex_lem_example :
    Opens one_file state 0 (some home) 0x200 (vfs_open_ex one_file state (some home) 0x200)
vfs_open_ex_lem_example = vfs_open_ex_lem one_file state 0 (some home) 0x200 refl refl
