-- ===== src/Vfs/Slots.antt =====
-- What the calls that open a file in kernel/fs/vfs.c do to the table of open files.
use aether_os.Prelude.{
  ℕ, ◌<◌, ◌≡◌, ◌≢◌, refl, sym, ◌∙◌, inl, inr, true, false, List, arith, length, length-set,
  find_from, find_from-Found, find_from-none, Option-cases, get_or-set_self, get_or-set_other,
}
use aether_os.Prelude.Int.{ℤ, pos, minus_one}
use aether_os.Vfs.{
  FileSystem, Vfs, VfsFile, closed_file, file_at, is_unused, take_slot, vfs_max_open,
}

-- The table has its 16 slots.
abbrev pub IsSized : List VfsFile → Type 0
IsSized files = length files ≡ vfs_max_open

module _ {F : Type 0} where
  -- What taking a slot may do to a state.
  pub data Takes (v : Vfs F) (ino offset : ℕ) : ℤ × Vfs F → Type 0 where
    taken :
        {w : Vfs F} (i : ℕ)
        → i < vfs_max_open
        → (file_at v.files i).in_use ≡ false
        → ((j : ℕ) → j < i → (file_at v.files j).in_use ≡ true)
        → file_at w.files i ≡ record { in_use = true; inode = ino; offset = offset }
        → ((j : ℕ) → j ≢ i → file_at w.files j ≡ file_at v.files j)
        → IsSized w.files
        → w.root_fs ≡ v.root_fs
        → w.caller ≡ v.caller
        → w.kernel_cwd ≡ v.kernel_cwd
        → Takes v ino offset (pos i, w)
    full :
        ((j : ℕ) → j < vfs_max_open → (file_at v.files j).in_use ≡ true)
        → Takes v ino offset (minus_one, v)

module _ {F : Type 0} (ops : FileSystem F) where
  pub take_slot-Takes :
      (v : Vfs F) (ino offset : ℕ)
      → IsSized v.files
      → Takes v ino offset (take_slot ops v ino offset)
  unfolding take_slot
  take_slot-Takes v ino offset size = elim (Option-cases (find_from is_unused 0 v.files)) [
    | inl miss ↦
        rw (miss, take_slot)
          (full (λ j l.
            ground (arith, find_from-none is_unused 0 v.files closed_file miss j (omega arith))))
    | inr (i, hit) ↦
        let found = find_from-Found is_unused 0 v.files closed_file i hit in
        let f : VfsFile = record { in_use = true; inode = ino; offset = offset } in
        rw (hit, take_slot)
          (taken i (omega (arith, found.within)) (ground (arith, found.passes))
            (λ j l. ground (arith, found.first j (omega arith)))
            (get_or-set_self v.files i f closed_file found.within)
            (λ j ne. get_or-set_other v.files i j f closed_file (λ q. ne (sym q)))
            (length-set v.files i f ∙ size) refl refl refl)
  ]
