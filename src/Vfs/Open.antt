-- ===== src/Vfs/Open.antt =====
-- The descriptor that vfs_open of kernel/fs/vfs.c gives.
use aether_os.Prelude.{ℕ, ◌≡◌, refl, sym, subst, ap, ◌∙◌, Option, none, some, List}
use aether_os.Prelude.Int.{ℤ, pos, negsuc, minus_one}
use aether_os.Vfs.{FileSystem, Vfs, vfs_open, resolved, take_slot}
use aether_os.Vfs.Slots.{IsSized, Takes, taken, full, take_slot-Takes}
use aether_os.Vfs.Cursor.{At}

module _ {F : Type 0} (ops : FileSystem F) (v : Vfs F) (fs : F) (path : Option (List ℕ))
    (ino : ℕ) where
  -- What a call that opens the inode leaves behind.
  abbrev IsOpen : ℤ × Vfs F → Type 0
  IsOpen (pos i, w) = At ops w fs i ino 0
  IsOpen (negsuc k, w) = w ≡ v

  Takes-IsOpen : (r : ℤ × Vfs F) → v.root_fs ≡ some fs → Takes v ino 0 r → IsOpen r
  Takes-IsOpen r m (taken i low free first file others sized root same kernel) = record {
    mounted = root ∙ m;
    sized = sized;
    slot = low;
    file = file;
  }
  Takes-IsOpen r m (full all) = refl

  open_lem :
      v.root_fs ≡ some fs
      → ops.lookup fs (resolved ops v path) ≡ some ino
      → vfs_open ops v path ≡ take_slot ops v ino 0
  unfolding vfs_open
  open_lem m e =
      ap
        (λ (r : Option F). elim r as (λ _. ℤ × Vfs F) [
          | none ↦ (minus_one, v)
          | some g ↦ elim (ops.lookup g (resolved ops v path)) as (λ _. ℤ × Vfs F) [
            | none ↦ (minus_one, v)
            | some found ↦ take_slot ops v found 0
          ]
        ])
        m
      ∙ ap
          (λ (r : Option ℕ). elim r as (λ _. ℤ × Vfs F) [
            | none ↦ (minus_one, v)
            | some found ↦ take_slot ops v found 0
          ])
          e

  -- A descriptor that is given stands at the start of the file.
  pub vfs_open-At :
      (i : ℕ) (w : Vfs F)
      → v.root_fs ≡ some fs
      → IsSized v.files
      → ops.lookup fs (resolved ops v path) ≡ some ino
      → vfs_open ops v path ≡ (pos i, w)
      → At ops w fs i ino 0
  vfs_open-At i w m sized found opened =
      subst IsOpen (sym (open_lem m found) ∙ opened)
        (Takes-IsOpen (take_slot ops v ino 0) m (take_slot-Takes ops v ino 0 sized))
