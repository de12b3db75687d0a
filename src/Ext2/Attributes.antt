-- ===== src/Ext2/Attributes.antt =====
-- The attributes of a file of ext2: what ext2_chmod changes and ext2_stat_full shows.
use aether_os.Prelude.{
  ℕ, ◌+◌, ◌*◌, ◌/◌, ◌%◌, ◌≡◌, ◌≢◌, refl, sym, subst, ap, ◌∙◌, Bool, false, Option, none, some,
  arith, length, set, length-set, [], ◌∷◌, ◌==◌, if◌then◌else◌, u16_mod,
}
use aether_os.Prelude.Int.{ℤ, pos, minus_one}
use aether_os.Vfs.{Stat}
use aether_os.Ext2.Layout.{Bytes, le32}
use aether_os.Ext2.{Fs, sizeof_inode, read_inode}
use aether_os.Ext2.Slots.{IsNumber, Laid}
use aether_os.Ext2.Inodes.{Able, Written, written, refused, write_inode_lem}
use aether_os.Ext2.Lookup.{ext2_lookup_ino}
use aether_os.Ext2.Names.{i_mode}
use aether_os.Ext2.Stat.{stat_of, with_mode, ext2_stat_full, ext2_chmod, chmod_inode}

-- The two bytes of a `uint16_t`.
two_bytes : (v : ℕ) → v % 256 + 256 * (v / 256 % 256) ≡ v % u16_mod
two_bytes v = omega arith

-- The mode that chmod gives: the type of the file stays, the permissions are the new ones.
abbrev pub permitted : Bytes → ℕ → ℕ
permitted inode mode = (i_mode inode / 4096 * 4096 + mode % 4096) % u16_mod

abbrev pub stat_with : Bytes → ℕ → Stat
stat_with inode mode = record (stat_of inode) { mode = mode }

with_mode-stat_of :
    (inode : Bytes) (mode : ℕ)
    → length inode ≡ sizeof_inode
    → stat_of (with_mode inode mode) ≡ stat_with inode (permitted inode mode)
unfolding le32
with_mode-stat_of [] mode len = absurd (omega arith)
with_mode-stat_of (x ∷ []) mode len = absurd (omega arith)
with_mode-stat_of (x ∷ y ∷ rest) mode len =
    ap (stat_with (x ∷ y ∷ rest)) (two_bytes (i_mode (x ∷ y ∷ rest) / 4096 * 4096 + mode % 4096))

-- How a chmod of inode `ino`, which was `inode`, may end.
pub data Permitted (fs : Fs) (ino : ℕ) (inode : Bytes) (mode : ℕ) : ℤ × Fs → Type 0 where
  changed :
      {g : Fs}
      → ext2_stat_full g ino ≡ some (stat_with inode (permitted inode mode))
      → ((j : ℕ) → IsNumber fs j → j ≢ ino → ext2_stat_full g j ≡ ext2_stat_full fs j)
      → Able fs ino
      → Permitted fs ino inode mode (pos 0, g)
  denied : ¬ Able fs ino → Permitted fs ino inode mode (minus_one, fs)

module _ (fs : Fs) (laid : Laid fs) (path : Bytes) (mode : ℕ) (inode : Bytes) where
  abbrev ino : ℕ
  ino = ext2_lookup_ino fs path

  abbrev outcome : Bool × Fs → ℤ × Fs
  outcome (ok, g) = (if ok then pos 0 else minus_one, g)

  abbrev shown : Option Bytes → Option Stat
  shown none = none
  shown (some i) = some (stat_of i)

  shows : (g : Fs) (j : ℕ) → ext2_stat_full g j ≡ shown (read_inode g j)
  unfolding ext2_stat_full
  shows g j = go (read_inode g j)
    where
      go :
          (o : Option Bytes)
          → elim o as (λ _. Option Stat) [ none ↦ none | some i ↦ some (stat_of i) ] ≡ shown o
      go none = refl
      go (some i) = refl

  Written-Permitted :
      {r : Bool × Fs}
      → length inode ≡ sizeof_inode
      → Written fs ino (with_mode inode mode) r
      → Permitted fs ino inode mode (outcome r)
  Written-Permitted len (written {g} self others kept able) =
      changed
        (shows g ino ∙ ap shown self ∙ ap (λ (s : Stat). some s) (with_mode-stat_of inode mode len))
        (λ j nj ne. shows g j ∙ ap shown (others j nj ne) ∙ sym (shows fs j)) able
  Written-Permitted len (refused unable) = denied unable

  -- In a file system that is laid out as write_inode needs it, ext2_chmod of a path that leads to an
  -- inode. It succeeds exactly when the inode can be written. Then the type of the file and all else
  -- that ext2_stat_full shows of it are as before, and its permissions are the low twelve bits of
  -- `mode`; what ext2_stat_full shows of other inodes is as before. Otherwise nothing changes.
  pub ext2_chmod_lem :
      ino ≢ 0
      → IsNumber fs ino
      → read_inode fs ino ≡ some inode
      → length inode ≡ sizeof_inode
      → Permitted fs ino inode mode (ext2_chmod fs path mode)
  unfolding ext2_chmod
  ext2_chmod_lem nz known found len =
      let e : (ino == 0) ≡ false = ground (arith, nz) in
      subst (Permitted fs ino inode mode)
        (sym (
          ap
            (λ (b : Bool).
              if b then (minus_one, fs) else chmod_inode fs ino mode (read_inode fs ino))
            e
          ∙ ap (chmod_inode fs ino mode) found))
        (Written-Permitted len (
          write_inode_lem fs laid ino (with_mode inode mode) known
            (length-set (set inode 0 _) 1 _ ∙ length-set inode 0 _ ∙ len)))
