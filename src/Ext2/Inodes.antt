-- ===== src/Ext2/Inodes.antt =====
-- The inode table of ext2 as an array of inodes: write_inode and read_inode.
use native.Mathlib.Decide.{ℕ_discrete}
use aether_os.Prelude.{
  ℕ, ◌≡◌, ◌≢◌, refl, sym, subst, ap, ap₂, ◌∙◌, inl, inr, Bool, true, false, Option, none, some,
  arith, length, Bool-cases, if◌then◌else◌, ◌==◌, ◌||◌, not,
}
use aether_os.Ext2.Layout.{Bytes}
use aether_os.Ext2.Slots.{IsNumber, Laid, self_read, other_read, after-Laid}
use aether_os.Ext2.{
  Fs, sizeof_inode, inode_home, inode_group, read_block, write_block, read_bgd, read_inode,
  write_inode, write_via,
}

-- What it takes to write an inode: a number, memory for a block, a descriptor and a block of the
-- inode table that can be read, and a device that takes the block back.
pub record Able (fs : Fs) (ino : ℕ) : Type 0 where
  pub numbered : ino ≢ 0
  pub spare : fs.memory ≡ true
  pub bgd : Bytes
  pub described : read_bgd fs (inode_group fs ino) ≡ some bgd
  pub readable : fs.readable (inode_home fs ino bgd) ≡ true
  pub writable : fs.writable (inode_home fs ino bgd) ≡ true

-- How a write of an inode may end.
pub data Written (fs : Fs) (ino : ℕ) (inode : Bytes) : Bool × Fs → Type 0 where
  written :
      {g : Fs}
      → read_inode g ino ≡ some inode
      → ((j : ℕ) → IsNumber fs j → j ≢ ino → read_inode g j ≡ read_inode fs j)
      → Laid g
      → Able fs ino
      → Written fs ino inode (true, g)
  refused : ¬ Able fs ino → Written fs ino inode (false, fs)

module _ (fs : Fs) (laid : Laid fs) (ino : ℕ) (inode : Bytes) (known : IsNumber fs ino)
    (len : length inode ≡ sizeof_inode) where
  Able-home :
      (bgd : Bytes)
      → read_bgd fs (inode_group fs ino) ≡ some bgd
      → Able fs ino
      → (fs.readable (inode_home fs ino bgd) ≡ true) × (fs.writable (inode_home fs ino bgd) ≡ true)
  Able-home bgd found a =
      let e : a.bgd ≡ bgd =
        ap (λ (o : Option Bytes). elim o as (λ _. Bytes) [ none ↦ bgd | some b ↦ b ])
          (sym a.described ∙ found) in
      subst
        (λ (b : Bytes).
          (fs.readable (inode_home fs ino b) ≡ true) × (fs.writable (inode_home fs ino b) ≡ true))
        e (a.readable, a.writable)

  -- The last step, with the descriptor found.
  home-Written :
      (bgd : Bytes)
      → ino ≢ 0
      → fs.memory ≡ true
      → read_bgd fs (inode_group fs ino) ≡ some bgd
      → (r w : Bool) → fs.readable (inode_home fs ino bgd) ≡ r
      → fs.writable (inode_home fs ino bgd) ≡ w
      → Written fs ino inode (write_via fs ino inode (some bgd))
  unfolding read_block write_block
  home-Written bgd ne spare found false w rb wb =
      rw (rb, write_via)
        (refused (λ a. let no = (Able-home bgd found a).0 in ground (arith, rb, no)))
  home-Written bgd ne spare found true false rb wb =
      rw (rb, write_via, wb)
        (refused (λ a. let no = (Able-home bgd found a).1 in ground (arith, wb, no)))
  home-Written bgd ne spare found true true rb wb =
      rw (rb, write_via, wb)
        (written (self_read fs laid ino bgd inode known found len ne rb)
          (λ j nj. other_read fs laid ino bgd inode known found len j nj ne)
          (after-Laid fs laid ino bgd inode known found len)
          (record {
            numbered = ne;
            spare = spare;
            bgd = bgd;
            described = found;
            readable = rb;
            writable = wb;
          }))

  via-Written :
      ino ≢ 0
      → fs.memory ≡ true
      → (o : Option Bytes) → read_bgd fs (inode_group fs ino) ≡ o
      → Written fs ino inode (write_via fs ino inode o)
  via-Written ne spare none lost = refused (λ a. let no = a.described in cc)
  via-Written ne spare (some bgd) found =
      home-Written bgd ne spare found (fs.readable (inode_home fs ino bgd))
        (fs.writable (inode_home fs ino bgd)) refl refl

  -- In a file system whose inode tables and descriptors are laid out apart from one another,
  -- write_inode of the 128 bytes of an inode. It succeeds exactly when the number is not 0, there is
  -- memory for a block, the group's descriptor and the inode's block can be read and that block can
  -- be written. Then the inode reads back as it was written, every other inode reads as before, and
  -- the layout is kept. Otherwise nothing changes. The numbers are those up to the superblock's
  -- count of inodes.
  pub write_inode_lem : Written fs ino inode (write_inode fs ino inode)
  unfolding write_inode
  write_inode_lem = elim (ℕ_discrete ino 0) [
    | yes z ↦
        let e : (ino == 0) ≡ true = ground (arith, z) in
        subst (Written fs ino inode) (sym (ap (λ (b : Bool). gate b fs.memory via) e))
          (refused (λ a. a.numbered z))
    | no ne ↦
        let e : (ino == 0) ≡ false = ground (arith, ne) in
        elim (Bool-cases fs.memory) [
          | inr out ↦
              subst (Written fs ino inode) (sym (ap₂ (λ (b m : Bool). gate b m via) e out))
                (refused (λ a. let no = a.spare in ground (arith, out, no)))
          | inl spare ↦
              subst (Written fs ino inode) (sym (ap₂ (λ (b m : Bool). gate b m via) e spare))
                (via-Written ne spare (read_bgd fs (inode_group fs ino)) refl)
        ]
  ]
    where
      gate : Bool → Bool → Bool × Fs → Bool × Fs
      gate b m x = if b || not m then (false, fs) else x

      via : Bool × Fs
      via = write_via fs ino inode (read_bgd fs (inode_group fs ino))
