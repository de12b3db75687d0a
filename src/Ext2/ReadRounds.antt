-- ===== src/Ext2/ReadRounds.antt =====
-- The loop of ext2_read, round by round, and its runs.
use native.Mathlib.Nat.{mod-lt}
use aether_os.Prelude.{
  ℕ, zero, suc, ◌+◌, ◌-◌, ◌/◌, ◌%◌, ◌≤◌, ◌<◌, ◌≡◌, refl, sym, subst, ap, min, Bool, false, Option,
  none, some, [], arith, ◌==◌, if◌then◌else◌,
}
use aether_os.Prelude.Slices.{slice}
use aether_os.Ext2.Layout.{Bytes}
use aether_os.Ext2.{Fs}
use aether_os.Ext2.Files.{Piece, ended, failed, bytes, file_piece, before, read_blocks}

module _ (fs : Fs) (inode : Bytes) where
  -- How much of a round's block is copied.
  abbrev pub chunk : ℕ → ℕ → ℕ
  chunk o m = min (fs.block_size - o % fs.block_size) m

  -- What a read does with a block of the file, given the read of the rest.
  abbrev pub onward : (ℕ → ℕ → Option Bytes) → ℕ → ℕ → Piece → Option Bytes
  onward next o m ended = some []
  onward next o m failed = none
  onward next o m (bytes blk) =
      before (slice blk (o % fs.block_size) (chunk o m)) (next (o + chunk o m) (m - chunk o m))

  pub read_blocks_step :
      (fuel o m : ℕ)
      → read_blocks (suc fuel) fs inode o (suc m)
        ≡ onward (read_blocks fuel fs inode) o (suc m) (file_piece fs inode (o / fs.block_size))
  unfolding read_blocks
  read_blocks_step fuel o m =
      let e : (suc m == 0) ≡ false = ground arith in
      ap
        (λ (b : Bool).
          if b
          then some []
          else onward (read_blocks fuel fs inode) o (suc m)
              (file_piece fs inode (o / fs.block_size)))
        e

  read_none : (f o : ℕ) → read_blocks f fs inode o 0 ≡ some []
  unfolding read_blocks
  read_none zero o = refl
  read_none (suc f) o = refl

-- A run of the loop of ext2_read from an offset in the file and the number of the bytes that are left
-- to read to what it copies.
pub data Reads (fs : Fs) (inode : Bytes) : ℕ → ℕ → Option Bytes → Type 0 where
  is_done : {o : ℕ} → Reads fs inode o 0 (some [])
  runs_out :
      {o m : ℕ}
      → file_piece fs inode (o / fs.block_size) ≡ ended
      → Reads fs inode o (suc m) (some [])
  fails :
      {o m : ℕ} → file_piece fs inode (o / fs.block_size) ≡ failed → Reads fs inode o (suc m) none
  copies :
      {o m : ℕ} {blk : Bytes} {r : Option Bytes}
      → file_piece fs inode (o / fs.block_size) ≡ bytes blk
      → Reads fs inode (o + chunk fs inode o (suc m)) (suc m - chunk fs inode o (suc m)) r
      → Reads fs inode o
          (suc m)
          (before (slice blk (o % fs.block_size) (chunk fs inode o (suc m))) r)

module _ (fs : Fs) (inode : Bytes) where
  onward-Reads :
      (next : ℕ → ℕ → Option Bytes) (o m : ℕ)
      → Reads fs inode
          (o + chunk fs inode o (suc m))
          (suc m - chunk fs inode o (suc m))
          (next (o + chunk fs inode o (suc m)) (suc m - chunk fs inode o (suc m)))
      → (x : Piece) → file_piece fs inode (o / fs.block_size) ≡ x
      → Reads fs inode o (suc m) (onward fs inode next o (suc m) x)
  onward-Reads next o m later ended e = runs_out e
  onward-Reads next o m later failed e = fails e
  onward-Reads next o m later (bytes blk) e = copies e later

  -- A round copies a byte or more.
  pub read_blocks-Reads :
      (f o m : ℕ) → 0 < fs.block_size → m ≤ f → Reads fs inode o m (read_blocks f fs inode o m)
  read_blocks-Reads f o zero pos h =
      subst (Reads fs inode o 0) (sym (read_none fs inode f o)) is_done
  read_blocks-Reads zero o (suc m) pos h = absurd (omega arith)
  read_blocks-Reads (suc f) o (suc m) pos h =
      let small = mod-lt o pos in
      subst (Reads fs inode o (suc m)) (sym (read_blocks_step fs inode f o m)) (
        onward-Reads (read_blocks f fs inode) o m
          (read_blocks-Reads f (o + chunk fs inode o (suc m)) (suc m - chunk fs inode o (suc m)) pos
            (omega (arith, small)))
          (file_piece fs inode (o / fs.block_size)) refl)
