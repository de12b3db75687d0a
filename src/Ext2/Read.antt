-- ===== src/Ext2/Read.antt =====
-- Reading a file of ext2: the loop over the blocks against the bytes of the file.
use native.Mathlib.Nat.{div-add-mod', mod-lt, div-lt_iff_lt-mul}
use aether_os.Prelude.{
  ℕ, zero, suc, ◌+◌, ◌-◌, ◌*◌, ◌/◌, ◌%◌, ◌≤◌, ◌<◌, ◌≡◌, refl, sym, ap, ◌∙◌, inl, inr, min, Bool,
  some, [], ◌++◌, arith, tests, length, take, ltb, leb, if◌then◌else◌, Bool-cases, length-append,
}
use aether_os.Prelude.Int.{ℤ, pos}
use aether_os.Prelude.Slices.{
  slice, slice_more, drop-append, slice_left, length-slice_in, slice-take,
}
use aether_os.Ext2.Layout.{Bytes}
use aether_os.Ext2.{Fs, i_size, read_inode}
use aether_os.Ext2.ReadRounds.{chunk, onward, read_blocks_step}
use aether_os.Ext2.Files.{
  bytes, file_piece, before, read_blocks, counted_bytes, read_from, ext2_read,
}

-- The bytes of the first `n` blocks, one after the other.
pub flat : (ℕ → Bytes) → ℕ → Bytes
flat held zero = []
flat held (suc n) = held 0 ++ flat (λ i. held (suc i)) n

-- The first `n` blocks of the file of an inode can be read and hold these bytes.
pub record Stored (fs : Fs) (inode : Bytes) (held : ℕ → Bytes) (n : ℕ) : Type 0 where
  pub blocks : 0 < fs.block_size
  pub at_block : (k : ℕ) → k < n → file_piece fs inode k ≡ bytes (held k)
  pub full : (k : ℕ) → k < n → length (held k) ≡ fs.block_size

module _ (bs : ℕ) where
  abbrev AllFull : (ℕ → Bytes) → ℕ → Type 0
  AllFull held n = (i : ℕ) → i < n → length (held i) ≡ bs

  later : (held : ℕ → Bytes) (n : ℕ) → AllFull held (suc n) → AllFull (λ i. held (suc i)) n
  later held n all i h = all (suc i) (omega arith)

  length-flat : (held : ℕ → Bytes) (n : ℕ) → AllFull held n → length (flat held n) ≡ n * bs
  unfolding flat
  length-flat held zero all = omega arith
  length-flat held (suc n) all =
      let first = all 0 (omega arith) in
      let rest = length-flat (λ i. held (suc i)) n (later held n all) in
      omega (arith, length-append {0} (held 0) (flat (λ i. held (suc i)) n), first, rest)

  slice-flat :
      (held : ℕ → Bytes) (q n r t : ℕ)
      → AllFull held n
      → q < n
      → r + t ≤ bs
      → slice (flat held n) (q * bs + r) t ≡ slice (held q) r t
  unfolding flat
  slice-flat held q zero r t all h fits = absurd (omega arith)
  slice-flat held zero (suc n) r t all h fits =
      let first = all 0 (omega arith) in
      let e : 0 * bs + r ≡ r = omega arith in
      ap (λ (o : ℕ). slice (flat held (suc n)) o t) e
      ∙ slice_left (held 0) (flat (λ i. held (suc i)) n) r t (omega (arith, first))
  slice-flat held (suc q) (suc n) r t all h fits =
      let first = all 0 (omega arith) in
      let e : suc q * bs + r ≡ length (held 0) + (q * bs + r) = omega (arith, first) in
      ap (λ (o : ℕ). slice (flat held (suc n)) o t) e
      ∙ ap (take t) (drop-append (held 0) (flat (λ i. held (suc i)) n) (q * bs + r))
      ∙ slice-flat (λ i. held (suc i)) q n r t (later held n all) (omega arith) fits

module _ (fs : Fs) (inode : Bytes) (held : ℕ → Bytes) (n : ℕ) (s : Stored fs inode held n) where
  abbrev bs : ℕ
  bs = fs.block_size

  chunk-slice :
      (o m : ℕ)
      → o < n * bs
      → slice (held (o / bs)) (o % bs) (chunk fs inode o m)
        ≡ slice (flat held n) o (chunk fs inode o m)
  chunk-slice o m h =
      let small = mod-lt o s.blocks in
      let e : o / bs * bs + o % bs ≡ o = div-add-mod' o bs in
      sym (
        slice-flat bs held (o / bs) n (o % bs) (chunk fs inode o m) s.full
          ((div-lt_iff_lt-mul s.blocks).1 h) (omega (arith, small)))
      ∙ ap (λ (p : ℕ). slice (flat held n) p (chunk fs inode o m)) e

  read_blocks_lem :
      (fuel o m : ℕ)
      → m ≤ fuel
      → o + m ≤ n * bs
      → read_blocks fuel fs inode o m ≡ some (slice (flat held n) o m)
  unfolding read_blocks
  read_blocks_lem zero o zero f h = refl
  read_blocks_lem zero o (suc m) f h = absurd (omega arith)
  read_blocks_lem (suc fuel) o zero f h = refl
  read_blocks_lem (suc fuel) o (suc m) f h =
      let t = chunk fs inode o (suc m) in
      let small = mod-lt o s.blocks in
      let sum : t + (suc m - t) ≡ suc m = omega (arith, small) in
      let rest =
        read_blocks_lem fuel (o + t) (suc m - t) (omega (arith, small)) (omega (arith, small)) in
      let size : length (slice (flat held n) o t) ≡ t =
        length-slice_in (flat held n) o t (omega (arith, length-flat bs held n s.full)) in
      read_blocks_step fs inode fuel o m
      ∙ ap (onward fs inode (read_blocks fuel fs inode) o (suc m))
          (s.at_block (o / bs) ((div-lt_iff_lt-mul s.blocks).1 (omega arith)))
      ∙ ap (before (slice (held (o / bs)) (o % bs) t)) rest
      ∙ ap (λ (xs : Bytes). some (xs ++ slice (flat held n) (o + t) (suc m - t)))
          (chunk-slice o (suc m) (omega arith))
      ∙ ap (λ (k : ℕ). some (slice (flat held n) o t ++ slice (flat held n) (o + k) (suc m - t)))
          (sym size)
      ∙ ap (λ (xs : Bytes). some xs) (slice_more (flat held n) o t (suc m - t))
      ∙ ap (λ (k : ℕ). some (slice (flat held n) o k)) sum

  abbrev size : ℕ
  size = i_size inode

  abbrev file : Bytes
  file = take size (flat held n)

  abbrev result : Bytes → ℤ × Bytes
  result xs = (pos (length xs), xs)

  asked : (o m : ℕ) → o < size → (if ltb size (o + m) then size - o else m) ≡ min m (size - o)
  asked o m h = ground arith

  -- What a read gets is the part of what it asks for that lies in the file.
  read_from_lem :
      (o m : ℕ) → size ≤ n * bs → read_from fs o m (some inode) ≡ result (slice file o m)
  read_from_lem o m fits = elim (Bool-cases (leb size o)) [
    | inl e ↦
        let none_left : min m (size - o) ≡ 0 = omega (tests, e) in
        ap (λ (b : Bool). if b then (pos 0, []) else inside) e
        ∙ ap result (sym (slice-take (flat held n) size o m ∙ ap (slice (flat held n) o) none_left))
    | inr e ↦
        let h : o < size = ground arith in
        ap (λ (b : Bool). if b then (pos 0, []) else inside) e
        ∙ ap (λ (k : ℕ). counted_bytes (read_blocks k fs inode o k)) (asked o m h)
        ∙ ap counted_bytes
            (read_blocks_lem (min m (size - o)) o (min m (size - o)) (omega arith) (omega arith))
        ∙ ap result (sym (slice-take (flat held n) size o m))
  ]
    where
      inside : ℤ × Bytes
      inside =
          let k = if ltb size (o + m) then size - o else m in
          counted_bytes (read_blocks k fs inode o k)

  -- Let the inode be readable, and the blocks of its file, where a hole stands for zeros and a block
  -- beyond the twelfth is found through one or two pointer blocks, be readable and as long as a
  -- block is, as far as the file's size goes. Then ext2_read of `m` bytes at `o` returns the number
  -- of the bytes that the file has there, up to `m`, and stores just these.
  pub ext2_read_lem :
      (ino o m : ℕ)
      → read_inode fs ino ≡ some inode
      → size ≤ n * bs
      → ext2_read fs ino o m ≡ (pos (length (slice file o m)), slice file o m)
  unfolding ext2_read
  ext2_read_lem ino o m e fits = ap (read_from fs o m) e ∙ read_from_lem o m fits
