-- ===== src/Ext2/Put.antt =====
-- A directory entry of ext2 put into a block: its fields, and what is kept.
use aether_os.Prelude.{
  ℕ, ◌+◌, ◌/◌, ◌%◌, ◌≤◌, ◌<◌, ◌≡◌, ◌⊎◌, inl, inr, ◌∙◌, arith, length, set, length-set,
  get_or-set_self, get_or-set_other, u32_mod, u16_mod,
}
use aether_os.Prelude.Slices.{slice}
use aether_os.Ext2.Layout.{Bytes, byte_at, le16, le32, put16, put32}
use aether_os.Ext2.Splices.{length-splice, slice-splice, slice-splice_before, slice-splice_after}
use aether_os.Ext2.Dirs.{put_name, de_inode, de_rec_len, de_name_len}
use aether_os.Ext2.Entries.{Agree, slice-set, byte-Agree, le16-Agree, le32-Agree}

-- The bytes from `i` on, `n` of them, stay clear of the `m` bytes from `o` on.
abbrev pub Clear : ℕ → ℕ → ℕ → ℕ → Type 0
Clear i n o m = (i + n ≤ o) ⊎ (o + m ≤ i)

pub put16-Agree : (b : Bytes) (i v o m : ℕ) → Clear i 2 o m → Agree (put16 b i v) b o m
put16-Agree b i v o m c =
    slice-set (set b i (v % 256)) (i + 1) (v / 256 % 256) o m (ground (arith, c))
    ∙ slice-set b i (v % 256) o m (ground (arith, c))

pub put32-Agree : (b : Bytes) (i v o m : ℕ) → Clear i 4 o m → Agree (put32 b i v) b o m
unfolding put32
put32-Agree b i v o m c =
    put16-Agree (put16 b i (v % 65536)) (i + 2) (v / 65536 % 65536) o m (ground (arith, c))
    ∙ put16-Agree b i (v % 65536) o m (ground (arith, c))

pub length-put16 : (b : Bytes) (i v : ℕ) → length (put16 b i v) ≡ length b
length-put16 b i v = length-set (set b i (v % 256)) (i + 1) _ ∙ length-set b i _

pub length-put32 : (b : Bytes) (i v : ℕ) → length (put32 b i v) ≡ length b
unfolding put32
length-put32 b i v = length-put16 (put16 b i (v % 65536)) (i + 2) _ ∙ length-put16 b i _

pub le16-put16 : (b : Bytes) (i v : ℕ) → i + 2 ≤ length b → v < u16_mod → le16 (put16 b i v) i ≡ v
le16-put16 b i v fits small =
    let low : byte_at (put16 b i v) i ≡ v % 256 =
      get_or-set_other (set b i (v % 256)) (i + 1) i (v / 256 % 256) 0 (omega arith)
      ∙ get_or-set_self b i (v % 256) 0 (omega arith) in
    let high : byte_at (put16 b i v) (i + 1) ≡ v / 256 % 256 =
      get_or-set_self (set b i (v % 256)) (i + 1) (v / 256 % 256) 0
        (omega (arith, length-set b i (v % 256))) in
    omega (arith, low, high)

pub le32-put32 : (b : Bytes) (i v : ℕ) → i + 4 ≤ length b → v < u32_mod → le32 (put32 b i v) i ≡ v
unfolding le32 put32
le32-put32 b i v fits small =
    let low : le16 (put32 b i v) i ≡ v % 65536 =
      le16-Agree (put32 b i v) (put16 b i (v % 65536)) i 2 i
        (put16-Agree (put16 b i (v % 65536)) (i + 2) (v / 65536 % 65536) i 2 (inr (omega arith)))
        (omega arith) (omega arith)
      ∙ le16-put16 b i (v % 65536) (omega arith) (omega arith) in
    let high : le16 (put32 b i v) (i + 2) ≡ v / 65536 % 65536 =
      le16-put16 (put16 b i (v % 65536)) (i + 2) (v / 65536 % 65536)
        (omega (arith, length-put16 b i (v % 65536))) (omega arith) in
    omega (arith, low, high)

module _ (b : Bytes) (p child : ℕ) (name : Bytes) (ftype : ℕ)
    (fits : p + 8 + length name ≤ length b) where
  abbrev with_header : Bytes
  with_header = set (set (put32 b p child) (p + 6) (length name)) (p + 7) ftype

  length-header : length with_header ≡ length b
  length-header =
      length-set (set (put32 b p child) (p + 6) (length name)) (p + 7) ftype
      ∙ length-set (put32 b p child) (p + 6) (length name)
      ∙ length-put32 b p child

  name_fits : p + 8 + length name ≤ length with_header
  name_fits = omega (arith, length-header)

  abbrev put : Bytes
  put = put_name b p child name ftype

  pub length-put_name : length put ≡ length b
  unfolding put_name
  length-put_name = length-splice with_header (p + 8) name name_fits ∙ length-header

  header-Agree : (o m : ℕ) → Clear p 4 o m → Clear (p + 6) 2 o m → Agree with_header b o m
  header-Agree o m c d =
      slice-set (set (put32 b p child) (p + 6) (length name)) (p + 7) ftype o m (ground (arith, d))
      ∙ slice-set (put32 b p child) (p + 6) (length name) o m (ground (arith, d))
      ∙ put32-Agree b p child o m c

  -- What stands before the entry, behind its name, and in `rec_len` is kept.
  pub before-Agree : (o m : ℕ) → o + m ≤ p → Agree put b o m
  unfolding put_name
  before-Agree o m h =
      slice-splice_before with_header (p + 8) name name_fits o m (omega arith)
      ∙ header-Agree o m (inr h) (inr (omega arith))

  pub behind-Agree : (o m : ℕ) → p + 8 + length name ≤ o → Agree put b o m
  unfolding put_name
  behind-Agree o m h =
      slice-splice_after with_header (p + 8) name name_fits o m h
      ∙ header-Agree o m (inl (omega arith)) (inl (omega arith))

  pub put_rec_len : de_rec_len put p ≡ de_rec_len b p
  unfolding put_name
  put_rec_len =
      le16-Agree put b (p + 4) 2 (p + 4)
        (slice-splice_before with_header (p + 8) name name_fits (p + 4) 2 (omega arith)
          ∙ header-Agree (p + 4) 2 (inl (omega arith)) (inr (omega arith)))
        (omega arith) (omega arith)

  pub put_inode : child < u32_mod → de_inode put p ≡ child
  unfolding put_name
  put_inode small =
      le32-Agree put (put32 b p child) p 4 p
        (slice-splice_before with_header (p + 8) name name_fits p 4 (omega arith)
          ∙ slice-set (set (put32 b p child) (p + 6) (length name)) (p + 7) ftype p 4
              (inr (omega arith))
          ∙ slice-set (put32 b p child) (p + 6) (length name) p 4 (inr (omega arith)))
        (omega arith) (omega arith)
      ∙ le32-put32 b p child (omega (arith, fits)) small

  pub put_len : de_name_len put p ≡ length name
  unfolding put_name
  put_len =
      byte-Agree put with_header p 8 (p + 6)
        (slice-splice_before with_header (p + 8) name name_fits p 8 (omega arith)) (omega arith)
        (omega arith)
      ∙ get_or-set_other (set (put32 b p child) (p + 6) (length name)) (p + 7) (p + 6) ftype 0
          (omega arith)
      ∙ get_or-set_self (put32 b p child) (p + 6) (length name) 0
          (omega (arith, fits, length-put32 b p child))

  pub put_bytes_of_name : slice put (p + 8) (length name) ≡ name
  unfolding put_name
  put_bytes_of_name = slice-splice with_header (p + 8) name name_fits
