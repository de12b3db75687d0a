-- ===== src/Ext2/Entries.antt =====
-- Directory entries of ext2 read from a part of a block, and the steps of the walk over them.
use aether_os.Prelude.{
  ℕ, zero, suc, ◌+◌, ◌-◌, ◌*◌, ◌≤◌, ◌<◌, ◌≡◌, ◌⊎◌, inl, inr, refl, sym, ap, ap₂, ◌∙◌, Bool, true,
  false, not, ◌&&◌, Option, none, some, [], ◌∷◌, arith, length, set, take, drop, ◌==◌,
  if◌then◌else◌, drop-nil, min, Bool-cases,
}
use aether_os.Prelude.Slices.{slice, slice-take, drop-drop}
use aether_os.Ext2.Layout.{Bytes, byte_at, le16, le32, equal_bytes}
use aether_os.Ext2.Dirs.{de_inode, de_rec_len, de_name_len, dirent_valid, find_entry, has_name}

-- A byte of a block is one of any part that holds it, and so is a part of that part.
byte_of_slice : (b : Bytes) (p m i : ℕ) → i < m → byte_at (slice b p m) i ≡ byte_at b (p + i)
byte_of_slice b p zero i h = absurd (omega arith)
byte_of_slice [] p (suc m) i h = ap (λ (xs : Bytes). byte_at (take (suc m) xs) i) (drop-nil p)
byte_of_slice (x ∷ b) zero (suc m) zero h = refl
byte_of_slice (x ∷ b) zero (suc m) (suc i) h =
    let e : 0 + i ≡ i = omega arith in
    let f : suc i ≡ 0 + suc i = omega arith in
    byte_of_slice b 0 m i (omega arith) ∙ ap (byte_at b) e ∙ ap (byte_at (x ∷ b)) f
byte_of_slice (x ∷ b) (suc p) (suc m) i h =
    let f : suc (p + i) ≡ suc p + i = omega arith in
    byte_of_slice b p (suc m) i h ∙ ap (byte_at (x ∷ b)) f

-- A write outside a part leaves the part as it was.
pub slice-set :
    (b : Bytes) (i v o m : ℕ) → (i < o) ⊎ (o + m ≤ i) → slice (set b i v) o m ≡ slice b o m
slice-set b i v o zero h = refl
slice-set [] i v o (suc m) h = refl
slice-set (x ∷ b) zero v zero (suc m) h = absurd (ground arith)
slice-set (x ∷ b) zero v (suc o) (suc m) h = refl
slice-set (x ∷ b) (suc i) v zero (suc m) h = ap (◌∷◌ x) (slice-set b i v 0 m (inr (ground arith)))
slice-set (x ∷ b) (suc i) v (suc o) (suc m) h = slice-set b i v o (suc m) (ground arith)

-- Two blocks that agree on `m` bytes from `p` on.
abbrev pub Agree : Bytes → Bytes → ℕ → ℕ → Type 0
Agree b' b p m = slice b' p m ≡ slice b p m

pub byte-Agree :
    (b' b : Bytes) (p m k : ℕ) → Agree b' b p m → p ≤ k → k < p + m → byte_at b' k ≡ byte_at b k
byte-Agree b' b p m k same low high =
    let i = k - p in
    let e : p + i ≡ k = omega arith in
    ap (byte_at b') (sym e)
    ∙ sym (byte_of_slice b' p m i (omega arith))
    ∙ ap (λ (xs : Bytes). byte_at xs i) same
    ∙ byte_of_slice b p m i (omega arith)
    ∙ ap (byte_at b) e

pub le16-Agree :
    (b' b : Bytes) (p m k : ℕ) → Agree b' b p m → p ≤ k → k + 2 ≤ p + m → le16 b' k ≡ le16 b k
le16-Agree b' b p m k same low high =
    ap₂ (λ (x y : ℕ). x + 256 * y) (byte-Agree b' b p m k same low (omega arith))
      (byte-Agree b' b p m (k + 1) same (omega arith) (omega arith))

pub le32-Agree :
    (b' b : Bytes) (p m k : ℕ) → Agree b' b p m → p ≤ k → k + 4 ≤ p + m → le32 b' k ≡ le32 b k
unfolding le32
le32-Agree b' b p m k same low high =
    ap₂ (λ (x y : ℕ). x + 65536 * y) (le16-Agree b' b p m k same low (omega arith))
      (le16-Agree b' b p m (k + 2) same (omega arith) (omega arith))

-- A part of a part on which two blocks agree.
pub Agree-part : (b' b : Bytes) (p m o n : ℕ) → Agree b' b p m → o + n ≤ m → Agree b' b (p + o) n
Agree-part b' b p m o n same h = sym (part b') ∙ ap (λ (xs : Bytes). slice xs o n) same ∙ part b
  where
    part : (c : Bytes) → slice (slice c p m) o n ≡ slice c (p + o) n
    part c =
        let e : min n (m - o) ≡ n = omega arith in
        slice-take (drop p c) m o n ∙ ap (slice (drop p c) o) e ∙ ap (take n) (drop-drop o p c)

-- Two blocks in which the entry at `p` has the same inode and name.
pub record Alike (b' b : Bytes) (p : ℕ) : Type 0 where
  pub same_inode : de_inode b' p ≡ de_inode b p
  pub same_len : de_name_len b' p ≡ de_name_len b p
  pub same_name : Agree b' b (p + 8) (de_name_len b p)

pub Alike-has_name :
    (b' b name : Bytes) (p : ℕ) → Alike b' b p → has_name name b' p ≡ has_name name b p
Alike-has_name b' b name p a = elim (Bool-cases (de_name_len b p == length name)) [
  | inl e ↦
      let n : de_name_len b p ≡ length name = ground arith in
      ap₂ (λ (c : ℕ) (xs : Bytes). c == length name && equal_bytes xs name) a.same_len
        (ap (slice b' (p + 8)) (sym n) ∙ a.same_name ∙ ap (slice b (p + 8)) n)
  | inr e ↦
      ap (λ (c : ℕ). c == length name && equal_bytes (slice b' (p + 8) (length name)) name)
        a.same_len
      ∙ ap (λ (c : Bool). c && equal_bytes (slice b' (p + 8) (length name)) name) e
      ∙ sym (ap (λ (c : Bool). c && equal_bytes (slice b (p + 8) (length name)) name) e)
]

pub Agree-Alike : (b' b : Bytes) (p m : ℕ) → Agree b' b p m → 8 + de_name_len b p ≤ m → Alike b' b p
Agree-Alike b' b p m same h = record {
  same_inode = le32-Agree b' b p m p same (omega arith) (omega arith);
  same_len = byte-Agree b' b p m (p + 6) same (omega arith) (omega arith);
  same_name = Agree-part b' b p m 8 (de_name_len b p) same h;
}

-- An entry that counts for a test.
abbrev pub hits : (Bytes → ℕ → Bool) → Bytes → ℕ → Bool
hits test b p = not (de_inode b p == 0) && test b p

module _ (test : Bytes → ℕ → Bool) (fuel end : ℕ) (b : Bytes) (p : ℕ) where
  abbrev rest : Option ℕ
  rest = find_entry test fuel end b (p + de_rec_len b p)

  pub find_entry_stop : dirent_valid b p end ≡ false → find_entry test (suc fuel) end b p ≡ none
  unfolding find_entry
  find_entry_stop e =
      ap (λ (v : Bool). if v then (if hits test b p then some p else rest) else none) e

  pub find_entry_hit :
      dirent_valid b p end ≡ true
      → hits test b p ≡ true
      → find_entry test (suc fuel) end b p ≡ some p
  unfolding find_entry
  find_entry_hit e h = ap₂ (λ (v c : Bool). if v then (if c then some p else rest) else none) e h

  pub find_entry_next :
      dirent_valid b p end ≡ true
      → hits test b p ≡ false
      → find_entry test (suc fuel) end b p ≡ rest
  unfolding find_entry
  find_entry_next e h = ap₂ (λ (v c : Bool). if v then (if c then some p else rest) else none) e h
