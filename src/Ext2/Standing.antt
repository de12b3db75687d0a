-- ===== src/Ext2/Standing.antt =====
-- An entry of a directory block of ext2 with a name, and the searches that meet it.
use aether_os.Prelude.{
  ℕ, suc, ◌+◌, ◌≡◌, ◌≢◌, refl, sym, ap, ap₂, ◌∙◌, inl, inr, Bool, true, not, ◌&&◌, [], ◌∷◌, arith,
  length, ◌==◌, Bool-cases,
}
use aether_os.Prelude.Slices.{slice}
use aether_os.Ext2.Layout.{Bytes, equal_bytes}
use aether_os.Ext2.Dirs.{de_inode, de_rec_len, de_name_len, dirent_valid, has_name}
use aether_os.Ext2.Entries.{hits, find_entry_hit, find_entry_next}
use aether_os.Ext2.Scan.{Fits, Fits-dirent_valid, value, found}

equal_bytes_self : (xs : Bytes) → equal_bytes xs xs ≡ true
unfolding equal_bytes
equal_bytes_self [] = refl
equal_bytes_self (x ∷ xs) = ground (arith, equal_bytes_self xs)

equal_bytes-eq : (xs ys : Bytes) → equal_bytes xs ys ≡ true → xs ≡ ys
unfolding equal_bytes
equal_bytes-eq [] [] e = refl
equal_bytes-eq [] (y ∷ ys) e = cc
equal_bytes-eq (x ∷ xs) [] e = cc
equal_bytes-eq (x ∷ xs) (y ∷ ys) e =
    let h : x ≡ y = ground arith in
    let t : equal_bytes xs ys ≡ true = ground arith in ap₂ ◌∷◌ h (equal_bytes-eq xs ys t)

-- An entry that stands at `p` in a block with an inode and a name.
pub record Stands (b : Bytes) (p end child : ℕ) (name : Bytes) : Type 0 where
  pub fits : Fits b p end
  pub inode : de_inode b p ≡ child
  pub len : de_name_len b p ≡ length name
  pub bytes : slice b (p + 8) (length name) ≡ name

module _ (b : Bytes) (p end child : ℕ) (name : Bytes) (s : Stands b p end child name)
    (used : child ≢ 0) where
  valid : dirent_valid b p end ≡ true
  valid = Fits-dirent_valid b p end s.fits

  -- The search for its name ends at it.
  pub Stands-found : (f : ℕ) → found name (suc f) end b p ≡ child
  Stands-found f = ap (value b) (find_entry_hit (has_name name) f end b p valid hit) ∙ s.inode
    where
      hit : hits (has_name name) b p ≡ true
      hit =
          let live : not (de_inode b p == 0) ≡ true = ground (arith, used, s.inode) in
          let same : (de_name_len b p == length name) ≡ true = ground (arith, s.len) in
          ap₂ (λ (c d : Bool). c && (d && equal_bytes (slice b (p + 8) (length name)) name)) live
            same
          ∙ ap (λ (xs : Bytes). equal_bytes xs name) s.bytes
          ∙ equal_bytes_self name

  -- The search for another name passes it.
  pub Stands-passed :
      (other : Bytes) (f : ℕ)
      → other ≢ name
      → found other (suc f) end b p ≡ found other f end b (p + de_rec_len b p)
  Stands-passed other f ne = elim (Bool-cases (hits (has_name other) b p)) [
    | inr miss ↦ ap (value b) (find_entry_next (has_name other) f end b p valid miss)
    | inl hit ↦
        let len : de_name_len b p ≡ length other = ground arith in
        let same : equal_bytes (slice b (p + 8) (length other)) other ≡ true = ground arith in
        absurd (
          ne (
            sym (equal_bytes-eq (slice b (p + 8) (length other)) other same)
            ∙ ap (slice b (p + 8)) (sym len ∙ s.len)
            ∙ s.bytes))
  ]
