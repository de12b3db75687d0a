-- ===== src/Ext2/Scan.antt =====
-- The walk over the entries of a directory block: what decides it, and rounds enough for it.
use aether_os.Prelude.{
  ℕ, zero, suc, ◌+◌, ◌-◌, ◌*◌, ◌≤◌, ◌<◌, ◌≡◌, refl, sym, ap, ap₂, ◌∙◌, inl, inr, Bool, true, false,
  not, ◌&&◌, Option, none, some, arith, leb, ◌==◌, Bool-cases,
}
use aether_os.Ext2.Layout.{Bytes}
use aether_os.Ext2.Dirs.{
  de_inode, de_rec_len, de_name_len, entry_size, dirent_valid, find_entry, has_name,
}
use aether_os.Ext2.Entries.{
  Agree, Alike, Agree-Alike, Alike-has_name, le16-Agree, hits, find_entry_stop, find_entry_hit,
  find_entry_next,
}

-- What the test of an entry tells.
pub record Fits (b : Bytes) (p end : ℕ) : Type 0 where
  pub header : p + 8 ≤ end
  pub sized : entry_size (de_name_len b p) ≤ de_rec_len b p
  pub inside : de_rec_len b p ≤ end - p

pub dirent_valid-Fits : (b : Bytes) (p end : ℕ) → dirent_valid b p end ≡ true → Fits b p end
unfolding dirent_valid
dirent_valid-Fits b p end v = record {
  header = ground arith;
  sized = ground arith;
  inside = ground arith;
}

pub Fits-dirent_valid : (b : Bytes) (p end : ℕ) → Fits b p end → dirent_valid b p end ≡ true
unfolding dirent_valid
Fits-dirent_valid b p end f =
    let h = f.header in let s = f.sized in let i = f.inside in ground arith

-- The test of an entry reads its lengths only.
pub dirent_valid_same :
    (b' b : Bytes) (p end : ℕ)
    → de_name_len b' p ≡ de_name_len b p
    → de_rec_len b' p ≡ de_rec_len b p
    → dirent_valid b' p end ≡ dirent_valid b p end
unfolding dirent_valid
dirent_valid_same b' b p end e f =
    ap₂ (λ (n r : ℕ). leb (p + 8) end && (leb (entry_size n) r && leb r (end - p))) e f

pub past_end : (b : Bytes) (p end : ℕ) → end < p + 8 → dirent_valid b p end ≡ false
unfolding dirent_valid
past_end b p end h = ground arith

-- The inode that a search has found, 0 for none.
abbrev pub value : Bytes → Option ℕ → ℕ
value b none = 0
value b (some p) = de_inode b p

-- The search has rounds for all entries from `p` on.
abbrev pub Enough : ℕ → ℕ → ℕ → Type 0
Enough fuel end p = end < p + 8 * fuel

abbrev pub found : Bytes → ℕ → ℕ → Bytes → ℕ → ℕ
found name fuel end b p = value b (find_entry (has_name name) fuel end b p)

module _ (name : Bytes) (end : ℕ) where
  -- An entry with the same lengths, inode and name makes no difference.
  pub found_step :
      (g' g : ℕ) (b' b : Bytes) (p : ℕ)
      → Alike b' b p
      → de_rec_len b' p ≡ de_rec_len b p
      → (dirent_valid b p end ≡ true
          → found name g' end b' (p + de_rec_len b p) ≡ found name g end b (p + de_rec_len b p))
      → found name (suc g') end b' p ≡ found name (suc g) end b p
  found_step g' g b' b p alike rec_same later = elim (Bool-cases (dirent_valid b p end)) [
    | inr out ↦
        ap (value b') (find_entry_stop test g' end b' p (valid_same ∙ out))
        ∙ sym (ap (value b) (find_entry_stop test g end b p out))
    | inl v ↦ elim (Bool-cases (hits test b p)) [
      | inl hit ↦
          ap (value b') (find_entry_hit test g' end b' p (valid_same ∙ v) (hit_same ∙ hit))
          ∙ alike.same_inode
          ∙ sym (ap (value b) (find_entry_hit test g end b p v hit))
      | inr miss ↦
          ap (value b') (find_entry_next test g' end b' p (valid_same ∙ v) (hit_same ∙ miss))
          ∙ ap (λ (r : ℕ). found name g' end b' (p + r)) rec_same
          ∙ later v
          ∙ sym (ap (value b) (find_entry_next test g end b p v miss))
    ]
  ]
    where
      test : Bytes → ℕ → Bool
      test = has_name name

      valid_same : dirent_valid b' p end ≡ dirent_valid b p end
      valid_same = dirent_valid_same b' b p end alike.same_len rec_same

      hit_same : hits (has_name name) b' p ≡ hits (has_name name) b p
      hit_same =
          ap₂ (λ (i : ℕ) (t : Bool). not (i == 0) && t) alike.same_inode
            (Alike-has_name b' b name p alike)

  -- Nothing is found where no entry fits.
  pub found_stop :
      (fuel : ℕ) (b : Bytes) (p : ℕ) → dirent_valid b p end ≡ false → found name fuel end b p ≡ 0
  unfolding find_entry
  found_stop zero b p e = refl
  found_stop (suc fuel) b p e = ap (value b) (find_entry_stop (has_name name) fuel end b p e)

  -- Two blocks that agree from `p` on.
  pub found_same :
      (f' f : ℕ) (b' b : Bytes) (p : ℕ)
      → ((o m : ℕ) → p ≤ o → Agree b' b o m)
      → Enough f' end p
      → Enough f end p
      → found name f' end b' p ≡ found name f end b p
  found_same zero f b' b p same e' e =
      found_stop 0 b' p (past_end b' p end (omega arith))
      ∙ sym (found_stop f b p (past_end b p end (omega arith)))
  found_same (suc f') zero b' b p same e' e =
      found_stop (suc f') b' p (past_end b' p end (omega arith))
      ∙ sym (found_stop 0 b p (past_end b p end (omega arith)))
  found_same (suc f') (suc f) b' b p same e' e =
      found_step f' f b' b p
        (Agree-Alike b' b p (8 + de_name_len b p) (same p (8 + de_name_len b p) (omega arith))
          (omega arith))
        (le16-Agree b' b p 8 (p + 4) (same p 8 (omega arith)) (omega arith) (omega arith))
        (λ v.
          let fits = dirent_valid-Fits b p end v in
          let grows : 8 ≤ de_rec_len b p = omega (arith, fits.sized) in
          found_same f' f b' b (p + de_rec_len b p) (λ o m h. same o m (omega (arith, grows, h)))
            (omega (arith, grows)) (omega (arith, grows)))
