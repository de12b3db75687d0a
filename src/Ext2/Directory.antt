-- ===== src/Ext2/Directory.antt =====
-- A directory block of ext2 as a map from names to inodes: adding an entry.
use native.Mathlib.Decide.{ℕ_discrete}
use aether_os.Prelude.{
  ℕ, zero, suc, ◌+◌, ◌-◌, ◌≤◌, ◌<◌, ◌≡◌, ◌≢◌, refl, sym, subst, ap, ap₂, ◌∙◌, inl, inr, Bool, true,
  false, not, ◌&&◌, Option, none, some, arith, length, leb, ◌==◌, if◌then◌else◌, Bool-cases,
  u16_mod, u32_mod,
}
use aether_os.Ext2.Layout.{Bytes, put16}
use aether_os.Ext2.Dirs.{
  de_inode, de_rec_len, de_name_len, entry_size, dirent_valid, has_name, add_to_block, put_name,
  dir_find_in_block, find_entry,
}
use aether_os.Ext2.Entries.{
  Agree, Alike, Agree-Alike, Alike-has_name, le16-Agree, hits, find_entry_hit, find_entry_next,
}
use aether_os.Ext2.Scan.{
  Fits, dirent_valid-Fits, Fits-dirent_valid, value, Enough, found, found_step, dirent_valid_same,
}
use aether_os.Ext2.AddEntry.{Added, reuse-Added}
use aether_os.Ext2.AppendEntry.{append-Added}

module _ (end child : ℕ) (name : Bytes) (ftype : ℕ) (used : child ≢ 0) (small : child < u32_mod)
    (b : Bytes) (size : length b ≡ end) (word : end < u16_mod) where
  abbrev reusable : ℕ → Bool
  reusable p = de_inode b p == 0 && leb (entry_size (length name)) (de_rec_len b p)

  abbrev roomy : ℕ → Bool
  roomy p =
      leb end (p + de_rec_len b p)
      && (not (de_inode b p == 0)
          && leb (entry_size (length name)) (de_rec_len b p - entry_size (de_name_len b p)))

  -- An entry added behind the one at `p`.
  next-Added :
      (b' : Bytes) (p : ℕ)
      → Fits b p end
      → Added end child name ftype used small b b' (p + de_rec_len b p)
      → Added end child name ftype used small b b' p
  next-Added b' p f a = record {
    kept = λ o m h. a.kept o m (omega (arith, h));
    new = new;
    others = others;
  }
    where
      whole : Agree b' b p (de_rec_len b p)
      whole = a.kept p (de_rec_len b p) (omega arith)

      alike : Alike b' b p
      alike = Agree-Alike b' b p (de_rec_len b p) whole (omega (arith, f.sized))

      rec_same : de_rec_len b' p ≡ de_rec_len b p
      rec_same =
          le16-Agree b' b p (de_rec_len b p) (p + 4) whole (omega arith) (omega (arith, f.sized))

      valid : dirent_valid b p end ≡ true
      valid = Fits-dirent_valid b p end f

      grows : 8 ≤ de_rec_len b p
      grows = omega (arith, f.sized)

      others :
          (other : Bytes) (g' g : ℕ)
          → other ≢ name
          → Enough g' end p
          → Enough g end p
          → found other g' end b' p ≡ found other g end b p
      others other zero g ne e' e = absurd (omega (arith, f.header))
      others other (suc g') zero ne e' e = absurd (omega (arith, f.header))
      others other (suc g') (suc g) ne e' e =
          found_step other end g' g b' b p alike rec_same
            (λ v. a.others other g' g ne (omega (arith, grows, e')) (omega (arith, grows, e)))

      new :
          (g' g : ℕ)
          → Enough g' end p
          → Enough g end p
          → found name g end b p ≡ 0
          → found name g' end b' p ≡ child
      new zero g e' e z = absurd (omega (arith, f.header))
      new (suc g') zero e' e z = absurd (omega (arith, f.header))
      new (suc g') (suc g) e' e z = elim (Bool-cases (hits (has_name name) b p)) [
        | inl hit ↦
            let i : de_inode b p ≡ 0 =
              sym (ap (value b) (find_entry_hit (has_name name) g end b p valid hit)) ∙ z in
            absurd (ground (arith, hit, i))
        | inr miss ↦
            ap (value b') (
              find_entry_next (has_name name) g' end b' p
                (dirent_valid_same b' b p end alike.same_len rec_same ∙ valid)
                (ap₂ (λ (i : ℕ) (t : Bool). not (i == 0) && t) alike.same_inode
                    (Alike-has_name b' b name p alike)
                  ∙ miss))
            ∙ ap (λ (r : ℕ). found name g' end b' (p + r)) rec_same
            ∙ a.new g' g (omega (arith, grows, e')) (omega (arith, grows, e))
                (sym (ap (value b) (find_entry_next (has_name name) g end b p valid miss)) ∙ z)
      ]

  add_to_block-Added :
      (fuel p : ℕ) (b' : Bytes)
      → add_to_block fuel end name child ftype b p ≡ some b'
      → Added end child name ftype used small b b' p
  unfolding add_to_block
  add_to_block-Added zero p b' h = cc
  add_to_block-Added (suc fuel) p b' h =
      go (dirent_valid b p end) (reusable p) (roomy p)
        (λ e. add_to_block-Added fuel (p + de_rec_len b p) b' e) refl refl refl h
    where
      appended : Bytes
      appended =
          let actual = entry_size (de_name_len b p) in
          let slack = de_rec_len b p - actual in
          put_name (put16 (put16 b (p + 4) actual) (p + actual + 4) slack) (p + actual) child name
            ftype

      rest : Option Bytes
      rest = add_to_block fuel end name child ftype b (p + de_rec_len b p)

      choose : Bool → Bool → Bool → Option Bytes
      choose v r o =
          if v
          then (if r
              then some (put_name b p child name ftype)
              else (if o then some appended else rest))
          else none

      is_it :
          (c : Bytes)
          → some c ≡ some b'
          → Added end child name ftype used small b c p
          → Added end child name ftype used small b b' p
      is_it c e a =
          subst (λ (x : Bytes). Added end child name ftype used small b x p)
            (ap (λ (o : Option Bytes). elim o as (λ _. Bytes) [ none ↦ c | some x ↦ x ]) e) a

      go :
          (v r o : Bool)
          → (rest ≡ some b' → Added end child name ftype used small b b' (p + de_rec_len b p))
          → dirent_valid b p end ≡ v
          → reusable p ≡ r
          → roomy p ≡ o
          → choose v r o ≡ some b'
          → Added end child name ftype used small b b' p
      go false r o later ve re oe e = cc
      go true true o later ve re oe e = is_it (put_name b p child name ftype) e (
          reuse-Added end child name ftype used small b p size (dirent_valid-Fits b p end ve)
            (ground (arith, re)) (ground (arith, re)))
      go true false true later ve re oe e = is_it appended e (
          append-Added end child name ftype used small b p size word (dirent_valid-Fits b p end ve)
            (ground (arith, oe)) (ground (arith, oe)) (ground (arith, oe)))
      go true false false later ve re oe e =
          next-Added b' p (dirent_valid-Fits b p end ve) (later e)

  is_found : (c other : Bytes) → dir_find_in_block c end other ≡ found other end end c 0
  unfolding dir_find_in_block
  is_found c other = go (find_entry (has_name other) end end c 0)
    where
      go : (o : Option ℕ) → elim o as (λ _. ℕ) [ none ↦ 0 | some p ↦ de_inode c p ] ≡ value c o
      go none = refl
      go (some p) = refl

  rounds : (b' : Bytes) → add_to_block end end name child ftype b 0 ≡ some b' → Enough end end 0
  unfolding add_to_block
  rounds b' h = elim (ℕ_discrete end 0) [
    | no ne ↦ omega (arith, ne)
    | yes e ↦
        let none_left : none ≡ some b' =
          subst (λ (k : ℕ). add_to_block k end name child ftype b 0 ≡ some b') e h in
        cc
  ]

  -- Adding a name to a directory block of less than 2^16 bytes in which nothing is found under that
  -- name, for an inode number that is not 0. Where there is room for it, so that a block is returned,
  -- this has the inode under the name, and any other name finds in it what it found before.
  pub add_to_block_lem :
      (b' other : Bytes)
      → add_to_block end end name child ftype b 0 ≡ some b'
      → dir_find_in_block b end name ≡ 0
      → other ≢ name
      → (dir_find_in_block b' end name ≡ child)
        × (dir_find_in_block b' end other ≡ dir_find_in_block b end other)
  add_to_block_lem b' other h absent ne =
      let a = add_to_block-Added end 0 b' h in
      let enough = rounds b' h in
      (
        is_found b' name ∙ a.new end end enough enough (sym (is_found b name) ∙ absent),
        is_found b' other ∙ a.others other end end ne enough enough ∙ sym (is_found b other),
      )
