-- ===== src/Ext2/AppendEntry.antt =====
-- The last entry of a directory block of ext2 is cut to its size, and a new one takes the rest.
use aether_os.Prelude.{
  ℕ, zero, suc, ◌+◌, ◌-◌, ◌≤◌, ◌<◌, ◌≡◌, ◌≢◌, ◌⊎◌, sym, ap, ap₂, ◌∙◌, inl, inr, Bool, true, false,
  not, ◌&&◌, arith, length, ◌==◌, Bool-cases, u16_mod, u32_mod,
}
use aether_os.Ext2.Layout.{Bytes, put16}
use aether_os.Ext2.Dirs.{de_inode, de_rec_len, de_name_len, entry_size, has_name, put_name}
use aether_os.Ext2.Entries.{
  Agree, Alike, Alike-has_name, le16-Agree, le32-Agree, byte-Agree, hits, find_entry_hit,
  find_entry_next,
}
use aether_os.Ext2.Scan.{Fits, Fits-dirent_valid, value, Enough, found, found_stop, past_end}
use aether_os.Ext2.Put.{put16-Agree, length-put16, le16-put16, before-Agree, put_rec_len}
use aether_os.Ext2.Standing.{Stands, Stands-found, Stands-passed}
use aether_os.Ext2.AddEntry.{Added, put-Stands}

module _ (end child : ℕ) (name : Bytes) (ftype : ℕ) (used : child ≢ 0) (small : child < u32_mod)
    (b : Bytes) (p : ℕ) (size : length b ≡ end) (word : end < u16_mod) (f : Fits b p end)
    (live : de_inode b p ≢ 0) (last : end ≤ p + de_rec_len b p)
    (room : entry_size (length name) ≤ de_rec_len b p - entry_size (de_name_len b p)) where
  abbrev actual : ℕ
  actual = entry_size (de_name_len b p)

  abbrev slack : ℕ
  slack = de_rec_len b p - actual

  abbrev at_new : ℕ
  at_new = p + actual

  abbrev cut : Bytes
  cut = put16 (put16 b (p + 4) actual) (at_new + 4) slack

  abbrev appended : Bytes
  appended = put_name cut at_new child name ftype

  cut_size : length cut ≡ end
  cut_size =
      length-put16 (put16 b (p + 4) actual) (at_new + 4) slack
      ∙ length-put16 b (p + 4) actual
      ∙ size

  name_fits : at_new + 8 + length name ≤ length cut
  name_fits = omega (arith, cut_size, f.header, f.inside, f.sized, room)

  new_rec_len : de_rec_len cut at_new ≡ slack
  new_rec_len =
      le16-put16 (put16 b (p + 4) actual) (at_new + 4) slack
        (omega (arith, length-put16 b (p + 4) actual, size, f.inside, f.header, f.sized, room))
        (omega (arith, f.inside, word))

  -- What is kept of the block up to the new entry, but for the length of the last one.
  appended-Agree : (o m : ℕ) → o + m ≤ at_new → (p + 6 ≤ o) ⊎ (o + m ≤ p + 4) → Agree appended b o m
  appended-Agree o m h c =
      before-Agree cut at_new child name ftype name_fits o m h
      ∙ put16-Agree (put16 b (p + 4) actual) (at_new + 4) slack o m (inr (omega arith))
      ∙ put16-Agree b (p + 4) actual o m (ground (arith, c))

  alike : Alike appended b p
  alike = record {
    same_inode =
        le32-Agree appended b p 4 p (appended-Agree p 4 (omega arith) (inr (omega arith)))
          (omega arith) (omega arith);
    same_len =
        byte-Agree appended b (p + 6) 1 (p + 6)
          (appended-Agree (p + 6) 1 (omega arith) (inl (omega arith))) (omega arith) (omega arith);
    same_name = appended-Agree (p + 8) (de_name_len b p) (omega arith) (inl (omega arith));
  }

  last_rec_len : de_rec_len appended p ≡ actual
  last_rec_len =
      le16-Agree appended (put16 b (p + 4) actual) (p + 4) 2 (p + 4)
        (before-Agree cut at_new child name ftype name_fits (p + 4) 2 (omega arith)
          ∙ put16-Agree (put16 b (p + 4) actual) (at_new + 4) slack (p + 4) 2 (inr (omega arith)))
        (omega arith) (omega arith)
      ∙ le16-put16 b (p + 4) actual (omega (arith, size, f.header))
          (omega (arith, f.sized, f.inside, word))

  last-Fits : Fits appended p end
  last-Fits = record {
    header = f.header;
    sized = omega (arith, alike.same_len, last_rec_len);
    inside = omega (arith, last_rec_len, f.sized, f.inside);
  }

  new-Stands : Stands appended at_new end child name
  new-Stands =
      put-Stands end child name ftype used small cut at_new cut_size
        (omega (arith, cut_size, name_fits)) (omega (arith, new_rec_len, room))
        (omega (arith, new_rec_len, f.sized, f.inside))

  new_ends : end < at_new + de_rec_len appended at_new + 8
  new_ends =
      omega (arith, put_rec_len cut at_new child name ftype name_fits, new_rec_len, last, f.sized)

  -- Whether a name is that of the last entry is as before.
  hit_same : (other : Bytes) → hits (has_name other) appended p ≡ hits (has_name other) b p
  hit_same other =
      ap₂ (λ (i : ℕ) (t : Bool). not (i == 0) && t) alike.same_inode
        (Alike-has_name appended b other p alike)

  found_last :
      (other : Bytes) (g' g : ℕ)
      → hits (has_name other) b p ≡ true
      → (found other (suc g') end appended p ≡ de_inode b p)
        × (found other (suc g) end b p ≡ de_inode b p)
  found_last other g' g hit = (
    ap (value appended) (
          find_entry_hit (has_name other) g' end appended p
            (Fits-dirent_valid appended p end last-Fits) (hit_same other ∙ hit))
        ∙ alike.same_inode,
    ap (value b) (find_entry_hit (has_name other) g end b p (Fits-dirent_valid b p end f) hit),
  )

  past_last :
      (other : Bytes) (g' g : ℕ)
      → hits (has_name other) b p ≡ false
      → (found other (suc g') end appended p ≡ found other g' end appended at_new)
        × (found other (suc g) end b p ≡ 0)
  past_last other g' g miss = (
    ap (value appended) (
          find_entry_next (has_name other) g' end appended p
            (Fits-dirent_valid appended p end last-Fits) (hit_same other ∙ miss))
        ∙ ap (λ (r : ℕ). found other g' end appended (p + r)) last_rec_len,
    ap (value b) (find_entry_next (has_name other) g end b p (Fits-dirent_valid b p end f) miss)
        ∙ found_stop other end g b (p + de_rec_len b p)
            (past_end b (p + de_rec_len b p) end (omega (arith, last))),
  )

  pub append-Added : Added end child name ftype used small b appended p
  append-Added = record {
    kept = λ o m h. appended-Agree o m (omega (arith, h)) (inr (omega (arith, h)));
    new = new;
    others = others;
  }
    where
      ends : Stands appended at_new end child name → at_new + 8 ≤ end
      ends s = s.fits.header

      new :
          (g' g : ℕ)
          → Enough g' end p
          → Enough g end p
          → found name g end b p ≡ 0
          → found name g' end appended p ≡ child
      new zero g e' e z = absurd (omega (arith, f.header))
      new (suc zero) g e' e z = absurd (omega (arith, ends new-Stands))
      new (suc (suc g')) zero e' e z = absurd (omega (arith, f.header))
      new (suc (suc g')) (suc g) e' e z = elim (Bool-cases (hits (has_name name) b p)) [
        | inl hit ↦ absurd (live (sym (found_last name 0 g hit).1 ∙ z))
        | inr miss ↦
            (past_last name (suc g') g miss).0
            ∙ Stands-found appended at_new end child name new-Stands used g'
      ]

      others :
          (other : Bytes) (g' g : ℕ)
          → other ≢ name
          → Enough g' end p
          → Enough g end p
          → found other g' end appended p ≡ found other g end b p
      others other zero g ne e' e = absurd (omega (arith, f.header))
      others other (suc g') zero ne e' e = absurd (omega (arith, f.header))
      others other (suc zero) (suc g) ne e' e = absurd (omega (arith, ends new-Stands))
      others other (suc (suc g')) (suc g) ne e' e = elim (Bool-cases (hits (has_name other) b p)) [
        | inl hit ↦ (found_last other (suc g') g hit).0 ∙ sym (found_last other (suc g') g hit).1
        | inr miss ↦
            (past_last other (suc g') g miss).0
            ∙ Stands-passed appended at_new end child name new-Stands used other g' ne
            ∙ found_stop other end g' appended (at_new + de_rec_len appended at_new)
                (past_end appended (at_new + de_rec_len appended at_new) end new_ends)
            ∙ sym (past_last other (suc g') g miss).1
      ]
