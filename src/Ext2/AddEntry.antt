-- ===== src/Ext2/AddEntry.antt =====
-- What an entry that is added to a directory block of ext2 changes for the searches; an entry in
-- the place of a deleted one.
use aether_os.Prelude.{
  ℕ, zero, suc, ◌+◌, ◌-◌, ◌≤◌, ◌<◌, ◌≡◌, ◌≢◌, sym, ap, ◌∙◌, false, arith, length, u32_mod,
}
use aether_os.Ext2.Layout.{Bytes}
use aether_os.Ext2.Dirs.{de_inode, de_rec_len, entry_size, has_name, put_name}
use aether_os.Ext2.Entries.{Agree, hits, find_entry_next}
use aether_os.Ext2.Scan.{Fits, Fits-dirent_valid, value, Enough, found, found_same}
use aether_os.Ext2.Put.{
  before-Agree, behind-Agree, put_rec_len, put_inode, put_len, put_bytes_of_name,
}
use aether_os.Ext2.Standing.{Stands, Stands-found, Stands-passed}

module _ (end child : ℕ) (name : Bytes) (ftype : ℕ) (used : child ≢ 0)
    (small : child < u32_mod) where
  -- What an entry added from `p` on changes for the searches from there.
  pub record Added (b b' : Bytes) (p : ℕ) : Type 0 where
    pub kept : (o m : ℕ) → o + m ≤ p → Agree b' b o m
    pub new :
        (f' f : ℕ)
        → Enough f' end p
        → Enough f end p
        → found name f end b p ≡ 0
        → found name f' end b' p ≡ child
    pub others :
        (other : Bytes) (f' f : ℕ)
        → other ≢ name
        → Enough f' end p
        → Enough f end p
        → found other f' end b' p ≡ found other f end b p

  -- A block with an entry put at `p`, where the lengths allow it.
  pub put-Stands :
      (b : Bytes) (p : ℕ)
      → length b ≡ end
      → p + 8 ≤ end
      → entry_size (length name) ≤ de_rec_len b p
      → de_rec_len b p ≤ end - p
      → Stands (put_name b p child name ftype) p end child name
  put-Stands b p size header sized inside =
      let fits : p + 8 + length name ≤ length b = omega arith in
      let rec_len = put_rec_len b p child name ftype fits in
      let len = put_len b p child name ftype fits in
      record {
        fits = record {
          header = header;
          sized = omega (arith, rec_len, len);
          inside = omega (arith, rec_len);
        };
        inode = put_inode b p child name ftype fits small;
        len = len;
        bytes = put_bytes_of_name b p child name ftype fits;
      }

  -- A deleted entry is used again.
  pub reuse-Added :
      (b : Bytes) (p : ℕ)
      → length b ≡ end
      → Fits b p end
      → de_inode b p ≡ 0
      → entry_size (length name) ≤ de_rec_len b p
      → Added b (put_name b p child name ftype) p
  reuse-Added b p size f free room = record {
    kept = before-Agree b p child name ftype fits;
    new = new;
    others = others;
  }
    where
      fits : p + 8 + length name ≤ length b
      fits = omega (arith, f.header, f.inside)

      put : Bytes
      put = put_name b p child name ftype

      stands : Stands put p end child name
      stands = put-Stands b p size f.header room f.inside

      new :
          (g' g : ℕ)
          → Enough g' end p
          → Enough g end p
          → found name g end b p ≡ 0
          → found name g' end put p ≡ child
      new zero g e' e z = absurd (omega (arith, f.header))
      new (suc g') g e' e z = Stands-found put p end child name stands used g'

      others :
          (other : Bytes) (g' g : ℕ)
          → other ≢ name
          → Enough g' end p
          → Enough g end p
          → found other g' end put p ≡ found other g end b p
      others other zero g ne e' e = absurd (omega (arith, f.header))
      others other (suc g') zero ne e' e = absurd (omega (arith, f.header))
      others other (suc g') (suc g) ne e' e =
          let dead : hits (has_name other) b p ≡ false = ground (arith, free) in
          let grows : 8 ≤ de_rec_len b p = omega (arith, f.sized) in
          Stands-passed put p end child name stands used other g' ne
          ∙ ap (λ (r : ℕ). found other g' end put (p + r)) (put_rec_len b p child name ftype fits)
          ∙ found_same other end g' g put b (p + de_rec_len b p)
              (λ o m h. behind-Agree b p child name ftype fits o m (omega (arith, h, room)))
              (omega (arith, grows)) (omega (arith, grows))
          ∙ sym (
              ap (value b)
                (find_entry_next (has_name other) g end b p (Fits-dirent_valid b p end f) dead))
