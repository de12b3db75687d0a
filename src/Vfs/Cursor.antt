-- ===== src/Vfs/Cursor.antt =====
-- Reading a file piece by piece through kernel/fs/vfs.c.
use native.Mathlib.Nat.{mod-eq_of_lt}
use aether_os.Prelude.{
  ℕ, ◌+◌, ◌<◌, ◌≡◌, refl, sym, subst, ap, ◌∙◌, true, Option, none, some, List, [], ◌∷◌, ◌++◌, arith,
  length, length-append, length-set, set, get_or-set_self, add64, u64_mod, ltb, if◌then◌else◌,
}
use aether_os.Prelude.Int.{ℤ, pos}
use aether_os.Prelude.Slices.{slice, slice_more, slice_at, length-slice}
use aether_os.Vfs.{
  FileSystem, Vfs, VfsFile, closed_file, file_at, vfs_read, read_file, read_open, advance,
  open_index, vfs_max_open,
}
use aether_os.Vfs.Slots.{IsSized}

abbrev pub total : List ℕ → ℕ
total [] = 0
total (n ∷ ns) = n + total ns

module _ {F : Type 0} (ops : FileSystem F) where
  -- A read of inode `ino` gives the bytes of `content` that are there.
  abbrev pub Reads : F → ℕ → List ℕ → Type 0
  Reads fs ino content =
      (o n : ℕ) → ops.read fs ino o n ≡ (pos (length (slice content o n)), slice content o n)

  -- Reads of these sizes, one after the other: all bytes, and the state after them.
  pub read_all : Vfs F → ℤ → List ℕ → List ℕ × Vfs F
  read_all v fd [] = ([], v)
  read_all v fd (n ∷ ns) =
      let ((r, bytes), v1) = vfs_read ops v fd n in
      let (rest, v2) = read_all v1 fd ns in (bytes ++ rest, v2)

  -- Slot `i` is open on inode `ino` at offset `o`.
  pub record At (v : Vfs F) (fs : F) (i ino o : ℕ) : Type 0 where
    pub mounted : v.root_fs ≡ some fs
    pub sized : IsSized v.files
    pub slot : i < vfs_max_open
    pub file : file_at v.files i ≡ record { in_use = true; inode = ino; offset = o }

  abbrev moved : Vfs F → ℕ → ℕ → ℕ → Vfs F
  moved v i ino o = record v {
    files = set v.files i (record { in_use = true; inode = ino; offset = o });
  }

  open-At :
      (v : Vfs F) (fs : F) (i ino o : ℕ) → At v fs i ino o → open_index v.files (pos i) ≡ some i
  open-At v fs i ino o a =
      ap (λ (x : Option ℕ). used x) below
      ∙ ap (λ (f : VfsFile). if f.in_use then some i else none) a.file
    where
      used : Option ℕ → Option ℕ
      used none = none
      used (some k) = if (file_at v.files k).in_use then some k else none

      below : (if ltb i vfs_max_open then some i else none) ≡ some i
      below = ground (arith, a.slot)

  read-At :
      (v : Vfs F) (fs : F) (i ino o n : ℕ) (content : List ℕ)
      → At v fs i ino o
      → Reads fs ino content
      → vfs_read ops v (pos i) n ≡ (
        (pos (length (slice content o n)), slice content o n),
        moved v i ino (add64 o (length (slice content o n))),
      )
  unfolding vfs_read
  read-At v fs i ino o n content a r =
      ap (read_open ops v n) (open-At v fs i ino o a)
      ∙ ap (read_file ops v i n) a.mounted
      ∙ ap (λ (f : VfsFile). with_file f (ops.read fs f.inode f.offset n)) a.file
      ∙ ap (with_file (record { in_use = true; inode = ino; offset = o })) (r o n)
    where
      with_file : VfsFile → ℤ × List ℕ → (ℤ × List ℕ) × Vfs F
      with_file f x = (x, record v { files = set v.files i (advance ops f x.0) })

  moved-At :
      (v : Vfs F) (fs : F) (i ino o p : ℕ) → At v fs i ino o → At (moved v i ino p) fs i ino p
  moved-At v fs i ino o p a = record {
    mounted = a.mounted;
    sized = length-set v.files i _ ∙ a.sized;
    slot = a.slot;
    file = get_or-set_self v.files i _ closed_file (omega (arith, a.sized, a.slot));
  }

  -- Let a descriptor be open on an inode at an offset, and let every read of that inode by the file
  -- system give the bytes of `content` that are there; the offset and the size of the content are
  -- below 2^64. Reads through the descriptor, of any sizes, one after the other, give together the
  -- bytes of one read of the sum of the sizes at that offset, and leave the descriptor behind them.
  pub read_all_lem :
      (ns : List ℕ) (v : Vfs F) (fs : F) (i ino o : ℕ) (content : List ℕ)
      → At v fs i ino o
      → Reads fs ino content
      → o < u64_mod
      → length content < u64_mod
      → ((read_all v (pos i) ns).0 ≡ slice content o (total ns))
        × At (read_all v (pos i) ns).1 fs i ino (o + length (slice content o (total ns)))
  unfolding read_all
  read_all_lem [] v fs i ino o content a r l k = (refl, subst (At v fs i ino) (omega arith) a)
  read_all_lem (n ∷ ns) v fs i ino o content a r l k =
      let got = slice content o n in
      let next = add64 o (length got) in
      let here : next ≡ o + length got =
        mod-eq_of_lt {n = o + length got} {m = u64_mod} (omega (arith, length-slice content o n)) in
      let ih =
        read_all_lem ns (moved v i ino next) fs i ino next content (moved-At v fs i ino o next a) r
          (omega (arith, here, length-slice content o n)) k in
      let more = slice_more content o n (total ns) in
      let at_next = slice_at content next (o + length got) (total ns) (total ns) here refl in
      subst
        (λ (x : (ℤ × List ℕ) × Vfs F).
          (x.0.1 ++ (read_all x.1 (pos i) ns).0 ≡ slice content o (total (n ∷ ns)))
          × At (read_all x.1 (pos i) ns).1 fs i ino (o + length (slice content o (total (n ∷ ns)))))
        (sym (read-At v fs i ino o n content a r))
        (
          ap (λ (ys : List ℕ). got ++ ys) (ih.0 ∙ at_next) ∙ more,
          subst (At (read_all (moved v i ino next) (pos i) ns).1 fs i ino)
              (omega (
                arith,
                here,
                ap (λ (ys : List ℕ). length ys) at_next,
                ap (λ (ys : List ℕ). length ys) more,
                length-append {0} got (slice content (o + length got) (total ns)),
              ))
              ih.1,
        )
