-- ===== src/Ext2/Rounds.antt =====
-- The loops of lookup, search and read of ext2 end. A run of a loop is a finite derivation with a constructor for each way
-- through the body, so a loop that does not end has none.
use aether_os.Prelude.{
  ℕ, zero, suc, ◌+◌, ◌%◌, ◌≤◌, ◌<◌, ◌≡◌, ◌≢◌, refl, sym, subst, ◌∙◌, inl, inr, Bool, true, false,
  Option, none, some, [], ◌∷◌, ◌++◌, arith, length, drop, ◌==◌, if◌then◌else◌, Bool-cases,
  length-take, length-drop, u8_mod,
}
use aether_os.Vfs.Path.{slash}
use aether_os.Ext2.Layout.{Bytes}
use aether_os.Ext2.{Fs}
use aether_os.Ext2.Dirs.{
  counted_name, de_rec_len, dirent_valid, find_entry, has_name, dir_find_in_block,
}
use aether_os.Ext2.Lookup.{
  leading, at_nul, past_slash, step_into, lookup_loop, root_ino, ext2_lookup,
}
use aether_os.Ext2.Entries.{hits, find_entry_stop, find_entry_hit, find_entry_next}
use aether_os.Ext2.Scan.{value, Enough, past_end, dirent_valid-Fits}
use aether_os.Ext2.Files.{read_blocks}
use aether_os.Ext2.ReadRounds.{Reads, read_blocks-Reads}

-- The component that `p` points to, and what stands behind it.
abbrev next_name : Bytes → Bytes
next_name p = counted_name (leading p)

abbrev behind_name : Bytes → Bytes
behind_name p = drop (length (leading p)) p

-- A run of the loop of ext2_lookup from an inode and a place in the path to its result.
pub data Looks (fs : Fs) : ℕ → Bytes → Option ℕ → Type 0 where
  arrives : {ino : ℕ} {p : Bytes} → at_nul p ≡ true → Looks fs ino p (some ino)
  skips :
      {ino : ℕ} {p : Bytes} {r : Option ℕ}
      → at_nul p ≡ false
      → length (next_name p) == 0 ≡ true
      → Looks fs ino (drop 1 (behind_name p)) r
      → Looks fs ino p r
  misses :
      {ino : ℕ} {p : Bytes}
      → at_nul p ≡ false
      → length (next_name p) == 0 ≡ false
      → step_into fs ino (next_name p) ≡ none
      → Looks fs ino p none
  descends :
      {ino found : ℕ} {p : Bytes} {r : Option ℕ}
      → at_nul p ≡ false
      → length (next_name p) == 0 ≡ false
      → step_into fs ino (next_name p) ≡ some found
      → Looks fs found (past_slash (behind_name p)) r
      → Looks fs ino p r

-- A run of the loop of dir_find_in_block to the entry that it finds.
pub data Scans (test : Bytes → ℕ → Bool) (end : ℕ) (b : Bytes) : ℕ → Option ℕ → Type 0 where
  stops : {p : ℕ} → dirent_valid b p end ≡ false → Scans test end b p none
  finds : {p : ℕ} → dirent_valid b p end ≡ true → hits test b p ≡ true → Scans test end b p (some p)
  passes :
      {p : ℕ} {r : Option ℕ}
      → dirent_valid b p end ≡ true
      → hits test b p ≡ false
      → Scans test end b (p + de_rec_len b p) r
      → Scans test end b p r

find_entry-Scans :
    (test : Bytes → ℕ → Bool) (end : ℕ) (b : Bytes) (fuel p : ℕ)
    → Enough fuel end p
    → Scans test end b p (find_entry test fuel end b p)
unfolding find_entry
find_entry-Scans test end b zero p e = stops (past_end b p end (omega arith))
find_entry-Scans test end b (suc fuel) p e = elim (Bool-cases (dirent_valid b p end)) [
  | inr out ↦ subst (Scans test end b p) (sym (find_entry_stop test fuel end b p out)) (stops out)
  | inl v ↦ elim (Bool-cases (hits test b p)) [
    | inl hit ↦
        subst (Scans test end b p) (sym (find_entry_hit test fuel end b p v hit)) (finds v hit)
    | inr miss ↦
        let fits = dirent_valid-Fits b p end v in
        subst (Scans test end b p) (sym (find_entry_next test fuel end b p v miss)) (
          passes v miss
            (find_entry-Scans test end b fuel (p + de_rec_len b p) (omega (arith, fits.sized))))
  ]
]

module _ (fs : Fs) where
  -- What a lookup does after a component, given the lookup from some place on.
  abbrev go_on : (ℕ → Bytes → Option ℕ) → ℕ → Bytes → Bytes → Option ℕ
  go_on next cur_ino p rest = elim (step_into fs cur_ino (next_name p)) [
    | none ↦ none
    | some found ↦ next found (past_slash rest)
  ]

  lookup_step :
      (fuel cur_ino : ℕ) (p : Bytes)
      → lookup_loop (suc fuel) fs cur_ino p ≡ (
          if at_nul p
          then some cur_ino
          else (if length (next_name p) == 0
              then lookup_loop fuel fs cur_ino (drop 1 (behind_name p))
              else go_on (lookup_loop fuel fs) cur_ino p (behind_name p)))
  unfolding lookup_loop
  lookup_step fuel cur_ino p = refl

  past-shorter : (p : Bytes) → length (past_slash p) ≤ length p
  past-shorter [] = omega arith
  past-shorter (c ∷ p) = ground arith

  lookup_empty : (f cur_ino : ℕ) → lookup_loop f fs cur_ino [] ≡ some cur_ino
  unfolding lookup_loop
  lookup_empty zero cur_ino = refl
  lookup_empty (suc f) cur_ino = refl

  lookup_at :
      (fuel cur_ino : ℕ) (p : Bytes)
      → at_nul p ≡ true
      → lookup_loop (suc fuel) fs cur_ino p ≡ some cur_ino
  lookup_at fuel cur_ino p e = lookup_step fuel cur_ino p ∙ rw e

  lookup_skip :
      (fuel cur_ino : ℕ) (p : Bytes)
      → at_nul p ≡ false
      → length (next_name p) == 0 ≡ true
      → lookup_loop (suc fuel) fs cur_ino p ≡ lookup_loop fuel fs cur_ino (drop 1 (behind_name p))
  lookup_skip fuel cur_ino p e z = lookup_step fuel cur_ino p ∙ rw (e, z)

  lookup_go :
      (fuel cur_ino : ℕ) (p : Bytes)
      → at_nul p ≡ false
      → length (next_name p) == 0 ≡ false
      → lookup_loop (suc fuel) fs cur_ino p ≡ go_on (lookup_loop fuel fs) cur_ino p (behind_name p)
  lookup_go fuel cur_ino p e z = lookup_step fuel cur_ino p ∙ rw (e, z)

  -- A component that is looked up, given the runs from what it leads to.
  go_on-Looks :
      (next : ℕ → Bytes → Option ℕ) (cur_ino : ℕ) (p : Bytes)
      → at_nul p ≡ false
      → length (next_name p) == 0 ≡ false
      → ((found : ℕ)
          → Looks fs found (past_slash (behind_name p)) (next found (past_slash (behind_name p))))
      → Looks fs cur_ino p (go_on next cur_ino p (behind_name p))
  go_on-Looks next cur_ino p e z later = go (step_into fs cur_ino (next_name p)) refl
    where
      go :
          (o : Option ℕ)
          → step_into fs cur_ino (next_name p) ≡ o
          → Looks fs cur_ino p (elim o as (λ _. Option ℕ) [
            | none ↦ none
            | some found ↦ next found (past_slash (behind_name p))
          ])
      go none s = misses e z s
      go (some found) s = descends e z s (later found)

  -- A round takes a byte of the path or more.
  lookup_loop-Looks :
      (f cur_ino : ℕ) (p : Bytes) → length p ≤ f → Looks fs cur_ino p (lookup_loop f fs cur_ino p)
  lookup_loop-Looks f cur_ino [] h =
      subst (Looks fs cur_ino []) (sym (lookup_empty f cur_ino)) (arrives refl)
  lookup_loop-Looks zero cur_ino (c ∷ p) h = absurd (omega arith)
  lookup_loop-Looks (suc f) cur_ino (c ∷ p) h =
      let q = c ∷ p in
      let left = length-drop (length (leading q)) q in
      elim (Bool-cases (at_nul q)) [
        | inl e ↦ subst (Looks fs cur_ino q) (sym (lookup_at f cur_ino q e)) (arrives e)
        | inr e ↦ elim (Bool-cases (length (next_name q) == 0)) [
          | inl z ↦ subst (Looks fs cur_ino q) (sym (lookup_skip f cur_ino q e z)) (
              skips e z (
                lookup_loop-Looks f cur_ino (drop 1 (behind_name q))
                  (omega (arith, left, length-drop 1 (behind_name q)))))
          | inr z ↦
              let some_left : length (next_name q) ≢ 0 = ground arith in
              let some_read : 1 ≤ length (leading q) =
                omega (arith, some_left, length-take (length (leading q) % u8_mod) (leading q)) in
              subst (Looks fs cur_ino q) (sym (lookup_go f cur_ino q e z)) (
                go_on-Looks (lookup_loop f fs) cur_ino q e z (λ found.
                  lookup_loop-Looks f found (past_slash (behind_name q))
                    (omega (arith, left, some_read, past-shorter (behind_name q)))))
        ]
      ]

-- The call, with the bytes that follow the path in memory.
ext2_lookup-Looks :
    (fs : Fs) (path : Bytes)
    → Looks fs root_ino (path ++ 0 ∷ fs.behind) (ext2_lookup fs (slash ∷ path))
unfolding ext2_lookup
ext2_lookup-Looks fs path =
    lookup_loop-Looks fs (length (path ++ 0 ∷ fs.behind)) root_ino (path ++ 0 ∷ fs.behind)
      (omega arith)

-- The loops of three calls of ext2 end, with the results of the calls, on blocks of one byte or more:
-- the lookup of a path that starts with a slash, whatever is on the disk and stands behind the path
-- in memory; the search of a directory block for a name, whatever the block's bytes are; and the read
-- of `m` bytes from an offset of a file, with the `m` rounds that ext2_read gives its loop.
pub rounds_lem :
    (fs : Fs) (path name block inode : Bytes) (o m : ℕ)
    → 0 < fs.block_size
    → Looks fs root_ino (path ++ 0 ∷ fs.behind) (ext2_lookup fs (slash ∷ path))
      × ((found : Option ℕ) × Scans (has_name name) fs.block_size block 0 found
          × (dir_find_in_block block fs.block_size name ≡ value block found))
      × Reads fs inode o m (read_blocks m fs inode o m)
unfolding dir_find_in_block
rounds_lem fs path name block inode o m pos = (
  ext2_lookup-Looks fs path,
  (
    find_entry (has_name name) fs.block_size fs.block_size block 0,
    find_entry-Scans (has_name name) fs.block_size block fs.block_size 0 (omega arith),
    refl,
  ),
  read_blocks-Reads fs inode m o m pos (omega arith),
)
