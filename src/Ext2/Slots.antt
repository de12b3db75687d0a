-- ===== src/Ext2/Slots.antt =====
-- Where the inodes of ext2 stand, and what the write of one leaves of the others.
use native.Mathlib.Nat.{div-add-mod', mod-lt, mul-le-mul_right, div-mul-le_self}
use native.Mathlib.Decide.{ℕ_discrete, dec_lt}
use aether_os.Prelude.{
  ℕ, suc, ◌+◌, ◌-◌, ◌*◌, ◌/◌, ◌%◌, ◌≤◌, ◌<◌, ◌≡◌, ◌≢◌, refl, sym, subst, ap, ap₂, ◌∙◌, Bool, true,
  false, Option, none, some, arith, length, if◌then◌else◌, ◌==◌,
}
use aether_os.Prelude.Slices.{slice}
use aether_os.Prelude.Store.{store, store_self, store_other}
use aether_os.Ext2.Layout.{Bytes, splice}
use aether_os.Ext2.Splices.{length-splice, slice-splice, slice-splice_before, slice-splice_after}
use aether_os.Ext2.{
  Fs, s_inodes_count, sizeof_inode, sizeof_bgd, bgd_slot, bgd_home, inode_home, inode_group,
  inode_index, inode_offset, read_block, read_bgd, read_inode, inode_via, inode_from,
}

-- The numbers that inodes may have.
abbrev pub IsNumber : Fs → ℕ → Type 0
IsNumber fs i = i ≤ s_inodes_count fs.cached_sb

-- The blocks of the inode tables stay away from the group descriptors, and the inodes from one
-- another.
pub record Laid (fs : Fs) : Type 0 where
  -- Every block has the size of a block, and holds an inode or more.
  pub sized : (b : ℕ) → length (fs.disk b) ≡ fs.block_size
  pub wide : sizeof_inode ≤ fs.inode_size
  pub holds : 0 < fs.block_size / fs.inode_size
  -- No block of an inode table holds group descriptors.
  pub apart :
      (i j : ℕ) (bgd : Bytes)
      → IsNumber fs i
      → IsNumber fs j
      → read_bgd fs (inode_group fs i) ≡ some bgd
      → inode_home fs i bgd ≢ bgd_home fs (inode_group fs j)
  -- A block of an inode table holds one run of inodes of one group.
  pub one_run :
      (i j : ℕ) (bgd bgd' : Bytes)
      → IsNumber fs i
      → IsNumber fs j
      → read_bgd fs (inode_group fs i) ≡ some bgd
      → read_bgd fs (inode_group fs j) ≡ some bgd'
      → inode_home fs i bgd ≡ inode_home fs j bgd'
      → (inode_group fs i ≡ inode_group fs j)
        × (inode_index fs i / (fs.block_size / fs.inode_size)
            ≡ inode_index fs j / (fs.block_size / fs.inode_size))

div_mod_inj : (a b k : ℕ) → a / k ≡ b / k → a % k ≡ b % k → a ≡ b
div_mod_inj a b k e f = sym (div-add-mod' a k) ∙ ap₂ (λ (q r : ℕ). q * k + r) e f ∙ div-add-mod' b k

number_inj : (a b : ℕ) → a ≢ 0 → b ≢ 0 → a - 1 ≡ b - 1 → a ≡ b
number_inj a b h k e = omega (arith, h, k)

-- What read_inode makes of a block that may be read.
from_block :
    (fs : Fs) (j : ℕ) (r : Bool) (blk : Bytes)
    → inode_from fs j (if r then some blk else none)
      ≡ (if r then some (slice blk (inode_offset fs j) sizeof_inode) else none)
from_block fs j true blk = refl
from_block fs j false blk = refl

module _ (fs : Fs) (laid : Laid fs) (ino : ℕ) (bgd inode : Bytes) (known : IsNumber fs ino)
    (found : read_bgd fs (inode_group fs ino) ≡ some bgd) (len : length inode ≡ sizeof_inode) where
  abbrev per_block : ℕ
  per_block = fs.block_size / fs.inode_size

  abbrev home : ℕ
  home = inode_home fs ino bgd

  abbrev new_block : Bytes
  new_block = splice (fs.disk home) (inode_offset fs ino) inode

  abbrev overwritten : Fs
  overwritten = record fs { disk = store fs.disk home new_block }

  -- An inode ends before the next slot starts, and in its block.
  slots_apart : (s t : ℕ) → s < t → s * fs.inode_size + sizeof_inode ≤ t * fs.inode_size
  slots_apart s t h =
      let e : suc s * fs.inode_size ≤ t * fs.inode_size = mul-le-mul_right fs.inode_size h in
      omega (arith, e, laid.wide)

  in_block : inode_offset fs ino + length inode ≤ length (fs.disk home)
  in_block =
      let e = slots_apart (inode_index fs ino % per_block) per_block (mod-lt _ laid.holds) in
      omega (arith, e, div-mul-le_self fs.block_size fs.inode_size, laid.sized home, len)

  bgd_kept :
      (j : ℕ)
      → IsNumber fs j
      → read_bgd overwritten (inode_group fs j) ≡ read_bgd fs (inode_group fs j)
  unfolding read_bgd read_block
  bgd_kept j nj =
      ap
        (λ (blk : Bytes).
          elim (if fs.readable (bgd_home fs (inode_group fs j)) then some blk else none)
            as (λ _. Option Bytes) [
              | none ↦ none
              | some tmp ↦ some (slice tmp (bgd_slot fs (inode_group fs j) * sizeof_bgd) sizeof_bgd)
            ])
        (store_other fs.disk home (bgd_home fs (inode_group fs j)) new_block
          (λ e. laid.apart ino j bgd known nj found (sym e)))

  home_read :
      (j : ℕ) (b : ℕ)
      → inode_from overwritten j (read_block overwritten b) ≡ (
          if fs.readable b
          then some (slice (store fs.disk home new_block b) (inode_offset fs j) sizeof_inode)
          else none)
  unfolding read_block
  home_read j b = from_block overwritten j (fs.readable b) (store fs.disk home new_block b)

  pub self_read : ino ≢ 0 → fs.readable home ≡ true → read_inode overwritten ino ≡ some inode
  unfolding read_inode
  self_read ne r =
      let e : (ino == 0) ≡ false = ground (arith, ne) in
      ap
        (λ (z : Bool).
          if z then none else inode_via overwritten ino (read_bgd overwritten (inode_group fs ino)))
        e
      ∙ ap (inode_via overwritten ino) (bgd_kept ino known ∙ found)
      ∙ home_read ino home
      ∙ ap
          (λ (x : Bool).
            if x
            then some (slice (store fs.disk home new_block home) (inode_offset fs ino) sizeof_inode)
            else none)
          r
      ∙ ap (λ (blk : Bytes). some (slice blk (inode_offset fs ino) sizeof_inode))
          (store_self fs.disk home new_block)
      ∙ ap (λ (n : ℕ). some (slice new_block (inode_offset fs ino) n)) (sym len)
      ∙ ap (λ (xs : Bytes). some xs)
          (slice-splice (fs.disk home) (inode_offset fs ino) inode in_block)

  -- Another inode in the same block stands in another slot.
  slot_kept :
      (j : ℕ) (bgd' : Bytes)
      → IsNumber fs j
      → j ≢ 0
      → ino ≢ 0
      → j ≢ ino
      → read_bgd fs (inode_group fs j) ≡ some bgd'
      → home ≡ inode_home fs j bgd'
      → slice new_block (inode_offset fs j) sizeof_inode
        ≡ slice (fs.disk home) (inode_offset fs j) sizeof_inode
  slot_kept j bgd' nj nz nzi ne there same =
      let run = laid.one_run ino j bgd bgd' known nj found there same in
      let s = inode_index fs ino % per_block in
      let t = inode_index fs j % per_block in
      let differ : s ≢ t = λ e. ne (
        number_inj j ino nz nzi (
          div_mod_inj (j - 1) (ino - 1) fs.inodes_per_group (sym run.0)
            (div_mod_inj (inode_index fs j) (inode_index fs ino) per_block (sym run.1) (sym e)))) in
      elim (dec_lt t s) [
        | yes l ↦
            slice-splice_before (fs.disk home) (inode_offset fs ino) inode in_block
              (inode_offset fs j) sizeof_inode (slots_apart t s l)
        | no nl ↦
            slice-splice_after (fs.disk home) (inode_offset fs ino) inode in_block
              (inode_offset fs j) sizeof_inode
              (subst (λ (k : ℕ). inode_offset fs ino + k ≤ inode_offset fs j) (sym len)
                (slots_apart s t (omega (arith, nl, differ))))
      ]

  block_kept :
      (j : ℕ) (bgd' : Bytes)
      → IsNumber fs j
      → j ≢ 0
      → ino ≢ 0
      → j ≢ ino
      → read_bgd fs (inode_group fs j) ≡ some bgd'
      → slice (store fs.disk home new_block (inode_home fs j bgd')) (inode_offset fs j) sizeof_inode
        ≡ slice (fs.disk (inode_home fs j bgd')) (inode_offset fs j) sizeof_inode
  block_kept j bgd' nj nz nzi ne there = elim (ℕ_discrete home (inode_home fs j bgd')) [
    | yes e ↦
        subst
          (λ (b : ℕ).
            slice (store fs.disk home new_block b) (inode_offset fs j) sizeof_inode
            ≡ slice (fs.disk b) (inode_offset fs j) sizeof_inode)
          e
          (ap (λ (blk : Bytes). slice blk (inode_offset fs j) sizeof_inode)
              (store_self fs.disk home new_block)
            ∙ slot_kept j bgd' nj nz nzi ne there e)
    | no other ↦
        ap (λ (blk : Bytes). slice blk (inode_offset fs j) sizeof_inode)
          (store_other fs.disk home (inode_home fs j bgd') new_block (λ e. other (sym e)))
  ]

  via_kept :
      (j : ℕ) (o : Option Bytes)
      → IsNumber fs j
      → j ≢ 0
      → ino ≢ 0
      → j ≢ ino
      → read_bgd fs (inode_group fs j) ≡ o
      → inode_via overwritten j o ≡ inode_via fs j o
  unfolding read_block
  via_kept j none nj nz nzi ne there = refl
  via_kept j (some bgd') nj nz nzi ne there =
      let b = inode_home fs j bgd' in
      home_read j b
      ∙ ap (λ (xs : Bytes). if fs.readable b then some xs else none)
          (block_kept j bgd' nj nz nzi ne there)
      ∙ sym (from_block fs j (fs.readable b) (fs.disk b))

  pub other_read :
      (j : ℕ) → IsNumber fs j → ino ≢ 0 → j ≢ ino → read_inode overwritten j ≡ read_inode fs j
  unfolding read_inode
  other_read j nj nzi ne = elim (ℕ_discrete j 0) [
    | yes z ↦ unread overwritten j z ∙ sym (unread fs j z)
    | no nz ↦
        ap (λ (x : Option Bytes). if j == 0 then none else x)
          (ap (inode_via overwritten j) (bgd_kept j nj)
            ∙ via_kept j (read_bgd fs (inode_group fs j)) nj nz nzi ne refl)
  ]
    where
      unread : (g : Fs) (k : ℕ) → k ≡ 0 → read_inode g k ≡ none
      unread g k e = subst (λ (i : ℕ). read_inode g i ≡ none) (sym e) refl

  pub after-Laid : Laid overwritten
  after-Laid = record {
    sized = λ b. elim (ℕ_discrete home b) [
      | yes e ↦
          subst (λ (c : ℕ). length (store fs.disk home new_block c) ≡ fs.block_size) e
            (ap (λ (blk : Bytes). length blk) (store_self fs.disk home new_block)
              ∙ length-splice (fs.disk home) (inode_offset fs ino) inode in_block
              ∙ laid.sized home)
      | no ne ↦
          ap (λ (blk : Bytes). length blk) (store_other fs.disk home b new_block (λ e. ne (sym e)))
          ∙ laid.sized b
    ];
    wide = laid.wide;
    holds = laid.holds;
    apart = λ i j bgd' ni nj e. laid.apart i j bgd' ni nj (sym (bgd_kept i ni) ∙ e);
    one_run = λ i j b c ni nj e f.
        laid.one_run i j b c ni nj (sym (bgd_kept i ni) ∙ e) (sym (bgd_kept j nj) ∙ f);
  }
