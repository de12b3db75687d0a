-- ===== src/Vfs/OpenEx.antt =====
-- vfs_open_ex of kernel/fs/vfs.c, on every branch.
use native.Mathlib.Decide.{ℕ_discrete}
use aether_os.Prelude.{
  Option-cases, Bool-cases, inl, inr, ℕ, ◌≡◌, ◌≢◌, refl, sym, subst, ap, ◌∙◌, Bool, true, false,
  Option, none, some, List, arith, ◌==◌, if◌then◌else◌,
}
use aether_os.Prelude.Int.{ℤ, minus_one}
use aether_os.Vfs.{
  FileSystem, Vfs, created, target, open_target, vfs_open_ex, resolved, o_creat, o_trunc, o_append,
  euid_of, egid_of,
}
use aether_os.Vfs.Slots.{IsSized, Takes, take_slot-Takes}

module _ {F : Type 0} (ops : FileSystem F) (v : Vfs F) (fs : F) (path : Option (List ℕ))
    (flags : ℕ) where
  -- The state with another file system.
  abbrev pub on : F → Vfs F
  on g = record v { root_fs = some g }

  -- What O_CREAT makes.
  abbrev pub fresh : ℕ × F
  fresh = ops.create fs (resolved ops v path) (euid_of v.caller) (egid_of v.caller)

  -- The offset that the flags ask for.
  abbrev pub first_offset : F → ℕ → ℕ
  first_offset g ino = if o_append ops flags then ops.file_size g ino else 0

  opened :
      v.root_fs ≡ some fs
      → vfs_open_ex ops v path flags
        ≡ open_target ops v flags (target ops v fs (resolved ops v path) flags)
  unfolding vfs_open_ex
  opened m =
      ap
        (λ (r : Option F). elim r as (λ _. ℤ × Vfs F) [
          | none ↦ (minus_one, v)
          | some g ↦ open_target ops v flags (target ops v g (resolved ops v path) flags)
        ])
        m

  target_found :
      (ino : ℕ)
      → ops.lookup fs (resolved ops v path) ≡ some ino
      → target ops v fs (resolved ops v path) flags
        ≡ (some ino, if o_trunc ops flags then (ops.truncate fs ino).1 else fs)
  unfolding target
  target_found ino e = rw (e, target) refl

  target_missing :
      ops.lookup fs (resolved ops v path) ≡ none
      → target ops v fs (resolved ops v path) flags
        ≡ (if o_creat ops flags then created ops fresh else (none, fs))
  unfolding target
  target_missing e = rw (e, target) refl

  -- The call on each branch.
  branches :
      v.root_fs ≡ some fs
      → IsSized v.files
      → (ops.lookup fs (resolved ops v path) ≡ none
          → o_creat ops flags ≡ false
          → vfs_open_ex ops v path flags ≡ (minus_one, v))
        × (ops.lookup fs (resolved ops v path) ≡ none
            → o_creat ops flags ≡ true
            → fresh.0 ≡ 0
            → vfs_open_ex ops v path flags ≡ (minus_one, on fresh.1))
        × (ops.lookup fs (resolved ops v path) ≡ none
            → o_creat ops flags ≡ true
            → fresh.0 ≢ 0
            → Takes
                (on fresh.1)
                fresh.0
                (first_offset fresh.1 fresh.0)
                (vfs_open_ex ops v path flags))
        × ((ino : ℕ)
            → ops.lookup fs (resolved ops v path) ≡ some ino
            → let g = if o_trunc ops flags then (ops.truncate fs ino).1 else fs in
              Takes (on g) ino (first_offset g ino) (vfs_open_ex ops v path flags))
  branches m size = (
    (λ e c.
        opened m
        ∙ ap (open_target ops v flags)
            (target_missing e ∙ ap (λ (b : Bool). if b then created ops fresh else (none, fs)) c)
        ∙ ap (λ (r : Option F). (minus_one, record v { root_fs = r })) (sym m)),
    (λ e c z.
        opened m
        ∙ ap (open_target ops v flags) (target_missing e ∙ made e c)
        ∙ ap (λ (b : Bool). open_target ops v flags (if b then none else some fresh.0, fresh.1))
            (zero_test z)),
    (λ e c z.
        subst (Takes (on fresh.1) fresh.0 (first_offset fresh.1 fresh.0))
          (sym (
            opened m
            ∙ ap (open_target ops v flags) (target_missing e ∙ made e c)
            ∙ ap (λ (b : Bool). open_target ops v flags (if b then none else some fresh.0, fresh.1))
                (zero_fails z)))
          (take_slot-Takes ops (on fresh.1) fresh.0 (first_offset fresh.1 fresh.0) size)),
    λ ino e.
        let g = if o_trunc ops flags then (ops.truncate fs ino).1 else fs in
        subst (Takes (on g) ino (first_offset g ino))
          (sym (opened m ∙ ap (open_target ops v flags) (target_found ino e)))
          (take_slot-Takes ops (on g) ino (first_offset g ino) size),
  )
    where
      made :
          ops.lookup fs (resolved ops v path) ≡ none
          → o_creat ops flags ≡ true
          → (if o_creat ops flags then created ops fresh else (none, fs))
            ≡ (if fresh.0 == 0 then none else some fresh.0, fresh.1)
      made e c = ap (λ (b : Bool). if b then created ops fresh else (none, fs)) c

      zero_test : fresh.0 ≡ 0 → fresh.0 == 0 ≡ true
      zero_test z = ground arith

      zero_fails : fresh.0 ≢ 0 → fresh.0 == 0 ≡ false
      zero_fails z = ground arith

  -- How the call may end.
  pub data Opens : ℤ × Vfs F → Type 0 where
    absent :
        ops.lookup fs (resolved ops v path) ≡ none
        → o_creat ops flags ≡ false
        → Opens (minus_one, v)
    refused :
        ops.lookup fs (resolved ops v path) ≡ none
        → o_creat ops flags ≡ true
        → fresh.0 ≡ 0
        → Opens (minus_one, on fresh.1)
    created_file :
        {r : ℤ × Vfs F}
        → ops.lookup fs (resolved ops v path) ≡ none
        → o_creat ops flags ≡ true
        → fresh.0 ≢ 0
        → Takes (on fresh.1) fresh.0 (first_offset fresh.1 fresh.0) r
        → Opens r
    existing :
        {r : ℤ × Vfs F} (ino : ℕ)
        → ops.lookup fs (resolved ops v path) ≡ some ino
        → (let g = if o_trunc ops flags then (ops.truncate fs ino).1 else fs in
            Takes (on g) ino (first_offset g ino) r)
        → Opens r

  -- vfs_open_ex on a mounted file system and a table of 16 slots. A file that is not there is an
  -- error without O_CREAT, and then nothing changes; with it the file is created, and if that fails
  -- the call does. A file that is there is cut with O_TRUNC. The file, new or old, then takes the
  -- lowest free slot, at its end with O_APPEND and else at 0; if no slot is free the call fails, and
  -- the file has been created or cut all the same.
  pub vfs_open_ex_lem : v.root_fs ≡ some fs → IsSized v.files → Opens (vfs_open_ex ops v path flags)
  vfs_open_ex_lem m size =
      let b = branches m size in
      elim (Option-cases (ops.lookup fs (resolved ops v path))) [
        | inr (ino, e) ↦ existing ino e (b.3 ino e)
        | inl e ↦ elim (Bool-cases (o_creat ops flags)) [
          | inr c ↦ subst Opens (sym (b.0 e c)) (absent e c)
          | inl c ↦ elim (ℕ_discrete fresh.0 0) [
            | yes z ↦ subst Opens (sym (b.1 e c z)) (refused e c z)
            | no nz ↦ created_file e c nz (b.2 e c nz)
          ]
        ]
      ]
