-- ===== src/Cred/Tests.antt =====
-- Runs of the credential calls, and the theorems at concrete credentials.
use aether_os.Prelude.{◌≡◌, refl, ◌↔◌, ◌⊎◌, inl, true, false, List, [], ◌∷◌, arith}
use aether_os.Cred.{
  Cred, Call, setuid, seteuid, setgid, cred_init, cred_setuid, cred_seteuid, run, cred_check,
  class_bits,
}
use aether_os.Cred.Confine.{
  IsUnprivileged, run-IsUnprivileged, setuid_is_final, seteuid_drop_restore,
}
use aether_os.Cred.Access.{Grants, cred_check_iff}

abbrev alice : Cred
alice = record { uid = 1000; gid = 100; euid = 1000; egid = 100; suid = 1000; sgid = 100 }

abbrev root : Cred
root = record { uid = 0; gid = 0; euid = 0; egid = 0; suid = 0; sgid = 0 }

abbrev attempts : List Call
attempts = setuid 0 ∷ seteuid 1000 ∷ setgid 0 ∷ seteuid 0 ∷ []

root_credentials : cred_init 0 0 ≡ root
unfolding cred_init
root_credentials = refl

owner_reads_not_executes :
    (cred_check alice 1000 0 0x1a4 4 ≡ true)
    × (cred_check alice 1000 0 0x1a4 1 ≡ false)
    × (cred_check alice 0 0 0x1a4 2 ≡ false)
unfolding cred_check class_bits
owner_reads_not_executes = (refl, refl, refl)

run-IsUnprivileged_example : IsUnprivileged (run alice attempts)
run-IsUnprivileged_example = (run-IsUnprivileged attempts alice (omega arith)).0

setuid_is_final_example :
    ((cred_setuid root 1000).0 ≡ true) × IsUnprivileged (run (cred_setuid root 1000).1 attempts)
setuid_is_final_example = setuid_is_final attempts root 1000 refl (omega arith)

seteuid_drop_restore_example :
    let dropped = (cred_seteuid root 1000).1 in cred_seteuid dropped 0 ≡ (true, root)
seteuid_drop_restore_example = (seteuid_drop_restore root 1000 refl (omega arith)).1 (inl refl)

cred_check_iff_example : (cred_check alice 0 100 0x1a4 4 ≡ true) ↔ ((alice.euid ≡ 0) ⊎ Grants 4 4)
cred_check_iff_example = cred_check_iff alice 0 100 0x1a4 4 (omega arith)
