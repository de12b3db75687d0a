-- ===== src/Cred.antt =====
-- kernel/security/cred.c and cred.h: the credentials of a process, the four calls that change
-- them, and the permission check. A call returns what it returns in C beside the credentials
-- that it leaves in `*c`.
pub mod Confine
pub mod Access
mod Tests
use Prim.Native.Nat.{bit_and}
use aether_os.Prelude.{
  ℕ, ◌+◌, ◌/◌, ◌%◌, ◌^◌, Bool, true, false, ◌||◌, List, [], ◌∷◌, ◌==◌, if◌then◌else◌, u8_mod,
}

-- `cred_t`
pub record Cred : Type 0 where
  pub uid : ℕ
  pub gid : ℕ
  pub euid : ℕ
  pub egid : ℕ
  pub suid : ℕ
  pub sgid : ℕ

pub cred_init : ℕ → ℕ → Cred
cred_init uid gid = record { uid = uid; gid = gid; euid = uid; egid = gid; suid = uid; sgid = gid }

pub cred_setuid : Cred → ℕ → Bool × Cred
cred_setuid c new_uid =
    if c.euid == 0
    then (true, record c { uid = new_uid; euid = new_uid; suid = new_uid })
    else (if new_uid == c.uid || new_uid == c.suid
        then (true, record c { euid = new_uid })
        else (false, c))

pub cred_seteuid : Cred → ℕ → Bool × Cred
cred_seteuid c new_uid =
    if c.euid == 0 || (new_uid == c.uid || (new_uid == c.euid || new_uid == c.suid))
    then (true, record c { euid = new_uid })
    else (false, c)

pub cred_setgid : Cred → ℕ → Bool × Cred
cred_setgid c new_gid =
    if c.euid == 0
    then (true, record c { gid = new_gid; egid = new_gid; sgid = new_gid })
    else (if new_gid == c.gid || new_gid == c.sgid
        then (true, record c { egid = new_gid })
        else (false, c))

pub cred_setegid : Cred → ℕ → Bool × Cred
cred_setegid c new_gid =
    if c.euid == 0 || (new_gid == c.gid || (new_gid == c.egid || new_gid == c.sgid))
    then (true, record c { egid = new_gid })
    else (false, c)

-- The three permission bits of the class (owner, group, other) that applies.
pub class_bits : Cred → ℕ → ℕ → ℕ → ℕ
class_bits c fuid fgid mode =
    if c.euid == fuid
    then bit_and (mode / 2 ^ 6) 7 % u8_mod
    else (if c.egid == fgid then bit_and (mode / 2 ^ 3) 7 % u8_mod else bit_and mode 7 % u8_mod)

pub cred_check : Cred → ℕ → ℕ → ℕ → ℕ → Bool
cred_check c fuid fgid mode access =
    if c.euid == 0 then true else bit_and (class_bits c fuid fgid mode) access == access

-- The calls that a process can make on its own credentials, and a sequence of them.
pub data Call : Type 0 where
  setuid seteuid setgid setegid : ℕ → Call

pub call : Cred → Call → Bool × Cred
unfolding cred_setuid cred_seteuid cred_setgid cred_setegid
call c (setuid u) = cred_setuid c u
call c (seteuid u) = cred_seteuid c u
call c (setgid g) = cred_setgid c g
call c (setegid g) = cred_setegid c g

pub run : Cred → List Call → Cred
run c [] = c
run c (k ∷ ks) = run (call c k).1 ks
