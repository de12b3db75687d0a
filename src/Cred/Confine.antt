-- ===== src/Cred/Confine.antt =====
-- Who can become whom: what sequences of credential calls can reach.
use aether_os.Prelude.{ℕ, ◌≡◌, refl, ◌≢◌, ◌⊎◌, true, false, List, [], ◌∷◌, arith}
use aether_os.Cred.{
  Cred, Call, setuid, seteuid, setgid, setegid, call, run, cred_setuid, cred_seteuid,
}

-- No user identity of the process is root's.
pub record IsUnprivileged (c : Cred) : Type 0 where
  pub real : c.uid ≢ 0
  pub effective : c.euid ≢ 0
  pub saved : c.suid ≢ 0

call-IsUnprivileged : (c : Cred) (k : Call) → IsUnprivileged c → IsUnprivileged (call c k).1
unfolding call
call-IsUnprivileged c (setuid u) v = ground arith
call-IsUnprivileged c (seteuid u) v = ground arith
call-IsUnprivileged c (setgid g) v = ground arith
call-IsUnprivileged c (setegid g) v = ground arith

call-keeps :
    (c : Cred) (k : Call)
    → c.euid ≢ 0
    → ((call c k).1.uid ≡ c.uid)
      × ((call c k).1.suid ≡ c.suid)
      × ((call c k).1.gid ≡ c.gid)
      × ((call c k).1.sgid ≡ c.sgid)
unfolding call
call-keeps c (setuid u) v = ground arith
call-keeps c (seteuid u) v = ground arith
call-keeps c (setgid g) v = ground arith
call-keeps c (setegid g) v = ground arith

-- A process none of whose user ids is root's stays so under every sequence of setuid, seteuid,
-- setgid and setegid calls, and its real and saved user and group ids never change.
pub run-IsUnprivileged :
    (ks : List Call) (c : Cred)
    → IsUnprivileged c
    → IsUnprivileged (run c ks)
      × ((run c ks).uid ≡ c.uid)
      × ((run c ks).suid ≡ c.suid)
      × ((run c ks).gid ≡ c.gid)
      × ((run c ks).sgid ≡ c.sgid)
unfolding run
run-IsUnprivileged [] c v = (v, refl, refl, refl, refl)
run-IsUnprivileged (k ∷ ks) c v = ground (
  arith,
  call-keeps c k v.effective,
  run-IsUnprivileged ks (call c k).1 (call-IsUnprivileged c k v),
)

-- Root's setuid to another user cannot be taken back: it succeeds, and after it no sequence of
-- calls makes any user id of the process root's again.
pub setuid_is_final :
    (ks : List Call) (c : Cred) (u : ℕ)
    → c.euid ≡ 0
    → u ≢ 0
    → ((cred_setuid c u).0 ≡ true) × IsUnprivileged (run (cred_setuid c u).1 ks)
unfolding cred_setuid
setuid_is_final ks c u root other =
    ground (arith, run-IsUnprivileged ks (record c { uid = u; euid = u; suid = u }))

-- Dropping root by seteuid can be taken back exactly when the real or the saved uid is root's:
-- then the second call restores the credentials, and otherwise it fails and changes nothing.
pub seteuid_drop_restore :
    (c : Cred) (u : ℕ)
    → c.euid ≡ 0
    → u ≢ 0
    → let dropped = (cred_seteuid c u).1 in
      ((cred_seteuid c u).0 ≡ true)
      × (((c.uid ≡ 0) ⊎ (c.suid ≡ 0)) → cred_seteuid dropped 0 ≡ (true, c))
      × (c.uid ≢ 0 → c.suid ≢ 0 → cred_seteuid dropped 0 ≡ (false, dropped))
unfolding cred_seteuid
seteuid_drop_restore c u root other = (ground arith, λ h. ground arith, λ h k. ground arith)

-- A call that fails leaves the credentials as they were; only a caller who is not root fails.
call_fails : (c : Cred) (k : Call) → (call c k).0 ≡ false → ((call c k).1 ≡ c) × (c.euid ≢ 0)
unfolding call
call_fails c (setuid u) e = ground arith
call_fails c (seteuid u) e = ground arith
call_fails c (setgid g) e = ground arith
call_fails c (setegid g) e = ground arith
