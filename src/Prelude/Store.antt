-- ===== src/Prelude/Store.antt =====
-- Arrays as functions: a write at one index.
use Prim.Native.Nat.{ℕ}
use mathlib.Core.Path.{◌≡◌}
use mathlib.Core.Logic.{◌≢◌}
use native.Mathlib.Omega.{arith}
use aether_os.Prelude.Tests.{◌==◌, if◌then◌else◌}

unfoldable pub store {ℓ} : {A : Type ℓ} → (ℕ → A) → ℕ → A → ℕ → A
store f k v j = if j == k then v else f j

pub store_self {ℓ} : {A : Type ℓ} (f : ℕ → A) (k : ℕ) (v : A) → store f k v k ≡ v
unfolding store
store_self f k v = ground arith

pub store_other {ℓ} : {A : Type ℓ} (f : ℕ → A) (k j : ℕ) (v : A) → j ≢ k → store f k v j ≡ f j
unfolding store
store_other f k j v h = ground arith
