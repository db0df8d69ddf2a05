-- ===== src/Common/Maps.antt =====
-- std::map as a function into options, and its changes at one key.
use Prim.Native.Nat.{ℕ}
use mathlib.Core.Path.{◌≡◌, ◌∙◌, sym}
use native.Mathlib.Decide.{ℕ_discrete}
use mathlib.Core.Logic.{◌≢◌}
use mathlib.Core.Bool.{Bool, true, false}
use mathlib.Core.Option.{Option, none, some}
use native.Mathlib.Omega.{arith}
use chaonet.Common.Tests.{◌==◌, if◌then◌else◌, eq→==, ne→==-eq-false}

abbrev pub update {ℓ} : {A : Type ℓ} → (ℕ → A) → ℕ → A → ℕ → A
update f k v j = if j == k then v else f j

pub update_self {ℓ} : {A : Type ℓ} (f : ℕ → A) (k : ℕ) (v : A) → update f k v k ≡ v
update_self f k v = rw (eq→== k k (omega arith))

pub update_ne {ℓ} : {A : Type ℓ} (f : ℕ → A) (k : ℕ) (v : A) (j : ℕ) → j ≢ k → update f k v j ≡ f j
update_ne f k v j h = rw (ne→==-eq-false j k h)

abbrev pub is_some {ℓ} : {A : Type ℓ} → Option A → Bool
is_some none = false
is_some (some x) = true

-- The test `it->second == k` on a found entry.
abbrev pub holds_key : Option ℕ → ℕ → Bool
holds_key none k = false
holds_key (some j) k = j == k

-- Writing what is there changes nothing.
pub update_same {ℓ} :
    {A : Type ℓ} (f : ℕ → A) (k : ℕ) (v : A) → f k ≡ v → (j : ℕ) → f j ≡ update f k v j
update_same f k v e j = elim (ℕ_discrete j k) [
  | yes here ↦ rw here (e ∙ sym (update_self f k v))
  | no far ↦ sym (update_ne f k v j far)
]
