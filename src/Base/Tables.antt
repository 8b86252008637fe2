-- ===== src/Base/Tables.antt =====
-- Tables over numbers, changed at one of them.
use Prim.Native.Nat.{ℕ}
use mathlib.Core.Path.{◌≡◌, refl}
use mathlib.Core.Logic.{◌≢◌, ◌⊎◌, inl, inr}
use native.Mathlib.Omega.{arith}
use solusek.Base.Tests.{◌==◌, if◌then◌else◌, ==_iff, ==_refl, ==_ne, Bool-cases}

abbrev pub put {ℓ} : {A : Type ℓ} → ℕ → A → (ℕ → A) → ℕ → A
put k v f i = if i == k then v else f i

pub put-cases {ℓ} :
    {A : Type ℓ} (k : ℕ) (v : A) (f : ℕ → A) (j : ℕ) {w : A}
    → put k v f j ≡ w
    → ((j ≡ k) × (v ≡ w)) ⊎ ((j ≢ k) × (f j ≡ w))
put-cases k v f j e = elim (Bool-cases (j == k)) [
  | inl t ↦ inl ((==_iff j k).0 t, rw t at e)
  | inr t ↦ inr (λ same. absurd (ground arith), rw t at e)
]

pub put_same {ℓ} : {A : Type ℓ} (k : ℕ) (v : A) (f : ℕ → A) → put k v f k ≡ v
put_same k v f = rw ==_refl refl

pub put_other {ℓ} : {A : Type ℓ} (k : ℕ) (v : A) (f : ℕ → A) (j : ℕ) → j ≢ k → put k v f j ≡ f j
put_other k v f j ne = rw (==_ne j k ne) refl
