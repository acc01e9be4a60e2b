-- ===== src/Prelude/Maps.antt =====
-- Maps and arrays as functions of a number.
use Prim.Native.Nat.{ℕ}
use mathlib.Core.Path.{◌≡◌, refl, sym, subst}
use mathlib.Core.Bool.{true, false}
use mathlib.Core.Logic.{◌⊎◌, inl, inr}
use native.Mathlib.Omega.{arith}
use goxdcr.Prelude.Tests.{◌==◌, Bool-cases, if◌then◌else◌}

-- The map with `a` at `k`.
unfoldable pub set_at {ℓ} : {A : Type ℓ} → ℕ → A → (ℕ → A) → ℕ → A
set_at k a m i = if i == k then a else m i

pub set_at_same {ℓ} : {A : Type ℓ} (k : ℕ) (a : A) (m : ℕ → A) → set_at k a m k ≡ a
unfolding set_at
set_at_same k a m = let e : (k == k) ≡ true = ground arith in rw e refl

pub set_at_other {ℓ} :
    {A : Type ℓ} (k i : ℕ) (a : A) (m : ℕ → A) → (i == k) ≡ false → set_at k a m i ≡ m i
unfolding set_at
set_at_other k i a m h = rw h refl

pub ==_cases : (i k : ℕ) → (i ≡ k) ⊎ ((i == k) ≡ false)
==_cases i k = elim (Bool-cases (i == k)) [ inl e ↦ inl (ground arith) | inr e ↦ inr e ]

-- What holds at `k` of `a` and elsewhere of the old map holds everywhere of the new one.
pub set_at_elim {ℓ κ} :
    {A : Type ℓ} (P : ℕ → A → Type κ) (k : ℕ) (a : A) (m : ℕ → A)
    → P k a
    → ((i : ℕ) → (i == k) ≡ false → P i (m i))
    → (i : ℕ) → P i (set_at k a m i)
set_at_elim P k a m here there i = elim (==_cases i k) [
  | inl e ↦
      subst (λ x. P x (set_at k a m x)) (sym e) (subst (λ v. P k v) (sym (set_at_same k a m)) here)
  | inr e ↦ subst (λ v. P i v) (sym (set_at_other k i a m e)) (there i e)
]
