-- ===== src/Base/Family.antt =====
-- Families by number, such as the goroutines: a change at one number.
use Prim.Native.Nat.{ℕ}
use mathlib.Core.Path.{◌≡◌, subst}
use mathlib.Core.Logic.{◌≢◌, inl, inr}
use native.Mathlib.Omega.{arith}
use ztxbas.Base.Tests.{◌==◌, ==_iff, if◌then◌else◌, Bool-cases}

module _ {ℓ} {A : Type ℓ} where
  abbrev pub update : (ℕ → A) → ℕ → A → ℕ → A
  update f i a j = if i == j then a else f j

  pub update_here : (f : ℕ → A) (i : ℕ) (a : A) → update f i a i ≡ a
  update_here f i a = ground (arith, ==_iff i i)

  pub update_other : (f : ℕ → A) (i j : ℕ) (a : A) → i ≢ j → update f i a j ≡ f j
  update_other f i j a h = ground (arith, ==_iff i j)

  -- What holds of every other member and of the new value holds of every member afterwards.
  pub update_each {κ} :
      (P : ℕ → A → Type κ) (f : ℕ → A) (i : ℕ) (a : A)
      → ((j : ℕ) → i ≢ j → P j (f j))
      → P i a
      → (j : ℕ) → P j (update f i a j)
  update_each P f i a others here j = elim (Bool-cases (i == j)) [
    | inl e ↦ rw e (subst (λ k. P k a) ((==_iff i j).0 e) here)
    | inr e ↦ rw e (others j (λ q. ground (arith, ==_iff i j)))
  ]

  pub update_all {κ} :
      (P : A → Type κ) (f : ℕ → A) (i : ℕ) (a : A)
      → ((j : ℕ) → P (f j))
      → P a
      → (j : ℕ) → P (update f i a j)
  update_all P f i a all here j = update_each (λ k. P) f i a (λ k n. all k) here j
