-- ===== src/Errors/Steps.antt =====
-- Inversion of the steps of a call that may fail.
use ztxbas.Base.{◌≡◌, ◌↔◌, ◌⊎◌, inl, inr, subst, refl, true, false, Bool, arith, if◌then◌else◌}
use ztxbas.Base.Result.{Outcome, done, fault}
use ztxbas.Base.Text.{Text}
use ztxbas.Errors.{
  Sentinel, Err, Result, ok, err, wrap, foreign, is, with_result, or_wrap, annotate,
}
use ztxbas.Runtime.{checked}

pub with_result_iff {ℓ κ} :
    {A : Type ℓ} {B : Type κ} (r : Result A) (f : A → Result B) (b : B)
    → (with_result r f ≡ ok b) ↔ ((a : A) × (r ≡ ok a) × (f a ≡ ok b))
with_result_iff (ok a) f b = ((λ h. (a, refl, h)), λ (x, same_a, h). ground arith)
with_result_iff (err e) f b = ((λ h. cc), λ (x, same_a, h). cc)

pub with_result-eq-ok {ℓ κ} :
    {A : Type ℓ} {B : Type κ} (r : Result A) (f : A → Result B) (b : B)
    → with_result r f ≡ ok b
    → (a : A) × (r ≡ ok a) × (f a ≡ ok b)
with_result-eq-ok r f b = (with_result_iff r f b).0

pub or_wrap-eq-ok {ℓ} :
    {A : Type ℓ} (prefix : Text) (o : Outcome A) (a : A) → or_wrap prefix o ≡ ok a → o ≡ done a
or_wrap-eq-ok prefix (done x) a h = cc
or_wrap-eq-ok prefix (fault m) a h = cc

pub if-eq-ok {ℓ} :
    {A : Type ℓ} (b : Bool) (x : Result A) (e : Err) (a : A)
    → (if b then x else err e) ≡ ok a
    → (b ≡ true) × (x ≡ ok a)
if-eq-ok true x e a h = (refl, h)
if-eq-ok false x e a h = cc

pub with_result-eq-err {ℓ κ} :
    {A : Type ℓ} {B : Type κ} (r : Result A) (f : A → Result B) (e : Err)
    → with_result r f ≡ err e
    → (r ≡ err e) ⊎ ((a : A) × (r ≡ ok a) × (f a ≡ err e))
with_result-eq-err (ok a) f e h = inr (a, refl, h)
with_result-eq-err (err x) f e h = inl (ground arith)

-- An error in which `errors.Is` finds none of the package's sentinels.
abbrev pub NoSentinel : Err → Type 0
NoSentinel e = (t : Sentinel) → is e t ≡ false

pub foreign-NoSentinel : (prefix m : Text) → NoSentinel (wrap prefix (foreign m))
unfolding is
foreign-NoSentinel prefix m t = refl

pub or_wrap-NoSentinel {ℓ} :
    {A : Type ℓ} (prefix : Text) (o : Outcome A) (e : Err) → or_wrap prefix o ≡ err e → NoSentinel e
or_wrap-NoSentinel prefix (done x) e h = absurd (differ h)
  where
    differ : ok x ≡ err e → ⊥
    differ q = cc
or_wrap-NoSentinel prefix (fault m) e h =
    subst NoSentinel (ground arith) (foreign-NoSentinel prefix m)

pub ok-ne-err {ℓ} : {A : Type ℓ} (a : A) (e : Err) → ok a ≡ err e → ⊥
ok-ne-err a e h = cc

pub err_injective {ℓ} : {A : Type ℓ} (r : Result A) (x e : Err) → r ≡ err x → r ≡ err e → x ≡ e
err_injective (ok a) x e h k = cc
err_injective (err y) x e h k = ground arith

-- A call of the library with its fault behind a prefix.
pub annotate-checked-eq-ok {ℓ} :
    {A : Type ℓ} (prefix : Text) (o : Outcome A) (a : A)
    → annotate prefix (checked o) ≡ ok a
    → o ≡ done a
annotate-checked-eq-ok prefix (done x) a h = cc
annotate-checked-eq-ok prefix (fault m) a h = cc

pub annotate-checked-NoSentinel {ℓ} :
    {A : Type ℓ} (prefix : Text) (o : Outcome A) (e : Err)
    → annotate prefix (checked o) ≡ err e
    → NoSentinel e
annotate-checked-NoSentinel prefix (done x) e h = absurd (ok-ne-err x e h)
annotate-checked-NoSentinel {A = A} prefix (fault m) e h =
    subst NoSentinel (err_injective (annotate {A = A} prefix (checked (fault m))) _ e refl h)
      (foreign-NoSentinel prefix m)
