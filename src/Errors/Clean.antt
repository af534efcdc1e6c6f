-- ===== src/Errors/Clean.antt =====
-- Calls whose errors hold no sentinel of the package.
use ztxbas.Base.{◌≡◌, refl, true, false, Bool, if◌then◌else◌, subst}
use ztxbas.Base.Result.{Outcome, done, fault}
use ztxbas.Base.Text.{Text}
use ztxbas.Errors.{Err, Result, ok, err, plain, wrap, foreign, is, with_result, or_wrap, annotate}
use ztxbas.Errors.Steps.{NoSentinel, foreign-NoSentinel, err_injective, ok-ne-err}
use ztxbas.Runtime.{checked}

-- An error of the result holds no sentinel.
pub record IsClean {ℓ} {A : Type ℓ} (r : Result A) : Type ℓ where
  pub no_sentinel : (e : Err) → r ≡ err e → NoSentinel e

pub ok-IsClean {ℓ} : {A : Type ℓ} (a : A) → IsClean (ok a)
ok-IsClean a = record { no_sentinel = λ e q. absurd (ok-ne-err a e q) }

pub err-IsClean {ℓ} : {A : Type ℓ} (x : Err) → NoSentinel x → IsClean {A = A} (err x)
err-IsClean {A = A} x h = record {
  no_sentinel = λ e q. subst NoSentinel (err_injective {A = A} (err x) x e refl q) h;
}

pub plain-IsClean {ℓ} : {A : Type ℓ} (m : Text) → IsClean {A = A} (err (plain m))
plain-IsClean m = err-IsClean (plain m) (unfold is in (λ t. refl))

pub foreign-IsClean {ℓ} : {A : Type ℓ} (p m : Text) → IsClean {A = A} (err (wrap p (foreign m)))
foreign-IsClean p m = err-IsClean _ (foreign-NoSentinel p m)

pub wrap-NoSentinel : (p : Text) (e : Err) → NoSentinel e → NoSentinel (wrap p e)
unfolding is
wrap-NoSentinel p e h t = h t

pub with_result-IsClean {ℓ κ} :
    {A : Type ℓ} {B : Type κ} (r : Result A) (f : A → Result B)
    → IsClean r
    → ((a : A) → IsClean (f a))
    → IsClean (with_result r f)
with_result-IsClean (ok a) f h k = k a
with_result-IsClean (err e) f h k = err-IsClean e (h.no_sentinel e refl)

pub if-IsClean {ℓ} :
    {A : Type ℓ} (b : Bool) (x y : Result A) → IsClean x → IsClean y → IsClean (if b then x else y)
if-IsClean true x y hx hy = hx
if-IsClean false x y hx hy = hy

pub or_wrap-IsClean {ℓ} : {A : Type ℓ} (p : Text) (o : Outcome A) → IsClean (or_wrap p o)
or_wrap-IsClean p (done a) = ok-IsClean a
or_wrap-IsClean p (fault m) = foreign-IsClean p m

pub annotate-checked-IsClean {ℓ} :
    {A : Type ℓ} (p : Text) (o : Outcome A) → IsClean (annotate p (checked o))
annotate-checked-IsClean p (done a) = ok-IsClean a
annotate-checked-IsClean p (fault m) = foreign-IsClean p m

-- The same error as the result of another call.
pub recast-IsClean {ℓ κ} :
    {A : Type ℓ} {B : Type κ} (r : Result A) (x : Err)
    → IsClean r
    → r ≡ err x
    → IsClean {A = B} (err x)
recast-IsClean r x h q = err-IsClean x (h.no_sentinel x q)
