-- ===== src/Across/Claims.antt =====
-- The checks of the claims in the three SDKs.
use ztxbas.Base.{
  ℕ, ◌≤◌, ◌≡◌, ◌↔◌, ◌⊎◌, inl, inr, refl, ap, sym, subst, Bool, false, ◌&&◌, not, [], Option, none,
  some, if◌then◌else◌, ltb, arith,
}
use ztxbas.Base.Int.{ℤ, pos, ◌+ℤ◌, ◌≤ℤ◌, IsInt64}
use ztxbas.Base.Text.{Text, is_empty, is_empty_iff}
use ztxbas.Errors.{ok}
use ztxbas.Runtime.{Env}
use ztxbas.Token.{Claims}
use ztxbas.Token as Go
use ztxbas.Token.Expiry.{check_claims_iff, Passes-exact, time_iff, issuer_iff}
use ztxbas.Node.Claims as Node
use ztxbas.Node.Claims.{Payload, Refusal, has_issuer}
use ztxbas.Python.Claims as Python

abbrev time_of : Option ℤ → ℤ
time_of none = pos 0
time_of (some z) = z

abbrev text_of : Option Text → Text
text_of none = []
text_of (some s) = s

-- The members, as the Go SDK decodes them: what is missing is zero or empty.
abbrev pub claims_of : Claims → Payload → Claims
claims_of rest p = record rest {
  issuer = text_of p.iss;
  issued_at = time_of p.iat;
  expires_at = time_of p.exp;
}

-- The checks as conditions on the integers. A zero time is no time.
abbrev IsTimely : Text → ℤ → Payload → Type 0
IsTimely expected now p =
    ((time_of p.exp ≡ pos 0) ⊎ (now ≤ℤ time_of p.exp +ℤ pos 30))
    × ((time_of p.iat ≡ pos 0) ⊎ (time_of p.iat ≤ℤ now +ℤ pos 30))
    × ((expected ≡ []) ⊎ (text_of p.iss ≡ expected))

none_iff :
    (x y z : Bool) (a b c : Refusal)
    → ((if x then some a else if y then some b else if z then some c else none) ≡ none)
      ↔ ((x ≡ false) × (y ≡ false) × (z ≡ false))
none_iff x y z a b c = ground arith

-- The parts of a sum are opaque here.
le_iff : (m n : ℕ) → (ltb m n ≡ false) ↔ (n ≤ m)
le_iff m n = ground arith

node_expired_iff :
    (now : ℤ) (o : Option ℤ)
    → (Node.is_expired now o ≡ false) ↔ ((time_of o ≡ pos 0) ⊎ (now ≤ℤ time_of o +ℤ pos 30))
node_expired_iff now none = ((λ h. inl refl), λ h. refl)
node_expired_iff now (some z) = time_iff z _ _

node_early_iff :
    (now : ℤ) (o : Option ℤ)
    → (Node.is_early now o ≡ false) ↔ ((time_of o ≡ pos 0) ⊎ (time_of o ≤ℤ now +ℤ pos 30))
node_early_iff now none = ((λ h. inl refl), λ h. refl)
node_early_iff now (some z) = time_iff z _ _

-- No member differs from the expected issuer as an empty one does.
issued_iff :
    (expected : Text) (o : Option Text)
    → ((not (is_empty expected) && not (has_issuer expected o)) ≡ false)
      ↔ ((expected ≡ []) ⊎ (text_of o ≡ expected))
issued_iff expected none = ground (arith, is_empty_iff expected)
issued_iff expected (some s) = issuer_iff expected s

some_eq {ℓ} : {A : Type ℓ} (a b : A) → some a ≡ some b → a ≡ b
some_eq a b e = cc

none-ne-some {ℓ} : {A : Type ℓ} (a : A) → none ≡ some a → ⊥
none-ne-some a e = cc

zero_limit : (t : ℕ) → (pos t ≤ℤ pos 0 +ℤ pos 30) ↔ (t ≤ 30)
unfolding ◌+ℤ◌
zero_limit t = ground arith

zero_early : (t : ℕ) → pos 0 ≤ℤ pos t +ℤ pos 30
unfolding ◌+ℤ◌
zero_early t = ground arith

python_expired_iff :
    (t : ℕ) (o : Option ℤ)
    → (Python.is_expired (pos t) o ≡ false)
      ↔ (((time_of o ≡ pos 0) ⊎ (pos t ≤ℤ time_of o +ℤ pos 30)) × (o ≡ some (pos 0) → t ≤ 30))
python_expired_iff t none = ((λ h. (inl refl, λ e. absurd (none-ne-some (pos 0) e))), λ h. refl)
python_expired_iff t (some z) = (there, back)
  where
    limit : (Python.is_expired (pos t) (some z) ≡ false) ↔ (pos t ≤ℤ z +ℤ pos 30)
    limit = le_iff _ _

    there :
        Python.is_expired (pos t) (some z) ≡ false
        → ((z ≡ pos 0) ⊎ (pos t ≤ℤ z +ℤ pos 30)) × (some z ≡ some (pos 0) → t ≤ 30)
    there h = (
      inr (limit.0 h),
      λ e. (zero_limit t).0 (subst (λ x. pos t ≤ℤ x +ℤ pos 30) (some_eq z (pos 0) e) (limit.0 h)),
    )

    back :
        ((z ≡ pos 0) ⊎ (pos t ≤ℤ z +ℤ pos 30)) × (some z ≡ some (pos 0) → t ≤ 30)
        → Python.is_expired (pos t) (some z) ≡ false
    back (inl e, f) =
        limit.1 (subst (λ x. pos t ≤ℤ x +ℤ pos 30) (sym e) ((zero_limit t).1 (f (ap some e))))
    back (inr le, f) = limit.1 le

python_early_iff :
    (t : ℕ) (o : Option ℤ)
    → (Python.is_early (pos t) o ≡ false) ↔ ((time_of o ≡ pos 0) ⊎ (time_of o ≤ℤ pos t +ℤ pos 30))
python_early_iff t none = ((λ h. inl refl), λ h. refl)
python_early_iff t (some z) = ((λ h. inr (limit.0 h)), back)
  where
    limit : (Python.is_early (pos t) (some z) ≡ false) ↔ (z ≤ℤ pos t +ℤ pos 30)
    limit = le_iff _ _

    back : (z ≡ pos 0) ⊎ (z ≤ℤ pos t +ℤ pos 30) → Python.is_early (pos t) (some z) ≡ false
    back (inl e) = limit.1 (subst (λ x. x ≤ℤ pos t +ℤ pos 30) (sym e) (zero_early t))
    back (inr le) = limit.1 le

node_iff :
    (expected : Text) (now : ℤ) (p : Payload)
    → (Node.check_claims expected now p ≡ none) ↔ IsTimely expected now p
unfolding Node.check_claims
node_iff expected now p =
    let split = none_iff _ _ _ Node.expired Node.early Node.wrong_issuer in
    let x = node_expired_iff now p.exp in
    let y = node_early_iff now p.iat in
    let z = issued_iff expected p.iss in
    (
      (λ h. let (a, b, c) = split.0 h in (x.0 a, y.0 b, z.0 c)),
      λ (a, b, c). split.1 (x.1 a, y.1 b, z.1 c),
    )

python_iff :
    (expected : Text) (t : ℕ) (p : Payload)
    → (Python.check_claims expected (pos t) p ≡ none)
      ↔ (IsTimely expected (pos t) p × (p.exp ≡ some (pos 0) → t ≤ 30))
unfolding Python.check_claims
python_iff expected t p =
    let split = none_iff _ _ _ Node.expired Node.early Node.wrong_issuer in
    let x = python_expired_iff t p.exp in
    let y = python_early_iff t p.iat in
    let z = issued_iff expected p.iss in
    (
      (λ h. let (a, b, c) = split.0 h in (((x.0 a).0, y.0 b, z.0 c), (x.0 a).1)),
      λ ((a, b, c), d). split.1 (x.1 (a, d), y.1 b, z.1 c),
    )

go_iff :
    (env : Env) (expected : Text) (t : ℕ) (rest : Claims) (p : Payload)
    → IsInt64 (time_of p.exp +ℤ pos 30)
    → IsInt64 (pos t +ℤ pos 30)
    → (Go.check_claims env expected (pos t) (claims_of rest p) ≡ ok (claims_of rest p))
      ↔ IsTimely expected (pos t) p
go_iff env expected t rest p fits fits' =
    let c = claims_of rest p in
    let checked = check_claims_iff env expected (pos t) c c in
    let exact = Passes-exact expected (pos t) c fits fits' in
    ((λ h. exact.0 (checked.0 h).1), λ h. checked.1 (refl, exact.1 h))

-- For the same payload, time since 1970 and expected issuer, where the sums of the Go SDK stay
-- within `int64`: the claims pass the checks of the Node SDK exactly if they pass those of the Go
-- SDK, and those of the Python SDK exactly if, in addition, an expiry of 0, where it is given, is
-- not more than thirty seconds past.
pub check_claims_agree :
    (env : Env) (expected : Text) (t : ℕ) (rest : Claims) (p : Payload)
    → IsInt64 (time_of p.exp +ℤ pos 30)
    → IsInt64 (pos t +ℤ pos 30)
    → let go = Go.check_claims env expected (pos t) (claims_of rest p) in
      ((Node.check_claims expected (pos t) p ≡ none) ↔ (go ≡ ok (claims_of rest p)))
      × ((Python.check_claims expected (pos t) p ≡ none)
          ↔ ((go ≡ ok (claims_of rest p)) × (p.exp ≡ some (pos 0) → t ≤ 30)))
check_claims_agree env expected t rest p fits fits' =
    let go = go_iff env expected t rest p fits fits' in
    let node = node_iff expected (pos t) p in
    let python = python_iff expected t p in
    (
      ((λ h. go.1 (node.0 h)), λ h. node.1 (go.0 h)),
      (
        (λ h. let (timely, zero) = python.0 h in (go.1 timely, zero)),
        λ (h, zero). python.1 (go.0 h, zero),
      ),
    )
