-- ===== src/Token/Expiry.antt =====
-- The checks of the claims: expiry, time of issue, issuer.
use ztxbas.Base.{
  ℕ, ◌+◌, ◌^◌, ◌≤◌, ◌<◌, ◌≡◌, ◌≢◌, ◌↔◌, ◌⊎◌, false, Bool, not, ◌&&◌, [], arith, if◌then◌else◌, ltb,
}
use ztxbas.Base.Int.{
  ℤ, pos, ltb_ℤ, ◌≤ℤ◌, ◌<ℤ◌, ◌+ℤ◌, add64, add64_exact, is_zero, is_zero_iff, IsInt64, pos_part,
  neg_part,
}
use ztxbas.Base.Text.{Text, same, same_iff, is_empty, is_empty_iff}
use ztxbas.Errors.{Err, ok, err}
use ztxbas.Runtime.{Env}
use ztxbas.Token.{Claims, clock_skew, check_claims}

-- What the claims must satisfy at a Unix time, under an expected issuer, which is empty if there is
-- none. A zero time is no time. The sums are those of `int64`.
pub record Passes (expected_iss : Text) (now : ℤ) (c : Claims) : Type 0 where
  pub not_expired : (c.expires_at ≡ pos 0) ⊎ (now ≤ℤ add64 c.expires_at clock_skew)
  pub not_early : (c.issued_at ≡ pos 0) ⊎ (c.issued_at ≤ℤ add64 now clock_skew)
  pub issued_by : (expected_iss ≡ []) ⊎ (c.issuer ≡ expected_iss)

ladder_iff :
    {A : Type 0} (x y z : Bool) (a b : A) (e₁ e₂ e₃ : Err)
    → ((if x then err e₁ else if y then err e₂ else if z then err e₃ else ok a) ≡ ok b)
      ↔ ((a ≡ b) × (x ≡ false) × (y ≡ false) × (z ≡ false))
ladder_iff x y z a b e₁ e₂ e₃ = ground arith

-- A check of a time that may be zero.
pub time_iff : (z : ℤ) (m n : ℕ) → ((not (is_zero z) && ltb m n) ≡ false) ↔ ((z ≡ pos 0) ⊎ (n ≤ m))
time_iff z m n = ground (arith, is_zero_iff z)

pub issuer_iff :
    (expected issuer : Text)
    → ((not (is_empty expected) && not (same issuer expected)) ≡ false)
      ↔ ((expected ≡ []) ⊎ (issuer ≡ expected))
issuer_iff expected issuer = ground (arith, is_empty_iff expected, same_iff issuer expected)

-- The checks of the claims let exactly those pass, unchanged, whose expiry is zero or at most
-- thirty seconds past, whose time of issue is zero or at most thirty seconds ahead, in the sums
-- of `int64`, and whose issuer is the expected one where one is expected.
pub check_claims_iff :
    (env : Env) (expected_iss : Text) (now : ℤ) (c c' : Claims)
    → (check_claims env expected_iss now c ≡ ok c') ↔ ((c ≡ c') × Passes expected_iss now c)
unfolding check_claims
check_claims_iff env expected_iss now c c' = (there, back)
  where
    exp_end : ℤ
    exp_end = add64 c.expires_at clock_skew

    iat_end : ℤ
    iat_end = add64 now clock_skew

    expiry_ok :
        ((not (is_zero c.expires_at) && ltb_ℤ exp_end now) ≡ false)
        ↔ ((c.expires_at ≡ pos 0) ⊎ (now ≤ℤ exp_end))
    expiry_ok =
        time_iff c.expires_at (pos_part exp_end + neg_part now) (pos_part now + neg_part exp_end)

    early :
        ((not (is_zero c.issued_at) && ltb_ℤ iat_end c.issued_at) ≡ false)
        ↔ ((c.issued_at ≡ pos 0) ⊎ (c.issued_at ≤ℤ iat_end))
    early =
        time_iff c.issued_at (pos_part iat_end + neg_part c.issued_at)
          (pos_part c.issued_at + neg_part iat_end)

    there : check_claims env expected_iss now c ≡ ok c' → (c ≡ c') × Passes expected_iss now c
    there h =
        let (kept, p, q, r) = (ladder_iff _ _ _ c c' _ _ _).0 h in
        (
          kept,
          record {
            not_expired = expiry_ok.0 p;
            not_early = early.0 q;
            issued_by = (issuer_iff expected_iss c.issuer).0 r;
          },
        )

    back : (c ≡ c') × Passes expected_iss now c → check_claims env expected_iss now c ≡ ok c'
    back (kept, p) = (ladder_iff _ _ _ c c' _ _ _).1 (
      kept,
      expiry_ok.1 p.not_expired,
      early.1 p.not_early,
      (issuer_iff expected_iss c.issuer).1 p.issued_by,
    )

-- Where no sum leaves `int64`, the limits are those of the integers: thirty seconds of leeway.
pub Passes-exact :
    (expected_iss : Text) (now : ℤ) (c : Claims)
    → IsInt64 (c.expires_at +ℤ clock_skew)
    → IsInt64 (now +ℤ clock_skew)
    → Passes expected_iss now c ↔ (
        ((c.expires_at ≡ pos 0) ⊎ (now ≤ℤ c.expires_at +ℤ clock_skew))
        × ((c.issued_at ≡ pos 0) ⊎ (c.issued_at ≤ℤ now +ℤ clock_skew))
        × ((expected_iss ≡ []) ⊎ (c.issuer ≡ expected_iss)))
Passes-exact expected_iss now c fits fits' =
    rw (← add64_exact c.expires_at clock_skew fits, ← add64_exact now clock_skew fits')
      (
        (λ p. (p.not_expired, p.not_early, p.issued_by)),
        λ (a, b, d). record { not_expired = a; not_early = b; issued_by = d },
      )

wraps_below : (n : ℕ) → 2 ^ 63 ≤ n + 30 → n < 2 ^ 63 → add64 (pos n) clock_skew <ℤ pos 0
unfolding add64
wraps_below n late fits = ground arith

-- An expiry in the last thirty seconds of `int64` wraps around: claims with it are refused at
-- every time since 1970.
pub expiry_wraps :
    (env : Env) (expected_iss : Text) (t : ℕ) (c : Claims) (n : ℕ)
    → c.expires_at ≡ pos n
    → 2 ^ 63 ≤ n + 30
    → n < 2 ^ 63
    → (c' : Claims) → check_claims env expected_iss (pos t) c ≢ ok c'
expiry_wraps env expected_iss t c n e late fits c' h =
    let (_, p) = (check_claims_iff env expected_iss (pos t) c c').0 h in
    ground (arith, p.not_expired, wraps_below n late fits)
