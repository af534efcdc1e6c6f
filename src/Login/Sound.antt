-- ===== src/Login/Sound.antt =====
-- What the client's own verifier is, and what it accepts.
use ztxbas.Base.{◌↔◌, inl, subst, ◌≡◌, refl, sym, ap, ◌∙◌, [], ◌∷◌, ◌++◌, Option, none, some, arith}
use ztxbas.Base.Text.{Text, codes, is_empty}
use ztxbas.Go.Url.{url_string}
use ztxbas.Errors.{Result, ok, err}
use ztxbas.Errors.Steps.{ok-ne-err}
use ztxbas.Runtime.{Env, World}
use ztxbas.Jwks.Keys.{AllOnCurve}
use ztxbas.Verifier.{Verifier, new_verifier, with_verifier_http_client}
use ztxbas.Verifier.Keeps.{OneFetch}
use ztxbas.Token.{Claims, verify}
use ztxbas.Token.Accepted.{Accepted, verify_iff}
use ztxbas.Token.Effects.{verify-Harmless}
use ztxbas.Client.{Client}
use ztxbas.Login.{verifier_or, own_verifier, verify_with, verify_jwt}

abbrev pub well_known : Text
well_known = codes "/.well-known/jwks.json"

-- The verifier that a client makes: with an empty cache, for the key set below its base URL, with
-- its own HTTP client, and with no expected issuer.
abbrev pub first_verifier : Client → Verifier
first_verifier c = record {
  jwks_url = url_string c.base_url ++ well_known;
  hc = c.hc;
  keys = [];
  fetched_at = none;
  expected_iss = [];
}

pub verifier_or-none : (c : Client) → verifier_or c none ≡ ok (first_verifier c)
unfolding verifier_or
verifier_or-none c = first c (url_string c.base_url)
  where
    first :
        (d : Client) (base : Text)
        → new_verifier (base ++ well_known) (with_verifier_http_client d.hc ∷ [])
          ≡ ok (record {
            jwks_url = base ++ well_known;
            hc = d.hc;
            keys = [];
            fetched_at = none;
            expected_iss = [];
          })
    first d [] = unfold new_verifier with_verifier_http_client is_empty in refl
    first d (b ∷ base) = unfold new_verifier with_verifier_http_client is_empty in refl

-- A client without a verifier makes one with an empty cache for the key set below its base URL,
-- with its own HTTP client and no expected issuer; this never fails.
pub own_verifier_first : (c : Client) → c.verifier ≡ none → own_verifier c ≡ ok (first_verifier c)
own_verifier_first c h = unfold own_verifier in (ap (verifier_or c) h ∙ verifier_or-none c)

-- Every key that the client's verifier has cached is a point of the curve.
abbrev pub ClientOnCurve : Client → Type 0
ClientOnCurve c = (v : Verifier) → c.verifier ≡ some v → AllOnCurve v.keys

same_some : (u v : Verifier) → some u ≡ some v → u ≡ v
same_some u v h = cc

-- What a call of `VerifyJWT` leaves as it is: what identifies and configures the client; and what
-- it keeps up: cached keys are points of the curve.
pub record KeepsClient (c c' : Client) : Type 0 where
  pub same_base : c'.base_url ≡ c.base_url
  pub same_app : c'.app_id ≡ c.app_id
  pub same_secret : c'.secret ≡ c.secret
  pub same_hc : c'.hc ≡ c.hc
  pub on_curve : ClientOnCurve c → ClientOnCurve c'

module _ (env : Env) where
  verify_with-eq-ok :
      (token : Text) (r : Result Verifier) (c : Client) (w : World) (d : Claims)
      → (verify_with env token r (c, w)).0 ≡ ok d
      → (v : Verifier) × (r ≡ ok v) × ((verify env token (v, w)).0 ≡ ok d)
  unfolding verify_with
  verify_with-eq-ok token (ok v) c w d h = (v, refl, h)
  verify_with-eq-ok token (err e) c w d h = absurd (ok-ne-err d e (sym h))

  -- If `VerifyJWT` returns claims, then the client has or can make a verifier, and that verifier
  -- accepts the token with these claims.
  pub verify_jwt_sound :
      (token : Text) (c : Client) (w : World) (d : Claims)
      → (verify_jwt env token (c, w)).0 ≡ ok d
      → (v : Verifier) × (own_verifier c ≡ ok v) × Accepted env token (v, w) d
  verify_jwt_sound token c w d h =
      let (v, own, accepted) =
        verify_with-eq-ok token (own_verifier c) c w d (rw verify_jwt_lem at h) in
      (v, own, (verify_iff env token (v, w) d).0 accepted)
    where
      verify_jwt_lem : verify_jwt env token (c, w) ≡ verify_with env token (own_verifier c) (c, w)
      verify_jwt_lem = unfold verify_jwt in refl

  -- `VerifyJWT` returns claims exactly if the client has or can make a verifier, and that
  -- verifier accepts the token with these claims.
  pub verify_jwt_iff :
      (token : Text) (c : Client) (w : World) (d : Claims)
      → ((verify_jwt env token (c, w)).0 ≡ ok d)
        ↔ ((v : Verifier) × (own_verifier c ≡ ok v) × Accepted env token (v, w) d)
  unfolding verify_jwt verify_with
  verify_jwt_iff token c w d = (verify_jwt_sound token c w d, back)
    where
      back :
          (v : Verifier) × (own_verifier c ≡ ok v) × Accepted env token (v, w) d
          → (verify_jwt env token (c, w)).0 ≡ ok d
      back (v, own, accepted) = rw own ((verify_iff env token (v, w) d).1 accepted)

  own-on-curve :
      (c : Client) (v : Verifier) (o : Option Verifier)
      → ClientOnCurve c
      → c.verifier ≡ o
      → verifier_or c o ≡ ok v
      → AllOnCurve v.keys
  own-on-curve c v (some u) on e h = on v (e ∙ ap some (unfold verifier_or in (ground arith)))
  own-on-curve c v none on e h =
      let same_verifier : first_verifier c ≡ v = ground (arith, verifier_or-none c) in
      subst (λ (u : Verifier). AllOnCurve u.keys) same_verifier tt

  KeepsClient-refl : (c : Client) → KeepsClient c c
  KeepsClient-refl c = record {
    same_base = refl;
    same_app = refl;
    same_secret = refl;
    same_hc = refl;
    on_curve = λ h. h;
  }

  verify_with-KeepsClient :
      (token : Text) (r : Result Verifier) (c : Client) (w : World)
      → own_verifier c ≡ r
      → KeepsClient c (verify_with env token r (c, w)).1.0
  unfolding verify_with
  verify_with-KeepsClient token (err e) c w own = KeepsClient-refl c
  verify_with-KeepsClient token (ok v) c w own =
      let after_call = (verify env token (v, w)).1.0 in
      let kept = verify-Harmless env token (v, w) in
      record {
        same_base = refl;
        same_app = refl;
        same_secret = refl;
        same_hc = refl;
        on_curve = λ on u e.
            subst (λ (x : Verifier). AllOnCurve x.keys) (same_some after_call u e)
              (kept.on_curve (own-on-curve c v c.verifier on refl (unfold own_verifier in own)));
      }

  -- Whatever the token and the outcome, `VerifyJWT` leaves the client's base URL, application id,
  -- secret and HTTP client as they are, and keeps the keys that its verifier has cached on the
  -- curve.
  pub verify_jwt-KeepsClient :
      (token : Text) (c : Client) (w : World) → KeepsClient c (verify_jwt env token (c, w)).1.0
  unfolding verify_jwt
  verify_jwt-KeepsClient token c w = verify_with-KeepsClient token (own_verifier c) c w refl

  verify_with-OneFetch :
      (token : Text) (r : Result Verifier) (c : Client) (w : World)
      → OneFetch env w (verify_with env token r (c, w)).1.1
  unfolding verify_with
  verify_with-OneFetch token (err e) c w = inl refl
  verify_with-OneFetch token (ok v) c w = (verify-Harmless env token (v, w)).one_fetch

  -- It sends at most one request, for the key set.
  pub verify_jwt-OneFetch :
      (token : Text) (c : Client) (w : World) → OneFetch env w (verify_jwt env token (c, w)).1.1
  unfolding verify_jwt
  verify_jwt-OneFetch token c w = verify_with-OneFetch token (own_verifier c) c w
