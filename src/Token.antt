-- ===== src/Token.antt =====
-- `(*Verifier).Verify` of sdk-go/verify.go: the parts of a token, its header, its signature and its
-- claims.

pub mod Parts
pub mod Expiry
pub mod Signed
pub mod Accepted
pub mod Effects
pub mod Refusals
use ztxbas.Base.{
  ℕ, ◌+◌, Bool, true, false, ◌&&◌, not, List, [], ◌∷◌, ◌++◌, Option, none, some, ◌==◌, ltb,
  if◌then◌else◌, length, take, drop,
}
use ztxbas.Base.Int.{ℤ, pos, negsuc, ltb_ℤ, add64, is_zero}
use ztxbas.Base.Result.{Outcome, done, fault}
use ztxbas.Base.Text.{Text, Bytes, codes, same, is_empty}
use ztxbas.Go.Strings.{split}
use ztxbas.Go.Strings.Decimal.{format_int}
use ztxbas.Go.Encoding.{base64_decode}
use ztxbas.Go.Json.{Json, Setter, set_text, set_int, set_struct}
use ztxbas.Errors.{with_result, or_wrap, Err, Result, ok, err, wrap, plain, foreign}
use ztxbas.Runtime.{Env, Exec, World, PublicKey, Instant, time_now}
use ztxbas.Jwks.{set_bytes}
use ztxbas.Verifier.{Verifier, Session, key_for_kid}

pub record Claims : Type 0 where
  pub issuer : Text
  pub subject : Text
  pub audience : Text
  pub issued_at : ℤ
  pub expires_at : ℤ
  pub email : Text
  pub origin : Text
  pub challenge_id : Text

abbrev pub blank_claims : Claims
blank_claims = record {
  issuer = [];
  subject = [];
  audience = [];
  issued_at = pos 0;
  expires_at = pos 0;
  email = [];
  origin = [];
  challenge_id = [];
}

-- The `json` tags of `Claims`.
unfoldable pub claims_fields : List (Text × Setter Claims)
unfolding set_text set_int
claims_fields =
    (codes "iss", λ j c. let (t, fits) = set_text j c.issuer in (record c { issuer = t }, fits))
    ∷ (codes "sub", λ j c. let (t, fits) = set_text j c.subject in (record c { subject = t }, fits))
    ∷ (
      codes "aud",
      λ j c. let (t, fits) = set_text j c.audience in (record c { audience = t }, fits),
    )
    ∷ (
      codes "iat",
      λ j c. let (z, fits) = set_int j c.issued_at in (record c { issued_at = z }, fits),
    )
    ∷ (
      codes "exp",
      λ j c. let (z, fits) = set_int j c.expires_at in (record c { expires_at = z }, fits),
    )
    ∷ (codes "email", λ j c. let (t, fits) = set_text j c.email in (record c { email = t }, fits))
    ∷ (
      codes "origin",
      λ j c. let (t, fits) = set_text j c.origin in (record c { origin = t }, fits),
    )
    ∷ (
      codes "challenge_id",
      λ j c. let (t, fits) = set_text j c.challenge_id in (record c { challenge_id = t }, fits),
    )
    ∷ []

-- The anonymous struct of the header.
pub record Header : Type 0 where
  pub alg : Text
  pub typ : Text
  pub kid : Text

abbrev pub blank_header : Header
blank_header = record { alg = []; typ = []; kid = [] }

unfoldable pub header_fields : List (Text × Setter Header)
unfolding set_text
header_fields =
    (codes "alg", λ j h. let (t, fits) = set_text j h.alg in (record h { alg = t }, fits))
    ∷ (codes "typ", λ j h. let (t, fits) = set_text j h.typ in (record h { typ = t }, fits))
    ∷ (codes "kid", λ j h. let (t, fits) = set_text j h.kid in (record h { kid = t }, fits))
    ∷ []

-- 30 s.
abbrev pub clock_skew : ℤ
clock_skew = pos 30

abbrev pub corrupt : Text
corrupt = codes "illegal base64 data"

abbrev pub decoded : Text → Option Bytes → Result Bytes
decoded prefix none = err (wrap prefix (foreign corrupt))
decoded prefix (some b) = ok b

abbrev pub fitted {ℓ} : {A : Type ℓ} → Text → A × Bool → Result A
fitted prefix (a, true) = ok a
fitted prefix (a, false) = err (wrap prefix (foreign (codes "json: cannot unmarshal")))

module _ (env : Env) where
  -- `time.Now` is not read here: `now` is its Unix time. The three checks in the source's order.
  unfoldable pub check_claims : Text → ℤ → Claims → Result Claims
  check_claims expected_iss now c =
      if not (is_zero c.expires_at) && ltb_ℤ (add64 c.expires_at clock_skew) now
      then err (
          plain (
            codes "ztxbas: JWT expired at "
            ++ format_int c.expires_at
            ++ codes " (now "
            ++ format_int now
            ++ codes ")"))
      else if not (is_zero c.issued_at) && ltb_ℤ (add64 now clock_skew) c.issued_at
      then err (
          plain (
            codes "ztxbas: JWT iat in the future ("
            ++ format_int c.issued_at
            ++ codes ", now "
            ++ format_int now
            ++ codes ")"))
      else if not (is_empty expected_iss) && not (same c.issuer expected_iss)
      then err (
          plain (
            codes "ztxbas: JWT iss "
            ++ env.quote c.issuer
            ++ codes " does not match expected "
            ++ env.quote expected_iss))
      else ok c

  -- The document of a part: base64, JSON, and the struct.
  unfoldable pub read_header : Text → Result Header
  unfolding set_struct header_fields
  read_header part =
      with_result (decoded (codes "ztxbas: decode JWT header: ") (base64_decode part)) (λ b.
        with_result (or_wrap (codes "ztxbas: parse JWT header: ") (env.parse_json b)) (λ j.
          fitted (codes "ztxbas: parse JWT header: ") (set_struct header_fields j blank_header)))

  unfoldable pub read_claims : Text → Result Claims
  unfolding set_struct claims_fields
  read_claims part =
      with_result (decoded (codes "ztxbas: decode JWT payload: ") (base64_decode part)) (λ b.
        with_result (or_wrap (codes "ztxbas: parse JWT payload: ") (env.parse_json b)) (λ j.
          fitted (codes "ztxbas: parse JWT payload: ") (set_struct claims_fields j blank_claims)))

  abbrev pub unsupported : Text → Err
  unsupported alg =
      plain (codes "ztxbas: unsupported JWT alg " ++ env.quote alg ++ codes " (want ES256)")

  -- The key id of a header whose algorithm is ES256.
  unfoldable pub header_kid : Header → Result Text
  header_kid h =
      if same h.alg (codes "ES256")
      then if is_empty h.kid then err (plain (codes "ztxbas: JWT header missing kid")) else ok h.kid
      else err (unsupported h.alg)

  -- The signature is r and s, of 32 bytes each, over the first two parts.
  unfoldable pub check_signature : PublicKey → Text → Text → Bytes → Result (Unit {0})
  check_signature key header payload sig =
      if length sig == 64
      then if env.ecdsa_verify key (env.sha256 (header ++ b'.' ∷ payload)) (set_bytes (take 32 sig))
          (set_bytes (drop 32 sig))
        then ok tt
        else err (plain (codes "ztxbas: JWT signature invalid"))
      else err (
          plain (
            codes "ztxbas: ES256 signature must be 64 bytes, got "
            ++ format_int (pos (length sig))))

  -- What follows the lookup of the key, up to the reading of the clock.
  unfoldable pub read_signed : PublicKey → Text → Text → Text → Result Claims
  read_signed key header payload sig =
      with_result (decoded (codes "ztxbas: decode JWT signature: ") (base64_decode sig))
        (λ b. with_result (check_signature key header payload b) (λ _. read_claims payload))

  -- The clock is read once the claims are there.
  pub check_now : Result Claims → Exec Session Claims
  unfolding time_now check_claims
  check_now (err e) s = (err e, s)
  check_now (ok c) (v, w) =
      let (now, w') = time_now env w in (check_claims v.expected_iss now.unix c, (v, w'))

  pub with_key : Text → Text → Text → Result PublicKey × Session → Result Claims × Session
  unfolding check_now
  with_key header payload sig (err e, s) = (err e, s)
  with_key header payload sig (ok key, s) = check_now (read_signed key header payload sig) s

  pub with_kid : Text → Text → Text → Result Text → Exec Session Claims
  unfolding with_key
  with_kid header payload sig (err e) s = (err e, s)
  with_kid header payload sig (ok kid) s = with_key header payload sig (key_for_kid env kid s)

  pub verify_parts : List Text → Exec Session Claims
  unfolding with_kid
  verify_parts (header ∷ payload ∷ sig ∷ []) s =
      with_kid header payload sig (with_result (read_header header) header_kid) s
  verify_parts parts s = (
    err (
        plain
          (codes "ztxbas: malformed JWT: want 3 parts, got " ++ format_int (pos (length parts)))),
    s,
  )

  unfoldable pub verify : Text → Exec Session Claims
  unfolding verify_parts
  verify token s = verify_parts (split token b'.') s
