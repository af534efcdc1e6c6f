-- ===== src/Across/Tokens/GoSide.antt =====
-- A token with these documents in the Go SDK.
use ztxbas.Base.{◌≡◌, ◌≢◌, ◌↔◌, true, refl, sym, ap, subst, ◌∙◌, List, [], ◌∷◌, some}
use ztxbas.Base.Text.{Text, codes, same}
use ztxbas.Go.Json.{set_struct, set_text, set_int, parse_int}
use ztxbas.Errors.{ok, err}
use ztxbas.Runtime.{Env}
use ztxbas.Verifier.{Session, key_for_kid}
use ztxbas.Token.{
  Header, Claims, header_fields, claims_fields, blank_header, blank_claims, read_header,
  read_claims, check_claims, verify,
}
use ztxbas.Token.Parts.{split_iff}
use ztxbas.Token.Expiry.{Passes, check_claims_iff}
use ztxbas.Token.Signed.{IsSigned}
use ztxbas.Token.Accepted.{Accepted, verify_iff}
use ztxbas.Python.Token.{Kit}
use ztxbas.Across.Tokens.{header_document, claims_document, Holds, IsVouched}
use ztxbas.Across.KeySets.{if_ok}
use ztxbas.Errors.{Result}

header_set : (h : Header) → set_struct header_fields (header_document h) blank_header ≡ (h, true)
unfolding set_struct header_fields set_text same
header_set h = refl

claims_set :
    (c : Claims) (iat exp : Text)
    → parse_int iat ≡ some c.issued_at
    → parse_int exp ≡ some c.expires_at
    → set_struct claims_fields (claims_document c iat exp) blank_claims ≡ (c, true)
unfolding set_struct claims_fields set_text set_int same
claims_set c iat exp i e = rw (i, e) refl

ok_eq {ℓ} : {A : Type ℓ} (a b : A) → ok a ≡ ok b → a ≡ b
ok_eq a b e = cc

if_ok-eq-some {ℓ} : {A : Type ℓ} (r : Result A) (a : A) → if_ok r ≡ some a → r ≡ ok a
if_ok-eq-some (ok b) a e = cc
if_ok-eq-some (err x) a e = cc

-- The first three of a list.
abbrev three : List Text → Text × Text × Text
three (x ∷ y ∷ z ∷ l) = (x, y, z)
three l = ([], [], [])

module _ (env : Env) (kit : Kit) (token header payload sig : Text) (h : Header) (c : Claims)
    (iat exp : Text) (holds : Holds env kit token header payload sig h c iat exp) where
  header_is : read_header env header ≡ ok h
  unfolding read_header
  header_is = rw (holds.header_base64, holds.go_header, header_set h) refl

  claims_is : read_claims env payload ≡ ok c
  unfolding read_claims
  claims_is =
      rw (holds.payload_base64, holds.go_payload, claims_set c iat exp holds.go_iat holds.go_exp)
        refl

  module _ (s : Session) where
    abbrev end_of : Header → Session
    end_of g = (key_for_kid env g.kid s).1

    -- What `Verify` takes for these parts.
    abbrev Believed : Type 0
    Believed =
        IsVouched env h header payload sig (if_ok (key_for_kid env h.kid s).0)
        × (check_claims env (end_of h).0.expected_iss (env.now (end_of h).1.step).unix c ≡ ok c)

    there : Accepted env token s c → Believed
    there a =
        let same_parts : (a.header, a.payload, a.sig) ≡ (header, payload, sig) = ap three (
          sym ((split_iff token a.header a.payload a.sig).1 a.parts)
          ∙ (split_iff token header payload sig).1 holds.parts) in
        let same_fields : a.fields ≡ h = ok_eq a.fields h (
          sym (subst (λ p. read_header env p.0 ≡ ok a.fields) same_parts a.header_read)
          ∙ header_is) in
        (
          record {
            is_es256 = subst (λ g. g.alg ≡ codes "ES256") same_fields a.is_es256;
            has_kid = subst (λ g. g.kid ≢ []) same_fields a.has_kid;
            signer = a.key;
            is_found =
                ap if_ok (subst (λ g. (key_for_kid env g.kid s).0 ≡ ok a.key) same_fields a.found);
            signed = subst (λ p. IsSigned env a.key p.0 p.1 p.2) same_parts a.signed;
          },
          (check_claims_iff env _ _ c c).1 (
            refl,
            subst (λ g. Passes (end_of g).0.expected_iss (env.now (end_of g).1.step).unix c)
                same_fields a.passes,
          ),
        )

    back : Believed → Accepted env token s c
    back (v, passes) = record {
      header = header;
      payload = payload;
      sig = sig;
      parts = holds.parts;
      fields = h;
      header_read = header_is;
      is_es256 = v.is_es256;
      has_kid = v.has_kid;
      key = v.signer;
      found = if_ok-eq-some _ v.signer v.is_found;
      signed = v.signed;
      claims_read = claims_is;
      passes = ((check_claims_iff env _ _ c c).0 passes).1;
    }

    pub go_iff : ((verify env token s).0 ≡ ok c) ↔ Believed
    go_iff = let t = verify_iff env token s c in ((λ e. there (t.0 e)), λ b. t.1 (back b))
