-- ===== src/Across/Tokens/PythonReading.antt =====
-- What the steps of the Python SDK's `verify` make of these documents.
use mathlib.Core.List.{append-nil}
use ztxbas.Base.{
  ℕ, ◌<◌, ◌≡◌, ◌≢◌, ◌↔◌, refl, sym, ap, subst, ◌∙◌, Bool, true, ◌&&◌, not, [], ◌∷◌, ◌++◌, none,
  some, if◌then◌else◌, arith, length, ==_iff, take, drop,
}
use ztxbas.Base.Int.{ℤ}
use ztxbas.Base.Result.{Outcome, done, fault}
use ztxbas.Base.Text.{Text, Bytes, codes, same, same_iff, is_empty, is_empty_iff}
use ztxbas.Go.Encoding.{base64_decode, sextet}
use ztxbas.Go.Json.{Json, str}
use ztxbas.Runtime.{Env, PublicKey}
use ztxbas.Jwks.{set_bytes}
use ztxbas.Token.{Header, Claims}
use ztxbas.Node.Claims.{Refusal, expired, early, wrong_issuer}
use ztxbas.Objects.{get_member}
use ztxbas.Python.Claims.{is_expired, is_early, check_claims}
use ztxbas.Python.KeySet.{returns, b64url_decode}
use ztxbas.Python.Lookup.{Answer, found, not_present, raised}
use ztxbas.Python.Token.{
  Kit, of_64, or_refused, then_with, refused, is_ascii, key_or, read_part, header_kid,
  raw_signature, check_signature, from_dict, checked,
}
use ztxbas.Python.Token.{Claims as Returned}
use ztxbas.Python.Token.Steps.{check_signature_iff}
use ztxbas.Across.KeySets.{IsBase64, if_done}
use ztxbas.Across.Tokens.{
  header_document, claims_document, python_claims, payload_of, IsAlike, if_found,
}

if_done-eq-some {ℓ} : {A : Type ℓ} (o : Outcome A) (a : A) → if_done o ≡ some a → o ≡ done a
if_done-eq-some (done b) a e = cc
if_done-eq-some (fault m) a e = cc

pub returns_eq {ℓ} : {A : Type ℓ} (a b : A) → returns a ≡ returns b → a ≡ b
returns_eq a b e = cc

pub key_or_iff :
    (m : Text) (a : Answer) (key : PublicKey) → (key_or m a ≡ returns key) ↔ (if_found a ≡ some key)
key_or_iff m (found k) key = ground arith
key_or_iff m not_present key = ground arith
key_or_iff m (raised e) key = ground arith

sextet_small : (c d : ℕ) → sextet c ≡ some d → c < 128
unfolding sextet
sextet_small c d e = ground arith

letters-is_ascii : (s t : Text) → IsBase64 s → is_ascii t ≡ true → is_ascii (s ++ t) ≡ true
unfolding is_ascii
letters-is_ascii [] t all rest = rest
letters-is_ascii (c ∷ s) t ((d, e), all) rest =
    ground (arith, sextet_small c d e, letters-is_ascii s t all rest)

dot_ascii : (t : Text) → is_ascii t ≡ true → is_ascii (b'.' ∷ t) ≡ true
unfolding is_ascii
dot_ascii t e = ground arith

nil_ascii : is_ascii [] ≡ true
unfolding is_ascii
nil_ascii = refl

-- The checks, by what each answers.
ladder_iff :
    (x y z : Bool) (m m' m'' : Text) (a b c : Refusal) (r r' : Returned)
    → ((if x then refused m else if y then refused m' else if z then refused m'' else returns r)
        ≡ returns r')
      ↔ (((if x then some a else if y then some b else if z then some c else none) ≡ none)
          × (r ≡ r'))
ladder_iff x y z m m' m'' a b c r r' = ground arith

of_64_iff : (b raw : Bytes) → (of_64 b ≡ returns raw) ↔ ((b ≡ raw) × (length raw ≡ 64))
of_64_iff b raw = (there, back)
  where
    there : of_64 b ≡ returns raw → (b ≡ raw) × (length raw ≡ 64)
    there e =
        let same_bytes : b ≡ raw = ground (arith, ==_iff (length b) 64) in
        (same_bytes, subst (λ x. length x ≡ 64) same_bytes (ground (arith, ==_iff (length b) 64)))

    back : (b ≡ raw) × (length raw ≡ 64) → of_64 b ≡ returns raw
    back (e, n) = rw (e, n) refl

of_outcome :
    (o : Outcome Bytes) (raw : Bytes)
    → (then_with (or_refused (codes "decode JWT signature: ") o) of_64 ≡ returns raw)
      ↔ ((if_done o ≡ some raw) × (length raw ≡ 64))
of_outcome (done b) raw =
    let t = of_64_iff b raw in
    ((λ e. let (p, n) = t.0 e in (ap some p, n)), λ (e, n). t.1 (ground arith, n))
of_outcome (fault m) raw = ((λ e. cc), λ (e, n). cc)

module _ (env : Env) (kit : Kit) (alike : IsAlike env kit) where
  pub part_is :
      (prefix part : Text) (bytes : Bytes) (j : Json)
      → IsBase64 part
      → base64_decode part ≡ some bytes
      → kit.host.reader.loads bytes ≡ done j
      → read_part kit prefix part ≡ returns j
  unfolding read_part
  part_is prefix part bytes j letters e read =
      let got : b64url_decode kit.host.reader part ≡ done bytes =
        if_done-eq-some _ bytes (alike.base64 part letters ∙ e) in
      rw (got, read) refl

  pub header_kid_iff :
      (h : Header) (kid : Json)
      → (header_kid kit (header_document h) ≡ returns kid)
        ↔ ((h.alg ≡ codes "ES256") × (h.kid ≢ []) × (str h.kid ≡ kid))
  unfolding header_kid get_member same
  header_kid_iff h kid = ground (arith, same_iff h.alg (codes "ES256"), is_empty_iff h.kid)

  pub raw_signature_iff :
      (sig : Text) (raw : Bytes)
      → IsBase64 sig
      → (raw_signature kit sig ≡ returns raw) ↔ ((base64_decode sig ≡ some raw) × (length raw ≡ 64))
  raw_signature_iff sig raw letters =
      rw (← alike.base64 sig letters) (of_outcome (b64url_decode kit.host.reader sig) raw)

  pub checked_iff :
      (expected : Text) (now : ℤ) (c : Claims) (iat exp : Text) (r : Returned)
      → kit.int_of iat ≡ some c.issued_at
      → kit.int_of exp ≡ some c.expires_at
      → (checked kit expected now (claims_document c iat exp) ≡ returns r)
        ↔ ((check_claims expected now (payload_of c) ≡ none) × (python_claims c iat exp ≡ r))
  unfolding checked check_claims from_dict get_member same
  checked_iff expected now c iat exp r i e =
      rw (i, e)
        (ladder_iff (is_expired now (some c.expires_at)) (is_early now (some c.issued_at))
          (not (is_empty expected) && not (same c.issuer expected)) _ _ _ expired early wrong_issuer
          (python_claims c iat exp) r)

  module _ (header payload sig : Text) where
    pub check_iff :
        (key : PublicKey) (raw : Bytes)
        → IsBase64 header
        → IsBase64 payload
        → (check_signature kit key header payload raw ≡ returns tt) ↔ (
            env.ecdsa_verify key
              (env.sha256 (header ++ b'.' ∷ payload))
              (set_bytes (take 32 raw))
              (set_bytes (drop 32 raw))
            ≡ true)
    check_iff key raw hl pl =
        let t = check_signature_iff kit key header payload raw in
        let same_check =
          alike.pairs key (header ++ b'.' ∷ payload) (set_bytes (take 32 raw))
            (set_bytes (drop 32 raw)) in
        (
          (λ e. sym same_check ∙ (t.0 e).1),
          λ e. t.1 (
            letters-is_ascii header (b'.' ∷ payload) hl (
                dot_ascii payload (
                  subst (λ x. is_ascii x ≡ true) (append-nil payload)
                    (letters-is_ascii payload [] pl nil_ascii))),
            same_check ∙ e,
          ),
        )
