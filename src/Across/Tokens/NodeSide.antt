-- ===== src/Across/Tokens/NodeSide.antt =====
-- A token with these documents in the Node SDK.
use ztxbas.Base.{
  ℕ, ◌/◌, ◌≡◌, ◌≢◌, ◌↔◌, refl, sym, ap, subst, ◌∙◌, Bool, ◌&&◌, not, [], none, some, if◌then◌else◌,
  arith,
}
use ztxbas.Base.Int.{ℤ, pos}
use ztxbas.Base.Result.{done}
use ztxbas.Base.Text.{Text, Bytes, codes, same, same_iff, is_empty, is_empty_iff}
use ztxbas.Errors.{ok}
use ztxbas.Go.Encoding.{base64_decode}
use ztxbas.Go.Json.{Json, str, Members, end}
use ztxbas.Runtime.{Env, PublicKey}
use ztxbas.Token.{Header, Claims, check_signature}
use ztxbas.Token.Parts.{IsToken, split_iff}
use ztxbas.Token.Signed.{IsSigned, check_signature_iff}
use ztxbas.Objects.{get_member}
use ztxbas.Node.Claims.{Refusal, expired, early, wrong_issuer, is_expired, is_early, check_claims}
use ztxbas.Node.Coalesce.{Answer, found, thrown}
use ztxbas.Node.Der.{check_raw}
use ztxbas.Node.Der as Der
use ztxbas.Node.Der.Agreement.{check_raw-check_signature}
use ztxbas.Node.Token.{
  Tools, Ended, returns, throws, Thrown, members_of, key_or, read_part, header_kid, checked, verify,
}
use ztxbas.Node.Token.Steps.{Taken, verify_iff}
use ztxbas.Across.Tokens.{
  header_document, claims_document, payload_of, HoldsInNode, IsAlikeNode, IsVouched, if_settled,
}

returns_eq {ℓ} : {A : Type ℓ} (a b : A) → returns a ≡ returns b → a ≡ b
returns_eq a b e = cc

some_eq {ℓ} : {A : Type ℓ} (a b : A) → some a ≡ some b → a ≡ b
some_eq a b e = cc

key_or_iff : (a : Answer) (key : PublicKey) → (key_or a ≡ returns key) ↔ (if_settled a ≡ some key)
key_or_iff (found k) key = ground arith
key_or_iff (thrown e) key = ground arith

-- The checks, by what each answers.
ladder_iff :
    (x y z : Bool) (m m' m'' : Thrown) (a b c : Refusal) (r r' : Json)
    → ((if x then throws m else if y then throws m' else if z then throws m'' else returns r)
        ≡ returns r')
      ↔ (((if x then some a else if y then some b else if z then some c else none) ≡ none)
          × (r ≡ r'))
ladder_iff x y z m m' m'' a b c r r' = ground arith

-- The members of the two documents.
abbrev inside : Ended Members → Members
inside (returns ms) = ms
inside (throws e) = end

module _ (env : Env) (tools : Tools) (alike : IsAlikeNode env tools) where
  part_is :
      (prefix part : Text) (bytes : Bytes) (j : Json)
      → base64_decode part ≡ some bytes
      → tools.parse bytes ≡ done j
      → read_part tools prefix part ≡ returns j
  part_is prefix part bytes j e read = rw (alike.base64 part bytes e, read) refl

  header_kid_iff :
      (h : Header) (kid : Json)
      → (header_kid tools (inside (members_of (header_document h))) ≡ returns kid)
        ↔ ((h.alg ≡ codes "ES256") × (h.kid ≢ []) × (str h.kid ≡ kid))
  unfolding header_kid get_member same
  header_kid_iff h kid = ground (arith, same_iff h.alg (codes "ES256"), is_empty_iff h.kid)

  checked_iff :
      (expected : Text) (now : ℤ) (c : Claims) (iat exp : Text) (j r : Json)
      → tools.int_of iat ≡ some c.issued_at
      → tools.int_of exp ≡ some c.expires_at
      → (checked tools expected now j (inside (members_of (claims_document c iat exp))) ≡ returns r)
        ↔ ((check_claims expected now (payload_of c) ≡ none) × (j ≡ r))
  unfolding checked check_claims get_member same
  checked_iff expected now c iat exp j r i e =
      rw (i, e)
        (ladder_iff (is_expired now (some c.expires_at)) (is_early now (some c.issued_at))
          (not (is_empty expected) && not (same c.issuer expected)) _ _ _ expired early wrong_issuer
          j r)

  module _ (token header payload sig : Text) (h : Header) (c : Claims) (iat exp expected : Text)
      (key_for_kid : Json → Answer) (now_ms : ℕ) (parts : IsToken token header payload sig)
      (holds : HoldsInNode tools header payload sig h c iat exp) where
    -- What `verify` takes for these parts.
    abbrev Believed : Type 0
    Believed =
        IsVouched env h header payload sig (if_settled (key_for_kid (str h.kid)))
        × (check_claims expected (pos (now_ms / 1000)) (payload_of c) ≡ none)

    header_is : read_part tools (codes "decode JWT header: ") header ≡ returns (header_document h)
    header_is =
        part_is (codes "decode JWT header: ") header holds.header_bytes _ holds.header_base64
          holds.header_parsed

    payload_is :
        read_part tools (codes "decode JWT payload: ") payload ≡ returns (claims_document c iat exp)
    payload_is =
        part_is (codes "decode JWT payload: ") payload holds.payload_bytes _ holds.payload_base64
          holds.payload_parsed

    sig_is : tools.from_base64url sig ≡ holds.sig_bytes
    sig_is = alike.base64 sig holds.sig_bytes holds.sig_base64

    check_iff :
        (key : PublicKey)
        → (check_raw tools.crypto_verify key header payload (tools.from_base64url sig) ≡ Der.passed)
          ↔ IsSigned env key header payload sig
    check_iff key =
        let node =
          check_raw-check_signature env tools.crypto_verify key header payload holds.sig_bytes
            alike.ders holds.all_bytes in
        let go = check_signature_iff env key header payload in
        (
          (λ e.
              let (size, valid) = (go holds.sig_bytes).0 (
                node.0 (
                  subst (λ b. check_raw tools.crypto_verify key header payload b ≡ Der.passed)
                    sig_is e)) in
              record {
                bytes = holds.sig_bytes;
                is_base64 = holds.sig_base64;
                is_64 = size;
                is_valid = valid;
              }),
          λ s.
              let same_bytes : s.bytes ≡ holds.sig_bytes =
                some_eq _ _ (sym s.is_base64 ∙ holds.sig_base64) in
              subst (λ b. check_raw tools.crypto_verify key header payload b ≡ Der.passed)
                (sym sig_is)
                (node.1 (
                  subst (λ b. check_signature env key header payload b ≡ ok tt) same_bytes
                    ((go s.bytes).1 (s.is_64, s.is_valid)))),
        )

    there :
        Taken tools expected key_for_kid now_ms header payload sig (claims_document c iat exp)
        → Believed
    there t =
        let same_fields : t.fields ≡ header_document h =
          returns_eq _ _ (sym t.header_read ∙ header_is) in
        let same_members : t.header_members ≡ inside (members_of (header_document h)) =
          ap inside (sym t.header_has ∙ ap members_of same_fields) in
        let (es256, has_kid, kid_is) =
          (header_kid_iff h t.kid).0
            (subst (λ ms. header_kid tools ms ≡ returns t.kid) same_members t.named) in
        let document_is : t.document ≡ claims_document c iat exp =
          returns_eq _ _ (sym t.payload_read ∙ payload_is) in
        let payload_members : t.payload_members ≡ inside (members_of (claims_document c iat exp)) =
          ap inside (sym t.payload_has ∙ ap members_of document_is) in
        (
          record {
            is_es256 = es256;
            has_kid = has_kid;
            signer = t.key;
            is_found = ap (λ j. if_settled (key_for_kid j)) kid_is ∙ (key_or_iff _ t.key).0 t.found;
            signed = (check_iff t.key).0 t.signed;
          },
          ((checked_iff expected (pos (now_ms / 1000)) c iat exp t.document
                (claims_document c iat exp) holds.node_iat holds.node_exp).0
              (subst
                (λ ms.
                  checked tools expected (pos (now_ms / 1000)) t.document ms
                  ≡ returns (claims_document c iat exp))
                payload_members t.passes)).0,
        )

    back :
        Believed
        → Taken tools expected key_for_kid now_ms header payload sig (claims_document c iat exp)
    back (v, passes) = record {
      fields = header_document h;
      header_read = header_is;
      header_members = inside (members_of (header_document h));
      header_has = refl;
      kid = str h.kid;
      named = (header_kid_iff h (str h.kid)).1 (v.is_es256, v.has_kid, refl);
      key = v.signer;
      found = (key_or_iff _ v.signer).1 v.is_found;
      signed = (check_iff v.signer).1 v.signed;
      document = claims_document c iat exp;
      payload_read = payload_is;
      payload_members = inside (members_of (claims_document c iat exp));
      payload_has = refl;
      passes =
          (checked_iff expected (pos (now_ms / 1000)) c iat exp (claims_document c iat exp)
              (claims_document c iat exp) holds.node_iat holds.node_exp).1
            (passes, refl);
    }

    pub node_iff :
        (verify tools expected key_for_kid now_ms token ≡ returns (claims_document c iat exp))
        ↔ Believed
    node_iff =
        let t =
          verify_iff tools expected key_for_kid now_ms token header payload sig
            (claims_document c iat exp) ((split_iff token header payload sig).1 parts) in
        ((λ e. there (t.0 e)), λ b. t.1 (back b))
