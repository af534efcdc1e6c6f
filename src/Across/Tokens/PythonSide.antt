-- ===== src/Across/Tokens/PythonSide.antt =====
-- A token with these documents in the Python SDK.
use ztxbas.Base.{◌/◌, ◌≡◌, ◌↔◌, refl, sym, ap, subst, ◌∙◌, none}
use ztxbas.Base.Int.{ℤ, pos}
use ztxbas.Base.Text.{Text, codes}
use ztxbas.Go.Json.{str}
use ztxbas.Runtime.{Env}
use ztxbas.Token.{Header, Claims}
use ztxbas.Token.Parts.{split_iff}
use ztxbas.Python.Claims.{check_claims}
use ztxbas.Python.KeySet.{returns}
use ztxbas.Python.Lookup.{Session, key_for_kid}
use ztxbas.Python.Token.{Kit, read_part, header_kid, look_up, checked, verify}
use ztxbas.Python.Token.Steps.{Taken, verify_iff}
use ztxbas.Across.Tokens.{
  header_document, claims_document, python_claims, payload_of, Holds, IsAlike, IsVouched, if_found,
}
use ztxbas.Across.Tokens.PythonReading.{
  returns_eq, key_or_iff, part_is, header_kid_iff, raw_signature_iff, checked_iff, check_iff,
}

module _ (env : Env) (kit : Kit) (alike : IsAlike env kit) where
  module _ (token header payload sig : Text) (h : Header) (c : Claims) (iat exp expected : Text)
      (s : Session) (holds : Holds env kit token header payload sig h c iat exp) where
    abbrev now_after : ℤ
    now_after = pos (kit.host.clock (key_for_kid kit.host h.kid s).1.effects / 1000000000)

    -- What `verify` takes for these parts.
    abbrev Believed : Type 0
    Believed =
        IsVouched env h header payload sig (if_found (key_for_kid kit.host h.kid s).0)
        × (check_claims expected now_after (payload_of c) ≡ none)

    text_looked_up : look_up kit (str h.kid) s ≡ key_for_kid kit.host h.kid s
    unfolding look_up
    text_looked_up = refl

    header_is : read_part kit (codes "decode JWT header: ") header ≡ returns (header_document h)
    header_is =
        part_is env kit alike _ header holds.header_bytes _ holds.header_letters holds.header_base64
          holds.python_header

    payload_is :
        read_part kit (codes "decode JWT payload: ") payload ≡ returns (claims_document c iat exp)
    payload_is =
        part_is env kit alike _ payload holds.payload_bytes _ holds.payload_letters
          holds.payload_base64 holds.python_payload

    there : Taken kit expected header payload sig s (python_claims c iat exp) → Believed
    there t =
        let same_fields : t.fields ≡ header_document h =
          returns_eq _ _ (sym t.header_read ∙ header_is) in
        let (es256, has_kid, kid_is) =
          (header_kid_iff env kit alike h t.kid).0
            (subst (λ j. header_kid kit j ≡ returns t.kid) same_fields t.named) in
        let looked : look_up kit t.kid s ≡ key_for_kid kit.host h.kid s =
          ap (λ j. look_up kit j s) (sym kid_is) ∙ text_looked_up in
        let (is_base64, is_64) =
          (raw_signature_iff env kit alike sig t.raw holds.sig_letters).0 t.decoded in
        let document_is : t.document ≡ claims_document c iat exp =
          returns_eq _ _ (sym t.payload_read ∙ payload_is) in
        (
          record {
            is_es256 = es256;
            has_kid = has_kid;
            signer = t.key;
            is_found = ap (λ p. if_found p.0) (sym looked) ∙ (key_or_iff _ _ t.key).0 t.found;
            signed = record {
              bytes = t.raw;
              is_base64 = is_base64;
              is_64 = is_64;
              is_valid =
                  (check_iff env kit alike header payload sig t.key t.raw holds.header_letters
                      holds.payload_letters).0
                    t.signed;
            };
          },
          ((checked_iff env kit alike expected now_after c iat exp (python_claims c iat exp)
                holds.python_iat holds.python_exp).0
              (subst (λ j. checked kit expected now_after j ≡ returns (python_claims c iat exp))
                document_is
                (subst
                  (λ p.
                    checked kit expected (pos (kit.host.clock p.1.effects / 1000000000)) t.document
                    ≡ returns (python_claims c iat exp))
                  looked t.passes))).0,
        )

    back : Believed → Taken kit expected header payload sig s (python_claims c iat exp)
    back (v, passes) = record {
      fields = header_document h;
      header_read = header_is;
      kid = str h.kid;
      named = (header_kid_iff env kit alike h (str h.kid)).1 (v.is_es256, v.has_kid, refl);
      key = v.signer;
      found = (key_or_iff _ _ v.signer).1 (ap (λ p. if_found p.0) text_looked_up ∙ v.is_found);
      raw = v.signed.bytes;
      decoded =
          (raw_signature_iff env kit alike sig v.signed.bytes holds.sig_letters).1
            (v.signed.is_base64, v.signed.is_64);
      signed =
          (check_iff env kit alike header payload sig v.signer v.signed.bytes holds.header_letters
              holds.payload_letters).1
            v.signed.is_valid;
      document = claims_document c iat exp;
      payload_read = payload_is;
      passes =
          subst
            (λ p.
              checked kit expected (pos (kit.host.clock p.1.effects / 1000000000))
                (claims_document c iat exp)
              ≡ returns (python_claims c iat exp))
            (sym text_looked_up)
            ((checked_iff env kit alike expected now_after c iat exp (python_claims c iat exp)
                holds.python_iat holds.python_exp).1
              (passes, refl));
    }

    pub python_iff :
        ((verify kit expected token s).0 ≡ returns (python_claims c iat exp)) ↔ Believed
    python_iff =
        let t =
          verify_iff kit expected token header payload sig s (python_claims c iat exp)
            ((split_iff token header payload sig).1 holds.parts) in
        ((λ e. there (t.0 e)), λ b. t.1 (back b))
