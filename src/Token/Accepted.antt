-- ===== src/Token/Accepted.antt =====
-- Which tokens `Verify` accepts.
use ztxbas.Base.{◌≡◌, ◌≢◌, ◌↔◌, refl, sym, ap, subst, ◌∙◌, List, [], ◌∷◌, arith}
use ztxbas.Base.Text.{Text, codes, same_iff, is_empty_iff}
use ztxbas.Go.Strings.{split}
use ztxbas.Errors.{with_result, Result, ok, err}
use ztxbas.Errors.Steps.{with_result_iff}
use ztxbas.Runtime.{Env, PublicKey}
use ztxbas.Verifier.{Session, key_for_kid}
use ztxbas.Token.{
  Claims, Header, read_header, read_claims, header_kid, read_signed, check_now, with_key, with_kid,
  verify_parts, verify,
}
use ztxbas.Token.Parts.{IsToken, split_iff}
use ztxbas.Token.Expiry.{Passes, check_claims_iff}
use ztxbas.Token.Signed.{IsSigned, read_signed_iff}

module _ (env : Env) where
  header_kid_iff :
      (h : Header) (kid : Text)
      → (header_kid env h ≡ ok kid) ↔ ((h.alg ≡ codes "ES256") × (h.kid ≢ []) × (h.kid ≡ kid))
  unfolding header_kid
  header_kid_iff h kid = ground (arith, same_iff h.alg (codes "ES256"), is_empty_iff h.kid)

  -- What it takes for a token to be accepted with these claims, in a state of the verifier and the
  -- world: three parts; a header that names ES256 and a key id; a key that the lookup of that id
  -- returns; a signature of the first two parts under that key; claims in the second part; and
  -- claims that pass the checks at the time that is read then.
  pub record Accepted (token : Text) (s : Session) (c : Claims) : Type 0 where
    pub header : Text
    pub payload : Text
    pub sig : Text
    pub parts : IsToken token header payload sig
    pub fields : Header
    pub header_read : read_header env header ≡ ok fields
    pub is_es256 : fields.alg ≡ codes "ES256"
    pub has_kid : fields.kid ≢ []
    pub key : PublicKey
    pub found : (key_for_kid env fields.kid s).0 ≡ ok key
    pub signed : IsSigned env key header payload sig
    pub claims_read : read_claims env payload ≡ ok c
    pub passes :
        let (v, w) = (key_for_kid env fields.kid s).1 in
        Passes v.expected_iss (env.now w.step).unix c

  check_now_iff :
      (r : Result Claims) (s : Session) (c : Claims)
      → ((check_now env r s).0 ≡ ok c)
        ↔ ((r ≡ ok c) × Passes s.0.expected_iss (env.now s.1.step).unix c)
  unfolding check_now
  check_now_iff (err e) s c = ((λ h. cc), λ (h, _). cc)
  check_now_iff (ok d) (v, w) c =
      let t = check_claims_iff env v.expected_iss (env.now w.step).unix d c in
      (
        (λ h.
            let (same_claims, p) = t.0 h in (ap ok same_claims, subst (Passes _ _) same_claims p)),
        λ (e, p).
            let same_claims : d ≡ c = ground arith in
            t.1 (same_claims, subst (Passes _ _) (sym same_claims) p),
      )

  with_key-eq-ok :
      (header payload sig : Text) (p : Result PublicKey × Session) (c : Claims)
      → (with_key env header payload sig p).0 ≡ ok c
      → (key : PublicKey) × (p.0 ≡ ok key)
        × ((check_now env (read_signed env key header payload sig) p.1).0 ≡ ok c)
  with_key-eq-ok header payload sig (ok key, s) c h = (key, refl, unfold with_key in h)
  with_key-eq-ok header payload sig (err e, s) c h = absurd (refused (unfold with_key in h))
    where
      refused : err e ≡ ok c → ⊥
      refused q = cc

  with_key_lem :
      (header payload sig : Text) (p : Result PublicKey × Session) (key : PublicKey)
      → p.0 ≡ ok key
      → with_key env header payload sig p
        ≡ check_now env (read_signed env key header payload sig) p.1
  with_key_lem header payload sig (r, s) key e = rw e (unfold with_key in refl)

  with_kid-eq-ok :
      (header payload sig : Text) (r : Result Text) (s : Session) (c : Claims)
      → (with_kid env header payload sig r s).0 ≡ ok c
      → (kid : Text) × (r ≡ ok kid)
        × ((with_key env header payload sig (key_for_kid env kid s)).0 ≡ ok c)
  with_kid-eq-ok header payload sig (ok kid) s c h = (kid, refl, unfold with_kid in h)
  with_kid-eq-ok header payload sig (err e) s c h = absurd (refused (unfold with_kid in h))
    where
      refused : err e ≡ ok c → ⊥
      refused q = cc

  verify_parts-eq-ok :
      (ps : List Text) (s : Session) (c : Claims)
      → (verify_parts env ps s).0 ≡ ok c
      → (header : Text) × (payload : Text) × (sig : Text) × (ps ≡ header ∷ payload ∷ sig ∷ [])
        × ((with_kid env header payload sig
              (with_result (read_header env header) (header_kid env))
              s).0
            ≡ ok c)
  unfolding verify_parts
  verify_parts-eq-ok (header ∷ payload ∷ sig ∷ []) s c h = (header, payload, sig, refl, h)
  verify_parts-eq-ok ps s c h = cc

  accepted_parts :
      (token header payload sig : Text) (s : Session) (c : Claims)
      → IsToken token header payload sig
      → (with_kid env header payload sig
          (with_result (read_header env header) (header_kid env))
          s).0
        ≡ ok c
      → Accepted token s c
  accepted_parts token header payload sig s c parts h =
      let (kid, kid_read, h₁) = with_kid-eq-ok header payload sig _ s c h in
      let (fields, header_read, kid_ok) = (with_result_iff _ (header_kid env) kid).0 kid_read in
      let (es256, has_kid, same_kid) = (header_kid_iff fields kid).0 kid_ok in
      let (key, found, h₂) = with_key-eq-ok header payload sig (key_for_kid env kid s) c h₁ in
      let (signed_ok, passes) = (check_now_iff _ (key_for_kid env kid s).1 c).0 h₂ in
      let (signed, claims_read) = (read_signed_iff env key header payload sig c).0 signed_ok in
      record {
        header = header;
        payload = payload;
        sig = sig;
        parts = parts;
        fields = fields;
        header_read = header_read;
        is_es256 = es256;
        has_kid = has_kid;
        key = key;
        found = rw same_kid found;
        signed = signed;
        claims_read = claims_read;
        passes = rw same_kid passes;
      }

  -- `Verify` returns claims exactly if the token is three parts without dots, its header names
  -- ES256 and a nonempty key id, the lookup of that id returns a key, the third part is a 64-byte
  -- signature of the first two under that key, the second part decodes to the claims, and they
  -- pass the checks at the time read after the lookup.
  pub verify_iff :
      (token : Text) (s : Session) (c : Claims)
      → ((verify env token s).0 ≡ ok c) ↔ Accepted token s c
  unfolding verify
  verify_iff token s c = (there, back)
    where
      verify_def : verify env token s ≡ verify_parts env (split token b'.') s
      verify_def = refl

      there : (verify env token s).0 ≡ ok c → Accepted token s c
      there h =
          let (header, payload, sig, e, h₁) =
            verify_parts-eq-ok (split token b'.') s c (sym (ap (λ p. p.0) verify_def) ∙ h) in
          accepted_parts token header payload sig s c ((split_iff token header payload sig).0 e) h₁

      back : Accepted token s c → (verify env token s).0 ≡ ok c
      back a =
          let e = (split_iff token a.header a.payload a.sig).1 a.parts in
          let k = (with_result_iff _ (header_kid env) a.fields.kid).1 (
            a.fields,
            a.header_read,
            (header_kid_iff a.fields a.fields.kid).1 (a.is_es256, a.has_kid, refl),
          ) in
          let d =
            (read_signed_iff env a.key a.header a.payload a.sig c).1 (a.signed, a.claims_read) in
          let f = (check_now_iff _ (key_for_kid env a.fields.kid s).1 c).1 (d, a.passes) in
          ap (λ p. p.0)
            (verify_def
              ∙ (ap (λ ps. verify_parts env ps s) e
                  ∙ (ap (λ r. with_kid env a.header a.payload a.sig r s) k
                      ∙ with_key_lem a.header a.payload a.sig (key_for_kid env a.fields.kid s) a.key
                          a.found)))
          ∙ f
