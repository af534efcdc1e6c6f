-- ===== src/Node/Token/Steps.antt =====
-- When the Node SDK's `verify` returns, and what it took.
use ztxbas.Base.{ℕ, ◌/◌, ◌≡◌, ◌↔◌, refl, sym, ap, ◌∙◌, [], ◌∷◌, arith}
use ztxbas.Base.Int.{pos}
use ztxbas.Base.Text.{Text, codes}
use ztxbas.Go.Strings.{split}
use ztxbas.Go.Json.{Json, Members}
use ztxbas.Runtime.{PublicKey}
use ztxbas.Node.Coalesce.{Answer}
use ztxbas.Node.Der.{Checked, check_raw}
use ztxbas.Node.Der as Der
use ztxbas.Node.Token.{
  Tools, Ended, returns, throws, then_with, members_of, or_unsigned, key_or, read_part, header_kid,
  checked, with_key, verify_parts, verify,
}

pub then_with_iff {ℓ κ} :
    {A : Type ℓ} {B : Type κ} (r : Ended A) (f : A → Ended B) (b : B)
    → (then_with r f ≡ returns b) ↔ ((a : A) × (r ≡ returns a) × (f a ≡ returns b))
then_with_iff (returns a) f b = ((λ h. (a, refl, h)), λ (x, e, h). ground arith)
then_with_iff (throws e) f b = ((λ h. cc), λ (x, e, h). cc)

or_unsigned_iff : (c : Checked) → (or_unsigned c ≡ returns tt) ↔ (c ≡ Der.passed)
or_unsigned_iff Der.passed = ((λ h. refl), λ h. refl)
or_unsigned_iff (Der.thrown e) = ((λ h. cc), λ h. cc)

module _ (tools : Tools) (expected : Text) (key_for_kid : Json → Answer) (now_ms : ℕ) where
  -- What it takes for a token of three parts to be accepted with these claims.
  pub record Taken (header payload sig : Text) (claims : Json) : Type 0 where
    pub fields : Json
    pub header_read : read_part tools (codes "decode JWT header: ") header ≡ returns fields
    pub header_members : Members
    pub header_has : members_of fields ≡ returns header_members
    pub kid : Json
    pub named : header_kid tools header_members ≡ returns kid
    pub key : PublicKey
    pub found : key_or (key_for_kid kid) ≡ returns key
    pub signed :
        check_raw tools.crypto_verify key header payload (tools.from_base64url sig) ≡ Der.passed
    pub document : Json
    pub payload_read : read_part tools (codes "decode JWT payload: ") payload ≡ returns document
    pub payload_members : Members
    pub payload_has : members_of document ≡ returns payload_members
    pub passes :
        checked tools expected (pos (now_ms / 1000)) document payload_members ≡ returns claims

  pub verify_iff :
      (token header payload sig : Text) (claims : Json)
      → split token b'.' ≡ header ∷ payload ∷ sig ∷ []
      → (verify tools expected key_for_kid now_ms token ≡ returns claims)
        ↔ Taken header payload sig claims
  unfolding verify_parts with_key
  verify_iff token header payload sig claims parts = (there, back)
    where
      parted :
          verify tools expected key_for_kid now_ms token
          ≡ verify_parts tools expected key_for_kid now_ms (header ∷ payload ∷ sig ∷ [])
      parted = unfold verify in ap (verify_parts tools expected key_for_kid now_ms) parts

      there :
          verify tools expected key_for_kid now_ms token ≡ returns claims
          → Taken header payload sig claims
      there h =
          let (fields, header_read, h₁) = (then_with_iff _ _ claims).0 (sym parted ∙ h) in
          let (ms, header_has, h₂) = (then_with_iff _ _ claims).0 h₁ in
          let (kid, named, h₃) = (then_with_iff _ _ claims).0 h₂ in
          let (key, found, h₄) = (then_with_iff _ _ claims).0 h₃ in
          let (u, signed, h₅) = (then_with_iff _ _ claims).0 h₄ in
          let (document, payload_read, h₆) = (then_with_iff _ _ claims).0 h₅ in
          let (ns, payload_has, passes) = (then_with_iff _ _ claims).0 h₆ in
          record {
            fields = fields;
            header_read = header_read;
            header_members = ms;
            header_has = header_has;
            kid = kid;
            named = named;
            key = key;
            found = found;
            signed = (or_unsigned_iff _).0 signed;
            document = document;
            payload_read = payload_read;
            payload_members = ns;
            payload_has = payload_has;
            passes = passes;
          }

      back :
          Taken header payload sig claims
          → verify tools expected key_for_kid now_ms token ≡ returns claims
      back t =
          parted
          ∙ (then_with_iff _ _ claims).1 (
            t.fields,
            t.header_read,
            (then_with_iff _ _ claims).1 (
              t.header_members,
              t.header_has,
              (then_with_iff _ _ claims).1 (
                t.kid,
                t.named,
                (then_with_iff _ _ claims).1 (
                  t.key,
                  t.found,
                  (then_with_iff _ _ claims).1 (
                    tt,
                    (or_unsigned_iff _).1 t.signed,
                    (then_with_iff _ _ claims).1 (
                      t.document,
                      t.payload_read,
                      (then_with_iff _ _ claims).1 (t.payload_members, t.payload_has, t.passes),
                    ),
                  ),
                ),
              ),
            ),
          )
