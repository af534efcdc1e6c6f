-- ===== src/Python/Token/Steps.antt =====
-- When each step of the Python SDK's `verify` returns, and what it took.
use ztxbas.Base.{
  ◌≡◌, ◌↔◌, refl, sym, ap, ◌∙◌, Bool, true, ◌∷◌, [], ◌++◌, if◌then◌else◌, arith, take, drop, ◌/◌,
  some,
}
use ztxbas.Base.Int.{pos}
use ztxbas.Base.Text.{Text, Bytes, codes}
use ztxbas.Go.Strings.{split}
use ztxbas.Go.Json.{Json}
use ztxbas.Runtime.{PublicKey}
use ztxbas.Jwks.{set_bytes}
use ztxbas.Python.KeySet.{Exit, returns, raises}
use ztxbas.Python.Lookup.{Session}
use ztxbas.Python.Token.{
  Kit, Claims, then_with, refused, is_ascii, key_or, read_part, header_kid, look_up, raw_signature,
  check_signature, read_signed, checked, check_now, with_key, with_kid, verify_parts, verify,
}

pub then_with_iff {ℓ κ} :
    {A : Type ℓ} {B : Type κ} (r : Exit A) (f : A → Exit B) (b : B)
    → (then_with r f ≡ returns b) ↔ ((a : A) × (r ≡ returns a) × (f a ≡ returns b))
then_with_iff (returns a) f b = ((λ h. (a, refl, h)), λ (x, e, h). ground arith)
then_with_iff (raises e) f b = ((λ h. cc), λ (x, e, h). cc)

two_tests :
    (x y : Bool) (m : Text) (e : Exit (Unit {0}))
    → (e ≡ returns tt → ⊥)
    → (◌≡◌ {A = Exit (Unit {0})}
        (if x then if y then returns tt else refused m else e)
        (returns tt))
      ↔ ((x ≡ true) × (y ≡ true))
two_tests x y m e apart = ground arith

module _ (kit : Kit) where
  pub check_signature_iff :
      (key : PublicKey) (header payload : Text) (raw : Bytes)
      → (check_signature kit key header payload raw ≡ returns tt) ↔ (
          (is_ascii (header ++ b'.' ∷ payload) ≡ true)
          × (kit.verify_pair key
                (header ++ b'.' ∷ payload)
                (set_bytes (take 32 raw))
                (set_bytes (drop 32 raw))
              ≡ true))
  unfolding check_signature
  check_signature_iff key header payload raw = two_tests _ _ _ _ (λ e. cc)

  pub read_signed_iff :
      (key : PublicKey) (header payload sig : Text) (j : Json)
      → (read_signed kit key header payload sig ≡ returns j) ↔ (
          (raw : Bytes) × (raw_signature kit sig ≡ returns raw)
          × (check_signature kit key header payload raw ≡ returns tt)
          × (read_part kit (codes "decode JWT payload: ") payload ≡ returns j))
  unfolding read_signed
  read_signed_iff key header payload sig j = (
    (λ h.
        let (raw, got, h₁) = (then_with_iff (raw_signature kit sig) _ j).0 h in
        let (u, ok, h₂) = (then_with_iff (check_signature kit key header payload raw) _ j).0 h₁ in
        (raw, got, ok, h₂)),
    λ (raw, got, ok, h).
        (then_with_iff (raw_signature kit sig) _ j).1 (
          raw,
          got,
          (then_with_iff (check_signature kit key header payload raw) _ j).1 (tt, ok, h),
        ),
  )

  module _ (expected : Text) where
    check_now_iff :
        (r : Exit Json) (s : Session) (c : Claims)
        → ((check_now kit expected r s).0 ≡ returns c) ↔ (
            (j : Json) × (r ≡ returns j)
            × (checked kit expected (pos (kit.host.clock s.effects / 1000000000)) j ≡ returns c))
    unfolding check_now
    check_now_iff (returns j) s c = ((λ h. (j, refl, h)), λ (x, e, h). ground arith)
    check_now_iff (raises e) s c = ((λ h. cc), λ (x, e, h). cc)

    with_key_iff :
        (header payload sig : Text) (r : Exit PublicKey) (s : Session) (c : Claims)
        → ((with_key kit expected header payload sig r s).0 ≡ returns c) ↔ (
            (key : PublicKey) × (r ≡ returns key)
            × ((check_now kit expected (read_signed kit key header payload sig) s).0 ≡ returns c))
    unfolding with_key
    with_key_iff header payload sig (returns key) s c =
        ((λ h. (key, refl, h)), λ (x, e, h). ground arith)
    with_key_iff header payload sig (raises e) s c = ((λ h. cc), λ (x, e, h). cc)

    abbrev pub missing_text : Json → Text
    missing_text kid =
        codes "JWT kid " ++ (kit.host.reader.repr (some kid) ++ codes " not present in JWKS")

    with_kid_iff :
        (header payload sig : Text) (r : Exit Json) (s : Session) (c : Claims)
        → ((with_kid kit expected header payload sig r s).0 ≡ returns c) ↔ (
            (kid : Json) × (r ≡ returns kid)
            × ((with_key kit expected header payload sig
                  (key_or (missing_text kid) (look_up kit kid s).0)
                  (look_up kit kid s).1).0
                ≡ returns c))
    unfolding with_kid
    with_kid_iff header payload sig (returns kid) s c =
        ((λ h. (kid, refl, h)), λ (x, e, h). ground arith)
    with_kid_iff header payload sig (raises e) s c = ((λ h. cc), λ (x, e, h). cc)

    -- What it takes for a token of three parts to be accepted with these claims.
    pub record Taken (header payload sig : Text) (s : Session) (c : Claims) : Type 0 where
      pub fields : Json
      pub header_read : read_part kit (codes "decode JWT header: ") header ≡ returns fields
      pub kid : Json
      pub named : header_kid kit fields ≡ returns kid
      pub key : PublicKey
      pub found : key_or (missing_text kid) (look_up kit kid s).0 ≡ returns key
      pub raw : Bytes
      pub decoded : raw_signature kit sig ≡ returns raw
      pub signed : check_signature kit key header payload raw ≡ returns tt
      pub document : Json
      pub payload_read : read_part kit (codes "decode JWT payload: ") payload ≡ returns document
      pub passes :
          checked kit expected
            (pos (kit.host.clock (look_up kit kid s).1.effects / 1000000000))
            document
          ≡ returns c

    pub verify_iff :
        (token header payload sig : Text) (s : Session) (c : Claims)
        → split token b'.' ≡ header ∷ payload ∷ sig ∷ []
        → ((verify kit expected token s).0 ≡ returns c) ↔ Taken header payload sig s c
    verify_iff token header payload sig s c parts = (there, back)
      where
        computed :
            verify kit expected token s
            ≡ with_kid kit expected header payload sig
                (then_with (read_part kit (codes "decode JWT header: ") header) (header_kid kit))
                s
        computed = unfold verify verify_parts in ap (λ ps. verify_parts kit expected ps s) parts

        there : (verify kit expected token s).0 ≡ returns c → Taken header payload sig s c
        there h =
            let (kid, r, h₁) =
              (with_kid_iff header payload sig _ s c).0 (sym (ap (λ p. p.0) computed) ∙ h) in
            let (fields, header_read, named) = (then_with_iff _ (header_kid kit) kid).0 r in
            let (key, found, h₂) = (with_key_iff header payload sig _ _ c).0 h₁ in
            let (document, signed, passes) = (check_now_iff _ _ c).0 h₂ in
            let (raw, decoded, ok, payload_read) =
              (read_signed_iff key header payload sig document).0 signed in
            record {
              fields = fields;
              header_read = header_read;
              kid = kid;
              named = named;
              key = key;
              found = found;
              raw = raw;
              decoded = decoded;
              signed = ok;
              document = document;
              payload_read = payload_read;
              passes = passes;
            }

        back : Taken header payload sig s c → (verify kit expected token s).0 ≡ returns c
        back t =
            ap (λ p. p.0) computed
            ∙ (with_kid_iff header payload sig _ s c).1 (
              t.kid,
              (then_with_iff _ (header_kid kit) t.kid).1 (t.fields, t.header_read, t.named),
              (with_key_iff header payload sig _ _ c).1 (
                t.key,
                t.found,
                (check_now_iff _ _ c).1 (
                  t.document,
                  (read_signed_iff t.key header payload sig t.document).1
                      (t.raw, t.decoded, t.signed, t.payload_read),
                  t.passes,
                ),
              ),
            )
