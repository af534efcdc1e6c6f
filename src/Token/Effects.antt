-- ===== src/Token/Effects.antt =====
-- What `Verify` does to the verifier and to the world.
use ztxbas.Base.{◌≡◌, ◌≢◌, inl, refl, ap, ◌∙◌, List, [], ◌∷◌, some, arith}
use ztxbas.Base.Text.{Text, codes, same_iff}
use ztxbas.Go.Strings.{split}
use ztxbas.Errors.{with_result, Result, ok, err}
use ztxbas.Runtime.{Env, World, PublicKey}
use ztxbas.Jwks.{get_key}
use ztxbas.Jwks.Curve.{IsOnCurve}
use ztxbas.Jwks.Keys.{AllOnCurve, get_key-AllOnCurve}
use ztxbas.Verifier.{Session, Verifier, key_for_kid}
use ztxbas.Verifier.Cache.{SameSettings}
use ztxbas.Verifier.Keeps.{key_for_kid-Kept, OneFetch, sent-key_for_kid}
use ztxbas.Token.{
  Claims, Header, unsupported, read_header, header_kid, check_now, with_key, with_kid, verify_parts,
  verify, read_signed,
}
use ztxbas.Token.Parts.{IsToken, split_iff}
use ztxbas.Token.Accepted.{verify_iff}

module _ (env : Env) where
  -- From one state to another: cached keys stay on the curve, the settings stay as they are, and at
  -- most one request, for the key set, goes out.
  pub record Harmless (s t : Session) : Type 0 where
    pub on_curve : AllOnCurve s.0.keys → AllOnCurve t.0.keys
    pub settings : SameSettings t.0 s.0
    pub one_fetch : OneFetch env s.1 t.1

  Harmless-refl : (s : Session) → Harmless s s
  Harmless-refl s = record {
    on_curve = λ h. h;
    settings = (refl, refl, refl);
    one_fetch = inl refl;
  }

  check_now-Harmless :
      (s : Session) (r : Result Claims) (t : Session)
      → Harmless s t
      → Harmless s (check_now env r t).1
  unfolding check_now
  check_now-Harmless s (ok c) (v, w) h = record {
    on_curve = h.on_curve;
    settings = h.settings;
    one_fetch = h.one_fetch;
  }
  check_now-Harmless s (err e) t h = h

  with_key-Harmless :
      (header payload sig : Text) (s : Session) (p : Result PublicKey × Session)
      → Harmless s p.1
      → Harmless s (with_key env header payload sig p).1
  with_key-Harmless header payload sig s (ok key, t) h =
      unfold with_key in (check_now-Harmless s (read_signed env key header payload sig) t h)
  with_key-Harmless header payload sig s (err e, t) h = unfold with_key in h

  key_for_kid-Harmless : (kid : Text) (s : Session) → Harmless s (key_for_kid env kid s).1
  key_for_kid-Harmless kid (v, w) =
      let k = key_for_kid-Kept env kid v w in
      record {
        on_curve = k.on_curve;
        settings = k.settings;
        one_fetch = sent-key_for_kid env kid v w;
      }

  with_kid-Harmless :
      (header payload sig : Text) (r : Result Text) (s : Session)
      → Harmless s (with_kid env header payload sig r s).1
  with_kid-Harmless header payload sig (ok kid) s =
      unfold with_kid in
      (with_key-Harmless header payload sig s (key_for_kid env kid s) (key_for_kid-Harmless kid s))
  with_kid-Harmless header payload sig (err e) s = unfold with_kid in (Harmless-refl s)

  verify_parts-Harmless : (ps : List Text) (s : Session) → Harmless s (verify_parts env ps s).1
  unfolding verify_parts
  verify_parts-Harmless (header ∷ payload ∷ sig ∷ []) s = with_kid-Harmless header payload sig _ s
  verify_parts-Harmless ps s = Harmless-refl s

  -- Whatever the token and whatever the outcome, `Verify` keeps the cached keys on the curve and
  -- the verifier's settings as they are, and sends at most one request, for the key set.
  pub verify-Harmless : (token : Text) (s : Session) → Harmless s (verify env token s).1
  verify-Harmless token s = unfold verify in (verify_parts-Harmless (split token b'.') s)

  -- Where the cached keys are on the curve, claims are returned only under a key that is on the
  -- curve too and stands, in the cache that the lookup left, under the key id of the token's
  -- header.
  pub verify_key :
      (token : Text) (v : Verifier) (w : World) (c : Claims)
      → AllOnCurve v.keys
      → (h : (verify env token (v, w)).0 ≡ ok c)
      → let a = (verify_iff env token (v, w) c).0 h in
        IsOnCurve a.key
        × (get_key a.fields.kid (key_for_kid env a.fields.kid (v, w)).1.0.keys ≡ some a.key)
  verify_key token v w c on h =
      let a = (verify_iff env token (v, w) c).0 h in
      let k = key_for_kid-Kept env a.fields.kid v w in
      let here = k.returned a.key a.found in
      (get_key-AllOnCurve a.fields.kid a.key _ (k.on_curve on) here, here)

  header_kid_other :
      (h : Header) → h.alg ≢ codes "ES256" → header_kid env h ≡ err (unsupported env h.alg)
  unfolding header_kid
  header_kid_other h other = ground (arith, same_iff h.alg (codes "ES256"))

  -- A token of three parts whose header can be read and names another algorithm than ES256, such
  -- as `none`, is refused for that and with no effect at all: no key is looked up, nothing is
  -- sent, and the clock is not read.
  pub verify_other_alg :
      (token header payload sig : Text) (fields : Header) (s : Session)
      → IsToken token header payload sig
      → read_header env header ≡ ok fields
      → fields.alg ≢ codes "ES256"
      → verify env token s ≡ (err (unsupported env fields.alg), s)
  unfolding verify with_kid
  verify_other_alg token header payload sig fields s parts read other =
      ap (λ ps. verify_parts env ps s) ((split_iff token header payload sig).1 parts)
      ∙ ap (λ r. with_kid env header payload sig r s)
          (ap (λ r. with_result r (header_kid env)) read ∙ header_kid_other fields other)
