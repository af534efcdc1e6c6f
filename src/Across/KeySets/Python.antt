-- ===== src/Across/KeySets/Python.antt =====
-- The reading of a key set in the Python SDK.
use ztxbas.Base.{
  All, true, ℕ, ◌≡◌, refl, sym, ap, ◌∙◌, false, List, [], Option, none, some, if◌then◌else◌, arith,
}
use ztxbas.Base.Result.{Outcome, done, fault}
use ztxbas.Base.Text.{Text, Bytes, same}
use ztxbas.Go.Encoding.{base64_decode}
use ztxbas.Go.Json.{Members}
use ztxbas.Runtime.{Env, PublicKey}
use ztxbas.Jwks.{
  Jwk, Keys, set_bytes, is_on_curve, point, coordinates, jwk_to_ecdsa, put_key, keys_of,
}
use ztxbas.Jwks as Go
use ztxbas.Objects.{get_member, Found}
use ztxbas.Python.KeySet.{
  Reader, Exit, returns, raises, if_returned, b64url_decode, key_of, is_usable, made, key_at,
  decoded, entered, collect, some_keys, read_set,
}
use ztxbas.Python.KeySet.Loop.{loop_skips, loop_enters, loop_stops}
use ztxbas.Across.KeySets.{
  jwk_members, jwk_items, key_document, IsBase64, HasCoordinates, if_done, if_ok, IsLoop, kept,
  kept-loop,
}

-- `urlsafe_b64decode` decodes base64 with its padding, and `public_key` refuses what is not a point of
-- P-256.
pub record ReadsKeys (reader : Reader) : Type 0 where
  pub base64 : (t : Text) → IsBase64 t → if_done (b64url_decode reader t) ≡ base64_decode t
  pub points :
      (x y : ℕ)
      → if_done (reader.public_key x y)
        ≡ (if is_on_curve x y then some (record { x = x; y = y }) else none)

pub if_ok-point :
    (x y : ℕ)
    → if_ok (point x y) ≡ (if is_on_curve x y then some (record { x = x; y = y }) else none)
unfolding point
if_ok-point x y = ground arith

usable_same : (k : Jwk) → is_usable (jwk_members k) ≡ Go.is_usable k
unfolding is_usable Go.is_usable same
usable_same k = refl

if_returned-eq-some {ℓ} : {A : Type ℓ} (r : Exit A) (a : A) → if_returned r ≡ some a → r ≡ returns a
if_returned-eq-some (returns b) a e = cc
if_returned-eq-some (raises x) a e = cc

module _ (reader : Reader) where
  returned-made :
      (ms : Members) (o : Outcome PublicKey) → if_returned (made reader ms o) ≡ if_done o
  returned-made ms (done pk) = refl
  returned-made ms (fault m) = refl

  entered_jwk :
      (k : Jwk) (pk : PublicKey) (out : Keys)
      → entered reader (jwk_members k) (returns pk) (out, false)
        ≡ returns (put_key k.kid pk out, false)
  unfolding get_member same
  entered_jwk k pk out = refl

  abbrev loop : List Jwk → Keys → Option Found
  loop ks out = if_returned (collect reader (jwk_items ks) (out, false))

  abbrev key : Jwk → Option PublicKey
  key k = if_returned (key_of reader (jwk_members k))

  loop-IsLoop : IsLoop loop key
  loop-IsLoop = record {
    ends = λ out. unfold collect in refl;
    skips = λ k ks out u.
        ap if_returned
          (loop_skips reader (jwk_members k) (jwk_items ks) (out, false) (usable_same k ∙ u));
    enters = λ k ks out pk u e. ap if_returned (
        loop_enters reader (jwk_members k) (jwk_items ks) (out, false) (returns pk)
          (put_key k.kid pk out, false) (usable_same k ∙ u)
          (if_returned-eq-some (key_of reader (jwk_members k)) pk e) (entered_jwk k pk out));
    stops = λ k ks out u n.
        loop_stops reader (jwk_members k) (jwk_items ks) (out, false)
          (key_of reader (jwk_members k)) (usable_same k ∙ u) refl n;
  }

  kept-some_keys : (p : Exit Found) → if_returned (some_keys p) ≡ kept (if_returned p)
  kept-some_keys (raises e) = refl
  kept-some_keys (returns out) = ground arith

  module _ (reads : ReadsKeys reader) where
    returned-key_at :
        (ms : Members) (x y : Outcome Bytes)
        → if_returned (key_at reader ms (decoded reader ms x) (decoded reader ms y))
          ≡ if_ok (coordinates (if_done x) (if_done y))
    returned-key_at ms (fault m) y = refl
    returned-key_at ms (done x) (fault m) = refl
    returned-key_at ms (done x) (done y) =
        returned-made ms (reader.public_key (set_bytes x) (set_bytes y))
        ∙ (reads.points (set_bytes x) (set_bytes y) ∙ sym (if_ok-point (set_bytes x) (set_bytes y)))

    returned-key_of :
        (k : Jwk) → Go.is_usable k ≡ true → HasCoordinates k → key k ≡ if_ok (jwk_to_ecdsa k)
    unfolding key_of jwk_to_ecdsa same
    returned-key_of k usable has =
        let ((x, _), (y, _)) = has usable in
        returned-key_at (jwk_members k) (b64url_decode reader k.x) (b64url_decode reader k.y)
        ∙ rw (reads.base64 k.x x, reads.base64 k.y y) refl

    pub python_set_agrees :
        (env : Env) (ks : List Jwk) (raw : Bytes)
        → reader.loads raw ≡ done (key_document ks)
        → All HasCoordinates ks
        → if_returned (read_set reader (returns raw)) ≡ if_ok (keys_of env ks)
    unfolding read_set same get_member
    python_set_agrees env ks raw loaded all = rw loaded (
        kept-some_keys (collect reader (jwk_items ks) ([], false))
        ∙ kept-loop env loop key loop-IsLoop HasCoordinates returned-key_of ks all)
