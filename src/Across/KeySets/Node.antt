-- ===== src/Across/KeySets/Node.antt =====
-- The reading of a key set in the Node SDK.
use ztxbas.Base.{
  All, ◌≡◌, refl, sym, ap, ◌∙◌, true, false, List, [], Option, none, some, if◌then◌else◌, arith,
}
use ztxbas.Base.Result.{Outcome, done, fault}
use ztxbas.Base.Text.{Bytes, codes, same}
use ztxbas.Go.Encoding.{base64_decode}
use ztxbas.Go.Json.{obj, Items, item, Members}
use ztxbas.Runtime.{Env, PublicKey}
use ztxbas.Jwks.{
  Jwk, Keys, set_bytes, is_on_curve, coordinates, jwk_to_ecdsa, put_key, is_usable, keys_of,
}
use ztxbas.Objects.{get_member, Found}
use ztxbas.Node.KeySet.{
  Crypto, Fetched, usable, failed, Collected, collected, stopped, set_entry, is_p256, some_keys,
  collect, refresh,
}
use ztxbas.Across.KeySets.{
  jwk_members, jwk_items, key_document, IsCoordinate, HasCoordinates, if_done, if_ok, IsLoop, kept,
  kept-loop,
}
use ztxbas.Across.KeySets.Python.{if_ok-point}

abbrev pub if_usable : Fetched → Option Keys
if_usable (usable m) = some m
if_usable (failed e) = none

abbrev if_collected : Collected → Option Found
if_collected (collected out) = some out
if_collected (stopped e) = none

-- The point of P-256 with these coordinates, if it is one.
abbrev pub point_of : Option Bytes → Option Bytes → Option PublicKey
point_of (some x) (some y) =
    if is_on_curve (set_bytes x) (set_bytes y)
    then some (record { x = set_bytes x; y = set_bytes y })
    else none
point_of _ _ = none

-- Of a JWK of P-256 with two coordinates of 32 bytes, `createPublicKey` gives the point, and throws if it is
-- not on the curve. Of others nothing is asked.
abbrev pub ReadsJwks : Crypto → Type 0
ReadsJwks crypto =
    (k : Jwk)
    → is_usable k ≡ true
    → IsCoordinate k.x
    → IsCoordinate k.y
    → if_done (crypto.create_public_key (jwk_members k))
      ≡ point_of (base64_decode k.x) (base64_decode k.y)

coordinates-point_of : (x y : Option Bytes) → if_ok (coordinates x y) ≡ point_of x y
coordinates-point_of none y = refl
coordinates-point_of (some x) none = refl
coordinates-point_of (some x) (some y) = if_ok-point (set_bytes x) (set_bytes y)

if_done-eq-some {ℓ} : {A : Type ℓ} (o : Outcome A) (a : A) → if_done o ≡ some a → o ≡ done a
if_done-eq-some (done b) a e = cc
if_done-eq-some (fault m) a e = cc

is_p256-jwk_members : (k : Jwk) → is_p256 (jwk_members k) ≡ is_usable k
unfolding is_p256 is_usable same
is_p256-jwk_members k = refl

set_entry-jwk_members :
    (k : Jwk) (pk : PublicKey) (out : Keys)
    → set_entry (get_member (codes "kid") (jwk_members k)) pk (out, false)
      ≡ (put_key k.kid pk out, false)
unfolding get_member same
set_entry-jwk_members k pk out = refl

module _ (crypto : Crypto) where
  -- The loop, by one object.
  module _ (ms : Members) (js : Items) (out : Found) where
    loop_skips : is_p256 ms ≡ false → collect crypto (item (obj ms) js) out ≡ collect crypto js out
    unfolding collect
    loop_skips e = ground arith

    loop_enters :
        (pk : PublicKey)
        → is_p256 ms ≡ true
        → crypto.create_public_key ms ≡ done pk
        → collect crypto (item (obj ms) js) out
          ≡ collect crypto js (set_entry (get_member (codes "kid") ms) pk out)
    unfolding collect
    loop_enters pk u e = ground arith

    loop_stops :
        (o : Outcome PublicKey)
        → is_p256 ms ≡ true
        → crypto.create_public_key ms ≡ o
        → if_done o ≡ none
        → if_collected (collect crypto (item (obj ms) js) out) ≡ none
    unfolding collect
    loop_stops (done pk) u e n = cc
    loop_stops (fault m) u e n = ground arith

  abbrev loop : List Jwk → Keys → Option Found
  loop ks out = if_collected (collect crypto (jwk_items ks) (out, false))

  abbrev key : Jwk → Option PublicKey
  key k = if_done (crypto.create_public_key (jwk_members k))

  loop-IsLoop : IsLoop loop key
  loop-IsLoop = record {
    ends = λ out. unfold collect in refl;
    skips = λ k ks out u.
        ap if_collected
          (loop_skips (jwk_members k) (jwk_items ks) (out, false) (is_p256-jwk_members k ∙ u));
    enters = λ k ks out pk u e. ap if_collected (
        loop_enters (jwk_members k) (jwk_items ks) (out, false) pk (is_p256-jwk_members k ∙ u)
          (if_done-eq-some (crypto.create_public_key (jwk_members k)) pk e)
        ∙ ap (collect crypto (jwk_items ks)) (set_entry-jwk_members k pk out));
    stops = λ k ks out u n.
        loop_stops (jwk_members k) (jwk_items ks) (out, false)
          (crypto.create_public_key (jwk_members k)) (is_p256-jwk_members k ∙ u) refl n;
  }

  kept-some_keys : (p : Collected) → if_usable (some_keys p) ≡ kept (if_collected p)
  kept-some_keys (stopped e) = refl
  kept-some_keys (collected out) = ground arith

  module _ (reads : ReadsJwks crypto) where
    key_agrees : (k : Jwk) → is_usable k ≡ true → HasCoordinates k → key k ≡ if_ok (jwk_to_ecdsa k)
    unfolding jwk_to_ecdsa
    key_agrees k u has =
        let (x, y) = has u in
        reads k u x y ∙ sym (coordinates-point_of (base64_decode k.x) (base64_decode k.y))

    pub node_set_agrees :
        (env : Env) (ks : List Jwk)
        → All HasCoordinates ks
        → if_usable (refresh crypto (done (200, done (key_document ks)))) ≡ if_ok (keys_of env ks)
    unfolding refresh same get_member
    node_set_agrees env ks all =
        kept-some_keys (collect crypto (jwk_items ks) ([], false))
        ∙ kept-loop env loop key loop-IsLoop HasCoordinates key_agrees ks all
