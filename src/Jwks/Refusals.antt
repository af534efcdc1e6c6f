-- ===== src/Jwks/Refusals.antt =====
-- The errors of the key set hold no sentinel.
use ztxbas.Base.{List, [], ◌∷◌, Option, none, some, inl, inr, Bool-cases}
use ztxbas.Base.Text.{Bytes}
use ztxbas.Go.Encoding.{base64_decode}
use ztxbas.Errors.{Result, Result-cases, ok, err}
use ztxbas.Errors.Clean.{
  ok-IsClean, err-IsClean, foreign-IsClean, IsClean, plain-IsClean, wrap-NoSentinel, if-IsClean,
}
use ztxbas.Runtime.{Env}
use ztxbas.Jwks.{
  Jwk, Keys, jwk_to_ecdsa, coordinates, point, is_usable, collect, put_key, then_nonempty, keys_of,
}

coordinates-IsClean : (x y : Option Bytes) → IsClean (coordinates x y)
unfolding point
coordinates-IsClean none y = foreign-IsClean _ _
coordinates-IsClean (some x) none = foreign-IsClean _ _
coordinates-IsClean (some x) (some y) = if-IsClean _ _ _ (ok-IsClean _) (plain-IsClean _)

jwk_to_ecdsa-IsClean : (k : Jwk) → IsClean (jwk_to_ecdsa k)
unfolding jwk_to_ecdsa
jwk_to_ecdsa-IsClean k = coordinates-IsClean (base64_decode k.x) (base64_decode k.y)

then_nonempty-IsClean : (r : Result Keys) → IsClean r → IsClean (then_nonempty r)
then_nonempty-IsClean (err e) h = h
then_nonempty-IsClean (ok []) h = plain-IsClean _
then_nonempty-IsClean (ok (k ∷ ks)) h = ok-IsClean _

module _ (env : Env) where
  collect-IsClean : (ks : List Jwk) (out : Keys) → IsClean (collect env ks out)
  unfolding collect
  collect-IsClean [] out = ok-IsClean _
  collect-IsClean (k ∷ ks) out = elim (Bool-cases (is_usable k)) [
    | inr skipped ↦ rw (skipped, collect) (collect-IsClean ks out)
    | inl usable ↦ elim (Result-cases (jwk_to_ecdsa k)) [
      | inl (pk, made) ↦ rw (usable, made, collect) (collect-IsClean ks (put_key k.kid pk out))
      | inr (e, failed) ↦
          rw (usable, failed, collect)
            (err-IsClean _ (wrap-NoSentinel _ e ((jwk_to_ecdsa-IsClean k).no_sentinel e failed)))
    ]
  ]

  pub keys_of-IsClean : (ks : List Jwk) → IsClean (keys_of env ks)
  unfolding keys_of
  keys_of-IsClean ks = then_nonempty-IsClean (collect env ks []) (collect-IsClean ks [])
