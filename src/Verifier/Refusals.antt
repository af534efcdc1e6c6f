-- ===== src/Verifier/Refusals.antt =====
-- The errors of a lookup of a key hold no sentinel.
use ztxbas.Base.{refl, List, Option, none, some, Bool, true, false, ◌^◌}
use ztxbas.Base.Text.{Text}
use ztxbas.Go.Url.{Url}
use ztxbas.Go.Http.{Response, read_all}
use ztxbas.Errors.{Result, ok, err}
use ztxbas.Errors.Clean.{
  recast-IsClean, ok-IsClean, foreign-IsClean, IsClean, plain-IsClean, with_result-IsClean,
  if-IsClean, or_wrap-IsClean, annotate-checked-IsClean,
}
use ztxbas.Runtime.{Env, World, PublicKey}
use ztxbas.Jwks.{Jwk, get_key}
use ztxbas.Jwks.Refusals.{keys_of-IsClean}
use ztxbas.Verifier.{
  Verifier, Session, read_body, set_of, parse_set, parse_jwks, fetch_from, fetch_jwks, present,
  key_for_kid, build_prefix,
}
use ztxbas.Verifier.Cache.{before_fetch, Ends, cached, failed, fetched, key_for_kid-Ends}

read_body-IsClean : (p : Text × Option Text) → IsClean (read_body p)
read_body-IsClean (body, none) = ok-IsClean _
read_body-IsClean (body, some m) = foreign-IsClean _ m

set_of-IsClean : (p : List Jwk × Bool) → IsClean (set_of p)
set_of-IsClean (ks, true) = ok-IsClean _
set_of-IsClean (ks, false) = foreign-IsClean _ _

module _ (env : Env) where
  parse_set-IsClean : (body : Text) → IsClean (parse_set env body)
  unfolding parse_set
  parse_set-IsClean body =
      with_result-IsClean _ _ (or_wrap-IsClean _ (env.parse_json body)) (λ j. set_of-IsClean _)

  parse_jwks-IsClean : (r : Response) → IsClean (parse_jwks env r)
  unfolding parse_jwks
  parse_jwks-IsClean r =
      if-IsClean _ _ _
        (with_result-IsClean _ _ (read_body-IsClean (read_all (2 ^ 16) r))
          (λ body. with_result-IsClean _ _ (parse_set-IsClean body) (keys_of-IsClean env)))
        (plain-IsClean _)

  fetch_from-IsClean :
      (v : Verifier) (r : Result Url) (w : World) → IsClean r → IsClean (fetch_from env v r w).0
  unfolding fetch_from
  fetch_from-IsClean v (err e) w h = recast-IsClean (err e) e h refl
  fetch_from-IsClean v (ok u) w h =
      with_result-IsClean _ _ (annotate-checked-IsClean _ (env.exchange w.step v.hc _))
        parse_jwks-IsClean

  fetch_jwks-IsClean : (v : Verifier) (w : World) → IsClean (fetch_jwks env v w).0
  unfolding fetch_jwks
  fetch_jwks-IsClean v w =
      fetch_from-IsClean v _ w (or_wrap-IsClean build_prefix (env.parse_url v.jwks_url))

  present-IsClean : (kid : Text) (o : Option PublicKey) → IsClean (present env kid o)
  present-IsClean kid none = plain-IsClean _
  present-IsClean kid (some key) = ok-IsClean _

  Ends-IsClean :
      (kid : Text) (v : Verifier) (w : World) (out : Result PublicKey × Session)
      → Ends env kid v w out
      → IsClean out.0
  Ends-IsClean kid v w out (cached key here fresh e) = rw e (ok-IsClean _)
  Ends-IsClean kid v w out (failed w₁ x got e) = rw e (
      recast-IsClean (fetch_jwks env v (before_fetch (get_key kid v.keys) w)).0 x
        (fetch_jwks-IsClean v (before_fetch (get_key kid v.keys) w)) (λ i. (got i).0))
  Ends-IsClean kid v w out (fetched w₁ m got e) = rw e (present-IsClean kid (get_key kid m))

  pub key_for_kid-IsClean : (kid : Text) (s : Session) → IsClean (key_for_kid env kid s).0
  key_for_kid-IsClean kid (v, w) = Ends-IsClean kid v w _ (key_for_kid-Ends env kid v w)
