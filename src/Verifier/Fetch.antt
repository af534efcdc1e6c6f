-- ===== src/Verifier/Fetch.antt =====
-- What a successful fetch of the key set rests on.
use ztxbas.Base.{
  ◌^◌, ◌≡◌, refl, List, [], ◌∷◌, ◌++◌, Option, none, some, arith, ◌⊎◌, inl, inr, ◌==◌, ==_iff,
}
use ztxbas.Base.Result.{done}
use ztxbas.Base.Text.{Text}
use ztxbas.Go.Url.{Url}
use ztxbas.Go.Http.{Response, read_all}
use ztxbas.Errors.{with_result, or_wrap, annotate, Result, ok, err}
use ztxbas.Errors.Steps.{with_result-eq-ok, or_wrap-eq-ok, if-eq-ok, annotate-checked-eq-ok}
use ztxbas.Runtime.{Env, World, checked}
use ztxbas.Jwks.{Jwk, Keys, keys_of}
use ztxbas.Verifier.{
  Verifier, build_prefix, read_body, jwks_request, parse_set, parse_jwks, fetch_prefix, fetch_from,
  fetch_jwks,
}

read_body-eq-ok :
    (p : Text × Option Text) (body : Text) → read_body p ≡ ok body → (p.0 ≡ body) × (p.1 ≡ none)
read_body-eq-ok (t, none) body h = (ground arith, refl)
read_body-eq-ok (t, some m) body h = cc

module _ (env : Env) where
  -- The map `m` is made of the answer to the one request that the verifier sends: to its own URL,
  -- with status 200, and a body that was read without error, up to 64 KiB, as a set of keys.
  pub record IsFetched (v : Verifier) (w : World) (m : Keys) : Type 0 where
    pub url : Url
    pub response : Response
    pub set : List Jwk
    pub at_url : env.parse_url v.jwks_url ≡ done url
    pub answered : env.exchange w.step v.hc (jwks_request url) ≡ done response
    pub is_ok : response.status ≡ 200
    pub is_read : (read_all (2 ^ 16) response).1 ≡ none
    pub is_parsed : parse_set env (read_all (2 ^ 16) response).0 ≡ ok set
    pub is_map : keys_of env set ≡ ok m

  parse_jwks-eq-ok :
      (r : Response) (m : Keys)
      → parse_jwks env r ≡ ok m
      → (r.status ≡ 200)
        × (with_result
              (read_body (read_all (2 ^ 16) r))
              (λ b. with_result (parse_set env b) (keys_of env))
            ≡ ok m)
  unfolding parse_jwks
  parse_jwks-eq-ok r m h =
      let (is_200, rest) = if-eq-ok (r.status == 200) _ _ m h in
      ((==_iff r.status 200).0 is_200, rest)

  fetch_from-eq-ok :
      (v : Verifier) (r : Result Url) (w : World) (m : Keys)
      → (fetch_from env v r w).0 ≡ ok m
      → (u : Url) × (r ≡ ok u)
        × (with_result
              (annotate fetch_prefix (checked (env.exchange w.step v.hc (jwks_request u))))
              (parse_jwks env)
            ≡ ok m)
  unfolding fetch_from
  fetch_from-eq-ok v (ok u) w m h = (u, refl, h)
  fetch_from-eq-ok v (err e) w m h = cc

  fetch_jwks_lem :
      (v : Verifier) (w : World)
      → fetch_jwks env v w ≡ fetch_from env v (or_wrap build_prefix (env.parse_url v.jwks_url)) w
  unfolding fetch_jwks
  fetch_jwks_lem v w = refl

  -- A fetch of the key set that succeeds rests on an answer with status 200 to the one request
  -- for the verifier's own URL, whose body was read without error up to 64 KiB and parsed as a
  -- set of keys, from which the map was made.
  pub fetch_jwks_sound :
      (v : Verifier) (w : World) (m : Keys) → (fetch_jwks env v w).0 ≡ ok m → IsFetched v w m
  fetch_jwks_sound v w m h =
      let (u, parsed_url, e) =
        fetch_from-eq-ok v (or_wrap build_prefix (env.parse_url v.jwks_url)) w m
          (rw (fetch_jwks_lem v w) at h) in
      let (resp, got, e₁) = with_result-eq-ok _ (parse_jwks env) m e in
      let (is_200, e₂) = parse_jwks-eq-ok resp m e₁ in
      let (body, read, e₃) = with_result-eq-ok _ _ m e₂ in
      let (ks, parsed, made) = with_result-eq-ok _ (keys_of env) m e₃ in
      let (whole, unbroken) = read_body-eq-ok (read_all (2 ^ 16) resp) body read in
      record {
        url = u;
        response = resp;
        set = ks;
        at_url = or_wrap-eq-ok _ _ u parsed_url;
        answered = annotate-checked-eq-ok _ _ resp got;
        is_ok = is_200;
        is_read = unbroken;
        is_parsed = rw whole parsed;
        is_map = made;
      }

  -- A fetch hands at most one request to the client, the one for the verifier's URL.
  pub sent-fetch_jwks :
      (v : Verifier) (w : World)
      → ((fetch_jwks env v w).1.sent ≡ w.sent)
        ⊎ ((u : Url) × ((fetch_jwks env v w).1.sent ≡ w.sent ++ jwks_request u ∷ []))
  unfolding fetch_jwks
  sent-fetch_jwks v w = sent-fetch_from _
    where
      sent-fetch_from :
          (r : Result Url)
          → ((fetch_from env v r w).1.sent ≡ w.sent)
            ⊎ ((u : Url) × ((fetch_from env v r w).1.sent ≡ w.sent ++ jwks_request u ∷ []))
      sent-fetch_from (ok u) = inr (u, unfold fetch_from in refl)
      sent-fetch_from (err e) = inl (unfold fetch_from in refl)
