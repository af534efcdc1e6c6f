-- ===== src/Client/Requests.antt =====
-- The requests that `do` sends.
use ztxbas.Base.{◌≡◌, ◌⊎◌, inl, inr, refl, true, [], ◌∷◌, ◌++◌, Option, arith, All, All-append}
use ztxbas.Base.Result.{done}
use ztxbas.Base.Text.{Text, Bytes, IsByte}
use ztxbas.Go.Json.{Json, Setter}
use ztxbas.Go.Http.{Request}
use ztxbas.Errors.{Result, ok, err}
use ztxbas.Errors.Steps.{with_result-eq-ok, or_wrap-eq-ok}
use ztxbas.Runtime.{Env, World, Instant, rand_read}
use ztxbas.Sign.{sign_request, new_nonce}
use ztxbas.Sign.Server.{accepts, sign_request-accepts}
use ztxbas.Client.{
  Client, target, new_request, prepare, body_bytes, content, common_headers, sign_and_send,
  dispatch, do_request,
}
use ztxbas.Client.Paths.{IsBase, IsRooted, new_request_lem}

module _ (env : Env) where
  -- What a request of `do` is: for this method and path below the client's base URL, with no query,
  -- to its host, with the bytes of the marshalled body, and signed so that the server, which knows
  -- the client's secret, accepts it.
  pub record IsCall (c : Client) (method path : Text) (req_body : Option Json) (r : Request)
      : Type 0 where
    pub by_method : r.method ≡ method
    pub at_path : r.url.path ≡ c.base_url.path ++ path
    pub no_query : r.url.raw_query ≡ []
    pub at_host : r.url.host ≡ c.base_url.host
    pub bytes : Option Bytes
    pub marshalled : body_bytes env req_body ≡ ok bytes
    pub with_body : r.body ≡ content bytes
    pub accepted : accepts env c.secret r ≡ true

  -- A prepared request is the one that `http.NewRequest` made, with headers.
  prepare-eq-ok :
      (c : Client) (method path : Text) (req_body : Option Json) (r : Request)
      → prepare env c method path req_body ≡ ok r
      → (b : Option Bytes) × (q : Request) × (body_bytes env req_body ≡ ok b)
        × (new_request method (target c.base_url path) (content b) ≡ done q)
        × (record q { headers = common_headers b c.user_agent } ≡ r)
  unfolding prepare
  prepare-eq-ok c method path req_body r e =
      let (b, marshalled, e₁) = with_result-eq-ok _ _ r e in
      let (q, made, e₂) = with_result-eq-ok _ _ r e₁ in
      (b, q, marshalled, or_wrap-eq-ok _ _ q made, ground arith)

  -- Such a request lacks only the signature.
  prepare_lem :
      (c : Client) (method path : Text) (req_body : Option Json) (r : Request)
      → IsBase c.base_url
      → IsRooted path
      → All IsByte path
      → prepare env c method path req_body ≡ ok r
      → (nonce : Text) (now : Instant)
      → IsCall c method path req_body (sign_request env r r.body c.app_id c.secret now nonce)
  prepare_lem c method path req_body r base rooted bytes e nonce now =
      let (b, q, marshalled, made, same_r) = prepare-eq-ok c method path req_body r e in
      let (r₀, made₀, m, d, p, query, host) =
        new_request_lem method c.base_url path (content b) base rooted bytes in
      let same_q : q ≡ r₀ = ground arith in
      let at : r.url.path ≡ c.base_url.path ++ path = ground arith in
      let all : All IsByte r.url.path =
        rw at (All-append IsByte c.base_url.path path base.path_bytes bytes) in
      unfold sign_request in
      (record {
        by_method = ground arith;
        at_path = at;
        no_query = ground arith;
        at_host = ground arith;
        bytes = b;
        marshalled = marshalled;
        with_body = ground arith;
        accepted = sign_request-accepts env c.secret r c.app_id nonce now all;
      })

  -- What `do` has sent: nothing more, or one such call.
  abbrev pub OneCall : Client → Text → Text → Option Json → World → World → Type 0
  OneCall c method path req_body w w' =
      (w'.sent ≡ w.sent)
      ⊎ ((r : Request) × (w'.sent ≡ w.sent ++ r ∷ []) × IsCall c method path req_body r)

  module _ {A : Type 0} (out : A) (set : Option (Setter A)) where
    sent-sign_and_send :
        (c : Client) (r : Request) (p : Result Text × World)
        → ((sign_and_send env out set c r p).1.sent ≡ p.1.sent)
          ⊎ ((nonce : Text) × (now : Instant) × ((sign_and_send env out set c r p).1.sent
                ≡ p.1.sent ++ sign_request env r r.body c.app_id c.secret now nonce ∷ []))
    unfolding sign_and_send
    sent-sign_and_send c r (ok nonce, w) = inr (nonce, env.now w.step, refl)
    sent-sign_and_send c r (err e, w) = inl refl

    sent-dispatch :
        (c : Client) (method path : Text) (req_body : Option Json) (p : Result Request) (w : World)
        → ((r : Request)
            → p ≡ ok r
            → (nonce : Text) (now : Instant)
            → IsCall c method path req_body (sign_request env r r.body c.app_id c.secret now nonce))
        → OneCall c method path req_body w (dispatch env out set c p w).1
    sent-dispatch c method path req_body (err e) w calls = inl (unfold dispatch in refl)
    sent-dispatch c method path req_body (ok r) w calls =
        unfold dispatch new_nonce rand_read in
        (elim (sent-sign_and_send c r (new_nonce env w)) [
          | inl e ↦ inl e
          | inr (nonce, now, e) ↦
              inr (sign_request env r r.body c.app_id c.secret now nonce, e, calls r refl nonce now)
        ])

    -- `do` hands at most one request to the HTTP client, and it is a call as above, whatever comes
    -- back.
    pub do_request-OneCall :
        (c : Client) (method path : Text) (req_body : Option Json) (w : World)
        → IsBase c.base_url
        → IsRooted path
        → All IsByte path
        → OneCall c method path req_body w (do_request env c method path req_body out set w).1
    unfolding do_request
    do_request-OneCall c method path req_body w base rooted bytes =
        sent-dispatch c method path req_body (prepare env c method path req_body) w
          (λ r e nonce now. prepare_lem c method path req_body r base rooted bytes e nonce now)
