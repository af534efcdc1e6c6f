-- ===== src/Client/Outcomes.antt =====
-- What `do` returns, by what came back.
use ztxbas.Base.{
  ℕ, ◌^◌, ◌≤◌, ◌<◌, ◌≡◌, ◌≢◌, ◌⊎◌, ◌↔◌, inl, inr, refl, sym, ap, subst, ◌∙◌, true, false, Bool,
  Option, none, some, arith,
}
use ztxbas.Base.Result.{Outcome, done, fault}
use ztxbas.Base.Text.{Text, Bytes, codes}
use ztxbas.Go.Json.{Json, Setter}
use ztxbas.Go.Http.{Request, Response, read_all}
use ztxbas.Errors.{Sentinel, Err, Result, ok, err, api, is, or_wrap, annotate}
use ztxbas.Errors.Classify.{Reports, is-new_api_error}
use ztxbas.Errors.Steps.{
  NoSentinel, foreign-NoSentinel, or_wrap-NoSentinel, annotate-checked-eq-ok,
  annotate-checked-NoSentinel, with_result-eq-err, ok-ne-err, err_injective,
}
use ztxbas.Runtime.{Env, World, checked, after, rand_read}
use ztxbas.Sign.{nonce_text, nonce_bytes, new_nonce}
use ztxbas.Client.{
  Client, envelope_of, decode_err, receive, decode_body, fitted, send, sign_and_send, dispatch,
  prepare, body_bytes, content, target, new_request, do_request, decode_prefix,
}

module _ (env : Env) where
  -- The machine-readable code of a response, if its body has one.
  abbrev pub code_of : Response → Text
  code_of resp = (envelope_of (env.parse_json (read_all (2 ^ 16) resp).0)).error

  -- An error response is reported with its status and its code, and `errors.Is` answers by these.
  is-decode_err :
      (resp : Response) (t : Sentinel)
      → (is (api (decode_err env resp)) t ≡ true) ↔ Reports resp.status (code_of resp) t
  unfolding decode_err
  is-decode_err resp t = is-new_api_error resp.status (code_of resp) _ t

  module _ {A : Type 0} (out : A) (set : Option (Setter A)) where
    -- The three ranges of the status: 204 leaves `out` as it is, 400 and above is an `APIError`, and
    -- any other decodes the body.
    pub receive-cases :
        (resp : Response)
        → ((resp.status ≡ 204) × (receive env out set resp ≡ ok out))
          ⊎ ((400 ≤ resp.status) × (receive env out set resp ≡ err (api (decode_err env resp))))
          ⊎ ((resp.status ≢ 204)
              × (resp.status < 400)
              × (receive env out set resp ≡ decode_body env out set resp))
    unfolding receive
    receive-cases resp = ground arith

    decode_body-NoSentinel :
        (resp : Response) (e : Err) → decode_body env out set resp ≡ err e → NoSentinel e
    decode_body-NoSentinel resp e h = decoded set h
      where
        fits : (p : A × Bool) → fitted p ≡ err e → NoSentinel e
        fits (a, true) q = absurd (ok-ne-err a e q)
        fits (a, false) q =
            subst NoSentinel (err_injective (fitted (a, false)) _ e refl q) (foreign-NoSentinel _ _)

        decoded : (f : Option (Setter A)) → decode_body env out f resp ≡ err e → NoSentinel e
        decoded none q = absurd (ok-ne-err out e q)
        decoded (some f) q =
            elim (with_result-eq-err
              (or_wrap decode_prefix
                (env.parse_first (read_all (2 ^ 20) resp).0 (read_all (2 ^ 20) resp).1))
              (λ j. fitted (f j out)) e q) [
                | inl early ↦ or_wrap-NoSentinel _ _ e early
                | inr (j, _, late) ↦ fits (f j out) late
              ]

    -- The client received an error response, and `e` is what `decodeErr` makes of it.
    abbrev pub IsAnswer : Client → Err → Type 0
    IsAnswer c e =
        (k : ℕ) × (r : Request) × (resp : Response) × (env.exchange k c.hc r ≡ done resp)
        × (400 ≤ resp.status)
        × (e ≡ api (decode_err env resp))

    receive-eq-err :
        (resp : Response) (e : Err)
        → receive env out set resp ≡ err e
        → NoSentinel e ⊎ ((400 ≤ resp.status) × (e ≡ api (decode_err env resp)))
    receive-eq-err resp e h = elim (receive-cases resp) [
      | inl (_, q) ↦ absurd (ok-ne-err out e (sym q ∙ h))
      | inr (inl (big, q)) ↦ inr (big, sym (err_injective _ _ e q h))
      | inr (inr (_, _, q)) ↦ inl (decode_body-NoSentinel resp e (sym q ∙ h))
    ]

    send-eq-err :
        (c : Client) (r : Request) (w : World) (e : Err)
        → (send env out set c r w).0 ≡ err e
        → NoSentinel e ⊎ IsAnswer c e
    unfolding send
    send-eq-err c r w e h =
        let got = annotate (codes "ztxbas: http: ") (checked (env.exchange w.step c.hc r)) in
        elim (with_result-eq-err got (receive env out set) e h) [
          | inl early ↦ inl (annotate-checked-NoSentinel _ _ e early)
          | inr (resp, answered, late) ↦ elim (receive-eq-err resp e late) [
            | inl clean ↦ inl clean
            | inr (big, same_error) ↦
                inr (w.step, r, resp, annotate-checked-eq-ok _ _ resp answered, big, same_error)
          ]
        ]

    sign_and_send-eq-err :
        (c : Client) (r : Request) (p : Result Text × World) (e : Err)
        → ((x : Err) → p.0 ≡ err x → NoSentinel x)
        → (sign_and_send env out set c r p).0 ≡ err e
        → NoSentinel e ⊎ IsAnswer c e
    unfolding sign_and_send
    sign_and_send-eq-err c r (err x, w) e clean h =
        inl (subst NoSentinel (err_injective {A = A} (err x) x e refl h) (clean x refl))
    sign_and_send-eq-err c r (ok nonce, w) e clean h = send-eq-err c _ (after w) e h

    new_nonce-NoSentinel : (w : World) (x : Err) → (new_nonce env w).0 ≡ err x → NoSentinel x
    unfolding new_nonce rand_read
    new_nonce-NoSentinel w x h = nonce_clean (env.random w.step nonce_bytes) h
      where
        nonce_clean : (o : Outcome Bytes) → nonce_text (checked o) ≡ err x → NoSentinel x
        nonce_clean (done b) q = absurd (ok-ne-err _ x q)
        nonce_clean (fault m) q =
            subst NoSentinel (err_injective (nonce_text (checked (fault m))) _ x refl q)
              (foreign-NoSentinel _ m)

    dispatch-eq-err :
        (c : Client) (p : Result Request) (w : World) (e : Err)
        → ((x : Err) → p ≡ err x → NoSentinel x)
        → (dispatch env out set c p w).0 ≡ err e
        → NoSentinel e ⊎ IsAnswer c e
    dispatch-eq-err c (ok r) w e clean h =
        sign_and_send-eq-err c r (new_nonce env w) e (new_nonce-NoSentinel w) (unfold dispatch in h)
    dispatch-eq-err c (err x) w e clean h = inl (
        subst NoSentinel (err_injective {A = A} (err x) x e refl (unfold dispatch in h))
          (clean x refl))

    body_bytes-NoSentinel : (b : Option Json) (x : Err) → body_bytes env b ≡ err x → NoSentinel x
    body_bytes-NoSentinel none x h = absurd (ok-ne-err _ x h)
    body_bytes-NoSentinel (some j) x h =
        elim (with_result-eq-err (or_wrap (codes "ztxbas: marshal request: ") (env.render_json j)) _
          x h) [
            | inl early ↦ or_wrap-NoSentinel _ _ x early
            | inr (b, _, late) ↦ absurd (ok-ne-err _ x late)
          ]

    prepare-NoSentinel :
        (c : Client) (method path : Text) (b : Option Json) (x : Err)
        → prepare env c method path b ≡ err x
        → NoSentinel x
    unfolding prepare
    prepare-NoSentinel c method path b x h = elim (with_result-eq-err (body_bytes env b) _ x h) [
      | inl early ↦ body_bytes-NoSentinel b x early
      | inr (bytes, _, late) ↦
          elim (with_result-eq-err
            (or_wrap (codes "ztxbas: build request: ")
              (new_request method (target c.base_url path) (content bytes)))
            _ x late) [
              | inl early ↦ or_wrap-NoSentinel _ _ x early
              | inr (r, _, later) ↦ absurd (ok-ne-err _ x later)
            ]
    ]

    -- An error of `do` in which `errors.Is` finds a sentinel comes from a response that the
    -- server gave to a request of this client, with a status of at least 400 and with the status
    -- or the code of that sentinel: no failure on the client's side is taken for one.
    pub do_request_sentinel :
        (c : Client) (method path : Text) (req_body : Option Json) (w : World) (e : Err)
        (t : Sentinel)
        → (do_request env c method path req_body out set w).0 ≡ err e
        → is e t ≡ true
        → (k : ℕ) × (r : Request) × (resp : Response) × (env.exchange k c.hc r ≡ done resp)
          × (400 ≤ resp.status)
          × Reports resp.status (code_of resp) t
    do_request_sentinel c method path req_body w e t h found =
        elim (dispatch-eq-err c (prepare env c method path req_body) w e
          (prepare-NoSentinel c method path req_body) (unfold do_request in h)) [
            | inl clean ↦ absurd (true-ne-false (sym found ∙ clean t))
            | inr (k, r, resp, got, big, same_error) ↦ (
              k,
              r,
              resp,
              got,
              big,
              (is-decode_err resp t).0 (sym (ap (λ x. is x t) same_error) ∙ found),
            )
          ]
      where
        true-ne-false : true ≡ false → ⊥
        true-ne-false q = cc
