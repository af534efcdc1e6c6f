-- ===== src/Client/Success.antt =====
-- When `do` succeeds, and with what.
use ztxbas.Base.{
  ◌+◌, ◌^◌, ◌<◌, ◌≡◌, ◌≢◌, ◌⊎◌, ◌↔◌, inl, inr, refl, sym, subst, ap, ◌∙◌, true, false, Bool, Option,
  none, some, arith,
}
use ztxbas.Base.Result.{Outcome, done, fault}
use ztxbas.Base.Text.{Text, Bytes, codes}
use ztxbas.Go.Encoding.{hex_encode}
use ztxbas.Go.Json.{Json, Setter}
use ztxbas.Go.Http.{Request, Response, read_all}
use ztxbas.Errors.{Result, ok, err, or_wrap, annotate}
use ztxbas.Errors.Steps.{with_result_iff, ok-ne-err}
use ztxbas.Runtime.{Env, World, checked, after, rand_read, time_now, http_do}
use ztxbas.Sign.{nonce_text, nonce_bytes, new_nonce, sign_request}
use ztxbas.Client.{
  Client, receive, decode_body, fitted, send, sign_and_send, dispatch, prepare, do_request,
  decode_prefix,
}
use ztxbas.Client.Outcomes.{receive-cases}

fitted_iff : {A : Type 0} (p : A × Bool) (a : A) → (fitted p ≡ ok a) ↔ (p ≡ (a, true))
fitted_iff (x, true) a = ((λ h. ground arith), λ h. ground arith)
fitted_iff (x, false) a = ((λ h. absurd (ok-ne-err a _ (sym h))), λ h. cc)

or_wrap_iff {ℓ} :
    {A : Type ℓ} (prefix : Text) (o : Outcome A) (a : A) → (or_wrap prefix o ≡ ok a) ↔ (o ≡ done a)
or_wrap_iff prefix (done x) a = ((λ h. cc), λ h. cc)
or_wrap_iff prefix (fault m) a = ((λ h. cc), λ h. cc)

annotate-checked_iff {ℓ} :
    {A : Type ℓ} (prefix : Text) (o : Outcome A) (a : A)
    → (annotate prefix (checked o) ≡ ok a) ↔ (o ≡ done a)
annotate-checked_iff prefix (done x) a = ((λ h. cc), λ h. cc)
annotate-checked_iff prefix (fault m) a = ((λ h. cc), λ h. cc)

nonce_iff :
    (o : Outcome Bytes) (n : Text)
    → (nonce_text (checked o) ≡ ok n) ↔ ((b : Bytes) × (o ≡ done b) × (n ≡ hex_encode b))
nonce_iff (done b) n = ((λ h. (b, refl, cc)), λ (x, e, q). cc)
nonce_iff (fault m) n = ((λ h. cc), λ (x, e, q). cc)

ok_iff {ℓ} : {A : Type ℓ} (x a : A) → (ok x ≡ ok a) ↔ (x ≡ a)
ok_iff x a = ((λ h. cc), λ h. cc)

module _ (env : Env) {A : Type 0} (out : A) (set : Option (Setter A)) where
  -- The decoded value: `respBody` as it was if it is nil, or set from the document at the start of the
  -- first 1 MiB of the body.
  abbrev pub IsDecoded : Option (Setter A) → Response → A → Type 0
  IsDecoded none resp a = out ≡ a
  IsDecoded (some f) resp a =
      (j : Json) × (env.parse_first (read_all (2 ^ 20) resp).0 (read_all (2 ^ 20) resp).1 ≡ done j)
      × (f j out ≡ (a, true))

  -- What a response gives that is not an error: 204 leaves `respBody` as it was.
  abbrev pub Gives : Response → A → Type 0
  Gives resp a =
      ((resp.status ≡ 204) × (out ≡ a))
      ⊎ ((resp.status ≢ 204) × (resp.status < 400) × IsDecoded set resp a)

  -- From the request on, nothing fails: 16 random bytes, and the response to the signed
  -- request.
  pub record Succeeds (c : Client) (request : Request) (w : World) (a : A) : Type 0 where
    pub random : Bytes
    pub drawn : env.random w.step nonce_bytes ≡ done random
    pub response : Response
    pub answered :
        env.exchange (w.step + 1 + 1) c.hc (
          sign_request env request request.body c.app_id c.secret
            (env.now (w.step + 1))
            (hex_encode random))
        ≡ done response
    pub gives : Gives response a

  decode_body_iff :
      (s : Option (Setter A)) (resp : Response) (a : A)
      → (decode_body env out s resp ≡ ok a) ↔ IsDecoded s resp a
  decode_body_iff none resp a = ok_iff out a
  decode_body_iff (some f) resp a =
      let o = env.parse_first (read_all (2 ^ 20) resp).0 (read_all (2 ^ 20) resp).1 in
      let both = with_result_iff (or_wrap decode_prefix o) (λ j. fitted (f j out)) a in
      (
        (λ h.
            let (j, read, fits) = both.0 h in
            (j, (or_wrap_iff decode_prefix o j).0 read, (fitted_iff (f j out) a).0 fits)),
        λ (j, read, fits).
            both.1 (j, (or_wrap_iff decode_prefix o j).1 read, (fitted_iff (f j out) a).1 fits),
      )

  receive_iff : (resp : Response) (a : A) → (receive env out set resp ≡ ok a) ↔ Gives resp a
  receive_iff resp a = (there, back)
    where
      there : receive env out set resp ≡ ok a → Gives resp a
      there h = elim (receive-cases env out set resp) [
        | inl (s, q) ↦ inl (s, (ok_iff out a).0 (sym q ∙ h))
        | inr (inl (big, q)) ↦ absurd (ok-ne-err a _ (sym h ∙ q))
        | inr (inr (s, small, q)) ↦ inr (s, small, (decode_body_iff set resp a).0 (sym q ∙ h))
      ]

      back : Gives resp a → receive env out set resp ≡ ok a
      back (inl (s, e)) = elim (receive-cases env out set resp) [
        | inl (_, q) ↦ q ∙ ap ok e
        | inr (inl (big, q)) ↦ absurd (omega arith)
        | inr (inr (t, small, q)) ↦ absurd (t s)
      ]
      back (inr (s, small, d)) = elim (receive-cases env out set resp) [
        | inl (t, q) ↦ absurd (s t)
        | inr (inl (big, q)) ↦ absurd (omega arith)
        | inr (inr (_, _, q)) ↦ q ∙ (decode_body_iff set resp a).1 d
      ]

  send_iff :
      (c : Client) (r : Request) (w : World) (a : A)
      → ((send env out set c r w).0 ≡ ok a)
        ↔ ((resp : Response) × (env.exchange w.step c.hc r ≡ done resp) × Gives resp a)
  unfolding send http_do
  send_iff c r w a =
      let o = env.exchange w.step c.hc r in
      let both =
        with_result_iff (annotate (codes "ztxbas: http: ") (checked o)) (receive env out set) a in
      let got = annotate-checked_iff (codes "ztxbas: http: ") o in
      (
        (λ h. let (resp, e, d) = both.0 h in (resp, (got resp).0 e, (receive_iff resp a).0 d)),
        λ (resp, e, d). both.1 (resp, (got resp).1 e, (receive_iff resp a).1 d),
      )

  sign_and_send_iff :
      (c : Client) (r : Request) (w : World) (a : A)
      → ((sign_and_send env out set c r (new_nonce env w)).0 ≡ ok a) ↔ Succeeds c r w a
  unfolding sign_and_send new_nonce rand_read time_now
  sign_and_send_iff c r w a = (there (env.random w.step nonce_bytes) refl, back)
    where
      signed : Text → Request
      signed nonce = sign_request env r r.body c.app_id c.secret (env.now (w.step + 1)) nonce

      there :
          (o : Outcome Bytes)
          → env.random w.step nonce_bytes ≡ o
          → (sign_and_send env out set c r (nonce_text (checked o), after w)).0 ≡ ok a
          → Succeeds c r w a
      there (fault m) e h = absurd (ok-ne-err a _ (sym h))
      there (done b) e h =
          let (resp, got, gives) = (send_iff c (signed (hex_encode b)) (after (after w)) a).0 h in
          record { random = b; drawn = e; response = resp; answered = got; gives = gives }

      back : Succeeds c r w a → (sign_and_send env out set c r (new_nonce env w)).0 ≡ ok a
      back s = rw s.drawn (
          (send_iff c (signed (hex_encode s.random)) (after (after w)) a).1
            (s.response, s.answered, s.gives))

  -- `do` succeeds with a value exactly if the request can be built, the random source gives the
  -- nonce's bytes, the HTTP client gives a response to this request, signed with the nonce in hex
  -- and the next reading of the clock, and the response has status 204 and the value is what
  -- `respBody` was, or has another status below 400 and the value is what `respBody` was, where
  -- that is nil, or what the document at the start of the first 1 MiB of the body makes of it,
  -- with types that fit.
  pub do_request_iff :
      (c : Client) (method path : Text) (req_body : Option Json) (w : World) (a : A)
      → ((do_request env c method path req_body out set w).0 ≡ ok a)
        ↔ ((r : Request) × (prepare env c method path req_body ≡ ok r) × Succeeds c r w a)
  unfolding do_request dispatch
  do_request_iff c method path req_body w a = go (prepare env c method path req_body)
    where
      go :
          (p : Result Request)
          → ((dispatch env out set c p w).0 ≡ ok a)
            ↔ ((r : Request) × (p ≡ ok r) × Succeeds c r w a)
      go (err e) =
          ((λ h. absurd (ok-ne-err a e (sym h))), λ (r, q, s). absurd (ok-ne-err r e (sym q)))
      go (ok r) = (
        (λ h. (r, refl, (sign_and_send_iff c r w a).0 h)),
        λ (r', q, s).
            (sign_and_send_iff c r w a).1
              (subst (λ x. Succeeds c x w a) (sym ((ok_iff r r').0 q)) s),
      )
