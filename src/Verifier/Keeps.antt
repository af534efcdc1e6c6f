-- ===== src/Verifier/Keeps.antt =====
-- What a lookup of a key keeps, what it returns, and when it sends a request.
use ztxbas.Base.{◌≡◌, refl, ap, ◌∙◌, true, [], ◌∷◌, ◌++◌, Option, none, some, arith, ◌⊎◌, inl}
use ztxbas.Base.Result.{done}
use ztxbas.Base.Text.{Text}
use ztxbas.Go.Url.{Url}
use ztxbas.Errors.{Result, ok, err}
use ztxbas.Runtime.{Env, World, PublicKey, after}
use ztxbas.Jwks.{Keys, get_key}
use ztxbas.Jwks.Keys.{AllOnCurve, keys_of_lem}
use ztxbas.Verifier.{
  Verifier, Session, is_fresh, present, jwks_request, fetch_jwks, key_for_kid, refresh, store,
}
use ztxbas.Verifier.Fetch.{fetch_jwks_sound, sent-fetch_jwks}
use ztxbas.Verifier.Cache.{
  SameSettings, before_fetch, Ends, cached, failed, fetched, key_for_kid-Ends,
}

-- What an action on a verifier that looks up a key guarantees of its end.
pub record Kept (kid : Text) (v : Verifier) (out : Result PublicKey × Session) : Type 0 where
  -- keys are points of the curve, as before
  pub on_curve : AllOnCurve v.keys → AllOnCurve out.1.0.keys
  -- a key that is returned is the cache's
  pub returned : (key : PublicKey) → out.0 ≡ ok key → get_key kid out.1.0.keys ≡ some key
  pub settings : SameSettings out.1.0 v

module _ (env : Env) where
  present-eq-ok :
      (kid : Text) (o : Option PublicKey) (key : PublicKey)
      → present env kid o ≡ ok key
      → o ≡ some key
  present-eq-ok kid none key h = cc
  present-eq-ok kid (some k) key h = cc

  Ends-Kept :
      (kid : Text) (v : Verifier) (w : World) (out : Result PublicKey × Session)
      → Ends env kid v w out
      → Kept kid v out
  Ends-Kept kid v w out (cached key here fresh e) = rw e (record {
    on_curve = λ h. h;
    returned = λ k same. here ∙ ground arith;
    settings = (refl, refl, refl);
  })
  Ends-Kept kid v w out (failed w₁ x got e) =
      rw e (record { on_curve = λ h. h; returned = λ k same. cc; settings = (refl, refl, refl) })
  Ends-Kept kid v w out (fetched w₁ m got e) =
      let source =
        fetch_jwks_sound env v (before_fetch (get_key kid v.keys) w) m (ap (λ p. p.0) got) in
      rw e (record {
        on_curve = λ _. (keys_of_lem env source.set m source.is_map).1;
        returned = λ k same. present-eq-ok kid (get_key kid m) k same;
        settings = (refl, refl, refl);
      })

  -- Looking up a key keeps every cached key on the curve, leaves the verifier's settings alone,
  -- and returns only a key that stands in the cache afterwards under the id that was asked for.
  pub key_for_kid-Kept :
      (kid : Text) (v : Verifier) (w : World) → Kept kid v (key_for_kid env kid (v, w))
  key_for_kid-Kept kid v w = Ends-Kept kid v w _ (key_for_kid-Ends env kid v w)

  sent-before_fetch : (o : Option PublicKey) (w : World) → (before_fetch o w).sent ≡ w.sent
  sent-before_fetch none w = refl
  sent-before_fetch (some k) w = refl

  -- What was sent, before and after: nothing more, or one request for the key set.
  abbrev pub OneFetch : World → World → Type 0
  OneFetch w w' = (w'.sent ≡ w.sent) ⊎ ((u : Url) × (w'.sent ≡ w.sent ++ jwks_request u ∷ []))

  sent-fetch :
      (v : Verifier) (o : Option PublicKey) (w w₁ : World) (r : Result Keys)
      → fetch_jwks env v (before_fetch o w) ≡ (r, w₁)
      → OneFetch w w₁
  sent-fetch v o w w₁ r e = ground (
    arith,
    sent-fetch_jwks env v (before_fetch o w),
    sent-before_fetch o w,
    ap (λ (p : Result Keys × World). p.1.sent) e,
  )

  sent-Ends :
      (kid : Text) (v : Verifier) (w : World) (out : Result PublicKey × Session)
      → Ends env kid v w out
      → OneFetch w out.1.1
  sent-Ends kid v w out (cached key here fresh e) = inl (ap (λ p. p.1.1.sent) e)
  sent-Ends kid v w out (failed w₁ x got e) =
      rw e (sent-fetch v (get_key kid v.keys) w w₁ (err x) got)
  sent-Ends kid v w out (fetched w₁ m got e) =
      rw e (sent-fetch v (get_key kid v.keys) w w₁ (ok m) got)

  -- A lookup of a key hands at most one request to the HTTP client, and it is a GET of the key
  -- set.
  pub sent-key_for_kid :
      (kid : Text) (v : Verifier) (w : World) → OneFetch w (key_for_kid env kid (v, w)).1.1
  sent-key_for_kid kid v w = sent-Ends kid v w _ (key_for_kid-Ends env kid v w)

  -- If a lookup returned a key and the cache that it left is still fresh at the next reading of
  -- the clock, then the same lookup returns the same key, changes nothing in the verifier and
  -- sends nothing.
  pub key_for_kid_again :
      (kid : Text) (v : Verifier) (w : World) (key : PublicKey)
      → (key_for_kid env kid (v, w)).0 ≡ ok key
      → let s = (key_for_kid env kid (v, w)).1 in
        is_fresh s.0.fetched_at (env.now s.1.step).mono ≡ true
        → key_for_kid env kid s ≡ (ok key, (s.0, after s.1))
  key_for_kid_again kid v w key h fresh =
      let s = (key_for_kid env kid (v, w)).1 in
      let here : get_key kid s.0.keys ≡ some key = (key_for_kid-Kept kid v w).returned key h in
      again s.0 s.1 here fresh
    where
      again :
          (v' : Verifier) (w' : World)
          → get_key kid v'.keys ≡ some key
          → is_fresh v'.fetched_at (env.now w'.step).mono ≡ true
          → key_for_kid env kid (v', w') ≡ (ok key, (v', after w'))
      again v' w' e f = unfold key_for_kid in (rw (e, f))

  sent-store :
      (kid : Text) (v : Verifier) (p : Result Keys × World)
      → (store env kid v p).1.1.sent ≡ p.1.sent
  unfolding store
  sent-store kid v (ok m, w) = refl
  sent-store kid v (err e, w) = refl

  pub sent-fetch_jwks_parsed :
      (v : Verifier) (w : World) (u : Url)
      → env.parse_url v.jwks_url ≡ done u
      → (fetch_jwks env v w).1.sent ≡ w.sent ++ jwks_request u ∷ []
  unfolding fetch_jwks
  sent-fetch_jwks_parsed v w u parsed = rw parsed

  -- A lookup of an id that is not in the cache sends a request for the key set each time, however
  -- fresh the cache is, where the verifier's URL can be parsed.
  pub sent-key_for_kid_unknown :
      (kid : Text) (v : Verifier) (w : World) (u : Url)
      → get_key kid v.keys ≡ none
      → env.parse_url v.jwks_url ≡ done u
      → (key_for_kid env kid (v, w)).1.1.sent ≡ w.sent ++ jwks_request u ∷ []
  sent-key_for_kid_unknown kid v w u unknown parsed =
      ap (λ p. p.1.1.sent) looked_up
      ∙ (sent-store kid v (fetch_jwks env v w) ∙ sent-fetch_jwks_parsed v w u parsed)
    where
      looked_up : key_for_kid env kid (v, w) ≡ store env kid v (fetch_jwks env v w)
      looked_up = unfold key_for_kid refresh in (rw unknown)
