-- ===== src/Verifier/Cache.antt =====
-- The cache of keys of sdk-go/verify.go, and when a lookup goes past it.
use ztxbas.Base.{
  ℕ, ◌+◌, ◌<◌, ◌↔◌, arith, false, ◌≡◌, refl, true, Option, none, some, inl, inr, Bool-cases,
}
use ztxbas.Base.Text.{Text}
use ztxbas.Errors.{Err, Result, Result-cases, ok, err}
use ztxbas.Runtime.{Env, World, PublicKey, after}
use ztxbas.Jwks.{Keys, get_key}
use ztxbas.Verifier.{
  Verifier, Session, is_fresh, present, refresh, from_cache, fetch_jwks, key_for_kid,
}

-- The settings, which no verification changes.
abbrev pub SameSettings : Verifier → Verifier → Type 0
SameSettings u v = (u.jwks_url ≡ v.jwks_url) × (u.hc ≡ v.hc) × (u.expected_iss ≡ v.expected_iss)

-- The state in which a fetch starts, if there is one: the clock was read if the id is in the cache.
abbrev pub before_fetch : Option PublicKey → World → World
before_fetch none w = w
before_fetch (some key) w = after w

-- A cache that was filled at one time is trusted at another for 300 seconds, by the monotonic clock. One
-- that was never filled is not.
abbrev pub IsTrusted : Option ℕ → ℕ → Type 0
IsTrusted none now = ⊥
IsTrusted (some filled) now = now < filled + 300000000000

is_fresh_iff : (filled : Option ℕ) (now : ℕ) → (is_fresh filled now ≡ true) ↔ IsTrusted filled now
is_fresh_iff none now = ground arith
is_fresh_iff (some t) now = ground arith

module _ (env : Env) where
  -- The cache as a fetch that ended in the state `w` leaves it.
  abbrev pub renewed : Verifier → Keys → World → Verifier
  renewed v m w = record v { keys = m; fetched_at = some (env.now w.step).mono }

  -- How `keyForKID` can end: with the cache as it was, because the id is in it and it is fresh, or
  -- because the fetch failed; or with the cache replaced by what was fetched, whether or not the id
  -- is in that.
  pub data Ends (kid : Text) (v : Verifier) (w : World) (out : Result PublicKey × Session)
      : Type 0 where
    cached :
        (key : PublicKey)
        → get_key kid v.keys ≡ some key
        → is_fresh v.fetched_at (env.now w.step).mono ≡ true
        → out ≡ (ok key, (v, after w))
        → Ends kid v w out
    failed :
        (w₁ : World) (e : Err)
        → fetch_jwks env v (before_fetch (get_key kid v.keys) w) ≡ (err e, w₁)
        → out ≡ (err e, (v, w₁))
        → Ends kid v w out
    fetched :
        (w₁ : World) (m : Keys)
        → fetch_jwks env v (before_fetch (get_key kid v.keys) w) ≡ (ok m, w₁)
        → out ≡ (present env kid (get_key kid m), (renewed v m w₁, after w₁))
        → Ends kid v w out

  refresh-ok :
      (kid : Text) (v : Verifier) (w w₁ : World) (m : Keys)
      → fetch_jwks env v w ≡ (ok m, w₁)
      → refresh env kid (v, w) ≡ (present env kid (get_key kid m), (renewed v m w₁, after w₁))
  refresh-ok kid v w w₁ m e = unfold refresh in (rw e)

  refresh-err :
      (kid : Text) (v : Verifier) (w w₁ : World) (e : Err)
      → fetch_jwks env v w ≡ (err e, w₁)
      → refresh env kid (v, w) ≡ (err e, (v, w₁))
  refresh-err kid v w w₁ e h = unfold refresh in (rw h)

  refresh-Ends :
      (kid : Text) (v : Verifier) (w w₀ : World)
      → before_fetch (get_key kid v.keys) w ≡ w₀
      → Ends kid v w (refresh env kid (v, w₀))
  refresh-Ends kid v w w₀ b =
      let w₁ = (fetch_jwks env v w₀).1 in
      elim (Result-cases (fetch_jwks env v w₀).0) [
        | inl (m, got) ↦
            let e : fetch_jwks env v w₀ ≡ (ok m, w₁) = λ i. (got i, w₁) in
            fetched w₁ m (rw b e) (refresh-ok kid v w₀ w₁ m e)
        | inr (x, got) ↦
            let e : fetch_jwks env v w₀ ≡ (err x, w₁) = λ i. (got i, w₁) in
            failed w₁ x (rw b e) (refresh-err kid v w₀ w₁ x e)
      ]

  from_cache-Ends :
      (kid : Text) (v : Verifier) (w : World) (o : Option PublicKey)
      → get_key kid v.keys ≡ o
      → Ends kid v w (from_cache env kid o (v, w))
  from_cache-Ends kid v w none e = unfold from_cache in (refresh-Ends kid v w w (rw e))
  from_cache-Ends kid v w (some key) e =
      elim (Bool-cases (is_fresh v.fetched_at (env.now w.step).mono)) [
        | inl fresh ↦ cached key e fresh (unfold from_cache in (rw fresh))
        | inr stale ↦ unfold from_cache in (rw stale (refresh-Ends kid v w (after w) (rw e)))
      ]

  -- `keyForKID` ends in one of these ways.
  pub key_for_kid-Ends :
      (kid : Text) (v : Verifier) (w : World) → Ends kid v w (key_for_kid env kid (v, w))
  key_for_kid-Ends kid v w =
      unfold key_for_kid in (from_cache-Ends kid v w (get_key kid v.keys) refl)

  -- How a fetch from a state of the world ends a lookup: its error is returned and the verifier kept, or
  -- what was fetched replaces the cache, is dated by the clock, and is asked for the id.
  pub record Fetches (kid : Text) (v : Verifier) (w : World) (out : Result PublicKey × Session)
      : Type 0 where
    pub on_error :
        (e : Err) (w' : World) → fetch_jwks env v w ≡ (err e, w') → out ≡ (err e, (v, w'))
    pub on_keys :
        (m : Keys) (w' : World)
        → fetch_jwks env v w ≡ (ok m, w')
        → out ≡ (present env kid (get_key kid m), (renewed v m w', after w'))

  refresh-Fetches :
      (kid : Text) (v : Verifier) (w : World) → Fetches kid v w (refresh env kid (v, w))
  refresh-Fetches kid v w = record {
    on_error = λ e w' h. refresh-err kid v w w' e h;
    on_keys = λ m w' h. refresh-ok kid v w w' m h;
  }

  -- `keyForKID` returns the cached key of the id and keeps the cache if the clock reads less than
  -- 300 seconds after the cache was filled; otherwise, or if the id is not cached, it ends as a
  -- fetch does: with the error of the fetch and the cache as it was, or with the cache replaced
  -- by what was fetched and dated by the clock after the fetch, where the result is the fetched
  -- key of that id or an error.
  pub key_for_kid-Fetches :
      (kid : Text) (v : Verifier) (w : World)
      → ((key : PublicKey)
          → get_key kid v.keys ≡ some key
          → (IsTrusted v.fetched_at (env.now w.step).mono
              → key_for_kid env kid (v, w) ≡ (ok key, (v, after w)))
            × ((IsTrusted v.fetched_at (env.now w.step).mono → ⊥)
                → Fetches kid v (after w) (key_for_kid env kid (v, w))))
        × (get_key kid v.keys ≡ none → Fetches kid v w (key_for_kid env kid (v, w)))
  unfolding key_for_kid from_cache
  key_for_kid-Fetches kid v w = (
    λ key here. (
      (λ trusted. rw (here, (is_fresh_iff v.fetched_at (env.now w.step).mono).1 trusted) refl),
      λ old.
          let stale : is_fresh v.fetched_at (env.now w.step).mono ≡ false =
            ground (arith, is_fresh_iff v.fetched_at (env.now w.step).mono) in
          rw (here, stale) (refresh-Fetches kid v (after w)),
    ),
    λ missing. rw missing (refresh-Fetches kid v w),
  )
