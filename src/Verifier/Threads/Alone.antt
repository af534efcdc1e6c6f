-- ===== src/Verifier/Threads/Alone.antt =====
-- The steps of one lookup beside `keyForKID` of sdk-go/verify.go as it is read from start to end.
use ztxbas.Base.{
  ℕ, ◌≡◌, ◌≢◌, refl, ap, sym, ◌∙◌, Option, none, some, [], ◌∷◌, inl, inr, Bool-cases, update_here,
  update_other,
}
use ztxbas.Base.Text.{Text}
use ztxbas.Errors.{Result, ok, err}
use ztxbas.Runtime.{Env, World, PublicKey}
use ztxbas.Jwks.{Keys, get_key}
use ztxbas.Verifier.{
  Verifier, Session, is_fresh, store, refresh, from_cache, key_for_kid, fetch_jwks,
}
use ztxbas.Verifier.Threads.{
  Pc, lookup, fetching, returned, System, look, looked, fetched, stored, turn, advance, run,
}

module _ (env : Env) where
  abbrev once : Pc × Session → Pc × Session
  once (p, s) = turn env p s

  -- What one goroutine sees.
  abbrev view : ℕ → System → Pc × Session
  view i s = (s.at i, s.session)

  view-advance : (i : ℕ) (s : System) → view i (advance env i s) ≡ once (view i s)
  view-advance i s = ap (λ p. (p, (turn env (s.at i) s.session).1)) (update_here s.at i _)

  once-lookup :
      (kid : Text) (v : Verifier) (w : World)
      → once (lookup kid, (v, w)) ≡ looked kid (look env (get_key kid v.keys) (v, w))
  unfolding turn
  once-lookup kid v w = refl

  once-fetching :
      (kid : Text) (v : Verifier) (w : World)
      → once (fetching kid, (v, w)) ≡ fetched kid v (fetch_jwks env v w)
  unfolding turn
  once-fetching kid v w = refl

  key_for_kid_lem :
      (kid : Text) (v : Verifier) (w : World)
      → key_for_kid env kid (v, w) ≡ from_cache env kid (get_key kid v.keys) (v, w)
  unfolding key_for_kid
  key_for_kid_lem kid v w = refl

  once-fetched :
      (kid : Text) (v : Verifier) (p : Result Keys × World)
      → once (fetched kid v p) ≡ stored kid (store env kid v p)
  unfolding turn store
  once-fetched kid v (ok m, w) = refl
  once-fetched kid v (err e, w) = refl

  twice-refresh :
      (kid : Text) (v : Verifier) (w : World)
      → once (once (fetching kid, (v, w))) ≡ stored kid (refresh env kid (v, w))
  unfolding refresh
  twice-refresh kid v w = ap once (once-fetching kid v w) ∙ once-fetched kid v (fetch_jwks env v w)

  twice-returned :
      (kid : Text) (r : Result PublicKey) (s : Session)
      → once (once (returned kid r, s)) ≡ (returned kid r, s)
  unfolding turn
  twice-returned kid r s = refl

  twice-looked :
      (kid : Text) (o : Option PublicKey) (v : Verifier) (w : World)
      → once (once (looked kid (look env o (v, w)))) ≡ stored kid (from_cache env kid o (v, w))
  unfolding look from_cache
  twice-looked kid none v w = twice-refresh kid v w
  twice-looked kid (some key) v w =
      elim (Bool-cases (is_fresh v.fetched_at (env.now w.step).mono)) [
        | inl fresh ↦ rw fresh (twice-returned kid (ok key) _)
        | inr stale ↦ rw stale (twice-refresh kid v _)
      ]

  thrice-lookup :
      (kid : Text) (s : Session)
      → once (once (once (lookup kid, s))) ≡ stored kid (key_for_kid env kid s)
  thrice-lookup kid (v, w) =
      ap (λ p. once (once p)) (once-lookup kid v w)
      ∙ (twice-looked kid (get_key kid v.keys) v w
          ∙ ap (stored kid) (sym (key_for_kid_lem kid v w)))

  advance_other : (i j : ℕ) (s : System) → i ≢ j → (advance env i s).at j ≡ s.at j
  advance_other i j s h = update_other s.at i j _ h

  -- Three steps of a goroutine that begins a lookup, with no other goroutine between them, are
  -- `keyForKID` as it is read from start to end: they leave the verifier and the world that it
  -- leaves, return what it returns, and move no other goroutine.
  run_alone :
      (i : ℕ) (kid : Text) (s : System)
      → s.at i ≡ lookup kid
      → let (r, t) = key_for_kid env kid s.session in
        let u = run env (i ∷ i ∷ i ∷ []) s in
        (u.session ≡ t) × (u.at i ≡ returned kid r) × ((j : ℕ) → i ≢ j → u.at j ≡ s.at j)
  unfolding run
  run_alone i kid s e =
      let s₁ = advance env i s in
      let s₂ = advance env i s₁ in
      let seen : view i (advance env i s₂) ≡ stored kid (key_for_kid env kid s.session) =
        view-advance i s₂
        ∙ (ap once (view-advance i s₁ ∙ ap once (view-advance i s))
            ∙ (ap (λ p. once (once (once (p, s.session)))) e ∙ thrice-lookup kid s.session)) in
      (
        ap (λ p. p.1) seen,
        ap (λ p. p.0) seen,
        λ j h. advance_other i j s₂ h ∙ (advance_other i j s₁ h ∙ advance_other i j s h),
      )
