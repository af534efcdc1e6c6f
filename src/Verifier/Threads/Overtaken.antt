-- ===== src/Verifier/Threads/Overtaken.antt =====
-- Fetches of keyForKID in sdk-go/verify.go that overlap, and which of their answers the cache keeps.
use ztxbas.Base.{
  ℕ, ◌+◌, ◌≡◌, ◌≢◌, refl, ap, ◌∙◌, some, List, [], ◌∷◌, ◌++◌, All, update_here, update_other,
}
use ztxbas.Base.Text.{Text}
use ztxbas.Errors.{ok}
use ztxbas.Runtime.{Env, World, PublicKey, after}
use ztxbas.Jwks.{Keys, get_key}
use ztxbas.Verifier.{Session, fetch_jwks, store, present, key_for_kid}
use ztxbas.Verifier.Cache.{IsTrusted, key_for_kid-Fetches}
use ztxbas.Verifier.Threads.{Pc, fetching, storing, returned, System, turn, advance, run}
use ztxbas.Verifier.Threads.Stampede.{run-append}

module _ (env : Env) (i : ℕ) (kid : Text) where
  -- The others' steps leave the goroutine where it is.
  run_others : (js : List ℕ) (s : System) → All (λ j. j ≢ i) js → (run env js s).at i ≡ s.at i
  unfolding run
  run_others [] s none_is = refl
  run_others (j ∷ js) s (ne, none_is) =
      run_others js (advance env j s) none_is ∙ update_other s.at j i _ ne

  turned_fetch :
      (s : System) (m : Keys) (w : World)
      → s.at i ≡ fetching kid
      → fetch_jwks env s.session.0 s.session.1 ≡ (ok m, w)
      → turn env (s.at i) s.session ≡ (storing kid m, (s.session.0, w))
  unfolding turn
  turned_fetch s m w e got = rw (e, got) refl

  fetches :
      (s : System) (m : Keys) (w : World)
      → s.at i ≡ fetching kid
      → fetch_jwks env s.session.0 s.session.1 ≡ (ok m, w)
      → (advance env i s).at i ≡ storing kid m
  fetches s m w e got =
      update_here s.at i _ ∙ ap (λ (p : Pc × Session). p.0) (turned_fetch s m w e got)

  abbrev after_store : Session → Keys → Session
  after_store (v, w) m = (record v { keys = m; fetched_at = some (env.now w.step).mono }, after w)

  stores :
      (s : System) (m : Keys)
      → s.at i ≡ storing kid m
      → turn env (s.at i) s.session
        ≡ (returned kid (present env kid (get_key kid m)), after_store s.session m)
  unfolding turn store
  stores s m e = rw e refl

  -- Once a goroutine has fetched a key set, then however the others' steps interleave before its
  -- next own step, and whatever newer answers they have fetched and stored in between: with that
  -- step its own answer is what the cache holds, dated by the clock of that moment, it returns
  -- the key of its id in that answer or an error, and the next lookup of any id that the answer
  -- has returns the key in it, if the clock then reads less than 300 seconds more.
  pub older_answer_wins :
      (js : List ℕ) (s : System) (m : Keys) (w : World)
      → s.at i ≡ fetching kid
      → fetch_jwks env s.session.0 s.session.1 ≡ (ok m, w)
      → All (λ j. j ≢ i) js
      → let t = run env (i ∷ js) s in
        let u = run env (i ∷ (js ++ i ∷ [])) s in
        let stored_at = (env.now t.session.1.step).mono in
        (u.session.0.keys ≡ m)
        × (u.session.0.fetched_at ≡ some stored_at)
        × (u.at i ≡ returned kid (present env kid (get_key kid m)))
        × ((k : Text) (key : PublicKey)
            → get_key k m ≡ some key
            → IsTrusted (some stored_at) (env.now (t.session.1.step + 1)).mono
            → (key_for_kid env k u.session).0 ≡ ok key)
  unfolding run
  older_answer_wins js s m w e got others =
      let t = run env js (advance env i s) in
      let turned = stores t m (run_others js (advance env i s) others ∙ fetches s m w e got) in
      let last : run env (js ++ i ∷ []) (advance env i s) ≡ advance env i t =
        run-append env js (i ∷ []) (advance env i s) in
      let ends : (run env (js ++ i ∷ []) (advance env i s)).session ≡ after_store t.session m =
        ap (λ (x : System). x.session) last ∙ ap (λ p. p.1) turned in
      (
        ap (λ (x : Session). x.0.keys) ends,
        ap (λ (x : Session). x.0.fetched_at) ends,
        ap (λ (x : System). x.at i) last ∙ (update_here t.at i _ ∙ ap (λ p. p.0) turned),
        λ k key here trusted.
            ap (λ (x : Session). (key_for_kid env k x).0) ends
            ∙ ap (λ p. p.0)
                (((key_for_kid-Fetches env k (after_store t.session m).0
                      (after_store t.session m).1).0
                    key here).0
                  trusted),
      )
