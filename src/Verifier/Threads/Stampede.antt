-- ===== src/Verifier/Threads/Stampede.antt =====
-- Lookups of keyForKID in sdk-go/verify.go that miss the cache together.
use mathlib.Core.List.{append-nil, append_assoc}
use ztxbas.Base.{
  ℕ, suc, zero, Bool, true, false, ◌≡◌, ◌≢◌, ◌⊎◌, refl, ap, sym, subst, ◌∙◌, none, List, [], ◌∷◌,
  ◌++◌, All, inl, inr, Bool-cases, if◌then◌else◌, ◌==◌, ==_iff, update, update_here, update_other,
  arith,
}
use ztxbas.Base.Result.{done}
use ztxbas.Base.Text.{Text}
use ztxbas.Go.Url.{Url}
use ztxbas.Errors.{Result, ok, err}
use ztxbas.Runtime.{Env, World}
use ztxbas.Jwks.{Keys, get_key}
use ztxbas.Verifier.{Verifier, Session, jwks_request, fetch_jwks, store}
use ztxbas.Verifier.Keeps.{sent-fetch_jwks_parsed}
use ztxbas.Verifier.Threads.{
  Pc, idle, lookup, fetching, storing, returned, System, look, fetched, turn, advance, run,
}

-- Each goroutine has at most one turn.
abbrev pub HasOnce : List ℕ → Type 0
HasOnce [] = Unit
HasOnce (i ∷ is) = All (λ j. j ≢ i) is × HasOnce is

-- How many goroutines have a turn, less those that are marked.
abbrev pub askers : (ℕ → Bool) → List ℕ → ℕ
askers marked [] = 0
askers marked (j ∷ js) =
    if marked j then askers marked js else suc (askers (update marked j true) js)

abbrev pub copies {ℓ} : {A : Type ℓ} → ℕ → A → List A
copies zero a = []
copies (suc n) a = a ∷ copies n a

abbrev pub Occurs : ℕ → List ℕ → Type 0
Occurs k [] = ⊥
Occurs k (i ∷ is) = (i ≡ k) ⊎ Occurs k is

at_occurrence : (P : ℕ → Type 0) (is : List ℕ) (k : ℕ) → Occurs k is → All P is → P k
at_occurrence P [] k o all = absurd o
at_occurrence P (i ∷ is) k (inl e) (p, all) = subst P e p
at_occurrence P (i ∷ is) k (inr o) (p, all) = at_occurrence P is k o all

module _ (env : Env) where
  pub run-append : (is js : List ℕ) (s : System) → run env (is ++ js) s ≡ run env js (run env is s)
  unfolding run
  run-append [] js s = refl
  run-append (i ∷ is) js s = run-append is js (advance env i s)

  module _ (kid : Text) where
    turn_miss :
        (v : Verifier) (w : World)
        → get_key kid v.keys ≡ none
        → turn env (lookup kid) (v, w) ≡ (fetching kid, (v, w))
    unfolding turn look
    turn_miss v w e = rw e

    -- Lookups that miss leave every one of them about to fetch.
    record Missed (is : List ℕ) (s t : System) : Type 0 where
      same_session : t.session ≡ s.session
      about : All (λ i. t.at i ≡ fetching kid) is
      others : (k : ℕ) → All (λ j. j ≢ k) is → t.at k ≡ s.at k

    after_turn :
        (s : System) (i : ℕ) (is : List ℕ)
        → All (λ j. j ≢ i) is
        → All (λ j. s.at j ≡ lookup kid) is
        → All (λ j. (advance env i s).at j ≡ lookup kid) is
    after_turn s i [] none_is all = tt
    after_turn s i (j ∷ is) (ne, none_is) (e, all) =
        (update_other s.at i j _ (λ q. ne (sym q)) ∙ e, after_turn s i is none_is all)

    misses :
        (is : List ℕ) (s : System)
        → HasOnce is
        → All (λ i. s.at i ≡ lookup kid) is
        → get_key kid s.session.0.keys ≡ none
        → Missed is s (run env is s)
    unfolding run
    misses [] s once all unknown = record { same_session = refl; about = tt; others = λ k h. refl }
    misses (i ∷ is) s (none_is, once) (e, all) unknown =
        let turned : turn env (s.at i) s.session ≡ (fetching kid, s.session) =
          ap (λ p. turn env p s.session) e ∙ turn_miss s.session.0 s.session.1 unknown in
        let next = advance env i s in
        let same : next.session ≡ s.session = ap (λ p. p.1) turned in
        let rest =
          misses is next once (after_turn s i is none_is all)
            (ap (λ (t : Session). get_key kid t.0.keys) same ∙ unknown) in
        record {
          same_session = rest.same_session ∙ same;
          about =
              (rest.others i none_is ∙ (update_here s.at i _ ∙ ap (λ p. p.0) turned), rest.about);
          others = λ k (ne, h). rest.others k h ∙ update_other s.at i k _ ne;
        }

    fetched-verifier : (v : Verifier) (p : Result Keys × World) → (fetched kid v p).1.0 ≡ v
    fetched-verifier v (ok m, w) = refl
    fetched-verifier v (err e, w) = refl

    fetched-world : (v : Verifier) (p : Result Keys × World) → (fetched kid v p).1.1 ≡ p.1
    fetched-world v (ok m, w) = refl
    fetched-world v (err e, w) = refl

    turn_fetch :
        (v : Verifier) (w : World)
        → turn env (fetching kid) (v, w) ≡ fetched kid v (fetch_jwks env v w)
    unfolding turn
    turn_fetch v w = refl

    -- After its fetch.
    abbrev IsPast : Pc → Type 0
    IsPast (storing k m) = Unit
    IsPast (returned k r) = Unit
    IsPast p = ⊥

    fetched-IsPast : (v : Verifier) (p : Result Keys × World) → IsPast (fetched kid v p).0
    fetched-IsPast v (ok m, w) = tt
    fetched-IsPast v (err e, w) = tt

    -- A turn after the fetch sends nothing, and keeps the URL.
    record IsQuiet (s : Session) (out : Pc × Session) : Type 0 where
      past : IsPast out.0
      same_url : out.1.0.jwks_url ≡ s.0.jwks_url
      same_sent : out.1.1.sent ≡ s.1.sent

    turn_past : (p : Pc) (s : Session) → IsPast p → IsQuiet s (turn env p s)
    unfolding turn store
    turn_past (storing k m) (v, w) h = record { past = tt; same_url = refl; same_sent = refl }
    turn_past (returned k r) s h = record { past = tt; same_url = refl; same_sent = refl }
    turn_past idle s h = absurd h
    turn_past (lookup k) s h = absurd h
    turn_past (fetching k) s h = absurd h

    -- The marked goroutines have fetched, and the others are about to.
    abbrev Stands : (ℕ → Bool) → System → ℕ → Type 0
    Stands marked s j =
        (marked j ≡ true → IsPast (s.at j)) × (marked j ≡ false → s.at j ≡ fetching kid)

    -- One goroutine has moved to behind its fetch, and is marked.
    Stands-next :
        (marked marked' : ℕ → Bool) (s : System) (j : ℕ)
        → marked' j ≡ true
        → ((k : ℕ) → j ≢ k → marked' k ≡ marked k)
        → IsPast (turn env (s.at j) s.session).0
        → (k : ℕ) → Stands marked s k
        → Stands marked' (advance env j s) k
    Stands-next marked marked' s j at_j others past k (p, f) = elim (Bool-cases (j == k)) [
      | inl same_one ↦
          let e : j ≡ k = (==_iff j k).0 same_one in
          subst (λ i. Stands marked' (advance env j s) i) e
            ((λ h. subst IsPast (sym (update_here s.at j _)) past), λ h. absurd (ground arith))
      | inr apart ↦
          let ne : j ≢ k = ground (arith, ==_iff j k) in
          let same = update_other s.at j k _ ne in
          (
            (λ h. subst IsPast (sym same) (p (sym (others k ne) ∙ h))),
            λ h. same ∙ f (sym (others k ne) ∙ h),
          )
    ]

    stand_next :
        (marked marked' : ℕ → Bool) (s : System) (j : ℕ)
        → marked' j ≡ true
        → ((k : ℕ) → j ≢ k → marked' k ≡ marked k)
        → IsPast (turn env (s.at j) s.session).0
        → (ks : List ℕ) → All (Stands marked s) ks
        → All (Stands marked' (advance env j s)) ks
    stand_next marked marked' s j at_j others past [] all = tt
    stand_next marked marked' s j at_j others past (k ∷ ks) (h, all) = (
      Stands-next marked marked' s j at_j others past k h,
      stand_next marked marked' s j at_j others past ks all,
    )

    -- From there, each that is not marked sends a request at its first turn, and that is all.
    sent-run :
        (js : List ℕ) (marked : ℕ → Bool) (s : System) (u : Url)
        → All (Stands marked s) js
        → env.parse_url s.session.0.jwks_url ≡ done u
        → (run env js s).session.1.sent
          ≡ s.session.1.sent ++ copies (askers marked js) (jwks_request u)
    unfolding run
    sent-run [] marked s u all parsed = rw append-nil
    sent-run (j ∷ js) marked s u ((p, f), all) parsed = elim (Bool-cases (marked j)) [
      | inl yes_it ↦
          let quiet = turn_past (s.at j) s.session (p yes_it) in
          let next = advance env j s in
          sent-run js marked next u
            (stand_next marked marked s j yes_it (λ k ne. refl) quiet.past js all)
            (ap env.parse_url quiet.same_url ∙ parsed)
          ∙ rw (yes_it, quiet.same_sent) refl
      | inr not_yet ↦
          let turned : turn env (s.at j) s.session
              ≡ fetched kid s.session.0 (fetch_jwks env s.session.0 s.session.1) =
            ap (λ q. turn env q s.session) (f not_yet) ∙ turn_fetch s.session.0 s.session.1 in
          let next = advance env j s in
          let marked' = update marked j true in
          let sent : next.session.1.sent ≡ s.session.1.sent ++ jwks_request u ∷ [] =
            ap (λ (q : Pc × Session). q.1.1.sent) turned
            ∙ (ap (λ (w : World). w.sent) (fetched-world s.session.0 _)
                ∙ sent-fetch_jwks_parsed env s.session.0 s.session.1 u parsed) in
          sent-run js marked' next u
            (stand_next marked marked' s j (update_here marked j true)
              (λ k ne. update_other marked j k true ne)
              (subst (λ (q : Pc × Session). IsPast q.0) (sym turned) (fetched-IsPast s.session.0 _))
              js all)
            (ap (λ (q : Pc × Session). env.parse_url q.1.0.jwks_url) turned
              ∙ (ap (λ (v : Verifier). env.parse_url v.jwks_url) (fetched-verifier s.session.0 _)
                  ∙ parsed))
          ∙ (ap (λ l. l ++ copies (askers marked' js) (jwks_request u)) sent
              ∙ (append_assoc s.session.1.sent (jwks_request u ∷ [])
                    (copies (askers marked' js) (jwks_request u))
                  ∙ rw not_yet refl))
    ]

    -- If goroutines look up an id that is not cached, in any order, and all of them look before
    -- the first fetches, then however their further steps interleave, and whatever is stored
    -- between them: each that has a further turn sends a request of its own for the key set,
    -- where the verifier's URL can be parsed.
    pub run_stampede :
        (is js : List ℕ) (s : System) (u : Url)
        → HasOnce is
        → All (λ i. s.at i ≡ lookup kid) is
        → All (λ j. Occurs j is) js
        → get_key kid s.session.0.keys ≡ none
        → env.parse_url s.session.0.jwks_url ≡ done u
        → (run env (is ++ js) s).session.1.sent
          ≡ s.session.1.sent ++ copies (askers (λ i. false) js) (jwks_request u)
    run_stampede is js s u once all members unknown parsed =
        let t = run env is s in
        let missed = misses is s once all unknown in
        ap (λ (x : System). x.session.1.sent) (run-append is js s)
        ∙ (sent-run js (λ i. false) t u (stand_first js members)
              (ap (λ (x : Session). env.parse_url x.0.jwks_url) missed.same_session ∙ parsed)
            ∙ ap (λ (x : Session). x.1.sent ++ copies (askers (λ i. false) js) (jwks_request u))
                missed.same_session)
      where
        stand_first :
            (ks : List ℕ) → All (λ j. Occurs j is) ks → All (Stands (λ i. false) (run env is s)) ks
        stand_first [] h = tt
        stand_first (k ∷ ks) (m, h) = (
          (
            (λ e. cc),
            λ e.
                at_occurrence (λ i. (run env is s).at i ≡ fetching kid) is k m
                  (misses is s once all unknown).about,
          ),
          stand_first ks h,
        )
