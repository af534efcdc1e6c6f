-- ===== src/Verifier/Threads/Provenance.antt =====
-- Where the keys come from, whatever the interleaving.
use ztxbas.Base.{
  ℕ, ◌+◌, ◌++◌, ◌∷◌, ◌≡◌, refl, ap, sym, subst, ◌∙◌, ◌⊎◌, inl, inr, Option, none, some, [],
  Bool-cases, update_all,
}
use ztxbas.Base.Text.{Text}
use ztxbas.Base.Result.{Outcome}
use ztxbas.Go.Url.{Url}
use ztxbas.Go.Http.{Response}
use ztxbas.Errors.{with_result, annotate, Result, ok, err, or_wrap}
use ztxbas.Runtime.{checked, Env, World, PublicKey}
use ztxbas.Jwks.{Keys, get_key}
use ztxbas.Jwks.Curve.{IsOnCurve}
use ztxbas.Jwks.Keys.{AllOnCurve, Offers, get_key-AllOnCurve, keys_of_lem}
use ztxbas.Verifier.{
  fetch_prefix, jwks_request, parse_jwks, Verifier, Session, is_fresh, present, store, fetch_jwks,
  fetch_from, build_prefix,
}
use ztxbas.Verifier.Fetch.{IsFetched, fetch_jwks_sound}
use ztxbas.Verifier.Cache.{SameSettings}
use ztxbas.Verifier.Threads.{
  Pc, idle, lookup, fetching, storing, returned, System, look, looked, fetched, turn, Step, call,
  move, Reach, start, later,
}

module _ (env : Env) (v₀ : Verifier) where
  same_from :
      (v : Verifier) (r : Result Url) (w : World)
      → v.hc ≡ v₀.hc
      → fetch_from env v r w ≡ fetch_from env v₀ r w
  unfolding fetch_from
  same_from v (err e) w hc = refl
  same_from v (ok u) w hc = ap (λ c. with_exchange (env.exchange w.step c (jwks_request u))) hc
    where
      with_exchange : Outcome Response → Result Keys × World
      with_exchange o = (
        with_result (annotate fetch_prefix (checked o)) (parse_jwks env),
        record { step = w.step + 1; sent = w.sent ++ jwks_request u ∷ [] },
      )

  -- A fetch looks at the settings only.
  same_fetch :
      (v : Verifier) (w : World) → SameSettings v v₀ → fetch_jwks env v w ≡ fetch_jwks env v₀ w
  unfolding fetch_jwks
  same_fetch v w (url, hc, iss) =
      ap (λ u. fetch_from env v (or_wrap build_prefix (env.parse_url u)) w) url ∙ same_from v _ w hc

  -- The worlds in which the fetches of a run began.
  module _ (Began : World → Type 0) where
    -- The map was made of the answer to one of the fetches.
    abbrev IsPublished : Keys → Type 0
    IsPublished m = (w : World) × Began w × ((fetch_jwks env v₀ w).0 ≡ ok m)

    -- The cache of the start, or such a map: never a part or a mixture.
    abbrev IsKnown : Keys → Type 0
    IsKnown m = (m ≡ v₀.keys) ⊎ IsPublished m

    abbrev IsSound : Pc → Type 0
    IsSound (storing kid m) = IsPublished m
    IsSound (returned kid (ok key)) = (m : Keys) × IsKnown m × (get_key kid m ≡ some key)
    IsSound p = Unit

    record IsSane (s : Session) : Type 0 where
      settings : SameSettings s.0 v₀
      cache : IsKnown s.0.keys

    -- One step of a goroutine keeps the verifier sane, and leaves the goroutine sound.
    abbrev Keeps : Pc × Session → Type 0
    Keeps (p, s) = IsSane s × IsSound p

    look-Keeps :
        (kid : Text) (v : Verifier) (w : World) (o : Option PublicKey)
        → IsSane (v, w)
        → get_key kid v.keys ≡ o
        → Keeps (looked kid (look env o (v, w)))
    unfolding look
    look-Keeps kid v w none sane e = (sane, tt)
    look-Keeps kid v w (some key) sane e =
        elim (Bool-cases (is_fresh v.fetched_at (env.now w.step).mono)) [
          | inl fresh ↦
              rw fresh
                (record { settings = sane.settings; cache = sane.cache }, (v.keys, sane.cache, e))
          | inr stale ↦ rw stale (record { settings = sane.settings; cache = sane.cache }, tt)
        ]

    fetched-Keeps :
        (kid : Text) (v : Verifier) (w : World) (p : Result Keys × World)
        → IsSane (v, w)
        → Began w
        → fetch_jwks env v w ≡ p
        → Keeps (fetched kid v p)
    fetched-Keeps kid v w (err e, w') sane began h =
        (record { settings = sane.settings; cache = sane.cache }, tt)
    fetched-Keeps kid v w (ok m, w') sane began h = (
      record { settings = sane.settings; cache = sane.cache },
      (w, began, ap (λ p. p.0) (sym (same_fetch v w sane.settings) ∙ h)),
    )

    present-IsSound :
        (kid : Text) (m : Keys) (o : Option PublicKey)
        → IsPublished m
        → get_key kid m ≡ o
        → IsSound (returned kid (present env kid o))
    present-IsSound kid m none h e = tt
    present-IsSound kid m (some key) h e = (m, inr h, e)

    turn-Keeps :
        (p : Pc) (s : Session)
        → IsSane s
        → IsSound p
        → ((kid : Text) → p ≡ fetching kid → Began s.1)
        → Keeps (turn env p s)
    unfolding turn store
    turn-Keeps idle s sane sound began = (sane, tt)
    turn-Keeps (lookup kid) (v, w) sane sound began =
        look-Keeps kid v w (get_key kid v.keys) sane refl
    turn-Keeps (fetching kid) (v, w) sane sound began =
        fetched-Keeps kid v w (fetch_jwks env v w) sane (began kid refl) refl
    turn-Keeps (storing kid m) (v, w) sane sound began = (
      record { settings = sane.settings; cache = inr sound },
      present-IsSound kid m (get_key kid m) sound refl,
    )
    turn-Keeps (returned kid r) s sane sound began = (sane, sound)

    record Inv (s : System) : Type 0 where
      sane : IsSane s.session
      sound : (i : ℕ) → IsSound (s.at i)

  -- What is sound stays so when more fetches have begun.
  module _ (P Q : World → Type 0) (more : (w : World) → P w → Q w) where
    more-IsKnown : (m : Keys) → IsKnown P m → IsKnown Q m
    more-IsKnown m (inl e) = inl e
    more-IsKnown m (inr (w, p, got)) = inr (w, more w p, got)

    more-IsSound : (p : Pc) → IsSound P p → IsSound Q p
    more-IsSound idle h = tt
    more-IsSound (lookup kid) h = tt
    more-IsSound (fetching kid) h = tt
    more-IsSound (storing kid m) (w, p, got) = (w, more w p, got)
    more-IsSound (returned kid (ok key)) (m, known, here) = (m, more-IsKnown m known, here)
    more-IsSound (returned kid (err e)) h = tt

    more_Inv : (s : System) → Inv P s → Inv Q s
    more_Inv s inv = record {
      sane = record {
        settings = inv.sane.settings;
        cache = more-IsKnown s.session.0.keys inv.sane.cache;
      };
      sound = λ i. more-IsSound (s.at i) (inv.sound i);
    }

  -- The step is that of a goroutine that fetches, in this world.
  abbrev pub Begins : {s t : System} → Step env s t → World → Type 0
  Begins (call i kid free) w = ⊥
  Begins {s} (move i) w = (kid : Text) × (s.at i ≡ fetching kid) × (s.session.1 ≡ w)

  -- A fetch of the run began in this world.
  abbrev pub Fetches : {w₀ : World} {s : System} → Reach env v₀ w₀ s → World → Type 0
  Fetches start w = ⊥
  Fetches (later r st) w = Fetches r w ⊎ Begins st w

  Step-Inv :
      (P : World → Type 0) {s t : System} (st : Step env s t)
      → Inv P s
      → Inv (λ w. P w ⊎ Begins st w) t
  Step-Inv P {s} (call i kid free) inv =
      let Q : World → Type 0 = λ w. P w ⊎ ⊥ in
      let before = more_Inv P Q (λ w p. inl p) s inv in
      record {
        sane = before.sane;
        sound = update_all (IsSound Q) s.at i (lookup kid) before.sound tt;
      }
  Step-Inv P {s} (move i) inv =
      let Q : World → Type 0 =
        λ w. P w ⊎ ((kid : Text) × (s.at i ≡ fetching kid) × (s.session.1 ≡ w)) in
      let before = more_Inv P Q (λ w p. inl p) s inv in
      let (sane, sound) =
        turn-Keeps Q (s.at i) s.session before.sane (before.sound i)
          (λ kid e. inr (kid, e, refl)) in
      record { sane = sane; sound = update_all (IsSound Q) s.at i _ before.sound sound }

  Reach-Inv : {w : World} {s : System} (r : Reach env v₀ w s) → Inv (Fetches r) s
  Reach-Inv start = record {
    sane = record { settings = (refl, refl, refl); cache = inl refl };
    sound = λ i. tt;
  }
  Reach-Inv (later r st) = Step-Inv (Fetches r) st (Reach-Inv r)

  IsKnown-IsOnCurve :
      (P : World → Type 0) (kid : Text) (m : Keys) (key : PublicKey)
      → AllOnCurve v₀.keys
      → IsKnown P m
      → get_key kid m ≡ some key
      → IsOnCurve key
  IsKnown-IsOnCurve P kid m key on (inl e) g = get_key-AllOnCurve kid key m (rw e on) g
  IsKnown-IsOnCurve P kid m key on (inr (w, p, got)) g =
      let source = fetch_jwks_sound env v₀ w m got in
      get_key-AllOnCurve kid key m (keys_of_lem env source.set m source.is_map).1 g

  -- The key stands in the cache of the start, or in a set that the server gave as the answer to one
  -- of the fetches.
  abbrev pub IsOffered : (World → Type 0) → Text → PublicKey → Type 0
  IsOffered Began kid key =
      (get_key kid v₀.keys ≡ some key)
      ⊎ ((w : World) × Began w × (m : Keys) × (f : IsFetched env v₀ w m) × Offers f.set kid key)

  IsKnown-IsOffered :
      (P : World → Type 0) (kid : Text) (m : Keys) (key : PublicKey)
      → IsKnown P m
      → get_key kid m ≡ some key
      → IsOffered P kid key
  IsKnown-IsOffered P kid m key (inl e) g = inl (ap (get_key kid) (sym e) ∙ g)
  IsKnown-IsOffered P kid m key (inr (w, p, got)) g =
      let source = fetch_jwks_sound env v₀ w m got in
      inr (w, p, m, source, (keys_of_lem env source.set m source.is_map).2 kid key g)

  -- However many goroutines look up keys on one verifier, and however their steps interleave: a
  -- lookup that has returned a key returned a point of P-256 that was cached under that id at the
  -- start, or that a key set offers under that id which the server gave as the answer to a fetch
  -- that a goroutine began in this run, where the keys cached at the start are on the curve.
  pub returned_sound :
      {w : World} {s : System} (i : ℕ) (kid : Text) (key : PublicKey) (r : Reach env v₀ w s)
      → AllOnCurve v₀.keys
      → s.at i ≡ returned kid (ok key)
      → IsOnCurve key × IsOffered (Fetches r) kid key
  returned_sound i kid key r on e =
      let (m, known, here) = subst (IsSound (Fetches r)) e ((Reach-Inv r).sound i) in
      (
        IsKnown-IsOnCurve (Fetches r) kid m key on known here,
        IsKnown-IsOffered (Fetches r) kid m key known here,
      )
