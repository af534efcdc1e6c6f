-- ===== src/Python/Lookup/Serial.antt =====
-- A burst of lookups of one id.
use mathlib.Core.List.{Mem, not-mem-nil, eq-or-mem_of_mem-cons}
use mathlib.Core.Logic.Or
use ztxbas.Base.{
  ℕ, ◌+◌, ◌≤◌, ◌<◌, ◌≡◌, refl, sym, subst, ◌∙◌, true, false, Bool, List, [], ◌∷◌, Option, none,
  some, if◌then◌else◌, ltb, ltb_iff, arith, All,
}
use ztxbas.Base.Text.{Text}
use ztxbas.Runtime.{PublicKey}
use ztxbas.Jwks.{Keys, get_key}
use ztxbas.Python.KeySet.{Exit, returns, raises}
use ztxbas.Python.Lookup.{
  Host, fetch, Session, Answer, found, not_present, raised, look, finish, leaves, refreshes, store,
  key_for_kid, serial, jwks_cache_ttl, System, Reach, returned,
}
use ztxbas.Python.Lookup.Linear.{linearizable}

-- Every fetch gives a map that has the id, and so many effects are made within the time that a map is
-- trusted.
pub record Serves (host : Host) (kid : Text) (horizon : ℕ) : Type 0 where
  pub offered :
      (k : ℕ)
      → (m : Keys) × (key : PublicKey) × (fetch host k ≡ returns m) × (get_key kid m ≡ some key)
  pub quick : (j k : ℕ) → j < horizon → k < horizon → host.clock k < host.clock j + jwks_cache_ttl

abbrev pub IsFound : Answer → Type 0
IsFound (found key) = Unit
IsFound a = ⊥

-- Each lookup makes an effect.
module _ (host : Host) (kid : Text) where
  effects-store : (r : Exit Keys) (s : Session) → s.effects ≤ (store host kid r s).1.effects
  effects-store (raises e) s = omega arith
  effects-store (returns out) s = omega arith

  effects-refresh : (s : Session) → s.effects < (finish host kid (refreshes, s)).1.effects
  effects-refresh s =
      let asked : Session = record s { effects = s.effects + 1; requests = s.requests + 1 } in
      let le = effects-store (fetch host s.effects) asked in omega arith

  effects-look :
      (b : Bool) (key : PublicKey) (s : Session)
      → s.effects
        < (finish host kid (
          (if b then leaves (found key) else refreshes),
          record s { effects = s.effects + 1 },
        )).1.effects
  effects-look true key s = omega arith
  effects-look false key s = omega (arith, effects-refresh (record s { effects = s.effects + 1 }))

  effects-finish :
      (o : Option PublicKey) (s : Session) → s.effects < (finish host kid (look host o s)).1.effects
  unfolding look
  effects-finish none s = effects-refresh s
  effects-finish (some key) s = effects-look _ key s

  effects-key_for_kid : (s : Session) → s.effects < (key_for_kid host kid s).1.effects
  unfolding key_for_kid
  effects-key_for_kid s = effects-finish (get_key kid s.verifier.keys) s

module _ (host : Host) (kid : Text) (horizon : ℕ) (serves : Serves host kid horizon) where
  -- The id is cached, since some effect.
  record IsWarm (s : Session) : Type 0 where
    key : PublicKey
    cached : get_key kid s.verifier.keys ≡ some key
    since : ℕ
    earlier : since < s.effects
    dated : s.verifier.fetched_at ≡ host.clock since

  -- What a lookup from one state does.
  record Leads (sent : ℕ) (out : Answer × Session) : Type 0 where
    count : out.1.requests ≡ sent
    warm : IsWarm out.1
    answer : IsFound out.0

  hit :
      (s : Session) (key : PublicKey) (b : Bool)
      → b ≡ true
      → IsWarm s
      → Leads s.requests (
          finish host kid
            ((if b then leaves (found key) else refreshes), record s { effects = s.effects + 1 }))
  hit s key b e warm = rw e (record {
    count = refl;
    warm = record {
      key = warm.key;
      cached = warm.cached;
      since = warm.since;
      earlier = omega (arith, warm.earlier);
      dated = warm.dated;
    };
    answer = tt;
  })

  key_for_kid-warm :
      (s : Session) → s.effects < horizon → IsWarm s → Leads s.requests (key_for_kid host kid s)
  unfolding key_for_kid look
  key_for_kid-warm s soon warm =
      let fresh : ltb (host.clock s.effects) (s.verifier.fetched_at + jwks_cache_ttl) ≡ true =
        (ltb_iff _ _).1 (
          subst (λ t. host.clock s.effects < t + jwks_cache_ttl) (sym warm.dated)
            (serves.quick warm.since s.effects (omega (arith, warm.earlier)) soon)) in
      rw warm.cached (hit s warm.key _ fresh warm)

  key_for_kid-cold :
      (s : Session)
      → get_key kid s.verifier.keys ≡ none
      → Leads (s.requests + 1) (key_for_kid host kid s)
  unfolding key_for_kid look
  key_for_kid-cold s cold =
      let (m, key, got, here) = serves.offered s.effects in
      rw (cold, got)
        (record {
          count = refl;
          warm = record {
            key = key;
            cached = here;
            since = s.effects + 1;
            earlier = omega arith;
            dated = refl;
          };
          answer = rw here tt;
        })

  -- After lookups of this id, the last one first: one request, and every answer is a key.
  abbrev Burst : ℕ → List (ℕ × Text × Answer) × Session → Type 0
  Burst sent out = (out.1.requests ≡ sent) × IsWarm out.1 × All (λ x. IsFound x.2) out.0

  serial-Burst :
      (s₀ : Session) (i : ℕ) (k : Text) (calls : List (ℕ × Text))
      → get_key kid s₀.verifier.keys ≡ none
      → All (λ c. c.1 ≡ kid) ((i, k) ∷ calls)
      → (serial host ((i, k) ∷ calls) s₀).1.effects ≤ horizon
      → Burst (s₀.requests + 1) (serial host ((i, k) ∷ calls) s₀)
  unfolding serial
  serial-Burst s₀ i k [] cold (e, _) bounded =
      let first = key_for_kid-cold s₀ cold in rw e (first.count, first.warm, (first.answer, tt))
  serial-Burst s₀ i k ((j, l) ∷ calls) cold (e, all) bounded =
      let before = (serial host ((j, l) ∷ calls) s₀).1 in
      let soon : before.effects < horizon = omega (arith, effects-key_for_kid host k before) in
      let (sent, warm, answers) = serial-Burst s₀ j l calls cold all (omega arith) in
      let next = key_for_kid-warm before soon warm in
      rw e (next.count ∙ sent, next.warm, (next.answer, answers))

  IsFound-IsProp : (a : Answer) → IsProp (IsFound a)
  IsFound-IsProp (found key) x y = refl
  IsFound-IsProp not_present x y = absurd x
  IsFound-IsProp (raised m) x y = absurd x

  All-found :
      (l : List (ℕ × Text × Answer)) (i : ℕ) (k : Text) (a : Answer)
      → All (λ x. IsFound x.2) l
      → Mem (i, k, a) l
      → IsFound a
  All-found [] i k a h m = absurd (not-mem-nil m)
  All-found (x ∷ l) i k a (hx, h) m =
      Or.elim (IsFound-IsProp a) (eq-or-mem_of_mem-cons m)
        (λ e. subst (λ y. IsFound y.2) (sym e) hx) (λ m'. All-found l i k a h m')

  -- If any number of threads of the Python SDK look up one id on a verifier with an empty cache,
  -- the lock is free, and no more effects were made than come within the time that a key set is
  -- trusted, then the key set was requested at most once more than at the start and every thread
  -- that has returned has a key, where every fetch gives a key set that has the id.
  pub burst :
      (s₀ : Session) {s : System}
      → get_key kid s₀.verifier.keys ≡ none
      → Reach host (λ k. k ≡ kid) s₀ s
      → s.lock ≡ none
      → s.session.effects ≤ horizon
      → (s.session.requests ≤ s₀.requests + 1)
        × ((i : ℕ) (k : Text) (a : Answer) → s.at i ≡ returned k a → IsFound a)
  unfolding serial
  burst s₀ {s} cold r free bounded =
      let (calls, asked, rest, answered, _) = linearizable host (λ k. k ≡ kid) s₀ r in
      served calls asked (rest free) answered
    where
      served :
          (calls : List (ℕ × Text))
          → All (λ c. c.1 ≡ kid) calls
          → s.session ≡ (serial host calls s₀).1
          → ((i : ℕ) (k : Text) (a : Answer)
              → s.at i ≡ returned k a
              → Mem (i, k, a) (serial host calls s₀).0)
          → (s.session.requests ≤ s₀.requests + 1)
            × ((i : ℕ) (k : Text) (a : Answer) → s.at i ≡ returned k a → IsFound a)
      served [] asked e answered =
          (rw e (omega arith), λ i k a at. absurd (not-mem-nil (answered i k a at)))
      served ((j, l) ∷ calls) asked e answered =
          let (sent, warm, answers) =
            serial-Burst s₀ j l calls cold asked
              (subst (λ (u : Session). u.effects ≤ horizon) e bounded) in
          (
            rw (e, sent) (omega arith),
            λ i k a at.
                All-found (serial host ((j, l) ∷ calls) s₀).0 i k a answers (answered i k a at),
          )
