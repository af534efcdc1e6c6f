-- ===== src/Python/Lookup/Linear.antt =====
-- Whatever the interleaving, the threads' lookups are lookups one after another.
use mathlib.Core.List.{Mem, mem-cast, mem-cons_self, mem-cons_of_mem}
use ztxbas.Base.{
  ℕ, ◌≡◌, ◌≢◌, refl, sym, ap, subst, ◌∙◌, List, [], ◌∷◌, Option, none, some, update, update_each,
  arith, All,
}
use ztxbas.Base.Text.{Text}
use ztxbas.Python.Lookup.{
  Host, Session, Answer, key_for_kid, Pc, idle, waiting, checking, fetching, storing, returned,
  IsInside, System, holder, Step, call, acquire, move, Reach, start, later, serial,
}
use ztxbas.Python.Lookup.Owed.{Owes, turn-Owes, IsOf, turn-IsOf}

module _ (host : Host) where
  module _ (Asked : Text → Type 0) (s₀ : Session) where
    -- What holds of a thread, with the lookups that have returned.
    abbrev IsServed : List (ℕ × Text) → Option ℕ → Session → ℕ → Pc → Type 0
    IsServed calls lock s i idle = Unit
    IsServed calls lock s i (waiting kid) = Asked kid
    IsServed calls lock s i (returned kid a) = Mem (i, kid, a) (serial host calls s₀).0
    IsServed calls lock s i (checking kid) =
        (lock ≡ some i) × Asked kid × Owes host (checking kid) s (serial host calls s₀).1
    IsServed calls lock s i (fetching kid) =
        (lock ≡ some i) × Asked kid × Owes host (fetching kid) s (serial host calls s₀).1
    IsServed calls lock s i (storing kid r) =
        (lock ≡ some i) × Asked kid × Owes host (storing kid r) s (serial host calls s₀).1

    record Inv (calls : List (ℕ × Text)) (s : System) : Type 0 where
      asked : All (λ c. Asked c.1) calls
      rest : s.lock ≡ none → s.session ≡ (serial host calls s₀).1
      served : (i : ℕ) → IsServed calls s.lock s.session i (s.at i)

    -- A thread without the lock is not concerned by what the others do.
    other :
        (calls calls' : List (ℕ × Text)) (lock lock' : Option ℕ) (s s' : Session) (j : ℕ) (p : Pc)
        → ((x : ℕ × Text × Answer)
            → Mem x (serial host calls s₀).0
            → Mem x (serial host calls' s₀).0)
        → lock ≢ some j
        → IsServed calls lock s j p
        → IsServed calls' lock' s' j p
    other calls calls' lock lock' s s' j idle kept n h = tt
    other calls calls' lock lock' s s' j (waiting kid) kept n h = h
    other calls calls' lock lock' s s' j (returned kid a) kept n h = kept (j, kid, a) h
    other calls calls' lock lock' s s' j (checking kid) kept n (l, asked, h) = absurd (n l)
    other calls calls' lock lock' s s' j (fetching kid) kept n (l, asked, h) = absurd (n l)
    other calls calls' lock lock' s s' j (storing kid r) kept n (l, asked, h) = absurd (n l)

    not_held : (o : Option ℕ) (i j : ℕ) → o ≡ some i → i ≢ j → o ≢ some j
    not_held o i j e n q = n (ground arith)

    unheld : (o : Option ℕ) (j : ℕ) → o ≡ none → o ≢ some j
    unheld o j e q = cc

    none-ne-some : (i : ℕ) → some i ≢ none
    none-ne-some i q = cc

    module _ (calls : List (ℕ × Text)) (s : System) (inv : Inv calls s) (i : ℕ) where
      abbrev base : Session
      base = (serial host calls s₀).1

      -- The holder goes on.
      goes_on :
          (p : Pc) (t : Session)
          → s.lock ≡ some i
          → IsServed calls (some i) t i p
          → Inv calls (record { session = t; lock = some i; at = update s.at i p })
      goes_on p t held here = record {
        asked = inv.asked;
        rest = λ q. absurd (none-ne-some i q);
        served =
            update_each (IsServed calls (some i) t) s.at i p
              (λ j n.
                other calls calls s.lock (some i) s.session t j (s.at j) (λ x m. m)
                  (not_held s.lock i j held n) (inv.served j))
              here;
      }

      -- The holder returns: its lookup is the last one.
      returns :
          (kid : Text) (a : Answer) (t : Session)
          → s.lock ≡ some i
          → Asked kid
          → (a, t) ≡ key_for_kid host kid base
          → Inv
              ((i, kid) ∷ calls)
              (record { session = t; lock = none; at = update s.at i (returned kid a) })
      unfolding serial
      returns kid a t held asked out = record {
        asked = (asked, inv.asked);
        rest = λ q. ap (λ r. r.1) out;
        served =
            update_each (IsServed ((i, kid) ∷ calls) none t) s.at i (returned kid a)
              (λ j n.
                other calls ((i, kid) ∷ calls) s.lock none s.session t j (s.at j)
                  (λ x m. mem-cons_of_mem (i, kid, (key_for_kid host kid base).0) m)
                  (not_held s.lock i j held n) (inv.served j))
              (mem-cast (ap (λ r. (i, kid, r.0)) out) mem-cons_self);
      }

      settles :
          (p : Pc) (t : Session) (kid : Text)
          → s.lock ≡ some i
          → Asked kid
          → IsOf kid p
          → Owes host p t base
          → (more : List (ℕ × Text)) × Inv more
              (record { session = t; lock = holder i p; at = update s.at i p })
      settles (checking k) t kid held asked e h =
          (calls, goes_on (checking k) t held (refl, subst Asked e asked, h))
      settles (fetching k) t kid held asked e h =
          (calls, goes_on (fetching k) t held (refl, subst Asked e asked, h))
      settles (storing k r) t kid held asked e h =
          (calls, goes_on (storing k r) t held (refl, subst Asked e asked, h))
      settles (returned k a) t kid held asked e h =
          ((i, k) ∷ calls, returns k a t held (subst Asked e asked) h)
      settles idle t kid held asked e h = absurd h
      settles (waiting k) t kid held asked e h = absurd h

      inside :
          (p : Pc)
          → IsInside p
          → IsServed calls s.lock s.session i p
          → (s.lock ≡ some i) × ((kid : Text) × Asked kid × IsOf kid p × Owes host p s.session base)
      inside (checking kid) u (l, asked, h) = (l, (kid, asked, refl, h))
      inside (fetching kid) u (l, asked, h) = (l, (kid, asked, refl, h))
      inside (storing kid r) u (l, asked, h) = (l, (kid, asked, refl, h))
      inside idle u h = absurd u
      inside (waiting kid) u h = absurd u
      inside (returned kid a) u h = absurd u

    Step-Inv :
        (calls : List (ℕ × Text)) {s t : System}
        → Step host Asked s t
        → Inv calls s
        → (more : List (ℕ × Text)) × Inv more t
    Step-Inv calls {s} (call i kid free asked) inv = (
      calls,
      record {
        asked = inv.asked;
        rest = inv.rest;
        served =
            update_each (IsServed calls s.lock s.session) s.at i (waiting kid) (λ j n. inv.served j)
              asked;
      },
    )
    Step-Inv calls {s} (acquire i kid at_lock free) inv = (
      calls,
      record {
        asked = inv.asked;
        rest = λ q. absurd (none-ne-some i q);
        served =
            update_each (IsServed calls (some i) s.session) s.at i (checking kid)
              (λ j n.
                other calls calls s.lock (some i) s.session s.session j (s.at j) (λ x m. m)
                  (unheld s.lock j free) (inv.served j))
              (
                refl,
                subst (IsServed calls s.lock s.session i) at_lock (inv.served i),
                ap (key_for_kid host kid) (inv.rest free),
              );
      },
    )
    Step-Inv calls {s} (move i has_lock) inv =
        let (held, (kid, asked, of_kid, owes)) =
          inside calls s inv i (s.at i) has_lock (inv.served i) in
        settles calls s inv i _ _ kid held asked (turn-IsOf host kid (s.at i) s.session of_kid)
          (turn-Owes host (s.at i) s.session _ owes)

    Reach-Inv : {s : System} → Reach host Asked s₀ s → (calls : List (ℕ × Text)) × Inv calls s
    Reach-Inv start =
        ([], record { asked = tt; rest = λ q. unfold serial in refl; served = λ i. tt })
    Reach-Inv (later r st) = let (calls, inv) = Reach-Inv r in Step-Inv calls st inv

    -- However many threads of the Python SDK look up keys on one verifier, and however their
    -- steps interleave: some list of lookups, run one after another from the same start, leaves
    -- the session as it is whenever the lock is free and holds the answer of every thread that
    -- has returned; each of its ids was asked for; and two threads are never both between taking
    -- the lock and its release.
    pub linearizable :
        {s : System}
        → Reach host Asked s₀ s
        → (calls : List (ℕ × Text)) × All (λ c. Asked c.1) calls
          × (s.lock ≡ none → s.session ≡ (serial host calls s₀).1)
          × ((i : ℕ) (kid : Text) (a : Answer)
              → s.at i ≡ returned kid a
              → Mem (i, kid, a) (serial host calls s₀).0)
          × ((i j : ℕ) → IsInside (s.at i) → IsInside (s.at j) → i ≡ j)
    linearizable {s} r =
        let (calls, inv) = Reach-Inv r in
        (
          calls,
          inv.asked,
          inv.rest,
          (λ i kid a e. subst (IsServed calls s.lock s.session i) e (inv.served i)),
          λ i j u v. some_eq i j (
              sym (inside calls s inv i (s.at i) u (inv.served i)).0
              ∙ (inside calls s inv j (s.at j) v (inv.served j)).0),
        )
      where
        some_eq : (i j : ℕ) → some i ≡ some j → i ≡ j
        some_eq i j q = cc
