-- ===== src/Login/Race/Safe.antt =====
-- The race at the client's verifier does no harm.
use ztxbas.Base.{
  ℕ, zero, suc, ◌≡◌, ◌≢◌, refl, sym, subst, Option, none, some, List, [], ◌∷◌, ◌++◌, length, arith,
  update_all,
}
use ztxbas.Errors.{Err, ok}
use ztxbas.Verifier.{Verifier}
use ztxbas.Client.{Client}
use ztxbas.Login.Sound.{first_verifier, verifier_or-none}
use ztxbas.Login.Race.{
  Pc, outside, entered, making, reading, calling, refused, panicked, Shared, get_elem?, tested,
  assigned, dereferenced, turn, System, Step, enter, move, Reach, start, later,
}

-- The position holds the verifier that this client makes.
abbrev Holds : Client → ℕ → Shared → Type 0
Holds c p h = get_elem? p h.made ≡ some (first_verifier c)

abbrev PointsAt : Client → Option ℕ → Shared → Type 0
PointsAt c none h = Unit
PointsAt c (some p) h = Holds c p h

-- What a goroutine relies on.
abbrev Relies : Client → Shared → Pc → Type 0
Relies c h reading = h.pointer ≢ none
Relies c h (calling p) = Holds c p h
Relies c h (refused e) = ⊥
Relies c h panicked = ⊥
Relies c h p = Unit

-- A later state of the memory: the pointer is not taken away, and verifiers stay where they are.
record Grows (c : Client) (h h' : Shared) : Type 0 where
  not_nil : h.pointer ≢ none → h'.pointer ≢ none
  holds : (p : ℕ) → Holds c p h → Holds c p h'

Grows-refl : (c : Client) (h : Shared) → Grows c h h
Grows-refl c h = record { not_nil = λ n. n; holds = λ p e. e }

Grows-Relies : (c : Client) (h h' : Shared) (p : Pc) → Grows c h h' → Relies c h p → Relies c h' p
Grows-Relies c h h' reading g r = g.not_nil r
Grows-Relies c h h' (calling p) g r = g.holds p r
Grows-Relies c h h' outside g r = tt
Grows-Relies c h h' entered g r = tt
Grows-Relies c h h' making g r = tt
Grows-Relies c h h' (refused e) g r = r
Grows-Relies c h h' panicked g r = r

get_elem?-append :
    (p : ℕ) (vs : List Verifier) (u v : Verifier)
    → get_elem? p vs ≡ some u
    → get_elem? p (vs ++ v ∷ []) ≡ some u
get_elem?-append p [] u v e = cc
get_elem?-append zero (x ∷ vs) u v e = e
get_elem?-append (suc p) (x ∷ vs) u v e = get_elem?-append p vs u v e

get_elem?-length :
    (vs : List Verifier) (v : Verifier) → get_elem? (length vs) (vs ++ v ∷ []) ≡ some v
get_elem?-length [] v = refl
get_elem?-length (x ∷ vs) v = get_elem?-length vs v

-- What one step does to memory and goroutine.
record Goes (c : Client) (h : Shared) (q : Pc × Shared) : Type 0 where
  grows : Grows c h q.1
  points : PointsAt c q.1.pointer q.1
  relies : Relies c q.1 q.0

assigned-Goes : (c : Client) (h : Shared) → Goes c h (assigned (ok (first_verifier c)) h)
assigned-Goes c h = record {
  grows = record { not_nil = λ n e. cc; holds = λ p e. get_elem?-append p h.made _ _ e };
  points = get_elem?-length h.made (first_verifier c);
  relies = λ e. cc;
}

tested-Relies : (c : Client) (h : Shared) (o : Option ℕ) → h.pointer ≡ o → Relies c h (tested o)
tested-Relies c h none e = tt
tested-Relies c h (some p) e = λ n. ground arith

dereferenced-Relies :
    (c : Client) (h : Shared) (o : Option ℕ)
    → o ≢ none
    → PointsAt c o h
    → Relies c h (dereferenced o)
dereferenced-Relies c h none n r = n refl
dereferenced-Relies c h (some p) n r = r

turn-Goes :
    (c : Client) (p : Pc) (h : Shared)
    → PointsAt c h.pointer h
    → Relies c h p
    → Goes c h (turn c p h)
unfolding turn
turn-Goes c entered h points r = record {
  grows = Grows-refl c h;
  points = points;
  relies = tested-Relies c h h.pointer refl;
}
turn-Goes c making h points r =
    subst (λ o. Goes c h (assigned o h)) (sym (verifier_or-none c)) (assigned-Goes c h)
turn-Goes c reading h points r = record {
  grows = Grows-refl c h;
  points = points;
  relies = dereferenced-Relies c h h.pointer r points;
}
turn-Goes c outside h points r = record { grows = Grows-refl c h; points = points; relies = r }
turn-Goes c (calling p) h points r = record { grows = Grows-refl c h; points = points; relies = r }
turn-Goes c (refused e) h points r = absurd r
turn-Goes c panicked h points r = absurd r

record Inv (c : Client) (s : System) : Type 0 where
  points : PointsAt c s.shared.pointer s.shared
  relies : (i : ℕ) → Relies c s.shared (s.at i)

Step-Inv : (c : Client) {s t : System} → Step c s t → Inv c s → Inv c t
Step-Inv c {s} (enter i free) inv = record {
  points = inv.points;
  relies = update_all (Relies c s.shared) s.at i entered inv.relies tt;
}
Step-Inv c {s} (move i) inv =
    let g = turn-Goes c (s.at i) s.shared inv.points (inv.relies i) in
    record {
      points = g.points;
      relies =
          update_all (Relies c _) s.at i _
            (λ j. Grows-Relies c s.shared _ (s.at j) g.grows (inv.relies j)) g.relies;
    }

Reach-Inv : (c : Client) {s : System} → Reach c s → Inv c s
Reach-Inv c start = record { points = tt; relies = λ i. tt }
Reach-Inv c (later r st) = Step-Inv c st (Reach-Inv c r)

-- However many goroutines call `VerifyJWT` on a client without a verifier, and however their
-- accesses to its field interleave, in a sequentially consistent memory: none stops at a nil
-- pointer, none is refused a verifier, and each calls `Verify` on a verifier as this client makes
-- it, though perhaps not the same as another goroutine.
pub race_sound :
    (c : Client) {s : System} (i : ℕ)
    → Reach c s
    → (s.at i ≢ panicked)
      × ((e : Err) → s.at i ≢ refused e)
      × ((p : ℕ) → s.at i ≡ calling p → get_elem? p s.shared.made ≡ some (first_verifier c))
race_sound c {s} i r =
    let rely = (Reach-Inv c r).relies i in
    (
      (λ e. subst (Relies c s.shared) e rely),
      (λ x e. subst (Relies c s.shared) e rely),
      λ p e. subst (Relies c s.shared) e rely,
    )
