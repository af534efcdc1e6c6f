-- ===== src/Verifier/Threads.antt =====
-- `keyForKID` of sdk-go/verify.go run by many goroutines on one verifier: what stands between `Lock`
-- and `Unlock` is one step, and so is the fetch between the two locked parts. The mutex is no state of its own:
-- no goroutine waits here, and an exchange that hangs is a step that is not taken.
pub mod Provenance
pub mod Alone
pub mod Stampede
pub mod Overtaken
use ztxbas.Base.{ℕ, Option, none, some, if◌then◌else◌, update, List, [], ◌∷◌}
use ztxbas.Base.Text.{Text}
use ztxbas.Errors.{Err, Result, ok, err}
use ztxbas.Runtime.{Env, World, PublicKey, time_now}
use ztxbas.Jwks.{Keys, get_key}
use ztxbas.Verifier.{Verifier, Session, is_fresh, fetch_jwks, store}

-- Where a goroutine stands: before the first locked part, before the fetch, before the second locked
-- part, and after the return.
pub data Pc : Type 0 where
  idle : Pc
  lookup : Text → Pc
  fetching : Text → Pc
  storing : Text → Keys → Pc
  returned : Text → Result PublicKey → Pc

abbrev pub IsFree : Pc → Type 0
IsFree idle = Unit
IsFree (returned kid r) = Unit
IsFree p = ⊥

-- The goroutines share the verifier and the world.
pub record System : Type 0 where
  pub session : Session
  pub at : ℕ → Pc

abbrev pub looked : Text → Option PublicKey × Session → Pc × Session
looked kid (some key, s) = (returned kid (ok key), s)
looked kid (none, s) = (fetching kid, s)

abbrev pub fetched : Text → Verifier → Result Keys × World → Pc × Session
fetched kid v (ok m, w) = (storing kid m, (v, w))
fetched kid v (err e, w) = (returned kid (err e), (v, w))

abbrev pub stored : Text → Result PublicKey × Session → Pc × Session
stored kid (r, s) = (returned kid r, s)

module _ (env : Env) where
  -- The first locked part: a key that is there and fresh, or none. The clock is read only if the id
  -- is there.
  unfoldable pub look : Option PublicKey → Session → Option PublicKey × Session
  unfolding time_now
  look none s = (none, s)
  look (some key) (v, w) =
      let (now, w') = time_now env w in
      ((if is_fresh v.fetched_at now.mono then some key else none), (v, w'))

  -- The next step of a goroutine. The second locked part is that of `store`.
  unfoldable pub turn : Pc → Session → Pc × Session
  turn idle s = (idle, s)
  turn (lookup kid) (v, w) = looked kid (look (get_key kid v.keys) (v, w))
  turn (fetching kid) (v, w) = fetched kid v (fetch_jwks env v w)
  turn (storing kid m) (v, w) = stored kid (store env kid v (ok m, w))
  turn (returned kid r) s = (returned kid r, s)

  abbrev pub advance : ℕ → System → System
  advance i s = let (p, t) = turn (s.at i) s.session in record { session = t; at = update s.at i p }

  -- The scheduler's choice: a goroutine that has no lookup under way begins one, for any id, or any
  -- goroutine takes its next step.
  pub data Step (s : System) : System → Type 0 where
    call :
        (i : ℕ) (kid : Text)
        → IsFree (s.at i)
        → Step s (record s { at = update s.at i (lookup kid) })
    move : (i : ℕ) → Step s (advance i s)

  pub data Reach (v : Verifier) (w : World) : System → Type 0 where
    start : Reach v w (record { session = (v, w); at = λ i. idle })
    later : {s t : System} → Reach v w s → Step s t → Reach v w t

  -- The goroutines in a given order, with no new lookups.
  unfoldable pub run : List ℕ → System → System
  run [] s = s
  run (i ∷ is) s = run is (advance i s)
