-- ===== src/Python/Lookup.antt =====
-- `_key_for_kid` of sdk-python/ztxbas/verify.py: the lock is held from the look into the cache to the
-- end of a refresh. First as it is read from start to end, then as the steps of many threads.
pub mod Owed
pub mod Serial
pub mod Linear
use ztxbas.Base.{
  ℕ, ◌+◌, ◌*◌, ◌≡◌, Bool, true, false, List, [], ◌∷◌, Option, none, some, ltb, if◌then◌else◌,
  update,
}
use ztxbas.Base.Text.{Text, Bytes}
use ztxbas.Runtime.{PublicKey}
use ztxbas.Jwks.{Keys, get_key}
use ztxbas.Python.KeySet.{Reader, Exception, Exit, returns, raises, read_set}

-- `_JWKS_CACHE_TTL`, in nanoseconds.
abbrev pub jwks_cache_ttl : ℕ
jwks_cache_ttl = 5 * 60 * 1000000000

-- By the number of the effect: `time.time()` in nanoseconds, and what `_http_get` gives.
pub record Host : Type 0 where
  pub clock : ℕ → ℕ
  pub http_get : ℕ → Exit Bytes
  pub reader : Reader

-- A call of `_http_get`, and the reading of what it gives.
unfoldable pub fetch : Host → ℕ → Exit Keys
fetch host k = read_set host.reader (host.http_get k)

pub record Verifier : Type 0 where
  pub keys : Keys
  pub fetched_at : ℕ

-- The verifier, how many effects were made, and how many of them were calls of `_http_get`.
pub record Session : Type 0 where
  pub verifier : Verifier
  pub effects : ℕ
  pub requests : ℕ

-- What a lookup returns or raises.
pub data Answer : Type 0 where
  found : PublicKey → Answer
  not_present : Answer
  raised : Exception → Answer

abbrev pub present : Option PublicKey → Answer
present none = not_present
present (some key) = found key

-- A step returns, which leaves the `with`, or goes on to a refresh, or on to its end.
pub data Next : Type 0 where
  leaves : Answer → Next
  refreshes : Next
  ends : Exit Keys → Next

module _ (host : Host) where
  -- The clock is read only if the id is there.
  unfoldable pub look : Option PublicKey → Session → Next × Session
  look none s = (refreshes, s)
  look (some key) s =
      let fresh = ltb (host.clock s.effects) (s.verifier.fetched_at + jwks_cache_ttl) in
      ((if fresh then leaves (found key) else refreshes), record s { effects = s.effects + 1 })

  abbrev pub fetch_set : Session → Next × Session
  fetch_set s =
      (ends (fetch host s.effects), record s { effects = s.effects + 1; requests = s.requests + 1 })

  -- The end of `_refresh_locked`, and the second look.
  abbrev pub store : Text → Exit Keys → Session → Answer × Session
  store kid (raises e) s = (raised e, s)
  store kid (returns out) s = (
    present (get_key kid out),
    record s {
      verifier = record { keys = out; fetched_at = host.clock s.effects };
      effects = s.effects + 1;
    },
  )

  -- What is left of a lookup.
  abbrev pub finish : Text → Next × Session → Answer × Session
  finish kid (leaves a, s) = (a, s)
  finish kid (ends r, s) = store kid r s
  finish kid (refreshes, s) =
      store kid (fetch host s.effects)
        (record s { effects = s.effects + 1; requests = s.requests + 1 })

  unfoldable pub key_for_kid : Text → Session → Answer × Session
  unfolding look
  key_for_kid kid s = finish kid (look (get_key kid s.verifier.keys) s)

-- Where a thread stands: outside, at the lock, or with the lock at the look, at the fetch, or at its
-- end; or after the return.
pub data Pc : Type 0 where
  idle : Pc
  waiting : Text → Pc
  checking fetching : Text → Pc
  storing : Text → Exit Keys → Pc
  returned : Text → Answer → Pc

abbrev pub IsFree : Pc → Type 0
IsFree idle = Unit
IsFree (returned kid a) = Unit
IsFree p = ⊥

-- With the lock.
abbrev pub IsInside : Pc → Type 0
IsInside (checking kid) = Unit
IsInside (fetching kid) = Unit
IsInside (storing kid r) = Unit
IsInside p = ⊥

pub record System : Type 0 where
  pub session : Session
  pub lock : Option ℕ
  pub at : ℕ → Pc

abbrev pub moved : Text → Next × Session → Pc × Session
moved kid (leaves a, s) = (returned kid a, s)
moved kid (refreshes, s) = (fetching kid, s)
moved kid (ends r, s) = (storing kid r, s)

abbrev pub left : Text → Answer × Session → Pc × Session
left kid (a, s) = (returned kid a, s)

-- The lock is released on the way out.
abbrev pub holder : ℕ → Pc → Option ℕ
holder i (returned kid a) = none
holder i p = some i

module _ (host : Host) where
  unfoldable pub turn : Pc → Session → Pc × Session
  unfolding look
  turn (checking kid) s = moved kid (look host (get_key kid s.verifier.keys) s)
  turn (fetching kid) s = moved kid (fetch_set host s)
  turn (storing kid r) s = left kid (store host kid r s)
  turn p s = (p, s)

  abbrev pub advance : ℕ → System → System
  advance i s =
      let (p, t) = turn (s.at i) s.session in
      record { session = t; lock = holder i p; at = update s.at i p }

  -- Threads look up the ids in question, again and again.
  pub data Step (Asked : Text → Type 0) (s : System) : System → Type 0 where
    call :
        (i : ℕ) (kid : Text)
        → IsFree (s.at i)
        → Asked kid
        → Step Asked s (record s { at = update s.at i (waiting kid) })
    acquire :
        (i : ℕ) (kid : Text)
        → s.at i ≡ waiting kid
        → s.lock ≡ none
        → Step Asked s (record s { lock = some i; at = update s.at i (checking kid) })
    move : (i : ℕ) → IsInside (s.at i) → Step Asked s (advance i s)

  pub data Reach (Asked : Text → Type 0) (s₀ : Session) : System → Type 0 where
    start : Reach Asked s₀ (record { session = s₀; lock = none; at = λ i. idle })
    later : {s t : System} → Reach Asked s₀ s → Step Asked s t → Reach Asked s₀ t

  -- Lookups one after another, the last one first in the list, with their answers.
  unfoldable pub serial : List (ℕ × Text) → Session → List (ℕ × Text × Answer) × Session
  unfolding key_for_kid
  serial [] s = ([], s)
  serial ((i, kid) ∷ earlier) s =
      let (answers, t) = serial earlier s in
      let (a, u) = key_for_kid host kid t in ((i, kid, a) ∷ answers, u)
