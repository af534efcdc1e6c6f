-- ===== src/Node/Coalesce.antt =====
-- `keyForKid` of sdk-node/src/verify.ts: calls that miss the cache share one refresh. The event loop
-- runs each piece between two awaits on its own; a call runs up to its first await at once.
pub mod Single
pub mod Waits
use ztxbas.Base.{
  ℕ, ◌+◌, ◌*◌, ◌≡◌, Bool, true, false, [], Option, none, some, ltb, if◌then◌else◌, update,
}
use ztxbas.Base.Text.{Text}
use ztxbas.Runtime.{PublicKey}
use ztxbas.Jwks.{Keys, get_key}
use ztxbas.Node.KeySet.{Reason, Fetched, usable, failed}

-- `JWKS_CACHE_TTL_MS`
abbrev pub jwks_cache_ttl_ms : ℕ
jwks_cache_ttl_ms = 5 * 60 * 1000

-- How a promise is settled.
pub data Ending : Type 0 where
  fulfilled : Ending
  rejected : Reason → Ending

-- A refresh by its number: not begun, its request sent, its end before `finally` has run, and after.
pub data Phase : Type 0 where
  unstarted asking : Phase
  finishing settled : Ending → Phase

-- What a call throws: the refresh failed, or the key is not there.
pub data Failure : Type 0 where
  refresh_failed : Reason → Failure
  absent : Failure

pub data Answer : Type 0 where
  found : PublicKey → Answer
  thrown : Failure → Answer

pub data Pc : Type 0 where
  idle : Pc
  awaiting : ℕ → Text → Pc
  returned : Text → Answer → Pc

abbrev pub IsFree : Pc → Type 0
IsFree (awaiting n kid) = ⊥
IsFree p = Unit

-- The verifier, its refreshes, the numbers of the requests that were sent and that came to an end, and
-- the calls.
pub record State : Type 0 where
  pub cache : Keys
  pub fetched_at : ℕ
  pub inflight : Option ℕ
  pub phases : ℕ → Phase
  pub sent : ℕ
  pub answered : ℕ
  pub at : ℕ → Pc

abbrev pub fresh : ℕ → State → Option PublicKey → Option PublicKey
fresh now s none = none
fresh now s (some key) = if ltb now (s.fetched_at + jwks_cache_ttl_ms) then some key else none

-- `if (!this.inflight)`: a refresh begins, and sends its request before it first waits.
abbrev pub join : ℕ → Text → Option ℕ → State → State
join i kid (some n) s = record s { at = update s.at i (awaiting n kid) }
join i kid none s = record s {
  inflight = some s.sent;
  phases = update s.phases s.sent asking;
  sent = s.sent + 1;
  at = update s.at i (awaiting s.sent kid);
}

abbrev pub entered : ℕ → Text → Option PublicKey → State → State
entered i kid (some key) s = record s { at = update s.at i (returned kid (found key)) }
entered i kid none s = join i kid s.inflight s

-- From the call to its first await, at a time.
abbrev pub call_begins : ℕ → ℕ → Text → State → State
call_begins now i kid s = entered i kid (fresh now s (get_key kid s.cache)) s

-- The end of `refresh`, at a time. Its own awaits before that change nothing.
abbrev pub refreshed : ℕ → ℕ → Fetched → State → State
refreshed now n (usable next) s = record s {
  cache = next;
  fetched_at = now;
  phases = update s.phases n (finishing fulfilled);
  answered = s.answered + 1;
}
refreshed now n (failed m) s = record s {
  phases = update s.phases n (finishing (rejected m));
  answered = s.answered + 1;
}

-- The callback of `finally`.
abbrev pub cleared : ℕ → Ending → State → State
cleared n e s = record s { inflight = none; phases = update s.phases n (settled e) }

abbrev pub answer_of : Option PublicKey → Answer
answer_of none = thrown absent
answer_of (some key) = found key

-- After `await this.inflight`.
abbrev pub resumed : Text → Ending → Keys → Answer
resumed kid (rejected m) cache = thrown (refresh_failed m)
resumed kid fulfilled cache = answer_of (get_key kid cache)

pub data Step (s : State) : State → Type 0 where
  call : (now i : ℕ) (kid : Text) → IsFree (s.at i) → Step s (call_begins now i kid s)
  refresh_ends : (now n : ℕ) (r : Fetched) → s.phases n ≡ asking → Step s (refreshed now n r s)
  clear : (n : ℕ) (e : Ending) → s.phases n ≡ finishing e → Step s (cleared n e s)
  resume :
      (i n : ℕ) (kid : Text) (e : Ending)
      → s.at i ≡ awaiting n kid
      → s.phases n ≡ settled e
      → Step s (record s { at = update s.at i (returned kid (resumed kid e s.cache)) })

-- A new `Verifier`, and no calls.
abbrev pub new_state : State
new_state = record {
  cache = [];
  fetched_at = 0;
  inflight = none;
  phases = λ n. unstarted;
  sent = 0;
  answered = 0;
  at = λ i. idle;
}

pub data Reach : State → Type 0 where
  start : Reach new_state
  later : {s t : State} → Reach s → Step s t → Reach t
