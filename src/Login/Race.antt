-- ===== src/Login/Race.antt =====
-- `VerifyJWT` of sdk-go/verify.go run by many goroutines on one client: the field `verifier` is read,
-- written and read again with no lock. Each access is one step, as in a sequentially consistent
-- memory.
pub mod Safe
use ztxbas.Base.{
  ℕ, zero, suc, ◌+◌, Option, none, some, if◌then◌else◌, update, List, [], ◌∷◌, ◌++◌, length,
}
use ztxbas.Errors.{Err, Result, ok, err}
use ztxbas.Verifier.{Verifier}
use ztxbas.Client.{Client}
use ztxbas.Login.{verifier_or}

-- Where a goroutine stands: at the test for nil, with the verifier to be made, at the second reading,
-- in the call of `Verify` on the verifier that it read, after the return of an error, or stopped at a
-- nil pointer.
pub data Pc : Type 0 where
  outside entered making reading : Pc
  calling : ℕ → Pc
  refused : Err → Pc
  panicked : Pc

-- The pointer of the client, as a position among the verifiers that were made.
pub record Shared : Type 0 where
  pub pointer : Option ℕ
  pub made : List Verifier

-- The verifier at a position.
abbrev pub get_elem? {ℓ} : {A : Type ℓ} → ℕ → List A → Option A
get_elem? n [] = none
get_elem? zero (a ∷ l) = some a
get_elem? (suc n) (a ∷ l) = get_elem? n l

abbrev pub tested : Option ℕ → Pc
tested none = making
tested (some p) = reading

abbrev pub assigned : Result Verifier → Shared → Pc × Shared
assigned (err e) h = (refused e, h)
assigned (ok v) h = (reading, record { pointer = some (length h.made); made = h.made ++ v ∷ [] })

abbrev pub dereferenced : Option ℕ → Pc
dereferenced none = panicked
dereferenced (some p) = calling p

-- The next step of a goroutine.
unfoldable pub turn : Client → Pc → Shared → Pc × Shared
turn c entered h = (tested h.pointer, h)
turn c making h = assigned (verifier_or c none) h
turn c reading h = (dereferenced h.pointer, h)
turn c p h = (p, h)

pub record System : Type 0 where
  pub shared : Shared
  pub at : ℕ → Pc

abbrev pub advance : Client → ℕ → System → System
advance c i s = let (p, h) = turn c (s.at i) s.shared in record { shared = h; at = update s.at i p }

abbrev pub IsFree : Pc → Type 0
IsFree outside = Unit
IsFree (calling p) = Unit
IsFree (refused e) = Unit
IsFree p = ⊥

-- A goroutine that is in no call, or past the one that it made, calls `VerifyJWT`, or any goroutine takes its next step.
pub data Step (c : Client) (s : System) : System → Type 0 where
  enter : (i : ℕ) → IsFree (s.at i) → Step c s (record s { at = update s.at i entered })
  move : (i : ℕ) → Step c s (advance c i s)

-- From a client without a verifier.
pub data Reach (c : Client) : System → Type 0 where
  start : Reach c (record { shared = record { pointer = none; made = [] }; at = λ i. outside })
  later : {s t : System} → Reach c s → Step c s t → Reach c t
