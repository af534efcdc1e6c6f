-- ===== src/Node/Poll.antt =====
-- `pollChallenge` of sdk-node/src/client.ts, by the number of the round.
pub mod Told
pub mod Returns
use ztxbas.Base.{ℕ, zero, suc, ◌+◌, Option, none, some, leb, if◌then◌else◌}
use ztxbas.Base.Result.{Outcome, done, fault}
use ztxbas.Base.Text.{Text, codes, same, is_empty}

-- The members that are looked at. No token is an empty one.
pub record StatusResponse : Type 0 where
  pub status : Text
  pub jwt : Text

-- How the promise is settled.
pub data Ended (C : Type 0) : Type 0 where
  resolved : C → Ended C
  rejected : Text → Ended C
  jwt_missing denied expired timed_out : Ended C

-- What `getChallengeStatus` and `verifyJwt` give in a round, or the error that they throw, and `Date.now()`
-- at the start and in each round.
pub record Host (C : Type 0) : Type 0 where
  pub started : ℕ
  pub clock : ℕ → ℕ
  pub status : ℕ → Outcome StatusResponse
  pub verify : ℕ → Text → Outcome C

module _ {C : Type 0} where
  abbrev pub settled : Outcome C → Ended C
  settled (done c) = resolved c
  settled (fault m) = rejected m

  -- A round up to the look at the clock: the end, or none.
  unfoldable pub terminal : (Text → Outcome C) → Outcome StatusResponse → Option (Ended C)
  terminal verify (fault m) = some (rejected m)
  terminal verify (done st) =
      if same st.status (codes "approved")
      then (if is_empty st.jwt then some jwt_missing else some (settled (verify st.jwt)))
      else if same st.status (codes "denied")
      then some denied
      else if same st.status (codes "expired")
      then some expired
      else none

  module _ (host : Host C) (deadline interval : ℕ) where
    -- The rounds from some number on, with fuel; the end, and the round that it came in.
    unfoldable pub poll : ℕ → ℕ → Option (Ended C × ℕ)
    unfolding terminal
    poll zero r = none
    poll (suc fuel) r =
        let rest = poll fuel (r + 1) in
        elim (terminal (host.verify r) (host.status r)) [
          | some e ↦ some (e, r)
          | none ↦ if leb deadline (host.clock r + interval) then some (timed_out, r) else rest
        ]

  unfoldable pub poll_challenge : Host C → ℕ → ℕ → ℕ → Option (Ended C × ℕ)
  unfolding poll
  poll_challenge host interval timeout fuel = poll host (host.started + timeout) interval fuel 0
