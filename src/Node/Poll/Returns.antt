-- ===== src/Node/Poll/Returns.antt =====
-- The poll of the Node SDK ends, before the deadline and by what it was told.
use ztxbas.Base.{
  ℕ, zero, suc, ◌+◌, ◌*◌, ◌≤◌, ◌<◌, ◌≡◌, ◌≢◌, inl, inr, refl, ap, sym, subst, ◌∙◌, ◌==◌, ==_iff,
  none, some, Option-cases, leb, Bool-cases, if◌then◌else◌, arith,
}
use ztxbas.Base.Text.{same}
use ztxbas.Node.Poll.{
  Ended, resolved, rejected, jwt_missing, denied, expired, timed_out, Host, terminal, poll,
  poll_challenge,
}
use ztxbas.Node.Poll.Told.{IsTold, terminal-IsTold, terminal-none, terminal-ne-timed_out}

-- A sleep ends no earlier than it was asked for, by the clock.
abbrev pub Sleeps : {C : Type 0} → Host C → ℕ → Type 0
Sleeps host interval = (r : ℕ) → host.clock r + interval ≤ host.clock (r + 1)

-- Only a timeout needs that the next round would come too late.
abbrev pub IsLate : {C : Type 0} → ℕ → ℕ → Ended C → Type 0
IsLate deadline next timed_out = deadline ≤ next
IsLate deadline next e = Unit

other-IsLate :
    {C : Type 0} (deadline next : ℕ) (e : Ended C) → e ≢ timed_out → IsLate deadline next e
other-IsLate deadline next timed_out n = absurd (n refl)
other-IsLate deadline next (resolved c) n = tt
other-IsLate deadline next (rejected m) n = tt
other-IsLate deadline next jwt_missing n = tt
other-IsLate deadline next denied n = tt
other-IsLate deadline next expired n = tt

module _ {C : Type 0} (host : Host C) (deadline interval : ℕ) where
  -- How the poll ended in a round, from the first on: no sleep was to reach the deadline.
  pub record EndsIn (first : ℕ) (e : Ended C) (r : ℕ) : Type 0 where
    pub told : IsTold (host.verify r) (host.status r) e
    pub late : IsLate deadline (host.clock r + interval) e
    pub early : (q : ℕ) → first ≤ q → q < r → host.clock q + interval < deadline

  abbrev Ends : ℕ → ℕ → Type 0
  Ends fuel first =
      (e : Ended C) × (r : ℕ) × (poll host deadline interval fuel first ≡ some (e, r))
      × (first ≤ r)
      × (r < first + fuel)
      × EndsIn first e r

  ends_here :
      (fuel r : ℕ) (e : Ended C)
      → poll host deadline interval (suc fuel) r ≡ some (e, r)
      → IsTold (host.verify r) (host.status r) e
      → IsLate deadline (host.clock r + interval) e
      → Ends (suc fuel) r
  ends_here fuel r e h told late = (
    e,
    r,
    h,
    omega arith,
    omega arith,
    record { told = told; late = late; early = λ q p l. absurd (omega arith) },
  )

  poll_step :
      (fuel r : ℕ)
      → terminal (host.verify r) (host.status r) ≡ none
      → poll host deadline interval (suc fuel) r ≡ (
          if leb deadline (host.clock r + interval)
          then some (timed_out, r)
          else poll host deadline interval fuel (r + 1))
  unfolding poll
  poll_step fuel r h = ground arith

  poll_stops :
      (fuel r : ℕ) (e : Ended C)
      → terminal (host.verify r) (host.status r) ≡ some e
      → poll host deadline interval (suc fuel) r ≡ some (e, r)
  unfolding poll
  poll_stops fuel r e h = ground arith

  ends_later :
      (fuel r : ℕ) (e : Ended C) (k : ℕ)
      → poll host deadline interval (suc fuel) r ≡ some (e, k)
      → host.clock r + interval < deadline
      → r + 1 ≤ k
      → k < r + 1 + fuel
      → EndsIn (r + 1) e k
      → Ends (suc fuel) r
  ends_later fuel r e k h lt p q there = (
    e,
    k,
    h,
    omega arith,
    omega arith,
    record { told = there.told; late = there.late; early = earlier },
  )
    where
      earlier : (j : ℕ) → r ≤ j → j < k → host.clock j + interval < deadline
      earlier j a b = elim (Bool-cases (j == r)) [
        | inl same ↦ subst (λ n. host.clock n + interval < deadline) (sym ((==_iff j r).0 same)) lt
        | inr other ↦ there.early j (ground (arith, ==_iff j r)) b
      ]

  -- A round ends the poll, or goes on to the next.
  round_ends :
      (fuel r : ℕ)
      → (poll host deadline interval (suc fuel) r ≡ poll host deadline interval fuel (r + 1)
          → host.clock r + interval < deadline
          → Ends (suc fuel) r)
      → Ends (suc fuel) r
  round_ends fuel r go = elim (Option-cases (terminal (host.verify r) (host.status r))) [
    | inr (e, h) ↦
        ends_here fuel r e (poll_stops fuel r e h)
          (terminal-IsTold (host.verify r) (host.status r) e h)
          (other-IsLate deadline (host.clock r + interval) e
            (λ q. terminal-ne-timed_out (host.verify r) (host.status r) (h ∙ ap some q)))
    | inl h ↦ elim (Bool-cases (leb deadline (host.clock r + interval))) [
      | inl over ↦
          ends_here fuel r timed_out (poll_step fuel r h ∙ rw over refl)
            (terminal-none (host.verify r) (host.status r) h) (ground arith)
      | inr on ↦ go (poll_step fuel r h ∙ rw on refl) (ground arith)
    ]
  ]

  poll_ends :
      (fuel r : ℕ)
      → Sleeps host interval
      → deadline ≤ host.clock r + (interval + fuel * interval)
      → Ends (suc fuel) r
  poll_ends zero r sleeps enough = round_ends 0 r (λ h lt. absurd (omega arith))
  poll_ends (suc fuel) r sleeps enough = round_ends (suc fuel) r (λ h lt.
      let (e, k, eq, p, q, there) = poll_ends fuel (r + 1) sleeps (omega (arith, sleeps r)) in
      ends_later (suc fuel) r e k (h ∙ eq) lt p q there)

-- `pollChallenge` of the Node SDK ends, after no more status requests than any positive number of
-- rounds whose intervals together are as long as the timeout, if each sleep takes at least the
-- interval by the clock, which has not gone back before the first look: by what the server said
-- in the last round, or by what `getChallengeStatus` or `verifyJwt` threw; with a timeout only if
-- the next round would not come before the deadline; and no sleep was begun that was to reach the
-- deadline.
pub poll_challenge_ends :
    {C : Type 0} (host : Host C) (interval timeout rounds : ℕ)
    → Sleeps host interval
    → host.started ≤ host.clock 0
    → 0 < rounds
    → timeout ≤ rounds * interval
    → (e : Ended C) × (r : ℕ) × (poll_challenge host interval timeout rounds ≡ some (e, r))
      × (r < rounds)
      × EndsIn host (host.started + timeout) interval 0 e r
unfolding poll_challenge
poll_challenge_ends host interval timeout zero sleeps le pos enough = absurd (omega arith)
poll_challenge_ends host interval timeout (suc fuel) sleeps le pos enough =
    let (e, r, eq, p, q, ends) =
      poll_ends host (host.started + timeout) interval fuel 0 sleeps (omega arith) in
    (e, r, eq, omega arith, ends)
