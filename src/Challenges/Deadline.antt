-- ===== src/Challenges/Deadline.antt =====
-- When a poll of sdk-go/challenges.go ends: under a clock that runs and a ticker that keeps its times, and with
-- the `select` left to choose among what is ready.
use ztxbas.Base.{
  ℕ, zero, suc, ◌+◌, ◌*◌, ◌≤◌, ◌<◌, ◌≡◌, ◌-◌, ◌⊎◌, inl, inr, ◌∙◌, none, some, arith, Option-cases,
}
use native.Mathlib.Decide.{dec_lt}
use ztxbas.Base.Text.{Text}
use ztxbas.Errors.{Result}
use ztxbas.Runtime.{Env, World, Timer, tick, Wake-cases, after}
use ztxbas.Token.{Claims}
use ztxbas.Client.{Client}
use ztxbas.Login.{Live}
use ztxbas.Challenges.{
  get_challenge_status, settle, ticked, poll, start_timer, poll_challenge, poll_timeout,
}
use ztxbas.Challenges.Rounds.{poll_settled, poll-ticked, poll_finished}

-- The runtime's clock and timers. The monotonic clock does not run backwards. A `time.Ticker` sends
-- its n-th tick no earlier than n intervals from its start.
pub record KeepsTime (env : Env) : Type 0 where
  pub runs : (k : ℕ) → (env.now k).mono ≤ (env.now (k + 1)).mono
  pub spaced :
      (k : ℕ) (t : Timer)
      → env.select k t ≡ tick
      → t.started + (t.received + 1) * t.interval ≤ (env.now k).mono

le_mul : (a b i : ℕ) → b ≤ a → b * i ≤ a * i
le_mul a b i h = grind arith

lt_of_mul : (a b i : ℕ) → a * i < b * i → a < b
lt_of_mul a b i h = elim (dec_lt a b) [
  | yes p ↦ p
  | no p ↦ absurd (omega (arith, le_mul a b i (omega arith)))
]

module _ (env : Env) (c : Client) (id : Text) where
  -- A round that does not end the poll: no error, no terminal status, and a tick.
  abbrev pub GoesOn : Timer → World → Type 0
  GoesOn t w =
      let p = get_challenge_status env c id w in
      (settle env c p ≡ none) × (env.select p.1.step t ≡ tick)

  abbrev clock_after : World → ℕ
  clock_after w = (env.now (get_challenge_status env c id w).1.step).mono

  abbrev world_after : World → World
  world_after w = after (get_challenge_status env c id w).1

  -- The rounds of a poll from some state on, in so many of which the `select` received a tick although the
  -- deadline had passed: both were ready then, and a `select` takes either at random.
  pub data Passes : ℕ → Timer → World → Type 0 where
    no_more : {t : Timer} {w : World} → Passes 0 t w
    in_time :
        {n : ℕ} {t : Timer} {w : World}
        → GoesOn t w
        → clock_after w < t.deadline
        → Passes n (ticked t) (world_after w)
        → Passes n t w
    too_late :
        {n : ℕ} {t : Timer} {w : World}
        → GoesOn t w
        → t.deadline ≤ clock_after w
        → Passes n (ticked t) (world_after w)
        → Passes (suc n) t w

  abbrev Outcome : ℕ → ℕ → Timer → World → Type 0
  Outcome fuel late t w =
      ((out : Result Claims × Live) × (poll env fuel c id t w ≡ some out)) ⊎ Passes late t w

  -- A tick before the deadline is one of fewer than `rounds`, if so many intervals reach to the deadline.
  tick_bound :
      (time : KeepsTime env) (rounds k : ℕ) (t : Timer)
      → t.deadline ≤ t.started + rounds * t.interval
      → (env.now k).mono < t.deadline
      → env.select k t ≡ tick
      → t.received + 1 < rounds
  tick_bound time rounds k t reach before h =
      lt_of_mul (t.received + 1) rounds t.interval (omega (arith, time.spaced k t h))

  -- The tick of a round is passed on to the next.
  next_round :
      (fuel late late' : ℕ) (t : Timer) (w : World)
      → settle env c (get_challenge_status env c id w) ≡ none
      → env.select (get_challenge_status env c id w).1.step t ≡ tick
      → (Passes late' (ticked t) (world_after w) → Passes late t w)
      → Outcome fuel late' (ticked t) (world_after w)
      → Outcome (suc fuel) late t w
  next_round fuel late late' t w e k more (inl (out, h)) =
      inl (out, poll-ticked env c id fuel t w e k ∙ h)
  next_round fuel late late' t w e k more (inr passes) = inr (more passes)

  poll_returns :
      (time : KeepsTime env) (rounds late fuel : ℕ) (t : Timer) (w : World)
      → t.deadline ≤ t.started + rounds * t.interval
      → (rounds - t.received) + late ≤ fuel
      → Outcome fuel late t w
  poll_returns time rounds zero fuel t w reach fuelled = inr no_more
  poll_returns time rounds (suc late) zero t w reach fuelled = absurd (omega arith)
  poll_returns time rounds (suc late) (suc fuel) t w reach fuelled =
      let p = get_challenge_status env c id w in
      elim (Option-cases (settle env c p)) [
        | inr (r, e) ↦ inl (r, poll_settled env c id fuel t w r e)
        | inl e ↦ elim (Wake-cases (env.select p.1.step t)) [
          | inr k ↦ inl (_, poll_finished env c id fuel t w e k)
          | inl k ↦ elim (dec_lt (env.now p.1.step).mono t.deadline) [
            | yes before ↦
                let more = tick_bound time rounds p.1.step t reach before k in
                next_round fuel (suc late) (suc late) t w e k (in_time (e, k) before) (
                  poll_returns time rounds (suc late) fuel (ticked t) (world_after w) reach
                    (omega arith))
            | no over ↦
                next_round fuel (suc late) late t w e k (too_late (e, k) (omega arith)) (
                  poll_returns time rounds late fuel (ticked t) (world_after w) reach (omega arith))
          ]
        ]
      ]

-- Under a monotonic clock that does not run backwards and a ticker that keeps its times, for any
-- number of rounds whose intervals together are as long as the timeout of 4 min 30 s, and any
-- `late`: `PollChallenge` returns within `rounds + late` rounds, or else there are `late` rounds
-- in its run in which the `select` received a tick although the deadline had passed.
pub poll_challenge_returns :
    (env : Env) (interval rounds late : ℕ) (id : Text) (c : Client) (w : World)
    → KeepsTime env
    → poll_timeout ≤ rounds * interval
    → ((out : Result Claims × Live) × (poll_challenge env interval (rounds + late) id (c, w)
          ≡ some out))
      ⊎ Passes env c id late (start_timer env interval w) (after (after w))
unfolding poll_challenge
poll_challenge_returns env interval rounds late id c w time enough =
    poll_returns env c id time rounds late (rounds + late) (start_timer env interval w)
      (after (after w)) (omega (arith, time.runs w.step)) (omega arith)
