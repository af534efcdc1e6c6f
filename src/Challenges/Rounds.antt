-- ===== src/Challenges/Rounds.antt =====
-- The rounds of a poll: how it can end, and that it ends.
use ztxbas.Base.{ℕ, zero, suc, ◌+◌, ◌≡◌, ◌≢◌, inl, inr, refl, Option, none, some, arith, Bool-cases}
use ztxbas.Base.Text.{Text, same, same_iff}
use ztxbas.Errors.{Err, Result, ok, err, sentinel, challenge_denied, challenge_expired}
use ztxbas.Runtime.{Env, World, Timer, tick, finished, after}
use ztxbas.Token.{Claims}
use ztxbas.Client.{Client}
use ztxbas.Login.{Live, verify_jwt}
use ztxbas.Challenges.{
  StatusResponse, approved, denied, expired, get_challenge_status, settle, timed_out, ticked, poll,
}

module _ (env : Env) (c : Client) (id : Text) where
  -- The end of a poll whose last status was asked for in the state `w`, with the state `w'` after
  -- that.
  pub data EndsBy (w w' : World) (out : Result Claims × Live) : Type 0 where
    -- the status could not be had
    no_status :
        (e : Err)
        → get_challenge_status env c id w ≡ (err e, w')
        → out ≡ (err e, (c, w'))
        → EndsBy w w' out
    -- approved: the result is that of the verification of the token that came with it
    by_approval :
        (st : StatusResponse)
        → get_challenge_status env c id w ≡ (ok st, w')
        → st.status ≡ approved
        → out ≡ verify_jwt env st.jwt (c, w')
        → EndsBy w w' out
    by_denial :
        (st : StatusResponse)
        → get_challenge_status env c id w ≡ (ok st, w')
        → st.status ≡ denied
        → out ≡ (err (sentinel challenge_denied), (c, w'))
        → EndsBy w w' out
    by_expiry :
        (st : StatusResponse)
        → get_challenge_status env c id w ≡ (ok st, w')
        → st.status ≡ expired
        → out ≡ (err (sentinel challenge_expired), (c, w'))
        → EndsBy w w' out
    -- another status, and the deadline's context has ended
    by_deadline :
        (st : StatusResponse) (timer : Timer)
        → get_challenge_status env c id w ≡ (ok st, w')
        → st.status ≢ approved
        → st.status ≢ denied
        → st.status ≢ expired
        → env.select w'.step timer ≡ finished
        → out ≡ (err (timed_out (env.context_error (w'.step + 1))), (c, after (after w')))
        → EndsBy w w' out

  -- What settles a round ends the poll in one of the first four ways.
  pub settle-EndsBy :
      (w : World) (p : Result StatusResponse × World) (out : Result Claims × Live)
      → get_challenge_status env c id w ≡ p
      → settle env c p ≡ some out
      → EndsBy w p.1 out
  unfolding settle
  settle-EndsBy w (err e, w') out got h = no_status e got (ground arith)
  settle-EndsBy w (ok st, w') out got h = elim (Bool-cases (same st.status approved)) [
    | inl a ↦ by_approval st got ((same_iff _ _).0 a) (ground arith)
    | inr na ↦ elim (Bool-cases (same st.status denied)) [
      | inl d ↦ by_denial st got ((same_iff _ _).0 d) (ground arith)
      | inr nd ↦ elim (Bool-cases (same st.status expired)) [
        | inl x ↦ by_expiry st got ((same_iff _ _).0 x) (ground arith)
        | inr nx ↦ absurd (ground arith)
      ]
    ]
  ]

  pub unsettled :
      (w : World) (p : Result StatusResponse × World)
      → settle env c p ≡ none
      → (st : StatusResponse) × (p.0 ≡ ok st)
        × (st.status ≢ approved)
        × (st.status ≢ denied)
        × (st.status ≢ expired)
  unfolding settle
  unsettled w (err e, w') h = cc
  unsettled w (ok st, w') h = (
    st,
    refl,
    ground (arith, same_iff st.status approved),
    ground (arith, same_iff st.status denied),
    ground (arith, same_iff st.status expired),
  )

  module _ (fuel : ℕ) (timer : Timer) (w : World) where
    abbrev pub reply : Result StatusResponse × World
    reply = get_challenge_status env c id w

    pub poll_settled :
        (out : Result Claims × Live)
        → settle env c reply ≡ some out
        → poll env (suc fuel) c id timer w ≡ some out
    unfolding poll
    poll_settled out h = rw (h, poll)

    pub poll-ticked :
        settle env c reply ≡ none
        → env.select reply.1.step timer ≡ tick
        → poll env (suc fuel) c id timer w ≡ poll env fuel c id (ticked timer) (after reply.1)
    unfolding poll
    poll-ticked h k = rw (h, k, poll)

    pub poll_finished :
        settle env c reply ≡ none
        → env.select reply.1.step timer ≡ finished
        → poll env (suc fuel) c id timer w
          ≡ some
              (err (timed_out (env.context_error (reply.1.step + 1))), (c, after (after reply.1)))
    unfolding poll
    poll_finished h k = rw (h, k, poll)

  pub poll-zero : (timer : Timer) (w : World) → poll env zero c id timer w ≡ none
  unfolding poll
  poll-zero timer w = refl

  pub same_result :
      {o : Option (Result Claims × Live)} {a b : Result Claims × Live}
      → o ≡ some a
      → o ≡ some b
      → b ≡ a
  same_result h k = cc
