-- ===== src/Challenges/Runs.antt =====
-- What a poll returns, told by the server's answers and the ticks, round by round.
use ztxbas.Base.{
  ℕ, zero, suc, ◌+◌, ◌-◌, ◌≤◌, ◌≡◌, ◌≢◌, ◌↔◌, inl, inr, refl, sym, ap, subst, ◌∙◌, none, some,
  arith, Option-cases,
}
use ztxbas.Base.Text.{Text, same, same_iff}
use ztxbas.Errors.{Err, Result, ok, err, sentinel, challenge_denied, challenge_expired}
use ztxbas.Runtime.{Env, World, Timer, tick, finished, Wake-cases, after}
use ztxbas.Token.{Claims}
use ztxbas.Client.{Client}
use ztxbas.Login.{Live, verify_jwt}
use ztxbas.Challenges.{
  StatusResponse, approved, denied, expired, get_challenge_status, settle, timed_out, ticked, poll,
  start_timer, poll_challenge,
}
use ztxbas.Challenges.Rounds.{
  EndsBy, no_status, by_approval, by_denial, by_expiry, by_deadline, settle-EndsBy, unsettled,
  poll_settled, poll-ticked, poll_finished, poll-zero, same_result,
}

module _ (env : Env) (c : Client) (id : Text) where
  -- A status that ends no poll.
  abbrev pub IsPending : StatusResponse → Type 0
  IsPending st = (st.status ≢ approved) × (st.status ≢ denied) × (st.status ≢ expired)

  -- From a timer and a state on, the poll ends with `out` in the round of that number.
  pub data Polls (out : Result Claims × Live) : ℕ → Timer → World → Type 0 where
    fails :
        {timer : Timer} {w : World} (e : Err) (w' : World)
        → get_challenge_status env c id w ≡ (err e, w')
        → out ≡ (err e, (c, w'))
        → Polls out 1 timer w
    approves :
        {timer : Timer} {w : World} (st : StatusResponse) (w' : World)
        → get_challenge_status env c id w ≡ (ok st, w')
        → st.status ≡ approved
        → out ≡ verify_jwt env st.jwt (c, w')
        → Polls out 1 timer w
    denies :
        {timer : Timer} {w : World} (st : StatusResponse) (w' : World)
        → get_challenge_status env c id w ≡ (ok st, w')
        → st.status ≡ denied
        → out ≡ (err (sentinel challenge_denied), (c, w'))
        → Polls out 1 timer w
    expires :
        {timer : Timer} {w : World} (st : StatusResponse) (w' : World)
        → get_challenge_status env c id w ≡ (ok st, w')
        → st.status ≡ expired
        → out ≡ (err (sentinel challenge_expired), (c, w'))
        → Polls out 1 timer w
    times_out :
        {timer : Timer} {w : World} (st : StatusResponse) (w' : World)
        → get_challenge_status env c id w ≡ (ok st, w')
        → IsPending st
        → env.select w'.step timer ≡ finished
        → out ≡ (err (timed_out (env.context_error (w'.step + 1))), (c, after (after w')))
        → Polls out 1 timer w
    waits :
        {timer : Timer} {w : World} {n : ℕ} (st : StatusResponse) (w' : World)
        → get_challenge_status env c id w ≡ (ok st, w')
        → IsPending st
        → env.select w'.step timer ≡ tick
        → Polls out n (ticked timer) (after w')
        → Polls out (suc n) timer w

  settle_failed : (e : Err) (w : World) → settle env c (err e, w) ≡ some (err e, (c, w))
  unfolding settle
  settle_failed e w = refl

  -- What each status settles.
  module _ (st : StatusResponse) (w : World) where
    settle-approved :
        st.status ≡ approved → settle env c (ok st, w) ≡ some (verify_jwt env st.jwt (c, w))
    unfolding settle
    settle-approved e = ground (arith, same_iff st.status approved)

    settle-denied :
        st.status ≡ denied
        → settle env c (ok st, w) ≡ some (err (sentinel challenge_denied), (c, w))
    unfolding settle same
    settle-denied e = rw e refl

    settle-expired :
        st.status ≡ expired
        → settle env c (ok st, w) ≡ some (err (sentinel challenge_expired), (c, w))
    unfolding settle same
    settle-expired e = rw e refl

    settle_pending : IsPending st → settle env c (ok st, w) ≡ none
    unfolding settle
    settle_pending (na, nd, nx) =
        ground (
          arith,
          same_iff st.status approved,
          same_iff st.status denied,
          same_iff st.status expired,
        )

  module _ (out : Result Claims × Live) (timer : Timer) (w : World) where
    none-ne-some : none ≡ some out → ⊥
    none-ne-some q = cc

    -- What settles a round is one of the first four ends.
    EndsBy-Polls :
        (w' : World)
        → settle env c (get_challenge_status env c id w) ≡ some out
        → EndsBy env c id w w' out
        → Polls out 1 timer w
    EndsBy-Polls w' h (no_status e got q) = fails e w' got q
    EndsBy-Polls w' h (by_approval st got a q) = approves st w' got a q
    EndsBy-Polls w' h (by_denial st got d q) = denies st w' got d q
    EndsBy-Polls w' h (by_expiry st got x q) = expires st w' got x q
    EndsBy-Polls w' h (by_deadline st _ got na nd nx k q) =
        absurd (none-ne-some (sym (ap (settle env c) got ∙ settle_pending st w' (na, nd, nx)) ∙ h))

  poll-Polls :
      (fuel : ℕ) (timer : Timer) (w : World) (out : Result Claims × Live)
      → poll env fuel c id timer w ≡ some out
      → (n : ℕ) × (n ≤ fuel) × Polls out n timer w
  poll-Polls zero timer w out h =
      absurd (none-ne-some out timer w (sym (poll-zero env c id timer w) ∙ h))
  poll-Polls (suc fuel) timer w out h =
      let p = get_challenge_status env c id w in
      elim (Option-cases (settle env c p)) [
        | inr (r, e) ↦
            let settled : settle env c p ≡ some out =
              e ∙ ap some (sym (same_result env c id (poll_settled env c id fuel timer w r e) h)) in
            (
              1,
              omega arith,
              EndsBy-Polls out timer w p.1 settled (settle-EndsBy env c id w p out refl settled),
            )
        | inl e ↦
            let (st, got, na, nd, nx) = unsettled env c id w p e in
            let answer : p ≡ (ok st, p.1) = λ i. (got i, p.1) in
            elim (Wake-cases (env.select p.1.step timer)) [
              | inl k ↦
                  let (n, le, rest) =
                    poll-Polls fuel (ticked timer) (after p.1) out
                      (sym (poll-ticked env c id fuel timer w e k) ∙ h) in
                  (suc n, omega (arith, le), waits st p.1 answer (na, nd, nx) k rest)
              | inr k ↦ (
                1,
                omega arith,
                times_out st p.1 answer (na, nd, nx) k
                    (same_result env c id (poll_finished env c id fuel timer w e k) h),
              )
            ]
      ]

  poll_more :
      (n k : ℕ) (timer : Timer) (w : World)
      → poll env (suc n + k) c id timer w ≡ poll env (suc (n + k)) c id timer w
  poll_more n k timer w = ap (λ f. poll env f c id timer w) (omega arith)

  -- A round that does not end the poll leaves it to the next.
  Polls-poll :
      (out : Result Claims × Live) (n k : ℕ) (timer : Timer) (w : World)
      → Polls out n timer w
      → poll env (n + k) c id timer w ≡ some out
  Polls-poll out n k timer w (fails e w' got q) =
      poll_more 0 k timer w
      ∙ poll_settled env c id (0 + k) timer w out
          (ap (settle env c) got ∙ (settle_failed e w' ∙ ap some (sym q)))
  Polls-poll out n k timer w (approves st w' got a q) =
      poll_more 0 k timer w
      ∙ poll_settled env c id (0 + k) timer w out
          (ap (settle env c) got ∙ (settle-approved st w' a ∙ ap some (sym q)))
  Polls-poll out n k timer w (denies st w' got d q) =
      poll_more 0 k timer w
      ∙ poll_settled env c id (0 + k) timer w out
          (ap (settle env c) got ∙ (settle-denied st w' d ∙ ap some (sym q)))
  Polls-poll out n k timer w (expires st w' got x q) =
      poll_more 0 k timer w
      ∙ poll_settled env c id (0 + k) timer w out
          (ap (settle env c) got ∙ (settle-expired st w' x ∙ ap some (sym q)))
  Polls-poll out n k timer w (times_out st w' got pending sel q) =
      let open_round = ap (settle env c) got ∙ settle_pending st w' pending in
      poll_more 0 k timer w
      ∙ poll_finished env c id (0 + k) timer w open_round
          (ap (λ p. env.select p.1.step timer) got ∙ sel)
      ∙ ap some (
          ap (λ p. (err (timed_out (env.context_error (p.1.step + 1))), (c, after (after p.1)))) got
          ∙ sym q)
  Polls-poll out _ k timer w (waits {n = n} st w' got pending sel rest) =
      let open_round = ap (settle env c) got ∙ settle_pending st w' pending in
      poll_more n k timer w
      ∙ poll-ticked env c id (n + k) timer w open_round
          (ap (λ p. env.select p.1.step timer) got ∙ sel)
      ∙ (ap (λ p. poll env (n + k) c id (ticked timer) (after p.1)) got
          ∙ Polls-poll out n k (ticked timer) (after w') rest)

  -- Within some number of rounds `PollChallenge` returns a result exactly if, after fewer rounds
  -- in each of which the server gave a status that is not terminal and then the `select` received
  -- a tick, a round ends with this result: the error of the status request; what `VerifyJWT`
  -- returns for the token of an approval; the sentinel of a denial or of an expiry; or the end of
  -- the deadline's context.
  pub poll_challenge_iff :
      (interval fuel : ℕ) (w : World) (out : Result Claims × Live)
      → (poll_challenge env interval fuel id (c, w) ≡ some out)
        ↔ ((n : ℕ) × (n ≤ fuel) × Polls out n (start_timer env interval w) (after (after w)))
  unfolding poll_challenge
  poll_challenge_iff interval fuel w out =
      let timer = start_timer env interval w in
      (
        poll-Polls fuel timer (after (after w)) out,
        λ (n, le, run).
            subst (λ f. poll env f c id timer (after (after w)) ≡ some out) (omega (arith, le))
              (Polls-poll out n (fuel - n) timer (after (after w)) run),
      )

  -- The last round.
  Polls-EndsBy :
      (out : Result Claims × Live) (n : ℕ) (timer : Timer) (w : World)
      → Polls out n timer w
      → (v : World) × (v' : World) × EndsBy env c id v v' out
  Polls-EndsBy out _ timer w (fails e w' got q) = (w, w', no_status e got q)
  Polls-EndsBy out _ timer w (approves st w' got a q) = (w, w', by_approval st got a q)
  Polls-EndsBy out _ timer w (denies st w' got d q) = (w, w', by_denial st got d q)
  Polls-EndsBy out _ timer w (expires st w' got x q) = (w, w', by_expiry st got x q)
  Polls-EndsBy out _ timer w (times_out st w' got (na, nd, nx) k q) =
      (w, w', by_deadline st timer got na nd nx k q)
  Polls-EndsBy out _ timer w (waits {n = n} st w' got pending k rest) =
      Polls-EndsBy out n (ticked timer) (after w') rest

  -- A poll that returns has ended in one of five ways: with the error of a status request; with
  -- what `VerifyJWT` returns for the token of an approval; with the sentinel of a denial or of an
  -- expiry; or, after another status, because the `select` received the end of the deadline's
  -- context.
  pub poll-EndsBy :
      (fuel : ℕ) (timer : Timer) (w : World) (out : Result Claims × Live)
      → poll env fuel c id timer w ≡ some out
      → (v : World) × (v' : World) × EndsBy env c id v v' out
  poll-EndsBy fuel timer w out h =
      let (n, le, run) = poll-Polls fuel timer w out h in Polls-EndsBy out n timer w run
