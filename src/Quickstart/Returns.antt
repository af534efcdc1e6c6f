-- ===== src/Quickstart/Returns.antt =====
-- When the program of quickstarts/go/main.go comes to an end.
use ztxbas.Base.{
  ℕ, ◌≡◌, ◌⊎◌, ◌≤◌, ◌+◌, ◌*◌, refl, ap, [], List, Option, some, inl, inr, ◌++◌, ◌∷◌, Bool-cases,
}
use ztxbas.Base.Int.{ℤ}
use ztxbas.Base.Text.{Text, codes}
use ztxbas.Errors.{Result, ok, err, is, conflict}
use ztxbas.Runtime.{Env, World, after}
use ztxbas.Client.{Client}
use ztxbas.Token.{Claims}
use ztxbas.Login.{Live}
use ztxbas.Users.{User, register_user}
use ztxbas.Origins.{Origin, register_origin}
use ztxbas.Challenges.{
  CreateChallengeResponse, poll_timeout, poll_interval, start_timer, poll_challenge,
}
use ztxbas.Challenges.Deadline.{KeepsTime, Passes, poll_challenge_returns}
use ztxbas.Quickstart.{
  Report, Settings, settings, finish_poll, await, challenge, enrol, welcome, connect, begin, main,
}

module _ (env : Env) (format_time : ℤ → Text) (rounds late : ℕ) where
  -- The program's run has reached its poll, in which the `select` received so many ticks too late.
  abbrev pub Late : Option Report → Type 0
  Late r =
      (c : Client) × (lines : List Text) × (ch : CreateChallengeResponse) × (w : World) × (r
        ≡ await env format_time (rounds + late) c lines (ok ch, w))
      × Passes env c ch.challenge_id late (start_timer env poll_interval w) (after (after w))

  abbrev Ends : Option Report → Type 0
  Ends r = ((t : Report) × (r ≡ some t)) ⊎ Late r

  module _ (time : KeepsTime env) (enough : poll_timeout ≤ rounds * poll_interval) where
    polled :
        (c : Client) (lines : List Text) (ch : CreateChallengeResponse) (w : World)
        → ((out : Result Claims × Live) × (poll_challenge env poll_interval
                (rounds + late)
                ch.challenge_id
                (c, w)
              ≡ some out))
          ⊎ Passes env c ch.challenge_id late (start_timer env poll_interval w) (after (after w))
        → Ends (await env format_time (rounds + late) c lines (ok ch, w))
    unfolding await
    polled c lines ch w (inl (out, h)) = inl (_, ap (finish_poll env format_time _) h)
    polled c lines ch w (inr passes) = inr (c, lines, ch, w, refl, passes)

    await-Ends :
        (c : Client) (lines : List Text) (p : Result CreateChallengeResponse × World)
        → Ends (await env format_time (rounds + late) c lines p)
    unfolding await
    await-Ends c lines (err e, w) = inl (_, refl)
    await-Ends c lines (ok ch, w) =
        polled c lines ch w
          (poll_challenge_returns env poll_interval rounds late ch.challenge_id c w time enough)

    enrol-Ends :
        (c : Client) (s : Settings) (lines : List Text) (p : Result User × World)
        → Ends (enrol env format_time (rounds + late) c s lines p)
    unfolding enrol challenge
    enrol-Ends c s lines (ok u, w) = await-Ends c _ _
    enrol-Ends c s lines (err e, w) = elim (Bool-cases (is e conflict)) [
      | inl y ↦ rw y (await-Ends c _ _)
      | inr n ↦ rw n (inl (_, refl))
    ]

    welcome-Ends :
        (c : Client) (s : Settings) (p : Result Origin × World)
        → Ends (welcome env format_time (rounds + late) c s p)
    unfolding welcome
    welcome-Ends c s (ok o, w) =
        enrol-Ends c s ((codes "[1/4] origin registered: " ++ s.origin) ∷ [])
          (register_user env c (record { email = s.user_email; external_id = [] }) w)
    welcome-Ends c s (err e, w) = inl (_, refl)

    connect-Ends :
        (s : Settings) (r : Result Client) (w : World)
        → Ends (connect env format_time (rounds + late) s r w)
    unfolding connect
    connect-Ends s (ok c) w =
        welcome-Ends c s (
          register_origin env c (record { origin = s.origin; display_name = codes "Quickstart" }) w)
    connect-Ends s (err e) w = inl (_, refl)

    begin-Ends :
        (r : Result Settings) (w : World) → Ends (begin env format_time (rounds + late) r w)
    unfolding begin
    begin-Ends (ok s) w = connect-Ends s _ w
    begin-Ends (err e) w = inl (_, refl)

-- Under the timing that `PollChallenge` relies on, for any number of rounds whose intervals
-- together are as long as the timeout of the poll, and any `late`: the quickstart comes to an end
-- with fuel for `rounds + late` rounds of its poll, or else its run has reached the poll, and
-- there are `late` rounds of that in which the `select` received a tick although the deadline had
-- passed.
pub main_returns :
    (env : Env) (format_time : ℤ → Text) (rounds late : ℕ) (getenv : Text → Text) (w : World)
    → KeepsTime env
    → poll_timeout ≤ rounds * poll_interval
    → let run = main env format_time (rounds + late) getenv w in
      ((t : Report) × (run ≡ some t)) ⊎ Late env format_time rounds late run
unfolding main
main_returns env format_time rounds late getenv w time enough =
    begin-Ends env format_time rounds late time enough (settings getenv) w
