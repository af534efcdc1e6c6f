-- ===== src/Quickstart/Flow.antt =====
-- What an authenticated run of the quickstart rests on.
use ztxbas.Base.{
  ℕ, ◌≡◌, refl, ap, ◌∙◌, [], List, Option, none, some, inl, inr, Bool-cases, ◌++◌, ◌∷◌,
}
use ztxbas.Base.Int.{ℤ}
use ztxbas.Base.Text.{Text, codes}
use ztxbas.Errors.{Result, ok, err, is, conflict}
use ztxbas.Runtime.{Env, World}
use ztxbas.Token.{Claims}
use ztxbas.Client.{Client, new}
use ztxbas.Login.{Live}
use ztxbas.Users.{User, register_user}
use ztxbas.Origins.{Origin, register_origin}
use ztxbas.Challenges.{CreateChallengeResponse, create_challenge, poll_challenge, poll_interval}
use ztxbas.Challenges.Approval.{IsApproved, poll_challenge_sound}
use ztxbas.Quickstart.{
  stopped, authenticated, Report, Settings, settings, finish, finish_poll, await, challenge, enrol,
  welcome, connect, begin, main,
}

module _ (env : Env) (format_time : ℤ → Text) where
  -- The report is that of an authenticated run.
  abbrev pub Shows : Option Report → Claims → Type 0
  Shows r d = (t : Report) × (r ≡ some t) × (t.ended ≡ authenticated d)

  -- The challenge that the server made for the client was approved, with these claims.
  abbrev pub Challenged : Client → Settings → Claims → Type 0
  Challenged c s d =
      (w : World) × (ch : CreateChallengeResponse) × ((create_challenge env c
          (record { user_email = s.user_email; origin = s.origin }) w).0
        ≡ ok ch)
      × IsApproved env c ch.challenge_id d

  not_stopped :
      (lines : List Text) (t : Text) (d : Claims)
      → Shows (some (record { lines = lines; ended = stopped t })) d
      → ⊥
  not_stopped lines t d (r, e, a) =
      contradiction (ap (λ (x : Report). x.ended) (some_injective e) ∙ a)
    where
      some_injective : {a b : Report} → some a ≡ some b → a ≡ b
      some_injective h = cc

      contradiction : stopped t ≡ authenticated d → ⊥
      contradiction h = cc

  finish_poll-Shows :
      (lines : List Text) (o : Option (Result Claims × Live)) (d : Claims)
      → Shows (finish_poll env format_time lines o) d
      → (s : Live) × (o ≡ some (ok d, s))
  unfolding finish
  finish_poll-Shows lines none d (t, e, a) = absurd (nothing e)
    where
      nothing : none ≡ some t → ⊥
      nothing h = cc
  finish_poll-Shows lines (some (err e, s)) d h = absurd (not_stopped _ _ d h)
  finish_poll-Shows lines (some (ok c, s)) d (t, e, a) = (s, ap (λ x. some (ok x, s)) same_claims)
    where
      injective : {x y : Claims} → authenticated x ≡ authenticated y → x ≡ y
      injective h = cc

      some_injective : {x y : Report} → some x ≡ some y → x ≡ y
      some_injective h = cc

      same_claims : c ≡ d
      same_claims = injective (ap (λ (x : Report). x.ended) (some_injective e) ∙ a)

  await-Shows :
      (fuel : ℕ) (c : Client) (lines : List Text) (p : Result CreateChallengeResponse × World)
      (d : Claims)
      → Shows (await env format_time fuel c lines p) d
      → (ch : CreateChallengeResponse) × (p.0 ≡ ok ch) × IsApproved env c ch.challenge_id d
  unfolding await
  await-Shows fuel c lines (err e, w) d h = absurd (not_stopped _ _ d h)
  await-Shows fuel c lines (ok ch, w) d h =
      let (s, e) =
        finish_poll-Shows _ (poll_challenge env poll_interval fuel ch.challenge_id (c, w)) d h in
      (ch, refl, poll_challenge_sound env poll_interval fuel ch.challenge_id c w d s e)

  challenge-Shows :
      (fuel : ℕ) (c : Client) (s : Settings) (lines : List Text) (w : World) (d : Claims)
      → Shows (challenge env format_time fuel c s lines w) d
      → Challenged c s d
  unfolding challenge
  challenge-Shows fuel c s lines w d h =
      let (ch, made, approved) = await-Shows fuel c lines _ d h in (w, ch, made, approved)

  enrol-Shows :
      (fuel : ℕ) (c : Client) (s : Settings) (lines : List Text) (p : Result User × World)
      (d : Claims)
      → Shows (enrol env format_time fuel c s lines p) d
      → Challenged c s d
  unfolding enrol
  enrol-Shows fuel c s lines (ok u, w) d h = challenge-Shows fuel c s _ w d h
  enrol-Shows fuel c s lines (err e, w) d h = elim (Bool-cases (is e conflict)) [
    | inl y ↦ challenge-Shows fuel c s _ w d (rw y at h)
    | inr n ↦ absurd (not_stopped _ _ d (rw n at h))
  ]

  welcome-Shows :
      (fuel : ℕ) (c : Client) (s : Settings) (p : Result Origin × World) (d : Claims)
      → Shows (welcome env format_time fuel c s p) d
      → Challenged c s d
  unfolding welcome
  welcome-Shows fuel c s (ok o, w) d h =
      enrol-Shows fuel c s ((codes "[1/4] origin registered: " ++ s.origin) ∷ [])
        (register_user env c (record { email = s.user_email; external_id = [] }) w) d h
  welcome-Shows fuel c s (err e, w) d h = absurd (not_stopped _ _ d h)

  connect-Shows :
      (fuel : ℕ) (s : Settings) (r : Result Client) (w : World) (d : Claims)
      → Shows (connect env format_time fuel s r w) d
      → (c : Client) × (r ≡ ok c) × Challenged c s d
  unfolding connect
  connect-Shows fuel s (ok c) w d h = (
    c,
    refl,
    welcome-Shows fuel c s
        (register_origin env c (record { origin = s.origin; display_name = codes "Quickstart" }) w)
        d h,
  )
  connect-Shows fuel s (err e) w d h = absurd (not_stopped _ _ d h)

  -- If the quickstart ends as authenticated with some claims, then its five variables are set,
  -- `New` made a client of them, and the challenge that the server created for this client, user
  -- and origin was approved with these claims.
  pub main_sound :
      (fuel : ℕ) (getenv : Text → Text) (w : World) (d : Claims) (t : Report)
      → main env format_time fuel getenv w ≡ some t
      → t.ended ≡ authenticated d
      → (s : Settings) × (c : Client) × (settings getenv ≡ ok s)
        × (new env s.base_url s.app_id s.secret [] ≡ ok c)
        × Challenged c s d
  unfolding main
  main_sound fuel getenv w d t e a = started (settings getenv) (t, e, a)
    where
      started :
          (r : Result Settings)
          → Shows (begin env format_time fuel r w) d
          → (s : Settings) × (c : Client) × (r ≡ ok s)
            × (new env s.base_url s.app_id s.secret [] ≡ ok c)
            × Challenged c s d
      started (ok s) h =
          let (c, made, more) =
            connect-Shows fuel s (new env s.base_url s.app_id s.secret []) w d
              (unfold begin in h) in
          (s, c, refl, made, more)
      started (err x) h = absurd (not_stopped _ _ d (unfold begin in h))
