-- ===== src/Challenges/Failures.antt =====
-- The sentinels among the errors of a poll.
use ztxbas.Base.{
  ℕ, ◌+◌, ◌≤◌, ◌≡◌, ◌≢◌, refl, sym, ap, subst, ◌∙◌, true, false, [], ◌∷◌, Option, none, some,
}
use ztxbas.Base.Result.{done}
use ztxbas.Base.Text.{Text, is_empty}
use ztxbas.Go.Http.{Request, Response}
use ztxbas.Errors.{
  Sentinel, unauthorized, not_found, conflict, unregistered_origin, challenge_denied,
  challenge_expired, challenge_timeout, Err, Result, ok, err, sentinel, is,
}
use ztxbas.Errors.Classify.{Reports, sentinel_found, foreign_not_found, plain_not_found}
use ztxbas.Errors.Steps.{err_injective}
use ztxbas.Runtime.{Env, World, Timer, finished, after}
use ztxbas.Token.{Claims}
use ztxbas.Client.{Client}
use ztxbas.Client.Outcomes.{code_of, do_request_sentinel}
use ztxbas.Login.{Live}
use ztxbas.Login.Refusals.{verify_jwt-IsClean}
use ztxbas.Challenges.{
  StatusResponse, approved, denied, expired, timed_out, get_challenge_status, poll_challenge,
  start_timer,
}
use ztxbas.Challenges.Runs.{poll-EndsBy}
use ztxbas.Challenges.Rounds.{EndsBy, no_status, by_approval, by_denial, by_expiry, by_deadline}

module _ (env : Env) (c : Client) (id : Text) where
  -- The server gave this status.
  abbrev pub Told : Text → Type 0
  Told status =
      (w : World) × (w' : World) × (st : StatusResponse) × (get_challenge_status env c id w
        ≡ (ok st, w'))
      × (st.status ≡ status)

  -- The server gave another status, and then the poll's own deadline passed, while the caller's
  -- context had not ended.
  abbrev pub RanOut : Type 0
  RanOut =
      (w : World) × (w' : World) × (st : StatusResponse) × (timer : Timer) × (get_challenge_status
          env c id w
        ≡ (ok st, w'))
      × (st.status ≢ approved)
      × (st.status ≢ denied)
      × (st.status ≢ expired)
      × (env.select w'.step timer ≡ finished)
      × (env.context_error (w'.step + 1) ≡ none)

  -- The server refused a request of the client with what this sentinel stands for.
  abbrev pub Refused : Sentinel → Type 0
  Refused t =
      (k : ℕ) × (r : Request) × (resp : Response) × (env.exchange k c.hc r ≡ done resp)
      × (400 ≤ resp.status)
      × Reports resp.status (code_of env resp) t

  -- What each sentinel says of a poll.
  abbrev pub Cause : Sentinel → Type 0
  Cause challenge_denied = Told denied
  Cause challenge_expired = Told expired
  Cause challenge_timeout = RanOut
  Cause unauthorized = Refused unauthorized
  Cause not_found = Refused not_found
  Cause conflict = Refused conflict
  Cause unregistered_origin = Refused unregistered_origin

  Refused-Cause : (t : Sentinel) → Refused t → Cause t
  Refused-Cause challenge_denied (k, r, resp, got, big, never) = absurd never
  Refused-Cause challenge_expired (k, r, resp, got, big, never) = absurd never
  Refused-Cause challenge_timeout (k, r, resp, got, big, never) = absurd never
  Refused-Cause unauthorized h = h
  Refused-Cause not_found h = h
  Refused-Cause conflict h = h
  Refused-Cause unregistered_origin h = h

  found_not_clean : (e : Err) (t : Sentinel) → is e t ≡ false → is e t ≡ true → ⊥
  found_not_clean e t h k = cc

  status-Refused :
      (id' : Text) (w : World) (e : Err) (t : Sentinel)
      → (get_challenge_status env c id' w).0 ≡ err e
      → is e t ≡ true
      → Refused t
  unfolding get_challenge_status is_empty
  status-Refused [] w e t h found = absurd (
      plain_not_found _ t (
        subst (λ x. is x t ≡ true) (sym (err_injective {A = StatusResponse} (err _) _ e refl h))
          found))
  status-Refused (b ∷ id') w e t h found = do_request_sentinel env _ _ c _ _ _ w e t h found

  -- An error that is this sentinel.
  is_sentinel : (s t : Sentinel) (e : Err) → sentinel s ≡ e → is e t ≡ true → Cause s → Cause t
  is_sentinel s t e same_error found h =
      subst Cause (sentinel_found s t (subst (λ x. is x t ≡ true) (sym same_error) found)) h

  error_of :
      (x e : Err) (s : Live) (out : Result Claims × Live) → out ≡ (err x, s) → out.0 ≡ err e → x ≡ e
  error_of x e s out h k = err_injective out.0 x e (ap (λ p. p.0) h) k

  deadline-Cause :
      (o : Option Text) (e : Err) (t : Sentinel)
      → timed_out o ≡ e
      → is e t ≡ true
      → (o ≡ none → RanOut)
      → Cause t
  deadline-Cause none e t same_error found h =
      is_sentinel challenge_timeout t e same_error found (h refl)
  deadline-Cause (some m) e t same_error found h =
      absurd (foreign_not_found m t (subst (λ x. is x t ≡ true) (sym same_error) found))

  EndsBy-Cause :
      (w w' : World) (out : Result Claims × Live) (e : Err) (t : Sentinel)
      → EndsBy env c id w w' out
      → out.0 ≡ err e
      → is e t ≡ true
      → Cause t
  EndsBy-Cause w w' out e t (no_status x got q) h found =
      let same_error : x ≡ e = error_of x e _ out q h in
      Refused-Cause t (
        status-Refused id w x t (ap (λ p. p.0) got)
          (subst (λ y. is y t ≡ true) (sym same_error) found))
  EndsBy-Cause w w' out e t (by_approval st got is_approved q) h found = absurd (
      found_not_clean e t
        ((verify_jwt-IsClean env st.jwt c w').no_sentinel e (sym (ap (λ p. p.0) q) ∙ h) t) found)
  EndsBy-Cause w w' out e t (by_denial st got is_denied q) h found =
      is_sentinel challenge_denied t e (error_of _ e _ out q h) found (w, w', st, got, is_denied)
  EndsBy-Cause w w' out e t (by_expiry st got is_expired q) h found =
      is_sentinel challenge_expired t e (error_of _ e _ out q h) found (w, w', st, got, is_expired)
  EndsBy-Cause w w' out e t (by_deadline st timer got na nd nx k q) h found =
      deadline-Cause (env.context_error (w'.step + 1)) e t (error_of _ e _ out q h) found
        (λ alone. (w, w', st, timer, got, na, nd, nx, k, alone))

  -- If `PollChallenge` returns an error in which `errors.Is` finds a sentinel, then the sentinel
  -- tells the truth: denied and expired, that the server gave this status; timeout, that the
  -- server gave another status and the poll's deadline passed while the caller's own context had
  -- not ended; any other, that the server refused a request with what the sentinel stands for.
  pub poll_challenge_failed :
      (interval fuel : ℕ) (w : World) (e : Err) (t : Sentinel) (s : Live)
      → poll_challenge env interval fuel id (c, w) ≡ some (err e, s)
      → is e t ≡ true
      → Cause t
  unfolding poll_challenge
  poll_challenge_failed interval fuel w e t s h found =
      let (v, v', ends) =
        poll-EndsBy env c id fuel (start_timer env interval w) (after (after w)) (err e, s) h in
      EndsBy-Cause v v' (err e, s) e t ends refl found
