-- ===== src/Challenges/Approval.antt =====
-- What the claims that a poll returns rest on.
use ztxbas.Base.{◌≡◌, refl, sym, ap, ◌∙◌, some, ℕ}
use ztxbas.Base.Text.{Text}
use ztxbas.Errors.{Result, ok}
use ztxbas.Errors.Steps.{ok-ne-err}
use ztxbas.Runtime.{Env, World, after}
use ztxbas.Verifier.{Verifier}
use ztxbas.Token.{Claims}
use ztxbas.Token.Accepted.{Accepted}
use ztxbas.Client.{Client}
use ztxbas.Login.{Live, own_verifier}
use ztxbas.Login.Sound.{verify_jwt_sound}
use ztxbas.Challenges.{StatusResponse, approved, get_challenge_status, poll_challenge, start_timer}
use ztxbas.Challenges.Runs.{poll-EndsBy}
use ztxbas.Challenges.Rounds.{EndsBy, no_status, by_approval, by_denial, by_expiry, by_deadline}

module _ (env : Env) where
  -- A status of the challenge was `approved`, and the token that came with it is accepted with these
  -- claims by the client's verifier, in the state after that reply.
  pub record IsApproved (c : Client) (id : Text) (d : Claims) : Type 0 where
    pub asked : World
    pub told : World
    pub reply : StatusResponse
    pub replied : get_challenge_status env c id asked ≡ (ok reply, told)
    pub is_approved : reply.status ≡ approved
    pub verifier : Verifier
    pub own : own_verifier c ≡ ok verifier
    pub accepted : Accepted env reply.jwt (verifier, told) d

  EndsBy-IsApproved :
      (c : Client) (id : Text) (w w' : World) (out : Result Claims × Live) (d : Claims)
      → EndsBy env c id w w' out
      → out.0 ≡ ok d
      → IsApproved c id d
  EndsBy-IsApproved c id w w' out d (by_approval st got is_approved e) h =
      let (v, own, accepted) = verify_jwt_sound env st.jwt c w' d (sym (ap (λ p. p.0) e) ∙ h) in
      record {
        asked = w;
        told = w';
        reply = st;
        replied = got;
        is_approved = is_approved;
        verifier = v;
        own = own;
        accepted = accepted;
      }
  EndsBy-IsApproved c id w w' out d (no_status x got e) h =
      absurd (ok-ne-err d x (sym h ∙ ap (λ p. p.0) e))
  EndsBy-IsApproved c id w w' out d (by_denial st got is e) h =
      absurd (ok-ne-err d _ (sym h ∙ ap (λ p. p.0) e))
  EndsBy-IsApproved c id w w' out d (by_expiry st got is e) h =
      absurd (ok-ne-err d _ (sym h ∙ ap (λ p. p.0) e))
  EndsBy-IsApproved c id w w' out d (by_deadline st t got na nd nx k e) h =
      absurd (ok-ne-err d _ (sym h ∙ ap (λ p. p.0) e))

  -- If `PollChallenge` returns claims, then some status request of that challenge was answered
  -- with `approved`, and the token in that answer is accepted with these claims by the client's
  -- verifier in the state after that answer.
  pub poll_challenge_sound :
      (interval fuel : ℕ) (id : Text) (c : Client) (w : World) (d : Claims) (s : Live)
      → poll_challenge env interval fuel id (c, w) ≡ some (ok d, s)
      → IsApproved c id d
  unfolding poll_challenge
  poll_challenge_sound interval fuel id c w d s h =
      let (v, v', ends) =
        poll-EndsBy env c id fuel (start_timer env interval w) (after (after w)) (ok d, s) h in
      EndsBy-IsApproved c id v v' (ok d, s) d ends refl
