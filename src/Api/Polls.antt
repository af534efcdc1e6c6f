-- ===== src/Api/Polls.antt =====
-- The requests of a poll.
use mathlib.Core.List.{append-nil, append_assoc}
use ztxbas.Base.{
  subst, ℕ, zero, suc, ◌+◌, ◌≤◌, ◌≡◌, ◌⊎◌, inl, inr, refl, sym, ap, ◌∙◌, [], ◌∷◌, ◌++◌, List, none,
  some, arith, All, All-append, length, length-append, Option-cases,
}
use ztxbas.Base.Text.{Text, IsByte, codes}
use ztxbas.Go.Url.{Url, path_escape}
use ztxbas.Go.Http.{Request}
use ztxbas.Errors.{Result}
use ztxbas.Runtime.{Env, World, Timer, Wake-cases, after}
use ztxbas.Verifier.{jwks_request}
use ztxbas.Verifier.Keeps.{OneFetch}
use ztxbas.Token.{Claims}
use ztxbas.Client.{Client}
use ztxbas.Client.Paths.{IsBase}
use ztxbas.Client.Requests.{IsCall, OneCall}
use ztxbas.Login.{Live}
use ztxbas.Login.Sound.{verify_jwt-OneFetch}
use ztxbas.Challenges.{get_challenge_status, settle, ticked, poll, poll_challenge, start_timer}
use ztxbas.Challenges.Rounds.{
  EndsBy, no_status, by_approval, by_denial, by_expiry, by_deadline, settle-EndsBy, same_result,
  poll-zero, poll_settled, poll-ticked, poll_finished,
}
use ztxbas.Api.Calls.{get_challenge_status-OneCall}

module _ (env : Env) (c : Client) (id : Text) where
  -- A signed request for the status of the challenge, or one for the key set.
  abbrev pub IsOfPoll : Request → Type 0
  IsOfPoll r =
      IsCall env c (codes "GET") (codes "/v1/auth/status/" ++ path_escape id) none r
      ⊎ ((u : Url) × (r ≡ jwks_request u))

  -- From one state to another at most so many requests go out, all of these kinds.
  pub record Sends (n : ℕ) (w w' : World) : Type 0 where
    pub requests : List Request
    pub in_order : w'.sent ≡ w.sent ++ requests
    pub few : length requests ≤ n
    pub kinds : All IsOfPoll requests

  Sends-none : (n : ℕ) (w w' : World) → w'.sent ≡ w.sent → Sends n w w'
  Sends-none n w w' e = record {
    requests = [];
    in_order = e ∙ sym (rw append-nil);
    few = omega arith;
    kinds = tt;
  }

  Sends-one : (w w' : World) (r : Request) → w'.sent ≡ w.sent ++ r ∷ [] → IsOfPoll r → Sends 1 w w'
  Sends-one w w' r e k = record {
    requests = r ∷ [];
    in_order = e;
    few = omega arith;
    kinds = (k, tt);
  }

  OneCall-Sends :
      (w w' : World)
      → OneCall env c (codes "GET") (codes "/v1/auth/status/" ++ path_escape id) none w w'
      → Sends 1 w w'
  OneCall-Sends w w' (inl e) = Sends-none 1 w w' e
  OneCall-Sends w w' (inr (r, e, call)) = Sends-one w w' r e (inl call)

  OneFetch-Sends : (w w' : World) → OneFetch env w w' → Sends 1 w w'
  OneFetch-Sends w w' (inl e) = Sends-none 1 w w' e
  OneFetch-Sends w w' (inr (u, e)) = Sends-one w w' (jwks_request u) e (inr (u, refl))

  Sends-trans : (m n : ℕ) (u v w : World) → Sends m u v → Sends n v w → Sends (m + n) u w
  Sends-trans m n u v w a b = record {
    requests = a.requests ++ b.requests;
    in_order =
        b.in_order
        ∙ (ap (λ l. l ++ b.requests) a.in_order ∙ append_assoc u.sent a.requests b.requests);
    few = omega (arith, length-append a.requests b.requests, a.few, b.few);
    kinds = All-append IsOfPoll a.requests b.requests a.kinds b.kinds;
  }

  Sends-more : (m n : ℕ) (w w' : World) → m ≤ n → Sends m w w' → Sends n w w'
  Sends-more m n w w' le a = record {
    requests = a.requests;
    in_order = a.in_order;
    few = omega (arith, a.few);
    kinds = a.kinds;
  }

  -- What follows the last status request.
  EndsBy-OneFetch :
      (w w' : World) (out : Result Claims × Live)
      → EndsBy env c id w w' out
      → OneFetch env w' out.1.1
  EndsBy-OneFetch w w' out (no_status e got q) = inl (ap (λ p. p.1.1.sent) q)
  EndsBy-OneFetch w w' out (by_denial st got is q) = inl (ap (λ p. p.1.1.sent) q)
  EndsBy-OneFetch w w' out (by_expiry st got is q) = inl (ap (λ p. p.1.1.sent) q)
  EndsBy-OneFetch w w' out (by_deadline st t got na nd nx k q) = inl (ap (λ p. p.1.1.sent) q)
  EndsBy-OneFetch w w' out (by_approval st got is q) = rw q (verify_jwt-OneFetch env st.jwt c w')

  module _ (base : IsBase c.base_url) (bytes : All IsByte id) where
    poll-Sends :
        (fuel : ℕ) (timer : Timer) (w : World) (out : Result Claims × Live)
        → poll env fuel c id timer w ≡ some out
        → Sends (fuel + 1) w out.1.1
    poll-Sends zero timer w out h = absurd (none-ne-some (sym (poll-zero env c id timer w) ∙ h))
      where
        none-ne-some : none ≡ some out → ⊥
        none-ne-some q = cc
    poll-Sends (suc fuel) timer w out h =
        let p = get_challenge_status env c id w in
        let asked = OneCall-Sends w p.1 (get_challenge_status-OneCall env c id w base bytes) in
        elim (Option-cases (settle env c p)) [
          | inr (r, e) ↦
              let same_out : r ≡ out =
                sym (same_result env c id (poll_settled env c id fuel timer w r e) h) in
              let last =
                OneFetch-Sends p.1 r.1.1
                  (EndsBy-OneFetch w p.1 r (settle-EndsBy env c id w p r refl e)) in
              Sends-more 2 (suc fuel + 1) w out.1.1 (omega arith) (
                subst (λ (x : Result Claims × Live). Sends 2 w x.1.1) same_out
                  (Sends-trans 1 1 w p.1 r.1.1 asked last))
          | inl e ↦ elim (Wake-cases (env.select p.1.step timer)) [
            | inl k ↦
                let rest =
                  poll-Sends fuel (ticked timer) (after p.1) out
                    (sym (poll-ticked env c id fuel timer w e k) ∙ h) in
                Sends-more (1 + (fuel + 1)) (suc fuel + 1) w out.1.1 (omega arith) (
                  Sends-trans 1 (fuel + 1) w (after p.1) out.1.1
                    (record {
                      requests = asked.requests;
                      in_order = asked.in_order;
                      few = asked.few;
                      kinds = asked.kinds;
                    })
                    rest)
            | inr k ↦
                let same_out = same_result env c id (poll_finished env c id fuel timer w e k) h in
                Sends-more 1 (suc fuel + 1) w out.1.1 (omega arith) (record {
                  requests = asked.requests;
                  in_order =
                      ap (λ (x : Result Claims × Live). x.1.1.sent) same_out ∙ asked.in_order;
                  few = asked.few;
                  kinds = asked.kinds;
                })
          ]
        ]

-- A poll that has returned within some number of rounds has handed at most one request more than
-- that to the HTTP client, each of them a signed request for the status of this challenge or a
-- request for a key set, for a client whose base path is empty or begins with a slash and an id
-- made of bytes.
pub poll_challenge-Sends :
    (env : Env) (c : Client) (id : Text) (interval fuel : ℕ) (w : World) (r : Result Claims)
    (s : Live)
    → IsBase c.base_url
    → All IsByte id
    → poll_challenge env interval fuel id (c, w) ≡ some (r, s)
    → Sends env c id (fuel + 1) w s.1
unfolding poll_challenge
poll_challenge-Sends env c id interval fuel w r s base bytes h =
    let sent =
      poll-Sends env c id base bytes fuel (start_timer env interval w) (after (after w)) (r, s) h in
    record {
      requests = sent.requests;
      in_order = sent.in_order;
      few = sent.few;
      kinds = sent.kinds;
    }
