-- ===== src/Challenges.antt =====
-- sdk-go/challenges.go: challenges, their status, and the poll.
pub mod Rounds
pub mod Runs
pub mod Deadline
pub mod Approval
pub mod Failures
use ztxbas.Base.{
  ℕ, zero, suc, ◌+◌, ◌*◌, Bool, true, false, ◌||◌, List, [], ◌∷◌, ◌++◌, Option, none, some,
  if◌then◌else◌,
}
use ztxbas.Base.Int.{ℤ, pos}
use ztxbas.Base.Text.{Text, codes, same, is_empty}
use ztxbas.Go.Url.{path_escape}
use ztxbas.Go.Json.{Json, str, Members, member, end, obj, Setter, set_text, set_int, set_struct}
use ztxbas.Errors.{
  Err, Result, ok, err, plain, sentinel, foreign, challenge_denied, challenge_expired,
  challenge_timeout,
}
use ztxbas.Runtime.{Env, Exec, World, Timer, Wake, tick, finished, after}
use ztxbas.Verifier.{second}
use ztxbas.Token.{Claims}
use ztxbas.Client.{Client, do_request}
use ztxbas.Login.{Live, verify_jwt}

abbrev pub pending : Text
pending = codes "pending"

abbrev pub approved : Text
approved = codes "approved"

abbrev pub denied : Text
denied = codes "denied"

abbrev pub expired : Text
expired = codes "expired"

-- A status is any text that the server sends.
unfoldable pub is_terminal : Text → Bool
is_terminal s = same s approved || same s denied || same s expired

pub record CreateChallengeRequest : Type 0 where
  pub user_email : Text
  pub origin : Text

unfoldable pub create_challenge_json : CreateChallengeRequest → Json
create_challenge_json r =
    obj
      (member (codes "user_email") (str r.user_email) (member (codes "origin") (str r.origin) end))

pub record CreateChallengeResponse : Type 0 where
  pub challenge_id : Text
  pub expires_in : ℤ
  pub origin_display : Text
  pub origin_url : Text

abbrev pub blank_challenge : CreateChallengeResponse
blank_challenge = record {
  challenge_id = [];
  expires_in = pos 0;
  origin_display = [];
  origin_url = [];
}

unfoldable pub set_challenge : Setter CreateChallengeResponse
unfolding set_struct set_text set_int
set_challenge = set_struct (
    (
      codes "challenge_id",
      λ j c. let (t, fits) = set_text j c.challenge_id in (record c { challenge_id = t }, fits),
    )
    ∷ (
      codes "expires_in",
      λ j c. let (z, fits) = set_int j c.expires_in in (record c { expires_in = z }, fits),
    )
    ∷ (
      codes "origin_display",
      λ j c. let (t, fits) = set_text j c.origin_display in (record c { origin_display = t }, fits),
    )
    ∷ (
      codes "origin_url",
      λ j c. let (t, fits) = set_text j c.origin_url in (record c { origin_url = t }, fits),
    )
    ∷ [])

pub record StatusResponse : Type 0 where
  pub status : Text
  pub user_email : Text
  pub jwt : Text

abbrev pub blank_status : StatusResponse
blank_status = record { status = []; user_email = []; jwt = [] }

unfoldable pub set_status : Setter StatusResponse
unfolding set_struct set_text
set_status = set_struct (
    (codes "status", λ j s. let (t, fits) = set_text j s.status in (record s { status = t }, fits))
    ∷ (
      codes "user_email",
      λ j s. let (t, fits) = set_text j s.user_email in (record s { user_email = t }, fits),
    )
    ∷ (codes "jwt", λ j s. let (t, fits) = set_text j s.jwt in (record s { jwt = t }, fits))
    ∷ [])

-- 1 s, in nanoseconds.
abbrev pub poll_interval : ℕ
poll_interval = second

-- 4 min 30 s.
abbrev pub poll_timeout : ℕ
poll_timeout = 270 * second

abbrev pub status_path : Text → Text
status_path id = codes "/v1/auth/status/" ++ path_escape id

-- The end of the deadline's context: the error of the caller's context, if that has ended too.
abbrev pub timed_out : Option Text → Err
timed_out none = sentinel challenge_timeout
timed_out (some m) = foreign m

abbrev pub ticked : Timer → Timer
ticked t = record t { received = t.received + 1 }

module _ (env : Env) where
  unfoldable pub create_challenge :
      Client → CreateChallengeRequest → Exec World CreateChallengeResponse
  create_challenge c req w =
      do_request env c (codes "POST") (codes "/v1/auth/challenge")
        (some (create_challenge_json req)) blank_challenge (some set_challenge) w

  unfoldable pub get_challenge_status : Client → Text → Exec World StatusResponse
  get_challenge_status c id w =
      if is_empty id
      then (err (plain (codes "ztxbas: challenge id required")), w)
      else do_request env c (codes "GET") (status_path id) none blank_status (some set_status) w

  -- What ends a round of the poll at once: an error, or a terminal status. `none` goes on to wait.
  unfoldable pub settle : Client → Result StatusResponse × World → Option (Result Claims × Live)
  settle c (err e, w) = some (err e, (c, w))
  settle c (ok st, w) =
      if same st.status approved
      then some (verify_jwt env st.jwt (c, w))
      else if same st.status denied
      then some (err (sentinel challenge_denied), (c, w))
      else if same st.status expired
      then some (err (sentinel challenge_expired), (c, w))
      else none

  -- The loop, with fuel for its rounds; no result means that the fuel ran out. The `select` and the
  -- reading of the context are one effect each.
  unfoldable pub poll : ℕ → Client → Text → Timer → World → Option (Result Claims × Live)
  poll zero c id timer w = none
  poll (suc fuel) c id timer w =
      let reply = get_challenge_status c id w in
      let w' = reply.1 in
      let again = poll fuel c id (ticked timer) (after w') in
      elim (settle c reply) [
        | some result ↦ some result
        | none ↦ elim (env.select w'.step timer) [
          | tick ↦ again
          | finished ↦
              some (err (timed_out (env.context_error (w'.step + 1))), (c, after (after w')))
        ]
      ]

  -- `context.WithTimeout` and `time.NewTicker` read the clock, in this order.
  abbrev pub start_timer : ℕ → World → Timer
  start_timer interval w = record {
    started = (env.now (w.step + 1)).mono;
    interval = interval;
    received = 0;
    deadline = (env.now w.step).mono + poll_timeout;
  }

  -- `interval` is the package variable that tests set; otherwise it is `poll_interval`.
  unfoldable pub poll_challenge : ℕ → ℕ → Text → Live → Option (Result Claims × Live)
  poll_challenge interval fuel id (c, w) = poll fuel c id (start_timer interval w) (after (after w))
