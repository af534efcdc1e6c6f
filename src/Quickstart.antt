-- ===== src/Quickstart.antt =====
-- quickstarts/go/main.go: the flow of enrolment, challenge and verification, up to its exit.
pub mod Flow
pub mod Returns
use ztxbas.Base.{ℕ, [], ◌∷◌, ◌++◌, List, Option, none, some, if◌then◌else◌}
use ztxbas.Base.Int.{ℤ, pos}
use ztxbas.Base.Text.{Text, codes, is_empty}
use ztxbas.Go.Strings.Decimal.{format_int}
use ztxbas.Errors.{
  Err, Result, ok, err, plain, is, conflict, challenge_denied, challenge_expired, error_text,
  with_result,
}
use ztxbas.Runtime.{Env, World}
use ztxbas.Token.{Claims}
use ztxbas.Client.{Client, new}
use ztxbas.Login.{Live}
use ztxbas.Users.{User, register_user}
use ztxbas.Origins.{Origin, register_origin}
use ztxbas.Challenges.{CreateChallengeResponse, create_challenge, poll_challenge, poll_interval}

-- How the program ends: `log.Fatalf` with its line, or the end of `main`.
pub data Ended : Type 0 where
  stopped : Text → Ended
  authenticated : Claims → Ended

-- What was printed, line by line, and the end.
pub record Report : Type 0 where
  pub lines : List Text
  pub ended : Ended

-- The variables of the environment that the program reads.
pub record Settings : Type 0 where
  pub base_url : Text
  pub app_id : Text
  pub secret : Text
  pub user_email : Text
  pub origin : Text

-- `env`, with `os.Getenv` as an argument: the value, or the line with which the program stops.
unfoldable pub required : (Text → Text) → Text → Result Text
required getenv k =
    if is_empty (getenv k)
    then err (plain (codes "required env var " ++ k ++ codes " is unset"))
    else ok (getenv k)

-- The five variables, in the order in which they are read.
unfoldable pub settings : (Text → Text) → Result Settings
settings getenv = with_result (required getenv (codes "ZTXBAS_URL")) (λ b.
    with_result (required getenv (codes "ZTXBAS_APP_ID")) (λ a.
      with_result (required getenv (codes "ZTXBAS_SECRET")) (λ s.
        with_result (required getenv (codes "ZTXBAS_USER_EMAIL")) (λ u.
          with_result (required getenv (codes "ZTXBAS_ORIGIN")) (λ o.
            ok (record { base_url = b; app_id = a; secret = s; user_email = u; origin = o }))))))

-- A tick, U+2705, stands before the word.
abbrev pub success_line : Text
success_line = codes "[4/4] " ++ 0xe2 ∷ 0x9c ∷ 0x85 ∷ codes " authenticated"

-- `format_time` stands for the RFC 3339 form of a Unix time in the local zone.
module _ (env : Env) (format_time : ℤ → Text) where
  abbrev pub fatal : List Text → Text → Err → Report
  fatal lines prefix e = record {
    lines = lines;
    ended = stopped (prefix ++ error_text env.status_text e);
  }

  unfoldable pub poll_failure : Err → Text
  poll_failure e =
      if is e challenge_denied
      then codes "[4/4] user denied the request"
      else if is e challenge_expired
      then codes "[4/4] challenge expired"
      else codes "[4/4] poll: " ++ error_text env.status_text e

  unfoldable pub finish : List Text → Result Claims × Live → Report
  unfolding poll_failure
  finish lines (err e, s) = record { lines = lines; ended = stopped (poll_failure e) }
  finish lines (ok d, s) = record {
    lines =
        lines
        ++ success_line
          ∷ (codes "      email="
              ++ d.email
              ++ codes " origin="
              ++ d.origin
              ++ codes " challenge_id="
              ++ d.challenge_id
              ++ codes " exp="
              ++ format_time d.expires_at)
          ∷ [];
    ended = authenticated d;
  }

  abbrev pub finish_poll : List Text → Option (Result Claims × Live) → Option Report
  finish_poll lines none = none
  finish_poll lines (some out) = some (finish lines out)

  abbrev pub challenge_line : CreateChallengeResponse → Text
  challenge_line ch =
      codes "[3/4] challenge "
      ++ ch.challenge_id
      ++ codes " created (approve on your phone within "
      ++ format_int ch.expires_in
      ++ codes "s)"

  -- From the answer to the challenge on. No report means that the poll's fuel ran out.
  unfoldable pub await :
      ℕ → Client → List Text → Result CreateChallengeResponse × World → Option Report
  unfolding finish
  await fuel c lines (err e, w) = some (fatal lines (codes "create challenge: ") e)
  await fuel c lines (ok ch, w) =
      finish_poll (lines ++ challenge_line ch ∷ [])
        (poll_challenge env poll_interval fuel ch.challenge_id (c, w))

  unfoldable pub challenge : ℕ → Client → Settings → List Text → World → Option Report
  unfolding await
  challenge fuel c s lines w =
      await fuel c lines
        (create_challenge env c (record { user_email = s.user_email; origin = s.origin }) w)

  -- A user who is there already is no failure.
  unfoldable pub enrol : ℕ → Client → Settings → List Text → Result User × World → Option Report
  unfolding challenge
  enrol fuel c s lines (ok u, w) =
      challenge fuel c s
        (lines
          ++ (codes "[2/4] user enrolled: "
              ++ s.user_email
              ++ codes " (check email to complete device setup)")
            ∷ [])
        w
  enrol fuel c s lines (err e, w) =
      let go_on =
        challenge fuel c s (lines ++ (codes "[2/4] user already enrolled: " ++ s.user_email) ∷ [])
          w in
      if is e conflict then go_on else some (fatal lines (codes "register user: ") e)

  unfoldable pub welcome : ℕ → Client → Settings → Result Origin × World → Option Report
  unfolding enrol
  welcome fuel c s (err e, w) = some (fatal [] (codes "register origin: ") e)
  welcome fuel c s (ok o, w) =
      enrol fuel c s ((codes "[1/4] origin registered: " ++ s.origin) ∷ [])
        (register_user env c (record { email = s.user_email; external_id = [] }) w)

  unfoldable pub connect : ℕ → Settings → Result Client → World → Option Report
  unfolding welcome
  connect fuel s (err e) w = some (fatal [] (codes "new client: ") e)
  connect fuel s (ok c) w =
      welcome fuel c s
        (register_origin env c (record { origin = s.origin; display_name = codes "Quickstart" }) w)

  -- After the variables: a missing one stops the program.
  unfoldable pub begin : ℕ → Result Settings → World → Option Report
  unfolding connect
  begin fuel (err e) w = some (fatal [] [] e)
  begin fuel (ok s) w = connect fuel s (new env s.base_url s.app_id s.secret []) w

  -- The context of five minutes has no number here: whether it has ended is `env.context_error`.
  unfoldable pub main : ℕ → (Text → Text) → World → Option Report
  unfolding begin
  main fuel getenv w = begin fuel (settings getenv) w
