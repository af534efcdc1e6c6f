-- ===== src/Tests/Flows.antt =====
-- The poll and the quickstart.
use ztxbas.Base.{
  if◌then◌else◌, ◌+◌, ◌*◌, ◌≤◌, ◌⊎◌, ◌&&◌, leb, ltb, ℕ, ◌≤◌, ◌↔◌, true, ◌≡◌, refl, [], ◌∷◌, some,
  arith,
}
use ztxbas.Base.Int.{ℤ, is_zero, add64}
use ztxbas.Base.Text.{Text, codes, same, is_empty}
use ztxbas.Base.Result.{done}
use ztxbas.Go.Json.{obj, member, str, end}
use ztxbas.Challenges.Failures.{Told, poll_challenge_failed}
use ztxbas.Errors.{Result, ok, err, is, sentinel, challenge_denied}
use ztxbas.Go.Strings.{split, trim_right}
use ztxbas.Go.Strings.Decimal.{format_int}
use ztxbas.Go.Encoding.{base64_decode}
use ztxbas.Go.Json.{parse_int}
use ztxbas.Go.Http.{read_all}
use ztxbas.Go.Url.{escapes_in_path, escape, escaped_path, unescape, path_escape, url_string}
use ztxbas.Runtime.{tick, Env, after, rand_read, finished}
use ztxbas.Sign.{new_nonce}
use ztxbas.Jwks.{set_jwk_set, jwk_to_ecdsa, get_key, put_key, is_usable, collect, keys_of}
use ztxbas.Token.{
  Claims, read_header, read_claims, header_kid, check_signature, read_signed, check_claims, verify,
}
use ztxbas.Login.{Live, verify_jwt, verify_with, own_verifier}
use ztxbas.Origins.{register_origin, set_origin}
use ztxbas.Users.{register_user, set_user}
use ztxbas.Client.{
  Client, new_request, prepare, receive, send, sign_and_send, dispatch, do_request, new,
}
use ztxbas.Verifier.{
  second, new_verifier, with_verifier_http_client, parse_set, parse_jwks, fetch_jwks, key_for_kid,
}
use ztxbas.Challenges.{
  denied, start_timer, create_challenge, set_challenge, poll_challenge, poll, settle,
  get_challenge_status, set_status,
}
use ztxbas.Api.Polls.{Sends, poll_challenge-Sends}
use ztxbas.Challenges.Deadline.{KeepsTime, Passes, poll_challenge_returns}
use ztxbas.Challenges.Approval.{IsApproved, poll_challenge_sound}
use ztxbas.Challenges.Runs.{Polls, poll_challenge_iff}
use ztxbas.Tests.Runs.{polled, challenge_polled}
use ztxbas.Quickstart.{success_line, authenticated, Report, Settings, settings, required, main}
use ztxbas.Quickstart.Flow.{Challenged, main_sound}
use ztxbas.Quickstart.Returns.{Late, main_returns}
use ztxbas.Tests.Sample.{warm_client, sample_env, start, sample_claims}

abbrev variables : Text → Text
variables k = codes "x"

abbrev no_format : ℤ → Text
no_format z = []

-- A server that leaves the challenge pending, and a `select` that receives each tick when it is due, and goes on
-- with ticks for five seconds after the deadline.
abbrev pending_env : Env
pending_env = record sample_env {
  parse_first = λ b broken. done (
      obj (
        member (codes "status") (str (codes "pending"))
          (member (codes "challenge_id") (str (codes "c1")) end)));
  select = λ k t.
      if leb (t.started + (t.received + 1) * t.interval) (k * second)
        && ltb (k * second) (t.deadline + 5 * second)
      then tick
      else finished;
}

pending-KeepsTime : KeepsTime pending_env
pending-KeepsTime = record { runs = λ k. omega arith; spaced = λ k t h. ground arith }

main_returns_example :
    let run = main pending_env no_format (270 + 10) variables start in
    ((t : Report) × (run ≡ some t)) ⊎ Late pending_env no_format 270 10 run
main_returns_example =
    main_returns pending_env no_format 270 10 variables start pending-KeepsTime (omega arith)

abbrev sample_report : Report
sample_report = record {
  lines =
      codes "[1/4] origin registered: x"
      ∷ codes "[2/4] user enrolled: x (check email to complete device setup)"
      ∷ codes "[3/4] challenge c1 created (approve on your phone within 0s)"
      ∷ success_line
      ∷ codes "      email=a@b origin= challenge_id=c1 exp="
      ∷ [];
  ended = authenticated sample_claims;
}

main_run : main sample_env no_format 1 variables start ≡ some sample_report
unfolding main settings required new register_origin register_user create_challenge set_origin
    set_user set_challenge poll_challenge poll settle get_challenge_status set_status do_request
    dispatch prepare sign_and_send send receive new_request escaped_path escape path_escape unescape
    new_nonce rand_read read_all verify_jwt verify_with own_verifier new_verifier
    with_verifier_http_client escapes_in_path url_string verify split key_for_kid fetch_jwks
    parse_jwks parse_set set_jwk_set keys_of collect get_key put_key is_usable jwk_to_ecdsa
    base64_decode same read_header read_claims header_kid check_signature read_signed check_claims
    is_empty parse_int is_zero add64 trim_right format_int
main_run = refl

main_sound_example :
    (s : Settings) × (c : Client) × (settings variables ≡ ok s)
    × (new sample_env s.base_url s.app_id s.secret [] ≡ ok c)
    × Challenged sample_env no_format c s sample_claims
main_sound_example =
    main_sound sample_env no_format 1 variables start sample_claims sample_report main_run refl

-- The server that answers every status request with a denial.
abbrev denying_env : Env
denying_env = record sample_env {
  parse_first = λ b broken. done (obj (member (codes "status") (str (codes "denied")) end));
}

abbrev denial : Live
denial = (
  warm_client,
  (get_challenge_status denying_env warm_client (codes "c1") (after (after start))).1,
)

challenge_refused :
    poll_challenge denying_env second 1 (codes "c1") (warm_client, start)
    ≡ some (err (sentinel challenge_denied), denial)
unfolding poll_challenge poll settle get_challenge_status set_status do_request dispatch prepare
    sign_and_send send receive new_request escaped_path escape path_escape unescape new_nonce
    rand_read read_all escapes_in_path same is_empty
challenge_refused = refl

denied_found : is (sentinel challenge_denied) challenge_denied ≡ true
unfolding is
denied_found = refl

poll_challenge_failed_example : Told denying_env warm_client (codes "c1") denied
poll_challenge_failed_example =
    poll_challenge_failed denying_env warm_client (codes "c1") second 1 start
      (sentinel challenge_denied) challenge_denied denial challenge_refused denied_found

poll_challenge_returns_example :
    ((out : Result Claims × Live) × (poll_challenge pending_env second
          (270 + 10)
          (codes "c1")
          (warm_client, start)
        ≡ some out))
    ⊎ Passes pending_env warm_client
        (codes "c1")
        10
        (start_timer pending_env second start)
        (after (after start))
poll_challenge_returns_example =
    poll_challenge_returns pending_env second 270 10 (codes "c1") warm_client start
      pending-KeepsTime (omega arith)

poll_challenge_sound_example : IsApproved sample_env warm_client (codes "c1") sample_claims
poll_challenge_sound_example =
    poll_challenge_sound sample_env second 1 (codes "c1") warm_client start sample_claims polled.1
      challenge_polled

poll_challenge_iff_example :
    (poll_challenge sample_env second 1 (codes "c1") (warm_client, start) ≡ some polled) ↔ (
      (n : ℕ) × (n ≤ 1)
      × Polls sample_env warm_client
          (codes "c1")
          polled
          n
          (start_timer sample_env second start)
          (after (after start)))
poll_challenge_iff_example =
    poll_challenge_iff sample_env warm_client (codes "c1") second 1 start polled

poll_challenge-Sends_example : Sends sample_env warm_client (codes "c1") 2 start polled.1.1
poll_challenge-Sends_example =
    poll_challenge-Sends sample_env warm_client (codes "c1") second 1 start polled.0 polled.1
      (record { path_rooted = refl; raw_rooted = refl; path_bytes = tt }) (omega arith)
      challenge_polled
