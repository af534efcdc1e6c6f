-- ===== src/Tests/Requests.antt =====
-- Signing, the client and the operations.
use ztxbas.Base.{
  List, ◌≢◌, ◌≡◌, ◌≤◌, ◌↔◌, refl, ap, arith, ℕ, zero, suc, subst, true, false, [], ◌∷◌, ◌++◌, some,
  none, All, length,
}
use ztxbas.Base.Int.{pos, ◌+ℤ◌, ◌≤ℤ◌}
use ztxbas.Base.Result.{done}
use ztxbas.Base.Text.{IsByte, codes, same, is_empty}
use ztxbas.Errors.{ok, api, is, new_api_error, conflict, unregistered_origin}
use ztxbas.Errors.Classify.{Reports, is-new_api_error}
use ztxbas.Go.Url.{escape, unescape, escaped_path, path_escape, escapes_in_segment, escapes_in_path}
use ztxbas.Go.Url.Laws.{unescape-escaped_path}
use ztxbas.Go.Encoding.{base64_decode}
use ztxbas.Go.Encoding.RoundTrip.{base64_encode, decode-encode}
use ztxbas.Go.Http.{Request, Response, read_all}
use ztxbas.Sign.{sign_request, new_nonce}
use ztxbas.Runtime.{rand_read}
use ztxbas.Sign.Canonical.{IsClear, FillsBuffer}
use ztxbas.Sign.Admitted.{verify_sig, admits, sign_request-admits}
use ztxbas.Client.Success.{Succeeds, do_request_iff}
use ztxbas.Client.{
  new, prepare, do_request, with_user_agent, dispatch, sign_and_send, send, receive, new_request,
}
use ztxbas.Client.Paths.{IsBase}
use ztxbas.Client.Requests.{OneCall}
use ztxbas.Client.Outcomes.{code_of, do_request_sentinel}
use ztxbas.Client.Construct.{IsNew, new_iff}
use ztxbas.Challenges.{blank_status, set_status, get_challenge_status}
use ztxbas.Runtime.{Env}
use ztxbas.Api.{challenge_status, path_of, run}
use ztxbas.Api.Calls.{run-OneCall}
use ztxbas.Api.Ids.{sent_id_iff}
use ztxbas.Tests.Sample.{zeros, refusing_env, sample_client, sample_env, start, sample_url}
use ztxbas.Tests.Runs.{refusal, refused, refusal_is}

abbrev sample_request : Request
sample_request = record {
  method = codes "GET";
  url = record sample_url { path = codes "/v1/a b" };
  headers = [];
  body = codes "x|y";
}

abbrev digest_env : Env
digest_env = record sample_env { hmac_sha256 = λ secret message. zeros 32 }

sign_request-admits_example :
    let r =
      sign_request digest_env sample_request sample_request.body
        (codes "app")
        (codes "s3")
        (digest_env.now 3)
        (codes "0f") in
    ((verify_sig digest_env (codes "s3") r ≡ true) ↔ ((codes "app" ≢ []) × (codes "0f" ≢ [])))
    × ((admits digest_env (codes "s3") (pos 1200) r ≡ true) ↔ (
        (codes "app" ≢ [])
        × (codes "0f" ≢ [])
        × (pos 1200 ≤ℤ pos 1000 +ℤ pos 300)
        × (pos 1000 ≤ℤ pos 1200 +ℤ pos 300)
        × (length sample_request.body ≤ 8192)))
sign_request-admits_example =
    sign_request-admits digest_env (codes "s3") sample_request (codes "app") (codes "0f")
      (digest_env.now 3) (pos 1200) (omega arith) (omega arith, omega arith)
      (λ secret message. refl)

clear : IsClear (codes "GET") (codes "/v1") (codes "0f") (pos 1000)
clear = record {
  method_clear = ground arith;
  path_clear = ground arith;
  nonce_clear = ground arith;
  in_range = (omega arith, omega arith);
}

zero_bytes : (n : ℕ) → (length (zeros n) ≡ n) × All IsByte (zeros n)
zero_bytes zero = (refl, tt)
zero_bytes (suc n) = let (size, bytes) = zero_bytes n in (ap suc size, (omega arith, bytes))

fills : FillsBuffer sample_env
fills k n b h =
    let e : zeros n ≡ b = cc in subst (λ s. (length s ≡ n) × All IsByte s) e (zero_bytes n)

sample-IsBase : IsBase sample_client.base_url
sample-IsBase = record { path_rooted = refl; raw_rooted = refl; path_bytes = tt }

run-OneCall_example :
    OneCall sample_env sample_client
      (codes "GET")
      (path_of (challenge_status (codes "c 1")))
      none
      start
      (run sample_env sample_client (challenge_status (codes "c 1")) start)
run-OneCall_example =
    run-OneCall sample_env sample_client (challenge_status (codes "c 1")) start sample-IsBase
      (omega arith)

abbrev first_of : List Request → Request
first_of [] = sample_request
first_of (r ∷ rs) = r

-- The request for the status of `c 1`, whose blank is escaped twice.
abbrev status_request : Request
status_request = first_of (run sample_env sample_client (challenge_status (codes "c 1")) start).sent

status_sent :
    (run sample_env sample_client (challenge_status (codes "c 1")) start).sent
    ≡ [] ++ status_request ∷ []
unfolding get_challenge_status set_status do_request dispatch prepare sign_and_send send receive
    new_request escaped_path escape path_escape unescape new_nonce rand_read read_all
    escapes_in_path same is_empty
status_sent = refl

sent_id_iff_example :
    (status_request.url.path ≡ [] ++ (codes "/v1/auth/status/" ++ codes "c 1"))
    ↔ All (λ b. escapes_in_segment b ≡ false) (codes "c 1")
sent_id_iff_example =
    sent_id_iff sample_env sample_client (challenge_status (codes "c 1")) start status_request tt
      sample-IsBase (omega arith) status_sent

do_request_iff_example :
    ((do_request sample_env sample_client
        (codes "GET")
        (codes "/v1/users")
        none
        blank_status
        (some set_status)
        start).0
      ≡ ok blank_status)
    ↔ ((r : Request) × (prepare sample_env sample_client (codes "GET") (codes "/v1/users") none
          ≡ ok r)
        × Succeeds sample_env blank_status (some set_status) sample_client r start blank_status)
do_request_iff_example =
    do_request_iff sample_env blank_status (some set_status) sample_client (codes "GET")
      (codes "/v1/users") none start blank_status

do_request_sentinel_example :
    (k : ℕ) × (r : Request) × (resp : Response) × (refusing_env.exchange k sample_client.hc r
      ≡ done resp)
    × (400 ≤ resp.status)
    × Reports resp.status (code_of refusing_env resp) unregistered_origin
do_request_sentinel_example =
    do_request_sentinel refusing_env blank_status (some set_status) sample_client (codes "GET")
      (codes "/v1/users") none start refusal unregistered_origin refused refusal_is

is-new_api_error_example :
    (is (api (new_api_error 409 [] (codes "taken"))) conflict ≡ true) ↔ Reports 409 [] conflict
is-new_api_error_example = is-new_api_error 409 [] (codes "taken") conflict

new_iff_example :
    (new sample_env
        (codes "https://z")
        (codes "app")
        (codes "s3")
        (with_user_agent (codes "ua") ∷ [])
      ≡ ok sample_client)
    ↔ IsNew sample_env
        (codes "https://z")
        (codes "app")
        (codes "s3")
        (with_user_agent (codes "ua") ∷ [])
        sample_client
new_iff_example =
    new_iff sample_env (codes "https://z") (codes "app") (codes "s3")
      (with_user_agent (codes "ua") ∷ []) sample_client

unescape-escaped_path_example :
    unescape (escaped_path sample_request.url) ≡ some sample_request.url.path
unescape-escaped_path_example = unescape-escaped_path sample_request.url (omega arith)

decode-encode_example : base64_decode (base64_encode (codes "ab?")) ≡ some (codes "ab?")
decode-encode_example = decode-encode (codes "ab?") (omega arith)
