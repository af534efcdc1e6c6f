-- ===== src/Tests/Sdks.antt =====
-- The SDKs side by side.
use ztxbas.Base.{ℕ, ◌≢◌, false, ◌/◌, ◌≤◌, ◌≡◌, ◌↔◌, refl, [], ◌++◌, none, some, arith}
use ztxbas.Base.Int.{pos, ◌+ℤ◌}
use ztxbas.Base.Text.{Text, codes, same, is_empty}
use ztxbas.Errors.{ok}
use ztxbas.Go.Strings.Decimal.{format_int}
use ztxbas.Go.Url.{Url, unescape, escaped_path, escape, escapes_in_path}
use ztxbas.Token as Go
use ztxbas.Node.Claims as Node
use ztxbas.Node.Claims.{Payload}
use ztxbas.Python.Claims as Python
use ztxbas.Node.Requests as NodeRequests
use ztxbas.Python.Requests as PythonRequests
use ztxbas.Across.Claims.{claims_of, check_claims_agree}
use ztxbas.Across.Signing.{Verdict}
use ztxbas.Across.Signing.Sdks.{sdks_accepted}
use ztxbas.Base.Result.{done, fault}
use ztxbas.Go.Http.{read_all}
use ztxbas.Runtime.{Env}
use ztxbas.Errors.{new_api_error, unwrap, unregistered_code}
use ztxbas.Node.Failures.{api_error_from_response, class_for}
use ztxbas.Node.Responses.{Reply}
use ztxbas.Python.Failures as PythonFailures
use ztxbas.Python.Responses.{Codec}
use ztxbas.Across.Errors.{api_errors_agree}
use ztxbas.Across.Responses.{
  Report, report_document, node_envelope, Reported, error_responses-Reported,
}
use ztxbas.Tests.Sample.{answer, sample_env, sample_url, sample_claims}
use ztxbas.Tests.Tampered.{weak_env, weak-GivesBytes}

-- A payload with the expiry 0.
abbrev no_expiry : Payload
no_expiry = record { iss = none; iat = some (pos 5); exp = some (pos 0) }

check_claims_agree_example :
    let go = Go.check_claims sample_env [] (pos 1000) (claims_of sample_claims no_expiry) in
    ((Node.check_claims [] (pos 1000) no_expiry ≡ none)
      ↔ (go ≡ ok (claims_of sample_claims no_expiry)))
    × ((Python.check_claims [] (pos 1000) no_expiry ≡ none) ↔ (
        (go ≡ ok (claims_of sample_claims no_expiry)) × (some (pos 0) ≡ some (pos 0) → 1000 ≤ 30)))
unfolding ◌+ℤ◌
check_claims_agree_example =
    check_claims_agree sample_env [] 1000 sample_claims no_expiry (omega arith, omega arith)
      (omega arith, omega arith)

-- The base URL has the path /api.
abbrev based_url : Url
based_url = record sample_url { path = codes "/api/v1/users" }

based_path : unescape (escaped_path based_url) ≡ some (codes "/api" ++ codes "/v1/users")
unfolding escaped_path escape unescape escapes_in_path same is_empty
based_path = refl

sdks_accepted_example :
    let node = NodeRequests.received based_url (
      NodeRequests.prepared weak_env.hmac_sha256
        (codes "GET")
        (codes "/v1/users")
        none
        (codes "app")
        (codes "s3")
        1000000
        (codes "0f")
        (codes "ua")) in
    let python = PythonRequests.received based_url (
      PythonRequests.prepared weak_env.hmac_sha256
        (codes "GET")
        (codes "/v1/users")
        none
        (codes "app")
        (codes "s3")
        1000000000000
        (codes "0f")
        (codes "ua")) in
    Verdict weak_env
      (codes "s3")
      node
      (codes "/api")
      (codes "/v1/users")
      (format_int (pos (1000000 / 1000)))
      (codes "0f")
    × Verdict weak_env
        (codes "s3")
        python
        (codes "/api")
        (codes "/v1/users")
        (format_int (pos (1000000000000 / 1000000000)))
        (codes "0f")
sdks_accepted_example =
    sdks_accepted weak_env (codes "s3") based_url (codes "/api") (codes "GET") (codes "/v1/users")
      (codes "app") (codes "0f") (codes "ua") none 1000000 1000000000000 weak-GivesBytes based_path

-- A refusal of an origin.
abbrev refusal : Report
refusal = record { code = some (codes "UNREGISTERED_ORIGIN"); message = codes "unknown origin" }

abbrev reporting_env : Env
reporting_env = record sample_env { parse_json = λ b. done (report_document refusal) }

abbrev reporting_codec : Codec
reporting_codec = record {
  loads = λ b. done (report_document refusal);
  decode = λ b. b;
  to_str = λ j. [];
  is_nonzero = λ t. false;
}

abbrev refused : Reply Text
refused = record {
  status = 403;
  status_text = codes "Forbidden";
  envelope = done (node_envelope refusal);
  value = fault (codes "read");
}

error_responses-Reported_example :
    Reported reporting_env reporting_codec (done refusal) (answer 403 (codes "{}")) refused
unfolding read_all
error_responses-Reported_example =
    error_responses-Reported reporting_env reporting_codec (done refusal) (answer 403 (codes "{}"))
      refused
      (record {
        is_error = omega arith;
        whole = refl;
        go_reads = refl;
        python_reads = refl;
        node_reads = refl;
        node_status = refl;
      })
      (λ e. cc)

api_errors_agree_example :
    let go = new_api_error 403 (codes "UNREGISTERED_ORIGIN") (codes "m") in
    let node = api_error_from_response 403 (codes "UNREGISTERED_ORIGIN") (codes "m") in
    let python =
      PythonFailures.api_error_from_response 403 (codes "UNREGISTERED_ORIGIN") (codes "m") in
    (((node.class ≡ class_for (unwrap go))
        × (node.status_code ≡ go.status_code)
        × (node.code ≡ go.code))
      ↔ ((codes "UNREGISTERED_ORIGIN" ≡ unregistered_code) → ◌≡◌ {A = ℕ} 403 403))
    × (((python.class ≡ class_for (unwrap go))
          × (python.status_code ≡ go.status_code)
          × (python.code ≡ go.code))
        ↔ ((codes "UNREGISTERED_ORIGIN" ≡ unregistered_code)
            → ◌≢◌ {A = ℕ} 403 401 × ◌≢◌ {A = ℕ} 403 404 × ◌≢◌ {A = ℕ} 403 409))
api_errors_agree_example = api_errors_agree 403 (codes "UNREGISTERED_ORIGIN") (codes "m")
