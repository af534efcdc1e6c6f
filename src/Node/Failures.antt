-- ===== src/Node/Failures.antt =====
-- sdk-node/src/errors.ts: the subclasses of `ApiError`, and `apiErrorFromResponse`.
use ztxbas.Base.{◌++◌, ℕ, ◌≡◌, ◌↔◌, Option, none, some, ◌==◌, if◌then◌else◌, arith}
use ztxbas.Base.Text.{Text, codes, is_empty, same, same_iff}
use ztxbas.Base.Int.{pos}
use ztxbas.Go.Strings.Decimal.{format_int}
use ztxbas.Errors.{
  Sentinel, unauthorized, not_found, conflict, unregistered_origin, challenge_denied,
  challenge_expired, challenge_timeout, unregistered_code, new_api_error, unwrap, link,
}

pub data Subclass : Type 0 where
  api_error unauthorized_error not_found_error conflict_error unregistered_origin_error : Subclass

-- An `ApiError` with its class.
pub record Thrown : Type 0 where
  pub class : Subclass
  pub status_code : ℕ
  pub code : Text
  pub message : Text

-- The constructor of `ApiError`, with the number's text in place of an empty code.
abbrev pub constructed : Subclass → ℕ → Text → Text → Thrown
constructed class status code message =
    let name = if is_empty code then codes "HTTP_" ++ format_int (pos status) else code in
    record {
      class = class;
      status_code = status;
      code = code;
      message = codes "ztxbas: " ++ name ++ codes ": " ++ message;
    }

-- The constructors of the subclasses set the status, and the last one the code too.
abbrev pub made : Subclass → ℕ → Text → Text → Thrown
made api_error status code message = constructed api_error status code message
made unauthorized_error status code message = constructed unauthorized_error 401 code message
made not_found_error status code message = constructed not_found_error 404 code message
made conflict_error status code message = constructed conflict_error 409 code message
made unregistered_origin_error status code message =
    constructed unregistered_origin_error 403 unregistered_code message

unfoldable pub api_error_from_response : ℕ → Text → Text → Thrown
api_error_from_response status code message =
    if same code unregistered_code
    then made unregistered_origin_error status code message
    else if status == 401
    then made unauthorized_error status code message
    else if status == 404
    then made not_found_error status code message
    else if status == 409
    then made conflict_error status code message
    else made api_error status code message

-- The class for what `Unwrap` of the Go SDK's error gives.
abbrev pub class_for : Option Sentinel → Subclass
class_for none = api_error
class_for (some unauthorized) = unauthorized_error
class_for (some not_found) = not_found_error
class_for (some conflict) = conflict_error
class_for (some unregistered_origin) = unregistered_origin_error
class_for (some challenge_denied) = api_error
class_for (some challenge_expired) = api_error
class_for (some challenge_timeout) = api_error

-- The error that the Node SDK throws for a response and the `APIError` of the Go SDK agree in
-- kind, status and code exactly if the code is not UNREGISTERED_ORIGIN or the status is 403.
pub api_error_from_response_iff :
    (status : ℕ) (code message : Text)
    → let node = api_error_from_response status code message in
      let go = new_api_error status code message in
      ((node.class ≡ class_for (unwrap go))
        × (node.status_code ≡ go.status_code)
        × (node.code ≡ go.code))
      ↔ ((code ≡ unregistered_code) → status ≡ 403)
unfolding api_error_from_response new_api_error unwrap link
api_error_from_response_iff status code message = ground (arith, same_iff code unregistered_code)
