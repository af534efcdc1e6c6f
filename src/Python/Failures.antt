-- ===== src/Python/Failures.antt =====
-- `api_error_from_response` of sdk-python/ztxbas/errors.py, which keeps the status and the code.
use ztxbas.Base.{ℕ, ◌++◌, ◌==◌, if◌then◌else◌}
use ztxbas.Base.Int.{pos}
use ztxbas.Base.Text.{Text, codes, is_empty, same}
use ztxbas.Go.Strings.Decimal.{format_int}
use ztxbas.Errors.{unregistered_code}
use ztxbas.Node.Failures.{
  Subclass, api_error, unauthorized_error, not_found_error, conflict_error,
  unregistered_origin_error,
}

-- An `ApiError` with its class, and the text that `Exception` was given.
pub record ApiError : Type 0 where
  pub class : Subclass
  pub status_code : ℕ
  pub code : Text
  pub message : Text
  pub text : Text

abbrev pub constructed : Subclass → ℕ → Text → Text → ApiError
constructed class status code message =
    let prefix = if is_empty code then codes "HTTP_" ++ format_int (pos status) else code in
    record {
      class = class;
      status_code = status;
      code = code;
      message = message;
      text = codes "ztxbas: " ++ (prefix ++ (codes ": " ++ message));
    }

unfoldable pub api_error_from_response : ℕ → Text → Text → ApiError
api_error_from_response status code message =
    if same code unregistered_code
    then constructed unregistered_origin_error status code message
    else if status == 401
    then constructed unauthorized_error status code message
    else if status == 404
    then constructed not_found_error status code message
    else if status == 409
    then constructed conflict_error status code message
    else constructed api_error status code message
