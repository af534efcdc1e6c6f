-- ===== src/Across/Errors.antt =====
-- The error that each SDK makes of a status and a code.
use ztxbas.Base.{ℕ, ◌≡◌, ◌≢◌, ◌↔◌, arith}
use ztxbas.Base.Text.{Text, same_iff}
use ztxbas.Errors.{unregistered_code, new_api_error, unwrap, link}
use ztxbas.Node.Failures as Node
use ztxbas.Node.Failures.{class_for, api_error_from_response_iff}
use ztxbas.Python.Failures as Python

-- The error that the Node SDK throws for a status and a code agrees with the `APIError` of the Go
-- SDK in kind, status and code exactly if the code is not UNREGISTERED_ORIGIN or the status is
-- 403; and that of the Python SDK does exactly if the code is not UNREGISTERED_ORIGIN or the
-- status is none of 401, 404 and 409.
pub api_errors_agree :
    (status : ℕ) (code message : Text)
    → let go = new_api_error status code message in
      let node = Node.api_error_from_response status code message in
      let python = Python.api_error_from_response status code message in
      (((node.class ≡ class_for (unwrap go))
          × (node.status_code ≡ go.status_code)
          × (node.code ≡ go.code))
        ↔ ((code ≡ unregistered_code) → status ≡ 403))
      × (((python.class ≡ class_for (unwrap go))
            × (python.status_code ≡ go.status_code)
            × (python.code ≡ go.code))
          ↔ ((code ≡ unregistered_code) → (status ≢ 401) × (status ≢ 404) × (status ≢ 409)))
unfolding Python.api_error_from_response new_api_error unwrap link
api_errors_agree status code message = (
  api_error_from_response_iff status code message,
  ground (arith, same_iff code unregistered_code),
)
