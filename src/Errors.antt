-- ===== src/Errors.antt =====
-- sdk-go/errors.go: the sentinel errors, `APIError`, and the errors that the SDK makes with
-- `errors.New` and `fmt.Errorf`. `errors.Is` is the search through what an error wraps.
pub mod Classify
pub mod Steps
pub mod Clean
use ztxbas.Base.{
  ℕ, ◌≡◌, ◌⊎◌, inl, inr, refl, Bool, true, false, [], ◌∷◌, ◌++◌, Option, none, some, ◌==◌,
  if◌then◌else◌,
}
use ztxbas.Base.Int.{pos}
use ztxbas.Base.Result.{Outcome, done, fault}
use ztxbas.Base.Text.{Text, codes, same, is_empty}
use ztxbas.Go.Strings.Decimal.{format_int}

pub data Sentinel : Type 0 where
  unauthorized not_found conflict unregistered_origin : Sentinel
  challenge_denied challenge_expired challenge_timeout : Sentinel

pub record ApiError : Type 0 where
  pub status_code : ℕ
  pub code : Text
  pub message : Text
  pub inner : Option Sentinel

-- `wrap prefix e` is `fmt.Errorf("prefix%w", e)`. A `foreign` error comes from a library: its chain
-- holds none of this package's sentinels.
pub data Err : Type 0 where
  sentinel : Sentinel → Err
  api : ApiError → Err
  wrap : Text → Err → Err
  plain : Text → Err
  foreign : Text → Err

pub data Result {ℓ} (A : Type ℓ) : Type ℓ where
  ok : A → Result A
  err : Err → Result A

pub Result-cases {ℓ} :
    {A : Type ℓ} (r : Result A) → ((a : A) × (r ≡ ok a)) ⊎ ((e : Err) × (r ≡ err e))
Result-cases (ok a) = inl (a, refl)
Result-cases (err e) = inr (e, refl)

-- A library's fault behind a prefix.
abbrev pub or_wrap {ℓ} : {A : Type ℓ} → Text → Outcome A → Result A
or_wrap prefix (done a) = ok a
or_wrap prefix (fault m) = err (wrap prefix (foreign m))

abbrev pub annotate {ℓ} : {A : Type ℓ} → Text → Result A → Result A
annotate prefix (ok a) = ok a
annotate prefix (err e) = err (wrap prefix e)

abbrev pub with_result {ℓ κ} : {A : Type ℓ} {B : Type κ} → Result A → (A → Result B) → Result B
with_result (ok a) f = f a
with_result (err e) f = err e

abbrev pub unregistered_code : Text
unregistered_code = codes "UNREGISTERED_ORIGIN"

-- The `switch` of `newAPIError`: the first case that fits.
unfoldable pub link : ℕ → Text → Option Sentinel
link status code =
    if status == 401
    then some unauthorized
    else if status == 404
    then some not_found
    else if status == 409
    then some conflict
    else if same code unregistered_code
    then some unregistered_origin
    else none

unfoldable pub new_api_error : ℕ → Text → Text → ApiError
unfolding link
new_api_error status code msg = record {
  status_code = status;
  code = code;
  message = msg;
  inner = link status code;
}

-- `Unwrap`.
unfoldable pub unwrap : ApiError → Option Sentinel
unwrap e = e.inner

pub same_sentinel : Sentinel → Sentinel → Bool
same_sentinel unauthorized unauthorized = true
same_sentinel not_found not_found = true
same_sentinel conflict conflict = true
same_sentinel unregistered_origin unregistered_origin = true
same_sentinel challenge_denied challenge_denied = true
same_sentinel challenge_expired challenge_expired = true
same_sentinel challenge_timeout challenge_timeout = true
same_sentinel _ _ = false

pub unwraps_to : Option Sentinel → Sentinel → Bool
unfolding same_sentinel
unwraps_to none t = false
unwraps_to (some s) t = same_sentinel s t

-- `errors.Is(e, target)` at a sentinel of this package.
unfoldable pub is : Err → Sentinel → Bool
unfolding unwraps_to unwrap
is (sentinel s) t = same_sentinel s t
is (api e) t = unwraps_to (unwrap e) t
is (wrap prefix e) t = is e t
is (plain msg) t = false
is (foreign msg) t = false

unfoldable pub sentinel_text : Sentinel → Text
sentinel_text unauthorized = codes "ztxbas: unauthorized (HMAC signature rejected)"
sentinel_text not_found = codes "ztxbas: resource not found"
sentinel_text conflict = codes "ztxbas: resource already exists"
sentinel_text unregistered_origin = codes "ztxbas: origin not registered for this application"
sentinel_text challenge_denied = codes "ztxbas: challenge denied by user"
sentinel_text challenge_expired = codes "ztxbas: challenge expired"
sentinel_text challenge_timeout =
    codes "ztxbas: polling timed out before challenge reached a terminal state"

-- `(*APIError).Error`, with `http.StatusText` as an argument.
unfoldable pub api_error_text : (ℕ → Text) → ApiError → Text
api_error_text status_text e =
    let status = format_int (pos e.status_code) ++ codes " " ++ status_text e.status_code in
    if is_empty e.code
    then codes "ztxbas: HTTP " ++ status ++ codes ": " ++ e.message
    else codes "ztxbas: " ++ e.code ++ codes " [" ++ status ++ codes "]: " ++ e.message

unfoldable pub error_text : (ℕ → Text) → Err → Text
unfolding sentinel_text api_error_text
error_text status_text (sentinel s) = sentinel_text s
error_text status_text (api e) = api_error_text status_text e
error_text status_text (wrap prefix e) = prefix ++ error_text status_text e
error_text status_text (plain msg) = msg
error_text status_text (foreign msg) = msg
