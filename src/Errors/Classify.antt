-- ===== src/Errors/Classify.antt =====
-- What `errors.Is` finds in an `APIError`.
use ztxbas.Base.{ℕ, ◌≡◌, ◌≢◌, ◌↔◌, true, arith}
use ztxbas.Base.Text.{Text, same_iff}
use ztxbas.Errors.{
  Sentinel, unauthorized, not_found, conflict, unregistered_origin, challenge_denied, sentinel,
  same_sentinel, plain, foreign, challenge_expired, challenge_timeout, api, unregistered_code,
  new_api_error, is,
}

-- The condition under which a response is reported as a sentinel: by the status, or by the code of
-- the body where the status is none of the three. The challenge errors are never reported so.
abbrev pub Reports : ℕ → Text → Sentinel → Type 0
Reports status code unauthorized = status ≡ 401
Reports status code not_found = status ≡ 404
Reports status code conflict = status ≡ 409
Reports status code unregistered_origin =
    (code ≡ unregistered_code) × (status ≢ 401) × (status ≢ 404) × (status ≢ 409)
Reports status code challenge_denied = ⊥
Reports status code challenge_expired = ⊥
Reports status code challenge_timeout = ⊥

-- For every sentinel of the package, `errors.Is` of the `APIError` that `newAPIError` makes
-- answers true exactly if the status is 401, 404 or 409 for the first three, the code is
-- UNREGISTERED_ORIGIN and the status none of these for the fourth, and never for the challenge
-- errors.
pub is-new_api_error :
    (status : ℕ) (code msg : Text) (t : Sentinel)
    → (is (api (new_api_error status code msg)) t ≡ true) ↔ Reports status code t
unfolding is new_api_error
is-new_api_error status code msg unauthorized = ground (arith, same_iff code unregistered_code)
is-new_api_error status code msg not_found = ground (arith, same_iff code unregistered_code)
is-new_api_error status code msg conflict = ground (arith, same_iff code unregistered_code)
is-new_api_error status code msg unregistered_origin =
    ground (arith, same_iff code unregistered_code)
is-new_api_error status code msg t = ground (arith, same_iff code unregistered_code)

-- A sentinel error is found as itself only.
pub sentinel_found : (s t : Sentinel) → is (sentinel s) t ≡ true → s ≡ t
unfolding is same_sentinel
sentinel_found s t h = ground arith

pub foreign_not_found : (m : Text) (t : Sentinel) → is (foreign m) t ≡ true → ⊥
unfolding is
foreign_not_found m t h = cc

pub plain_not_found : (m : Text) (t : Sentinel) → is (plain m) t ≡ true → ⊥
unfolding is
plain_not_found m t h = cc
