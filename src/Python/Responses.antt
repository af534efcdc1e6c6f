-- ===== src/Python/Responses.antt =====
-- `_do` of sdk-python/ztxbas/client.py from the response on.
use ztxbas.Base.{
  ℕ, Bool, true, false, not, [], ◌∷◌, ◌++◌, Option, none, some, ◌==◌, leb, if◌then◌else◌,
}
use ztxbas.Base.Int.{pos}
use ztxbas.Base.Result.{Outcome, done, fault}
use ztxbas.Base.Text.{Text, Bytes, codes, is_empty}
use ztxbas.Go.Strings.Decimal.{format_int}
use ztxbas.Go.Json.{Json, null, bool, num, str, arr, obj, nil, item, end, member}
use ztxbas.Objects.{get_member}
use ztxbas.Python.Failures.{ApiError, api_error_from_response}

-- `json.loads`, whose fault is a `ValueError`; `decode` with replacement; `str` of a value that is no text,
-- and whether a number is not zero.
pub record Codec : Type 0 where
  pub loads : Bytes → Outcome Json
  pub decode : Bytes → Text
  pub to_str : Json → Text
  pub is_nonzero : Text → Bool

-- What `_do` returns or raises.
pub data Received : Type 0 where
  nothing : Received
  value : Json → Received
  api : ApiError → Received
  ztxbas_error : Text → Received
  attribute_error : Received

-- The truth of a value, by that of a number.
abbrev pub is_true : (Text → Bool) → Json → Bool
is_true is_nonzero null = false
is_true is_nonzero (bool b) = b
is_true is_nonzero (num t) = is_nonzero t
is_true is_nonzero (str t) = not (is_empty t)
is_true is_nonzero (arr nil) = false
is_true is_nonzero (arr (item j js)) = true
is_true is_nonzero (obj end) = false
is_true is_nonzero (obj (member k j ms)) = true

module _ (codec : Codec) where
  -- `str(env.get(name, "") or "")`
  abbrev pub text_member : Option Json → Text
  text_member none = []
  text_member (some (str t)) = t
  text_member (some j) = if is_true codec.is_nonzero j then codec.to_str j else []

  -- `message or f"HTTP {status}"`
  abbrev pub or_status : Text → ℕ → Text
  or_status [] status = codes "HTTP " ++ format_int (pos status)
  or_status (c ∷ t) status = c ∷ t

  abbrev pub failure : ℕ → Bytes → Outcome Json → Received
  failure status raw (fault m) =
      api (api_error_from_response status [] (or_status (codec.decode raw) status))
  failure status raw (done (obj ms)) = api (
      api_error_from_response status (text_member (get_member (codes "error") ms))
        (or_status (text_member (get_member (codes "message") ms)) status))
  failure status raw (done j) = attribute_error

  abbrev pub success : Bytes → Outcome Json → Received
  success [] o = nothing
  success (b ∷ raw) (fault m) = ztxbas_error (codes "decode response: " ++ m)
  success (b ∷ raw) (done j) = value j

  unfoldable pub receive : ℕ → Bytes → Received
  unfolding get_member
  receive status raw =
      if status == 204
      then nothing
      else if leb 400 status
      then failure status raw (codec.loads raw)
      else success raw (codec.loads raw)
