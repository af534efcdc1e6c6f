-- ===== src/Node/KeySet.antt =====
-- `refresh` of sdk-node/src/verify.ts, from the response to the map.
use ztxbas.Base.{ℕ, Bool, true, false, ◌&&◌, [], ◌++◌, Option, none, some, leb, if◌then◌else◌}
use ztxbas.Base.Int.{pos}
use ztxbas.Base.Result.{Outcome, done, fault}
use ztxbas.Base.Text.{Text, codes}
use ztxbas.Go.Strings.Decimal.{format_int}
use ztxbas.Go.Json.{Json, null, str, arr, obj, Items, nil, item, Members}
use ztxbas.Runtime.{PublicKey}
use ztxbas.Jwks.{Keys, put_key}
use ztxbas.Objects.{get_member, is_text, Found, is_nothing}

-- `createPublicKey` of a JWK, with the message of what it throws, and `JSON.stringify` of a member.
pub record Crypto : Type 0 where
  pub create_public_key : Members → Outcome PublicKey
  pub stringify : Option Json → Text

-- What is thrown: the error of the SDK, or one of the language's.
pub data Reason : Type 0 where
  jwt_verify_error type_error : Text → Reason

-- What a refresh gives: a map, or what it throws.
pub data Fetched : Type 0 where
  usable : Keys → Fetched
  failed : Reason → Fetched

-- next.set(k.kid, ko)
abbrev pub set_entry : Option Json → PublicKey → Found → Found
set_entry (some (str s)) pk (keys, other) = (put_key s pk keys, other)
set_entry _ pk (keys, other) = (keys, true)

unfoldable pub is_p256 : Members → Bool
unfolding get_member
is_p256 ms =
    is_text (codes "EC") (get_member (codes "kty") ms)
    && is_text (codes "P-256") (get_member (codes "crv") ms)

-- The loop's end, or the map so far.
pub data Collected : Type 0 where
  collected : Found → Collected
  stopped : Reason → Collected

abbrev pub some_keys : Collected → Fetched
some_keys (stopped e) = failed e
some_keys (collected out) =
    if is_nothing out
    then failed (jwt_verify_error (codes "JWKS has no usable P-256 keys"))
    else usable out.0

module _ (crypto : Crypto) where
  abbrev pub bad_key : Members → Text → Reason
  bad_key ms m =
      jwt_verify_error (
        codes "decode key "
        ++ (crypto.stringify (get_member (codes "kid") ms) ++ (codes ": " ++ m)))

  -- The loop. A value that is no object has no `kty`, but `null` cannot be asked.
  unfoldable pub collect : Items → Found → Collected
  collect nil out = collected out
  collect (item null js) out = stopped (type_error (codes "Cannot read properties of null"))
  collect (item (obj ms) js) out = elim (is_p256 ms) [
    | false ↦ collect js out
    | true ↦ elim (crypto.create_public_key ms) [
      | fault m ↦ stopped (bad_key ms m)
      | done pk ↦ collect js (set_entry (get_member (codes "kid") ms) pk out)
    ]
  ]
  collect (item j js) out = collect js out

  abbrev pub of_keys : Option Json → Fetched
  of_keys (some (arr js)) = some_keys (collect js ([], false))
  of_keys _ = failed (jwt_verify_error (codes "JWKS missing keys array"))

  abbrev pub of_document : Outcome Json → Fetched
  of_document (fault m) = failed (jwt_verify_error (codes "parse JWKS: " ++ m))
  of_document (done null) = failed (type_error (codes "Cannot read properties of null"))
  of_document (done (obj ms)) = of_keys (get_member (codes "keys") ms)
  of_document (done j) = of_keys none

  -- What `fetch` gives: its error, or the status and what `resp.json()` gives.
  unfoldable pub refresh : Outcome (ℕ × Outcome Json) → Fetched
  unfolding get_member collect
  refresh (fault m) = failed (jwt_verify_error (codes "fetch JWKS: " ++ m))
  refresh (done (status, json)) =
      if leb 200 status && leb status 299
      then of_document json
      else failed (jwt_verify_error (codes "JWKS fetch returned " ++ format_int (pos status)))
