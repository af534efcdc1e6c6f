-- ===== src/Python/KeySet.antt =====
-- The key set in sdk-python/ztxbas/verify.py: `_b64url_decode`, and `_refresh_locked` from the bytes of
-- `_http_get` to the map.
pub mod Loop
use ztxbas.Base.{
  ℕ, zero, suc, ◌-◌, ◌%◌, Bool, true, false, ◌&&◌, not, List, [], ◌∷◌, ◌++◌, Option, none, some,
  length, if◌then◌else◌,
}
use ztxbas.Base.Result.{Outcome, done, fault}
use ztxbas.Base.Text.{Text, Bytes, codes, same}
use ztxbas.Go.Json.{Json, null, bool, num, str, arr, obj, Items, nil, item, Members, end, member}
use ztxbas.Runtime.{PublicKey}
use ztxbas.Jwks.{Keys, put_key, set_bytes}
use ztxbas.Objects.{get_member, is_text, Found, is_nothing}

-- `json.loads`, `urlsafe_b64decode` and `public_key`, whose faults are `ValueError`s, and `repr`.
pub record Reader : Type 0 where
  pub loads : Bytes → Outcome Json
  pub urlsafe_b64decode : Text → Outcome Bytes
  pub public_key : ℕ → ℕ → Outcome PublicKey
  pub repr : Option Json → Text

-- What a method raises: the exception of the SDK, or one of the interpreter's.
pub data Exception : Type 0 where
  jwt_verify_error attribute_error type_error unicode_encode_error : Text → Exception

pub data Exit {ℓ} (A : Type ℓ) : Type ℓ where
  returns : A → Exit A
  raises : Exception → Exit A

abbrev pub if_returned {ℓ} : {A : Type ℓ} → Exit A → Option A
if_returned (returns a) = some a
if_returned (raises e) = none

abbrev pub equals_signs : ℕ → Text
equals_signs zero = []
equals_signs (suc n) = b'=' ∷ equals_signs n

-- out[k["kid"]] = pk
abbrev pub put_entry : Exception → Option Json → PublicKey → Found → Exit Found
put_entry missing none pk out = raises missing
put_entry missing (some (str s)) pk (keys, other) = returns (put_key s pk keys, other)
put_entry missing (some (arr js)) pk out = raises (type_error (codes "unhashable type: 'list'"))
put_entry missing (some (obj ms)) pk out = raises (type_error (codes "unhashable type: 'dict'"))
put_entry missing (some _) pk (keys, other) = returns (keys, true)

unfoldable pub is_usable : Members → Bool
unfolding get_member
is_usable ms =
    is_text (codes "EC") (get_member (codes "kty") ms)
    && is_text (codes "P-256") (get_member (codes "crv") ms)

abbrev pub some_keys : Exit Found → Exit Keys
some_keys (raises e) = raises e
some_keys (returns out) =
    if is_nothing out
    then raises (jwt_verify_error (codes "JWKS has no usable P-256 keys"))
    else returns out.0

module _ (reader : Reader) where
  unfoldable pub b64url_decode : Text → Outcome Bytes
  b64url_decode s = reader.urlsafe_b64decode (s ++ equals_signs ((4 - length s % 4) % 4))

  -- `except (KeyError, ValueError)`
  abbrev pub bad_key : Members → Text → Exception
  bad_key ms m =
      jwt_verify_error
        (codes "decode key " ++ (reader.repr (get_member (codes "kid") ms) ++ (codes ": " ++ m)))

  abbrev pub missing : Members → Text → Exception
  missing ms name = bad_key ms (codes "'" ++ (name ++ codes "'"))

  abbrev pub decoded : Members → Outcome Bytes → Exit ℕ
  decoded ms (done b) = returns (set_bytes b)
  decoded ms (fault m) = raises (bad_key ms m)

  -- `int.from_bytes(_b64url_decode(k[name]), "big")`
  abbrev pub coordinate : Members → Text → Option Json → Exit ℕ
  coordinate ms name none = raises (missing ms name)
  coordinate ms name (some (str s)) = decoded ms (b64url_decode s)
  coordinate ms name (some _) = raises (type_error (codes "not a string"))

  abbrev pub made : Members → Outcome PublicKey → Exit PublicKey
  made ms (done pk) = returns pk
  made ms (fault m) = raises (bad_key ms m)

  abbrev pub key_at : Members → Exit ℕ → Exit ℕ → Exit PublicKey
  key_at ms (raises e) y = raises e
  key_at ms (returns x) (raises e) = raises e
  key_at ms (returns x) (returns y) = made ms (reader.public_key x y)

  unfoldable pub key_of : Members → Exit PublicKey
  unfolding get_member
  key_of ms =
      key_at ms (coordinate ms (codes "x") (get_member (codes "x") ms))
        (coordinate ms (codes "y") (get_member (codes "y") ms))

  abbrev pub entered : Members → Exit PublicKey → Found → Exit Found
  entered ms (raises e) out = raises e
  entered ms (returns pk) out =
      put_entry (missing ms (codes "kid")) (get_member (codes "kid") ms) pk out

  -- The loop.
  unfoldable pub collect : Items → Found → Exit Found
  collect nil out = returns out
  collect (item (obj ms) js) out = elim (is_usable ms) [
    | false ↦ collect js out
    | true ↦ elim (entered ms (key_of ms) out) [
      | raises e ↦ raises e
      | returns out' ↦ collect js out'
    ]
  ]
  collect (item j js) out = raises (attribute_error (codes "no attribute 'get'"))

  abbrev pub of_list : Option Json → Exit Keys
  of_list (some (arr js)) = some_keys (collect js ([], false))
  of_list _ = raises (jwt_verify_error (codes "JWKS missing keys array"))

  abbrev pub of_document : Outcome Json → Exit Keys
  of_document (fault m) = raises (jwt_verify_error (codes "parse JWKS: " ++ m))
  of_document (done (obj ms)) = of_list (get_member (codes "keys") ms)
  of_document (done j) = raises (attribute_error (codes "no attribute 'get'"))

  unfoldable pub read_set : Exit Bytes → Exit Keys
  unfolding get_member collect
  read_set (raises e) = raises e
  read_set (returns raw) = of_document (reader.loads raw)
