-- ===== src/Python/Token.antt =====
-- `verify` of sdk-python/ztxbas/verify.py, from the token to the claims.
pub mod Steps
use ztxbas.Base.{
  ℕ, ◌+◌, ◌/◌, Bool, true, false, ◌&&◌, not, List, [], ◌∷◌, ◌++◌, Option, none, some, ◌==◌, ltb,
  if◌then◌else◌, length, take, drop,
}
use ztxbas.Base.Int.{ℤ, pos}
use ztxbas.Base.Result.{Outcome, done, fault}
use ztxbas.Base.Text.{Text, Bytes, codes, is_empty}
use ztxbas.Go.Strings.{split}
use ztxbas.Go.Strings.Decimal.{format_int}
use ztxbas.Go.Json.{Json, null, bool, num, str, arr, obj, Members}
use ztxbas.Runtime.{PublicKey}
use ztxbas.Jwks.{set_bytes}
use ztxbas.Objects.{get_member, is_text}
use ztxbas.Python.KeySet.{
  Exception, jwt_verify_error, attribute_error, type_error, unicode_encode_error, Exit, returns,
  raises, b64url_decode,
}
use ztxbas.Python.Claims.{is_expired, is_early}
use ztxbas.Python.Lookup.{
  Host, Session, Answer, found, not_present, raised, look, finish, key_for_kid,
}
use ztxbas.Python.Responses.{is_true}

-- The clock, the exchange and the decoders; `key.verify` for a pair (r, s) of a DER form, on a message;
-- and Python's numbers: a literal as an integer, or else as a float in the two comparisons with `now` and
-- the skew, whether it is not zero; and `str`.
pub record Kit : Type 0 where
  pub host : Host
  pub verify_pair : PublicKey → Bytes → ℕ → ℕ → Bool
  pub int_of : Text → Option ℤ
  pub is_float_expired : ℤ → Text → Bool
  pub is_float_early : ℤ → Text → Bool
  pub is_nonzero : Text → Bool
  pub to_str : Option Json → Text

-- The members as they are, whatever their types.
pub record Claims : Type 0 where
  pub iss : Option Json
  pub sub : Option Json
  pub aud : Option Json
  pub iat : Option Json
  pub exp : Option Json
  pub email : Option Json
  pub origin : Option Json
  pub challenge_id : Option Json

unfoldable pub from_dict : Members → Claims
unfolding get_member
from_dict d = record {
  iss = get_member (codes "iss") d;
  sub = get_member (codes "sub") d;
  aud = get_member (codes "aud") d;
  iat = get_member (codes "iat") d;
  exp = get_member (codes "exp") d;
  email = get_member (codes "email") d;
  origin = get_member (codes "origin") d;
  challenge_id = get_member (codes "challenge_id") d;
}

abbrev pub then_with {ℓ κ} : {A : Type ℓ} {B : Type κ} → Exit A → (A → Exit B) → Exit B
then_with (returns a) f = f a
then_with (raises e) f = raises e

-- `raise JwtVerifyError(…)`
abbrev pub refused {ℓ} : {A : Type ℓ} → Text → Exit A
refused m = raises (jwt_verify_error m)

abbrev pub or_refused {ℓ} : {A : Type ℓ} → Text → Outcome A → Exit A
or_refused prefix (done a) = returns a
or_refused prefix (fault m) = refused (prefix ++ m)

unfoldable pub is_ascii : Text → Bool
is_ascii [] = true
is_ascii (c ∷ s) = ltb c 128 && is_ascii s

abbrev pub absent : Answer × Session → Answer × Session
absent (found key, s) = (not_present, s)
absent (a, s) = (a, s)

abbrev pub key_or : Text → Answer → Exit PublicKey
key_or m (found key) = returns key
key_or m not_present = refused m
key_or m (raised e) = raises e

abbrev pub of_64 : Bytes → Exit Bytes
of_64 raw =
    if length raw == 64
    then returns raw
    else refused (codes "ES256 signature must be 64 bytes, got " ++ format_int (pos (length raw)))

module _ (kit : Kit) where
  -- `json.loads(_b64url_decode(part))`, with its `ValueError`s.
  unfoldable pub read_part : Text → Text → Exit Json
  unfolding b64url_decode
  read_part prefix part =
      then_with (or_refused prefix (b64url_decode kit.host.reader part))
        (λ b. or_refused prefix (kit.host.reader.loads b))

  abbrev pub kid_of : Option Json → Exit Json
  kid_of none = refused (codes "JWT header missing kid")
  kid_of (some j) =
      if is_true kit.is_nonzero j then returns j else refused (codes "JWT header missing kid")

  unfoldable pub header_kid : Json → Exit Json
  unfolding get_member
  header_kid (obj ms) =
      if is_text (codes "ES256") (get_member (codes "alg") ms)
      then kid_of (get_member (codes "kid") ms)
      else refused (
          codes "unsupported JWT alg "
          ++ kit.host.reader.repr (get_member (codes "alg") ms)
          ++ codes " (want ES256)")
  header_kid j = raises (attribute_error (codes "no attribute 'get'"))

  -- The ids of the cache are texts; a list and an object have no hash.
  unfoldable pub look_up : Json → Session → Answer × Session
  unfolding key_for_kid look
  look_up (str kid) s = key_for_kid kit.host kid s
  look_up (arr js) s = (raised (type_error (codes "unhashable type: 'list'")), s)
  look_up (obj ms) s = (raised (type_error (codes "unhashable type: 'dict'")), s)
  look_up j s = absent (finish kit.host [] (look kit.host none s))

  abbrev pub raw_signature : Text → Exit Bytes
  raw_signature sig =
      then_with (or_refused (codes "decode JWT signature: ") (b64url_decode kit.host.reader sig))
        of_64

  -- Only the signature's exception is caught.
  unfoldable pub check_signature : PublicKey → Text → Text → Bytes → Exit (Unit {0})
  unfolding is_ascii
  check_signature key header payload raw =
      if is_ascii (header ++ b'.' ∷ payload)
      then if kit.verify_pair key (header ++ b'.' ∷ payload) (set_bytes (take 32 raw))
          (set_bytes (drop 32 raw))
        then returns tt
        else refused (codes "JWT signature invalid")
      else raises (unicode_encode_error (codes "'ascii' codec can't encode"))

  unfoldable pub read_signed : PublicKey → Text → Text → Text → Exit Json
  unfolding check_signature read_part
  read_signed key header payload sig = then_with (raw_signature sig) (λ raw.
      then_with (check_signature key header payload raw)
        (λ _. read_part (codes "decode JWT payload: ") payload))

  abbrev pub number_expired : ℤ → Text → Option ℤ → Bool
  number_expired now t none = kit.is_float_expired now t
  number_expired now t (some z) = is_expired now (some z)

  abbrev pub number_early : ℤ → Text → Option ℤ → Bool
  number_early now t none = kit.is_float_early now t
  number_early now t (some z) = is_early now (some z)

  -- `exp is not None and now > exp + _CLOCK_SKEW`, where a truth value is 0 or 1.
  abbrev pub expired : ℤ → Option Json → Exit Bool
  expired now none = returns false
  expired now (some null) = returns false
  expired now (some (num t)) = returns (number_expired now t (kit.int_of t))
  expired now (some (bool b)) = returns (is_expired now (some (pos (if b then 1 else 0))))
  expired now (some _) = raises (type_error (codes "unsupported operand"))

  abbrev pub early : ℤ → Option Json → Exit Bool
  early now none = returns false
  early now (some null) = returns false
  early now (some (num t)) = returns (number_early now t (kit.int_of t))
  early now (some (bool b)) = returns (is_early now (some (pos (if b then 1 else 0))))
  early now (some _) = raises (type_error (codes "unsupported operand"))

  -- The checks at a time, and the dataclass.
  unfoldable pub checked : Text → ℤ → Json → Exit Claims
  unfolding from_dict
  checked expected now (obj ms) = then_with (expired now (get_member (codes "exp") ms)) (λ is_late.
      if is_late
      then refused (
          codes "JWT expired at "
          ++ (kit.to_str (get_member (codes "exp") ms)
              ++ (codes " (now " ++ (format_int now ++ codes ")"))))
      else then_with (early now (get_member (codes "iat") ms)) (λ too_early.
        if too_early
        then refused (
            codes "JWT iat in the future ("
            ++ (kit.to_str (get_member (codes "iat") ms)
                ++ (codes ", now " ++ (format_int now ++ codes ")"))))
        else if not (is_empty expected) && not (is_text expected (get_member (codes "iss") ms))
        then refused (
            codes "JWT iss "
            ++ (kit.host.reader.repr (get_member (codes "iss") ms)
                ++ (codes " does not match expected "
                    ++ kit.host.reader.repr (some (str expected)))))
        else returns (from_dict ms)))
  checked expected now j = raises (attribute_error (codes "no attribute 'get'"))

  module _ (expected : Text) where
    -- `int(time.time())`
    unfoldable pub check_now : Exit Json → Session → Exit Claims × Session
    unfolding checked
    check_now (raises e) s = (raises e, s)
    check_now (returns j) s = (
      checked expected (pos (kit.host.clock s.effects / 1000000000)) j,
      record s { effects = s.effects + 1 },
    )

    unfoldable pub with_key : Text → Text → Text → Exit PublicKey → Session → Exit Claims × Session
    unfolding check_now read_signed
    with_key header payload sig (raises e) s = (raises e, s)
    with_key header payload sig (returns key) s = check_now (read_signed key header payload sig) s

    unfoldable pub with_kid : Text → Text → Text → Exit Json → Session → Exit Claims × Session
    unfolding with_key look_up
    with_kid header payload sig (raises e) s = (raises e, s)
    with_kid header payload sig (returns kid) s =
        let (a, t) = look_up kid s in
        with_key header payload sig
          (key_or
            (codes "JWT kid " ++ (kit.host.reader.repr (some kid) ++ codes " not present in JWKS"))
            a)
          t

    unfoldable pub verify_parts : List Text → Session → Exit Claims × Session
    unfolding with_kid header_kid read_part
    verify_parts (header ∷ payload ∷ sig ∷ []) s =
        with_kid header payload sig
          (then_with (read_part (codes "decode JWT header: ") header) header_kid) s
    verify_parts parts s = (
      refused (codes "malformed JWT: expected 3 parts, got " ++ format_int (pos (length parts))),
      s,
    )

    unfoldable pub verify : Text → Session → Exit Claims × Session
    unfolding verify_parts
    verify token s = verify_parts (split token b'.') s
