-- ===== src/Tests/Runs.antt =====
-- What the code computes in the sample run.
use ztxbas.Base.{◌≡◌, refl, true, [], ◌∷◌, some, none}
use ztxbas.Base.Int.{is_zero, add64}
use ztxbas.Base.Text.{codes, same, is_empty}
use ztxbas.Go.Strings.{split, trim_right}
use ztxbas.Go.Encoding.{hex_encode, base64_decode}
use ztxbas.Go.Json.{set_struct, parse_int}
use ztxbas.Go.Http.{read_all}
use ztxbas.Errors.{Result, ok, err}
use ztxbas.Runtime.{after, rand_read}
use ztxbas.Jwks.{set_jwk_set, jwk_to_ecdsa, get_key, put_key, is_usable, collect, keys_of}
use ztxbas.Verifier.{is_fresh, parse_set, parse_jwks, fetch_jwks, key_for_kid}
use ztxbas.Token.{
  Claims, read_header, read_claims, header_kid, check_signature, read_signed, check_claims, verify,
}
use ztxbas.Tests.Sample.{
  answer, refusing_env, warm_client, sample_client, base_point, base_jwk, sample_keys, sample_env,
  sample_verifier, start, sample_token, sample_claims,
}
use ztxbas.Go.Url.{escapes_in_path, escape, escaped_path, unescape, path_escape}
use ztxbas.Client.{
  envelope_fields, new_request, prepare, receive, send, sign_and_send, dispatch, do_request,
  decode_err, new, with_user_agent,
}
use ztxbas.Errors.{unregistered_origin, api, new_api_error, is, Err}
use ztxbas.Sign.{new_nonce}
use ztxbas.Verifier.{second}
use ztxbas.Login.{verify_with, verify_jwt, own_verifier, Live}
use ztxbas.Challenges.{poll_challenge, poll, settle, get_challenge_status, set_status, blank_status}

pub jwk_decoded : jwk_to_ecdsa base_jwk ≡ ok base_point
unfolding jwk_to_ecdsa base64_decode
jwk_decoded = refl

pub keys_fetched : (fetch_jwks sample_env sample_verifier start).0 ≡ ok sample_keys
unfolding fetch_jwks parse_jwks parse_set set_jwk_set keys_of collect put_key is_usable jwk_to_ecdsa
    base64_decode same read_all
keys_fetched = refl

-- A token is verified with an empty cache.
pub token_verified : (verify sample_env sample_token (sample_verifier, start)).0 ≡ ok sample_claims
unfolding verify split key_for_kid fetch_jwks parse_jwks parse_set set_jwk_set keys_of collect
    get_key put_key is_usable jwk_to_ecdsa base64_decode same read_all read_header read_claims
    header_kid check_signature read_signed check_claims is_empty parse_int is_zero add64
token_verified = refl

-- The challenge is approved at the first round, and its token is verified with the cached key.
abbrev pub polled : Result Claims × Live
polled = (
  ok sample_claims,
  (verify_jwt sample_env sample_token (
    warm_client,
    (get_challenge_status sample_env warm_client (codes "c1") (after (after start))).1,
  )).1,
)

pub challenge_polled :
    poll_challenge sample_env second 1 (codes "c1") (warm_client, start) ≡ some polled
unfolding poll_challenge poll settle get_challenge_status set_status do_request dispatch prepare
    sign_and_send send receive new_request escaped_path escape path_escape unescape new_nonce
    rand_read read_all verify_jwt verify_with own_verifier escapes_in_path verify split key_for_kid
    get_key base64_decode same read_header read_claims header_kid check_signature read_signed
    check_claims is_empty parse_int is_zero add64
challenge_polled = refl

-- A refusal with a code.
abbrev pub refusal : Err
refusal = api (decode_err refusing_env (answer 403 (codes "e")))

pub refused :
    (do_request refusing_env sample_client
      (codes "GET")
      (codes "/v1/users")
      none
      blank_status
      (some set_status)
      start).0
    ≡ err refusal
unfolding do_request dispatch prepare sign_and_send send receive new_request escaped_path escape
    unescape new_nonce rand_read same is_empty escapes_in_path
refused = refl

pub refusal_is : is refusal unregistered_origin ≡ true
unfolding decode_err is new_api_error read_all same set_struct envelope_fields
refusal_is = refl

pub client_made :
    new sample_env
      (codes "https://z")
      (codes "app")
      (codes "s3")
      (with_user_agent (codes "ua") ∷ [])
    ≡ ok sample_client
unfolding new with_user_agent is_empty trim_right
client_made = refl

pub nonce_made : (new_nonce sample_env start).0 ≡ ok (codes "00000000000000000000000000000000")
unfolding new_nonce rand_read hex_encode
nonce_made = refl

pub found_again : (key_for_kid sample_env (codes "k1") (sample_verifier, start)).0 ≡ ok base_point
unfolding key_for_kid fetch_jwks parse_jwks parse_set set_jwk_set keys_of collect get_key put_key
    is_usable jwk_to_ecdsa base64_decode same read_all
found_again = refl

pub header_none :
    read_header sample_env (codes "bg") ≡ ok (record { alg = codes "none"; typ = []; kid = [] })
unfolding read_header base64_decode same
header_none = refl

pub still_fresh :
    is_fresh
      (key_for_kid sample_env (codes "k1") (sample_verifier, start)).1.0.fetched_at
      (sample_env.now (key_for_kid sample_env (codes "k1") (sample_verifier, start)).1.1.step).mono
    ≡ true
unfolding key_for_kid fetch_jwks parse_jwks parse_set set_jwk_set keys_of collect get_key put_key
    is_usable jwk_to_ecdsa base64_decode same read_all
still_fresh = refl

pub k2_unknown : get_key (codes "k2") sample_keys ≡ none
unfolding get_key same
k2_unknown = refl

pub keys_made : keys_of sample_env (base_jwk ∷ []) ≡ ok sample_keys
unfolding keys_of collect put_key is_usable jwk_to_ecdsa base64_decode same
keys_made = refl

pub client_verified : (verify_jwt sample_env sample_token (warm_client, start)).0 ≡ ok sample_claims
unfolding verify_jwt verify_with own_verifier verify split key_for_kid get_key base64_decode same
    read_header read_claims header_kid check_signature read_signed check_claims is_empty parse_int
    is_zero add64
client_verified = refl
