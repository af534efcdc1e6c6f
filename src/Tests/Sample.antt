-- ===== src/Tests/Sample.antt =====
-- A concrete run of the SDK: a clock that ticks once per effect, a server with one key and one
-- approved challenge, and stand-ins for the library's formats and cryptography.
use ztxbas.Base.{ℕ, zero, suc, ◌*◌, true, [], ◌∷◌, none, some, if◌then◌else◌}
use ztxbas.Base.Int.{pos}
use ztxbas.Base.Result.{Outcome, done}
use ztxbas.Base.Text.{Text, Bytes, codes, same}
use ztxbas.Go.Url.{Url}
use ztxbas.Go.Json.{Json, num, str, arr, obj, nil, item, end, member}
use ztxbas.Go.Http.{Response}
use ztxbas.Runtime.{Env, World, PublicKey, finished}
use ztxbas.Jwks.{Jwk, Keys}
use ztxbas.Verifier.{Verifier, default_http_client, second}
use ztxbas.Token.{Claims}
use ztxbas.Client.{Client}

-- The base point of P-256.
abbrev pub base_point : PublicKey
base_point = record {
  x = 0x6b17d1f2e12c4247f8bce6e563a440f277037d812deb33a0f4a13945d898c296;
  y = 0x4fe342e2fe1a7f9b8ee7eb4a7c0f9e162bce33576b315ececbb6406837bf51f5;
}

abbrev pub base_jwk : Jwk
base_jwk = record {
  kty = codes "EC";
  crv = codes "P-256";
  alg = codes "ES256";
  usage = codes "sig";
  kid = codes "k1";
  x = codes "axfR8uEsQkf4vOblY6RA8ncDfYEt6zOg9KE5RdiYwpY";
  y = codes "T-NC4v4af5uO5-tKfA-eFivOM1drMV7Oy7ZAaDe_UfU";
}

abbrev pub jwks_document : Json
jwks_document = obj (
    member (codes "keys")
      (arr (
        item
          (obj (
            member (codes "kty") (str base_jwk.kty) (
              member (codes "crv") (str base_jwk.crv) (
                member (codes "kid") (str base_jwk.kid) (
                  member (codes "x") (str base_jwk.x) (member (codes "y") (str base_jwk.y) end))))))
          nil))
      end)

-- The three parts of the token are base64 of `h`, of `c`, and of 64 zero bytes.
abbrev pub header_part : Text
header_part = codes "aA"

abbrev pub claims_part : Text
claims_part = codes "Yw"

abbrev pub sig_part : Text
sig_part =
    codes "AAAAAAAAAAAAAAAAAAAAAAAAAAAAAAAAAAAAAAAAAAAAAAAAAAAAAAAAAAAAAAAAAAAAAAAAAAAAAAAAAAAAAA"

abbrev pub sample_token : Text
sample_token =
    codes
      "aA.Yw.AAAAAAAAAAAAAAAAAAAAAAAAAAAAAAAAAAAAAAAAAAAAAAAAAAAAAAAAAAAAAAAAAAAAAAAAAAAAAAAAAAAAAA"

-- The same with another header, base64 of `n`.
abbrev pub none_token : Text
none_token =
    codes
      "bg.Yw.AAAAAAAAAAAAAAAAAAAAAAAAAAAAAAAAAAAAAAAAAAAAAAAAAAAAAAAAAAAAAAAAAAAAAAAAAAAAAAAAAAAAAA"

abbrev pub sample_claims : Claims
sample_claims = record {
  issuer = codes "ztxbas";
  subject = codes "u1";
  audience = [];
  issued_at = pos 990;
  expires_at = pos 1100;
  email = codes "a@b";
  origin = [];
  challenge_id = codes "c1";
}

abbrev pub claims_document : Json
claims_document = obj (
    member (codes "iss") (str (codes "ztxbas")) (
      member (codes "sub") (str (codes "u1")) (
        member (codes "iat") (num (codes "990")) (
          member (codes "exp") (num (codes "1100")) (
            member (codes "email") (str (codes "a@b"))
              (member (codes "challenge_id") (str (codes "c1")) end))))))

abbrev pub es256_document : Json
es256_document =
    obj (member (codes "alg") (str (codes "ES256")) (member (codes "kid") (str (codes "k1")) end))

abbrev pub none_document : Json
none_document = obj (member (codes "alg") (str (codes "none")) end)

abbrev pub status_document : Json
status_document = obj (
    member (codes "status") (str (codes "approved")) (
      member (codes "jwt") (str sample_token)
        (member (codes "challenge_id") (str (codes "c1")) end)))

abbrev pub error_document : Json
error_document = obj (member (codes "error") (str (codes "UNREGISTERED_ORIGIN")) end)

abbrev pub documents : Bytes → Outcome Json
unfolding same
documents b =
    if same b (codes "h")
    then done es256_document
    else if same b (codes "n")
    then done none_document
    else if same b (codes "c")
    then done claims_document
    else if same b (codes "e")
    then done error_document
    else done jwks_document

abbrev pub sample_url : Url
sample_url = record {
  scheme = codes "https";
  userinfo = [];
  host = codes "z";
  path = [];
  raw_path = [];
  raw_query = [];
  fragment = [];
}

abbrev pub answer : ℕ → Bytes → Response
answer status body = record { status = status; body = body; broken = none }

abbrev pub zeros : ℕ → Bytes
zeros zero = []
zeros (suc n) = 0 ∷ zeros n

-- Every exchange is answered by the same response.
abbrev pub env_with : Response → Env
env_with resp = record {
  now = λ k. record { unix = pos 1000; mono = k * second };
  random = λ k n. done (zeros n);
  exchange = λ k hc r. done resp;
  select = λ k t. finished;
  context_error = λ k. none;
  parse_url = λ t. done sample_url;
  parse_json = documents;
  parse_first = λ b broken. done status_document;
  render_json = λ j. done (codes "{}");
  hmac_sha256 = λ key message. message;
  sha256 = λ b. b;
  ecdsa_verify = λ key digest r s. true;
  status_text = λ n. codes "Text";
  quote = λ t. t;
}

abbrev pub sample_env : Env
sample_env = env_with (answer 200 (codes "k"))

-- The server that refuses everything.
abbrev pub refusing_env : Env
refusing_env = env_with (answer 403 (codes "e"))

abbrev pub start : World
start = record { step = 0; sent = [] }

abbrev pub sample_keys : Keys
sample_keys = (codes "k1", base_point) ∷ []

abbrev pub sample_verifier : Verifier
sample_verifier = record {
  jwks_url = codes "https://z/.well-known/jwks.json";
  hc = default_http_client;
  keys = [];
  fetched_at = none;
  expected_iss = codes "ztxbas";
}

-- The verifier after its first fetch.
abbrev pub warm_verifier : Verifier
warm_verifier = record sample_verifier { keys = sample_keys; fetched_at = some 0 }

abbrev pub sample_client : Client
sample_client = record {
  base_url = sample_url;
  app_id = codes "app";
  secret = codes "s3";
  hc = default_http_client;
  user_agent = codes "ua";
  verifier = none;
}

abbrev pub warm_client : Client
warm_client = record sample_client { verifier = some warm_verifier }
