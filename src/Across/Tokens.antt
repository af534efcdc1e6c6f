-- ===== src/Across/Tokens.antt =====
-- A token as the three SDKs read it.
pub mod GoSide
pub mod PythonReading
pub mod PythonSide
pub mod NodeSide
pub mod Agreement
use ztxbas.Base.{ℕ, ◌+◌, ◌/◌, ◌≡◌, ◌≢◌, [], Option, none, some, All}
use ztxbas.Base.Int.{ℤ, pos}
use ztxbas.Base.Text.{Text, Bytes, codes, IsByte}
use ztxbas.Go.Encoding.{base64_decode}
use ztxbas.Go.Json.{Json, str, num, obj, end, member, parse_int}
use ztxbas.Runtime.{Env}
use ztxbas.Token.{Header, Claims}
use ztxbas.Token.Parts.{IsToken}
use ztxbas.Token.Signed.{IsSigned}
use ztxbas.Node.Claims.{Payload}
use ztxbas.Python.KeySet.{b64url_decode}
use ztxbas.Python.Lookup.{Answer, found}
use ztxbas.Base.Result.{done}
use ztxbas.Python.Token.{Kit}
use ztxbas.Python.Token.{Claims as Returned}
use ztxbas.Runtime.{PublicKey}
use ztxbas.Across.KeySets.{IsBase64, if_done}
use ztxbas.Node.Token.{Tools}
use ztxbas.Node.Coalesce as Node
use ztxbas.Node.Der.Agreement.{ReadsDer}

-- The two documents of a token.
abbrev pub header_document : Header → Json
header_document h = obj (
    member (codes "alg") (str h.alg)
      (member (codes "typ") (str h.typ) (member (codes "kid") (str h.kid) end)))

-- With the literals of the two times.
abbrev pub claims_document : Claims → Text → Text → Json
claims_document c iat exp = obj (
    member (codes "iss") (str c.issuer) (
      member (codes "sub") (str c.subject) (
        member (codes "aud") (str c.audience) (
          member (codes "iat") (num iat) (
            member (codes "exp") (num exp) (
              member (codes "email") (str c.email) (
                member (codes "origin") (str c.origin)
                  (member (codes "challenge_id") (str c.challenge_id) end))))))))

-- The claims as the Python SDK returns them.
abbrev pub python_claims : Claims → Text → Text → Returned
python_claims c iat exp = record {
  iss = some (str c.issuer);
  sub = some (str c.subject);
  aud = some (str c.audience);
  iat = some (num iat);
  exp = some (num exp);
  email = some (str c.email);
  origin = some (str c.origin);
  challenge_id = some (str c.challenge_id);
}

abbrev pub payload_of : Claims → Payload
payload_of c = record { iss = some c.issuer; iat = some c.issued_at; exp = some c.expires_at }

-- The token's parts are of the URL-safe alphabet, and the first two hold these documents, which both
-- JSON libraries read, with two integers for the times.
pub record Holds (env : Env) (kit : Kit) (token header payload sig : Text) (h : Header) (c : Claims)
    (iat exp : Text) : Type 0 where
  pub parts : IsToken token header payload sig
  pub header_letters : IsBase64 header
  pub payload_letters : IsBase64 payload
  pub sig_letters : IsBase64 sig
  pub header_bytes : Bytes
  pub payload_bytes : Bytes
  pub header_base64 : base64_decode header ≡ some header_bytes
  pub payload_base64 : base64_decode payload ≡ some payload_bytes
  pub go_header : env.parse_json header_bytes ≡ done (header_document h)
  pub python_header : kit.host.reader.loads header_bytes ≡ done (header_document h)
  pub go_payload : env.parse_json payload_bytes ≡ done (claims_document c iat exp)
  pub python_payload : kit.host.reader.loads payload_bytes ≡ done (claims_document c iat exp)
  pub go_iat : parse_int iat ≡ some c.issued_at
  pub go_exp : parse_int exp ≡ some c.expires_at
  pub python_iat : kit.int_of iat ≡ some c.issued_at
  pub python_exp : kit.int_of exp ≡ some c.expires_at

-- Python's decoder takes padded base64, and its library verifies what Go's does, by SHA-256.
pub record IsAlike (env : Env) (kit : Kit) : Type 0 where
  pub base64 : (t : Text) → IsBase64 t → if_done (b64url_decode kit.host.reader t) ≡ base64_decode t
  pub pairs :
      (key : PublicKey) (message : Bytes) (r s : ℕ)
      → kit.verify_pair key message r s ≡ env.ecdsa_verify key (env.sha256 message) r s

abbrev pub if_found : Answer → Option PublicKey
if_found (found key) = some key
if_found a = none

-- The header names ES256 and a key, which signed the first two parts.
pub record IsVouched (env : Env) (h : Header) (header payload sig : Text) (key : Option PublicKey)
    : Type 0 where
  pub is_es256 : h.alg ≡ codes "ES256"
  pub has_kid : h.kid ≢ []
  pub signer : PublicKey
  pub is_found : key ≡ some signer
  pub signed : IsSigned env signer header payload sig

-- The same documents, and a signature in base64, in the Node SDK.
pub record HoldsInNode (tools : Tools) (header payload sig : Text) (h : Header) (c : Claims)
    (iat exp : Text) : Type 0 where
  pub header_bytes : Bytes
  pub payload_bytes : Bytes
  pub sig_bytes : Bytes
  pub header_base64 : base64_decode header ≡ some header_bytes
  pub payload_base64 : base64_decode payload ≡ some payload_bytes
  pub sig_base64 : base64_decode sig ≡ some sig_bytes
  pub all_bytes : All IsByte sig_bytes
  pub header_parsed : tools.parse header_bytes ≡ done (header_document h)
  pub payload_parsed : tools.parse payload_bytes ≡ done (claims_document c iat exp)
  pub node_iat : tools.int_of iat ≡ some c.issued_at
  pub node_exp : tools.int_of exp ≡ some c.expires_at

-- Node's `Buffer` decodes what Go's decoder takes to the same bytes, and its `crypto` verifies the pair in a
-- strict DER form.
pub record IsAlikeNode (env : Env) (tools : Tools) : Type 0 where
  pub base64 : (t : Text) (b : Bytes) → base64_decode t ≡ some b → tools.from_base64url t ≡ b
  pub ders : ReadsDer env tools.crypto_verify

abbrev pub if_settled : Node.Answer → Option PublicKey
if_settled (Node.found key) = some key
if_settled (Node.thrown e) = none
