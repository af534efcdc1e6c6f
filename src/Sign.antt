-- ===== src/Sign.antt =====
-- sdk-go/sign.go: the canonical form of a request, its signature in four headers, and the nonce.
pub mod Canonical
pub mod Server
pub mod Admitted
pub mod Tamper
use ztxbas.Base.{ℕ, [], ◌∷◌, ◌++◌}
use ztxbas.Base.Text.{Text, Bytes, codes}
use ztxbas.Go.Strings.Decimal.{format_int}
use ztxbas.Go.Encoding.{hex_encode}
use ztxbas.Go.Http.{Request, header_set}
use ztxbas.Errors.{Err, Result, ok, err, wrap}
use ztxbas.Runtime.{Env, Instant, Exec, World, rand_read}

abbrev pub hdr_application_id : Text
hdr_application_id = codes "X-Application-ID"

abbrev pub hdr_timestamp : Text
hdr_timestamp = codes "X-Timestamp"

abbrev pub hdr_nonce : Text
hdr_nonce = codes "X-Nonce"

abbrev pub hdr_signature : Text
hdr_signature = codes "X-Signature"

abbrev pub nonce_bytes : ℕ
nonce_bytes = 16

-- `fmt.Sprintf("%s|%s|%s|%s|%s", method, path, ts, nonce, body)`
unfoldable pub canonical : Text → Text → Text → Text → Bytes → Bytes
canonical method path ts nonce body =
    method ++ b'|' ∷ (path ++ b'|' ∷ (ts ++ b'|' ∷ (nonce ++ b'|' ∷ body)))

-- The error of the random source is passed on behind a prefix.
abbrev pub nonce_text : Result Bytes → Result Text
nonce_text (ok b) = ok (hex_encode b)
nonce_text (err e) = err (wrap (codes "ztxbas: read random nonce: ") e)

module _ (env : Env) where
  -- `hex.EncodeToString(mac.Sum(nil))`
  unfoldable pub signature : Text → Bytes → Text
  signature secret message = hex_encode (env.hmac_sha256 secret message)

  unfoldable pub sign_request : Request → Bytes → Text → Text → Instant → Text → Request
  unfolding signature
  sign_request req body app_id secret now nonce =
      let ts = format_int now.unix in
      let sig = signature secret (canonical req.method req.url.path ts nonce body) in
      record req {
        headers = header_set hdr_signature sig (
            header_set hdr_nonce nonce
              (header_set hdr_timestamp ts (header_set hdr_application_id app_id req.headers)));
      }

  unfoldable pub new_nonce : Exec World Text
  new_nonce w = let (r, w') = rand_read env nonce_bytes w in (nonce_text r, w')
