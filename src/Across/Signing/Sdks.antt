-- ===== src/Across/Signing/Sdks.antt =====
-- The requests of the Node SDK and of the Python SDK at the server.
use mathlib.Core.List.{append_assoc}
use ztxbas.Base.{ℕ, ◌/◌, ◌≡◌, refl, [], ◌∷◌, ◌++◌, Option, none, some}
use ztxbas.Base.Int.{pos}
use ztxbas.Base.Text.{Text, Bytes, codes, same}
use ztxbas.Go.Strings.Decimal.{format_int}
use ztxbas.Go.Url.{Url, unescape, escaped_path}
use ztxbas.Go.Http.{header_set, canonical_key}
use ztxbas.Runtime.{Env}
use ztxbas.Sign.{canonical, signature}
use ztxbas.Sign.Tamper.{GivesBytes}
use ztxbas.Node.Requests.{Members, content_type, agent, signed_headers}
use ztxbas.Node.Requests as Node
use ztxbas.Python.Requests.{sign_request}
use ztxbas.Python.Requests as Python
use ztxbas.Across.Signing.{AreOther, Bears, four-Bears, Verdict, Bears-Verdict}

node_extra : (body : Option Text) (ua : Text) → AreOther (content_type body ++ agent ua)
unfolding same canonical_key
node_extra none [] = (tt, tt, tt, tt)
node_extra none (c ∷ s) = ((refl, tt), (refl, tt), (refl, tt), (refl, tt))
node_extra (some b) [] = ((refl, tt), (refl, tt), (refl, tt), (refl, tt))
node_extra (some b) (c ∷ s) =
    ((refl, (refl, tt)), (refl, (refl, tt)), (refl, (refl, tt)), (refl, (refl, tt)))

python_extra : (body : Option Bytes) → AreOther (Python.content_type body)
unfolding same canonical_key
python_extra none = (tt, tt, tt, tt)
python_extra (some b) = ((refl, tt), (refl, tt), (refl, tt), (refl, tt))

python_canonical :
    (method path ts nonce : Text) (body : Bytes)
    → Python.canonical_bytes method path ts nonce body ≡ canonical method path ts nonce body
unfolding canonical
python_canonical method path ts nonce body = simp append_assoc

module _ (env : Env) (secret : Text) (u : Url) (method path app_id nonce ua : Text) where
  node-Bears :
      (body : Option Text) (now_ms : ℕ)
      → Bears env secret
          (Node.received u
            (Node.prepared env.hmac_sha256 method path body app_id secret now_ms nonce ua))
          app_id
          (format_int (pos (now_ms / 1000)))
          nonce
          path
  unfolding Node.prepared signed_headers canonical signature
  node-Bears body now_ms =
      four-Bears env secret _ app_id (format_int (pos (now_ms / 1000))) nonce path
        (header_set (codes "Accept") (codes "application/json") []) (content_type body ++ agent ua)
        (node_extra body ua) refl

  python-Bears :
      (body : Option Bytes) (now_ns : ℕ)
      → Bears env secret
          (Python.received u
            (Python.prepared env.hmac_sha256 method path body app_id secret now_ns nonce ua))
          app_id
          (format_int (pos (now_ns / 1000000000)))
          nonce
          path
  unfolding Python.prepared sign_request canonical signature
  python-Bears body now_ns =
      four-Bears env secret _ app_id (format_int (pos (now_ns / 1000000000))) nonce path
        (header_set (codes "User-Agent") ua
          (header_set (codes "Accept") (codes "application/json") []))
        (Python.content_type body) (python_extra body)
        (rw
          (python_canonical method path (format_int (pos (now_ns / 1000000000))) nonce
            (Python.body_bytes body))
          refl)

-- A request of the Node SDK or of the Python SDK passes the server's check of the signature if
-- the base URL has no path; and if it passes although the base URL has one, then the canonical
-- forms with and without that path differ and have the same HMAC under the secret, where an HMAC
-- is a list of bytes and the path that the server decodes from the request line is that of the
-- base URL and that of the operation together.
pub sdks_accepted :
    (env : Env) (secret : Text) (u : Url) (base method path app_id nonce ua : Text)
    (body : Option Text) (now_ms now_ns : ℕ)
    → GivesBytes env
    → unescape (escaped_path u) ≡ some (base ++ path)
    → let node =
        Node.received u
          (Node.prepared env.hmac_sha256 method path body app_id secret now_ms nonce ua) in
      let python =
        Python.received u
          (Python.prepared env.hmac_sha256 method path body app_id secret now_ns nonce ua) in
      Verdict env secret node base path (format_int (pos (now_ms / 1000))) nonce
      × Verdict env secret python base path (format_int (pos (now_ns / 1000000000))) nonce
unfolding Node.prepared Python.prepared
sdks_accepted env secret u base method path app_id nonce ua body now_ms now_ns bytes at = (
  Bears-Verdict env secret _ app_id (format_int (pos (now_ms / 1000))) nonce base path bytes at
      (node-Bears env secret u method path app_id nonce ua body now_ms),
  Bears-Verdict env secret _ app_id (format_int (pos (now_ns / 1000000000))) nonce base path bytes
      at (python-Bears env secret u method path app_id nonce ua body now_ns),
)
