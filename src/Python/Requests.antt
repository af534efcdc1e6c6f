-- ===== src/Python/Requests.antt =====
-- The requests of sdk-python/: `sign_request` of ztxbas/sign.py, and what `_do` of ztxbas/client.py hands to
-- its fetcher.
use ztxbas.Base.{ℕ, ◌/◌, [], ◌∷◌, ◌++◌, Option, none, some}
use ztxbas.Base.Int.{pos}
use ztxbas.Base.Text.{Text, Bytes, codes}
use ztxbas.Go.Strings.Decimal.{format_int}
use ztxbas.Go.Encoding.{hex_encode}
use ztxbas.Go.Url.{Url}
use ztxbas.Go.Http.{Request}
use ztxbas.Node.Requests.{Members, as_headers}

-- The text up to the last bar, encoded, and the body.
abbrev pub canonical_bytes : Text → Text → Text → Text → Bytes → Bytes
canonical_bytes method path ts nonce body =
    (method ++ (codes "|" ++ (path ++ (codes "|" ++ (ts ++ (codes "|" ++ (nonce ++ codes "|")))))))
    ++ body

-- `hmac.new(…, hashlib.sha256)` is an argument, and the clock counts nanoseconds.
unfoldable pub sign_request :
    (Text → Bytes → Bytes) → Text → Text → Bytes → Text → Text → ℕ → Text → Members
sign_request hmac method path body app_id secret now_ns nonce =
    let ts = format_int (pos (now_ns / 1000000000)) in
    (codes "X-Application-ID", app_id)
    ∷ (codes "X-Timestamp", ts)
    ∷ (codes "X-Nonce", nonce)
    ∷ (codes "X-Signature", hex_encode (hmac secret (canonical_bytes method path ts nonce body)))
    ∷ []

-- `json.dumps(body)`, or no body.
abbrev pub body_bytes : Option Bytes → Bytes
body_bytes none = []
body_bytes (some b) = b

abbrev pub content_type : Option Bytes → Members
content_type none = []
content_type (some b) = (codes "Content-Type", codes "application/json") ∷ []

-- The arguments of the fetcher, less the URL and the timeout.
pub record Call : Type 0 where
  pub method : Text
  pub headers : Members
  pub body : Bytes

unfoldable pub prepared :
    (Text → Bytes → Bytes) → Text → Text → Option Bytes → Text → Text → ℕ → Text → Text → Call
unfolding sign_request
prepared hmac method path body app_id secret now_ns nonce user_agent = record {
  method = method;
  headers =
      (codes "Accept", codes "application/json")
      ∷ (codes "User-Agent", user_agent)
      ∷ (sign_request hmac method path (body_bytes body) app_id secret now_ns nonce
          ++ content_type body);
  body = body_bytes body;
}

-- The request as it arrives, for a URL.
abbrev pub received : Url → Call → Request
received u c = record {
  method = c.method;
  url = u;
  headers = as_headers c.headers [];
  body = c.body;
}
