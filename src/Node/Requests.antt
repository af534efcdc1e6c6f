-- ===== src/Node/Requests.antt =====
-- The requests of sdk-node/: `signRequest` of src/sign.ts, and what `do` of src/client.ts hands to `fetch`.
use ztxbas.Base.{ℕ, ◌/◌, List, [], ◌∷◌, ◌++◌, Option, none, some}
use ztxbas.Base.Int.{pos}
use ztxbas.Base.Text.{Text, Bytes, codes}
use ztxbas.Go.Strings.Decimal.{format_int}
use ztxbas.Go.Encoding.{hex_encode}
use ztxbas.Go.Url.{Url}
use ztxbas.Go.Http.{Headers, Request, header_set}

-- The template of the canonical form, from left to right.
abbrev pub canonical_text : Text → Text → Text → Text → Text → Text
canonical_text method path ts nonce body =
    method
    ++ (codes "|" ++ (path ++ (codes "|" ++ (ts ++ (codes "|" ++ (nonce ++ (codes "|" ++ body)))))))

-- The members of an object of headers, in order.
abbrev pub Members : Type 0
Members = List (Text × Text)

-- `createHmac('sha256', secret).update(canonical)` is an argument.
unfoldable pub signed_headers :
    (Text → Bytes → Bytes) → Text → Text → Text → Text → Text → ℕ → Text → Members
signed_headers hmac method path body app_id secret now_ms nonce =
    let ts = format_int (pos (now_ms / 1000)) in
    (codes "X-Application-ID", app_id)
    ∷ (codes "X-Timestamp", ts)
    ∷ (codes "X-Nonce", nonce)
    ∷ (codes "X-Signature", hex_encode (hmac secret (canonical_text method path ts nonce body)))
    ∷ []

abbrev pub body_text : Option Text → Text
body_text none = []
body_text (some b) = b

abbrev pub content_type : Option Text → Members
content_type none = []
content_type (some b) = (codes "Content-Type", codes "application/json") ∷ []

abbrev pub agent : Text → Members
agent [] = []
agent (c ∷ s) = (codes "User-Agent", c ∷ s) ∷ []

-- The second argument of `fetch`, less its signal. The body is the text of JSON, if there is one, and
-- no agent is an empty one.
pub record Init : Type 0 where
  pub method : Text
  pub headers : Members
  pub body : Option Text

unfoldable pub prepared :
    (Text → Bytes → Bytes) → Text → Text → Option Text → Text → Text → ℕ → Text → Text → Init
unfolding signed_headers
prepared hmac method path body app_id secret now_ms nonce user_agent = record {
  method = method;
  headers =
      (codes "Accept", codes "application/json")
      ∷ (signed_headers hmac method path (body_text body) app_id secret now_ms nonce
          ++ (content_type body ++ agent user_agent));
  body = body;
}

-- The headers as a server has them.
abbrev pub as_headers : Members → Headers → Headers
as_headers [] h = h
as_headers ((k, v) ∷ m) h = as_headers m (header_set k v h)

-- The request as it arrives, for a URL.
abbrev pub received : Url → Init → Request
received u i = record {
  method = i.method;
  url = u;
  headers = as_headers i.headers [];
  body = body_text i.body;
}
