-- ===== src/Client.antt =====
-- sdk-go/client.go: the client, its construction, the authenticated request `do`, and the decoding
-- of error responses.
pub mod Paths
pub mod Requests
pub mod Outcomes
pub mod Success
pub mod Construct
use mathlib.Core.List.{foldl}
use ztxbas.Base.{
  ℕ, ◌+◌, ◌^◌, Bool, true, false, ◌||◌, List, [], ◌∷◌, ◌++◌, Option, none, some, ◌==◌, leb,
  if◌then◌else◌, take, length,
}
use ztxbas.Base.Result.{Outcome, done, fault}
use ztxbas.Base.Text.{Text, Bytes, codes, same, is_empty}
use ztxbas.Go.Strings.{trim_right, trim_space}
use ztxbas.Go.Url.{Url, unescape, escaped_path, escape, escapes_in_path, rooted}
use ztxbas.Go.Json.{Json, Setter, set_text, set_struct}
use ztxbas.Go.Http.{HttpClient, Request, Response, Headers, header_set, read_all}
use ztxbas.Errors.{
  Err, Result, ok, err, plain, wrap, foreign, api, ApiError, new_api_error, with_result, or_wrap,
  annotate,
}
use ztxbas.Runtime.{Env, Exec, World, time_now, http_do}
use ztxbas.Sign.{sign_request, new_nonce}
use ztxbas.Verifier.{Verifier, default_http_client}

pub record Client : Type 0 where
  pub base_url : Url
  pub app_id : Text
  pub secret : Text
  pub hc : HttpClient
  pub user_agent : Text
  pub verifier : Option Verifier

-- `Option` of the source.
abbrev pub ClientOption : Type 0
ClientOption = Client → Client

unfoldable pub with_http_client : HttpClient → ClientOption
with_http_client hc c = record c { hc = hc }

unfoldable pub with_user_agent : Text → ClientOption
with_user_agent ua c = record c { user_agent = ua }

abbrev pub is_slash : ℕ → Bool
is_slash c = c == b'/'

-- `AppID` and `BaseURL`. A URL is a value here, so that the copy is the value.
unfoldable pub app_id : Client → Text
app_id c = c.app_id

unfoldable pub base_url : Client → Url
base_url c = c.base_url

-- The client of a parsed base URL, before the options.
abbrev pub fresh_client : Url → Text → Text → Client
fresh_client u id secret = record {
  base_url = record u { path = trim_right is_slash u.path };
  app_id = id;
  secret = secret;
  hc = default_http_client;
  user_agent = codes "ztxbas-go/1.0";
  verifier = none;
}

abbrev pub configure : List ClientOption → Client → Client
configure opts c = foldl (λ d o. o d) c opts

abbrev pub with_host : Url → Result Url
with_host u =
    if is_empty u.scheme || is_empty u.host
    then err (plain (codes "ztxbas: baseURL must include scheme and host"))
    else ok u

-- The struct that an error response is decoded into.
pub record Envelope : Type 0 where
  pub error : Text
  pub message : Text

abbrev pub blank_envelope : Envelope
blank_envelope = record { error = []; message = [] }

unfoldable pub envelope_fields : List (Text × Setter Envelope)
unfolding set_text
envelope_fields =
    (codes "error", λ j e. let (t, fits) = set_text j e.error in (record e { error = t }, fits))
    ∷ (
      codes "message",
      λ j e. let (t, fits) = set_text j e.message in (record e { message = t }, fits),
    )
    ∷ []

-- The error of `json.Unmarshal` is dropped: what fits is kept, and a body that is no JSON document
-- leaves the struct as it is.
abbrev pub envelope_of : Outcome Json → Envelope
envelope_of (fault m) = blank_envelope
envelope_of (done j) = (set_struct envelope_fields j blank_envelope).0

-- `http.NewRequestWithContext` at the printed URL: the path that is printed is read again.
abbrev pub request_at : Text → Url → Text → Bytes → Option Text → Outcome Request
request_at method target wire body none = fault (codes "invalid URL escape")
request_at method target wire body (some p) = done (record {
  method = method;
  url = record target {
    path = p;
    raw_path = if same (escape escapes_in_path p) wire then [] else wire;
  };
  headers = [];
  body = body;
})

unfoldable pub new_request : Text → Url → Bytes → Outcome Request
new_request method target body =
    let wire = rooted (escaped_path target) in request_at method target wire body (unescape wire)

abbrev pub content : Option Bytes → Bytes
content none = []
content (some b) = b

abbrev pub typed : Option Bytes → Headers
typed none = []
typed (some b) = header_set (codes "Content-Type") (codes "application/json") []

-- The headers of every request, before the signature.
unfoldable pub common_headers : Option Bytes → Text → Headers
common_headers body user_agent =
    let accepting = header_set (codes "Accept") (codes "application/json") (typed body) in
    if is_empty user_agent then accepting else header_set (codes "User-Agent") user_agent accepting

-- Path and query of the request.
abbrev pub target : Url → Text → Url
target base path = record base { path = base.path ++ path; raw_query = [] }

abbrev pub decode_prefix : Text
decode_prefix = codes "ztxbas: decode response: "

abbrev pub fitted : {A : Type 0} → A × Bool → Result A
fitted (a, true) = ok a
fitted (a, false) = err (wrap decode_prefix (foreign (codes "json: cannot unmarshal")))

module _ (env : Env) where
  unfoldable pub new : Text → Text → Text → List ClientOption → Result Client
  new base_url app_id secret opts =
      if is_empty base_url
      then err (plain (codes "ztxbas: baseURL required"))
      else if is_empty app_id || is_empty secret
      then err (plain (codes "ztxbas: appID and secret required"))
      else with_result (or_wrap (codes "ztxbas: parse baseURL: ") (env.parse_url base_url)) (λ u.
        with_result (with_host u) (λ u'. ok (configure opts (fresh_client u' app_id secret))))

  -- The message: the server's, or else the body, or else the text of the status.
  unfoldable pub error_message : Envelope → Bytes → ℕ → Text
  error_message e body status =
      if is_empty e.message
      then if is_empty (trim_space body) then env.status_text status else trim_space body
      else e.message

  -- `decodeErr`, of at most 64 KiB of the body; an error of reading it is dropped too.
  unfoldable pub decode_err : Response → ApiError
  unfolding error_message
  decode_err resp =
      let body = (read_all (2 ^ 16) resp).0 in
      let e = envelope_of (env.parse_json body) in
      new_api_error resp.status e.error (error_message e body resp.status)

  abbrev pub body_bytes : Option Json → Result (Option Bytes)
  body_bytes none = ok none
  body_bytes (some j) =
      with_result (or_wrap (codes "ztxbas: marshal request: ") (env.render_json j))
        (λ b. ok (some b))

  -- `do` up to the headers.
  unfoldable pub prepare : Client → Text → Text → Option Json → Result Request
  prepare c method path req_body = with_result (body_bytes req_body) (λ b.
      with_result
        (or_wrap (codes "ztxbas: build request: ")
          (new_request method (target c.base_url path) (content b)))
        (λ r. ok (record r { headers = common_headers b c.user_agent })))

  -- `Decoder.Decode` of at most 1 MiB of the body into `out`.
  abbrev pub decode_body : {A : Type 0} → A → Option (Setter A) → Response → Result A
  decode_body out none resp = ok out
  decode_body out (some set) resp =
      let (body, broken) = read_all (2 ^ 20) resp in
      with_result (or_wrap decode_prefix (env.parse_first body broken)) (λ j. fitted (set j out))

  -- `do` from the response on. `out` is what `respBody` points to, and `set` how it is decoded;
  -- `none` is a nil `respBody`.
  unfoldable pub receive : {A : Type 0} → A → Option (Setter A) → Response → Result A
  receive out set resp =
      if resp.status == 204
      then ok out
      else if leb 400 resp.status
      then err (api (decode_err resp))
      else decode_body out set resp

  unfoldable pub send : {A : Type 0} → A → Option (Setter A) → Client → Request → Exec World A
  unfolding http_do
  send out set c req w =
      let (r, w') = http_do env c.hc req w in
      (with_result (annotate (codes "ztxbas: http: ") r) (receive out set), w')

  -- The clock is read after the nonce.
  unfoldable pub sign_and_send :
      {A : Type 0}
      → A
      → Option (Setter A)
      → Client
      → Request
      → Result Text × World
      → Result A × World
  unfolding send time_now
  sign_and_send out set c req (err e, w) = (err e, w)
  sign_and_send out set c req (ok nonce, w) =
      let (now, w') = time_now env w in
      send out set c (sign_request env req req.body c.app_id c.secret now nonce) w'

  unfoldable pub dispatch :
      {A : Type 0} → A → Option (Setter A) → Client → Result Request → Exec World A
  unfolding sign_and_send
  dispatch out set c (err e) w = (err e, w)
  dispatch out set c (ok req) w = sign_and_send out set c req (new_nonce env w)

  -- `(*Client).do`
  unfoldable pub do_request :
      {A : Type 0} → Client → Text → Text → Option Json → A → Option (Setter A) → Exec World A
  unfolding dispatch prepare
  do_request c method path req_body out set w =
      dispatch out set c (prepare c method path req_body) w
