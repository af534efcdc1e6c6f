-- ===== src/Verifier.antt =====
-- The `Verifier` of sdk-go/verify.go: its state, its options, and its cache of keys. One goroutine
-- is modelled: each method runs from start to end.

pub mod Fetch
pub mod Cache
pub mod Keeps
pub mod Refusals
pub mod Threads
use mathlib.Core.List.{foldl}
use ztxbas.Base.{
  ℕ, ◌+◌, ◌-◌, ◌*◌, ◌^◌, Bool, true, false, List, [], ◌∷◌, ◌++◌, Option, none, some, ltb, ◌==◌,
  if◌then◌else◌,
}
use ztxbas.Base.Int.{pos}
use ztxbas.Base.Result.{Outcome, done, fault}
use ztxbas.Base.Text.{Text, codes, is_empty}
use ztxbas.Go.Strings.Decimal.{format_int}
use ztxbas.Go.Url.{Url}
use ztxbas.Go.Json.{Json}
use ztxbas.Go.Http.{HttpClient, Request, Response, header_set, read_all}
use ztxbas.Errors.{with_result, or_wrap, annotate, Err, Result, ok, err, wrap, plain, foreign}
use ztxbas.Runtime.{Env, Exec, World, Instant, PublicKey, time_now, http_do}
use ztxbas.Jwks.{Jwk, Keys, get_key, set_jwk_set, keys_of}

abbrev pub second : ℕ
second = 1_000_000_000

-- 10 s, in nanoseconds.
abbrev pub default_timeout : ℕ
default_timeout = 10 * second

-- 5 minutes, in nanoseconds.
abbrev pub jwks_cache_ttl : ℕ
jwks_cache_ttl = 300 * second

abbrev pub default_http_client : HttpClient
default_http_client = record { timeout = default_timeout; transport = 0 }

-- A `keys` map that was never made is empty, and the zero `fetchedAt` is `none`.
pub record Verifier : Type 0 where
  pub jwks_url : Text
  pub hc : HttpClient
  pub keys : Keys
  pub fetched_at : Option ℕ
  pub expected_iss : Text

abbrev pub VerifierOption : Type 0
VerifierOption = Verifier → Verifier

unfoldable pub with_expected_issuer : Text → VerifierOption
with_expected_issuer iss v = record v { expected_iss = iss }

unfoldable pub with_verifier_http_client : HttpClient → VerifierOption
with_verifier_http_client hc v = record v { hc = hc }

unfoldable pub new_verifier : Text → List VerifierOption → Result Verifier
new_verifier jwks_url opts =
    if is_empty jwks_url
    then err (plain (codes "ztxbas: jwksURL required"))
    else ok (
        foldl (λ v o. o v)
          (record {
            jwks_url = jwks_url;
            hc = default_http_client;
            keys = [];
            fetched_at = none;
            expected_iss = [];
          })
          opts)

abbrev pub read_body : Text × Option Text → Result Text
read_body (body, none) = ok body
read_body (body, some m) = err (wrap (codes "ztxbas: read JWKS: ") (foreign m))

abbrev pub set_of : List Jwk × Bool → Result (List Jwk)
set_of (ks, true) = ok ks
set_of (ks, false) =
    err (wrap (codes "ztxbas: parse JWKS: ") (foreign (codes "json: cannot unmarshal")))

abbrev pub build_prefix : Text
build_prefix = codes "ztxbas: build JWKS request: "

abbrev pub fetch_prefix : Text
fetch_prefix = codes "ztxbas: fetch JWKS: "

abbrev pub jwks_request : Url → Request
jwks_request u = record {
  method = codes "GET";
  url = u;
  headers = header_set (codes "Accept") (codes "application/json") [];
  body = [];
}

-- Whether keys fetched at one reading of the monotonic clock are trusted at another.
abbrev pub is_fresh : Option ℕ → ℕ → Bool
is_fresh none now = false
is_fresh (some fetched) now = ltb (now - fetched) jwks_cache_ttl

abbrev pub Session : Type 0
Session = Verifier × World

module _ (env : Env) where
  -- The document of a body: the members of `keys`.
  unfoldable pub parse_set : Text → Result (List Jwk)
  parse_set body =
      with_result (or_wrap (codes "ztxbas: parse JWKS: ") (env.parse_json body))
        (λ j. set_of (set_jwk_set j []))

  -- `fetchJWKS` from the response on: the status, the body of at most 64 KiB, and the loop.
  unfoldable pub parse_jwks : Response → Result Keys
  parse_jwks resp =
      if resp.status == 200
      then with_result (read_body (read_all (2 ^ 16) resp))
          (λ body. with_result (parse_set body) (keys_of env))
      else err (plain (codes "ztxbas: JWKS fetch returned " ++ format_int (pos resp.status)))

  pub fetch_from : Verifier → Result Url → Exec World Keys
  unfolding http_do
  fetch_from v (err e) w = (err e, w)
  fetch_from v (ok u) w =
      let (r, w') = http_do env v.hc (jwks_request u) w in
      (with_result (annotate fetch_prefix r) parse_jwks, w')

  unfoldable pub fetch_jwks : Verifier → Exec World Keys
  unfolding fetch_from
  fetch_jwks v w = fetch_from v (or_wrap build_prefix (env.parse_url v.jwks_url)) w

  abbrev pub present : Text → Option PublicKey → Result PublicKey
  present kid none =
      err (plain (codes "ztxbas: JWT kid " ++ env.quote kid ++ codes " not present in JWKS"))
  present kid (some key) = ok key

  -- `keyForKID` after the fetch: what was fetched replaces the cache.
  unfoldable pub store : Text → Verifier → Result Keys × World → Result PublicKey × Session
  unfolding time_now
  store kid v (err e, w) = (err e, (v, w))
  store kid v (ok fresh, w) =
      let (now, w') = time_now env w in
      (present kid (get_key kid fresh), (record v { keys = fresh; fetched_at = some now.mono }, w'))

  pub refresh : Text → Exec Session PublicKey
  unfolding store
  refresh kid (v, w) = store kid v (fetch_jwks v w)

  -- The clock is read only if the id is in the cache.
  pub from_cache : Text → Option PublicKey → Exec Session PublicKey
  unfolding time_now refresh
  from_cache kid none (v, w) = refresh kid (v, w)
  from_cache kid (some key) (v, w) =
      let (now, w') = time_now env w in
      if is_fresh v.fetched_at now.mono then (ok key, (v, w')) else refresh kid (v, w')

  unfoldable pub key_for_kid : Text → Exec Session PublicKey
  unfolding from_cache
  key_for_kid kid (v, w) = from_cache kid (get_key kid v.keys) (v, w)
