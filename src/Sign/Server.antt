-- ===== src/Sign/Server.antt =====
-- The server's recomputation of the signature, after docs/concepts/hmac-signing.md and the last lines of
-- `verifySig` of sdk-go/client_test.go: it takes the parts from the request as it arrives. What else is asked of
-- the headers, the time and the body stands in Sign/Admitted.
use ztxbas.Base.{Bool, true, false, ◌≡◌, refl, Option, none, some, All}
use ztxbas.Base.Text.{Text, IsByte, same, same_self}
use ztxbas.Go.Url.{unescape, escaped_path}
use ztxbas.Go.Url.Laws.{unescape-escaped_path}
use ztxbas.Go.Http.{Request, Headers, header_set, header_get, header_get-header_set, canonical_key}
use ztxbas.Go.Strings.Decimal.{format_int}
use ztxbas.Runtime.{Env, Instant}
use ztxbas.Sign.{
  hdr_application_id, hdr_timestamp, hdr_nonce, hdr_signature, canonical, signature, sign_request,
}

-- The four headers, all there.
abbrev pub with_headers :
    Option Text → Option Text → Option Text → Option Text → (Text → Text → Text → Bool) → Bool
with_headers (some app) (some ts) (some nonce) (some sig) check = check ts nonce sig
with_headers _ _ _ _ check = false

module _ (env : Env) (secret : Text) where
  -- The path is that of the request line, decoded as `net/http` does.
  unfoldable pub accepts_path : Option Text → Request → Bool
  accepts_path none r = false
  accepts_path (some path) r =
      with_headers (header_get hdr_application_id r.headers) (header_get hdr_timestamp r.headers)
        (header_get hdr_nonce r.headers) (header_get hdr_signature r.headers)
        (λ ts nonce sig. same (signature env secret (canonical r.method path ts nonce r.body)) sig)

  unfoldable pub accepts : Request → Bool
  unfolding accepts_path
  accepts r = accepts_path (unescape (escaped_path r.url)) r

get-set_self : (k v : Text) (h : Headers) → header_get k (header_set k v h) ≡ some v
get-set_self k v h = rw (header_get-header_set, same_self)

pub get-set_ne :
    (k j v : Text) (h : Headers)
    → same (canonical_key k) (canonical_key j) ≡ false
    → header_get j (header_set k v h) ≡ header_get j h
get-set_ne k j v h e = rw (header_get-header_set, e)

-- Every pair of the four headers, under their canonical keys.
distinct :
    (same (canonical_key hdr_signature) (canonical_key hdr_nonce) ≡ false)
    × (same (canonical_key hdr_signature) (canonical_key hdr_timestamp) ≡ false)
    × (same (canonical_key hdr_signature) (canonical_key hdr_application_id) ≡ false)
    × (same (canonical_key hdr_nonce) (canonical_key hdr_timestamp) ≡ false)
    × (same (canonical_key hdr_nonce) (canonical_key hdr_application_id) ≡ false)
    × (same (canonical_key hdr_timestamp) (canonical_key hdr_application_id) ≡ false)
unfolding same canonical_key
distinct = (refl, refl, refl, refl, refl, refl)

-- What stands under the four headers when they were set in the order of `signRequest`.
pub four_headers :
    (app ts nonce sig : Text) (h : Headers)
    → let all = header_set hdr_signature sig (
        header_set hdr_nonce nonce
          (header_set hdr_timestamp ts (header_set hdr_application_id app h))) in
      (header_get hdr_application_id all ≡ some app)
      × (header_get hdr_timestamp all ≡ some ts)
      × (header_get hdr_nonce all ≡ some nonce)
      × (header_get hdr_signature all ≡ some sig)
four_headers app ts nonce sig h =
    let (sn, st, sa, nt, na, ta) = distinct in
    (
      rw (get-set_ne _ _ _ _ sa, get-set_ne _ _ _ _ na, get-set_ne _ _ _ _ ta, get-set_self),
      rw (get-set_ne _ _ _ _ st, get-set_ne _ _ _ _ nt, get-set_self),
      rw (get-set_ne _ _ _ _ sn, get-set_self),
      rw get-set_self,
    )

-- A request that `signRequest` has signed with its own body passes the server's check of the four
-- headers and of the path decoded from the request line, for any application id, time, nonce and
-- other headers, where the path is made of bytes.
pub sign_request-accepts :
    (env : Env) (secret : Text) (req : Request) (app_id nonce : Text) (now : Instant)
    → All IsByte req.url.path
    → accepts env secret (sign_request env req req.body app_id secret now nonce) ≡ true
unfolding accepts sign_request
sign_request-accepts env secret req app_id nonce now h =
    let ts = format_int now.unix in
    let sig = signature env secret (canonical req.method req.url.path ts nonce req.body) in
    let (a, t, n, s) = four_headers app_id ts nonce sig req.headers in
    rw (unescape-escaped_path req.url h, a, t, n, s) (same_self _)
