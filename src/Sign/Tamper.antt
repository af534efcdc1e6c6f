-- ===== src/Sign/Tamper.antt =====
-- What a signature is worth on another request.
use ztxbas.Base.{
  ◌≡◌, ◌≢◌, ◌⊎◌, inl, inr, refl, sym, ◌∙◌, true, Option, none, some, arith, All, Bool-cases,
}
use ztxbas.Base.Text.{Text, Bytes, IsByte, same, same_iff}
use ztxbas.Go.Url.{unescape, escaped_path}
use ztxbas.Go.Http.{Request, header_get}
use ztxbas.Go.Strings.Decimal.{format_int}
use ztxbas.Go.Encoding.RoundTrip.{hex_encode_injective}
use ztxbas.Runtime.{Env, Instant}
use ztxbas.Sign.{hdr_timestamp, hdr_nonce, hdr_signature, canonical, signature, sign_request}
use ztxbas.Sign.Canonical.{IsBarless, canonical-eq}
use ztxbas.Sign.Server.{accepts, accepts_path, with_headers, four_headers}

-- What the server reads from a request besides method and body.
pub record IsRead (r : Request) (path ts nonce sig : Text) : Type 0 where
  pub is_path : unescape (escaped_path r.url) ≡ some path
  pub is_time : header_get hdr_timestamp r.headers ≡ some ts
  pub is_nonce : header_get hdr_nonce r.headers ≡ some nonce
  pub is_signature : header_get hdr_signature r.headers ≡ some sig

-- An HMAC is a list of bytes.
abbrev pub GivesBytes : Env → Type 0
GivesBytes env = (secret : Text) (message : Bytes) → All IsByte (env.hmac_sha256 secret message)

module _ (env : Env) (secret : Text) where
  read_headers :
      (r : Request) (path : Text) (a t n s : Option Text)
      → with_headers a t n s (λ ts nonce sig.
        same (signature env secret (canonical r.method path ts nonce r.body)) sig)
        ≡ true
      → (ts nonce sig : Text) × (t ≡ some ts)
        × (n ≡ some nonce)
        × (s ≡ some sig)
        × (signature env secret (canonical r.method path ts nonce r.body) ≡ sig)
  read_headers r path (some a) (some t) (some n) (some s) h =
      (t, n, s, refl, refl, refl, (same_iff _ s).0 h)
  read_headers r path none t n s h = cc
  read_headers r path (some a) none n s h = cc
  read_headers r path (some a) (some t) none s h = cc
  read_headers r path (some a) (some t) (some n) none h = cc

  accepts_path-IsRead :
      (r : Request) (o : Option Text)
      → unescape (escaped_path r.url) ≡ o
      → accepts_path env secret o r ≡ true
      → (path ts nonce sig : Text) × IsRead r path ts nonce sig
        × (signature env secret (canonical r.method path ts nonce r.body) ≡ sig)
  unfolding accepts_path
  accepts_path-IsRead r none e h = cc
  accepts_path-IsRead r (some path) e h =
      let (ts, nonce, sig, is_time, is_nonce, is_signature, valid) =
        read_headers r path _ _ _ _ h in
      (
        path,
        ts,
        nonce,
        sig,
        record { is_path = e; is_time = is_time; is_nonce = is_nonce; is_signature = is_signature },
        valid,
      )

  -- An accepted request has the signature that the server computes.
  accepts-IsRead :
      (r : Request)
      → accepts env secret r ≡ true
      → (path ts nonce sig : Text) × IsRead r path ts nonce sig
        × (signature env secret (canonical r.method path ts nonce r.body) ≡ sig)
  unfolding accepts
  accepts-IsRead r h = accepts_path-IsRead r (unescape (escaped_path r.url)) refl h

  -- Two messages with one HMAC.
  abbrev pub Collide : Bytes → Bytes → Type 0
  Collide m m' = (m ≢ m') × (env.hmac_sha256 secret m ≡ env.hmac_sha256 secret m')

  pub signature_eq :
      (m m' : Bytes)
      → GivesBytes env
      → signature env secret m ≡ signature env secret m'
      → (m ≡ m') ⊎ Collide m m'
  unfolding signature
  signature_eq m m' bytes e = elim (Bool-cases (same m m')) [
    | inl q ↦ inl ((same_iff m m').0 q)
    | inr q ↦ inr (
      (λ p. ground (arith, (same_iff m m').1 p)),
      hex_encode_injective _ _ (bytes secret m) (bytes secret m') e,
    )
  ]

  -- If the server accepts a request that bears the signature of one that `signRequest` has signed
  -- with its own body, then the method, the path, the time, the nonce and the body that the
  -- server reads are those that were signed, or the canonical forms of the two differ and have
  -- the same HMAC under the secret, where an HMAC is a list of bytes and method, path, time and
  -- nonce of both hold no bar.
  pub accepts_tampered :
      (req r : Request) (app_id nonce : Text) (now : Instant)
      → GivesBytes env
      → IsBarless req.method req.url.path (format_int now.unix) nonce
      → ((path ts n sig : Text) → IsRead r path ts n sig → IsBarless r.method path ts n)
      → accepts env secret r ≡ true
      → header_get hdr_signature r.headers
        ≡ header_get hdr_signature (sign_request env req req.body app_id secret now nonce).headers
      → (path ts n sig : Text) × IsRead r path ts n sig
        × (((r.method ≡ req.method)
              × (path ≡ req.url.path)
              × (ts ≡ format_int now.unix)
              × (n ≡ nonce)
              × (r.body ≡ req.body))
            ⊎ Collide
                (canonical r.method path ts n r.body)
                (canonical req.method req.url.path (format_int now.unix) nonce req.body))
  unfolding sign_request
  accepts_tampered req r app_id nonce now bytes clear clear_r ok_r same_header =
      let (path, ts, n, sig, read, valid) = accepts-IsRead r ok_r in
      let message : Bytes =
        canonical req.method req.url.path (format_int now.unix) nonce req.body in
      let (_, _, _, signed) =
        four_headers app_id (format_int now.unix) nonce (signature env secret message)
          req.headers in
      let found : some sig ≡ some (signature env secret message) =
        sym read.is_signature ∙ (same_header ∙ signed) in
      let equal : sig ≡ signature env secret message = cc in
      let cases =
        signature_eq (canonical r.method path ts n r.body) message bytes (valid ∙ equal) in
      (
        path,
        ts,
        n,
        sig,
        read,
        elim cases [
          | inl e ↦ inl (canonical-eq _ _ _ _ _ _ _ _ _ _ (clear_r path ts n sig read) clear e)
          | inr c ↦ inr c
        ],
      )
