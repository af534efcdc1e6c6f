-- ===== src/Sign/Admitted.antt =====
-- All that a server asks of a signed request: `verifySig` of sdk-go/client_test.go as a whole, and the window and
-- the cap of docs/concepts/hmac-signing.md.
use ztxbas.Base.{
  ℕ, ◌*◌, ◌≤◌, ◌≡◌, ◌≢◌, ◌↔◌, refl, sym, ap, ◌∙◌, Bool, true, false, Bool-cases, inl, inr, ◌&&◌,
  not, [], ◌∷◌, Option, none, some, ◌==◌, leb, ltb, length, All, arith,
}
use ztxbas.Base.Int.{ℤ, pos, ◌+ℤ◌, ◌≤ℤ◌, ltb_ℤ, IsInt64}
use ztxbas.Base.Text.{Text, Bytes, IsByte, is_empty, is_empty_iff}
use ztxbas.Go.Strings.Decimal.{format_int}
use ztxbas.Go.Strings.Decimal.Reading.{parse_int64, parse_int64-format_int}
use ztxbas.Go.Encoding.RoundTrip.{length-hex_encode}
use ztxbas.Go.Http.{Request, header_get}
use ztxbas.Runtime.{Env, Instant}
use ztxbas.Sign.{
  hdr_application_id, hdr_timestamp, hdr_nonce, hdr_signature, canonical, signature, sign_request,
}
use ztxbas.Sign.Server.{accepts, sign_request-accepts, four_headers}

-- A header that is missing reads as an empty one.
abbrev has_text : Option Text → Bool
has_text none = false
has_text (some t) = not (is_empty t)

abbrev is_64_long : Option Text → Bool
is_64_long none = false
is_64_long (some t) = length t == 64

abbrev is_given {ℓ} : {A : Type ℓ} → Option A → Bool
is_given none = false
is_given (some a) = true

abbrev time_in : Option Text → Option ℤ
time_in none = none
time_in (some t) = parse_int64 t

-- Within 300 seconds of the server's clock.
abbrev is_near : ℤ → Option ℤ → Bool
is_near clock none = false
is_near clock (some z) = not (ltb_ℤ (z +ℤ pos 300) clock) && not (ltb_ℤ (clock +ℤ pos 300) z)

module _ (env : Env) (secret : Text) where
  -- `verifySig`: the four headers, the length of the signature, the time, and the signature itself.
  unfoldable pub verify_sig : Request → Bool
  verify_sig r =
      has_text (header_get hdr_application_id r.headers)
      && (has_text (header_get hdr_timestamp r.headers)
          && (has_text (header_get hdr_nonce r.headers)
              && (has_text (header_get hdr_signature r.headers)
                  && (is_64_long (header_get hdr_signature r.headers)
                      && (is_given (time_in (header_get hdr_timestamp r.headers))
                          && accepts env secret r)))))

  -- And what the document says of the time and of the body's size.
  unfoldable pub admits : ℤ → Request → Bool
  unfolding verify_sig
  admits clock r =
      verify_sig r
      && (is_near clock (time_in (header_get hdr_timestamp r.headers)) && leb (length r.body) 8192)

-- An HMAC-SHA256 has 32 bytes.
abbrev pub HasDigests : Env → Type 0
HasDigests env = (secret : Text) (message : Bytes) → length (env.hmac_sha256 secret message) ≡ 32

none-ne-some {ℓ} : {A : Type ℓ} (a : A) → none ≡ some a → ⊥
none-ne-some a e = cc

nothing_read : parse_int64 [] ≡ none
unfolding parse_int64
nothing_read = refl

digits_there : (z : ℤ) → IsInt64 z → is_empty (format_int z) ≡ false
digits_there z h = elim (Bool-cases (is_empty (format_int z))) [
  | inr e ↦ e
  | inl e ↦ absurd (
      none-ne-some z (
        sym nothing_read
        ∙ (ap parse_int64 (sym ((is_empty_iff (format_int z)).0 e)) ∙ parse_int64-format_int z h)))
]

signature-64 :
    (env : Env) (secret : Text) (message : Bytes)
    → HasDigests env
    → length (signature env secret message) ≡ 64
unfolding signature
signature-64 env secret message digests =
    length-hex_encode (env.hmac_sha256 secret message) ∙ ap (λ n. 2 * n) (digests secret message)

long_there : (t : Text) → length t ≡ 64 → is_empty t ≡ false
unfolding is_empty
long_there [] e = absurd (omega arith)
long_there (c ∷ t) e = refl

-- The checks of `verifySig`, for headers that are there.
texts_iff :
    (app nonce : Text)
    → ((not (is_empty app) && (not (is_empty nonce) && true)) ≡ true) ↔ ((app ≢ []) × (nonce ≢ []))
texts_iff app nonce = ground (arith, is_empty_iff app, is_empty_iff nonce)

two_tests : (m n m' n' : ℕ) → ((not (ltb m n) && not (ltb m' n')) ≡ true) ↔ ((n ≤ m) × (n' ≤ m'))
two_tests m n m' n' = ground arith

near_iff :
    (clock z : ℤ)
    → (is_near clock (some z) ≡ true) ↔ ((clock ≤ℤ z +ℤ pos 300) × (z ≤ℤ clock +ℤ pos 300))
near_iff clock z = two_tests _ _ _ _

three_tests :
    (t n : Bool) (k : ℕ)
    → ((t && (n && leb k 8192)) ≡ true) ↔ ((t ≡ true) × (n ≡ true) × (k ≤ 8192))
three_tests t n k = ground arith

module _ (env : Env) (secret : Text) (req : Request) (app_id nonce : Text) (now : Instant) where
  abbrev signed : Request
  signed = sign_request env req req.body app_id secret now nonce

  abbrev sig_of : Text
  sig_of =
      signature env secret (canonical req.method req.url.path (format_int now.unix) nonce req.body)

  headers_of :
      (header_get hdr_application_id signed.headers ≡ some app_id)
      × (header_get hdr_timestamp signed.headers ≡ some (format_int now.unix))
      × (header_get hdr_nonce signed.headers ≡ some nonce)
      × (header_get hdr_signature signed.headers ≡ some sig_of)
  unfolding sign_request
  headers_of = four_headers app_id (format_int now.unix) nonce sig_of req.headers

  verified :
      All IsByte req.url.path
      → IsInt64 now.unix
      → HasDigests env
      → verify_sig env secret signed ≡ (not (is_empty app_id) && (not (is_empty nonce) && true))
  unfolding verify_sig
  verified path fits digests =
      let (a, t, n, s) = headers_of in
      let len =
        signature-64 env secret
          (canonical req.method req.url.path (format_int now.unix) nonce req.body) digests in
      rw
        (
          a,
          t,
          n,
          s,
          digits_there now.unix fits,
          long_there sig_of len,
          len,
          parse_int64-format_int now.unix fits,
          sign_request-accepts env secret req app_id nonce now path,
        )
        refl

  body_kept : signed.body ≡ req.body
  unfolding sign_request
  body_kept = refl

  admitted :
      (clock : ℤ)
      → IsInt64 now.unix
      → admits env secret clock signed ≡ (
          verify_sig env secret signed
          && (is_near clock (some now.unix) && leb (length req.body) 8192))
  unfolding admits
  admitted clock fits =
      let (a, t, n, s) = headers_of in rw (t, parse_int64-format_int now.unix fits, body_kept) refl

-- A request that `signRequest` has signed with its own body passes `verifySig` exactly if the
-- application id and the nonce are not empty; and a server admits it exactly if, besides, its
-- clock is within 300 seconds of the time that was signed, and the body has at most 8 KiB: where
-- the path is made of bytes, the time is an `int64`, and an HMAC has 32 bytes.
pub sign_request-admits :
    (env : Env) (secret : Text) (req : Request) (app_id nonce : Text) (now : Instant) (clock : ℤ)
    → All IsByte req.url.path
    → IsInt64 now.unix
    → HasDigests env
    → let r = sign_request env req req.body app_id secret now nonce in
      ((verify_sig env secret r ≡ true) ↔ ((app_id ≢ []) × (nonce ≢ [])))
      × ((admits env secret clock r ≡ true) ↔ (
          (app_id ≢ [])
          × (nonce ≢ [])
          × (clock ≤ℤ now.unix +ℤ pos 300)
          × (now.unix ≤ℤ clock +ℤ pos 300)
          × (length req.body ≤ 8192)))
sign_request-admits env secret req app_id nonce now clock path fits digests =
    let v = verified env secret req app_id nonce now path fits digests in
    let texts = texts_iff app_id nonce in
    let near = near_iff clock now.unix in
    let whole = admitted env secret req app_id nonce now clock fits in
    let all =
      three_tests (verify_sig env secret (sign_request env req req.body app_id secret now nonce))
        (is_near clock (some now.unix)) (length req.body) in
    (
      ((λ e. texts.0 (sym v ∙ e)), λ h. v ∙ texts.1 h),
      (
        (λ e.
            let (signed_ok, near_ok, small) = all.0 (sym whole ∙ e) in
            let (a, n) = texts.0 (sym v ∙ signed_ok) in
            let (after, before) = near.0 near_ok in (a, n, after, before, small)),
        λ (a, n, after, before, small).
            whole ∙ all.1 (v ∙ texts.1 (a, n), near.1 (after, before), small),
      ),
    )
