-- ===== src/Across/Signing.antt =====
-- A signed request at the server, by the headers that it bears.
pub mod Sdks
use ztxbas.Base.{
  ℕ, ◌+◌, ◌≡◌, ◌⊎◌, inl, inr, refl, ap, sym, subst, ◌∙◌, true, false, [], ◌∷◌, ◌++◌, some, arith,
  length, length-append, All,
}
use ztxbas.Base.Text.{Text, same, same_iff, same_self}
use ztxbas.Go.Url.{unescape, escaped_path}
use ztxbas.Go.Http.{Headers, Request, header_get, header_set, canonical_key}
use ztxbas.Runtime.{Env}
use ztxbas.Sign.{canonical, signature, hdr_application_id, hdr_timestamp, hdr_nonce, hdr_signature}
use ztxbas.Sign.Server.{accepts, accepts_path, four_headers, get-set_ne}
use ztxbas.Sign.Tamper.{GivesBytes, Collide, signature_eq}
use ztxbas.Node.Requests.{Members, as_headers}

-- Members whose names are not that of a header.
abbrev IsApart : Text → Members → Type 0
IsApart j = All (λ m. same (canonical_key m.0) (canonical_key j) ≡ false)

-- Members that are none of the four headers.
abbrev pub AreOther : Members → Type 0
AreOther extra =
    IsApart hdr_application_id extra
    × IsApart hdr_timestamp extra
    × IsApart hdr_nonce extra
    × IsApart hdr_signature extra

extra_kept :
    (j : Text) (extra : Members) (h : Headers)
    → IsApart j extra
    → header_get j (as_headers extra h) ≡ header_get j h
extra_kept j [] h apart = refl
extra_kept j ((k, v) ∷ m) h (here, apart) =
    extra_kept j m (header_set k v h) apart ∙ get-set_ne k j v h here

length-canonical :
    (method path ts nonce body : Text)
    → length (canonical method path ts nonce body)
      ≡ length method + length path + length ts + length nonce + length body + 4
unfolding canonical
length-canonical method path ts nonce body = omega (
  arith,
  length-append method (b'|' ∷ (path ++ b'|' ∷ (ts ++ b'|' ∷ (nonce ++ b'|' ∷ body)))),
  length-append path (b'|' ∷ (ts ++ b'|' ∷ (nonce ++ b'|' ∷ body))),
  length-append ts (b'|' ∷ (nonce ++ b'|' ∷ body)),
  length-append nonce (b'|' ∷ body),
)

-- A path in front makes another canonical form.
canonical_longer :
    (method base path ts nonce body : Text)
    → canonical method (base ++ path) ts nonce body ≡ canonical method path ts nonce body
    → base ≡ []
canonical_longer method [] path ts nonce body e = refl
canonical_longer method (c ∷ base) path ts nonce body e = absurd (
    omega (
      arith,
      ap length e,
      length-canonical method ((c ∷ base) ++ path) ts nonce body,
      length-canonical method path ts nonce body,
      length-append (c ∷ base) path,
    ))

module _ (env : Env) (secret : Text) where
  -- A request with the four headers, signed for a path.
  pub record Bears (r : Request) (app ts nonce path : Text) : Type 0 where
    pub app_id_there : header_get hdr_application_id r.headers ≡ some app
    pub timestamp_there : header_get hdr_timestamp r.headers ≡ some ts
    pub nonce_there : header_get hdr_nonce r.headers ≡ some nonce
    pub signature_there :
        header_get hdr_signature r.headers
        ≡ some (signature env secret (canonical r.method path ts nonce r.body))

  -- Other headers, before and behind the four, leave them alone.
  pub four-Bears :
      (r : Request) (app ts nonce path : Text) (h : Headers) (extra : Members)
      → AreOther extra
      → r.headers
        ≡ as_headers extra (
            header_set hdr_signature
              (signature env secret (canonical r.method path ts nonce r.body))
              (header_set hdr_nonce nonce
                (header_set hdr_timestamp ts (header_set hdr_application_id app h))))
      → Bears r app ts nonce path
  four-Bears r app ts nonce path h extra (xa, xt, xn, xs) e =
      let sig = signature env secret (canonical r.method path ts nonce r.body) in
      let (a, t, n, s) = four_headers app ts nonce sig h in
      record {
        app_id_there =
            ap (header_get hdr_application_id) e ∙ (extra_kept hdr_application_id extra _ xa ∙ a);
        timestamp_there =
            ap (header_get hdr_timestamp) e ∙ (extra_kept hdr_timestamp extra _ xt ∙ t);
        nonce_there = ap (header_get hdr_nonce) e ∙ (extra_kept hdr_nonce extra _ xn ∙ n);
        signature_there =
            ap (header_get hdr_signature) e ∙ (extra_kept hdr_signature extra _ xs ∙ s);
      }

  verdict :
      (r : Request) (app ts nonce path q : Text)
      → unescape (escaped_path r.url) ≡ some q
      → Bears r app ts nonce path
      → accepts env secret r
        ≡ same
            (signature env secret (canonical r.method q ts nonce r.body))
            (signature env secret (canonical r.method path ts nonce r.body))
  unfolding accepts accepts_path
  verdict r app ts nonce path q at b =
      rw (at, b.app_id_there, b.timestamp_there, b.nonce_there, b.signature_there) refl

  -- It passes if the server reads the same path, and with a path in front only if that is empty or the
  -- HMACs collide.
  abbrev pub Verdict : Request → Text → Text → Text → Text → Type 0
  Verdict r base path ts nonce =
      (base ≡ [] → accepts env secret r ≡ true)
      × (accepts env secret r ≡ true
          → (base ≡ [])
            ⊎ Collide env secret (canonical r.method (base ++ path) ts nonce r.body)
                (canonical r.method path ts nonce r.body))

  pub Bears-Verdict :
      (r : Request) (app ts nonce base path : Text)
      → GivesBytes env
      → unescape (escaped_path r.url) ≡ some (base ++ path)
      → Bears r app ts nonce path
      → Verdict r base path ts nonce
  Bears-Verdict r app ts nonce base path bytes at b =
      let judged = verdict r app ts nonce path (base ++ path) at b in
      (
        (λ e.
            judged
            ∙ subst
                (λ b.
                  same (signature env secret (canonical r.method (b ++ path) ts nonce r.body))
                    (signature env secret (canonical r.method path ts nonce r.body))
                  ≡ true)
                (sym e) (same_self _)),
        λ h. elim (signature_eq env secret _ _ bytes ((same_iff _ _).0 (sym judged ∙ h))) [
          | inl e ↦ inl (canonical_longer r.method base path ts nonce r.body e)
          | inr c ↦ inr c
        ],
      )
