-- ===== src/Client/Construct.antt =====
-- `New`: which arguments it accepts, and what the client is then.
use ztxbas.Base.{
  ◌≡◌, ◌≢◌, ◌↔◌, ◌⊎◌, inl, inr, refl, sym, ap, subst, ◌∙◌, ◌||◌, List, [], ◌∷◌, none, arith, All,
  if◌then◌else◌,
}
use ztxbas.Base.Result.{Outcome, done, fault}
use ztxbas.Base.Text.{Text, is_empty, is_empty_iff}
use ztxbas.Go.Strings.Parts.{EndsClean, trim_right-EndsClean}
use ztxbas.Go.Url.{Url}
use ztxbas.Go.Http.{HttpClient}
use ztxbas.Errors.{Err, Result, ok, err, or_wrap}
use ztxbas.Errors.Steps.{with_result_iff}
use ztxbas.Runtime.{Env}
use ztxbas.Client.{
  Client, ClientOption, with_http_client, with_user_agent, is_slash, fresh_client, configure,
  with_host, new,
}

-- The arguments with which `New` succeeds, and the client that it makes.
pub record IsNew (env : Env) (base app_id secret : Text) (opts : List ClientOption) (c : Client)
    : Type 0 where
  pub has_base : base ≢ []
  pub has_app : app_id ≢ []
  pub has_secret : secret ≢ []
  pub url : Url
  pub parsed : env.parse_url base ≡ done url
  pub has_scheme : url.scheme ≢ []
  pub has_host : url.host ≢ []
  pub made : configure opts (fresh_client url app_id secret) ≡ c

with_host_iff : (u v : Url) → (with_host u ≡ ok v) ↔ ((u.scheme ≢ []) × (u.host ≢ []) × (u ≡ v))
with_host_iff u v = ground (arith, is_empty_iff u.scheme, is_empty_iff u.host)

or_wrap_iff :
    {A : Type 0} (prefix : Text) (o : Outcome A) (a : A) → (or_wrap prefix o ≡ ok a) ↔ (o ≡ done a)
or_wrap_iff prefix (done x) a = ground arith
or_wrap_iff prefix (fault m) a = ground arith

guards_iff :
    {A : Type 0} (base app secret : Text) (e₁ e₂ : Err) (r : Result A) (a : A)
    → ((if is_empty base then err e₁ else if is_empty app || is_empty secret then err e₂ else r)
        ≡ ok a)
      ↔ ((base ≢ []) × (app ≢ []) × (secret ≢ []) × (r ≡ ok a))
guards_iff base app secret e₁ e₂ r a =
    ground (arith, is_empty_iff base, is_empty_iff app, is_empty_iff secret)

-- `New` succeeds with a client exactly if base URL, application id and secret are not empty, the
-- URL parses and has a scheme and a host, and the client is what the options make of the fresh
-- one.
pub new_iff :
    (env : Env) (base app_id secret : Text) (opts : List ClientOption) (c : Client)
    → (new env base app_id secret opts ≡ ok c) ↔ IsNew env base app_id secret opts c
unfolding new
new_iff env base app_id secret opts c = (there, back)
  where
    there : new env base app_id secret opts ≡ ok c → IsNew env base app_id secret opts c
    there h =
        let (b, a, s, h₁) = (guards_iff base app_id secret _ _ _ c).0 h in
        let (u, parsed, h₂) = (with_result_iff _ _ c).0 h₁ in
        let (v, hosted, h₃) = (with_result_iff _ _ c).0 h₂ in
        let (scheme, host, same) = (with_host_iff u v).0 hosted in
        record {
          has_base = b;
          has_app = a;
          has_secret = s;
          url = u;
          parsed = (or_wrap_iff _ _ u).0 parsed;
          has_scheme = scheme;
          has_host = host;
          made = ap (λ x. configure opts (fresh_client x app_id secret)) same ∙ ground arith;
        }

    back : IsNew env base app_id secret opts c → new env base app_id secret opts ≡ ok c
    back n = (guards_iff base app_id secret _ _ _ c).1 (
      n.has_base,
      n.has_app,
      n.has_secret,
      (with_result_iff _ _ c).1 (
        n.url,
        (or_wrap_iff _ _ n.url).1 n.parsed,
        (with_result_iff _ _ c).1
            (n.url, (with_host_iff n.url n.url).1 (n.has_scheme, n.has_host, refl), ap ok n.made),
      ),
    )

-- The options that the package offers.
abbrev pub IsOffered : ClientOption → Type 0
IsOffered o =
    ((hc : HttpClient) × (o ≡ with_http_client hc)) ⊎ ((ua : Text) × (o ≡ with_user_agent ua))

-- What the offered options leave alone.
abbrev pub SameIdentity : Client → Client → Type 0
SameIdentity c d =
    (d.base_url ≡ c.base_url)
    × (d.app_id ≡ c.app_id)
    × (d.secret ≡ c.secret)
    × (d.verifier ≡ c.verifier)

offered-SameIdentity : (o : ClientOption) (c : Client) → IsOffered o → SameIdentity c (o c)
offered-SameIdentity o c (inl (hc, e)) =
    subst (λ (p : ClientOption). SameIdentity c (p c)) (sym e)
      (unfold with_http_client in (refl, refl, refl, refl))
offered-SameIdentity o c (inr (ua, e)) =
    subst (λ (p : ClientOption). SameIdentity c (p c)) (sym e)
      (unfold with_user_agent in (refl, refl, refl, refl))

configure-SameIdentity :
    (opts : List ClientOption) (c : Client) → All IsOffered opts → SameIdentity c (configure opts c)
configure-SameIdentity [] c h = (refl, refl, refl, refl)
configure-SameIdentity (o ∷ opts) c (ho, h) =
    let (b, a, s, v) = offered-SameIdentity o c ho in
    let (b', a', s', v') = configure-SameIdentity opts (o c) h in (b' ∙ b, a' ∙ a, s' ∙ s, v' ∙ v)

-- A client that `New` made with the options of the package has the given credentials, a base URL
-- with a scheme and a host, a base path that does not end in a slash, and no verifier yet.
pub new_lem :
    (env : Env) (base app_id secret : Text) (opts : List ClientOption) (c : Client)
    → All IsOffered opts
    → new env base app_id secret opts ≡ ok c
    → (c.app_id ≡ app_id)
      × (c.secret ≡ secret)
      × (c.base_url.scheme ≢ [])
      × (c.base_url.host ≢ [])
      × EndsClean is_slash c.base_url.path
      × (c.verifier ≡ none)
new_lem env base app_id secret opts c offered h =
    let n = (new_iff env base app_id secret opts c).0 h in
    let d = fresh_client n.url app_id secret in
    let kept : SameIdentity d c =
      subst (SameIdentity d) n.made (configure-SameIdentity opts d offered) in
    (
      kept.1,
      kept.2,
      (λ e. n.has_scheme (sym (ap (λ u. u.scheme) kept.0) ∙ e)),
      (λ e. n.has_host (sym (ap (λ u. u.host) kept.0) ∙ e)),
      subst (λ (u : Url). EndsClean is_slash u.path) (sym kept.0)
          (trim_right-EndsClean is_slash n.url.path),
      kept.3,
    )
