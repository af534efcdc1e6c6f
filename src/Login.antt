-- ===== src/Login.antt =====
-- `(*Client).VerifyJWT` of sdk-go/verify.go: the client's own verifier, made on first use. The state
-- is that of the client and the world.
pub mod Sound
pub mod Refusals
pub mod Race
use ztxbas.Base.{[], ◌∷◌, ◌++◌, Option, none, some}
use ztxbas.Base.Text.{Text, codes}
use ztxbas.Go.Url.{url_string}
use ztxbas.Errors.{Err, Result, ok, err}
use ztxbas.Runtime.{Env, Exec, World}
use ztxbas.Verifier.{Verifier, Session, new_verifier, with_verifier_http_client}
use ztxbas.Token.{Claims, verify}
use ztxbas.Client.{Client}

abbrev pub Live : Type 0
Live = Client × World

pub verifier_or : Client → Option Verifier → Result Verifier
verifier_or c (some v) = ok v
verifier_or c none =
    new_verifier (url_string c.base_url ++ codes "/.well-known/jwks.json")
      (with_verifier_http_client c.hc ∷ [])

-- The verifier that the client has, or a new one for its base URL, with its HTTP client.
unfoldable pub own_verifier : Client → Result Verifier
unfolding verifier_or
own_verifier c = verifier_or c c.verifier

-- The client keeps its verifier, with the keys that were fetched.
abbrev pub keep_verifier : Client → Result Claims × Session → Result Claims × Live
keep_verifier c (r, (v, w)) = (r, (record c { verifier = some v }, w))

module _ (env : Env) where
  unfoldable pub verify_with : Text → Result Verifier → Exec Live Claims
  verify_with token (err e) s = (err e, s)
  verify_with token (ok v) (c, w) = keep_verifier c (verify env token (v, w))

  unfoldable pub verify_jwt : Text → Exec Live Claims
  verify_jwt token (c, w) = verify_with token (own_verifier c) (c, w)
