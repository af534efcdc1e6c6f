-- ===== src/Login/Refusals.antt =====
-- The errors of `VerifyJWT` hold no sentinel.
use ztxbas.Base.{Option, none, some, refl}
use ztxbas.Base.Text.{Text}
use ztxbas.Errors.{Result, ok, err}
use ztxbas.Errors.Clean.{IsClean, ok-IsClean, plain-IsClean, if-IsClean, recast-IsClean}
use ztxbas.Runtime.{Env, World}
use ztxbas.Verifier.{Verifier, new_verifier}
use ztxbas.Token.Refusals.{verify-IsClean}
use ztxbas.Client.{Client}
use ztxbas.Login.{verifier_or, own_verifier, verify_with, verify_jwt}

verifier_or-IsClean : (c : Client) (o : Option Verifier) → IsClean (verifier_or c o)
unfolding verifier_or new_verifier
verifier_or-IsClean c (some v) = ok-IsClean v
verifier_or-IsClean c none = if-IsClean _ _ _ (plain-IsClean _) (ok-IsClean _)

module _ (env : Env) where
  verify_with-IsClean :
      (token : Text) (r : Result Verifier) (c : Client) (w : World)
      → IsClean r
      → IsClean (verify_with env token r (c, w)).0
  unfolding verify_with
  verify_with-IsClean token (err e) c w h = recast-IsClean (err e) e h refl
  verify_with-IsClean token (ok v) c w h = verify-IsClean env token (v, w)

  pub verify_jwt-IsClean :
      (token : Text) (c : Client) (w : World) → IsClean (verify_jwt env token (c, w)).0
  unfolding verify_jwt
  verify_jwt-IsClean token c w =
      verify_with-IsClean token (own_verifier c) c w
        (unfold own_verifier in (verifier_or-IsClean c c.verifier))
