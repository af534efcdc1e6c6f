-- ===== src/Api/Calls.antt =====
-- Every operation sends at most one request, and the right one.
use ztxbas.Base.{ℕ, refl, inl, Bool, [], ◌∷◌, ◌++◌, none, arith, All, All-append}
use ztxbas.Base.Text.{Text, IsByte, codes, is_empty}
use ztxbas.Go.Url.{escape, path_escape}
use ztxbas.Runtime.{Env, World}
use ztxbas.Client.{Client}
use ztxbas.Client.Paths.{IsBase}
use ztxbas.Client.Requests.{OneCall, do_request-OneCall}
use ztxbas.Users.{register_user, list_users, deregister_user}
use ztxbas.Origins.{register_origin, list_origins, delete_origin}
use ztxbas.Challenges.{create_challenge, get_challenge_status}
use ztxbas.Api.{
  Operation, user_register, users_list, user_deregister, origin_register, origins_list,
  origin_delete, challenge_create, challenge_status, method_of, path_of, body_of, id_of, run,
}

escape-IsByte : (p : ℕ → Bool) (s : Text) → All IsByte s → All IsByte (escape p s)
unfolding escape
escape-IsByte p [] h = tt
escape-IsByte p (c ∷ s) (hc, h) = ground (arith, escape-IsByte p s h)

path_escape-IsByte : (s : Text) → All IsByte s → All IsByte (path_escape s)
path_escape-IsByte s h = unfold path_escape in (escape-IsByte _ s h)

pub get_challenge_status-OneCall :
    (env : Env) (c : Client) (id : Text) (w : World)
    → IsBase c.base_url
    → All IsByte id
    → OneCall env c
        (codes "GET")
        (codes "/v1/auth/status/" ++ path_escape id)
        none
        w
        (get_challenge_status env c id w).1
unfolding get_challenge_status
get_challenge_status-OneCall env c [] w base bytes = inl (unfold is_empty in refl)
get_challenge_status-OneCall env c (b ∷ id) w base bytes =
    unfold is_empty in
    (do_request-OneCall env _ _ c _ _ _ w base refl (
      All-append IsByte (codes "/v1/auth/status/") (path_escape (b ∷ id)) (omega arith)
        (path_escape-IsByte (b ∷ id) bytes)))

-- Whatever the server answers, each of the eight operations hands at most one request to the HTTP
-- client: one with the method, path and body of the operation, with no query, to the client's
-- host, and with the signature that the server computes of it, for a client whose base path is
-- empty or begins with a slash and ids made of bytes.
pub run-OneCall :
    (env : Env) (c : Client) (op : Operation) (w : World)
    → IsBase c.base_url
    → All IsByte (id_of op)
    → OneCall env c (method_of op) (path_of op) (body_of op) w (run env c op w)
run-OneCall env c (user_register r) w base id =
    unfold register_user in (do_request-OneCall env _ _ c _ _ _ w base refl (omega arith))
run-OneCall env c users_list w base id =
    unfold list_users in (do_request-OneCall env _ _ c _ _ _ w base refl (omega arith))
run-OneCall env c (user_deregister email) w base id =
    unfold deregister_user in (do_request-OneCall env _ _ c _ _ _ w base refl (omega arith))
run-OneCall env c (origin_register r) w base id =
    unfold register_origin in (do_request-OneCall env _ _ c _ _ _ w base refl (omega arith))
run-OneCall env c origins_list w base id =
    unfold list_origins in (do_request-OneCall env _ _ c _ _ _ w base refl (omega arith))
run-OneCall env c (origin_delete id) w base bytes =
    unfold delete_origin in
    (do_request-OneCall env _ _ c _ _ _ w base refl (
      All-append IsByte (codes "/v1/origins/") (path_escape id) (omega arith)
        (path_escape-IsByte id bytes)))
run-OneCall env c (challenge_create r) w base id =
    unfold create_challenge in (do_request-OneCall env _ _ c _ _ _ w base refl (omega arith))
run-OneCall env c (challenge_status id) w base bytes =
    get_challenge_status-OneCall env c id w base bytes
