-- ===== src/Api.antt =====
-- The operations of the API together: what each one is on the wire, after api/openapi.yaml, and how
-- the client runs it.
pub mod Calls
pub mod Ids
pub mod Bodies
pub mod Polls
use ztxbas.Base.{◌++◌, [], ◌∷◌, Option, none, some}
use ztxbas.Base.Text.{Text, codes}
use ztxbas.Go.Url.{path_escape}
use ztxbas.Go.Json.{Json, str, member, end, obj}
use ztxbas.Runtime.{Env, World}
use ztxbas.Client.{Client}
use ztxbas.Users.{
  RegisterUserRequest, register_user_json, register_user, list_users, deregister_user,
}
use ztxbas.Origins.{
  RegisterOriginRequest, register_origin_json, register_origin, list_origins, delete_origin,
}
use ztxbas.Challenges.{
  CreateChallengeRequest, create_challenge_json, create_challenge, get_challenge_status,
}

pub data Operation : Type 0 where
  user_register : RegisterUserRequest → Operation
  users_list : Operation
  user_deregister : Text → Operation
  origin_register : RegisterOriginRequest → Operation
  origins_list : Operation
  origin_delete : Text → Operation
  challenge_create : CreateChallengeRequest → Operation
  challenge_status : Text → Operation

abbrev pub method_of : Operation → Text
method_of (user_register r) = codes "POST"
method_of users_list = codes "GET"
method_of (user_deregister email) = codes "DELETE"
method_of (origin_register r) = codes "POST"
method_of origins_list = codes "GET"
method_of (origin_delete id) = codes "DELETE"
method_of (challenge_create r) = codes "POST"
method_of (challenge_status id) = codes "GET"

abbrev pub path_of : Operation → Text
path_of (user_register r) = codes "/v1/users"
path_of users_list = codes "/v1/users"
path_of (user_deregister email) = codes "/v1/users"
path_of (origin_register r) = codes "/v1/origins"
path_of origins_list = codes "/v1/origins"
path_of (origin_delete id) = codes "/v1/origins/" ++ path_escape id
path_of (challenge_create r) = codes "/v1/auth/challenge"
path_of (challenge_status id) = codes "/v1/auth/status/" ++ path_escape id

abbrev pub body_of : Operation → Option Json
body_of (user_register r) = some (register_user_json r)
body_of users_list = none
body_of (user_deregister email) = some (obj (member (codes "email") (str email) end))
body_of (origin_register r) = some (register_origin_json r)
body_of origins_list = none
body_of (origin_delete id) = none
body_of (challenge_create r) = some (create_challenge_json r)
body_of (challenge_status id) = none

-- The id in the path, if there is one.
abbrev pub id_of : Operation → Text
id_of (origin_delete id) = id
id_of (challenge_status id) = id
id_of op = []

-- The world after the client has run the operation.
abbrev pub run : Env → Client → Operation → World → World
run env c (user_register r) w = (register_user env c r w).1
run env c users_list w = (list_users env c w).1
run env c (user_deregister email) w = (deregister_user env c email w).1
run env c (origin_register r) w = (register_origin env c r w).1
run env c origins_list w = (list_origins env c w).1
run env c (origin_delete id) w = (delete_origin env c id w).1
run env c (challenge_create r) w = (create_challenge env c r w).1
run env c (challenge_status id) w = (get_challenge_status env c id w).1
