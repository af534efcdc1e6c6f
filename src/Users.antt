-- ===== src/Users.antt =====
-- sdk-go/users.go.
use ztxbas.Base.{Bool, false, List, [], ◌∷◌, none, some, if◌then◌else◌}
use ztxbas.Base.Text.{Text, codes, is_empty}
use ztxbas.Go.Json.{Json, str, member, end, obj, Setter, set_text, set_bool, set_struct, set_list}
use ztxbas.Runtime.{Env, Exec, World}
use ztxbas.Client.{Client, do_request}

pub record RegisterUserRequest : Type 0 where
  pub email : Text
  pub external_id : Text

-- An empty external id is left out.
unfoldable pub register_user_json : RegisterUserRequest → Json
register_user_json r =
    let rest =
      if is_empty r.external_id
      then end
      else member (codes "external_id") (str r.external_id) end in
    obj (member (codes "email") (str r.email) rest)

pub record User : Type 0 where
  pub id : Text
  pub email : Text
  pub external_id : Text
  pub enrolled : Bool

abbrev pub blank_user : User
blank_user = record { id = []; email = []; external_id = []; enrolled = false }

unfoldable pub set_user : Setter User
unfolding set_struct set_text set_bool
set_user = set_struct (
    (codes "id", λ j u. let (t, fits) = set_text j u.id in (record u { id = t }, fits))
    ∷ (codes "email", λ j u. let (t, fits) = set_text j u.email in (record u { email = t }, fits))
    ∷ (
      codes "external_id",
      λ j u. let (t, fits) = set_text j u.external_id in (record u { external_id = t }, fits),
    )
    ∷ (
      codes "enrolled",
      λ j u. let (b, fits) = set_bool j u.enrolled in (record u { enrolled = b }, fits),
    )
    ∷ [])

-- The struct with the one member `users`.
unfoldable pub set_users : Setter (List User)
unfolding set_struct set_list set_user
set_users = set_struct ((codes "users", set_list set_user blank_user) ∷ [])

module _ (env : Env) where
  unfoldable pub register_user : Client → RegisterUserRequest → Exec World User
  register_user c req w =
      do_request env c (codes "POST") (codes "/v1/users") (some (register_user_json req)) blank_user
        (some set_user) w

  unfoldable pub list_users : Client → Exec World (List User)
  list_users c w = do_request env c (codes "GET") (codes "/v1/users") none [] (some set_users) w

  unfoldable pub deregister_user : Client → Text → Exec World (Unit {0})
  deregister_user c email w =
      do_request env c (codes "DELETE") (codes "/v1/users")
        (some (obj (member (codes "email") (str email) end))) tt none w
