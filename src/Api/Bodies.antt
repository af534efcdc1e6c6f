-- ===== src/Api/Bodies.antt =====
-- The request bodies against the answers' fields.
use ztxbas.Base.{◌≡◌, refl, true, [], ◌∷◌}
use ztxbas.Base.Text.{Text, same, is_empty}
use ztxbas.Users.{RegisterUserRequest, register_user_json, blank_user, set_user}
use ztxbas.Origins.{RegisterOriginRequest, register_origin_json, blank_origin, set_origin}

user_fields :
    (email external_id : Text)
    → set_user (register_user_json (record { email = email; external_id = external_id })) blank_user
      ≡ (record blank_user { email = email; external_id = external_id }, true)
unfolding set_user register_user_json is_empty same
user_fields email [] = refl
user_fields email (c ∷ s) = refl

-- The body of a user's registration, read as the answer's `User`, gives back the email and the
-- external id, also where that is left out because it is empty.
set_user-register_user_json :
    (r : RegisterUserRequest)
    → set_user (register_user_json r) blank_user
      ≡ (record blank_user { email = r.email; external_id = r.external_id }, true)
set_user-register_user_json r = user_fields r.email r.external_id

-- The body of an origin's registration, read as the answer's `Origin`, gives back the origin and
-- its display name.
set_origin-register_origin_json :
    (r : RegisterOriginRequest)
    → set_origin (register_origin_json r) blank_origin
      ≡ (record blank_origin { origin = r.origin; display_name = r.display_name }, true)
unfolding set_origin register_origin_json same
set_origin-register_origin_json r = refl

-- The body of a user's registration, read as the answer's `User`, gives back the email and the
-- external id, also where that is left out because it is empty; the body of an origin's
-- registration, read as the answer's `Origin`, gives back the origin and its display name.
pub bodies_read_back :
    (u : RegisterUserRequest) (o : RegisterOriginRequest)
    → (set_user (register_user_json u) blank_user
        ≡ (record blank_user { email = u.email; external_id = u.external_id }, true))
      × (set_origin (register_origin_json o) blank_origin
          ≡ (record blank_origin { origin = o.origin; display_name = o.display_name }, true))
bodies_read_back u o = (set_user-register_user_json u, set_origin-register_origin_json o)
