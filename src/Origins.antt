-- ===== src/Origins.antt =====
-- sdk-go/origins.go.
use ztxbas.Base.{List, [], ◌∷◌, ◌++◌, none, some}
use ztxbas.Base.Text.{Text, codes}
use ztxbas.Go.Url.{path_escape}
use ztxbas.Go.Json.{Json, str, member, end, obj, Setter, set_text, set_struct, set_list}
use ztxbas.Runtime.{Env, Exec, World}
use ztxbas.Client.{Client, do_request}

pub record RegisterOriginRequest : Type 0 where
  pub origin : Text
  pub display_name : Text

unfoldable pub register_origin_json : RegisterOriginRequest → Json
register_origin_json r = obj (
    member (codes "origin") (str r.origin) (member (codes "display_name") (str r.display_name) end))

pub record Origin : Type 0 where
  pub id : Text
  pub origin : Text
  pub origin_hash : Text
  pub display_name : Text

abbrev pub blank_origin : Origin
blank_origin = record { id = []; origin = []; origin_hash = []; display_name = [] }

unfoldable pub set_origin : Setter Origin
unfolding set_struct set_text
set_origin = set_struct (
    (codes "id", λ j o. let (t, fits) = set_text j o.id in (record o { id = t }, fits))
    ∷ (
      codes "origin",
      λ j o. let (t, fits) = set_text j o.origin in (record o { origin = t }, fits),
    )
    ∷ (
      codes "origin_hash",
      λ j o. let (t, fits) = set_text j o.origin_hash in (record o { origin_hash = t }, fits),
    )
    ∷ (
      codes "display_name",
      λ j o. let (t, fits) = set_text j o.display_name in (record o { display_name = t }, fits),
    )
    ∷ [])

-- The struct with the one member `origins`.
unfoldable pub set_origins : Setter (List Origin)
unfolding set_struct set_list set_origin
set_origins = set_struct ((codes "origins", set_list set_origin blank_origin) ∷ [])

abbrev pub origin_path : Text → Text
origin_path id = codes "/v1/origins/" ++ path_escape id

module _ (env : Env) where
  unfoldable pub register_origin : Client → RegisterOriginRequest → Exec World Origin
  register_origin c req w =
      do_request env c (codes "POST") (codes "/v1/origins") (some (register_origin_json req))
        blank_origin (some set_origin) w

  unfoldable pub list_origins : Client → Exec World (List Origin)
  list_origins c w =
      do_request env c (codes "GET") (codes "/v1/origins") none [] (some set_origins) w

  unfoldable pub delete_origin : Client → Text → Exec World (Unit {0})
  delete_origin c id w = do_request env c (codes "DELETE") (origin_path id) none tt none w
