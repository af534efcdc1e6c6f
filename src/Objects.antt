-- ===== src/Objects.antt =====
-- JSON objects as the dictionaries of Python and the objects of JavaScript, and maps with keys of any type.
use ztxbas.Base.{Bool, true, false, [], Option, none, some, if◌then◌else◌}
use ztxbas.Base.Text.{Text, same}
use ztxbas.Go.Json.{Json, str, Members, end, member}
use ztxbas.Jwks.{Keys}

-- The value of a name: the last member counts.
unfoldable pub get_member : Text → Members → Option Json
get_member name end = none
get_member name (member k j ms) = elim (get_member name ms) [
  | some i ↦ some i
  | none ↦ if same k name then some j else none
]

abbrev pub is_text : Text → Option Json → Bool
is_text t (some (str s)) = same s t
is_text t _ = false

-- The map, and whether it has a key whose id is not a text: no text finds that one.
abbrev pub Found : Type 0
Found = Keys × Bool

abbrev pub is_nothing : Found → Bool
is_nothing ([], false) = true
is_nothing _ = false
