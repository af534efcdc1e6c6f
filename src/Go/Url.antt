-- ===== src/Go/Url.antt =====
-- `net/url`: escaping and reading of paths, and the printing of a URL that has a scheme and a host.
pub mod Laws
use ztxbas.Base.{
  ℕ, ◌+◌, ◌-◌, ◌*◌, ◌/◌, ◌%◌, Bool, true, false, ◌||◌, ◌&&◌, not, [], ◌∷◌, ◌++◌, Option, none, some,
  ◌==◌, ltb, leb, if◌then◌else◌,
}
use ztxbas.Base.Text.{Text, codes, same, is_empty}

-- A parsed URL. `userinfo` is the part up to the `@`, as it is printed; `host` is as it is printed.
-- The fragment is kept as printed too. There is no opaque part, since a host is there.
pub record Url : Type 0 where
  pub scheme : Text
  pub userinfo : Text
  pub host : Text
  pub path : Text
  pub raw_path : Text
  pub raw_query : Text
  pub fragment : Text

pub is_unreserved : ℕ → Bool
is_unreserved c =
    leb b'a' c && leb c b'z'
    || leb b'A' c && leb c b'Z'
    || leb b'0' c && leb c b'9'
    || c == b'-'
    || c == b'_'
    || c == b'.'
    || c == b'~'

-- $ & + : = @
pub is_plain_reserved : ℕ → Bool
is_plain_reserved c = c == b'$' || c == b'&' || c == b'+' || c == b':' || c == b'=' || c == b'@'

-- `shouldEscape` in the mode `encodePathSegment`.
unfoldable pub escapes_in_segment : ℕ → Bool
unfolding is_unreserved is_plain_reserved
escapes_in_segment c = not (is_unreserved c || is_plain_reserved c)

-- `shouldEscape` in the mode `encodePath`, which lets `/`, `;` and `,` stand as well.
unfoldable pub escapes_in_path : ℕ → Bool
unfolding is_unreserved is_plain_reserved
escapes_in_path c =
    not (is_unreserved c || is_plain_reserved c || c == b'/' || c == b';' || c == b',')

abbrev pub upper_hex : ℕ → ℕ
upper_hex n = if ltb n 10 then b'0' + n else b'A' + (n - 10)

abbrev pub unhex : ℕ → Option ℕ
unhex c =
    if leb b'0' c && leb c b'9'
    then some (c - b'0')
    else if leb b'a' c && leb c b'f'
    then some (c - b'a' + 10)
    else if leb b'A' c && leb c b'F'
    then some (c - b'A' + 10)
    else none

unfoldable pub escape : (ℕ → Bool) → Text → Text
escape p [] = []
escape p (c ∷ s) =
    let rest = escape p s in
    if p c then b'%' ∷ upper_hex (c / 16) ∷ upper_hex (c % 16) ∷ rest else c ∷ rest

-- The value of two hexadecimal digits, put before the rest.
abbrev pair : Option ℕ → Option ℕ → Option Text → Option Text
pair (some h) (some l) (some s) = some ((h * 16 + l) ∷ s)
pair _ _ _ = none

abbrev keep : ℕ → Option Text → Option Text
keep c none = none
keep c (some s) = some (c ∷ s)

-- `unescape` in the mode `encodePath`.
unfoldable pub unescape : Text → Option Text
unescape [] = some []
unescape (c ∷ []) = if c == b'%' then none else some (c ∷ [])
unescape (c ∷ d ∷ []) = if c == b'%' || d == b'%' then none else some (c ∷ d ∷ [])
unescape (c ∷ d ∷ e ∷ s) = elim (c == b'%') [
  | true ↦ pair (unhex d) (unhex e) (unescape s)
  | false ↦ keep c (unescape (d ∷ e ∷ s))
]

-- `url.PathEscape`.
unfoldable pub path_escape : Text → Text
unfolding escape escapes_in_segment
path_escape s = escape escapes_in_segment s

-- What `validEncoded` lets stand: also ! ' ( ) * [ ] and the percent sign.
pub valid_encoded : Text → Bool
unfolding escapes_in_path
valid_encoded [] = true
valid_encoded (c ∷ s) =
    (not (escapes_in_path c)
      || c == b'!'
      || c == 39
      || c == b'('
      || c == b')'
      || c == b'*'
      || c == b'['
      || c == b']'
      || c == b'%')
    && valid_encoded s

abbrev is_path : Text → Option Text → Bool
is_path p none = false
is_path p (some q) = same q p

-- `URL.EscapedPath`: the path as the URL was written, if that still is an encoding of it.
unfoldable pub escaped_path : Url → Text
escaped_path u =
    if not (is_empty u.raw_path) && valid_encoded u.raw_path && is_path u.path (unescape u.raw_path)
    then u.raw_path
    else if same u.path (codes "*")
    then codes "%2A"
    else escape escapes_in_path u.path

-- `URL.String` after the host: a path that does not begin with a slash gets one.
abbrev pub rooted : Text → Text
rooted [] = []
rooted (c ∷ s) = if c == b'/' then c ∷ s else b'/' ∷ c ∷ s

abbrev led : ℕ → Text → Text
led c [] = []
led c (d ∷ s) = c ∷ d ∷ s

unfoldable pub url_string : Url → Text
url_string u =
    u.scheme
    ++ codes "://"
    ++ u.userinfo
    ++ u.host
    ++ rooted (escaped_path u)
    ++ led b'?' u.raw_query
    ++ led b'#' u.fragment
