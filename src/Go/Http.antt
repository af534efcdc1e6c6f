-- ===== src/Go/Http.antt =====
-- `net/http`: clients, requests, responses, and headers under their canonical keys.
use ztxbas.Base.{
  ℕ, ◌+◌, ◌-◌, Bool, true, false, ◌&&◌, List, [], ◌∷◌, Option, none, some, ◌==◌, leb, if◌then◌else◌,
  take, length, ◌≡◌, arith,
}
use ztxbas.Base.Text.{Text, Bytes, same, same_iff}
use ztxbas.Go.Url.{Url}

-- What sets one `http.Client` apart from another: its timeout in nanoseconds, and the rest by a
-- number.
pub record HttpClient : Type 0 where
  pub timeout : ℕ
  pub transport : ℕ

abbrev pub Headers : Type 0
Headers = List (Text × Text)

pub record Request : Type 0 where
  pub method : Text
  pub url : Url
  pub headers : Headers
  pub body : Bytes

-- A body, and the error with which reading it ends, if it does not end by itself.
pub record Response : Type 0 where
  pub status : ℕ
  pub body : Bytes
  pub broken : Option Text

-- `textproto.CanonicalMIMEHeaderKey` at a key of letters and dashes: the first letter and each
-- letter behind a dash in upper case, the others in lower case.
canonical_from : Bool → Text → Text
canonical_from upper [] = []
canonical_from true (c ∷ s) =
    (if leb b'a' c && leb c b'z' then c - 32 else c) ∷ canonical_from (c == b'-') s
canonical_from false (c ∷ s) =
    (if leb b'A' c && leb c b'Z' then c + 32 else c) ∷ canonical_from (c == b'-') s

unfoldable pub canonical_key : Text → Text
unfolding canonical_from
canonical_key s = canonical_from true s

put : Text → Text → Headers → Headers
put k v [] = (k, v) ∷ []
put k v ((j, w) ∷ h) = if same j k then (k, v) ∷ h else (j, w) ∷ put k v h

find : Text → Headers → Option Text
find k [] = none
find k ((j, w) ∷ h) = if same j k then some w else find k h

-- `Header.Set`, which replaces what stood under the key.
unfoldable pub header_set : Text → Text → Headers → Headers
unfolding put
header_set k v h = put (canonical_key k) v h

-- `Header.Get`; `none` where no such header is there.
unfoldable pub header_get : Text → Headers → Option Text
unfolding find
header_get k h = find (canonical_key k) h

find-put :
    (k j v : Text) (h : Headers) → find j (put k v h) ≡ (if same k j then some v else find j h)
unfolding find put
find-put k j v [] = ground arith
find-put k j v ((i, w) ∷ h) =
    ground (arith, find-put k j v h, same_iff k j, same_iff i k, same_iff i j)

pub header_get-header_set :
    (k j v : Text) (h : Headers)
    → header_get j (header_set k v h)
      ≡ (if same (canonical_key k) (canonical_key j) then some v else header_get j h)
unfolding header_get header_set
header_get-header_set k j v h = find-put (canonical_key k) (canonical_key j) v h

-- `io.ReadAll(io.LimitReader(body, n))`: the bytes, and the error if it comes before the limit.
unfoldable pub read_all : ℕ → Response → Bytes × Option Text
read_all n r = (take n r.body, if leb n (length r.body) then none else r.broken)
