-- ===== src/Client/Paths.antt =====
-- The path of a request: what is signed, what is sent, and what the server reads.
use ztxbas.Base.{ℕ, ◌≡◌, refl, ap, ◌∙◌, false, [], ◌∷◌, ◌++◌, arith, All, All-append}
use ztxbas.Base.Result.{done}
use ztxbas.Base.Text.{Text, Bytes, IsByte, codes, same, same_iff}
use ztxbas.Go.Url.{Url, unescape, escaped_path, escape, escapes_in_path, rooted}
use ztxbas.Go.Url.Laws.{unescape-escaped_path}
use ztxbas.Go.Http.{Request}
use ztxbas.Client.{target, new_request, request_at}

-- A path as `url.Parse` leaves it behind a host: empty, or from a slash on.
abbrev pub IsRooted : Text → Type 0
IsRooted p = rooted p ≡ p

-- What the base URL of a client is like.
pub record IsBase (u : Url) : Type 0 where
  pub path_rooted : IsRooted u.path
  pub raw_rooted : IsRooted u.raw_path
  pub path_bytes : All IsByte u.path

IsRooted-append : (p q : Text) → IsRooted p → IsRooted q → IsRooted (p ++ q)
IsRooted-append [] q hp hq = hq
IsRooted-append (c ∷ p) q hp hq = ground arith

slash_first : (c : ℕ) (p : Text) → IsRooted (c ∷ p) → c ≡ b'/'
slash_first c p h = ground arith

IsRooted-escape : (p : Text) → IsRooted p → IsRooted (escape escapes_in_path p)
unfolding escape escapes_in_path
IsRooted-escape [] h = refl
IsRooted-escape (c ∷ p) h = ground (arith, slash_first c p h)

star_not_rooted : (p : Text) → IsRooted p → same p (codes "*") ≡ false
star_not_rooted p h = ground (arith, same_iff p (codes "*"))

IsRooted-escaped_path :
    (u : Url) → IsRooted u.path → IsRooted u.raw_path → IsRooted (escaped_path u)
unfolding escaped_path
IsRooted-escaped_path u h hr = ground (arith, star_not_rooted u.path h, IsRooted-escape u.path h)

-- For a base URL whose path is empty or begins with a slash, and such a path of bytes, the
-- request is made from the printed URL, and has the method, the body and the host that were
-- given, the two paths behind each other as its path, and no query.
pub new_request_lem :
    (method : Text) (base : Url) (path : Text) (body : Bytes)
    → IsBase base
    → IsRooted path
    → All IsByte path
    → (r : Request) × (new_request method (target base path) body ≡ done r)
      × (r.method ≡ method)
      × (r.body ≡ body)
      × (r.url.path ≡ base.path ++ path)
      × (r.url.raw_query ≡ [])
      × (r.url.host ≡ base.host)
unfolding new_request
new_request_lem method base path body b h bytes =
    let u = target base path in
    let wire_rooted =
      IsRooted-escaped_path u (IsRooted-append base.path path b.path_rooted h) b.raw_rooted in
    let read_back = unescape-escaped_path u (All-append IsByte base.path path b.path_bytes bytes) in
    (
      _,
      ap (request_at method u _ body) (ap unescape wire_rooted ∙ read_back),
      refl,
      refl,
      refl,
      refl,
      refl,
    )
