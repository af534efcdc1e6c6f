-- ===== src/Tests/Tampered.antt =====
-- A signed request whose body was changed on the way.
use ztxbas.Base.{◌⊎◌, ◌≡◌, refl, sym, ◌∙◌, true, some, [], ◌∷◌, length, ◌%◌, arith}
use ztxbas.Base.Text.{Text, codes, same, is_empty}
use ztxbas.Go.Encoding.{hex_encode}
use ztxbas.Go.Http.{Request, header_get, header_set, canonical_key}
use ztxbas.Go.Url.{unescape, escaped_path, escape, escapes_in_path}
use ztxbas.Go.Strings.Decimal.{format_int, format_int-Lacks}
use ztxbas.Runtime.{Env}
use ztxbas.Sign.{canonical, signature, sign_request, hdr_timestamp, hdr_nonce}
use ztxbas.Sign.Canonical.{IsBarless}
use ztxbas.Sign.Server.{accepts, accepts_path}
use ztxbas.Sign.Tamper.{IsRead, GivesBytes, Collide, accepts_tampered}
use ztxbas.Tests.Sample.{sample_env, sample_url}

-- A bad HMAC: the size of the message.
abbrev pub weak_env : Env
weak_env = record sample_env { hmac_sha256 = λ key message. length message % 256 ∷ [] }

pub weak-GivesBytes : GivesBytes weak_env
weak-GivesBytes secret message = omega arith

abbrev order : Request
order = record {
  method = codes "POST";
  url = record sample_url { path = codes "/v1/users" };
  headers = [];
  body = codes "a@b";
}

abbrev tampered : Request
tampered =
    record (sign_request weak_env order order.body (codes "app") (codes "s3") (sample_env.now 3)
      (codes "0f")) { body = codes "c@d" }

tampered_read :
    (unescape (escaped_path tampered.url) ≡ some (codes "/v1/users"))
    × (header_get hdr_timestamp tampered.headers ≡ some (format_int (sample_env.now 3).unix))
    × (header_get hdr_nonce tampered.headers ≡ some (codes "0f"))
unfolding sign_request escaped_path escape unescape escapes_in_path header_get header_set
    canonical_key same is_empty
tampered_read = (refl, refl, refl)

-- The changed body has the size of the old one, so that the bad HMAC is the same.
tampered_accepted : accepts weak_env (codes "s3") tampered ≡ true
unfolding sign_request escaped_path escape unescape escapes_in_path header_get header_set
    canonical_key same is_empty accepts accepts_path signature canonical format_int hex_encode
tampered_accepted = refl

order_clear :
    IsBarless (codes "POST") (codes "/v1/users") (format_int (sample_env.now 3).unix) (codes "0f")
order_clear = record {
  method_clear = omega arith;
  path_clear = omega arith;
  time_clear = format_int-Lacks (sample_env.now 3).unix;
  nonce_clear = omega arith;
}

some_eq : (s t : Text) → some s ≡ some t → s ≡ t
some_eq s t e = cc

tampered_clear :
    (path ts n sig : Text) → IsRead tampered path ts n sig → IsBarless (codes "POST") path ts n
tampered_clear path ts n sig read =
    let (at, time, nonce) = tampered_read in
    rw
      (
        ← some_eq _ path (sym at ∙ read.is_path),
        ← some_eq _ ts (sym time ∙ read.is_time),
        ← some_eq _ n (sym nonce ∙ read.is_nonce),
      )
      order_clear

accepts_tampered_example :
    (path ts n sig : Text) × IsRead tampered path ts n sig
    × (((codes "POST" ≡ codes "POST")
          × (path ≡ codes "/v1/users")
          × (ts ≡ format_int (sample_env.now 3).unix)
          × (n ≡ codes "0f")
          × (codes "c@d" ≡ codes "a@b"))
        ⊎ Collide weak_env (codes "s3") (canonical (codes "POST") path ts n (codes "c@d")) (
            canonical
              (codes "POST")
              (codes "/v1/users")
              (format_int (sample_env.now 3).unix)
              (codes "0f")
              (codes "a@b")))
unfolding sign_request
accepts_tampered_example =
    accepts_tampered weak_env (codes "s3") order tampered (codes "app") (codes "0f")
      (sample_env.now 3) weak-GivesBytes order_clear tampered_clear tampered_accepted refl
