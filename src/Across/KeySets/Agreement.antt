-- ===== src/Across/KeySets/Agreement.antt =====
-- The three SDKs on one key set.
use ztxbas.Base.{All, ◌≡◌, true, List, []}
use ztxbas.Base.Result.{done}
use ztxbas.Base.Text.{Bytes}
use ztxbas.Runtime.{Env}
use ztxbas.Jwks.{Jwk, set_jwk_set, keys_of}
use ztxbas.Python.KeySet.{Reader, returns, if_returned, read_set}
use ztxbas.Node.KeySet.{Crypto, refresh}
use ztxbas.Across.KeySets.{key_document, HasCoordinates, if_ok, set_jwk_set-key_document}
use ztxbas.Across.KeySets.Python.{ReadsKeys, python_set_agrees}
use ztxbas.Across.KeySets.Node.{ReadsJwks, if_usable, node_set_agrees}

-- A JSON document that is written from a list of JWKs is decoded by the Go SDK as that list; and
-- where each JWK of P-256 has coordinates that are the unpadded base64 of 32 bytes, and the
-- answer is this document, the Python SDK and the Node SDK each read the map of keys from it that
-- the Go SDK makes of the list, or fail where it fails: where `urlsafe_b64decode` decodes padded
-- base64, and `public_key` and, of a JWK of P-256 with such coordinates, `createPublicKey` give
-- the point and refuse what is not on the curve.
pub key_sets_agree :
    (env : Env) (reader : Reader) (crypto : Crypto) (ks : List Jwk) (raw : Bytes)
    → ReadsKeys reader
    → ReadsJwks crypto
    → reader.loads raw ≡ done (key_document ks)
    → All HasCoordinates ks
    → (set_jwk_set (key_document ks) [] ≡ (ks, true))
      × (if_returned (read_set reader (returns raw)) ≡ if_ok (keys_of env ks))
      × (if_usable (refresh crypto (done (200, done (key_document ks)))) ≡ if_ok (keys_of env ks))
key_sets_agree env reader crypto ks raw python node loaded all = (
  set_jwk_set-key_document ks,
  python_set_agrees reader python env ks raw loaded all,
  node_set_agrees crypto node env ks all,
)
