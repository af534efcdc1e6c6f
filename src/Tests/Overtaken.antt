-- ===== src/Tests/Overtaken.antt =====
-- The server has withdrawn a key between the answers to two goroutines.
use ztxbas.Base.{◌+◌, ◌≡◌, ◌==◌, refl, arith, some, [], ◌∷◌, if◌then◌else◌, update}
use ztxbas.Base.Result.{done}
use ztxbas.Base.Text.{Text, codes, same}
use ztxbas.Go.Encoding.{base64_decode}
use ztxbas.Go.Http.{read_all}
use ztxbas.Errors.{ok}
use ztxbas.Runtime.{Env, World, PublicKey}
use ztxbas.Jwks.{Keys, set_jwk_set, jwk_to_ecdsa, get_key, put_key, is_usable, collect, keys_of}
use ztxbas.Verifier.{parse_set, parse_jwks, fetch_jwks, store, key_for_kid, jwks_request, present}
use ztxbas.Verifier.Threads.{lookup, fetching, returned, System, look, turn, run}
use ztxbas.Verifier.Threads.Overtaken.{older_answer_wins}
use ztxbas.Verifier.Cache.{IsTrusted}
use ztxbas.Across.KeySets.{key_document}
use ztxbas.Tests.Sample.{
  sample_env, sample_verifier, sample_keys, base_point, base_jwk, answer, documents, start,
  sample_url,
}

-- The first answer has the key k1, and every other one k2 in its place.
abbrev turning_env : Env
turning_env = record sample_env {
  exchange =
      λ k hc r. if k == 0 then done (answer 200 (codes "k")) else done (answer 200 (codes "z"));
  parse_json = λ b.
      if same b (codes "z")
      then done (key_document (record base_jwk { kid = codes "k2" } ∷ []))
      else documents b;
}

abbrev new_keys : Keys
new_keys = (codes "k2", base_point) ∷ []

abbrev first_sent : World
first_sent = record { step = 1; sent = jwks_request sample_url ∷ [] }

-- The first goroutine has looked, and is about to fetch; the second has not looked yet.
abbrev one_ahead : System
one_ahead = record {
  session = (sample_verifier, start);
  at = update (λ i. lookup (codes "k2")) 0 (fetching (codes "k2"));
}

old_answer : fetch_jwks turning_env sample_verifier start ≡ (ok sample_keys, first_sent)
unfolding fetch_jwks parse_jwks parse_set set_jwk_set keys_of collect put_key is_usable jwk_to_ecdsa
    base64_decode same read_all
old_answer = refl

-- Meanwhile the second has looked, fetched, and stored the newer answer.
newer_stored : (run turning_env (0 ∷ 1 ∷ 1 ∷ 1 ∷ []) one_ahead).session.0.keys ≡ new_keys
unfolding run turn look store get_key fetch_jwks parse_jwks parse_set set_jwk_set keys_of collect
    put_key is_usable jwk_to_ecdsa base64_decode same read_all
newer_stored = refl

older_answer_wins_example :
    let t = run turning_env (0 ∷ 1 ∷ 1 ∷ 1 ∷ []) one_ahead in
    let u = run turning_env (0 ∷ 1 ∷ 1 ∷ 1 ∷ 0 ∷ []) one_ahead in
    let stored_at = (turning_env.now t.session.1.step).mono in
    (u.session.0.keys ≡ sample_keys)
    × (u.session.0.fetched_at ≡ some stored_at)
    × (u.at 0
        ≡ returned
            (codes "k2")
            (present turning_env (codes "k2") (get_key (codes "k2") sample_keys)))
    × ((k : Text) (key : PublicKey)
        → get_key k sample_keys ≡ some key
        → IsTrusted (some stored_at) (turning_env.now (t.session.1.step + 1)).mono
        → (key_for_kid turning_env k u.session).0 ≡ ok key)
older_answer_wins_example =
    older_answer_wins turning_env 0 (codes "k2") (1 ∷ 1 ∷ 1 ∷ []) one_ahead sample_keys first_sent
      refl old_answer ((λ e. omega arith), ((λ e. omega arith), ((λ e. omega arith), tt)))
