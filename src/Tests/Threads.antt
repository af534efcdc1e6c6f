-- ===== src/Tests/Threads.antt =====
-- Many goroutines.
use ztxbas.Base.{inl, inr, ℕ, ◌≡◌, ◌≢◌, refl, arith, none, some, [], ◌∷◌, update}
use ztxbas.Base.Text.{codes, same}
use ztxbas.Go.Encoding.{base64_decode}
use ztxbas.Go.Http.{read_all}
use ztxbas.Errors.{Err, ok}
use ztxbas.Jwks.{set_jwk_set, jwk_to_ecdsa, get_key, put_key, is_usable, collect, keys_of}
use ztxbas.Jwks.Curve.{IsOnCurve}
use ztxbas.Verifier.{parse_set, parse_jwks, fetch_jwks, store, jwks_request}
use ztxbas.Verifier.Threads.{
  idle, advance, lookup, returned, System, look, turn, run, Reach, start, later, call, move,
}
use ztxbas.Verifier.Threads.Provenance.{Fetches, IsOffered, returned_sound}
use ztxbas.Verifier.Threads.Stampede.{run_stampede}
use ztxbas.Login.Race
use ztxbas.Login.Race.Safe.{race_sound}
use ztxbas.Login.Sound.{first_verifier}
use ztxbas.Tests.Sample as Sample
use ztxbas.Tests.Sample.{
  sample_env, sample_verifier, warm_verifier, base_point, sample_client, sample_url,
}
use ztxbas.Tests.Runs.{k2_unknown}

abbrev one_lookup : System
one_lookup = record { session = (sample_verifier, Sample.start); at = λ i. lookup (codes "k1") }

-- One goroutine looks the key up, from a cold cache.
looked_up : Reach sample_env sample_verifier Sample.start (
    advance sample_env 0 (
      advance sample_env 0 (
        advance sample_env 0 (record {
          session = (sample_verifier, Sample.start);
          at = update (λ i. idle) 0 (lookup (codes "k1"));
        }))))
looked_up = later (later (later (later start (call 0 (codes "k1") tt)) (move 0)) (move 0)) (move 0)

got_key :
    (advance sample_env 0 (
        advance sample_env 0 (
          advance sample_env 0 (record {
            session = (sample_verifier, Sample.start);
            at = update (λ i. idle) 0 (lookup (codes "k1"));
          })))).at
      0
    ≡ returned (codes "k1") (ok base_point)
unfolding turn look store fetch_jwks parse_jwks parse_set set_jwk_set keys_of collect get_key
    put_key is_usable jwk_to_ecdsa base64_decode same read_all
got_key = refl

returned_sound_example :
    IsOnCurve base_point
    × IsOffered sample_env sample_verifier
        (Fetches sample_env sample_verifier looked_up)
        (codes "k1")
        base_point
returned_sound_example =
    returned_sound sample_env sample_verifier 0 (codes "k1") base_point looked_up tt got_key

-- The cache is warm and has another id. Three look, the last first; then the second fetches and stores, the third
-- fetches, and the second has another turn.
abbrev three_ask : System
three_ask = record { session = (warm_verifier, Sample.start); at = λ i. lookup (codes "k2") }

run_stampede_example :
    (run sample_env (2 ∷ 0 ∷ 1 ∷ 1 ∷ 1 ∷ 2 ∷ 1 ∷ []) three_ask).session.1.sent
    ≡ jwks_request sample_url ∷ jwks_request sample_url ∷ []
run_stampede_example =
    run_stampede sample_env (codes "k2") (2 ∷ 0 ∷ 1 ∷ []) (1 ∷ 1 ∷ 2 ∷ 1 ∷ []) three_ask sample_url
      (((λ e. omega arith), ((λ e. omega arith), tt)), (((λ e. omega arith), tt), (tt, tt)))
      (refl, (refl, (refl, tt)))
      (inr (inr (inl refl)), (inr (inr (inl refl)), (inl refl, (inr (inr (inl refl)), tt))))
      k2_unknown refl

-- Two goroutines have called `VerifyJWT`.
abbrev both_entered : Race.System
both_entered = record {
  shared = record { pointer = none; made = [] };
  at = update (update (λ i. Race.outside) 0 Race.entered) 1 Race.entered;
}

-- Both test the pointer before either sets it; then both set it, and the first reads it again.
abbrev raced : Race.System
raced = Race.advance sample_client 0 (
    Race.advance sample_client 1 (
      Race.advance sample_client 0
        (Race.advance sample_client 1 (Race.advance sample_client 0 both_entered))))

raced-Reach : Race.Reach sample_client raced
raced-Reach =
    Race.later
      (Race.later
        (Race.later
          (Race.later
            (Race.later (Race.later (Race.later Race.start (Race.enter 0 tt)) (Race.enter 1 tt))
              (Race.move 0))
            (Race.move 1))
          (Race.move 0))
        (Race.move 1))
      (Race.move 0)

race_sound_example :
    (raced.at 0 ≢ Race.panicked)
    × ((e : Err) → raced.at 0 ≢ Race.refused e)
    × ((p : ℕ)
        → raced.at 0 ≡ Race.calling p
        → Race.get_elem? p raced.shared.made ≡ some (first_verifier sample_client))
race_sound_example = race_sound sample_client 0 raced-Reach
