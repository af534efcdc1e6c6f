-- ===== src/Tests/Tokens.antt =====
-- Keys, the verifier and tokens.
use ztxbas.Base.{none, some, ◌≡◌, ◌≢◌, ◌↔◌, refl, arith, ◌-◌, ◌^◌, [], ◌∷◌}
use ztxbas.Base.Int.{pos}
use ztxbas.Base.Text.{Text, codes}
use ztxbas.Errors.{ok, err}
use ztxbas.Jwks.{jwk_to_ecdsa, get_key}
use ztxbas.Jwks.Curve.{Decodes, jwk_to_ecdsa_iff}
use ztxbas.Verifier.{key_for_kid}
use ztxbas.Verifier.Cache.{IsTrusted, Fetches, key_for_kid-Fetches}
use ztxbas.Runtime.{PublicKey, after}
use ztxbas.Token.{Claims, check_claims, unsupported, verify}
use ztxbas.Token.Parts.{IsToken}
use ztxbas.Token.Expiry.{Passes, check_claims_iff, expiry_wraps}
use ztxbas.Token.Accepted.{Accepted, verify_iff}
use ztxbas.Token.Effects.{Harmless, verify-Harmless, verify_other_alg}
use ztxbas.Tests.Sample.{
  sample_env, sample_token, sample_verifier, start, sample_claims, none_token, claims_part,
  sig_part, warm_verifier, base_point, base_jwk,
}
use ztxbas.Jwks.{Keys, keys_of}
use ztxbas.Jwks.Abstract.{last_key, AllDecode, HasUsable, keys_of_refines}
use ztxbas.Tests.Runs.{header_none}

verify_iff_example :
    ((verify sample_env sample_token (sample_verifier, start)).0 ≡ ok sample_claims)
    ↔ Accepted sample_env sample_token (sample_verifier, start) sample_claims
verify_iff_example = verify_iff sample_env sample_token (sample_verifier, start) sample_claims

none_token-IsToken : IsToken none_token (codes "bg") claims_part sig_part
none_token-IsToken = record {
  spelled = refl;
  header_clear = ground arith;
  payload_clear = ground arith;
  sig_clear = ground arith;
}

verify_other_alg_example :
    verify sample_env none_token (warm_verifier, start)
    ≡ (err (unsupported sample_env (codes "none")), (warm_verifier, start))
verify_other_alg_example =
    verify_other_alg sample_env none_token (codes "bg") claims_part sig_part _
      (warm_verifier, start) none_token-IsToken header_none (λ e. ground arith)

verify-Harmless_example :
    Harmless sample_env
      (sample_verifier, start)
      (verify sample_env sample_token (sample_verifier, start)).1
verify-Harmless_example = verify-Harmless sample_env sample_token (sample_verifier, start)

-- The cache is as old as the clock.
key_for_kid-Fetches_example :
    ((key : PublicKey)
      → get_key (codes "k1") warm_verifier.keys ≡ some key
      → (IsTrusted (some 0) 0
          → key_for_kid sample_env (codes "k1") (warm_verifier, start)
            ≡ (ok key, (warm_verifier, after start)))
        × ((IsTrusted (some 0) 0 → ⊥)
            → Fetches sample_env
                (codes "k1")
                warm_verifier
                (after start)
                (key_for_kid sample_env (codes "k1") (warm_verifier, start))))
    × (get_key (codes "k1") warm_verifier.keys ≡ none
        → Fetches sample_env
            (codes "k1")
            warm_verifier
            start
            (key_for_kid sample_env (codes "k1") (warm_verifier, start)))
key_for_kid-Fetches_example = key_for_kid-Fetches sample_env (codes "k1") warm_verifier start

jwk_to_ecdsa_iff_example : (jwk_to_ecdsa base_jwk ≡ ok base_point) ↔ Decodes base_jwk base_point
jwk_to_ecdsa_iff_example = jwk_to_ecdsa_iff base_jwk base_point

check_claims_iff_example :
    (check_claims sample_env (codes "ztxbas") (pos 1000) sample_claims ≡ ok sample_claims)
    ↔ ((sample_claims ≡ sample_claims) × Passes (codes "ztxbas") (pos 1000) sample_claims)
check_claims_iff_example =
    check_claims_iff sample_env (codes "ztxbas") (pos 1000) sample_claims sample_claims

abbrev late_claims : Claims
late_claims = record sample_claims { expires_at = pos (2 ^ 63 - 1) }

expiry_wraps_example : check_claims sample_env [] (pos 1000) late_claims ≢ ok late_claims
expiry_wraps_example =
    expiry_wraps sample_env [] 1000 late_claims (2 ^ 63 - 1) refl (omega arith) (omega arith)
      late_claims

keys_of_refines_example :
    ((m : Keys) (kid : Text)
      → keys_of sample_env (base_jwk ∷ []) ≡ ok m
      → get_key kid m ≡ last_key (base_jwk ∷ []) kid)
    × (((m : Keys) × (keys_of sample_env (base_jwk ∷ []) ≡ ok m))
        ↔ (AllDecode (base_jwk ∷ []) × HasUsable (base_jwk ∷ [])))
keys_of_refines_example = keys_of_refines sample_env (base_jwk ∷ [])
