-- ===== src/Tests/Node.antt =====
-- The Node SDK beside the Go SDK.
use ztxbas.Base.{
  [], ◌≤◌, ◌+◌, ◌*◌, ◌<◌, ℕ, ◌≡◌, ◌↔◌, refl, Bool, false, Option, ◌∷◌, none, some, arith,
}
use ztxbas.Base.Result.{done}
use ztxbas.Base.Text.{Text, Bytes, codes}
use ztxbas.Errors.{ok}
use ztxbas.Runtime.{PublicKey}
use ztxbas.Token.{check_signature}
use ztxbas.Node.Der.{passed, check_raw}
use ztxbas.Node.Der.Reading.{read_signature}
use ztxbas.Node.Der.Agreement.{ReadsDer, check_raw-check_signature}
use ztxbas.Jwks.{get_key}
use ztxbas.Node.KeySet.{usable}
use ztxbas.Node.Coalesce.{
  awaiting, call_begins, refreshed, State, Reach, start, later, call, refresh_ends, new_state,
}
use ztxbas.Node.Coalesce.Waits.{HasBegun}
use ztxbas.Node.Coalesce.Single.{IsUnderWay, coalesced}
use ztxbas.Node.Poll.{Ended, poll_challenge}
use ztxbas.Node.Poll as Poll
use ztxbas.Node.Poll.Returns.{EndsIn, poll_challenge_ends}
use ztxbas.Tests.Sample.{sample_env, base_point, zeros}

-- It reads the DER form, or refuses.
abbrev verify_numbers : PublicKey → Bytes → Option (ℕ × ℕ) → Bool
verify_numbers key message none = false
verify_numbers key message (some (r, s)) =
    sample_env.ecdsa_verify key (sample_env.sha256 message) r s

abbrev sample_crypto : PublicKey → Bytes → Bytes → Bool
sample_crypto key message der = verify_numbers key message (read_signature der)

sample-ReadsDer : ReadsDer sample_env sample_crypto
sample-ReadsDer key message der r s e = rw e refl

check_raw-check_signature_example :
    (check_raw sample_crypto base_point (codes "e30") (codes "e30") (255 ∷ zeros 63) ≡ passed)
    ↔ (check_signature sample_env base_point (codes "e30") (codes "e30") (255 ∷ zeros 63) ≡ ok tt)
check_raw-check_signature_example =
    check_raw-check_signature sample_env sample_crypto base_point (codes "e30") (codes "e30")
      (255 ∷ zeros 63) sample-ReadsDer (omega arith)

-- Two calls miss the empty cache one after the other.
abbrev both_missed : State
both_missed = call_begins 0 1 (codes "k1") (call_begins 0 0 (codes "k1") new_state)

-- The one refresh ends.
abbrev answered_once : State
answered_once = refreshed 5 0 (usable ((codes "k1", base_point) ∷ [])) both_missed

answered_once-Reach : Reach answered_once
unfolding get_key
answered_once-Reach =
    later (later (later start (call 0 0 (codes "k1") tt)) (call 0 1 (codes "k1") tt))
      (refresh_ends 5 0 (usable ((codes "k1", base_point) ∷ [])) refl)

coalesced_example :
    (answered_once.sent ≤ answered_once.answered + 1)
    × ((m n : ℕ)
        → IsUnderWay (answered_once.phases m)
        → IsUnderWay (answered_once.phases n)
        → m ≡ n)
    × ((i n : ℕ) (kid : Text)
        → answered_once.at i ≡ awaiting n kid
        → HasBegun (answered_once.phases n))
coalesced_example = coalesced answered_once-Reach

-- The challenge stays pending; the clock is that of the sleeps.
abbrev pending_host : Poll.Host Text
pending_host = record {
  started = 100;
  clock = λ r. 100 + r * 1500;
  status = λ r. done (record { status = codes "pending"; jwt = [] });
  verify = λ r t. done t;
}

poll_challenge_ends_example :
    (e : Ended Text) × (r : ℕ) × (poll_challenge pending_host 1500 6000 4 ≡ some (e, r))
    × (r < 4)
    × EndsIn pending_host 6100 1500 0 e r
poll_challenge_ends_example =
    poll_challenge_ends pending_host 1500 6000 4 (λ r. omega arith) (omega arith) (omega arith)
      (omega arith)
