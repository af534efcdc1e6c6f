-- ===== src/Tests/Across.antt =====
-- The Python SDK's lookups, and the SDKs side by side.
use mathlib.Core.List.{Mem}
use ztxbas.Base.{
  ℕ, ◌+◌, ◌≤◌, ◌≡◌, refl, length, All, zero, suc, ◌++◌, Bool, true, false, inl, inr, Option-cases,
  if◌then◌else◌, ◌==◌, Option, List, [], ◌∷◌, none, some, update, arith,
}
use ztxbas.Base.Result.{Outcome, done, fault}
use ztxbas.Base.Text.{Text, Bytes, codes, same}
use ztxbas.Go.Encoding.{base64_decode, sextet}
use ztxbas.Jwks as Go
use ztxbas.Jwks.{Jwk, set_jwk_set, keys_of, get_key, is_on_curve, set_bytes, put_key}
use ztxbas.Python.KeySet.{
  Reader, equals_signs, if_returned, returns, read_set, is_usable, key_of, b64url_decode,
}
use ztxbas.Python.Lookup.{
  Host, fetch, Session, System, Answer, IsInside, returned, idle, waiting, checking, look, turn,
  advance, Reach, start, later, call, acquire, move, serial,
}
use ztxbas.Python.Lookup.Linear.{linearizable}
use ztxbas.Python.Lookup.Serial.{Serves, IsFound, burst}
use ztxbas.Across.KeySets.{
  jwk_members, IsBase64, IsCoordinate, HasCoordinates, if_done, if_ok, key_document,
}
use ztxbas.Across.KeySets.Python.{ReadsKeys}
use ztxbas.Across.KeySets.Node.{ReadsJwks, if_usable, point_of}
use ztxbas.Across.KeySets.Agreement.{key_sets_agree}
use ztxbas.Objects.{get_member}
use ztxbas.Node.KeySet.{Crypto, is_p256, refresh}
use ztxbas.Go.Json.{Json, str}
use ztxbas.Tests.Sample.{base_point, base_jwk, sample_env}

-- Base64 with its padding, by the model of Go's.
abbrev before_pad : Text → Text
before_pad [] = []
before_pad (c ∷ s) = if c == b'=' then [] else c ∷ before_pad s

abbrev given {ℓ} : {A : Type ℓ} → Option A → Outcome A
given none = fault (codes "bad")
given (some a) = done a

abbrev pub sample_reader : Reader
sample_reader = record {
  loads = λ b. done (key_document (base_jwk ∷ []));
  urlsafe_b64decode = λ t. given (base64_decode (before_pad t));
  public_key =
      λ x y. if is_on_curve x y then done (record { x = x; y = y }) else fault (codes "off");
  repr = λ j. [];
}

-- A host that always serves one key, at a time that stands still.
abbrev still_host : Host
still_host = record { clock = λ k. 7; http_get = λ k. returns []; reader = sample_reader }

abbrev cold : Session
cold = record { verifier = record { keys = []; fetched_at = 0 }; effects = 0; requests = 0 }

-- Two threads ask for the key, and wait at the lock.
abbrev both_wait : System
both_wait = record {
  session = cold;
  lock = none;
  at = update (update (λ i. idle) 0 (waiting (codes "k1"))) 1 (waiting (codes "k1"));
}

-- The second gets the lock, and looks, fetches and stores.
abbrev one_returned : System
one_returned = advance still_host 1 (
    advance still_host 1 (
      advance still_host 1
        (record both_wait { lock = some 1; at = update both_wait.at 1 (checking (codes "k1")) })))

one_returned-Reach : Reach still_host (λ k. k ≡ codes "k1") cold one_returned
unfolding turn look get_key fetch read_set same is_usable key_of b64url_decode base64_decode
    is_on_curve set_bytes put_key
one_returned-Reach =
    later
      (later
        (later
          (later (later (later start (call 0 (codes "k1") tt refl)) (call 1 (codes "k1") tt refl))
            (acquire 1 (codes "k1") refl refl))
          (move 1 tt))
        (move 1 tt))
      (move 1 tt)

still-Serves : Serves still_host (codes "k1") 10
unfolding get_key same fetch read_set is_usable key_of b64url_decode base64_decode is_on_curve
    set_bytes put_key
still-Serves = record {
  offered = λ k. ((codes "k1", base_point) ∷ [], base_point, refl, refl);
  quick = λ j k p q. omega arith;
}

linearizable_example :
    (calls : List (ℕ × Text)) × All (λ c. c.1 ≡ codes "k1") calls
    × (one_returned.lock ≡ none → one_returned.session ≡ (serial still_host calls cold).1)
    × ((i : ℕ) (kid : Text) (a : Answer)
        → one_returned.at i ≡ returned kid a
        → Mem (i, kid, a) (serial still_host calls cold).0)
    × ((i j : ℕ) → IsInside (one_returned.at i) → IsInside (one_returned.at j) → i ≡ j)
linearizable_example = linearizable still_host (λ k. k ≡ codes "k1") cold one_returned-Reach

burst_example :
    (one_returned.session.requests ≤ 0 + 1)
    × ((i : ℕ) (k : Text) (a : Answer) → one_returned.at i ≡ returned k a → IsFound a)
unfolding turn look get_key fetch read_set same is_usable key_of b64url_decode base64_decode
    is_on_curve set_bytes put_key
burst_example =
    burst still_host (codes "k1") 10 still-Serves cold refl one_returned-Reach refl (omega arith)

not-pad : (c d : ℕ) → sextet c ≡ some d → (c == b'=') ≡ false
unfolding sextet
not-pad c d e = ground arith

before_pad-equals_signs : (n : ℕ) → before_pad (equals_signs n) ≡ []
before_pad-equals_signs zero = refl
before_pad-equals_signs (suc n) = refl

before_pad-append : (t : Text) (n : ℕ) → IsBase64 t → before_pad (t ++ equals_signs n) ≡ t
before_pad-append [] n all = before_pad-equals_signs n
before_pad-append (c ∷ t) n ((d, e), all) = rw (not-pad c d e, before_pad-append t n all) refl

if_done-given {ℓ} : {A : Type ℓ} (o : Option A) → if_done (given o) ≡ o
if_done-given none = refl
if_done-given (some a) = refl

pub sample-ReadsKeys : ReadsKeys sample_reader
unfolding b64url_decode
sample-ReadsKeys = record {
  base64 = λ t all. rw (before_pad-append t _ all) (if_done-given (base64_decode t));
  points = λ x y. ground arith;
}

abbrev pub all_sextets : Text → Bool
all_sextets [] = true
all_sextets (c ∷ s) = elim (sextet c) [ none ↦ false | some d ↦ all_sextets s ]

pub all_sextets-IsBase64 : (t : Text) → all_sextets t ≡ true → IsBase64 t
all_sextets-IsBase64 [] e = tt
all_sextets-IsBase64 (c ∷ t) e = elim (Option-cases (sextet c)) [
  | inr (d, h) ↦ ((d, h), all_sextets-IsBase64 t (ground arith))
  | inl n ↦ absurd (ground arith)
]

-- A key of another type, with no coordinates.
abbrev rsa_jwk : Jwk
rsa_jwk = record base_jwk { kty = codes "RSA"; crv = []; x = []; y = [] }

-- The same with a key of another type in the set.
abbrev both_reader : Reader
both_reader = record sample_reader { loads = λ b. done (key_document (rsa_jwk ∷ base_jwk ∷ [])) }

both-ReadsKeys : ReadsKeys both_reader
unfolding b64url_decode
both-ReadsKeys = record {
  base64 = λ t all. sample-ReadsKeys.base64 t all;
  points = λ x y. sample-ReadsKeys.points x y;
}

abbrev text_bytes : Option Json → Option Bytes
text_bytes (some (str t)) = base64_decode t
text_bytes _ = none

-- Coordinates of 32 bytes only.
abbrev of_32 : Option Bytes → Option Bytes
of_32 none = none
of_32 (some b) = if length b == 32 then some b else none

-- A `createPublicKey` that knows P-256 only.
abbrev sample_keys : Crypto
sample_keys = record {
  create_public_key = λ ms.
      if is_p256 ms
      then given (
          point_of (of_32 (text_bytes (get_member (codes "x") ms)))
            (of_32 (text_bytes (get_member (codes "y") ms))))
      else fault (codes "unsupported");
  stringify = λ j. [];
}

of_32-coordinate : (t : Text) → IsCoordinate t → of_32 (base64_decode t) ≡ base64_decode t
of_32-coordinate t (_, (b, e, n)) = rw (e, n) refl

usable-is_p256 : (k : Jwk) → is_p256 (jwk_members k) ≡ Go.is_usable k
unfolding is_p256 Go.is_usable get_member same
usable-is_p256 k = refl

sample-ReadsJwks : ReadsJwks sample_keys
unfolding get_member same
sample-ReadsJwks k usable x y =
    rw (usable-is_p256 k, usable, of_32-coordinate k.x x, of_32-coordinate k.y y)
      (if_done-given (point_of (base64_decode k.x) (base64_decode k.y)))

base-HasCoordinates : HasCoordinates base_jwk
unfolding base64_decode sextet
base-HasCoordinates u = (
  (all_sextets-IsBase64 base_jwk.x refl, (_, refl, refl)),
  (all_sextets-IsBase64 base_jwk.y refl, (_, refl, refl)),
)

rsa-HasCoordinates : HasCoordinates rsa_jwk
unfolding Go.is_usable same
rsa-HasCoordinates u = absurd (ground arith)

key_sets_agree_example :
    (set_jwk_set (key_document (rsa_jwk ∷ base_jwk ∷ [])) [] ≡ (rsa_jwk ∷ base_jwk ∷ [], true))
    × (if_returned (read_set both_reader (returns []))
        ≡ if_ok (keys_of sample_env (rsa_jwk ∷ base_jwk ∷ [])))
    × (if_usable (refresh sample_keys (done (200, done (key_document (rsa_jwk ∷ base_jwk ∷ [])))))
        ≡ if_ok (keys_of sample_env (rsa_jwk ∷ base_jwk ∷ [])))
key_sets_agree_example =
    key_sets_agree sample_env both_reader sample_keys (rsa_jwk ∷ base_jwk ∷ []) [] both-ReadsKeys
      sample-ReadsJwks refl (rsa-HasCoordinates, (base-HasCoordinates, tt))
