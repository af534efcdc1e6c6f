-- ===== src/Tests/Agreed.antt =====
-- One token in the three SDKs.
use ztxbas.Base.{
  ℕ, zero, suc, ◌*◌, ◌≤◌, ◌≡◌, ◌↔◌, refl, ap, All, Option, [], arith, true, none, some,
  if◌then◌else◌,
}
use ztxbas.Base.Int.{pos, ◌+ℤ◌}
use ztxbas.Base.Result.{Outcome, done}
use ztxbas.Base.Text.{Bytes, IsByte, codes, same}
use ztxbas.Errors.{ok}
use ztxbas.Go.Encoding.{base64_decode, sextet}
use ztxbas.Go.Json.{Json, parse_int}
use ztxbas.Runtime.{Env}
use ztxbas.Jwks.{get_key}
use ztxbas.Verifier.{is_fresh}
use ztxbas.Verifier as GoLookup
use ztxbas.Token.{Header, verify}
use ztxbas.Python.KeySet.{Reader, returns, b64url_decode}
use ztxbas.Python.Lookup.{look}
use ztxbas.Python.Lookup as PythonLookup
use ztxbas.Python.Token as Python
use ztxbas.Python.Token.{Kit}
use ztxbas.Across.Tokens.{header_document, claims_document, python_claims, Holds, IsAlike}
use ztxbas.Across.Tokens.Agreement.{IsInStep, seconds, tokens_agree}
use ztxbas.Node.Coalesce.{Answer, found}
use ztxbas.Node.Token as Node
use ztxbas.Node.Token.{Tools}
use ztxbas.Across.Tokens.{HoldsInNode, IsAlikeNode}
use ztxbas.Tests.Sample.{
  zeros, base_point, sample_env, sample_token, header_part, claims_part, sig_part, sample_claims,
  sample_keys, warm_verifier, start,
}
use ztxbas.Tests.Across.{sample_reader, sample-ReadsKeys, all_sextets-IsBase64}

abbrev head : Header
head = record { alg = codes "ES256"; typ = codes "JWT"; kid = codes "k1" }

abbrev parsed : Bytes → Outcome Json
parsed b =
    if same b (codes "h")
    then done (header_document head)
    else done (claims_document sample_claims (codes "990") (codes "1100"))

abbrev go_env : Env
go_env = record sample_env { parse_json = parsed }

abbrev python_reader : Reader
python_reader = record sample_reader { loads = parsed }

abbrev python_kit : Kit
python_kit = record {
  host = record {
    clock = λ k. 1000 * 1000000000;
    http_get = λ k. returns [];
    reader = python_reader;
  };
  verify_pair = λ key message r s. true;
  int_of = parse_int;
  is_float_expired = λ now t. true;
  is_float_early = λ now t. true;
  is_nonzero = λ t. true;
  to_str = λ j. [];
}

abbrev python_start : PythonLookup.Session
python_start = record {
  verifier = record { keys = sample_keys; fetched_at = 1000 * 1000000000 };
  effects = 0;
  requests = 0;
}

go_python-IsAlike : IsAlike go_env python_kit
unfolding b64url_decode
go_python-IsAlike = record {
  base64 = λ t all. sample-ReadsKeys.base64 t all;
  pairs = λ key message r s. refl;
}

token-Holds :
    Holds go_env python_kit sample_token header_part claims_part sig_part head sample_claims
      (codes "990")
      (codes "1100")
unfolding same base64_decode sextet parse_int
token-Holds = record {
  parts = record {
    spelled = refl;
    header_clear = ground arith;
    payload_clear = ground arith;
    sig_clear = ground arith;
  };
  header_letters = all_sextets-IsBase64 header_part refl;
  payload_letters = all_sextets-IsBase64 claims_part refl;
  sig_letters = all_sextets-IsBase64 sig_part refl;
  header_bytes = codes "h";
  payload_bytes = codes "c";
  header_base64 = refl;
  payload_base64 = refl;
  go_header = refl;
  python_header = refl;
  go_payload = refl;
  python_payload = refl;
  go_iat = refl;
  go_exp = refl;
  python_iat = refl;
  python_exp = refl;
}

abbrev bytes_or_none : Option Bytes → Bytes
bytes_or_none none = []
bytes_or_none (some b) = b

abbrev node_tools : Tools
node_tools = record {
  from_base64url = λ t. bytes_or_none (base64_decode t);
  parse = parsed;
  crypto_verify = λ key message der. true;
  stringify = λ j. [];
  to_text = λ j. [];
  int_of = parse_int;
  is_nonzero = λ t. true;
  is_coerced_expired = λ now j. true;
  is_coerced_early = λ now j. true;
}

-- What the call of `keyForKid` gives for the id in the cache.
abbrev node_answer : Json → Answer
node_answer j = found base_point

zeros-IsByte : (n : ℕ) → All IsByte (zeros n)
zeros-IsByte zero = tt
zeros-IsByte (suc n) = (omega arith, zeros-IsByte n)

node-IsAlike : IsAlikeNode go_env node_tools
node-IsAlike = record { base64 = λ t b e. ap bytes_or_none e; ders = λ key message der r s e. refl }

token-HoldsInNode :
    HoldsInNode node_tools header_part claims_part sig_part head sample_claims
      (codes "990")
      (codes "1100")
unfolding same base64_decode sextet parse_int
token-HoldsInNode = record {
  header_bytes = codes "h";
  payload_bytes = codes "c";
  sig_bytes = zeros 64;
  header_base64 = refl;
  payload_base64 = refl;
  sig_base64 = refl;
  all_bytes = zeros-IsByte 64;
  header_parsed = refl;
  payload_parsed = refl;
  node_iat = refl;
  node_exp = refl;
}

start-IsInStep :
    IsInStep go_env python_kit head (warm_verifier, start) python_start node_answer 1000000
unfolding GoLookup.key_for_kid PythonLookup.key_for_kid same get_key look
start-IsInStep = record { python_keys = refl; node_keys = refl; go_clock = refl; node_clock = refl }

tokens_agree_example :
    ((Node.verify node_tools (codes "ztxbas") node_answer 1000000 sample_token
        ≡ Node.returns (claims_document sample_claims (codes "990") (codes "1100")))
      ↔ ((verify go_env sample_token (warm_verifier, start)).0 ≡ ok sample_claims))
    × (((Python.verify python_kit (codes "ztxbas") sample_token python_start).0
          ≡ returns (python_claims sample_claims (codes "990") (codes "1100")))
        ↔ (((verify go_env sample_token (warm_verifier, start)).0 ≡ ok sample_claims)
            × (sample_claims.expires_at ≡ pos 0
                → seconds go_env python_kit head (warm_verifier, start) python_start ≤ 30)))
unfolding ◌+ℤ◌ PythonLookup.key_for_kid same get_key look
tokens_agree_example =
    tokens_agree go_env python_kit node_tools sample_token header_part claims_part sig_part head
      sample_claims (codes "990") (codes "1100") (warm_verifier, start) python_start node_answer
      1000000 go_python-IsAlike node-IsAlike token-Holds token-HoldsInNode start-IsInStep
      (omega arith, omega arith) (omega arith, omega arith)
