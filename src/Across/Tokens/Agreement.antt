-- ===== src/Across/Tokens/Agreement.antt =====
-- A token in the three SDKs.
use ztxbas.Base.{ℕ, ◌/◌, ◌≤◌, ◌≡◌, ◌↔◌, sym, ap, subst, ◌∙◌, some}
use ztxbas.Base.Int.{pos, ◌+ℤ◌, IsInt64}
use ztxbas.Base.Text.{Text}
use ztxbas.Errors.{ok}
use ztxbas.Runtime.{Env}
use ztxbas.Verifier as GoLookup
use ztxbas.Verifier.Keeps.{key_for_kid-Kept}
use ztxbas.Token as Go
use ztxbas.Token.{Header, Claims}
use ztxbas.Python.KeySet.{returns}
use ztxbas.Python.Lookup as PythonLookup
use ztxbas.Python.Token as Python
use ztxbas.Python.Token.{Kit}
use ztxbas.Across.Claims.{check_claims_agree}
use ztxbas.Across.KeySets.{if_ok}
use ztxbas.Go.Json.{Json, str}
use ztxbas.Node.Coalesce.{Answer}
use ztxbas.Node.Claims as NodeClaims
use ztxbas.Node.Token as Node
use ztxbas.Node.Token.{Tools}
use ztxbas.Across.Tokens.NodeSide.{node_iff}
use ztxbas.Across.Tokens.{
  HoldsInNode, IsAlikeNode, if_settled, claims_document, python_claims, payload_of, Holds, IsAlike,
  IsVouched, if_found,
}
use ztxbas.Across.Tokens.GoSide.{go_iff}
use ztxbas.Across.Tokens.PythonSide.{python_iff}

module _ (env : Env) (kit : Kit) (h : Header) (s : GoLookup.Session)
    (t : PythonLookup.Session) where
  -- The time that the Python SDK reads after the lookup, in seconds.
  abbrev pub seconds : ℕ
  seconds = kit.host.clock (PythonLookup.key_for_kid kit.host h.kid t).1.effects / 1000000000

  -- The lookups of the three SDKs give the same key or none, and the clocks agree after them. The Node SDK's
  -- call of `keyForKid` and its clock after it, in milliseconds, are given.
  pub record IsInStep (answer : Json → Answer) (now_ms : ℕ) : Type 0 where
    pub python_keys :
        if_ok (GoLookup.key_for_kid env h.kid s).0
        ≡ if_found (PythonLookup.key_for_kid kit.host h.kid t).0
    pub node_keys : if_ok (GoLookup.key_for_kid env h.kid s).0 ≡ if_settled (answer (str h.kid))
    pub go_clock : (env.now (GoLookup.key_for_kid env h.kid s).1.1.step).unix ≡ pos seconds
    pub node_clock : now_ms / 1000 ≡ seconds

some_eq {ℓ} : {A : Type ℓ} {a b : A} → some a ≡ some b → a ≡ b
some_eq e = cc

-- Take a token whose first two parts hold a JSON object with the header's three members as texts
-- and one with the eight claims, texts and two integers: the Node SDK accepts it, with these
-- claims, exactly if the Go SDK does; and the Python SDK does exactly if the Go SDK does and an
-- expiry of 0 is not more than thirty seconds past. The parts are of the URL-safe alphabet and
-- the third is base64; the lookups of the key id give the same key or none, the clocks agree
-- after them, all expect the same issuer, the sums of the Go SDK stay within `int64`, and the
-- libraries decode, parse and verify alike.
pub tokens_agree :
    (env : Env) (kit : Kit) (tools : Tools) (token header payload sig : Text) (h : Header)
    (c : Claims) (iat exp : Text) (s : GoLookup.Session) (t : PythonLookup.Session)
    (answer : Json → Answer) (now_ms : ℕ)
    → IsAlike env kit
    → IsAlikeNode env tools
    → Holds env kit token header payload sig h c iat exp
    → HoldsInNode tools header payload sig h c iat exp
    → IsInStep env kit h s t answer now_ms
    → IsInt64 (c.expires_at +ℤ pos 30)
    → IsInt64 (pos (seconds env kit h s t) +ℤ pos 30)
    → ((Node.verify tools s.0.expected_iss answer now_ms token
          ≡ Node.returns (claims_document c iat exp))
        ↔ ((Go.verify env token s).0 ≡ ok c))
      × (((Python.verify kit s.0.expected_iss token t).0 ≡ returns (python_claims c iat exp)) ↔ (
          ((Go.verify env token s).0 ≡ ok c) × (c.expires_at ≡ pos 0 → seconds env kit h s t ≤ 30)))
tokens_agree env kit tools token header payload sig h c iat exp (v, w) t answer now_ms alike
      alike_node holds in_node in_step fits fits' =
    let now = seconds env kit h (v, w) t in
    let python =
      python_iff env kit alike token header payload sig h c iat exp v.expected_iss t holds in
    let node =
      node_iff env tools alike_node token header payload sig h c iat exp v.expected_iss answer
        now_ms holds.parts in_node in
    let go = go_iff env kit token header payload sig h c iat exp holds (v, w) in
    let (node_checks, checks) =
      check_claims_agree env v.expected_iss now c (payload_of c) fits fits' in
    let same_issuer = (key_for_kid-Kept env h.kid v w).settings.2 in
    let same_check : Go.check_claims env (GoLookup.key_for_kid env h.kid (v, w)).1.0.expected_iss
          (env.now (GoLookup.key_for_kid env h.kid (v, w)).1.1.step).unix c
        ≡ Go.check_claims env v.expected_iss (pos now) c =
      λ i. Go.check_claims env (same_issuer i) (in_step.go_clock i) c in
    let same_node : NodeClaims.check_claims v.expected_iss (pos (now_ms / 1000)) (payload_of c)
        ≡ NodeClaims.check_claims v.expected_iss (pos now) (payload_of c) =
      λ i. NodeClaims.check_claims v.expected_iss (pos (in_step.node_clock i)) (payload_of c) in
    (
      (
        (λ e.
            let (vouched, passes) = node.0 e in
            go.1 (
              subst (IsVouched env h header payload sig) (sym in_step.node_keys) vouched,
              same_check ∙ node_checks.0 (sym same_node ∙ passes),
            )),
        λ e.
            let (vouched, passes) = go.0 e in
            node.1 (
              subst (IsVouched env h header payload sig) in_step.node_keys vouched,
              same_node ∙ node_checks.1 (sym same_check ∙ passes),
            ),
      ),
      (
        (λ e.
            let (vouched, passes) = python.0 e in
            let (go_passes, zero) = checks.0 passes in
            (
              go.1 (
                subst (IsVouched env h header payload sig) (sym in_step.python_keys) vouched,
                same_check ∙ go_passes,
              ),
              λ z. zero (ap some z),
            )),
        λ (e, zero).
            let (vouched, passes) = go.0 e in
            python.1 (
              subst (IsVouched env h header payload sig) in_step.python_keys vouched,
              checks.1 (sym same_check ∙ passes, λ z. zero (some_eq z)),
            ),
      ),
    )
