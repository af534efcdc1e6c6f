-- ===== src/Node/Der/Agreement.antt =====
-- The two SDKs' checks of a token's signature.
use ztxbas.Base.{
  ℕ, ◌≡◌, ◌↔◌, sym, ◌∙◌, Bool, true, if◌then◌else◌, some, ◌∷◌, ◌++◌, ◌==◌, ==_iff, length, take,
  drop, All, arith,
}
use ztxbas.Base.Text.{Text, Bytes, IsByte}
use ztxbas.Errors.{ok}
use ztxbas.Runtime.{Env, PublicKey}
use ztxbas.Jwks.{set_bytes}
use ztxbas.Token.{check_signature}
use ztxbas.Token.Signed.{check_signature_iff}
use ztxbas.Node.Der.{passed, thrown, wrong_size, invalid, raw_sig_to_der, check_raw}
use ztxbas.Node.Der.Reading.{read_signature, read_signature-raw_sig_to_der}

-- What is relied on of Node's `crypto`: of a signature in strict DER, the two numbers in it are
-- verified as Go's `ecdsa.Verify` does, over the SHA-256 of the message. Of others nothing is asked.
abbrev pub ReadsDer : Env → (PublicKey → Bytes → Bytes → Bool) → Type 0
ReadsDer env crypto_verify =
    (key : PublicKey) (message der : Bytes) (r s : ℕ)
    → read_signature der ≡ some (r, s)
    → crypto_verify key message der ≡ env.ecdsa_verify key (env.sha256 message) r s

passes :
    (n : ℕ) (size valid : Bool)
    → ((if size then if valid then passed else thrown invalid else thrown (wrong_size n)) ≡ passed)
      ↔ ((size ≡ true) × (valid ≡ true))
passes n size valid = ground arith

-- For a decoded signature of bytes, the check of the Node SDK passes exactly if that of the Go
-- SDK does, though the Node SDK turns the signature into DER first, where Node's `crypto`
-- verifies the two numbers that strict DER holds as `ecdsa.Verify` does.
pub check_raw-check_signature :
    (env : Env) (crypto_verify : PublicKey → Bytes → Bytes → Bool) (key : PublicKey)
    (header payload : Text) (raw : Bytes)
    → ReadsDer env crypto_verify
    → All IsByte raw
    → (check_raw crypto_verify key header payload raw ≡ passed)
      ↔ (check_signature env key header payload raw ≡ ok tt)
unfolding check_raw
check_raw-check_signature env crypto_verify key header payload raw reads bytes =
    let message : Bytes = header ++ b'.' ∷ payload in
    let same : length raw ≡ 64
        → crypto_verify key message (raw_sig_to_der raw)
          ≡ env.ecdsa_verify key (env.sha256 message) (set_bytes (take 32 raw))
              (set_bytes (drop 32 raw)) =
      λ size.
        reads key message (raw_sig_to_der raw) _ _ (read_signature-raw_sig_to_der raw size bytes) in
    let node =
      passes (length raw) (length raw == 64) (crypto_verify key message (raw_sig_to_der raw)) in
    let size_iff = ==_iff (length raw) 64 in
    let go = check_signature_iff env key header payload raw in
    (
      (λ h.
          let (size, valid) = node.0 h in
          go.1 (size_iff.0 size, sym (same (size_iff.0 size)) ∙ valid)),
      λ h. let (size, valid) = go.0 h in node.1 (size_iff.1 size, same size ∙ valid),
    )
