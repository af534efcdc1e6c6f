-- ===== src/Sign/Canonical.antt =====
-- What a signature is bound to: the canonical form determines the request.
use ztxbas.Base.{ℕ, ◌≡◌, refl, [], ◌∷◌, ◌++◌, arith, All, length}
use ztxbas.Base.Int.{ℤ, IsInt64}
use ztxbas.Base.Result.{Outcome, done, fault}
use ztxbas.Base.Text.{Text, Bytes, IsByte, Lacks}
use ztxbas.Go.Strings.Decimal.{format_int, format_int_injective, format_int-Lacks}
use ztxbas.Go.Encoding.{hex_encode}
use ztxbas.Go.Encoding.RoundTrip.{IsHex, IsHex-Lacks, hex_encode-IsHex, length-hex_encode}
use ztxbas.Errors.{ok}
use ztxbas.Runtime.{Env, World, rand_read, checked}
use ztxbas.Sign.{canonical, nonce_bytes, nonce_text, new_nonce}

-- Two texts up to their first separator.
pub cut_eq :
    (sep : ℕ) (p q r s : Text)
    → Lacks sep p
    → Lacks sep q
    → p ++ sep ∷ r ≡ q ++ sep ∷ s
    → (p ≡ q) × (r ≡ s)
cut_eq sep [] [] r s hp hq e = ground arith
cut_eq sep [] (b ∷ q) r s hp hq e = ground arith
cut_eq sep (a ∷ p) [] r s hp hq e = ground arith
cut_eq sep (a ∷ p) (b ∷ q) r s hp hq e = ground (arith, cut_eq sep p q r s hp.1 hq.1)

-- No bar in what stands before the body.
pub record IsBarless (method path ts nonce : Text) : Type 0 where
  pub method_clear : Lacks b'|' method
  pub path_clear : Lacks b'|' path
  pub time_clear : Lacks b'|' ts
  pub nonce_clear : Lacks b'|' nonce

-- Equal canonical forms have equal parts.
pub canonical-eq :
    (m m' p p' t t' n n' : Text) (b b' : Bytes)
    → IsBarless m p t n
    → IsBarless m' p' t' n'
    → canonical m p t n b ≡ canonical m' p' t' n' b'
    → (m ≡ m') × (p ≡ p') × (t ≡ t') × (n ≡ n') × (b ≡ b')
unfolding canonical
canonical-eq m m' p p' t t' n n' b b' c c' e =
    let (same_method, e₁) = cut_eq b'|' m m' _ _ c.method_clear c'.method_clear e in
    let (same_path, e₂) = cut_eq b'|' p p' _ _ c.path_clear c'.path_clear e₁ in
    let (same_time, e₃) = cut_eq b'|' t t' _ _ c.time_clear c'.time_clear e₂ in
    let (same_nonce, same_body) = cut_eq b'|' n n' _ _ c.nonce_clear c'.nonce_clear e₃ in
    (same_method, same_path, same_time, same_nonce, same_body)

-- What the parts of a canonical form must be like for it to be read in one way: no bar in the
-- method, in the path and in the nonce. The time is a number, and the body may be any bytes.
pub record IsClear (method path nonce : Text) (ts : ℤ) : Type 0 where
  pub method_clear : Lacks b'|' method
  pub path_clear : Lacks b'|' path
  pub nonce_clear : Lacks b'|' nonce
  pub in_range : IsInt64 ts

barless :
    (method path nonce : Text) (t : ℤ)
    → IsClear method path nonce t
    → IsBarless method path (format_int t) nonce
barless method path nonce t c = record {
  method_clear = c.method_clear;
  path_clear = c.path_clear;
  time_clear = format_int-Lacks t;
  nonce_clear = c.nonce_clear;
}

-- Equal canonical forms are of equal method, path, time, nonce and body, where method, path and
-- nonce hold no bar and the time is an `int64`; the body may be any bytes.
pub canonical_injective :
    (m m' p p' n n' : Text) (t t' : ℤ) (b b' : Bytes)
    → IsClear m p n t
    → IsClear m' p' n' t'
    → canonical m p (format_int t) n b ≡ canonical m' p' (format_int t') n' b'
    → (m ≡ m') × (p ≡ p') × (t ≡ t') × (n ≡ n') × (b ≡ b')
canonical_injective m m' p p' n n' t t' b b' c c' e =
    let (same_method, same_path, same_time, same_nonce, same_body) =
      canonical-eq m m' p p' (format_int t) (format_int t') n n' b b' (barless m p n t c)
        (barless m' p' n' t' c') e in
    (
      same_method,
      same_path,
      format_int_injective t t' c.in_range c'.in_range same_time,
      same_nonce,
      same_body,
    )

-- The random source fills the whole buffer, or fails.
abbrev pub FillsBuffer : Env → Type 0
FillsBuffer env = (k n : ℕ) (b : Bytes) → env.random k n ≡ done b → (length b ≡ n) × All IsByte b

nonce_text-eq-ok :
    (o : Outcome Bytes) (nonce : Text)
    → nonce_text (checked o) ≡ ok nonce
    → (b : Bytes) × (o ≡ done b) × (hex_encode b ≡ nonce)
nonce_text-eq-ok (done b) nonce e = (b, refl, ground arith)
nonce_text-eq-ok (fault m) nonce e = cc

-- A nonce is 32 lower-case hexadecimal digits and holds no bar, where the random source fills the
-- buffer with bytes or fails.
pub new_nonce-IsHex :
    (env : Env) (w : World) (nonce : Text)
    → FillsBuffer env
    → (new_nonce env w).0 ≡ ok nonce
    → (length nonce ≡ 32) × All IsHex nonce × Lacks b'|' nonce
unfolding new_nonce rand_read
new_nonce-IsHex env w nonce fills e =
    let (b, drawn, shown) = nonce_text-eq-ok (env.random w.step nonce_bytes) nonce e in
    let (size, bytes) = fills w.step nonce_bytes b drawn in
    let digits = hex_encode-IsHex b bytes in
    rw (← shown) (omega (arith, length-hex_encode b), digits, IsHex-Lacks (hex_encode b) digits)
