-- ===== src/Node/Der/Reading.antt =====
-- A strict reader of DER signatures, and that it reads what `rawSigToDer` writes.
use mathlib.Core.List.{append-nil}
use ztxbas.Base.{
  ℕ, ◌+◌, ◌%◌, ◌≤◌, ◌<◌, ◌≡◌, ◌⊎◌, ==_iff, refl, sym, ap, ◌∙◌, true, false, not, ◌&&◌, ◌||◌, Option,
  none, some, [], ◌∷◌, ◌++◌, ◌==◌, ltb, leb, if◌then◌else◌, length, take, drop, length-append,
  length-take, length-drop, take_all, All, All-take, All-drop, inl, inr, arith, Bool-cases,
}
use ztxbas.Base.Text.{Bytes, IsByte}
use ztxbas.Jwks.{set_bytes}
use ztxbas.Node.Der.{trimmed, padded, trim_and_pad, tagged, raw_sig_to_der}

-- The contents of an INTEGER of X.690 that is not negative: at least one byte, the first one below
-- 128, and no zero in front of a byte that could stand first.
abbrev pub read_content : Bytes → Option ℕ
read_content [] = none
read_content (b ∷ []) = if ltb b 128 then some (set_bytes (b ∷ [])) else none
read_content (b ∷ c ∷ l) =
    if ltb b 128 && (not (b == 0) || leb 128 c) then some (set_bytes (b ∷ c ∷ l)) else none

-- A tag, a length of one byte, and as many bytes; and what stands behind them.
abbrev pub read_tagged : ℕ → Bytes → Option (Bytes × Bytes)
read_tagged tag [] = none
read_tagged tag (t ∷ []) = none
read_tagged tag (t ∷ n ∷ l) =
    if t == tag && ltb n 128 && leb n (length l) then some (take n l, drop n l) else none

abbrev with_content : Option ℕ → Bytes → Option (ℕ × Bytes)
with_content none rest = none
with_content (some v) rest = some (v, rest)

abbrev integer : Option (Bytes × Bytes) → Option (ℕ × Bytes)
integer none = none
integer (some (b, rest)) = with_content (read_content b) rest

abbrev pub read_integer : Bytes → Option (ℕ × Bytes)
read_integer l = integer (read_tagged 2 l)

abbrev both : ℕ → Option (ℕ × Bytes) → Option (ℕ × ℕ)
both r none = none
both r (some (s, [])) = some (r, s)
both r (some (s, b ∷ l)) = none

abbrev two_integers : Option (ℕ × Bytes) → Option (ℕ × ℕ)
two_integers none = none
two_integers (some (r, rest)) = both r (read_integer rest)

abbrev sequence : Option (Bytes × Bytes) → Option (ℕ × ℕ)
sequence none = none
sequence (some (b, [])) = two_integers (read_integer b)
sequence (some (b, c ∷ l)) = none

-- SEQUENCE { INTEGER r, INTEGER s } with nothing left over.
unfoldable pub read_signature : Bytes → Option (ℕ × ℕ)
read_signature l = sequence (read_tagged 0x30 l)

take_append : (xs ys : Bytes) → take (length xs) (xs ++ ys) ≡ xs
take_append [] ys = refl
take_append (x ∷ xs) ys = ap (λ l. x ∷ l) (take_append xs ys)

drop_append : (xs ys : Bytes) → drop (length xs) (xs ++ ys) ≡ ys
drop_append [] ys = refl
drop_append (x ∷ xs) ys = drop_append xs ys

read_tagged-tagged :
    (tag : ℕ) (b rest : Bytes)
    → length b < 128
    → read_tagged tag (tagged tag b ++ rest) ≡ some (b, rest)
read_tagged-tagged tag b rest short =
    let one_byte : length b % 256 ≡ length b = omega arith in
    rw one_byte (ground (arith, take_append b rest, drop_append b rest, length-append b rest))

set_bytes_zero : (b : ℕ) (l : Bytes) → (b == 0) ≡ true → set_bytes l ≡ set_bytes (b ∷ l)
unfolding set_bytes
set_bytes_zero b l e = ap (λ n. set_bytes (n ∷ l)) (sym ((==_iff b 0).0 e))

-- Leading zeros do not count.
set_bytes-trimmed : (b : Bytes) → set_bytes (trimmed b) ≡ set_bytes b
unfolding set_bytes trimmed
set_bytes-trimmed [] = refl
set_bytes-trimmed (b ∷ []) = refl
set_bytes-trimmed (b ∷ c ∷ l) = elim (Bool-cases (b == 0)) [
  | inl e ↦ rw e (set_bytes-trimmed (c ∷ l) ∙ set_bytes_zero b (c ∷ l) e)
  | inr e ↦ rw e refl
]

-- The byte in front is there exactly if it must be.
read_content-padded :
    (b : ℕ) (l : Bytes)
    → IsByte b
    → ((b == 0) ≡ false) ⊎ (l ≡ [])
    → read_content (padded (b ∷ l)) ≡ some (set_bytes (b ∷ l))
read_content-padded b [] small h = ground (arith, set_bytes_zero 0 (b ∷ []) refl)
read_content-padded b (c ∷ l) small (inl h) = ground (arith, set_bytes_zero 0 (b ∷ c ∷ l) refl)
read_content-padded b (c ∷ l) small (inr h) = cc

read_content-trim_and_pad :
    (b : ℕ) (l : Bytes)
    → All IsByte (b ∷ l)
    → read_content (trim_and_pad (b ∷ l)) ≡ some (set_bytes (b ∷ l))
unfolding trimmed
read_content-trim_and_pad b [] (small, bytes) = read_content-padded b [] small (inr refl)
read_content-trim_and_pad b (c ∷ l) (small, bytes) = elim (Bool-cases (b == 0)) [
  | inl e ↦ rw e (read_content-trim_and_pad c l bytes ∙ ap some (set_bytes_zero b (c ∷ l) e))
  | inr e ↦ rw e (read_content-padded b (c ∷ l) small (inl e))
]

length-trim_and_pad : (b : Bytes) → length (trim_and_pad b) ≤ length b + 1
unfolding trimmed
length-trim_and_pad [] = omega arith
length-trim_and_pad (b ∷ []) = ground arith
length-trim_and_pad (b ∷ c ∷ l) = ground (arith, length-trim_and_pad (c ∷ l))

read_integer-tagged :
    (b rest : Bytes)
    → 1 ≤ length b
    → length b ≤ 32
    → All IsByte b
    → read_integer (tagged 2 (trim_and_pad b) ++ rest) ≡ some (set_bytes b, rest)
read_integer-tagged [] rest some_byte few bytes = absurd (omega arith)
read_integer-tagged (x ∷ l) rest some_byte few bytes =
    rw
      (read_tagged-tagged 2 (trim_and_pad (x ∷ l)) rest
        (omega (arith, length-trim_and_pad (x ∷ l))))
      (rw (read_content-trim_and_pad x l bytes) refl)

read_tagged-alone :
    (tag : ℕ) (b : Bytes) → length b < 128 → read_tagged tag (tagged tag b) ≡ some (b, [])
read_tagged-alone tag b short =
    ap (λ l. read_tagged tag (tag ∷ length b % 256 ∷ l)) (sym (append-nil b))
    ∙ read_tagged-tagged tag b [] short

read_signature-tagged :
    (r s : Bytes)
    → (1 ≤ length r) × (length r ≤ 32) × All IsByte r
    → (1 ≤ length s) × (length s ≤ 32) × All IsByte s
    → read_signature (tagged 0x30 (tagged 2 (trim_and_pad r) ++ tagged 2 (trim_and_pad s)))
      ≡ some (set_bytes r, set_bytes s)
unfolding read_signature
read_signature-tagged r s (some_r, few_r, bytes_r) (some_s, few_s, bytes_s) =
    let coded_r : Bytes = tagged 2 (trim_and_pad r) in
    let coded_s : Bytes = tagged 2 (trim_and_pad s) in
    let short : length (coded_r ++ coded_s) < 128 =
      omega (arith, length-append coded_r coded_s, length-trim_and_pad r, length-trim_and_pad s) in
    let last : read_integer coded_s ≡ some (set_bytes s, []) =
      ap (λ l. read_integer (2 ∷ length (trim_and_pad s) % 256 ∷ l))
        (sym (append-nil (trim_and_pad s)))
      ∙ read_integer-tagged s [] some_s few_s bytes_s in
    ap sequence (read_tagged-alone 0x30 (coded_r ++ coded_s) short)
    ∙ (ap two_integers (read_integer-tagged r coded_s some_r few_r bytes_r)
        ∙ ap (both (set_bytes r)) last)

-- Of 64 bytes, the DER form reads as the two numbers in them.
pub read_signature-raw_sig_to_der :
    (raw : Bytes)
    → length raw ≡ 64
    → All IsByte raw
    → read_signature (raw_sig_to_der raw) ≡ some (set_bytes (take 32 raw), set_bytes (drop 32 raw))
unfolding raw_sig_to_der
read_signature-raw_sig_to_der raw size bytes =
    let all_right : take 32 (drop 32 raw) ≡ drop 32 raw =
      take_all 32 (drop 32 raw) (omega (arith, length-drop 32 raw)) in
    rw all_right (
      read_signature-tagged (take 32 raw) (drop 32 raw)
        (
          omega (arith, length-take 32 raw),
          omega (arith, length-take 32 raw),
          All-take IsByte 32 raw bytes,
        )
        (
          omega (arith, length-drop 32 raw),
          omega (arith, length-drop 32 raw),
          All-drop IsByte 32 raw bytes,
        ))
