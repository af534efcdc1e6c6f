-- ===== src/Node/Der.antt =====
-- The signature of a token in sdk-node/src/verify.ts: `trimAndPad`, `rawSigToDer`, and the check of
-- `verify` that uses them.
pub mod Reading
pub mod Agreement
use ztxbas.Base.{
  ℕ, ◌+◌, ◌/◌, ◌%◌, Bool, true, false, List, [], ◌∷◌, ◌++◌, ◌==◌, if◌then◌else◌, length, take, drop,
}
use ztxbas.Base.Text.{Text, Bytes, codes}
use ztxbas.Runtime.{PublicKey}

-- The loop: zeros in front go, except for the last byte.
unfoldable pub trimmed : Bytes → Bytes
trimmed [] = []
trimmed (b ∷ []) = b ∷ []
trimmed (b ∷ c ∷ l) = if b == 0 then trimmed (c ∷ l) else b ∷ c ∷ l

-- `trimmed[0] & 0x80` is the eighth bit; it is 0 where there is no first byte.
abbrev pub padded : Bytes → Bytes
padded [] = []
padded (b ∷ l) = if (b / 128) % 2 == 1 then 0 ∷ b ∷ l else b ∷ l

abbrev pub trim_and_pad : Bytes → Bytes
trim_and_pad b = padded (trimmed b)

-- `Buffer.from([tag, b.length])` and the bytes behind it.
abbrev pub tagged : ℕ → Bytes → Bytes
tagged tag b = tag ∷ length b % 256 ∷ b

unfoldable pub raw_sig_to_der : Bytes → Bytes
raw_sig_to_der raw =
    let r = trim_and_pad (take 32 raw) in
    let s = trim_and_pad (take 32 (drop 32 raw)) in tagged 0x30 (tagged 2 r ++ tagged 2 s)

-- What the check throws.
pub data JwtVerifyError : Type 0 where
  wrong_size : ℕ → JwtVerifyError
  invalid : JwtVerifyError

pub data Checked : Type 0 where
  passed : Checked
  thrown : JwtVerifyError → Checked

-- `createVerify('SHA256').update(message).verify(key, signature)` is an argument.
unfoldable pub check_raw :
    (PublicKey → Bytes → Bytes → Bool) → PublicKey → Text → Text → Bytes → Checked
check_raw crypto_verify key header payload raw =
    if length raw == 64
    then if crypto_verify key (header ++ b'.' ∷ payload) (raw_sig_to_der raw)
      then passed
      else thrown invalid
    else thrown (wrong_size (length raw))
