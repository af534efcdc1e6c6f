-- ===== src/Across/KeySets.antt =====
-- A key set as a document, and what the reading of one in an SDK has to do to agree with the Go SDK.
pub mod Python
pub mod Node
pub mod Agreement
use ztxbas.Base.{
  ℕ, ◌≡◌, refl, sym, ap, subst, ◌∙◌, Bool, true, false, List, [], ◌∷◌, Option, none, some, All,
  if◌then◌else◌, arith, ◌⊎◌, inl, inr, length, Bool-cases, Option-cases,
}
use ztxbas.Base.Result.{Outcome, done, fault}
use ztxbas.Base.Text.{Text, Bytes, codes, same}
use ztxbas.Go.Encoding.{sextet, base64_decode}
use ztxbas.Go.Json.{
  Json, str, arr, obj, Items, nil, item, end, member, Members, set_text, set_struct, set_list,
  set_items,
}
use ztxbas.Errors.{Result, ok, err}
use ztxbas.Runtime.{Env, PublicKey}
use ztxbas.Jwks.{
  Jwk, Keys, blank_jwk, jwk_fields, set_jwk_set, jwk_to_ecdsa, put_key, is_usable, collect,
  then_nonempty, nonempty, keys_of,
}
use ztxbas.Jwks.Abstract.{collect_skips, collect_puts}
use ztxbas.Objects.{Found, is_nothing}

-- A JWK as a JSON object, and a set of them.
abbrev pub jwk_members : Jwk → Members
jwk_members k = member (codes "kty") (str k.kty) (
    member (codes "crv") (str k.crv) (
      member (codes "alg") (str k.alg) (
        member (codes "use") (str k.usage) (
          member (codes "kid") (str k.kid)
            (member (codes "x") (str k.x) (member (codes "y") (str k.y) end))))))

abbrev pub jwk_items : List Jwk → Items
jwk_items [] = nil
jwk_items (k ∷ ks) = item (obj (jwk_members k)) (jwk_items ks)

abbrev pub key_document : List Jwk → Json
key_document ks = obj (member (codes "keys") (arr (jwk_items ks)) end)

-- Only characters of the URL-safe alphabet.
abbrev pub IsBase64 : Text → Type 0
IsBase64 = All (λ c. (d : ℕ) × (sextet c ≡ some d))

-- The unpadded base64 of 32 bytes, which is how RFC 7518 has a coordinate of P-256.
abbrev pub IsCoordinate : Text → Type 0
IsCoordinate t = IsBase64 t × ((b : Bytes) × (base64_decode t ≡ some b) × (length b ≡ 32))

-- Both coordinates of each JWK of P-256 are; of others nothing is asked.
abbrev pub HasCoordinates : Jwk → Type 0
HasCoordinates k = is_usable k ≡ true → IsCoordinate k.x × IsCoordinate k.y

abbrev pub if_done {ℓ} : {A : Type ℓ} → Outcome A → Option A
if_done (done a) = some a
if_done (fault m) = none

abbrev pub if_ok {ℓ} : {A : Type ℓ} → Result A → Option A
if_ok (ok a) = some a
if_ok (err e) = none

-- What the Go SDK decodes of it.
set_items-jwk_items :
    (ks : List Jwk) → set_items (set_struct jwk_fields) blank_jwk (jwk_items ks) ≡ (ks, true)
unfolding set_struct set_items jwk_fields set_text same
set_items-jwk_items [] = refl
set_items-jwk_items (k ∷ ks) = rw (set_items-jwk_items ks) refl

pub set_jwk_set-key_document : (ks : List Jwk) → set_jwk_set (key_document ks) [] ≡ (ks, true)
unfolding set_jwk_set set_struct set_list same
set_jwk_set-key_document ks = rw (set_items-jwk_items ks) refl

-- A loop over the JWKs, and the key that it makes of one: it skips what is not usable, enters a key,
-- and ends at a JWK with no key.
pub record IsLoop (loop : List Jwk → Keys → Option Found) (made : Jwk → Option PublicKey)
    : Type 0 where
  pub ends : (out : Keys) → loop [] out ≡ some (out, false)
  pub skips :
      (k : Jwk) (ks : List Jwk) (out : Keys) → is_usable k ≡ false → loop (k ∷ ks) out ≡ loop ks out
  pub enters :
      (k : Jwk) (ks : List Jwk) (out : Keys) (pk : PublicKey)
      → is_usable k ≡ true
      → made k ≡ some pk
      → loop (k ∷ ks) out ≡ loop ks (put_key k.kid pk out)
  pub stops :
      (k : Jwk) (ks : List Jwk) (out : Keys)
      → is_usable k ≡ true
      → made k ≡ none
      → loop (k ∷ ks) out ≡ none

abbrev with_false : Option Keys → Option Found
with_false none = none
with_false (some m) = some (m, false)

-- What is left of a map behind the loop.
abbrev pub kept : Option Found → Option Keys
kept none = none
kept (some out) = if is_nothing out then none else some out.0

kept-then_nonempty : (g : Result Keys) → kept (with_false (if_ok g)) ≡ if_ok (then_nonempty g)
kept-then_nonempty (err e) = refl
kept-then_nonempty (ok []) = refl
kept-then_nonempty (ok (k ∷ ks)) = refl

ok_cases {ℓ} : {A : Type ℓ} (r : Result A) → ((a : A) × (r ≡ ok a)) ⊎ (if_ok r ≡ none)
ok_cases (ok a) = inl (a, refl)
ok_cases (err e) = inr refl

fails :
    (env : Env) (k : Jwk) (ks : List Jwk) (out : Keys)
    → is_usable k ≡ true
    → if_ok (jwk_to_ecdsa k) ≡ none
    → if_ok (collect env (k ∷ ks) out) ≡ none
unfolding collect
fails env k ks out u n = ground arith

module _ (env : Env) (loop : List Jwk → Keys → Option Found) (made : Jwk → Option PublicKey)
    (is_loop : IsLoop loop made) (Fits : Jwk → Type 0)
    (agrees : (k : Jwk) → is_usable k ≡ true → Fits k → made k ≡ if_ok (jwk_to_ecdsa k)) where
  -- It does what the loop of the Go SDK does, and stops where that does.
  loop_agrees :
      (ks : List Jwk) (out : Keys)
      → All Fits ks
      → loop ks out ≡ with_false (if_ok (collect env ks out))
  loop_agrees [] out all = unfold collect in is_loop.ends out
  loop_agrees (k ∷ ks) out (fits, all) = elim (Bool-cases (is_usable k)) [
    | inr unusable ↦
        is_loop.skips k ks out unusable
        ∙ (loop_agrees ks out all
            ∙ ap (λ r. with_false (if_ok r)) (sym (collect_skips env k ks out unusable)))
    | inl usable ↦ elim (ok_cases (jwk_to_ecdsa k)) [
      | inl (pk, e) ↦
          is_loop.enters k ks out pk usable (agrees k usable fits ∙ ap if_ok e)
          ∙ (loop_agrees ks (put_key k.kid pk out) all
              ∙ ap (λ r. with_false (if_ok r)) (sym (collect_puts env k ks out pk usable e)))
      | inr n ↦
          is_loop.stops k ks out usable (agrees k usable fits ∙ n)
          ∙ ap with_false (sym (fails env k ks out usable n))
    ]
  ]

  pub kept-loop : (ks : List Jwk) → All Fits ks → kept (loop ks []) ≡ if_ok (keys_of env ks)
  unfolding keys_of
  kept-loop ks all = ap kept (loop_agrees ks [] all) ∙ kept-then_nonempty (collect env ks [])
