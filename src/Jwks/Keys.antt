-- ===== src/Jwks/Keys.antt =====
-- What the map made from a key set holds.
use ztxbas.Base.{
  subst, ◌≡◌, ◌≢◌, refl, true, false, List, [], ◌∷◌, none, some, arith, All, ◌⊎◌, inl, inr,
  if◌then◌else◌, Bool-cases,
}
use ztxbas.Base.Text.{Text, same, same_iff, same_self}
use ztxbas.Errors.{Result, Result-cases, ok, err}
use ztxbas.Runtime.{Env, PublicKey}
use ztxbas.Jwks.{
  Jwk, Keys, jwk_to_ecdsa, get_key, put_key, is_usable, collect, then_nonempty, keys_of,
}
use ztxbas.Jwks.Curve.{IsOnCurve, Decodes, jwk_to_ecdsa_iff}

pub get_key-put_key :
    (kid j : Text) (pk : PublicKey) (m : Keys)
    → get_key j (put_key kid pk m) ≡ (if same kid j then some pk else get_key j m)
unfolding get_key put_key
get_key-put_key kid j pk [] = refl
get_key-put_key kid j pk ((i, k) ∷ m) =
    ground (arith, get_key-put_key kid j pk m, same_iff kid j, same_iff i kid, same_iff i j)

-- The set has a usable JWK with this id, which decodes to this key.
abbrev pub Offers : List Jwk → Text → PublicKey → Type 0
Offers [] kid pk = ⊥
Offers (k ∷ ks) kid pk = ((is_usable k ≡ true) × (k.kid ≡ kid) × Decodes k pk) ⊎ Offers ks kid pk

-- Every key of a map stands on the curve.
abbrev pub AllOnCurve : Keys → Type 0
AllOnCurve = All (λ e. IsOnCurve e.1)

pub get_key-AllOnCurve :
    (kid : Text) (pk : PublicKey) (m : Keys) → AllOnCurve m → get_key kid m ≡ some pk → IsOnCurve pk
unfolding get_key
get_key-AllOnCurve kid pk [] h e = cc
get_key-AllOnCurve kid pk ((j, k) ∷ m) (hk, hm) e = elim (Bool-cases (same j kid)) [
  | inl here ↦ subst IsOnCurve (ground arith) hk
  | inr there ↦ get_key-AllOnCurve kid pk m hm (ground arith)
]

put_key-AllOnCurve :
    (kid : Text) (pk : PublicKey) (m : Keys)
    → IsOnCurve pk
    → AllOnCurve m
    → AllOnCurve (put_key kid pk m)
unfolding put_key
put_key-AllOnCurve kid pk [] h hm = (h, tt)
put_key-AllOnCurve kid pk ((i, k) ∷ m) h (hk, hm) = elim (Bool-cases (same i kid)) [
  | inl e ↦ rw e (h, hm)
  | inr e ↦ rw e (hk, put_key-AllOnCurve kid pk m h hm)
]

then_nonempty-eq-ok : (r : Result Keys) (m : Keys) → then_nonempty r ≡ ok m → (r ≡ ok m) × (m ≢ [])
then_nonempty-eq-ok (err e) m h = ((cc), λ _. cc)
then_nonempty-eq-ok (ok []) m h = ((cc), λ _. cc)
then_nonempty-eq-ok (ok (k ∷ ks)) m h = (h, λ e. ground arith)

module _ (env : Env) where
  -- One round of the loop that goes on.
  pub collect-cons :
      (k : Jwk) (ks : List Jwk) (out m : Keys)
      → collect env (k ∷ ks) out ≡ ok m
      → ((is_usable k ≡ false) × (collect env ks out ≡ ok m))
        ⊎ ((pk : PublicKey) × (is_usable k ≡ true)
            × (jwk_to_ecdsa k ≡ ok pk)
            × (collect env ks (put_key k.kid pk out) ≡ ok m))
  unfolding collect
  collect-cons k ks out m h = elim (Bool-cases (is_usable k)) [
    | inr skipped ↦ inl (skipped, ground arith)
    | inl usable ↦ elim (Result-cases (jwk_to_ecdsa k)) [
      | inl (pk, made) ↦ inr (pk, usable, made, ground arith)
      | inr (e, failed) ↦ absurd (ground arith)
    ]
  ]

  pub collect-nil : (out m : Keys) → collect env [] out ≡ ok m → out ≡ m
  unfolding collect
  collect-nil out m h = ground arith

  collect-AllOnCurve :
      (ks : List Jwk) (out m : Keys) → AllOnCurve out → collect env ks out ≡ ok m → AllOnCurve m
  collect-AllOnCurve [] out m h e = rw (← collect-nil out m e) h
  collect-AllOnCurve (k ∷ ks) out m h e = elim (collect-cons k ks out m e) [
    | inl (_, rest) ↦ collect-AllOnCurve ks out m h rest
    | inr (pk, _, made, rest) ↦
        collect-AllOnCurve ks (put_key k.kid pk out) m
          (put_key-AllOnCurve k.kid pk out ((jwk_to_ecdsa_iff k pk).0 made).on_curve h) rest
  ]

  -- Every key of the result is offered by the set, or was there before.
  collect_sound :
      (ks : List Jwk) (out m : Keys) (kid : Text) (pk : PublicKey)
      → collect env ks out ≡ ok m
      → get_key kid m ≡ some pk
      → Offers ks kid pk ⊎ (get_key kid out ≡ some pk)
  collect_sound [] out m kid pk e g = inr (rw (collect-nil out m e) g)
  collect_sound (k ∷ ks) out m kid pk e g = elim (collect-cons k ks out m e) [
    | inl (_, rest) ↦ ground (arith, collect_sound ks out m kid pk rest g)
    | inr (new, usable, made, rest) ↦
        let decoded = (jwk_to_ecdsa_iff k new).0 made in
        ground (
          arith,
          collect_sound ks (put_key k.kid new out) m kid pk rest g,
          get_key-put_key k.kid kid new out,
          same_iff k.kid kid,
          usable,
          decoded,
        )
  ]

  -- A key that is there stays there, perhaps with another value.
  collect_keeps :
      (ks : List Jwk) (out m : Keys) (kid : Text)
      → collect env ks out ≡ ok m
      → get_key kid out ≢ none
      → get_key kid m ≢ none
  collect_keeps [] out m kid e h = rw (← collect-nil out m e) h
  collect_keeps (k ∷ ks) out m kid e h = elim (collect-cons k ks out m e) [
    | inl (_, rest) ↦ collect_keeps ks out m kid rest h
    | inr (new, _, _, rest) ↦
        collect_keeps ks (put_key k.kid new out) m kid rest
          (ground (arith, get_key-put_key k.kid kid new out))
  ]

  -- Every usable JWK of the set has an entry in the result.
  collect_complete :
      (ks : List Jwk) (out m : Keys)
      → collect env ks out ≡ ok m
      → All (λ k. is_usable k ≡ true → get_key k.kid m ≢ none) ks
  collect_complete [] out m e = tt
  collect_complete (k ∷ ks) out m e = elim (collect-cons k ks out m e) [
    | inl (skipped, rest) ↦ ((λ u. ground arith), collect_complete ks out m rest)
    | inr (new, usable, _, rest) ↦ (
      (λ _.
          collect_keeps ks (put_key k.kid new out) m k.kid rest
            (ground (arith, get_key-put_key k.kid k.kid new out, same_self k.kid))),
      collect_complete ks (put_key k.kid new out) m rest,
    )
  ]

  pub keys_of-eq-ok :
      (ks : List Jwk) (m : Keys) → keys_of env ks ≡ ok m → (collect env ks [] ≡ ok m) × (m ≢ [])
  unfolding keys_of
  keys_of-eq-ok ks m h = then_nonempty-eq-ok (collect env ks []) m h

  -- A map that is made of a key set is not empty, all its keys are points of P-256, each of its
  -- entries is that of a usable JWK of the set with that id, and each usable JWK of the set has
  -- an entry under its id.
  pub keys_of_lem :
      (ks : List Jwk) (m : Keys)
      → keys_of env ks ≡ ok m
      → (m ≢ [])
        × AllOnCurve m
        × ((kid : Text) (pk : PublicKey) → get_key kid m ≡ some pk → Offers ks kid pk)
        × All (λ k. is_usable k ≡ true → get_key k.kid m ≢ none) ks
  keys_of_lem ks m h =
      let (e, nonempty_map) = keys_of-eq-ok ks m h in
      (
        nonempty_map,
        collect-AllOnCurve ks [] m tt e,
        (λ kid pk g. from_set kid pk (collect_sound ks [] m kid pk e g)),
        collect_complete ks [] m e,
      )
    where
      from_set :
          (kid : Text) (pk : PublicKey)
          → Offers ks kid pk ⊎ (get_key kid [] ≡ some pk)
          → Offers ks kid pk
      from_set kid pk (inl o) = o
      from_set kid pk (inr g) = unfold get_key in (cc)
