-- ===== src/Jwks/Abstract.antt =====
-- The key set as a function from ids to keys, and when it is made.
use ztxbas.Base.{
  ◌≡◌, ◌≢◌, ◌↔◌, ◌⊎◌, inl, inr, refl, sym, ap, ◌∙◌, true, false, ◌&&◌, List, [], ◌∷◌, Option, none,
  some, All, if◌then◌else◌, arith, Bool-cases,
}
use ztxbas.Base.Text.{Text, same, same_self}
use ztxbas.Errors.{Result, ok, err}
use ztxbas.Runtime.{Env, PublicKey}
use ztxbas.Jwks.{
  Jwk, Keys, jwk_to_ecdsa, get_key, put_key, is_usable, collect, then_nonempty, keys_of,
}
use ztxbas.Jwks.Keys.{get_key-put_key, collect-cons, collect-nil, keys_of-eq-ok}

abbrev pub or_else {ℓ} : {A : Type ℓ} → Option A → Option A → Option A
or_else (some a) b = some a
or_else none b = b

abbrev key_of : Result PublicKey → Option PublicKey
key_of (ok pk) = some pk
key_of (err e) = none

-- The key that one JWK gives an id.
abbrev pub own_key : Jwk → Text → Option PublicKey
own_key k kid = if is_usable k && same k.kid kid then key_of (jwk_to_ecdsa k) else none

-- The last JWK of an id decides.
abbrev pub last_key : List Jwk → Text → Option PublicKey
last_key [] kid = none
last_key (k ∷ ks) kid = or_else (last_key ks kid) (own_key k kid)

-- Every usable JWK decodes.
abbrev pub AllDecode : List Jwk → Type 0
AllDecode = All (λ k. is_usable k ≡ true → (pk : PublicKey) × (jwk_to_ecdsa k ≡ ok pk))

abbrev pub HasUsable : List Jwk → Type 0
HasUsable [] = ⊥
HasUsable (k ∷ ks) = (is_usable k ≡ true) ⊎ HasUsable ks

or_else_assoc {ℓ} :
    {A : Type ℓ} (a b c : Option A) → or_else a (or_else b c) ≡ or_else (or_else a b) c
or_else_assoc none b c = refl
or_else_assoc (some x) b c = refl

or_else-none {ℓ} : {A : Type ℓ} (a : Option A) → or_else a none ≡ a
or_else-none none = refl
or_else-none (some x) = refl

own_key-skipped : (k : Jwk) (kid : Text) → is_usable k ≡ false → own_key k kid ≡ none
own_key-skipped k kid e = rw e refl

put-own_key :
    (k : Jwk) (kid : Text) (pk : PublicKey) (out : Keys)
    → is_usable k ≡ true
    → jwk_to_ecdsa k ≡ ok pk
    → get_key kid (put_key k.kid pk out) ≡ or_else (own_key k kid) (get_key kid out)
put-own_key k kid pk out u made =
    get_key-put_key k.kid kid pk out
    ∙ elim (Bool-cases (same k.kid kid)) [ inl e ↦ rw (e, u, made) refl | inr e ↦ rw (e, u) refl ]

module _ (env : Env) where
  get_key-collect :
      (ks : List Jwk) (out m : Keys) (kid : Text)
      → collect env ks out ≡ ok m
      → get_key kid m ≡ or_else (last_key ks kid) (get_key kid out)
  get_key-collect [] out m kid e = ap (get_key kid) (sym (collect-nil env out m e))
  get_key-collect (k ∷ ks) out m kid e = elim (collect-cons env k ks out m e) [
    | inl (skipped, rest) ↦
        get_key-collect ks out m kid rest
        ∙ ap (λ o. or_else o (get_key kid out))
            (sym (
              ap (or_else (last_key ks kid)) (own_key-skipped k kid skipped)
              ∙ or_else-none (last_key ks kid)))
    | inr (pk, usable, made, rest) ↦
        get_key-collect ks (put_key k.kid pk out) m kid rest
        ∙ (ap (or_else (last_key ks kid)) (put-own_key k kid pk out usable made)
            ∙ or_else_assoc (last_key ks kid) (own_key k kid) (get_key kid out))
  ]

  collect-AllDecode : (ks : List Jwk) (out m : Keys) → collect env ks out ≡ ok m → AllDecode ks
  collect-AllDecode [] out m e = tt
  collect-AllDecode (k ∷ ks) out m e = elim (collect-cons env k ks out m e) [
    | inl (skipped, rest) ↦ ((λ u. absurd (ground arith)), collect-AllDecode ks out m rest)
    | inr (pk, usable, made, rest) ↦
        ((λ u. (pk, made)), collect-AllDecode ks (put_key k.kid pk out) m rest)
  ]

  collect-HasUsable :
      (ks : List Jwk) (out m : Keys) → collect env ks out ≡ ok m → HasUsable ks ⊎ (out ≡ m)
  collect-HasUsable [] out m e = inr (collect-nil env out m e)
  collect-HasUsable (k ∷ ks) out m e = elim (collect-cons env k ks out m e) [
    | inl (skipped, rest) ↦ elim (collect-HasUsable ks out m rest) [
      | inl h ↦ inl (inr h)
      | inr q ↦ inr q
    ]
    | inr (pk, usable, made, rest) ↦ inl (inl usable)
  ]

  pub collect_skips :
      (k : Jwk) (ks : List Jwk) (out : Keys)
      → is_usable k ≡ false
      → collect env (k ∷ ks) out ≡ collect env ks out
  unfolding collect
  collect_skips k ks out skipped = ground arith

  pub collect_puts :
      (k : Jwk) (ks : List Jwk) (out : Keys) (pk : PublicKey)
      → is_usable k ≡ true
      → jwk_to_ecdsa k ≡ ok pk
      → collect env (k ∷ ks) out ≡ collect env ks (put_key k.kid pk out)
  unfolding collect
  collect_puts k ks out pk usable made = ground arith

  collect_returns :
      (ks : List Jwk) (out : Keys) → AllDecode ks → (m : Keys) × (collect env ks out ≡ ok m)
  collect_returns [] out all = (out, unfold collect in refl)
  collect_returns (k ∷ ks) out (here, all) = elim (Bool-cases (is_usable k)) [
    | inr skipped ↦
        let (m, e) = collect_returns ks out all in (m, collect_skips k ks out skipped ∙ e)
    | inl usable ↦
        let (pk, made) = here usable in
        let (m, e) = collect_returns ks (put_key k.kid pk out) all in
        (m, collect_puts k ks out pk usable made ∙ e)
  ]

  or_else-some : (a b : Option PublicKey) (pk : PublicKey) → b ≡ some pk → or_else a b ≢ none
  or_else-some none b pk e h = cc
  or_else-some (some a) b pk e h = cc

  or_else-first : (a b : Option PublicKey) → a ≢ none → or_else a b ≢ none
  or_else-first none b n h = n refl
  or_else-first (some a) b n h = cc

  last_key-HasUsable :
      (ks : List Jwk) → AllDecode ks → HasUsable ks → (kid : Text) × (last_key ks kid ≢ none)
  last_key-HasUsable [] all u = absurd u
  last_key-HasUsable (k ∷ ks) (here, all) (inl usable) =
      let (pk, made) = here usable in
      let own : own_key k k.kid ≡ some pk = rw (usable, same_self k.kid, made) refl in
      (k.kid, or_else-some (last_key ks k.kid) (own_key k k.kid) pk own)
  last_key-HasUsable (k ∷ ks) (here, all) (inr more) =
      let (kid, there) = last_key-HasUsable ks all more in
      (kid, or_else-first (last_key ks kid) (own_key k kid) there)

  get_key-nonempty : (kid : Text) (m : Keys) → get_key kid m ≢ none → m ≢ []
  unfolding get_key
  get_key-nonempty kid m h e = h (rw e refl)

  then_nonempty-ok : (r : Result Keys) (m : Keys) → r ≡ ok m → m ≢ [] → then_nonempty r ≡ ok m
  then_nonempty-ok (err x) m e n = e
  then_nonempty-ok (ok []) m e n = absurd (n (ground arith))
  then_nonempty-ok (ok (k ∷ ks)) m e n = e

  -- The map that is made of a key set refines a finite map from ids to keys: a lookup of any id
  -- in it gives the key of the last JWK of the set that is usable and bears this id, or none if
  -- there is none; and a map is made exactly if every usable JWK can be decoded and there is one
  -- at all.
  pub keys_of_refines :
      (ks : List Jwk)
      → ((m : Keys) (kid : Text) → keys_of env ks ≡ ok m → get_key kid m ≡ last_key ks kid)
        × (((m : Keys) × (keys_of env ks ≡ ok m)) ↔ (AllDecode ks × HasUsable ks))
  unfolding get_key keys_of
  keys_of_refines ks = (refines, (made, makes))
    where
      refines : (m : Keys) (kid : Text) → keys_of env ks ≡ ok m → get_key kid m ≡ last_key ks kid
      refines m kid h =
          get_key-collect ks [] m kid (keys_of-eq-ok env ks m h).0 ∙ or_else-none (last_key ks kid)

      made : ((m : Keys) × (keys_of env ks ≡ ok m)) → AllDecode ks × HasUsable ks
      made (m, h) =
          let (e, n) = keys_of-eq-ok env ks m h in
          (
            collect-AllDecode ks [] m e,
            elim (collect-HasUsable ks [] m e) [ inl u ↦ u | inr q ↦ absurd (n (sym q)) ],
          )

      makes : AllDecode ks × HasUsable ks → (m : Keys) × (keys_of env ks ≡ ok m)
      makes (all, u) =
          let (m, e) = collect_returns ks [] all in
          let (kid, there) = last_key-HasUsable ks all u in
          (
            m,
            then_nonempty-ok (collect env ks []) m e (
                get_key-nonempty kid m (λ q. there (
                  sym (or_else-none (last_key ks kid))
                  ∙ (sym (get_key-collect ks [] m kid e) ∙ q)))),
          )
