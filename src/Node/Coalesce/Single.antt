-- ===== src/Node/Coalesce/Single.antt =====
-- At most one refresh is under way.
use ztxbas.Base.{
  ℕ, ◌+◌, ◌≤◌, ◌≡◌, inl, inr, refl, sym, ap, ◌∙◌, subst, Option, none, some, update, ◌==◌, ==_iff,
  Bool-cases, arith, update_here,
}
use ztxbas.Base.Text.{Text}
use ztxbas.Runtime.{PublicKey}
use ztxbas.Jwks.{get_key}
use ztxbas.Node.KeySet.{usable, failed}
use ztxbas.Node.Coalesce.{
  awaiting, Phase, unstarted, asking, finishing, settled, Ending, fulfilled, rejected, State, fresh,
  join, entered, Step, call, refresh_ends, clear, resume, Reach, start, later,
}
use ztxbas.Node.Coalesce.Waits.{HasBegun, awaiting-HasBegun}

-- The request was sent, and `finally` has not run.
abbrev pub IsUnderWay : Phase → Type 0
IsUnderWay unstarted = ⊥
IsUnderWay asking = Unit
IsUnderWay (finishing e) = Unit
IsUnderWay (settled e) = ⊥

-- How the numbers of requests stand in a phase of the last refresh.
abbrev Counts : Phase → ℕ → ℕ → Type 0
Counts asking answered sent = answered + 1 ≡ sent
Counts (finishing e) answered sent = answered ≡ sent
Counts p answered sent = ⊥

abbrev Fits : Option ℕ → (ℕ → Phase) → ℕ → ℕ → Type 0
Fits none phases answered sent = answered ≡ sent
Fits (some n) phases answered sent = Counts (phases n) answered sent

record Inv (s : State) : Type 0 where
  fits : Fits s.inflight s.phases s.answered s.sent
  alone : (n : ℕ) → IsUnderWay (s.phases n) → s.inflight ≡ some n

module _ (f : ℕ → Phase) (o : Option ℕ) (n : ℕ) (p : Phase) where
  update-alone :
      ((m : ℕ) → IsUnderWay (f m) → o ≡ some m)
      → (IsUnderWay p → o ≡ some n)
      → (m : ℕ) → IsUnderWay (update f n p m)
      → o ≡ some m
  update-alone alone here m u = elim (Bool-cases (n == m)) [
    | inl e ↦ here (rw e at u) ∙ ap some ((==_iff n m).0 e)
    | inr e ↦ alone m (rw e at u)
  ]

  update-Fits : (a k : ℕ) → o ≡ some n → Counts p a k → Fits o (update f n p) a k
  update-Fits a k e h =
      subst (λ q. Fits q (update f n p) a k) (sym e)
        (subst (λ q. Counts q a k) (sym (update_here f n p)) h)

  Fits-Counts : (a k : ℕ) → o ≡ some n → f n ≡ p → Fits o f a k → Counts p a k
  Fits-Counts a k e at_n h = subst (λ q. Counts q a k) at_n (subst (λ q. Fits q f a k) e h)

join-Inv :
    (i : ℕ) (kid : Text) (o : Option ℕ) (s : State) → s.inflight ≡ o → Inv s → Inv (join i kid o s)
join-Inv i kid (some n) s e inv = record { fits = inv.fits; alone = inv.alone }
join-Inv i kid none s e inv =
    let even : s.answered ≡ s.sent = subst (λ q. Fits q s.phases s.answered s.sent) e inv.fits in
    record {
      fits =
          update-Fits s.phases (some s.sent) s.sent asking s.answered (s.sent + 1) refl
            (omega arith);
      alone =
          update-alone s.phases (some s.sent) s.sent asking
            (λ m u. absurd (none-ne-some m (sym e ∙ inv.alone m u))) (λ u. refl);
    }
  where
    none-ne-some : (m : ℕ) → none ≡ some m → ⊥
    none-ne-some m q = cc

entered-Inv :
    (i : ℕ) (kid : Text) (o : Option PublicKey) (s : State) → Inv s → Inv (entered i kid o s)
entered-Inv i kid (some key) s inv = record { fits = inv.fits; alone = inv.alone }
entered-Inv i kid none s inv = join-Inv i kid s.inflight s refl inv

module _ (n : ℕ) (s : State) (inv : Inv s) where
  -- A refresh in a phase that is under way is the one in flight.
  in_flight : (p : Phase) → IsUnderWay p → s.phases n ≡ p → s.inflight ≡ some n
  in_flight p u e = inv.alone n (subst IsUnderWay (sym e) u)

  -- A refresh that ends, in either way.
  ended :
      (x : Ending)
      → s.phases n ≡ asking
      → Fits s.inflight (update s.phases n (finishing x)) (s.answered + 1) s.sent
        × ((m : ℕ) → IsUnderWay (update s.phases n (finishing x) m) → s.inflight ≡ some m)
  ended x e =
      let here = in_flight asking tt e in
      (
        update-Fits s.phases s.inflight n (finishing x) (s.answered + 1) s.sent here
            (Fits-Counts s.phases s.inflight n asking s.answered s.sent here e inv.fits),
        update-alone s.phases s.inflight n (finishing x) inv.alone (λ u. here),
      )

  -- Once `finally` has run, none is under way.
  none_left :
      (x : Ending)
      → s.phases n ≡ finishing x
      → (m : ℕ) → IsUnderWay (update s.phases n (settled x) m)
      → ⊥
  none_left x e m u = elim (Bool-cases (n == m)) [
    | inl q ↦ rw q at u
    | inr q ↦
        let same : n ≡ m = some_eq (sym (in_flight (finishing x) tt e) ∙ inv.alone m (rw q at u)) in
        absurd (ground (arith, ==_iff n m))
  ]
    where
      some_eq : some n ≡ some m → n ≡ m
      some_eq h = cc

Step-Inv : {s t : State} → Step s t → Inv s → Inv t
Step-Inv {s} (call now i kid free) inv = entered-Inv i kid (fresh now s (get_key kid s.cache)) s inv
Step-Inv {s} (refresh_ends now n (usable next) e) inv =
    let (fits, alone) = ended n s inv fulfilled e in record { fits = fits; alone = alone }
Step-Inv {s} (refresh_ends now n (failed m) e) inv =
    let (fits, alone) = ended n s inv (rejected m) e in record { fits = fits; alone = alone }
Step-Inv {s} (clear n x e) inv = record {
  fits =
      Fits-Counts s.phases s.inflight n (finishing x) s.answered s.sent
        (in_flight n s inv (finishing x) tt e) e inv.fits;
  alone = λ m u. absurd (none_left n s inv x e m u);
}
Step-Inv {s} (resume i n kid x e p) inv = record { fits = inv.fits; alone = inv.alone }

Reach-Inv : {s : State} → Reach s → Inv s
Reach-Inv start = record { fits = refl; alone = λ n u. absurd u }
Reach-Inv (later r st) = Step-Inv st (Reach-Inv r)

Counts-few : (p : Phase) (a k : ℕ) → Counts p a k → k ≤ a + 1
Counts-few asking a k h = omega arith
Counts-few (finishing e) a k h = omega arith
Counts-few unstarted a k h = absurd h
Counts-few (settled e) a k h = absurd h

Fits-few : (o : Option ℕ) (f : ℕ → Phase) (a k : ℕ) → Fits o f a k → k ≤ a + 1
Fits-few none f a k h = omega arith
Fits-few (some n) f a k h = Counts-few (f n) a k h

-- However the calls of the Node SDK's `keyForKid` and the ends of its refreshes interleave in the
-- event loop: at most one refresh is under way at a time, `fetch` was called at most once more
-- often than refreshes have ended, and a call that waits, waits for a refresh that has begun.
pub coalesced :
    {s : State}
    → Reach s
    → (s.sent ≤ s.answered + 1)
      × ((m n : ℕ) → IsUnderWay (s.phases m) → IsUnderWay (s.phases n) → m ≡ n)
      × ((i n : ℕ) (kid : Text) → s.at i ≡ awaiting n kid → HasBegun (s.phases n))
coalesced {s} r =
    let inv = Reach-Inv r in
    (
      Fits-few s.inflight s.phases s.answered s.sent inv.fits,
      λ m n u v. some_eq m n (sym (inv.alone m u) ∙ inv.alone n v),
      λ i n kid e. awaiting-HasBegun i n kid r e,
    )
  where
    some_eq : (m n : ℕ) → some m ≡ some n → m ≡ n
    some_eq m n h = cc
