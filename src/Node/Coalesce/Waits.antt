-- ===== src/Node/Coalesce/Waits.antt =====
-- No call waits for a refresh that has not begun.
use ztxbas.Base.{
  ℕ, ◌≡◌, refl, sym, subst, Option, none, some, update, update_all, update_here, ◌==◌, Bool-cases,
  inl, inr,
}
use ztxbas.Base.Text.{Text}
use ztxbas.Runtime.{PublicKey}
use ztxbas.Jwks.{get_key}
use ztxbas.Node.KeySet.{usable, failed}
use ztxbas.Node.Coalesce.{
  Phase, unstarted, asking, finishing, settled, fulfilled, rejected, Pc, idle, awaiting, returned,
  found, State, fresh, join, entered, Step, call, refresh_ends, clear, resume, Reach, start, later,
}

-- The refresh has begun; it may have ended.
abbrev pub HasBegun : Phase → Type 0
HasBegun unstarted = ⊥
HasBegun asking = Unit
HasBegun (finishing e) = Unit
HasBegun (settled e) = Unit

abbrev IsServed : (ℕ → Phase) → Pc → Type 0
IsServed f (awaiting n kid) = HasBegun (f n)
IsServed f idle = Unit
IsServed f (returned kid a) = Unit

abbrev AllServed : (ℕ → Phase) → (ℕ → Pc) → Type 0
AllServed f at = (i : ℕ) → IsServed f (at i)

HasBegun-update :
    (f : ℕ → Phase) (n : ℕ) (p : Phase) (m : ℕ)
    → HasBegun p
    → HasBegun (f m)
    → HasBegun (update f n p m)
HasBegun-update f n p m new old = elim (Bool-cases (n == m)) [ inl e ↦ rw e new | inr e ↦ rw e old ]

IsServed-update :
    (f : ℕ → Phase) (n : ℕ) (p : Phase) (c : Pc)
    → HasBegun p
    → IsServed f c
    → IsServed (update f n p) c
IsServed-update f n p (awaiting m kid) new old = HasBegun-update f n p m new old
IsServed-update f n p idle new old = tt
IsServed-update f n p (returned kid a) new old = tt

AllServed-update :
    (f : ℕ → Phase) (n : ℕ) (p : Phase) (at : ℕ → Pc)
    → HasBegun p
    → AllServed f at
    → AllServed (update f n p) at
AllServed-update f n p at new all i = IsServed-update f n p (at i) new (all i)

-- The promise in flight is that of a refresh that has begun.
abbrev IsBegun : (ℕ → Phase) → Option ℕ → Type 0
IsBegun f none = Unit
IsBegun f (some n) = HasBegun (f n)

IsBegun-update :
    (f : ℕ → Phase) (n : ℕ) (p : Phase) (o : Option ℕ)
    → HasBegun p
    → IsBegun f o
    → IsBegun (update f n p) o
IsBegun-update f n p none new old = tt
IsBegun-update f n p (some m) new old = HasBegun-update f n p m new old

record Inv (s : State) : Type 0 where
  begun : IsBegun s.phases s.inflight
  served : AllServed s.phases s.at

join-Inv :
    (i : ℕ) (kid : Text) (o : Option ℕ) (s : State) → s.inflight ≡ o → Inv s → Inv (join i kid o s)
join-Inv i kid (some n) s e inv = record {
  begun = inv.begun;
  served =
      update_all (IsServed s.phases) s.at i (awaiting n kid) inv.served
        (subst (IsBegun s.phases) e inv.begun);
}
join-Inv i kid none s e inv =
    let here : HasBegun (update s.phases s.sent asking s.sent) =
      subst HasBegun (sym (update_here s.phases s.sent asking)) tt in
    record {
      begun = here;
      served =
          update_all (IsServed (update s.phases s.sent asking)) s.at i (awaiting s.sent kid)
            (AllServed-update s.phases s.sent asking s.at tt inv.served) here;
    }

entered-Inv :
    (i : ℕ) (kid : Text) (o : Option PublicKey) (s : State) → Inv s → Inv (entered i kid o s)
entered-Inv i kid none s inv = join-Inv i kid s.inflight s refl inv
entered-Inv i kid (some key) s inv = record {
  begun = inv.begun;
  served = update_all (IsServed s.phases) s.at i (returned kid (found key)) inv.served tt;
}

Step-Inv : {s t : State} → Step s t → Inv s → Inv t
Step-Inv {s} (call now i kid free) inv = entered-Inv i kid (fresh now s (get_key kid s.cache)) s inv
Step-Inv {s} (refresh_ends now n (usable next) e) inv = record {
  begun = IsBegun-update s.phases n (finishing fulfilled) s.inflight tt inv.begun;
  served = AllServed-update s.phases n (finishing fulfilled) s.at tt inv.served;
}
Step-Inv {s} (refresh_ends now n (failed m) e) inv = record {
  begun = IsBegun-update s.phases n (finishing (rejected m)) s.inflight tt inv.begun;
  served = AllServed-update s.phases n (finishing (rejected m)) s.at tt inv.served;
}
Step-Inv {s} (clear n x e) inv = record {
  begun = tt;
  served = AllServed-update s.phases n (settled x) s.at tt inv.served;
}
Step-Inv {s} (resume i n kid x e p) inv = record {
  begun = inv.begun;
  served = update_all (IsServed s.phases) s.at i (returned kid _) inv.served tt;
}

Reach-Inv : {s : State} → Reach s → Inv s
Reach-Inv start = record { begun = tt; served = λ i. tt }
Reach-Inv (later r st) = Step-Inv st (Reach-Inv r)

-- A call that waits, waits for a refresh that has begun.
pub awaiting-HasBegun :
    {s : State} (i n : ℕ) (kid : Text) → Reach s → s.at i ≡ awaiting n kid → HasBegun (s.phases n)
awaiting-HasBegun {s} i n kid r e = subst (IsServed s.phases) e ((Reach-Inv r).served i)
