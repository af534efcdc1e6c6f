-- ===== src/Node/Poll/Told.antt =====
-- How a round of the Node SDK's poll ends before the look at the clock.
use ztxbas.Base.{
  ◌≡◌, ◌≢◌, ◌⊎◌, inl, inr, refl, subst, Bool, [], none, some, true, false, if◌then◌else◌, arith,
}
use ztxbas.Base.Result.{Outcome, done, fault}
use ztxbas.Base.Text.{Text, codes, same, same_iff, is_empty, is_empty_iff}
use ztxbas.Node.Poll.{
  StatusResponse, Ended, resolved, rejected, jwt_missing, denied, expired, timed_out, settled,
  terminal,
}

some_eq {ℓ} : {A : Type ℓ} (a b : A) → some a ≡ some b → a ≡ b
some_eq a b e = cc

module _ {C : Type 0} where
  -- What the server said in the round, for each end before the look at the clock.
  abbrev pub IsTold : (Text → Outcome C) → Outcome StatusResponse → Ended C → Type 0
  IsTold verify o (resolved c) =
      (st : StatusResponse) × (o ≡ done st)
      × (st.status ≡ codes "approved")
      × (st.jwt ≢ [])
      × (verify st.jwt ≡ done c)
  IsTold verify o (rejected m) =
      (o ≡ fault m)
      ⊎ ((st : StatusResponse) × (o ≡ done st)
          × (st.status ≡ codes "approved")
          × (verify st.jwt ≡ fault m))
  IsTold verify o jwt_missing =
      (st : StatusResponse) × (o ≡ done st) × (st.status ≡ codes "approved") × (st.jwt ≡ [])
  IsTold verify o denied = (st : StatusResponse) × (o ≡ done st) × (st.status ≡ codes "denied")
  IsTold verify o expired = (st : StatusResponse) × (o ≡ done st) × (st.status ≡ codes "expired")
  IsTold verify o timed_out =
      (st : StatusResponse) × (o ≡ done st)
      × (st.status ≢ codes "approved")
      × (st.status ≢ codes "denied")
      × (st.status ≢ codes "expired")

  settled-IsTold :
      (verify : Text → Outcome C) (st : StatusResponse) (v : Outcome C)
      → st.status ≡ codes "approved"
      → st.jwt ≢ []
      → verify st.jwt ≡ v
      → IsTold verify (done st) (settled v)
  settled-IsTold verify st (done c) a n e = (st, refl, a, n, e)
  settled-IsTold verify st (fault m) a n e = inr (st, refl, a, e)

  which :
      (a n d x : Bool) (v e : Ended C)
      → (if a
          then (if n then some jwt_missing else some v)
          else if d
          then some denied
          else if x
          then some expired
          else none)
        ≡ some e
      → ((a ≡ true) × (n ≡ true) × (jwt_missing ≡ e))
        ⊎ ((a ≡ true) × (n ≡ false) × (v ≡ e))
        ⊎ ((d ≡ true) × (denied ≡ e))
        ⊎ ((x ≡ true) × (expired ≡ e))
  which a n d x v e h = ground arith

  pub terminal-IsTold :
      (verify : Text → Outcome C) (o : Outcome StatusResponse) (e : Ended C)
      → terminal verify o ≡ some e
      → IsTold verify o e
  unfolding terminal
  terminal-IsTold verify (fault m) e h = subst (IsTold verify (fault m)) (some_eq _ _ h) (inl refl)
  terminal-IsTold verify (done st) e h =
      let approved = (same_iff st.status (codes "approved")).0 in
      elim (which (same st.status (codes "approved")) (is_empty st.jwt)
        (same st.status (codes "denied")) (same st.status (codes "expired"))
        (settled (verify st.jwt)) e h) [
          | inl (a, n, q) ↦
              subst (IsTold verify (done st)) q (st, refl, approved a, (is_empty_iff st.jwt).0 n)
          | inr (inl (a, n, q)) ↦ subst (IsTold verify (done st)) q (
              settled-IsTold verify st (verify st.jwt) (approved a)
                (λ z. ground (arith, is_empty_iff st.jwt)) refl)
          | inr (inr (inl (d, q))) ↦
              subst (IsTold verify (done st)) q
                (st, refl, (same_iff st.status (codes "denied")).0 d)
          | inr (inr (inr (x, q))) ↦
              subst (IsTold verify (done st)) q
                (st, refl, (same_iff st.status (codes "expired")).0 x)
        ]

  settled-ne-timed_out : (v : Outcome C) → settled v ≡ timed_out → ⊥
  settled-ne-timed_out (done c) e = cc
  settled-ne-timed_out (fault m) e = cc

  pub terminal-ne-timed_out :
      (verify : Text → Outcome C) (o : Outcome StatusResponse)
      → terminal verify o ≡ some timed_out
      → ⊥
  unfolding terminal
  terminal-ne-timed_out verify (fault m) h = cc
  terminal-ne-timed_out verify (done st) h =
      elim (which (same st.status (codes "approved")) (is_empty st.jwt)
        (same st.status (codes "denied")) (same st.status (codes "expired"))
        (settled (verify st.jwt)) timed_out h) [
          | inl (a, n, q) ↦ cc
          | inr (inl (a, n, q)) ↦ settled-ne-timed_out (verify st.jwt) q
          | inr (inr (inl (d, q))) ↦ cc
          | inr (inr (inr (x, q))) ↦ cc
        ]

  pub terminal-none :
      (verify : Text → Outcome C) (o : Outcome StatusResponse)
      → terminal verify o ≡ none
      → IsTold verify o timed_out
  unfolding terminal
  terminal-none verify (fault m) h = cc
  terminal-none verify (done st) h = (
    st,
    refl,
    ground (arith, same_iff st.status (codes "approved")),
    ground (arith, same_iff st.status (codes "approved"), same_iff st.status (codes "denied")),
    ground (arith, same_iff st.status (codes "expired")),
  )
