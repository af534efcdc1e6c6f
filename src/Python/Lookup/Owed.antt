-- ===== src/Python/Lookup/Owed.antt =====
-- What is left of a lookup at each step, and its id.
use ztxbas.Base.{◌≡◌}
use ztxbas.Base.Text.{Text}
use ztxbas.Jwks.{get_key}
use ztxbas.Python.Lookup.{
  Host, Session, Answer, Next, leaves, refreshes, ends, look, fetch_set, store, finish, key_for_kid,
  Pc, idle, waiting, checking, fetching, storing, returned, moved, left, turn,
}

-- The id of a lookup under way.
abbrev pub IsOf : Text → Pc → Type 0
IsOf kid idle = ⊥
IsOf kid (waiting k) = kid ≡ k
IsOf kid (checking k) = kid ≡ k
IsOf kid (fetching k) = kid ≡ k
IsOf kid (storing k r) = kid ≡ k
IsOf kid (returned k a) = kid ≡ k

module _ (host : Host) where
  -- What is left of the lookup ends as the lookup from this state does.
  abbrev pub Owes : Pc → Session → Session → Type 0
  Owes (checking kid) s b = key_for_kid host kid s ≡ key_for_kid host kid b
  Owes (fetching kid) s b = finish host kid (refreshes, s) ≡ key_for_kid host kid b
  Owes (storing kid r) s b = store host kid r s ≡ key_for_kid host kid b
  Owes (returned kid a) s b = (a, s) ≡ key_for_kid host kid b
  Owes p s b = ⊥

  moved-Owes :
      (kid : Text) (n : Next × Session) (b : Session)
      → finish host kid n ≡ key_for_kid host kid b
      → Owes (moved kid n).0 (moved kid n).1 b
  moved-Owes kid (leaves a, s) b h = h
  moved-Owes kid (refreshes, s) b h = h
  moved-Owes kid (ends r, s) b h = h

  pub turn-Owes : (p : Pc) (s b : Session) → Owes p s b → Owes (turn host p s).0 (turn host p s).1 b
  unfolding turn key_for_kid
  turn-Owes (checking kid) s b h = moved-Owes kid (look host (get_key kid s.verifier.keys) s) b h
  turn-Owes (fetching kid) s b h = h
  turn-Owes (storing kid r) s b h = h
  turn-Owes (returned kid a) s b h = h
  turn-Owes idle s b h = absurd h
  turn-Owes (waiting kid) s b h = absurd h

  moved-IsOf : (kid k : Text) (n : Next × Session) → kid ≡ k → IsOf kid (moved k n).0
  moved-IsOf kid k (leaves a, s) e = e
  moved-IsOf kid k (refreshes, s) e = e
  moved-IsOf kid k (ends r, s) e = e

  left-IsOf : (kid k : Text) (n : Answer × Session) → kid ≡ k → IsOf kid (left k n).0
  left-IsOf kid k n e = e

  pub turn-IsOf : (kid : Text) (p : Pc) (s : Session) → IsOf kid p → IsOf kid (turn host p s).0
  unfolding turn
  turn-IsOf kid (checking k) s e = moved-IsOf kid k (look host (get_key k s.verifier.keys) s) e
  turn-IsOf kid (fetching k) s e = moved-IsOf kid k (fetch_set host s) e
  turn-IsOf kid (storing k r) s e = left-IsOf kid k (store host k r s) e
  turn-IsOf kid (waiting k) s e = e
  turn-IsOf kid (returned k a) s e = e
  turn-IsOf kid idle s e = e
