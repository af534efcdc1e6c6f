-- ===== src/Python/KeySet/Loop.antt =====
-- The loop of `_refresh_locked`, by one object of the list.
use ztxbas.Base.{◌≡◌, true, false, none, arith}
use ztxbas.Go.Json.{obj, Items, item, Members}
use ztxbas.Runtime.{PublicKey}
use ztxbas.Objects.{Found}
use ztxbas.Python.KeySet.{
  Reader, Exit, returns, raises, if_returned, is_usable, key_of, entered, collect,
}

module _ (reader : Reader) (ms : Members) (js : Items) (out : Found) where
  pub loop_skips :
      is_usable ms ≡ false → collect reader (item (obj ms) js) out ≡ collect reader js out
  unfolding collect
  loop_skips e = ground arith

  pub loop_enters :
      (p : Exit PublicKey) (out' : Found)
      → is_usable ms ≡ true
      → key_of reader ms ≡ p
      → entered reader ms p out ≡ returns out'
      → collect reader (item (obj ms) js) out ≡ collect reader js out'
  unfolding collect
  loop_enters p out' u e q = ground arith

  pub loop_stops :
      (p : Exit PublicKey)
      → is_usable ms ≡ true
      → key_of reader ms ≡ p
      → if_returned p ≡ none
      → if_returned (collect reader (item (obj ms) js) out) ≡ none
  unfolding collect
  loop_stops (returns pk) u e n = cc
  loop_stops (raises x) u e n = ground arith
