-- ===== src/Garbage/Tests.antt =====
-- A collector of process 9 that has not started yet, and other keys that come and go.
use pyzmq.Base.{◌≡◌, refl, none, some, [], ◌∷◌, arith, nat_eq}
use pyzmq.Base.Dict
use pyzmq.Garbage.{init, store, release}
use pyzmq.Garbage.Held.{run, stores, releases, release-store}

release-store_example :
    let after = run 9 (stores 2 60 none ∷ releases 2 ∷ []) (store 9 1 50 (some 77) (init none)).1 in
    (Dict.lookup 1 after.refs ≡ some (50, some 77))
    × (Dict.lookup 1 (release 1 after).refs ≡ none)
    × ((release 1 after).set_events ≡ 77 ∷ after.set_events)
unfolding init
release-store_example =
    release-store 9 1 50 77 (stores 2 60 none ∷ releases 2 ∷ []) (init none) refl
      (omega arith, (omega arith, tt))
