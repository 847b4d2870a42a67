-- ===== src/Garbage/Held.antt =====
-- A stored object is held until libzmq releases it.
use pyzmq.Base.{
  ℕ, ◌≡◌, ◌≢◌, refl, sym, Bool, true, false, not, ◌&&◌, Option, none, some, List, [], ◌∷◌, nat_eq,
  arith, All, Bool-cases, inl, inr,
}
use mathlib.Core.Path.{subst}
use pyzmq.Base.Dict
use pyzmq.Base.Dict.{Dict}
use pyzmq.Garbage.{
  Gcref, GarbageCollector, is_alive, same_process, runs, start, ensure_started, store, signal,
  release,
}

-- What happens in a running process.
pub data Action : Type 0 where
  stores : ℕ → ℕ → Option ℕ → Action
  releases : ℕ → Action

pub step : ℕ → Action → GarbageCollector → GarbageCollector
step pid (stores theid obj event) gc = (store pid theid obj event gc).1
step pid (releases key) gc = release key gc

pub run : ℕ → List Action → GarbageCollector → GarbageCollector
unfolding step
run pid [] gc = gc
run pid (a ∷ as') gc = run pid as' (step pid a gc)

-- The key of an action.
abbrev pub key_of : Action → ℕ
key_of (stores theid obj event) = theid
key_of (releases key) = key

IsHeld : ℕ → ℕ → Gcref → GarbageCollector → Type 0
IsHeld pid k ref gc = (is_alive pid gc ≡ true) × (Dict.lookup k gc.refs ≡ some ref)

store_alive :
    (pid theid obj : ℕ) (event : Option ℕ) (gc : GarbageCollector)
    → is_alive pid gc ≡ true
    → (store pid theid obj event gc).1 ≡ record gc { refs = Dict.insert theid (obj, event) gc.refs }
unfolding store ensure_started
store_alive pid theid obj event gc h = rw h refl

insert-other :
    (j k : ℕ) (v : Gcref) (refs : Dict ℕ Gcref) (ref : Gcref)
    → j ≢ k
    → Dict.lookup k refs ≡ some ref
    → Dict.lookup k (Dict.insert j v refs) ≡ some ref
insert-other j k v refs ref n h = ground (arith, Dict.lookup-insert j k v refs)

remove-other :
    (j k : ℕ) (refs : Dict ℕ Gcref) (ref : Gcref)
    → j ≢ k
    → Dict.lookup k refs ≡ some ref
    → Dict.lookup k (Dict.remove j refs) ≡ some ref
remove-other j k refs ref n h = ground (arith, Dict.lookup-remove j k refs)

step-IsHeld :
    (pid k : ℕ) (ref : Gcref) (a : Action) (gc : GarbageCollector)
    → key_of a ≢ k
    → IsHeld pid k ref gc
    → IsHeld pid k ref (step pid a gc)
unfolding step IsHeld release is_alive
step-IsHeld pid k ref (stores theid obj event) gc n (alive, h) =
    subst
      (λ (gc' : GarbageCollector). (is_alive pid gc' ≡ true) × (Dict.lookup k gc'.refs ≡ some ref))
      (sym (store_alive pid theid obj event gc alive))
      (alive, insert-other theid k (obj, event) gc.refs ref n h)
step-IsHeld pid k ref (releases key) gc n (alive, h) = (alive, remove-other key k gc.refs ref n h)

run-IsHeld :
    (pid k : ℕ) (ref : Gcref) (as' : List Action) (gc : GarbageCollector)
    → All (λ a. key_of a ≢ k) as'
    → IsHeld pid k ref gc
    → IsHeld pid k ref (run pid as' gc)
unfolding run
run-IsHeld pid k ref [] gc n h = h
run-IsHeld pid k ref (a ∷ as') gc (n, ns) h =
    run-IsHeld pid k ref as' (step pid a gc) ns (step-IsHeld pid k ref a gc n h)

start_alive : (pid : ℕ) (gc : GarbageCollector) → is_alive pid (start pid gc) ≡ true
unfolding is_alive same_process runs start
start_alive pid gc = ground arith

ensure_started_alive :
    (pid : ℕ) (gc : GarbageCollector) → is_alive pid (ensure_started pid gc) ≡ true
unfolding ensure_started
ensure_started_alive pid gc = elim (Bool-cases (is_alive pid gc)) [
  | inl h ↦ rw h h
  | inr h ↦ rw h (start_alive pid gc)
]

and_false : (b c : Bool) → c ≡ false → (b && c) ≡ false
and_false b c h = ground arith

store_up :
    (pid theid obj : ℕ) (event : Option ℕ) (gc : GarbageCollector)
    → gc.stay_down ≡ false
    → (store pid theid obj event gc).1 ≡ record (ensure_started pid gc) {
      refs = Dict.insert theid (obj, event) (ensure_started pid gc).refs;
    }
unfolding store
store_up pid theid obj event gc h = rw (and_false (not (is_alive pid gc)) gc.stay_down h) refl

stored :
    (pid theid obj : ℕ) (event : Option ℕ) (gc : GarbageCollector)
    → gc.stay_down ≡ false
    → IsHeld pid theid (obj, event) (store pid theid obj event gc).1
unfolding IsHeld is_alive
stored pid theid obj event gc h =
    subst
      (λ (gc' : GarbageCollector).
        (is_alive pid gc' ≡ true) × (Dict.lookup theid gc'.refs ≡ some (obj, event)))
      (sym (store_up pid theid obj event gc h))
      (
        ensure_started_alive pid gc,
        ground (arith, Dict.lookup-insert theid theid (obj, event) (ensure_started pid gc).refs),
      )

-- Outside shutdown, an object that is stored with an event, the thread running already or not, is held
-- after any stores and releases of other keys, in any order; and when its key is released then, it is
-- held no longer, and its event is set.
pub release-store :
    (pid theid obj event : ℕ) (as' : List Action) (gc : GarbageCollector)
    → gc.stay_down ≡ false
    → All (λ a. key_of a ≢ theid) as'
    → let after = run pid as' (store pid theid obj (some event) gc).1 in
      (Dict.lookup theid after.refs ≡ some (obj, some event))
      × (Dict.lookup theid (release theid after).refs ≡ none)
      × ((release theid after).set_events ≡ event ∷ after.set_events)
unfolding release IsHeld signal
release-store pid theid obj event as' gc h n =
    let (alive, held) =
      run-IsHeld pid theid (obj, some event) as' (store pid theid obj (some event) gc).1 n
        (stored pid theid obj (some event) gc h) in
    (
      held,
      ground (
        arith,
        Dict.lookup-remove theid theid (run pid as' (store pid theid obj (some event) gc).1).refs,
      ),
      rw held refl,
    )
