-- ===== src/Poller/Tests.antt =====
-- `Poller` on concrete calls.
use pyzmq.Base.{ℕ, ◌≡◌, none, List, [], ◌∷◌, nat_eq}
use pyzmq.Poller.{init}
use pyzmq.Poller.Invariant.{IsValid}
use pyzmq.Poller.View.{flags_of}
use pyzmq.Poller.Runs.{Call, registers, modifies, unregisters, run, told_all, run-told_all}

abbrev calls : List Call
calls =
    registers 7 1
    ∷ registers 8 3
    ∷ registers 9 2
    ∷ unregisters 7
    ∷ unregisters 5
    ∷ modifies 9 0
    ∷ []

run-told_all_example :
    IsValid (run init calls)
    × ((t : ℕ) → flags_of t (run init calls) ≡ told_all (λ x. none) calls t)
run-told_all_example = run-told_all calls
