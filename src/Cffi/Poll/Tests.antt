-- ===== src/Cffi/Poll/Tests.antt =====
-- A poll that is interrupted twice, three milliseconds each, and then finds the first item ready.
use pyzmq.Base.{ℕ, zero, suc, ◌+◌, ◌≡◌, refl, arith, none, some, List, [], ◌∷◌, ok}
use pyzmq.Base.Int.{ℤ, pos, negsuc, minus}
use pyzmq.Cffi.Poll.{
  Target, socket, descriptor, PollItem, Driver, make_items, remember_all, collect, set_revents,
  poll_loop,
}
use pyzmq.Errors.{is_minus_one}
use pyzmq.Cffi.Poll.Retries.{
  Interruptions, here, again, total, left, timed, forwards, poll_loop_retries,
}
use pyzmq.Cffi.Poll.Results.{ready, collect-ready}

-- The interruptions to come, and the time.
abbrev World : Type 0
World = ℕ × ℕ

abbrev answer : World → (ℤ × List ℕ) × World
answer (zero, now) = ((pos 1, 1 ∷ 0 ∷ []), (zero, now))
answer (suc n, now) = ((negsuc 0, []), (n, now + 3))

abbrev signals : Driver World
signals = record {
  poll = λ items timeout net. answer net;
  errno = λ net. 4;
  monotonic = λ net. (net.1, net);
  ms_between = λ start stop. minus stop start;
  errnos = record { eintr = 4; eagain = 11; eterm = 156 };
}

abbrev targets : List (Target × ℕ)
targets = (socket 1 70, 1) ∷ (descriptor 5, 3) ∷ []

abbrev items : List PollItem
items =
    record { socket = some 70; fd = 0; events = 1; revents = 0 }
    ∷ record { socket = none; fd = 5; events = 3; revents = 0 }
    ∷ []

two-Interruptions : Interruptions signals items (0, 6) items (pos 10) (2, 0) (3 ∷ 3 ∷ [])
unfolding set_revents left
two-Interruptions = again refl refl (timed forwards) (again refl refl (timed forwards) here)

poll_loop_retries_example :
    poll_loop signals 3 items (pos 10) (2, 0) ≡ (ok (some (set_revents items (1 ∷ 0 ∷ []))), (0, 6))
unfolding total left is_minus_one
poll_loop_retries_example =
    poll_loop_retries signals items items (pos 10) (pos 1) (2, 0) (0, 6) (0, 6) (1 ∷ 0 ∷ [])
      (3 ∷ 3 ∷ []) 3 two-Interruptions refl refl (omega arith)

collect-ready_example :
    collect (remember_all targets []) (set_revents (make_items targets) (0 ∷ 2 ∷ []))
    ≡ ok (ready targets (0 ∷ 2 ∷ []))
collect-ready_example = collect-ready (λ p. 1) targets (0 ∷ 2 ∷ []) (refl, (tt, tt))
