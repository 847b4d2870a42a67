-- ===== src/Async/Tests.antt =====
-- A queue of three events, the first of which belongs to a future that was cancelled.
use pyzmq.Base.{ℕ, refl, none, some, true, false, List, [], ◌∷◌, ok, err, zmq_error, arith, nat_eq}
use pyzmq.Base.Dict
use pyzmq.Base.Dict.{Dict}
use pyzmq.Base.Mask.{mask}
use pyzmq.Async.Settled.{HasStatus}
use pyzmq.Async.Runs.{Call, receives, sends, performs, closes, run, run-HasStatus}
use pyzmq.Async.{
  Event, Status, cancelled, pending, whole, pop_pending, Driver, Socket, init, sent, status_of,
  times_out,
}
use pyzmq.Async.Queues.{IsSplit, pop_pending-IsSplit}

abbrev event : ℕ → Event
event f = record {
  future = f;
  kind = whole;
  kwargs = record { dontwait = false; flags = 0; copy = true; track = false };
  msg = [];
  timer = false;
}

abbrev statuses : Dict ℕ Status
statuses = (1, cancelled) ∷ (2, pending) ∷ (3, pending) ∷ []

abbrev queue : List Event
queue = event 1 ∷ event 2 ∷ event 3 ∷ []

pop_pending-IsSplit_example : IsSplit statuses queue (pop_pending statuses queue)
pop_pending-IsSplit_example = pop_pending-IsSplit statuses queue

-- A socket with nothing to receive, which accepts every send.
abbrev quiet : Driver ℕ
quiet = record {
  events = λ net. ok (mask false true);
  recv = λ kind kwargs net. (err (zmq_error 11), net);
  send = λ kind msg kwargs net. (ok (sent 1), net);
  rcvtimeo = λ net. some 100;
  sndtimeo = λ net. none;
  eagain = 11;
  default_loop = λ net. 0;
}

abbrev calls : List Call
calls =
    receives whole (record { dontwait = false; flags = 0; copy = true; track = false })
    ∷ performs (times_out 0)
    ∷ sends whole ((1 ∷ []) ∷ [])
        (record { dontwait = false; flags = 0; copy = true; track = false })
    ∷ closes
    ∷ []

-- A socket whose future 0 was cancelled.
abbrev one_cancelled : Socket ℕ
one_cancelled = record (init 0) { statuses = (0, cancelled) ∷ []; next_future = 1 }

one_cancelled-HasStatus : HasStatus 0 cancelled one_cancelled.statuses one_cancelled.next_future
unfolding init status_of Dict.lookup
one_cancelled-HasStatus = record { made = omega arith; has = refl }

run-HasStatus_example :
    HasStatus 0 cancelled
      (run quiet one_cancelled calls).statuses
      (run quiet one_cancelled calls).next_future
run-HasStatus_example =
    run-HasStatus quiet 0 cancelled calls one_cancelled refl one_cancelled-HasStatus
