-- ===== src/Async/Queues.antt =====
-- The event that a handler takes off its queue (zmq/_future.py, the loops at the head of
-- `_handle_recv` and `_handle_send`).
use pyzmq.Base.{
  ℕ, ◌≡◌, refl, Bool, true, false, Option, none, some, List, [], ◌∷◌, ◌++◌, All, if◌then◌else◌,
}
use pyzmq.Base.Dict.{Dict}
use pyzmq.Async.{Event, Status, is_done, status_of, pop_pending}

-- What is taken off a queue: the events that were dropped, and the one that was taken, if any.
abbrev taken : Option Event → List Event
taken none = []
taken (some e) = e ∷ []

-- The result of the loop on a queue: every event that was dropped belongs to a future that is
-- done, an event that was taken to one that is not, and an empty hand leaves an empty queue.
pub record IsSplit (d : Dict ℕ Status) (queue : List Event) (r : Option Event × List Event)
    : Type 0 where
  pub dropped : List Event
  pub all_done : All (λ e. is_done (status_of e.future d) ≡ true) dropped
  pub in_order : queue ≡ dropped ++ (taken r.0 ++ r.1)
  pub first : All (λ e. is_done (status_of e.future d) ≡ false) (taken r.0)
  pub rest : elim r.0 as (λ _. Type 0) [ none ↦ r.1 ≡ [] | some e ↦ Unit {0} ]

IsSplit-cons :
    (d : Dict ℕ Status) (e : Event) (es : List Event) (r : Option Event × List Event) (b : Bool)
    → is_done (status_of e.future d) ≡ b
    → IsSplit d es r
    → IsSplit d (e ∷ es) (if b then r else (some e, es))
IsSplit-cons d e es r true h s = record {
  dropped = e ∷ s.dropped;
  all_done = (h, s.all_done);
  in_order = λ i. e ∷ s.in_order i;
  first = s.first;
  rest = s.rest;
}
IsSplit-cons d e es r false h s = record {
  dropped = [];
  all_done = tt;
  in_order = refl;
  first = (h, tt);
  rest = tt;
}

-- For every table of futures and every queue, the loop drops from the head of the queue only events
-- whose futures are done, takes the first event whose future is not done, and leaves the events
-- after it in their order; if it takes none, then every event of the queue was done and the queue
-- is left empty.
pub pop_pending-IsSplit :
    (d : Dict ℕ Status) (queue : List Event) → IsSplit d queue (pop_pending d queue)
unfolding pop_pending
pop_pending-IsSplit d [] = record {
  dropped = [];
  all_done = tt;
  in_order = refl;
  first = tt;
  rest = refl;
}
pop_pending-IsSplit d (e ∷ es) =
    IsSplit-cons d e es (pop_pending d es) (is_done (status_of e.future d)) refl
      (pop_pending-IsSplit d es)
