-- ===== src/Select.antt =====
-- zmq/sugar/poll.py: `Poller.poll` and `select`, over the backend's `zmq_poll`. The order in which a
-- Python set is gone through is a parameter; so is `int` of a product of floats.
pub mod Ready
pub mod Tests
use pyzmq.Base.{
  ℕ, Bool, true, false, ◌||◌, Option, none, some, List, [], ◌∷◌, ◌++◌, Result, ok, err,
  if◌then◌else◌, ◌==◌,
}
use pyzmq.Base.Int.{ℤ, pos, negsuc, is_negative}
use pyzmq.Base.Mask.{Mask, no_events, pollin_mask, pollout_mask, pollerr_mask, union}
use pyzmq.Poller.{Poller}

-- A timeout in milliseconds: none, an int, or a float, here its sign and its integer part.
pub data Timeout : Type 0 where
  no_timeout : Timeout
  int_timeout : ℤ → Timeout
  float_timeout : Bool → ℤ → Timeout

-- `if timeout is None or timeout < 0: … elif isinstance(timeout, float): …`
pub milliseconds : Timeout → ℤ
milliseconds no_timeout = negsuc 0
milliseconds (int_timeout z) = if is_negative z then negsuc 0 else z
milliseconds (float_timeout below_zero z) = if below_zero then negsuc 0 else z

-- The backend's `zmq_poll`; sockets and descriptors are numbers, and the
-- flags stand as numbers or as masks.
abbrev pub ZmqPoll : Type 0 → Type 0 → Type 0
ZmqPoll Flags Net = List (ℕ × Flags) → ℤ → Net → Result (List (ℕ × Flags)) × Net

-- `Poller.poll`
pub poll : {Net : Type 0} → ZmqPoll ℕ Net → Poller → Timeout → Net → Result (List (ℕ × ℕ)) × Net
unfolding milliseconds
poll zmq_poll poller timeout net = zmq_poll poller.sockets (milliseconds timeout) net

unfoldable pub contains : ℕ → List ℕ → Bool
contains s [] = false
contains s (x ∷ xs) = if x == s then true else contains s xs

-- The events that are asked for.
unfoldable pub flags_of : List ℕ → List ℕ → List ℕ → ℕ → Mask
unfolding contains
flags_of rlist wlist xlist s =
    union
      (union (union no_events (if contains s rlist then pollin_mask else no_events))
        (if contains s wlist then pollout_mask else no_events))
      (if contains s xlist then pollerr_mask else no_events)

unfoldable pub asked_for : List ℕ → List ℕ → List ℕ → List ℕ → List (ℕ × Mask)
unfolding flags_of
asked_for rlist wlist xlist [] = []
asked_for rlist wlist xlist (s ∷ ss) =
    (s, flags_of rlist wlist xlist s) ∷ asked_for rlist wlist xlist ss

-- The sockets with one of the events, in the order of the answer.
unfoldable pub with_event : (Mask → Bool) → List (ℕ × Mask) → List ℕ
with_event event [] = []
with_event event ((s, flags) ∷ rs) =
    let rest = with_event event rs in if event flags then s ∷ rest else rest

unfoldable pub split_ready : Result (List (ℕ × Mask)) → Result (List ℕ × List ℕ × List ℕ)
unfolding with_event
split_ready (err e) = err e
split_ready (ok rs) = ok (
  with_event (λ flags. flags.pollin) rs,
  with_event (λ flags. flags.pollout) rs,
  with_event (λ flags. flags.pollerr) rs,
)

-- `timeout = int(timeout * 1000.0)` of a timeout in seconds, by `to_ms`
unfoldable pub select_timeout : (ℕ → ℤ) → Option ℕ → ℤ
select_timeout to_ms none = negsuc 0
select_timeout to_ms (some seconds) =
    let ms = to_ms seconds in if is_negative ms then negsuc 0 else ms

unfoldable pub select :
    {Net : Type 0}
    → ZmqPoll Mask Net
    → (List ℕ → List ℕ)
    → (ℕ → ℤ)
    → List ℕ
    → List ℕ
    → List ℕ
    → Option ℕ
    → Net
    → Result (List ℕ × List ℕ × List ℕ) × Net
unfolding asked_for split_ready select_timeout
select zmq_poll as_set to_ms rlist wlist xlist timeout net =
    let answer =
      zmq_poll (asked_for rlist wlist xlist (as_set (rlist ++ wlist ++ xlist)))
        (select_timeout to_ms timeout) net in
    (split_ready answer.0, answer.1)
