-- ===== src/Async/Runs.antt =====
-- The asynchronous socket over any sequence of the user's calls and of the loop's.
use pyzmq.Base.{ℕ, ◌≡◌, true, List, [], ◌∷◌, Bytes}
use pyzmq.Async.{
  Status, is_done, Kind, Kwargs, Driver, Task, Socket, add_recv_event, add_send_event, perform, get,
  close,
}
use pyzmq.Async.Settled.{
  HasStatus, IsSettled, add_recv_event-Keeps, add_send_event-Keeps, perform-Keeps, get-Keeps,
  close-Keeps,
}

-- A call of the user, or one that the loop makes.
pub data Call : Type 0 where
  receives : Kind → Kwargs → Call
  sends : Kind → List Bytes → Kwargs → Call
  performs : Task → Call
  gets_events closes : Call

module _ {Net : Type 0} (drv : Driver Net) where
  -- The socket after a call, whether it returns or raises.
  pub step : Socket Net → Call → Socket Net
  step s (receives kind kwargs) = (add_recv_event drv kind kwargs s).1
  step s (sends kind msg kwargs) = (add_send_event drv kind msg kwargs s).1
  step s (performs t) = (perform drv t s).1
  step s gets_events = (get drv s).1
  step s closes = (close drv s).1

  pub run : Socket Net → List Call → Socket Net
  run s [] = s
  run s (c ∷ cs) = run (step s c) cs

  step-IsSettled :
      (f : ℕ) (st : Status) (d : is_done st ≡ true) (s : Socket Net) (c : Call)
      → IsSettled drv f st d s
      → IsSettled drv f st d (step s c)
  unfolding step
  step-IsSettled f st d s (receives kind kwargs) h =
      (add_recv_event-Keeps drv f st d kind kwargs).at s h
  step-IsSettled f st d s (sends kind msg kwargs) h =
      (add_send_event-Keeps drv f st d kind msg kwargs).at s h
  step-IsSettled f st d s (performs t) h = (perform-Keeps drv f st d t).at s h
  step-IsSettled f st d s gets_events h = (get-Keeps drv f st d).at s h
  step-IsSettled f st d s closes h = (close-Keeps drv f st d).at s h

  -- If a future of the socket is done, then after any sequence of receives, sends, reads of the
  -- events, calls that the loop makes (timeouts included) and `close`, in any order and whether
  -- they return or raise, it still has the result, exception or cancellation that it had.
  pub run-HasStatus :
      (f : ℕ) (st : Status) (cs : List Call) (s : Socket Net)
      → is_done st ≡ true
      → HasStatus f st s.statuses s.next_future
      → HasStatus f st (run s cs).statuses (run s cs).next_future
  unfolding run
  run-HasStatus f st [] s d h = h
  run-HasStatus f st (c ∷ cs) s d h =
      run-HasStatus f st cs (step s c) d (step-IsSettled f st d s c h)
