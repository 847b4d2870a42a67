-- ===== src/Stream/Runs.antt =====
-- `ZMQStream` over any sequence of the user's calls and of the loop's.
use pyzmq.Base.{ℕ, refl, Bool, Option, List, [], ◌∷◌}
use pyzmq.Base.Mask.{Mask}
use pyzmq.Base.Exec.{Keeps}
use pyzmq.Stream.{
  Driver, Stream, World, Callback, Args, Packet, init, on_recv, on_send, send_multipart,
  handle_events, close, closed, set_close_callback, finish_flush,
}
use pyzmq.Stream.State.{
  IsConsistent, on_recv-Keeps, on_send-Keeps, send_multipart-Keeps, handle_events-Keeps,
  close-Keeps, closed-Keeps,
}
use pyzmq.Stream.Flush.{flush}
use pyzmq.Stream.Flush.Keeping.{flush-Keeps}

-- A call of the user, or one that the loop makes. A `flush` comes with its fuel.
pub data Call : Type 0 where
  recvs : Option Callback → Bool → Call
  sends : Option Callback → Call
  queues : Packet → Option Callback → Call
  flushes : ℕ → Mask → ℕ → Call
  closes asks_closed dispatches resets : Call
  on_close : Option Callback → Call

module _ {Net : Type 0} (drv : Driver Net) (world : World Net) where
  -- The stream after a call, whether it returns or raises.
  pub step : Stream Net → Call → Stream Net
  step s (recvs k copy) = (on_recv drv world k copy s).1
  step s (sends k) = (on_send drv world k s).1
  step s (queues p k) = (send_multipart drv world p k s).1
  step s (flushes fuel flag limit) = (flush drv world fuel flag limit s).1
  step s closes = (close drv world s).1
  step s asks_closed = (closed drv world s).1
  step s dispatches = (handle_events drv world s).1
  step s resets = (finish_flush drv world s).1
  step s (on_close k) = (set_close_callback drv world k s).1

  pub run : Stream Net → List Call → Stream Net
  run s [] = s
  run s (c ∷ cs) = run (step s c) cs

module _ {Net : Type 0} (drv : Driver Net) (world : World Net)
    (keeps : (k : ℕ) (args : Args) → Keeps IsConsistent (world k args)) where
  step-IsConsistent :
      (s : Stream Net) (c : Call) → IsConsistent s → IsConsistent (step drv world s c)
  unfolding step finish_flush set_close_callback
  step-IsConsistent s (recvs k copy) h = (on_recv-Keeps drv world keeps k copy).at s h
  step-IsConsistent s (sends k) h = (on_send-Keeps drv world keeps k).at s h
  step-IsConsistent s (queues p k) h = (send_multipart-Keeps drv world keeps p k).at s h
  step-IsConsistent s (flushes fuel flag limit) h =
      (flush-Keeps drv world keeps fuel flag limit).at s h
  step-IsConsistent s closes h = (close-Keeps drv world keeps).at s h
  step-IsConsistent s asks_closed h = (closed-Keeps drv world keeps).at s h
  step-IsConsistent s dispatches h = (handle_events-Keeps drv world keeps).at s h
  step-IsConsistent s resets h = record { in_flag = h.in_flag; out_flag = h.out_flag }
  step-IsConsistent s (on_close k) h = record { in_flag = h.in_flag; out_flag = h.out_flag }

  run_from : (s : Stream Net) (cs : List Call) → IsConsistent s → IsConsistent (run drv world s cs)
  unfolding run
  run_from s [] h = h
  run_from s (c ∷ cs) h = run_from (step drv world s c) cs (step-IsConsistent s c h)

  -- If the user's callbacks keep a stream consistent, then after any sequence of calls on a new
  -- stream, those that raise included, it is: while it has its socket, POLLIN is watched exactly
  -- when there is a recv callback, and POLLOUT is watched whenever sends are queued.
  pub run-IsConsistent : (net : Net) (cs : List Call) → IsConsistent (run drv world (init net) cs)
  unfolding init
  run-IsConsistent net cs =
      run_from (init net) cs (record { in_flag = λ o. refl; out_flag = λ o q. absurd (cc) })
