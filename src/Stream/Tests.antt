-- ===== src/Stream/Tests.antt =====
-- `ZMQStream` over a socket that is an inbox of messages and accepts every send.
use pyzmq.Base.{
  ℕ, ◌≡◌, refl, true, false, not, ◌&&◌, none, some, List, [], ◌∷◌, Result, ok, err, zmq_error,
  is_empty,
}
use pyzmq.Base.Mask.{mask}
use pyzmq.Base.Exec.{Keeps, pure}
use pyzmq.Stream.{
  Message, Packet, Driver, user, Args, World, Stream, init, on_recv, on_send, send_multipart,
  check_closed, add_io_state, update_handler, schedule, handle_events, start_dispatch, dispatch,
  rest_of_dispatch, handle_recv, take_message, run_if_set, run_callback, rebuild_io_state,
}
use pyzmq.Stream.State.{IsConsistent}
use pyzmq.Stream.Runs.{Call, recvs, queues, closes, dispatches, run, run-IsConsistent}
use pyzmq.Stream.Wakeups.{IsAwake, handle_events_wakes, on_recv_wakes, send_multipart_wakes}

abbrev pub Inbox : Type 0
Inbox = List Message

abbrev pub receive : Inbox → Result Message × Inbox
receive [] = (err (zmq_error 11), [])
receive (m ∷ ms) = (ok m, ms)

abbrev pub inbox : Driver Inbox
inbox = record {
  events = λ ms. ok (mask (not (is_empty ms)) true);
  poll = λ m ms. ok (mask (m.pollin && not (is_empty ms)) m.pollout);
  recv = λ copy ms. receive ms;
  send = λ p ms. (ok 0, ms);
  is_closed = λ ms. false;
  eagain = 11;
  eterm = 156;
}

abbrev pub idle : World Inbox
idle k args = pure tt

idle-Keeps : (k : ℕ) (args : Args) → Keeps IsConsistent (idle k args)
idle-Keeps k args = record { at = λ s h. h }

abbrev packet : Packet
packet = record { parts = (7 ∷ []) ∷ []; flags = 0; copy = true; track = false }

abbrev pub two_messages : Inbox
two_messages = ((1 ∷ []) ∷ []) ∷ ((2 ∷ []) ∷ []) ∷ []

abbrev calls : List Call
calls = recvs (some (user 1)) true ∷ queues packet none ∷ dispatches ∷ dispatches ∷ closes ∷ []

run-IsConsistent_example : IsConsistent (run inbox idle (init two_messages) calls)
run-IsConsistent_example = run-IsConsistent inbox idle idle-Keeps two_messages calls

abbrev pub watching : Stream Inbox
watching = (on_recv inbox idle (some (user 1)) true (init two_messages)).1

watching-returns : (on_recv inbox idle (some (user 1)) true (init two_messages)).0 ≡ ok tt
unfolding init on_recv check_closed add_io_state update_handler schedule
watching-returns = refl

on_recv_wakes_example : IsAwake inbox watching
on_recv_wakes_example =
    on_recv_wakes inbox idle (some (user 1)) true (init two_messages) watching-returns

sending-returns : (send_multipart inbox idle packet none watching).0 ≡ ok tt
unfolding init on_recv on_send send_multipart check_closed add_io_state update_handler schedule
sending-returns = refl

send_multipart_wakes_example : IsAwake inbox (send_multipart inbox idle packet none watching).1
send_multipart_wakes_example = send_multipart_wakes inbox idle packet none watching sending-returns

dispatching-returns : (handle_events inbox idle watching).0 ≡ ok tt
unfolding init on_recv check_closed add_io_state update_handler schedule handle_events
    start_dispatch dispatch rest_of_dispatch handle_recv take_message run_if_set run_callback
    rebuild_io_state
dispatching-returns = refl

handle_events_wakes_example : IsAwake inbox (handle_events inbox idle watching).1
handle_events_wakes_example = handle_events_wakes inbox idle watching dispatching-returns
