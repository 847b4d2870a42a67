-- ===== src/Stream/State.antt =====
-- `ZMQStream._state` follows the callbacks and the queue, whatever the callbacks do to the stream by
-- its own methods.
use pyzmq.Base.{
  ℕ, ◌≡◌, refl, inl, inr, Bool, true, false, Option, none, some, List, [], ◌∷◌, Result, ok, err,
  zmq_error, arith, Option-cases,
}
use pyzmq.Base.Mask.{Mask}
use pyzmq.Base.Exec.{pure, Keeps, Keeps-then, Keeps-pure, keeps_rules, kept-if, kept-option}
use pyzmq.Stream.{
  Driver, Stream, World, Callback, noop, user, with_stream, Args, Packet, Message, received, sent,
  closing, is_open, receiving, sending, run_callback, check_closed, schedule, update_handler,
  add_io_state, drop_io_state, rebuild_io_state, on_recv, on_send, send_multipart, run_if_set,
  take_message, handle_recv, give_status, send_head, handle_send, dispatch, start_dispatch,
  handle_events, close, closed,
}

-- While the stream has its socket: POLLIN is watched exactly when there is a recv callback, and
-- POLLOUT is watched when sends are queued.
pub record IsConsistent {Net : Type 0} (s : Stream Net) : Type 0 where
  pub in_flag : is_open s ≡ true → s.state.pollin ≡ receiving s
  pub out_flag : is_open s ≡ true → sending s ≡ true → s.state.pollout ≡ true

module _ {Net : Type 0} (drv : Driver Net) (world : World Net)
    (keeps : (k : ℕ) (args : Args) → Keeps IsConsistent (world k args)) where
  run_callback-Keeps :
      (k : Callback) (args : Args) → Keeps IsConsistent (run_callback drv world k args)
  unfolding run_callback
  run_callback-Keeps noop args = search keeps_rules
  run_callback-Keeps (user k) args = keeps k args
  run_callback-Keeps (with_stream k) args = keeps k args

  run_if_set-Keeps :
      (k : Option Callback) (args : Args) → Keeps IsConsistent (run_if_set drv world k args)
  unfolding run_if_set
  run_if_set-Keeps none args = search keeps_rules
  run_if_set-Keeps (some k) args = run_callback-Keeps k args

  pub on_recv-Keeps :
      (k : Option Callback) (copy : Bool) → Keeps IsConsistent (on_recv drv world k copy)
  unfolding on_recv check_closed add_io_state drop_io_state update_handler schedule
  on_recv-Keeps k copy = record { at = λ s h. ground arith }

  pub on_send-Keeps : (k : Option Callback) → Keeps IsConsistent (on_send drv world k)
  unfolding on_send check_closed
  on_send-Keeps k = record { at = λ s h. ground arith }

  pub send_multipart-Keeps :
      (p : Packet) (k : Option Callback) → Keeps IsConsistent (send_multipart drv world p k)
  unfolding send_multipart on_send check_closed add_io_state update_handler schedule
  send_multipart-Keeps p k = record { at = λ s h. ground arith }

  pub rebuild_io_state-Keeps : Keeps IsConsistent (rebuild_io_state drv world)
  unfolding rebuild_io_state update_handler schedule
  rebuild_io_state-Keeps = record { at = λ s h. ground arith }

  take_message-Keeps : (r : Result Message) → Keeps IsConsistent (take_message drv world r)
  unfolding take_message
  take_message-Keeps (ok msg) = record {
    at = λ s h. (run_if_set-Keeps s.recv_callback (received msg)).at s h;
  }
  take_message-Keeps (err (zmq_error n)) = record { at = λ s h. ground arith }
  take_message-Keeps (err _) = record { at = λ s h. h }

  give_status-Keeps : (p : Packet) (r : Result ℕ) → Keeps IsConsistent (give_status drv world p r)
  unfolding give_status
  give_status-Keeps p (ok msg) = record {
    at = λ s h. (run_if_set-Keeps s.send_callback (sent p (ok msg))).at s h;
  }
  give_status-Keeps p (err (zmq_error n)) = record {
    at = λ s h. (run_if_set-Keeps s.send_callback (sent p (err (zmq_error n)))).at s h;
  }
  give_status-Keeps p (err _) = record { at = λ s h. h }

  pub handle_recv-Keeps : Keeps IsConsistent (handle_recv drv world)
  unfolding handle_recv
  handle_recv-Keeps = record {
    at = λ s h.
        kept-if IsConsistent s.flushed _ _ (λ f. h)
          λ f.
            kept-option IsConsistent s.socket _ _ (λ e. h)
              λ net e.
                (take_message-Keeps (drv.recv s.recv_copy net).0).at
                  (record s { socket = some (drv.recv s.recv_copy net).1 })
                  (record {
                    in_flag = λ o. h.in_flag (rw e);
                    out_flag = λ o q. h.out_flag (rw e) q;
                  });
  }

  send_head-keeps :
      (queue : List Packet) (s : Stream Net)
      → s.send_queue ≡ queue
      → IsConsistent s
      → IsConsistent (send_head drv world queue s).1
  unfolding send_head
  send_head-keeps [] s q h = h
  send_head-keeps (p ∷ rest) s q h = elim (Option-cases s.socket) [
    | inl e ↦
        rw (e, send_head) (record { in_flag = λ o. h.in_flag o; out_flag = λ o q'. ground arith })
    | inr (net, e) ↦
        rw (e, send_head)
          ((give_status-Keeps p (drv.send p net).0).at
            (record s { send_queue = rest; socket = some (drv.send p net).1 })
            (record {
              in_flag = λ o. h.in_flag (rw e);
              out_flag = λ o q'. h.out_flag (rw e) (rw q);
            }))
  ]

  pub handle_send-Keeps : Keeps IsConsistent (handle_send drv world)
  unfolding handle_send
  handle_send-Keeps = record {
    at = λ s h.
        kept-if IsConsistent s.flushed _ _ (λ f. h) (λ f. send_head-keeps s.send_queue s refl h);
  }

  dispatch-Keeps : (events : Mask) → Keeps IsConsistent (dispatch drv world events)
  unfolding dispatch
  dispatch-Keeps events =
      search (keeps_rules, handle_recv-Keeps, handle_send-Keeps, rebuild_io_state-Keeps) depth 12

  start_dispatch-Keeps : (r : Result Mask) → Keeps IsConsistent (start_dispatch drv world r)
  unfolding start_dispatch
  start_dispatch-Keeps (ok events) = record { at = (dispatch-Keeps events).at }
  start_dispatch-Keeps (err (zmq_error n)) = record { at = λ s h. ground arith }
  start_dispatch-Keeps (err _) = record { at = λ s h. h }

  pub handle_events-Keeps : Keeps IsConsistent (handle_events drv world)
  unfolding handle_events
  handle_events-Keeps = record {
    at = λ s h. elim (Option-cases s.socket) [
      | inl e ↦ rw (e, handle_events) h
      | inr (net, e) ↦ rw (e, handle_events) ((start_dispatch-Keeps (drv.events net)).at s h)
    ];
  }

  pub close-Keeps : Keeps IsConsistent (close drv world)
  unfolding close
  close-Keeps = record {
    at = λ s h. elim (Option-cases s.socket) [
      | inl e ↦ rw (e, close) h
      | inr (net, e) ↦
          rw (e, close)
            ((run_if_set-Keeps s.close_callback closing).at
              (record s { socket = none; handler = false })
              (record { in_flag = λ o. absurd (cc); out_flag = λ o q. absurd (cc) }))
    ];
  }

  pub closed-Keeps : Keeps IsConsistent (closed drv world)
  unfolding closed
  closed-Keeps = record {
    at = λ s h.
        kept-option IsConsistent s.socket _ _ (λ e. h)
          λ net e.
            kept-if IsConsistent (drv.is_closed net) _ _
              (λ c. (Keeps-then (close drv world) (pure true) close-Keeps (Keeps-pure true)).at s h)
              (λ c. h);
  }
