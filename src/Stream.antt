-- ===== src/Stream.antt =====
-- zmq/eventloop/zmqstream.py, class ZMQStream: a socket on an event loop, with a queue of sends and
-- registered callbacks. The zmq socket is a parameter, a driver over an abstract state; so are the
-- user's callbacks, which run on the stream and may raise. The IO loop is the list of the calls
-- that were scheduled on it. Warnings, logging and the overloads are left out.
pub mod Flush
pub mod State
pub mod Runs
pub mod Wakeups
pub mod Tests
use pyzmq.Base.{
  ℕ, Bool, true, false, not, ◌&&◌, Option, none, some, List, [], ◌∷◌, ◌++◌, Result, ok, err,
  os_error, zmq_error, attribute_error, Error, if◌then◌else◌, ◌==◌, Bytes, is_empty,
}
use pyzmq.Base.Mask.{Mask, mask, no_events, pollin_mask, pollout_mask, union, inter, minus, any}
use pyzmq.Base.Exec.{Exec, pure, raise, gets, modify, ◌>>=◌, ◌>>◌, when}

-- A multipart message, and one with the keyword arguments of its send.
abbrev pub Message : Type 0
Message = List Bytes

pub record Packet : Type 0 where
  pub parts : Message
  pub flags : ℕ
  pub copy : Bool
  pub track : Bool

-- The zmq socket: what the stream calls of it. `poll` is `Poller.poll(0)` with the socket as its one
-- entry; a socket that `close` closed is dropped from the stream. `send` answers the status, such as a tracker.
pub record Driver (Net : Type 0) : Type 0 where
  pub events : Net → Result Mask
  pub poll : Mask → Net → Result Mask
  pub recv : Bool → Net → Result Message × Net
  pub send : Packet → Net → Result ℕ × Net
  pub is_closed : Net → Bool
  pub eagain : ℕ
  pub eterm : ℕ

-- A callback: none that does anything, the user's, or the user's with the stream as first argument.
pub data Callback : Type 0 where
  noop : Callback
  user with_stream : ℕ → Callback

-- The arguments of a callback: a received message, a sent packet with its status or error, or
-- nothing, for the close callback.
pub data Args : Type 0 where
  received : Message → Args
  sent : Packet → Result ℕ → Args
  closing : Args

-- The calls that the stream schedules on the loop.
pub data Task : Type 0 where
  handles_events finishes_flush : Task

pub record Stream (Net : Type 0) : Type 0 where
  pub socket : Option Net
  pub send_queue : List Packet
  pub recv_callback : Option Callback
  pub send_callback : Option Callback
  pub close_callback : Option Callback
  pub recv_copy : Bool
  pub flushed : Bool
  pub state : Mask
  pub handler : Bool
  pub loop : List Task

abbrev pub is_set : Option Callback → Bool
is_set none = false
is_set (some k) = true

-- `receiving`, `sending`
abbrev pub receiving : {Net : Type 0} → Stream Net → Bool
receiving s = is_set s.recv_callback

abbrev pub sending : {Net : Type 0} → Stream Net → Bool
sending s = not (is_empty s.send_queue)

abbrev pub is_open : {Net : Type 0} → Stream Net → Bool
is_open s = elim s.socket [ none ↦ false | some net ↦ true ]

-- What the user's callbacks do.
abbrev pub World : Type 0 → Type 0
World Net = ℕ → Args → Exec (Stream Net) (Unit {0})

-- `__init__`, with `_init_io_state`
pub init : {Net : Type 0} → Net → Stream Net
init net = record {
  socket = some net;
  send_queue = [];
  recv_callback = none;
  send_callback = none;
  close_callback = none;
  recv_copy = false;
  flushed = false;
  state = no_events;
  handler = true;
  loop = [];
}

module _ {Net : Type 0} (drv : Driver Net) (world : World Net) where
  abbrev pub Method : Type 0 → Type 0
  Method A = Exec (Stream Net) A

  -- `_run_callback`: an exception is logged and raised again.
  pub run_callback : Callback → Args → Method (Unit {0})
  run_callback noop args = pure tt
  run_callback (user k) args = world k args
  run_callback (with_stream k) args = world k args

  pub check_closed : Method (Unit {0})
  check_closed s = if is_open s then (ok tt, s) else (err os_error, s)

  -- Events that are left are scheduled, since the descriptor is edge-triggered.
  schedule : Mask → Result Mask → Method (Unit {0})
  schedule state (ok events) =
      when (any (inter state events))
        (modify (λ s. record s { loop = s.loop ++ (handles_events ∷ []) }))
  schedule state (err e) = raise e

  pub update_handler : Mask → Method (Unit {0})
  unfolding schedule
  update_handler state s = elim s.socket [
    | none ↦ (ok tt, s)
    | some net ↦ schedule state (drv.events net) s
  ]

  pub add_io_state : Mask → Method (Unit {0})
  add_io_state state = do
    modify (λ s. record s { state = union s.state state })
    now ← gets (λ s. s.state)
    update_handler now

  pub drop_io_state : Mask → Method (Unit {0})
  drop_io_state state = do
    modify (λ s. record s { state = minus s.state state })
    now ← gets (λ s. s.state)
    update_handler now

  pub rebuild_io_state : Method (Unit {0})
  rebuild_io_state s =
      if is_open s
      then (let state = mask (receiving s) (sending s) in
          update_handler state (record s { state = state }))
      else (ok tt, s)

  pub on_recv : Option Callback → Bool → Method (Unit {0})
  on_recv callback copy = do
    check_closed
    modify (λ s. record s { recv_callback = callback; recv_copy = copy })
    if is_set callback then add_io_state pollin_mask else drop_io_state pollin_mask

  -- `stop_on_recv`
  pub stop_on_recv : Method (Unit {0})
  stop_on_recv = on_recv none true

  pub on_recv_stream : Option ℕ → Bool → Method (Unit {0})
  on_recv_stream none copy = stop_on_recv
  on_recv_stream (some k) copy = on_recv (some (with_stream k)) copy

  pub on_send : Option Callback → Method (Unit {0})
  on_send callback = do check_closed; modify (λ s. record s { send_callback = callback })

  -- `stop_on_send`
  pub stop_on_send : Method (Unit {0})
  stop_on_send = on_send none

  pub on_send_stream : Option ℕ → Method (Unit {0})
  on_send_stream none = stop_on_send
  on_send_stream (some k) = on_send (some (with_stream k))

  -- `callback or self._send_callback`, and the noop where neither is given
  abbrev pub chosen : Option Callback → Option Callback → Callback
  chosen (some k) registered = k
  chosen none (some k) = k
  chosen none none = noop

  pub send_multipart : Packet → Option Callback → Method (Unit {0})
  send_multipart p callback = do
    modify (λ s. record s { send_queue = s.send_queue ++ (p ∷ []) })
    registered ← gets (λ s. s.send_callback)
    on_send (some (chosen callback registered))
    add_io_state pollout_mask

  pub send : Bytes → ℕ → Bool → Bool → Option Callback → Method (Unit {0})
  send msg flags copy track callback =
      send_multipart (record { parts = msg ∷ []; flags = flags; copy = copy; track = track })
        callback

  run_if_set : Option Callback → Args → Method (Unit {0})
  run_if_set none args = pure tt
  run_if_set (some k) args = run_callback k args

  -- After `recv_multipart`: a message goes to the callback, EAGAIN is passed over, other errors
  -- are raised.
  take_message : Result Message → Method (Unit {0})
  unfolding run_if_set
  take_message (ok msg) s = run_if_set s.recv_callback (received msg) s
  take_message (err (zmq_error n)) s =
      if n == drv.eagain then (ok tt, s) else (err (zmq_error n), s)
  take_message (err e) s = (err e, s)

  pub handle_recv : Method (Unit {0})
  unfolding take_message
  handle_recv s = if s.flushed then (ok tt, s) else elim s.socket [
    | none ↦ (err attribute_error, s)
    | some net ↦
        take_message (drv.recv s.recv_copy net).0
          (record s { socket = some (drv.recv s.recv_copy net).1 })
  ]

  -- After `send_multipart`: a `ZMQError` becomes the status, other exceptions are raised.
  give_status : Packet → Result ℕ → Method (Unit {0})
  unfolding run_if_set
  give_status p (ok status) s = run_if_set s.send_callback (sent p (ok status)) s
  give_status p (err (zmq_error n)) s = run_if_set s.send_callback (sent p (err (zmq_error n))) s
  give_status p (err e) s = (err e, s)

  send_head : List Packet → Method (Unit {0})
  unfolding give_status
  send_head [] s = (ok tt, s)
  send_head (p ∷ rest) s = elim s.socket [
    | none ↦ (err attribute_error, record s { send_queue = rest })
    | some net ↦
        give_status p (drv.send p net).0
          (record s { send_queue = rest; socket = some (drv.send p net).1 })
  ]

  pub handle_send : Method (Unit {0})
  unfolding send_head
  handle_send s = if s.flushed then (ok tt, s) else send_head s.send_queue s

  -- The dispatch of `_handle_events` on the events of the socket, after the recv and whole.
  rest_of_dispatch : Mask → Bool → Method (Unit {0})
  rest_of_dispatch events left =
      when left (do
        sends ← gets (λ s. events.pollout && sending s)
        when sends handle_send
        rebuild_io_state)

  dispatch : Mask → Method (Unit {0})
  unfolding rest_of_dispatch
  dispatch events = do
    recvs ← gets (λ s. events.pollin && receiving s)
    when recvs handle_recv
    left ← gets is_open
    rest_of_dispatch events left

  start_dispatch : Result Mask → Method (Unit {0})
  unfolding dispatch
  start_dispatch (ok events) s = dispatch events s
  start_dispatch (err (zmq_error n)) s =
      if n == drv.eterm then (ok tt, s) else (err (zmq_error n), s)
  start_dispatch (err e) s = (err e, s)

  pub handle_events : Method (Unit {0})
  unfolding start_dispatch
  handle_events s = elim s.socket [
    | none ↦ (ok tt, s)
    | some net ↦ start_dispatch (drv.events net) s
  ]

  -- `close`: a socket that was closed already is only taken off the loop.
  pub close : Method (Unit {0})
  unfolding run_if_set
  close s = elim s.socket [
    | none ↦ (ok tt, s)
    | some net ↦ run_if_set s.close_callback closing (record s { socket = none; handler = false })
  ]

  -- `closed`
  pub closed : Method Bool
  closed s = elim s.socket [
    | none ↦ (ok true, s)
    | some net ↦ if drv.is_closed net then (close >> pure true) s else (ok false, s)
  ]

  pub set_close_callback : Option Callback → Method (Unit {0})
  set_close_callback callback = modify (λ s. record s { close_callback = callback })

  -- `_finish_flush`
  pub finish_flush : Method (Unit {0})
  finish_flush = modify (λ s. record s { flushed = false })
