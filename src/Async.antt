-- ===== src/Async.antt =====
-- zmq/_future.py, class _AsyncSocket: the queues of receive and send events behind the futures that
-- the asynchronous socket hands out. Futures are numbers with a status; the zmq socket underneath
-- (`_shadow_sock`) is a parameter, and the event loop is the list of the calls that were scheduled
-- on it. As in asyncio, the done callbacks of a future are scheduled when it resolves.
pub mod Queues
pub mod Quiet
pub mod Settled
pub mod Runs
pub mod Tests
use pyzmq.Base.{
  ℕ, suc, ◌+◌, Bool, true, false, not, ◌&&◌, Option, none, some, List, [], ◌∷◌, ◌++◌, Result, ok,
  err, Error, zmq_error, if◌then◌else◌, ◌==◌, Bytes, is_empty, nat_eq,
}
use pyzmq.Base.Dict
use pyzmq.Base.Dict.{Dict}
use pyzmq.Base.Mask.{Mask, no_events, pollin_mask, pollout_mask, union, inter, minus, any}
use pyzmq.Base.Exec.{Exec, pure, raise, gets, modify, ◌>>=◌, ◌>>◌, when}

-- What a future resolves to: readiness for a poll event, the result of a receive or of a send.
pub data Value : Type 0 where
  ready : Value
  message : List Bytes → Value
  sent : ℕ → Value

pub data Status : Type 0 where
  pending : Status
  result : Value → Status
  exception : Error → Status
  cancelled : Status

abbrev pub is_done : Status → Bool
is_done pending = false
is_done _ = true

-- The kinds of events; a kind that a handler does not know makes it raise `ValueError`.
pub data Kind : Type 0 where
  poll whole multipart : Kind

-- The keyword arguments of a receive or a send; `dontwait` is the DONTWAIT bit of the flags.
pub record Kwargs : Type 0 where
  pub dontwait : Bool
  pub flags : ℕ
  pub copy : Bool
  pub track : Bool

-- `_FutureEvent`
pub record Event : Type 0 where
  pub future : ℕ
  pub kind : Kind
  pub kwargs : Kwargs
  pub msg : List Bytes
  pub timer : Bool

-- The socket underneath. A timeout of `none` is a negative one.
pub record Driver (Net : Type 0) : Type 0 where
  pub events : Net → Result Mask
  pub recv : Kind → Kwargs → Net → Result Value × Net
  pub send : Kind → List Bytes → Kwargs → Net → Result Value × Net
  pub rcvtimeo : Net → Option ℕ
  pub sndtimeo : Net → Option ℕ
  pub eagain : ℕ
  pub default_loop : Net → ℕ

-- The calls on the loop: `_handle_events`, a timeout of a future, and the removals of a future that
-- is done from a queue.
pub data Task : Type 0 where
  handles_events : Task
  times_out removes_recv removes_send : ℕ → Task

pub record Socket (Net : Type 0) : Type 0 where
  pub net : Net
  pub closed : Bool
  pub statuses : Dict ℕ Status
  pub next_future : ℕ
  pub recv_futures : List Event
  pub send_futures : List Event
  pub recv_watched : List ℕ
  pub send_watched : List ℕ
  pub state : Mask
  pub current_loop : Option ℕ
  pub handlers : List ℕ
  pub loop : List Task

-- `__init__`
pub init : {Net : Type 0} → Net → Socket Net
init net = record {
  net = net;
  closed = false;
  statuses = [];
  next_future = 0;
  recv_futures = [];
  send_futures = [];
  recv_watched = [];
  send_watched = [];
  state = no_events;
  current_loop = none;
  handlers = [];
  loop = [];
}

-- The status of a future; one that was never made counts as done.
pub status_of : ℕ → Dict ℕ Status → Status
status_of f d = elim (Dict.lookup f d) [ none ↦ cancelled | some st ↦ st ]

pub member : ℕ → List ℕ → Bool
member f [] = false
member f (g ∷ gs) = if g == f then true else member f gs

-- `_remove_finished_future`: the first event of the future goes.
pub remove_event : ℕ → List Event → List Event
remove_event f [] = []
remove_event f (e ∷ es) = if e.future == f then es else e ∷ remove_event f es

-- The loop of `_handle_recv` and `_handle_send`: events of futures that are done are dropped, up to
-- and with the first that is not.
pub pop_pending : Dict ℕ Status → List Event → Option Event × List Event
pop_pending d [] = (none, [])
pop_pending d (e ∷ es) =
    let rest = pop_pending d es in if is_done (status_of e.future d) then rest else (some e, es)

pub without_timeout : ℕ → List Task → List Task
without_timeout f [] = []
without_timeout f (times_out g ∷ ts) =
    let rest = without_timeout f ts in if g == f then rest else times_out g ∷ rest
without_timeout f (t ∷ ts) = t ∷ without_timeout f ts

without : ℕ → List ℕ → List ℕ
without x [] = []
without x (y ∷ ys) = let rest = without x ys in if y == x then rest else y ∷ rest

module _ {Net : Type 0} (drv : Driver Net) where
  abbrev pub Method : Type 0 → Type 0
  Method A = Exec (Socket Net) A

  pub call_soon : Task → Method (Unit {0})
  call_soon t = modify (λ s. record s { loop = s.loop ++ (t ∷ []) })

  -- `self._Future()`
  pub new_future : Method ℕ
  new_future s = (
    ok s.next_future,
    record s {
      statuses = Dict.insert s.next_future pending s.statuses;
      next_future = suc s.next_future;
    },
  )

  -- `set_result`, `set_exception`, `cancel`: the done callbacks are scheduled.
  pub resolve : ℕ → Status → Method (Unit {0})
  resolve f st s = (
    ok tt,
    record s {
      statuses = Dict.insert f st s.statuses;
      loop =
          s.loop
          ++ ((if member f s.recv_watched then removes_recv f ∷ [] else [])
              ++ (if member f s.send_watched then removes_send f ∷ [] else []));
    },
  )

  -- `set_result(r)` or `set_exception(e)` after a call that may raise.
  abbrev pub outcome : Result Value → Status
  outcome (ok v) = result v
  outcome (err e) = exception e

  -- `_init_io_state`; its `_call_later` finds the loop set already.
  pub init_io_state : ℕ → Method (Unit {0})
  unfolding call_soon
  init_io_state l = do
    modify (λ s. record s { handlers = l ∷ s.handlers })
    call_soon handles_events

  -- `_get_loop`: a loop that the socket has not seen last gets the handler.
  pub get_loop : Method (Unit {0})
  unfolding init_io_state
  get_loop s =
      let l = drv.default_loop s.net in
      elim s.current_loop [
        | none ↦ init_io_state l (record s { current_loop = some l })
        | some m ↦
            if m == l then (ok tt, s) else init_io_state l (record s { current_loop = some l })
      ]

  -- `_call_later`
  pub call_later : Task → Method (Unit {0})
  unfolding call_soon
  call_later t = get_loop >> call_soon t

  pub schedule : Result Mask → Method (Unit {0})
  unfolding call_later
  schedule (ok events) s = when (any (inter events s.state)) (call_later handles_events) s
  schedule (err e) s = (err e, s)

  -- `_schedule_remaining_events`; `get` passes the events that it has read.
  pub schedule_remaining_events : Option Mask → Method (Unit {0})
  unfolding schedule
  schedule_remaining_events given s =
      if any s.state
      then schedule (elim given [ none ↦ drv.events s.net | some events ↦ ok events ]) s
      else (ok tt, s)

  pub update_handler : Method (Unit {0})
  update_handler = do
    watching ← gets (λ s. any s.state)
    when watching get_loop
    schedule_remaining_events none

  pub add_io_state : Mask → Method (Unit {0})
  add_io_state m = do modify (λ s. record s { state = union s.state m }); update_handler

  pub drop_io_state : Mask → Method (Unit {0})
  drop_io_state m = do modify (λ s. record s { state = minus s.state m }); update_handler

  -- `_add_timeout`, and its absence
  pub add_timeout : ℕ → Option ℕ → Method Bool
  unfolding call_later
  add_timeout f none = pure false
  add_timeout f (some t) = call_later (times_out f) >> pure true

  -- `future_timeout`
  pub future_timeout : ℕ → Method (Unit {0})
  future_timeout f s =
      if is_done (status_of f s.statuses)
      then (ok tt, s)
      else resolve f (exception (zmq_error drv.eagain)) s

  -- A receive on the socket underneath, whose result or exception the future gets.
  pub receive_into : ℕ → Kind → Kwargs → Method (Unit {0})
  receive_into f kind kwargs s =
      let r = drv.recv kind kwargs s.net in resolve f (outcome r.0) (record s { net = r.1 })

  pub send_into : ℕ → Kind → List Bytes → Kwargs → Method (Unit {0})
  send_into f kind msg kwargs s =
      let r = drv.send kind msg kwargs s.net in resolve f (outcome r.0) (record s { net = r.1 })

  -- `timer.cancel()`: the timeout of the event's future leaves the loop.
  pub cancel_timer : Event → Method (Unit {0})
  cancel_timer e = when e.timer (modify (λ s. record s { loop = without_timeout e.future s.loop }))

  pub finish_recv : ℕ → Kind → Kwargs → Method (Unit {0})
  unfolding receive_into
  finish_recv f poll kwargs = resolve f (result ready)
  finish_recv f kind kwargs = receive_into f kind (record kwargs { dontwait = true })

  pub finish_send : ℕ → Kind → List Bytes → Kwargs → Method (Unit {0})
  unfolding send_into
  finish_send f poll msg kwargs = resolve f (result ready)
  finish_send f kind msg kwargs = send_into f kind msg (record kwargs { dontwait = true })

  -- What the handlers do with the event that they took off their queue.
  pub complete_recv : Option Event → Method (Unit {0})
  unfolding cancel_timer finish_recv
  complete_recv none = pure tt
  complete_recv (some e) = cancel_timer e >> finish_recv e.future e.kind e.kwargs

  pub complete_send : Option Event → Method (Unit {0})
  unfolding cancel_timer finish_send
  complete_send none = pure tt
  complete_send (some e) = cancel_timer e >> finish_send e.future e.kind e.msg e.kwargs

  pub take_recv : Method (Option Event)
  take_recv s =
      let r = pop_pending s.statuses s.recv_futures in (ok r.0, record s { recv_futures = r.1 })

  pub take_send : Method (Option Event)
  take_send s =
      let r = pop_pending s.statuses s.send_futures in (ok r.0, record s { send_futures = r.1 })

  pub drain_recv : Method (Unit {0})
  unfolding take_recv complete_recv
  drain_recv = do
    e ← take_recv
    drained ← gets (λ s. is_empty s.recv_futures)
    when drained (drop_io_state pollin_mask)
    complete_recv e

  pub drain_send : Method (Unit {0})
  unfolding take_send complete_send
  drain_send = do
    e ← take_send
    drained ← gets (λ s. is_empty s.send_futures)
    when drained (drop_io_state pollout_mask)
    complete_send e

  -- `self._shadow_sock.get(EVENTS)`
  pub get_events : Method Mask
  get_events s = (drv.events s.net, s)

  pub handle_recv : Method (Unit {0})
  unfolding drain_recv get_events
  handle_recv = do events ← get_events; when events.pollin drain_recv

  pub handle_send : Method (Unit {0})
  unfolding drain_send get_events
  handle_send = do events ← get_events; when events.pollout drain_send

  pub handle_events : Method (Unit {0})
  unfolding get_events
  handle_events = do
    events ← get_events
    when events.pollin handle_recv
    when events.pollout handle_send
    schedule_remaining_events none

  -- `add_done_callback` with the removal from the queue, which is scheduled at once for a future
  -- that is done already.
  pub watch_recv : ℕ → Method (Unit {0})
  unfolding call_soon
  watch_recv f = do
    modify (λ s. record s { recv_watched = f ∷ s.recv_watched })
    done ← gets (λ s. is_done (status_of f s.statuses))
    when done (call_soon (removes_recv f))

  pub watch_send : ℕ → Method (Unit {0})
  unfolding call_soon
  watch_send f = do
    modify (λ s. record s { send_watched = f ∷ s.send_watched })
    done ← gets (λ s. is_done (status_of f s.statuses))
    when done (call_soon (removes_send f))

  pub queue_recv : ℕ → Kind → Kwargs → Method (Unit {0})
  unfolding add_timeout watch_recv get_events
  queue_recv f kind kwargs = do
    timeout ← gets (λ s. drv.rcvtimeo s.net)
    timer ← add_timeout f timeout
    modify (λ s. record s {
      recv_futures =
          s.recv_futures
          ++ (record { future = f; kind = kind; kwargs = kwargs; msg = []; timer = timer } ∷ []);
    })
    watch_recv f
    events ← get_events
    when events.pollin handle_recv
    waiting ← gets (λ s. not (is_empty s.recv_futures))
    when waiting (add_io_state pollin_mask)

  pub queue_send : ℕ → Kind → List Bytes → Kwargs → Method (Unit {0})
  unfolding add_timeout watch_send
  queue_send f kind msg kwargs = do
    timeout ← gets (λ s. drv.sndtimeo s.net)
    timer ← add_timeout f timeout
    modify (λ s. record s {
      send_futures =
          s.send_futures
          ++ (record { future = f; kind = kind; kwargs = kwargs; msg = msg; timer = timer } ∷ []);
    })
    watch_send f
    add_io_state pollout_mask

  abbrev pub is_poll : Kind → Bool
  is_poll poll = true
  is_poll _ = false

  -- `_add_recv_event` with a new future; DONTWAIT short-circuits.
  pub add_recv_event : Kind → Kwargs → Method ℕ
  unfolding new_future queue_recv receive_into
  add_recv_event kind kwargs = do
    f ← new_future
    if not (is_poll kind) && kwargs.dontwait
        then receive_into f kind kwargs
        else queue_recv f kind kwargs
    pure f

  -- The early send: whether it finished, which EAGAIN without DONTWAIT does not.
  pub settle_send : ℕ → Kwargs → Result Value → Method Bool
  settle_send f kwargs (ok v) = resolve f (result v) >> pure true
  settle_send f kwargs (err (zmq_error n)) =
      if n == drv.eagain && not kwargs.dontwait
      then pure false
      else resolve f (exception (zmq_error n)) >> pure true
  settle_send f kwargs (err e) = resolve f (exception e) >> pure true

  pub try_send : ℕ → Kind → List Bytes → Kwargs → Method Bool
  unfolding settle_send
  try_send f kind msg kwargs s =
      let r = drv.send kind msg (record kwargs { dontwait = true }) s.net in
      settle_send f kwargs r.0 (record s { net = r.1 })

  pub early_send : ℕ → Kind → List Bytes → Kwargs → Method Bool
  unfolding try_send
  early_send f kind msg kwargs s =
      if not (is_poll kind) && is_empty s.send_futures
      then try_send f kind msg kwargs s
      else (ok false, s)

  pub after_early : ℕ → Kind → List Bytes → Kwargs → Bool → Method (Unit {0})
  unfolding queue_send
  after_early f kind msg kwargs true = do
    receivers ← gets (λ s. not (is_empty s.recv_futures))
    when receivers (schedule_remaining_events none)
  after_early f kind msg kwargs false = queue_send f kind msg kwargs

  -- `_add_send_event` with a new future
  pub add_send_event : Kind → List Bytes → Kwargs → Method ℕ
  unfolding new_future early_send after_early
  add_send_event kind msg kwargs = do
    f ← new_future
    finished ← early_send f kind msg kwargs
    after_early f kind msg kwargs finished
    pure f

  -- `recv`, `recv_multipart`, `send`, `send_multipart`
  pub recv : Bool → Kwargs → Method ℕ
  recv several kwargs = add_recv_event (if several then multipart else whole) kwargs

  pub send : Bool → List Bytes → Kwargs → Method ℕ
  send several msg kwargs = add_send_event (if several then multipart else whole) msg kwargs

  -- `get` of EVENTS schedules what is left to handle.
  pub get : Method Mask
  unfolding get_events
  get = do events ← get_events; schedule_remaining_events (some events); pure events

  pub cancel_all : List Event → Method (Unit {0})
  cancel_all [] s = (ok tt, s)
  cancel_all (e ∷ es) s =
      cancel_all es
        (if is_done (status_of e.future s.statuses) then s else (resolve e.future cancelled s).1)

  -- `close`, with `_clear_io_state`: the handler of the loop that was seen last is removed.
  pub close : Method (Unit {0})
  close s = if s.closed then (ok tt, s) else (
    ok tt,
    (let t = (cancel_all (s.recv_futures ++ s.send_futures) s).1 in
        record t {
          closed = true;
          handlers = elim t.current_loop [ none ↦ t.handlers | some l ↦ without l t.handlers ];
        }),
  )

  -- The loop runs a call that was scheduled.
  pub perform : Task → Method (Unit {0})
  perform handles_events = handle_events
  perform (times_out f) = future_timeout f
  perform (removes_recv f) = modify (λ s. record s { recv_futures = remove_event f s.recv_futures })
  perform (removes_send f) = modify (λ s. record s { send_futures = remove_event f s.send_futures })
