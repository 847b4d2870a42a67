-- ===== src/Stream/Wakeups.antt =====
-- The descriptor of a zmq socket is edge-triggered: events that a method leaves behind must have
-- been scheduled on the loop, or they are lost.
use pyzmq.Base.{
  ◌≡◌, refl, sym, inl, inr, Bool, true, false, ◌&&◌, Option, none, some, List, [], ◌∷◌, ◌++◌,
  Result, ok, err, Error, zmq_error, arith, if◌then◌else◌, Bool-cases, Option-cases, ◌==◌,
}
use mathlib.Core.Path.{subst}
use pyzmq.Base.Mask.{Mask, any, inter, union, minus, mask, pollin_mask, pollout_mask}
use pyzmq.Base.Exec.{Exec, continue, when}
use pyzmq.Stream.{
  Driver, Stream, World, Callback, Packet, Task, handles_events, finishes_flush, is_open, receiving,
  sending, check_closed, schedule, update_handler, add_io_state, drop_io_state, rebuild_io_state,
  on_recv, on_send, send_multipart, handle_recv, handle_send, dispatch, rest_of_dispatch,
  start_dispatch, handle_events,
}

-- The loop is to call `_handle_events`.
abbrev pub Scheduled : List Task → Type 0
Scheduled [] = ⊥
Scheduled (handles_events ∷ ts) = Unit {0}
Scheduled (finishes_flush ∷ ts) = Scheduled ts

-- No event that is watched is pending without a call on the loop.
abbrev pub IsAwake : {Net : Type 0} → Driver Net → Stream Net → Type 0
IsAwake {Net} drv s =
    (net : Net) (events : Mask)
    → s.socket ≡ some net
    → drv.events net ≡ ok events
    → any (inter s.state events) ≡ true
    → Scheduled s.loop

Scheduled-append : (ts : List Task) → Scheduled (ts ++ (handles_events ∷ []))
Scheduled-append [] = tt
Scheduled-append (handles_events ∷ ts) = tt
Scheduled-append (finishes_flush ∷ ts) = Scheduled-append ts

module _ {Net : Type 0} (drv : Driver Net) (world : World Net) where
  same_events :
      (s : Stream Net) (net net' : Net) (events events' : Mask)
      → s.socket ≡ some net
      → s.socket ≡ some net'
      → drv.events net ≡ ok events
      → drv.events net' ≡ ok events'
      → events ≡ events'
  same_events s net net' events events' h h' e e' = cc

  schedule-IsAwake :
      (s : Stream Net) (net : Net) (r : Result Mask)
      → s.socket ≡ some net
      → drv.events net ≡ r
      → (schedule drv world s.state r s).0 ≡ ok tt
      → IsAwake drv (schedule drv world s.state r s).1
  unfolding schedule
  schedule-IsAwake s net (err x) o r h = absurd (cc)
  schedule-IsAwake s net (ok now) o r h = elim (Bool-cases (any (inter s.state now))) [
    | inl pending ↦ rw pending (λ net' events es ev e. Scheduled-append s.loop)
    | inr quiet ↦ rw quiet λ net' events es ev e. absurd (
        let f : any (inter s.state events) ≡ false =
          subst (λ (m : Mask). any (inter s.state m) ≡ false)
            (same_events s net net' now events o es r ev) quiet in
        cc)
  ]

  update_handler_open :
      (state : Mask) (s : Stream Net) (net : Net)
      → s.socket ≡ some net
      → update_handler drv world state s ≡ schedule drv world state (drv.events net) s
  unfolding update_handler
  update_handler_open state s net o = λ i. elim (o i) as (λ _. Result (Unit {0}) × Stream Net) [
    | none ↦ (ok tt, s)
    | some n ↦ schedule drv world state (drv.events n) s
  ]

  update_handler_gone :
      (state : Mask) (s : Stream Net)
      → s.socket ≡ none
      → update_handler drv world state s ≡ (ok tt, s)
  unfolding update_handler
  update_handler_gone state s o = λ i. elim (o i) as (λ _. Result (Unit {0}) × Stream Net) [
    | none ↦ (ok tt, s)
    | some n ↦ schedule drv world state (drv.events n) s
  ]

  update_handler-IsAwake :
      (s : Stream Net)
      → (update_handler drv world s.state s).0 ≡ ok tt
      → IsAwake drv (update_handler drv world s.state s).1
  update_handler-IsAwake s h = elim (Option-cases s.socket) [
    | inl o ↦
        subst (λ (r : Result (Unit {0}) × Stream Net). IsAwake drv r.1)
          (sym (update_handler_gone s.state s o)) (λ net events es ev e. absurd (cc))
    | inr (net, o) ↦
        let e = update_handler_open s.state s net o in
        subst (λ (r : Result (Unit {0}) × Stream Net). IsAwake drv r.1) (sym e)
          (schedule-IsAwake s net (drv.events net) o refl (rw (← e) h))
  ]

  -- A method that returned left the stream awake.
  abbrev AwakeAfter : Result (Unit {0}) × Stream Net → Type 0
  AwakeAfter r = r.0 ≡ ok tt → IsAwake drv r.1

  after_if :
      (b : Bool) (x y : Result (Unit {0}) × Stream Net)
      → (b ≡ true → AwakeAfter x)
      → (b ≡ false → AwakeAfter y)
      → AwakeAfter (if b then x else y)
  after_if true x y h k = h refl
  after_if false x y h k = k refl

  after_continue :
      {A : Type 0} (r : Result A) (f : A → Exec (Stream Net) (Unit {0})) (s : Stream Net)
      → ((a : A) → AwakeAfter (f a s))
      → AwakeAfter (continue r f s)
  after_continue (ok a) f s h = h a
  after_continue (err e) f s h = λ q. absurd (cc)

  -- Where the stream has lost its socket there is nothing to be awake for.
  after_gone : (s : Stream Net) → is_open s ≡ false → AwakeAfter (ok tt, s)
  after_gone s o h net events es ev e = absurd (ground (arith, es))

  rebuild_io_state-IsAwake : (s : Stream Net) → AwakeAfter (rebuild_io_state drv world s)
  unfolding rebuild_io_state
  rebuild_io_state-IsAwake s =
      after_if (is_open s) _ _
        (λ o. update_handler-IsAwake (record s { state = mask (receiving s) (sending s) }))
        (after_gone s)

  add_io_state-IsAwake : (m : Mask) (s : Stream Net) → AwakeAfter (add_io_state drv world m s)
  unfolding add_io_state
  add_io_state-IsAwake m s = update_handler-IsAwake (record s { state = union s.state m })

  drop_io_state-IsAwake : (m : Mask) (s : Stream Net) → AwakeAfter (drop_io_state drv world m s)
  unfolding drop_io_state
  drop_io_state-IsAwake m s = update_handler-IsAwake (record s { state = minus s.state m })

  on_recv-IsAwake :
      (k : Option Callback) (copy : Bool) (s : Stream Net) → AwakeAfter (on_recv drv world k copy s)
  unfolding on_recv
  on_recv-IsAwake none copy s =
      after_continue (check_closed drv world s).0 _ (check_closed drv world s).1
        (λ _. drop_io_state-IsAwake pollin_mask _)
  on_recv-IsAwake (some k) copy s =
      after_continue (check_closed drv world s).0 _ (check_closed drv world s).1
        (λ _. add_io_state-IsAwake pollin_mask _)

  send_multipart-IsAwake :
      (p : Packet) (k : Option Callback) (s : Stream Net)
      → AwakeAfter (send_multipart drv world p k s)
  unfolding send_multipart
  send_multipart-IsAwake p k s =
      after_continue (on_send drv world _ _).0 _ _ (λ _. add_io_state-IsAwake pollout_mask _)

  rest_of_dispatch-IsAwake :
      (events : Mask) (b : Bool) (s : Stream Net)
      → b ≡ is_open s
      → AwakeAfter (rest_of_dispatch drv world events b s)
  unfolding rest_of_dispatch
  rest_of_dispatch-IsAwake events false s e = after_gone s (sym e)
  rest_of_dispatch-IsAwake events true s e =
      after_continue (when (events.pollout && sending s) (handle_send drv world) s).0 _ _
        (λ _. rebuild_io_state-IsAwake _)

  dispatch-IsAwake : (events : Mask) (s : Stream Net) → AwakeAfter (dispatch drv world events s)
  unfolding dispatch
  dispatch-IsAwake events s =
      after_continue (when (events.pollin && receiving s) (handle_recv drv world) s).0 _ _
        (λ _. rest_of_dispatch-IsAwake events _ _ refl)

  -- Where the events cannot be read, none is known to be pending.
  unread-IsAwake :
      (s : Stream Net) (net : Net) (x : Error)
      → s.socket ≡ some net
      → drv.events net ≡ err x
      → IsAwake drv s
  unread-IsAwake s net x o r net' events es ev e = absurd (cc)

  start_dispatch-IsAwake :
      (r : Result Mask) (s : Stream Net) (net : Net)
      → s.socket ≡ some net
      → drv.events net ≡ r
      → AwakeAfter (start_dispatch drv world r s)
  unfolding start_dispatch
  start_dispatch-IsAwake (ok events) s net o r = dispatch-IsAwake events s
  start_dispatch-IsAwake (err (zmq_error n)) s net o r =
      after_if (n == drv.eterm) (ok tt, s) (err (zmq_error n), s)
        (λ _ _. unread-IsAwake s net (zmq_error n) o r)
        (λ _ _. unread-IsAwake s net (zmq_error n) o r)
  start_dispatch-IsAwake (err x) s net o r = λ q. absurd (cc)

  after_socket :
      (o : Option Net) (x : Result (Unit {0}) × Stream Net)
      (f : Net → Result (Unit {0}) × Stream Net)
      → (o ≡ none → AwakeAfter x)
      → ((net : Net) → o ≡ some net → AwakeAfter (f net))
      → AwakeAfter (elim o as (λ _. Result (Unit {0}) × Stream Net) [ none ↦ x | some net ↦ f net ])
  after_socket none x f h k = h refl
  after_socket (some net) x f h k = k net refl

  handle_events-IsAwake : (s : Stream Net) → AwakeAfter (handle_events drv world s)
  unfolding handle_events
  handle_events-IsAwake s =
      after_socket s.socket _ _ (λ o. after_gone s (rw o))
        (λ net o. start_dispatch-IsAwake (drv.events net) s net o refl)

  -- When `_handle_events` returns without raising, whatever the callbacks did in between, no event
  -- that the stream watches is pending on its socket without a call of `_handle_events` scheduled on
  -- the loop.
  pub handle_events_wakes :
      (s : Stream Net)
      → (handle_events drv world s).0 ≡ ok tt
      → IsAwake drv (handle_events drv world s).1
  handle_events_wakes s h = handle_events-IsAwake s h

  -- When `on_recv` returns without raising, for a callback or for none, no event that the stream
  -- watches is pending on its socket without a call of `_handle_events` scheduled on the loop.
  pub on_recv_wakes :
      (k : Option Callback) (copy : Bool) (s : Stream Net)
      → (on_recv drv world k copy s).0 ≡ ok tt
      → IsAwake drv (on_recv drv world k copy s).1
  on_recv_wakes k copy s h = on_recv-IsAwake k copy s h

  -- When `send_multipart` returns without raising, no event that the stream watches is pending on
  -- its socket without a call of `_handle_events` scheduled on the loop.
  pub send_multipart_wakes :
      (p : Packet) (k : Option Callback) (s : Stream Net)
      → (send_multipart drv world p k s).0 ≡ ok tt
      → IsAwake drv (send_multipart drv world p k s).1
  send_multipart_wakes p k s h = send_multipart-IsAwake p k s h
