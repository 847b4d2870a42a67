-- ===== src/Async/Settled.antt =====
-- Each method of the asynchronous socket keeps the status of a future that is done.
use pyzmq.Base.{
  ℕ, suc, ◌<◌, ◌≡◌, refl, sym, ap, ◌∙◌, inl, inr, Bool, true, false, not, ◌&&◌, Option, none, some,
  List, [], ◌∷◌, ◌++◌, Result, ok, err, arith, if◌then◌else◌, ◌==◌, ==_iff, nat_eq, Bool-cases,
  Bytes, is_empty, zmq_error,
}
use pyzmq.Base.Dict
use pyzmq.Base.Dict.{Dict}
use pyzmq.Base.Mask.{Mask, pollin_mask, pollout_mask}
use pyzmq.Base.Exec.{
  Exec, gets, modify, ◌>>=◌, ◌>>◌, when, Keeps, kept-if, Keeps-gets, Keeps-if, Keeps-bind,
  Keeps-then, Keeps-pure,
}
use pyzmq.Base.Leads.{Leads, Leads-if, Leads-bind, Leads-after}
use pyzmq.Async.{
  Value, Status, pending, ready, result, exception, is_done, Kind, Kwargs, poll, whole, multipart,
  Event, Driver, Task, Socket, status_of, pop_pending, drop_io_state, cancel_timer, take_recv,
  take_send, resolve, receive_into, send_into, finish_recv, finish_send, complete_recv,
  complete_send, drain_recv, drain_send, handle_recv, handle_send, handle_events, future_timeout,
  new_future, add_timeout, queue_recv, queue_send, add_recv_event, add_send_event, settle_send,
  try_send, early_send, after_early, is_poll, get, cancel_all, close, perform, cancelled,
  handles_events, times_out, removes_recv, removes_send,
}
use pyzmq.Async.Queues.{IsSplit, pop_pending-IsSplit}
use pyzmq.Async.Quiet.{
  add_timeout-Keeps, watch_recv-Keeps, watch_send-Keeps, add_io_state-Keeps, get_events-Keeps,
  schedule_remaining_events-Keeps, cancel_timer-Keeps, drop_io_state-Keeps,
}

-- The future was made and has the status.
pub record HasStatus (f : ℕ) (st : Status) (d : Dict ℕ Status) (n : ℕ) : Type 0 where
  pub made : f < n
  pub has : status_of f d ≡ st

status_of-insert :
    (g f : ℕ) (new : Status) (d : Dict ℕ Status)
    → status_of f (Dict.insert g new d) ≡ (if g == f then new else status_of f d)
unfolding status_of
status_of-insert g f new d = ground (arith, Dict.lookup-insert g f new d)

module _ {Net : Type 0} (drv : Driver Net) (f : ℕ) (st : Status) (settled : is_done st ≡ true) where
  abbrev pub IsSettled : Socket Net → Type 0
  IsSettled s = HasStatus f st s.statuses s.next_future

  -- Besides, the future `g` is not done.
  record IsOpen (g : ℕ) (d : Dict ℕ Status) (n : ℕ) : Type 0 where
    other : HasStatus f st d n
    waits : is_done (status_of g d) ≡ false

  abbrev Waiting : ℕ → Socket Net → Type 0
  Waiting g s = IsOpen g s.statuses s.next_future

  resolve-Leads : (g : ℕ) (new : Status) → Leads (Waiting g) IsSettled (resolve drv g new)
  unfolding resolve
  resolve-Leads g new = record {
    at = λ s h. record {
      made = h.other.made;
      has = elim (Bool-cases (g == f)) [
        | inl e ↦ absurd (let x : false ≡ true = same s h ((==_iff g f).0 e) in cc)
        | inr e ↦ rw (status_of-insert g f new s.statuses) (rw e (h.other.has))
      ];
    };
  }
    where
      same : (s : Socket Net) → Waiting g s → g ≡ f → false ≡ true
      same s h e =
          sym h.waits
          ∙ ap (λ (x : ℕ). is_done (status_of x s.statuses)) e
          ∙ ap is_done h.other.has
          ∙ settled

  weaker : (g : ℕ) (s : Socket Net) → Waiting g s → IsSettled s
  weaker g s h = h.other

  receive_into-Leads :
      (g : ℕ) (kind : Kind) (kwargs : Kwargs)
      → Leads (Waiting g) IsSettled (receive_into drv g kind kwargs)
  unfolding receive_into
  receive_into-Leads g kind kwargs = record {
    at = λ s h.
        (resolve-Leads g _).at (record s { net = (drv.recv kind kwargs s.net).1 })
          (record { other = h.other; waits = h.waits });
  }

  send_into-Leads :
      (g : ℕ) (kind : Kind) (msg : List Bytes) (kwargs : Kwargs)
      → Leads (Waiting g) IsSettled (send_into drv g kind msg kwargs)
  unfolding send_into
  send_into-Leads g kind msg kwargs = record {
    at = λ s h.
        (resolve-Leads g _).at (record s { net = (drv.send kind msg kwargs s.net).1 })
          (record { other = h.other; waits = h.waits });
  }

  finish_recv-Leads :
      (g : ℕ) (kind : Kind) (kwargs : Kwargs)
      → Leads (Waiting g) IsSettled (finish_recv drv g kind kwargs)
  unfolding finish_recv
  finish_recv-Leads g poll kwargs = resolve-Leads g (result ready)
  finish_recv-Leads g whole kwargs = receive_into-Leads g whole _
  finish_recv-Leads g multipart kwargs = receive_into-Leads g multipart _

  finish_send-Leads :
      (g : ℕ) (kind : Kind) (msg : List Bytes) (kwargs : Kwargs)
      → Leads (Waiting g) IsSettled (finish_send drv g kind msg kwargs)
  unfolding finish_send
  finish_send-Leads g poll msg kwargs = resolve-Leads g (result ready)
  finish_send-Leads g whole msg kwargs = send_into-Leads g whole msg _
  finish_send-Leads g multipart msg kwargs = send_into-Leads g multipart msg _

  -- What a handler has in its hand: an event that waits, or nothing.
  abbrev Held : Option Event → Socket Net → Type 0
  Held none s = IsSettled s
  Held (some e) s = Waiting e.future s

  complete_recv-Leads : (o : Option Event) → Leads (Held o) IsSettled (complete_recv drv o)
  unfolding complete_recv
  complete_recv-Leads none = record { at = λ s h. h }
  complete_recv-Leads (some e) =
      Leads-bind (cancel_timer drv e) _ (cancel_timer-Keeps drv (IsOpen e.future) e)
        (weaker e.future) (λ _. finish_recv-Leads e.future e.kind e.kwargs)

  complete_send-Leads : (o : Option Event) → Leads (Held o) IsSettled (complete_send drv o)
  unfolding complete_send
  complete_send-Leads none = record { at = λ s h. h }
  complete_send-Leads (some e) =
      Leads-bind (cancel_timer drv e) _ (cancel_timer-Keeps drv (IsOpen e.future) e)
        (weaker e.future) (λ _. finish_send-Leads e.future e.kind e.msg e.kwargs)

  drop_io_state-Held : (o : Option Event) (m : Mask) → Keeps (Held o) (drop_io_state drv m)
  drop_io_state-Held none m = drop_io_state-Keeps drv (HasStatus f st) m
  drop_io_state-Held (some e) m = drop_io_state-Keeps drv (IsOpen e.future) m

  Held-weaker : (o : Option Event) (s : Socket Net) → Held o s → IsSettled s
  Held-weaker none s h = h
  Held-weaker (some e) s h = h.other

  -- What is taken off a queue waits.
  taken-Held :
      (r : Option Event × List Event) (queue : List Event) (s t : Socket Net)
      → IsSplit s.statuses queue r
      → t.statuses ≡ s.statuses
      → t.next_future ≡ s.next_future
      → IsSettled s
      → Held r.0 t
  taken-Held (none, rest) queue s t p e n h = record { made = rw n h.made; has = rw e h.has }
  taken-Held (some x, rest) queue s t p e n h = record {
    other = record { made = rw n h.made; has = rw e h.has };
    waits = rw e p.first.0;
  }

  rest_of_recv-Leads :
      (o : Option Event)
      → Leads (Held o) IsSettled (
          gets (λ (s : Socket Net). is_empty s.recv_futures) >>= λ drained.
          when drained (drop_io_state drv pollin_mask) >> complete_recv drv o)
  rest_of_recv-Leads o = Leads-bind (gets _) _ (Keeps-gets _) (Held-weaker o) λ drained.
      Leads-bind (when drained (drop_io_state drv pollin_mask)) (λ _. complete_recv drv o)
        (Keeps-if drained _ _ (drop_io_state-Held o pollin_mask) (Keeps-pure tt)) (Held-weaker o)
        (λ _. complete_recv-Leads o)

  rest_of_send-Leads :
      (o : Option Event)
      → Leads (Held o) IsSettled (
          gets (λ (s : Socket Net). is_empty s.send_futures) >>= λ drained.
          when drained (drop_io_state drv pollout_mask) >> complete_send drv o)
  rest_of_send-Leads o = Leads-bind (gets _) _ (Keeps-gets _) (Held-weaker o) λ drained.
      Leads-bind (when drained (drop_io_state drv pollout_mask)) (λ _. complete_send drv o)
        (Keeps-if drained _ _ (drop_io_state-Held o pollout_mask) (Keeps-pure tt)) (Held-weaker o)
        (λ _. complete_send-Leads o)

  drain_recv-Keeps : Keeps IsSettled (drain_recv drv)
  unfolding drain_recv take_recv
  drain_recv-Keeps = record {
    at = λ s h.
        let r = pop_pending s.statuses s.recv_futures in
        (rest_of_recv-Leads r.0).at (record s { recv_futures = r.1 })
          (taken-Held r s.recv_futures s (record s { recv_futures = r.1 })
            (pop_pending-IsSplit s.statuses s.recv_futures) refl refl h);
  }

  drain_send-Keeps : Keeps IsSettled (drain_send drv)
  unfolding drain_send take_send
  drain_send-Keeps = record {
    at = λ s h.
        let r = pop_pending s.statuses s.send_futures in
        (rest_of_send-Leads r.0).at (record s { send_futures = r.1 })
          (taken-Held r s.send_futures s (record s { send_futures = r.1 })
            (pop_pending-IsSplit s.statuses s.send_futures) refl refl h);
  }

  handle_recv-Keeps : Keeps IsSettled (handle_recv drv)
  unfolding handle_recv
  handle_recv-Keeps =
      Keeps-bind _ _ (get_events-Keeps drv (HasStatus f st))
        λ events. Keeps-if events.pollin _ _ drain_recv-Keeps (Keeps-pure tt)

  handle_send-Keeps : Keeps IsSettled (handle_send drv)
  unfolding handle_send
  handle_send-Keeps =
      Keeps-bind _ _ (get_events-Keeps drv (HasStatus f st))
        λ events. Keeps-if events.pollout _ _ drain_send-Keeps (Keeps-pure tt)

  handle_events-Keeps : Keeps IsSettled (handle_events drv)
  unfolding handle_events
  handle_events-Keeps = Keeps-bind _ _ (get_events-Keeps drv (HasStatus f st)) λ events.
      Keeps-then _ _ (Keeps-if events.pollin _ _ handle_recv-Keeps (Keeps-pure tt)) (
        Keeps-then _ _ (Keeps-if events.pollout _ _ handle_send-Keeps (Keeps-pure tt))
          (schedule_remaining_events-Keeps drv (HasStatus f st) none))

  future_timeout-Keeps : (g : ℕ) → Keeps IsSettled (future_timeout drv g)
  unfolding future_timeout
  future_timeout-Keeps g = record {
    at = λ s h.
        kept-if IsSettled (is_done (status_of g s.statuses)) _ _ (λ _. h)
          (λ e. (resolve-Leads g _).at s (record { other = h; waits = e }));
  }

  new_future_facts :
      (s : Socket Net) → IsSettled s → (f < s.next_future) × (status_of f s.statuses ≡ st)
  new_future_facts s h = (h.made, h.has)

  new_future-Waiting : (s : Socket Net) → IsSettled s → Waiting s.next_future (new_future drv s).1
  unfolding new_future
  new_future-Waiting s h = record {
    other = record {
      made = let k : f < s.next_future = h.made in omega arith;
      has =
          let (k, q) = new_future_facts s h in
          ground (arith, status_of-insert s.next_future f pending s.statuses);
    };
    waits =
        rw (status_of-insert s.next_future s.next_future pending s.statuses)
          (rw ((==_iff s.next_future s.next_future).1 refl) refl);
  }

  add_timeout-Settled : (g : ℕ) (t : Option ℕ) → Keeps IsSettled (add_timeout drv g t)
  add_timeout-Settled g t = add_timeout-Keeps drv (HasStatus f st) g t

  queue_recv-Keeps :
      (g : ℕ) (kind : Kind) (kwargs : Kwargs) → Keeps IsSettled (queue_recv drv g kind kwargs)
  unfolding queue_recv
  queue_recv-Keeps g kind kwargs =
      Keeps-bind (gets (λ (s : Socket Net). drv.rcvtimeo s.net)) _ (Keeps-gets _) λ timeout.
        Keeps-bind _ _ (add_timeout-Settled g timeout) λ timer.
          Keeps-then
            (modify (λ (s : Socket Net). record s {
              recv_futures =
                  s.recv_futures
                  ++ (record { future = g; kind = kind; kwargs = kwargs; msg = []; timer = timer }
                      ∷ []);
            }))
            _ (record { at = λ s h. record { made = h.made; has = h.has } })
            (Keeps-then _ _ (watch_recv-Keeps drv (HasStatus f st) g) (
              Keeps-bind _ _ (get_events-Keeps drv (HasStatus f st)) λ events.
                Keeps-then _ _ (Keeps-if events.pollin _ _ handle_recv-Keeps (Keeps-pure tt)) (
                  Keeps-bind (gets (λ (s : Socket Net). not (is_empty s.recv_futures))) _
                    (Keeps-gets _)
                    λ waiting.
                      Keeps-if waiting _ _ (add_io_state-Keeps drv (HasStatus f st) pollin_mask)
                        (Keeps-pure tt))))

  queue_send-Keeps :
      (g : ℕ) (kind : Kind) (msg : List Bytes) (kwargs : Kwargs)
      → Keeps IsSettled (queue_send drv g kind msg kwargs)
  unfolding queue_send
  queue_send-Keeps g kind msg kwargs =
      Keeps-bind (gets (λ (s : Socket Net). drv.sndtimeo s.net)) _ (Keeps-gets _) λ timeout.
        Keeps-bind _ _ (add_timeout-Settled g timeout) λ timer.
          Keeps-then
            (modify (λ (s : Socket Net). record s {
              send_futures =
                  s.send_futures
                  ++ (record { future = g; kind = kind; kwargs = kwargs; msg = msg; timer = timer }
                      ∷ []);
            }))
            _ (record { at = λ s h. record { made = h.made; has = h.has } })
            (Keeps-then _ _ (watch_send-Keeps drv (HasStatus f st) g)
              (add_io_state-Keeps drv (HasStatus f st) pollout_mask))

  -- A method that leads from a state where its future waits, on a new future.
  with_new_future :
      {A : Type 0} (k : ℕ → Exec (Socket Net) A)
      → ((g : ℕ) → Leads (Waiting g) IsSettled (k g))
      → Keeps IsSettled (new_future drv >>= k)
  unfolding new_future
  with_new_future k lk = record {
    at = λ s h.
        (lk s.next_future).at
          (record s {
            statuses = Dict.insert s.next_future pending s.statuses;
            next_future = suc s.next_future;
          })
          (new_future-Waiting s h);
  }

  from_IsSettled :
      {A : Type 0} (g : ℕ) (m : Exec (Socket Net) A)
      → Keeps IsSettled m
      → Leads (Waiting g) IsSettled m
  from_IsSettled g m k = record { at = λ s h. k.at s h.other }

  pub add_recv_event-Keeps :
      (kind : Kind) (kwargs : Kwargs) → Keeps IsSettled (add_recv_event drv kind kwargs)
  unfolding add_recv_event
  add_recv_event-Keeps kind kwargs = with_new_future _ λ g.
      Leads-after _ _
        (Leads-if _ _ _ (receive_into-Leads g kind kwargs)
          (from_IsSettled g _ (queue_recv-Keeps g kind kwargs)))
        (λ _. Keeps-pure g)

  settle_send-Leads :
      (g : ℕ) (kwargs : Kwargs) (r : Result Value)
      → Leads (Waiting g) IsSettled (settle_send drv g kwargs r)
  unfolding settle_send
  settle_send-Leads g kwargs (ok v) =
      Leads-after (resolve drv g (result v)) _ (resolve-Leads g (result v)) (λ _. Keeps-pure true)
  settle_send-Leads g kwargs (err (zmq_error n)) =
      Leads-if _ _ _ (from_IsSettled g _ (Keeps-pure false)) (
        Leads-after (resolve drv g (exception (zmq_error n))) _ (resolve-Leads g _)
          (λ _. Keeps-pure true))
  settle_send-Leads g kwargs (err e) =
      Leads-after (resolve drv g (exception e)) _ (resolve-Leads g (exception e))
        (λ _. Keeps-pure true)

  early_send-Leads :
      (g : ℕ) (kind : Kind) (msg : List Bytes) (kwargs : Kwargs)
      → Leads (Waiting g) IsSettled (early_send drv g kind msg kwargs)
  unfolding early_send try_send
  early_send-Leads g kind msg kwargs = record {
    at = λ s h.
        kept-if IsSettled (not (is_poll drv kind) && is_empty s.send_futures) _ _
          (λ _.
            let r = drv.send kind msg (record kwargs { dontwait = true }) s.net in
            (settle_send-Leads g kwargs r.0).at (record s { net = r.1 })
              (record { other = h.other; waits = h.waits }))
          (λ _. h.other);
  }

  after_early-Keeps :
      (g : ℕ) (kind : Kind) (msg : List Bytes) (kwargs : Kwargs) (b : Bool)
      → Keeps IsSettled (after_early drv g kind msg kwargs b)
  unfolding after_early
  after_early-Keeps g kind msg kwargs true =
      Keeps-bind (gets (λ (s : Socket Net). not (is_empty s.recv_futures))) _ (Keeps-gets _)
        λ receivers.
          Keeps-if receivers _ _ (schedule_remaining_events-Keeps drv (HasStatus f st) none)
            (Keeps-pure tt)
  after_early-Keeps g kind msg kwargs false = queue_send-Keeps g kind msg kwargs

  pub add_send_event-Keeps :
      (kind : Kind) (msg : List Bytes) (kwargs : Kwargs)
      → Keeps IsSettled (add_send_event drv kind msg kwargs)
  unfolding add_send_event
  add_send_event-Keeps kind msg kwargs = with_new_future _ λ g.
      Leads-after (early_send drv g kind msg kwargs) _ (early_send-Leads g kind msg kwargs)
        λ finished. Keeps-then _ _ (after_early-Keeps g kind msg kwargs finished) (Keeps-pure g)

  pub get-Keeps : Keeps IsSettled (get drv)
  unfolding get
  get-Keeps = Keeps-bind _ _ (get_events-Keeps drv (HasStatus f st)) λ events.
      Keeps-then _ _ (schedule_remaining_events-Keeps drv (HasStatus f st) (some events))
        (Keeps-pure events)

  cancel_all-Keeps : (es : List Event) → Keeps IsSettled (cancel_all drv es)
  unfolding cancel_all
  cancel_all-Keeps [] = record { at = λ s h. h }
  cancel_all-Keeps (e ∷ es) = record {
    at = λ s h. (cancel_all-Keeps es).at _ (
        if_settled (is_done (status_of e.future s.statuses)) s (resolve drv e.future cancelled s).1
          (λ _. h)
          (λ b. (resolve-Leads e.future cancelled).at s (record { other = h; waits = b })));
  }
    where
      if_settled :
          (b : Bool) (s t : Socket Net)
          → (b ≡ true → IsSettled s)
          → (b ≡ false → IsSettled t)
          → IsSettled (if b then s else t)
      if_settled true s t h k = h refl
      if_settled false s t h k = k refl

  pub close-Keeps : Keeps IsSettled (close drv)
  unfolding close
  close-Keeps = record {
    at = λ s h.
        kept-if IsSettled s.closed _ _ (λ _. h)
          (λ _.
            let k = (cancel_all-Keeps (s.recv_futures ++ s.send_futures)).at s h in
            record { made = k.made; has = k.has });
  }

  pub perform-Keeps : (t : Task) → Keeps IsSettled (perform drv t)
  unfolding perform
  perform-Keeps handles_events = handle_events-Keeps
  perform-Keeps (times_out g) = future_timeout-Keeps g
  perform-Keeps (removes_recv g) = record { at = λ s h. record { made = h.made; has = h.has } }
  perform-Keeps (removes_send g) = record { at = λ s h. record { made = h.made; has = h.has } }
