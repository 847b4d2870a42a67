-- ===== src/Async/Quiet.antt =====
-- The methods of the asynchronous socket that leave the table of futures alone.
use pyzmq.Base.{
  ℕ, inl, inr, true, Option, none, some, ◌∷◌, Result, ok, err, if◌then◌else◌, ◌==◌, nat_eq,
  Bool-cases,
}
use pyzmq.Base.Dict.{Dict}
use pyzmq.Base.Mask.{Mask, any, inter, union, minus}
use pyzmq.Base.Exec.{Exec, Keeps, Keeps-if, Keeps-then, Keeps-pure, keeps_rules, kept-if}
use pyzmq.Async.{
  Status, is_done, Event, Driver, Task, handles_events, removes_recv, removes_send, Socket,
  status_of, call_soon, init_io_state, get_loop, call_later, schedule, schedule_remaining_events,
  update_handler, add_io_state, drop_io_state, add_timeout, cancel_timer, get_events, watch_recv,
  watch_send,
}

-- `Q` is any property of the table of futures and of the number of futures.
module _ {Net : Type 0} (drv : Driver Net) (Q : Dict ℕ Status → ℕ → Type 0) where
  abbrev Kept : {A : Type 0} → Exec (Socket Net) A → Type 0
  Kept m = Keeps (λ (s : Socket Net). Q s.statuses s.next_future) m

  pub call_soon-Keeps : (t : Task) → Kept (call_soon drv t)
  unfolding call_soon
  call_soon-Keeps t = record { at = λ s h. h }

  pub init_io_state-Keeps : (l : ℕ) → Kept (init_io_state drv l)
  unfolding init_io_state
  init_io_state-Keeps l = record {
    at = λ s h. (call_soon-Keeps handles_events).at (record s { handlers = l ∷ s.handlers }) h;
  }

  pub get_loop-Keeps : Kept (get_loop drv)
  unfolding get_loop
  get_loop-Keeps = record { at = λ s h. get_loop_kept s h s.current_loop }
    where
      get_loop_kept :
          (s : Socket Net)
          → Q s.statuses s.next_future
          → (o : Option ℕ)
          → let l = drv.default_loop s.net in
            let r = elim o as (λ _. Result (Unit {0}) × Socket Net) [
              | none ↦ init_io_state drv l (record s { current_loop = some l })
              | some m ↦
                  if m == l
                  then (ok tt, s)
                  else init_io_state drv l (record s { current_loop = some l })
            ] in
            Q r.1.statuses r.1.next_future
      get_loop_kept s h none =
          (init_io_state-Keeps (drv.default_loop s.net)).at
            (record s { current_loop = some (drv.default_loop s.net) }) h
      get_loop_kept s h (some m) = elim (Bool-cases (m == drv.default_loop s.net)) [
        | inl e ↦ rw e h
        | inr e ↦ rw e (
            (init_io_state-Keeps (drv.default_loop s.net)).at
              (record s { current_loop = some (drv.default_loop s.net) }) h)
      ]

  pub call_later-Keeps : (t : Task) → Kept (call_later drv t)
  unfolding call_later
  call_later-Keeps t = search (keeps_rules, get_loop-Keeps, call_soon-Keeps)

  pub schedule-Keeps : (r : Result Mask) → Kept (schedule drv r)
  unfolding schedule
  schedule-Keeps (ok events) = record {
    at = λ s h.
        (Keeps-if (any (inter events s.state)) _ _ (call_later-Keeps _) (Keeps-pure tt)).at s h;
  }
  schedule-Keeps (err e) = record { at = λ s h. h }

  pub schedule_remaining_events-Keeps : (o : Option Mask) → Kept (schedule_remaining_events drv o)
  unfolding schedule_remaining_events
  schedule_remaining_events-Keeps o = record {
    at = λ s h.
        kept-if (λ (t : Socket Net). Q t.statuses t.next_future) (any s.state) _ _
          (λ _. (schedule-Keeps _).at s h) (λ _. h);
  }

  pub update_handler-Keeps : Kept (update_handler drv)
  unfolding update_handler
  update_handler-Keeps = search (keeps_rules, get_loop-Keeps, schedule_remaining_events-Keeps)

  pub add_io_state-Keeps : (m : Mask) → Kept (add_io_state drv m)
  unfolding add_io_state
  add_io_state-Keeps m = record {
    at = λ s h. update_handler-Keeps.at (record s { state = union s.state m }) h;
  }

  pub drop_io_state-Keeps : (m : Mask) → Kept (drop_io_state drv m)
  unfolding drop_io_state
  drop_io_state-Keeps m = record {
    at = λ s h. update_handler-Keeps.at (record s { state = minus s.state m }) h;
  }

  pub add_timeout-Keeps : (f : ℕ) (o : Option ℕ) → Kept (add_timeout drv f o)
  unfolding add_timeout
  add_timeout-Keeps f none = search keeps_rules
  add_timeout-Keeps f (some t) = Keeps-then _ _ (call_later-Keeps _) (Keeps-pure true)

  pub cancel_timer-Keeps : (e : Event) → Kept (cancel_timer drv e)
  unfolding cancel_timer
  cancel_timer-Keeps e = Keeps-if e.timer _ _ (record { at = λ s h. h }) (Keeps-pure tt)

  pub get_events-Keeps : Kept (get_events drv)
  unfolding get_events
  get_events-Keeps = record { at = λ s h. h }

  pub watch_recv-Keeps : (f : ℕ) → Kept (watch_recv drv f)
  unfolding watch_recv
  watch_recv-Keeps f = record {
    at = λ s h.
        (Keeps-if (is_done (status_of f s.statuses)) _ _ (call_soon-Keeps (removes_recv f))
            (Keeps-pure tt)).at
          (record s { recv_watched = f ∷ s.recv_watched }) h;
  }

  pub watch_send-Keeps : (f : ℕ) → Kept (watch_send drv f)
  unfolding watch_send
  watch_send-Keeps f = record {
    at = λ s h.
        (Keeps-if (is_done (status_of f s.statuses)) _ _ (call_soon-Keeps (removes_send f))
            (Keeps-pure tt)).at
          (record s { send_watched = f ∷ s.send_watched }) h;
  }
